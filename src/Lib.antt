-- ===== src/Lib.antt =====
-- Verification of rpi-fastbootd: the fastboot daemon of Raspberry Pi devices, and the libraries
-- that provision their storage.
--
-- A host talks to the daemon over USB or TCP. FastbootDevice (fastboot/device/fastboot_device.cpp)
-- reads a command, looks up its handler and makes sure that the host has its reply. The handlers
-- of `oem idpinit`, `idpwrite`, `idpgetblk` and `idpdone` (fastboot/device/commands.cpp) drive an
-- IDPdevice (rpiidp/src/device.cpp), which takes the description of an image, checks it against
-- the device, writes the partition table through RPIparted (rpiparted/src/rpiparted.cpp), makes
-- the encrypted containers and hands out one block device after the other to be flashed.
--
-- Prelude: Boolean tests and lists over native numbers, texts as lists of bytes (Prelude/Text),
--   results that may throw or trap (Prelude/Outcome), and rounding up (Prelude/Rounding).
-- Parted: rpiparted/src/rpiparted.cpp. Fdisk has libfdisk and the kernel as interfaces, Ops the
--   methods of RPIparted, Reread the retries of BLKRRPART, ZeroId the test of an identifier.
-- Idp: rpiidp/. Storage, Luks and Partition are the structs of idpstorage.h, idpcrypt.h and
--   idpparser.h with their methods. Parser is IDPparser (parser.cpp): Texts has its conversions,
--   Json the checked access to members, Version the versions (version.cpp), State the object,
--   Compat the checks of versions, Describe parseIGv2 in the order of its statements, Layout the
--   partitions that it builds, and Load has IGValidate, loadJSON and getImage, with the instance
--   `idp_parser` of the interface that IDPdevice uses. Navigator is PartitionNavigator (nav.cpp,
--   nav.h): Validate has the checks of blocks, Process the partitions at a node, Walk the steps in
--   and out and getPartitions, Foreach the visit of all nodes, Create the search for the node of a
--   partition. WalkTree is IDPparser::walkTree. Keys is crypt.cpp, with the files as a map from
--   paths to contents, and Utility is WaitBlockDev. Device/Platform has the state of IDPdevice and
--   the interfaces below it, Device/Validate the checks of canProvision, Device/Physical and
--   Device/Crypt the methods of IDPdeviceWriter, Device/Lifecycle the public methods.
-- Fastboot: fastboot/device/. Transport has the state of FastbootDevice, Response is
--   WriteStatus, Session is ExecuteCommands with HandleData and DecideAfterCommand, Transfer the
--   download and upload handlers and the getvar of the data plane with both command tables, Idp the four handlers named above, and
--   Idp/Reachable the states that a session comes to when its commands come in any order.
--   Files is PartitionHandle with the search for a partition (utility.h, utility.cpp), Flash is
--   flashing.cpp, Flash/Handler its last function with FlashHandler and EraseHandler, and Fetch is
--   FetchHandler, with the flag that FB_ENABLE_FETCH sets in the build of Android.bp and that the
--   build of CMake leaves unset; system calls and libsparse are their parameters. Flash/Disk says what the calls
--   do to the bytes of a device. Otp is otp.cpp: Otp/Mac the addresses, Otp/Mailbox the firmware,
--   Otp/Rows the rows of the customer, Otp/Commands the commands `oem mac` and `oem otp`.
--   FileWrite is file_write.cpp with `oem download-file`. PartitionLock is PartitionLockManager,
--   with the interleavings of the threads that use it, and PartitionLock/Monitor the abstract
--   monitor of the paths that are held.
-- Examples: runs on a small system, with the instances that the theorems are tried on.
--
-- How the code is modelled. A method is a function from the state of its object and a `World` to
-- a result, the new state and the new world; libfdisk, the kernel, udev, cryptsetup, the firmware,
-- libbase and the transport are records of functions on that world, of which nothing is assumed
-- except in the hypotheses of a theorem. An exception or a trap is a value of Outcome. Sixty-four
-- bit sums that may wrap are taken modulo 2 ^ 64. The parser of the description is the interface
-- Parser: its state, and what it gives of the image and of the partitions. The values of JSON are
-- the interface Json, which has the methods of Json::Value that the code calls; a shared pointer to
-- a partition is the number of the object.
--
-- Bounds. getSize recurses on fuel, one more than the number of partitions, and gives
-- stack_exhausted without it; walkTree and the loops over the partitions that change them take as
-- many rounds as there are partitions; rereadPartitionTable and WaitBlockDev take the number of
-- attempts of the source. foreachPartition has fuel for the weight of the node that it starts from,
-- since it enters each node once. FlashRawDataChunk and WriteFile have fuel for their writes, of
-- which each that goes on takes a byte at least, so that the number of bytes is enough; the loop of
-- Fetch has as much. ExecuteCommands has as much fuel as commands are read, since the host decides
-- about that.
--
-- Not modelled: the JSON reader and the reading of the file of a description, the native calls of
-- libcryptsetup, the other handlers of commands.cpp, the variables, the EEPROM, the transports, and
-- the log. The host client, libsparse and libasyncio are copies of AOSP.
pub mod Prelude
pub mod Idp
pub mod Parted
pub mod Fastboot
pub mod Examples
