-- ===== src/Fastboot.antt =====
-- fastbootd: the session with the host, and the handlers of its commands (fastboot/device/).
pub mod Transport
pub mod Response
pub mod Session
pub mod Transfer
pub mod Idp
pub mod PartitionLock
pub mod Files
pub mod Flash
pub mod Fetch
pub mod Otp
pub mod Replies
pub mod FileWrite
