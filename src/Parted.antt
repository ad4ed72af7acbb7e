-- ===== src/Parted.antt =====
-- rpiparted: partition tables by way of libfdisk (rpiparted/src/rpiparted.cpp).
pub mod Fdisk
pub mod Reread
pub mod ZeroId
pub mod Device
pub mod Ops
pub mod Laws
