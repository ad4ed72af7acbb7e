-- ===== src/Idp.antt =====
-- rpiidp: the Image Description Provisioning library.
pub mod Storage
pub mod Luks
pub mod Keys
pub mod Partition
pub mod WalkTree
pub mod Parser
pub mod Navigator
pub mod Utility
pub mod Device
