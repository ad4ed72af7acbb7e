-- ===== src/Idp/Device.antt =====
-- IDPdevice and its environment (rpiidp/include/idpdevice.h).
pub mod Platform
pub mod Validate
pub mod Physical
pub mod Crypt
pub mod Lifecycle
pub mod Frame
pub mod Checks
pub mod Gate
pub mod Capacity
pub mod Hidden
