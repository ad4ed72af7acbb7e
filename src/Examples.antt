-- ===== src/Examples.antt =====
-- Runs of the development on concrete inputs.
pub mod Fixtures
pub mod Locks
pub mod Trees
pub mod Loading
pub mod Flashing
pub mod Planes
pub mod Fuses
pub mod Staged
pub mod Sessions
pub mod Devices
pub mod Partitions
pub mod Tables
pub mod Containers
pub mod Descriptions
