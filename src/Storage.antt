-- ===== src/Storage.antt =====
-- pkg/storage: block devices.
pub mod Device
pub mod Filesystem
pub mod Stat
pub mod Uuid
pub mod Gpt
pub mod Stats
pub mod Summary
pub mod Mounts
mod Tests
