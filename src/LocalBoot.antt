-- ===== src/LocalBoot.antt =====
-- localboot: booting from local storage.
pub mod Grub
pub mod Scan
pub mod Command
mod Tests
