-- ===== src/Crypto.antt =====
-- pkg/crypto
pub mod Measure
pub mod Keys
