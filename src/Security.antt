-- ===== src/Security.antt =====
-- include/poker/security and src/poker/security.
pub mod Crypto
pub mod Results
pub mod Auth
