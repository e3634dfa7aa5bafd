-- ===== src/Storage.antt =====
-- include/poker/storage and src/poker/storage.
pub mod Accounts
pub mod Games
