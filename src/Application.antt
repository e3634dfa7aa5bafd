-- ===== src/Application.antt =====
-- include/poker/application and src/poker/application.
pub mod Idempotency
pub mod Executor
pub mod Blocking
pub mod Rooms
