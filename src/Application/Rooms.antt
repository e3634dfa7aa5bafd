-- ===== src/Application/Rooms.antt =====
-- `RoomManager` of include/poker/application/room_manager.hpp and
-- src/poker/application/room_manager.cpp: the tables by their ids, and the tasks on them, which the
-- executor runs.
pub mod Tasks
pub mod Manager
pub mod Calls
pub mod Shut
pub mod Closed
pub mod Refusals
pub mod Timeout
mod Examples
