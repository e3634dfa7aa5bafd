-- ===== src/Storage/Games.antt =====
-- `InMemoryGameStore` of include/poker/storage/in_memory_game_store.hpp and
-- src/poker/storage/in_memory_game_store.cpp, with the records of game_store.hpp and the tests of
-- game_store_validation.hpp. An operation runs under the store's mutex, so it is one step.
mod Examples
mod EdgeCases
pub mod Records
pub mod Validation
pub mod Store
pub mod Chips
pub mod Hands
pub mod Holdings
pub mod Totals
pub mod Bank
pub mod Moves
pub mod Payout
pub mod Refund
pub mod Refinement
pub mod Receipts
pub mod Replay
