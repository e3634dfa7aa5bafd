-- ===== src/Domain/Table.antt =====
-- `class Table` of include/poker/domain/table.hpp and src/poker/domain/table.cpp: a cash table from
-- seating to settlement.
mod Examples
pub mod State
pub mod Seats
pub mod Seating
pub mod Pots
pub mod Street
pub mod Betting
pub mod Hand
pub mod View
pub mod Sums
pub mod Reveal
pub mod Termination
pub mod Starting
pub mod Opening
pub mod Payment
pub mod Levels
pub mod Payout
pub mod Showdown
pub mod Conservation
pub mod FoldWin
pub mod Chips
pub mod Secrecy
pub mod Refusals
pub mod Stuck
pub mod Refund
