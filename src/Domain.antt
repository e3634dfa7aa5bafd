-- ===== src/Domain.antt =====
-- The game rules: include/poker/domain and src/poker/domain.
pub mod Card
pub mod Deck
pub mod Evaluator
pub mod Table
