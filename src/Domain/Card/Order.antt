-- ===== src/Domain/Card/Order.antt =====
-- The 52 cards: their numbering and their texts.
use poker.Domain.Card.{Card, card_index}
use poker.Prelude.{arith, ◌<◌, ◌≡◌, ◌≤◌}

-- A card that a deck can hold.
pub record IsCard (c : Card) : Type 0 where
  pub rank_ge : 2 ≤ c.rank
  pub rank_le : c.rank ≤ 14
  pub suit_le : c.suit ≤ 3

-- On the cards of a deck the index is below 52, and no two cards share one.
pub card_index_injective : (c d : Card) → IsCard c → IsCard d → card_index c ≡ card_index d → c ≡ d
unfolding card_index
card_index_injective c d p q e = ground arith

pub card_index-lt : (c : Card) → IsCard c → card_index c < 52
unfolding card_index
card_index-lt c p = ground arith
