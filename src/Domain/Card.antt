-- ===== src/Domain/Card.antt =====
-- include/poker/domain/card.hpp and src/poker/domain/card.cpp. `Rank` and `Suit` have the underlying
-- type `std::uint8_t`, and the code casts numbers to them, so a card holds two bytes; an enumerator
-- is its value, from two = 2 to ace = 14 and from clubs = 0 to spades = 3.
mod Examples
pub mod Order
use Prim.Native.String
use poker.Prelude.{
  Bool, List, Run, [], done, if◌then◌else◌, ltb, suc, threw, zero, ℕ, ◌%◌, ◌&&◌, ◌*◌, ◌++◌, ◌+◌,
  ◌-◌, ◌==◌, ◌^◌, ◌||◌, ◌∷◌,
}

pub record Card : Type 0 where
  pub rank : ℕ
  pub suit : ℕ

abbrev pub card : ℕ → ℕ → Card
card r s = record { rank = r; suit = s }

-- `operator==`.
unfoldable pub card_eq : Card → Card → Bool
card_eq lhs rhs = lhs.rank == rhs.rank && lhs.suit == rhs.suit

unfoldable pub rank_value : Card → ℕ
rank_value c = c.rank

-- Computed in `unsigned int`, and cut to a byte.
unfoldable pub card_index : Card → ℕ
unfolding rank_value
card_index c = (c.suit * 13 + rank_value c + 2 ^ 32 - 2) % 2 ^ 32 % 2 ^ 8

-- `count` cards of one suit, from a rank upwards.
unfoldable pub suit_cards : ℕ → ℕ → ℕ → List Card
suit_cards suit zero rank = []
suit_cards suit (suc count) rank = card rank suit ∷ suit_cards suit count (rank + 1)

-- The ranks 2 to 14 of `suits` suits, from a suit upwards.
unfoldable pub suits_from : ℕ → ℕ → List Card
unfolding suit_cards
suits_from zero suit = []
suits_from (suc suits) suit = suit_cards suit 13 2 ++ suits_from suits (suit + 1)

unfoldable pub ordered_deck : List Card
unfolding suits_from
ordered_deck = suits_from 4 0

-- The tables `ranks` and `suits` of `toString(Card)`, as code points.
unfoldable pub rank_symbol : ℕ → ℕ
rank_symbol r =
    if r == 10
    then b'T'
    else if r == 11
    then b'J'
    else if r == 12
    then b'Q'
    else if r == 13
    then b'K'
    else if r == 14
    then b'A'
    else b'0' + r

unfoldable pub suit_symbol : ℕ → ℕ
suit_symbol s = if s == 0 then b'c' else if s == 1 then b'd' else if s == 2 then b'h' else b's'

-- `toString(Card)`, the text as its two code points.
unfoldable pub card_text : Card → Run (List ℕ)
unfolding rank_symbol suit_symbol rank_value
card_text c =
    if ltb (rank_value c) 2 || ltb 14 (rank_value c) || ltb 3 c.suit
    then threw
    else done (rank_symbol (rank_value c) ∷ suit_symbol c.suit ∷ [])
