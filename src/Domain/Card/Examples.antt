-- ===== src/Domain/Card/Examples.antt =====
-- The theorems on cards, applied.
use poker.Domain.Card.{card, card_text, rank_symbol, suit_symbol}
use poker.Domain.Card.Order.{IsCard, card_index_injective}
use poker.Prelude.{[], arith, done, refl, ◌∷◌, ◌≡◌}

two_of_clubs-IsCard : IsCard (card 2 0)
two_of_clubs-IsCard = record { rank_ge = omega arith; rank_le = omega arith; suit_le = omega arith }

card_index_injective-test : card 2 0 ≡ card 2 0
card_index_injective-test =
    card_index_injective (card 2 0) (card 2 0) two_of_clubs-IsCard two_of_clubs-IsCard refl

card_text-test : card_text (card 10 3) ≡ done (84 ∷ 115 ∷ [])
unfolding card_text rank_symbol suit_symbol
card_text-test = refl
