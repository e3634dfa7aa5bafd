-- ===== src/Domain/Evaluator/Examples.antt =====
-- Hands of several categories, and the theorems on the evaluator applied to them.
use poker.Domain.Card.{
  Card, card, card_eq, card_index, card_text, ordered_deck, rank_symbol, rank_value, suit_cards,
  suit_symbol, suits_from,
}
use poker.Domain.Deck.{
  all_new, burn, contains, deterministic_uniform, draw, fixed_deck, remaining, seeded, shuffle_from,
  shuffled_deck, swap_at, xorshift,
}
use poker.Domain.Deck.Shuffle.{swap_at-perm}
use poker.Domain.Evaluator.{
  HandValue, best_of, better, category_value, choose, classify, classify_pairs, classify_rest,
  count_rank, count_suit, descending_ranks, evaluate_best, evaluate_five, first_or_zero, flush,
  full_house, hand, last_or_zero, list_eq, list_lt, one_pair, or_default, ranks_from, ranks_with,
  straight, straight_from, straight_high, value_eq, value_lt,
}
use poker.Domain.Evaluator.Best.{Choice, evaluate_best_lem}
use poker.Domain.Evaluator.Invariance.{evaluate_five-perm}
use poker.Domain.Evaluator.Order.{value_lt_trans, value_lt_trichotomy}
use poker.Prelude.{List, [], arith, done, false, length, refl, true, ◌∷◌, ◌≡◌, ◌≢◌, ◌⊎◌}

abbrev wheel : List Card
wheel = card 14 0 ∷ card 2 1 ∷ card 3 2 ∷ card 4 3 ∷ card 5 0 ∷ []

abbrev nines_full : List Card
nines_full = card 9 0 ∷ card 9 1 ∷ card 9 2 ∷ card 4 3 ∷ card 4 0 ∷ []

-- Three aces, and five clubs.
abbrev seven_cards : List Card
seven_cards = card 14 0 ∷ card 13 0 ∷ card 5 0 ∷ card 3 0 ∷ card 9 0 ∷ card 14 1 ∷ card 14 2 ∷ []

five-test :
    (evaluate_five wheel ≡ done (hand straight (5 ∷ 0 ∷ 0 ∷ 0 ∷ 0 ∷ [])))
    × (evaluate_five nines_full ≡ done (hand full_house (9 ∷ 4 ∷ 0 ∷ 0 ∷ 0 ∷ [])))
    × (evaluate_best seven_cards ≡ done (hand flush (14 ∷ 13 ∷ 9 ∷ 5 ∷ 3 ∷ [])))
unfolding seeded xorshift deterministic_uniform swap_at shuffle_from shuffled_deck contains all_new
    fixed_deck draw burn remaining card_eq rank_value card_index suit_cards suits_from ordered_deck
    rank_symbol suit_symbol card_text category_value list_eq list_lt value_eq value_lt count_rank
    count_suit straight_from straight_high ranks_from descending_ranks ranks_with last_or_zero
    first_or_zero classify_pairs classify_rest classify evaluate_five choose better best_of
    or_default evaluate_best
five-test = (refl, refl, refl)

seven_cards-new : all_new [] seven_cards ≡ true
unfolding all_new contains card_index rank_value
seven_cards-new = refl

evaluate_best_lem_example :
    (v : HandValue) × (evaluate_best seven_cards ≡ done v)
    × ((h : List Card) × Choice h seven_cards × (length h ≡ 5) × (evaluate_five h ≡ done v))
    × ((h : List Card) (w : HandValue)
        → Choice h seven_cards
        → length h ≡ 5
        → evaluate_five h ≡ done w
        → value_lt v w ≡ false)
evaluate_best_lem_example =
    evaluate_best_lem seven_cards (omega arith) (omega arith) seven_cards-new

evaluate_five-perm_example : evaluate_five (swap_at 0 4 wheel) ≡ evaluate_five wheel
evaluate_five-perm_example = evaluate_five-perm (swap_at 0 4 wheel) wheel (swap_at-perm 0 4 wheel)

value_lt_trans-test :
    value_lt (hand one_pair (8 ∷ 14 ∷ 5 ∷ 3 ∷ 0 ∷ [])) (hand flush (9 ∷ 7 ∷ 5 ∷ 3 ∷ 2 ∷ [])) ≡ true
unfolding value_lt list_lt category_value
value_lt_trans-test =
    value_lt_trans (hand one_pair (8 ∷ 14 ∷ 5 ∷ 3 ∷ 0 ∷ []))
      (hand straight (6 ∷ 0 ∷ 0 ∷ 0 ∷ 0 ∷ [])) (hand flush (9 ∷ 7 ∷ 5 ∷ 3 ∷ 2 ∷ [])) refl refl

value_lt_trichotomy_example :
    let u = hand straight (5 ∷ 0 ∷ 0 ∷ 0 ∷ 0 ∷ []) in
    let v = hand straight (6 ∷ 0 ∷ 0 ∷ 0 ∷ 0 ∷ []) in
    ((value_lt u v ≡ true) × (value_lt v u ≡ false) × (value_eq u v ≡ false) × (u ≢ v))
    ⊎ ((value_lt u v ≡ false) × (value_lt v u ≡ true) × (value_eq u v ≡ false) × (u ≢ v))
    ⊎ ((value_lt u v ≡ false) × (value_lt v u ≡ false) × (value_eq u v ≡ true) × (u ≡ v))
value_lt_trichotomy_example =
    value_lt_trichotomy (hand straight (5 ∷ 0 ∷ 0 ∷ 0 ∷ 0 ∷ []))
      (hand straight (6 ∷ 0 ∷ 0 ∷ 0 ∷ 0 ∷ []))
