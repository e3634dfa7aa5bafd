-- ===== src/Domain/Deck/Examples.antt =====
-- The theorems on decks, applied to the xorshift source and to the ordered deck.
use mathlib.Core.List.{Perm}
use poker.Domain.Card.{Card, ordered_deck}
use poker.Domain.Deck.{
  Deck, RandomSource, deterministic_uniform, draw, fixed_deck, remaining, seeded, shuffled_deck,
  system_uniform, system_value,
}
use poker.Domain.Deck.Distinct.{IsDistinct, fixed_deck_lem}
use poker.Domain.Deck.Draw.{cards_left, draw_lem}
use poker.Domain.Deck.Fair.{system_uniform-fair}
use poker.Domain.Deck.Shuffle.{shuffled_deck-perm, shuffled_deck-returns}
use poker.Prelude.{
  arith, done, false, length, refl, suc, threw, u64_mod, zero, ℕ, ◌%◌, ◌+◌, ◌-◌, ◌<◌, ◌==◌, ◌∷◌,
  ◌≡◌, ◌⊎◌,
}

deterministic-lt : (s bound v s' : ℕ) → deterministic_uniform s bound ≡ done (v, s') → v < bound
unfolding deterministic_uniform
deterministic-lt s zero v s' e = cc
deterministic-lt s (suc b) v s' e = ground arith

-- `DeterministicRandomSource` as a source.
abbrev deterministic : RandomSource
deterministic = record { State = ℕ; uniform = deterministic_uniform; uniform-lt = deterministic-lt }

deterministic-answers :
    (s bound : ℕ) → 0 < bound → (r : ℕ × ℕ) × (deterministic_uniform s bound ≡ done r)
unfolding deterministic_uniform
deterministic-answers s bound h = let e : (bound == 0) ≡ false = ground arith in rw e (_, refl)

shuffled_deck-returns-test : (r : Deck × ℕ) × (shuffled_deck deterministic (seeded 42) ≡ done r)
shuffled_deck-returns-test = shuffled_deck-returns deterministic deterministic-answers (seeded 42)

shuffled_deck-perm_example :
    Perm shuffled_deck-returns-test.0.0.cards ordered_deck
    × (shuffled_deck-returns-test.0.0.next ≡ 0)
shuffled_deck-perm_example =
    shuffled_deck-perm deterministic (seeded 42) shuffled_deck-returns-test.0.1
      shuffled_deck-returns-test.0.0 shuffled_deck-returns-test.1

draw_lem-test :
    let d : Deck = record { cards = ordered_deck; next = 51 } in
    ((remaining d ≡ 0) × (draw d ≡ threw))
    ⊎ ((c : Card) × (d' : Deck) × (draw d ≡ done (c, d'))
        × (cards_left d ≡ c ∷ cards_left d')
        × (d'.cards ≡ d.cards))
draw_lem-test = draw_lem (record { cards = ordered_deck; next = 51 })

fixed_deck_lem_example :
    ((length ordered_deck ≡ 52
      → IsDistinct ordered_deck
      → fixed_deck ordered_deck ≡ done (record { cards = ordered_deck; next = 0 })))
    × (¬ ((length ordered_deck ≡ 52) × IsDistinct ordered_deck) → fixed_deck ordered_deck ≡ threw)
fixed_deck_lem_example = fixed_deck_lem ordered_deck

-- A device that counts.
abbrev counting : ℕ → ℕ × ℕ
counting n = (n, n + 1)

system_uniform-fair_example :
    let limit = u64_mod - 1 - (u64_mod - 1) % 52 in
    (50 < 52)
    × (limit % 52 ≡ 0)
    × ((value : ℕ) × (system_value counting 1 limit 1 ≡ done (value, 3))
        × (value < limit)
        × (50 ≡ value % 52))
unfolding system_uniform system_value
system_uniform-fair_example = system_uniform-fair counting 1 52 50 1 3 refl
