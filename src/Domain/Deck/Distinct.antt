-- ===== src/Domain/Deck/Distinct.antt =====
-- The check for duplicates, which the deck and the evaluator share.
use poker.Domain.Card.{Card, card_index}
use poker.Domain.Deck.{all_new, contains, fixed_deck}
use poker.Prelude.{
  All, Bool, Bool-cases, List, [], arith, done, false, inl, inr, length, refl, sym, threw, true, ℕ,
  ◌<◌, ◌==◌, ◌↔◌, ◌∷◌, ◌≡◌, ◌≢◌,
}

-- Fewer indices seen, fewer cards refused.
abbrev pub Subset : List ℕ → List ℕ → Type 0
Subset s t = (i : ℕ) → contains s i ≡ true → contains t i ≡ true

Subset-cons : (j : ℕ) (s t : List ℕ) → Subset s t → Subset (j ∷ s) (j ∷ t)
unfolding contains
Subset-cons j s t m i h = ground (arith, m i)

pub all_new_mono :
    (cards : List Card) (s t : List ℕ)
    → Subset s t
    → all_new t cards ≡ true
    → all_new s cards ≡ true
unfolding all_new
all_new_mono [] s t m h = refl
all_new_mono (c ∷ cards) s t m h =
    let later =
      all_new_mono cards (card_index c ∷ s) (card_index c ∷ t) (Subset-cons (card_index c) s t m) in
    ground (arith, m (card_index c), later)

pub Subset-skip : (j : ℕ) (s : List ℕ) → Subset s (j ∷ s)
unfolding contains
Subset-skip j s i h = ground arith

Subset-swap : (i j : ℕ) (s : List ℕ) → Subset (i ∷ j ∷ s) (j ∷ i ∷ s)
unfolding contains
Subset-swap i j s k h = ground arith

Bool-antisym : (a b : Bool) → (a ≡ true → b ≡ true) → (b ≡ true → a ≡ true) → a ≡ b
Bool-antisym true true f g = refl
Bool-antisym true false f g = sym (f refl)
Bool-antisym false true f g = g refl
Bool-antisym false false f g = refl

all_new-swap_seen :
    (i j : ℕ) (s : List ℕ) (cards : List Card)
    → all_new (i ∷ j ∷ s) cards ≡ all_new (j ∷ i ∷ s) cards
all_new-swap_seen i j s cards =
    Bool-antisym _ _ (all_new_mono cards (j ∷ i ∷ s) (i ∷ j ∷ s) (Subset-swap j i s))
      (all_new_mono cards (i ∷ j ∷ s) (j ∷ i ∷ s) (Subset-swap i j s))

pub all_new-swap :
    (seen : List ℕ) (x y : Card) (l : List Card)
    → all_new seen (x ∷ y ∷ l) ≡ all_new seen (y ∷ x ∷ l)
unfolding all_new contains
all_new-swap seen x y l = ground (arith, all_new-swap_seen (card_index x) (card_index y) seen l)

-- No two cards of a list have the same index, and every index is below 52.
abbrev pub IsDistinct : List Card → Type 0
IsDistinct [] = Unit
IsDistinct (c ∷ cards) =
    (card_index c < 52) × All (λ d. card_index c ≢ card_index d) cards × IsDistinct cards

abbrev Avoids : List ℕ → List Card → Type 0
Avoids seen cards = All (λ d. contains seen (card_index d) ≡ false) cards

Avoids-cons :
    (i : ℕ) (seen : List ℕ) (cards : List Card)
    → Avoids (i ∷ seen) cards ↔ (All (λ d. i ≢ card_index d) cards × Avoids seen cards)
unfolding contains
Avoids-cons i seen [] = (λ _. (tt, tt), λ _. tt)
Avoids-cons i seen (c ∷ cards) =
    let (to, from) = Avoids-cons i seen cards in
    (
      λ a. let (p, q) = to a.1 in (((λ e. ground arith), p), (ground arith, q)),
      λ a. (ground arith, from (a.0.1, a.1.1)),
    )

all_new-cases :
    (seen : List ℕ) (cards : List Card)
    → (all_new seen cards ≡ true) ↔ (IsDistinct cards × Avoids seen cards)
unfolding all_new
all_new-cases seen [] = (λ _. (tt, tt), λ _. refl)
all_new-cases seen (c ∷ cards) =
    let (to, from) = all_new-cases (card_index c ∷ seen) cards in
    let (split, join) = Avoids-cons (card_index c) seen cards in
    (
      λ e.
          let (d, a) = to (ground arith) in
          let (new, old) = split a in ((ground arith, new, d), (ground arith, old)),
      λ h. let later = from (h.0.2, join (h.0.1, h.1.1)) in ground arith,
    )

Avoids-nil : (cards : List Card) → Avoids [] cards
unfolding contains
Avoids-nil [] = tt
Avoids-nil (c ∷ cards) = (refl, Avoids-nil cards)

pub all_new_iff : (cards : List Card) → (all_new [] cards ≡ true) ↔ IsDistinct cards
all_new_iff cards =
    (λ e. ((all_new-cases [] cards).0 e).0, λ d. (all_new-cases [] cards).1 (d, Avoids-nil cards))

-- A given deck is accepted exactly if it has 52 cards with distinct indices below 52; it is then
-- dealt in the order given, from its first card, and any other list of cards throws.
pub fixed_deck_lem :
    (cards : List Card)
    → ((length cards ≡ 52
        → IsDistinct cards
        → fixed_deck cards ≡ done (record { cards = cards; next = 0 })))
      × (¬ ((length cards ≡ 52) × IsDistinct cards) → fixed_deck cards ≡ threw)
unfolding fixed_deck
fixed_deck_lem cards = (λ n d. let new = (all_new_iff cards).1 d in ground arith, λ h. refused h)
  where
    refused : ¬ ((length cards ≡ 52) × IsDistinct cards) → fixed_deck cards ≡ threw
    refused h = elim (Bool-cases (length cards == 52)) [
      | inr p ↦ rw p refl
      | inl p ↦ elim (Bool-cases (all_new [] cards)) [
        | inr q ↦ rw (p, q) refl
        | inl q ↦ absurd (h (ground arith, (all_new_iff cards).0 q))
      ]
    ]
