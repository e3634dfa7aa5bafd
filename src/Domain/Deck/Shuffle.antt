-- ===== src/Domain/Deck/Shuffle.antt =====
-- What the shuffle keeps.
use mathlib.Core.List.{Perm}
use mathlib.Core.List.Perm
use mathlib.Core.Option.{some-injective}
use poker.Domain.Card.{Card, ordered_deck}
use poker.Domain.Deck.{Deck, RandomSource, shuffle_from, shuffled_deck, swap_at}
use poker.Prelude.{
  >>=-eq-done, List, Option-cases, Run, [], arith, done, get_elem?, inl, inr, length, out_of_fuel,
  refl, set, some, subst, suc, sym, threw, zero, ℕ, ◌-◌, ◌<◌, ◌>>=◌, ◌∷◌, ◌≡◌,
}

set-perm :
    (xs : List Card) (i : ℕ) (a b : Card) → get_elem? xs i ≡ some a → Perm (a ∷ set xs i b) (b ∷ xs)
set-perm [] i a b e = cc
set-perm (x ∷ xs) zero a b e =
    subst (λ y. Perm (a ∷ b ∷ xs) (b ∷ y ∷ xs)) (sym (some-injective x a e)) (Perm.swap b a xs)
set-perm (x ∷ xs) (suc i) a b e =
    Perm.trans (Perm.swap x a (set xs i b))
      (Perm.trans (Perm.cons x (set-perm xs i a b e)) (Perm.swap b x xs))

get_elem?-set-write :
    (xs : List Card) (i j : ℕ) (a b : Card)
    → get_elem? xs i ≡ some a
    → get_elem? xs j ≡ some b
    → get_elem? (set xs i b) j ≡ some b
get_elem?-set-write [] i j a b p q = cc
get_elem?-set-write (x ∷ xs) zero zero a b p q = refl
get_elem?-set-write (x ∷ xs) zero (suc j) a b p q = q
get_elem?-set-write (x ∷ xs) (suc i) zero a b p q = q
get_elem?-set-write (x ∷ xs) (suc i) (suc j) a b p q = get_elem?-set-write xs i j a b p q

pub swap_at-perm : (i j : ℕ) (xs : List Card) → Perm (swap_at i j xs) xs
unfolding swap_at
swap_at-perm i j xs = elim (Option-cases (get_elem? xs i)) [
  | inl e ↦ rw (e, swap_at) Perm.rfl
  | inr (a, p) ↦ elim (Option-cases (get_elem? xs j)) [
    | inl e ↦ rw (p, e, swap_at) Perm.rfl
    | inr (b, q) ↦
        rw (p, q, swap_at)
          (Perm.cons_inv (
            Perm.trans (set-perm (set xs i b) j b a (get_elem?-set-write xs i j a b p q))
              (set-perm xs i a b p)))
  ]
]

module _ (random : RandomSource) where
  open random use {State, uniform}

  shuffle_from-perm :
      (rounds : ℕ) (cards out : List Card) (s s' : State)
      → shuffle_from random rounds cards s ≡ done (out, s')
      → Perm out cards
  unfolding shuffle_from
  shuffle_from-perm zero cards out s s' e = subst (λ c. Perm c cards) (ground arith) Perm.rfl
  shuffle_from-perm (suc rounds) cards out s s' e =
      let (drawn, _, rest) = >>=-eq-done (uniform s (suc (suc rounds))) _ e in
      Perm.trans (shuffle_from-perm rounds (swap_at (suc rounds) drawn.0 cards) out drawn.1 s' rest)
        (swap_at-perm (suc rounds) drawn.0 cards)

  dealt-inv :
      (m : Run (List Card × State)) (s' : State) (d : Deck)
      → ◌>>=◌ {B = Deck × State} m (λ r. done (record { cards = r.0; next = 0 }, r.1))
        ≡ done (d, s')
      → (m ≡ done (d.cards, s')) × (d.next ≡ 0)
  dealt-inv (done r) s' d e = ground arith
  dealt-inv threw s' d e = cc
  dealt-inv out_of_fuel s' d e = cc

  -- Whatever numbers the source returns, the shuffled deck holds the 52 cards of the ordered deck,
  -- each as often, and drawing starts at its top.
  pub shuffled_deck-perm :
      (s s' : State) (d : Deck)
      → shuffled_deck random s ≡ done (d, s')
      → Perm d.cards ordered_deck × (d.next ≡ 0)
  unfolding shuffled_deck
  shuffled_deck-perm s s' d e =
      let (sh, top) =
        dealt-inv (shuffle_from random (length ordered_deck - 1) ordered_deck s) s' d e in
      (shuffle_from-perm (length ordered_deck - 1) ordered_deck d.cards s s' sh, top)

  shuffle_from-returns :
      ((t : State) (bound : ℕ) → 0 < bound → (r : ℕ × State) × (uniform t bound ≡ done r))
      → (rounds : ℕ) (cards : List Card) (s : State)
      → (r : List Card × State) × (shuffle_from random rounds cards s ≡ done r)
  unfolding shuffle_from
  shuffle_from-returns total zero cards s = ((cards, s), refl)
  shuffle_from-returns total (suc rounds) cards s =
      let (drawn, e) = total s (suc (suc rounds)) (omega arith) in
      rw e (shuffle_from-returns total rounds (swap_at (suc rounds) drawn.0 cards) drawn.1)

  -- A source that answers every bound above zero shuffles: no exception, and the loop ends.
  pub shuffled_deck-returns :
      ((t : State) (bound : ℕ) → 0 < bound → (r : ℕ × State) × (uniform t bound ≡ done r))
      → (s : State) → (r : Deck × State) × (shuffled_deck random s ≡ done r)
  unfolding shuffled_deck
  shuffled_deck-returns total s =
      let (r, e) = shuffle_from-returns total (length ordered_deck - 1) ordered_deck s in
      rw e ((record { cards = r.0; next = 0 }, r.1), refl)
