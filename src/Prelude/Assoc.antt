-- ===== src/Prelude/Assoc.antt =====
-- Maps on numbers, as lists of keys and values with each key once. Nothing reads their order.
use Prim.Native.Nat.{ℕ}
use mathlib.Core.Path.{◌≡◌, refl, subst}
use mathlib.Core.Logic.{inl, inr, ◌≢◌}
use mathlib.Core.Bool.{false}
use mathlib.Core.List.{List, [], ◌∷◌}
use mathlib.Core.Option.{Option, none, some}
use native.Mathlib.Omega.{arith}
use poker.Prelude.Tests.{==_ne, ==_refl, Bool-cases, if◌then◌else◌, ◌==◌}

module _ {ℓ} {A : Type ℓ} where
  unfoldable pub find_key : ℕ → List (ℕ × A) → Option A
  find_key k [] = none
  find_key k ((j, a) ∷ m) = if j == k then some a else find_key k m

  -- The value is replaced, or added at the end.
  unfoldable pub put_key : ℕ → A → List (ℕ × A) → List (ℕ × A)
  put_key k a [] = (k, a) ∷ []
  put_key k a ((j, b) ∷ m) = if j == k then (k, a) ∷ m else (j, b) ∷ put_key k a m

  unfoldable pub erase_key : ℕ → List (ℕ × A) → List (ℕ × A)
  erase_key k [] = []
  erase_key k ((j, b) ∷ m) = if j == k then erase_key k m else (j, b) ∷ erase_key k m

  pub find_key-put : (k : ℕ) (a : A) (m : List (ℕ × A)) → find_key k (put_key k a m) ≡ some a
  unfolding find_key put_key
  find_key-put k a [] = rw (==_refl k) refl
  find_key-put k a ((j, b) ∷ m) = elim (Bool-cases (j == k)) [
    | inl e ↦ rw (e, ==_refl k) refl
    | inr e ↦ rw (e, e) (find_key-put k a m)
  ]

  pub find_key-put_other :
      (k i : ℕ) (a : A) (m : List (ℕ × A)) → k ≢ i → find_key i (put_key k a m) ≡ find_key i m
  unfolding find_key put_key
  find_key-put_other k i a [] n = rw (==_ne k i n) refl
  find_key-put_other k i a ((j, b) ∷ m) n = elim (Bool-cases (j == k)) [
    | inl e ↦ let d : (j == i) ≡ false = ground arith in rw (e, ==_ne k i n, d) refl
    | inr e ↦ elim (Bool-cases (j == i)) [
      | inl d ↦ rw (e, d) refl
      | inr d ↦ rw (e, d) (find_key-put_other k i a m n)
    ]
  ]

  pub find_key-erase : (k : ℕ) (m : List (ℕ × A)) → find_key k (erase_key k m) ≡ none
  unfolding find_key erase_key
  find_key-erase k [] = refl
  find_key-erase k ((j, b) ∷ m) = elim (Bool-cases (j == k)) [
    | inl e ↦ rw e (find_key-erase k m)
    | inr e ↦ rw (e, e) (find_key-erase k m)
  ]

  pub find_key-erase_other :
      (k i : ℕ) (m : List (ℕ × A)) → k ≢ i → find_key i (erase_key k m) ≡ find_key i m
  unfolding find_key erase_key
  find_key-erase_other k i [] n = refl
  find_key-erase_other k i ((j, b) ∷ m) n = elim (Bool-cases (j == k)) [
    | inl e ↦ let d : (j == i) ≡ false = ground arith in rw (e, d) (find_key-erase_other k i m n)
    | inr e ↦ elim (Bool-cases (j == i)) [
      | inl d ↦ rw (e, d) refl
      | inr d ↦ rw (e, d) (find_key-erase_other k i m n)
    ]
  ]

  -- The laws in one equation each, which the tactics use at any two keys.
  pub find_key-put_if :
      (k i : ℕ) (a : A) (m : List (ℕ × A))
      → find_key i (put_key k a m) ≡ (if k == i then some a else find_key i m)
  unfolding find_key put_key
  find_key-put_if k i a [] = refl
  find_key-put_if k i a ((j, b) ∷ m) = ground (arith, find_key-put_if k i a m)

  pub find_key-erase_if :
      (k i : ℕ) (m : List (ℕ × A))
      → find_key i (erase_key k m) ≡ (if k == i then none else find_key i m)
  unfolding find_key erase_key
  find_key-erase_if k i [] = ground arith
  find_key-erase_if k i ((j, b) ∷ m) = ground (arith, find_key-erase_if k i m)

  -- Each key stands once.
  abbrev pub IsUnique : List (ℕ × A) → Type ℓ
  IsUnique [] = Unit
  IsUnique ((k, a) ∷ m) = (find_key k m ≡ none) × IsUnique m

  pub put_key-IsUnique : (k : ℕ) (a : A) (m : List (ℕ × A)) → IsUnique m → IsUnique (put_key k a m)
  unfolding find_key put_key
  put_key-IsUnique k a [] u = (refl, tt)
  put_key-IsUnique k a ((j, b) ∷ m) (fresh, u) = elim (Bool-cases (j == k)) [
    | inl e ↦
        let same : j ≡ k = ground arith in rw e (subst (λ i. find_key i m ≡ none) same fresh, u)
    | inr e ↦
        let other : (k == j) ≡ false = ground arith in
        rw e (rw (find_key-put_if k j a m, other) fresh, put_key-IsUnique k a m u)
  ]

  pub erase_key-IsUnique : (k : ℕ) (m : List (ℕ × A)) → IsUnique m → IsUnique (erase_key k m)
  unfolding find_key erase_key
  erase_key-IsUnique k [] u = tt
  erase_key-IsUnique k ((j, b) ∷ m) (fresh, u) = elim (Bool-cases (j == k)) [
    | inl e ↦ rw e (erase_key-IsUnique k m u)
    | inr e ↦
        let other : (k == j) ≡ false = ground arith in
        rw e (rw (find_key-erase_if k j m, other) fresh, erase_key-IsUnique k m u)
  ]
