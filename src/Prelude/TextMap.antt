-- ===== src/Prelude/TextMap.antt =====
-- Maps on texts, as lists of keys and values with each key once. Nothing reads their order.
use mathlib.Core.Path.{◌≡◌, refl, subst, sym, ◌∙◌}
use mathlib.Core.Logic.{inl, inr}
use mathlib.Core.Bool.{Bool, true, false}
use mathlib.Core.List.{List, [], ◌∷◌}
use mathlib.Core.Option.{Option, none, some}
use poker.Prelude.Tests.{Bool-cases, if◌then◌else◌}
use poker.Prelude.Bytes.{Text, text_eq, text_eq_iff}

module _ {ℓ} {A : Type ℓ} where
  unfoldable pub find_text : Text → List (Text × A) → Option A
  find_text k [] = none
  find_text k ((j, a) ∷ m) = if text_eq j k then some a else find_text k m

  unfoldable pub put_text : Text → A → List (Text × A) → List (Text × A)
  put_text k a [] = (k, a) ∷ []
  put_text k a ((j, b) ∷ m) = if text_eq j k then (k, a) ∷ m else (j, b) ∷ put_text k a m

  unfoldable pub erase_text : Text → List (Text × A) → List (Text × A)
  erase_text k [] = []
  erase_text k ((j, b) ∷ m) = if text_eq j k then erase_text k m else (j, b) ∷ erase_text k m

  pub find_text-put_if :
      (k i : Text) (a : A) (m : List (Text × A))
      → find_text i (put_text k a m) ≡ (if text_eq k i then some a else find_text i m)
  unfolding find_text put_text
  find_text-put_if k i a [] = refl
  find_text-put_if k i a ((j, b) ∷ m) = elim (Bool-cases (text_eq j k)) [
    | inl e ↦
        let same : j ≡ k = (text_eq_iff j k).0 e in
        rw e (
          subst
            (λ t.
              (if text_eq k i then some a else find_text i m)
              ≡ (if text_eq k i then some a else (if text_eq t i then some b else find_text i m)))
            (sym same) (by_test (text_eq k i)))
    | inr e ↦ elim (Bool-cases (text_eq j i)) [
      | inr d ↦ rw (e, d) (find_text-put_if k i a m)
      | inl d ↦
          let same : j ≡ i = (text_eq_iff j i).0 d in
          let other : text_eq k i ≡ false = by_other same e in rw (e, d, other) refl
    ]
  ]
    where
      by_test :
          (t : Bool)
          → (if t then some a else find_text i m)
            ≡ (if t then some a else (if t then some b else find_text i m))
      by_test true = refl
      by_test false = refl

      by_other : j ≡ i → text_eq j k ≡ false → text_eq k i ≡ false
      by_other same e = elim (Bool-cases (text_eq k i)) [
        | inr o ↦ o
        | inl o ↦
            let there : k ≡ i = (text_eq_iff k i).0 o in
            let hit : text_eq j k ≡ true = (text_eq_iff j k).1 (same ∙ sym there) in cc
      ]

  pub find_text-erase : (k : Text) (m : List (Text × A)) → find_text k (erase_text k m) ≡ none
  unfolding find_text erase_text
  find_text-erase k [] = refl
  find_text-erase k ((j, b) ∷ m) = elim (Bool-cases (text_eq j k)) [
    | inl e ↦ rw e (find_text-erase k m)
    | inr e ↦ rw (e, e) (find_text-erase k m)
  ]

  -- What is found after an erasure was there before.
  pub find_text-erase_some :
      (k i : Text) (a : A) (m : List (Text × A))
      → find_text i (erase_text k m) ≡ some a
      → find_text i m ≡ some a
  unfolding find_text erase_text
  find_text-erase_some k i a [] h = h
  find_text-erase_some k i a ((j, b) ∷ m) h = elim (Bool-cases (text_eq j k)) [
    | inr e ↦ elim (Bool-cases (text_eq j i)) [
      | inl d ↦ rw d (rw (e, d) at h)
      | inr d ↦ rw d (find_text-erase_some k i a m (rw (e, d) at h))
    ]
    | inl e ↦ elim (Bool-cases (text_eq j i)) [
      | inr d ↦ rw d (find_text-erase_some k i a m (rw e at h))
      | inl d ↦
          let there : k ≡ i = sym ((text_eq_iff j k).0 e) ∙ (text_eq_iff j i).0 d in
          let q : find_text i (erase_text k m) ≡ some a = rw e at h in
          let gone : find_text i (erase_text k m) ≡ none =
            subst (λ t. find_text t (erase_text k m) ≡ none) there (find_text-erase k m) in
          cc
    ]
  ]
