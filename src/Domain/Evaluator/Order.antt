-- ===== src/Domain/Evaluator/Order.antt =====
-- The comparison operators of `HandValue` form a strict total order.
use poker.Domain.Evaluator.{
  HandCategory, HandValue, category_value, list_eq, list_lt, value_eq, value_lt,
}
use poker.Prelude.{
  Bool-cases, List, [], arith, false, inl, inr, refl, true, ℕ, ◌↔◌, ◌∷◌, ◌≡◌, ◌≢◌, ◌⊎◌,
}

list_lt_irrefl : (xs : List ℕ) → list_lt xs xs ≡ false
unfolding list_lt
list_lt_irrefl [] = refl
list_lt_irrefl (x ∷ xs) = ground (arith, list_lt_irrefl xs)

list_lt_trans :
    (xs ys zs : List ℕ) → list_lt xs ys ≡ true → list_lt ys zs ≡ true → list_lt xs zs ≡ true
unfolding list_lt
list_lt_trans [] [] zs p q = cc
list_lt_trans [] (y ∷ ys) [] p q = cc
list_lt_trans [] (y ∷ ys) (z ∷ zs) p q = refl
list_lt_trans (x ∷ xs) [] zs p q = cc
list_lt_trans (x ∷ xs) (y ∷ ys) [] p q = cc
list_lt_trans (x ∷ xs) (y ∷ ys) (z ∷ zs) p q = ground (arith, list_lt_trans xs ys zs)

list_lt_total : (xs ys : List ℕ) → list_lt xs ys ≡ false → list_lt ys xs ≡ false → xs ≡ ys
unfolding list_lt
list_lt_total [] [] p q = refl
list_lt_total [] (y ∷ ys) p q = cc
list_lt_total (x ∷ xs) [] p q = cc
list_lt_total (x ∷ xs) (y ∷ ys) p q = ground (arith, list_lt_total xs ys)

pub category_value_injective : (c d : HandCategory) → category_value c ≡ category_value d → c ≡ d
unfolding category_value
category_value_injective c d e = ground arith

pub value_lt_irrefl : (v : HandValue) → value_lt v v ≡ false
unfolding value_lt
value_lt_irrefl v = ground (arith, list_lt_irrefl v.tiebreak)

-- `<` is transitive.
pub value_lt_trans :
    (u v w : HandValue) → value_lt u v ≡ true → value_lt v w ≡ true → value_lt u w ≡ true
unfolding value_lt
value_lt_trans u v w p q = ground (arith, list_lt_trans u.tiebreak v.tiebreak w.tiebreak)

pub value_lt_total : (u v : HandValue) → value_lt u v ≡ false → value_lt v u ≡ false → u ≡ v
unfolding value_lt
value_lt_total u v p q =
    ground
      (arith, list_lt_total u.tiebreak v.tiebreak, category_value_injective u.category v.category)

-- `>=`, the negation of `<`, is transitive.
pub value_ge_trans :
    (u v w : HandValue) → value_lt u v ≡ false → value_lt v w ≡ false → value_lt u w ≡ false
value_ge_trans u v w p q = elim (Bool-cases (value_lt u w)) [
  | inr r ↦ r
  | inl r ↦ elim (Bool-cases (value_lt w v)) [
    | inl s ↦ cc (value_lt_trans u w v r s)
    | inr s ↦ cc (value_lt_total v w q s)
  ]
]

pub value_lt_asymm : (u v : HandValue) → value_lt u v ≡ true → value_lt v u ≡ false
value_lt_asymm u v p = elim (Bool-cases (value_lt v u)) [
  | inr r ↦ r
  | inl r ↦ cc (value_lt_trans u v u p r, value_lt_irrefl u)
]

pub list_eq_iff : (xs ys : List ℕ) → (list_eq xs ys ≡ true) ↔ (xs ≡ ys)
unfolding list_eq
list_eq_iff [] [] = (λ _. refl, λ _. refl)
list_eq_iff [] (y ∷ ys) = (λ e. cc, λ e. cc)
list_eq_iff (x ∷ xs) [] = (λ e. cc, λ e. cc)
list_eq_iff (x ∷ xs) (y ∷ ys) =
    (λ e. ground (arith, (list_eq_iff xs ys).0), λ e. ground (arith, (list_eq_iff xs ys).1))

-- `operator==` decides equality.
pub value_eq_iff : (u v : HandValue) → (value_eq u v ≡ true) ↔ (u ≡ v)
unfolding value_eq
value_eq_iff u v = (
  λ e. ground (
    arith,
    (list_eq_iff u.tiebreak v.tiebreak).0,
    category_value_injective u.category v.category,
  ),
  λ e. ground (arith, (list_eq_iff u.tiebreak v.tiebreak).1),
)

-- Of two hand values exactly one of `<`, `>` and `==` holds, and `==` holds exactly of equal values.
pub value_lt_trichotomy :
    (u v : HandValue)
    → ((value_lt u v ≡ true) × (value_lt v u ≡ false) × (value_eq u v ≡ false) × (u ≢ v))
      ⊎ ((value_lt u v ≡ false) × (value_lt v u ≡ true) × (value_eq u v ≡ false) × (u ≢ v))
      ⊎ ((value_lt u v ≡ false) × (value_lt v u ≡ false) × (value_eq u v ≡ true) × (u ≡ v))
value_lt_trichotomy u v =
    let ne : u ≢ v → value_eq u v ≡ false = λ n. elim (Bool-cases (value_eq u v)) [
      | inl q ↦ absurd (n ((value_eq_iff u v).0 q))
      | inr q ↦ q
    ] in
    elim (Bool-cases (value_lt u v)) [
      | inl p ↦
          let n : u ≢ v = λ e. cc (value_lt_irrefl u) in inl (p, value_lt_asymm u v p, ne n, n)
      | inr p ↦ elim (Bool-cases (value_lt v u)) [
        | inl q ↦ let n : u ≢ v = λ e. cc (value_lt_irrefl u) in inr (inl (p, q, ne n, n))
        | inr q ↦ let e = value_lt_total u v p q in inr (inr (p, q, (value_eq_iff u v).1 e, e))
      ]
    ]
