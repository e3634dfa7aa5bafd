-- ===== src/Domain/Evaluator/Best.antt =====
-- `evaluateBest` against its purpose: the best of the five-card hands.
use poker.Domain.Card.{Card, card_index}
use poker.Domain.Deck.{all_new}
use poker.Domain.Deck.Distinct.{Subset-skip, all_new_mono}
use poker.Domain.Evaluator.{
  HandValue, best_of, better, choose, classify, count_rank, count_suit, evaluate_best,
  evaluate_five, five, value_lt,
}
use poker.Domain.Evaluator.Order.{value_ge_trans, value_lt_asymm, value_lt_irrefl}
use poker.Prelude.{
  All, All-append, Bool-cases, List, Run, [], ap, arith, done, false, inl, inr, length, ltb, map,
  none, refl, some, subst, suc, sym, threw, true, zero, ℕ, ◌++◌, ◌∷◌, ◌≡◌, ◌≤◌, ◌⊎◌,
}

-- `Choice h cards`: the cards of `h` stand in `cards`, in the same order.
pub data Choice : List Card → List Card → Type 0 where
  none_left : Choice [] []
  keep : {h cards : List Card} (c : Card) → Choice h cards → Choice (c ∷ h) (c ∷ cards)
  skip : {h cards : List Card} (c : Card) → Choice h cards → Choice h (c ∷ cards)

-- What a list of hands holds.
abbrev In : List Card → List (List Card) → Type 0
In h [] = ⊥
In h (g ∷ gs) = (h ≡ g) ⊎ In h gs

In-append_left : (h : List Card) (xs ys : List (List Card)) → In h xs → In h (xs ++ ys)
In-append_left h (x ∷ xs) ys (inl e) = inl e
In-append_left h (x ∷ xs) ys (inr m) = inr (In-append_left h xs ys m)
In-append_left h [] ys m = elim m [ ]

In-append_right : (h : List Card) (xs ys : List (List Card)) → In h ys → In h (xs ++ ys)
In-append_right h [] ys m = m
In-append_right h (x ∷ xs) ys m = inr (In-append_right h xs ys m)

In-map : (c : Card) (h : List Card) (xs : List (List Card)) → In h xs → In (c ∷ h) (map (◌∷◌ c) xs)
In-map c h (x ∷ xs) (inl e) = inl (ap (◌∷◌ c) e)
In-map c h (x ∷ xs) (inr m) = inr (In-map c h xs m)
In-map c h [] m = elim m [ ]

Choice-In : {h cards : List Card} → Choice h cards → In h (choose (length h) cards)
unfolding choose
Choice-In none_left = inl refl
Choice-In (keep {h = h} {cards = cards} c r) =
    In-append_left (c ∷ h) (map (◌∷◌ c) (choose (length h) cards)) _ (In-map c h _ (Choice-In r))
Choice-In (skip {h = []} {cards = cards} c r) = inl refl
Choice-In (skip {h = x ∷ h} {cards = cards} c r) =
    In-append_right (x ∷ h) (map (◌∷◌ c) (choose (length h) cards)) _ (Choice-In r)

Choice-nil : (cards : List Card) → Choice [] cards
Choice-nil [] = none_left
Choice-nil (c ∷ cards) = skip c (Choice-nil cards)

All-map :
    (P Q : List Card → Type 0) (c : Card)
    → ((h : List Card) → P h → Q (c ∷ h))
    → (xs : List (List Card)) → All P xs
    → All Q (map (◌∷◌ c) xs)
All-map P Q c f [] a = tt
All-map P Q c f (x ∷ xs) (a, as') = (f x a, All-map P Q c f xs as')

All-weaken :
    (P Q : List Card → Type 0)
    → ((h : List Card) → P h → Q h)
    → (xs : List (List Card)) → All P xs
    → All Q xs
All-weaken P Q f [] a = tt
All-weaken P Q f (x ∷ xs) (a, as') = (f x a, All-weaken P Q f xs as')

-- Every choice is one of `k` cards in their order.
choose-All :
    (k : ℕ) (cards : List Card) → All (λ h. Choice h cards × (length h ≡ k)) (choose k cards)
unfolding choose
choose-All zero cards = ((Choice-nil cards, refl), tt)
choose-All (suc k) [] = tt
choose-All (suc k) (c ∷ cards) =
    All-append _ (map (◌∷◌ c) (choose k cards)) (choose (suc k) cards)
      (All-map _ _ c (λ h p. (keep c p.0, ap suc p.1)) (choose k cards) (choose-All k cards))
      (All-weaken _ _ (λ h p. (skip c p.0, p.1)) (choose (suc k) cards) (choose-All (suc k) cards))

Choice-all_new :
    {h cards : List Card} (seen : List ℕ)
    → Choice h cards
    → all_new seen cards ≡ true
    → all_new seen h ≡ true
unfolding all_new
Choice-all_new seen none_left e = refl
Choice-all_new seen (keep {h = h} {cards = cards} c r) e =
    ground (arith, Choice-all_new (card_index c ∷ seen) r)
Choice-all_new seen (skip {h = h} {cards = cards} c r) e =
    Choice-all_new seen r (
      all_new_mono cards seen (card_index c ∷ seen) (Subset-skip (card_index c) seen)
        (ground arith))

abbrev eval : List Card → HandValue
eval h = classify (count_rank h) (count_suit h)

-- The value `v` that the loop leaves: no hand beats it, and it is `b` or that of a hand.
abbrev IsBest : HandValue → List (List Card) → HandValue → Type 0
IsBest b hands v =
    (value_lt v b ≡ false)
    × ((h : List Card) → In h hands → value_lt v (eval h) ≡ false)
    × ((v ≡ b) ⊎ ((h : List Card) × In h hands × (v ≡ eval h)))

IsBest-cons :
    (b v : HandValue) (h : List Card) (hands : List (List Card))
    → IsBest (better (some b) (eval h)) hands v
    → IsBest b (h ∷ hands) v
unfolding better
IsBest-cons b v h hands p = elim (Bool-cases (value_lt b (eval h))) [
  | inl lt ↦
      let q : IsBest (eval h) hands v = rw (lt, better) at p in
      (
        value_ge_trans v (eval h) b q.0 (value_lt_asymm b (eval h) lt),
        λ g. elim [ inl e ↦ rw e q.0 | inr m ↦ q.1 g m ],
        elim q.2 [ inl e ↦ inr (h, inl refl, e) | inr (g, m, e) ↦ inr (g, inr m, e) ],
      )
  | inr ge ↦
      let q : IsBest b hands v = rw (ge, better) at p in
      (
        q.0,
        λ g. elim [ inl e ↦ rw e (value_ge_trans v b (eval h) q.0 ge) | inr m ↦ q.1 g m ],
        elim q.2 [ inl e ↦ inl e | inr (g, m, e) ↦ inr (g, inr m, e) ],
      )
]

best_of-IsBest :
    (b : HandValue) (hands : List (List Card))
    → All (λ h. all_new [] h ≡ true) hands
    → (v : HandValue) × (best_of (some b) hands ≡ done (some v)) × IsBest b hands v
unfolding best_of evaluate_five
best_of-IsBest b [] a = (b, refl, (value_lt_irrefl b, λ g m. elim m [ ], inl refl))
best_of-IsBest b (h ∷ hands) (a, as') =
    let (v, e, p) = best_of-IsBest (better (some b) (eval h)) hands as' in
    (v, rw a e, IsBest-cons b v h hands p)

choose-cons :
    (k : ℕ) (cards : List Card)
    → k ≤ length cards
    → (g : List Card) × (gs : List (List Card)) × (choose k cards ≡ g ∷ gs)
unfolding choose
choose-cons zero cards h = ([], [], refl)
choose-cons (suc k) [] h = elim h [ ]
choose-cons (suc k) (c ∷ cards) h =
    let (g, gs, e) = choose-cons k cards (omega arith) in
    (c ∷ g, map (◌∷◌ c) gs ++ choose (suc k) cards, rw e refl)

In-All :
    (P : List Card → Type 0) (h : List Card) (hands : List (List Card))
    → All P hands
    → In h hands
    → P h
In-All P h (g ∷ gs) (a, as') (inl e) = subst P (sym e) a
In-All P h (g ∷ gs) (a, as') (inr m) = In-All P h gs as' m
In-All P h [] a m = elim m [ ]

evaluate_five-eval : (h : List Card) (w : HandValue) → evaluate_five h ≡ done w → w ≡ eval h
unfolding evaluate_five
evaluate_five-eval h w e = elim (Bool-cases (all_new [] h)) [
  | inl t ↦ let q : done (eval h) ≡ done w = rw t at e in cc
  | inr f ↦ let q : ◌≡◌ {A = Run HandValue} threw (done w) = rw f at e in cc
]

best_of-first :
    (g : List Card) (gs : List (List Card))
    → All (λ h. all_new [] h ≡ true) (g ∷ gs)
    → (v : HandValue) × (best_of none (g ∷ gs) ≡ done (some v))
      × ((h : List Card) → In h (g ∷ gs) → value_lt v (eval h) ≡ false)
      × ((h : List Card) × In h (g ∷ gs) × (v ≡ eval h))
unfolding best_of evaluate_five better
best_of-first g gs (a, as') =
    let (v, e, p) = best_of-IsBest (eval g) gs as' in
    (
      v,
      rw a e,
      λ h. elim [ inl same ↦ rw same p.0 | inr m ↦ p.1 h m ],
      elim p.2 [ inl same ↦ (g, inl refl, same) | inr (h, m, same) ↦ (h, inr m, same) ],
    )

evaluate_best-done :
    (cards : List Card) (v : HandValue)
    → 5 ≤ length cards
    → length cards ≤ 7
    → all_new [] cards ≡ true
    → best_of none (choose 5 cards) ≡ done (some v)
    → evaluate_best cards ≡ done v
unfolding evaluate_best
evaluate_best-done cards v lo hi new e = rw (lo→, hi→, new, e) refl
  where
    lo→ : ltb (length cards) 5 ≡ false
    lo→ = ground arith

    hi→ : ltb 7 (length cards) ≡ false
    hi→ = ground arith

-- Of five to seven cards, new and valid by their indices, `evaluateBest` returns the value of some
-- five of them, and no five of them have a greater value.
pub evaluate_best_lem :
    (cards : List Card)
    → 5 ≤ length cards
    → length cards ≤ 7
    → all_new [] cards ≡ true
    → (v : HandValue) × (evaluate_best cards ≡ done v)
      × ((h : List Card) × Choice h cards × (length h ≡ 5) × (evaluate_five h ≡ done v))
      × ((h : List Card) (w : HandValue)
          → Choice h cards
          → length h ≡ 5
          → evaluate_five h ≡ done w
          → value_lt v w ≡ false)
unfolding evaluate_five
evaluate_best_lem cards lo hi new =
    let valid : All (λ h. all_new [] h ≡ true) (choose 5 cards) =
      All-weaken _ _ (λ h p. Choice-all_new [] p.0 new) (choose 5 cards) (choose-All 5 cards) in
    let (g, gs, e) = choose-cons 5 cards lo in
    let (v, run, top, (b, m, same)) = best_of-first g gs (rw e at valid) in
    let m' : In b (choose 5 cards) = rw e m in
    let (from, five) = In-All _ b (choose 5 cards) (choose-All 5 cards) m' in
    let ok : all_new [] b ≡ true = In-All _ b (choose 5 cards) valid m' in
    (
      v,
      evaluate_best-done cards v lo hi new (rw e run),
      (b, from, five, rw (ok, same) refl),
      λ h w c n q.
          rw (evaluate_five-eval h w q)
            (top h (rw e at (subst (λ k. In h (choose k cards)) n (Choice-In c)))),
    )
