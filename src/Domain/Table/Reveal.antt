-- ===== src/Domain/Table/Reveal.antt =====
-- Drawing changes the deck and the board alone.
use poker.Domain.Card.{Card}
use poker.Domain.Deck.{Deck, burn, draw}
use poker.Domain.Table.Pots.{is_empty}
use poker.Domain.Table.State.{Table}
use poker.Domain.Table.Street.{
  burn_card, draw_card, fill_board, push_board, reveal_flop, reveal_one,
}
use poker.Prelude.{
  >>=-eq-done, Bool-cases, List, Option, Run, [], append-nil, append_assoc, arith, done,
  if◌then◌else◌, inl, inr, length, length-append, ltb, or_throw, out_of_fuel, refl, some, suc, zero,
  ℕ, ◌++◌, ◌+◌, ◌>>=◌, ◌∷◌, ◌≡◌, ◌≤◌,
}

pub draw_card-done :
    (t u : Table) (c : Card)
    → draw_card t ≡ done (c, u)
    → (d : Option Deck) × (u ≡ record t { deck = d })
unfolding draw_card
draw_card-done t u c e =
    let (d, _, e1) =
      >>=-eq-done (or_throw t.deck) (λ d. draw d >>= λ r. done (r.0, record t { deck = some r.1 }))
        e in
    let (r, _, e2) = >>=-eq-done (draw d) (λ r. done (r.0, record t { deck = some r.1 })) e1 in
    (some r.1, ground arith)

burn_card-done :
    (t u : Table) → burn_card t ≡ done u → (d : Option Deck) × (u ≡ record t { deck = d })
unfolding burn_card
burn_card-done t u e =
    let (d, _, e1) =
      >>=-eq-done (or_throw t.deck) (λ d. burn d >>= λ d'. done (record t { deck = some d' })) e in
    let (d', _, e2) = >>=-eq-done (burn d) (λ d'. done (record t { deck = some d' })) e1 in
    (some d', ground arith)

-- A table that differs from `t` in the deck, and in `n` more cards on the board.
abbrev pub Revealed : ℕ → Table → Table → Type 0
Revealed n t u =
    (d : Option Deck) × (b : List Card) × (length b ≡ n)
    × (u ≡ record t { deck = d; board = t.board ++ b })

push_board-done : (t u : Table) → push_board t ≡ done u → Revealed 1 t u
unfolding push_board
push_board-done t u e =
    let (r, e1, e2) =
      >>=-eq-done (draw_card t) (λ r. done (record r.1 { board = r.1.board ++ (r.0 ∷ []) })) e in
    let (d, same) = draw_card-done t r.1 r.0 e1 in (d, r.0 ∷ [], refl, ground arith)

Revealed-trans : (m n : ℕ) (t u v : Table) → Revealed m t u → Revealed n u v → Revealed (m + n) t v
Revealed-trans m n t u v (d, b, l, e) (d', b', l', e') =
    (d', b ++ b', omega (arith, length-append b b'), ground (arith, append_assoc t.board b b'))

burned-Revealed : (t u : Table) → burn_card t ≡ done u → Revealed 0 t u
burned-Revealed t u e =
    let (d, same) = burn_card-done t u e in (d, [], refl, ground (arith, append-nil t.board))

pub reveal_one-Revealed : (t u : Table) → reveal_one t ≡ done u → Revealed 1 t u
unfolding reveal_one
reveal_one-Revealed t u e =
    let (a, e1, e2) = >>=-eq-done (burn_card t) push_board e in
    Revealed-trans 0 1 t a u (burned-Revealed t a e1) (push_board-done a u e2)

pub reveal_flop-Revealed : (t u : Table) → reveal_flop t ≡ done u → Revealed 3 t u
unfolding reveal_flop
reveal_flop-Revealed t u e =
    let (c, e3, e4) = >>=-eq-done (burn_card t >>= push_board >>= push_board) push_board e in
    let (b, e2, e5) = >>=-eq-done (burn_card t >>= push_board) push_board e3 in
    let (a, e1, e6) = >>=-eq-done (burn_card t) push_board e2 in
    Revealed-trans 2 1 t c u
      (Revealed-trans 1 1 t b c
        (Revealed-trans 0 1 t a b (burned-Revealed t a e1) (push_board-done a b e6))
        (push_board-done b c e5))
      (push_board-done c u e4)

-- The board is filled by revealing cards, and has five at the end.
pub fill_board-Revealed :
    (fuel : ℕ) (t u : Table)
    → fill_board fuel t ≡ done u
    → ((n : ℕ) × Revealed n t u) × (5 ≤ length u.board)
unfolding fill_board
fill_board-Revealed zero t u e = elim (Bool-cases (ltb (length t.board) 5)) [
  | inl short ↦ let q : ◌≡◌ {A = Run Table} out_of_fuel (done u) = rw short at e in cc
  | inr full ↦
      let q : done t ≡ done u = rw full at e in
      ((0, (t.deck, [], refl, ground (arith, append-nil t.board))), ground arith)
]
fill_board-Revealed (suc fuel) t u e = elim (Bool-cases (ltb (length t.board) 5)) [
  | inr full ↦
      let q : done t ≡ done u = rw (full, fill_board) at e in
      ((0, (t.deck, [], refl, ground (arith, append-nil t.board))), ground arith)
  | inl short ↦
      let q : ((if is_empty t.board then reveal_flop t else reveal_one t) >>= fill_board fuel)
          ≡ done u =
        rw (short, fill_board) at e in
      let (a, e1, e2) =
        >>=-eq-done (if is_empty t.board then reveal_flop t else reveal_one t) (fill_board fuel)
          q in
      let (n, r) = step t a e1 in
      let ((m, r'), long) = fill_board-Revealed fuel a u e2 in
      ((n + m, Revealed-trans n m t a u r r'), long)
]
  where
    step :
        (t a : Table)
        → (if is_empty t.board then reveal_flop t else reveal_one t) ≡ done a
        → (n : ℕ) × Revealed n t a
    step t a h = elim (Bool-cases (is_empty t.board)) [
      | inl none_yet ↦ (3, reveal_flop-Revealed t a (rw none_yet at h))
      | inr some_yet ↦ (1, reveal_one-Revealed t a (rw some_yet at h))
    ]
