-- ===== src/Domain/Table/Termination.antt =====
-- No call runs out of the fuel of its loops.
use poker.Domain.Card.{Card}
use poker.Domain.Deck.{Deck, all_new, burn, draw}
use poker.Domain.Evaluator.{
  HandValue, best_of, better, choose, classify, count_rank, count_suit, evaluate_best,
  evaluate_five,
}
use poker.Domain.Table.Betting.{
  Applied, act, act_by, acting_player, after_action, applied, apply_action, finish_action, refused,
  success,
}
use poker.Domain.Table.Pots.{
  add_winner, award_levels, award_pot, build_and_award_pots, distances, is_eligible, is_empty,
  levels_of, ordered_clockwise, pick_winners, players_where, reaches, value_or,
}
use poker.Domain.Table.Reveal.{reveal_flop-Revealed, reveal_one-Revealed}
use poker.Domain.Table.Seats.{actionable, contenders, count_players, member, seat_of}
use poker.Domain.Table.State.{
  ActionCommand, Player, PotAward, Seats, Street, Table, can_act, flop, hand_is_running,
  is_showdown, preflop, river, showdown, turn,
}
use poker.Domain.Table.Street.{
  advance, advance_street, betting_round_complete, burn_card, draw_card, fill_board,
  first_contender, is_river, next_street, open_action, push_board, reset_street, reveal_flop,
  reveal_one, settle_fold_win, settle_showdown,
}
use poker.Prelude.{
  >>=-eq-done, >>=-ne-out, Bool-cases, List, Option, Run, [], ap, arith, done, if◌then◌else◌, inc64,
  inl, inr, leb, length, length-append, ltb, none, not, or_throw, or_throw-ne-out, out_of_fuel,
  refl, some, suc, threw, zero, ℕ, ◌*◌, ◌++◌, ◌+◌, ◌-◌, ◌<◌, ◌==◌, ◌>>=◌, ◌||◌, ◌∷◌, ◌≡◌, ◌≢◌, ◌≤◌,
}

draw-ne-out : (d : Deck) → draw d ≢ out_of_fuel
unfolding draw
draw-ne-out d e = ground arith

burn-ne-out : (d : Deck) → burn d ≢ out_of_fuel
unfolding burn
burn-ne-out d = >>=-ne-out (draw d) _ (draw-ne-out d) (λ r e. cc)

pub draw_card-ne-out : (t : Table) → draw_card t ≢ out_of_fuel
unfolding draw_card
draw_card-ne-out t =
    >>=-ne-out (or_throw t.deck) _ (or_throw-ne-out t.deck)
      λ d. >>=-ne-out (draw d) _ (draw-ne-out d) (λ r e. cc)

burn_card-ne-out : (t : Table) → burn_card t ≢ out_of_fuel
unfolding burn_card
burn_card-ne-out t =
    >>=-ne-out (or_throw t.deck) _ (or_throw-ne-out t.deck)
      λ d. >>=-ne-out (burn d) _ (burn-ne-out d) (λ r e. cc)

push_board-ne-out : (t : Table) → push_board t ≢ out_of_fuel
unfolding push_board
push_board-ne-out t = >>=-ne-out (draw_card t) _ (draw_card-ne-out t) (λ r e. cc)

reveal_one-ne-out : (t : Table) → reveal_one t ≢ out_of_fuel
unfolding reveal_one
reveal_one-ne-out t = >>=-ne-out (burn_card t) push_board (burn_card-ne-out t) push_board-ne-out

reveal_flop-ne-out : (t : Table) → reveal_flop t ≢ out_of_fuel
unfolding reveal_flop
reveal_flop-ne-out t =
    >>=-ne-out (burn_card t >>= push_board >>= push_board) push_board
      (>>=-ne-out (burn_card t >>= push_board) push_board
        (>>=-ne-out (burn_card t) push_board (burn_card-ne-out t) push_board-ne-out)
        push_board-ne-out)
      push_board-ne-out

abbrev reveal_next : Table → Run Table
reveal_next t = if is_empty t.board then reveal_flop t else reveal_one t

reveal_next-ne-out : (t : Table) → reveal_next t ≢ out_of_fuel
reveal_next-ne-out t = elim (Bool-cases (is_empty t.board)) [
  | inl e ↦ rw e (reveal_flop-ne-out t)
  | inr e ↦ rw e (reveal_one-ne-out t)
]

reveal_next-longer : (t a : Table) → reveal_next t ≡ done a → length t.board < length a.board
reveal_next-longer t a h = elim (Bool-cases (is_empty t.board)) [
  | inl e ↦
      let (d, b, l, same) = reveal_flop-Revealed t a (rw e at h) in
      omega (arith, ap (λ (x : Table). length x.board) same, length-append t.board b)
  | inr e ↦
      let (d, b, l, same) = reveal_one-Revealed t a (rw e at h) in
      omega (arith, ap (λ (x : Table). length x.board) same, length-append t.board b)
]

-- A bind, where the continuation may use what the first part returned.
pub bind-ne-out {ℓ κ} :
    {A : Type ℓ} {B : Type κ} (m : Run A) (f : A → Run B)
    → m ≢ out_of_fuel
    → ((a : A) → m ≡ done a → f a ≢ out_of_fuel)
    → (m >>= f) ≢ out_of_fuel
bind-ne-out (done a) f p q = q a refl
bind-ne-out threw f p q = λ e. cc
bind-ne-out out_of_fuel f p q = absurd (p refl)

fill_board-ne-out :
    (fuel : ℕ) (t : Table) → 5 ≤ length t.board + fuel → fill_board fuel t ≢ out_of_fuel
unfolding fill_board
fill_board-ne-out zero t h = elim (Bool-cases (ltb (length t.board) 5)) [
  | inl short ↦ absurd (ground arith)
  | inr full ↦ rw full (λ e. cc)
]
fill_board-ne-out (suc fuel) t h = elim (Bool-cases (ltb (length t.board) 5)) [
  | inr full ↦ rw (full, fill_board) (λ e. cc)
  | inl short ↦
      rw (short, fill_board)
        (bind-ne-out (reveal_next t) (fill_board fuel) (reveal_next-ne-out t)
          λ a p. fill_board-ne-out fuel a (omega (arith, reveal_next-longer t a p)))
]

best_of-ne-out : (b : Option HandValue) (hands : List (List Card)) → best_of b hands ≢ out_of_fuel
unfolding best_of evaluate_five
best_of-ne-out b [] = λ e. cc
best_of-ne-out b (h ∷ hands) = elim (Bool-cases (all_new [] h)) [
  | inl new ↦
      rw new (best_of-ne-out (some (better b (classify (count_rank h) (count_suit h)))) hands)
  | inr old ↦ rw old (λ e. cc)
]

evaluate_best-ne-out : (cards : List Card) → evaluate_best cards ≢ out_of_fuel
unfolding evaluate_best
evaluate_best-ne-out cards = elim (Bool-cases (ltb (length cards) 5 || ltb 7 (length cards))) [
  | inl size ↦ rw size (λ e. cc)
  | inr size ↦ elim (Bool-cases (all_new [] cards)) [
    | inr old ↦ rw (size, old) (λ e. cc)
    | inl new ↦
        rw (size, new)
          (>>=-ne-out (best_of none (choose 5 cards)) _ (best_of-ne-out none _) (λ b e. cc))
  ]
]

pick_winners-ne-out :
    (board : List Card) (b : Option HandValue) (ids : List ℕ) (players : List Player)
    → pick_winners board b ids players ≢ out_of_fuel
unfolding pick_winners
pick_winners-ne-out board b ids [] = λ e. cc
pick_winners-ne-out board b ids (p ∷ players) =
    >>=-ne-out (evaluate_best _) _ (evaluate_best-ne-out _)
      λ v. pick_winners-ne-out board (add_winner b ids p.id v).0 (add_winner b ids p.id v).1 players

distances-ne-out :
    (seats : Seats) (origin : ℕ) (ids : List ℕ) → distances seats origin ids ≢ out_of_fuel
unfolding distances
distances-ne-out seats origin [] = λ e. cc
distances-ne-out seats origin (id ∷ ids) =
    >>=-ne-out (or_throw (seat_of id seats)) _ (or_throw-ne-out (seat_of id seats)) λ seat.
      >>=-ne-out (distances seats origin ids) _ (distances-ne-out seats origin ids) (λ r e. cc)

award_pot-ne-out : (t : Table) (pot : ℕ) (ps : List Player) → award_pot t pot ps ≢ out_of_fuel
unfolding award_pot ordered_clockwise
award_pot-ne-out t pot ps =
    >>=-ne-out (pick_winners t.board none [] ps) _ (pick_winners-ne-out t.board none [] ps) λ tied.
      >>=-ne-out (ordered_clockwise t tied) _
        (>>=-ne-out (distances t.seats (value_or t.dealer_seat 0) tied) _
          (distances-ne-out t.seats (value_or t.dealer_seat 0) tied) (λ r e. cc))
        (λ w e. cc)

award_levels-ne-out :
    (previous : ℕ) (levels : List ℕ) (awards : List PotAward) (t : Table)
    → award_levels previous levels awards t ≢ out_of_fuel
unfolding award_levels
award_levels-ne-out previous [] awards t = λ e. cc
award_levels-ne-out previous (level ∷ levels) awards t =
    let contributors = count_players (reaches level) t.seats in
    let eligible = players_where (is_eligible level) t.seats in
    let pot = (level - previous) * contributors in
    elim (Bool-cases (pot == 0 || is_empty eligible)) [
      | inl skipped ↦ rw skipped (award_levels-ne-out level levels awards t)
      | inr counted ↦ rw counted (
          >>=-ne-out (award_pot t pot eligible) _ (award_pot-ne-out t pot eligible)
            λ r. award_levels-ne-out level levels (awards ++ (r.1 ∷ [])) r.0)
    ]

settle_showdown-ne-out : (t : Table) → settle_showdown t ≢ out_of_fuel
unfolding settle_showdown build_and_award_pots
settle_showdown-ne-out t =
    let u = record t { street = showdown } in
    >>=-ne-out (fill_board 5 u >>= build_and_award_pots) _
      (>>=-ne-out (fill_board 5 u) build_and_award_pots (fill_board-ne-out 5 u (omega arith))
        λ v. award_levels-ne-out 0 (levels_of v.seats) [] v)
      (λ r e. cc)

settle_fold_win-ne-out : (t : Table) → settle_fold_win t ≢ out_of_fuel
unfolding settle_fold_win
settle_fold_win-ne-out t =
    >>=-ne-out (or_throw (first_contender t.seats)) _ (or_throw-ne-out (first_contender t.seats))
      (λ w e. cc)

-- The streets still to be dealt.
abbrev pub streets_left : Street → ℕ
streets_left preflop = 3
streets_left flop = 2
streets_left turn = 1
streets_left _ = 0

next_street-ne-out : (s : Street) (t : Table) → next_street s t ≢ out_of_fuel
unfolding next_street
next_street-ne-out preflop t = reveal_flop-ne-out (record t { street = flop })
next_street-ne-out flop t = reveal_one-ne-out (record t { street = turn })
next_street-ne-out turn t = reveal_one-ne-out (record t { street = river })
next_street-ne-out _ t = λ e. cc

next_street-left :
    (s : Street) (t u : Table) → next_street s t ≡ done u → streets_left u.street < streets_left s
unfolding next_street
next_street-left preflop t u h =
    let (d, b, l, same) = reveal_flop-Revealed (record t { street = flop }) u h in
    omega (arith, ap (λ (x : Table). streets_left x.street) same)
next_street-left flop t u h =
    let (d, b, l, same) = reveal_one-Revealed (record t { street = turn }) u h in
    omega (arith, ap (λ (x : Table). streets_left x.street) same)
next_street-left turn t u h =
    let (d, b, l, same) = reveal_one-Revealed (record t { street = river }) u h in
    omega (arith, ap (λ (x : Table). streets_left x.street) same)
next_street-left _ t u h = cc

advance_street-ne-out : (t : Table) → advance_street t ≢ out_of_fuel
unfolding advance_street
advance_street-ne-out t =
    >>=-ne-out (next_street t.street (reset_street t)) (λ u. done (open_action u))
      (next_street-ne-out t.street (reset_street t)) (λ u e. cc)

advance_street-left :
    (t u : Table) → advance_street t ≡ done u → streets_left u.street < streets_left t.street
unfolding advance_street open_action
advance_street-left t u h =
    let (a, e, f) =
      >>=-eq-done (next_street t.street (reset_street t)) (λ u. done (open_action u)) h in
    omega (arith, next_street-left t.street (reset_street t) a e, same_street a f)
  where
    same_street :
        (a : Table) → done (open_action a) ≡ done u → streets_left a.street ≡ streets_left u.street
    same_street a f = ground (arith)

pub advance-ne-out :
    (fuel : ℕ) (t : Table) → streets_left t.street < fuel → advance fuel t ≢ out_of_fuel
unfolding advance
advance-ne-out zero t h = absurd (omega arith)
advance-ne-out (suc fuel) t h = elim (Bool-cases (leb (contenders t.seats) 1)) [
  | inl alone ↦ rw alone (settle_fold_win-ne-out t)
  | inr many ↦ elim (Bool-cases (betting_round_complete t)) [
    | inr open_ ↦ rw (many, open_) (λ e. cc)
    | inl closed ↦ elim (Bool-cases (is_river t.street)) [
      | inl last ↦ rw (many, closed, last) (settle_showdown-ne-out t)
      | inr more ↦
          rw (many, closed, more)
            (bind-ne-out (advance_street t) _ (advance_street-ne-out t) λ u p.
              elim (Bool-cases (leb (actionable u.seats) 1)) [
                | inr e ↦ rw e (λ q. cc)
                | inl e ↦ rw e (
                    advance-ne-out fuel (record u { pending_action = []; acting_seat = none })
                      (omega (arith, advance_street-left t u p)))
              ])
    ]
  ]
]

pub streets_left-le : (s : Street) → streets_left s ≤ 3
streets_left-le preflop = omega arith
streets_left-le _ = omega arith

after_action-ne-out : (t : Table) (i : ℕ) → after_action t i ≢ out_of_fuel
unfolding after_action
after_action-ne-out t i = elim (Bool-cases (leb (contenders t.seats) 1)) [
  | inl alone ↦ rw alone (settle_fold_win-ne-out t)
  | inr many ↦ elim (Bool-cases (betting_round_complete t)) [
    | inr open_ ↦ rw (many, open_) (λ e. cc)
    | inl closed ↦
        rw (many, closed)
          (advance-ne-out 4 (record t { acting_seat = none })
            (omega (arith, streets_left-le t.street)))
  ]
]

finish_action-ne-out :
    (t : Table) (i : ℕ) (s : Street) (a : Applied) → finish_action t i s a ≢ out_of_fuel
unfolding finish_action
finish_action-ne-out t i s (refused e text u) = λ e. cc
finish_action-ne-out t i s (applied u) =
    let v = record u { server_sequence = inc64 u.server_sequence } in
    >>=-ne-out (after_action v i) (λ w. done (success s w, w)) (after_action-ne-out v i) (λ w e. cc)

act_by-ne-out :
    (t : Table) (c : ActionCommand) (o : Option (ℕ × Player)) → act_by t c o ≢ out_of_fuel
unfolding act_by
act_by-ne-out t c none = λ e. cc
act_by-ne-out t c (some (i, p)) = elim (Bool-cases (not (p.id == c.player_id))) [
  | inl other ↦ rw other (λ e. cc)
  | inr own ↦ elim (Bool-cases (not (can_act p) || not (member p.id t.pending_action))) [
    | inl idle ↦ rw (own, idle) (λ e. cc)
    | inr live ↦
        rw (own, live) (finish_action-ne-out t p.seat t.street (apply_action t i p c.kind c.amount))
  ]
]

-- A command ends, whatever the state of the table: the loop over the streets and the one that fills
-- the board stay within their bounds.
pub act_terminates : (t : Table) (c : ActionCommand) → act t c ≢ out_of_fuel
unfolding act
act_terminates t c = elim (Bool-cases (not (hand_is_running t.street) || is_showdown t.street)) [
  | inl over ↦ rw over (λ e. cc)
  | inr on ↦ rw on (act_by-ne-out t c (acting_player t))
]
