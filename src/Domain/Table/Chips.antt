-- ===== src/Domain/Table/Chips.antt =====
-- `act` and the loop over the streets neither make chips nor lose them, but for what a showdown
-- leaves with nobody.
use mathlib.Core.Option
use poker.Domain.Table.Betting.{
  Applied, act, act_by, acting_player, after_action, applied, apply_action, finish_action, refused,
  success,
}
use poker.Domain.Table.Conservation.{
  IsSettlement, settle_fold_win-IsSettlement, settle_showdown-IsSettlement, unpaid,
}
use poker.Domain.Table.Payment.{AppliedKeeps, apply_action-Keeps}
use poker.Domain.Table.Reveal.{Revealed, reveal_flop-Revealed, reveal_one-Revealed}
use poker.Domain.Table.Seats.{
  actionable, contenders, first_postflop_actor, member, next_can_act_seat, player_at, total_chips,
}
use poker.Domain.Table.State.{
  ActionCommand, ActionResult, Player, Street, Table, can_act, flop, hand_is_running, is_settled,
  is_showdown, preflop, river, settled, turn,
}
use poker.Domain.Table.Street.{
  advance, advance_fuel, advance_street, betting_round_complete, choose_actor, clear_street,
  is_river, next_street, open_action, reset_street,
}
use poker.Domain.Table.Sums.{
  all_held, held, sum-map_players, total_chips-running, total_chips-settled,
}
use poker.Prelude.{
  >>=-eq-done, Bool-cases, Option, Option-cases, Run, [], ap, arith, done, false, if◌then◌else◌,
  inc64, inl, inr, leb, none, not, refl, some, subst, suc, sym, true, zero, ℕ, ◌+◌, ◌==◌, ◌>>=◌,
  ◌||◌, ◌∙◌, ◌≡◌,
}

-- The chips of the table after a step, with what the showdown did not pay, are those held before.
abbrev pub Accounts : Table → Table → Type 0
Accounts t u = total_chips u + unpaid u ≡ all_held t.seats

IsSettlement-Accounts : (t u : Table) → IsSettlement t u → Accounts t u
IsSettlement-Accounts t u s = omega (arith, s.accounts, total_chips-settled u s.over)

pub running-Accounts :
    (t u : Table) → is_settled u.street ≡ false → all_held u.seats ≡ all_held t.seats → Accounts t u
running-Accounts t u r h = omega (arith, h, total_chips-running u r, nothing_unpaid)
  where
    nothing_unpaid : unpaid u ≡ 0
    nothing_unpaid = rw r refl

Revealed-seats :
    (n : ℕ) (t u : Table) → Revealed n t u → (u.seats ≡ t.seats) × (u.street ≡ t.street)
Revealed-seats n t u (d, b, l, e) = (ap (λ (x : Table). x.seats) e, ap (λ (x : Table). x.street) e)

next_street-seats :
    (s : Street) (t u : Table)
    → next_street s t ≡ done u
    → (u.seats ≡ t.seats) × (is_settled u.street ≡ false)
unfolding next_street is_settled
next_street-seats preflop t u e =
    let (a, b) =
      Revealed-seats 3 (record t { street = flop }) u
        (reveal_flop-Revealed (record t { street = flop }) u e) in
    (a, rw b refl)
next_street-seats flop t u e =
    let (a, b) =
      Revealed-seats 1 (record t { street = turn }) u
        (reveal_one-Revealed (record t { street = turn }) u e) in
    (a, rw b refl)
next_street-seats turn t u e =
    let (a, b) =
      Revealed-seats 1 (record t { street = river }) u
        (reveal_one-Revealed (record t { street = river }) u e) in
    (a, rw b refl)
next_street-seats _ t u e = cc

reset_street-held : (t : Table) → all_held (reset_street t).seats ≡ all_held t.seats
unfolding reset_street clear_street
reset_street-held t = sum-map_players held clear_street t.seats (λ p. refl)

open_action-same :
    (t : Table) → ((open_action t).seats ≡ t.seats) × ((open_action t).street ≡ t.street)
unfolding open_action
open_action-same t = (refl, refl)

advance_street-held :
    (t u : Table)
    → advance_street t ≡ done u
    → (all_held u.seats ≡ all_held t.seats) × (is_settled u.street ≡ false)
unfolding advance_street
advance_street-held t u e =
    let (a, e1, e2) =
      >>=-eq-done (next_street t.street (reset_street t)) (λ a. done (open_action a)) e in
    let same : open_action a ≡ u = ground arith in
    let (seats, street) = next_street-seats t.street (reset_street t) a e1 in
    let (seats', street') = open_action-same a in
    (
      ap (λ (x : Table). all_held x.seats) (sym same)
          ∙ ap all_held (seats' ∙ seats)
          ∙ reset_street-held t,
      ap (λ (x : Table). is_settled x.street) (sym same) ∙ ap is_settled street' ∙ street,
    )

choose_actor-same :
    (t : Table) → ((choose_actor t).seats ≡ t.seats) × ((choose_actor t).street ≡ t.street)
unfolding choose_actor
choose_actor-same t = ground arith

done-injective : (t u : Table) → done t ≡ done u → t ≡ u
done-injective t u e = cc

abbrev after_street : ℕ → Table → Run Table
after_street fuel u =
    let again = advance fuel (record u { pending_action = []; acting_seat = none }) in
    if leb (actionable u.seats) 1
    then again
    else done (record u { acting_seat = first_postflop_actor u })

pub advance-Accounts :
    (fuel : ℕ) (t u : Table) → is_settled t.street ≡ false → advance fuel t ≡ done u → Accounts t u
unfolding advance
advance-Accounts zero t u r e = cc
advance-Accounts (suc fuel) t u r e = elim (Bool-cases (leb (contenders t.seats) 1)) [
  | inl alone ↦ IsSettlement-Accounts t u (settle_fold_win-IsSettlement t u alone (rw alone at e))
  | inr many ↦ elim (Bool-cases (betting_round_complete t)) [
    | inr open_ ↦
        let same : choose_actor t ≡ u = done-injective _ u (rw (many, open_) at e) in
        let (seats, street) = choose_actor-same t in
        subst (Accounts t) same
          (running-Accounts t (choose_actor t) (ap is_settled street ∙ r) (ap all_held seats))
    | inl closed ↦ elim (Bool-cases (is_river t.street)) [
      | inl last ↦
          IsSettlement-Accounts t u
            (settle_showdown-IsSettlement t u many (rw (many, closed, last) at e))
      | inr more ↦
          let e' : (advance_street t >>= after_street fuel) ≡ done u =
            rw (many, closed, more) at e in
          let (v, e1, e2) = >>=-eq-done (advance_street t) (after_street fuel) e' in
          let (held_same, running) = advance_street-held t v e1 in
          elim (Bool-cases (leb (actionable v.seats) 1)) [
            | inl idle ↦
                advance-Accounts fuel (record v { pending_action = []; acting_seat = none }) u
                  running (rw idle at e2)
                ∙ held_same
            | inr live ↦
                let same : record v { acting_seat = first_postflop_actor v } ≡ u =
                  done-injective _ u (rw live at e2) in
                subst (Accounts t) same (running-Accounts t _ running held_same)
          ]
    ]
  ]
]

after_action-Accounts :
    (t u : Table) (i : ℕ) → is_settled t.street ≡ false → after_action t i ≡ done u → Accounts t u
unfolding after_action
after_action-Accounts t u i r e = elim (Bool-cases (leb (contenders t.seats) 1)) [
  | inl alone ↦ IsSettlement-Accounts t u (settle_fold_win-IsSettlement t u alone (rw alone at e))
  | inr many ↦ elim (Bool-cases (betting_round_complete t)) [
    | inl closed ↦
        advance-Accounts advance_fuel (record t { acting_seat = none }) u r (rw (many, closed) at e)
    | inr open_ ↦
        let v = record t { acting_seat = next_can_act_seat t i } in
        let same : v ≡ u = done-injective v u (rw (many, open_) at e) in
        subst (Accounts t) same (running-Accounts t v r refl)
  ]
]

finish_action-Accounts :
    (t u : Table) (i : ℕ) (s : Street) (a : Applied) (r : ActionResult)
    → is_settled t.street ≡ false
    → AppliedKeeps t a
    → finish_action t i s a ≡ done (r, u)
    → Accounts t u
unfolding finish_action
finish_action-Accounts t u i s (refused code text v) r run k e =
    let same : t ≡ u = cc in subst (Accounts t) same (running-Accounts t t run refl)
finish_action-Accounts t u i s (applied v) r run k e =
    let bumped = record v { server_sequence = inc64 v.server_sequence } in
    let (w, e1, e2) = >>=-eq-done (after_action bumped i) (λ w. done (success s w, w)) e in
    let same : w ≡ u = cc in
    subst (Accounts t) same
      (after_action-Accounts bumped w i (ap is_settled k.same_street ∙ run) e1 ∙ k.chips)

running-not-settled : (s : Street) → hand_is_running s ≡ true → is_settled s ≡ false
unfolding hand_is_running is_settled
running-not-settled Street.waiting h = cc
running-not-settled settled h = cc
running-not-settled _ h = refl

act_by-Accounts :
    (t u : Table) (c : ActionCommand) (r : ActionResult)
    → is_settled t.street ≡ false
    → (o : Option (ℕ × Player))
    → ((i : ℕ) (p : Player) → o ≡ some (i, p) → player_at t.seats i ≡ some p)
    → act_by t c o ≡ done (r, u)
    → Accounts t u
unfolding act_by
act_by-Accounts t u c r run none at e =
    let same : t ≡ u = cc in subst (Accounts t) same (running-Accounts t t run refl)
act_by-Accounts t u c r run (some (i, p)) at e = elim (Bool-cases (not (p.id == c.player_id))) [
  | inl other ↦
      let q = rw other at e in
      let same : t ≡ u = cc in subst (Accounts t) same (running-Accounts t t run refl)
  | inr own ↦ elim (Bool-cases (not (can_act p) || not (member p.id t.pending_action))) [
    | inl idle ↦
        let q = rw (own, idle) at e in
        let same : t ≡ u = cc in subst (Accounts t) same (running-Accounts t t run refl)
    | inr live ↦
        finish_action-Accounts t u p.seat t.street (apply_action t i p c.kind c.amount) r run
          (apply_action-Keeps t i p (at i p refl) c.kind c.amount) (rw (own, live) at e)
  ]
]

acting_player-at :
    (t : Table) (i : ℕ) (p : Player) → acting_player t ≡ some (i, p) → player_at t.seats i ≡ some p
unfolding acting_player
acting_player-at t i p e = by_seat t.acting_seat e
  where
    by_seat :
        (o : Option ℕ)
        → (elim o as (λ o. Option (ℕ × Player)) [
          | none ↦ none
          | some j ↦ Option.map (λ q. (j, q)) (player_at t.seats j)
        ])
          ≡ some (i, p)
        → player_at t.seats i ≡ some p
    by_seat none h = cc
    by_seat (some j) h = elim (Option-cases (player_at t.seats j)) [
      | inl nobody ↦
          let q : ◌≡◌ {A = Option (ℕ × Player)} none (some (i, p)) = rw (nobody, Option.map) at h in
          cc
      | inr (q, found) ↦
          let r : ◌≡◌ {A = Option (ℕ × Player)} (some (j, q)) (some (i, p)) =
            rw (found, Option.map) at h in
          ground (arith, found)
    ]

-- While a hand runs, a command leaves the chips of the table as they were, whichever command it is
-- and whoever sends it, but for the excess of the commitments over the largest commitment of a player
-- still in, where the hand ends in a showdown.
pub act_accounts :
    (t u : Table) (c : ActionCommand) (r : ActionResult)
    → hand_is_running t.street ≡ true
    → act t c ≡ done (r, u)
    → total_chips u + unpaid u ≡ total_chips t
unfolding act
act_accounts t u c r running e =
    let run = running-not-settled t.street running in
    let whole = total_chips-running t run in
    elim (Bool-cases (not (hand_is_running t.street) || is_showdown t.street)) [
      | inl over ↦
          let q = rw over at e in
          let same : t ≡ u = cc in
          subst (Accounts t) same (running-Accounts t t run refl) ∙ sym whole
      | inr on ↦
          act_by-Accounts t u c r run (acting_player t) (acting_player-at t) (rw on at e)
          ∙ sym whole
    ]
