-- ===== src/Application/Rooms/Refusals.antt =====
-- A task that answers an error has left the table as it was.
use poker.Application.Rooms.Tasks.{
  Answer, Request, abort_hand_task, act_on_hand, act_task, action_answer, action_task,
  audit_snapshot_task, error_answer, error_of, error_task, heard, is_player, on_action_timeout_task,
  remove_player_task, represented, run_request, seat_player_task, set_connected_task,
  set_ready_task, snapshot_answer, snapshot_task, start_hand_task, start_hand_with_deck_task,
  time_out, timeout_command,
}
use poker.Domain.Deck.{RandomSource}
use poker.Domain.Table.Hand.{abort_hand, take_back_awards}
use poker.Domain.Table.Refusals.{act_atomic, is_ok}
use poker.Domain.Table.Seating.{remove_player, seat_player, set_connected, set_ready}
use poker.Domain.Table.State.{ActionCommand, ActionResult, Street, Table, TableError, settled}
use poker.Domain.Table.View.{audit_snapshot, snapshot}
use poker.Prelude.{
  >>=-eq-done, Bool, Bool-cases, Option, Option-cases, Run, ap, arith, done, false, inl, inr, none,
  not, refl, some, subst, sym, true, ℕ, ℤ, ◌&&◌, ◌==◌, ◌||◌, ◌∙◌, ◌≡◌,
}

abbrev pub is_start : {State : Type 0} → Request State → Bool
is_start (start_hand_task s) = true
is_start (start_hand_with_deck_task cards) = true
is_start _ = false

returned_table : {A : Type 0} (a : A) (t : Table) (r : A × Table) → done (a, t) ≡ done r → r.1 ≡ t
returned_table a t r h = let e : (a, t) ≡ r = cc in rw⁻¹ e refl

seat_player-atomic :
    (t : Table) (id seat : ℕ) (buy_in : ℤ)
    → is_ok (seat_player t id seat buy_in).0 ≡ false
    → (seat_player t id seat buy_in).1 ≡ t
unfolding seat_player
seat_player-atomic t id seat buy_in h = ground (arith, h)

remove_player-atomic :
    (t : Table) (id : ℕ) → is_ok (remove_player t id).0 ≡ false → (remove_player t id).1 ≡ t
unfolding remove_player
remove_player-atomic t id h = ground (arith, h)

set_ready-atomic :
    (t : Table) (id : ℕ) (ready : Bool)
    → is_ok (set_ready t id ready).0 ≡ false
    → (set_ready t id ready).1 ≡ t
unfolding set_ready
set_ready-atomic t id ready h = ground (arith, h)

set_connected-atomic :
    (t : Table) (id : ℕ) (connected : Bool)
    → is_ok (set_connected t id connected).0 ≡ false
    → (set_connected t id connected).1 ≡ t
unfolding set_connected
set_connected-atomic t id connected h = ground (arith, h)

abort_hand-atomic :
    (t : Table) (r : TableError × Table) → abort_hand t ≡ some r → is_ok r.0 ≡ false → r.1 ≡ t
unfolding abort_hand
abort_hand-atomic t r h bad_ = by_street t.street refl
  where
    by_street : (s : Street) → t.street ≡ s → r.1 ≡ t
    by_street Street.waiting e = ground (arith, rw (e, abort_hand) at h, bad_)
    by_street settled e = elim (Option-cases (take_back_awards t.last_awards t.seats)) [
      | inl away ↦ let q = rw (e, away, abort_hand) at h in cc
      | inr (seats, back) ↦ let q = rw (e, back, abort_hand) at h in ground (arith, q, bad_)
    ]
    by_street _ e = let q = rw (e, abort_hand) at h in ground (arith, q, bad_)

act_on_hand-atomic :
    (t : Table) (expected : ℕ) (c : ActionCommand) (r : ActionResult × Table)
    → act_on_hand t expected c ≡ done r
    → is_ok r.0.error ≡ false
    → r.1 ≡ t
unfolding act_on_hand
act_on_hand-atomic t expected c r h bad_ =
    elim (Bool-cases
      (not (expected == 0) && not ((snapshot t (some c.player_id)).hand_id == expected))) [
        | inl stale ↦ let q = rw (stale, act_on_hand) at h in returned_table _ t r q
        | inr current ↦ (act_atomic t c r (rw (current, act_on_hand) at h) bad_).0
      ]

time_out-atomic :
    (t : Table) (id sequence : ℕ) (r : ActionResult × Table)
    → time_out t id sequence ≡ done r
    → is_ok r.0.error ≡ false
    → r.1 ≡ t
unfolding time_out
time_out-atomic t id sequence r h bad_ =
    let before = snapshot t (some id) in
    elim (Bool-cases (
      (not (sequence == 0) && not (before.server_sequence == sequence))
      || not (is_player before.acting_player id))) [
        | inl stale ↦ let q = rw (stale, time_out) at h in returned_table _ t r q
        | inr current ↦
            (act_atomic t (timeout_command before id) r (rw (current, time_out) at h) bad_).0
      ]

error_task-atomic :
    (present : Bool) (t u : Table) (operation : Run (TableError × Table)) (answer : Answer)
    → ((r : TableError × Table) → operation ≡ done r → is_ok r.0 ≡ false → r.1 ≡ t)
    → error_task present t operation ≡ done (some answer, u)
    → is_ok (error_of answer) ≡ false
    → u ≡ t
error_task-atomic true t u operation answer k h bad_ =
    let (r, ran, e) = >>=-eq-done operation _ h in
    let a : error_answer r.0 ≡ answer = cc in
    let b : r.1 ≡ u = cc in sym b ∙ k r ran (subst (λ x. is_ok (error_of x) ≡ false) (sym a) bad_)
error_task-atomic false t u operation answer k h bad_ = cc

action_task-atomic :
    (present : Bool) (id : ℕ) (t u : Table) (operation : Run (ActionResult × Table))
    (answer : Answer)
    → ((r : ActionResult × Table) → operation ≡ done r → is_ok r.0.error ≡ false → r.1 ≡ t)
    → action_task present id operation ≡ done (some answer, u)
    → is_ok (error_of answer) ≡ false
    → u ≡ t
action_task-atomic true id t u operation answer k h bad_ =
    let (r, ran, e) = >>=-eq-done operation _ h in
    let a : action_answer r.0 (some (snapshot r.1 (some id))) (some (audit_snapshot r.1)) ≡ answer =
      cc in
    let b : r.1 ≡ u = cc in sym b ∙ k r ran (subst (λ x. is_ok (error_of x) ≡ false) (sym a) bad_)
action_task-atomic false id t u operation answer k h bad_ =
    let (r, ran, e) = >>=-eq-done operation _ h in cc

-- The operations that do not fail.
done_atomic :
    {A : Type 0} (e : A → TableError) (t : Table) (q r : A × Table)
    → (is_ok (e q.0) ≡ false → q.1 ≡ t)
    → done q ≡ done r
    → is_ok (e r.0) ≡ false
    → r.1 ≡ t
done_atomic {A} e t q r k h bad_ =
    let same : q ≡ r = cc in subst (λ (p : A × Table). is_ok (e p.0) ≡ false → p.1 ≡ t) same k bad_

module _ (random : RandomSource) where
  open random use {State}

  -- Whatever a task asks, but for the start of a hand, if it answers an error then the table is as it
  -- was before the task.
  pub run_request-atomic :
      (t u : Table) (present : Bool) (request : Request State) (answer : Answer)
      → is_start request ≡ false
      → run_request random t present request ≡ done (some answer, u)
      → is_ok (error_of answer) ≡ false
      → u ≡ t
  unfolding run_request
  run_request-atomic t u present (seat_player_task id seat buy_in) answer no_start h bad_ =
      error_task-atomic present t u (done (seat_player t id seat buy_in)) answer
        (λ r.
          done_atomic (λ e. e) t (seat_player t id seat buy_in) r
            (seat_player-atomic t id seat buy_in))
        h bad_
  run_request-atomic t u present (remove_player_task id) answer no_start h bad_ =
      error_task-atomic present t u (done (remove_player t id)) answer
        (λ r. done_atomic (λ e. e) t (remove_player t id) r (remove_player-atomic t id)) h bad_
  run_request-atomic t u present (set_ready_task id ready) answer no_start h bad_ =
      error_task-atomic present t u (done (set_ready t id ready)) answer
        (λ r. done_atomic (λ e. e) t (set_ready t id ready) r (set_ready-atomic t id ready)) h bad_
  run_request-atomic t u present (start_hand_task s) answer no_start h bad_ = cc
  run_request-atomic t u present (start_hand_with_deck_task cards) answer no_start h bad_ = cc
  run_request-atomic t u present abort_hand_task answer no_start h bad_ =
      error_task-atomic present t u (represented (abort_hand t)) answer
        (λ r e. aborts_atomic r (abort_hand t) refl e) h bad_
    where
      aborts_atomic :
          (r : TableError × Table) (o : Option (TableError × Table))
          → abort_hand t ≡ o
          → represented o ≡ done r
          → is_ok r.0 ≡ false
          → r.1 ≡ t
      aborts_atomic r none e q bad_ = cc
      aborts_atomic r (some p) e q bad_ =
          let same : p ≡ r = cc in abort_hand-atomic t r (e ∙ ap some same) bad_
  run_request-atomic t u present (act_task expected command) answer no_start h bad_ =
      action_task-atomic present command.player_id t u (act_on_hand t expected command) answer
        (act_on_hand-atomic t expected command) h bad_
  run_request-atomic t u present (set_connected_task id connected) answer no_start h bad_ =
      connects_atomic present h
    where
      r : TableError × Table
      r = set_connected t id connected

      connects_atomic :
          (p : Bool)
          → let q : Option Answer × Table =
              (heard p (snapshot_answer r.0 (some (snapshot r.1 (some id)))), r.1) in
            done q ≡ done (some answer, u) → u ≡ t
      connects_atomic true q =
          let a : snapshot_answer r.0 (some (snapshot r.1 (some id))) ≡ answer = cc in
          let b : r.1 ≡ u = cc in
          sym b
          ∙ set_connected-atomic t id connected
              (subst (λ x. is_ok (error_of x) ≡ false) (sym a) bad_)
      connects_atomic false q = cc
  run_request-atomic t u present (snapshot_task viewer) answer no_start h bad_ =
      returned_table _ t _ h
  run_request-atomic t u present audit_snapshot_task answer no_start h bad_ = returned_table _ t _ h
  run_request-atomic t u present (on_action_timeout_task id sequence) answer no_start h bad_ =
      action_task-atomic present id t u (time_out t id sequence) answer
        (time_out-atomic t id sequence) h bad_
