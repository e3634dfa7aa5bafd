-- ===== src/Application/Rooms/Tasks.antt =====
-- The tasks that `RoomManager` posts, and what they answer. The default-constructed snapshot of an
-- answer is `none`. A callback is called by its number: what it does is outside.
use poker.Domain.Card.{Card}
use poker.Domain.Deck.{RandomSource, shuffled_deck}
use poker.Domain.Evaluator.{hand}
use poker.Domain.Table.Betting.{act}
use poker.Domain.Table.Hand.{abort_hand, start_hand, start_hand_with_deck}
use poker.Domain.Table.Seating.{remove_player, seat_player, set_connected, set_ready}
use poker.Domain.Table.State.{
  ActionCommand, ActionResult, Street, Table, TableError, action_not_allowed, check, fold,
  not_players_turn, ok,
}
use poker.Domain.Table.View.{PlayerView, TableSnapshot, audit_snapshot, snapshot}
use poker.Prelude.{
  Bool, List, Option, Run, String, [], done, false, if◌then◌else◌, none, not, out_of_fuel, pos,
  some, true, ℕ, ℤ, ◌&&◌, ◌==◌, ◌>>=◌, ◌||◌, ◌∷◌,
}

pub data Request (State : Type 0) : Type 0 where
  seat_player_task : ℕ → ℕ → ℤ → Request State
  remove_player_task : ℕ → Request State
  set_ready_task : ℕ → Bool → Request State
  -- With the state that the random source has when the task runs.
  start_hand_task : State → Request State
  start_hand_with_deck_task : List Card → Request State
  abort_hand_task : Request State
  act_task : ℕ → ActionCommand → Request State
  set_connected_task : ℕ → Bool → Request State
  snapshot_task : Option ℕ → Request State
  audit_snapshot_task : Request State
  on_action_timeout_task : ℕ → ℕ → Request State

-- The arguments of the three kinds of callback.
pub data Answer : Type 0 where
  error_answer : TableError → Answer
  snapshot_answer : TableError → Option TableSnapshot → Answer
  action_answer : ActionResult → Option TableSnapshot → Option TableSnapshot → Answer

abbrev pub error_of : Answer → TableError
error_of (error_answer e) = e
error_of (snapshot_answer e view) = e
error_of (action_answer result view audit) = result.error

abbrev pub result_with : TableError → String → ℕ → ActionResult
result_with e text sequence = record {
  error = e;
  message = text;
  server_sequence = sequence;
  awards = [];
  action_street = Street.waiting;
}

-- The answer of a call that does not reach the table, by the kind of its callback.
unfoldable pub refusal : {State : Type 0} → Request State → TableError → String → Answer
refusal (act_task hand command) e text = action_answer (result_with e text 0) none none
refusal (on_action_timeout_task player sequence) e text =
    action_answer (result_with e text 0) none none
refusal (set_connected_task player connected) e text = snapshot_answer e none
refusal (snapshot_task viewer) e text = snapshot_answer e none
refusal audit_snapshot_task e text = snapshot_answer e none
refusal _ e text = error_answer e

-- `if (callback) callback(...)`.
abbrev pub heard : Bool → Answer → Option Answer
heard true answer = some answer
heard false answer = none

-- `if (callback) callback(table.operation(...))`: without a callback the operation is not called.
abbrev pub error_task : Bool → Table → Run (TableError × Table) → Run (Option Answer × Table)
error_task true t operation = operation >>= λ r. done (some (error_answer r.0), r.1)
error_task false t operation = done (none, t)

-- A table that the state does not represent, a stack below zero, is not followed further.
abbrev pub represented : {A : Type 0} → Option A → Run A
represented none = out_of_fuel
represented (some a) = done a

-- `act` of the task with the hand that the caller expects.
unfoldable pub act_on_hand : Table → ℕ → ActionCommand → Run (ActionResult × Table)
unfolding snapshot
act_on_hand t expected_hand_id command =
    let before = snapshot t (some command.player_id) in
    if not (expected_hand_id == 0) && not (before.hand_id == expected_hand_id)
    then done
        (result_with action_not_allowed "action belongs to a stale hand" before.server_sequence, t)
    else act t command

abbrev pub is_player : Option ℕ → ℕ → Bool
is_player none id = false
is_player (some other) id = other == id

-- `std::find_if` over the players of a snapshot.
unfoldable pub view_of_player : ℕ → List PlayerView → Option PlayerView
view_of_player id [] = none
view_of_player id (v ∷ views) = if v.id == id then some v else view_of_player id views

unfoldable pub can_check : TableSnapshot → ℕ → Bool
can_check before id = elim (view_of_player id before.players) [
  | none ↦ false
  | some found ↦ found.street_commitment == before.current_bet
]

abbrev pub timeout_command : TableSnapshot → ℕ → ActionCommand
timeout_command before id = record {
  player_id = id;
  kind = if can_check before id then check else fold;
  amount = pos 0;
}

-- `act` of the task of a timeout.
unfoldable pub time_out : Table → ℕ → ℕ → Run (ActionResult × Table)
unfolding snapshot can_check
time_out t id expected_server_sequence =
    let before = snapshot t (some id) in
    if (not (expected_server_sequence == 0)
        && not (before.server_sequence == expected_server_sequence))
      || not (is_player before.acting_player id)
    then done (
      result_with not_players_turn "timeout is stale or no longer belongs to this player"
          before.server_sequence,
      t,
    )
    else act t (timeout_command before id)

-- The result of an action with both views of the table after it.
abbrev pub action_task : Bool → ℕ → Run (ActionResult × Table) → Run (Option Answer × Table)
action_task present id operation = operation >>= λ r. done (
  heard present (action_answer r.0 (some (snapshot r.1 (some id))) (some (audit_snapshot r.1))),
  r.1,
)

module _ (random : RandomSource) where
  open random use {State}

  -- The body of a task on a room that is open; `present` tells whether there is a callback.
  unfoldable pub run_request : Table → Bool → Request State → Run (Option Answer × Table)
  unfolding act_on_hand time_out
  run_request t present (seat_player_task id seat buy_in) =
      error_task present t (done (seat_player t id seat buy_in))
  run_request t present (remove_player_task id) = error_task present t (done (remove_player t id))
  run_request t present (set_ready_task id ready) =
      error_task present t (done (set_ready t id ready))
  run_request t present (start_hand_task s) =
      error_task present t (shuffled_deck random s >>= λ d. start_hand t d.0)
  run_request t present (start_hand_with_deck_task cards) =
      error_task present t (start_hand_with_deck t cards)
  run_request t present abort_hand_task = error_task present t (represented (abort_hand t))
  run_request t present (act_task hand command) =
      action_task present command.player_id (act_on_hand t hand command)
  run_request t present (set_connected_task id connected) =
      let r = set_connected t id connected in
      done (heard present (snapshot_answer r.0 (some (snapshot r.1 (some id)))), r.1)
  run_request t present (snapshot_task viewer) =
      done (heard present (snapshot_answer ok (some (snapshot t viewer))), t)
  run_request t present audit_snapshot_task =
      done (heard present (snapshot_answer ok (some (audit_snapshot t))), t)
  run_request t present (on_action_timeout_task id sequence) =
      action_task present id (time_out t id sequence)
