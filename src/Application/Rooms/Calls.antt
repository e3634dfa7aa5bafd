-- ===== src/Application/Rooms/Calls.antt =====
-- The operations of the manager on a table: each posts its task.
use poker.Application.Rooms.Manager.{RoomManager, ask}
use poker.Application.Rooms.Tasks.{
  Answer, abort_hand_task, act_task, audit_snapshot_task, on_action_timeout_task,
  remove_player_task, seat_player_task, set_connected_task, set_ready_task, snapshot_task,
  start_hand_task, start_hand_with_deck_task,
}
use poker.Domain.Card.{Card}
use poker.Domain.Deck.{RandomSource}
use poker.Domain.Table.State.{ActionCommand}
use poker.Prelude.{Bool, List, Option, ℕ, ℤ}

module _ (random : RandomSource) where
  open random use {State}

  -- What a call comes to: its result, what the callback hears at once, and the manager.
  abbrev Called : Type 0
  Called = (Bool × Option Answer) × RoomManager State

  unfoldable pub seat_player_call : RoomManager State → ℕ → ℕ → ℕ → ℤ → Option ℕ → Called
  unfolding ask
  seat_player_call m table_id player_id seat amount callback =
      ask random m table_id (seat_player_task player_id seat amount) callback

  unfoldable pub remove_player_call : RoomManager State → ℕ → ℕ → Option ℕ → Called
  unfolding ask
  remove_player_call m table_id player_id callback =
      ask random m table_id (remove_player_task player_id) callback

  unfoldable pub set_ready_call : RoomManager State → ℕ → ℕ → Bool → Option ℕ → Called
  unfolding ask
  set_ready_call m table_id player_id ready callback =
      ask random m table_id (set_ready_task player_id ready) callback

  -- The source is made in the task; its state comes with the call.
  unfoldable pub start_hand_call : RoomManager State → ℕ → State → Option ℕ → Called
  unfolding ask
  start_hand_call m table_id random_state callback =
      ask random m table_id (start_hand_task random_state) callback

  unfoldable pub start_hand_with_deck_call : RoomManager State → ℕ → List Card → Option ℕ → Called
  unfolding ask
  start_hand_with_deck_call m table_id cards callback =
      ask random m table_id (start_hand_with_deck_task cards) callback

  unfoldable pub abort_hand_call : RoomManager State → ℕ → Option ℕ → Called
  unfolding ask
  abort_hand_call m table_id callback = ask random m table_id abort_hand_task callback

  -- `act` with the hand that the caller expects.
  unfoldable pub act_in_hand_call : RoomManager State → ℕ → ℕ → ActionCommand → Option ℕ → Called
  unfolding ask
  act_in_hand_call m table_id expected_hand_id command callback =
      ask random m table_id (act_task expected_hand_id command) callback

  unfoldable pub act_call : RoomManager State → ℕ → ActionCommand → Option ℕ → Called
  unfolding act_in_hand_call
  act_call m table_id command callback = act_in_hand_call m table_id 0 command callback

  unfoldable pub set_connected_call : RoomManager State → ℕ → ℕ → Bool → Option ℕ → Called
  unfolding ask
  set_connected_call m table_id player_id connected callback =
      ask random m table_id (set_connected_task player_id connected) callback

  unfoldable pub snapshot_call : RoomManager State → ℕ → Option ℕ → Option ℕ → Called
  unfolding ask
  snapshot_call m table_id viewer callback = ask random m table_id (snapshot_task viewer) callback

  unfoldable pub audit_snapshot_call : RoomManager State → ℕ → Option ℕ → Called
  unfolding ask
  audit_snapshot_call m table_id callback = ask random m table_id audit_snapshot_task callback

  -- `onActionTimeout` with the sequence number that the caller expects.
  unfoldable pub timeout_at_call : RoomManager State → ℕ → ℕ → ℕ → Option ℕ → Called
  unfolding ask
  timeout_at_call m table_id player_id expected_server_sequence callback =
      ask random m table_id (on_action_timeout_task player_id expected_server_sequence) callback

  unfoldable pub on_action_timeout_call : RoomManager State → ℕ → ℕ → Option ℕ → Called
  unfolding timeout_at_call
  on_action_timeout_call m table_id player_id callback =
      timeout_at_call m table_id player_id 0 callback
