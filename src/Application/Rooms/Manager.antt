-- ===== src/Application/Rooms/Manager.antt =====
-- The rooms, which tasks share with the map of the manager: a room stands in a heap, where a task
-- still finds it after the map has lost it.
use poker.Application.Executor.{RoomExecutor, Turn, new_executor, post, run_shard, stop, takes}
use poker.Application.Rooms.Tasks.{Answer, Request, heard, refusal, run_request}
use poker.Domain.Deck.{RandomSource}
use poker.Domain.Table.State.{
  Table, TableConfig, TableError, invalid_configuration, new_table, ok, player_not_found,
  seat_occupied, service_unavailable,
}
use poker.Prelude.{
  Bool, List, Option, Run, [], done, erase_key, false, find_key, get_elem?, if◌then◌else◌, leb,
  length, none, put_key, set, some, true, ℕ, ◌++◌, ◌==◌, ◌>>=◌, ◌∷◌,
}

pub record Room : Type 0 where
  pub id : ℕ
  pub closed : Bool
  pub table : Table

pub record Task (State : Type 0) : Type 0 where
  pub room : ℕ
  pub request : Request State
  pub callback : Option ℕ

-- How far the worker of a shard is with a task: it has none, it has taken one from its queue, or it has
-- read that the room of its task is open.
pub data Phase (State : Type 0) : Type 0 where
  idle : Phase State
  has_taken : Task State → Phase State
  entered : Task State → Phase State

-- The workers are those of the executor, by the index of the shard; one that is not listed is idle.
pub record RoomManager (State : Type 0) : Type 0 where
  pub rooms : List (ℕ × ℕ)
  pub heap : List Room
  pub executor : RoomExecutor (Task State)
  pub workers : List (ℕ × Phase State)

abbrev pub phase_in : {State : Type 0} → Option (Phase State) → Phase State
phase_in none = idle
phase_in (some phase) = phase

abbrev pub phase_of : {State : Type 0} → RoomManager State → ℕ → Phase State
phase_of m shard = phase_in (find_key shard m.workers)

abbrev pub now : {State : Type 0} → RoomManager State → ℕ → Phase State → RoomManager State
now m shard phase = record m { workers = put_key shard phase m.workers }

abbrev pub has_callback : Option ℕ → Bool
has_callback none = false
has_callback (some n) = true

-- An answer goes to the callback that the task carries.
abbrev pub addressed : Option ℕ → Option Answer → Option (ℕ × Answer)
addressed (some n) (some answer) = some (n, answer)
addressed _ _ = none

-- `std::sort` of the ids.
unfoldable pub insert_id_in_order : ℕ → List ℕ → List ℕ
insert_id_in_order id [] = id ∷ []
insert_id_in_order id (other ∷ ids) =
    if leb id other then id ∷ other ∷ ids else other ∷ insert_id_in_order id ids

unfoldable pub sorted_ids : List (ℕ × ℕ) → List ℕ
unfolding insert_id_in_order
sorted_ids [] = []
sorted_ids ((id, room) ∷ rooms) = insert_id_in_order id (sorted_ids rooms)

module _ (random : RandomSource) where
  open random use {State}

  unfoldable pub new_room_manager : ℕ → ℕ → Run (RoomManager State)
  unfolding new_executor
  new_room_manager logic_shards max_pending_per_shard =
      new_executor logic_shards max_pending_per_shard >>= λ e.
      done (record { rooms = []; heap = []; executor = e; workers = [] })

  unfoldable pub create_table : RoomManager State → ℕ → TableConfig → TableError × RoomManager State
  create_table m table_id config =
      if table_id == 0 then (invalid_configuration, m) else elim (find_key table_id m.rooms) [
        | some room ↦ (seat_occupied, m)
        | none ↦ (
          ok,
          record m {
            rooms = put_key table_id (length m.heap) m.rooms;
            heap =
                m.heap ++ (record { id = table_id; closed = false; table = new_table config } ∷ []);
          },
        )
      ]

  abbrev pub close_room : Room → Room
  close_room room = record room { closed = true }

  unfoldable pub close_table : RoomManager State → ℕ → Bool × RoomManager State
  close_table m table_id = elim (find_key table_id m.rooms) [
    | none ↦ (false, m)
    | some i ↦ (
      true,
      record m {
        rooms = erase_key table_id m.rooms;
        heap = elim (get_elem? m.heap i) [
          | none ↦ m.heap
          | some room ↦ set m.heap i (close_room room)
        ];
      },
    )
  ]

  unfoldable pub has_table : RoomManager State → ℕ → Bool
  has_table m table_id = elim (find_key table_id m.rooms) [ none ↦ false | some i ↦ true ]

  unfoldable pub table_count : RoomManager State → ℕ
  table_count m = length m.rooms

  unfoldable pub table_ids : RoomManager State → List ℕ
  unfolding sorted_ids
  table_ids m = sorted_ids m.rooms

  -- `findRoom`, under the mutex of the rooms.
  unfoldable pub find_room : RoomManager State → ℕ → Option ℕ
  find_room m table_id = find_key table_id m.rooms

  -- The rest of a call, with the room that it has found: whether the task is accepted, and what the
  -- callback hears at once. Between the two parts of a call other threads may come in.
  unfoldable pub send :
      RoomManager State
      → ℕ
      → ℕ
      → Request State
      → Option ℕ
      → (Bool × Option Answer) × RoomManager State
  unfolding post
  send m table_id room request callback =
      let posted =
        post m.executor table_id
          (some (record { room = room; request = request; callback = callback })) in
      if posted.0 then ((true, none), record m { executor = posted.1 }) else (
        (
          false,
          heard (has_callback callback)
              (refusal request service_unavailable "room executor is overloaded"),
        ),
        m,
      )

  -- A call that no other thread interrupts.
  unfoldable pub ask :
      RoomManager State → ℕ → Request State → Option ℕ → (Bool × Option Answer) × RoomManager State
  unfolding find_room send
  ask m table_id request callback = elim (find_room m table_id) [
    | none ↦ (
      (
        false,
        heard (has_callback callback) (refusal request player_not_found "table does not exist"),
      ),
      m,
    )
    | some room ↦ send m table_id room request callback
  ]

  unfoldable pub stop_rooms : RoomManager State → RoomManager State
  unfolding stop
  stop_rooms m = record m { executor = stop m.executor }

  abbrev pub phase_after : Turn (Task State) → Phase State
  phase_after (takes task) = has_taken task
  phase_after _ = idle

  -- A worker that is idle takes the next task, under the mutex of its shard.
  unfoldable pub take_task : RoomManager State → ℕ → RoomManager State
  unfolding run_shard
  take_task m shard = elim (phase_of m shard) [
    | idle ↦
        let r = run_shard m.executor shard in
        now (record m { executor = r.1 }) shard (phase_after r.0)
    | has_taken task ↦ m
    | entered task ↦ m
  ]

  -- It reads whether the room is closed, and answers at once if it is.
  unfoldable pub enter_room : RoomManager State → ℕ → Option (ℕ × Answer) × RoomManager State
  unfolding refusal
  enter_room m shard = elim (phase_of m shard) [
    | idle ↦ (none, m)
    | entered task ↦ (none, m)
    | has_taken task ↦ elim (get_elem? m.heap task.room) [
      | none ↦ (none, m)
      | some room ↦
          if room.closed
          then (
            addressed task.callback (
                heard (has_callback task.callback)
                  (refusal task.request service_unavailable "table is closed")),
            now m shard idle,
          )
          else (none, now m shard (entered task))
    ]
  ]

  -- The worker catches an exception of the task. What is `left` of the table then is not represented.
  abbrev pub caught : Table → Run (Option Answer × Table) → Option Answer × Table
  caught left (done r) = r
  caught left _ = (none, left)

  -- It runs the rest of the task on the table of the room, which no other thread changes.
  unfoldable pub run_task : RoomManager State → ℕ → Table → Option (ℕ × Answer) × RoomManager State
  unfolding run_request
  run_task m shard left = elim (phase_of m shard) [
    | idle ↦ (none, m)
    | has_taken task ↦ (none, m)
    | entered task ↦ elim (get_elem? m.heap task.room) [
      | none ↦ (none, m)
      | some room ↦
          let r =
            caught left (run_request random room.table (has_callback task.callback) task.request) in
          (
            addressed task.callback r.0,
            now (record m { heap = set m.heap task.room (record room { table = r.1 }) }) shard idle,
          )
    ]
  ]
