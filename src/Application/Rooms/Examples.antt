-- ===== src/Application/Rooms/Examples.antt =====
-- A manager with one open and one closed room, and the theorems on rooms applied to it.
use poker.Application.Executor.{next_task, post, run_shard, shard_for, stop}
use poker.Application.Rooms.Closed.{
  Move, closed_forever, closes, creates, enters, manager_steps, runs_task, sends, stops_all,
  takes_task,
}
use poker.Application.Rooms.Manager.{
  Room, RoomManager, close_table, create_table, enter_room, run_task, send, stop_rooms, take_task,
}
use poker.Application.Rooms.Refusals.{run_request-atomic}
use poker.Application.Rooms.Tasks.{
  Answer, error_answer, refusal, remove_player_task, run_request, set_connected_task,
  set_ready_task,
}
use poker.Application.Rooms.Timeout.{Moves, time_out-moves}
use poker.Domain.Deck.{RandomSource}
use poker.Domain.Table.Refusals.{MayAct}
use poker.Domain.Table.Seating.{remove_player, set_connected, set_ready}
use poker.Domain.Table.Seats.{find_player, has_id, member, player_at, seat_of, update_seat}
use poker.Domain.Table.State.{
  Player, Street, Table, TableConfig, active, can_act, hand_in_progress, hand_is_running,
  is_showdown, is_waiting, new_table, ok, preflop,
}
use poker.Prelude.{
  Bool, List, Option, Run, [], done, erase_key, false, find_key, get_elem?, inr, none, put_key,
  refl, some, threw, true, ℕ, ◌+◌, ◌-◌, ◌<◌, ◌∷◌, ◌≡◌,
}

unlucky-lt : (s bound v s' : ℕ) → ◌≡◌ {A = Run (ℕ × ℕ)} threw (done (v, s')) → v < bound
unlucky-lt s bound v s' e = cc

-- A source that throws.
abbrev broken : RandomSource
broken = record { State = ℕ; uniform = λ s bound. threw; uniform-lt = unlucky-lt }

abbrev small_table : TableConfig
small_table = record {
  min_players = 2;
  max_players = 2;
  small_blind = 1;
  big_blind = 2;
  min_buy_in = 2;
  max_buy_in = 100;
}

abbrev seated : ℕ → ℕ → ℕ → Player
seated id seat commitment = record {
  id = id;
  seat = seat;
  stack = 100 - commitment;
  street_commitment = commitment;
  hand_commitment = commitment;
  status = active;
  ready = true;
  connected = true;
  hole0 = record { rank = 2 + seat; suit = 0 };
  hole1 = record { rank = 2 + seat; suit = 1 };
  has_hole = true;
}

-- The dealer is to act before the flop, owing a chip.
abbrev to_act : Table
to_act = record {
  config = small_table;
  seats = some (seated 7 0 1) ∷ some (seated 8 1 2) ∷ [];
  street = preflop;
  dealer_seat = some 0;
  acting_seat = some 0;
  current_bet = 2;
  minimum_raise = 2;
  pending_action = 7 ∷ 8 ∷ [];
  raise_allowed = 7 ∷ 8 ∷ [];
  board = [];
  deck = none;
  hand_id = 4;
  server_sequence = 9;
  last_awards = [];
}

abbrev open_room : Room
open_room = record { id = 1; closed = false; table = to_act }

abbrev closed_room : Room
closed_room = record { id = 2; closed = true; table = to_act }

abbrev one_manager : RoomManager ℕ
one_manager = record {
  rooms = (1, 0) ∷ [];
  heap = open_room ∷ closed_room ∷ [];
  executor = record {
    max_pending_per_shard = 4;
    shards =
        record {
          tasks = record { room = 1; request = set_connected_task 7 false; callback = some 5 } ∷ [];
          stopping = false;
        }
        ∷ [];
  };
  workers = [];
}

abbrev some_moves : List (Move ℕ)
some_moves =
    sends 1 0 (set_connected_task 8 false) (some 6)
    ∷ sends 2 1 (set_connected_task 8 false) (some 7)
    ∷ takes_task 0
    ∷ enters 0
    ∷ takes_task 0
    ∷ enters 0
    ∷ closes 1
    ∷ runs_task 0 to_act
    ∷ creates 2 small_table
    ∷ stops_all
    ∷ []

-- No worker has entered a room.
closed_forever_example :
    get_elem? (manager_steps broken one_manager some_moves).heap 1 ≡ some closed_room
unfolding find_key
closed_forever_example =
    closed_forever broken some_moves one_manager 1 closed_room refl refl (λ shard task e. cc)

-- The worker of the shard has entered room 0 before it is closed, and changes the table afterwards.
abbrev late_moves : List (Move ℕ)
late_moves =
    takes_task 0
    ∷ enters 0
    ∷ sends 1 0 (set_connected_task 8 false) none
    ∷ takes_task 0
    ∷ enters 0
    ∷ closes 1
    ∷ runs_task 0 to_act
    ∷ []

abbrev disconnects_at : List (Move ℕ) → Option (Bool × Bool)
disconnects_at moves = elim (get_elem? (manager_steps broken one_manager moves).heap 0) [
  | none ↦ none
  | some room ↦ elim (player_at room.table.seats 1) [
    | none ↦ none
    | some p ↦ some (room.closed, p.connected)
  ]
]

late-test : disconnects_at late_moves ≡ some (true, false)
unfolding find_key shard_for next_task run_shard post refusal stop stop_rooms close_table
    create_table erase_key put_key take_task enter_room run_task send run_request set_connected
    player_at has_id find_player update_seat
late-test = refl

abbrev refused_answer : Answer
refused_answer = error_answer hand_in_progress

abbrev after_refusal : Table
unfolding run_request set_ready hand_is_running
after_refusal = later (run_request broken to_act true (set_ready_task 7 false))
  where
    later : Run (Option Answer × Table) → Table
    later (done r) = r.1
    later _ = new_table small_table

run_request-atomic_example : after_refusal ≡ to_act
unfolding run_request set_ready hand_is_running after_refusal
run_request-atomic_example =
    run_request-atomic broken to_act after_refusal true (set_ready_task 7 false) refused_answer refl
      refl refl

abbrev idle_table : Table
idle_table = record to_act { street = Street.waiting; acting_seat = none }

abbrev after_leaving : Table
after_leaving = record idle_table {
  seats = none ∷ some (seated 8 1 2) ∷ [];
  dealer_seat = none;
  server_sequence = 10;
}

-- The player leaves only where the caller listens.
heard-test :
    run_request broken idle_table true (remove_player_task 7)
    ≡ done (some (error_answer ok), after_leaving)
unfolding run_request remove_player seat_of player_at hand_is_running is_waiting
heard-test = refl

unheard-test : run_request broken idle_table false (remove_player_task 7) ≡ done (none, idle_table)
unfolding run_request
unheard-test = refl

to_act-MayAct : MayAct to_act 7
unfolding player_at can_act member hand_is_running is_showdown
to_act-MayAct = record {
  seat = 0;
  player = seated 7 0 1;
  turn = refl;
  here = refl;
  own = refl;
  live = refl;
  pending = refl;
  running = refl;
  betting = refl;
}

time_out-moves_example : Moves to_act 7 9
unfolding find_player has_id to_act-MayAct
time_out-moves_example = time_out-moves to_act 7 9 to_act-MayAct refl (inr refl)
