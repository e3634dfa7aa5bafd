-- ===== src/Application/Rooms/Closed.antt =====
-- What closing a room rules out, in any interleaving of the steps of the threads.
use poker.Application.Rooms.Manager.{
  Room, RoomManager, close_table, create_table, enter_room, run_task, send, stop_rooms, take_task,
}
use poker.Application.Rooms.Shut.{
  IsLeft, IsShut, close_table-heap, close_table-workers, create_table-heap, create_table-workers,
  enter_room-IsShut, run_task-IsShut, same_workers-IsShut, send-same, take_task-IsShut,
}
use poker.Application.Rooms.Tasks.{Request}
use poker.Domain.Deck.{RandomSource}
use poker.Domain.Table.State.{Table, TableConfig}
use poker.Prelude.{List, Option, [], ap, get_elem?, refl, some, true, ℕ, ◌∙◌, ◌∷◌, ◌≡◌}

pub data Move (State : Type 0) : Type 0 where
  creates : ℕ → TableConfig → Move State
  closes : ℕ → Move State
  sends : ℕ → ℕ → Request State → Option ℕ → Move State
  takes_task : ℕ → Move State
  enters : ℕ → Move State
  runs_task : ℕ → Table → Move State
  stops_all : Move State

module _ (random : RandomSource) where
  open random use {State}

  -- A task is sent for the room that its caller found, at whatever time before.
  abbrev pub manager_step : RoomManager State → Move State → RoomManager State
  manager_step m (creates id config) = (create_table random m id config).1
  manager_step m (closes id) = (close_table random m id).1
  manager_step m (sends id room request callback) = (send random m id room request callback).1
  manager_step m (takes_task shard) = take_task random m shard
  manager_step m (enters shard) = (enter_room random m shard).1
  manager_step m (runs_task shard left) = (run_task random m shard left).1
  manager_step m stops_all = stop_rooms random m

  abbrev pub manager_steps : RoomManager State → List (Move State) → RoomManager State
  manager_steps m [] = m
  manager_steps m (v ∷ moves) = manager_steps (manager_step m v) moves

  manager_step-IsShut :
      (v : Move State) (m : RoomManager State) (i : ℕ) (room : Room)
      → room.closed ≡ true
      → IsShut random i room m
      → IsShut random i room (manager_step m v)
  unfolding stop_rooms
  manager_step-IsShut (creates id config) m i room closed s =
      same_workers-IsShut random m _ i room (create_table-workers random m id config)
        (create_table-heap random m id config i room s.here) s
  manager_step-IsShut (closes id) m i room closed s =
      same_workers-IsShut random m _ i room (close_table-workers random m id)
        (close_table-heap random m id i room closed s.here) s
  manager_step-IsShut (sends id found request callback) m i room closed s =
      let (workers, heap) = send-same random m id found request callback in
      same_workers-IsShut random m _ i room workers (ap (λ l. get_elem? l i) heap ∙ s.here) s
  manager_step-IsShut (takes_task shard) m i room closed s =
      take_task-IsShut random m shard i room s
  manager_step-IsShut (enters shard) m i room closed s =
      enter_room-IsShut random m shard i room closed s
  manager_step-IsShut (runs_task shard left) m i room closed s =
      run_task-IsShut random m shard left i room s
  manager_step-IsShut stops_all m i room closed s =
      same_workers-IsShut random m _ i room refl s.here s

  -- Once a room is closed and the worker that had read before that it is open, if there is one, has run
  -- its task, the room stays in the state that it has, in any interleaving of the threads: no task
  -- that was waiting or was taken, none that comes later, and no call that had found the room before it
  -- was closed changes its table, whatever exceptions the tasks end with.
  pub closed_forever :
      (moves : List (Move State)) (m : RoomManager State) (i : ℕ) (room : Room)
      → room.closed ≡ true
      → get_elem? m.heap i ≡ some room
      → IsLeft random i m
      → get_elem? (manager_steps m moves).heap i ≡ some room
  closed_forever moves m i room closed h left =
      (steps moves m (record { here = h; is_left = left })).here
    where
      steps :
          (moves : List (Move State)) (m : RoomManager State)
          → IsShut random i room m
          → IsShut random i room (manager_steps m moves)
      steps [] m s = s
      steps (v ∷ moves) m s =
          steps moves (manager_step m v) (manager_step-IsShut v m i room closed s)
