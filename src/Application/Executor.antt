-- ===== src/Application/Executor.antt =====
-- `RoomExecutor` of include/poker/application/room_executor.hpp and
-- src/poker/application/room_executor.cpp: a queue of tasks for each shard, which one worker thread
-- empties. A queue is read and written under the mutex of its shard, so each visit of the queue is one
-- step, and the threads' interleaving is the order of the steps. What a task does is outside.
mod Examples
pub mod Fifo
use poker.Prelude.{
  Bool, List, Option, Run, [], done, false, get_elem?, if◌then◌else◌, leb, length, map, none,
  replicate, set, some, threw, true, ℕ, ◌%◌, ◌++◌, ◌+◌, ◌==◌, ◌||◌, ◌∷◌,
}

pub record Shard (A : Type 0) : Type 0 where
  pub tasks : List A
  pub stopping : Bool

pub record RoomExecutor (A : Type 0) : Type 0 where
  pub max_pending_per_shard : ℕ
  pub shards : List (Shard A)

-- The answer of the wait in the worker's loop.
pub data Turn (A : Type 0) : Type 0 where
  sleeps : Turn A
  returns : Turn A
  takes : A → Turn A

module _ {A : Type 0} where
  -- The constructor.
  unfoldable pub new_executor : ℕ → ℕ → Run (RoomExecutor A)
  new_executor shard_count max_pending_per_shard =
      if shard_count == 0 || max_pending_per_shard == 0
      then threw
      else done (record {
        max_pending_per_shard = max_pending_per_shard;
        shards = replicate shard_count (record { tasks = []; stopping = false });
      })

  -- `shardFor`, as an index.
  unfoldable pub shard_for : RoomExecutor A → ℕ → ℕ
  shard_for e table_id = table_id % length e.shards

  -- `post`; `none` is an empty `std::function`.
  unfoldable pub post : RoomExecutor A → ℕ → Option A → Bool × RoomExecutor A
  post e table_id none = (false, e)
  post e table_id (some task) = elim (get_elem? e.shards (shard_for e table_id)) [
    | none ↦ (false, e)
    | some shard ↦
        if shard.stopping || leb e.max_pending_per_shard (length shard.tasks) then (false, e) else (
          true,
          record e {
            shards =
                set e.shards (shard_for e table_id)
                  (record shard { tasks = shard.tasks ++ (task ∷ []) });
          },
        )
  ]

  -- The first loop of `stop`; the second waits for the workers to return.
  unfoldable pub stop : RoomExecutor A → RoomExecutor A
  stop e = record e { shards = map (λ (s : Shard A). record s { stopping = true }) e.shards }

  unfoldable pub shard_count : RoomExecutor A → ℕ
  shard_count e = length e.shards

  abbrev pub pending_in : List (Shard A) → ℕ
  pending_in [] = 0
  pending_in (s ∷ shards) = length s.tasks + pending_in shards

  unfoldable pub pending_tasks : RoomExecutor A → ℕ
  pending_tasks e = pending_in e.shards

  -- One round of `run`, up to the task that it takes.
  unfoldable pub next_task : Shard A → Turn A × Shard A
  next_task s = elim s.tasks [
    | [] ↦ ((if s.stopping then returns else sleeps), s)
    | task ∷ later ↦ (takes task, record s { tasks = later })
  ]

  -- The worker of a shard, by the shard's index.
  unfoldable pub run_shard : RoomExecutor A → ℕ → Turn A × RoomExecutor A
  run_shard e i = elim (get_elem? e.shards i) [
    | none ↦ (sleeps, e)
    | some shard ↦ let r = next_task shard in (r.0, record e { shards = set e.shards i r.1 })
  ]
