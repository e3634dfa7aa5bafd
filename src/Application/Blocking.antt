-- ===== src/Application/Blocking.antt =====
-- `BlockingExecutor` of include/poker/application/blocking_executor.hpp and
-- src/poker/application/blocking_executor.cpp: one queue, which a pool of threads empties. A visit of the
-- queue under its mutex is one step. An exception of a task goes to a handler, and its thread goes on.
mod Examples
pub mod Drain
use poker.Application.Executor.{Turn, returns, sleeps, takes}
use poker.Prelude.{
  Bool, List, Option, Run, [], done, false, if◌then◌else◌, leb, length, none, some, threw, true, ℕ,
  ◌++◌, ◌-◌, ◌==◌, ◌||◌, ◌∷◌,
}

-- Of the threads only their number counts: those that have not returned from `run`.
pub record BlockingExecutor (A : Type 0) : Type 0 where
  pub max_pending : ℕ
  pub tasks : List A
  pub running : ℕ
  pub stopping : Bool

module _ {A : Type 0} where
  -- The constructor.
  unfoldable pub new_blocking_executor : ℕ → ℕ → Run (BlockingExecutor A)
  new_blocking_executor thread_count max_pending =
      if thread_count == 0 || max_pending == 0
      then threw
      else done (record {
        max_pending = max_pending;
        tasks = [];
        running = thread_count;
        stopping = false;
      })

  -- `post`; `none` is an empty `std::function`.
  unfoldable pub post : BlockingExecutor A → Option A → Bool × BlockingExecutor A
  post e none = (false, e)
  post e (some task) =
      if e.stopping || leb e.max_pending (length e.tasks)
      then (false, e)
      else (true, record e { tasks = e.tasks ++ (task ∷ []) })

  -- `stop` up to its loop, which waits for the threads to return.
  unfoldable pub stop : BlockingExecutor A → BlockingExecutor A
  stop e = record e { stopping = true }

  unfoldable pub pending : BlockingExecutor A → ℕ
  pending e = length e.tasks

  -- One round of `run` in one of the threads, up to the task that it takes.
  unfoldable pub run_round : BlockingExecutor A → Turn A × BlockingExecutor A
  run_round e = elim e.tasks [
    | [] ↦ if e.stopping then (returns, record e { running = e.running - 1 }) else (sleeps, e)
    | task ∷ later ↦ (takes task, record e { tasks = later })
  ]
