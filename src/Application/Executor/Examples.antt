-- ===== src/Application/Executor/Examples.antt =====
-- Two shards and five steps.
use poker.Application.Executor.{RoomExecutor, next_task, post, run_shard, shard_for, stop}
use poker.Application.Executor.Fifo.{
  Event, accepted_in, executed_in, posts, run_events, run_events-fifo, runs, stops, tasks_of,
}
use poker.Prelude.{List, [], false, refl, ℕ, ◌++◌, ◌∷◌, ◌≡◌}

abbrev two_shards : RoomExecutor ℕ
two_shards = record {
  max_pending_per_shard = 2;
  shards = record { tasks = []; stopping = false } ∷ record { tasks = []; stopping = false } ∷ [];
}

-- The third task for shard 1 is refused, and the fourth comes after the stop.
abbrev some_events : List (Event ℕ)
some_events =
    posts 1 11 ∷ posts 3 12 ∷ posts 5 13 ∷ posts 2 14 ∷ runs 1 ∷ stops ∷ posts 1 15 ∷ runs 1 ∷ []

executed-test : executed_in two_shards 1 some_events ≡ 11 ∷ 12 ∷ []
unfolding post stop run_shard next_task shard_for
executed-test = refl

run_events-fifo_example :
    tasks_of 1 two_shards ++ accepted_in two_shards 1 some_events
    ≡ executed_in two_shards 1 some_events ++ tasks_of 1 (run_events two_shards some_events)
run_events-fifo_example = run_events-fifo some_events two_shards 1
