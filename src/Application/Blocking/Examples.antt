-- ===== src/Application/Blocking/Examples.antt =====
-- A pool of two threads with room for two tasks, and the theorem on it applied.
use poker.Application.Blocking.{BlockingExecutor, new_blocking_executor, post, run_round, stop}
use poker.Application.Blocking.Drain.{
  Event, IsServing, accepted_in, posts, run_events, run_events-IsServing, stops, taken_in, works,
}
use poker.Prelude.{List, [], false, none, refl, some, ℕ, ◌∷◌, ◌≡◌}

abbrev fresh_pool : BlockingExecutor ℕ
fresh_pool = record { max_pending = 2; tasks = []; running = 2; stopping = false }

-- The third task is refused, the empty one too, and the last comes after the stop.
abbrev some_events : List (Event ℕ)
some_events =
    posts (some 1)
    ∷ posts (some 2)
    ∷ posts (some 3)
    ∷ works
    ∷ posts none
    ∷ posts (some 4)
    ∷ stops
    ∷ posts (some 5)
    ∷ works
    ∷ works
    ∷ works
    ∷ []

taken_in-test : taken_in fresh_pool some_events ≡ 1 ∷ 2 ∷ 4 ∷ []
unfolding post stop run_round
taken_in-test = refl

running-test : (run_events fresh_pool some_events).running ≡ 1
unfolding post stop run_round
running-test = refl

run_events-IsServing_example :
    IsServing 2
      (run_events fresh_pool some_events)
      (accepted_in fresh_pool some_events)
      (taken_in fresh_pool some_events)
unfolding new_blocking_executor
run_events-IsServing_example = run_events-IsServing some_events 2 2 fresh_pool refl
