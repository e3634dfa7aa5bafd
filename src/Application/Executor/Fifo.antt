-- ===== src/Application/Executor/Fifo.antt =====
-- What a sequence of steps of the executor's threads does with the tasks.
use mathlib.Core.Option
use poker.Application.Executor.{
  RoomExecutor, Shard, Turn, next_task, post, run_shard, shard_for, sleeps, stop, takes,
}
use poker.Prelude.{
  Bool, Bool-cases, List, Option, Option-cases, [], ap, append-nil, append_assoc, arith, false,
  get_elem?, get_elem?-lt, get_elem?-set_if, if◌then◌else◌, inl, inr, leb, length, map, none, refl,
  set, some, subst, suc, sym, true, zero, ℕ, ◌&&◌, ◌++◌, ◌==◌, ◌||◌, ◌∙◌, ◌∷◌, ◌≡◌,
}

pub data Event (A : Type 0) : Type 0 where
  posts : ℕ → A → Event A
  runs : ℕ → Event A
  stops : Event A

module _ {A : Type 0} where
  abbrev pub event_step : RoomExecutor A → Event A → RoomExecutor A
  event_step e (posts table_id task) = (post e table_id (some task)).1
  event_step e (runs i) = (run_shard e i).1
  event_step e stops = stop e

  abbrev pub tasks_in : Option (Shard A) → List A
  tasks_in none = []
  tasks_in (some s) = s.tasks

  abbrev pub tasks_of : ℕ → RoomExecutor A → List A
  tasks_of i e = tasks_in (get_elem? e.shards i)

  -- What the step adds to the queue of a shard, and what it takes from it.
  abbrev pub accepted_by : RoomExecutor A → ℕ → Event A → List A
  accepted_by e i (posts table_id task) =
      if (post e table_id (some task)).0 && shard_for e table_id == i then task ∷ [] else []
  accepted_by e i _ = []

  abbrev pub task_of : Turn A → List A
  task_of (takes task) = task ∷ []
  task_of _ = []

  abbrev pub executed_by : RoomExecutor A → ℕ → Event A → List A
  executed_by e i (runs j) = if j == i then task_of (run_shard e j).0 else []
  executed_by e i _ = []

  abbrev pub run_events : RoomExecutor A → List (Event A) → RoomExecutor A
  run_events e [] = e
  run_events e (v ∷ events) = run_events (event_step e v) events

  abbrev pub accepted_in : RoomExecutor A → ℕ → List (Event A) → List A
  accepted_in e i [] = []
  accepted_in e i (v ∷ events) = accepted_by e i v ++ accepted_in (event_step e v) i events

  abbrev pub executed_in : RoomExecutor A → ℕ → List (Event A) → List A
  executed_in e i [] = []
  executed_in e i (v ∷ events) = executed_by e i v ++ executed_in (event_step e v) i events

  -- The queue of a shard after a write to one.
  tasks_of-set :
      (e : RoomExecutor A) (i j : ℕ) (old new : Shard A)
      → get_elem? e.shards i ≡ some old
      → tasks_of j (record e { shards = set e.shards i new })
        ≡ (if i == j then new.tasks else tasks_of j e)
  tasks_of-set e i j old new h =
      let q = get_elem?-set_if e.shards i j new (get_elem?-lt e.shards i old h) in
      elim (Bool-cases (i == j)) [
        | inl e_ ↦ rw e_ (ap tasks_in (rw e_ at q))
        | inr e_ ↦ rw e_ (ap tasks_in (rw e_ at q))
      ]

  get_elem?-stop :
      (shards : List (Shard A)) (i : ℕ)
      → get_elem? (map (λ (s : Shard A). record s { stopping = true }) shards) i
        ≡ Option.map (λ (s : Shard A). record s { stopping = true }) (get_elem? shards i)
  get_elem?-stop [] i = refl
  get_elem?-stop (s ∷ shards) zero = refl
  get_elem?-stop (s ∷ shards) (suc i) = get_elem?-stop shards i

  tasks_of-stop : (i : ℕ) (e : RoomExecutor A) → tasks_of i (stop e) ≡ tasks_of i e
  unfolding stop
  tasks_of-stop i e = elim (Option-cases (get_elem? e.shards i)) [
    | inl away ↦ rw (get_elem?-stop e.shards i, away, tasks_of) refl
    | inr (s, here) ↦ rw (get_elem?-stop e.shards i, here, tasks_of) refl
  ]

  tasks_of-at :
      (e : RoomExecutor A) (i j : ℕ) (s : Shard A)
      → get_elem? e.shards i ≡ some s
      → (i == j) ≡ true
      → tasks_of j e ≡ s.tasks
  tasks_of-at e i j s here same =
      let q : i ≡ j = ground arith in
      rw (subst (λ k. get_elem? e.shards k ≡ some s) q here, tasks_of) refl

  post-fifo :
      (e : RoomExecutor A) (i table_id : ℕ) (task : A)
      → tasks_of i e ++ accepted_by e i (posts table_id task)
        ≡ tasks_of i (post e table_id (some task)).1
  unfolding post
  post-fifo e i table_id task = elim (Option-cases (get_elem? e.shards (shard_for e table_id))) [
    | inl away ↦
        let r : post e table_id (some task) ≡ (false, e) = rw (away, post) refl in
        rw r (append-nil (tasks_of i e))
    | inr (s, here) ↦
        elim (Bool-cases (s.stopping || leb e.max_pending_per_shard (length s.tasks))) [
          | inl full ↦
              let r : post e table_id (some task) ≡ (false, e) = rw (here, full, post) refl in
              rw r (append-nil (tasks_of i e))
          | inr room ↦
              let s' : Shard A = record s { tasks = s.tasks ++ (task ∷ []) } in
              let r : post e table_id (some task)
                  ≡ (true, record e { shards = set e.shards (shard_for e table_id) s' }) =
                rw (here, room, post) refl in
              let q = tasks_of-set e (shard_for e table_id) i s s' here in
              elim (Bool-cases (shard_for e table_id == i)) [
                | inr other ↦ rw (r, other) (append-nil (tasks_of i e) ∙ sym (rw other at q))
                | inl same ↦
                    let t = tasks_of-at e (shard_for e table_id) i s here same in
                    rw (r, same) (ap (λ l. l ++ (task ∷ [])) t ∙ sym (rw same at q))
              ]
        ]
  ]

  next_task-fifo : (s : Shard A) → s.tasks ≡ task_of (next_task s).0 ++ (next_task s).1.tasks
  unfolding next_task
  next_task-fifo s = by_tasks s.tasks s.stopping
    where
      by_tasks :
          (l : List A) (b : Bool)
          → let s : Shard A = record { tasks = l; stopping = b } in
            l ≡ task_of (next_task s).0 ++ (next_task s).1.tasks
      by_tasks [] true = refl
      by_tasks [] false = refl
      by_tasks (a ∷ l) b = refl

  run_shard-fifo :
      (e : RoomExecutor A) (i j : ℕ)
      → tasks_of i e ≡ executed_by e i (runs j) ++ tasks_of i (run_shard e j).1
  unfolding run_shard next_task
  run_shard-fifo e i j = elim (Option-cases (get_elem? e.shards j)) [
    | inl away ↦
        let r : run_shard e j ≡ (sleeps, e) = rw (away, run_shard) refl in
        elim (Bool-cases (j == i)) [ inl same ↦ rw (r, same) refl | inr other ↦ rw (r, other) refl ]
    | inr (s, here) ↦
        let r : run_shard e j
            ≡ ((next_task s).0, record e { shards = set e.shards j (next_task s).1 }) =
          rw (here, run_shard) refl in
        let q = tasks_of-set e j i s (next_task s).1 here in
        elim (Bool-cases (j == i)) [
          | inr other ↦ rw (r, other) (sym (rw other at q))
          | inl same ↦
              let t = tasks_of-at e j i s here same in
              rw (r, same)
                (t ∙ next_task-fifo s ∙ ap (λ l. task_of (next_task s).0 ++ l) (sym (rw same at q)))
        ]
  ]

  event_step-fifo :
      (e : RoomExecutor A) (i : ℕ) (v : Event A)
      → tasks_of i e ++ accepted_by e i v ≡ executed_by e i v ++ tasks_of i (event_step e v)
  event_step-fifo e i (posts table_id task) = post-fifo e i table_id task
  event_step-fifo e i (runs j) = append-nil (tasks_of i e) ∙ run_shard-fifo e i j
  event_step-fifo e i stops = append-nil (tasks_of i e) ∙ sym (tasks_of-stop i e)

  -- In any interleaving of posts, of rounds of the workers and of stops, each shard executes its tasks
  -- in the order in which they were accepted, each of them once, and the rest waits in that order.
  pub run_events-fifo :
      (events : List (Event A)) (e : RoomExecutor A) (i : ℕ)
      → tasks_of i e ++ accepted_in e i events
        ≡ executed_in e i events ++ tasks_of i (run_events e events)
  run_events-fifo [] e i = append-nil (tasks_of i e)
  run_events-fifo (v ∷ events) e i =
      let a = event_step-fifo e i v in
      let b = run_events-fifo events (event_step e v) i in
      let p =
        append_assoc (tasks_of i e) (accepted_by e i v) (accepted_in (event_step e v) i events) in
      let q =
        append_assoc (executed_by e i v) (tasks_of i (event_step e v))
          (accepted_in (event_step e v) i events) in
      let r =
        append_assoc (executed_by e i v) (executed_in (event_step e v) i events)
          (tasks_of i (run_events (event_step e v) events)) in
      cc
