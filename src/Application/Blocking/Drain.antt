-- ===== src/Application/Blocking/Drain.antt =====
-- What a sequence of steps of the pool's threads does with the tasks.
use poker.Application.Blocking.{
  BlockingExecutor, new_blocking_executor, pending, post, run_round, stop,
}
use poker.Application.Executor.{Turn, returns, sleeps, takes}
use poker.Application.Executor.Fifo.{task_of}
use poker.Prelude.{
  Bool, Bool-cases, List, List-cases, Option, [], ap, append-nil, append_assoc, arith, done, false,
  inl, inr, if◌then◌else◌, leb, length, length-append, none, refl, some, subst, suc, sym, true, ℕ,
  ◌++◌, ◌-◌, ◌<◌, ◌==◌, ◌||◌, ◌∙◌, ◌∷◌, ◌≡◌, ◌≤◌, ◌⊎◌,
}

pub data Event (A : Type 0) : Type 0 where
  posts : Option A → Event A
  works : Event A
  stops : Event A

module _ {A : Type 0} where
  -- A round needs a thread that has not returned.
  abbrev pub work : BlockingExecutor A → Turn A × BlockingExecutor A
  work e = if e.running == 0 then (sleeps, e) else run_round e

  abbrev pub event_step : BlockingExecutor A → Event A → BlockingExecutor A
  event_step e (posts task) = (post e task).1
  event_step e works = (work e).1
  event_step e stops = stop e

  abbrev pub option_list : Option A → List A
  option_list none = []
  option_list (some a) = a ∷ []

  -- What the step adds to the queue, and what it takes from it.
  abbrev pub accepted_by : BlockingExecutor A → Event A → List A
  accepted_by e (posts task) = if (post e task).0 then option_list task else []
  accepted_by e _ = []

  abbrev pub taken_by : BlockingExecutor A → Event A → List A
  taken_by e works = task_of (work e).0
  taken_by e _ = []

  abbrev pub run_events : BlockingExecutor A → List (Event A) → BlockingExecutor A
  run_events e [] = e
  run_events e (v ∷ events) = run_events (event_step e v) events

  abbrev pub accepted_in : BlockingExecutor A → List (Event A) → List A
  accepted_in e [] = []
  accepted_in e (v ∷ events) = accepted_by e v ++ accepted_in (event_step e v) events

  abbrev pub taken_in : BlockingExecutor A → List (Event A) → List A
  taken_in e [] = []
  taken_in e (v ∷ events) = taken_by e v ++ taken_in (event_step e v) events

  -- The queue keeps its bound, and while a task waits or may still come, a thread has not returned.
  pub record IsServed (e : BlockingExecutor A) : Type 0 where
    pub bound : length e.tasks ≤ e.max_pending
    pub served : (0 < e.running) ⊎ ((e.stopping ≡ true) × (e.tasks ≡ []))

  -- What steps keep that lead from one state to another.
  record IsDraining (e e' : BlockingExecutor A) (accepted taken : List A) : Type 0 where
    order : e.tasks ++ accepted ≡ taken ++ e'.tasks
    limit : e'.max_pending ≡ e.max_pending
    is_served : IsServed e'

  stays : (e : BlockingExecutor A) → IsServed e → IsDraining e e [] []
  stays e w = record { order = append-nil e.tasks; limit = refl; is_served = w }

  post-IsDraining :
      (e : BlockingExecutor A) (task : Option A)
      → IsServed e
      → IsDraining e (post e task).1 (if (post e task).0 then option_list task else []) []
  unfolding post
  post-IsDraining e none w = stays e w
  post-IsDraining e (some task) w =
      let Kept : Bool × BlockingExecutor A → Type 0 =
        λ r. IsDraining e r.1 (if r.0 then task ∷ [] else []) [] in
      elim (Bool-cases (e.stopping || leb e.max_pending (length e.tasks))) [
        | inl full ↦
            let r : post e (some task) ≡ (false, e) = rw (full, post) refl in
            subst Kept (sym r) (stays e w)
        | inr room ↦
            let e' : BlockingExecutor A = record e { tasks = e.tasks ++ (task ∷ []) } in
            let r : post e (some task) ≡ (true, e') = rw (room, post) refl in
            let n = length-append e.tasks (task ∷ []) in
            let s : IsServed e' = record {
              bound = ground arith;
              served = elim w.served [ inl p ↦ inl p | inr (p, q) ↦ let full = rw p at room in cc ];
            } in
            subst Kept (sym r) (record { order = refl; limit = refl; is_served = s })
      ]

  run_round-IsDraining :
      (e : BlockingExecutor A)
      → 0 < e.running
      → IsServed e
      → IsDraining e (run_round e).1 [] (task_of (run_round e).0)
  unfolding run_round
  run_round-IsDraining e left w =
      let Kept : Turn A × BlockingExecutor A → Type 0 = λ r. IsDraining e r.1 [] (task_of r.0) in
      elim (List-cases e.tasks) [
        | inl empty ↦ elim (Bool-cases e.stopping) [
          | inl ends ↦
              let e' : BlockingExecutor A = record e { running = e.running - 1 } in
              let r : run_round e ≡ (returns, e') = simp (empty, ends, run_round) in
              let s : IsServed e' = record { bound = w.bound; served = inr (ends, empty) } in
              subst Kept (sym r)
                (record { order = append-nil e.tasks; limit = refl; is_served = s })
          | inr waits ↦
              let r : run_round e ≡ (sleeps, e) = simp (empty, waits, run_round) in
              subst Kept (sym r) (stays e w)
        ]
        | inr (task, (later, here)) ↦
            let e' : BlockingExecutor A = record e { tasks = later } in
            let r : run_round e ≡ (takes task, e') = rw (here, run_round) refl in
            let n : length e.tasks ≡ suc (length later) = rw here refl in
            let b = w.bound in
            let s : IsServed e' = record { bound = ground arith; served = inl left } in
            subst Kept (sym r)
              (record { order = append-nil e.tasks ∙ here; limit = refl; is_served = s })
      ]

  event_step-IsDraining :
      (e : BlockingExecutor A) (v : Event A)
      → IsServed e
      → IsDraining e (event_step e v) (accepted_by e v) (taken_by e v)
  unfolding stop
  event_step-IsDraining e (posts task) w = post-IsDraining e task w
  event_step-IsDraining e works w = elim (Bool-cases (e.running == 0)) [
    | inl gone ↦
        let r : work e ≡ (sleeps, e) = rw (gone, work) refl in
        subst (λ r. IsDraining e r.1 [] (task_of r.0)) (sym r) (stays e w)
    | inr some_left ↦
        let r : work e ≡ run_round e = rw (some_left, work) refl in
        subst (λ r. IsDraining e r.1 [] (task_of r.0)) (sym r)
          (run_round-IsDraining e (ground arith) w)
  ]
  event_step-IsDraining e stops w = record {
    order = append-nil e.tasks;
    limit = refl;
    is_served = record {
      bound = w.bound;
      served = elim w.served [ inl p ↦ inl p | inr (p, q) ↦ inr (refl, q) ];
    };
  }

  run_events-IsDraining :
      (events : List (Event A)) (e : BlockingExecutor A)
      → IsServed e
      → IsDraining e (run_events e events) (accepted_in e events) (taken_in e events)
  run_events-IsDraining [] e w = record { order = append-nil e.tasks; limit = refl; is_served = w }
  run_events-IsDraining (v ∷ events) e w =
      let s = event_step-IsDraining e v w in
      let d = run_events-IsDraining events (event_step e v) s.is_served in
      let rest = accepted_in (event_step e v) events in
      let p = append_assoc e.tasks (accepted_by e v) rest in
      let q = append_assoc (taken_by e v) (event_step e v).tasks rest in
      let r =
        append_assoc (taken_by e v) (taken_in (event_step e v) events)
          (run_events (event_step e v) events).tasks in
      let a = s.order in
      let b = d.order in record { order = cc; limit = d.limit ∙ s.limit; is_served = d.is_served }

  new_blocking_executor-IsServed :
      (n m : ℕ) (e : BlockingExecutor A)
      → new_blocking_executor n m ≡ done e
      → ([] ≡ e.tasks) × ((e.max_pending ≡ m) × IsServed e)
  unfolding new_blocking_executor
  new_blocking_executor-IsServed n m e h = elim (Bool-cases (n == 0 || m == 0)) [
    | inl bad ↦ let h' = rw bad at h in cc
    | inr good ↦
        let e' : BlockingExecutor A = record {
          max_pending = m;
          tasks = [];
          running = n;
          stopping = false;
        } in
        let h' : done e' ≡ done e = rw good at h in
        let q : e' ≡ e = cc in
        let left : 0 < n = ground arith in
        let s : IsServed e' = record { bound = ground arith; served = inl left } in
        (ap (λ x. x.tasks) q, (sym (ap (λ x. x.max_pending) q), subst IsServed q s))
  ]

  pub record IsServing (m : ℕ) (e : BlockingExecutor A) (accepted taken : List A) : Type 0 where
    pub order : accepted ≡ taken ++ e.tasks
    pub bound : pending e ≤ m
    pub served : (0 < e.running) ⊎ ((e.stopping ≡ true) × (e.tasks ≡ []))

  -- In any interleaving of posts, of rounds of the threads and of stops of a new executor, the tasks are
  -- taken in the order in which they were accepted, each of them once, and the rest waits in that
  -- order; no more than `max_pending` tasks wait; and some thread has not returned unless the
  -- executor is stopping and no task waits.
  pub run_events-IsServing :
      (events : List (Event A)) (n m : ℕ) (e : BlockingExecutor A)
      → new_blocking_executor n m ≡ done e
      → IsServing m (run_events e events) (accepted_in e events) (taken_in e events)
  unfolding pending
  run_events-IsServing events n m e h =
      let (empty, (limit, fresh)) = new_blocking_executor-IsServed n m e h in
      let d = run_events-IsDraining events e fresh in
      let p = d.order in
      let q : (run_events e events).max_pending ≡ m = d.limit ∙ limit in
      let w = d.is_served in
      record {
        order = ap (λ l. l ++ accepted_in e events) empty ∙ p;
        bound = subst (λ k. length (run_events e events).tasks ≤ k) q w.bound;
        served = w.served;
      }
