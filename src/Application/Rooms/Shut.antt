-- ===== src/Application/Rooms/Shut.antt =====
-- Each step of the threads leaves a room alone that is closed and that no worker is in.
use poker.Application.Executor.{Turn, post, returns, run_shard, sleeps, takes}
use poker.Application.Rooms.Manager.{
  Phase, Room, RoomManager, Task, caught, close_room, close_table, create_table, enter_room,
  entered, has_callback, has_taken, idle, now, phase_after, phase_of, run_task, send, take_task,
}
use poker.Application.Rooms.Tasks.{Request, run_request}
use poker.Domain.Deck.{RandomSource}
use poker.Domain.Table.State.{Table, TableConfig}
use poker.Prelude.{
  ==_ne, Bool-cases, List, Option, Option-cases, [], ap, arith, false, find_key, find_key-put_if,
  get_elem?, get_elem?-lt, get_elem?-set_if, inl, inr, none, refl, set, some, subst, suc, sym, true,
  zero, ℕ, ◌++◌, ◌==◌, ◌∙◌, ◌∷◌, ◌≡◌, ◌≢◌,
}

get_elem?-append :
    {A : Type 0} (xs ys : List A) (i : ℕ) (x : A)
    → get_elem? xs i ≡ some x
    → get_elem? (xs ++ ys) i ≡ some x
get_elem?-append [] ys i x h = cc
get_elem?-append (z ∷ xs) ys zero x h = h
get_elem?-append (z ∷ xs) ys (suc i) x h = get_elem?-append xs ys i x h

module _ (random : RandomSource) where
  open random use {State}

  -- No worker is in the room: none has read that it is open and still has its task to run.
  abbrev pub IsLeft : ℕ → RoomManager State → Type 0
  IsLeft i m =
      (shard : ℕ) (task : Task State)
      → find_key shard m.workers ≡ some (entered task)
      → task.room ≢ i

  pub record IsShut (i : ℕ) (room : Room) (m : RoomManager State) : Type 0 where
    pub here : get_elem? m.heap i ≡ some room
    pub is_left : IsLeft i m

  pub create_table-heap :
      (m : RoomManager State) (id : ℕ) (config : TableConfig) (i : ℕ) (room : Room)
      → get_elem? m.heap i ≡ some room
      → get_elem? (create_table random m id config).1.heap i ≡ some room
  unfolding create_table
  create_table-heap m id config i room h = elim (Bool-cases (id == 0)) [
    | inl nil ↦ rw nil h
    | inr fine ↦ elim (Option-cases (find_key id m.rooms)) [
      | inr (j, there) ↦ rw (fine, there) h
      | inl new ↦ rw (fine, new) (get_elem?-append m.heap _ i room h)
    ]
  ]

  set-closed :
      (heap : List Room) (i j : ℕ) (room other new : Room)
      → get_elem? heap i ≡ some room
      → get_elem? heap j ≡ some other
      → (other ≡ room → new ≡ room)
      → get_elem? (set heap j new) i ≡ some room
  set-closed heap i j room other new h k same =
      let q = get_elem?-set_if heap j i new (get_elem?-lt heap j other k) in
      elim (Bool-cases (j == i)) [
        | inr away ↦ rw away at q ∙ h
        | inl hit ↦
            let e : j ≡ i = ground arith in
            let l : get_elem? heap i ≡ some other =
              subst (λ n. get_elem? heap n ≡ some other) e k in
            let o : other ≡ room = cc in rw hit at q ∙ ap some (same o)
      ]

  pub close_table-heap :
      (m : RoomManager State) (id : ℕ) (i : ℕ) (room : Room)
      → room.closed ≡ true
      → get_elem? m.heap i ≡ some room
      → get_elem? (close_table random m id).1.heap i ≡ some room
  unfolding close_table
  close_table-heap m id i room closed h = elim (Option-cases (find_key id m.rooms)) [
    | inl new ↦ rw (new, close_table) h
    | inr (j, there) ↦ elim (Option-cases (get_elem? m.heap j)) [
      | inl away ↦ simp (there, away, close_table, h)
      | inr (other, here) ↦
          let same : other ≡ room → close_room random other ≡ room =
            λ e. subst (λ r. close_room random r ≡ room) (sym e) (rw⁻¹ closed refl) in
          let q = set-closed m.heap i j room other (close_room random other) h here same in
          simp (there, here, close_table, q)
    ]
  ]

  -- The phase of one worker changes.
  now-IsLeft :
      (m : RoomManager State) (i shard : ℕ) (phase : Phase State)
      → ((task : Task State) → phase ≡ entered task → task.room ≢ i)
      → IsLeft i m
      → IsLeft i (now m shard phase)
  now-IsLeft m i shard phase out left other task e =
      let q = find_key-put_if shard other phase m.workers in
      elim (Bool-cases (shard == other)) [
        | inl same ↦ let q' = rw same at q in out task cc
        | inr away ↦ let q' = rw away at q in left other task cc
      ]

  pub same_workers-IsShut :
      (m m' : RoomManager State) (i : ℕ) (room : Room)
      → m'.workers ≡ m.workers
      → get_elem? m'.heap i ≡ some room
      → IsShut i room m
      → IsShut i room m'
  same_workers-IsShut m m' i room same h s = record {
    here = h;
    is_left = λ shard task e.
        s.is_left shard task (subst (λ w. find_key shard w ≡ some (entered task)) same e);
  }

  pub create_table-workers :
      (m : RoomManager State) (id : ℕ) (config : TableConfig)
      → (create_table random m id config).1.workers ≡ m.workers
  unfolding create_table
  create_table-workers m id config = elim (Bool-cases (id == 0)) [
    | inl nil ↦ rw nil refl
    | inr fine ↦ elim (Option-cases (find_key id m.rooms)) [
      | inr (j, there) ↦ rw (fine, there) refl
      | inl new ↦ rw (fine, new) refl
    ]
  ]

  pub close_table-workers :
      (m : RoomManager State) (id : ℕ) → (close_table random m id).1.workers ≡ m.workers
  unfolding close_table
  close_table-workers m id = elim (Option-cases (find_key id m.rooms)) [
    | inl new ↦ rw (new, close_table) refl
    | inr (j, there) ↦ rw (there, close_table) refl
  ]

  -- What posting a task leaves alone.
  pub send-same :
      (m : RoomManager State) (id room : ℕ) (request : Request State) (callback : Option ℕ)
      → ((send random m id room request callback).1.workers ≡ m.workers)
        × ((send random m id room request callback).1.heap ≡ m.heap)
  unfolding send
  send-same m id room request callback =
      elim (Bool-cases
        (post m.executor id
          (some (record { room = room; request = request; callback = callback }))).0) [
            | inl took ↦ rw (took, send) (refl, refl)
            | inr full ↦ rw (full, send) (refl, refl)
          ]

  phase_after-out :
      (t : Turn (Task State)) (task : Task State) (i : ℕ)
      → phase_after random t ≡ entered task
      → task.room ≢ i
  phase_after-out sleeps task i e = cc
  phase_after-out returns task i e = cc
  phase_after-out (takes other) task i e = cc

  pub take_task-IsShut :
      (m : RoomManager State) (shard i : ℕ) (room : Room)
      → IsShut i room m
      → IsShut i room (take_task random m shard)
  unfolding take_task
  take_task-IsShut m shard i room s = by_phase (phase_of m shard) refl
    where
      by_phase : (f : Phase State) → phase_of m shard ≡ f → IsShut i room (take_task random m shard)
      by_phase (has_taken task) e = rw (e, take_task) s
      by_phase (entered task) e = rw (e, take_task) s
      by_phase idle e =
          let r = run_shard m.executor shard in
          let n = record m { executor = r.1 } in
          rw (e, take_task)
            (record {
              here = s.here;
              is_left =
                  now-IsLeft n i shard (phase_after random r.0)
                    (λ task q. phase_after-out r.0 task i q) s.is_left;
            })

  pub enter_room-IsShut :
      (m : RoomManager State) (shard i : ℕ) (room : Room)
      → room.closed ≡ true
      → IsShut i room m
      → IsShut i room (enter_room random m shard).1
  unfolding enter_room
  enter_room-IsShut m shard i room closed s = by_phase (phase_of m shard) refl
    where
      by_phase :
          (f : Phase State) → phase_of m shard ≡ f → IsShut i room (enter_room random m shard).1
      by_phase idle e = rw (e, enter_room) s
      by_phase (entered task) e = rw (e, enter_room) s
      by_phase (has_taken task) e = elim (Option-cases (get_elem? m.heap task.room)) [
        | inl away ↦ rw (e, away, enter_room) s
        | inr (other, there) ↦ elim (Bool-cases other.closed) [
          | inl shut ↦
              rw (e, there, shut, enter_room)
                (record {
                  here = s.here;
                  is_left = now-IsLeft m i shard idle (λ t q. cc) s.is_left;
                })
          | inr open_ ↦
              rw (e, there, open_, enter_room)
                (record {
                  here = s.here;
                  is_left =
                      now-IsLeft m i shard (entered task)
                        (λ t q h.
                          let this : task ≡ t = cc in
                          let at : task.room ≡ i = ap (λ x. x.room) this ∙ h in
                          let found = subst (λ k. get_elem? m.heap k ≡ some other) at there in
                          let same : other ≡ room = let here = s.here in cc in
                          let c : other.closed ≡ true = ap (λ x. x.closed) same ∙ closed in cc)
                        s.is_left;
                })
        ]
      ]

  pub run_task-IsShut :
      (m : RoomManager State) (shard : ℕ) (left : Table) (i : ℕ) (room : Room)
      → IsShut i room m
      → IsShut i room (run_task random m shard left).1
  unfolding run_task
  run_task-IsShut m shard left i room s = by_phase (find_key shard m.workers) refl
    where
      by_phase :
          (f : Option (Phase State))
          → find_key shard m.workers ≡ f
          → IsShut i room (run_task random m shard left).1
      by_phase none e = rw (e, run_task) s
      by_phase (some idle) e = rw (e, run_task) s
      by_phase (some (has_taken task)) e = rw (e, run_task) s
      by_phase (some (entered task)) e = elim (Option-cases (get_elem? m.heap task.room)) [
        | inl away ↦ rw (e, away, run_task) s
        | inr (other, there) ↦
            let t =
              (caught random left
                (run_request random other.table (has_callback task.callback) task.request)).1 in
            let n = record m { heap = set m.heap task.room (record other { table = t }) } in
            let away : (task.room == i) ≡ false = ==_ne _ _ (s.is_left shard task e) in
            let q =
              get_elem?-set_if m.heap task.room i (record other { table = t })
                (get_elem?-lt m.heap task.room other there) in
            rw (e, there, run_task)
              (record {
                here = rw away at q ∙ s.here;
                is_left = now-IsLeft n i shard idle (λ x h. cc) s.is_left;
              })
      ]
