-- ===== src/Application/Idempotency/Sequence.antt =====
-- The sequences that the cache accepts of a user, over a run of the operations.
use poker.Application.Idempotency.{
  Entries, Entry, IdempotencyCache, RequestDecision, RequestStatus, UserState, accepted, admit,
  begin, begin_for, complete, decision, invalid_request, put_user, state_of,
}
use poker.Prelude.{
  Bool, Bool-cases, List, Option-cases, [], ap, ap₂, arith, false, find_key, find_key-put,
  find_key-put_other, if◌then◌else◌, inc64, inl, inr, leb, length, put_key, refl, some, subst, suc,
  sym, true, zero, ℕ, ◌&&◌, ◌+◌, ◌<◌, ◌==◌, ◌||◌, ◌∙◌, ◌∷◌, ◌≡◌, ◌≢◌, ◌⊎◌,
}

-- A call of `begin` or of `complete`.
pub data Operation : Type 0 where
  begins : ℕ → ℕ → ℕ → Operation
  completes : ℕ → ℕ → List ℕ → Operation

abbrev pub is_accepted : RequestStatus → Bool
is_accepted accepted = true
is_accepted _ = false

abbrev pub last_of : IdempotencyCache → ℕ → ℕ
last_of c user = (state_of (find_key user c.users)).last_sequence

abbrev pub after : IdempotencyCache → Operation → IdempotencyCache
after c (begins user request sequence) = (begin c user request sequence).1
after c (completes user request response) = (complete c user request response).1

-- Whether an operation is a request of a user that is accepted.
abbrev pub accepts : ℕ → IdempotencyCache → Operation → Bool
accepts user c (begins u request sequence) =
    u == user && is_accepted (begin c u request sequence).0.status
accepts user c (completes u request response) = false

abbrev pub sequence_of : Operation → ℕ
sequence_of (begins user request sequence) = sequence
sequence_of (completes user request response) = 0

-- The sequences of the requests of a user that a run accepts, in order.
abbrev pub accepted_of : ℕ → List Operation → IdempotencyCache → List ℕ
accepted_of user [] c = []
accepted_of user (o ∷ ops) c =
    let later = accepted_of user ops (after c o) in
    if accepts user c o then sequence_of o ∷ later else later

-- `count` numbers from `first` upwards.
abbrev pub count_up : ℕ → ℕ → List ℕ
count_up first zero = []
count_up first (suc count) = first ∷ count_up (first + 1) count

-- What `begin` makes of the last sequence.
abbrev Steps : ℕ → ℕ → RequestDecision × UserState → Type 0
Steps last sequence r =
    ((is_accepted r.0.status ≡ true) × (sequence ≡ last + 1) × (r.1.last_sequence ≡ last + 1))
    ⊎ ((is_accepted r.0.status ≡ false) × (r.1.last_sequence ≡ last))

admit-Steps :
    (limit request sequence last : ℕ) (room : Entries × List ℕ)
    → sequence ≡ last + 1
    → Steps last sequence (admit limit request sequence last room)
unfolding admit
admit-Steps limit request sequence last (entries, order) next =
    elim (Bool-cases (leb limit (length entries))) [
      | inl full ↦ rw full (inr (refl, refl))
      | inr room ↦ rw room (inl (refl, next, next))
    ]

begin_for-Steps :
    (limit : ℕ) (state : UserState) (request sequence : ℕ)
    → Steps state.last_sequence sequence (begin_for limit state request sequence)
unfolding begin_for
begin_for-Steps limit state request sequence =
    elim (Option-cases (find_key request state.entries)) [
      | inr (e, known) ↦ elim (Option-cases e.response) [
        | inl pending ↦ rw (known, pending, begin_for) (inr (refl, refl))
        | inr (response, answered) ↦ rw (known, answered, begin_for) (inr (refl, refl))
      ]
      | inl unknown ↦ elim (Bool-cases (leb sequence state.last_sequence)) [
        | inl stale ↦ rw (unknown, stale, begin_for) (inr (refl, refl))
        | inr fresh ↦ elim (Bool-cases (sequence == inc64 state.last_sequence)) [
          | inr gap ↦ rw (unknown, fresh, gap, begin_for) (inr (refl, refl))
          | inl next ↦
              let lt : state.last_sequence < sequence = ground arith in
              let same : sequence ≡ inc64 state.last_sequence = ground arith in
              rw (unknown, fresh, next, begin_for)
                (admit-Steps limit request sequence state.last_sequence _ (omega (arith, lt, same)))
        ]
      ]
    ]

last_of-put :
    (c : IdempotencyCache) (user : ℕ) (state : UserState)
    → last_of (put_user c user state) user ≡ state.last_sequence
last_of-put c user state = ap (λ o. (state_of o).last_sequence) (find_key-put user state c.users)

last_of-put_other :
    (c : IdempotencyCache) (user other : ℕ) (state : UserState)
    → user ≢ other
    → last_of (put_user c user state) other ≡ last_of c other
last_of-put_other c user other state n =
    ap (λ o. (state_of o).last_sequence) (find_key-put_other user other state c.users n)

-- What an operation makes of the last sequence of a user.
abbrev Moves : ℕ → IdempotencyCache → Operation → Type 0
Moves user c o =
    ((accepts user c o ≡ true)
      × (sequence_of o ≡ last_of c user + 1)
      × (last_of (after c o) user ≡ last_of c user + 1))
    ⊎ ((accepts user c o ≡ false) × (last_of (after c o) user ≡ last_of c user))

-- The same, of what `begin` returns.
abbrev BeginMoves : ℕ → IdempotencyCache → ℕ → ℕ → RequestDecision × IdempotencyCache → Type 0
BeginMoves user c u sequence r =
    (((u == user && is_accepted r.0.status) ≡ true)
      × (sequence ≡ last_of c user + 1)
      × (last_of r.1 user ≡ last_of c user + 1))
    ⊎ (((u == user && is_accepted r.0.status) ≡ false) × (last_of r.1 user ≡ last_of c user))

put_user-BeginMoves :
    (user : ℕ) (c : IdempotencyCache) (u sequence : ℕ) (r : RequestDecision × UserState)
    → Steps (last_of c u) sequence r
    → BeginMoves user c u sequence (r.0, put_user c u r.1)
put_user-BeginMoves user c u sequence r steps = elim (Bool-cases (u == user)) [
  | inr other ↦ inr (ground (arith, other), last_of-put_other c u user r.1 (ground arith))
  | inl own ↦
      let same : u ≡ user = ground arith in
      let put = last_of-put c u r.1 in
      subst (λ v. BeginMoves v c u sequence (r.0, put_user c u r.1)) same
        (elim steps [
          | inl (taken, this, next) ↦ inl (ground (arith, taken), this, put ∙ next)
          | inr (passed, still) ↦ inr (ground (arith, passed), put ∙ still)
        ])
]

begin-Moves :
    (user : ℕ) (c : IdempotencyCache) (u request sequence : ℕ)
    → BeginMoves user c u sequence (begin c u request sequence)
unfolding begin
begin-Moves user c u request sequence =
    let state = state_of (find_key u c.users) in
    let steps = begin_for-Steps c.max_requests_per_user state request sequence in
    let moved =
      put_user-BeginMoves user c u sequence
        (begin_for c.max_requests_per_user state request sequence) steps in
    elim (Bool-cases (u == 0 || request == 0 || sequence == 0)) [
      | inl zero_given ↦
          let idle : (u == user && false) ≡ false = ground arith in
          let stays : BeginMoves user c u sequence (decision invalid_request, c) =
            inr (idle, refl) in
          rw (zero_given, begin) stays
      | inr valid ↦ rw (valid, begin) moved
    ]

complete-Moves :
    (user : ℕ) (c : IdempotencyCache) (u request : ℕ) (response : List ℕ)
    → last_of (complete c u request response).1 user ≡ last_of c user
unfolding complete
complete-Moves user c u request response = elim (Option-cases (find_key u c.users)) [
  | inl missing ↦ rw (missing, complete) refl
  | inr (state, found) ↦ elim (Option-cases (find_key request state.entries)) [
    | inl missing ↦ rw (found, missing, complete) refl
    | inr (entry, known) ↦
        let finished : Entry = record entry { response = some response } in
        let next : UserState = record state { entries = put_key request finished state.entries } in
        let moved : last_of (put_user c u next) user ≡ last_of c user =
          elim (Bool-cases (u == user)) [
            | inr other ↦ last_of-put_other c u user next (ground arith)
            | inl own ↦
                let same : u ≡ user = ground arith in
                subst (λ v. last_of (put_user c u next) v ≡ last_of c v) same
                  (last_of-put c u next ∙ ap (λ o. (state_of o).last_sequence) (sym found))
          ] in
        rw (found, known, complete) moved
  ]
]

moves : (user : ℕ) (c : IdempotencyCache) (o : Operation) → Moves user c o
moves user c (begins u request sequence) = begin-Moves user c u request sequence
moves user c (completes u request response) = inr (refl, complete-Moves user c u request response)

-- Whatever calls of `begin` and `complete` are made, by whichever users: the sequences that are
-- accepted of a user are the numbers that follow the last accepted before, each once, in order and
-- without a gap.
pub accepted_of-count :
    (user : ℕ) (ops : List Operation) (c : IdempotencyCache)
    → accepted_of user ops c ≡ count_up (last_of c user + 1) (length (accepted_of user ops c))
accepted_of-count user [] c = refl
accepted_of-count user (o ∷ ops) c =
    let later = accepted_of-count user ops (after c o) in
    elim (moves user c o) [
      | inl (taken, this, next) ↦
          let rest_of : accepted_of user ops (after c o)
              ≡ count_up (last_of c user + 1 + 1) (length (accepted_of user ops (after c o))) =
            subst
              (λ n.
                accepted_of user ops (after c o)
                ≡ count_up (n + 1) (length (accepted_of user ops (after c o))))
              next later in
          rw taken (ap₂ (◌∷◌) this rest_of)
      | inr (passed, still) ↦ rw passed (
          subst
            (λ n.
              accepted_of user ops (after c o)
              ≡ count_up (n + 1) (length (accepted_of user ops (after c o))))
            still later)
    ]
