-- ===== src/Application/Idempotency/Begin.antt =====
-- A request that has its response, and what the calls that follow make of it.
use poker.Application.Idempotency.{
  Entry, IdempotencyCache, UserState, begin, begin_for, complete, duplicate, put_user, state_of,
}
use poker.Application.Idempotency.Sequence.{Operation, after, begins, completes}
use poker.Prelude.{
  Bool, Bool-cases, List, Option, Option-cases, [], ap, arith, false, find_key, find_key-put,
  find_key-put_other, inl, inr, put_key, refl, some, subst, true, ℕ, ◌==◌, ◌||◌, ◌∙◌, ◌∷◌, ◌≡◌, ◌≢◌,
  ◌⊎◌,
}

-- What the cache knows of a request of a user.
abbrev pub entry_of : IdempotencyCache → ℕ → ℕ → Option Entry
entry_of c user request = find_key request (state_of (find_key user c.users)).entries

-- The numbers that `begin` takes: none is 0.
abbrev pub IsRequest : ℕ → ℕ → ℕ → Type 0
IsRequest user request sequence = (user == 0 || request == 0 || sequence == 0) ≡ false

begin_for-answered :
    (limit : ℕ) (state : UserState) (request sequence : ℕ) (e : Entry) (response : List ℕ)
    → find_key request state.entries ≡ some e
    → e.response ≡ some response
    → begin_for limit state request sequence
      ≡ (record { status = duplicate; cached_response = some response }, state)
unfolding begin_for
begin_for-answered limit state request sequence e response known answered =
    rw (known, answered, begin_for) refl

-- The cache has the response of a request.
abbrev Knows : ℕ → ℕ → List ℕ → IdempotencyCache → Type 0
Knows user request response c =
    (e : Entry) × (entry_of c user request ≡ some e) × (e.response ≡ some response)

complete-Knows :
    (c c' : IdempotencyCache) (user request : ℕ) (response : List ℕ)
    → complete c user request response ≡ (true, c')
    → Knows user request response c'
unfolding complete
complete-Knows c c' user request response h = elim (Option-cases (find_key user c.users)) [
  | inl missing ↦ let r = rw (missing, complete) at h in cc
  | inr (state, found) ↦ elim (Option-cases (find_key request state.entries)) [
    | inl missing ↦ let r = rw (found, missing, complete) at h in cc
    | inr (entry, known) ↦
        let r = rw (found, known, complete) at h in
        let same = ap (λ (x : Bool × IdempotencyCache). x.1) r in
        let finished : Entry = record entry { response = some response } in
        subst (Knows user request response) same (
          finished,
          rw
              (find_key-put user (record state { entries = put_key request finished state.entries })
                c.users)
              (find_key-put request finished state.entries),
          refl,
        )
  ]
]

put_user-Knows :
    (c : IdempotencyCache) (u user request : ℕ) (response : List ℕ) (state : UserState)
    → u ≢ user
    → Knows user request response c
    → Knows user request response (put_user c u state)
put_user-Knows c u user request response state other (e, known, answered) =
    (e, rw (find_key-put_other u user state c.users other) known, answered)

begin-same :
    (c : IdempotencyCache) (user request sequence : ℕ) (response : List ℕ)
    → IsRequest user request sequence
    → Knows user request response c
    → ((begin c user request sequence).0
        ≡ record { status = duplicate; cached_response = some response })
      × (entry_of (begin c user request sequence).1 user request ≡ entry_of c user request)
unfolding begin
begin-same c user request sequence response valid (e, known, answered) =
    let state = state_of (find_key user c.users) in
    let same =
      begin_for-answered c.max_requests_per_user state request sequence e response known answered in
    rw (valid, same) (refl, rw (find_key-put user state c.users) refl)

begin-Knows :
    (c : IdempotencyCache) (u r sequence user request : ℕ) (response : List ℕ)
    → (u ≢ user) ⊎ (r ≡ request)
    → Knows user request response c
    → Knows user request response (begin c u r sequence).1
unfolding begin
begin-Knows c u r sequence user request response spared known =
    elim (Bool-cases (u == 0 || r == 0 || sequence == 0)) [
      | inl wrong ↦ rw (wrong, begin) known
      | inr valid ↦ elim (Bool-cases (u == user)) [
        | inr other ↦
            rw (valid, begin) (put_user-Knows c u user request response _ (ground arith) known)
        | inl own ↦
            let same : u ≡ user = ground arith in
            let this : r ≡ request = elim spared [ inl n ↦ absurd (n same) | inr e ↦ e ] in
            let k : Knows u r response c = rw (same, this) known in
            let kept = (begin-same c u r sequence response valid k).1 in
            let known' : Knows u r response (begin c u r sequence).1 = (k.0, kept ∙ k.1, k.2) in
            subst (λ n. Knows n request response (begin c u r sequence).1) same
              (subst (λ n. Knows u n response (begin c u r sequence).1) this known')
      ]
    ]

complete-other :
    (c : IdempotencyCache) (u r user request : ℕ) (given response : List ℕ)
    → (u ≢ user) ⊎ (r ≢ request)
    → Knows user request response c
    → Knows user request response (complete c u r given).1
unfolding complete
complete-other c u r user request given response spared (e, known, answered) =
    elim (Option-cases (find_key u c.users)) [
      | inl missing ↦ rw (missing, complete) (e, known, answered)
      | inr (state, found) ↦ elim (Option-cases (find_key r state.entries)) [
        | inl missing ↦ rw (found, missing, complete) (e, known, answered)
        | inr (entry, there) ↦
            let finished : Entry = record entry { response = some given } in
            let next : UserState = record state { entries = put_key r finished state.entries } in
            elim (Bool-cases (u == user)) [
              | inr other ↦
                  rw (found, there, complete)
                    (put_user-Knows c u user request response next (ground arith)
                      (e, known, answered))
              | inl own ↦
                  let same : u ≡ user = ground arith in
                  let n : r ≢ request = elim spared [ inl n ↦ absurd (n same) | inr n ↦ n ] in
                  let here : find_key user c.users ≡ some state =
                    subst (λ k. find_key k c.users ≡ some state) same found in
                  let was : find_key request state.entries ≡ some e = rw here at known in
                  let q : Knows u request response (put_user c u next) = (
                    e,
                    rw
                        (
                          find_key-put u next c.users,
                          find_key-put_other r request finished state.entries n,
                        )
                        was,
                    answered,
                  ) in
                  rw (found, there, complete)
                    (subst (λ k. Knows k request response (put_user c u next)) same q)
            ]
      ]
    ]

-- Calls that do not make room for another request of the user: the other users' calls, the request
-- itself sent again, and the completion of other requests.
abbrev pub AreSparing : ℕ → ℕ → List Operation → Type 0
AreSparing user request [] = Unit
AreSparing user request (begins u r sequence ∷ ops) =
    ((u ≢ user) ⊎ (r ≡ request)) × AreSparing user request ops
AreSparing user request (completes u r given ∷ ops) =
    ((u ≢ user) ⊎ (r ≢ request)) × AreSparing user request ops

abbrev pub after_all : IdempotencyCache → List Operation → IdempotencyCache
after_all c [] = c
after_all c (o ∷ ops) = after_all (after c o) ops

after_all-Knows :
    (ops : List Operation) (c : IdempotencyCache) (user request : ℕ) (response : List ℕ)
    → AreSparing user request ops
    → Knows user request response c
    → Knows user request response (after_all c ops)
after_all-Knows [] c user request response spared k = k
after_all-Knows (begins u r sequence ∷ ops) c user request response (this, spared) k =
    after_all-Knows ops (begin c u r sequence).1 user request response spared
      (begin-Knows c u r sequence user request response this k)
after_all-Knows (completes u r given ∷ ops) c user request response (this, spared) k =
    after_all-Knows ops (complete c u r given).1 user request response spared
      (complete-other c u r user request given response this k)

-- A request that has its response and is sent again, with whatever sequence, is answered by that
-- response and not accepted a second time, as long as the user sends no other request in between (which
-- may evict it): the other users may do what they like, the request itself may come again, and
-- other requests may be completed. The cache knows of the request as before.
pub complete-begin :
    (c c' : IdempotencyCache) (user request sequence : ℕ) (response : List ℕ) (ops : List Operation)
    → IsRequest user request sequence
    → complete c user request response ≡ (true, c')
    → AreSparing user request ops
    → let later = after_all c' ops in
      ((begin later user request sequence).0
        ≡ record { status = duplicate; cached_response = some response })
      × (entry_of (begin later user request sequence).1 user request ≡ entry_of later user request)
complete-begin c c' user request sequence response ops valid h spared =
    begin-same (after_all c' ops) user request sequence response valid (
      after_all-Knows ops c' user request response spared
        (complete-Knows c c' user request response h))
