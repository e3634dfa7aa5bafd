-- ===== src/Application/Idempotency/Examples.antt =====
-- A cache of two requests for each user, and the theorems applied to it.
use poker.Application.Idempotency.{
  Entries, Entry, IdempotencyCache, accepted, admit, begin, begin_for, complete, decision,
  duplicate, evict_oldest, sequence_gap,
}
use poker.Application.Idempotency.Begin.{after_all, complete-begin, entry_of}
use poker.Application.Idempotency.Evict.{
  Covered, RoomOrPending, evict_oldest-Covered, evict_oldest-keeps,
}
use poker.Application.Idempotency.Sequence.{
  Operation, accepted_of, accepted_of-count, begins, completes, count_up, last_of,
}
use poker.Prelude.{
  Bool-cases, List, [], arith, erase_key, find_key, inl, inr, length, none, put_key, refl, some,
  true, ◌+◌, ◌==◌, ◌∷◌, ◌≡◌,
}

abbrev answered_entry : Entry
answered_entry = record { sequence = 2; response = some (65 ∷ []) }

abbrev pending_entry : Entry
pending_entry = record { sequence = 1; response = none }

-- Request 10 is in flight and request 11 has its response.
abbrev two_requests : Entries
two_requests = (10, pending_entry) ∷ (11, answered_entry) ∷ []

abbrev small_cache : IdempotencyCache
small_cache = record {
  max_requests_per_user = 2;
  users =
      (7, record { last_sequence = 2; entries = two_requests; insertion_order = 10 ∷ 11 ∷ [] })
      ∷ [];
}

-- A third request takes the place of the one that was answered.
begin-test :
    ((begin small_cache 7 12 3).0 ≡ decision accepted)
    × (entry_of (begin small_cache 7 12 3).1 7 11 ≡ none)
    × (entry_of (begin small_cache 7 12 3).1 7 10 ≡ some pending_entry)
    × ((begin small_cache 7 12 4).0 ≡ decision sequence_gap)
unfolding begin begin_for admit evict_oldest find_key put_key erase_key
begin-test = (refl, refl, refl, refl)

completed : (c : IdempotencyCache) × (complete small_cache 7 10 (66 ∷ []) ≡ (true, c))
unfolding complete find_key put_key
completed = (_, refl)

-- Another user comes in, the request is sent again, and another request is completed.
abbrev between : List Operation
between = begins 8 12 1 ∷ begins 7 10 1 ∷ completes 7 11 (68 ∷ []) ∷ []

complete-begin_example :
    let later = after_all completed.0 between in
    ((begin later 7 10 3).0 ≡ record { status = duplicate; cached_response = some (66 ∷ []) })
    × (entry_of (begin later 7 10 3).1 7 10 ≡ entry_of later 7 10)
complete-begin_example =
    complete-begin small_cache completed.0 7 10 3 (66 ∷ []) between refl completed.1
      (inl (omega arith), (inr refl, (inr (omega arith), tt)))

abbrev operations : List Operation
operations =
    begins 7 12 3 ∷ begins 8 12 1 ∷ completes 7 12 (67 ∷ []) ∷ begins 7 13 5 ∷ begins 7 13 4 ∷ []

accepted_of-test : accepted_of 7 operations small_cache ≡ 3 ∷ 4 ∷ []
unfolding begin begin_for admit evict_oldest complete find_key put_key erase_key
accepted_of-test = refl

accepted_of-count_example :
    accepted_of 7 operations small_cache
    ≡ count_up (last_of small_cache 7 + 1) (length (accepted_of 7 operations small_cache))
accepted_of-count_example = accepted_of-count 7 operations small_cache

evict_oldest-keeps_example :
    find_key 10 (evict_oldest 2 two_requests (10 ∷ 11 ∷ [])).0 ≡ some pending_entry
unfolding find_key
evict_oldest-keeps_example =
    evict_oldest-keeps 2 two_requests (10 ∷ 11 ∷ []) 10 pending_entry refl refl

two_requests-Covered : Covered two_requests (10 ∷ 11 ∷ [])
unfolding find_key
two_requests-Covered r e known = elim (Bool-cases (r == 10)) [
  | inl first ↦ inl (ground arith)
  | inr other ↦ elim (Bool-cases (r == 11)) [
    | inl second ↦ inl (ground arith)
    | inr neither ↦ absurd (ground arith)
  ]
]

evict_oldest-Covered_example : RoomOrPending 2 (evict_oldest 2 two_requests (10 ∷ 11 ∷ [])).0
evict_oldest-Covered_example =
    evict_oldest-Covered 2 two_requests (10 ∷ 11 ∷ []) two_requests-Covered
