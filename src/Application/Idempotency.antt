-- ===== src/Application/Idempotency.antt =====
-- `IdempotencyCache` of include/poker/application/idempotency_cache.hpp and
-- src/poker/application/idempotency_cache.cpp. An operation runs under the cache's mutex, so it is one
-- step. The maps are association lists; user ids, request ids and sequences are 64-bit numbers.
pub mod Evict
pub mod Begin
pub mod Sequence
mod Examples
use poker.Prelude.{
  Bool, List, Option, [], erase_key, false, find_key, if◌then◌else◌, inc64, leb, length, ltb, none,
  not, put_key, some, true, ℕ, ◌++◌, ◌==◌, ◌||◌, ◌∷◌,
}

pub data RequestStatus : Type 0 where
  accepted : RequestStatus
  duplicate : RequestStatus
  in_flight : RequestStatus
  stale_sequence : RequestStatus
  sequence_gap : RequestStatus
  capacity_exceeded : RequestStatus
  invalid_request : RequestStatus

pub record RequestDecision : Type 0 where
  pub status : RequestStatus
  pub cached_response : Option (List ℕ)

pub record Entry : Type 0 where
  pub sequence : ℕ
  pub response : Option (List ℕ)

abbrev pub Entries : Type 0
Entries = List (ℕ × Entry)

pub record UserState : Type 0 where
  pub last_sequence : ℕ
  pub entries : Entries
  pub insertion_order : List ℕ

pub record IdempotencyCache : Type 0 where
  pub max_requests_per_user : ℕ
  pub users : List (ℕ × UserState)

-- The constructor; `none` is the exception.
unfoldable pub new_cache : ℕ → Option IdempotencyCache
new_cache max_requests_per_user =
    if max_requests_per_user == 0
    then none
    else some (record { max_requests_per_user = max_requests_per_user; users = [] })

abbrev pub keep_request : ℕ → Entries × List ℕ → Entries × List ℕ
keep_request request (entries, order) = (entries, request ∷ order)

-- `evictOldest`: the loop over the insertion order, on the entries and that order.
unfoldable pub evict_oldest : ℕ → Entries → List ℕ → Entries × List ℕ
evict_oldest limit entries [] = (entries, [])
evict_oldest limit entries (request ∷ order) =
    let unknown = evict_oldest limit entries order in
    let evicted = evict_oldest limit (erase_key request entries) order in
    if ltb (length entries) limit
    then (entries, request ∷ order)
    else elim (find_key request entries) [
      | none ↦ unknown
      | some entry ↦ elim entry.response [
        | none ↦ keep_request request unknown
        | some response ↦ evicted
      ]
    ]

-- `users_[user_id]`, which makes an empty state for a new user.
abbrev pub state_of : Option UserState → UserState
state_of none = record { last_sequence = 0; entries = []; insertion_order = [] }
state_of (some state) = state

abbrev pub decision : RequestStatus → RequestDecision
decision status = record { status = status; cached_response = none }

-- `begin` after the eviction: the entry is added, or there is no room.
unfoldable pub admit : ℕ → ℕ → ℕ → ℕ → Entries × List ℕ → RequestDecision × UserState
admit limit request sequence last (entries, order) =
    if leb limit (length entries)
    then (
      decision capacity_exceeded,
      record { last_sequence = last; entries = entries; insertion_order = order },
    )
    else (
      decision accepted,
      record {
        last_sequence = sequence;
        entries = put_key request (record { sequence = sequence; response = none }) entries;
        insertion_order = order ++ (request ∷ []);
      },
    )

-- `begin` from the lookup of the request on, on the state of the user.
unfoldable pub begin_for : ℕ → UserState → ℕ → ℕ → RequestDecision × UserState
begin_for limit state request sequence = elim (find_key request state.entries) [
  | some existing ↦ elim existing.response [
    | some response ↦ (record { status = duplicate; cached_response = some response }, state)
    | none ↦ (decision in_flight, state)
  ]
  | none ↦
      if leb sequence state.last_sequence
      then (decision stale_sequence, state)
      else if not (sequence == inc64 state.last_sequence)
      then (decision sequence_gap, state)
      else admit limit request sequence state.last_sequence
          (evict_oldest limit state.entries state.insertion_order)
]

abbrev pub put_user : IdempotencyCache → ℕ → UserState → IdempotencyCache
put_user c user state = record c { users = put_key user state c.users }

unfoldable pub begin : IdempotencyCache → ℕ → ℕ → ℕ → RequestDecision × IdempotencyCache
begin c user request sequence =
    let r = begin_for c.max_requests_per_user (state_of (find_key user c.users)) request sequence in
    if user == 0 || request == 0 || sequence == 0
    then (decision invalid_request, c)
    else (r.0, put_user c user r.1)

-- `complete`.
unfoldable pub complete : IdempotencyCache → ℕ → ℕ → List ℕ → Bool × IdempotencyCache
complete c user request response = elim (find_key user c.users) [
  | none ↦ (false, c)
  | some state ↦ elim (find_key request state.entries) [
    | none ↦ (false, c)
    | some entry ↦
        let finished : Entry = record entry { response = some response } in
        (true, put_user c user (record state { entries = put_key request finished state.entries }))
  ]
]

-- `reset`.
unfoldable pub forget : IdempotencyCache → ℕ → IdempotencyCache
forget c user = record c { users = erase_key user c.users }

unfoldable pub user_count : IdempotencyCache → ℕ
user_count c = length c.users
