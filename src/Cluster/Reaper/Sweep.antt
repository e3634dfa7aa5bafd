-- ===== src/Cluster/Reaper/Sweep.antt =====
-- What a sweep may do to the tables.
use poker.Application.Idempotency.Sequence.{after}
use poker.Cluster.Reaper.{
  AfterSweep, NodeFailureReaper, Swept, forget_nodes, is_healthy, is_refunded, ping, reap, sweep,
  sweep_table, sweep_tables,
}
use poker.Cluster.Registry.{NodeInfo, NodeRegistry, healthy_nodes}
use poker.Domain.Table.Conservation.{unpaid}
use poker.Domain.Table.Seats.{member}
use poker.Prelude.{
  All, All-append, Bool-cases, List, Option-cases, Text, [], arith, erase_text, false, find_key,
  find_key-put_if, find_text, find_text-erase_some, find_text-put_if, inl, inr, ltb, put_text, refl,
  some, sym, take, text_eq, ℕ, ◌++◌, ◌+◌, ◌<◌, ◌==◌, ◌∙◌, ◌∷◌, ◌≡◌, ◌≤◌, ◌⊎◌,
}
use poker.Storage.Games.Bank.{Refines, kept, kept-Refines}
use poker.Storage.Games.Hands.{abort_table_and_refund}
use poker.Storage.Games.Holdings.{IsSound}
use poker.Storage.Games.Records.{GameStore, TableRecord}
use poker.Storage.Games.Refund.{abort_table_and_refund-cases, abort_table_and_refund-total}
use poker.Storage.Games.Store.{list_open_tables, open_tables}

abbrev pub IsAmong : TableRecord → List TableRecord → Type 0
IsAmong t [] = ⊥
IsAmong t (u ∷ tables) = (t ≡ u) ⊎ IsAmong t tables

-- The table is listed on a node that is not healthy, and that was found missing in an earlier sweep, the
-- grace period ago at least.
abbrev pub IsDue : List NodeInfo → List (Text × ℕ) → ℕ → ℕ → List TableRecord → ℕ → Type 0
IsDue nodes missing now grace tables id =
    (t : TableRecord) × IsAmong t tables
    × (t.table_id ≡ id)
    × (is_healthy nodes t.node_id ≡ false)
    × ((since : ℕ) × (find_text t.node_id missing ≡ some since) × (since + grace ≤ now))

forget_nodes-found :
    (nodes : List NodeInfo) (missing : List (Text × ℕ)) (id : Text) (since : ℕ)
    → find_text id (forget_nodes nodes missing) ≡ some since
    → find_text id missing ≡ some since
unfolding forget_nodes
forget_nodes-found [] missing id since h = h
forget_nodes-found (n ∷ nodes) missing id since h =
    find_text-erase_some n.node_id id since missing
      (forget_nodes-found nodes (erase_text n.node_id missing) id since h)

abort-others :
    (store : GameStore) (id other : ℕ)
    → IsSound store
    → (id == other) ≡ false
    → find_key other (abort_table_and_refund store id).1.tables ≡ find_key other store.tables
abort-others store id other sound differs = elim (abort_table_and_refund-cases store id sound) [
  | inl same ↦ rw same refl
  | inr (fine, (table, tables)) ↦
      rw (tables, find_key-put_if id other table store.tables, differs) refl
]

abort-refused :
    (store : GameStore) (id : ℕ)
    → IsSound store
    → is_refunded (abort_table_and_refund store id).0 ≡ false
    → (abort_table_and_refund store id).1 ≡ store
abort-refused store id sound h = elim (abort_table_and_refund-cases store id sound) [
  | inl same ↦ same
  | inr (fine, (table, tables)) ↦ let q = rw fine at h in cc
]

kept_trans : (a b c : GameStore) → Refines a kept b → Refines b kept c → Refines a kept c
kept_trans a b c (sb, ab) (sc, bc) =
    (sc, λ user. let p = ab user in let q = bc user in omega (arith, p, q))

member_snoc :
    (id x : ℕ) (xs : List ℕ)
    → member id (xs ++ (x ∷ [])) ≡ false
    → (member id xs ≡ false) × ((x == id) ≡ false)
unfolding member
member_snoc id x [] h = ground (arith, h)
member_snoc id x (y ∷ xs) h = elim (Bool-cases (id == y)) [
  | inl e ↦ let q = rw e at h in cc
  | inr e ↦ let (a, b) = member_snoc id x xs (rw e at h) in (rw e a, b)
]

module _ (nodes : List NodeInfo) (missing : List (Text × ℕ)) (now grace : ℕ)
    (tables : List TableRecord) (store : GameStore) (positive : 0 < grace) where
  -- Chips are kept, the tables that were reaped were due, those not refunded are as they were, and an
  -- entry that was added is of this sweep.
  abbrev IsSweep : Swept → Type 0
  IsSweep swept =
      Refines store kept swept.store
      × All (IsDue nodes missing now grace tables) swept.refunded
      × All (IsDue nodes missing now grace tables) swept.failed
      × ((id : ℕ)
          → member id swept.refunded ≡ false
          → find_key id swept.store.tables ≡ find_key id store.tables)
      × ((id : Text)
          → (find_text id swept.missing ≡ find_text id missing)
            ⊎ (find_text id swept.missing ≡ some now))

  reap-IsSweep :
      (id : ℕ) (swept : Swept)
      → IsDue nodes missing now grace tables id
      → IsSweep swept
      → IsSweep (reap swept id)
  unfolding reap
  reap-IsSweep id swept is_due ((sound, sums), due, bad_, same, added) =
      let (fine, refined, gone) = abort_table_and_refund-total swept.store id sound in
      let next =
        kept_trans store swept.store (abort_table_and_refund swept.store id).1 (sound, sums)
          refined in
      elim (Bool-cases (is_refunded (abort_table_and_refund swept.store id).0)) [
        | inl paid ↦ rw paid (
          next,
          All-append (IsDue nodes missing now grace tables) swept.refunded (id ∷ []) due
              (is_due, tt),
          bad_,
          λ other h.
              let (a, b) = member_snoc other id swept.refunded h in
              abort-others swept.store id other sound b ∙ same other a,
          added,
        )
        | inr unpaid ↦ rw unpaid (
          next,
          due,
          All-append (IsDue nodes missing now grace tables) swept.failed (id ∷ []) bad_
              (is_due, tt),
          λ other h. rw (abort-refused swept.store id sound unpaid) (same other h),
          added,
        )
      ]

  noted-IsSweep :
      (node_id : Text) (swept : Swept)
      → IsSweep swept
      → IsSweep (record swept { missing = put_text node_id now swept.missing })
  noted-IsSweep node_id swept (refined, due, bad_, same, added) = (
    refined,
    due,
    bad_,
    same,
    λ id.
        let q = find_text-put_if node_id id now swept.missing in
        elim (Bool-cases (text_eq node_id id)) [
          | inl hit ↦ inr (rw hit at q)
          | inr away ↦ elim (added id) [
            | inl old ↦ inl (rw away at q ∙ old)
            | inr new ↦ inr (rw away at q ∙ new)
          ]
        ],
  )

  sweep_table-IsSweep :
      (t : TableRecord) (swept : Swept)
      → IsAmong t tables
      → IsSweep swept
      → IsSweep (sweep_table nodes now grace swept t)
  unfolding sweep_table
  sweep_table-IsSweep t swept listed s = elim (Bool-cases (is_healthy nodes t.node_id)) [
    | inl well ↦ rw (well, sweep_table) s
    | inr ill ↦ elim (Option-cases (find_text t.node_id swept.missing)) [
      | inl new ↦ rw (ill, new, sweep_table) (noted-IsSweep t.node_id swept s)
      | inr (since, known) ↦ elim (Bool-cases (ltb now (since + grace))) [
        | inl early ↦ rw (ill, known, early, sweep_table) s
        | inr late ↦
            rw (ill, known, late, sweep_table)
              (reap-IsSweep t.table_id swept (due_now since known late ill) s)
      ]
    ]
  ]
    where
      due_now :
          (since : ℕ)
          → find_text t.node_id swept.missing ≡ some since
          → ltb now (since + grace) ≡ false
          → is_healthy nodes t.node_id ≡ false
          → IsDue nodes missing now grace tables t.table_id
      due_now since known late ill =
          let (refined, due, bad_, same, added) = s in
          let over : since + grace ≤ now = ground (arith, late) in
          elim (added t.node_id) [
            | inl old ↦ (t, listed, refl, ill, (since, sym old ∙ known, over))
            | inr new ↦ let q : since ≡ now = cc in absurd (omega (arith, over, q, positive))
          ]

  sweep_tables-IsSweep :
      (rest_ : List TableRecord) (swept : Swept)
      → ((t : TableRecord) → IsAmong t rest_ → IsAmong t tables)
      → IsSweep swept
      → IsSweep (sweep_tables nodes now grace rest_ swept)
  unfolding sweep_tables
  sweep_tables-IsSweep [] swept sub s = s
  sweep_tables-IsSweep (t ∷ rest_) swept sub s =
      sweep_tables-IsSweep rest_ (sweep_table nodes now grace swept t) (λ u m. sub u (inr m))
        (sweep_table-IsSweep t swept (sub t (inl refl)) s)

-- What a sweep is allowed: chips are kept; a table is given up or tried only if it is due; and a table
-- that is not refunded is as it was.
abbrev pub IsCareful : NodeFailureReaper → NodeRegistry → GameStore → ℕ → ℕ → AfterSweep → Type 0
IsCareful reaper registry store now registry_now after =
    let due =
      IsDue (healthy_nodes registry registry_now).0 reaper.missing_since now reaper.grace_period_ms
        (take 200 (open_tables store.tables)) in
    Refines store kept after.1.1.1
    × All due after.0.refunded_tables
    × All due after.0.failed_tables
    × ((id : ℕ)
        → member id after.0.refunded_tables ≡ false
        → find_key id after.1.1.1.tables ≡ find_key id store.tables)

IsDue-known :
    (nodes : List NodeInfo) (early late : List (Text × ℕ)) (now grace : ℕ)
    (tables : List TableRecord)
    → ((id : Text) (since : ℕ) → find_text id late ≡ some since → find_text id early ≡ some since)
    → (ids : List ℕ) → All (IsDue nodes late now grace tables) ids
    → All (IsDue nodes early now grace tables) ids
IsDue-known nodes early late now grace tables k [] h = tt
IsDue-known nodes early late now grace tables k (id ∷ ids) ((t, m, e, ill, (since, f, o)), h) = (
  (t, m, e, ill, (since, k t.node_id since f, o)),
  IsDue-known nodes early late now grace tables k ids h,
)

-- On a sound store a sweep gives up only tables that are listed on a node that is not healthy, and that
-- an earlier sweep found missing, the grace period ago at least. What each user has in all stays the
-- same, and every table that is not refunded stays as it was: those of healthy nodes above all.
pub sweep-IsCareful :
    (reaper : NodeFailureReaper) (registry : NodeRegistry) (store : GameStore)
    (now registry_now : ℕ)
    → IsSound store
    → 0 < reaper.grace_period_ms
    → IsCareful reaper registry store now registry_now
        (sweep reaper registry store now registry_now)
unfolding sweep list_open_tables ping
sweep-IsCareful reaper registry store now registry_now sound positive =
    let nodes = (healthy_nodes registry registry_now).0 in
    let missing = forget_nodes nodes reaper.missing_since in
    let tables = take 200 (open_tables store.tables) in
    let start : Swept = record { missing = missing; store = store; refunded = []; failed = [] } in
    let (refined, due, bad_, same, added) =
      sweep_tables-IsSweep nodes missing now reaper.grace_period_ms tables store positive tables
        start (λ t m. m) (kept-Refines store sound, tt, tt, λ id h. refl, λ id. inl refl) in
    let k =
      IsDue-known nodes reaper.missing_since missing now reaper.grace_period_ms tables
        (forget_nodes-found nodes reaper.missing_since) in
    (refined, k _ due, k _ bad_, same)
