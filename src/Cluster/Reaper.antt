-- ===== src/Cluster/Reaper.antt =====
-- `NodeFailureReaper` of include/poker/cluster/node_failure_reaper.hpp and
-- src/poker/cluster/node_failure_reaper.cpp, over the registry and the game store in memory. A sweep
-- runs under the reaper's mutex, so it is one step; the times of its clock and of the registry's are
-- arguments.
pub mod Sweep
mod Examples
use poker.Cluster.Registry.{NodeInfo, NodeRegistry, healthy_nodes}
use poker.Prelude.{
  Bool, List, Option, Run, Text, [], done, erase_text, false, find_text, if◌then◌else◌, leb_ℤ, ltb,
  none, not, pos_part, put_text, some, text_eq, threw, true, ℕ, ℤ, ◌++◌, ◌+◌, ◌||◌, ◌∷◌,
}
use poker.Security.Results.{ok}
use poker.Storage.Accounts.{StorageError, StorageResult}
use poker.Storage.Games.Hands.{abort_table_and_refund}
use poker.Storage.Games.Records.{GameStore, TableRecord}
use poker.Storage.Games.Store.{list_open_tables}

pub record NodeFailureReaper : Type 0 where
  pub grace_period_ms : ℕ
  pub missing_since : List (Text × ℕ)

pub record ReapResult : Type 0 where
  pub refunded_tables : List ℕ
  pub failed_tables : List ℕ

-- `ping` of the registry in memory.
unfoldable pub ping : NodeRegistry → Bool
ping r = true

-- The constructor.
unfoldable pub new_reaper : ℤ → Run NodeFailureReaper
new_reaper grace_period =
    if leb_ℤ grace_period 0
    then threw
    else done (record { grace_period_ms = pos_part grace_period; missing_since = [] })

-- The loop over the healthy nodes.
unfoldable pub forget_nodes : List NodeInfo → List (Text × ℕ) → List (Text × ℕ)
forget_nodes [] missing = missing
forget_nodes (n ∷ nodes) missing = forget_nodes nodes (erase_text n.node_id missing)

unfoldable pub is_healthy : List NodeInfo → Text → Bool
is_healthy [] node_id = false
is_healthy (n ∷ nodes) node_id = text_eq n.node_id node_id || is_healthy nodes node_id

-- What the loop over the tables changes.
pub record Swept : Type 0 where
  pub missing : List (Text × ℕ)
  pub store : GameStore
  pub refunded : List ℕ
  pub failed : List ℕ

abbrev pub is_refunded : StorageError → Bool
is_refunded StorageError.ok = true
is_refunded _ = false

-- A table whose node is missing for long enough.
unfoldable pub reap : Swept → ℕ → Swept
reap swept table_id =
    let refunded = abort_table_and_refund swept.store table_id in
    if is_refunded refunded.0
    then record swept { store = refunded.1; refunded = swept.refunded ++ (table_id ∷ []) }
    else record swept { store = refunded.1; failed = swept.failed ++ (table_id ∷ []) }

-- A round of the loop.
unfoldable pub sweep_table : List NodeInfo → ℕ → ℕ → Swept → TableRecord → Swept
unfolding is_healthy reap
sweep_table nodes now grace swept table =
    if is_healthy nodes table.node_id then swept else elim (find_text table.node_id swept.missing) [
      | none ↦ record swept { missing = put_text table.node_id now swept.missing }
      | some since ↦ if ltb now (since + grace) then swept else reap swept table.table_id
    ]

unfoldable pub sweep_tables : List NodeInfo → ℕ → ℕ → List TableRecord → Swept → Swept
unfolding sweep_table
sweep_tables nodes now grace [] swept = swept
sweep_tables nodes now grace (t ∷ tables) swept =
    sweep_tables nodes now grace tables (sweep_table nodes now grace swept t)

abbrev pub nothing_reaped : ReapResult
nothing_reaped = record { refunded_tables = []; failed_tables = [] }

abbrev pub tables_of : StorageResult (List TableRecord) → Option (List TableRecord)
tables_of r = elim r.error [ StorageError.ok ↦ r.value | _ ↦ none ]

-- The result, and the reaper, the registry and the store after the sweep.
abbrev pub AfterSweep : Type 0
AfterSweep = ReapResult × (NodeFailureReaper × (NodeRegistry × GameStore))

unfoldable pub sweep : NodeFailureReaper → NodeRegistry → GameStore → ℕ → ℕ → AfterSweep
unfolding ping forget_nodes sweep_tables
sweep reaper registry store now registry_now =
    let healthy = healthy_nodes registry registry_now in
    let missing = forget_nodes healthy.0 reaper.missing_since in
    if not (ping registry)
    then (nothing_reaped, (reaper, (registry, store)))
    else elim (tables_of (list_open_tables store 200)) [
      | none ↦ (nothing_reaped, (record reaper { missing_since = missing }, (healthy.1, store)))
      | some tables ↦
          let swept =
            sweep_tables healthy.0 now reaper.grace_period_ms tables
              (record { missing = missing; store = store; refunded = []; failed = [] }) in
          (
            record { refunded_tables = swept.refunded; failed_tables = swept.failed },
            (record reaper { missing_since = swept.missing }, (healthy.1, swept.store)),
          )
    ]
