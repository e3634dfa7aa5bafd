-- ===== src/Storage/Games/Store.antt =====
-- Wallets and tables.
use mathlib.Core.Option
use poker.Domain.Table.State.{config_is_valid}
use poker.Prelude.{
  Bool, List, Option, Text, [], false, find_key, if◌then◌else◌, is_empty_text, leb, ltb_ℤ, none,
  not, pos_part, put_key, some, take, text_eq, true, ℕ, ℤ, ◌&&◌, ◌+◌, ◌==◌, ◌||◌, ◌∷◌,
}
use poker.Storage.Accounts.{
  StorageError, StorageResult, duplicate, failed, invalid_data, not_found, ok, returned,
}
use poker.Storage.Games.Records.{GameStore, SeatRecord, StoredTable, TableRecord}

unfoldable pub seed_wallet : GameStore → ℕ → ℤ → StorageError × GameStore
seed_wallet store user_id balance =
    if user_id == 0 || ltb_ℤ balance 0
    then (invalid_data, store)
    else elim (find_key user_id store.wallets) [
      | some old ↦ (duplicate, store)
      | none ↦ (ok, record store { wallets = put_key user_id (pos_part balance) store.wallets })
    ]

unfoldable pub wallet_balance_of : GameStore → ℕ → Option ℕ
wallet_balance_of store user_id = find_key user_id store.wallets

unfoldable pub seat_stack : GameStore → ℕ → ℕ → Option ℕ
seat_stack store table_id user_id = elim (find_key table_id store.tables) [
  | none ↦ none
  | some table ↦ Option.map (λ (s : SeatRecord). s.stack) (find_key user_id table.seats)
]

unfoldable pub find_table : GameStore → ℕ → StorageResult TableRecord
find_table store table_id = elim (find_key table_id store.tables) [
  | none ↦ failed not_found
  | some table ↦ if table.is_aborted then failed not_found else returned table.info
]

-- `std::sort` by the table's id.
unfoldable pub insert_table : TableRecord → List TableRecord → List TableRecord
insert_table t [] = t ∷ []
insert_table t (u ∷ us) = if leb t.table_id u.table_id then t ∷ u ∷ us else u ∷ insert_table t us

unfoldable pub open_tables : List (ℕ × StoredTable) → List TableRecord
unfolding insert_table
open_tables [] = []
open_tables ((id, table) ∷ tables) =
    if table.is_aborted then open_tables tables else insert_table table.info (open_tables tables)

unfoldable pub list_open_tables : GameStore → ℕ → StorageResult (List TableRecord)
list_open_tables store limit =
    if limit == 0 then failed invalid_data else returned (take limit (open_tables store.tables))

unfoldable pub count_tables : Text → List (ℕ × StoredTable) → ℕ
count_tables node_id [] = 0
count_tables node_id ((id, table) ∷ tables) =
    (if not table.is_aborted && text_eq table.info.node_id node_id then 1 else 0)
    + count_tables node_id tables

unfoldable pub count_open_tables : GameStore → Text → StorageResult ℕ
count_open_tables store node_id =
    if is_empty_text node_id
    then failed invalid_data
    else returned (count_tables node_id store.tables)

unfoldable pub create_table : GameStore → TableRecord → StorageError × GameStore
create_table store table =
    let new_one : StoredTable = record {
      info = table;
      is_aborted = false;
      hand_in_progress = false;
      seats = [];
      occupied_seats = [];
    } in
    if table.table_id == 0
      || table.created_by == 0
      || is_empty_text table.name
      || is_empty_text table.node_id
      || not (config_is_valid table.config)
    then (invalid_data, store)
    else elim (find_key table.table_id store.tables) [
      | some old ↦ (duplicate, store)
      | none ↦ (ok, record store { tables = put_key table.table_id new_one store.tables })
    ]

abbrev pub is_present : {A : Type 0} → Option A → Bool
is_present none = false
is_present (some a) = true
