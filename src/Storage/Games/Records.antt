-- ===== src/Storage/Games/Records.antt =====
-- The records of include/poker/storage/game_store.hpp, and the state of the store. Amounts in records
-- and balances are numbers: a record with a negative amount is refused by `validHandSettlement`, by
-- the comparison with a stack in `beginHand`, or by the test on the configuration. The amounts of a
-- call that the code tests for their sign are integers.
use poker.Domain.Card.{Card}
use poker.Domain.Table.State.{ActionType, Street, TableConfig}
use poker.Prelude.{Bool, List, Text, [], ℕ, ℤ}

pub record TableRecord : Type 0 where
  pub table_id : ℕ
  pub name : Text
  pub node_id : Text
  pub config : TableConfig
  pub created_by : ℕ

pub record BuyInReceipt : Type 0 where
  pub wallet_balance : ℕ
  pub table_stack : ℕ

pub record CashOutReceipt : Type 0 where
  pub wallet_balance : ℕ
  pub returned_stack : ℕ

pub record HandActionRecord : Type 0 where
  pub hand_id : ℕ
  pub sequence : ℕ
  pub request_id : ℕ
  pub user_id : ℕ
  pub street : Street
  pub action : ActionType
  pub target_amount : ℤ

pub record HandStartPlayer : Type 0 where
  pub user_id : ℕ
  pub seat : ℕ
  pub start_stack : ℕ
  pub hole_cards : List Card

pub record HandStartRecord : Type 0 where
  pub hand_id : ℕ
  pub table_id : ℕ
  pub hand_number : ℕ
  pub dealer_seat : ℕ
  pub players : List HandStartPlayer

pub record HandPlayerSettlement : Type 0 where
  pub user_id : ℕ
  pub seat : ℕ
  pub start_stack : ℕ
  pub committed : ℕ
  pub winnings : ℕ
  pub end_stack : ℕ
  pub hole_cards : List Card
  pub is_folded : Bool

pub record HandSettlementRecord : Type 0 where
  pub hand_id : ℕ
  pub table_id : ℕ
  pub hand_number : ℕ
  pub dealer_seat : ℕ
  pub board : List Card
  pub total_pot : ℕ
  pub players : List HandPlayerSettlement

pub record SeatRecord : Type 0 where
  pub user_id : ℕ
  pub seat : ℕ
  pub stack : ℕ

pub record StoredTable : Type 0 where
  pub info : TableRecord
  pub is_aborted : Bool
  pub hand_in_progress : Bool
  pub seats : List (ℕ × SeatRecord)
  pub occupied_seats : List (ℕ × ℕ)

pub data LedgerKind : Type 0 where
  buy_in : LedgerKind
  cash_out : LedgerKind

pub record LedgerResult : Type 0 where
  pub kind : LedgerKind
  pub table_id : ℕ
  pub wallet_balance : ℕ
  pub chips : ℕ
  pub seat : ℕ

-- An action is kept under its own hand and sequence.
pub record GameStore : Type 0 where
  pub wallets : List (ℕ × ℕ)
  pub tables : List (ℕ × StoredTable)
  pub ledger : List (Text × LedgerResult)
  pub actions : List HandActionRecord
  pub hand_starts : List (ℕ × HandStartRecord)
  pub settlements : List (ℕ × HandSettlementRecord)

unfoldable pub empty_store : GameStore
empty_store = record {
  wallets = [];
  tables = [];
  ledger = [];
  actions = [];
  hand_starts = [];
  settlements = [];
}
