-- ===== src/Storage/Games/Chips.antt =====
-- Buying in and cashing out, with the ledger that makes them idempotent.
use poker.Prelude.{
  Bool, List, Option, Text, [], erase_key, false, find_key, if◌then◌else◌, is_empty_text, leb,
  leb_ℤ, length, ltb, none, not, pos_part, put_key, some, suc, text_eq, true, zero, ℕ, ℤ, ◌%◌, ◌++◌,
  ◌+◌, ◌-◌, ◌/◌, ◌==◌, ◌||◌, ◌∷◌,
}
use poker.Storage.Accounts.{
  StorageResult, conflict, failed, insufficient_funds, invalid_data, not_found, returned,
}
use poker.Storage.Games.Records.{
  BuyInReceipt, CashOutReceipt, GameStore, LedgerKind, LedgerResult, SeatRecord, StoredTable,
  buy_in, cash_out,
}
use poker.Storage.Games.Store.{is_present}

-- `std::to_string`, with a unit of fuel for each digit.
unfoldable pub digits : ℕ → ℕ → Text
digits zero n = []
digits (suc fuel) n =
    if ltb n 10 then (b'0' + n) ∷ [] else digits fuel (n / 10) ++ ((b'0' + n % 10) ∷ [])

-- `ledgerKey`; a 64-bit number has 20 digits at most.
unfoldable pub ledger_key : ℕ → Text → Text
ledger_key user_id idempotency_key = digits 20 user_id ++ (b':' ∷ idempotency_key)

unfoldable pub find_result : Text → List (Text × LedgerResult) → Option LedgerResult
find_result key [] = none
find_result key ((other, result) ∷ ledger) =
    if text_eq other key then some result else find_result key ledger

abbrev pub is_buy_in : LedgerKind → Bool
is_buy_in buy_in = true
is_buy_in cash_out = false

-- `reserveBuyIn` where the key is in the ledger.
unfoldable pub replay_buy_in : GameStore → ℕ → ℕ → ℕ → ℕ → LedgerResult → StorageResult BuyInReceipt
replay_buy_in store table_id user_id seat amount replay =
    if not (is_buy_in replay.kind)
      || not (replay.table_id == table_id)
      || not (replay.chips == amount)
      || not (replay.seat == seat)
    then failed conflict
    else elim (find_key table_id store.tables) [
      | none ↦ failed conflict
      | some table ↦ elim (find_key user_id table.seats) [
        | none ↦ failed conflict
        | some s ↦
            if not (s.seat == seat) || not (s.stack == amount)
            then failed conflict
            else returned
                (record { wallet_balance = replay.wallet_balance; table_stack = replay.chips })
      ]
    ]

-- The changes that a buy-in makes.
unfoldable pub take_seat :
    GameStore → Text → ℕ → ℕ → ℕ → ℕ → StoredTable → ℕ → StorageResult BuyInReceipt × GameStore
take_seat store key table_id user_id seat amount table balance = (
  returned (record { wallet_balance = balance - amount; table_stack = amount }),
  record store {
    wallets = put_key user_id (balance - amount) store.wallets;
    tables =
        put_key table_id
          (record table {
            seats =
                put_key user_id (record { user_id = user_id; seat = seat; stack = amount })
                  table.seats;
            occupied_seats = put_key seat user_id table.occupied_seats;
          })
          store.tables;
    ledger =
        (
          key,
          record {
            kind = buy_in;
            table_id = table_id;
            wallet_balance = balance - amount;
            chips = amount;
            seat = seat;
          },
        )
        ∷ store.ledger;
  },
)

-- `reserveBuyIn` with a new key, at a table and with a wallet that are there.
unfoldable pub buy_in_at :
    GameStore → Text → ℕ → ℕ → ℕ → ℕ → StoredTable → ℕ → StorageResult BuyInReceipt × GameStore
buy_in_at store key table_id user_id seat amount table balance =
    let config = table.info.config in
    if table.hand_in_progress
    then (failed conflict, store)
    else if leb config.max_players seat
        || ltb amount config.min_buy_in
        || ltb config.max_buy_in amount
    then (failed invalid_data, store)
    else if is_present (find_key user_id table.seats)
        || is_present (find_key seat table.occupied_seats)
    then (failed conflict, store)
    else if ltb balance amount
    then (failed insufficient_funds, store)
    else take_seat store key table_id user_id seat amount table balance

-- `reserveBuyIn` after the first test.
unfoldable pub reserve_with_key :
    GameStore → Text → ℕ → ℕ → ℕ → ℕ → StorageResult BuyInReceipt × GameStore
reserve_with_key store key table_id user_id seat amount = elim (find_result key store.ledger) [
  | some replay ↦ (replay_buy_in store table_id user_id seat amount replay, store)
  | none ↦ elim (find_key table_id store.tables) [
    | none ↦ (failed not_found, store)
    | some table ↦
        if table.is_aborted
        then (failed not_found, store)
        else elim (find_key user_id store.wallets) [
          | none ↦ (failed not_found, store)
          | some balance ↦ buy_in_at store key table_id user_id seat amount table balance
        ]
  ]
]

unfoldable pub reserve_buy_in :
    GameStore → ℕ → ℕ → ℕ → ℤ → Text → StorageResult BuyInReceipt × GameStore
reserve_buy_in store table_id user_id seat amount idempotency_key =
    if table_id == 0
      || user_id == 0
      || leb_ℤ amount 0
      || is_empty_text idempotency_key
      || ltb 96 (length idempotency_key)
    then (failed invalid_data, store)
    else reserve_with_key store (ledger_key user_id idempotency_key) table_id user_id seat
        (pos_part amount)

-- The changes that a cash-out makes.
unfoldable pub leave_seat :
    GameStore
    → Text
    → ℕ
    → ℕ
    → StoredTable
    → ℕ
    → SeatRecord
    → StorageResult CashOutReceipt × GameStore
leave_seat store key table_id user_id table balance s = (
  returned (record { wallet_balance = balance + s.stack; returned_stack = s.stack }),
  record store {
    wallets = put_key user_id (balance + s.stack) store.wallets;
    tables =
        put_key table_id
          (record table {
            seats = erase_key user_id table.seats;
            occupied_seats = erase_key s.seat table.occupied_seats;
          })
          store.tables;
    ledger =
        (
          key,
          record {
            kind = cash_out;
            table_id = table_id;
            wallet_balance = balance + s.stack;
            chips = s.stack;
            seat = s.seat;
          },
        )
        ∷ store.ledger;
  },
)

-- `cashOut` after the first test.
unfoldable pub cash_out_with_key :
    GameStore → Text → ℕ → ℕ → StorageResult CashOutReceipt × GameStore
cash_out_with_key store key table_id user_id = elim (find_result key store.ledger) [
  | some replay ↦
      if is_buy_in replay.kind || not (replay.table_id == table_id)
      then (failed conflict, store)
      else (
        returned (record { wallet_balance = replay.wallet_balance; returned_stack = replay.chips }),
        store,
      )
  | none ↦ elim (find_key table_id store.tables) [
    | none ↦ (failed not_found, store)
    | some table ↦ elim (find_key user_id store.wallets) [
      | none ↦ (failed not_found, store)
      | some balance ↦
          if table.hand_in_progress
          then (failed conflict, store)
          else elim (find_key user_id table.seats) [
            | none ↦ (failed not_found, store)
            | some s ↦ leave_seat store key table_id user_id table balance s
          ]
    ]
  ]
]

unfoldable pub cash_out_chips : GameStore → ℕ → ℕ → Text → StorageResult CashOutReceipt × GameStore
cash_out_chips store table_id user_id idempotency_key =
    if table_id == 0
      || user_id == 0
      || is_empty_text idempotency_key
      || ltb 96 (length idempotency_key)
    then (failed invalid_data, store)
    else cash_out_with_key store (ledger_key user_id idempotency_key) table_id user_id
