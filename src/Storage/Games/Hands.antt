-- ===== src/Storage/Games/Hands.antt =====
-- The hands of a table in the store: their start, their actions, their settlement, and the refund of
-- a table that is given up.
use poker.Domain.Evaluator.{hand}
use poker.Domain.Table.State.{
  ActionType, Street, bet, call, check, flop, fold, preflop, raise, river, settled, showdown, turn,
}
use poker.Prelude.{
  Bool, List, Option, Run, [], done, false, find_key, if◌then◌else◌, length, ltb, negsuc, none, not,
  or_throw, pos, put_key, some, true, ℕ, ℤ, ◌&&◌, ◌+◌, ◌==◌, ◌>>=◌, ◌||◌, ◌∷◌,
}
use poker.Storage.Accounts.{StorageError, conflict, duplicate, invalid_data, not_found, ok}
use poker.Storage.Games.Records.{
  GameStore, HandActionRecord, HandPlayerSettlement, HandSettlementRecord, HandStartPlayer,
  HandStartRecord, SeatRecord, StoredTable,
}
use poker.Storage.Games.Store.{is_present}
use poker.Storage.Games.Validation.{equivalent_hand_settlement, valid_hand_settlement}

-- The loop of `beginHand` over the players.
unfoldable pub starts_match : List (ℕ × SeatRecord) → List HandStartPlayer → Bool
starts_match seats [] = true
starts_match seats (p ∷ players) = elim (find_key p.user_id seats) [
  | none ↦ false
  | some s ↦
      s.seat == p.seat
      && s.stack == p.start_stack
      && length p.hole_cards == 2
      && starts_match seats players
]

unfoldable pub begin_hand : GameStore → HandStartRecord → StorageError × GameStore
begin_hand store hand =
    if hand.hand_id == 0
      || hand.table_id == 0
      || hand.hand_number == 0
      || ltb (length hand.players) 2
    then (invalid_data, store)
    else if is_present (find_key hand.hand_id store.hand_starts)
        || is_present (find_key hand.hand_id store.settlements)
    then (duplicate, store)
    else elim (find_key hand.table_id store.tables) [
      | none ↦ (not_found, store)
      | some table ↦
          if table.is_aborted
          then (not_found, store)
          else if table.hand_in_progress
          then (conflict, store)
          else if not (starts_match table.seats hand.players)
          then (conflict, store)
          else (
            ok,
            record store {
              hand_starts = put_key hand.hand_id hand store.hand_starts;
              tables =
                  put_key hand.table_id (record table { hand_in_progress = true }) store.tables;
            },
          )
    ]

abbrev pub street_number : Street → ℕ
street_number Street.waiting = 0
street_number preflop = 1
street_number flop = 2
street_number turn = 3
street_number river = 4
street_number showdown = 5
street_number settled = 6

abbrev pub action_number : ActionType → ℕ
action_number fold = 0
action_number check = 1
action_number call = 2
action_number bet = 3
action_number raise = 4
action_number ActionType.all_in = 5

abbrev pub same_amount : ℤ → ℤ → Bool
same_amount (pos m) (pos n) = m == n
same_amount (negsuc m) (negsuc n) = m == n
same_amount _ _ = false

unfoldable pub same_action : HandActionRecord → HandActionRecord → Bool
same_action existing action =
    existing.hand_id == action.hand_id
    && existing.sequence == action.sequence
    && existing.request_id == action.request_id
    && existing.user_id == action.user_id
    && street_number existing.street == street_number action.street
    && action_number existing.action == action_number action.action
    && same_amount existing.target_amount action.target_amount

-- `actions_.find` by the hand and the sequence.
unfoldable pub action_at : ℕ → ℕ → List HandActionRecord → Option HandActionRecord
action_at hand_id sequence [] = none
action_at hand_id sequence (a ∷ actions) =
    if a.hand_id == hand_id && a.sequence == sequence
    then some a
    else action_at hand_id sequence actions

-- The search for a request of the same user in the same hand.
unfoldable pub action_of_request :
    HandActionRecord → List HandActionRecord → Option HandActionRecord
action_of_request action [] = none
action_of_request action (a ∷ actions) =
    if a.hand_id == action.hand_id
      && a.user_id == action.user_id
      && a.request_id == action.request_id
    then some a
    else action_of_request action actions

unfoldable pub repeated : HandActionRecord → HandActionRecord → StorageError
repeated existing action = if same_action existing action then duplicate else conflict

unfoldable pub append_action : GameStore → HandActionRecord → StorageError × GameStore
append_action store action =
    if action.hand_id == 0 || action.sequence == 0 || action.request_id == 0 || action.user_id == 0
    then (invalid_data, store)
    else if not (is_present (find_key action.hand_id store.hand_starts))
    then (not_found, store)
    else if is_present (find_key action.hand_id store.settlements)
    then (conflict, store)
    else elim (action_at action.hand_id action.sequence store.actions) [
      | some existing ↦ (repeated existing action, store)
      | none ↦ elim (action_of_request action store.actions) [
        | some existing ↦ (repeated existing action, store)
        | none ↦ (ok, record store { actions = action ∷ store.actions })
      ]
    ]

unfoldable pub settlement_of : GameStore → ℕ → Option HandSettlementRecord
settlement_of store hand_id = find_key hand_id store.settlements

-- The first loop of `settleHand` over the players.
unfoldable pub ends_match : List (ℕ × SeatRecord) → List HandPlayerSettlement → Bool
ends_match seats [] = true
ends_match seats (p ∷ players) = elim (find_key p.user_id seats) [
  | none ↦ false
  | some s ↦
      s.seat == p.seat
      && s.stack == p.start_stack
      && p.end_stack + p.committed == p.start_stack + p.winnings
      && ends_match seats players
]

-- The second: `seats.at(...)` throws where the player has no seat.
unfoldable pub pay_ends :
    List (ℕ × SeatRecord) → List HandPlayerSettlement → Run (List (ℕ × SeatRecord))
pay_ends seats [] = done seats
pay_ends seats (p ∷ players) = or_throw (find_key p.user_id seats) >>= λ s.
    pay_ends (put_key p.user_id (record s { stack = p.end_stack }) seats) players

-- `settleHand` at a table whose hand is in progress and whose players match.
unfoldable pub settle_table :
    GameStore → HandSettlementRecord → StoredTable → Run (StorageError × GameStore)
settle_table store value table = pay_ends table.seats value.players >>= λ seats. done (
  ok,
  record store {
    settlements = put_key value.hand_id value store.settlements;
    tables =
        put_key value.table_id (record table { seats = seats; hand_in_progress = false })
          store.tables;
  },
)

unfoldable pub settle_hand : GameStore → HandSettlementRecord → Run (StorageError × GameStore)
settle_hand store value =
    if not (valid_hand_settlement value)
    then done (invalid_data, store)
    else elim (find_key value.hand_id store.settlements) [
      | some existing ↦
          done ((if equivalent_hand_settlement existing value then duplicate else conflict), store)
      | none ↦
          if not (is_present (find_key value.hand_id store.hand_starts))
          then done (not_found, store)
          else elim (find_key value.table_id store.tables) [
            | none ↦ done (not_found, store)
            | some table ↦
                if table.is_aborted
                then done (not_found, store)
                else if not table.hand_in_progress
                then done (duplicate, store)
                else if not (ends_match table.seats value.players)
                then done (conflict, store)
                else settle_table store value table
          ]
    ]

-- The loop of `abortTableAndRefund`: whether it ran to its end, and the wallets, which keep what was
-- paid before it stopped.
unfoldable pub refund_seats : List (ℕ × SeatRecord) → List (ℕ × ℕ) → Bool × List (ℕ × ℕ)
refund_seats [] wallets = (true, wallets)
refund_seats ((user_id, s) ∷ seats) wallets = elim (find_key user_id wallets) [
  | none ↦ (false, wallets)
  | some balance ↦ refund_seats seats (put_key user_id (balance + s.stack) wallets)
]

unfoldable pub abort_table_and_refund : GameStore → ℕ → StorageError × GameStore
abort_table_and_refund store table_id = elim (find_key table_id store.tables) [
  | none ↦ (not_found, store)
  | some table ↦
      let refunded = refund_seats table.seats store.wallets in
      let gone = record table {
        seats = [];
        occupied_seats = [];
        is_aborted = true;
        hand_in_progress = false;
      } in
      if table.is_aborted
      then (ok, store)
      else if refunded.0
      then (ok, record store { wallets = refunded.1; tables = put_key table_id gone store.tables })
      else (conflict, record store { wallets = refunded.1 })
]
