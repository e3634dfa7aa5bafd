-- ===== src/Storage/Games/EdgeCases.antt =====
-- Stores on which `settleHand` and `abortTableAndRefund` of src/poker/storage/in_memory_game_store.cpp
-- leave stacks and wallets that do not fit together.
use poker.Domain.Card.{card_index, rank_value}
use poker.Domain.Deck.{contains}
use poker.Prelude.{
  Bool, List, Option, Run, [], done, false, find_key, none, put_key, refl, some, true, ℕ, ◌∷◌, ◌≡◌,
}
use poker.Storage.Accounts.{StorageError, conflict}
use poker.Storage.Games.Examples.{first_settlement, first_start, one_table}
use poker.Storage.Games.Hands.{
  abort_table_and_refund, ends_match, pay_ends, refund_seats, settle_hand, settle_table,
}
use poker.Storage.Games.Records.{GameStore, HandSettlementRecord, SeatRecord, StoredTable}
use poker.Storage.Games.Validation.{
  add_cards, amounts_are_wrong, cards_eq, check_players, equivalent_hand_settlement,
  equivalent_player, equivalent_players, header_is_wrong, player_is_wrong, totals_match,
  valid_hand_settlement, valid_stored_card,
}

abbrev table_with : List (ℕ × SeatRecord) → StoredTable
table_with seats = record {
  info = one_table;
  is_aborted = false;
  hand_in_progress = true;
  seats = seats;
  occupied_seats = [];
}

abbrev seat_with : ℕ → ℕ → ℕ → ℕ × SeatRecord
seat_with user seat stack = (user, record { user_id = user; seat = seat; stack = stack })

-- User 8 is seated and has no wallet.
abbrev no_wallet : GameStore
no_wallet = record {
  wallets = (7, 100) ∷ [];
  tables = (3, table_with (seat_with 7 0 50 ∷ seat_with 8 1 50 ∷ [])) ∷ [];
  ledger = [];
  actions = [];
  hand_starts = [];
  settlements = [];
}

abbrev refunded : GameStore → GameStore
refunded store = (abort_table_and_refund store 3).1

-- Each of two calls answers a conflict and pays user 7.
conflict-test : (abort_table_and_refund (refunded no_wallet) 3).0 ≡ conflict
unfolding abort_table_and_refund refund_seats find_key put_key
conflict-test = refl

refunds_twice-test : (refunded (refunded no_wallet)).wallets ≡ (7, 200) ∷ []
unfolding abort_table_and_refund refund_seats find_key put_key
refunds_twice-test = refl

-- Hand 1 was started at table 3, and the same users play another at table 4.
abbrev two_tables : GameStore
two_tables = record no_wallet {
  tables =
      (3, table_with (seat_with 7 0 200 ∷ seat_with 8 1 200 ∷ []))
      ∷ (4, table_with (seat_with 7 0 200 ∷ seat_with 8 1 200 ∷ []))
      ∷ [];
  hand_starts = (1, first_start) ∷ [];
}

abbrev elsewhere : HandSettlementRecord
elsewhere = record first_settlement { table_id = 4 }

abbrev running_at : ℕ → Run (StorageError × GameStore) → Option Bool
running_at id (done r) = elim (find_key id r.1.tables) [
  | none ↦ none
  | some table ↦ some table.hand_in_progress
]
running_at id _ = none

-- The hand of table 4 ends with the settlement of hand 1, and the hand of table 3 runs on.
ends_elsewhere-test : running_at 4 (settle_hand two_tables elsewhere) ≡ some false
unfolding settle_hand settle_table pay_ends ends_match find_key put_key valid_stored_card add_cards
    player_is_wrong amounts_are_wrong check_players header_is_wrong totals_match
    valid_hand_settlement cards_eq equivalent_player equivalent_players equivalent_hand_settlement
    rank_value card_index contains
ends_elsewhere-test = refl

runs_on-test : running_at 3 (settle_hand two_tables elsewhere) ≡ some true
unfolding settle_hand settle_table pay_ends ends_match find_key put_key valid_stored_card add_cards
    player_is_wrong amounts_are_wrong check_players header_is_wrong totals_match
    valid_hand_settlement cards_eq equivalent_player equivalent_players equivalent_hand_settlement
    rank_value card_index contains
runs_on-test = refl
