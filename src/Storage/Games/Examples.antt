-- ===== src/Storage/Games/Examples.antt =====
-- One hand at one table, from the seeding of the wallets to the refund, and the theorems on the store
-- applied to it.
use poker.Domain.Card.{Card, card, card_index, rank_value}
use poker.Domain.Deck.{contains}
use poker.Domain.Table.State.{TableConfig, config_is_valid}
use poker.Prelude.{
  List, [], erase_key, false, find_key, pos, put_key, refl, text_eq, true, ℕ, ◌∷◌, ◌≡◌,
}
use poker.Storage.Accounts.{conflict, failed, returned}
use poker.Storage.Games.Chips.{
  buy_in_at, cash_out_chips, cash_out_with_key, digits, find_result, leave_seat, ledger_key,
  replay_buy_in, reserve_buy_in, reserve_with_key, take_seat,
}
use poker.Storage.Games.Records.{
  BuyInReceipt, CashOutReceipt, GameStore, HandSettlementRecord, HandStartPlayer, HandStartRecord,
  TableRecord, empty_store,
}
use poker.Storage.Games.Refinement.{
  Accounts, Operation, aborts, begins, cashes, creates, perform_all-Refines, reserves, seeds,
  settles,
}
use poker.Storage.Games.Refund.{GivesUp, abort_table_and_refund-total}
use poker.Storage.Games.Replay.{cash_out_chips-replays, reserve_buy_in-replays}
use poker.Storage.Games.Store.{
  count_open_tables, count_tables, create_table, find_table, insert_table, list_open_tables,
  open_tables, seat_stack, seed_wallet, wallet_balance_of,
}
use poker.Storage.Games.Totals.{IsBalanced, valid_hand_settlement-balances}
use poker.Storage.Games.Validation.{
  add_cards, amounts_are_wrong, cards_eq, check_players, equivalent_hand_settlement,
  equivalent_player, equivalent_players, header_is_wrong, player_is_wrong, totals_match,
  valid_hand_settlement, valid_stored_card,
}

abbrev small_config : TableConfig
small_config = record {
  min_players = 2;
  max_players = 6;
  small_blind = 1;
  big_blind = 2;
  min_buy_in = 50;
  max_buy_in = 500;
}

abbrev pub one_table : TableRecord
one_table = record {
  table_id = 3;
  name = b't' ∷ [];
  node_id = b'n' ∷ [];
  config = small_config;
  created_by = 7;
}

abbrev starts_with : ℕ → ℕ → List Card → HandStartPlayer
starts_with user seat cards = record {
  user_id = user;
  seat = seat;
  start_stack = 200;
  hole_cards = cards;
}

abbrev pub first_start : HandStartRecord
first_start = record {
  hand_id = 1;
  table_id = 3;
  hand_number = 1;
  dealer_seat = 0;
  players =
      starts_with 7 0 (card 14 0 ∷ card 14 1 ∷ [])
      ∷ starts_with 8 1 (card 2 0 ∷ card 3 1 ∷ [])
      ∷ [];
}

abbrev pub first_settlement : HandSettlementRecord
first_settlement = record {
  hand_id = 1;
  table_id = 3;
  hand_number = 1;
  dealer_seat = 0;
  board = [];
  total_pot = 20;
  players =
      record {
        user_id = 7;
        seat = 0;
        start_stack = 200;
        committed = 10;
        winnings = 20;
        end_stack = 210;
        hole_cards = card 14 0 ∷ card 14 1 ∷ [];
        is_folded = false;
      }
      ∷ record {
        user_id = 8;
        seat = 1;
        start_stack = 200;
        committed = 10;
        winnings = 0;
        end_stack = 190;
        hole_cards = card 2 0 ∷ card 3 1 ∷ [];
        is_folded = true;
      }
      ∷ [];
}

abbrev day : List Operation
day =
    seeds 7 (pos 1000)
    ∷ seeds 8 (pos 1000)
    ∷ creates one_table
    ∷ reserves 3 7 0 (pos 200) (b'k' ∷ [])
    ∷ reserves 3 8 1 (pos 200) (b'k' ∷ [])
    ∷ begins first_start
    ∷ settles first_settlement
    ∷ cashes 3 7 (b'c' ∷ [])
    ∷ aborts 3
    ∷ []

abbrev seeded_store : GameStore
seeded_store = record empty_store {
  wallets = (7, 1000) ∷ [];
  tables =
      (
        3,
        record {
          info = one_table;
          is_aborted = false;
          hand_in_progress = false;
          seats = [];
          occupied_seats = [];
        },
      )
      ∷ [];
}

perform_all-Refines_example : Accounts empty_store day
unfolding empty_store
perform_all-Refines_example = perform_all-Refines day empty_store tt

valid_hand_settlement-balances_example : IsBalanced first_settlement
unfolding valid_stored_card add_cards player_is_wrong amounts_are_wrong check_players
    header_is_wrong totals_match valid_hand_settlement cards_eq equivalent_player equivalent_players
    equivalent_hand_settlement rank_value card_index contains
valid_hand_settlement-balances_example = valid_hand_settlement-balances first_settlement refl

abort_table_and_refund-total_example : GivesUp seeded_store 3
unfolding empty_store
abort_table_and_refund-total_example = abort_table_and_refund-total seeded_store 3 ((tt, tt), tt)

abbrev first_receipt : BuyInReceipt
first_receipt = record { wallet_balance = 800; table_stack = 200 }

abbrev bought : GameStore
unfolding empty_store seed_wallet wallet_balance_of seat_stack find_table insert_table open_tables
    list_open_tables count_tables count_open_tables create_table digits ledger_key find_result
    replay_buy_in take_seat buy_in_at reserve_with_key reserve_buy_in leave_seat cash_out_with_key
    cash_out_chips find_key put_key erase_key text_eq config_is_valid
bought = (reserve_buy_in seeded_store 3 7 0 (pos 200) (b'k' ∷ [])).1

abbrev cashed : GameStore
unfolding empty_store bought seed_wallet wallet_balance_of seat_stack find_table insert_table
    open_tables list_open_tables count_tables count_open_tables create_table digits ledger_key
    find_result replay_buy_in take_seat buy_in_at reserve_with_key reserve_buy_in leave_seat
    cash_out_with_key cash_out_chips find_key put_key erase_key text_eq
cashed = (cash_out_chips bought 3 7 (b'c' ∷ [])).1

-- The player is still seated in the first store, and has left in the second.
still_seated-test :
    reserve_buy_in bought 3 7 0 (pos 200) (b'k' ∷ []) ≡ (returned first_receipt, bought)
unfolding empty_store seed_wallet wallet_balance_of seat_stack find_table insert_table open_tables
    list_open_tables count_tables count_open_tables create_table digits ledger_key find_result
    replay_buy_in take_seat buy_in_at reserve_with_key reserve_buy_in leave_seat cash_out_with_key
    cash_out_chips find_key put_key erase_key text_eq config_is_valid
still_seated-test =
    reserve_buy_in-replays seeded_store bought bought 3 7 0 (pos 200) (b'k' ∷ []) first_receipt refl
      refl

reserve_buy_in-replays_example :
    reserve_buy_in cashed 3 7 0 (pos 200) (b'k' ∷ []) ≡ (failed conflict, cashed)
unfolding empty_store bought cashed seed_wallet wallet_balance_of seat_stack find_table insert_table
    open_tables list_open_tables count_tables count_open_tables create_table digits ledger_key
    find_result replay_buy_in take_seat buy_in_at reserve_with_key reserve_buy_in leave_seat
    cash_out_with_key cash_out_chips find_key put_key erase_key text_eq config_is_valid
reserve_buy_in-replays_example =
    reserve_buy_in-replays seeded_store bought cashed 3 7 0 (pos 200) (b'k' ∷ []) first_receipt refl
      refl

abbrev cash_receipt : CashOutReceipt
cash_receipt = record { wallet_balance = 1000; returned_stack = 200 }

cash_out_chips-replays_example :
    cash_out_chips cashed 3 7 (b'c' ∷ []) ≡ (returned cash_receipt, cashed)
unfolding empty_store bought seed_wallet wallet_balance_of seat_stack find_table insert_table
    open_tables list_open_tables count_tables count_open_tables create_table digits ledger_key
    find_result replay_buy_in take_seat buy_in_at reserve_with_key reserve_buy_in leave_seat
    cash_out_with_key cash_out_chips find_key put_key erase_key text_eq
cash_out_chips-replays_example =
    cash_out_chips-replays bought cashed 3 7 (b'c' ∷ []) cash_receipt refl
