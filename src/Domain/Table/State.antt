-- ===== src/Domain/Table/State.antt =====
-- The types of include/poker/domain/table.hpp. `Chips` is a signed 64-bit integer; the amounts that
-- the table keeps are never negative, so the state has them as numbers, and the amounts that a
-- caller sends are integers. A configuration with a negative amount is not represented: the code
-- refuses it in `validateConfig`.
use poker.Domain.Card.{Card}
use poker.Domain.Deck.{Deck}
use poker.Prelude.{
  Bool, List, Option, String, [], false, ltb, none, not, replicate, true, ℕ, ℤ, ◌&&◌, ◌*◌, ◌==◌,
  ◌||◌,
}

pub data Street : Type 0 where
  waiting preflop flop turn river showdown settled : Street

pub data PlayerStatus : Type 0 where
  waiting active folded all_in disconnected : PlayerStatus

pub data ActionType : Type 0 where
  fold check call bet raise all_in : ActionType

pub data TableError : Type 0 where
  ok invalid_configuration seat_out_of_range seat_occupied player_already_seated : TableError
  player_not_found invalid_buy_in hand_in_progress not_enough_players : TableError
  player_not_ready not_players_turn player_cannot_act action_not_allowed : TableError
  invalid_amount minimum_raise_not_met service_unavailable : TableError

pub record TableConfig : Type 0 where
  pub min_players : ℕ
  pub max_players : ℕ
  pub small_blind : ℕ
  pub big_blind : ℕ
  pub min_buy_in : ℕ
  pub max_buy_in : ℕ

-- `Table::Player`; `hole` is an array of two cards.
pub record Player : Type 0 where
  pub id : ℕ
  pub seat : ℕ
  pub stack : ℕ
  pub street_commitment : ℕ
  pub hand_commitment : ℕ
  pub status : PlayerStatus
  pub ready : Bool
  pub connected : Bool
  pub hole0 : Card
  pub hole1 : Card
  pub has_hole : Bool

pub record ActionCommand : Type 0 where
  pub player_id : ℕ
  pub kind : ActionType
  pub amount : ℤ

pub record PotAward : Type 0 where
  pub pot_size : ℕ
  pub winners : List ℕ
  pub equal_share : ℕ
  pub odd_chips : ℕ

pub record ActionResult : Type 0 where
  pub error : TableError
  pub message : String
  pub server_sequence : ℕ
  pub awards : List PotAward
  pub action_street : Street

abbrev pub Seats : Type 0
Seats = List (Option Player)

-- The sets of player ids are lists without repetition, whose order nothing reads.
pub record Table : Type 0 where
  pub config : TableConfig
  pub seats : Seats
  pub street : Street
  pub dealer_seat : Option ℕ
  pub acting_seat : Option ℕ
  pub current_bet : ℕ
  pub minimum_raise : ℕ
  pub pending_action : List ℕ
  pub raise_allowed : List ℕ
  pub board : List Card
  pub deck : Option Deck
  pub hand_id : ℕ
  pub server_sequence : ℕ
  pub last_awards : List PotAward

-- The constructor of `Table`.
unfoldable pub new_table : TableConfig → Table
new_table c = record {
  config = c;
  seats = replicate c.max_players none;
  street = Street.waiting;
  dealer_seat = none;
  acting_seat = none;
  current_bet = 0;
  minimum_raise = c.big_blind;
  pending_action = [];
  raise_allowed = [];
  board = [];
  deck = none;
  hand_id = 0;
  server_sequence = 0;
  last_awards = [];
}

-- `handIsRunning`, by the order of the enumerators.
unfoldable pub hand_is_running : Street → Bool
hand_is_running Street.waiting = false
hand_is_running settled = false
hand_is_running _ = true

unfoldable pub is_settled : Street → Bool
is_settled settled = true
is_settled _ = false

unfoldable pub is_showdown : Street → Bool
is_showdown showdown = true
is_showdown _ = false

unfoldable pub is_active : PlayerStatus → Bool
is_active active = true
is_active _ = false

unfoldable pub is_folded : PlayerStatus → Bool
is_folded folded = true
is_folded _ = false

unfoldable pub is_waiting : PlayerStatus → Bool
is_waiting PlayerStatus.waiting = true
is_waiting _ = false

-- `validateConfig() == TableError::ok`.
unfoldable pub config_is_valid : TableConfig → Bool
config_is_valid c = not (
    ltb c.min_players 2
    || ltb c.max_players c.min_players
    || ltb 6 c.max_players
    || c.small_blind == 0
    || ltb c.big_blind (c.small_blind * 2)
    || c.min_buy_in == 0
    || ltb c.max_buy_in c.min_buy_in)

-- `canAct`.
unfoldable pub can_act : Player → Bool
unfolding is_active
can_act p = is_active p.status && ltb 0 p.stack

-- The test of `contenders` and of `settleFoldWin`: still in the hand.
unfoldable pub is_contender : Player → Bool
is_contender p = elim p.status [ active ↦ true | all_in ↦ true | disconnected ↦ true | _ ↦ false ]

-- `toString(TableError)`.
unfoldable pub error_text : TableError → String
error_text ok = "ok"
error_text invalid_configuration = "invalid configuration"
error_text seat_out_of_range = "seat out of range"
error_text seat_occupied = "seat occupied"
error_text player_already_seated = "player already seated"
error_text player_not_found = "player not found"
error_text invalid_buy_in = "invalid buy-in"
error_text hand_in_progress = "hand in progress"
error_text not_enough_players = "not enough players"
error_text player_not_ready = "player not ready"
error_text not_players_turn = "not player's turn"
error_text player_cannot_act = "player cannot act"
error_text action_not_allowed = "action not allowed"
error_text invalid_amount = "invalid amount"
error_text minimum_raise_not_met = "minimum raise not met"
error_text service_unavailable = "service unavailable"
