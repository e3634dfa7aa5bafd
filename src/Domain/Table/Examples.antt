-- ===== src/Domain/Table/Examples.antt =====
-- Hands of two and three players dealt from the ordered deck: tests, and the theorems on the table
-- applied to them.
use poker.Domain.Card.{
  card_eq, card_index, card_text, ordered_deck, rank_symbol, rank_value, suit_cards, suit_symbol,
  suits_from,
}
use poker.Domain.Deck.{
  Deck, all_new, burn, contains, deterministic_uniform, draw, fixed_deck, remaining, seeded,
  shuffle_from, shuffled_deck, swap_at, xorshift,
}
use poker.Domain.Evaluator.{
  best_of, better, category_value, choose, classify, classify_pairs, classify_rest, count_rank,
  count_suit, descending_ranks, evaluate_best, evaluate_five, first_or_zero, last_or_zero, list_eq,
  list_lt, or_default, ranks_from, ranks_with, straight_from, straight_high, value_eq, value_lt,
}
use poker.Domain.Table.Betting.{
  act, act_by, acting_player, add_under_called_players, after_action, all_in_if_broke, apply_action,
  do_all_in, do_bet, do_call, do_check, do_fold, do_raise, failure, finish_action, pay_and_close,
  pay_to, raise_to, remove_from_action_sets, reset_after_full_raise, set_folded, success,
}
use poker.Domain.Table.Chips.{act_accounts}
use poker.Domain.Table.Conservation.{IsSettlement, settle_showdown-IsSettlement, unpaid}
use poker.Domain.Table.Hand.{
  abort_hand, aborted, can_act_now, commitment_at, deal_hand, deal_hole_cards, deal_round,
  give_card, is_dealable, next_dealer, open_hand, post_blind, post_blinds, prepare, prepare_table,
  refund, set_initial_actor, small_blind_seat, start_hand, start_hand_with_deck, start_prepared,
  take_back, take_back_awards,
}
use poker.Domain.Table.Levels.{top_of}
use poker.Domain.Table.Opening.{start_hand_accounts}
use poker.Domain.Table.FoldWin.{IsFoldWin, settle_fold_win-IsFoldWin}
use poker.Domain.Table.Payment.{AppliedKeeps, apply_action-Keeps}
use poker.Domain.Table.Pots.{
  add_stack, add_winner, award_levels, award_pot, build_and_award_pots, distance, distances,
  insert_level, insert_near, is_eligible, levels_of, ordered_clockwise, pay_pot, pay_winners,
  pick_winners, players_where, reaches, sort_near,
}
use poker.Domain.Table.Refund.{Refunded, abort_hand-refunds}
use poker.Domain.Table.Refusals.{MayAct, act-MayAct, act_atomic, is_ok}
use poker.Domain.Table.Seating.{new_player, remove_player, seat_player, set_connected, set_ready}
use poker.Domain.Table.Seats.{
  actionable, contenders, count_players, erase_id, find_player, first_postflop_actor, has_id, holds,
  insert_id, insert_players, is_dealt_in, map_players, member, next_can_act_seat,
  next_participating_seat, next_seat, participating_seats, player_at, pot_size, scan, seat_of,
  seats_where, sum_players, total_chips, update_player, update_seat,
}
use poker.Domain.Table.Secrecy.{Hides, HidesFolded, snapshot-Hides, snapshot-HidesFolded}
use poker.Domain.Table.Showdown.{PaidUpTo, build_and_award_pots-pays}
use poker.Domain.Table.Starting.{start_hand_terminates}
use poker.Domain.Table.State.{
  ActionCommand, ActionResult, ActionType, Player, Street, Table, TableConfig, action_not_allowed,
  call, can_act, check, config_is_valid, fold, hand_is_running, is_active, is_contender, is_folded,
  is_settled, is_showdown, is_waiting, new_table, ok, preflop, raise, settled,
}
use poker.Domain.Table.Street.{
  advance, advance_street, betting_round_complete, burn_card, choose_actor, clear_street, draw_card,
  fill_board, first_contender, is_river, keeps_open, mark_settled, next_street, not_ready,
  open_action, push_board, reset_street, reveal_flop, reveal_one, settle_fold_win, settle_showdown,
}
use poker.Domain.Table.Stuck.{IsStuck, stuck_forever}
use poker.Domain.Table.Sums.{stack_of}
use poker.Domain.Table.Termination.{act_terminates}
use poker.Domain.Table.View.{snapshot}
use poker.Prelude.{
  All, Bool, Run, [], done, false, leb, map, min, none, out_of_fuel, pos, refl, some, threw, true,
  ℕ, ◌+◌, ◌∷◌, ◌≡◌, ◌≢◌,
}

abbrev two_seats : TableConfig
two_seats = record {
  min_players = 2;
  max_players = 2;
  small_blind = 1;
  big_blind = 2;
  min_buy_in = 2;
  max_buy_in = 100;
}

abbrev three_seats : TableConfig
three_seats = record {
  min_players = 2;
  max_players = 3;
  small_blind = 5;
  big_blind = 10;
  min_buy_in = 5;
  max_buy_in = 100;
}

-- A player takes a seat and is ready.
abbrev joined : Table → ℕ → ℕ → ℕ → Table
unfolding seat_player set_ready
joined t id seat buy_in = (set_ready (seat_player t id seat (pos buy_in)).1 id true).1

-- The result of a run, or the given one.
abbrev got : {A : Type 0} → A → Run A → A
got a (done b) = b
got a threw = a
got a out_of_fuel = a

abbrev is_done : {A : Type 0} → Run A → Bool
is_done (done b) = true
is_done threw = false
is_done out_of_fuel = false

got-done : {A : Type 0} (r : Run A) (a : A) → is_done r ≡ true → r ≡ done (got a r)
got-done (done b) a e = refl
got-done threw a e = cc
got-done out_of_fuel a e = cc

-- Dealt from the ordered deck.
abbrev dealt : Table → Table
unfolding seeded xorshift deterministic_uniform swap_at shuffle_from shuffled_deck contains all_new
    fixed_deck draw burn remaining card_eq rank_value card_index suit_cards suits_from ordered_deck
    rank_symbol suit_symbol card_text new_table hand_is_running is_settled is_showdown is_active
    is_folded is_waiting config_is_valid can_act is_contender member insert_id erase_id player_at
    update_seat map_players has_id find_player update_player seat_of holds count_players
    insert_players seats_where scan next_seat is_dealt_in participating_seats
    next_participating_seat next_can_act_seat first_postflop_actor contenders actionable sum_players
    pot_size total_chips new_player seat_player remove_player set_ready set_connected draw_card
    burn_card push_board reveal_flop reveal_one not_ready mark_settled first_contender
    settle_fold_win fill_board settle_showdown clear_street reset_street next_street open_action
    advance_street keeps_open betting_round_complete choose_actor is_river advance all_in_if_broke
    pay_to remove_from_action_sets reset_after_full_raise add_under_called_players raise_to
    pay_and_close set_folded do_fold do_check do_call do_bet do_raise do_all_in apply_action failure
    success after_action finish_action acting_player act_by act insert_level levels_of reaches
    is_eligible players_where add_winner pick_winners distance distances insert_near sort_near
    ordered_clockwise add_stack pay_winners pay_pot award_pot award_levels build_and_award_pots
    is_dealable prepare prepare_table next_dealer give_card deal_round deal_hole_cards post_blind
    commitment_at post_blinds can_act_now set_initial_actor small_blind_seat open_hand deal_hand
    start_prepared start_hand start_hand_with_deck take_back take_back_awards refund aborted
    abort_hand category_value list_eq list_lt value_eq value_lt count_rank count_suit straight_from
    straight_high ranks_from descending_ranks ranks_with last_or_zero first_or_zero classify_pairs
    classify_rest classify evaluate_five choose better best_of or_default evaluate_best
dealt t = (got (ok, t) (start_hand_with_deck t ordered_deck)).1

abbrev command : ℕ → ActionType → ℕ → ActionCommand
command id kind amount = record { player_id = id; kind = kind; amount = pos amount }

abbrev refused : Table → ActionResult × Table
refused t = (
  record {
    error = action_not_allowed;
    message = "";
    server_sequence = 0;
    awards = [];
    action_street = t.street;
  },
  t,
)

-- What `act` answers.
abbrev answer : Table → ActionCommand → ActionResult × Table
answer t c = got (refused t) (act t c)

-- The same, computed.
abbrev step : Table → ActionCommand → Table
unfolding seeded xorshift deterministic_uniform swap_at shuffle_from shuffled_deck contains all_new
    fixed_deck draw burn remaining card_eq rank_value card_index suit_cards suits_from ordered_deck
    rank_symbol suit_symbol card_text new_table hand_is_running is_settled is_showdown is_active
    is_folded is_waiting config_is_valid can_act is_contender member insert_id erase_id player_at
    update_seat map_players has_id find_player update_player seat_of holds count_players
    insert_players seats_where scan next_seat is_dealt_in participating_seats
    next_participating_seat next_can_act_seat first_postflop_actor contenders actionable sum_players
    pot_size total_chips new_player seat_player remove_player set_ready set_connected draw_card
    burn_card push_board reveal_flop reveal_one not_ready mark_settled first_contender
    settle_fold_win fill_board settle_showdown clear_street reset_street next_street open_action
    advance_street keeps_open betting_round_complete choose_actor is_river advance all_in_if_broke
    pay_to remove_from_action_sets reset_after_full_raise add_under_called_players raise_to
    pay_and_close set_folded do_fold do_check do_call do_bet do_raise do_all_in apply_action failure
    success after_action finish_action acting_player act_by act insert_level levels_of reaches
    is_eligible players_where add_winner pick_winners distance distances insert_near sort_near
    ordered_clockwise add_stack pay_winners pay_pot award_pot award_levels build_and_award_pots
    is_dealable prepare prepare_table next_dealer give_card deal_round deal_hole_cards post_blind
    commitment_at post_blinds can_act_now set_initial_actor small_blind_seat open_hand deal_hand
    start_prepared start_hand start_hand_with_deck take_back take_back_awards refund aborted
    abort_hand category_value list_eq list_lt value_eq value_lt count_rank count_suit straight_from
    straight_high ranks_from descending_ranks ranks_with last_or_zero first_or_zero classify_pairs
    classify_rest classify evaluate_five choose better best_of or_default evaluate_best
step t c = (answer t c).1

-- A hand of two players with 100 and 60 chips.
abbrev opened : Table
unfolding joined dealt new_table
opened = dealt (joined (joined (new_table two_seats) 7 0 100) 8 1 60)

-- The dealer is all in; then the other calls.
abbrev pushed : Table
unfolding opened step
pushed = step opened (command 7 ActionType.all_in 0)

-- A hand in which the big blind takes all the chips of its player.
abbrev short_blind : Table
unfolding joined dealt new_table
short_blind = dealt (joined (joined (new_table two_seats) 7 0 100) 8 1 2)

-- A hand of three: players 7 and 8 have five chips, player 9 pays the big blind of ten.
abbrev three_way : Table
unfolding joined dealt new_table
three_way = dealt (joined (joined (joined (new_table three_seats) 7 0 5) 8 1 5) 9 2 100)

abbrev uncalled : Table
unfolding three_way step
uncalled = step three_way (command 7 ActionType.all_in 0)

-- Two players: the blinds are posted and the dealer acts first; all in and called, the hand is
-- settled at once, and the winner of both is player 7.
opened-test :
    (pot_size opened.seats ≡ 3)
    × (opened.acting_seat ≡ some 0)
    × ((step pushed (command 8 call 0)).street ≡ settled)
    × (map (λ a. a.pot_size) (step pushed (command 8 call 0)).last_awards ≡ 120 ∷ 40 ∷ [])
unfolding pot_size opened step pushed
opened-test = (refl, refl, refl, refl)

-- The small player takes the main pot in vain: with nobody left to call the rest of the big blind,
-- its player folds, and five chips of the table's 110 are gone.
uncalled-test :
    (total_chips uncalled ≡ 110) × (total_chips (step uncalled (command 9 fold 0)) ≡ 105)
unfolding total_chips uncalled step
uncalled-test = (refl, refl)

-- The hand starts, but nobody may act.
short_blind-test : (short_blind.street ≡ preflop) × (short_blind.acting_seat ≡ none)
unfolding short_blind
short_blind-test = (refl, refl)

-- A command that is refused: it is not the turn of player 8.
abbrev out_of_turn : ActionCommand
out_of_turn = command 8 check 0

-- The dealer has folded.
abbrev one_left : Table
unfolding opened update_seat set_folded
one_left = record opened { seats = update_seat 0 set_folded opened.seats }

abbrev with_board : Table
with_board = got opened (fill_board 5 opened)

-- The runs of the examples return.
record Runs : Type 0 where
  call_returns : is_done (act pushed (command 8 call 0)) ≡ true
  check_returns : is_done (act opened out_of_turn) ≡ true
  check_refused : is_ok (answer opened out_of_turn).0.error ≡ false
  raise_returns : is_done (act opened (command 7 raise 4)) ≡ true
  raise_accepted : is_ok (answer opened (command 7 raise 4)).0.error ≡ true
  alone : contenders one_left.seats ≡ 1
  showdown_returns : is_done (settle_showdown opened) ≡ true
  not_alone : leb (contenders opened.seats) 1 ≡ false
  awards_return : is_done (build_and_award_pots with_board) ≡ true

runs : Runs
unfolding opened pushed one_left seeded xorshift deterministic_uniform swap_at shuffle_from
    shuffled_deck contains all_new fixed_deck draw burn remaining card_eq rank_value card_index
    suit_cards suits_from ordered_deck rank_symbol suit_symbol card_text new_table hand_is_running
    is_settled is_showdown is_active is_folded is_waiting config_is_valid can_act is_contender
    member insert_id erase_id player_at update_seat map_players has_id find_player update_player
    seat_of holds count_players insert_players seats_where scan next_seat is_dealt_in
    participating_seats next_participating_seat next_can_act_seat first_postflop_actor contenders
    actionable sum_players pot_size total_chips new_player seat_player remove_player set_ready
    set_connected draw_card burn_card push_board reveal_flop reveal_one not_ready mark_settled
    first_contender settle_fold_win fill_board settle_showdown clear_street reset_street next_street
    open_action advance_street keeps_open betting_round_complete choose_actor is_river advance
    all_in_if_broke pay_to remove_from_action_sets reset_after_full_raise add_under_called_players
    raise_to pay_and_close set_folded do_fold do_check do_call do_bet do_raise do_all_in
    apply_action failure success after_action finish_action acting_player act_by act insert_level
    levels_of reaches is_eligible players_where add_winner pick_winners distance distances
    insert_near sort_near ordered_clockwise add_stack pay_winners pay_pot award_pot award_levels
    build_and_award_pots is_dealable prepare prepare_table next_dealer give_card deal_round
    deal_hole_cards post_blind commitment_at post_blinds can_act_now set_initial_actor
    small_blind_seat open_hand deal_hand start_prepared start_hand start_hand_with_deck take_back
    take_back_awards refund aborted abort_hand category_value list_eq list_lt value_eq value_lt
    count_rank count_suit straight_from straight_high ranks_from descending_ranks ranks_with
    last_or_zero first_or_zero classify_pairs classify_rest classify evaluate_five choose better
    best_of or_default evaluate_best
runs = record {
  call_returns = refl;
  check_returns = refl;
  check_refused = refl;
  raise_returns = refl;
  raise_accepted = refl;
  alone = refl;
  showdown_returns = refl;
  not_alone = refl;
  awards_return = refl;
}

opened-runs : hand_is_running opened.street ≡ true
unfolding opened hand_is_running
opened-runs = refl

opened-not-settled : is_settled opened.street ≡ false
unfolding opened is_settled
opened-not-settled = refl

pushed-runs : hand_is_running pushed.street ≡ true
unfolding pushed hand_is_running
pushed-runs = refl

act_accounts_example :
    let u = (answer pushed (command 8 call 0)).1 in total_chips u + unpaid u ≡ total_chips pushed
act_accounts_example =
    act_accounts pushed (answer pushed (command 8 call 0)).1 (command 8 call 0)
      (answer pushed (command 8 call 0)).0 pushed-runs
      (got-done (act pushed (command 8 call 0)) (refused pushed) runs.call_returns)

act_terminates_example : act opened (command 7 raise 4) ≢ out_of_fuel
act_terminates_example = act_terminates opened (command 7 raise 4)

act_atomic_example :
    ((answer opened out_of_turn).1 ≡ opened)
    × ((answer opened out_of_turn).0.server_sequence ≡ opened.server_sequence)
act_atomic_example =
    act_atomic opened out_of_turn (answer opened out_of_turn)
      (got-done (act opened out_of_turn) (refused opened) runs.check_returns) runs.check_refused

act-MayAct_example : MayAct opened 7
act-MayAct_example =
    act-MayAct opened (command 7 raise 4) (answer opened (command 7 raise 4))
      (got-done (act opened (command 7 raise 4)) (refused opened) runs.raise_returns)
      runs.raise_accepted

-- The dealer's seat, in the hand that has been opened.
dealer_seat-player : (p : Player) × (player_at opened.seats 0 ≡ some p)
unfolding opened player_at
dealer_seat-player = (_, refl)

apply_action-Keeps-test :
    AppliedKeeps opened (apply_action opened 0 dealer_seat-player.0 raise (pos 4))
apply_action-Keeps-test =
    apply_action-Keeps opened 0 dealer_seat-player.0 dealer_seat-player.1 raise (pos 4)

settle_fold_win-IsFoldWin_example :
    (u : Table) × (settle_fold_win one_left ≡ done u) × IsFoldWin one_left u
settle_fold_win-IsFoldWin_example = settle_fold_win-IsFoldWin one_left runs.alone

settle_showdown-IsSettlement_example : IsSettlement opened (got opened (settle_showdown opened))
settle_showdown-IsSettlement_example =
    settle_showdown-IsSettlement opened (got opened (settle_showdown opened)) runs.not_alone
      (got-done (settle_showdown opened) opened runs.showdown_returns)

build_and_award_pots-pays_example :
    PaidUpTo
      (sum_players (λ p. min p.hand_commitment (top_of with_board.seats)) with_board.seats)
      []
      with_board
      (got (with_board, []) (build_and_award_pots with_board))
build_and_award_pots-pays_example =
    build_and_award_pots-pays with_board (got (with_board, []) (build_and_award_pots with_board))
      (got-done (build_and_award_pots with_board) (with_board, []) runs.awards_return)

snapshot-Hides_example : All (Hides (some 7)) (snapshot opened (some 7)).players
snapshot-Hides_example = snapshot-Hides opened (some 7) opened-not-settled

snapshot-HidesFolded_example : All (HidesFolded none) (snapshot one_left none).players
snapshot-HidesFolded_example = snapshot-HidesFolded one_left none

short_blind-IsStuck : IsStuck short_blind
unfolding short_blind betting_round_complete contenders count_players is_contender keeps_open
short_blind-IsStuck = record { nobody_due = refl; no_actor = refl; betting_open = refl }

stuck_forever_example :
    (u : Table) × (advance 4 short_blind ≡ done u)
    × (u.street ≡ short_blind.street)
    × ((c : ActionCommand) → (r : ActionResult) × (act u c ≡ done (r, u)) × (is_ok r.error ≡ false))
stuck_forever_example = stuck_forever short_blind 3 short_blind-IsStuck

abort_hand-refunds_example :
    (u : Table) × (abort_hand opened ≡ some (ok, u))
    × Refunded opened.seats u.seats
    × (total_chips u ≡ total_chips opened)
    × (pot_size u.seats ≡ 0)
    × (u.street ≡ Street.waiting)
abort_hand-refunds_example = abort_hand-refunds opened opened-runs

-- Two players who are ready, at a table without a hand.
abbrev ready_table : Table
unfolding joined new_table
ready_table = joined (joined (new_table two_seats) 7 0 100) 8 1 60

abbrev next_deck : Deck
next_deck = record { cards = ordered_deck; next = 0 }

started : (u : Table) × (start_hand ready_table next_deck ≡ done (ok, u))
unfolding ready_table seeded xorshift deterministic_uniform swap_at shuffle_from shuffled_deck
    contains all_new fixed_deck draw burn remaining card_eq rank_value card_index suit_cards
    suits_from ordered_deck rank_symbol suit_symbol card_text new_table hand_is_running is_settled
    is_showdown is_active is_folded is_waiting config_is_valid can_act is_contender member insert_id
    erase_id player_at update_seat map_players has_id find_player update_player seat_of holds
    count_players insert_players seats_where scan next_seat is_dealt_in participating_seats
    next_participating_seat next_can_act_seat first_postflop_actor contenders actionable sum_players
    pot_size total_chips new_player seat_player remove_player set_ready set_connected draw_card
    burn_card push_board reveal_flop reveal_one not_ready mark_settled first_contender
    settle_fold_win fill_board settle_showdown clear_street reset_street next_street open_action
    advance_street keeps_open betting_round_complete choose_actor is_river advance all_in_if_broke
    pay_to remove_from_action_sets reset_after_full_raise add_under_called_players raise_to
    pay_and_close set_folded do_fold do_check do_call do_bet do_raise do_all_in apply_action failure
    success after_action finish_action acting_player act_by act insert_level levels_of reaches
    is_eligible players_where add_winner pick_winners distance distances insert_near sort_near
    ordered_clockwise add_stack pay_winners pay_pot award_pot award_levels build_and_award_pots
    is_dealable prepare prepare_table next_dealer give_card deal_round deal_hole_cards post_blind
    commitment_at post_blinds can_act_now set_initial_actor small_blind_seat open_hand deal_hand
    start_prepared start_hand start_hand_with_deck take_back take_back_awards refund aborted
    abort_hand category_value list_eq list_lt value_eq value_lt count_rank count_suit straight_from
    straight_high ranks_from descending_ranks ranks_with last_or_zero first_or_zero classify_pairs
    classify_rest classify evaluate_five choose better best_of or_default evaluate_best
started = (_, refl)

start_hand_accounts_example :
    total_chips started.0 + unpaid started.0 ≡ sum_players stack_of ready_table.seats
start_hand_accounts_example = start_hand_accounts ready_table started.0 next_deck started.1

start_hand_terminates_example : start_hand ready_table next_deck ≢ out_of_fuel
start_hand_terminates_example = start_hand_terminates ready_table next_deck
