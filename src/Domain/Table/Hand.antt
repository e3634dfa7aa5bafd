-- ===== src/Domain/Table/Hand.antt =====
-- Starting a hand, and calling it off.
use mathlib.Core.Option
use poker.Domain.Card.{Card}
use poker.Domain.Deck.{Deck, fixed_deck}
use poker.Domain.Table.Betting.{all_in_if_broke}
use poker.Domain.Table.Pots.{value_or}
use poker.Domain.Table.Seating.{is_some}
use poker.Domain.Table.Seats.{
  actionable, count_players, find_player, map_players, member, next_can_act_seat,
  next_participating_seat, participating_seats, player_at, update_player, update_seat,
}
use poker.Domain.Table.State.{
  Player, PlayerStatus, PotAward, Seats, Street, Table, TableError, action_not_allowed, active,
  can_act, config_is_valid, hand_in_progress, hand_is_running, invalid_configuration,
  not_enough_players, ok, preflop, settled,
}
use poker.Domain.Table.Street.{advance, advance_fuel, draw_card, open_action}
use poker.Prelude.{
  Bool, List, Option, Run, [], done, false, get_elem?, if◌then◌else◌, inc64, leb, length, ltb, max,
  min, none, not, or_throw, out_of_fuel, some, suc, threw, true, zero, ℕ, ◌&&◌, ◌+◌, ◌-◌, ◌==◌,
  ◌>>=◌, ◌∷◌,
}

unfoldable pub is_dealable : Player → Bool
is_dealable p = p.ready && ltb 0 p.stack

-- The loop that prepares the seats.
unfoldable pub prepare : Player → Player
prepare p = record p {
  street_commitment = 0;
  hand_commitment = 0;
  has_hole = false;
  status = if is_dealable p then active else PlayerStatus.waiting;
}

unfoldable pub prepare_table : Table → Deck → Table
prepare_table t deck = record t {
  seats = map_players prepare t.seats;
  deck = some deck;
  board = [];
  last_awards = [];
  current_bet = 0;
  minimum_raise = t.config.big_blind;
  pending_action = [];
  raise_allowed = [];
  acting_seat = none;
  street = preflop;
  hand_id = inc64 t.hand_id;
  server_sequence = inc64 t.server_sequence;
}

-- The button moves to the next player dealt in.
unfoldable pub next_dealer : Table → ℕ → ℕ
next_dealer t front = elim t.dealer_seat [
  | none ↦ front
  | some d ↦ value_or (next_participating_seat t.seats d) front
]

-- `player.hole[round] = card`.
unfoldable pub give_card : ℕ → Card → Player → Player
give_card zero c p = record p { hole0 = c; has_hole = true }
give_card (suc round) c p = record p { hole1 = c; has_hole = true }

-- The inner loop of `dealHoleCards`: `left` players are still to get their card of this round.
unfoldable pub deal_round : ℕ → ℕ → Option ℕ → Table → Run (Option ℕ × Table)
deal_round round zero seat t = done (seat, t)
deal_round round (suc left) seat t = or_throw seat >>= λ i. draw_card t >>= λ r.
    deal_round round left (next_participating_seat r.1.seats i)
      (record r.1 { seats = update_seat i (give_card round r.0) r.1.seats })

unfoldable pub deal_hole_cards : ℕ → Table → Run Table
deal_hole_cards count t = or_throw t.dealer_seat >>= λ dealer.
    deal_round 0 count (next_participating_seat t.seats dealer) t >>= λ first.
    deal_round 1 count first.0 first.1 >>= λ second. done second.1

unfoldable pub post_blind : ℕ → Player → Player
post_blind blind p =
    let payment = min blind p.stack in
    all_in_if_broke (record p {
      stack = p.stack - payment;
      street_commitment = p.street_commitment + payment;
      hand_commitment = p.hand_commitment + payment;
    })

unfoldable pub commitment_at : Seats → ℕ → ℕ
commitment_at seats i = elim (player_at seats i) [ none ↦ 0 | some p ↦ p.street_commitment ]

unfoldable pub post_blinds : ℕ → ℕ → Table → Table
post_blinds small big t =
    let seats =
      update_seat big (post_blind t.config.big_blind)
        (update_seat small (post_blind t.config.small_blind) t.seats) in
    record t {
      seats = seats;
      current_bet = max (commitment_at seats small) (commitment_at seats big);
    }

unfoldable pub can_act_now : Table → Option Player → Bool
can_act_now t none = false
can_act_now t (some p) = can_act p && member p.id t.pending_action

unfoldable pub set_initial_actor : ℕ → ℕ → Table → Table
set_initial_actor big_blind_seat participants t =
    if participants == 2 && is_some t.dealer_seat
    then elim t.dealer_seat [
      | none ↦ t
      | some d ↦ record t {
        acting_seat = if can_act_now t (player_at t.seats d) then some d else next_can_act_seat t d;
      }
    ]
    else record t { acting_seat = next_can_act_seat t big_blind_seat }

-- The small blind: the dealer's with two players, and otherwise the next player's.
unfoldable pub small_blind_seat : Table → ℕ → ℕ → Option ℕ
small_blind_seat t dealer participants =
    if ltb 2 participants then next_participating_seat t.seats dealer else some dealer

-- `startHand` from the blinds on.
unfoldable pub open_hand : ℕ → ℕ → ℕ → Table → Run Table
open_hand small big participants t =
    let u = set_initial_actor big participants (open_action (post_blinds small big t)) in
    let stopped = advance advance_fuel (record u { pending_action = []; acting_seat = none }) in
    if leb (actionable u.seats) 1 then stopped else done u

unfoldable pub deal_hand : ℕ → ℕ → Table → Run Table
deal_hand front participants t =
    let dealer = next_dealer t front in
    deal_hole_cards participants (record t { dealer_seat = some dealer }) >>= λ u.
    or_throw (small_blind_seat u dealer participants) >>= λ small.
    or_throw (next_participating_seat u.seats small) >>= λ big. open_hand small big participants u

-- `startHand` once the seats are prepared.
unfoldable pub start_prepared : Table → Run (TableError × Table)
start_prepared u =
    let participants = participating_seats u.seats in
    if ltb (length participants) u.config.min_players
    then done (not_enough_players, record u { street = Street.waiting })
    else (or_throw (get_elem? participants 0) >>= λ front.
        deal_hand front (length participants) u >>= λ v. done (ok, v))

-- `startHand(std::unique_ptr<Deck>)`. A vector of participants that passed the test on its size is
-- not empty, since `validateConfig` wants two players at least.
unfoldable pub start_hand : Table → Deck → Run (TableError × Table)
start_hand t deck =
    if not (config_is_valid t.config)
    then done (invalid_configuration, t)
    else if hand_is_running t.street
    then done (hand_in_progress, t)
    else if ltb (count_players is_dealable t.seats) t.config.min_players
    then done (not_enough_players, t)
    else start_prepared (prepare_table t deck)

-- `startHandWithDeck`: the exception of the deck's constructor becomes an error.
unfoldable pub start_hand_with_deck : Table → List Card → Run (TableError × Table)
start_hand_with_deck t cards = elim (fixed_deck cards) [
  | done d ↦ start_hand t d
  | threw ↦ done (invalid_configuration, t)
  | out_of_fuel ↦ out_of_fuel
]

-- Taking one award back from its winners. `none` stands for a stack below zero, with which the code
-- goes on and which the state does not represent.
unfoldable pub take_back : ℕ → ℕ → ℕ → List ℕ → Seats → Option Seats
take_back share odd index [] seats = some seats
take_back share odd index (id ∷ ids) seats =
    let amount = share + (if ltb index odd then 1 else 0) in
    let missing = take_back share odd (index + 1) ids seats in
    let paid =
      take_back share odd (index + 1) ids
        (update_player id (λ q. record q { stack = q.stack - amount }) seats) in
    elim (find_player id seats) [
      | none ↦ missing
      | some p ↦ if ltb p.stack amount then none else paid
    ]

unfoldable pub take_back_awards : List PotAward → Seats → Option Seats
take_back_awards [] seats = some seats
take_back_awards (a ∷ awards) seats =
    Option.bind (take_back a.equal_share a.odd_chips 0 a.winners seats) (take_back_awards awards)

unfoldable pub refund : Player → Player
refund p = record p {
  stack = p.stack + p.hand_commitment;
  street_commitment = 0;
  hand_commitment = 0;
  status = PlayerStatus.waiting;
  ready = false;
  has_hole = false;
}

unfoldable pub aborted : Table → Seats → Table
aborted t seats = record t {
  seats = map_players refund seats;
  street = Street.waiting;
  acting_seat = none;
  current_bet = 0;
  minimum_raise = t.config.big_blind;
  pending_action = [];
  raise_allowed = [];
  board = [];
  deck = none;
  last_awards = [];
  server_sequence = inc64 t.server_sequence;
}

unfoldable pub abort_hand : Table → Option (TableError × Table)
abort_hand t = elim t.street [
  | Street.waiting ↦ some (action_not_allowed, t)
  | settled ↦ Option.map (λ seats. (ok, aborted t seats)) (take_back_awards t.last_awards t.seats)
  | _ ↦ some (ok, aborted t t.seats)
]
