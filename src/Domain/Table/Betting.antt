-- ===== src/Domain/Table/Betting.antt =====
-- `Table::act`: one command of the acting player.
use mathlib.Core.Option
use poker.Domain.Table.Seats.{
  contenders, erase_id, insert_players, member, next_can_act_seat, player_at, update_seat,
}
use poker.Domain.Table.State.{
  ActionCommand, ActionResult, ActionType, Player, PlayerStatus, Street, Table, TableError,
  action_not_allowed, bet, call, can_act, check, fold, folded, hand_is_running, invalid_amount,
  is_settled, is_showdown, minimum_raise_not_met, not_players_turn, ok, player_cannot_act, raise,
}
use poker.Domain.Table.Street.{advance, advance_fuel, betting_round_complete, settle_fold_win}
use poker.Prelude.{
  Bool, Option, Run, String, [], done, if◌then◌else◌, inc64, leb, leb_ℤ, ltb, min, none, not,
  pos_part, some, ℕ, ℤ, ◌&&◌, ◌+◌, ◌-◌, ◌==◌, ◌>>=◌, ◌||◌,
}

unfoldable pub all_in_if_broke : Player → Player
all_in_if_broke p = if p.stack == 0 then record p { status = PlayerStatus.all_in } else p

-- `payTo`: pay up to a commitment of `target` on this street.
unfoldable pub pay_to : ℕ → Player → Player
pay_to target p =
    let payment = target - p.street_commitment in
    all_in_if_broke (record p {
      stack = p.stack - payment;
      street_commitment = p.street_commitment + payment;
      hand_commitment = p.hand_commitment + payment;
    })

unfoldable pub remove_from_action_sets : ℕ → Table → Table
remove_from_action_sets id t = record t {
  pending_action = erase_id id t.pending_action;
  raise_allowed = erase_id id t.raise_allowed;
}

unfoldable pub reset_after_full_raise : ℕ → Table → Table
reset_after_full_raise raiser t =
    let others = insert_players (λ p. not (p.id == raiser) && can_act p) t.seats [] in
    record t { pending_action = others; raise_allowed = others }

unfoldable pub add_under_called_players : ℕ → Table → Table
add_under_called_players actor t = record t {
  pending_action =
      insert_players
        (λ p. (not (p.id == actor) && can_act p) && ltb p.street_commitment t.current_bet) t.seats
        t.pending_action;
}

-- The end of `bet`, `raise` and `all_in`: pay, set the bet, and reopen the round if the raise is full.
unfoldable pub raise_to : Table → ℕ → Player → ℕ → ℕ → Bool → Table
raise_to t i p target increment full =
    let paid = record t { seats = update_seat i (pay_to target) t.seats; current_bet = target } in
    if full
    then reset_after_full_raise p.id (record paid { minimum_raise = increment })
    else remove_from_action_sets p.id (add_under_called_players p.id paid)

-- `call`, and an all-in that does not exceed the bet.
unfoldable pub pay_and_close : Table → ℕ → Player → ℕ → Table
pay_and_close t i p target =
    remove_from_action_sets p.id (record t { seats = update_seat i (pay_to target) t.seats })

-- What a case of the `switch` comes to, with the table that it leaves: an early return by `fail`, or its
-- `break`.
pub data Applied : Type 0 where
  refused : TableError → String → Table → Applied
  applied : Table → Applied

unfoldable pub set_folded : Player → Player
set_folded p = record p { status = folded }

unfoldable pub do_fold : Table → ℕ → Player → Applied
do_fold t i p =
    applied (remove_from_action_sets p.id (record t { seats = update_seat i set_folded t.seats }))

unfoldable pub do_check : Table → ℕ → Player → Applied
do_check t i p =
    if not (p.street_commitment == t.current_bet)
    then refused action_not_allowed "check is only legal when no chips are owed" t
    else applied (remove_from_action_sets p.id t)

abbrev pub available : Player → ℕ
available p = p.street_commitment + p.stack

unfoldable pub do_call : Table → ℕ → Player → Applied
do_call t i p =
    if leb t.current_bet p.street_commitment
    then refused action_not_allowed "there is no bet to call" t
    else applied (pay_and_close t i p (min t.current_bet (available p)))

unfoldable pub do_bet : Table → ℕ → Player → ℤ → Applied
do_bet t i p amount =
    let target = pos_part amount in
    if not (t.current_bet == 0)
    then refused action_not_allowed "an existing bet must be raised, not bet again" t
    else if leb_ℤ amount p.street_commitment || not (leb_ℤ amount (available p))
    then refused invalid_amount "bet target is outside the player's available stack" t
    else if ltb target t.minimum_raise && not (target == available p)
    then refused minimum_raise_not_met "bet is below the table minimum" t
    else applied (raise_to t i p target target (leb t.minimum_raise target))

unfoldable pub do_raise : Table → ℕ → Player → ℤ → Applied
do_raise t i p amount =
    let target = pos_part amount in
    let raise_size = target - t.current_bet in
    if t.current_bet == 0
    then refused action_not_allowed "raise requires an existing bet" t
    else if not (member p.id t.raise_allowed)
    then refused action_not_allowed "a short all-in did not reopen raising" t
    else if leb_ℤ amount t.current_bet || not (leb_ℤ amount (available p))
    then refused invalid_amount "raise target must exceed the current bet and fit the stack" t
    else if ltb raise_size t.minimum_raise && not (target == available p)
    then refused minimum_raise_not_met "raise increment is below the minimum raise" t
    else applied (raise_to t i p target raise_size (leb t.minimum_raise raise_size))

unfoldable pub do_all_in : Table → ℕ → Player → Applied
do_all_in t i p =
    let target = available p in
    let raise_size = target - t.current_bet in
    if p.stack == 0
    then refused player_cannot_act "the player has no chips left" t
    else if leb target t.current_bet
    then applied (pay_and_close t i p target)
    else if not (member p.id t.raise_allowed)
    then refused action_not_allowed "raising was not reopened for this player" t
    else applied (raise_to t i p target raise_size (leb t.minimum_raise raise_size))

-- The `switch` on the type of the command.
unfoldable pub apply_action : Table → ℕ → Player → ActionType → ℤ → Applied
apply_action t i p fold amount = do_fold t i p
apply_action t i p check amount = do_check t i p
apply_action t i p call amount = do_call t i p
apply_action t i p bet amount = do_bet t i p amount
apply_action t i p raise amount = do_raise t i p amount
apply_action t i p ActionType.all_in amount = do_all_in t i p

-- `fail`.
unfoldable pub failure : Table → TableError → String → ActionResult
failure t e text = record {
  error = e;
  message = text;
  server_sequence = t.server_sequence;
  awards = [];
  action_street = Street.waiting;
}

-- The result of `succeed` as `act` returns it: the sequence number and the awards are read at the
-- end. Where `settleFoldWin` has run the street is `settled`, so the awards are read there too.
unfoldable pub success : Street → Table → ActionResult
success action_street t = record {
  error = ok;
  message = "";
  server_sequence = t.server_sequence;
  awards = if is_settled t.street then t.last_awards else [];
  action_street = action_street;
}

-- `act` from `contenders() <= 1` on.
unfoldable pub after_action : Table → ℕ → Run Table
after_action t previous_seat =
    if leb (contenders t.seats) 1
    then settle_fold_win t
    else if betting_round_complete t
    then advance advance_fuel (record t { acting_seat = none })
    else done (record t { acting_seat = next_can_act_seat t previous_seat })

unfoldable pub finish_action : Table → ℕ → Street → Applied → Run (ActionResult × Table)
finish_action t previous_seat action_street (refused e text u) = done (failure u e text, u)
finish_action t previous_seat action_street (applied u) =
    after_action (record u { server_sequence = inc64 u.server_sequence }) previous_seat >>= λ v.
    done (success action_street v, v)

-- The acting player's seat and record.
unfoldable pub acting_player : Table → Option (ℕ × Player)
acting_player t = elim t.acting_seat [
  | none ↦ none
  | some i ↦ Option.map (λ p. (i, p)) (player_at t.seats i)
]

-- `act` below its first guard, on the acting player.
unfoldable pub act_by : Table → ActionCommand → Option (ℕ × Player) → Run (ActionResult × Table)
act_by t c none =
    done (failure t not_players_turn "the command was not sent by the acting player", t)
act_by t c (some (i, p)) =
    if not (p.id == c.player_id)
    then done (failure t not_players_turn "the command was not sent by the acting player", t)
    else if not (can_act p) || not (member p.id t.pending_action)
    then done (failure t player_cannot_act "the player cannot act in this betting round", t)
    else finish_action t p.seat t.street (apply_action t i p c.kind c.amount)

unfoldable pub act : Table → ActionCommand → Run (ActionResult × Table)
act t c =
    if not (hand_is_running t.street) || is_showdown t.street
    then done (failure t action_not_allowed "no betting round is active", t)
    else act_by t c (acting_player t)
