-- ===== src/Domain/Table/Seating.antt =====
-- Taking and leaving a seat, readiness, and the connection.
use poker.Domain.Card.{card}
use poker.Domain.Table.Seats.{find_player, player_at, seat_of, update_player}
use poker.Domain.Table.State.{
  Player, PlayerStatus, Table, TableError, config_is_valid, hand_in_progress, hand_is_running,
  invalid_buy_in, invalid_configuration, is_waiting, ok, player_already_seated, player_not_found,
  seat_occupied, seat_out_of_range,
}
use poker.Prelude.{
  Bool, Option, false, if◌then◌else◌, inc64, leb, leb_ℤ, length, ltb_ℤ, none, not, pos_part, set,
  some, true, ℕ, ℤ, ◌&&◌, ◌==◌, ◌||◌,
}

-- `Player player;` with its id, seat and stack.
unfoldable pub new_player : ℕ → ℕ → ℕ → Player
new_player id seat stack = record {
  id = id;
  seat = seat;
  stack = stack;
  street_commitment = 0;
  hand_commitment = 0;
  status = PlayerStatus.waiting;
  ready = false;
  connected = true;
  hole0 = card 2 0;
  hole1 = card 2 0;
  has_hole = false;
}

abbrev pub is_some : {A : Type 0} → Option A → Bool
is_some none = false
is_some (some a) = true

-- `++server_sequence_`.
abbrev pub bump : Table → Table
bump t = record t { server_sequence = inc64 t.server_sequence }

unfoldable pub seat_player : Table → ℕ → ℕ → ℤ → TableError × Table
unfolding config_is_valid hand_is_running find_player player_at new_player
seat_player t id seat buy_in =
    if not (config_is_valid t.config)
    then (invalid_configuration, t)
    else if hand_is_running t.street
    then (hand_in_progress, t)
    else if leb (length t.seats) seat
    then (seat_out_of_range, t)
    else if is_some (find_player id t.seats)
    then (player_already_seated, t)
    else if is_some (player_at t.seats seat)
    then (seat_occupied, t)
    else if ltb_ℤ buy_in t.config.min_buy_in || not (leb_ℤ buy_in t.config.max_buy_in)
    then (invalid_buy_in, t)
    else (
      ok,
      bump (record t { seats = set t.seats seat (some (new_player id seat (pos_part buy_in))) }),
    )

-- Comparing `std::optional<std::size_t>`.
abbrev pub same_seat : Option ℕ → ℕ → Bool
same_seat none i = false
same_seat (some j) i = j == i

abbrev pub may_stay : Option Player → Bool
may_stay none = false
may_stay (some p) = not (is_waiting p.status)

unfoldable pub remove_player : Table → ℕ → TableError × Table
unfolding seat_of hand_is_running player_at is_waiting
remove_player t id = elim (seat_of id t.seats) [
  | none ↦ (player_not_found, t)
  | some i ↦
      if hand_is_running t.street && may_stay (player_at t.seats i)
      then (hand_in_progress, t)
      else (
        ok,
        bump (record t {
          seats = set t.seats i none;
          dealer_seat = if same_seat t.dealer_seat i then none else t.dealer_seat;
        }),
      )
]

unfoldable pub set_ready : Table → ℕ → Bool → TableError × Table
unfolding hand_is_running find_player update_player
set_ready t id ready =
    if hand_is_running t.street then (hand_in_progress, t) else elim (find_player id t.seats) [
      | none ↦ (player_not_found, t)
      | some p ↦ if ready && p.stack == 0 then (invalid_buy_in, t) else (
        ok,
        bump (record t { seats = update_player id (λ q. record q { ready = ready }) t.seats }),
      )
    ]

unfoldable pub set_connected : Table → ℕ → Bool → TableError × Table
unfolding find_player update_player
set_connected t id connected = elim (find_player id t.seats) [
  | none ↦ (player_not_found, t)
  | some p ↦ (
    ok,
    bump (record t { seats = update_player id (λ q. record q { connected = connected }) t.seats }),
  )
]
