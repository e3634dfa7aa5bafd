-- ===== src/Domain/Table/Seats.antt =====
-- The seats as a vector of optional players: lookups, scans, and the sets of ids.
use mathlib.Core.Option
use poker.Domain.Table.State.{
  Player, PlayerStatus, Seats, Table, active, can_act, folded, is_active, is_contender, is_settled,
}
use poker.Prelude.{
  Bool, List, Option, [], false, if◌then◌else◌, length, none, some, suc, true, zero, ℕ, ◌%◌, ◌&&◌,
  ◌+◌, ◌==◌, ◌||◌, ◌∷◌,
}

-- Set of player ids: `count(id) > 0`, `insert`, `erase`.
unfoldable pub member : ℕ → List ℕ → Bool
member id [] = false
member id (x ∷ xs) = id == x || member id xs

unfoldable pub insert_id : ℕ → List ℕ → List ℕ
unfolding member
insert_id id xs = if member id xs then xs else id ∷ xs

unfoldable pub erase_id : ℕ → List ℕ → List ℕ
erase_id id [] = []
erase_id id (x ∷ xs) = if id == x then erase_id id xs else x ∷ erase_id id xs

-- `seats_[i]`, where it holds a player.
unfoldable pub player_at : Seats → ℕ → Option Player
player_at [] i = none
player_at (s ∷ seats) zero = s
player_at (s ∷ seats) (suc i) = player_at seats i

-- A change of the player in seat `i` through a reference.
unfoldable pub update_seat : ℕ → (Player → Player) → Seats → Seats
update_seat i f [] = []
update_seat zero f (s ∷ seats) = Option.map f s ∷ seats
update_seat (suc i) f (s ∷ seats) = s ∷ update_seat i f seats

-- A loop over the seats that changes every player.
unfoldable pub map_players : (Player → Player) → Seats → Seats
map_players f [] = []
map_players f (s ∷ seats) = Option.map f s ∷ map_players f seats

unfoldable pub has_id : ℕ → Option Player → Bool
has_id id none = false
has_id id (some p) = p.id == id

-- `findPlayer`: the first player with the id.
unfoldable pub find_player : ℕ → Seats → Option Player
unfolding has_id
find_player id [] = none
find_player id (s ∷ seats) = if has_id id s then s else find_player id seats

-- A change through the pointer that `findPlayer` returns.
unfoldable pub update_player : ℕ → (Player → Player) → Seats → Seats
unfolding has_id
update_player id f [] = []
update_player id f (s ∷ seats) =
    if has_id id s then Option.map f s ∷ seats else s ∷ update_player id f seats

-- `seatOf`.
unfoldable pub seat_of : ℕ → Seats → Option ℕ
unfolding has_id
seat_of id [] = none
seat_of id (s ∷ seats) = if has_id id s then some 0 else Option.map suc (seat_of id seats)

unfoldable pub holds : (Player → Bool) → Option Player → Bool
holds test none = false
holds test (some p) = test p

-- `std::count_if` over the seats.
unfoldable pub count_players : (Player → Bool) → Seats → ℕ
unfolding holds
count_players test [] = 0
count_players test (s ∷ seats) = (if holds test s then 1 else 0) + count_players test seats

-- The ids of the players that pass a test, inserted in the order of the seats.
unfoldable pub insert_players : (Player → Bool) → Seats → List ℕ → List ℕ
unfolding insert_id
insert_players test [] ids = ids
insert_players test (none ∷ seats) ids = insert_players test seats ids
insert_players test (some p ∷ seats) ids =
    insert_players test seats (if test p then insert_id p.id ids else ids)

-- The seats from `index` on whose player passes a test.
unfoldable pub seats_where : (Player → Bool) → ℕ → Seats → List ℕ
unfolding holds
seats_where test index [] = []
seats_where test index (s ∷ seats) =
    if holds test s
    then index ∷ seats_where test (index + 1) seats
    else seats_where test (index + 1) seats

-- The scans of `nextParticipatingSeat` and `nextCanActSeat`: the first seat that passes, going
-- round from the seat after `from`; `left` offsets are still to try.
unfoldable pub scan : (Player → Bool) → Seats → ℕ → ℕ → ℕ → Option ℕ
unfolding holds player_at
scan test seats from offset zero = none
scan test seats from offset (suc left) =
    let index = (from + offset) % length seats in
    let later = scan test seats from (offset + 1) left in
    if holds test (player_at seats index) then some index else later

unfoldable pub next_seat : (Player → Bool) → Seats → ℕ → Option ℕ
unfolding scan
next_seat test seats from = scan test seats from 1 (length seats)

-- The statuses of `nextParticipatingSeat`.
unfoldable pub is_dealt_in : Player → Bool
is_dealt_in p = elim p.status [
  | active ↦ true
  | PlayerStatus.all_in ↦ true
  | folded ↦ true
  | _ ↦ false
]

unfoldable pub participating_seats : Seats → List ℕ
unfolding seats_where is_active
participating_seats = seats_where (λ p. is_active p.status) 0

unfoldable pub next_participating_seat : Seats → ℕ → Option ℕ
unfolding next_seat is_dealt_in
next_participating_seat = next_seat is_dealt_in

unfoldable pub next_can_act_seat : Table → ℕ → Option ℕ
unfolding next_seat can_act member
next_can_act_seat t = next_seat (λ p. can_act p && member p.id t.pending_action) t.seats

-- `firstPostflopActor`.
unfoldable pub first_postflop_actor : Table → Option ℕ
unfolding next_can_act_seat
first_postflop_actor t = elim t.dealer_seat [ none ↦ none | some d ↦ next_can_act_seat t d ]

-- `contenders`, and the count of the players that can act.
unfoldable pub contenders : Seats → ℕ
unfolding count_players is_contender
contenders = count_players is_contender

unfoldable pub actionable : Seats → ℕ
unfolding count_players can_act
actionable = count_players can_act

unfoldable pub sum_players : (Player → ℕ) → Seats → ℕ
sum_players f [] = 0
sum_players f (none ∷ seats) = sum_players f seats
sum_players f (some p ∷ seats) = f p + sum_players f seats

-- `potSize`.
unfoldable pub pot_size : Seats → ℕ
unfolding sum_players
pot_size = sum_players (λ p. p.hand_commitment)

-- `totalChips`.
unfoldable pub total_chips : Table → ℕ
unfolding sum_players is_settled
total_chips t =
    sum_players (λ p. p.stack + (if is_settled t.street then 0 else p.hand_commitment)) t.seats
