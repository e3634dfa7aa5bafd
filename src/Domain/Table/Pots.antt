-- ===== src/Domain/Table/Pots.antt =====
-- `buildAndAwardPots` and `orderedClockwise`: side pots, their winners, and the odd chips.
use poker.Domain.Card.{Card}
use poker.Domain.Evaluator.{HandValue, evaluate_best, value_eq, value_lt}
use poker.Domain.Table.Seats.{count_players, seat_of, update_player}
use poker.Domain.Table.State.{Player, PotAward, Seats, Table, is_folded, is_waiting}
use poker.Prelude.{
  Bool, List, Option, Run, [], done, false, if◌then◌else◌, leb, length, ltb, map, none, not,
  or_throw, some, sub64, true, ℕ, ◌%◌, ◌&&◌, ◌*◌, ◌++◌, ◌+◌, ◌-◌, ◌/◌, ◌==◌, ◌>>=◌, ◌||◌, ◌∷◌,
}

-- The levels: the positive commitments, sorted, each once. Inserting one value after the other
-- gives the list that `std::sort` and `std::unique` give.
unfoldable pub insert_level : ℕ → List ℕ → List ℕ
insert_level x [] = x ∷ []
insert_level x (y ∷ ys) =
    if ltb x y then x ∷ y ∷ ys else if x == y then y ∷ ys else y ∷ insert_level x ys

unfoldable pub levels_of : Seats → List ℕ
levels_of [] = []
levels_of (none ∷ seats) = levels_of seats
levels_of (some p ∷ seats) =
    if ltb 0 p.hand_commitment
    then insert_level p.hand_commitment (levels_of seats)
    else levels_of seats

-- The loop over the seats for one level: the contributors and the eligible players.
unfoldable pub reaches : ℕ → Player → Bool
reaches level p = leb level p.hand_commitment

unfoldable pub is_eligible : ℕ → Player → Bool
is_eligible level p = reaches level p && (not (is_folded p.status) && not (is_waiting p.status))

unfoldable pub players_where : (Player → Bool) → Seats → List Player
players_where test [] = []
players_where test (none ∷ seats) = players_where test seats
players_where test (some p ∷ seats) =
    if test p then p ∷ players_where test seats else players_where test seats

-- The loop over the eligible players; `none` is `!initialized`.
unfoldable pub add_winner : Option HandValue → List ℕ → ℕ → HandValue → Option HandValue × List ℕ
add_winner none winners id value = (some value, id ∷ [])
add_winner (some best) winners id value =
    if value_lt best value
    then (some value, id ∷ [])
    else if value_eq value best
    then (some best, winners ++ (id ∷ []))
    else (some best, winners)

unfoldable pub pick_winners : List Card → Option HandValue → List ℕ → List Player → Run (List ℕ)
pick_winners board best winners [] = done winners
pick_winners board best winners (p ∷ players) =
    evaluate_best (board ++ (p.hole0 ∷ p.hole1 ∷ [])) >>= λ value.
    pick_winners board (add_winner best winners p.id value).0 (add_winner best winners p.id value).1
      players

-- The distance of `orderedClockwise`, on `std::size_t`; the dealer comes last.
unfoldable pub distance : Seats → ℕ → ℕ → ℕ
distance seats origin seat =
    let d = sub64 (seat + length seats) origin % length seats in if d == 0 then length seats else d

-- `seatOf(id).value()` for each id.
unfoldable pub distances : Seats → ℕ → List ℕ → Run (List (ℕ × ℕ))
distances seats origin [] = done []
distances seats origin (id ∷ ids) = or_throw (seat_of id seats) >>= λ seat.
    distances seats origin ids >>= λ rest. done ((distance seats origin seat, id) ∷ rest)

-- `std::sort` by distance. The distances are those of different seats, so every sorting algorithm
-- gives the same list.
unfoldable pub insert_near : ℕ × ℕ → List (ℕ × ℕ) → List (ℕ × ℕ)
insert_near x [] = x ∷ []
insert_near x (y ∷ ys) = if ltb x.0 y.0 then x ∷ y ∷ ys else y ∷ insert_near x ys

unfoldable pub sort_near : List (ℕ × ℕ) → List (ℕ × ℕ)
sort_near [] = []
sort_near (x ∷ xs) = insert_near x (sort_near xs)

abbrev pub value_or : Option ℕ → ℕ → ℕ
value_or none d = d
value_or (some n) d = n

unfoldable pub ordered_clockwise : Table → List ℕ → Run (List ℕ)
ordered_clockwise t ids = distances t.seats (value_or t.dealer_seat 0) ids >>= λ near.
    done (map (λ x. x.1) (sort_near near))

-- Paying the winners: an equal share each, and one odd chip to each of the first `odd`.
unfoldable pub add_stack : ℕ → Player → Player
add_stack n p = record p { stack = p.stack + n }

unfoldable pub pay_winners : ℕ → ℕ → ℕ → List ℕ → Seats → Seats
pay_winners share odd index [] seats = seats
pay_winners share odd index (id ∷ ids) seats =
    pay_winners share odd (index + 1) ids
      (update_player id (add_stack (share + (if ltb index odd then 1 else 0))) seats)

-- The shares of the winners: `winners.size()` divides the pot.
unfoldable pub pay_pot : Table → ℕ → List ℕ → Table × PotAward
pay_pot t pot winners =
    let share = pot / length winners in
    let odd = pot % length winners in
    (
      record t { seats = pay_winners share odd 0 winners t.seats },
      record { pot_size = pot; winners = winners; equal_share = share; odd_chips = odd },
    )

-- One pot with eligible players.
unfoldable pub award_pot : Table → ℕ → List Player → Run (Table × PotAward)
award_pot t pot eligible = pick_winners t.board none [] eligible >>= λ tied.
    ordered_clockwise t tied >>= λ winners. done (pay_pot t pot winners)

abbrev pub is_empty {ℓ} : {A : Type ℓ} → List A → Bool
is_empty [] = true
is_empty (x ∷ xs) = false

-- The loop over the levels.
unfoldable pub award_levels : ℕ → List ℕ → List PotAward → Table → Run (Table × List PotAward)
award_levels previous [] awards t = done (t, awards)
award_levels previous (level ∷ levels) awards t =
    let contributors = count_players (reaches level) t.seats in
    let eligible = players_where (is_eligible level) t.seats in
    let pot = (level - previous) * contributors in
    let skipped = award_levels level levels awards t in
    let awarded =
      award_pot t pot eligible >>= λ r. award_levels level levels (awards ++ (r.1 ∷ [])) r.0 in
    if pot == 0 || is_empty eligible then skipped else awarded

unfoldable pub build_and_award_pots : Table → Run (Table × List PotAward)
build_and_award_pots t = award_levels 0 (levels_of t.seats) [] t
