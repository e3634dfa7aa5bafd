-- ===== src/Domain/Table/Payout.antt =====
-- What the awards of a showdown pay.
use mathlib.Core.Option
use native.Mathlib.Nat.{div-add-mod, mod-lt}
use poker.Domain.Card.{Card}
use poker.Domain.Evaluator.{HandValue, evaluate_best}
use poker.Domain.Table.Pots.{
  add_stack, add_winner, award_pot, distance, distances, insert_near, is_empty, ordered_clockwise,
  pay_pot, pay_winners, pick_winners, sort_near, value_or,
}
use poker.Domain.Table.Seats.{find_player, has_id, map_players, seat_of, sum_players, update_player}
use poker.Domain.Table.State.{Player, PotAward, Seats, Table}
use poker.Domain.Table.Sums.{stack_of, sum-update_player}
use poker.Prelude.{
  >>=-eq-done, All, Bool-cases, List, Option, Option-cases, [], ap, arith, done, false,
  if◌then◌else◌, inl, inr, length, ltb, map, min, none, or_throw, refl, some, subst, suc, ℕ, ◌%◌,
  ◌*◌, ◌++◌, ◌+◌, ◌/◌, ◌<◌, ◌==◌, ◌>>=◌, ◌∙◌, ◌∷◌, ◌≡◌, ◌⊎◌,
}

-- The player with an id can be found.
abbrev IsFound : Seats → ℕ → Type 0
IsFound seats id = (p : Player) × (find_player id seats ≡ some p)

seat_of-IsFound : (id s : ℕ) (seats : Seats) → seat_of id seats ≡ some s → IsFound seats id
unfolding seat_of find_player has_id
seat_of-IsFound id s [] e = cc
seat_of-IsFound id s (none ∷ seats) e = elim (Option-cases (seat_of id seats)) [
  | inl missing ↦ let q : ◌≡◌ {A = Option ℕ} none (some s) = rw (missing, Option.map) at e in cc
  | inr (n, found) ↦ seat_of-IsFound id n seats found
]
seat_of-IsFound id s (some p ∷ seats) e = elim (Bool-cases (p.id == id)) [
  | inl hit ↦ (p, rw hit refl)
  | inr miss ↦ elim (Option-cases (seat_of id seats)) [
    | inl missing ↦
        let q : ◌≡◌ {A = Option ℕ} none (some s) = rw (miss, missing, Option.map) at e in cc
    | inr (n, found) ↦ let (q, f) = seat_of-IsFound id n seats found in (q, rw miss f)
  ]
]

find_player-update :
    (id j n : ℕ) (seats : Seats)
    → IsFound seats id
    → IsFound (update_player j (add_stack n) seats) id
unfolding find_player update_player has_id add_stack
find_player-update id j n [] (p, e) = cc
find_player-update id j n (none ∷ seats) (p, e) = find_player-update id j n seats (p, e)
find_player-update id j n (some q ∷ seats) (p, e) = elim (Bool-cases (q.id == j)) [
  | inl hit ↦ elim (Bool-cases (q.id == id)) [
    | inl own ↦ (record q { stack = q.stack + n }, rw (hit, own) refl)
    | inr other ↦ (p, rw (hit, other) (rw other at e))
  ]
  | inr miss ↦ elim (Bool-cases (q.id == id)) [
    | inl own ↦ (q, rw (miss, own) refl)
    | inr other ↦
        let (r, f) = find_player-update id j n seats (p, rw other at e) in (r, rw (miss, other) f)
  ]
]

All-IsFound-update :
    (ids : List ℕ) (j n : ℕ) (seats : Seats)
    → All (IsFound seats) ids
    → All (IsFound (update_player j (add_stack n) seats)) ids
All-IsFound-update [] j n seats a = tt
All-IsFound-update (id ∷ ids) j n seats (f, fs) =
    (find_player-update id j n seats f, All-IsFound-update ids j n seats fs)

-- Each winner gets the share, and as many odd chips go out as there are.
pay_winners-sum :
    (share odd index : ℕ) (ids : List ℕ) (seats : Seats)
    → All (IsFound seats) ids
    → sum_players stack_of (pay_winners share odd index ids seats) + min odd index
      ≡ sum_players stack_of seats + length ids * share + min odd (index + length ids)
unfolding pay_winners add_stack
pay_winners-sum share odd index [] seats a = omega arith
pay_winners-sum share odd index (id ∷ ids) seats ((p, f), fs) =
    let extra : ℕ = share + (if ltb index odd then 1 else 0) in
    let paid = sum-update_player stack_of (add_stack extra) seats id p f in
    let rest =
      pay_winners-sum share odd (index + 1) ids (update_player id (add_stack extra) seats)
        (All-IsFound-update ids id extra seats fs) in
    elim (Bool-cases (ltb index odd)) [
      | inl more ↦ ground (arith, paid, rest)
      | inr spent ↦ ground (arith, paid, rest)
    ]

-- Everything of a seat but its stack.
abbrev pub without_stack : Player → Player
without_stack p = record p { stack = 0 }

abbrev pub bets : Seats → Seats
bets seats = map_players without_stack seats

update_player-bets :
    (id n : ℕ) (seats : Seats) → bets (update_player id (add_stack n) seats) ≡ bets seats
unfolding update_player map_players add_stack has_id
update_player-bets id n [] = refl
update_player-bets id n (none ∷ seats) = ap (◌∷◌ none) (update_player-bets id n seats)
update_player-bets id n (some p ∷ seats) = elim (Bool-cases (p.id == id)) [
  | inl hit ↦ rw hit refl
  | inr miss ↦ rw miss (ap (◌∷◌ (some (without_stack p))) (update_player-bets id n seats))
]

pay_winners-bets :
    (share odd index : ℕ) (ids : List ℕ) (seats : Seats)
    → bets (pay_winners share odd index ids seats) ≡ bets seats
unfolding pay_winners
pay_winners-bets share odd index [] seats = refl
pay_winners-bets share odd index (id ∷ ids) seats =
    pay_winners-bets share odd (index + 1) ids _
    ∙ update_player-bets id (share + (if ltb index odd then 1 else 0)) seats

-- The winners: at least one where somebody is eligible, and each of them found.
add_winner-some :
    (b : Option HandValue) (ids : List ℕ) (id : ℕ) (v : HandValue)
    → (is_empty ids ≡ false) ⊎ (b ≡ none)
    → is_empty (add_winner b ids id v).1 ≡ false
unfolding add_winner
add_winner-some none ids id v h = refl
add_winner-some (some b) [] id v h = elim h [ inl e ↦ cc | inr e ↦ cc ]
add_winner-some (some b) (x ∷ ids) id v h = ground arith

pick_winners-some :
    (board : List Card) (b : Option HandValue) (ids ws : List ℕ) (players : List Player)
    → is_empty ids ≡ false
    → pick_winners board b ids players ≡ done ws
    → is_empty ws ≡ false
unfolding pick_winners
pick_winners-some board b ids ws [] h e = ground arith
pick_winners-some board b ids ws (p ∷ players) h e =
    let (v, _, rest) =
      >>=-eq-done (evaluate_best (board ++ (p.hole0 ∷ p.hole1 ∷ [])))
        (λ value.
          pick_winners board (add_winner b ids p.id value).0 (add_winner b ids p.id value).1
            players)
        e in
    pick_winners-some board (add_winner b ids p.id v).0 (add_winner b ids p.id v).1 ws players
      (add_winner-some b ids p.id v (inl h)) rest

pick_winners-first :
    (board : List Card) (ws : List ℕ) (players : List Player)
    → is_empty players ≡ false
    → pick_winners board none [] players ≡ done ws
    → is_empty ws ≡ false
unfolding pick_winners
pick_winners-first board ws [] h e = cc
pick_winners-first board ws (p ∷ players) h e =
    let (v, _, rest) =
      >>=-eq-done (evaluate_best (board ++ (p.hole0 ∷ p.hole1 ∷ [])))
        (λ value.
          pick_winners board (add_winner none [] p.id value).0 (add_winner none [] p.id value).1
            players)
        e in
    pick_winners-some board (add_winner none [] p.id v).0 (add_winner none [] p.id v).1 ws players
      (add_winner-some none [] p.id v (inr refl)) rest

abbrev FoundAt : Seats → ℕ × ℕ → Type 0
FoundAt seats x = IsFound seats x.1

pub or_throw-done : {A : Type 0} (o : Option A) (a : A) → or_throw o ≡ done a → o ≡ some a
or_throw-done none a h = cc
or_throw-done (some b) a h = cc

distances-IsFound :
    (seats : Seats) (origin : ℕ) (ids : List ℕ) (near : List (ℕ × ℕ))
    → distances seats origin ids ≡ done near
    → (length near ≡ length ids) × All (FoundAt seats) near
unfolding distances
distances-IsFound seats origin [] near e =
    let same : [] ≡ near = ground arith in
    subst (λ ns. (length ns ≡ 0) × All (FoundAt seats) ns) same (refl, tt)
distances-IsFound seats origin (id ∷ ids) near e =
    let (s, found, e1) =
      >>=-eq-done (or_throw (seat_of id seats))
        (λ seat.
          distances seats origin ids >>= λ rest. done ((distance seats origin seat, id) ∷ rest))
        e in
    let (rest, e2, e3) =
      >>=-eq-done (distances seats origin ids) (λ rest. done ((distance seats origin s, id) ∷ rest))
        e1 in
    let (n, a) = distances-IsFound seats origin ids rest e2 in
    let same : (distance seats origin s, id) ∷ rest ≡ near = ground arith in
    subst (λ ns. (length ns ≡ suc (length ids)) × All (FoundAt seats) ns) same
      (ap suc n, (seat_of-IsFound id s seats (or_throw-done (seat_of id seats) s found), a))

insert_near-length : (x : ℕ × ℕ) (xs : List (ℕ × ℕ)) → length (insert_near x xs) ≡ suc (length xs)
unfolding insert_near
insert_near-length x [] = refl
insert_near-length x (y ∷ ys) = elim (Bool-cases (ltb x.0 y.0)) [
  | inl near ↦ rw near refl
  | inr far ↦ rw far (ap suc (insert_near-length x ys))
]

insert_near-All :
    (P : ℕ × ℕ → Type 0) (x : ℕ × ℕ) (xs : List (ℕ × ℕ)) → P x → All P xs → All P (insert_near x xs)
unfolding insert_near
insert_near-All P x [] p a = (p, tt)
insert_near-All P x (y ∷ ys) p (q, qs) = elim (Bool-cases (ltb x.0 y.0)) [
  | inl near ↦ rw near (p, (q, qs))
  | inr far ↦ rw far (q, insert_near-All P x ys p qs)
]

sort_near-All :
    (P : ℕ × ℕ → Type 0) (xs : List (ℕ × ℕ))
    → All P xs
    → (length (sort_near xs) ≡ length xs) × All P (sort_near xs)
unfolding sort_near
sort_near-All P [] a = (refl, tt)
sort_near-All P (x ∷ xs) (p, ps) =
    let (n, a) = sort_near-All P xs ps in
    (insert_near-length x (sort_near xs) ∙ ap suc n, insert_near-All P x (sort_near xs) p a)

ids-IsFound :
    (seats : Seats) (near : List (ℕ × ℕ))
    → All (FoundAt seats) near
    → (length (map (λ (x : ℕ × ℕ). x.1) near) ≡ length near)
      × All (IsFound seats) (map (λ (x : ℕ × ℕ). x.1) near)
ids-IsFound seats [] a = (refl, tt)
ids-IsFound seats (x ∷ near) (f, fs) = let (n, a) = ids-IsFound seats near fs in (ap suc n, (f, a))

ordered_clockwise-IsFound :
    (t : Table) (ids ws : List ℕ)
    → ordered_clockwise t ids ≡ done ws
    → (length ws ≡ length ids) × All (IsFound t.seats) ws
unfolding ordered_clockwise
ordered_clockwise-IsFound t ids ws e =
    let origin = value_or t.dealer_seat 0 in
    let (near, e1, e2) =
      >>=-eq-done (distances t.seats origin ids)
        (λ near. done (map (λ (x : ℕ × ℕ). x.1) (sort_near near))) e in
    let (n, a) = distances-IsFound t.seats origin ids near e1 in
    let (m, b) = sort_near-All (FoundAt t.seats) near a in
    let (k, c) = ids-IsFound t.seats (sort_near near) b in
    subst (λ xs. (length xs ≡ length ids) × All (IsFound t.seats) xs) (ground arith) (k ∙ m ∙ n, c)

pay_pot-paid :
    (t : Table) (pot : ℕ) (ws : List ℕ)
    → 0 < length ws
    → All (IsFound t.seats) ws
    → sum_players stack_of (pay_pot t pot ws).0.seats ≡ sum_players stack_of t.seats + pot
unfolding pay_pot
pay_pot-paid t pot ws h a =
    let n = length ws in
    omega
      (arith, pay_winners-sum (pot / n) (pot % n) 0 ws t.seats a, div-add-mod pot n, mod-lt pot h)

-- One pot is paid out whole, and nothing but stacks changes.
pub record IsPaid (t : Table) (pot : ℕ) (r : Table × PotAward) : Type 0 where
  pub paid : sum_players stack_of r.0.seats ≡ sum_players stack_of t.seats + pot
  pub kept : bets r.0.seats ≡ bets t.seats
  pub rest_same : r.0 ≡ record t { seats = r.0.seats }
  pub size : r.1.pot_size ≡ pot

not-empty-length : {A : Type 0} (xs : List A) → is_empty xs ≡ false → 0 < length xs
not-empty-length [] h = cc
not-empty-length (x ∷ xs) h = omega arith

pay_pot-IsPaid :
    (t : Table) (pot : ℕ) (ws : List ℕ)
    → 0 < length ws
    → All (IsFound t.seats) ws
    → IsPaid t pot (pay_pot t pot ws)
unfolding pay_pot
pay_pot-IsPaid t pot ws h a = record {
  paid = pay_pot-paid t pot ws h a;
  kept = pay_winners-bets (pot / length ws) (pot % length ws) 0 ws t.seats;
  rest_same = refl;
  size = refl;
}

pub award_pot-IsPaid :
    (t : Table) (pot : ℕ) (eligible : List Player) (r : Table × PotAward)
    → is_empty eligible ≡ false
    → award_pot t pot eligible ≡ done r
    → IsPaid t pot r
unfolding award_pot
award_pot-IsPaid t pot eligible r h e =
    let (tied, e1, e2) =
      >>=-eq-done (pick_winners t.board none [] eligible)
        (λ tied. ordered_clockwise t tied >>= λ winners. done (pay_pot t pot winners)) e in
    let (ws, e3, e4) =
      >>=-eq-done (ordered_clockwise t tied) (λ winners. done (pay_pot t pot winners)) e2 in
    let (n, found) = ordered_clockwise-IsFound t tied ws e3 in
    let some_tied = not-empty-length tied (pick_winners-first t.board tied eligible h e1) in
    let same : pay_pot t pot ws ≡ r = ground arith in
    subst (IsPaid t pot) same (pay_pot-IsPaid t pot ws (omega (arith, n, some_tied)) found)
