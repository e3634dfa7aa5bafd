-- ===== src/Domain/Table/Sums.antt =====
-- Sums and counts over the seats, under the ways in which the code changes them.
use poker.Domain.Table.Seats.{
  count_players, find_player, holds, map_players, player_at, pot_size, sum_players, total_chips,
  update_player, update_seat,
}
use poker.Domain.Table.State.{Player, Seats, Table, is_settled}
use poker.Prelude.{
  Bool, Bool-cases, [], arith, false, inl, inr, none, refl, some, suc, true, zero, ℕ, ◌+◌, ◌==◌,
  ◌∷◌, ◌≡◌,
}

abbrev pub AllPlayers : (Player → Type 0) → Seats → Type 0
AllPlayers P [] = Unit
AllPlayers P (none ∷ seats) = AllPlayers P seats
AllPlayers P (some p ∷ seats) = P p × AllPlayers P seats

module _ (f : Player → ℕ) where
  pub sum-map_players :
      (g : Player → Player) (seats : Seats)
      → ((p : Player) → f (g p) ≡ f p)
      → sum_players f (map_players g seats) ≡ sum_players f seats
  unfolding sum_players map_players
  sum-map_players g [] h = refl
  sum-map_players g (none ∷ seats) h = sum-map_players g seats h
  sum-map_players g (some p ∷ seats) h = omega (arith, h p, sum-map_players g seats h)

  pub sum-update_seat :
      (g : Player → Player) (seats : Seats) (i : ℕ) (p : Player)
      → player_at seats i ≡ some p
      → sum_players f (update_seat i g seats) + f p ≡ sum_players f seats + f (g p)
  unfolding sum_players update_seat player_at
  sum-update_seat g [] i p e = cc
  sum-update_seat g (none ∷ seats) zero p e = cc
  sum-update_seat g (some q ∷ seats) zero p e =
      let same : q ≡ p = ground arith in rw same (omega arith)
  sum-update_seat g (none ∷ seats) (suc i) p e = sum-update_seat g seats i p e
  sum-update_seat g (some q ∷ seats) (suc i) p e = omega (arith, sum-update_seat g seats i p e)

  pub sum-update_player :
      (g : Player → Player) (seats : Seats) (id : ℕ) (p : Player)
      → find_player id seats ≡ some p
      → sum_players f (update_player id g seats) + f p ≡ sum_players f seats + f (g p)
  unfolding sum_players update_player find_player
  sum-update_player g [] id p e = cc
  sum-update_player g (none ∷ seats) id p e = sum-update_player g seats id p e
  sum-update_player g (some q ∷ seats) id p e = elim (Bool-cases (q.id == id)) [
    | inl hit ↦ let same : q ≡ p = ground arith in rw hit (rw same (omega arith))
    | inr miss ↦ rw miss (omega (arith, sum-update_player g seats id p (rw miss at e)))
  ]

pub sum-add :
    (f g : Player → ℕ) (seats : Seats)
    → sum_players (λ p. f p + g p) seats ≡ sum_players f seats + sum_players g seats
unfolding sum_players
sum-add f g [] = omega arith
sum-add f g (none ∷ seats) = sum-add f g seats
sum-add f g (some p ∷ seats) = omega (arith, sum-add f g seats)

pub sum_cong :
    (f g : Player → ℕ) (seats : Seats)
    → AllPlayers (λ p. f p ≡ g p) seats
    → sum_players f seats ≡ sum_players g seats
unfolding sum_players
sum_cong f g [] a = refl
sum_cong f g (none ∷ seats) a = sum_cong f g seats a
sum_cong f g (some p ∷ seats) a = omega (arith, a.0, sum_cong f g seats a.1)

pub AllPlayers-map :
    (P Q : Player → Type 0)
    → ((p : Player) → P p → Q p)
    → (seats : Seats) → AllPlayers P seats
    → AllPlayers Q seats
AllPlayers-map P Q h [] a = tt
AllPlayers-map P Q h (none ∷ seats) a = AllPlayers-map P Q h seats a
AllPlayers-map P Q h (some p ∷ seats) a = (h p a.0, AllPlayers-map P Q h seats a.1)

pub AllPlayers-of :
    (P : Player → Type 0) → ((p : Player) → P p) → (seats : Seats) → AllPlayers P seats
AllPlayers-of P h [] = tt
AllPlayers-of P h (none ∷ seats) = AllPlayers-of P h seats
AllPlayers-of P h (some p ∷ seats) = (h p, AllPlayers-of P h seats)

pub count-map_players :
    (test : Player → Bool) (g : Player → Player) (seats : Seats)
    → ((p : Player) → test (g p) ≡ test p)
    → count_players test (map_players g seats) ≡ count_players test seats
unfolding count_players map_players holds
count-map_players test g [] h = refl
count-map_players test g (none ∷ seats) h = omega (arith, count-map_players test g seats h)
count-map_players test g (some p ∷ seats) h = rw (h p, count-map_players test g seats h) refl

-- What a seat holds and has put into the pot.
abbrev pub held : Player → ℕ
held p = p.stack + p.hand_commitment

abbrev pub stack_of : Player → ℕ
stack_of p = p.stack

abbrev pub committed : Player → ℕ
committed p = p.hand_commitment

abbrev pub all_held : Seats → ℕ
all_held seats = sum_players held seats

pub all_held-split : (seats : Seats) → all_held seats ≡ sum_players stack_of seats + pot_size seats
unfolding pot_size
all_held-split seats = sum-add stack_of committed seats

-- In a hand `totalChips` counts stacks and commitments, and after it the stacks alone.
pub total_chips-running :
    (t : Table) → is_settled t.street ≡ false → total_chips t ≡ all_held t.seats
unfolding total_chips
total_chips-running t e = rw e refl

pub total_chips-settled :
    (t : Table) → is_settled t.street ≡ true → total_chips t ≡ sum_players stack_of t.seats
unfolding total_chips
total_chips-settled t e =
    rw e (sum_cong _ stack_of t.seats (AllPlayers-of _ (λ p. omega arith) t.seats))
