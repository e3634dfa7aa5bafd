-- ===== src/Domain/Table/FoldWin.antt =====
-- `settleFoldWin` of src/poker/domain/table.cpp: who wins, and what the others keep.
use mathlib.Core.Option
use poker.Domain.Table.Conservation.{won_by_fold}
use poker.Domain.Table.Pots.{add_stack}
use poker.Domain.Table.Seats.{
  contenders, count_players, map_players, player_at, pot_size, update_seat,
}
use poker.Domain.Table.State.{Player, Seats, Table, is_contender, settled}
use poker.Domain.Table.Street.{first_contender, mark_settled, not_ready, settle_fold_win}
use poker.Prelude.{
  Bool-cases, Option, [], ap, arith, done, inl, inr, none, or_throw, refl, some, suc, true, zero,
  false, ℕ, ◌∷◌, ◌≡◌, ◌≢◌,
}

no_contender :
    (seats : Seats) (j : ℕ) (q : Player)
    → contenders seats ≡ 0
    → player_at seats j ≡ some q
    → is_contender q ≡ false
unfolding contenders count_players player_at
no_contender [] j q h e = cc
no_contender (none ∷ seats) zero q h e = cc
no_contender (none ∷ seats) (suc j) q h e = no_contender seats j q (omega (arith, h)) e
no_contender (some p ∷ seats) zero q h e = elim (Bool-cases (is_contender p)) [
  | inl in_ ↦ let h' = rw in_ at h in absurd (omega (arith, h'))
  | inr out ↦ let same : p ≡ q = cc in rw⁻¹ same out
]
no_contender (some p ∷ seats) (suc j) q h e = no_contender seats j q (omega (arith, h)) e

-- Of the players in the seats, this one alone is in the hand.
pub record IsSole (seats : Seats) (i : ℕ) (p : Player) : Type 0 where
  pub here : player_at seats i ≡ some p
  pub is_in : is_contender p ≡ true
  pub only : (j : ℕ) (q : Player) → player_at seats j ≡ some q → is_contender q ≡ true → j ≡ i

Found : Seats → Type 0
Found seats = (i : ℕ) × (p : Player) × (first_contender seats ≡ some (i, p)) × IsSole seats i p

Found-later :
    (s : Option Player) (seats : Seats)
    → ((q : Player) → s ≡ some q → is_contender q ≡ false)
    → Found seats
    → Found (s ∷ seats)
unfolding Found first_contender player_at
Found-later s seats out (i, p, found, sole) =
    (suc i, p, passes s out, record { here = sole.here; is_in = sole.is_in; only = later })
  where
    passes :
        (s : Option Player)
        → ((q : Player) → s ≡ some q → is_contender q ≡ false)
        → first_contender (s ∷ seats) ≡ some (suc i, p)
    passes none out = rw (found, Option.map) refl
    passes (some q) out = rw (out q refl, found, Option.map) refl

    later :
        (j : ℕ) (q : Player) → player_at (s ∷ seats) j ≡ some q → is_contender q ≡ true → j ≡ suc i
    later zero q e in_ = let o = out q e in cc
    later (suc j) q e in_ = ap suc (sole.only j q e in_)

first_contender-IsSole : (seats : Seats) → contenders seats ≡ 1 → Found seats
unfolding Found contenders count_players first_contender player_at
first_contender-IsSole [] h = cc
first_contender-IsSole (none ∷ seats) h =
    Found-later none seats (λ q e. cc) (first_contender-IsSole seats (omega (arith, h)))
first_contender-IsSole (some p ∷ seats) h = elim (Bool-cases (is_contender p)) [
  | inr out ↦
      Found-later (some p) seats (λ q e. let same : p ≡ q = cc in rw⁻¹ same out)
        (first_contender-IsSole seats (let h' = rw out at h in omega (arith, h')))
  | inl in_ ↦
      let rest : contenders seats ≡ 0 = let h' = rw in_ at h in omega (arith, h') in
      (0, p, rw in_ refl, record { here = refl; is_in = in_; only = alone rest })
]
  where
    alone :
        contenders seats ≡ 0
        → (j : ℕ) (q : Player) → player_at (some p ∷ seats) j ≡ some q
        → is_contender q ≡ true
        → j ≡ 0
    alone rest zero q e c = refl
    alone rest (suc j) q e c = let o = no_contender seats j q rest e in cc

player_at-map_players :
    (f : Player → Player) (seats : Seats) (j : ℕ)
    → player_at (map_players f seats) j ≡ Option.map f (player_at seats j)
unfolding map_players player_at
player_at-map_players f [] j = refl
player_at-map_players f (s ∷ seats) zero = refl
player_at-map_players f (s ∷ seats) (suc j) = player_at-map_players f seats j

player_at-update_seat :
    (f : Player → Player) (seats : Seats) (i : ℕ)
    → player_at (update_seat i f seats) i ≡ Option.map f (player_at seats i)
unfolding update_seat player_at
player_at-update_seat f [] i = refl
player_at-update_seat f (s ∷ seats) zero = refl
player_at-update_seat f (s ∷ seats) (suc i) = player_at-update_seat f seats i

player_at-other :
    (f : Player → Player) (seats : Seats) (i j : ℕ)
    → j ≢ i
    → player_at (update_seat i f seats) j ≡ player_at seats j
unfolding update_seat player_at
player_at-other f [] i j n = refl
player_at-other f (s ∷ seats) zero zero n = absurd (n refl)
player_at-other f (s ∷ seats) zero (suc j) n = refl
player_at-other f (s ∷ seats) (suc i) zero n = refl
player_at-other f (s ∷ seats) (suc i) (suc j) n = player_at-other f seats i j (λ e. n (ap suc e))

-- What the settlement does, by the seats.
pub record IsFoldWin (t u : Table) : Type 0 where
  pub seat : ℕ
  pub player : Player
  pub sole : IsSole t.seats seat player
  pub paid : player_at u.seats seat ≡ some (not_ready (add_stack (pot_size t.seats) player))
  pub others : (j : ℕ) → j ≢ seat → player_at u.seats j ≡ Option.map not_ready (player_at t.seats j)
  pub awards :
      u.last_awards
      ≡ record {
        pot_size = pot_size t.seats;
        winners = player.id ∷ [];
        equal_share = pot_size t.seats;
        odd_chips = 0;
      }
        ∷ []
  pub over : u.street ≡ settled

-- Where just one player is left in the hand, the settlement by folding returns: it adds the whole pot to
-- the stack of that player and names it the only winner, every other seat keeps its player and chips,
-- and the hand is settled.
pub settle_fold_win-IsFoldWin :
    (t : Table)
    → contenders t.seats ≡ 1
    → (u : Table) × (settle_fold_win t ≡ done u) × IsFoldWin t u
unfolding settle_fold_win won_by_fold mark_settled Found
settle_fold_win-IsFoldWin t h =
    let (i, p, found, sole) = first_contender-IsSole t.seats h in
    let add = add_stack (pot_size t.seats) in
    (
      won_by_fold t (i, p),
      rw (found, or_throw) refl,
      record {
        seat = i;
        player = p;
        sole = sole;
        paid =
            rw
              (
                player_at-map_players not_ready (update_seat i add t.seats) i,
                player_at-update_seat add t.seats i,
                sole.here,
              )
              refl;
        others = λ j n.
            rw
              (
                player_at-map_players not_ready (update_seat i add t.seats) j,
                player_at-other add t.seats i j n,
              )
              refl;
        awards = refl;
        over = refl;
      },
    )
