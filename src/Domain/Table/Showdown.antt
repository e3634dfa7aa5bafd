-- ===== src/Domain/Table/Showdown.antt =====
-- `buildAndAwardPots` against an independent account of what it pays.
use poker.Domain.Table.Levels.{
  Ascending, Fits, capped, eligible-none, eligible-some, levels_of-Ascending, levels_of-Fits,
  levels_of-Fits_zero, sum_capped_step, top_of, top_of-Fits,
}
use poker.Domain.Table.Payout.{IsPaid, award_pot-IsPaid, bets, without_stack}
use poker.Domain.Table.Pots.{
  award_levels, award_pot, build_and_award_pots, is_eligible, is_empty, levels_of, players_where,
  reaches,
}
use poker.Domain.Table.Seats.{count_players, map_players, sum_players}
use poker.Domain.Table.State.{Player, PotAward, Seats, Table}
use poker.Domain.Table.Sums.{
  AllPlayers, AllPlayers-map, AllPlayers-of, count-map_players, stack_of, sum-map_players, sum_cong,
}
use poker.Prelude.{
  >>=-eq-done, Bool-cases, List, [], ap, arith, done, false, inl, inr, leb, leb→le, min, none, refl,
  some, subst, sym, true, ℕ, ◌*◌, ◌++◌, ◌+◌, ◌-◌, ◌<◌, ◌==◌, ◌>>=◌, ◌||◌, ◌∙◌, ◌∷◌, ◌≡◌, ◌≤◌,
}

-- The functions of the levels look at commitments and statuses alone.
top_of-bets : (seats : Seats) → top_of (bets seats) ≡ top_of seats
unfolding top_of map_players is_eligible reaches
top_of-bets [] = refl
top_of-bets (none ∷ seats) = top_of-bets seats
top_of-bets (some p ∷ seats) = rw (top_of-bets seats) refl

players_where-bets :
    (level : ℕ) (seats : Seats)
    → is_empty (players_where (is_eligible level) (bets seats))
      ≡ is_empty (players_where (is_eligible level) seats)
unfolding players_where map_players is_eligible reaches
players_where-bets level [] = refl
players_where-bets level (none ∷ seats) = players_where-bets level seats
players_where-bets level (some p ∷ seats) = ground (arith, players_where-bets level seats)

count-bets :
    (level : ℕ) (seats : Seats)
    → count_players (reaches level) (bets seats) ≡ count_players (reaches level) seats
unfolding reaches
count-bets level seats = count-map_players (reaches level) without_stack seats (λ p. refl)

abbrev pub awarded : List PotAward → ℕ
awarded [] = 0
awarded (a ∷ awards) = a.pot_size + awarded awards

awarded-append : (xs ys : List PotAward) → awarded (xs ++ ys) ≡ awarded xs + awarded ys
awarded-append [] ys = omega arith
awarded-append (x ∷ xs) ys = omega (arith, awarded-append xs ys)

-- What the loop over the levels makes of the stacks and of the list of awards.
pub record PaidUpTo (due : ℕ) (awards : List PotAward) (t : Table) (r : Table × List PotAward)
    : Type 0 where
  pub paid : sum_players stack_of r.0.seats ≡ sum_players stack_of t.seats + due
  pub listed : awarded r.1 ≡ awarded awards + due
  pub kept : bets r.0.seats ≡ bets t.seats
  pub rest_same : r.0 ≡ record t { seats = r.0.seats }

capped_over :
    (top previous : ℕ) (seats : Seats)
    → top ≤ previous
    → sum_players (capped top previous) seats ≡ 0
unfolding sum_players
capped_over top previous [] h = refl
capped_over top previous (none ∷ seats) h = capped_over top previous seats h
capped_over top previous (some p ∷ seats) h = omega (arith, capped_over top previous seats h)

capped_last :
    (top previous : ℕ) (seats : Seats)
    → AllPlayers (λ p. Fits previous [] p.hand_commitment) seats
    → sum_players (capped top previous) seats ≡ 0
unfolding sum_players
capped_last top previous [] a = refl
capped_last top previous (none ∷ seats) a = capped_last top previous seats a
capped_last top previous (some p ∷ seats) (a, as') =
    omega (arith, capped_last top previous seats as')

module _ (previous level : ℕ) (levels : List ℕ) (base seats : Seats) (lt : previous < level)
    (fit : AllPlayers (λ p. Fits previous (level ∷ levels) p.hand_commitment) base)
    (top : Fits previous (level ∷ levels) (top_of base)) (b : bets seats ≡ base) where
  abbrev due : ℕ → ℕ
  due from = sum_players (capped (top_of base) from) base

  abbrev pot : ℕ
  pot = (level - previous) * count_players (reaches level) seats

  same_count : count_players (reaches level) base ≡ count_players (reaches level) seats
  same_count = ap (count_players (reaches level)) (sym b) ∙ count-bets level seats

  same_eligible :
      is_empty (players_where (is_eligible level) base)
      ≡ is_empty (players_where (is_eligible level) seats)
  same_eligible =
      ap (λ s. is_empty (players_where (is_eligible level) s)) (sym b)
      ∙ players_where-bets level seats

  due_reached : level ≤ top_of base → due previous ≡ pot + due level
  due_reached le =
      subst (λ n. due previous ≡ (level - previous) * n + due level) same_count
        (sum_capped_step (top_of base) previous level levels base lt le fit)

  due_skipped :
      (pot == 0 || is_empty (players_where (is_eligible level) seats)) ≡ true
      → due previous ≡ due level
  due_skipped h = elim (Bool-cases (leb level (top_of base))) [
    | inl in_ ↦
        let le = leb→le _ _ in_ in
        let nobody = eligible-some level base (omega arith) le in
        let zero_pot : pot ≡ 0 = ground (arith, same_eligible) in omega (arith, due_reached le)
    | inr over ↦
        let low : top_of base ≤ previous = ground (arith, top.0) in
        omega (
          arith,
          capped_over (top_of base) previous base low,
          capped_over (top_of base) level base (omega arith),
        )
  ]

  due_counted :
      is_empty (players_where (is_eligible level) seats) ≡ false → due previous ≡ pot + due level
  due_counted h = elim (Bool-cases (leb level (top_of base))) [
    | inl in_ ↦ due_reached (leb→le _ _ in_)
    | inr over ↦ let nobody = eligible-none level base (ground arith) in cc same_eligible
  ]

not-or :
    (pot : ℕ) (eligible : List Player)
    → (pot == 0 || is_empty eligible) ≡ false
    → is_empty eligible ≡ false
not-or pot eligible h = ground arith

PaidUpTo-next :
    (t : Table) (w : Table × PotAward) (r : Table × List PotAward) (size owed total : ℕ)
    (awards : List PotAward)
    → total ≡ size + owed
    → IsPaid t size w
    → PaidUpTo owed (awards ++ (w.1 ∷ [])) w.0 r
    → PaidUpTo total awards t r
PaidUpTo-next t w r size owed total awards e won later = record {
  paid = omega (arith, later.paid, won.paid);
  listed = omega (arith, later.listed, awarded-append awards (w.1 ∷ []), won.size);
  kept = later.kept ∙ won.kept;
  rest_same =
      later.rest_same
      ∙ ap {A = Table} {B = Table} (λ u. record u { seats = r.0.seats }) won.rest_same;
}

award_levels-PaidUpTo :
    (previous : ℕ) (levels : List ℕ) (awards : List PotAward) (base : Seats)
    → Ascending previous levels
    → AllPlayers (λ p. Fits previous levels p.hand_commitment) base
    → Fits previous levels (top_of base)
    → (t : Table) (r : Table × List PotAward) → bets t.seats ≡ base
    → award_levels previous levels awards t ≡ done r
    → PaidUpTo (sum_players (capped (top_of base) previous) base) awards t r
unfolding award_levels
award_levels-PaidUpTo previous [] awards base up fit top t r b e =
    let same : (t, awards) ≡ r = ground arith in
    subst (PaidUpTo _ awards t) same (record {
      paid = omega (arith, capped_last (top_of base) previous base fit);
      listed = omega (arith, capped_last (top_of base) previous base fit);
      kept = refl;
      rest_same = refl;
    })
award_levels-PaidUpTo previous (level ∷ levels) awards base up fit top t r b e =
    let contributors = count_players (reaches level) t.seats in
    let eligible = players_where (is_eligible level) t.seats in
    let pot = (level - previous) * contributors in
    let later = AllPlayers-map _ (λ p. Fits level levels p.hand_commitment) (λ p f. f.1) base fit in
    elim (Bool-cases (pot == 0 || is_empty eligible)) [
      | inl skipped ↦
          subst (λ due. PaidUpTo due awards t r)
            (sym (due_skipped previous level levels base t.seats up.0 fit top b skipped))
            (award_levels-PaidUpTo level levels awards base up.1 later top.1 t r b
              (rw skipped at e))
      | inr counted ↦
          let e' : (award_pot t pot eligible >>= λ w.
          award_levels level levels (awards ++ (w.1 ∷ [])) w.0)
              ≡ done r =
            rw counted at e in
          let (w, e1, e2) =
            >>=-eq-done (award_pot t pot eligible)
              (λ w. award_levels level levels (awards ++ (w.1 ∷ [])) w.0) e' in
          let won = award_pot-IsPaid t pot eligible w (not-or pot eligible counted) e1 in
          PaidUpTo-next t w r pot (sum_players (capped (top_of base) level) base)
            (sum_players (capped (top_of base) previous) base) awards
            (due_counted previous level levels base t.seats up.0 fit top b
              (not-or pot eligible counted))
            won
            (award_levels-PaidUpTo level levels (awards ++ (w.1 ∷ [])) base up.1 later top.1 w.0 r
              (won.kept ∙ b) e2)
    ]

levels_of-bets : (seats : Seats) → levels_of (bets seats) ≡ levels_of seats
unfolding levels_of map_players
levels_of-bets [] = refl
levels_of-bets (none ∷ seats) = levels_of-bets seats
levels_of-bets (some p ∷ seats) = rw (levels_of-bets seats) refl

due_of :
    (seats : Seats)
    → sum_players (capped (top_of (bets seats)) 0) (bets seats)
      ≡ sum_players (λ p. min p.hand_commitment (top_of seats)) seats
due_of seats = rw (top_of-bets seats) (
    sum-map_players (capped (top_of seats) 0) without_stack seats (λ p. refl)
    ∙ sum_cong (capped (top_of seats) 0) _ seats (AllPlayers-of _ (λ p. omega arith) seats))

-- The chips that the showdown pays out are, for each seat, its commitment up to the largest
-- commitment of a player still in; the awards list them, and only stacks change.
pub build_and_award_pots-pays :
    (t : Table) (r : Table × List PotAward)
    → build_and_award_pots t ≡ done r
    → PaidUpTo (sum_players (λ p. min p.hand_commitment (top_of t.seats)) t.seats) [] t r
unfolding build_and_award_pots
build_and_award_pots-pays t r e =
    let base = bets t.seats in
    let fit =
      subst (λ ls. AllPlayers (λ p. Fits 0 ls p.hand_commitment) base) (levels_of-bets t.seats)
        (levels_of-Fits base) in
    let zero_fits = subst (λ ls. Fits 0 ls 0) (levels_of-bets t.seats) (levels_of-Fits_zero base) in
    subst (λ due. PaidUpTo due [] t r) (due_of t.seats)
      (award_levels-PaidUpTo 0 (levels_of t.seats) [] base (levels_of-Ascending t.seats) fit
        (top_of-Fits 0 (levels_of t.seats) base zero_fits fit) t r refl e)
