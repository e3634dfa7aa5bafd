-- ===== src/Domain/Table/Levels.antt =====
-- The levels of the side pots: what the sorted commitments tell of the seats.
use poker.Domain.Table.Pots.{insert_level, is_eligible, is_empty, levels_of, players_where, reaches}
use poker.Domain.Table.Seats.{count_players, holds, sum_players}
use poker.Domain.Table.State.{Player, Seats}
use poker.Domain.Table.Sums.{AllPlayers, AllPlayers-map}
use poker.Prelude.{
  Bool, Bool-cases, List, [], arith, false, if◌then◌else◌, inl, inr, leb, leb→le, ltb, ltb→lt, max,
  min, none, refl, some, subst, true, ℕ, ◌*◌, ◌+◌, ◌-◌, ◌<◌, ◌==◌, ◌∷◌, ◌≡◌, ◌≤◌, ◌⊎◌,
}

abbrev pub Ascending : ℕ → List ℕ → Type 0
Ascending previous [] = Unit
Ascending previous (l ∷ ls) = (previous < l) × Ascending l ls

-- No commitment stands strictly between two levels next to each other, or above the last.
abbrev pub Fits : ℕ → List ℕ → ℕ → Type 0
Fits previous [] c = c ≤ previous
Fits previous (l ∷ ls) c = ((c ≤ previous) ⊎ (l ≤ c)) × Fits l ls c

Fits-below :
    (previous c : ℕ) (ls : List ℕ) → c ≤ previous → Ascending previous ls → Fits previous ls c
Fits-below previous c [] h a = h
Fits-below previous c (l ∷ ls) h a = (inl h, Fits-below l c ls (omega arith) a.1)

insert_level-Ascending :
    (previous x : ℕ) (ls : List ℕ)
    → previous < x
    → Ascending previous ls
    → Ascending previous (insert_level x ls)
unfolding insert_level
insert_level-Ascending previous x [] h a = (h, tt)
insert_level-Ascending previous x (l ∷ ls) h a = elim (Bool-cases (ltb x l)) [
  | inl lt ↦ rw lt (h, (ground arith, a.1))
  | inr ge ↦ elim (Bool-cases (x == l)) [
    | inl same ↦ rw (ge, same) a
    | inr more ↦ rw (ge, more) (a.0, insert_level-Ascending l x ls (ground arith) a.1)
  ]
]

insert_level-Fits_self :
    (previous x : ℕ) (ls : List ℕ)
    → previous < x
    → Ascending previous ls
    → Fits previous (insert_level x ls) x
unfolding insert_level
insert_level-Fits_self previous x [] h a = (inr (omega arith), omega arith)
insert_level-Fits_self previous x (l ∷ ls) h a = elim (Bool-cases (ltb x l)) [
  | inl lt ↦ rw lt (inr (omega arith), (inl (omega arith), Fits-below l x ls (ground arith) a.1))
  | inr ge ↦ elim (Bool-cases (x == l)) [
    | inl same ↦ rw (ge, same) (inr (ground arith), Fits-below l x ls (ground arith) a.1)
    | inr more ↦
        rw (ge, more) (inr (ground arith), insert_level-Fits_self l x ls (ground arith) a.1)
  ]
]

insert_level-Fits :
    (previous x c : ℕ) (ls : List ℕ)
    → previous < x
    → Ascending previous ls
    → Fits previous ls c
    → Fits previous (insert_level x ls) c
unfolding insert_level
insert_level-Fits previous x c [] h a f = (inl f, omega arith)
insert_level-Fits previous x c (l ∷ ls) h a f = elim (Bool-cases (ltb x l)) [
  | inl lt ↦ rw lt (ground arith, (ground arith, f.1))
  | inr ge ↦ elim (Bool-cases (x == l)) [
    | inl same ↦ rw (ge, same) f
    | inr more ↦ rw (ge, more) (f.0, insert_level-Fits l x c ls (ground arith) a.1 f.1)
  ]
]

pub levels_of-Ascending : (seats : Seats) → Ascending 0 (levels_of seats)
unfolding levels_of
levels_of-Ascending [] = tt
levels_of-Ascending (none ∷ seats) = levels_of-Ascending seats
levels_of-Ascending (some p ∷ seats) = elim (Bool-cases (ltb 0 p.hand_commitment)) [
  | inl paid ↦
      rw paid
        (insert_level-Ascending 0 p.hand_commitment _ (ground arith) (levels_of-Ascending seats))
  | inr free ↦ rw free (levels_of-Ascending seats)
]

pub levels_of-Fits_zero : (seats : Seats) → Fits 0 (levels_of seats) 0
levels_of-Fits_zero seats =
    Fits-below 0 0 (levels_of seats) (omega arith) (levels_of-Ascending seats)

levels_of-paid :
    (p : Player) (seats : Seats)
    → ltb 0 p.hand_commitment ≡ true
    → insert_level p.hand_commitment (levels_of seats) ≡ levels_of (some p ∷ seats)
unfolding levels_of
levels_of-paid p seats e = rw e refl

levels_of-free :
    (p : Player) (seats : Seats)
    → ltb 0 p.hand_commitment ≡ false
    → levels_of seats ≡ levels_of (some p ∷ seats)
unfolding levels_of
levels_of-free p seats e = rw e refl

abbrev AllFit : List ℕ → Seats → Type 0
AllFit ls seats = AllPlayers (λ q. Fits 0 ls q.hand_commitment) seats

levels_of-nothing : levels_of [] ≡ []
unfolding levels_of
levels_of-nothing = refl

levels_of-empty : (seats : Seats) → levels_of seats ≡ levels_of (none ∷ seats)
unfolding levels_of
levels_of-empty seats = refl

-- Each commitment fits the levels.
pub levels_of-Fits : (seats : Seats) → AllFit (levels_of seats) seats
levels_of-Fits [] = tt
levels_of-Fits (none ∷ seats) =
    subst (λ ls. AllFit ls seats) (levels_of-empty seats) (levels_of-Fits seats)
levels_of-Fits (some p ∷ seats) =
    let up = levels_of-Ascending seats in
    elim (Bool-cases (ltb 0 p.hand_commitment)) [
      | inl paid ↦
          let pos : 0 < p.hand_commitment = ltb→lt _ _ paid in
          subst (λ ls. AllFit ls (some p ∷ seats)) (levels_of-paid p seats paid)
            (
              insert_level-Fits_self 0 p.hand_commitment (levels_of seats) pos up,
              AllPlayers-map (λ q. Fits 0 (levels_of seats) q.hand_commitment) _
                  (λ q f.
                    insert_level-Fits 0 p.hand_commitment q.hand_commitment (levels_of seats) pos up
                      f)
                  seats (levels_of-Fits seats),
            )
      | inr free ↦
          subst (λ ls. AllFit ls (some p ∷ seats)) (levels_of-free p seats free)
            (
              Fits-below 0 p.hand_commitment (levels_of seats) (ground arith) up,
              levels_of-Fits seats,
            )
    ]

-- The largest commitment of a player who is still in: the level up to which pots can be won.
unfoldable pub top_of : Seats → ℕ
top_of [] = 0
top_of (none ∷ seats) = top_of seats
top_of (some p ∷ seats) = max (if is_eligible 0 p then p.hand_commitment else 0) (top_of seats)

-- A commitment between two bounds.
abbrev pub capped : ℕ → ℕ → Player → ℕ
capped top previous p = min p.hand_commitment top - previous

Fits-max :
    (previous : ℕ) (ls : List ℕ) (a b : ℕ)
    → Fits previous ls a
    → Fits previous ls b
    → Fits previous ls (max a b)
Fits-max previous [] a b f g = omega arith
Fits-max previous (l ∷ ls) a b f g = (ground arith, Fits-max l ls a b f.1 g.1)

pub top_of-Fits :
    (previous : ℕ) (ls : List ℕ) (seats : Seats)
    → Fits previous ls 0
    → AllPlayers (λ p. Fits previous ls p.hand_commitment) seats
    → Fits previous ls (top_of seats)
unfolding top_of
top_of-Fits previous ls [] z a = z
top_of-Fits previous ls (none ∷ seats) z a = top_of-Fits previous ls seats z a
top_of-Fits previous ls (some p ∷ seats) z a =
    Fits-max previous ls _ (top_of seats) (own (is_eligible 0 p))
      (top_of-Fits previous ls seats z a.1)
  where
    own : (b : Bool) → Fits previous ls (if b then p.hand_commitment else 0)
    own true = a.0
    own false = z

-- Where no one in has so much, nobody is eligible; and otherwise somebody is.
pub eligible-none :
    (level : ℕ) (seats : Seats)
    → top_of seats < level
    → is_empty (players_where (is_eligible level) seats) ≡ true
unfolding top_of players_where is_eligible reaches
eligible-none level [] h = refl
eligible-none level (none ∷ seats) h = eligible-none level seats h
eligible-none level (some p ∷ seats) h = ground (arith, eligible-none level seats)

pub eligible-some :
    (level : ℕ) (seats : Seats)
    → 0 < level
    → level ≤ top_of seats
    → is_empty (players_where (is_eligible level) seats) ≡ false
unfolding top_of players_where is_eligible reaches
eligible-some level [] z h = absurd (omega arith)
eligible-some level (none ∷ seats) z h = eligible-some level seats z h
eligible-some level (some p ∷ seats) z h = ground (arith, eligible-some level seats z)

capped_in :
    (c top previous level n rest now : ℕ)
    → previous < level
    → level ≤ top
    → level ≤ c
    → rest ≡ (level - previous) * n + now
    → (min c top - previous) + rest ≡ (level - previous) * (1 + n) + ((min c top - level) + now)
capped_in c top previous level n rest now lt le in_ e = omega arith

-- One level takes, from each player that reaches it, the step from the level before.
pub sum_capped_step :
    (top previous level : ℕ) (ls : List ℕ) (seats : Seats)
    → previous < level
    → level ≤ top
    → AllPlayers (λ p. Fits previous (level ∷ ls) p.hand_commitment) seats
    → sum_players (capped top previous) seats
      ≡ (level - previous) * count_players (reaches level) seats
        + sum_players (capped top level) seats
unfolding sum_players count_players holds reaches
sum_capped_step top previous level ls [] lt le a = omega arith
sum_capped_step top previous level ls (none ∷ seats) lt le a =
    omega (arith, sum_capped_step top previous level ls seats lt le a)
sum_capped_step top previous level ls (some p ∷ seats) lt le (a, as') =
    let rest = sum_capped_step top previous level ls seats lt le as' in
    elim (Bool-cases (leb level p.hand_commitment)) [
      | inl in_ ↦ rw in_ (
          capped_in p.hand_commitment top previous level (count_players (reaches level) seats) _ _
            lt le (leb→le _ _ in_) rest)
      | inr out ↦
          let low : p.hand_commitment < level = ground arith in rw out (ground (arith, rest, a.0))
    ]
