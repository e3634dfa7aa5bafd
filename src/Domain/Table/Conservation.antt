-- ===== src/Domain/Table/Conservation.antt =====
-- The chips of a table across a command.
use mathlib.Core.Option
use mathlib.Core.Option.{some-injective}
use poker.Domain.Table.Levels.{top_of}
use poker.Domain.Table.Payout.{bets, or_throw-done, without_stack}
use poker.Domain.Table.Pots.{add_stack, build_and_award_pots, is_eligible, reaches}
use poker.Domain.Table.Reveal.{fill_board-Revealed}
use poker.Domain.Table.Seats.{
  contenders, count_players, map_players, player_at, pot_size, sum_players, update_seat,
}
use poker.Domain.Table.Showdown.{PaidUpTo, build_and_award_pots-pays}
use poker.Domain.Table.State.{Player, PotAward, Seats, Table, is_contender, is_settled, showdown}
use poker.Domain.Table.Street.{
  fill_board, first_contender, mark_settled, not_ready, settle_fold_win, settle_showdown,
}
use poker.Domain.Table.Sums.{
  AllPlayers-of, all_held, all_held-split, committed, count-map_players, stack_of, sum-add,
  sum-map_players, sum-update_seat, sum_cong,
}
use poker.Prelude.{
  >>=-eq-done, Bool-cases, List, Option, Option-cases, [], ap, ap₂, arith, done, false,
  if◌then◌else◌, inl, inr, leb, ltb, min, none, or_throw, refl, some, subst, suc, sym, true, zero,
  ℕ, ◌&&◌, ◌+◌, ◌-◌, ◌>>=◌, ◌∙◌, ◌∷◌, ◌≡◌,
}

-- The chips that a showdown leaves with nobody: of each commitment, what exceeds the largest
-- commitment of a player still in.
abbrev pub excess : Seats → ℕ
excess seats = sum_players (λ p. p.hand_commitment - top_of seats) seats

-- A hand that has been settled with two players or more still in was settled by a showdown.
abbrev pub unpaid : Table → ℕ
unpaid t = if is_settled t.street && ltb 1 (contenders t.seats) then excess t.seats else 0

-- The seats change in stacks, in readiness and in street commitments only.
abbrev bet_of : Player → Player
bet_of p = record p { stack = 0; ready = false; street_commitment = 0 }

abbrev SameBets : Seats → Seats → Type 0
SameBets s s' = map_players bet_of s ≡ map_players bet_of s'

top_of-bet_of : (seats : Seats) → top_of (map_players bet_of seats) ≡ top_of seats
unfolding top_of map_players is_eligible reaches
top_of-bet_of [] = refl
top_of-bet_of (none ∷ seats) = top_of-bet_of seats
top_of-bet_of (some p ∷ seats) = rw (top_of-bet_of seats) refl

SameBets-top_of : (s s' : Seats) → SameBets s s' → top_of s ≡ top_of s'
SameBets-top_of s s' h = sym (top_of-bet_of s) ∙ ap top_of h ∙ top_of-bet_of s'

SameBets-sum :
    (f : Player → ℕ) (s s' : Seats)
    → ((p : Player) → f (bet_of p) ≡ f p)
    → SameBets s s'
    → sum_players f s ≡ sum_players f s'
SameBets-sum f s s' k h =
    sym (sum-map_players f bet_of s k) ∙ ap (sum_players f) h ∙ sum-map_players f bet_of s' k

SameBets-contenders : (s s' : Seats) → SameBets s s' → contenders s ≡ contenders s'
unfolding contenders is_contender
SameBets-contenders s s' h =
    sym (count-map_players is_contender bet_of s (λ p. refl))
    ∙ ap (count_players is_contender) h
    ∙ count-map_players is_contender bet_of s' (λ p. refl)

SameBets-excess : (s s' : Seats) → SameBets s s' → excess s ≡ excess s'
SameBets-excess s s' h =
    SameBets-sum (λ p. p.hand_commitment - top_of s) s s' (λ p. refl) h
    ∙ ap (λ t. sum_players (λ p. p.hand_commitment - t) s') (SameBets-top_of s s' h)

map_players-bet_of :
    (g : Player → Player) (seats : Seats)
    → ((p : Player) → bet_of (g p) ≡ bet_of p)
    → SameBets (map_players g seats) seats
unfolding map_players
map_players-bet_of g [] h = refl
map_players-bet_of g (none ∷ seats) h = ap (◌∷◌ none) (map_players-bet_of g seats h)
map_players-bet_of g (some p ∷ seats) h =
    ap₂ {A = Option Player} {B = Seats} ◌∷◌ (ap some (h p)) (map_players-bet_of g seats h)

-- Of every commitment, one part is paid and the rest is left over.
paid-excess :
    (top : ℕ) (seats : Seats)
    → sum_players (λ p. min p.hand_commitment top) seats
        + sum_players (λ p. p.hand_commitment - top) seats
      ≡ pot_size seats
unfolding pot_size
paid-excess top seats =
    sym (sum-add (λ p. min p.hand_commitment top) (λ p. p.hand_commitment - top) seats)
    ∙ sum_cong _ committed seats (AllPlayers-of _ (λ p. omega arith) seats)

mark_settled-chips :
    (t : Table)
    → (sum_players stack_of (mark_settled t).seats ≡ sum_players stack_of t.seats)
      × SameBets (mark_settled t).seats t.seats
      × (is_settled (mark_settled t).street ≡ true)
unfolding mark_settled not_ready is_settled
mark_settled-chips t = (
  sum-map_players stack_of not_ready t.seats (λ p. refl),
  map_players-bet_of not_ready t.seats (λ p. refl),
  refl,
)

first_contender-player :
    (seats : Seats) (w : ℕ × Player)
    → first_contender seats ≡ some w
    → player_at seats w.0 ≡ some w.1
unfolding first_contender player_at
first_contender-player [] w e = cc
first_contender-player (none ∷ seats) w e = elim (Option-cases (first_contender seats)) [
  | inl nobody ↦
      let q : ◌≡◌ {A = Option (ℕ × Player)} none (some w) = rw (nobody, Option.map) at e in cc
  | inr (v, found) ↦
      let q : ◌≡◌ {A = Option (ℕ × Player)} (some (suc v.0, v.1)) (some w) =
        rw (found, Option.map) at e in
      subst (λ x. player_at (none ∷ seats) x.0 ≡ some x.1) (some-injective _ _ q)
        (first_contender-player seats v found)
]
first_contender-player (some p ∷ seats) w e = elim (Bool-cases (is_contender p)) [
  | inl hit ↦
      let q : ◌≡◌ {A = Option (ℕ × Player)} (some (0, p)) (some w) = rw hit at e in
      subst (λ x. player_at (some p ∷ seats) x.0 ≡ some x.1) (some-injective _ _ q) refl
  | inr miss ↦ elim (Option-cases (first_contender seats)) [
    | inl nobody ↦
        let q : ◌≡◌ {A = Option (ℕ × Player)} none (some w) = rw (miss, nobody, Option.map) at e in
        cc
    | inr (v, found) ↦
        let q : ◌≡◌ {A = Option (ℕ × Player)} (some (suc v.0, v.1)) (some w) =
          rw (miss, found, Option.map) at e in
        subst (λ x. player_at (some p ∷ seats) x.0 ≡ some x.1) (some-injective _ _ q)
          (first_contender-player seats v found)
  ]
]

update_seat-SameBets :
    (i n : ℕ) (seats : Seats) → SameBets (update_seat i (add_stack n) seats) seats
unfolding update_seat map_players add_stack
update_seat-SameBets i n [] = refl
update_seat-SameBets zero n (none ∷ seats) = refl
update_seat-SameBets zero n (some p ∷ seats) = refl
update_seat-SameBets (suc i) n (s ∷ seats) =
    ap (◌∷◌ (Option.map bet_of s)) (update_seat-SameBets i n seats)

-- What a settlement makes of a running hand.
pub record IsSettlement (t u : Table) : Type 0 where
  pub accounts : sum_players stack_of u.seats + unpaid u ≡ all_held t.seats
  pub over : is_settled u.street ≡ true

unpaid-none : (t : Table) → ltb 1 (contenders t.seats) ≡ false → unpaid t ≡ 0
unpaid-none t h = ground (arith, h)

unpaid-excess :
    (t : Table)
    → is_settled t.street ≡ true
    → ltb 1 (contenders t.seats) ≡ true
    → unpaid t ≡ excess t.seats
unpaid-excess t s h = rw (s, h) refl

unfoldable pub won_by_fold : Table → ℕ × Player → Table
won_by_fold t w = mark_settled (record t {
  seats = update_seat w.0 (add_stack (pot_size t.seats)) t.seats;
  last_awards =
      record {
        pot_size = pot_size t.seats;
        winners = w.1.id ∷ [];
        equal_share = pot_size t.seats;
        odd_chips = 0;
      }
      ∷ [];
})

add_stack-stack : (n : ℕ) (p : Player) → stack_of (add_stack n p) ≡ p.stack + n
unfolding add_stack
add_stack-stack n p = refl

won_by_fold-IsSettlement :
    (t : Table) (w : ℕ × Player)
    → leb (contenders t.seats) 1 ≡ true
    → player_at t.seats w.0 ≡ some w.1
    → IsSettlement t (won_by_fold t w)
unfolding won_by_fold
won_by_fold-IsSettlement t w alone e =
    let pot = pot_size t.seats in
    let seats = update_seat w.0 (add_stack pot) t.seats in
    let awards : List PotAward =
      record { pot_size = pot; winners = w.1.id ∷ []; equal_share = pot; odd_chips = 0 } ∷ [] in
    let (stacks, bets, over) =
      mark_settled-chips (record t { seats = seats; last_awards = awards }) in
    let same = SameBets-contenders _ _ (bets ∙ update_seat-SameBets w.0 pot t.seats) in
    record {
      accounts = omega (
        arith,
        stacks,
        sum-update_seat stack_of (add_stack pot) t.seats w.0 w.1 e,
        all_held-split t.seats,
        unpaid-none (won_by_fold t w) (ground (arith, same)),
        add_stack-stack pot w.1,
      );
      over = over;
    }

-- Where one player at most is left in, the settlement by folding that returns settles the hand, and
-- the chips of the stacks and of the pot are all in the stacks afterwards, but for the excess where
-- two players or more were still in.
pub settle_fold_win-IsSettlement :
    (t u : Table)
    → leb (contenders t.seats) 1 ≡ true
    → settle_fold_win t ≡ done u
    → IsSettlement t u
unfolding settle_fold_win won_by_fold
settle_fold_win-IsSettlement t u alone e =
    let (w, e1, e2) =
      >>=-eq-done (or_throw (first_contender t.seats)) (λ w. done (won_by_fold t w)) e in
    let same : won_by_fold t w ≡ u = ground arith in
    subst (IsSettlement t) same (
      won_by_fold-IsSettlement t w alone
        (first_contender-player t.seats w (or_throw-done (first_contender t.seats) w e1)))

bets-SameBets : (s s' : Seats) → bets s ≡ bets s' → SameBets s s'
bets-SameBets s s' h = sym (twice s) ∙ ap (map_players bet_of) h ∙ twice s'
  where
    twice : (seats : Seats) → map_players bet_of (bets seats) ≡ map_players bet_of seats
    twice seats = map_players-bet_of without_stack seats (λ p. refl)

shown_down-IsSettlement :
    (t full : Table) (r : Table × List PotAward)
    → leb (contenders t.seats) 1 ≡ false
    → full.seats ≡ t.seats
    → PaidUpTo (sum_players (λ p. min p.hand_commitment (top_of full.seats)) full.seats) [] full r
    → IsSettlement t (mark_settled (record r.0 { last_awards = r.1 }))
shown_down-IsSettlement t full r many seats pays =
    let u = mark_settled (record r.0 { last_awards = r.1 }) in
    let (stacks, same_bets, over) = mark_settled-chips (record r.0 { last_awards = r.1 }) in
    let same : SameBets u.seats full.seats =
      same_bets ∙ bets-SameBets r.0.seats full.seats pays.kept in
    let count = SameBets-contenders u.seats full.seats same in
    record {
      accounts = omega (
        arith,
        stacks,
        pays.paid,
        paid-excess (top_of full.seats) full.seats,
        all_held-split full.seats,
        ap all_held seats,
        unpaid-excess u over (ground (arith, count, ap contenders seats)),
        SameBets-excess u.seats full.seats same,
      );
      over = over;
    }

-- Where two players or more are in, the showdown that returns settles the hand, and the chips of the
-- stacks and of the pot are in the stacks afterwards, but for the excess of the commitments over the
-- largest commitment of a player still in.
pub settle_showdown-IsSettlement :
    (t u : Table)
    → leb (contenders t.seats) 1 ≡ false
    → settle_showdown t ≡ done u
    → IsSettlement t u
unfolding settle_showdown
settle_showdown-IsSettlement t u many e =
    let shown = record t { street = showdown } in
    let (r, e1, e2) =
      >>=-eq-done (fill_board 5 shown >>= build_and_award_pots)
        (λ r. done (mark_settled (record r.0 { last_awards = r.1 }))) e in
    let (full, e3, e4) = >>=-eq-done (fill_board 5 shown) build_and_award_pots e1 in
    let ((n, (d, b, l, dealt)), _) = fill_board-Revealed 5 shown full e3 in
    let same_seats : full.seats ≡ t.seats = ap (λ (x : Table). x.seats) dealt in
    let pays = build_and_award_pots-pays full r e4 in
    let same : mark_settled (record r.0 { last_awards = r.1 }) ≡ u = ground arith in
    subst (IsSettlement t) same (shown_down-IsSettlement t full r many same_seats pays)
