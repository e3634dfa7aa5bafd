-- ===== src/Domain/Table/Stuck.antt =====
-- A hand that waits for nobody.
use poker.Domain.Table.Betting.{act, act_by, acting_player, failure}
use poker.Domain.Table.Refusals.{is_ok}
use poker.Domain.Table.Seats.{
  contenders, first_postflop_actor, holds, member, next_can_act_seat, next_seat, player_at, scan,
}
use poker.Domain.Table.State.{
  ActionCommand, ActionResult, Player, Seats, Table, action_not_allowed, hand_is_running,
  is_showdown, not_players_turn,
}
use poker.Domain.Table.Street.{advance, betting_round_complete, choose_actor}
use poker.Prelude.{
  Bool, Bool-cases, Option-cases, [], arith, done, false, inl, inr, leb, length, none, not, refl,
  suc, zero, ℕ, ◌%◌, ◌+◌, ◌||◌, ◌≡◌,
}

-- Nobody is due to act, a player still owes chips, and two players or more are in.
pub record IsStuck (t : Table) : Type 0 where
  pub nobody_due : t.pending_action ≡ []
  pub no_actor : t.acting_seat ≡ none
  pub betting_open : betting_round_complete t ≡ false

scan-nobody :
    (test : Player → Bool) (seats : Seats) (from offset left : ℕ)
    → ((p : Player) → test p ≡ false)
    → scan test seats from offset left ≡ none
unfolding scan holds
scan-nobody test seats from offset zero h = refl
scan-nobody test seats from offset (suc left) h =
    let later = scan-nobody test seats from (offset + 1) left h in
    elim (Option-cases (player_at seats ((from + offset) % length seats))) [
      | inl free ↦ rw free later
      | inr (p, taken) ↦ rw (taken, h p) later
    ]

next_can_act_seat-nobody :
    (t : Table) (from : ℕ) → t.pending_action ≡ [] → next_can_act_seat t from ≡ none
unfolding next_can_act_seat next_seat member
next_can_act_seat-nobody t from e =
    scan-nobody _ t.seats from 1 (length t.seats) λ p. rw e (ground arith)

choose_actor-nobody :
    (t : Table) → t.pending_action ≡ [] → t.acting_seat ≡ none → (choose_actor t).acting_seat ≡ none
unfolding choose_actor first_postflop_actor
choose_actor-nobody t e n = elim (Option-cases t.dealer_seat) [
  | inl no_dealer ↦ ground arith
  | inr (d, dealer) ↦ ground (arith, next_can_act_seat-nobody t d e)
]

choose_actor-street : (t : Table) → (choose_actor t).street ≡ t.street
unfolding choose_actor
choose_actor-street t = ground arith

no_player : (t : Table) → t.acting_seat ≡ none → acting_player t ≡ none
unfolding acting_player
no_player t n = rw n refl

no_actor-act :
    (t : Table) (c : ActionCommand)
    → t.acting_seat ≡ none
    → (r : ActionResult) × (act t c ≡ done (r, t)) × (is_ok r.error ≡ false)
unfolding act act_by failure
no_actor-act t c n = elim (Bool-cases (not (hand_is_running t.street) || is_showdown t.street)) [
  | inl over ↦ (failure t action_not_allowed "no betting round is active", rw over refl, refl)
  | inr on ↦ (
    failure t not_players_turn "the command was not sent by the acting player",
    rw (on, no_player t n, act_by) refl,
    refl,
  )
]

incomplete-contenders :
    (t : Table) → betting_round_complete t ≡ false → leb (contenders t.seats) 1 ≡ false
unfolding betting_round_complete
incomplete-contenders t h = ground arith

-- The defect: where `startHand`, or a street dealt out, leaves nobody due to act while a player
-- still owes chips, the loop stops at a hand on the same street in which `act` answers every command,
-- of whatever player, by an error and leaves the table as it is.
pub stuck_forever :
    (t : Table) (fuel : ℕ)
    → IsStuck t
    → (u : Table) × (advance (suc fuel) t ≡ done u)
      × (u.street ≡ t.street)
      × ((c : ActionCommand)
          → (r : ActionResult) × (act u c ≡ done (r, u)) × (is_ok r.error ≡ false))
unfolding advance
stuck_forever t fuel s =
    let many = incomplete-contenders t s.betting_open in
    (
      choose_actor t,
      rw (many, s.betting_open) refl,
      choose_actor-street t,
      λ c. no_actor-act (choose_actor t) c (choose_actor-nobody t s.nobody_due s.no_actor),
    )
