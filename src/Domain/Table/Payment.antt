-- ===== src/Domain/Table/Payment.antt =====
-- A betting action moves chips from a stack into the pot, and makes or loses none.
use poker.Domain.Table.Betting.{
  Applied, add_under_called_players, all_in_if_broke, applied, apply_action, available, do_all_in,
  do_bet, do_call, do_check, do_fold, do_raise, pay_and_close, pay_to, raise_to, refused,
  remove_from_action_sets, reset_after_full_raise, set_folded,
}
use poker.Domain.Table.Seats.{member, player_at, update_seat}
use poker.Domain.Table.State.{ActionType, Player, Table, bet, call, check, fold, raise}
use poker.Domain.Table.Sums.{all_held, held, sum-update_seat}
use poker.Prelude.{
  Bool, Bool-cases, arith, false, inl, inr, leb, leb_ℤ, ltb, min, negsuc, not, pos, pos_part, refl,
  some, true, ℕ, ℤ, ◌&&◌, ◌-◌, ◌==◌, ◌||◌, ◌≡◌, ◌≤◌,
}

-- What an action leaves as it was.
pub record Keeps (t u : Table) : Type 0 where
  pub chips : all_held u.seats ≡ all_held t.seats
  pub same_street : u.street ≡ t.street
  pub same_config : u.config ≡ t.config
  pub same_hand : u.hand_id ≡ t.hand_id
  pub same_sequence : u.server_sequence ≡ t.server_sequence
  pub same_board : u.board ≡ t.board

pay_to-held : (target : ℕ) (p : Player) → target ≤ available p → held (pay_to target p) ≡ held p
unfolding pay_to all_in_if_broke
pay_to-held target p h = ground arith

pay_seat-held :
    (t : Table) (i target : ℕ) (p : Player)
    → player_at t.seats i ≡ some p
    → target ≤ available p
    → all_held (update_seat i (pay_to target) t.seats) ≡ all_held t.seats
pay_seat-held t i target p e h =
    omega (arith, sum-update_seat held (pay_to target) t.seats i p e, pay_to-held target p h)

raise_to-Keeps :
    (t : Table) (i target increment : ℕ) (full : Bool) (p : Player)
    → player_at t.seats i ≡ some p
    → target ≤ available p
    → Keeps t (raise_to t i p target increment full)
unfolding raise_to reset_after_full_raise add_under_called_players remove_from_action_sets
raise_to-Keeps t i target increment true p e h = record {
  chips = pay_seat-held t i target p e h;
  same_street = refl;
  same_config = refl;
  same_hand = refl;
  same_sequence = refl;
  same_board = refl;
}
raise_to-Keeps t i target increment false p e h = record {
  chips = pay_seat-held t i target p e h;
  same_street = refl;
  same_config = refl;
  same_hand = refl;
  same_sequence = refl;
  same_board = refl;
}

pay_and_close-Keeps :
    (t : Table) (i target : ℕ) (p : Player)
    → player_at t.seats i ≡ some p
    → target ≤ available p
    → Keeps t (pay_and_close t i p target)
unfolding pay_and_close remove_from_action_sets
pay_and_close-Keeps t i target p e h = record {
  chips = pay_seat-held t i target p e h;
  same_street = refl;
  same_config = refl;
  same_hand = refl;
  same_sequence = refl;
  same_board = refl;
}

-- The table that a case of the `switch` leaves: an early return has changed nothing.
abbrev pub AppliedKeeps : Table → Applied → Type 0
AppliedKeeps t (refused e text u) = t ≡ u
AppliedKeeps t (applied u) = Keeps t u

within :
    (amount : ℤ) (low high : ℕ)
    → (leb_ℤ amount low || not (leb_ℤ amount high)) ≡ false
    → pos_part amount ≤ high
within (pos n) low high h = ground arith
within (negsuc n) low high h = omega arith

do_fold-Keeps :
    (t : Table) (i : ℕ) (p : Player) → player_at t.seats i ≡ some p → AppliedKeeps t (do_fold t i p)
unfolding do_fold remove_from_action_sets set_folded
do_fold-Keeps t i p e = record {
  chips = omega (arith, sum-update_seat held set_folded t.seats i p e);
  same_street = refl;
  same_config = refl;
  same_hand = refl;
  same_sequence = refl;
  same_board = refl;
}

do_check-Keeps : (t : Table) (i : ℕ) (p : Player) → AppliedKeeps t (do_check t i p)
unfolding do_check remove_from_action_sets
do_check-Keeps t i p = elim (Bool-cases (not (p.street_commitment == t.current_bet))) [
  | inl stop ↦ rw stop refl
  | inr g0 ↦ rw g0 (record {
    chips = refl;
    same_street = refl;
    same_config = refl;
    same_hand = refl;
    same_sequence = refl;
    same_board = refl;
  })
]

module _ (t : Table) (i : ℕ) (p : Player) (e : player_at t.seats i ≡ some p) where
  do_call-Keeps : AppliedKeeps t (do_call t i p)
  unfolding do_call
  do_call-Keeps = elim (Bool-cases (leb t.current_bet p.street_commitment)) [
    | inl stop ↦ rw stop refl
    | inr g0 ↦ rw g0 (pay_and_close-Keeps t i (min t.current_bet (available p)) p e (omega arith))
  ]

  do_bet-Keeps : (amount : ℤ) → AppliedKeeps t (do_bet t i p amount)
  unfolding do_bet
  do_bet-Keeps amount =
      let target = pos_part amount in
      elim (Bool-cases (not (t.current_bet == 0))) [
        | inl stop ↦ rw stop refl
        | inr g0 ↦
            elim (Bool-cases
              (leb_ℤ amount p.street_commitment || not (leb_ℤ amount (available p)))) [
                | inl stop ↦ rw (g0, stop) refl
                | inr g1 ↦
                    elim (Bool-cases (ltb target t.minimum_raise && not (target == available p))) [
                      | inl stop ↦ rw (g0, g1, stop) refl
                      | inr g2 ↦
                          rw (g0, g1, g2)
                            (raise_to-Keeps t i target target (leb t.minimum_raise target) p e
                              (within amount p.street_commitment (available p) g1))
                    ]
              ]
      ]

  do_raise-Keeps : (amount : ℤ) → AppliedKeeps t (do_raise t i p amount)
  unfolding do_raise
  do_raise-Keeps amount =
      let target = pos_part amount in
      let size = target - t.current_bet in
      elim (Bool-cases (t.current_bet == 0)) [
        | inl stop ↦ rw stop refl
        | inr g0 ↦ elim (Bool-cases (not (member p.id t.raise_allowed))) [
          | inl stop ↦ rw (g0, stop) refl
          | inr g1 ↦
              elim (Bool-cases (leb_ℤ amount t.current_bet || not (leb_ℤ amount (available p)))) [
                | inl stop ↦ rw (g0, g1, stop) refl
                | inr g2 ↦
                    elim (Bool-cases (ltb size t.minimum_raise && not (target == available p))) [
                      | inl stop ↦ rw (g0, g1, g2, stop) refl
                      | inr g3 ↦
                          rw (g0, g1, g2, g3)
                            (raise_to-Keeps t i target size (leb t.minimum_raise size) p e
                              (within amount t.current_bet (available p) g2))
                    ]
              ]
        ]
      ]

  do_all_in-Keeps : AppliedKeeps t (do_all_in t i p)
  unfolding do_all_in
  do_all_in-Keeps =
      let size = available p - t.current_bet in
      elim (Bool-cases (p.stack == 0)) [
        | inl stop ↦ rw stop refl
        | inr some_left ↦ elim (Bool-cases (leb (available p) t.current_bet)) [
          | inl short ↦
              rw (some_left, short) (pay_and_close-Keeps t i (available p) p e (omega arith))
          | inr over ↦ elim (Bool-cases (not (member p.id t.raise_allowed))) [
            | inl stop ↦ rw (some_left, over, stop) refl
            | inr may ↦
                rw (some_left, over, may)
                  (raise_to-Keeps t i (available p) size (leb t.minimum_raise size) p e
                    (omega arith))
          ]
        ]
      ]

  -- Whatever the command and its amount, the `switch` leaves the chips of all seats, in their stacks
  -- and in the pot, at the same sum, and the street, the board and the counters as they were.
  pub apply_action-Keeps :
      (k : ActionType) (amount : ℤ) → AppliedKeeps t (apply_action t i p k amount)
  unfolding apply_action
  apply_action-Keeps fold amount = do_fold-Keeps t i p e
  apply_action-Keeps check amount = do_check-Keeps t i p
  apply_action-Keeps call amount = do_call-Keeps
  apply_action-Keeps bet amount = do_bet-Keeps amount
  apply_action-Keeps raise amount = do_raise-Keeps amount
  apply_action-Keeps ActionType.all_in amount = do_all_in-Keeps
