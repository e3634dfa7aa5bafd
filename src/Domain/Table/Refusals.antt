-- ===== src/Domain/Table/Refusals.antt =====
-- When `act` refuses a command, and what it then leaves alone.
use poker.Domain.Table.Betting.{
  Applied, act, act_by, acting_player, after_action, applied, apply_action, do_all_in, do_bet,
  do_call, do_check, do_fold, do_raise, failure, finish_action, refused, success,
}
use poker.Domain.Table.Seats.{member, player_at}
use poker.Domain.Table.State.{
  ActionCommand, ActionResult, ActionType, Player, Street, Table, TableError, bet, call, can_act,
  check, fold, hand_is_running, is_showdown, ok, raise,
}
use poker.Prelude.{
  >>=-eq-done, Bool, Bool-cases, Option, arith, done, false, inc64, inl, inr, none, not, refl, some,
  subst, true, ℕ, ℤ, ◌==◌, ◌||◌, ◌≡◌,
}

-- The error code of a result.
abbrev pub is_ok : TableError → Bool
is_ok ok = true
is_ok _ = false

-- An early return of the `switch` carries an error, and comes before the case has changed anything.
abbrev pub RefusesEarly : Table → Applied → Type 0
RefusesEarly t (refused e text u) = (is_ok e ≡ false) × (u ≡ t)
RefusesEarly t (applied u) = Unit

apply_action-RefusesEarly :
    (t : Table) (i : ℕ) (p : Player) (k : ActionType) (amount : ℤ)
    → RefusesEarly t (apply_action t i p k amount)
unfolding apply_action do_fold do_check do_call do_bet do_raise do_all_in
apply_action-RefusesEarly t i p fold amount = tt
apply_action-RefusesEarly t i p check amount = ground arith
apply_action-RefusesEarly t i p call amount = ground arith
apply_action-RefusesEarly t i p bet amount = ground arith
apply_action-RefusesEarly t i p raise amount = ground arith
apply_action-RefusesEarly t i p ActionType.all_in amount = ground arith

-- A result with an error leaves the table as it was, and carries its sequence number.
abbrev pub Unchanged : Table → ActionResult × Table → Type 0
Unchanged t r = is_ok r.0.error ≡ false → (r.1 ≡ t) × (r.0.server_sequence ≡ t.server_sequence)

finish_action-Unchanged :
    (t : Table) (i : ℕ) (s : Street) (a : Applied) (r : ActionResult × Table)
    → RefusesEarly t a
    → finish_action t i s a ≡ done r
    → Unchanged t r
unfolding finish_action failure success
finish_action-Unchanged t i s (refused e text u) r (_, same) h bad = ground arith
finish_action-Unchanged t i s (applied u) r _ h bad =
    let v = record u { server_sequence = inc64 u.server_sequence } in
    let (w, e1, e2) = >>=-eq-done (after_action v i) (λ w. done (success s w, w)) h in ground arith

act_by-Unchanged :
    (t : Table) (c : ActionCommand) (o : Option (ℕ × Player)) (r : ActionResult × Table)
    → act_by t c o ≡ done r
    → Unchanged t r
unfolding act_by failure
act_by-Unchanged t c none r h bad = ground arith
act_by-Unchanged t c (some (i, p)) r h bad = elim (Bool-cases (not (p.id == c.player_id))) [
  | inl other ↦ let q = rw other at h in ground (arith, q)
  | inr own ↦ elim (Bool-cases (not (can_act p) || not (member p.id t.pending_action))) [
    | inl idle ↦ let q = rw (own, idle) at h in ground (arith, q)
    | inr live ↦
        finish_action-Unchanged t p.seat t.street (apply_action t i p c.kind c.amount) r
          (apply_action-RefusesEarly t i p c.kind c.amount) (rw (own, live) at h) bad
  ]
]

-- A command that is answered by an error changes nothing, whatever the error: each early return stands
-- before the changes of its case.
pub act_atomic :
    (t : Table) (c : ActionCommand) (r : ActionResult × Table)
    → act t c ≡ done r
    → is_ok r.0.error ≡ false
    → (r.1 ≡ t) × (r.0.server_sequence ≡ t.server_sequence)
unfolding act failure
act_atomic t c r h bad =
    elim (Bool-cases (not (hand_is_running t.street) || is_showdown t.street)) [
      | inl over ↦ let q = rw over at h in ground (arith, q)
      | inr on ↦ act_by-Unchanged t c (acting_player t) r (rw on at h) bad
    ]

-- The standing of the player who may act: it is this player's turn, a betting round is on, and the
-- player has chips, is in, and is still due to act.
pub record MayAct (t : Table) (id : ℕ) : Type 0 where
  pub seat : ℕ
  pub player : Player
  pub turn : t.acting_seat ≡ some seat
  pub here : player_at t.seats seat ≡ some player
  pub own : player.id ≡ id
  pub live : can_act player ≡ true
  pub pending : member id t.pending_action ≡ true
  pub running : hand_is_running t.street ≡ true
  pub betting : is_showdown t.street ≡ false

acting_player-inv :
    (t : Table) (i : ℕ) (p : Player)
    → acting_player t ≡ some (i, p)
    → (t.acting_seat ≡ some i) × (player_at t.seats i ≡ some p)
unfolding acting_player
acting_player-inv t i p e = ground arith

MayAct-of :
    (t : Table) (c : ActionCommand) (r : ActionResult × Table) (o : Option (ℕ × Player))
    → acting_player t ≡ o
    → (not (hand_is_running t.street) || is_showdown t.street) ≡ false
    → act_by t c o ≡ done r
    → is_ok r.0.error ≡ true
    → MayAct t c.player_id
unfolding act_by failure
MayAct-of t c r none a on h good = ground arith
MayAct-of t c r (some (i, p)) a on h good = elim (Bool-cases (not (p.id == c.player_id))) [
  | inl other ↦ let q = rw other at h in ground (arith, q)
  | inr own ↦ elim (Bool-cases (not (can_act p) || not (member p.id t.pending_action))) [
    | inl idle ↦ let q = rw (own, idle) at h in ground (arith, q)
    | inr live ↦
        let (seat, here) = acting_player-inv t i p a in
        let same : p.id ≡ c.player_id = ground arith in
        record {
          seat = i;
          player = p;
          turn = seat;
          here = here;
          own = same;
          live = ground arith;
          pending = subst (λ n. member n t.pending_action ≡ true) same (ground arith);
          running = ground arith;
          betting = ground arith;
        }
  ]
]

-- A command is accepted of the player alone who may act.
pub act-MayAct :
    (t : Table) (c : ActionCommand) (r : ActionResult × Table)
    → act t c ≡ done r
    → is_ok r.0.error ≡ true
    → MayAct t c.player_id
unfolding act failure
act-MayAct t c r h good =
    elim (Bool-cases (not (hand_is_running t.street) || is_showdown t.street)) [
      | inl over ↦ let q = rw over at h in ground (arith, q)
      | inr on ↦ MayAct-of t c r (acting_player t) refl on (rw on at h) good
    ]
