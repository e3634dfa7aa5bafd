-- ===== src/Application/Rooms/Timeout.antt =====
-- A timeout moves the game on.
use poker.Application.Rooms.Tasks.{can_check, is_player, time_out, timeout_command, view_of_player}
use poker.Domain.Table.Betting.{
  act, act_by, acting_player, after_action, applied, apply_action, do_check, do_fold, finish_action,
  remove_from_action_sets, set_folded, success,
}
use poker.Domain.Table.Refusals.{MayAct}
use poker.Domain.Table.Seats.{find_player, has_id, member, update_seat}
use poker.Domain.Table.State.{
  ActionCommand, ActionResult, Player, Seats, Street, Table, hand_is_running, is_showdown, ok,
}
use poker.Domain.Table.Termination.{act_terminates}
use poker.Domain.Table.View.{id_in, snapshot, view_of, views_of}
use poker.Prelude.{
  ==_refl, >>=-eq-done, Bool-cases, Option, Run, [], ap, arith, done, false, inc64, inl, inr, none,
  not, out_of_fuel, pos, refl, some, sym, threw, true, ℕ, ◌&&◌, ◌==◌, ◌||◌, ◌∙◌, ◌∷◌, ◌≡◌, ◌⊎◌,
}

view_of_player-views :
    (id : ℕ) (street : Street) (viewer : Option ℕ) (seats : Seats) (p : Player)
    → find_player id seats ≡ some p
    → view_of_player id (views_of (view_of street viewer) seats) ≡ some (view_of street viewer p)
unfolding find_player view_of_player views_of has_id view_of
view_of_player-views id street viewer [] p h = cc
view_of_player-views id street viewer (none ∷ seats) p h =
    view_of_player-views id street viewer seats p h
view_of_player-views id street viewer (some q ∷ seats) p h = elim (Bool-cases (q.id == id)) [
  | inl e ↦
      let f = rw e at h in
      let same : q ≡ p = cc in rw e (ap (λ x. some (view_of street viewer x)) same)
  | inr e ↦ rw e (view_of_player-views id street viewer seats p (rw e at h))
]

-- The move is the check where the player owes nothing, and else the fold: neither is refused.
timeout_applies :
    (t : Table) (id i : ℕ) (p : Player)
    → find_player id t.seats ≡ some p
    → (u : Table) × (apply_action t i p (timeout_command (snapshot t (some id)) id).kind (pos 0)
        ≡ applied u)
unfolding apply_action do_check do_fold can_check snapshot view_of
timeout_applies t id i p found =
    let seen = view_of_player-views id t.street (some id) t.seats p found in
    elim (Bool-cases (p.street_commitment == t.current_bet)) [
      | inl even ↦
          let c : can_check (snapshot t (some id)) id ≡ true = rw (seen, can_check) even in
          (remove_from_action_sets p.id t, rw (c, even) refl)
      | inr owes ↦
          let c : can_check (snapshot t (some id)) id ≡ false = rw (seen, can_check) owes in
          (
            remove_from_action_sets p.id (record t { seats = update_seat i set_folded t.seats }),
            rw c refl,
          )
    ]

finish_applied :
    (t u : Table) (seat : ℕ) (street : Street) (r : ActionResult × Table)
    → finish_action t seat street (applied u) ≡ done r
    → r.0.error ≡ ok
unfolding finish_action success
finish_applied t u seat street r h =
    let (v, ran, e) =
      >>=-eq-done (after_action (record u { server_sequence = inc64 u.server_sequence }) seat) _
        h in
    let q : (success street v, v) ≡ r = cc in rw⁻¹ q refl

-- The command that the task makes is accepted of the player whose turn it is.
timeout_accepted :
    (t : Table) (id : ℕ) (r : ActionResult × Table) (m : MayAct t id)
    → find_player id t.seats ≡ some m.player
    → act t (timeout_command (snapshot t (some id)) id) ≡ done r
    → r.0.error ≡ ok
unfolding act act_by acting_player
timeout_accepted t id r m found h =
    let c = timeout_command (snapshot t (some id)) id in
    let on : (not (hand_is_running t.street) || is_showdown t.street) ≡ false =
      rw (m.running, m.betting) refl in
    let who : acting_player t ≡ some (m.seat, m.player) = rw (m.turn, m.here, acting_player) refl in
    let own : (m.player.id == id) ≡ true = let o = m.own in ground arith in
    let due : member m.player.id t.pending_action ≡ true = rw m.own m.pending in
    let (u, e) = timeout_applies t id m.seat m.player found in
    let q : finish_action t m.player.seat t.street (applied u) ≡ done r =
      rw (on, who, act, own, m.live, due, act_by, e) at h in
    finish_applied t u m.player.seat t.street r q

acting_id : (t : Table) (id : ℕ) → MayAct t id → id_in t.seats t.acting_seat ≡ some id
unfolding id_in
acting_id t id m =
    let e : id_in t.seats (some m.seat) ≡ some m.player.id = rw m.here refl in
    ap (id_in t.seats) m.turn ∙ e ∙ ap some m.own

-- The run of the task ends in a move, unless an exception leaves it.
abbrev pub Moves : Table → ℕ → ℕ → Type 0
Moves t id sequence =
    (time_out t id sequence ≡ threw)
    ⊎ ((r : ActionResult × Table) × (time_out t id sequence ≡ done r) × (r.0.error ≡ ok))

-- Where it is the player's turn and the sequence number is the table's, or is not given, the timeout
-- makes a move that the table accepts: a player who lets the time pass never holds up the game by a
-- refused command. An exception inside the table is the only other end.
pub time_out-moves :
    (t : Table) (id sequence : ℕ) (m : MayAct t id)
    → find_player id t.seats ≡ some m.player
    → (sequence ≡ 0) ⊎ (sequence ≡ t.server_sequence)
    → Moves t id sequence
unfolding time_out
time_out-moves t id sequence m found current = by_run (time_out t id sequence) refl
  where
    c : ActionCommand
    c = timeout_command (snapshot t (some id)) id

    own : is_player (snapshot t (some id)).acting_player id ≡ true
    own = rw (acting_id t id m) (==_refl id)

    fresh :
        (not (sequence == 0) && not ((snapshot t (some id)).server_sequence == sequence)) ≡ false
    fresh = elim current [ inl z ↦ ground (arith, z) | inr z ↦ ground (arith, z) ]

    acts : time_out t id sequence ≡ act t c
    acts = rw (fresh, own, time_out) refl

    by_run : (x : Run (ActionResult × Table)) → time_out t id sequence ≡ x → Moves t id sequence
    by_run (done r) e = inr (r, e, timeout_accepted t id r m found (sym acts ∙ e))
    by_run threw e = inl e
    by_run out_of_fuel e = absurd (act_terminates t c (sym acts ∙ e))
