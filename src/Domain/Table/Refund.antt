-- ===== src/Domain/Table/Refund.antt =====
-- Calling a hand off, and what it gives back.
use poker.Domain.Table.Hand.{abort_hand, aborted, refund}
use poker.Domain.Table.Seats.{map_players, pot_size, sum_players, total_chips}
use poker.Domain.Table.State.{Seats, Street, Table, hand_is_running, is_settled, ok}
use poker.Domain.Table.Sums.{all_held, held, sum-map_players, total_chips-running}
use poker.Prelude.{[], arith, false, none, refl, some, sym, true, ◌+◌, ◌∙◌, ◌∷◌, ◌≡◌}

refunded-held : (seats : Seats) → all_held (map_players refund seats) ≡ all_held seats
unfolding refund
refunded-held seats = sum-map_players held refund seats (λ p. omega arith)

refunded-pot : (seats : Seats) → pot_size (map_players refund seats) ≡ 0
unfolding refund pot_size map_players sum_players
refunded-pot [] = refl
refunded-pot (none ∷ seats) = refunded-pot seats
refunded-pot (some p ∷ seats) = omega (arith, refunded-pot seats)

-- Each seat gets back what it has put in.
abbrev pub Refunded : Seats → Seats → Type 0
Refunded [] [] = Unit
Refunded (none ∷ s) (none ∷ s') = Refunded s s'
Refunded (some p ∷ s) (some q ∷ s') =
    (q.id ≡ p.id) × (q.stack ≡ p.stack + p.hand_commitment) × Refunded s s'
Refunded _ _ = ⊥

refund-Refunded : (seats : Seats) → Refunded seats (map_players refund seats)
unfolding refund map_players
refund-Refunded [] = tt
refund-Refunded (none ∷ seats) = refund-Refunded seats
refund-Refunded (some p ∷ seats) = (refl, refl, refund-Refunded seats)

aborted-total :
    (t : Table) → is_settled t.street ≡ false → total_chips (aborted t t.seats) ≡ total_chips t
unfolding aborted is_settled
aborted-total t r =
    total_chips-running (aborted t t.seats) refl
    ∙ refunded-held t.seats
    ∙ sym (total_chips-running t r)

running-abort :
    (t : Table)
    → hand_is_running t.street ≡ true
    → (abort_hand t ≡ some (ok, aborted t t.seats)) × (is_settled t.street ≡ false)
unfolding abort_hand hand_is_running is_settled
running-abort t h = ground arith

-- While a hand runs, calling it off succeeds: every player has back what he put into the pot, the
-- chips of the table are as many as before, the pot is empty, and the table waits for a new hand.
pub abort_hand-refunds :
    (t : Table)
    → hand_is_running t.street ≡ true
    → (u : Table) × (abort_hand t ≡ some (ok, u))
      × Refunded t.seats u.seats
      × (total_chips u ≡ total_chips t)
      × (pot_size u.seats ≡ 0)
      × (u.street ≡ Street.waiting)
unfolding aborted
abort_hand-refunds t h =
    let (run, r) = running-abort t h in
    (aborted t t.seats, run, refund-Refunded t.seats, aborted-total t r, refunded-pot t.seats, refl)
