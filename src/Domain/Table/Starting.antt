-- ===== src/Domain/Table/Starting.antt =====
-- Starting a hand ends.
use poker.Domain.Deck.{Deck}
use poker.Domain.Table.Hand.{
  deal_hand, deal_hole_cards, deal_round, give_card, is_dealable, next_dealer, open_hand,
  post_blinds, prepare_table, set_initial_actor, small_blind_seat, start_hand, start_prepared,
}
use poker.Domain.Table.Seats.{
  actionable, count_players, next_participating_seat, participating_seats, update_seat,
}
use poker.Domain.Table.State.{Table, config_is_valid, hand_is_running}
use poker.Domain.Table.Street.{advance_fuel, draw_card, open_action}
use poker.Domain.Table.Termination.{advance-ne-out, draw_card-ne-out, streets_left-le}
use poker.Prelude.{
  >>=-ne-out, Bool-cases, Option, [], arith, get_elem?, inl, inr, leb, length, ltb, none, not,
  or_throw, or_throw-ne-out, out_of_fuel, some, suc, zero, ℕ, ◌≢◌,
}

deal_round-ne-out :
    (round left : ℕ) (seat : Option ℕ) (t : Table) → deal_round round left seat t ≢ out_of_fuel
unfolding deal_round
deal_round-ne-out round zero seat t = λ e. cc
deal_round-ne-out round (suc left) seat t = >>=-ne-out (or_throw seat) _ (or_throw-ne-out seat) λ i.
    >>=-ne-out (draw_card t) _ (draw_card-ne-out t) λ r.
      deal_round-ne-out round left (next_participating_seat r.1.seats i)
        (record r.1 { seats = update_seat i (give_card round r.0) r.1.seats })

deal_hole_cards-ne-out : (count : ℕ) (t : Table) → deal_hole_cards count t ≢ out_of_fuel
unfolding deal_hole_cards
deal_hole_cards-ne-out count t =
    >>=-ne-out (or_throw t.dealer_seat) _ (or_throw-ne-out t.dealer_seat) λ dealer.
      >>=-ne-out (deal_round 0 count (next_participating_seat t.seats dealer) t) _
        (deal_round-ne-out 0 count (next_participating_seat t.seats dealer) t)
        λ first.
          >>=-ne-out (deal_round 1 count first.0 first.1) _
            (deal_round-ne-out 1 count first.0 first.1) (λ second e. cc)

open_hand-ne-out :
    (small big participants : ℕ) (t : Table) → open_hand small big participants t ≢ out_of_fuel
unfolding open_hand
open_hand-ne-out small big participants t =
    let u = set_initial_actor big participants (open_action (post_blinds small big t)) in
    let v = record u { pending_action = []; acting_seat = none } in
    elim (Bool-cases (leb (actionable u.seats) 1)) [
      | inl few ↦ rw few (advance-ne-out advance_fuel v (omega (arith, streets_left-le v.street)))
      | inr many ↦ rw many (λ e. cc)
    ]

deal_hand-ne-out :
    (front participants : ℕ) (t : Table) → deal_hand front participants t ≢ out_of_fuel
unfolding deal_hand
deal_hand-ne-out front participants t =
    let v = record t { dealer_seat = some (next_dealer t front) } in
    >>=-ne-out (deal_hole_cards participants v) _ (deal_hole_cards-ne-out participants v) λ u.
      >>=-ne-out (or_throw (small_blind_seat u (next_dealer t front) participants)) _
        (or_throw-ne-out (small_blind_seat u (next_dealer t front) participants))
        λ small.
          >>=-ne-out (or_throw (next_participating_seat u.seats small)) _
            (or_throw-ne-out (next_participating_seat u.seats small))
            λ big. open_hand-ne-out small big participants u

start_prepared-ne-out : (u : Table) → start_prepared u ≢ out_of_fuel
unfolding start_prepared
start_prepared-ne-out u =
    let seats = participating_seats u.seats in
    elim (Bool-cases (ltb (length seats) u.config.min_players)) [
      | inl few ↦ rw few (λ e. cc)
      | inr enough ↦ rw enough (
          >>=-ne-out (or_throw (get_elem? seats 0)) _ (or_throw-ne-out (get_elem? seats 0)) λ front.
            >>=-ne-out (deal_hand front (length seats) u) _
              (deal_hand-ne-out front (length seats) u) (λ v e. cc))
    ]

-- Starting a hand ends, whatever the state of the table and the deck, also where all the streets are
-- dealt at once.
pub start_hand_terminates : (t : Table) (deck : Deck) → start_hand t deck ≢ out_of_fuel
unfolding start_hand
start_hand_terminates t deck = elim (Bool-cases (not (config_is_valid t.config))) [
  | inl wrong ↦ rw wrong (λ e. cc)
  | inr right ↦ elim (Bool-cases (hand_is_running t.street)) [
    | inl running ↦ rw (right, running) (λ e. cc)
    | inr over ↦ elim (Bool-cases (ltb (count_players is_dealable t.seats) t.config.min_players)) [
      | inl few ↦ rw (right, over, few) (λ e. cc)
      | inr enough ↦ rw (right, over, enough) (start_prepared-ne-out (prepare_table t deck))
    ]
  ]
]
