-- ===== src/Domain/Table/Opening.antt =====
-- The chips of a table when a hand starts.
use poker.Domain.Card.{Card}
use poker.Domain.Deck.{Deck, draw}
use poker.Domain.Table.Betting.{all_in_if_broke}
use poker.Domain.Table.Chips.{Accounts, advance-Accounts, running-Accounts}
use poker.Domain.Table.Conservation.{unpaid}
use poker.Domain.Table.Hand.{
  deal_hand, deal_hole_cards, deal_round, give_card, is_dealable, next_dealer, open_hand,
  post_blind, post_blinds, prepare, prepare_table, set_initial_actor, small_blind_seat, start_hand,
  start_prepared,
}
use poker.Domain.Table.Seats.{
  actionable, count_players, map_players, next_participating_seat, participating_seats, sum_players,
  total_chips, update_seat,
}
use poker.Domain.Table.State.{
  Player, Seats, Table, config_is_valid, hand_is_running, is_settled, ok,
}
use poker.Domain.Table.Street.{advance_fuel, draw_card, open_action}
use poker.Domain.Table.Sums.{all_held, held, stack_of}
use poker.Prelude.{
  >>=-eq-done, Bool-cases, Option, Option-cases, [], ap, arith, done, false, get_elem?, inl, inr,
  leb, length, ltb, none, not, or_throw, refl, some, subst, suc, zero, ℕ, ◌+◌, ◌∙◌, ◌∷◌, ◌≡◌,
}

all_held-update :
    (f : Player → Player) (i : ℕ) (seats : Seats)
    → ((p : Player) → held (f p) ≡ held p)
    → all_held (update_seat i f seats) ≡ all_held seats
unfolding update_seat sum_players
all_held-update f i [] h = refl
all_held-update f zero (none ∷ seats) h = refl
all_held-update f zero (some p ∷ seats) h = omega (arith, h p)
all_held-update f (suc i) (none ∷ seats) h = all_held-update f i seats h
all_held-update f (suc i) (some p ∷ seats) h = omega (arith, all_held-update f i seats h)

give_card-held : (round : ℕ) (c : Card) (p : Player) → held (give_card round c p) ≡ held p
unfolding give_card
give_card-held zero c p = refl
give_card-held (suc round) c p = refl

post_blind-held : (blind : ℕ) (p : Player) → held (post_blind blind p) ≡ held p
unfolding post_blind all_in_if_broke
post_blind-held blind p = ground arith

-- The chips and the street stay as they are.
abbrev Holds : Table → Table → Type 0
Holds t u = (all_held u.seats ≡ all_held t.seats) × (u.street ≡ t.street)

draw_card-Holds : (t : Table) (r : Card × Table) → draw_card t ≡ done r → Holds t r.1
unfolding draw_card
draw_card-Holds t r e =
    let (d, e1, e2) = >>=-eq-done (or_throw t.deck) _ e in
    let (drawn, e3, e4) = >>=-eq-done (draw d) _ e2 in
    let same : record t { deck = some drawn.1 } ≡ r.1 = cc in subst (Holds t) same (refl, refl)

deal_round-Holds :
    (round left : ℕ) (seat : Option ℕ) (t : Table) (r : Option ℕ × Table)
    → deal_round round left seat t ≡ done r
    → Holds t r.1
unfolding deal_round
deal_round-Holds round zero seat t r e =
    let same : t ≡ r.1 = cc in subst (Holds t) same (refl, refl)
deal_round-Holds round (suc left) seat t r e =
    let (i, e1, e2) = >>=-eq-done (or_throw seat) _ e in
    let (drawn, e3, e4) = >>=-eq-done (draw_card t) _ e2 in
    let seats = update_seat i (give_card round drawn.0) drawn.1.seats in
    let (h1, s1) = draw_card-Holds t drawn e3 in
    let (h2, s2) =
      deal_round-Holds round left (next_participating_seat drawn.1.seats i)
        (record drawn.1 { seats = seats }) r e4 in
    let given =
      all_held-update (give_card round drawn.0) i drawn.1.seats (give_card-held round drawn.0) in
    (h2 ∙ given ∙ h1, s2 ∙ s1)

deal_hole_cards-Holds : (count : ℕ) (t u : Table) → deal_hole_cards count t ≡ done u → Holds t u
unfolding deal_hole_cards
deal_hole_cards-Holds count t u e =
    let (dealer, e1, e2) = >>=-eq-done (or_throw t.dealer_seat) _ e in
    let (first, e3, e4) =
      >>=-eq-done (deal_round 0 count (next_participating_seat t.seats dealer) t) _ e2 in
    let (second, e5, e6) = >>=-eq-done (deal_round 1 count first.0 first.1) _ e4 in
    let same : second.1 ≡ u = cc in
    let (h1, s1) = deal_round-Holds 0 count (next_participating_seat t.seats dealer) t first e3 in
    let (h2, s2) = deal_round-Holds 1 count first.0 first.1 second e5 in
    subst (Holds t) same (h2 ∙ h1, s2 ∙ s1)

set_initial_actor-same :
    (big participants : ℕ) (t : Table)
    → ((set_initial_actor big participants t).seats ≡ t.seats)
      × ((set_initial_actor big participants t).street ≡ t.street)
unfolding set_initial_actor
set_initial_actor-same big participants t = elim (Option-cases t.dealer_seat) [
  | inl none_set ↦ ground (arith, none_set)
  | inr (d, dealer) ↦ ground (arith, dealer)
]

post_blinds-held :
    (small big : ℕ) (t : Table) → all_held (post_blinds small big t).seats ≡ all_held t.seats
unfolding post_blinds
post_blinds-held small big t =
    all_held-update (post_blind t.config.big_blind) big
      (update_seat small (post_blind t.config.small_blind) t.seats)
      (post_blind-held t.config.big_blind)
    ∙ all_held-update (post_blind t.config.small_blind) small t.seats
        (post_blind-held t.config.small_blind)

open_hand-Accounts :
    (small big participants : ℕ) (t u : Table)
    → is_settled t.street ≡ false
    → open_hand small big participants t ≡ done u
    → Accounts t u
unfolding open_hand open_action post_blinds
open_hand-Accounts small big participants t u run e =
    let opened = open_action (post_blinds small big t) in
    let v = set_initial_actor big participants opened in
    let w = record v { pending_action = []; acting_seat = none } in
    let (seats, street) = set_initial_actor-same big participants opened in
    let same_held : all_held v.seats ≡ all_held t.seats =
      ap (λ s. all_held s) seats ∙ post_blinds-held small big t in
    let running : is_settled v.street ≡ false = ap is_settled street ∙ run in
    elim (Bool-cases (leb (actionable v.seats) 1)) [
      | inl few ↦ advance-Accounts advance_fuel w u running (rw few at e) ∙ same_held
      | inr many ↦
          let same : v ≡ u = let q = rw many at e in cc in
          subst (Accounts t) same (running-Accounts t v running same_held)
    ]

deal_hand-Accounts :
    (front participants : ℕ) (t u : Table)
    → is_settled t.street ≡ false
    → deal_hand front participants t ≡ done u
    → Accounts t u
unfolding deal_hand
deal_hand-Accounts front participants t u run e =
    let v = record t { dealer_seat = some (next_dealer t front) } in
    let (w, e1, e2) = >>=-eq-done (deal_hole_cards participants v) _ e in
    let (small, e3, e4) =
      >>=-eq-done (or_throw (small_blind_seat w (next_dealer t front) participants)) _ e2 in
    let (big, e5, e6) = >>=-eq-done (or_throw (next_participating_seat w.seats small)) _ e4 in
    let (h, s) = deal_hole_cards-Holds participants v w e1 in
    open_hand-Accounts small big participants w u (ap is_settled s ∙ run) e6 ∙ h

start_prepared-Accounts :
    (t u : Table) → is_settled t.street ≡ false → start_prepared t ≡ done (ok, u) → Accounts t u
unfolding start_prepared
start_prepared-Accounts t u run e =
    let seats = participating_seats t.seats in
    elim (Bool-cases (ltb (length seats) t.config.min_players)) [
      | inl few ↦ let q = rw few at e in cc
      | inr enough ↦
          let (front, e1, e2) = >>=-eq-done (or_throw (get_elem? seats 0)) _ (rw enough at e) in
          let (v, e3, e4) = >>=-eq-done (deal_hand front (length seats) t) _ e2 in
          let same : v ≡ u = cc in
          subst (Accounts t) same (deal_hand-Accounts front (length seats) t v run e3)
    ]

prepared-held : (seats : Seats) → all_held (map_players prepare seats) ≡ sum_players stack_of seats
unfolding prepare map_players sum_players
prepared-held [] = refl
prepared-held (none ∷ seats) = prepared-held seats
prepared-held (some p ∷ seats) = omega (arith, prepared-held seats)

-- A hand that starts has the chips of the stacks, no more and no fewer, whoever is dealt in and
-- whatever the blinds take, but for the excess where the hand is dealt out and settled at once.
pub start_hand_accounts :
    (t u : Table) (deck : Deck)
    → start_hand t deck ≡ done (ok, u)
    → total_chips u + unpaid u ≡ sum_players stack_of t.seats
unfolding start_hand prepare_table is_settled
start_hand_accounts t u deck e = elim (Bool-cases (not (config_is_valid t.config))) [
  | inl wrong ↦ let q = rw wrong at e in cc
  | inr right ↦ elim (Bool-cases (hand_is_running t.street)) [
    | inl running ↦ let q = rw (right, running) at e in cc
    | inr over ↦ elim (Bool-cases (ltb (count_players is_dealable t.seats) t.config.min_players)) [
      | inl few ↦ let q = rw (right, over, few) at e in cc
      | inr enough ↦
          start_prepared-Accounts (prepare_table t deck) u refl (rw (right, over, enough) at e)
          ∙ prepared-held t.seats
    ]
  ]
]
