-- ===== src/Domain/Table/Street.antt =====
-- From the end of a betting round to the next action or to the settlement.
use mathlib.Core.Option
use poker.Domain.Card.{Card}
use poker.Domain.Deck.{burn, draw}
use poker.Domain.Table.Pots.{add_stack, build_and_award_pots, is_empty}
use poker.Domain.Table.Seats.{
  actionable, contenders, count_players, first_postflop_actor, insert_players, map_players, member,
  next_can_act_seat, pot_size, update_seat,
}
use poker.Domain.Table.State.{
  Player, Seats, Street, Table, can_act, flop, is_contender, preflop, river, settled, showdown,
  turn,
}
use poker.Prelude.{
  Bool, Option, Run, [], done, false, if◌then◌else◌, inc64, leb, length, ltb, none, not, or_throw,
  out_of_fuel, some, suc, threw, true, zero, ℕ, ◌&&◌, ◌++◌, ◌==◌, ◌>>=◌, ◌||◌, ◌∷◌,
}

-- `deck_->draw()` and `deck_->burn()`.
unfoldable pub draw_card : Table → Run (Card × Table)
draw_card t = or_throw t.deck >>= λ d. draw d >>= λ r. done (r.0, record t { deck = some r.1 })

unfoldable pub burn_card : Table → Run Table
burn_card t = or_throw t.deck >>= λ d. burn d >>= λ d'. done (record t { deck = some d' })

-- `board_.push_back(deck_->draw())`.
unfoldable pub push_board : Table → Run Table
push_board t = draw_card t >>= λ r. done (record r.1 { board = r.1.board ++ (r.0 ∷ []) })

unfoldable pub reveal_flop : Table → Run Table
reveal_flop t = burn_card t >>= push_board >>= push_board >>= push_board

unfoldable pub reveal_one : Table → Run Table
reveal_one t = burn_card t >>= push_board

unfoldable pub not_ready : Player → Player
not_ready p = record p { ready = false }

unfoldable pub mark_settled : Table → Table
mark_settled t = record t {
  seats = map_players not_ready t.seats;
  street = settled;
  acting_seat = none;
  pending_action = [];
  raise_allowed = [];
  current_bet = 0;
  server_sequence = inc64 t.server_sequence;
}

-- The first player still in the hand, by seat; the reference to it is updated.
unfoldable pub first_contender : Seats → Option (ℕ × Player)
first_contender [] = none
first_contender (none ∷ seats) = Option.map (λ r. (suc r.0, r.1)) (first_contender seats)
first_contender (some p ∷ seats) =
    if is_contender p then some (0, p) else Option.map (λ r. (suc r.0, r.1)) (first_contender seats)

unfoldable pub settle_fold_win : Table → Run Table
settle_fold_win t = or_throw (first_contender t.seats) >>= λ w.
    let pot = pot_size t.seats in
    done (
      mark_settled (record t {
        seats = update_seat w.0 (add_stack pot) t.seats;
        last_awards =
            record { pot_size = pot; winners = w.1.id ∷ []; equal_share = pot; odd_chips = 0 } ∷ [];
      }))

-- `while (board_.size() < 5)`, in as many rounds as cards can be missing.
unfoldable pub fill_board : ℕ → Table → Run Table
fill_board zero t = if ltb (length t.board) 5 then out_of_fuel else done t
fill_board (suc fuel) t = elim (ltb (length t.board) 5) [
  | false ↦ done t
  | true ↦ (if is_empty t.board then reveal_flop t else reveal_one t) >>= fill_board fuel
]

unfoldable pub settle_showdown : Table → Run Table
settle_showdown t = fill_board 5 (record t { street = showdown }) >>= build_and_award_pots >>= λ r.
    done (mark_settled (record r.0 { last_awards = r.1 }))

unfoldable pub clear_street : Player → Player
clear_street p = record p { street_commitment = 0 }

-- The first part of `advanceStreet`.
unfoldable pub reset_street : Table → Table
reset_street t = record t {
  seats = map_players clear_street t.seats;
  current_bet = 0;
  minimum_raise = t.config.big_blind;
  pending_action = [];
  raise_allowed = [];
}

-- The `switch` of `advanceStreet`, on the street before.
unfoldable pub next_street : Street → Table → Run Table
next_street preflop t = reveal_flop (record t { street = flop })
next_street flop t = reveal_one (record t { street = turn })
next_street turn t = reveal_one (record t { street = river })
next_street _ t = threw

-- All that can act may act and raise.
unfoldable pub open_action : Table → Table
open_action t = record t {
  pending_action = insert_players can_act t.seats t.pending_action;
  raise_allowed = insert_players can_act t.seats t.raise_allowed;
}

unfoldable pub advance_street : Table → Run Table
advance_street t = next_street t.street (reset_street t) >>= λ u. done (open_action u)

-- A player that can act still has to, or owes chips.
unfoldable pub keeps_open : Table → Player → Bool
keeps_open t p =
    can_act p && (member p.id t.pending_action || not (p.street_commitment == t.current_bet))

unfoldable pub betting_round_complete : Table → Bool
betting_round_complete t = leb (contenders t.seats) 1 || count_players (keeps_open t) t.seats == 0

-- The actor of an incomplete round, where there is none yet.
unfoldable pub choose_actor : Table → Table
choose_actor t = elim t.acting_seat [
  | some i ↦ t
  | none ↦ record t {
    acting_seat = elim t.street [
      | preflop ↦ elim t.dealer_seat [
        | some d ↦ next_can_act_seat t d
        | none ↦ first_postflop_actor t
      ]
      | _ ↦ first_postflop_actor t
    ];
  }
]

unfoldable pub is_river : Street → Bool
is_river river = true
is_river _ = false

-- `advanceUntilActionOrSettlement`, one unit of fuel for each round of its loop.
unfoldable pub advance : ℕ → Table → Run Table
advance zero t = out_of_fuel
advance (suc fuel) t =
    if leb (contenders t.seats) 1
    then settle_fold_win t
    else if not (betting_round_complete t)
    then done (choose_actor t)
    else if is_river t.street
    then settle_showdown t
    else (advance_street t >>= λ u.
        let again = advance fuel (record u { pending_action = []; acting_seat = none }) in
        if leb (actionable u.seats) 1
        then again
        else done (record u { acting_seat = first_postflop_actor u }))

-- The streets preflop, flop, turn and river need at most four rounds.
abbrev pub advance_fuel : ℕ
advance_fuel = 4
