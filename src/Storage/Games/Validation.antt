-- ===== src/Storage/Games/Validation.antt =====
-- include/poker/storage/game_store_validation.hpp.
use poker.Domain.Card.{Card, card_eq, card_index, rank_value}
use poker.Domain.Deck.{contains}
use poker.Prelude.{
  Bool, List, Option, [], false, if◌then◌else◌, leb, length, ltb, none, not, some, true, ℕ, ◌&&◌,
  ◌+◌, ◌-◌, ◌==◌, ◌^◌, ◌||◌, ◌∷◌,
}
use poker.Storage.Games.Records.{HandPlayerSettlement, HandSettlementRecord}

unfoldable pub valid_stored_card : Card → Bool
unfolding rank_value
valid_stored_card c = leb 2 (rank_value c) && leb (rank_value c) 14 && leb c.suit 3

-- `add_card` for each card in turn: the indices seen, or `none` where it returns false.
unfoldable pub add_cards : List ℕ → List Card → Option (List ℕ)
unfolding valid_stored_card contains
add_cards seen [] = some seen
add_cards seen (c ∷ cards) =
    let rest_added = add_cards (card_index c ∷ seen) cards in
    if not (valid_stored_card c) || contains seen (card_index c) then none else rest_added

-- `std::numeric_limits<std::int64_t>::max()`.
abbrev pub maximum : ℕ
maximum = 2 ^ 63 - 1

-- The first test on a player.
unfoldable pub player_is_wrong : List ℕ → HandPlayerSettlement → Bool
unfolding contains
player_is_wrong users p =
    p.user_id == 0
    || leb 6 p.seat
    || ltb p.start_stack p.committed
    || not (length p.hole_cards == 2)
    || contains users p.user_id

-- The second, on the player's amounts and the totals so far.
unfoldable pub amounts_are_wrong : ℕ → ℕ → HandPlayerSettlement → Bool
amounts_are_wrong total_committed total_winnings p =
    let after_commitment = p.start_stack - p.committed in
    ltb (maximum - after_commitment) p.winnings
    || not (p.end_stack == after_commitment + p.winnings)
    || ltb (maximum - total_committed) p.committed
    || ltb (maximum - total_winnings) p.winnings

-- The loop over the players: both totals, or `none` where it returns false.
unfoldable pub check_players : List ℕ → List ℕ → ℕ → ℕ → List HandPlayerSettlement → Option (ℕ × ℕ)
check_players seen users total_committed total_winnings [] = some (total_committed, total_winnings)
check_players seen users total_committed total_winnings (p ∷ players) =
    if player_is_wrong users p then none else elim (add_cards seen p.hole_cards) [
      | none ↦ none
      | some seen' ↦
          let later =
            check_players seen' (p.user_id ∷ users) (total_committed + p.committed)
              (total_winnings + p.winnings) players in
          if amounts_are_wrong total_committed total_winnings p then none else later
    ]

unfoldable pub header_is_wrong : HandSettlementRecord → Bool
header_is_wrong s =
    s.hand_id == 0
    || s.table_id == 0
    || s.hand_number == 0
    || ltb (length s.players) 2
    || ltb 6 (length s.players)
    || ltb 5 (length s.board)

unfoldable pub totals_match : ℕ → Option (ℕ × ℕ) → Bool
totals_match pot none = false
totals_match pot (some (total_committed, total_winnings)) =
    total_committed == pot && total_winnings == pot

unfoldable pub valid_hand_settlement : HandSettlementRecord → Bool
valid_hand_settlement s = if header_is_wrong s then false else elim (add_cards [] s.board) [
  | none ↦ false
  | some seen ↦ totals_match s.total_pot (check_players seen [] 0 0 s.players)
]

unfoldable pub cards_eq : List Card → List Card → Bool
unfolding card_eq
cards_eq [] [] = true
cards_eq (c ∷ cs) (d ∷ ds) = card_eq c d && cards_eq cs ds
cards_eq _ _ = false

abbrev pub same_bool : Bool → Bool → Bool
same_bool true b = b
same_bool false b = not b

unfoldable pub equivalent_player : HandPlayerSettlement → HandPlayerSettlement → Bool
unfolding cards_eq
equivalent_player left right =
    left.user_id == right.user_id
    && left.seat == right.seat
    && left.start_stack == right.start_stack
    && left.committed == right.committed
    && left.winnings == right.winnings
    && left.end_stack == right.end_stack
    && cards_eq left.hole_cards right.hole_cards
    && same_bool left.is_folded right.is_folded

unfoldable pub equivalent_players : List HandPlayerSettlement → List HandPlayerSettlement → Bool
unfolding equivalent_player
equivalent_players [] [] = true
equivalent_players (p ∷ ps) (q ∷ qs) = equivalent_player p q && equivalent_players ps qs
equivalent_players _ _ = false

unfoldable pub equivalent_hand_settlement : HandSettlementRecord → HandSettlementRecord → Bool
unfolding cards_eq equivalent_players
equivalent_hand_settlement lhs rhs =
    lhs.hand_id == rhs.hand_id
    && lhs.table_id == rhs.table_id
    && lhs.hand_number == rhs.hand_number
    && lhs.dealer_seat == rhs.dealer_seat
    && cards_eq lhs.board rhs.board
    && lhs.total_pot == rhs.total_pot
    && equivalent_players lhs.players rhs.players
