-- ===== src/Domain/Evaluator.antt =====
-- include/poker/domain/hand_evaluator.hpp and src/poker/domain/hand_evaluator.cpp. The arrays of
-- counts are functions of the rank and of the suit. The code reads `counts` at the ranks 2 to 14
-- only; that a card has such a rank is the caller's affair, since its check is on the index.
mod Examples
pub mod Order
pub mod Best
pub mod Invariance
use poker.Domain.Card.{Card}
use poker.Domain.Deck.{all_new}
use poker.Prelude.{
  Bool, List, Option, Run, String, [], done, false, if◌then◌else◌, length, ltb, map, none, not,
  replicate, some, suc, take, threw, true, zero, ℕ, ◌&&◌, ◌++◌, ◌+◌, ◌==◌, ◌>>=◌, ◌||◌, ◌∷◌,
}

pub data HandCategory : Type 0 where
  high_card one_pair two_pair three_of_a_kind straight flush full_house four_of_a_kind
        straight_flush :
      HandCategory

-- The enumerator's number.
unfoldable pub category_value : HandCategory → ℕ
category_value high_card = 0
category_value one_pair = 1
category_value two_pair = 2
category_value three_of_a_kind = 3
category_value straight = 4
category_value flush = 5
category_value full_house = 6
category_value four_of_a_kind = 7
category_value straight_flush = 8

-- `tiebreak` is an array of five bytes.
pub record HandValue : Type 0 where
  pub category : HandCategory
  pub tiebreak : List ℕ

abbrev pub hand : HandCategory → List ℕ → HandValue
hand c t = record { category = c; tiebreak = t }

-- `std::array`'s `==` and `<`.
unfoldable pub list_eq : List ℕ → List ℕ → Bool
list_eq [] [] = true
list_eq (x ∷ xs) (y ∷ ys) = x == y && list_eq xs ys
list_eq _ _ = false

unfoldable pub list_lt : List ℕ → List ℕ → Bool
list_lt [] [] = false
list_lt [] (y ∷ ys) = true
list_lt (x ∷ xs) [] = false
list_lt (x ∷ xs) (y ∷ ys) = if ltb x y then true else if ltb y x then false else list_lt xs ys

unfoldable pub value_eq : HandValue → HandValue → Bool
unfolding category_value list_eq
value_eq lhs rhs =
    category_value lhs.category == category_value rhs.category && list_eq lhs.tiebreak rhs.tiebreak

-- `operator<`, by `std::tie`: the category first, then the tiebreak.
unfoldable pub value_lt : HandValue → HandValue → Bool
unfolding category_value list_lt
value_lt lhs rhs =
    if ltb (category_value lhs.category) (category_value rhs.category)
    then true
    else if ltb (category_value rhs.category) (category_value lhs.category)
    then false
    else list_lt lhs.tiebreak rhs.tiebreak

unfoldable pub value_ne : HandValue → HandValue → Bool
value_ne lhs rhs = not (value_eq lhs rhs)

unfoldable pub value_gt : HandValue → HandValue → Bool
value_gt lhs rhs = value_lt rhs lhs

unfoldable pub value_le : HandValue → HandValue → Bool
value_le lhs rhs = not (value_lt rhs lhs)

unfoldable pub value_ge : HandValue → HandValue → Bool
value_ge lhs rhs = not (value_lt lhs rhs)

unfoldable pub count_rank : List Card → ℕ → ℕ
count_rank [] r = 0
count_rank (c ∷ cards) r = (if c.rank == r then 1 else 0) + count_rank cards r

unfoldable pub count_suit : List Card → ℕ → ℕ
count_suit [] s = 0
count_suit (c ∷ cards) s = (if c.suit == s then 1 else 0) + count_suit cards s

-- The loop of `straightHigh`, with `left` ranks to go down to 2: the rank is `left + 1`.
unfoldable pub straight_from : (ℕ → ℕ) → ℕ → ℕ → ℕ
straight_from counts zero consecutive = 0
straight_from counts (suc left) consecutive =
    let down = straight_from counts left (consecutive + 1) in
    let broken = straight_from counts left 0 in
    if ltb 0 (counts (left + 2))
    then if consecutive + 1 == 5 then left + 2 + 4 else down
    else broken

unfoldable pub straight_high : (ℕ → ℕ) → ℕ
unfolding straight_from
straight_high counts =
    let high = straight_from counts 13 0 in
    if high == 0
    then if ltb 0 (counts 14)
        && ltb 0 (counts 2)
        && ltb 0 (counts 3)
        && ltb 0 (counts 4)
        && ltb 0 (counts 5)
      then 5
      else 0
    else high

-- The first five places of an array that starts out as zeros.
abbrev pub five : List ℕ → List ℕ
five xs = take 5 (xs ++ replicate 5 0)

-- The loop of `descendingRanks`, from the rank `left + 1` down to 2.
unfoldable pub ranks_from : (ℕ → ℕ) → ℕ → List ℕ
ranks_from counts zero = []
ranks_from counts (suc left) = replicate (counts (left + 2)) (left + 2) ++ ranks_from counts left

unfoldable pub descending_ranks : (ℕ → ℕ) → List ℕ
unfolding ranks_from
descending_ranks counts = five (ranks_from counts 13)

-- The ranks with a count of `k`, from the rank `left + 1` down to 2.
unfoldable pub ranks_with : (ℕ → ℕ) → ℕ → ℕ → List ℕ
ranks_with counts k zero = []
ranks_with counts k (suc left) =
    if counts (left + 2) == k
    then (left + 2) ∷ ranks_with counts k left
    else ranks_with counts k left

-- What the grouping loop leaves in `four`, `three` and `pairs`: the last rank found for the first
-- two, which stay 0 where there is none, and the first two pairs.
unfoldable pub last_or_zero : List ℕ → ℕ
last_or_zero [] = 0
last_or_zero (r ∷ []) = r
last_or_zero (r ∷ s ∷ rs) = last_or_zero (s ∷ rs)

-- The kicker loop: the first rank of a single card, or 0.
unfoldable pub first_or_zero : List ℕ → ℕ
first_or_zero [] = 0
first_or_zero (r ∷ rs) = r

-- The last branches, on `pair_count`.
unfoldable pub classify_pairs : (ℕ → ℕ) → List ℕ → HandValue
unfolding descending_ranks ranks_with first_or_zero
classify_pairs counts [] = hand high_card (descending_ranks counts)
classify_pairs counts (p ∷ []) = hand one_pair (five (p ∷ take 3 (ranks_with counts 1 13)))
classify_pairs counts (p ∷ q ∷ _) =
    hand two_pair (five (p ∷ q ∷ first_or_zero (ranks_with counts 1 13) ∷ []))

-- The branches below the two on four of a kind and on the full house.
unfoldable pub classify_rest : Bool → ℕ → ℕ → List ℕ → (ℕ → ℕ) → HandValue
unfolding descending_ranks ranks_with classify_pairs
classify_rest is_flush straight_rank three pairs counts =
    if is_flush
    then hand flush (descending_ranks counts)
    else if not (straight_rank == 0)
    then hand straight (five (straight_rank ∷ []))
    else if not (three == 0)
    then hand three_of_a_kind (five (three ∷ take 2 (ranks_with counts 1 13)))
    else classify_pairs counts pairs

-- `evaluateFive` after its first loop.
unfoldable pub classify : (ℕ → ℕ) → (ℕ → ℕ) → HandValue
unfolding straight_high ranks_with last_or_zero first_or_zero classify_rest
classify counts suit_counts =
    let is_flush =
      suit_counts 0 == 5 || suit_counts 1 == 5 || suit_counts 2 == 5 || suit_counts 3 == 5 in
    let straight_rank = straight_high counts in
    let four = last_or_zero (ranks_with counts 4 13) in
    let three = last_or_zero (ranks_with counts 3 13) in
    let pairs = take 2 (ranks_with counts 2 13) in
    if is_flush && not (straight_rank == 0)
    then hand straight_flush (five (straight_rank ∷ []))
    else if not (four == 0)
    then hand four_of_a_kind (five (four ∷ first_or_zero (ranks_with counts 1 13) ∷ []))
    else if not (three == 0) && ltb 0 (length pairs)
    then hand full_house (five (three ∷ first_or_zero pairs ∷ []))
    else classify_rest is_flush straight_rank three pairs counts

-- `evaluateFive`, for the five cards of its array. Where a rank above 14 or a suit above 3
-- passes the check on the index, the code writes past one of its arrays of counts, which is undefined;
-- here the count is kept and nothing reads it.
unfoldable pub evaluate_five : List Card → Run HandValue
unfolding classify count_rank count_suit
evaluate_five cards =
    if all_new [] cards then done (classify (count_rank cards) (count_suit cards)) else threw

-- The choices of `k` cards, in the order of the five nested loops over increasing indices.
unfoldable pub choose : ℕ → List Card → List (List Card)
choose zero cards = [] ∷ []
choose (suc k) [] = []
choose (suc k) (c ∷ cards) = map (◌∷◌ c) (choose k cards) ++ choose (suc k) cards

-- The test `!initialized || best < value`, where `none` is `!initialized`.
unfoldable pub better : Option HandValue → HandValue → HandValue
unfolding value_lt
better none v = v
better (some b) v = if value_lt b v then v else b

-- The innermost statement, for each choice in turn.
unfoldable pub best_of : Option HandValue → List (List Card) → Run (Option HandValue)
unfolding evaluate_five better
best_of best [] = done best
best_of best (h ∷ hands) = evaluate_five h >>= λ value. best_of (some (better best value)) hands

-- `HandValue best{}`.
unfoldable pub or_default : Option HandValue → HandValue
or_default none = hand high_card (five [])
or_default (some v) = v

unfoldable pub evaluate_best : List Card → Run HandValue
unfolding best_of choose or_default
evaluate_best cards =
    if ltb (length cards) 5 || ltb 7 (length cards)
    then threw
    else if all_new [] cards
    then (best_of none (choose 5 cards) >>= λ best. done (or_default best))
    else threw

-- `toString(HandCategory)`.
unfoldable pub category_text : HandCategory → String
category_text high_card = "high card"
category_text one_pair = "one pair"
category_text two_pair = "two pair"
category_text three_of_a_kind = "three of a kind"
category_text straight = "straight"
category_text flush = "flush"
category_text full_house = "full house"
category_text four_of_a_kind = "four of a kind"
category_text straight_flush = "straight flush"
