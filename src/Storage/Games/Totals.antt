-- ===== src/Storage/Games/Totals.antt =====
-- What `validHandSettlement` establishes.
use poker.Domain.Deck.{contains}
use poker.Prelude.{
  Bool-cases, List, Option-cases, [], arith, false, if◌then◌else◌, inl, inr, some, subst, sym, true,
  ℕ, ◌+◌, ◌==◌, ◌∷◌, ◌≡◌, ◌≢◌,
}
use poker.Storage.Games.Records.{HandPlayerSettlement, HandSettlementRecord}
use poker.Storage.Games.Validation.{
  add_cards, amounts_are_wrong, check_players, header_is_wrong, player_is_wrong, totals_match,
  valid_hand_settlement,
}

abbrev pub committed_of : ℕ → List HandPlayerSettlement → ℕ
committed_of user [] = 0
committed_of user (p ∷ players) =
    (if p.user_id == user then p.committed else 0) + committed_of user players

abbrev pub winnings_of : ℕ → List HandPlayerSettlement → ℕ
winnings_of user [] = 0
winnings_of user (p ∷ players) =
    (if p.user_id == user then p.winnings else 0) + winnings_of user players

abbrev pub all_committed : List HandPlayerSettlement → ℕ
all_committed [] = 0
all_committed (p ∷ players) = p.committed + all_committed players

abbrev pub all_winnings : List HandPlayerSettlement → ℕ
all_winnings [] = 0
all_winnings (p ∷ players) = p.winnings + all_winnings players

-- No player in the list is the user.
abbrev pub IsAbsent : ℕ → List HandPlayerSettlement → Type 0
IsAbsent user [] = Unit
IsAbsent user (p ∷ players) = ((p.user_id == user) ≡ false) × IsAbsent user players

-- Each user plays once.
abbrev pub IsDistinct : List HandPlayerSettlement → Type 0
IsDistinct [] = Unit
IsDistinct (p ∷ players) = IsAbsent p.user_id players × IsDistinct players

-- What the loop over the players has tested of one of them.
abbrev IsAccepted : List ℕ → ℕ → ℕ → HandPlayerSettlement → Type 0
IsAccepted users tc tw p = (player_is_wrong users p ≡ false) × (amounts_are_wrong tc tw p ≡ false)

check_players-step :
    (seen users : List ℕ) (tc tw : ℕ) (p : HandPlayerSettlement)
    (players : List HandPlayerSettlement) (r : ℕ × ℕ)
    → check_players seen users tc tw (p ∷ players) ≡ some r
    → IsAccepted users tc tw p
      × ((seen' : List ℕ) × (check_players seen'
              (p.user_id ∷ users)
              (tc + p.committed)
              (tw + p.winnings)
              players
            ≡ some r))
unfolding check_players
check_players-step seen users tc tw p players r h = elim (Bool-cases (player_is_wrong users p)) [
  | inl wrong ↦ let q = rw wrong at h in cc
  | inr right ↦ elim (Option-cases (add_cards seen p.hole_cards)) [
    | inl clash ↦ let q = rw (right, clash, check_players) at h in cc
    | inr (seen', added) ↦ elim (Bool-cases (amounts_are_wrong tc tw p)) [
      | inl off ↦ let q = rw (right, added, off, check_players) at h in cc
      | inr fine ↦ ((right, fine), (seen', rw (right, added, fine, check_players) at h))
    ]
  ]
]

check_players-sums :
    (seen users : List ℕ) (tc tw : ℕ) (players : List HandPlayerSettlement) (r : ℕ × ℕ)
    → check_players seen users tc tw players ≡ some r
    → (r.0 ≡ tc + all_committed players) × (r.1 ≡ tw + all_winnings players)
unfolding check_players
check_players-sums seen users tc tw [] r h = ground arith
check_players-sums seen users tc tw (p ∷ players) r h =
    let (tested, (seen', later)) = check_players-step seen users tc tw p players r h in
    let (c, w) =
      check_players-sums seen' (p.user_id ∷ users) (tc + p.committed) (tw + p.winnings) players r
        later in
    (omega (arith, c), omega (arith, w))

wrong_of :
    (users : List ℕ) (p : HandPlayerSettlement)
    → contains users p.user_id ≡ true
    → player_is_wrong users p ≢ false
unfolding player_is_wrong
wrong_of users p listed right = ground (arith, listed, right)

check_players-IsAbsent :
    (seen users : List ℕ) (tc tw user : ℕ) (players : List HandPlayerSettlement) (r : ℕ × ℕ)
    → contains users user ≡ true
    → check_players seen users tc tw players ≡ some r
    → IsAbsent user players
unfolding contains
check_players-IsAbsent seen users tc tw user [] r known h = tt
check_players-IsAbsent seen users tc tw user (p ∷ players) r known h =
    let ((right, fine), (seen', later)) = check_players-step seen users tc tw p players r h in
    let still : contains (p.user_id ∷ users) user ≡ true = ground (arith, known) in
    (
      fresh right,
      check_players-IsAbsent seen' (p.user_id ∷ users) (tc + p.committed) (tw + p.winnings) user
          players r still later,
    )
  where
    fresh : player_is_wrong users p ≡ false → (p.user_id == user) ≡ false
    fresh right = elim (Bool-cases (p.user_id == user)) [
      | inr e ↦ e
      | inl e ↦
          let same : p.user_id ≡ user = ground arith in
          let listed : contains users p.user_id ≡ true =
            subst (λ i. contains users i ≡ true) (sym same) known in
          absurd (wrong_of users p listed right)
    ]

check_players-IsDistinct :
    (seen users : List ℕ) (tc tw : ℕ) (players : List HandPlayerSettlement) (r : ℕ × ℕ)
    → check_players seen users tc tw players ≡ some r
    → IsDistinct players
unfolding contains
check_players-IsDistinct seen users tc tw [] r h = tt
check_players-IsDistinct seen users tc tw (p ∷ players) r h =
    let (tested, (seen', later)) = check_players-step seen users tc tw p players r h in
    let listed : contains (p.user_id ∷ users) p.user_id ≡ true = ground arith in
    (
      check_players-IsAbsent seen' (p.user_id ∷ users) (tc + p.committed) (tw + p.winnings)
          p.user_id players r listed later,
      check_players-IsDistinct seen' (p.user_id ∷ users) (tc + p.committed) (tw + p.winnings)
          players r later,
    )

abbrev pub IsBalanced : HandSettlementRecord → Type 0
IsBalanced s =
    IsDistinct s.players
    × (all_committed s.players ≡ s.total_pot)
    × (all_winnings s.players ≡ s.total_pot)

-- A settlement that passes `validHandSettlement` names each user once, and pays out in all just what
-- was put in, which is its pot.
pub valid_hand_settlement-balances :
    (s : HandSettlementRecord) → valid_hand_settlement s ≡ true → IsBalanced s
unfolding valid_hand_settlement totals_match
valid_hand_settlement-balances s h = elim (Bool-cases (header_is_wrong s)) [
  | inl wrong ↦ let q = rw wrong at h in cc
  | inr right ↦ elim (Option-cases (add_cards [] s.board)) [
    | inl clash ↦ let q = rw (right, clash, valid_hand_settlement) at h in cc
    | inr (seen, added) ↦ elim (Option-cases (check_players seen [] 0 0 s.players)) [
      | inl off ↦ let q = rw (right, added, off, valid_hand_settlement) at h in cc
      | inr ((tc, tw), counted) ↦
          let q = rw (right, added, counted, valid_hand_settlement, totals_match) at h in
          let (c, w) = check_players-sums seen [] 0 0 s.players (tc, tw) counted in
          (
            check_players-IsDistinct seen [] 0 0 s.players (tc, tw) counted,
            ground (arith, c, q),
            ground (arith, w, q),
          )
    ]
  ]
]
