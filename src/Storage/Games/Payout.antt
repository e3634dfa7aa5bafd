-- ===== src/Storage/Games/Payout.antt =====
-- Settling a hand pays each player the winnings for the commitment.
use poker.Prelude.{
  Bool-cases, IsUnique, List, Option-cases, [], arith, done, false, find_key, find_key-put_if, inl,
  inr, put_key, put_key-IsUnique, refl, some, subst, true, ℕ, ◌+◌, ◌==◌, ◌∷◌, ◌≡◌,
}
use poker.Storage.Accounts.{StorageError, conflict, duplicate, invalid_data, not_found, ok}
use poker.Storage.Games.Bank.{Change, Refines, kept, kept-Refines, played}
use poker.Storage.Games.Hands.{ends_match, pay_ends, settle_hand, settle_table}
use poker.Storage.Games.Holdings.{
  AreSound-find, AreSound-put, HasWallets, HasWallets-find, HasWallets-put, IsSound, at_tables-put,
  stack_in, stack_in-put,
}
use poker.Storage.Games.Records.{
  GameStore, HandPlayerSettlement, HandSettlementRecord, SeatRecord, StoredTable,
}
use poker.Storage.Games.Totals.{
  IsAbsent, IsDistinct, committed_of, valid_hand_settlement-balances, winnings_of,
}
use poker.Storage.Games.Validation.{equivalent_hand_settlement, valid_hand_settlement}

ends_match-step :
    (seats : List (ℕ × SeatRecord)) (p : HandPlayerSettlement) (players : List HandPlayerSettlement)
    → ends_match seats (p ∷ players) ≡ true
    → (s : SeatRecord) × (find_key p.user_id seats ≡ some s)
      × (s.stack ≡ p.start_stack)
      × (p.end_stack + p.committed ≡ p.start_stack + p.winnings)
      × (ends_match seats players ≡ true)
unfolding ends_match
ends_match-step seats p players h = elim (Option-cases (find_key p.user_id seats)) [
  | inl away ↦ let q = rw (away, ends_match) at h in cc
  | inr (s, sits) ↦
      let q = rw (sits, ends_match) at h in
      (s, sits, ground (arith, q), ground (arith, q), ground (arith, q))
]

-- A change of another user's seat does not matter.
ends_match-put :
    (seats : List (ℕ × SeatRecord)) (user : ℕ) (s : SeatRecord)
    (players : List HandPlayerSettlement)
    → IsAbsent user players
    → ends_match seats players ≡ true
    → ends_match (put_key user s seats) players ≡ true
unfolding ends_match
ends_match-put seats user s [] absent h = refl
ends_match-put seats user s (p ∷ players) (other, absent) h =
    let (t, sits, e, f, later) = ends_match-step seats p players h in
    let differs : (user == p.user_id) ≡ false = ground arith in
    let still : find_key p.user_id (put_key user s seats) ≡ some t =
      rw (find_key-put_if user p.user_id s seats, differs) sits in
    let ih = ends_match-put seats user s players absent later in
    let q = rw (sits, ends_match) at h in rw (still, ih, ends_match) (ground (arith, q))

-- The loop reaches its end, and each user's stack grows by the winnings less the commitment.
pub pay_ends-total :
    (w : List (ℕ × ℕ)) (seats : List (ℕ × SeatRecord)) (players : List HandPlayerSettlement)
    → IsDistinct players
    → ends_match seats players ≡ true
    → IsUnique seats
    → HasWallets w seats
    → (seats' : List (ℕ × SeatRecord)) × (pay_ends seats players ≡ done seats')
      × IsUnique seats'
      × HasWallets w seats'
      × ((i : ℕ)
          → stack_in i seats' + committed_of i players ≡ stack_in i seats + winnings_of i players)
unfolding pay_ends
pay_ends-total w seats [] distinct h u has = (seats, refl, u, has, λ i. refl)
pay_ends-total w seats (p ∷ players) (absent, distinct) h u has =
    let (s, sits, start, balanced, later) = ends_match-step seats p players h in
    let s' : SeatRecord = record s { stack = p.end_stack } in
    let seats1 = put_key p.user_id s' seats in
    let (seats', paid, u', has', sums) =
      pay_ends-total w seats1 players distinct
        (ends_match-put seats p.user_id s' players absent later)
        (put_key-IsUnique p.user_id s' seats u)
        (HasWallets-put w p.user_id s' seats (HasWallets-find w p.user_id s seats sits has) has) in
    (
      seats',
      rw sits paid,
      u',
      has',
      λ i.
          let t = stack_in-put p.user_id i s' seats in
          let e = sums i in
          elim (Bool-cases (p.user_id == i)) [
            | inr other ↦ rw other (omega (arith, e, rw other at t))
            | inl hit ↦
                let same : p.user_id ≡ i = ground arith in
                let here : stack_in i seats ≡ s.stack =
                  rw (subst (λ j. find_key j seats ≡ some s) same sits, stack_in) refl in
                rw hit (omega (arith, e, rw hit at t, here, start, balanced))
          ],
    )

abbrev pub settling : StorageError → HandSettlementRecord → Change
settling ok value = played value.players
settling _ value = kept

settle_table-Refines :
    (store : GameStore) (value : HandSettlementRecord) (table : StoredTable)
    → IsSound store
    → IsDistinct value.players
    → find_key value.table_id store.tables ≡ some table
    → ends_match table.seats value.players ≡ true
    → (store' : GameStore) × (settle_table store value table ≡ done (ok, store'))
      × Refines store (played value.players) store'
unfolding settle_table
settle_table-Refines store value table sound distinct there matched =
    let (u, has) = AreSound-find store.wallets value.table_id table store.tables there sound in
    let (seats', paid, u', has', sums) =
      pay_ends-total store.wallets table.seats value.players distinct matched u has in
    let table' : StoredTable = record table { seats = seats'; hand_in_progress = false } in
    (
      record store {
        settlements = put_key value.hand_id value store.settlements;
        tables = put_key value.table_id table' store.tables;
      },
      rw paid refl,
      (
        AreSound-put store.wallets value.table_id table' store.tables (u', has') sound,
        λ i.
            let e = at_tables-put i value.table_id table table' store.tables there in
            omega (arith, e, sums i),
      ),
    )

-- `settleHand` never throws, and does just what its result says.
pub settle_hand-Refines :
    (store : GameStore) (value : HandSettlementRecord)
    → IsSound store
    → (r : StorageError × GameStore) × (settle_hand store value ≡ done r)
      × Refines store (settling r.0 value) r.1
unfolding settle_hand
settle_hand-Refines store value sound = elim (Bool-cases (valid_hand_settlement value)) [
  | inr wrong ↦ ((invalid_data, store), rw (wrong, settle_hand) refl, kept-Refines store sound)
  | inl valid ↦ elim (Option-cases (find_key value.hand_id store.settlements)) [
    | inr (existing, settled_) ↦ elim (Bool-cases (equivalent_hand_settlement existing value)) [
      | inl eq ↦
          ((duplicate, store), rw (valid, settled_, eq, settle_hand) refl, kept-Refines store sound)
      | inr ne ↦
          ((conflict, store), rw (valid, settled_, ne, settle_hand) refl, kept-Refines store sound)
    ]
    | inl open_ ↦ elim (Option-cases (find_key value.hand_id store.hand_starts)) [
      | inl never ↦
          ((not_found, store), rw (valid, open_, never, settle_hand) refl, kept-Refines store sound)
      | inr (start, started) ↦ elim (Option-cases (find_key value.table_id store.tables)) [
        | inl new ↦ (
          (not_found, store),
          rw (valid, open_, started, new, settle_hand) refl,
          kept-Refines store sound,
        )
        | inr (table, there) ↦ elim (Bool-cases table.is_aborted) [
          | inl gone ↦ (
            (not_found, store),
            simp (valid, open_, started, there, gone, settle_hand),
            kept-Refines store sound,
          )
          | inr live ↦ elim (Bool-cases table.hand_in_progress) [
            | inr idle ↦ (
              (duplicate, store),
              simp (valid, open_, started, there, live, idle, settle_hand),
              kept-Refines store sound,
            )
            | inl playing ↦ elim (Bool-cases (ends_match table.seats value.players)) [
              | inr off ↦ (
                (conflict, store),
                simp (valid, open_, started, there, live, playing, off, settle_hand),
                kept-Refines store sound,
              )
              | inl matched ↦
                  let (distinct, c, v) = valid_hand_settlement-balances value valid in
                  let (store', paid, refined) =
                    settle_table-Refines store value table sound distinct there matched in
                  (
                    (ok, store'),
                    simp (valid, open_, started, there, live, playing, matched, paid, settle_hand),
                    refined,
                  )
            ]
          ]
        ]
      ]
    ]
  ]
]
