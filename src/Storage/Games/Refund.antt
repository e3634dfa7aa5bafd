-- ===== src/Storage/Games/Refund.antt =====
-- Giving up a table returns every stack on it to its owner's wallet.
use poker.Prelude.{
  Bool-cases, IsUnique, List, Option-cases, [], arith, false, find_key, find_key-put, inl, inr,
  none, put_key, refl, some, subst, true, ℕ, ◌+◌, ◌==◌, ◌∷◌, ◌≡◌, ◌≢◌, ◌⊎◌,
}
use poker.Storage.Accounts.{conflict, failed, not_found, ok}
use poker.Storage.Games.Bank.{Refines, kept, kept-Refines}
use poker.Storage.Games.Hands.{abort_table_and_refund, refund_seats}
use poker.Storage.Games.Holdings.{
  AreSound-Keeps, AreSound-find, AreSound-put, HasWallets, HasWallets-Keeps, IsSound, Keeps,
  at_tables-put, balance_of, balance_of-put, put_key-Keeps, stack_in,
}
use poker.Storage.Games.Records.{GameStore, SeatRecord, StoredTable}
use poker.Storage.Games.Store.{find_table}

pub refund_seats-total :
    (seats : List (ℕ × SeatRecord)) (wallets : List (ℕ × ℕ))
    → IsUnique seats
    → HasWallets wallets seats
    → ((refund_seats seats wallets).0 ≡ true)
      × Keeps wallets (refund_seats seats wallets).1
      × ((i : ℕ)
          → balance_of i (refund_seats seats wallets).1 ≡ balance_of i wallets + stack_in i seats)
unfolding refund_seats find_key
refund_seats-total [] wallets u has = (refl, λ i h. h, λ i. omega arith)
refund_seats-total ((user, s) ∷ seats) wallets (fresh, u) (here, has) =
    elim (Option-cases (find_key user wallets)) [
      | inl poor ↦ let q = rw poor at here in cc
      | inr (balance, rich) ↦
          let w1 = put_key user (balance + s.stack) wallets in
          let grows = put_key-Keeps user (balance + s.stack) wallets in
          let (ran, k, sums) =
            refund_seats-total seats w1 u (HasWallets-Keeps wallets w1 seats grows has) in
          (
            rw (rich, refund_seats) ran,
            λ i h. rw (rich, refund_seats) (k i (grows i h)),
            λ i.
                let e = sums i in
                let b = balance_of-put user i (balance + s.stack) wallets in
                elim (Bool-cases (user == i)) [
                  | inr other ↦
                      rw (rich, other, refund_seats, stack_in) (omega (arith, e, rw other at b))
                  | inl hit ↦
                      let same : user ≡ i = ground arith in
                      let old : balance_of i wallets ≡ balance =
                        rw (subst (λ j. find_key j wallets ≡ some balance) same rich, balance_of)
                          refl in
                      let once : stack_in i seats ≡ 0 =
                        rw (subst (λ j. find_key j seats ≡ none) same fresh, stack_in) refl in
                      rw (rich, hit, refund_seats, stack_in)
                        (omega (arith, e, rw hit at b, old, once))
                ],
          )
    ]

given_up : StoredTable → StoredTable
given_up table = record table {
  seats = [];
  occupied_seats = [];
  is_aborted = true;
  hand_in_progress = false;
}

refund_table-Refines :
    (store : GameStore) (id : ℕ) (table : StoredTable)
    → IsSound store
    → find_key id store.tables ≡ some table
    → Refines store kept (record store {
      wallets = (refund_seats table.seats store.wallets).1;
      tables = put_key id (given_up table) store.tables;
    })
unfolding given_up find_key
refund_table-Refines store id table sound there =
    let (u, has) = AreSound-find store.wallets id table store.tables there sound in
    let (ran, k, sums) = refund_seats-total table.seats store.wallets u has in
    let w' = (refund_seats table.seats store.wallets).1 in
    (
      AreSound-put w' id (given_up table) store.tables (tt, tt)
          (AreSound-Keeps store.wallets w' store.tables k sound),
      λ i.
          let e = at_tables-put i id table (given_up table) store.tables there in
          let none_ : stack_in i (given_up table).seats ≡ 0 = refl in
          omega (arith, e, sums i, none_),
    )

-- Either nothing changes, or the operation succeeds and only the table of the id does.
pub abort_table_and_refund-cases :
    (store : GameStore) (id : ℕ)
    → IsSound store
    → ((abort_table_and_refund store id).1 ≡ store)
      ⊎ (((abort_table_and_refund store id).0 ≡ ok)
          × ((table : StoredTable) × ((abort_table_and_refund store id).1.tables
                ≡ put_key id table store.tables)))
unfolding abort_table_and_refund given_up
abort_table_and_refund-cases store id sound = elim (Option-cases (find_key id store.tables)) [
  | inl new ↦ inl (simp (new, abort_table_and_refund))
  | inr (table, there) ↦ elim (Bool-cases table.is_aborted) [
    | inl gone ↦ inl (simp (there, gone, abort_table_and_refund))
    | inr live ↦
        let (u, has) = AreSound-find store.wallets id table store.tables there sound in
        let (ran, k, sums) = refund_seats-total table.seats store.wallets u has in
        let e : abort_table_and_refund store id ≡ (
          ok,
          record store {
            wallets = (refund_seats table.seats store.wallets).1;
            tables = put_key id (given_up table) store.tables;
          },
        ) =
          simp (there, live, ran, abort_table_and_refund, given_up) in
        inr (rw e refl, (given_up table, rw e refl))
  ]
]

abbrev pub GivesUp : GameStore → ℕ → Type 0
GivesUp store id =
    ((abort_table_and_refund store id).0 ≢ conflict)
    × Refines store kept (abort_table_and_refund store id).1
    × (find_table (abort_table_and_refund store id).1 id ≡ failed not_found)

-- On a sound store no wallet is missing, so the operation never answers `conflict`; what each user has
-- in all stays the same, and the table is not found afterwards.
pub abort_table_and_refund-total : (store : GameStore) (id : ℕ) → IsSound store → GivesUp store id
unfolding abort_table_and_refund find_table given_up
abort_table_and_refund-total store id sound = elim (Option-cases (find_key id store.tables)) [
  | inl new ↦
      let e : abort_table_and_refund store id ≡ (not_found, store) =
        simp (new, abort_table_and_refund) in
      (rw e (ground arith), rw e (kept-Refines store sound), rw e (simp (new, find_table)))
  | inr (table, there) ↦ elim (Bool-cases table.is_aborted) [
    | inl gone ↦
        let e : abort_table_and_refund store id ≡ (ok, store) =
          simp (there, gone, abort_table_and_refund) in
        (rw e (ground arith), rw e (kept-Refines store sound), rw e (ground (arith, there, gone)))
    | inr live ↦
        let (u, has) = AreSound-find store.wallets id table store.tables there sound in
        let (ran, k, sums) = refund_seats-total table.seats store.wallets u has in
        let e : abort_table_and_refund store id ≡ (
          ok,
          record store {
            wallets = (refund_seats table.seats store.wallets).1;
            tables = put_key id (given_up table) store.tables;
          },
        ) =
          simp (there, live, ran, abort_table_and_refund, given_up) in
        (
          rw e (ground arith),
          rw e (refund_table-Refines store id table sound there),
          rw e (rw (find_key-put id (given_up table) store.tables, find_table) refl),
        )
  ]
]
