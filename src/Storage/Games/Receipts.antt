-- ===== src/Storage/Games/Receipts.antt =====
-- What the ledger has of a buy-in, and what a call that finds it there answers.
use poker.Prelude.{
  Bool, Bool-cases, List, Option-cases, Text, arith, false, find_key, if◌then◌else◌, inl, inr, none,
  not, refl, some, subst, text_eq_refl, true, ℕ, ◌&&◌, ◌-◌, ◌==◌, ◌||◌, ◌∷◌, ◌≡◌, ◌⊎◌,
}
use poker.Storage.Accounts.{conflict, failed, returned}
use poker.Storage.Games.Chips.{
  buy_in_at, find_result, is_buy_in, replay_buy_in, reserve_with_key, take_seat,
}
use poker.Storage.Games.Records.{
  BuyInReceipt, GameStore, LedgerKind, LedgerResult, StoredTable, buy_in, cash_out,
}

pub find_result-same :
    (key : Text) (result : LedgerResult) (ledger : List (Text × LedgerResult))
    → find_result key ((key, result) ∷ ledger) ≡ some result
unfolding find_result
find_result-same key result ledger = rw (text_eq_refl key) refl

-- The ledger has, under the key, the buy-in that returned the receipt.
pub record IsRecorded (store : GameStore) (key : Text) (id seat amount : ℕ) (receipt : BuyInReceipt)
    : Type 0 where
  pub result : LedgerResult
  pub found : find_result key store.ledger ≡ some result
  pub kind_same : result.kind ≡ buy_in
  pub table_same : result.table_id ≡ id
  pub chips_same : result.chips ≡ amount
  pub seat_same : result.seat ≡ seat
  pub receipt_same :
      record { wallet_balance = result.wallet_balance; table_stack = result.chips } ≡ receipt

-- Whether the user still sits there with the chips of the buy-in.
abbrev pub still_sits : GameStore → ℕ → ℕ → ℕ → ℕ → Bool
still_sits store id user seat amount = elim (find_key id store.tables) [
  | none ↦ false
  | some table ↦ elim (find_key user table.seats) [
    | none ↦ false
    | some s ↦ s.seat == seat && s.stack == amount
  ]
]

is_buy_in-same : (k : LedgerKind) → is_buy_in k ≡ true → k ≡ buy_in
is_buy_in-same buy_in h = refl
is_buy_in-same cash_out h = cc

replay_buy_in-recorded :
    (store : GameStore) (id user seat amount : ℕ) (replay : LedgerResult) (receipt : BuyInReceipt)
    → replay_buy_in store id user seat amount replay ≡ returned receipt
    → (replay.kind ≡ buy_in)
      × (replay.table_id ≡ id)
      × (replay.chips ≡ amount)
      × (replay.seat ≡ seat)
      × (record { wallet_balance = replay.wallet_balance; table_stack = replay.chips } ≡ receipt)
unfolding replay_buy_in
replay_buy_in-recorded store id user seat amount replay receipt h =
    elim (Bool-cases (
      not (is_buy_in replay.kind)
      || not (replay.table_id == id)
      || not (replay.chips == amount)
      || not (replay.seat == seat))) [
        | inl wrong ↦ let q = rw (wrong, replay_buy_in) at h in cc
        | inr right ↦
            let kind : is_buy_in replay.kind ≡ true = ground arith in
            let made : record { wallet_balance = replay.wallet_balance; table_stack = replay.chips }
                ≡ receipt =
              elim (Option-cases (find_key id store.tables)) [
                | inl away ↦ let q = rw (right, away, replay_buy_in) at h in cc
                | inr (table, there) ↦ elim (Option-cases (find_key user table.seats)) [
                  | inl left ↦ let q = rw (right, there, left, replay_buy_in) at h in cc
                  | inr (s, sits) ↦
                      elim (Bool-cases (not (s.seat == seat) || not (s.stack == amount))) [
                        | inl changed ↦
                            let q = rw (right, there, sits, changed, replay_buy_in) at h in cc
                        | inr same ↦ let q = rw (right, there, sits, same, replay_buy_in) at h in cc
                      ]
                ]
              ] in
            (is_buy_in-same replay.kind kind, ground arith, ground arith, ground arith, made)
      ]

pub replay_buy_in-answer :
    (store : GameStore) (id user seat amount : ℕ) (replay : LedgerResult)
    → replay.kind ≡ buy_in
    → replay.table_id ≡ id
    → replay.chips ≡ amount
    → replay.seat ≡ seat
    → replay_buy_in store id user seat amount replay ≡ (
        if still_sits store id user seat amount
        then returned
            (record { wallet_balance = replay.wallet_balance; table_stack = replay.chips })
        else failed conflict)
unfolding replay_buy_in
replay_buy_in-answer store id user seat amount replay k t c s =
    let right : (not (is_buy_in replay.kind)
          || not (replay.table_id == id)
          || not (replay.chips == amount)
          || not (replay.seat == seat))
        ≡ false =
      rw k (ground arith) in
    elim (Option-cases (find_key id store.tables)) [
      | inl away ↦ rw (right, away, replay_buy_in, still_sits) refl
      | inr (table, there) ↦ elim (Option-cases (find_key user table.seats)) [
        | inl left ↦ rw (right, there, left, replay_buy_in, still_sits) refl
        | inr (x, sits) ↦ elim (Bool-cases (x.seat == seat)) [
          | inr other ↦ rw (right, there, sits, other, replay_buy_in, still_sits) refl
          | inl seat_ ↦ elim (Bool-cases (x.stack == amount)) [
            | inr other ↦ rw (right, there, sits, seat_, other, replay_buy_in, still_sits) refl
            | inl stack_ ↦ rw (right, there, sits, seat_, stack_, replay_buy_in, still_sits) refl
          ]
        ]
      ]
    ]

-- A receipt comes from the ledger or from a seat that is taken.
returned-cases :
    (store store' : GameStore) (key : Text) (id user seat amount : ℕ) (receipt : BuyInReceipt)
    → reserve_with_key store key id user seat amount ≡ (returned receipt, store')
    → ((replay : LedgerResult) × (find_result key store.ledger ≡ some replay)
        × (replay_buy_in store id user seat amount replay ≡ returned receipt)
        × (store ≡ store'))
      ⊎ ((table : StoredTable) × (balance : ℕ) × (take_seat store key id user seat amount table
              balance
            ≡ (returned receipt, store')))
unfolding reserve_with_key buy_in_at
returned-cases store store' key id user seat amount receipt h =
    elim (Option-cases (find_result key store.ledger)) [
      | inr (replay, again) ↦
          let q = rw (again, reserve_with_key) at h in inl (replay, again, cc, cc)
      | inl first_ ↦ elim (Option-cases (find_key id store.tables)) [
        | inl away ↦ let q = rw (first_, away, reserve_with_key) at h in cc
        | inr (table, there) ↦ elim (Option-cases (find_key user store.wallets)) [
          | inl poor ↦ let q = rw (first_, there, poor, reserve_with_key) at h in ground arith
          | inr (balance, rich) ↦
              let q = rw (first_, there, rich, reserve_with_key, buy_in_at) at h in
              inr (table, balance, ground arith)
        ]
      ]
    ]

pub reserve_with_key-IsRecorded :
    (store store' : GameStore) (key : Text) (id user seat amount : ℕ) (receipt : BuyInReceipt)
    → reserve_with_key store key id user seat amount ≡ (returned receipt, store')
    → IsRecorded store' key id seat amount receipt
unfolding take_seat
reserve_with_key-IsRecorded store store' key id user seat amount receipt h =
    elim (returned-cases store store' key id user seat amount receipt h) [
      | inl (replay, again, answer, same) ↦
          let (k, t, c, s, r) =
            replay_buy_in-recorded store id user seat amount replay receipt answer in
          subst (λ x. IsRecorded x key id seat amount receipt) same
            (record {
              result = replay;
              found = again;
              kind_same = k;
              table_same = t;
              chips_same = c;
              seat_same = s;
              receipt_same = r;
            })
      | inr (table, balance, took) ↦
          let made : LedgerResult = record {
            kind = buy_in;
            table_id = id;
            wallet_balance = balance - amount;
            chips = amount;
            seat = seat;
          } in
          let ledger : (key, made) ∷ store.ledger ≡ store'.ledger = cc in
          record {
            result = made;
            found =
                subst (λ l. find_result key l ≡ some made) ledger
                  (find_result-same key made store.ledger);
            kind_same = refl;
            table_same = refl;
            chips_same = refl;
            seat_same = refl;
            receipt_same = cc;
          }
    ]
