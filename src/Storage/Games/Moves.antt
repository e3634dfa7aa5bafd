-- ===== src/Storage/Games/Moves.antt =====
-- Buying in and cashing out move chips between a wallet and a seat: no user gains or loses any.
use poker.Prelude.{
  Bool-cases, Option-cases, Text, arith, erase_key, erase_key-IsUnique, false, find_key,
  find_key-put_if, inl, inr, is_empty_text, leb_ℤ, length, ltb, none, pos_part, put_key,
  put_key-IsUnique, refl, some, subst, true, ℕ, ℤ, ◌+◌, ◌-◌, ◌==◌, ◌||◌, ◌≡◌, ◌≤◌, ◌⊎◌,
}
use poker.Storage.Games.Bank.{Refines, kept, kept-Refines}
use poker.Storage.Games.Chips.{
  buy_in_at, cash_out_chips, cash_out_with_key, find_result, leave_seat, ledger_key, reserve_buy_in,
  reserve_with_key, take_seat,
}
use poker.Storage.Games.Holdings.{
  AreSound-Keeps, AreSound-find, AreSound-put, HasWallets-Keeps, HasWallets-erase, HasWallets-put,
  IsSound, at_tables-put, balance_of, balance_of-put, put_key-Keeps, stack_in, stack_in-erase,
  stack_in-put,
}
use poker.Storage.Games.Records.{GameStore, SeatRecord, StoredTable}
use poker.Storage.Games.Store.{is_present}

pub reserve-cases :
    (store : GameStore) (key : Text) (id user seat amount : ℕ)
    → ((reserve_with_key store key id user seat amount).1 ≡ store)
      ⊎ ((table : StoredTable) × (balance : ℕ) × (find_key id store.tables ≡ some table)
          × (find_key user store.wallets ≡ some balance)
          × (find_key user table.seats ≡ none)
          × (ltb balance amount ≡ false)
          × (reserve_with_key store key id user seat amount
              ≡ take_seat store key id user seat amount table balance))
unfolding reserve_with_key buy_in_at
reserve-cases store key id user seat amount = elim (Option-cases (find_result key store.ledger)) [
  | inr (replay, again) ↦ inl (rw (again, reserve_with_key) refl)
  | inl first_ ↦ elim (Option-cases (find_key id store.tables)) [
    | inl new ↦ inl (rw (first_, new, reserve_with_key) refl)
    | inr (table, there) ↦ elim (Option-cases (find_key user store.wallets)) [
      | inl poor ↦ inl (rw (first_, there, poor, reserve_with_key) (ground arith))
      | inr (balance, rich) ↦ elim (Option-cases (find_key user table.seats)) [
        | inr (s, sits) ↦
            inl (rw (first_, there, rich, sits, reserve_with_key, buy_in_at) (ground arith))
        | inl free_ ↦
            let q : ((reserve_with_key store key id user seat amount).1 ≡ store)
                ⊎ ((ltb balance amount ≡ false)
                    × (reserve_with_key store key id user seat amount
                        ≡ take_seat store key id user seat amount table balance)) =
              rw (first_, there, rich, free_, reserve_with_key, buy_in_at) (ground arith) in
            elim q [
              | inl e ↦ inl e
              | inr (enough, e) ↦ inr (table, balance, there, rich, free_, enough, e)
            ]
      ]
    ]
  ]
]

-- The amount leaves the wallet and lies at the table.
take_seat-Refines :
    (store : GameStore) (key : Text) (id user seat amount : ℕ) (table : StoredTable) (balance : ℕ)
    → IsSound store
    → find_key id store.tables ≡ some table
    → find_key user store.wallets ≡ some balance
    → find_key user table.seats ≡ none
    → ltb balance amount ≡ false
    → Refines store kept (take_seat store key id user seat amount table balance).1
unfolding take_seat
take_seat-Refines store key id user seat amount table balance sound there rich free_ enough =
    let w' = put_key user (balance - amount) store.wallets in
    let grows = put_key-Keeps user (balance - amount) store.wallets in
    let (u, has) = AreSound-find store.wallets id table store.tables there sound in
    let taker : SeatRecord = record { user_id = user; seat = seat; stack = amount } in
    let known : is_present (find_key user w') ≡ true =
      ground (arith, find_key-put_if user user (balance - amount) store.wallets) in
    let table' : StoredTable = record table {
      seats = put_key user taker table.seats;
      occupied_seats = put_key seat user table.occupied_seats;
    } in
    (
      AreSound-put w' id table' store.tables
          (
            put_key-IsUnique user taker table.seats u,
            HasWallets-put w' user taker table.seats known
                (HasWallets-Keeps store.wallets w' table.seats grows has),
          )
          (AreSound-Keeps store.wallets w' store.tables grows sound),
      λ i.
          let e = at_tables-put i id table table' store.tables there in
          let b = balance_of-put user i (balance - amount) store.wallets in
          let t = stack_in-put user i taker table.seats in
          elim (Bool-cases (user == i)) [
            | inr other ↦ omega (arith, e, rw other at b, rw other at t)
            | inl hit ↦
                let same : user ≡ i = ground arith in
                let rich_ : find_key i store.wallets ≡ some balance =
                  subst (λ j. find_key j store.wallets ≡ some balance) same rich in
                let old : balance_of i store.wallets ≡ balance = rw (rich_, balance_of) refl in
                let none_ : stack_in i table.seats ≡ 0 =
                  rw (subst (λ j. find_key j table.seats ≡ none) same free_, stack_in) refl in
                let left : amount ≤ balance = ground arith in
                omega (arith, e, rw hit at b, rw hit at t, old, none_, left)
          ],
    )

pub reserve_buy_in-Refines :
    (store : GameStore) (id user seat : ℕ) (amount : ℤ) (key : Text)
    → IsSound store
    → Refines store kept (reserve_buy_in store id user seat amount key).1
unfolding reserve_buy_in
reserve_buy_in-Refines store id user seat amount key sound =
    elim (Bool-cases
      (id == 0 || user == 0 || leb_ℤ amount 0 || is_empty_text key || ltb 96 (length key))) [
        | inl wrong ↦ rw wrong (kept-Refines store sound)
        | inr right ↦
            elim (reserve-cases store (ledger_key user key) id user seat (pos_part amount)) [
              | inl same ↦ rw (right, same) (kept-Refines store sound)
              | inr (table, balance, there, rich, free_, enough, e) ↦
                  rw (right, e)
                    (take_seat-Refines store (ledger_key user key) id user seat (pos_part amount)
                      table balance sound there rich free_ enough)
            ]
      ]

pub cash_out-cases :
    (store : GameStore) (key : Text) (id user : ℕ)
    → ((cash_out_with_key store key id user).1 ≡ store)
      ⊎ ((table : StoredTable) × (balance : ℕ) × (s : SeatRecord) × (find_key id store.tables
            ≡ some table)
          × (find_key user store.wallets ≡ some balance)
          × (find_key user table.seats ≡ some s)
          × (cash_out_with_key store key id user ≡ leave_seat store key id user table balance s))
unfolding cash_out_with_key
cash_out-cases store key id user = elim (Option-cases (find_result key store.ledger)) [
  | inr (replay, again) ↦ inl (rw (again, cash_out_with_key) (ground arith))
  | inl first_ ↦ elim (Option-cases (find_key id store.tables)) [
    | inl new ↦ inl (rw (first_, new, cash_out_with_key) refl)
    | inr (table, there) ↦ elim (Option-cases (find_key user store.wallets)) [
      | inl poor ↦ inl (rw (first_, there, poor, cash_out_with_key) refl)
      | inr (balance, rich) ↦ elim (Bool-cases table.hand_in_progress) [
        | inl playing ↦ inl (rw (first_, there, rich, playing, cash_out_with_key) refl)
        | inr idle ↦ elim (Option-cases (find_key user table.seats)) [
          | inl free_ ↦ inl (rw (first_, there, rich, idle, free_, cash_out_with_key) refl)
          | inr (s, sits) ↦ inr (
            table,
            balance,
            s,
            there,
            rich,
            sits,
            simp (first_, there, rich, idle, sits, cash_out_with_key),
          )
        ]
      ]
    ]
  ]
]

-- The stack leaves the table and lies in the wallet.
leave_seat-Refines :
    (store : GameStore) (key : Text) (id user : ℕ) (table : StoredTable) (balance : ℕ)
    (s : SeatRecord)
    → IsSound store
    → find_key id store.tables ≡ some table
    → find_key user store.wallets ≡ some balance
    → find_key user table.seats ≡ some s
    → Refines store kept (leave_seat store key id user table balance s).1
unfolding leave_seat
leave_seat-Refines store key id user table balance s sound there rich sits =
    let w' = put_key user (balance + s.stack) store.wallets in
    let grows = put_key-Keeps user (balance + s.stack) store.wallets in
    let (u, has) = AreSound-find store.wallets id table store.tables there sound in
    let table' : StoredTable = record table {
      seats = erase_key user table.seats;
      occupied_seats = erase_key s.seat table.occupied_seats;
    } in
    (
      AreSound-put w' id table' store.tables
          (
            erase_key-IsUnique user table.seats u,
            HasWallets-erase w' user table.seats
                (HasWallets-Keeps store.wallets w' table.seats grows has),
          )
          (AreSound-Keeps store.wallets w' store.tables grows sound),
      λ i.
          let e = at_tables-put i id table table' store.tables there in
          let b = balance_of-put user i (balance + s.stack) store.wallets in
          let t = stack_in-erase user i table.seats in
          elim (Bool-cases (user == i)) [
            | inr other ↦ omega (arith, e, rw other at b, rw other at t)
            | inl hit ↦
                let same : user ≡ i = ground arith in
                let rich_ : find_key i store.wallets ≡ some balance =
                  subst (λ j. find_key j store.wallets ≡ some balance) same rich in
                let old : balance_of i store.wallets ≡ balance = rw (rich_, balance_of) refl in
                let here : stack_in i table.seats ≡ s.stack =
                  rw (subst (λ j. find_key j table.seats ≡ some s) same sits, stack_in) refl in
                omega (arith, e, rw hit at b, rw hit at t, old, here)
          ],
    )

pub cash_out_chips-Refines :
    (store : GameStore) (id user : ℕ) (key : Text)
    → IsSound store
    → Refines store kept (cash_out_chips store id user key).1
unfolding cash_out_chips
cash_out_chips-Refines store id user key sound =
    elim (Bool-cases (id == 0 || user == 0 || is_empty_text key || ltb 96 (length key))) [
      | inl wrong ↦ rw wrong (kept-Refines store sound)
      | inr right ↦ elim (cash_out-cases store (ledger_key user key) id user) [
        | inl same ↦ rw (right, same) (kept-Refines store sound)
        | inr (table, balance, s, there, rich, sits, e) ↦
            rw (right, e)
              (leave_seat-Refines store (ledger_key user key) id user table balance s sound there
                rich sits)
      ]
    ]
