-- ===== src/Storage/Games/Replay.antt =====
-- What a call repeated under its key answers.
use poker.Prelude.{
  Bool-cases, Text, arith, if◌then◌else◌, inl, inr, is_empty_text, leb_ℤ, length, ltb, pos_part,
  refl, some, subst, sym, ℕ, ℤ, ◌+◌, ◌==◌, ◌||◌, ◌∙◌, ◌≡◌,
}
use poker.Storage.Accounts.{StorageResult, conflict, failed, returned}
use poker.Storage.Games.Chips.{
  cash_out_chips, cash_out_with_key, find_result, leave_seat, ledger_key, reserve_buy_in,
  reserve_with_key,
}
use poker.Storage.Games.Moves.{cash_out-cases}
use poker.Storage.Games.Receipts.{
  find_result-same, replay_buy_in-answer, reserve_with_key-IsRecorded, still_sits,
}
use poker.Storage.Games.Records.{
  BuyInReceipt, CashOutReceipt, GameStore, SeatRecord, StoredTable, cash_out,
}

-- Once a buy-in has returned a receipt, the same request on any later store whose ledger has kept what
-- it had under the key changes nothing; it answers the same receipt if the user still sits in the
-- seat with the chips of the buy-in, and else a conflict.
pub reserve_buy_in-replays :
    (store store' later : GameStore) (id user seat : ℕ) (amount : ℤ) (key : Text)
    (receipt : BuyInReceipt)
    → reserve_buy_in store id user seat amount key ≡ (returned receipt, store')
    → find_result (ledger_key user key) later.ledger
      ≡ find_result (ledger_key user key) store'.ledger
    → reserve_buy_in later id user seat amount key ≡ (
      (if still_sits later id user seat (pos_part amount)
          then returned receipt
          else failed conflict),
      later,
    )
unfolding reserve_buy_in reserve_with_key
reserve_buy_in-replays store store' later id user seat amount key receipt h same_entry =
    elim (Bool-cases
      (id == 0 || user == 0 || leb_ℤ amount 0 || is_empty_text key || ltb 96 (length key))) [
        | inl wrong ↦ let q = rw (wrong, reserve_buy_in) at h in cc
        | inr right ↦
            let made = rw (right, reserve_buy_in) at h in
            let r =
              reserve_with_key-IsRecorded store store' (ledger_key user key) id user seat
                (pos_part amount) receipt made in
            let found : find_result (ledger_key user key) later.ledger ≡ some r.result =
              same_entry ∙ r.found in
            let answer =
              replay_buy_in-answer later id user seat (pos_part amount) r.result r.kind_same
                r.table_same r.chips_same r.seat_same in
            rw (right, found, answer, r.receipt_same, reserve_buy_in, reserve_with_key) refl
      ]

leave_seat-replays :
    (store : GameStore) (key : Text) (id user : ℕ) (table : StoredTable) (balance : ℕ)
    (s : SeatRecord)
    → cash_out_with_key (leave_seat store key id user table balance s).1 key id user
      ≡ leave_seat store key id user table balance s
unfolding cash_out_with_key leave_seat
leave_seat-replays store key id user table balance s =
    let l =
      find_result-same key
        (record {
          kind = cash_out;
          table_id = id;
          wallet_balance = balance + s.stack;
          chips = s.stack;
          seat = s.seat;
        })
        store.ledger in
    rw (l, cash_out_with_key) (ground arith)

-- The request for a cash-out that returned a receipt returns that receipt on the store that the first
-- call left, and leaves the store as it is.
pub cash_out_chips-replays :
    (store store' : GameStore) (id user : ℕ) (key : Text) (receipt : CashOutReceipt)
    → cash_out_chips store id user key ≡ (returned receipt, store')
    → cash_out_chips store' id user key ≡ (returned receipt, store')
unfolding cash_out_chips
cash_out_chips-replays store store' id user key receipt h =
    elim (Bool-cases (id == 0 || user == 0 || is_empty_text key || ltb 96 (length key))) [
      | inl wrong ↦ let q = rw (wrong, cash_out_chips) at h in cc
      | inr right ↦
          let made = rw (right, cash_out_chips) at h in
          elim (cash_out-cases store (ledger_key user key) id user) [
            | inl same ↦
                let e : store' ≡ store = cc in
                subst (λ t. cash_out_chips t id user key ≡ (returned receipt, store')) (sym e) h
            | inr (table, balance, s, there, rich, sits, e) ↦
                let r = leave_seat store (ledger_key user key) id user table balance s in
                let q : r ≡ (returned receipt, store') = cc in
                subst
                  (λ (t : StorageResult CashOutReceipt × GameStore).
                    cash_out_chips t.1 id user key ≡ t)
                  q
                  (rw (right, cash_out_chips)
                    (leave_seat-replays store (ledger_key user key) id user table balance s))
          ]
    ]
