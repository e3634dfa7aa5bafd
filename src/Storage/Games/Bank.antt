-- ===== src/Storage/Games/Bank.antt =====
-- The abstract view of the store: a bank that knows what each user has in all, and not where.
use poker.Prelude.{
  Bool-cases, IsUnique, List, Option-cases, [], arith, false, find_key, if◌then◌else◌, inl, inr,
  ltb_ℤ, none, pos_part, put_key, refl, some, subst, sym, true, ℕ, ℤ, ◌+◌, ◌==◌, ◌||◌, ◌≡◌, ◌⊎◌,
}
use poker.Storage.Accounts.{StorageError, ok}
use poker.Storage.Games.Hands.{append_action, begin_hand}
use poker.Storage.Games.Holdings.{
  AreSound-Keeps, AreSound-find, AreSound-put, HasWallets, IsSound, at_tables, at_tables-put,
  at_tables-put_new, balance_of, balance_of-put, holdings, put_key-Keeps, stack_in,
}
use poker.Storage.Games.Records.{
  GameStore, HandActionRecord, HandPlayerSettlement, HandStartRecord, StoredTable, TableRecord,
}
use poker.Storage.Games.Store.{create_table, seed_wallet}
use poker.Storage.Games.Totals.{committed_of, winnings_of}

pub data Change : Type 0 where
  kept : Change
  endowed : ℕ → ℕ → Change
  played : List HandPlayerSettlement → Change

abbrev pub gained : Change → ℕ → ℕ
gained kept user = 0
gained (endowed i n) user = if i == user then n else 0
gained (played players) user = winnings_of user players

abbrev pub lost : Change → ℕ → ℕ
lost (played players) user = committed_of user players
lost _ user = 0

-- The step of the bank that the change stands for, and the soundness of the new store.
abbrev pub Refines : GameStore → Change → GameStore → Type 0
Refines store change store' =
    IsSound store'
    × ((user : ℕ)
        → holdings user store' + lost change user ≡ holdings user store + gained change user)

pub kept-Refines : (store : GameStore) → IsSound store → Refines store kept store
kept-Refines store sound = (sound, λ user. refl)

abbrev pub seeding : StorageError → ℕ → ℤ → Change
seeding ok user balance = endowed user (pos_part balance)
seeding _ user balance = kept

pub seed_wallet-Refines :
    (store : GameStore) (user : ℕ) (balance : ℤ)
    → IsSound store
    → Refines store
        (seeding (seed_wallet store user balance).0 user balance)
        (seed_wallet store user balance).1
unfolding seed_wallet
seed_wallet-Refines store user balance sound = elim (Bool-cases (user == 0 || ltb_ℤ balance 0)) [
  | inl bad_ ↦ rw bad_ (kept-Refines store sound)
  | inr fine ↦ elim (Option-cases (find_key user store.wallets)) [
    | inr (old, there) ↦ rw (fine, there) (kept-Refines store sound)
    | inl new ↦
        rw (fine, new)
          (
            AreSound-Keeps store.wallets (put_key user (pos_part balance) store.wallets)
                store.tables (put_key-Keeps user (pos_part balance) store.wallets) sound,
            grows new,
          )
  ]
]
  where
    grows :
        find_key user store.wallets ≡ none
        → (i : ℕ)
        → balance_of i (put_key user (pos_part balance) store.wallets)
            + at_tables i store.tables
            + 0
          ≡ balance_of i store.wallets
            + at_tables i store.tables
            + (if user == i then pos_part balance else 0)
    grows new i = ground (arith, balance_of-put user i (pos_part balance) store.wallets, new)

empty_table-Refines :
    (store : GameStore) (id : ℕ) (table : StoredTable)
    → IsSound store
    → find_key id store.tables ≡ none
    → table.seats ≡ []
    → Refines store kept (record store { tables = put_key id table store.tables })
unfolding find_key
empty_table-Refines store id table sound new empty = (
  AreSound-put store.wallets id table store.tables (rw empty (tt, tt)) sound,
  λ user. rw (at_tables-put_new user id table store.tables new, empty) (omega arith),
)

abbrev empty_table : TableRecord → StoredTable
empty_table table = record {
  info = table;
  is_aborted = false;
  hand_in_progress = false;
  seats = [];
  occupied_seats = [];
}

create_table-cases :
    (store : GameStore) (table : TableRecord)
    → ((create_table store table).1 ≡ store)
      ⊎ ((find_key table.table_id store.tables ≡ none)
          × ((create_table store table).1
              ≡ record store { tables = put_key table.table_id (empty_table table) store.tables }))
unfolding create_table
create_table-cases store table = ground arith

pub create_table-Refines :
    (store : GameStore) (table : TableRecord)
    → IsSound store
    → Refines store kept (create_table store table).1
create_table-Refines store table sound = elim (create_table-cases store table) [
  | inl same ↦ rw same (kept-Refines store sound)
  | inr (new, made) ↦
      rw made (empty_table-Refines store table.table_id (empty_table table) sound new refl)
]

-- A table whose seats stay as they are.
same_seats-Refines :
    (store : GameStore) (id : ℕ) (old table : StoredTable) (starts : List (ℕ × HandStartRecord))
    → IsSound store
    → find_key id store.tables ≡ some old
    → table.seats ≡ old.seats
    → Refines store kept
        (record store { hand_starts = starts; tables = put_key id table store.tables })
same_seats-Refines store id old table starts sound there same = (
  AreSound-put store.wallets id table store.tables
      (subst (λ seats. IsUnique seats × HasWallets store.wallets seats) (sym same)
        (AreSound-find store.wallets id old store.tables there sound))
      sound,
  λ user.
      let e = at_tables-put user id old table store.tables there in
      let q : stack_in user table.seats ≡ stack_in user old.seats = rw same refl in
      omega (arith, e, q),
)

begin_hand-cases :
    (store : GameStore) (start : HandStartRecord)
    → ((begin_hand store start).1 ≡ store)
      ⊎ ((old : StoredTable) × (find_key start.table_id store.tables ≡ some old)
          × ((begin_hand store start).1 ≡ record store {
            hand_starts = put_key start.hand_id start store.hand_starts;
            tables = put_key start.table_id (record old { hand_in_progress = true }) store.tables;
          }))
unfolding begin_hand
begin_hand-cases store start = elim (Option-cases (find_key start.table_id store.tables)) [
  | inl new ↦ inl (rw new (ground arith))
  | inr (old, there) ↦
      let q : ((begin_hand store start).1 ≡ store)
          ⊎ ((begin_hand store start).1 ≡ record store {
            hand_starts = put_key start.hand_id start store.hand_starts;
            tables = put_key start.table_id (record old { hand_in_progress = true }) store.tables;
          }) =
        rw there (ground arith) in
      elim q [ inl e ↦ inl e | inr e ↦ inr (old, there, e) ]
]

pub begin_hand-Refines :
    (store : GameStore) (start : HandStartRecord)
    → IsSound store
    → Refines store kept (begin_hand store start).1
begin_hand-Refines store start sound = elim (begin_hand-cases store start) [
  | inl same ↦ rw same (kept-Refines store sound)
  | inr (old, there, made) ↦ rw made (
      same_seats-Refines store start.table_id old (record old { hand_in_progress = true })
        (put_key start.hand_id start store.hand_starts) sound there refl)
]

append_action-same :
    (store : GameStore) (action : HandActionRecord)
    → ((append_action store action).1.wallets ≡ store.wallets)
      × ((append_action store action).1.tables ≡ store.tables)
unfolding append_action
append_action-same store action = ground arith

pub append_action-Refines :
    (store : GameStore) (action : HandActionRecord)
    → IsSound store
    → Refines store kept (append_action store action).1
append_action-Refines store action sound =
    let (w, t) = append_action-same store action in rw (w, t) (sound, λ user. refl)
