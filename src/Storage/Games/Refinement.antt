-- ===== src/Storage/Games/Refinement.antt =====
-- The store against the bank: a run of its operations is a run of the bank's changes.
use poker.Prelude.{
  Bool-cases, List, Run, Text, [], arith, done, inl, inr, refl, true, ℕ, ℤ, ◌+◌, ◌>>=◌, ◌∷◌, ◌≡◌,
}
use poker.Storage.Accounts.{StorageError, invalid_data, ok}
use poker.Storage.Games.Bank.{
  Change, Refines, append_action-Refines, begin_hand-Refines, create_table-Refines, gained, kept,
  lost, played, seed_wallet-Refines, seeding,
}
use poker.Storage.Games.Chips.{cash_out_chips, reserve_buy_in}
use poker.Storage.Games.Hands.{abort_table_and_refund, append_action, begin_hand, settle_hand}
use poker.Storage.Games.Holdings.{IsSound, holdings}
use poker.Storage.Games.Moves.{cash_out_chips-Refines, reserve_buy_in-Refines}
use poker.Storage.Games.Payout.{settle_hand-Refines, settling}
use poker.Storage.Games.Records.{
  GameStore, HandActionRecord, HandSettlementRecord, HandStartRecord, TableRecord,
}
use poker.Storage.Games.Refund.{abort_table_and_refund-total}
use poker.Storage.Games.Store.{create_table, seed_wallet}
use poker.Storage.Games.Totals.{
  IsDistinct, all_committed, all_winnings, valid_hand_settlement-balances,
}
use poker.Storage.Games.Validation.{valid_hand_settlement}

pub data Operation : Type 0 where
  seeds : ℕ → ℤ → Operation
  creates : TableRecord → Operation
  reserves : ℕ → ℕ → ℕ → ℤ → Text → Operation
  cashes : ℕ → ℕ → Text → Operation
  begins : HandStartRecord → Operation
  appends : HandActionRecord → Operation
  settles : HandSettlementRecord → Operation
  aborts : ℕ → Operation

-- The new store, and the bank's change that the operation stands for by its result.
abbrev pub perform : GameStore → Operation → Run (Change × GameStore)
perform store (seeds user balance) =
    let r = seed_wallet store user balance in done (seeding r.0 user balance, r.1)
perform store (creates table) = done (kept, (create_table store table).1)
perform store (reserves id user seat amount key) =
    done (kept, (reserve_buy_in store id user seat amount key).1)
perform store (cashes id user key) = done (kept, (cash_out_chips store id user key).1)
perform store (begins start) = done (kept, (begin_hand store start).1)
perform store (appends action) = done (kept, (append_action store action).1)
perform store (settles value) = settle_hand store value >>= λ r. done (settling r.0 value, r.1)
perform store (aborts id) = done (kept, (abort_table_and_refund store id).1)

abbrev pub perform_all : GameStore → List Operation → Run (List Change × GameStore)
perform_all store [] = done ([], store)
perform_all store (operation ∷ operations) =
    perform store operation >>= λ r. perform_all r.1 operations >>= λ q. done (r.0 ∷ q.0, q.1)

abbrev pub all_gained : List Change → ℕ → ℕ
all_gained [] user = 0
all_gained (c ∷ changes) user = gained c user + all_gained changes user

abbrev pub all_lost : List Change → ℕ → ℕ
all_lost [] user = 0
all_lost (c ∷ changes) user = lost c user + all_lost changes user

-- A hand's change names each player once and pays out what was put in.
abbrev pub IsFair : Change → Type 0
IsFair (played players) = IsDistinct players × (all_winnings players ≡ all_committed players)
IsFair _ = Unit

abbrev pub AreFair : List Change → Type 0
AreFair [] = Unit
AreFair (c ∷ changes) = IsFair c × AreFair changes

-- A settlement that the store takes has passed `validHandSettlement`.
settling-IsFair :
    (store : GameStore) (value : HandSettlementRecord) (r : StorageError × GameStore)
    → settle_hand store value ≡ done r
    → IsFair (settling r.0 value)
unfolding settle_hand
settling-IsFair store value r h = elim (Bool-cases (valid_hand_settlement value)) [
  | inr wrong ↦
      let q = rw (wrong, settle_hand) at h in let e : r ≡ (invalid_data, store) = cc in rw e tt
  | inl valid ↦ settled_is r.0 valid
]
  where
    settled_is : (e : StorageError) → valid_hand_settlement value ≡ true → IsFair (settling e value)
    settled_is ok valid =
        let (distinct, c, w) = valid_hand_settlement-balances value valid in (distinct, cc)
    settled_is _ valid = tt

seeding-IsFair : (e : StorageError) (user : ℕ) (balance : ℤ) → IsFair (seeding e user balance)
seeding-IsFair ok user balance = tt
seeding-IsFair _ user balance = tt

abbrev pub Performs : GameStore → Operation → Type 0
Performs store operation =
    (r : Change × GameStore) × (perform store operation ≡ done r)
    × IsFair r.0
    × Refines store r.0 r.1

pub perform-Refines :
    (store : GameStore) (operation : Operation) → IsSound store → Performs store operation
perform-Refines store (seeds user balance) sound =
    let r = seed_wallet store user balance in
    (
      (seeding r.0 user balance, r.1),
      refl,
      seeding-IsFair r.0 user balance,
      seed_wallet-Refines store user balance sound,
    )
perform-Refines store (creates table) sound = (_, refl, tt, create_table-Refines store table sound)
perform-Refines store (reserves id user seat amount key) sound =
    (_, refl, tt, reserve_buy_in-Refines store id user seat amount key sound)
perform-Refines store (cashes id user key) sound =
    (_, refl, tt, cash_out_chips-Refines store id user key sound)
perform-Refines store (begins start) sound = (_, refl, tt, begin_hand-Refines store start sound)
perform-Refines store (appends action) sound =
    (_, refl, tt, append_action-Refines store action sound)
perform-Refines store (settles value) sound =
    let (r, e, refined) = settle_hand-Refines store value sound in
    ((settling r.0 value, r.1), rw e refl, settling-IsFair store value r e, refined)
perform-Refines store (aborts id) sound =
    let (fine, refined, gone) = abort_table_and_refund-total store id sound in
    (_, refl, tt, refined)

-- The operations run to their end, and the bank's changes account for what each user has.
abbrev pub Accounts : GameStore → List Operation → Type 0
Accounts store operations =
    (changes : List Change) × (store' : GameStore) × (perform_all store operations
      ≡ done (changes, store'))
    × IsSound store'
    × AreFair changes
    × ((user : ℕ)
        → holdings user store' + all_lost changes user
          ≡ holdings user store + all_gained changes user)

-- From a sound store any sequence of operations runs to its end and leaves a sound store; it stands
-- for a sequence of changes of the bank, whose gains and losses account for what each user has, and
-- in which every hand pays its players in all what they put in.
pub perform_all-Refines :
    (operations : List Operation) (store : GameStore) → IsSound store → Accounts store operations
perform_all-Refines [] store sound = ([], store, refl, sound, tt, λ user. refl)
perform_all-Refines (operation ∷ operations) store sound =
    let (r, e, fair, (sound', sums)) = perform-Refines store operation sound in
    let (changes, store', later, sound'', fairs, totals) =
      perform_all-Refines operations r.1 sound' in
    (
      r.0 ∷ changes,
      store',
      rw (e, later) refl,
      sound'',
      (fair, fairs),
      λ user. let a = sums user in let b = totals user in omega (arith, a, b),
    )
