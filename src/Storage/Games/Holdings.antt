-- ===== src/Storage/Games/Holdings.antt =====
-- What each user has in the store: the wallet and the stacks at all tables.
use poker.Prelude.{
  Bool-cases, IsUnique, List, [], arith, erase_key, find_key, find_key-erase_if, find_key-put_if,
  if◌then◌else◌, inl, inr, none, put_key, some, subst, true, ℕ, ◌+◌, ◌==◌, ◌∷◌, ◌≡◌,
}
use poker.Storage.Games.Records.{GameStore, SeatRecord, StoredTable}
use poker.Storage.Games.Store.{is_present}

abbrev pub balance_of : ℕ → List (ℕ × ℕ) → ℕ
balance_of user wallets = elim (find_key user wallets) [ none ↦ 0 | some balance ↦ balance ]

abbrev pub stack_in : ℕ → List (ℕ × SeatRecord) → ℕ
stack_in user seats = elim (find_key user seats) [ none ↦ 0 | some s ↦ s.stack ]

abbrev pub at_tables : ℕ → List (ℕ × StoredTable) → ℕ
at_tables user [] = 0
at_tables user ((id, table) ∷ tables) = stack_in user table.seats + at_tables user tables

abbrev pub holdings : ℕ → GameStore → ℕ
holdings user store = balance_of user store.wallets + at_tables user store.tables

pub balance_of-put :
    (user i n : ℕ) (wallets : List (ℕ × ℕ))
    → balance_of i (put_key user n wallets) ≡ (if user == i then n else balance_of i wallets)
balance_of-put user i n wallets = ground (arith, find_key-put_if user i n wallets)

pub stack_in-put :
    (user i : ℕ) (s : SeatRecord) (seats : List (ℕ × SeatRecord))
    → stack_in i (put_key user s seats) ≡ (if user == i then s.stack else stack_in i seats)
stack_in-put user i s seats = ground (arith, find_key-put_if user i s seats)

pub stack_in-erase :
    (user i : ℕ) (seats : List (ℕ × SeatRecord))
    → stack_in i (erase_key user seats) ≡ (if user == i then 0 else stack_in i seats)
stack_in-erase user i seats = ground (arith, find_key-erase_if user i seats)

pub at_tables-put :
    (user id : ℕ) (old new : StoredTable) (tables : List (ℕ × StoredTable))
    → find_key id tables ≡ some old
    → at_tables user (put_key id new tables) + stack_in user old.seats
      ≡ at_tables user tables + stack_in user new.seats
unfolding find_key put_key
at_tables-put user id old new [] h = cc
at_tables-put user id old new ((j, t) ∷ tables) h = elim (Bool-cases (j == id)) [
  | inl e ↦
      let q = rw e at h in
      let same : t ≡ old = cc in
      rw e (
        subst
          (λ (o : StoredTable).
            stack_in user new.seats + at_tables user tables + stack_in user o.seats
            ≡ stack_in user t.seats + at_tables user tables + stack_in user new.seats)
          same (omega arith))
  | inr e ↦ rw e (omega (arith, at_tables-put user id old new tables (rw e at h)))
]

pub at_tables-put_new :
    (user id : ℕ) (new : StoredTable) (tables : List (ℕ × StoredTable))
    → find_key id tables ≡ none
    → at_tables user (put_key id new tables) ≡ at_tables user tables + stack_in user new.seats
unfolding find_key put_key
at_tables-put_new user id new [] h = omega arith
at_tables-put_new user id new ((j, t) ∷ tables) h = elim (Bool-cases (j == id)) [
  | inl e ↦ let q = rw e at h in cc
  | inr e ↦ rw e (omega (arith, at_tables-put_new user id new tables (rw e at h)))
]

-- Every user with a seat has a wallet.
abbrev pub HasWallets : List (ℕ × ℕ) → List (ℕ × SeatRecord) → Type 0
HasWallets wallets [] = Unit
HasWallets wallets ((user, s) ∷ seats) =
    (is_present (find_key user wallets) ≡ true) × HasWallets wallets seats

-- Each user has one seat at most at a table, and a wallet.
abbrev pub IsSoundTable : List (ℕ × ℕ) → StoredTable → Type 0
IsSoundTable wallets table = IsUnique table.seats × HasWallets wallets table.seats

abbrev pub AreSound : List (ℕ × ℕ) → List (ℕ × StoredTable) → Type 0
AreSound wallets [] = Unit
AreSound wallets ((id, table) ∷ tables) = IsSoundTable wallets table × AreSound wallets tables

abbrev pub IsSound : GameStore → Type 0
IsSound store = AreSound store.wallets store.tables

-- No wallet disappears.
abbrev pub Keeps : List (ℕ × ℕ) → List (ℕ × ℕ) → Type 0
Keeps w w' = (user : ℕ) → is_present (find_key user w) ≡ true → is_present (find_key user w') ≡ true

pub put_key-Keeps : (user n : ℕ) (w : List (ℕ × ℕ)) → Keeps w (put_key user n w)
put_key-Keeps user n w i h = ground (arith, find_key-put_if user i n w)

pub HasWallets-Keeps :
    (w w' : List (ℕ × ℕ)) (seats : List (ℕ × SeatRecord))
    → Keeps w w'
    → HasWallets w seats
    → HasWallets w' seats
HasWallets-Keeps w w' [] k h = tt
HasWallets-Keeps w w' ((user, s) ∷ seats) k (here, h) =
    (k user here, HasWallets-Keeps w w' seats k h)

pub HasWallets-put :
    (w : List (ℕ × ℕ)) (user : ℕ) (s : SeatRecord) (seats : List (ℕ × SeatRecord))
    → is_present (find_key user w) ≡ true
    → HasWallets w seats
    → HasWallets w (put_key user s seats)
unfolding put_key
HasWallets-put w user s [] here h = (here, tt)
HasWallets-put w user s ((j, t) ∷ seats) here (has, h) = elim (Bool-cases (j == user)) [
  | inl e ↦ rw e (here, h)
  | inr e ↦ rw e (has, HasWallets-put w user s seats here h)
]

pub HasWallets-erase :
    (w : List (ℕ × ℕ)) (user : ℕ) (seats : List (ℕ × SeatRecord))
    → HasWallets w seats
    → HasWallets w (erase_key user seats)
unfolding erase_key
HasWallets-erase w user [] h = tt
HasWallets-erase w user ((j, t) ∷ seats) (has, h) = elim (Bool-cases (j == user)) [
  | inl e ↦ rw e (HasWallets-erase w user seats h)
  | inr e ↦ rw e (has, HasWallets-erase w user seats h)
]

pub AreSound-Keeps :
    (w w' : List (ℕ × ℕ)) (tables : List (ℕ × StoredTable))
    → Keeps w w'
    → AreSound w tables
    → AreSound w' tables
AreSound-Keeps w w' [] k h = tt
AreSound-Keeps w w' ((id, t) ∷ tables) k ((u, has), h) =
    ((u, HasWallets-Keeps w w' t.seats k has), AreSound-Keeps w w' tables k h)

pub AreSound-put :
    (w : List (ℕ × ℕ)) (id : ℕ) (t : StoredTable) (tables : List (ℕ × StoredTable))
    → IsSoundTable w t
    → AreSound w tables
    → AreSound w (put_key id t tables)
unfolding put_key
AreSound-put w id t [] s h = (s, tt)
AreSound-put w id t ((j, u) ∷ tables) s (has, h) = elim (Bool-cases (j == id)) [
  | inl e ↦ rw e (s, h)
  | inr e ↦ rw e (has, AreSound-put w id t tables s h)
]

pub AreSound-find :
    (w : List (ℕ × ℕ)) (id : ℕ) (t : StoredTable) (tables : List (ℕ × StoredTable))
    → find_key id tables ≡ some t
    → AreSound w tables
    → IsSoundTable w t
unfolding find_key
AreSound-find w id t [] e h = cc
AreSound-find w id t ((j, u) ∷ tables) e (has, h) = elim (Bool-cases (j == id)) [
  | inl hit ↦
      let q = rw hit at e in
      let same : u ≡ t = cc in subst (λ (v : StoredTable). IsSoundTable w v) same has
  | inr miss ↦ AreSound-find w id t tables (rw miss at e) h
]

pub HasWallets-find :
    (w : List (ℕ × ℕ)) (user : ℕ) (s : SeatRecord) (seats : List (ℕ × SeatRecord))
    → find_key user seats ≡ some s
    → HasWallets w seats
    → is_present (find_key user w) ≡ true
unfolding find_key
HasWallets-find w user s [] e h = cc
HasWallets-find w user s ((j, t) ∷ seats) e (has, h) = elim (Bool-cases (j == user)) [
  | inl hit ↦
      let same : j ≡ user = ground arith in subst (λ i. is_present (find_key i w) ≡ true) same has
  | inr miss ↦ HasWallets-find w user s seats (rw miss at e) h
]
