-- ===== src/Storage/Accounts.antt =====
-- `InMemoryAccountStore` of include/poker/storage/in_memory_account_store.hpp and
-- src/poker/storage/in_memory_account_store.cpp, with the types of account_store.hpp. An operation
-- runs under the store's mutex, so it is one step. A session is kept under its own token hash, a user
-- under the own id: these maps are lists of their values. Times are not negative.
pub mod Sessions
mod Examples
use poker.Prelude.{
  Bool, List, Option, Run, Text, done, or_throw, ◌>>=◌, [], false, if◌then◌else◌, inc64,
  is_empty_text, leb, ltb_ℤ, none, not, pos_part, some, text_eq, true, ℕ, ℤ, ◌&&◌, ◌==◌, ◌||◌, ◌∷◌,
}

pub data StorageError : Type 0 where
  ok : StorageError
  duplicate : StorageError
  not_found : StorageError
  insufficient_funds : StorageError
  conflict : StorageError
  unavailable : StorageError
  invalid_data : StorageError

-- `StorageResult`, without the text of its message.
pub record StorageResult {ℓ} (A : Type ℓ) : Type ℓ where
  pub error : StorageError
  pub value : Option A

pub record UserRecord : Type 0 where
  pub id : ℕ
  pub username : Text
  pub password_hash : Text
  pub wallet_balance : ℕ
  pub disabled : Bool

pub record SessionRecord : Type 0 where
  pub user_id : ℕ
  pub token_hash : Text
  pub expires_at_unix_ms : ℕ
  pub last_client_sequence : ℕ
  pub revoked : Bool

pub record AccountStore : Type 0 where
  pub next_user_id : ℕ
  pub users : List UserRecord
  pub usernames : List (Text × ℕ)
  pub sessions : List SessionRecord

abbrev pub failed : {A : Type 0} → StorageError → StorageResult A
failed e = record { error = e; value = none }

abbrev pub returned : {A : Type 0} → A → StorageResult A
returned a = record { error = ok; value = some a }

-- `usernames_.find`, `users_.find` and `sessions_.find`.
unfoldable pub id_of_name : Text → List (Text × ℕ) → Option ℕ
id_of_name name [] = none
id_of_name name ((other, id) ∷ names) =
    if text_eq other name then some id else id_of_name name names

unfoldable pub user_of_id : ℕ → List UserRecord → Option UserRecord
user_of_id id [] = none
user_of_id id (u ∷ users) = if u.id == id then some u else user_of_id id users

unfoldable pub session_of : Text → List SessionRecord → Option SessionRecord
session_of token [] = none
session_of token (s ∷ sessions) =
    if text_eq s.token_hash token then some s else session_of token sessions

unfoldable pub erase_session : Text → List SessionRecord → List SessionRecord
erase_session token [] = []
erase_session token (s ∷ sessions) =
    if text_eq s.token_hash token
    then erase_session token sessions
    else s ∷ erase_session token sessions

-- `sessions_[key] = session`, where the key is the session's token hash.
unfoldable pub put_session : SessionRecord → List SessionRecord → List SessionRecord
put_session session [] = session ∷ []
put_session session (s ∷ sessions) =
    if text_eq s.token_hash session.token_hash
    then session ∷ sessions
    else s ∷ put_session session sessions

unfoldable pub create_user :
    AccountStore → Text → Text → ℤ → StorageResult UserRecord × AccountStore
create_user store username password_hash initial_chips =
    let user : UserRecord = record {
      id = store.next_user_id;
      username = username;
      password_hash = password_hash;
      wallet_balance = pos_part initial_chips;
      disabled = false;
    } in
    if is_empty_text username || is_empty_text password_hash || ltb_ℤ initial_chips 0
    then (failed invalid_data, store)
    else elim (id_of_name username store.usernames) [
      | some taken ↦ (failed duplicate, store)
      | none ↦ (
        returned user,
        record store {
          next_user_id = inc64 store.next_user_id;
          users = user ∷ store.users;
          usernames = (username, user.id) ∷ store.usernames;
        },
      )
    ]

unfoldable pub find_user_by_id : AccountStore → ℕ → StorageResult UserRecord
find_user_by_id store user_id = elim (user_of_id user_id store.users) [
  | none ↦ failed not_found
  | some user ↦ returned user
]

-- `findUserByName`; `users_.at` throws where the user is missing.
unfoldable pub find_user_by_name : AccountStore → Text → Run (StorageResult UserRecord)
find_user_by_name store username = elim (id_of_name username store.usernames) [
  | none ↦ done (failed not_found)
  | some id ↦ or_throw (user_of_id id store.users) >>= λ user. done (returned user)
]

-- `storeSession`.
unfoldable pub store_session : AccountStore → SessionRecord → StorageError × AccountStore
store_session store session =
    if session.user_id == 0 || is_empty_text session.token_hash || session.expires_at_unix_ms == 0
    then (invalid_data, store)
    else elim (user_of_id session.user_id store.users) [
      | none ↦ (not_found, store)
      | some user ↦ elim (session_of session.token_hash store.sessions) [
        | some other ↦ (conflict, store)
        | none ↦ (ok, record store { sessions = put_session session store.sessions })
      ]
    ]

-- Not revoked, and not expired.
abbrev pub is_live : SessionRecord → ℕ → Bool
is_live session now = not session.revoked && not (leb session.expires_at_unix_ms now)

unfoldable pub find_session : AccountStore → Text → ℕ → StorageResult SessionRecord
find_session store token now = elim (session_of token store.sessions) [
  | none ↦ failed not_found
  | some session ↦ if is_live session now then returned session else failed not_found
]

-- `rotateSession` from the assignment on.
unfoldable pub replace_session : AccountStore → Text → SessionRecord → AccountStore
replace_session store current replacement =
    let added = put_session replacement store.sessions in
    record store {
      sessions =
          if text_eq replacement.token_hash current then added else erase_session current added;
    }

abbrev pub is_known : Option SessionRecord → Bool
is_known none = false
is_known (some session) = true

unfoldable pub rotate_session :
    AccountStore → Text → SessionRecord → ℕ → StorageError × AccountStore
rotate_session store current replacement now =
    if replacement.user_id == 0
      || is_empty_text replacement.token_hash
      || leb replacement.expires_at_unix_ms now
    then (invalid_data, store)
    else elim (session_of current store.sessions) [
      | none ↦ (not_found, store)
      | some session ↦
          if not (is_live session now) || not (session.user_id == replacement.user_id)
          then (not_found, store)
          else if not (text_eq replacement.token_hash current)
              && is_known (session_of replacement.token_hash store.sessions)
          then (conflict, store)
          else (ok, replace_session store current replacement)
    ]

unfoldable pub revoke_session : AccountStore → Text → StorageError × AccountStore
revoke_session store token = elim (session_of token store.sessions) [
  | none ↦ (not_found, store)
  | some session ↦ (
    ok,
    record store { sessions = put_session (record session { revoked = true }) store.sessions },
  )
]

-- `updateSessionSequence`.
unfoldable pub update_session_sequence : AccountStore → Text → ℕ → ℕ → StorageError × AccountStore
update_session_sequence store token expected replacement = elim (session_of token store.sessions) [
  | none ↦ (not_found, store)
  | some session ↦
      if session.revoked
      then (not_found, store)
      else if not (session.last_client_sequence == expected) || not (replacement == inc64 expected)
      then (conflict, store)
      else (
        ok,
        record store {
          sessions =
              put_session (record session { last_client_sequence = replacement }) store.sessions;
        },
      )
]
