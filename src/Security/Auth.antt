-- ===== src/Security/Auth.antt =====
-- `AuthService` of include/poker/security/auth_service.hpp and src/poker/security/auth_service.cpp, over
-- the account store in memory and a provider of hashes and tokens. The texts of messages are left out.
-- Times are not negative, and do not wrap around.
pub mod Login
mod Examples
use poker.Prelude.{
  Bool, Run, Text, [], done, false, if◌then◌else◌, is_empty_text, leb, length, ltb, none, not, some,
  true, ℕ, ℤ, ◌&&◌, ◌*◌, ◌+◌, ◌==◌, ◌>>=◌, ◌||◌, ◌∷◌,
}
use poker.Security.Crypto.{CryptoProvider}
use poker.Security.Results.{
  AuthError, AuthResult, AuthenticatedSession, account_disabled, auth_value_of, denied, granted,
  invalid_credentials, invalid_session, invalid_username, ok, storage_unavailable, unavailable_or,
  username_taken, value_of, weak_password,
}
use poker.Storage.Accounts.{
  AccountStore, SessionRecord, StorageError, StorageResult, UserRecord, create_user, duplicate,
  find_session, find_user_by_id, find_user_by_name, revoke_session, rotate_session, store_session,
}

-- `std::isalnum` in the locale that a program starts with.
unfoldable pub is_alnum : ℕ → Bool
is_alnum c = (leb 48 c && leb c 57) || (leb 65 c && leb c 90) || (leb 97 c && leb c 122)

-- The loop of `validUsername`.
unfoldable pub are_name_characters : Text → Bool
unfolding is_alnum
are_name_characters [] = true
are_name_characters (c ∷ text) =
    if not (is_alnum c) && not (c == b'_') then false else are_name_characters text

unfoldable pub valid_username : Text → Bool
unfolding are_name_characters
valid_username username =
    if ltb (length username) 3 || ltb 32 (length username)
    then false
    else are_name_characters username

unfoldable pub valid_password : Text → Bool
valid_password password = leb 10 (length password) && leb (length password) 128

-- The error of `registerUser` where the store made no user.
abbrev pub creation_error : StorageError → AuthError
creation_error duplicate = username_taken
creation_error _ = storage_unavailable

pub record AuthService : Type 0 where
  pub session_ttl_seconds : ℕ
  pub initial_chips : ℤ
  pub dummy_password_hash : Text

abbrev pub session_expiry : AuthService → ℕ → ℕ
session_expiry service now = now + service.session_ttl_seconds * 1000

abbrev pub session_for : UserRecord → SessionRecord → AuthenticatedSession
session_for user session = record {
  user_id = user.id;
  username = user.username;
  raw_token = [];
  wallet_balance = user.wallet_balance;
  expires_at_unix_ms = session.expires_at_unix_ms;
  last_client_sequence = session.last_client_sequence;
}

-- `authenticate` on the answer of `findSession`.
unfoldable pub authenticate_by :
    AccountStore → StorageResult SessionRecord → AuthResult AuthenticatedSession
authenticate_by store found = elim (value_of found) [
  | none ↦ denied (unavailable_or found.error invalid_session)
  | some session ↦ elim (value_of (find_user_by_id store session.user_id)) [
    | none ↦ denied invalid_session
    | some user ↦
        if user.disabled then denied invalid_session else granted (session_for user session)
  ]
]

module _ (crypto : CryptoProvider) where
  open crypto use {
    State, hash_password, verify_password, generate_session_token, hash_session_token,
  }

  -- The constructor, by the text of the password that it hashes.
  unfoldable pub new_auth_service : State → Text → ℕ → ℤ → AuthService × State
  new_auth_service s dummy_password session_ttl_seconds initial_chips =
      let hashed = hash_password s dummy_password in
      (
        record {
          session_ttl_seconds = session_ttl_seconds;
          initial_chips = initial_chips;
          dummy_password_hash = hashed.0;
        },
        hashed.1,
      )

  unfoldable pub register_user :
      AuthService
      → AccountStore
      → State
      → Text
      → Text
      → AuthResult UserRecord × (AccountStore × State)
  unfolding valid_username valid_password
  register_user service store s username password =
      let hashed = hash_password s password in
      let created = create_user store username hashed.0 service.initial_chips in
      if not (valid_username username)
      then (denied invalid_username, (store, s))
      else if not (valid_password password)
      then (denied weak_password, (store, s))
      else elim (value_of created.0) [
        | none ↦ (denied (creation_error created.0.error), (created.1, hashed.1))
        | some user ↦ (granted user, (created.1, hashed.1))
      ]

  -- `login` once the user and the password are found right.
  unfoldable pub open_session :
      AuthService
      → AccountStore
      → State
      → UserRecord
      → ℕ
      → AuthResult AuthenticatedSession × (AccountStore × State)
  open_session service store s user now =
      let raw = generate_session_token s in
      let session : SessionRecord = record {
        user_id = user.id;
        token_hash = hash_session_token raw.0;
        expires_at_unix_ms = session_expiry service now;
        last_client_sequence = 0;
        revoked = false;
      } in
      let stored = store_session store session in
      (
        elim stored.0 [
          | StorageError.ok ↦ granted (record {
            user_id = user.id;
            username = user.username;
            raw_token = raw.0;
            wallet_balance = user.wallet_balance;
            expires_at_unix_ms = session_expiry service now;
            last_client_sequence = 0;
          })
          | _ ↦ denied storage_unavailable
        ],
        (stored.1, raw.1),
      )

  -- `login` on the answer of `findUserByName`. Without a user the password is compared with the dummy
  -- hash, which takes the time of a comparison and has no other effect.
  unfoldable pub login_as :
      AuthService
      → AccountStore
      → State
      → StorageResult UserRecord
      → Text
      → ℕ
      → AuthResult AuthenticatedSession × (AccountStore × State)
  unfolding open_session
  login_as service store s found password now =
      let rejected = denied (unavailable_or found.error invalid_credentials) in
      elim (value_of found) [
        | none ↦ (rejected, (store, s))
        | some user ↦
            if not (verify_password password user.password_hash)
            then (rejected, (store, s))
            else if user.disabled
            then (denied account_disabled, (store, s))
            else open_session service store s user now
      ]

  unfoldable pub login :
      AuthService
      → AccountStore
      → State
      → Text
      → Text
      → ℕ
      → Run (AuthResult AuthenticatedSession × (AccountStore × State))
  unfolding login_as
  login service store s username password now = find_user_by_name store username >>= λ found.
      done (login_as service store s found password now)

  unfoldable pub authenticate : AccountStore → Text → ℕ → AuthResult AuthenticatedSession
  unfolding authenticate_by
  authenticate store raw_token now =
      if is_empty_text raw_token
      then denied invalid_session
      else authenticate_by store (find_session store (hash_session_token raw_token) now)

  -- `refresh` of a session that was authenticated.
  unfoldable pub renew :
      AuthService
      → AccountStore
      → State
      → Text
      → AuthenticatedSession
      → ℕ
      → AuthResult AuthenticatedSession × (AccountStore × State)
  renew service store s raw_token authenticated now =
      let new_token = generate_session_token s in
      let replacement : SessionRecord = record {
        user_id = authenticated.user_id;
        token_hash = hash_session_token new_token.0;
        expires_at_unix_ms = session_expiry service now;
        last_client_sequence = authenticated.last_client_sequence;
        revoked = false;
      } in
      let rotated = rotate_session store (hash_session_token raw_token) replacement now in
      (
        elim rotated.0 [
          | StorageError.ok ↦ granted (record authenticated {
            raw_token = new_token.0;
            expires_at_unix_ms = session_expiry service now;
          })
          | _ ↦ denied (unavailable_or rotated.0 invalid_session)
        ],
        (rotated.1, new_token.1),
      )

  unfoldable pub refresh :
      AuthService
      → AccountStore
      → State
      → Text
      → ℕ
      → AuthResult AuthenticatedSession × (AccountStore × State)
  unfolding authenticate renew
  refresh service store s raw_token now =
      let authenticated = authenticate store raw_token now in
      elim (auth_value_of authenticated) [
        | none ↦ (authenticated, (store, s))
        | some session ↦ renew service store s raw_token session now
      ]

  unfoldable pub logout : AccountStore → Text → AuthError × AccountStore
  logout store raw_token =
      let revoked = revoke_session store (hash_session_token raw_token) in
      if is_empty_text raw_token then (invalid_session, store) else (
        elim revoked.0 [
          | StorageError.ok ↦ AuthError.ok
          | _ ↦ unavailable_or revoked.0 invalid_session
        ],
        revoked.1,
      )
