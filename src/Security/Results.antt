-- ===== src/Security/Results.antt =====
-- The results of `AuthService` of include/poker/security/auth_service.hpp.
use poker.Prelude.{Option, Text, none, some, ℕ}
use poker.Storage.Accounts.{StorageError, StorageResult, unavailable}

pub data AuthError : Type 0 where
  ok : AuthError
  invalid_username : AuthError
  weak_password : AuthError
  username_taken : AuthError
  invalid_credentials : AuthError
  account_disabled : AuthError
  invalid_session : AuthError
  storage_unavailable : AuthError

pub record AuthenticatedSession : Type 0 where
  pub user_id : ℕ
  pub username : Text
  pub raw_token : Text
  pub wallet_balance : ℕ
  pub expires_at_unix_ms : ℕ
  pub last_client_sequence : ℕ

pub record AuthResult (A : Type 0) : Type 0 where
  pub error : AuthError
  pub value : Option A

abbrev pub denied : {A : Type 0} → AuthError → AuthResult A
denied e = record { error = e; value = none }

abbrev pub granted : {A : Type 0} → A → AuthResult A
granted a = record { error = AuthError.ok; value = some a }

abbrev pub value_if : {A : Type 0} → StorageError → Option A → Option A
value_if StorageError.ok value = value
value_if _ value = none

-- The value of a result that is true as a `bool`.
abbrev pub value_of : {A : Type 0} → StorageResult A → Option A
value_of r = value_if r.error r.value

abbrev pub auth_value_of : {A : Type 0} → AuthResult A → Option A
auth_value_of r = elim r.error [ AuthError.ok ↦ r.value | _ ↦ none ]

-- `error == unavailable ? storage_unavailable : ...`.
abbrev pub unavailable_or : StorageError → AuthError → AuthError
unavailable_or unavailable e = storage_unavailable
unavailable_or _ e = e
