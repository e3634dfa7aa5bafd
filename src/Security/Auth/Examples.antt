-- ===== src/Security/Auth/Examples.antt =====
-- A user who is registered and logs in.
use poker.Prelude.{Run, Text, [], done, false, pos, refl, replicate, suc, text_eq, ℕ, ◌∷◌, ◌≡◌}
use poker.Security.Auth.{
  AuthService, are_name_characters, authenticate, authenticate_by, is_alnum, login, login_as,
  logout, new_auth_service, open_session, refresh, register_user, renew, valid_password,
  valid_username,
}
use poker.Security.Auth.Login.{IsSession, login-IsSession}
use poker.Security.Crypto.{CryptoProvider}
use poker.Security.Results.{AuthenticatedSession}
use poker.Storage.Accounts.{
  AccountStore, create_user, erase_session, find_session, find_user_by_id, find_user_by_name,
  id_of_name, put_session, replace_session, revoke_session, rotate_session, session_of,
  store_session, update_session_sequence, user_of_id,
}

abbrev plain : CryptoProvider
plain = record {
  State = ℕ;
  hash_password = λ s password. (password, s);
  verify_password = text_eq;
  generate_session_token = λ s. (s ∷ [], suc s);
  hash_session_token = λ token. b'h' ∷ token;
}

abbrev service : AuthService
service = record { session_ttl_seconds = 60; initial_chips = pos 100; dummy_password_hash = [] }

abbrev name : Text
name = b'a' ∷ b'_' ∷ b'9' ∷ []

abbrev password : Text
password = replicate 10 b'p'

abbrev no_users : AccountStore
no_users = record { next_user_id = 1; users = []; usernames = []; sessions = [] }

abbrev one_user : AccountStore
unfolding is_alnum are_name_characters valid_username valid_password authenticate_by
    new_auth_service register_user open_session login_as login authenticate renew refresh logout
    id_of_name user_of_id session_of erase_session put_session create_user find_user_by_id
    find_user_by_name store_session find_session replace_session rotate_session revoke_session
    update_session_sequence text_eq
one_user = (register_user plain service no_users 5 name password).1.0

abbrev got : {A B : Type 0} → B → (A → B) → Run A → B
got b f (done a) = f a
got b f _ = b

abbrev logged_in : AccountStore
unfolding one_user is_alnum are_name_characters valid_username valid_password authenticate_by
    new_auth_service register_user open_session login_as login authenticate renew refresh logout
    id_of_name user_of_id session_of erase_session put_session create_user find_user_by_id
    find_user_by_name store_session find_session replace_session rotate_session revoke_session
    update_session_sequence text_eq
logged_in = got no_users (λ r. r.1.0) (login plain service one_user 5 name password 1000)

abbrev first_session : AuthenticatedSession
first_session = record {
  user_id = 1;
  username = name;
  raw_token = 5 ∷ [];
  wallet_balance = 100;
  expires_at_unix_ms = 61000;
  last_client_sequence = 0;
}

short-test : valid_username (b'a' ∷ []) ≡ false
unfolding is_alnum are_name_characters valid_username valid_password authenticate_by
    new_auth_service register_user open_session login_as login authenticate renew refresh logout
short-test = refl

login-IsSession_example : IsSession plain logged_in first_session
unfolding one_user logged_in is_alnum are_name_characters valid_username valid_password
    authenticate_by new_auth_service register_user open_session login_as login authenticate renew
    refresh logout id_of_name user_of_id session_of erase_session put_session create_user
    find_user_by_id find_user_by_name store_session find_session replace_session rotate_session
    revoke_session update_session_sequence text_eq
login-IsSession_example =
    login-IsSession plain service one_user logged_in 5 6 name password 1000 first_session refl refl
