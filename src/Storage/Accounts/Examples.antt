-- ===== src/Storage/Accounts/Examples.antt =====
-- A store with one user, and the theorems on sessions applied to it.
use poker.Prelude.{text_eq, [], false, pos, refl, true, ℕ, ◌∷◌, ◌≡◌, ◌≢◌}
use poker.Storage.Accounts.{
  AccountStore, SessionRecord, create_user, failed, find_session, is_live, not_found, ok,
  put_session, session_of, returned, revoke_session, rotate_session, store_session,
  update_session_sequence, user_of_id, id_of_name, conflict,
}
use poker.Storage.Accounts.Sessions.{revoke_session-dead, rotate_session-tokens}

abbrev first_session : SessionRecord
first_session = record {
  user_id = 1;
  token_hash = b'a' ∷ [];
  expires_at_unix_ms = 1000;
  last_client_sequence = 0;
  revoked = false;
}

abbrev second_session : SessionRecord
second_session = record first_session { token_hash = b'a' ∷ b'b' ∷ []; expires_at_unix_ms = 2000 }

abbrev empty_store : AccountStore
empty_store = record { next_user_id = 1; users = []; usernames = []; sessions = [] }

abbrev one_user : AccountStore
unfolding create_user id_of_name
one_user = (create_user empty_store (b'u' ∷ []) (b'p' ∷ []) (pos 500)).1

abbrev one_session : AccountStore
one_session = record one_user { sessions = first_session ∷ [] }

store_session-test : store_session one_user first_session ≡ (ok, one_session)
unfolding store_session user_of_id session_of put_session one_user
store_session-test = refl

update-test : (update_session_sequence one_session (b'a' ∷ []) 0 2).0 ≡ conflict
unfolding update_session_sequence session_of text_eq
update-test = refl

revoked : (s : AccountStore) × (revoke_session one_session (b'a' ∷ []) ≡ (ok, s))
unfolding revoke_session session_of text_eq
revoked = (_, refl)

revoke_session-dead_example : find_session revoked.0 (b'a' ∷ []) 10 ≡ failed not_found
revoke_session-dead_example = revoke_session-dead one_session revoked.0 (b'a' ∷ []) 10 revoked.1

rotated : (s : AccountStore) × (rotate_session one_session (b'a' ∷ []) second_session 10 ≡ (ok, s))
unfolding rotate_session session_of text_eq
rotated = (_, refl)

names_differ : first_session.token_hash ≢ second_session.token_hash
names_differ e = cc

rotate_session-tokens_example :
    ((later : ℕ)
      → is_live second_session later ≡ true
      → find_session rotated.0 (b'a' ∷ b'b' ∷ []) later ≡ returned second_session)
    × ((later : ℕ) → find_session rotated.0 (b'a' ∷ []) later ≡ failed not_found)
rotate_session-tokens_example =
    rotate_session-tokens one_session rotated.0 (b'a' ∷ []) second_session 10 rotated.1 names_differ
