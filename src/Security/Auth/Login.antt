-- ===== src/Security/Auth/Login.antt =====
-- The session that a login opens.
use poker.Prelude.{
  >>=-eq-done, Bool-cases, List, Option, Option-cases, Text, [], ap, arith, done, false,
  if◌then◌else◌, inl, inr, is_empty_text, leb, none, refl, some, subst, sym, true, ℕ, ◌==◌, ◌||◌,
  ◌∙◌, ◌∷◌, ◌≡◌, ◌≢◌,
}
use poker.Security.Auth.{
  AuthService, authenticate, authenticate_by, login, login_as, logout, open_session, session_expiry,
  session_for,
}
use poker.Security.Crypto.{CryptoProvider}
use poker.Security.Results.{
  AuthError, AuthResult, AuthenticatedSession, denied, granted, invalid_session, value_of,
}
use poker.Storage.Accounts.{
  AccountStore, SessionRecord, StorageError, StorageResult, UserRecord, failed, find_session,
  find_user_by_id, find_user_by_name, id_of_name, is_live, put_session, returned, revoke_session,
  session_of, store_session, user_of_id,
}
use poker.Storage.Accounts.Sessions.{revoke_session-dead, session_of-put}

user_of_id-id :
    (id : ℕ) (users : List UserRecord) (u : UserRecord)
    → user_of_id id users ≡ some u
    → user_of_id u.id users ≡ some u
unfolding user_of_id
user_of_id-id id users u h = subst (λ i. user_of_id i users ≡ some u) (sym (has_that_id users h)) h
  where
    has_that_id : (l : List UserRecord) → user_of_id id l ≡ some u → u.id ≡ id
    has_that_id [] e = cc
    has_that_id (v ∷ l) e = elim (Bool-cases (v.id == id)) [
      | inl hit ↦
          let q = rw hit at e in
          let same : v ≡ u = cc in
          let i : v.id ≡ id = ground arith in subst (λ (w : UserRecord). w.id ≡ id) same i
      | inr miss ↦ has_that_id l (rw miss at e)
    ]

find_user_by_name-id :
    (store : AccountStore) (name : Text) (found : StorageResult UserRecord) (u : UserRecord)
    → find_user_by_name store name ≡ done found
    → value_of found ≡ some u
    → user_of_id u.id store.users ≡ some u
unfolding find_user_by_name
find_user_by_name-id store name found u h v =
    elim (Option-cases (id_of_name name store.usernames)) [
      | inl missing ↦
          let q = rw (missing, find_user_by_name) at h in
          let e : failed StorageError.not_found ≡ found = cc in
          let w = subst (λ f. value_of f ≡ some u) (sym e) v in cc
      | inr (id, known) ↦
          let q = rw (known, find_user_by_name) at h in
          elim (Option-cases (user_of_id id store.users)) [
            | inl gone ↦ let w = rw gone at q in cc
            | inr (w, there) ↦
                let r = rw there at q in
                let e : returned w ≡ found = cc in
                let k : some w ≡ some u = subst (λ f. value_of f ≡ some u) (sym e) v in
                let same : w ≡ u = cc in user_of_id-id id store.users u (there ∙ ap some same)
          ]
    ]

found_by_id :
    (store : AccountStore) (id : ℕ) (u : UserRecord)
    → user_of_id id store.users ≡ some u
    → find_user_by_id store id ≡ returned u
unfolding find_user_by_id
found_by_id store id u h = rw (h, find_user_by_id) refl

store_session-ok :
    (store store' : AccountStore) (session : SessionRecord)
    → store_session store session ≡ (StorageError.ok, store')
    → store' ≡ record store { sessions = put_session session store.sessions }
unfolding store_session
store_session-ok store store' session h =
    elim (Bool-cases (
      session.user_id == 0
      || is_empty_text session.token_hash
      || session.expires_at_unix_ms == 0)) [
        | inl wrong ↦ let q = rw (wrong, store_session) at h in cc
        | inr right ↦ elim (Option-cases (user_of_id session.user_id store.users)) [
          | inl missing ↦ let q = rw (right, missing, store_session) at h in cc
          | inr (u, there) ↦ elim (Option-cases (session_of session.token_hash store.sessions)) [
            | inr (other, clash) ↦ let q = rw (right, there, clash, store_session) at h in cc
            | inl fresh_ ↦
                let q = rw (right, there, fresh_, store_session) at h in
                sym (ap (λ (r : StorageError × AccountStore). r.1) q)
          ]
        ]
      ]

denied_ne : {A : Type 0} (e : AuthError) (a : A) → denied e ≢ granted a
denied_ne {A} e a h =
    let q : ◌≡◌ {A = Option A} none (some a) = ap (λ (r : AuthResult A). r.value) h in cc

module _ (crypto : CryptoProvider) where
  open crypto use {State, hash_session_token, generate_session_token, verify_password}

  -- The token authenticates as the user until the session expires, and after a logout at no time.
  abbrev pub IsSession : AccountStore → AuthenticatedSession → Type 0
  IsSession store session =
      ((t : ℕ)
        → authenticate crypto store session.raw_token t ≡ (
            if leb session.expires_at_unix_ms t
            then denied invalid_session
            else granted (record session { raw_token = [] })))
      × ((logout crypto store session.raw_token).0 ≡ AuthError.ok)
      × ((t : ℕ)
          → authenticate crypto (logout crypto store session.raw_token).1 session.raw_token t
            ≡ denied invalid_session)

  -- A session of a user who is not disabled, in the store.
  stored-IsSession :
      (store : AccountStore) (user : UserRecord) (record_ : SessionRecord)
      (session : AuthenticatedSession)
      → is_empty_text session.raw_token ≡ false
      → user_of_id user.id store.users ≡ some user
      → user.disabled ≡ false
      → session_of (hash_session_token session.raw_token) store.sessions ≡ some record_
      → record_.token_hash ≡ hash_session_token session.raw_token
      → record_.user_id ≡ user.id
      → record_.revoked ≡ false
      → record_.expires_at_unix_ms ≡ session.expires_at_unix_ms
      → session_for user record_ ≡ record session { raw_token = [] }
      → IsSession store session
  unfolding authenticate authenticate_by logout revoke_session find_session
  stored-IsSession store user record_ session token there able here hashed own live until same =
      let out : logout crypto store session.raw_token ≡ (AuthError.ok, after) =
        rw (revoked_now, token, logout) refl in
      (by_time, rw out refl, λ t. rw out (rw (dead t, token, authenticate) refl))
    where
      hash : Text
      hash = hash_session_token session.raw_token

      after : AccountStore
      after = record store {
        sessions = put_session (record record_ { revoked = true }) store.sessions;
      }

      revoked_now : revoke_session store hash ≡ (StorageError.ok, after)
      revoked_now = rw (here, revoke_session) refl

      dead : (t : ℕ) → find_session after hash t ≡ failed StorageError.not_found
      dead t = revoke_session-dead store after hash t revoked_now

      by_time :
          (t : ℕ)
          → authenticate crypto store session.raw_token t ≡ (
              if leb session.expires_at_unix_ms t
              then denied invalid_session
              else granted (record session { raw_token = [] }))
      by_time t = elim (Bool-cases (leb session.expires_at_unix_ms t)) [
        | inl over ↦
            let l : is_live record_ t ≡ false = rw (live, until, over) refl in
            let f : find_session store hash t ≡ failed StorageError.not_found =
              rw (here, l, find_session) refl in
            rw (over, f, token, authenticate) refl
        | inr before ↦
            let l : is_live record_ t ≡ true = rw (live, until, before) refl in
            let f : find_session store hash t ≡ returned record_ =
              rw (here, l, find_session) refl in
            let g : find_user_by_id store record_.user_id ≡ returned user =
              found_by_id store record_.user_id user (rw own there) in
            rw (before, f, token, authenticate) (rw (g, able, authenticate_by) (ap granted same))
      ]

  -- Where the provider's token is not empty, the token that a login hands out authenticates as the user
  -- who logged in, at every time until the session expires and at none after; a logout with the token
  -- succeeds, and after it the token authenticates at no time.
  pub login-IsSession :
      (service : AuthService) (store store' : AccountStore) (s s' : State)
      (username password : Text) (now : ℕ) (session : AuthenticatedSession)
      → is_empty_text session.raw_token ≡ false
      → login crypto service store s username password now ≡ done (granted session, (store', s'))
      → IsSession store' session
  unfolding login login_as open_session
  login-IsSession service store store' s s' username password now session token h =
      let (found, asked, e) = >>=-eq-done (find_user_by_name store username) _ h in
      let q : login_as crypto service store s found password now ≡ (granted session, (store', s')) =
        cc in
      elim (Option-cases (value_of found)) [
        | inl none_ ↦
            let w = rw (none_, login_as) at q in absurd (denied_ne _ session (ap (λ r. r.0) w))
        | inr (user, is_user) ↦ elim (Bool-cases (verify_password password user.password_hash)) [
          | inr wrong ↦
              let w = rw (is_user, wrong, login_as) at q in
              absurd (denied_ne _ session (ap (λ r. r.0) w))
          | inl right ↦ elim (Bool-cases user.disabled) [
            | inl off ↦
                let w = rw (is_user, right, off, login_as) at q in
                absurd (denied_ne _ session (ap (λ r. r.0) w))
            | inr able ↦
                let w : open_session crypto service store s user now
                    ≡ (granted session, (store', s')) =
                  rw (is_user, right, able, login_as) at q in
                opened user (find_user_by_name-id store username found user asked is_user) able w
          ]
        ]
      ]
    where
      opened :
          (user : UserRecord)
          → user_of_id user.id store.users ≡ some user
          → user.disabled ≡ false
          → open_session crypto service store s user now ≡ (granted session, (store', s'))
          → IsSession store' session
      opened user there able w = by_answer (store_session store stored) refl
        where
          stored : SessionRecord
          stored = record {
            user_id = user.id;
            token_hash = hash_session_token (generate_session_token s).0;
            expires_at_unix_ms = session_expiry service now;
            last_client_sequence = 0;
            revoked = false;
          }

          by_answer :
              (x : StorageError × AccountStore)
              → store_session store stored ≡ x
              → IsSession store' session
          by_answer (StorageError.ok, x) e =
              let v = rw (e, open_session) at w in
              let route : AuthenticatedSession = record {
                user_id = user.id;
                username = user.username;
                raw_token = (generate_session_token s).0;
                wallet_balance = user.wallet_balance;
                expires_at_unix_ms = session_expiry service now;
                last_client_sequence = 0;
              } in
              let g : granted route ≡ granted session = ap (λ r. r.0) v in
              let o : some route ≡ some session =
                ap (λ (r : AuthResult AuthenticatedSession). r.value) g in
              let b : route ≡ session = cc in
              let c : x ≡ store' = ap (λ r. r.1.0) v in
              let y = store_session-ok store x stored e in
              let known : user_of_id user.id x.users ≡ some user =
                subst (λ (z : AccountStore). user_of_id user.id z.users ≡ some user) (sym y)
                  there in
              let here : session_of stored.token_hash x.sessions ≡ some stored =
                subst (λ (z : AccountStore). session_of stored.token_hash z.sessions ≡ some stored)
                  (sym y) (session_of-put stored store.sessions) in
              let full : is_empty_text route.raw_token ≡ false =
                subst (λ (z : AuthenticatedSession). is_empty_text z.raw_token ≡ false) (sym b)
                  token in
              subst (λ z. IsSession z session) c
                (subst (IsSession x) b (
                  stored-IsSession x user stored route full known able here refl refl refl refl
                    refl))
          by_answer (_, x) e =
              let v = rw (e, open_session) at w in absurd (denied_ne _ session (ap (λ r. r.0) v))
