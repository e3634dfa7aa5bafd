-- ===== src/Storage/Accounts/Sessions.antt =====
-- What rotating and revoking a session does to the tokens.
use poker.Application.Idempotency.Sequence.{after}
use poker.Prelude.{
  Bool-cases, List, Option-cases, Text, [], ap, false, inl, inr, is_empty_text, leb, none, not,
  refl, some, subst, sym, text_eq, text_eq_iff, text_eq_refl, true, ℕ, ◌&&◌, ◌==◌, ◌||◌, ◌∙◌, ◌∷◌,
  ◌≡◌, ◌≢◌,
}
use poker.Storage.Accounts.{
  AccountStore, SessionRecord, StorageError, erase_session, failed, find_session, is_known, is_live,
  not_found, ok, put_session, replace_session, returned, revoke_session, rotate_session, session_of,
}

text_ne : (xs ys : Text) → xs ≢ ys → text_eq xs ys ≡ false
text_ne xs ys n = elim (Bool-cases (text_eq xs ys)) [
  | inl e ↦ absurd (n ((text_eq_iff xs ys).0 e))
  | inr e ↦ e
]

pub session_of-put :
    (session : SessionRecord) (sessions : List SessionRecord)
    → session_of session.token_hash (put_session session sessions) ≡ some session
unfolding session_of put_session
session_of-put session [] = rw (text_eq_refl session.token_hash) refl
session_of-put session (s ∷ sessions) =
    elim (Bool-cases (text_eq s.token_hash session.token_hash)) [
      | inl e ↦ rw (e, text_eq_refl session.token_hash) refl
      | inr e ↦ rw (e, e) (session_of-put session sessions)
    ]

session_of-erase :
    (token : Text) (sessions : List SessionRecord)
    → session_of token (erase_session token sessions) ≡ none
unfolding session_of erase_session
session_of-erase token [] = refl
session_of-erase token (s ∷ sessions) = elim (Bool-cases (text_eq s.token_hash token)) [
  | inl e ↦ rw e (session_of-erase token sessions)
  | inr e ↦ rw (e, e) (session_of-erase token sessions)
]

session_of-erase_other :
    (token other : Text) (sessions : List SessionRecord)
    → token ≢ other
    → session_of other (erase_session token sessions) ≡ session_of other sessions
unfolding session_of erase_session
session_of-erase_other token other [] n = refl
session_of-erase_other token other (s ∷ sessions) n =
    elim (Bool-cases (text_eq s.token_hash token)) [
      | inl e ↦
          let same = (text_eq_iff s.token_hash token).0 e in
          let d : text_eq s.token_hash other ≡ false =
            text_ne s.token_hash other (λ q. n (sym same ∙ q)) in
          rw (e, d) (session_of-erase_other token other sessions n)
      | inr e ↦ elim (Bool-cases (text_eq s.token_hash other)) [
        | inl d ↦ rw (e, d) refl
        | inr d ↦ rw (e, d) (session_of-erase_other token other sessions n)
      ]
    ]

session_of-token :
    (token : Text) (sessions : List SessionRecord) (s : SessionRecord)
    → session_of token sessions ≡ some s
    → s.token_hash ≡ token
unfolding session_of
session_of-token token [] s h = cc
session_of-token token (r ∷ sessions) s h = elim (Bool-cases (text_eq r.token_hash token)) [
  | inl e ↦
      let q : r.token_hash ≡ token = (text_eq_iff r.token_hash token).0 e in
      let same : some r ≡ some s = rw e at h in cc
  | inr e ↦ session_of-token token sessions s (rw e at h)
]

-- After a session has been revoked, its token finds no session, at whatever time.
pub revoke_session-dead :
    (store after : AccountStore) (token : Text) (now : ℕ)
    → revoke_session store token ≡ (ok, after)
    → find_session after token now ≡ failed not_found
unfolding revoke_session find_session
revoke_session-dead store after token now h =
    elim (Option-cases (session_of token store.sessions)) [
      | inl missing ↦ let q = rw (missing, revoke_session) at h in cc
      | inr (s, found) ↦
          let gone : SessionRecord = record s { revoked = true } in
          let next : AccountStore = record store { sessions = put_session gone store.sessions } in
          let q : ◌≡◌ {A = StorageError × AccountStore} (ok, next) (ok, after) =
            rw (found, revoke_session) at h in
          let same : next ≡ after = ap (λ (r : StorageError × AccountStore). r.1) q in
          let token_of = session_of-token token store.sessions s found in
          let here : session_of token next.sessions ≡ some gone =
            subst (λ k. session_of k next.sessions ≡ some gone) token_of
              (session_of-put gone store.sessions) in
          subst (λ (u : AccountStore). find_session u token now ≡ failed not_found) same
            (rw (here, find_session) refl)
    ]

replace_session-tokens :
    (store : AccountStore) (current : Text) (replacement : SessionRecord)
    → current ≢ replacement.token_hash
    → ((later : ℕ)
        → is_live replacement later ≡ true
        → find_session (replace_session store current replacement) replacement.token_hash later
          ≡ returned replacement)
      × ((later : ℕ)
          → find_session (replace_session store current replacement) current later
            ≡ failed not_found)
unfolding find_session replace_session
replace_session-tokens store current replacement differs =
    let ne : text_eq replacement.token_hash current ≡ false =
      text_ne replacement.token_hash current (λ q. differs (sym q)) in
    let added = put_session replacement store.sessions in
    let new_one : session_of replacement.token_hash (erase_session current added)
        ≡ some replacement =
      session_of-erase_other current replacement.token_hash added differs
      ∙ session_of-put replacement store.sessions in
    (
      λ later live. rw (ne, new_one, live, find_session) refl,
      λ later. rw (ne, session_of-erase current added, find_session) refl,
    )

rotate_session-replaces :
    (store after : AccountStore) (current : Text) (replacement : SessionRecord) (now : ℕ)
    → rotate_session store current replacement now ≡ (ok, after)
    → replace_session store current replacement ≡ after
unfolding rotate_session
rotate_session-replaces store after current replacement now h =
    elim (Bool-cases (
      replacement.user_id == 0
      || is_empty_text replacement.token_hash
      || leb replacement.expires_at_unix_ms now)) [
        | inl wrong ↦ let q = rw (wrong, rotate_session) at h in cc
        | inr right ↦ elim (Option-cases (session_of current store.sessions)) [
          | inl missing ↦ let q = rw (right, missing, rotate_session) at h in cc
          | inr (s, found) ↦
              elim (Bool-cases (not (is_live s now) || not (s.user_id == replacement.user_id))) [
                | inl dead ↦ let q = rw (right, found, dead, rotate_session) at h in cc
                | inr alive ↦
                    elim (Bool-cases (
                      not (text_eq replacement.token_hash current)
                      && is_known (session_of replacement.token_hash store.sessions))) [
                        | inl taken ↦
                            let q = rw (right, found, alive, taken, rotate_session) at h in cc
                        | inr free ↦
                            let q = rw (right, found, alive, free, rotate_session) at h in
                            ap (λ (r : StorageError × AccountStore). r.1) q
                      ]
              ]
        ]
      ]

-- After a rotation from one token to another has succeeded, the new token finds just the new session
-- at every time at which that session is live, and the old token finds none, at whatever time.
pub rotate_session-tokens :
    (store after : AccountStore) (current : Text) (replacement : SessionRecord) (now : ℕ)
    → rotate_session store current replacement now ≡ (ok, after)
    → current ≢ replacement.token_hash
    → ((later : ℕ)
        → is_live replacement later ≡ true
        → find_session after replacement.token_hash later ≡ returned replacement)
      × ((later : ℕ) → find_session after current later ≡ failed not_found)
rotate_session-tokens store after current replacement now h differs =
    let same = rotate_session-replaces store after current replacement now h in
    subst
      (λ (u : AccountStore).
        ((later : ℕ)
          → is_live replacement later ≡ true
          → find_session u replacement.token_hash later ≡ returned replacement)
        × ((later : ℕ) → find_session u current later ≡ failed not_found))
      same (replace_session-tokens store current replacement differs)
