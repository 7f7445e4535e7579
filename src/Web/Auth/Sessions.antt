-- ===== src/Web/Auth/Sessions.antt =====
-- Who a session token stands for: through its time to live, and after a change of password.
use openqqwaifu.Prelude.{
  ℕ, ◌+◌, ◌<◌, ◌≡◌, ◌≢◌, refl, sym, ◌∙◌, String, false, if◌then◌else◌, Option, none, some, str_eq,
  eq_iff, ◌↔◌, arith, inl, inr, Bool-cases, Option-cases, found_own, leb,
}
use openqqwaifu.Result.{ok, Ensures, Ensures-ok, Ensures-bind, Ensures-require, Ensures-option}
use openqqwaifu.Web.Auth.{
  Library, Bytes, User, AuthUser, Session, AuthManager, user_of, is_named, normalize_username,
  validate_password, verify_password, public_user, purge_expired, sessions_without, change_password,
  create_session, get_session_user, session_ttl,
}

-- The answer names no one, or someone else.
abbrev pub SomeoneElse : String → Option AuthUser → Type 0
SomeoneElse name none = Unit
SomeoneElse name (some user) = user.username ≢ name

-- Of the sessions, none is the user's.
abbrev NoneOf : String → (String → Option Session) → Type 0
NoneOf name sessions = (t : String) (s : Session) → sessions t ≡ some s → s.username ≢ name

sessions_without-NoneOf :
    (name : String) (sessions : String → Option Session)
    → NoneOf name (sessions_without name sessions)
unfolding sessions_without
sessions_without-NoneOf name sessions t s e = ground (arith, e, eq_iff s.username name)

-- A session that the purge leaves was there and has time left.
purge_expired-kept :
    (now : ℕ) (sessions : String → Option Session) (t : String) (s : Session)
    → purge_expired now sessions t ≡ some s
    → (sessions t ≡ some s) × (now < s.expires_at)
unfolding purge_expired
purge_expired-kept now sessions t s e = ground (arith, e)

purge_expired-NoneOf :
    (name : String) (now : ℕ) (sessions : String → Option Session)
    → NoneOf name sessions
    → NoneOf name (purge_expired now sessions)
purge_expired-NoneOf name now sessions h t s e = h t s (purge_expired-kept now sessions t s e).0

get_session_user-NoneOf :
    (name : String) (now : ℕ) (token : String) (auth : AuthManager)
    → NoneOf name auth.sessions
    → SomeoneElse name (get_session_user now (some token) auth).1
unfolding get_session_user public_user
get_session_user-NoneOf name now token auth h = elim (Bool-cases (str_eq token "")) [
  | inl t ↦ rw t tt
  | inr t ↦ rw t (elim (Option-cases (purge_expired now auth.sessions token)) [
    | inl e ↦ rw e tt
    | inr (s, e) ↦ rw e (elim (Option-cases (user_of auth s.username)) [
      | inl g ↦ rw g tt
      | inr (u, g) ↦
          let own : u.username ≡ s.username =
            (eq_iff u.username s.username).0 (found_own (is_named s.username) auth.users g) in
          let other : s.username ≢ name = purge_expired-NoneOf name now auth.sessions h token s e in
          rw g (λ same. other (sym own ∙ same))
    ])
  ])
]

change_password-NoneOf :
    (lib : Library) (salt : Bytes) (now : ℕ) (username current new_password name : String)
    (auth : AuthManager)
    → normalize_username lib username ≡ ok name
    → Ensures
        (λ (p : AuthManager × AuthUser). NoneOf name p.0.sessions)
        (change_password lib salt now username current new_password auth)
unfolding change_password
change_password-NoneOf lib salt now username current new_password name auth e =
    let Q = λ (p : AuthManager × AuthUser). NoneOf name p.0.sessions in
    rw e (
      Ensures-bind Q (validate_password new_password) _ λ _ _.
        Ensures-option Q (user_of auth name) _ _ (λ _. tt)
          λ u _.
            Ensures-require Q (verify_password lib current u.password_salt u.password_hash) _ _
              λ _. sessions_without-NoneOf name auth.sessions)

-- After a change of password, no token stands for its user until the next login.
pub change_password_signs_out :
    (lib : Library) (salt : Bytes) (now later : ℕ)
    (username current new_password token name : String) (auth auth' : AuthManager) (user : AuthUser)
    → normalize_username lib username ≡ ok name
    → change_password lib salt now username current new_password auth ≡ ok (auth', user)
    → SomeoneElse name (get_session_user later (some token) auth').1
change_password_signs_out lib salt now later username current new_password token name auth auth'
      user e h =
    get_session_user-NoneOf name later token auth' (
      Ensures-ok (λ (p : AuthManager × AuthUser). NoneOf name p.0.sessions)
        (change_password lib salt now username current new_password auth)
        (change_password-NoneOf lib salt now username current new_password name auth e) h)

-- A session of a user who is there is answered with that user exactly while it has time left.
get_session_user-live :
    (later : ℕ) (t : String) (s : Session) (u : User) (auth : AuthManager)
    → str_eq t "" ≡ false
    → auth.sessions t ≡ some s
    → user_of auth s.username ≡ some u
    → ((user : AuthUser) × ((get_session_user later (some t) auth).1 ≡ some user))
      ↔ (later < s.expires_at)
unfolding get_session_user purge_expired
get_session_user-live later t s u auth named held found =
    elim (Bool-cases (leb s.expires_at later)) [
      | inl over ↦
          rw (named, held, over) ((λ x. absurd (cc x.1)), λ soon. ground (arith, soon, over))
      | inr live ↦
          rw (named, held, live, found) ((λ _. ground (arith, live)), λ _. (public_user u, refl))
    ]

-- A token that create_session returned is answered with a user exactly until its time to live is over.
pub session_lifetime :
    (lib : Library) (token username t : String) (now later : ℕ) (auth auth' : AuthManager)
    → token ≢ ""
    → create_session lib token now username auth ≡ ok (auth', t)
    → ((user : AuthUser) × ((get_session_user later (some t) auth').1 ≡ some user))
      ↔ (later < now + session_ttl)
unfolding create_session
session_lifetime lib token username t now later auth auth' named h =
    Ensures-ok
      (λ (p : AuthManager × String).
        ((user : AuthUser) × ((get_session_user later (some p.1) p.0).1 ≡ some user))
        ↔ (later < now + session_ttl))
      (create_session lib token now username auth)
      (Ensures-bind _ (normalize_username lib username) _ λ name _.
        Ensures-option _ (user_of auth name) _ _ (λ _. tt)
          λ u found.
            get_session_user-live later token
              (record { username = name; created_at = now; expires_at = now + session_ttl }) u
              (record auth {
                sessions = λ t.
                    if str_eq t token
                    then some (record {
                      username = name;
                      created_at = now;
                      expires_at = now + session_ttl;
                    })
                    else auth.sessions t;
              })
              (ground (arith, named, eq_iff token "")) (rw ((eq_iff token token).1 refl) refl)
              found)
      h
