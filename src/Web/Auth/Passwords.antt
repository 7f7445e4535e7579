-- ===== src/Web/Auth/Passwords.antt =====
-- Which password logs in after a change of password.
use openqqwaifu.Prelude.{
  ℕ, ◌≡◌, ◌↔◌, refl, ap, sym, ◌∙◌, find, String, true, some, List, [], ◌∷◌, str_eq, arith, inl, inr,
  Bool-cases, found_own, find-update_where, update_where,
}
use openqqwaifu.Result.{◌>>=◌, ok, Ensures-ok, Ensures-bind, Ensures-require, Ensures-option}
use openqqwaifu.Web.Auth.{
  Library, Bytes, User, AuthUser, AuthManager, user_of, is_named, normalize_username,
  validate_password, verify_password, compare_digest, change_password, with_password, authenticate,
}

-- base64 decodes what it encoded.
pub record IsCodec (lib : Library) : Type 0 where
  pub decode-encode : (bytes : Bytes) → lib.decode (lib.encode bytes) ≡ some bytes

compare_digest_exact : (xs ys : Bytes) → (compare_digest xs ys ≡ true) ↔ (xs ≡ ys)
compare_digest_exact [] [] = (λ _. refl, λ _. refl)
compare_digest_exact [] (y ∷ ys) = (λ h. absurd (cc h), λ h. absurd (cc h))
compare_digest_exact (x ∷ xs) [] = (λ h. absurd (cc h), λ h. absurd (cc h))
compare_digest_exact (x ∷ xs) (y ∷ ys) = ground (arith, compare_digest_exact xs ys)

-- A record that hash_password made accepts the passwords with the same digest.
verify_password-hashed :
    (lib : Library)
    → IsCodec lib
    → (salt : Bytes) (password other : String)
    → verify_password lib other (lib.encode salt) (lib.encode (lib.pbkdf2 password salt))
      ≡ compare_digest (lib.pbkdf2 other salt) (lib.pbkdf2 password salt)
unfolding verify_password
verify_password-hashed lib codec salt password other =
    rw (verify_password, codec.decode-encode salt, codec.decode-encode (lib.pbkdf2 password salt))
      refl

-- The password is accepted.
abbrev pub LogsIn : Library → ℕ → String → String → AuthManager → Type 0
LogsIn lib now username password auth =
    (auth' : AuthManager) × (u : AuthUser) × (authenticate lib now username password auth
      ≡ ok (auth', some u))

-- A user who is there logs in exactly with a password that verifies.
authenticate_exact :
    (lib : Library) (now : ℕ) (username password name : String) (auth : AuthManager) (user : User)
    → normalize_username lib username ≡ ok name
    → user_of auth name ≡ some user
    → LogsIn lib now username password auth
      ↔ (verify_password lib password user.password_salt user.password_hash ≡ true)
unfolding authenticate
authenticate_exact lib now username password name auth user e found =
    elim (Bool-cases (verify_password lib password user.password_salt user.password_hash)) [
      | inl v ↦ rw (e, ◌>>=◌, found, v) ((λ _. refl), λ _. (_, _, refl))
      | inr v ↦ rw (e, ◌>>=◌, found, v) ((λ x. absurd (cc x.2)), λ x. absurd (cc x))
    ]

-- The user's record after an update of it that keeps the name.
found_changed :
    (name : String) (f : User → User)
    → ((u : User) → (f u).username ≡ u.username)
    → (users : List User) (u : User) → find (is_named name) users ≡ some u
    → find (is_named name) (update_where (is_named name) f users) ≡ some (f u)
found_changed name f keeps users u found =
    let own : is_named name u ≡ true = found_own (is_named name) users found in
    find-update_where (is_named name) (is_named name) f (λ a _. ap (λ n. str_eq n name) (keeps a))
      users found
    ∙ rw own refl

-- The user whose record has the new password.
login_changed :
    (lib : Library)
    → IsCodec lib
    → (salt : Bytes) (now later : ℕ) (username new_password password name : String)
      (auth : AuthManager) (user : User)
    → normalize_username lib username ≡ ok name
    → user_of auth name ≡ some (with_password lib salt now new_password user)
    → LogsIn lib later username password auth
      ↔ (lib.pbkdf2 password salt ≡ lib.pbkdf2 new_password salt)
login_changed lib codec salt now later username new_password password name auth user e found =
    let login = authenticate_exact lib later username password name auth _ e found in
    let digests = compare_digest_exact (lib.pbkdf2 password salt) (lib.pbkdf2 new_password salt) in
    let test = verify_password-hashed lib codec salt new_password password in
    (λ x. digests.0 (sym test ∙ login.0 x), λ x. login.1 (test ∙ digests.1 x))

-- After a change of password, a password logs its user in exactly when it has the new one's digest.
pub change_password_then_login :
    (lib : Library)
    → IsCodec lib
    → (salt : Bytes) (now later : ℕ) (username current new_password password name : String)
      (auth auth' : AuthManager) (user : AuthUser)
    → normalize_username lib username ≡ ok name
    → change_password lib salt now username current new_password auth ≡ ok (auth', user)
    → LogsIn lib later username password auth'
      ↔ (lib.pbkdf2 password salt ≡ lib.pbkdf2 new_password salt)
unfolding change_password
change_password_then_login lib codec salt now later username current new_password password name auth
      auth' user e h =
    let Q = λ (p : AuthManager × AuthUser).
      LogsIn lib later username password p.0
      ↔ (lib.pbkdf2 password salt ≡ lib.pbkdf2 new_password salt) in
    let changed = with_password lib salt now new_password in
    Ensures-ok Q (change_password lib salt now username current new_password auth)
      (rw e (
        Ensures-bind Q (validate_password new_password) _ λ _ _.
          Ensures-option Q (user_of auth name) _ _ (λ _. tt)
            λ u found.
              Ensures-require Q (verify_password lib current u.password_salt u.password_hash) _ _
                λ _.
                  login_changed lib codec salt now later username new_password password name _ u e
                    (found_changed name changed (λ _. refl) auth.users u found)))
      h
