-- ===== src/Examples/Console.antt =====
-- The theorems on accounts and sessions at an account of the console.
use Prim.Native.Char.{code}
use openqqwaifu.Prelude.{
  ℕ, zero, suc, ◌+◌, ◌<◌, ◌≡◌, ◌↔◌, refl, ap, ◌∙◌, String, Option, none, some, [], ◌∷◌, ◌++◌,
  if◌then◌else◌, ◌==◌, arith, str_eq,
}
use openqqwaifu.Result.{ok}
use openqqwaifu.Platform.{codes}
use openqqwaifu.Web.Auth.{
  Library, Bytes, User, AuthManager, AuthUser, change_password, create_session, get_session_user,
  load, save, session_ttl, validate_password, verify_password, public_user, normalize_username,
  sessions_without,
}
use openqqwaifu.Web.Auth.Sessions.{SomeoneElse, change_password_signs_out, session_lifetime}
use openqqwaifu.Web.Auth.Passwords.{IsCodec, LogsIn, change_password_then_login}
use openqqwaifu.Web.Auth.Restart.{load-save, IsStored}

-- A number in unary, with an end mark.
abbrev unary : ℕ → String → String
unary zero s = String.◌∷◌ "b" s
unary (suc n) s = String.◌∷◌ "a" (unary n s)

abbrev encode : Bytes → String
encode [] = String.[]
encode (b ∷ bs) = unary b (encode bs)

abbrev cons : ℕ → Option Bytes → Option Bytes
cons b none = none
cons b (some bs) = some (b ∷ bs)

abbrev decode : String → ℕ → Option Bytes
decode String.[] n = some []
decode (String.◌∷◌ c s) n =
    let more = decode s (suc n) in
    let ended = cons n (decode s 0) in if code c == 97 then more else ended

decode-unary : (b n : ℕ) (s : String) → decode (unary b s) n ≡ cons (b + n) (decode s 0)
decode-unary zero n s = ap (λ k. cons k (decode s 0)) (omega arith)
decode-unary (suc b) n s = decode-unary b (suc n) s ∙ ap (λ k. cons k (decode s 0)) (omega arith)

decode-encode : (bytes : Bytes) → decode (encode bytes) 0 ≡ some bytes
decode-encode [] = refl
decode-encode (b ∷ bs) =
    decode-unary b 0 (encode bs) ∙ rw (decode-encode bs) (ap (λ k. some (k ∷ bs)) (omega arith))

-- Nothing is stripped, and the digest is the password with the salt.
abbrev plain : Library
plain = record {
  strip = λ s. s;
  is_space = λ c. c == 32;
  pbkdf2 = λ password salt. codes password ++ salt;
  encode = encode;
  decode = λ s. decode s 0;
}

plain-IsCodec : IsCodec plain
plain-IsCodec = record { decode-encode = decode-encode }

abbrev owner : User
owner = record {
  username = "owner";
  role = "admin";
  password_hash = encode (codes "secret" ++ 7 ∷ []);
  password_salt = encode (7 ∷ []);
  created_at = 5;
  updated_at = 5;
  last_login_at = 0;
}

owner-IsStored : IsStored plain owner
owner-IsStored = record {
  stripped = refl;
  named = λ e. cc e;
  role_given = λ e. cc e;
  created = λ e. cc e;
  updated = λ e. cc e;
}

-- The owner is signed in with a token.
abbrev signed_in : AuthManager
signed_in = record {
  users = owner ∷ [];
  sessions = λ t.
      if str_eq t "token"
      then some (record { username = "owner"; created_at = 5; expires_at = 5 + session_ttl })
      else none;
  saved = none;
}

abbrev changed_user : AuthUser
changed_user = record {
  username = "owner";
  role = "admin";
  created_at = 5;
  updated_at = 9;
  last_login_at = 0;
}

abbrev changed : AuthManager
changed = record {
  users =
      (record owner {
        password_hash = encode (codes "tiger7" ++ 3 ∷ []);
        password_salt = encode (3 ∷ []);
        updated_at = 9;
      })
      ∷ [];
  sessions = sessions_without "owner" signed_in.sessions;
  saved = some (
      (record owner {
        password_hash = encode (codes "tiger7" ++ 3 ∷ []);
        password_salt = encode (3 ∷ []);
        updated_at = 9;
      })
      ∷ []);
}

change_works :
    change_password plain (3 ∷ []) 9 "owner" "secret" "tiger7" signed_in
    ≡ ok (changed, changed_user)
unfolding change_password normalize_username validate_password verify_password public_user
change_works = refl

owner_named : normalize_username plain "owner" ≡ ok "owner"
unfolding normalize_username
owner_named = refl

change_password_signs_out_example :
    SomeoneElse "owner" (get_session_user 10 (some "token") changed).1
change_password_signs_out_example =
    change_password_signs_out plain (3 ∷ []) 9 10 "owner" "secret" "tiger7" "token" "owner"
      signed_in changed changed_user owner_named change_works

change_password_then_login_example :
    LogsIn plain 10 "owner" "tiger7" changed ↔ (codes "tiger7" ++ 3 ∷ [] ≡ codes "tiger7" ++ 3 ∷ [])
change_password_then_login_example =
    change_password_then_login plain plain-IsCodec (3 ∷ []) 9 10 "owner" "secret" "tiger7" "tiger7"
      "owner" signed_in changed changed_user owner_named change_works

abbrev with_token : AuthManager
with_token = record signed_in {
  sessions = λ t.
      if str_eq t "new"
      then some (record { username = "owner"; created_at = 9; expires_at = 9 + session_ttl })
      else signed_in.sessions t;
}

token_works : create_session plain "new" 9 "owner" signed_in ≡ ok (with_token, "new")
unfolding create_session normalize_username
token_works = refl

session_lifetime_example :
    ((user : AuthUser) × ((get_session_user 10 (some "new") with_token).1 ≡ some user))
    ↔ (10 < 9 + session_ttl)
session_lifetime_example =
    session_lifetime plain "new" "owner" "new" 9 10 signed_in with_token (λ e. cc e) token_works

load-save_example :
    load plain 9 (save signed_in).saved ≡ record (save signed_in) { sessions = λ _. none }
load-save_example = load-save plain 9 signed_in (owner-IsStored, tt) (tt, tt)
