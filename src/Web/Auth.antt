-- ===== src/Web/Auth.antt =====
-- web/auth.py: `AuthManager`, the console's accounts and sessions. `_users` is a list of records, one
-- for each name; `_sessions` is a function of the token; `saved` is what users.json holds.
pub mod Sessions
pub mod Passwords
pub mod Restart
use openqqwaifu.Prelude.{
  ℕ, ◌+◌, ◌*◌, String, Bool, true, false, not, ◌&&◌, ◌||◌, Option, none, some, List, [], ◌∷◌, map,
  str_eq, ltb, leb, ◌==◌, if◌then◌else◌, any, find, length, update_where,
}
use openqqwaifu.Result.{Result, Error, ok, err, require, ◌>>◌, ◌>>=◌}
use openqqwaifu.Platform.{codes}

abbrev pub Bytes : Type 0
Bytes = List ℕ

-- `str.strip`, `str.isspace` of a code point, PBKDF2 of a password with a salt, and base64.
pub record Library : Type 0 where
  pub strip : String → String
  pub is_space : ℕ → Bool
  pub pbkdf2 : String → Bytes → Bytes
  pub encode : Bytes → String
  pub decode : String → Option Bytes  -- `none` where `b64decode` raises

pub record User : Type 0 where
  pub username : String
  pub role : String
  pub password_hash : String
  pub password_salt : String
  pub created_at : ℕ
  pub updated_at : ℕ
  pub last_login_at : ℕ

pub record AuthUser : Type 0 where
  pub username : String
  pub role : String
  pub created_at : ℕ
  pub updated_at : ℕ
  pub last_login_at : ℕ

pub record Session : Type 0 where
  pub username : String
  pub created_at : ℕ
  pub expires_at : ℕ

pub record AuthManager : Type 0 where
  pub users : List User
  pub sessions : String → Option Session
  pub saved : Option (List User)

-- _SESSION_TTL_SECONDS
abbrev pub session_ttl : ℕ
session_ttl = 7 * 24 * 60 * 60 * 1000000

-- `str(value or fallback)`
abbrev pub or_text : String → String → String
or_text value fallback = if str_eq value "" then fallback else value

unfoldable pub public_user : User → AuthUser
public_user user = record {
  username = user.username;
  role = or_text user.role "user";
  created_at = user.created_at;
  updated_at = user.updated_at;
  last_login_at = user.last_login_at;
}

unfoldable pub normalize_username : Library → String → Result String
normalize_username lib username =
    let normalized = lib.strip username in
    require (not (ltb (length (codes normalized)) 3)) Error.username_short
    >> (require (not (ltb 32 (length (codes normalized)))) Error.username_long
        >> (require (not (any lib.is_space (codes normalized))) Error.username_spaces
            >> ok normalized))

unfoldable pub validate_password : String → Result (Unit {0})
validate_password password = require (not (ltb (length (codes password)) 6)) Error.password_short

-- The digest and the salt, where `salt` is what `secrets.token_bytes` returned.
abbrev pub hash_password : Library → Bytes → String → String × String
hash_password lib salt password = (lib.encode (lib.pbkdf2 password salt), lib.encode salt)

-- `hmac.compare_digest`
abbrev pub compare_digest : Bytes → Bytes → Bool
compare_digest [] [] = true
compare_digest [] (y ∷ ys) = false
compare_digest (x ∷ xs) [] = false
compare_digest (x ∷ xs) (y ∷ ys) = x == y && compare_digest xs ys

unfoldable pub verify_password : Library → String → String → String → Bool
verify_password lib password salt expected = elim (lib.decode salt) [
  | none ↦ false
  | some salt_bytes ↦ elim (lib.decode expected) [
    | none ↦ false
    | some expected_bytes ↦ compare_digest (lib.pbkdf2 password salt_bytes) expected_bytes
  ]
]

abbrev pub is_named : String → User → Bool
is_named name user = str_eq user.username name

-- self._users.get(name)
abbrev pub user_of : AuthManager → String → Option User
user_of auth name = find (is_named name) auth.users

unfoldable pub requires_setup : AuthManager → Bool
requires_setup auth = elim auth.users [ [] ↦ true | _ ∷ _ ↦ false ]

-- self._save_locked()
abbrev pub save : AuthManager → AuthManager
save auth = record auth { saved = some auth.users }

unfoldable pub build_user_record : Library → Bytes → ℕ → String → String → String → User
build_user_record lib salt now username password role =
    let hashed = hash_password lib salt password in
    record {
      username = username;
      role = role;
      password_hash = hashed.0;
      password_salt = hashed.1;
      created_at = now;
      updated_at = now;
      last_login_at = 0;
    }

unfoldable pub bootstrap_admin :
    Library → Bytes → ℕ → String → String → AuthManager → Result (AuthManager × AuthUser)
bootstrap_admin lib salt now username password auth =
    normalize_username lib username >>= λ normalized.
    validate_password password
    >> (require (requires_setup auth) Error.setup_done
        >> (let user = build_user_record lib salt now normalized password "admin" in
            ok (save (record auth { users = user ∷ [] }), public_user user)))

abbrev pub logged_in : ℕ → User → User
logged_in now user = record user { last_login_at = now; updated_at = now }

unfoldable pub authenticate :
    Library → ℕ → String → String → AuthManager → Result (AuthManager × Option AuthUser)
authenticate lib now username password auth = normalize_username lib username >>= λ normalized.
    elim (user_of auth normalized) [
      | none ↦ ok (auth, none)
      | some user ↦
          if verify_password lib password user.password_salt user.password_hash
          then ok (
            save (record auth {
              users = update_where (is_named normalized) (logged_in now) auth.users;
            }),
            some (public_user (logged_in now user)),
          )
          else ok (auth, none)
    ]

abbrev pub with_password : Library → Bytes → ℕ → String → User → User
with_password lib salt now password user =
    let hashed = hash_password lib salt password in
    record user { password_hash = hashed.0; password_salt = hashed.1; updated_at = now }

-- The sessions of the other users.
unfoldable pub sessions_without : String → (String → Option Session) → String → Option Session
sessions_without name sessions token = elim (sessions token) [
  | none ↦ none
  | some session ↦ if str_eq session.username name then none else some session
]

unfoldable pub change_password :
    Library → Bytes → ℕ → String → String → String → AuthManager → Result (AuthManager × AuthUser)
change_password lib salt now username current new_password auth =
    normalize_username lib username >>= λ normalized.
    validate_password new_password >> elim (user_of auth normalized) [
      | none ↦ err Error.user_not_found
      | some user ↦
          require (verify_password lib current user.password_salt user.password_hash)
            Error.wrong_password
          >> (let changed = with_password lib salt now new_password in
              let stored =
                save
                  (record auth { users = update_where (is_named normalized) changed auth.users }) in
              ok (
                record stored { sessions = sessions_without normalized auth.sessions },
                public_user (changed user),
              ))
    ]

-- `token` is what `secrets.token_urlsafe` returned.
unfoldable pub create_session :
    Library → String → ℕ → String → AuthManager → Result (AuthManager × String)
create_session lib token now username auth = normalize_username lib username >>= λ normalized.
    elim (user_of auth normalized) [
      | none ↦ err Error.user_not_found
      | some _ ↦
          let session : Session = record {
            username = normalized;
            created_at = now;
            expires_at = now + session_ttl;
          } in
          ok (
            record auth {
              sessions = λ t. if str_eq t token then some session else auth.sessions t;
            },
            token,
          )
    ]

-- Without the sessions that have expired.
unfoldable pub purge_expired : ℕ → (String → Option Session) → String → Option Session
purge_expired now sessions token = elim (sessions token) [
  | none ↦ none
  | some session ↦ if leb session.expires_at now then none else some session
]

-- self._sessions.pop(token, None)
abbrev pub pop_session : String → (String → Option Session) → String → Option Session
pop_session token sessions t = if str_eq t token then none else sessions t

unfoldable pub get_session_user : ℕ → Option String → AuthManager → AuthManager × Option AuthUser
get_session_user now none auth = (auth, none)
get_session_user now (some token) auth =
    if str_eq token ""
    then (auth, none)
    else (let live = purge_expired now auth.sessions in
        elim (live token) [
          | none ↦ (record auth { sessions = live }, none)
          | some session ↦ elim (user_of auth session.username) [
            | none ↦ (record auth { sessions = pop_session token live }, none)
            | some user ↦ (record auth { sessions = live }, some (public_user user))
          ]
        ])

unfoldable pub destroy_session : Option String → AuthManager → AuthManager
destroy_session none auth = auth
destroy_session (some token) auth =
    if str_eq token "" then auth else record auth { sessions = pop_session token auth.sessions }

-- An entry of users.json, by `str(item.get(key, "") or "")`; a time that is missing is 0.
unfoldable pub load_user : Library → ℕ → User → User
load_user lib now item =
    let time = λ (t : ℕ). if t == 0 then now else t in
    record {
      username = lib.strip item.username;
      role = or_text item.role "user";
      password_hash = item.password_hash;
      password_salt = item.password_salt;
      created_at = time item.created_at;
      updated_at = time item.updated_at;
      last_login_at = item.last_login_at;
    }

-- loaded[username] = …
abbrev pub assign : User → List User → List User
assign user [] = user ∷ []
assign user (x ∷ xs) =
    let rest = assign user xs in if is_named user.username x then user ∷ xs else x ∷ rest

unfoldable pub load_users : Library → ℕ → List User → List User → List User
load_users lib now [] loaded = loaded
load_users lib now (item ∷ items) loaded =
    let user = load_user lib now item in
    load_users lib now items (if str_eq user.username "" then loaded else assign user loaded)

-- `__init__`, where `file` is what users.json holds.
unfoldable pub load : Library → ℕ → Option (List User) → AuthManager
load lib now file = record {
  users = elim file [ none ↦ [] | some items ↦ load_users lib now items [] ];
  sessions = λ _. none;
  saved = file;
}
