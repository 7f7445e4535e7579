-- ===== src/Web/Auth/Restart.antt =====
-- What a restart reads back from users.json.
use openqqwaifu.Prelude.{
  ℕ, ◌≡◌, ◌≢◌, refl, sym, ap, ◌∙◌, false, List, [], ◌∷◌, ◌++◌, All, All-append, none, str_eq, ◌==◌,
  eq_iff, arith,
}
use mathlib.Core.List.{append_assoc, append-nil}
use openqqwaifu.Web.Auth.{
  Library, User, AuthManager, load_user, load_users, load, save, assign, is_named,
}

-- A record as `bootstrap_admin` makes it: its name is stripped and not empty, and it has a role and
-- times.
pub record IsStored (lib : Library) (user : User) : Type 0 where
  pub stripped : lib.strip user.username ≡ user.username
  pub named : user.username ≢ ""
  pub role_given : user.role ≢ ""
  pub created : user.created_at ≢ 0
  pub updated : user.updated_at ≢ 0

-- Each name has one record.
abbrev pub IsDistinct : List User → Type 0
IsDistinct [] = Unit
IsDistinct (x ∷ xs) = All (λ y. is_named y.username x ≡ false) xs × IsDistinct xs

load_user-IsStored :
    (lib : Library) (now : ℕ) (user : User) → IsStored lib user → load_user lib now user ≡ user
unfolding load_user
load_user-IsStored lib now user h =
    let test : str_eq user.role "" ≡ false = ground (arith, h.role_given, eq_iff user.role "") in
    let made : (user.created_at == 0) ≡ false = ground (arith, h.created) in
    let touched : (user.updated_at == 0) ≡ false = ground (arith, h.updated) in
    rw (test, made, touched, h.stripped) refl

assign_new :
    (user : User) (xs : List User)
    → All (λ x. is_named user.username x ≡ false) xs
    → assign user xs ≡ xs ++ user ∷ []
assign_new user [] h = refl
assign_new user (x ∷ xs) h = rw h.0 (ap (λ r. x ∷ r) (assign_new user xs h.1))

-- Neither list has a name of the other.
abbrev IsNew : List User → List User → Type 0
IsNew loaded users = All (λ u. All (λ x. is_named u.username x ≡ false) loaded) users

IsNew-nil : (users : List User) → IsNew [] users
IsNew-nil [] = tt
IsNew-nil (u ∷ us) = (tt, IsNew-nil us)

IsNew-snoc :
    (loaded : List User) (u : User) (users : List User)
    → IsNew loaded users
    → All (λ y. is_named y.username u ≡ false) users
    → IsNew (loaded ++ u ∷ []) users
IsNew-snoc loaded u [] h k = tt
IsNew-snoc loaded u (y ∷ ys) h k = (
  All-append (λ x. is_named y.username x ≡ false) loaded (u ∷ []) h.0 (k.0, tt),
  IsNew-snoc loaded u ys h.1 k.1,
)

load_users-IsStored :
    (lib : Library) (now : ℕ) (users loaded : List User)
    → All (IsStored lib) users
    → IsDistinct users
    → IsNew loaded users
    → load_users lib now users loaded ≡ loaded ++ users
unfolding load_users
load_users-IsStored lib now [] loaded h d n = sym (append-nil loaded)
load_users-IsStored lib now (u ∷ us) loaded h d n =
    let test : str_eq u.username "" ≡ false = ground (arith, h.0.named, eq_iff u.username "") in
    rw (load_user-IsStored lib now u h.0, test, assign_new u loaded n.0)
      (load_users-IsStored lib now us (loaded ++ u ∷ []) h.1 d.1 (IsNew-snoc loaded u us n.1 d.0)
        ∙ append_assoc loaded (u ∷ []) us)

-- A restart after a save has the same accounts and no session, where each record is as
-- `bootstrap_admin` makes it and no two have one name.
pub load-save :
    (lib : Library) (now : ℕ) (auth : AuthManager)
    → All (IsStored lib) auth.users
    → IsDistinct auth.users
    → load lib now (save auth).saved ≡ record (save auth) { sessions = λ _. none }
unfolding load
load-save lib now auth h d =
    rw (load_users-IsStored lib now auth.users [] h d (IsNew-nil auth.users)) refl
