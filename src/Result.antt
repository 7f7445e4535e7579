-- ===== src/Result.antt =====
-- Exceptions as values. One constructor stands for each `raise` that the modelled code can reach;
-- a transaction that raises leaves the database as it was (store.py, `_transaction`).
use openqqwaifu.Prelude.{
  ◌≡◌, refl, ◌⊎◌, inl, inr, Bool, true, false, Option, none, some, if◌then◌else◌, subst,
}

pub data Error : Type 0 where
  unknown_zone bad_quiet_time no_policy timezone_required quiet_period not_bool : Error
  identity_required request_reused unknown_conversation unsupported_operation : Error
  not_authorized generation_changed version_changed note_too_long invalid_fields : Error
  quiet_bounds_equal limit_out_of_range : Error
  invalid_status mode_mismatch not_dispatching not_reviewable delivery_changed : Error
  erased_content reminder_changed contact_refused rejected_not_sent review_note_required : Error
  target_mismatch images_unsupported stale_work proposal_refused occurrence_missing : Error
  account_mismatch busy index_error unlocked : Error
  username_short username_long username_spaces password_short setup_done : Error
  user_not_found wrong_password invalid_memory_change integrity_error : Error
  conversation_erased request_erased dice_out_of_range not_an_int : Error

pub data Result {ℓ} (A : Type ℓ) : Type ℓ where
  ok : A → Result A
  err : Error → Result A

-- A column that must be there.
abbrev pub from_option {ℓ} : {A : Type ℓ} → Error → Option A → Result A
from_option missing none = err missing
from_option missing (some value) = ok value

infixl 5 ◌>>=◌
abbrev pub ◌>>=◌ {ℓ κ} : {A : Type ℓ} {B : Type κ} → Result A → (A → Result B) → Result B
err failed >>= rest = err failed
ok value >>= rest = rest value

-- `if not test: raise error`
abbrev pub require : Bool → Error → Result (Unit {0})
require false error = err error
require true error = ok tt

infixl 5 ◌>>◌
abbrev pub ◌>>◌ {ℓ} : {B : Type ℓ} → Result (Unit {0}) → Result B → Result B
first >> rest = first >>= λ _. rest

pub Result-cases {ℓ} :
    {A : Type ℓ} (r : Result A) → ((a : A) × (r ≡ ok a)) ⊎ ((e : Error) × (r ≡ err e))
Result-cases (ok a) = inl (a, refl)
Result-cases (err e) = inr (e, refl)

-- What holds of the value that a computation returns, if it returns one.
abbrev pub Ensures {ℓ κ} : {A : Type ℓ} → (A → Type κ) → Result A → Type κ
Ensures Q (ok a) = Q a
Ensures Q (err e) = Unit

pub Ensures-bind {ℓ κ μ} :
    {A : Type ℓ} {B : Type κ} (Q : B → Type μ) (m : Result A) (f : A → Result B)
    → ((a : A) → m ≡ ok a → Ensures Q (f a))
    → Ensures Q (m >>= f)
Ensures-bind Q (ok a) f h = h a refl
Ensures-bind Q (err e) f h = tt

pub Ensures-if {ℓ κ} :
    {A : Type ℓ} (Q : A → Type κ) (b : Bool) (m n : Result A)
    → (b ≡ true → Ensures Q m)
    → (b ≡ false → Ensures Q n)
    → Ensures Q (if b then m else n)
Ensures-if Q true m n hm hn = hm refl
Ensures-if Q false m n hm hn = hn refl

ok-injective {ℓ} : {A : Type ℓ} {a b : A} → ok a ≡ ok b → a ≡ b
ok-injective e = cc

pub Ensures-ok {ℓ κ} :
    {A : Type ℓ} (Q : A → Type κ) (m : Result A) {a : A} → Ensures Q m → m ≡ ok a → Q a
Ensures-ok Q (ok b) h e = subst Q (ok-injective e) h
Ensures-ok Q (err x) h e = absurd (cc e)

pub Ensures-option {ℓ κ μ} :
    {A : Type ℓ} {B : Type κ} (Q : B → Type μ) (x : Option A) (n : Result B) (s : A → Result B)
    → (x ≡ none → Ensures Q n)
    → ((a : A) → x ≡ some a → Ensures Q (s a))
    → Ensures Q (elim x [ none ↦ n | some a ↦ s a ])
Ensures-option Q none n s hn hs = hn refl
Ensures-option Q (some a) n s hn hs = hs a refl

pub Ensures-require {ℓ κ} :
    {A : Type ℓ} (Q : A → Type κ) (b : Bool) (e : Error) (m : Result A)
    → (b ≡ true → Ensures Q m)
    → Ensures Q (require b e >> m)
Ensures-require Q true e m h = h refl
Ensures-require Q false e m h = tt

pub Ensures-imp {ℓ κ μ} :
    {A : Type ℓ} (P : A → Type κ) (Q : A → Type μ)
    → ((a : A) → P a → Q a)
    → (m : Result A) → Ensures P m
    → Ensures Q m
Ensures-imp P Q f (ok a) h = f a h
Ensures-imp P Q f (err e) h = tt

pub Ensures-always {ℓ κ} :
    {A : Type ℓ} (Q : A → Type κ) (m : Result A) → ((a : A) → Q a) → Ensures Q m
Ensures-always Q (ok a) h = h a
Ensures-always Q (err e) h = tt
