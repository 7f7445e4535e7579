-- ===== src/Prelude/Lists.antt =====
-- Tables as lists of rows: search, update in place, and predicates on every row.
use Prim.Native.Nat.{ℕ, suc, ◌+◌, ◌≤◌}
use mathlib.Core.Path.{◌≡◌, refl, sym, ap}
use mathlib.Core.Logic.{inl, inr}
use mathlib.Core.Bool.{Bool, true, false, ◌||◌}
use mathlib.Core.Option.{Option, none, some, some_inj}
use mathlib.Core.List.{List, [], ◌∷◌, ◌++◌, map}
use native.Mathlib.Omega.{arith}
use mathlib.Core.Path.{subst}
use openqqwaifu.Prelude.Tests.{if◌then◌else◌, Bool-cases}

module _ {ℓ} {A : Type ℓ} where
  abbrev pub length : List A → ℕ
  length [] = 0
  length (x ∷ xs) = suc (length xs)

  -- The first row that passes the test.
  abbrev pub find : (A → Bool) → List A → Option A
  find p [] = none
  find p (x ∷ xs) = if p x then some x else find p xs

  abbrev pub any : (A → Bool) → List A → Bool
  any p [] = false
  any p (x ∷ xs) = p x || any p xs

  abbrev pub count_where : (A → Bool) → List A → ℕ
  count_where p [] = 0
  count_where p (x ∷ xs) = let n = count_where p xs in if p x then suc n else n

  abbrev pub select : (A → Bool) → List A → List A
  select p [] = []
  select p (x ∷ xs) = let rest = select p xs in if p x then x ∷ rest else rest

  -- UPDATE: every row that passes the test is changed.
  abbrev pub update_where : (A → Bool) → (A → A) → List A → List A
  update_where p f [] = []
  update_where p f (x ∷ xs) = (if p x then f x else x) ∷ update_where p f xs

  abbrev pub All {κ} : (A → Type κ) → List A → Type κ
  All P [] = Unit
  All P (x ∷ xs) = P x × All P xs

  pub length-append : (xs ys : List A) → length (xs ++ ys) ≡ length xs + length ys
  length-append [] ys = omega arith
  length-append (x ∷ xs) ys = omega (arith, length-append xs ys)

  pub length-snoc : (xs : List A) (a : A) → length (xs ++ a ∷ []) ≡ length xs + 1
  length-snoc xs a = length-append xs (a ∷ [])

  pub length-update_where :
      (p : A → Bool) (f : A → A) (xs : List A) → length (update_where p f xs) ≡ length xs
  length-update_where p f [] = refl
  length-update_where p f (x ∷ xs) = omega (arith, length-update_where p f xs)

  pub length-map : (f : A → A) (xs : List A) → length (map f xs) ≡ length xs
  length-map f [] = refl
  length-map f (x ∷ xs) = omega (arith, length-map f xs)

  pub count_where-append :
      (p : A → Bool) (xs ys : List A)
      → count_where p (xs ++ ys) ≡ count_where p xs + count_where p ys
  count_where-append p [] ys = omega arith
  count_where-append p (x ∷ xs) ys = ground (arith, count_where-append p xs ys)

  pub count_where-le-length : (p : A → Bool) (xs : List A) → count_where p xs ≤ length xs
  count_where-le-length p [] = omega arith
  count_where-le-length p (x ∷ xs) = ground (arith, count_where-le-length p xs)

  pub count_where_mono :
      (p q : A → Bool)
      → ((a : A) → p a ≡ true → q a ≡ true)
      → (xs : List A) → count_where p xs ≤ count_where q xs
  count_where_mono p q imp [] = omega arith
  count_where_mono p q imp (x ∷ xs) = elim (Bool-cases (p x)) [
    | inl e ↦ rw (e, imp x e) (omega (arith, count_where_mono p q imp xs))
    | inr e ↦ rw e (ground (arith, count_where_mono p q imp xs))
  ]

module _ {ℓ κ} {A : Type ℓ} (P : A → Type κ) where
  pub All-append : (xs ys : List A) → All P xs → All P ys → All P (xs ++ ys)
  All-append [] ys h k = k
  All-append (x ∷ xs) ys h k = (h.0, All-append xs ys h.1 k)

  pub All-update_where :
      (p : A → Bool) (f : A → A)
      → ((a : A) → p a ≡ true → P a → P (f a))
      → (xs : List A) → All P xs
      → All P (update_where p f xs)
  All-update_where p f keep [] h = h
  All-update_where p f keep (x ∷ xs) h = elim (Bool-cases (p x)) [
    | inl e ↦ rw e (keep x e h.0, All-update_where p f keep xs h.1)
    | inr e ↦ rw e (h.0, All-update_where p f keep xs h.1)
  ]

  -- What holds of every row holds of the row that a search finds, which passes the test.
  pub All-find :
      (p : A → Bool) (xs : List A) {a : A} → All P xs → find p xs ≡ some a → P a × (p a ≡ true)
  All-find p [] h e = cc
  All-find p (x ∷ xs) h e = elim (Bool-cases (p x)) [
    | inl t ↦ subst (λ y. P y × (p y ≡ true)) (some_inj.0 (rw t at e)) (h.0, t)
    | inr f ↦ All-find p xs h.1 (rw f at e)
  ]

pub All-imp {ℓ κ μ} :
    {A : Type ℓ} (P : A → Type κ) (Q : A → Type μ)
    → ((a : A) → P a → Q a)
    → (xs : List A) → All P xs
    → All Q xs
All-imp P Q f [] h = tt
All-imp P Q f (x ∷ xs) h = (f x h.0, All-imp P Q f xs h.1)

pub All-map {ℓ κ μ} :
    {A : Type ℓ} (P : A → Type κ) (Q : A → Type μ) (f : A → A)
    → ((a : A) → P a → Q (f a))
    → (xs : List A) → All P xs
    → All Q (map f xs)
All-map P Q f keep [] h = tt
All-map P Q f keep (x ∷ xs) h = (keep x h.0, All-map P Q f keep xs h.1)

-- An update under which one predicate becomes another.
pub All-update_to {ℓ κ μ} :
    {A : Type ℓ} (P : A → Type κ) (Q : A → Type μ) (p : A → Bool) (f : A → A)
    → ((a : A) → p a ≡ true → P a → Q (f a))
    → ((a : A) → P a → Q a)
    → (xs : List A) → All P xs
    → All Q (update_where p f xs)
All-update_to P Q p f keep weaken [] h = tt
All-update_to P Q p f keep weaken (x ∷ xs) h = elim (Bool-cases (p x)) [
  | inl e ↦ rw e (keep x e h.0, All-update_to P Q p f keep weaken xs h.1)
  | inr e ↦ rw e (weaken x h.0, All-update_to P Q p f keep weaken xs h.1)
]

-- What an update makes true of the rows that it writes, and what its test leaves of the others.
pub All-update_by {ℓ κ} :
    {A : Type ℓ} (Q : A → Type κ) (p : A → Bool) (f : A → A)
    → ((a : A) → p a ≡ true → Q (f a))
    → ((a : A) → p a ≡ false → Q a)
    → (xs : List A) → All Q (update_where p f xs)
All-update_by Q p f written left [] = tt
All-update_by Q p f written left (x ∷ xs) = elim (Bool-cases (p x)) [
  | inl e ↦ rw e (written x e, All-update_by Q p f written left xs)
  | inr e ↦ rw e (left x e, All-update_by Q p f written left xs)
]

-- What holds of the image of every row.
pub All-image {ℓ κ} :
    {A : Type ℓ} (Q : A → Type κ) (f : A → A)
    → ((a : A) → Q (f a))
    → (xs : List A) → All Q (map f xs)
All-image Q f each [] = tt
All-image Q f each (x ∷ xs) = (each x, All-image Q f each xs)

-- A search after a change that does not touch what the test reads.
pub find-map {ℓ} :
    {A : Type ℓ} (p : A → Bool) (f : A → A)
    → ((a : A) → p (f a) ≡ p a)
    → (xs : List A) {a : A} → find p xs ≡ some a
    → find p (map f xs) ≡ some (f a)
find-map p f same [] e = absurd (cc e)
find-map p f same (x ∷ xs) {a} e = elim (Bool-cases (p x)) [
  | inl t ↦ rw (same x, t) (ap (λ y. some (f y)) (some_inj.0 (rw t at e)))
  | inr t ↦ rw (same x, t) (find-map p f same xs (rw t at e))
]

pub find-update_where {ℓ} :
    {A : Type ℓ} (p q : A → Bool) (f : A → A)
    → ((a : A) → q a ≡ true → p (f a) ≡ p a)
    → (xs : List A) {a : A} → find p xs ≡ some a
    → find p (update_where q f xs) ≡ some (if q a then f a else a)
find-update_where p q f same [] e = absurd (cc e)
find-update_where p q f same (x ∷ xs) {a} e = elim (Bool-cases (p x)) [
  | inl t ↦
      let found : x ≡ a = some_inj.0 (rw t at e) in
      elim (Bool-cases (q x)) [
        | inl u ↦ rw (sym found, u, same x u, t) refl
        | inr u ↦ rw (sym found, u, t) refl
      ]
  | inr t ↦ elim (Bool-cases (q x)) [
    | inl u ↦ rw (u, same x u, t) (find-update_where p q f same xs (rw t at e))
    | inr u ↦ rw (u, t) (find-update_where p q f same xs (rw t at e))
  ]
]

pub found_own {ℓ} :
    {A : Type ℓ} (p : A → Bool) (xs : List A) {a : A} → find p xs ≡ some a → p a ≡ true
found_own p [] h = absurd (cc h)
found_own p (x ∷ xs) h = elim (Bool-cases (p x)) [
  | inl t ↦ subst (λ y. p y ≡ true) (some_inj.0 (rw t at h)) t
  | inr t ↦ found_own p xs (rw t at h)
]
