-- ===== src/Prelude/Sort.antt =====
-- ORDER BY on a column of numbers: insertion sort, with what it keeps, and counting in its result.
use mathlib.Core.Path.{◌≡◌, refl, ◌∙◌, subst}
use Prim.Native.Nat.{ℕ, zero, suc, ◌+◌, ◌≤◌, ◌<◌}
use mathlib.Core.Bool.{Bool, true, false}
use mathlib.Core.Option.{Option, none, some, some_inj}
use mathlib.Core.List.{List, [], ◌∷◌}
use mathlib.Core.Logic.{◌⊎◌, inl, inr}
use native.Mathlib.Omega.{arith}
use openqqwaifu.Prelude.Tests.{leb, if◌then◌else◌, Bool-cases, leb→le, leb→gt}
use openqqwaifu.Prelude.Lists.{length, count_where, All, count_where-le-length}

abbrev pub insert : ℕ → List ℕ → List ℕ
insert a [] = a ∷ []
insert a (x ∷ xs) = let rest = insert a xs in if leb a x then a ∷ x ∷ xs else x ∷ rest

unfoldable pub sort : List ℕ → List ℕ
sort [] = []
sort (x ∷ xs) = insert x (sort xs)

abbrev pub IsSorted : List ℕ → Type 0
IsSorted [] = Unit
IsSorted (x ∷ xs) = All (λ y. x ≤ y) xs × IsSorted xs

abbrev pub get_elem? : List ℕ → ℕ → Option ℕ
get_elem? [] i = none
get_elem? (x ∷ xs) zero = some x
get_elem? (x ∷ xs) (suc i) = get_elem? xs i

abbrev pub last? : List ℕ → Option ℕ
last? [] = none
last? (x ∷ []) = some x
last? (x ∷ y ∷ xs) = last? (y ∷ xs)

All-insert : (m a : ℕ) (xs : List ℕ) → m ≤ a → All (λ y. m ≤ y) xs → All (λ y. m ≤ y) (insert a xs)
All-insert m a [] h k = (h, tt)
All-insert m a (x ∷ xs) h k = elim (Bool-cases (leb a x)) [
  | inl e ↦ rw e (h, k)
  | inr e ↦ rw e (k.0, All-insert m a xs h k.1)
]

All-le_trans : (a b : ℕ) (xs : List ℕ) → a ≤ b → All (λ y. b ≤ y) xs → All (λ y. a ≤ y) xs
All-le_trans a b [] h k = tt
All-le_trans a b (x ∷ xs) h k = (omega arith, All-le_trans a b xs h k.1)

insert-IsSorted : (a : ℕ) (xs : List ℕ) → IsSorted xs → IsSorted (insert a xs)
insert-IsSorted a [] h = (tt, tt)
insert-IsSorted a (x ∷ xs) h = elim (Bool-cases (leb a x)) [
  | inl e ↦ let le : a ≤ x = leb→le a x e in rw e ((le, All-le_trans a x xs le h.0), h)
  | inr e ↦
      let gt : x < a = leb→gt a x e in
      rw e (All-insert x a xs (omega arith) h.0, insert-IsSorted a xs h.1)
]

pub sort-IsSorted : (xs : List ℕ) → IsSorted (sort xs)
unfolding sort
sort-IsSorted [] = tt
sort-IsSorted (x ∷ xs) = insert-IsSorted x (sort xs) (sort-IsSorted xs)

count_where-insert :
    (p : ℕ → Bool) (a : ℕ) (xs : List ℕ) → count_where p (insert a xs) ≡ count_where p (a ∷ xs)
count_where-insert p a [] = refl
count_where-insert p a (x ∷ xs) = ground (arith, count_where-insert p a xs)

pub count_where-sort : (p : ℕ → Bool) (xs : List ℕ) → count_where p (sort xs) ≡ count_where p xs
unfolding sort
count_where-sort p [] = refl
count_where-sort p (x ∷ xs) =
    count_where-insert p x (sort xs) ∙ (ground (arith, count_where-sort p xs))

length-insert : (a : ℕ) (xs : List ℕ) → length (insert a xs) ≡ suc (length xs)
length-insert a [] = refl
length-insert a (x ∷ xs) = ground (arith, length-insert a xs)

pub length-sort : (xs : List ℕ) → length (sort xs) ≡ length xs
unfolding sort
length-sort [] = refl
length-sort (x ∷ xs) = omega (arith, length-insert x (sort xs), length-sort xs)

-- Nothing in a sorted list passes its last element.
pub last?-max : (xs : List ℕ) (m : ℕ) → IsSorted xs → last? xs ≡ some m → All (λ y. y ≤ m) xs
last?-max [] m h e = tt
last?-max (x ∷ []) m h e = (ground arith, tt)
last?-max (x ∷ y ∷ xs) m h e =
    let rest : All (λ z. z ≤ m) (y ∷ xs) = last?-max (y ∷ xs) m h.1 e in
    (omega (arith, h.0.0, rest.0), rest)

pub get_elem?-total : (xs : List ℕ) (i : ℕ) → i < length xs → (x : ℕ) × (get_elem? xs i ≡ some x)
get_elem?-total [] i h = absurd (omega arith)
get_elem?-total (x ∷ xs) zero h = (x, refl)
get_elem?-total (x ∷ xs) (suc i) h = get_elem?-total xs i (omega arith)

All-get : (m : ℕ) (xs : List ℕ) (i x : ℕ) → All (λ y. m ≤ y) xs → get_elem? xs i ≡ some x → m ≤ x
All-get m [] i x h e = cc
All-get m (y ∷ xs) zero x h e = ground arith
All-get m (y ∷ xs) (suc i) x h e = All-get m xs i x h.1 e

count_where-All :
    (q : ℕ → Bool) (x : ℕ) (xs : List ℕ)
    → ((y : ℕ) → x ≤ y → q y ≡ true)
    → All (λ y. x ≤ y) xs
    → count_where q xs ≡ length xs
count_where-All q x [] up h = refl
count_where-All q x (y ∷ xs) up h = rw (up y h.0) (omega (arith, count_where-All q x xs up h.1))

-- A test that every number from `xs[i]` on passes is passed by the elements from index `i` on.
pub count_where-from :
    (q : ℕ → Bool) (xs : List ℕ) (i x : ℕ)
    → IsSorted xs
    → get_elem? xs i ≡ some x
    → ((y : ℕ) → x ≤ y → q y ≡ true)
    → length xs ≤ count_where q xs + i
count_where-from q [] i x h e up = omega arith
count_where-from q (y ∷ xs) zero x h e up =
    let same : y ≡ x = some_inj.0 e in
    rw (up y (omega arith)) (omega (arith, count_where-All q y xs (λ z le. up z (omega arith)) h.0))
count_where-from q (y ∷ xs) (suc i) x h e up = ground (arith, count_where-from q xs i x h.1 e up)

-- A test that every number up to `xs[i]` fails leaves at most the elements behind index `i`.
pub count_where-behind :
    (q : ℕ → Bool) (xs : List ℕ) (i x : ℕ)
    → IsSorted xs
    → get_elem? xs i ≡ some x
    → ((y : ℕ) → y ≤ x → q y ≡ false)
    → count_where q xs + i < length xs
count_where-behind q [] i x h e down = cc
count_where-behind q (y ∷ xs) zero x h e down =
    let same : y ≡ x = some_inj.0 e in
    rw (down y (omega arith)) (omega (arith, count_where-le-length q xs))
count_where-behind q (y ∷ xs) (suc i) x h e down =
    let below : y ≤ x = All-get y xs i x h.0 e in
    rw (down y below) (omega (arith, count_where-behind q xs i x h.1 e down))

module _ (P : ℕ → Type 0) where
  All-insert_of : (a : ℕ) (xs : List ℕ) → P a → All P xs → All P (insert a xs)
  All-insert_of a [] h k = (h, tt)
  All-insert_of a (x ∷ xs) h k = elim (Bool-cases (leb a x)) [
    | inl e ↦ rw e (h, k)
    | inr e ↦ rw e (k.0, All-insert_of a xs h k.1)
  ]

  of_All-insert : (a : ℕ) (xs : List ℕ) → All P (insert a xs) → P a × All P xs
  of_All-insert a [] h = (h.0, tt)
  of_All-insert a (x ∷ xs) h = elim (Bool-cases (leb a x)) [
    | inl e ↦ rw e at h
    | inr e ↦
        let k : P x × All P (insert a xs) = rw e at h in
        let (pa, rest) = of_All-insert a xs k.1 in (pa, (k.0, rest))
  ]

  -- Sorting keeps the elements.
  pub All-sort : (xs : List ℕ) → All P xs → All P (sort xs)
  unfolding sort
  All-sort [] h = tt
  All-sort (x ∷ xs) h = All-insert_of x (sort xs) h.0 (All-sort xs h.1)

  pub of_All-sort : (xs : List ℕ) → All P (sort xs) → All P xs
  unfolding sort
  of_All-sort [] h = tt
  of_All-sort (x ∷ xs) h = let (px, rest) = of_All-insert x (sort xs) h in (px, of_All-sort xs rest)

-- An element of a non-empty list that is its last.
pub last?-cases :
    (xs : List ℕ) → (length xs ≡ 0) × (last? xs ≡ none) ⊎ ((m : ℕ) × (last? xs ≡ some m))
last?-cases [] = inl (refl, refl)
last?-cases (x ∷ []) = inr (x, refl)
last?-cases (x ∷ y ∷ xs) = elim (last?-cases (y ∷ xs)) [
  | inl none_left ↦ absurd (omega (arith, none_left.0))
  | inr found ↦ inr found
]

pub All-last? : (P : ℕ → Type 0) (xs : List ℕ) (m : ℕ) → All P xs → last? xs ≡ some m → P m
All-last? P [] m h e = absurd (cc e)
All-last? P (x ∷ []) m h e = subst P (some_inj.0 e) h.0
All-last? P (x ∷ y ∷ xs) m h e = All-last? P (y ∷ xs) m h.1 e
