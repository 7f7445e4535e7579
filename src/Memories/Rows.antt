-- ===== src/Memories/Rows.antt =====
-- Memory records under their identities: search, update and insertion.
use openqqwaifu.Prelude.{
  ◌≡◌, refl, sym, ap, ◌∙◌, subst, String, Bool, true, false, some, List, [], ◌∷◌, All,
  All-update_where, All-imp, All-find, str_eq, eq_iff, arith, inl, inr, Bool-cases, find, any,
  update_where, found_own,
}
use mathlib.Core.Option.{some_inj}
use openqqwaifu.Memories.{Memory}
use openqqwaifu.Memories.Apply.{is_memory, in_scope}

-- Each identity has one record.
abbrev pub IsDistinct : List Memory → Type 0
IsDistinct [] = Unit
IsDistinct (x ∷ xs) = All (λ y. is_memory x.memory_id y ≡ false) xs × IsDistinct xs

pub is_memory-eq : (id : String) (r : Memory) → is_memory id r ≡ true → r.memory_id ≡ id
is_memory-eq id r = (eq_iff r.memory_id id).0

pub is_memory-swap : (a b : String) → str_eq a b ≡ false → str_eq b a ≡ false
is_memory-swap a b e = ground (arith, e, eq_iff a b, eq_iff b a)

-- With one record for each identity, the record with an identity is the one that a search finds.
pub only_found :
    (id : String) (rs : List Memory) (old : Memory)
    → IsDistinct rs
    → find (is_memory id) rs ≡ some old
    → All (λ r. is_memory id r ≡ true → r ≡ old) rs
only_found id [] old d f = tt
only_found id (x ∷ xs) old d f = elim (Bool-cases (is_memory id x)) [
  | inl t ↦
      let own : x ≡ old = some_inj.0 (rw t at f) in
      let named : x.memory_id ≡ id = is_memory-eq id x t in
      (
        λ _. own,
        All-imp (λ y. is_memory x.memory_id y ≡ false) (λ r. is_memory id r ≡ true → r ≡ old)
            (λ r h k. absurd (cc (sym (subst (λ i. is_memory i r ≡ false) named h) ∙ k))) xs d.0,
      )
  | inr t ↦ (λ h. absurd (cc (sym t ∙ h)), only_found id xs old d.1 (rw t at f))
]

pub find-in_scope :
    (id cid character : String) (rs : List Memory) (r : Memory)
    → IsDistinct rs
    → find (in_scope id cid character) rs ≡ some r
    → find (is_memory id) rs ≡ some r
find-in_scope id cid character [] r d f = absurd (cc f)
find-in_scope id cid character (x ∷ xs) r d f = elim (Bool-cases (in_scope id cid character x)) [
  | inl t ↦ let here : is_memory id x ≡ true = ground (arith, t) in rw here (rw t at f)
  | inr t ↦
      let rest = find-in_scope id cid character xs r d.1 (rw t at f) in
      elim (Bool-cases (is_memory id x)) [
        | inr u ↦ rw u rest
        | inl u ↦
            let apart : is_memory x.memory_id r ≡ false =
              (All-find (λ y. is_memory x.memory_id y ≡ false) (is_memory id) xs d.0 rest).0 in
            let own : is_memory id r ≡ true = found_own (is_memory id) xs rest in
            let named : x.memory_id ≡ id = is_memory-eq id x u in
            absurd (cc (sym (subst (λ i. is_memory i r ≡ false) named apart) ∙ own))
      ]
]

-- An update that keeps the identities.
module _ (q : Memory → Bool) (f : Memory → Memory)
    (keeps : (r : Memory) → (f r).memory_id ≡ r.memory_id) where
  pub any-update_where :
      (id : String) (rs : List Memory)
      → any (is_memory id) (update_where q f rs) ≡ any (is_memory id) rs
  any-update_where id [] = refl
  any-update_where id (x ∷ xs) = elim (Bool-cases (q x)) [
    | inl t ↦ rw (t, keeps x, any-update_where id xs) refl
    | inr t ↦ rw (t, any-update_where id xs) refl
  ]

  apart-update_where :
      (id : String) (rs : List Memory)
      → All (λ y. is_memory id y ≡ false) rs
      → All (λ y. is_memory id y ≡ false) (update_where q f rs)
  apart-update_where id rs h =
      All-update_where (λ y. is_memory id y ≡ false) q f
        (λ y _ k. ap (λ i. str_eq i id) (keeps y) ∙ k) rs h

  pub IsDistinct-update_where :
      (rs : List Memory) → IsDistinct rs → IsDistinct (update_where q f rs)
  IsDistinct-update_where [] d = tt
  IsDistinct-update_where (x ∷ xs) d = elim (Bool-cases (q x)) [
    | inl t ↦
        rw (t, keeps x) (apart-update_where x.memory_id xs d.0, IsDistinct-update_where xs d.1)
    | inr t ↦ rw t (apart-update_where x.memory_id xs d.0, IsDistinct-update_where xs d.1)
  ]

pub not_any :
    (id : String) (rs : List Memory)
    → any (is_memory id) rs ≡ false
    → All (λ y. is_memory id y ≡ false) rs
not_any id [] h = tt
not_any id (x ∷ xs) h = elim (Bool-cases (is_memory id x)) [
  | inl t ↦ absurd (cc (rw t at h))
  | inr t ↦ (t, not_any id xs (rw t at h))
]

pub found_any :
    (id : String) (rs : List Memory) (r : Memory)
    → find (is_memory id) rs ≡ some r
    → any (is_memory id) rs ≡ true
found_any id [] r f = absurd (cc f)
found_any id (x ∷ xs) r f = elim (Bool-cases (is_memory id x)) [
  | inl t ↦ ground (arith, t)
  | inr t ↦ rw t (found_any id xs r (rw t at f))
]
