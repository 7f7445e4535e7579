-- ===== src/Memories/Traced.antt =====
-- Records with their revisions: when they fit, and what a new revision does to that.
use openqqwaifu.Prelude.{
  ℕ, ◌+◌, ◌-◌, ◌≤◌, ◌≡◌, refl, sym, ◌∙◌, subst, String, Bool, true, false, some, List, [], ◌∷◌, All,
  All-imp, All-find, str_eq, eq_iff, arith, inl, inr, Bool-cases, find, any, update_where, select,
}
use openqqwaifu.Memories.{Memory, Revision, Store, Digest}
use openqqwaifu.Memories.Apply.{Origin, is_memory}
use openqqwaifu.Memories.Rows.{
  IsDistinct, is_memory-swap, only_found, any-update_where, IsDistinct-update_where, not_any,
  found_any,
}

abbrev pub is_of : String → Revision → Bool
is_of id v = str_eq v.memory_id id

-- The versions n, n - 1, …, 1.
abbrev pub CountsDown : ℕ → List Revision → Type 0
CountsDown n [] = n ≡ 0
CountsDown n (v ∷ vs) = (v.version ≡ n) × (1 ≤ n) × CountsDown (n - 1) vs

-- The newest revision holds the record as it is.
abbrev pub IsNewest : Memory → List Revision → Type 0
IsNewest r [] = ⊥
IsNewest r (v ∷ vs) = v.snapshot ≡ r

-- The record's revisions, newest first, are numbered without a gap from its version down to 1.
pub record IsTraced (revisions : List Revision) (r : Memory) : Type 0 where
  pub numbered : CountsDown r.version (select (is_of r.memory_id) revisions)
  pub newest : IsNewest r (select (is_of r.memory_id) revisions)

pub record IsSound (store : Store) : Type 0 where
  pub distinct : IsDistinct store.records
  pub traced : All (IsTraced store.revisions) store.records
  pub owned : All (λ v. any (is_memory v.memory_id) store.records ≡ true) store.revisions

-- The revision of a record that was just written.
abbrev pub revision_of : Digest → Origin → Memory → Revision
revision_of digest origin made = record {
  memory_id = made.memory_id;
  version = made.version;
  change_event_id = origin.event_id;
  snapshot = made;
  actor = origin.actor;
  note = digest.shortened origin.note;
}

All-both :
    (P Q S : Memory → Type 0)
    → ((r : Memory) → P r → Q r → S r)
    → (rs : List Memory) → All P rs
    → All Q rs
    → All S rs
All-both P Q S f [] h k = tt
All-both P Q S f (r ∷ rs) h k = (f r h.0 k.0, All-both P Q S f rs h.1 k.1)

-- An update of rows with two properties.
All-update_by2 :
    (P Q S : Memory → Type 0) (p : Memory → Bool) (f : Memory → Memory)
    → ((r : Memory) → p r ≡ true → P r → Q r → S (f r))
    → ((r : Memory) → p r ≡ false → P r → Q r → S r)
    → (rs : List Memory) → All P rs
    → All Q rs
    → All S (update_where p f rs)
All-update_by2 P Q S p f new kept [] h k = tt
All-update_by2 P Q S p f new kept (r ∷ rs) h k = elim (Bool-cases (p r)) [
  | inl t ↦ rw t (new r t h.0 k.0, All-update_by2 P Q S p f new kept rs h.1 k.1)
  | inr t ↦ rw t (kept r t h.0 k.0, All-update_by2 P Q S p f new kept rs h.1 k.1)
]

module _ (digest : Digest) (origin : Origin) where
  -- A revision of another memory changes nothing.
  IsTraced-other :
      (vs : List Revision) (made r : Memory)
      → is_memory made.memory_id r ≡ false
      → IsTraced vs r
      → IsTraced (revision_of digest origin made ∷ vs) r
  IsTraced-other vs made r e h =
      let apart : str_eq made.memory_id r.memory_id ≡ false =
        is_memory-swap r.memory_id made.memory_id e in
      record { numbered = rw apart h.numbered; newest = rw apart h.newest }

  -- The next revision of the memory.
  IsTraced-next :
      (vs : List Revision) (old made : Memory)
      → made.memory_id ≡ old.memory_id
      → made.version ≡ old.version + 1
      → IsTraced vs old
      → IsTraced (revision_of digest origin made ∷ vs) made
  IsTraced-next vs old made same next h =
      let own : str_eq made.memory_id made.memory_id ≡ true =
        (eq_iff made.memory_id made.memory_id).1 refl in
      let before : ((old.version + 1) - 1) ≡ old.version = omega arith in
      record {
        numbered =
            rw (own, next, before)
              (
                refl,
                omega arith,
                subst (λ i. CountsDown old.version (select (is_of i) vs)) (sym same) h.numbered,
              );
        newest = rw own refl;
      }

  -- The first revision of a new memory.
  IsTraced-first :
      (vs : List Revision) (made : Memory)
      → made.version ≡ 1
      → select (is_of made.memory_id) vs ≡ []
      → IsTraced (revision_of digest origin made ∷ vs) made
  IsTraced-first vs made first none_yet =
      let own : str_eq made.memory_id made.memory_id ≡ true =
        (eq_iff made.memory_id made.memory_id).1 refl in
      record {
        numbered = rw (own, none_yet, first) (refl, omega arith, refl);
        newest = rw own refl;
      }

  -- A revision of a memory that has no record yet finds none before it.
  no_revisions :
      (id : String) (records : List Memory) (vs : List Revision)
      → any (is_memory id) records ≡ false
      → All (λ v. any (is_memory v.memory_id) records ≡ true) vs
      → select (is_of id) vs ≡ []
  no_revisions id records [] free h = refl
  no_revisions id records (v ∷ vs) free h = elim (Bool-cases (is_of id v)) [
    | inr e ↦ rw e (no_revisions id records vs free h.1)
    | inl e ↦
        let same : v.memory_id ≡ id = (eq_iff v.memory_id id).0 e in
        absurd (cc (sym free ∙ subst (λ i. any (is_memory i) records ≡ true) same h.0))
  ]

  pub inserted-IsSound :
      (store : Store) (made : Memory)
      → made.version ≡ 1
      → any (is_memory made.memory_id) store.records ≡ false
      → IsSound store
      → IsSound (record {
        records = made ∷ store.records;
        revisions = revision_of digest origin made ∷ store.revisions;
      })
  inserted-IsSound store made first free h =
      let apart = not_any made.memory_id store.records free in
      let own : is_memory made.memory_id made ≡ true =
        (eq_iff made.memory_id made.memory_id).1 refl in
      record {
        distinct = (apart, h.distinct);
        traced = (
          IsTraced-first store.revisions made first
              (no_revisions made.memory_id store.records store.revisions free h.owned),
          All-both (λ r. is_memory made.memory_id r ≡ false) (IsTraced store.revisions)
              (IsTraced (revision_of digest origin made ∷ store.revisions))
              (λ r e t. IsTraced-other store.revisions made r e t) store.records apart h.traced,
        );
        owned = (
          rw own refl,
          All-imp (λ v. any (is_memory v.memory_id) store.records ≡ true)
              (λ v. any (is_memory v.memory_id) (made ∷ store.records) ≡ true)
              (λ v e. ground (arith, e)) store.revisions h.owned,
        );
      }

  -- The record `old` is written over by `f`, which keeps its identity.
  pub updated-IsSound :
      (store : Store) (old : Memory) (f : Memory → Memory)
      → ((r : Memory) → (f r).memory_id ≡ r.memory_id)
      → (f old).version ≡ old.version + 1
      → find (is_memory old.memory_id) store.records ≡ some old
      → IsSound store
      → IsSound (record {
        records = update_where (is_memory old.memory_id) f store.records;
        revisions = revision_of digest origin (f old) ∷ store.revisions;
      })
  updated-IsSound store old f keeps next found h =
      let test = is_memory old.memory_id in
      let Only = λ (r : Memory). test r ≡ true → r ≡ old in
      let vs = store.revisions in
      let traced_old : IsTraced vs old =
        (All-find (IsTraced vs) test store.records h.traced found).0 in
      let new-IsTraced = IsTraced-next vs old (f old) (keeps old) next traced_old in
      record {
        distinct = IsDistinct-update_where test f keeps store.records h.distinct;
        traced =
            All-update_by2 Only (IsTraced vs) (IsTraced (revision_of digest origin (f old) ∷ vs))
              test f
              (λ r t only _.
                subst (λ x. IsTraced (revision_of digest origin (f old) ∷ vs) (f x)) (sym (only t))
                  new-IsTraced)
              (λ r t only k.
                IsTraced-other vs (f old) r (subst (λ i. is_memory i r ≡ false) (sym (keeps old)) t)
                  k)
              store.records (only_found old.memory_id store.records old h.distinct found) h.traced;
        owned = (
          rw (any-update_where test f keeps (f old).memory_id store.records) (
              found_any (f old).memory_id store.records old
                (subst (λ i. find (is_memory i) store.records ≡ some old) (sym (keeps old)) found)),
          All-imp (λ v. any (is_memory v.memory_id) store.records ≡ true)
              (λ v. any (is_memory v.memory_id) (update_where test f store.records) ≡ true)
              (λ v e. any-update_where test f keeps v.memory_id store.records ∙ e) vs h.owned,
        );
      }
