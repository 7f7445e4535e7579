-- ===== src/Dedup/Marks.antt =====
-- The marks of delivered messages and the keys that are there.
use openqqwaifu.Prelude.{
  ℕ, ◌+◌, ◌≡◌, ◌∙◌, refl, sym, String, Bool, true, false, not, some, List, [], ◌∷◌, All, All-imp,
  str_eq, eq_iff, ltb, any, length, select, inl, inr, Bool-cases,
}
use openqqwaifu.Dedup.Claims.{any-append}
use openqqwaifu.Dedup.{
  Entry, Dedup, Limits, is_key, is_fresh, holds, cap, discard, prune, prune_locked, pop, append,
  evict, renew, claim, mark_delivered, release,
}

-- Every mark is on a key that is there.
abbrev pub IsMarked : List Entry → List String → Type 0
IsMarked es delivered = All (λ k. any (is_key k) es ≡ true) delivered

-- The key was in the list, and if so it is still in the other one.
abbrev Moves : List Entry → List Entry → String → Type 0
Moves es es' k = any (is_key k) es ≡ true → any (is_key k) es' ≡ true

All-select :
    {A : Type 0} (P Q : A → Type 0) (p : A → Bool)
    → ((a : A) → p a ≡ true → P a → Q a)
    → (xs : List A) → All P xs
    → All Q (select p xs)
All-select P Q p f [] h = tt
All-select P Q p f (x ∷ xs) h = elim (Bool-cases (p x)) [
  | inl k ↦ rw k (f x k h.0, All-select P Q p f xs h.1)
  | inr k ↦ rw k (All-select P Q p f xs h.1)
]

other_key : (k : String) (e : Entry) → not (str_eq k e.key) ≡ true → is_key k e ≡ false
other_key k e h = elim (Bool-cases (is_key k e)) [
  | inr other ↦ other
  | inl same ↦ absurd (cc (h, (eq_iff k e.key).1 (sym ((eq_iff e.key k).0 same))))
]

cons-kept :
    (e : Entry) (es es' : List Entry) (k : String) → Moves es es' k → Moves (e ∷ es) (e ∷ es') k
cons-kept e es es' k f h = elim (Bool-cases (is_key k e)) [
  | inl own ↦ rw own refl
  | inr other ↦ rw other (f (rw other at h))
]

cons-dropped :
    (e : Entry) (es es' : List Entry) (k : String)
    → not (str_eq k e.key) ≡ true
    → Moves es es' k
    → Moves (e ∷ es) es' k
cons-dropped e es es' k other f h = f (rw (other_key k e other) at h)

pub prune-Moves :
    (P : String → Type 0) (now : ℕ) (es : List Entry) (s : Dedup)
    → All P s.delivered
    → All (λ k. P k × Moves es (prune now es s).entries k) (prune now es s).delivered
unfolding prune
prune-Moves P now [] s h =
    All-imp P (λ k. P k × Moves [] s.entries k) (λ k p. (p, λ no_key. absurd (cc no_key)))
      s.delivered h
prune-Moves P now (e ∷ es) s h =
    let rest = prune now es s in
    elim (Bool-cases (is_fresh now e)) [
      | inl fresh ↦ rw fresh (
          All-imp (λ k. P k × Moves es rest.entries k)
            (λ k. P k × Moves (e ∷ es) (e ∷ rest.entries) k)
            (λ k q. (q.0, cons-kept e es rest.entries k q.1)) rest.delivered
            (prune-Moves P now es s h))
      | inr old ↦ rw old (
          All-select (λ k. P k × Moves es rest.entries k) (λ k. P k × Moves (e ∷ es) rest.entries k)
            (λ k. not (str_eq k e.key))
            (λ k other q. (q.0, cons-dropped e es rest.entries k other q.1)) rest.delivered
            (prune-Moves P now es s h))
    ]

pub evict-IsMarked :
    (n : ℕ) (es : List Entry) (delivered : List String)
    → IsMarked es delivered
    → IsMarked (evict n es delivered).entries (evict n es delivered).delivered
unfolding evict
evict-IsMarked n [] delivered h = h
evict-IsMarked n (e ∷ es) delivered h = elim (Bool-cases (ltb n (length (e ∷ es)))) [
  | inr fits ↦ rw fits h
  | inl full ↦ rw full (
      evict-IsMarked n es (discard e.key delivered) (
        All-select (λ k. any (is_key k) (e ∷ es) ≡ true) (λ k. any (is_key k) es ≡ true)
          (λ k. not (str_eq k e.key)) (λ k other there. rw (other_key k e other) at there) delivered
          h))
]

pub prune-IsMarked :
    (now : ℕ) (s : Dedup)
    → IsMarked s.entries s.delivered
    → IsMarked (prune_locked now s).entries (prune_locked now s).delivered
prune-IsMarked now s h =
    let start : Dedup = record { entries = []; delivered = s.delivered } in
    let s' = prune now s.entries start in
    All-imp (λ k. (any (is_key k) s.entries ≡ true) × Moves s.entries s'.entries k)
      (λ k. any (is_key k) s'.entries ≡ true) (λ k q. q.1 q.0) s'.delivered
      (prune-Moves (λ k. any (is_key k) s.entries ≡ true) now s.entries start h)

any-append_left :
    (p : Entry → Bool) (xs : List Entry) (e : Entry) → any p xs ≡ true → any p (append xs e) ≡ true
unfolding append
any-append_left p [] e h = absurd (cc h)
any-append_left p (x ∷ xs) e h = elim (Bool-cases (p x)) [
  | inl k ↦ rw k refl
  | inr k ↦ rw k (any-append_left p xs e (rw k at h))
]

pub pop_other :
    (k key : String) (x : Entry) → str_eq k key ≡ false → is_key k x ≡ true → is_key key x ≡ false
pop_other k key x other own = elim (Bool-cases (is_key key x)) [
  | inr free ↦ free
  | inl same ↦
      let k_key : k ≡ key = sym ((eq_iff x.key k).0 own) ∙ (eq_iff x.key key).0 same in
      absurd (cc (other, (eq_iff k key).1 k_key))
]

any-pop :
    (k key : String) (es : List Entry)
    → str_eq k key ≡ false
    → any (is_key k) es ≡ true
    → any (is_key k) (pop key es) ≡ true
any-pop k key [] other h = absurd (cc h)
any-pop k key (x ∷ xs) other h = elim (Bool-cases (is_key k x)) [
  | inl own ↦ rw (pop_other k key x other own, own) refl
  | inr far ↦
      let rest : any (is_key k) (pop key xs) ≡ true = any-pop k key xs other (rw far at h) in
      elim (Bool-cases (is_key key x)) [ inl gone ↦ rw gone rest | inr kept ↦ rw (kept, far) rest ]
]

any-renew :
    (k key : String) (at : ℕ) (es : List Entry)
    → any (is_key k) es ≡ true
    → any (is_key k) (renew key at es) ≡ true
any-renew k key at es h = elim (Bool-cases (str_eq k key)) [
  | inl same ↦
      any-append (is_key k) (pop key es) (record { key = key; expires_at = at })
        ((eq_iff key k).1 (sym ((eq_iff k key).0 same)))
  | inr other ↦
      any-append_left (is_key k) (pop key es) (record { key = key; expires_at = at })
        (any-pop k key es other h)
]

pub claim-IsMarked :
    (limits : Limits) (key : String) (ttl now : ℕ) (s : Dedup)
    → IsMarked s.entries s.delivered
    → IsMarked (claim limits key ttl now s).0.entries (claim limits key ttl now s).0.delivered
unfolding claim
claim-IsMarked limits key ttl now s h =
    let s' = prune_locked now s in
    elim (Bool-cases (any (holds key now) s'.entries)) [
      | inl held ↦ rw held (prune-IsMarked now s h)
      | inr free ↦ rw free (
          evict-IsMarked (cap limits.max_entries) (renew key (now + ttl) s'.entries) s'.delivered (
            All-imp (λ k. any (is_key k) s'.entries ≡ true)
              (λ k. any (is_key k) (renew key (now + ttl) s'.entries) ≡ true)
              (λ k. any-renew k key (now + ttl) s'.entries) s'.delivered (prune-IsMarked now s h)))
    ]

mark_delivered-IsMarked :
    (key : String) (s : Dedup)
    → IsMarked s.entries s.delivered
    → IsMarked (mark_delivered key s).entries (mark_delivered key s).delivered
unfolding mark_delivered
mark_delivered-IsMarked key s h = elim (Bool-cases (any (is_key key) s.entries)) [
  | inr gone ↦ rw gone h
  | inl there ↦ rw there (
    there,
    All-select (λ k. any (is_key k) s.entries ≡ true) (λ k. any (is_key k) s.entries ≡ true)
        (λ k. not (str_eq k key)) (λ k other q. q) s.delivered h,
  )
]

pop-IsMarked :
    (key : String) (es : List Entry) (ks : List String)
    → any (λ k. str_eq k key) ks ≡ false
    → IsMarked es ks
    → IsMarked (pop key es) ks
pop-IsMarked key es [] free h = tt
pop-IsMarked key es (k ∷ ks) free h = elim (Bool-cases (str_eq k key)) [
  | inl same ↦ absurd (cc (rw same at free))
  | inr other ↦ (any-pop k key es other h.0, pop-IsMarked key es ks (rw other at free) h.1)
]

release-IsMarked :
    (key : String) (s : Dedup)
    → IsMarked s.entries s.delivered
    → IsMarked (release (some key) s).entries (release (some key) s).delivered
unfolding release
release-IsMarked key s h = elim (Bool-cases (str_eq key "")) [
  | inl empty ↦ rw (release, empty) h
  | inr named ↦ elim (Bool-cases (any (λ k. str_eq k key) s.delivered)) [
    | inl sent ↦ rw (release, named, sent) h
    | inr free ↦ rw (release, named, free) (pop-IsMarked key s.entries s.delivered free h)
  ]
]

-- Where marks stand only on keys that are there, the same holds after a claim, after a delivery and
-- after a release.
pub marks_kept :
    (limits : Limits) (key : String) (ttl now : ℕ) (s : Dedup)
    → IsMarked s.entries s.delivered
    → IsMarked (claim limits key ttl now s).0.entries (claim limits key ttl now s).0.delivered
      × IsMarked (mark_delivered key s).entries (mark_delivered key s).delivered
      × IsMarked (release (some key) s).entries (release (some key) s).delivered
marks_kept limits key ttl now s h = (
  claim-IsMarked limits key ttl now s h,
  mark_delivered-IsMarked key s h,
  release-IsMarked key s h,
)
