-- ===== src/Dedup/Claims.antt =====
-- A claim of a key that is there, and the number of keys.
use openqqwaifu.Prelude.{
  ℕ, ◌+◌, ◌≤◌, ◌≡◌, refl, String, Bool, true, none, some, List, [], ◌∷◌, eq_iff, ltb, any, length,
  arith, inl, inr, Bool-cases, ltb→ge,
}
use openqqwaifu.Dedup.{
  Entry, Dedup, Limits, is_key, holds, cap, discard, prune, prune_locked, append, evict, renew,
  claim, mark_delivered, release,
}

pub any-append :
    (p : Entry → Bool) (xs : List Entry) (e : Entry) → p e ≡ true → any p (append xs e) ≡ true
unfolding append
any-append p [] e h = ground (arith, h)
any-append p (x ∷ xs) e h = ground (arith, any-append p xs e h)

any-prune :
    (key : String) (now : ℕ) (es : List Entry) (s : Dedup)
    → any (holds key now) es ≡ true
    → any (holds key now) (prune now es s).entries ≡ true
unfolding prune
any-prune key now [] s h = absurd (cc h)
any-prune key now (e ∷ es) s h = elim (Bool-cases (holds key now e)) [
  | inl k ↦ ground (arith, k)
  | inr k ↦
      let rest : any (holds key now) es ≡ true = rw k at h in
      ground (arith, any-prune key now es s rest)
]

length-evict :
    (n : ℕ) (es : List Entry) (delivered : List String) → length (evict n es delivered).entries ≤ n
unfolding evict
length-evict n [] delivered = omega arith
length-evict n (e ∷ es) delivered = elim (Bool-cases (ltb n (length (e ∷ es)))) [
  | inl full ↦ rw full (length-evict n es (discard e.key delivered))
  | inr fits ↦ rw fits (ltb→ge n (length (e ∷ es)) fits)
]

-- The key is held at `now`: a claim of it is refused.
pub claim-refused :
    (limits : Limits) (key : String) (ttl now : ℕ) (s : Dedup)
    → any (holds key now) s.entries ≡ true
    → (claim limits key ttl now s).1 ≡ none
unfolding claim
claim-refused limits key ttl now s h =
    rw (any-prune key now s.entries (record { entries = []; delivered = s.delivered }) h) refl

pub any_mono :
    (p q : Entry → Bool)
    → ((e : Entry) → p e ≡ true → q e ≡ true)
    → (xs : List Entry) → any p xs ≡ true
    → any q xs ≡ true
any_mono p q imp [] h = absurd (cc h)
any_mono p q imp (x ∷ xs) h = elim (Bool-cases (p x)) [
  | inl k ↦ rw (imp x k) refl
  | inr k ↦ let rest : any q xs ≡ true = any_mono p q imp xs (rw k at h) in ground (arith, rest)
]

-- The release of a message that was delivered forgets nothing.
pub entries-release :
    (key : String) (s : Dedup)
    → any (is_key key) s.entries ≡ true
    → (release (some key) (mark_delivered key s)).entries ≡ s.entries
unfolding mark_delivered release
entries-release key s there = ground (arith, there, (eq_iff key key).1 refl)

pub length-prune :
    (now : ℕ) (es : List Entry) (s : Dedup)
    → length (prune now es s).entries ≤ length es + length s.entries
unfolding prune
length-prune now [] s = omega arith
length-prune now (e ∷ es) s = ground (arith, length-prune now es s)

-- A claim leaves at most max(1, max_entries) keys, where there were no more before.
pub claim_bounded :
    (limits : Limits) (key : String) (ttl now : ℕ) (s : Dedup)
    → length s.entries ≤ cap limits.max_entries
    → length (claim limits key ttl now s).0.entries ≤ cap limits.max_entries
unfolding claim
claim_bounded limits key ttl now s h =
    let s' = prune_locked now s in
    elim (Bool-cases (any (holds key now) s'.entries)) [
      | inl held ↦ rw held (
          omega (
            arith,
            h,
            length-prune now s.entries (record { entries = []; delivered = s.delivered }),
          ))
      | inr free ↦
          rw free
            (length-evict (cap limits.max_entries) (renew key (now + ttl) s'.entries) s'.delivered)
    ]
