-- ===== src/Dedup/Retry.antt =====
-- A claim, its release, and a new claim.
use openqqwaifu.Prelude.{
  ℕ, ◌+◌, ◌≡◌, ◌≢◌, refl, subst, String, true, false, some, List, [], ◌∷◌, str_eq, eq_iff, ltb, any,
  length, inl, inr, Bool-cases,
}
use openqqwaifu.Dedup.{
  Entry, Dedup, Limits, is_key, is_fresh, holds, cap, discard, prune, prune_locked, pop, evict,
  renew, claim, release,
}
use openqqwaifu.Dedup.Marks.{IsMarked, prune-IsMarked}

-- What is left after the expired keys are gone has not expired.
fresh_left :
    (key : String) (now : ℕ) (es : List Entry) (delivered : List String)
    → any (holds key now) (prune now es (record { entries = []; delivered = delivered })).entries
      ≡ false
    → any (is_key key) (prune now es (record { entries = []; delivered = delivered })).entries
      ≡ false
unfolding prune
fresh_left key now [] delivered h = refl
fresh_left key now (e ∷ es) delivered h = elim (Bool-cases (is_fresh now e)) [
  | inr old ↦ rw old (fresh_left key now es delivered (rw (prune, old) at h))
  | inl fresh ↦ elim (Bool-cases (is_key key e)) [
    | inl own ↦ absurd (cc (rw (prune, fresh, own) at h))
    | inr other ↦
        rw (fresh, other) (fresh_left key now es delivered (rw (prune, fresh, other) at h))
  ]
]

-- A key that is not there has no mark.
unmarked :
    (key : String) (es : List Entry) (delivered : List String)
    → IsMarked es delivered
    → any (is_key key) es ≡ false
    → any (λ k. str_eq k key) delivered ≡ false
unmarked key es [] h free = refl
unmarked key es (k ∷ ks) h free = elim (Bool-cases (str_eq k key)) [
  | inr other ↦ rw other (unmarked key es ks h.1 free)
  | inl same ↦
      let one : k ≡ key = (eq_iff k key).0 same in
      absurd (cc (free, subst (λ x. any (is_key x) es ≡ true) one h.0))
]

discard-unmarked :
    (key other : String) (ks : List String)
    → any (λ k. str_eq k key) ks ≡ false
    → any (λ k. str_eq k key) (discard other ks) ≡ false
discard-unmarked key other [] h = refl
discard-unmarked key other (k ∷ ks) h = elim (Bool-cases (str_eq k key)) [
  | inl same ↦ absurd (cc (rw same at h))
  | inr far ↦
      let rest = discard-unmarked key other ks (rw far at h) in
      elim (Bool-cases (str_eq k other)) [
        | inl gone ↦ rw gone rest
        | inr kept ↦ rw (kept, far) rest
      ]
]

evict-unmarked :
    (key : String) (n : ℕ) (es : List Entry) (ks : List String)
    → any (λ k. str_eq k key) ks ≡ false
    → any (λ k. str_eq k key) (evict n es ks).delivered ≡ false
unfolding evict
evict-unmarked key n [] ks h = h
evict-unmarked key n (e ∷ es) ks h = elim (Bool-cases (ltb n (length (e ∷ es)))) [
  | inr fits ↦ rw fits h
  | inl full ↦
      rw full (evict-unmarked key n es (discard e.key ks) (discard-unmarked key e.key ks h))
]

popped :
    (key : String) (now : ℕ) (es : List Entry) (s : Dedup)
    → any (holds key now) s.entries ≡ false
    → any (holds key now) (prune now (pop key es) s).entries ≡ false
unfolding prune
popped key now [] s h = h
popped key now (e ∷ es) s h = elim (Bool-cases (is_key key e)) [
  | inl own ↦ rw own (popped key now es s h)
  | inr other ↦ elim (Bool-cases (is_fresh now e)) [
    | inl fresh ↦ rw (other, prune, fresh, other) (popped key now es s h)
    | inr old ↦ rw (other, prune, old) (popped key now es s h)
  ]
]

claim-unmarked :
    (limits : Limits) (key : String) (ttl now : ℕ) (s : Dedup)
    → IsMarked s.entries s.delivered
    → (claim limits key ttl now s).1 ≡ some key
    → any (λ k. str_eq k key) (claim limits key ttl now s).0.delivered ≡ false
unfolding claim
claim-unmarked limits key ttl now s h granted =
    let s' = prune_locked now s in
    elim (Bool-cases (any (holds key now) s'.entries)) [
      | inl held ↦ absurd (cc (rw held at granted))
      | inr free ↦ rw free (
          evict-unmarked key (cap limits.max_entries) (renew key (now + ttl) s'.entries)
            s'.delivered
            (unmarked key s'.entries s'.delivered (prune-IsMarked now s h)
              (fresh_left key now s.entries s.delivered free)))
    ]

-- Where marks stand only on keys that are there: a message that was claimed and whose handling failed is
-- granted again after its release, at any time.
pub release_reopens :
    (limits : Limits) (key : String) (ttl ttl' now later : ℕ) (s : Dedup)
    → key ≢ ""
    → IsMarked s.entries s.delivered
    → (claim limits key ttl now s).1 ≡ some key
    → (claim limits key ttl' later (release (some key) (claim limits key ttl now s).0)).1 ≡ some key
unfolding release claim
release_reopens limits key ttl ttl' now later s named h granted =
    let s1 = (claim limits key ttl now s).0 in
    elim (Bool-cases (str_eq key "")) [
      | inl empty ↦ absurd (named ((eq_iff key "").0 empty))
      | inr full ↦
          rw
            (
              release,
              full,
              claim-unmarked limits key ttl now s h granted,
              claim,
              popped key later s1.entries (record { entries = []; delivered = s1.delivered }) refl,
            )
            refl
    ]
