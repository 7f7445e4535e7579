-- ===== src/Dedup/Runs.antt =====
-- A key among others: how many were claimed after it, over any operations on other messages.
use openqqwaifu.Prelude.{
  ℕ, ◌+◌, ◌≤◌, ◌<◌, ◌≡◌, ◌⊎◌, refl, String, true, false, some, List, [], ◌∷◌, str_eq, ltb, any,
  length, arith, inl, inr, Bool-cases,
}
use openqqwaifu.Dedup.{
  Entry, Dedup, Limits, is_key, is_fresh, holds, discard, prune, pop, append, evict, claim,
  mark_delivered, release,
}
use openqqwaifu.Dedup.Claims.{length-prune}
use openqqwaifu.Dedup.Marks.{pop_other}

-- A call: `claimed` with its time to live and its time, `sent` of mark_delivered, `failed` of release.
pub data Call : Type 0 where
  claimed : String → ℕ → ℕ → Call
  sent failed : String → Call

abbrev pub perform : Limits → Call → Dedup → Dedup
perform limits (claimed key ttl now) s = (claim limits key ttl now s).0
perform limits (sent key) s = mark_delivered key s
perform limits (failed key) s = release (some key) s

abbrev pub run : Limits → List Call → Dedup → Dedup
run limits [] s = s
run limits (c ∷ cs) s = run limits cs (perform limits c s)

abbrev pub claims : List Call → ℕ
claims [] = 0
claims (claimed _ _ _ ∷ cs) = 1 + claims cs
claims (sent _ ∷ cs) = claims cs
claims (failed _ ∷ cs) = claims cs

-- A call up to a time that does not release the key.
abbrev pub Spares : String → ℕ → Call → Type 0
Spares key later (claimed _ _ now) = now ≤ later
Spares key later (sent _) = Unit
Spares key later (failed other) = str_eq key other ≡ false

-- The key is held until `later`, with at most `n` keys behind it.
abbrev pub IsHeld : String → ℕ → ℕ → List Entry → Type 0
IsHeld key later n [] = false ≡ true
IsHeld key later n (e ∷ es) = ((holds key later e ≡ true) × (length es ≤ n)) ⊎ IsHeld key later n es

module _ (key : String) (later : ℕ) where
  pub weaken-IsHeld :
      (n m : ℕ) (es : List Entry) → n ≤ m → IsHeld key later n es → IsHeld key later m es
  weaken-IsHeld n m [] le h = h
  weaken-IsHeld n m (e ∷ es) le (inl (own, few)) = inl (own, omega arith)
  weaken-IsHeld n m (e ∷ es) le (inr h) = inr (weaken-IsHeld n m es le h)

  pub any-IsHeld :
      (n : ℕ) (es : List Entry) → IsHeld key later n es → any (holds key later) es ≡ true
  any-IsHeld n [] h = h
  any-IsHeld n (e ∷ es) (inl (own, few)) = rw own refl
  any-IsHeld n (e ∷ es) (inr h) = let rest = any-IsHeld n es h in ground (arith, rest)

  pub last-IsHeld :
      (es : List Entry) (e : Entry) → holds key later e ≡ true → IsHeld key later 0 (append es e)
  unfolding append
  last-IsHeld [] e own = inl (own, omega arith)
  last-IsHeld (x ∷ es) e own = inr (last-IsHeld es e own)

  length-append : (es : List Entry) (e : Entry) → length (append es e) ≡ length es + 1
  unfolding append
  length-append [] e = omega arith
  length-append (x ∷ es) e = let rest = length-append es e in omega arith

  pub append-IsHeld :
      (n : ℕ) (es : List Entry) (e : Entry)
      → IsHeld key later n es
      → IsHeld key later (n + 1) (append es e)
  unfolding append
  append-IsHeld n [] e h = absurd (cc h)
  append-IsHeld n (x ∷ es) e (inl (own, few)) =
      let longer = length-append es e in inl (own, omega arith)
  append-IsHeld n (x ∷ es) e (inr h) = inr (append-IsHeld n es e h)

  still_fresh :
      (now : ℕ) (e : Entry) → now ≤ later → holds key later e ≡ true → is_fresh now e ≡ true
  still_fresh now e le own = ground (arith, own)

  pub prune-IsHeld :
      (n now : ℕ) (es : List Entry) (delivered : List String)
      → now ≤ later
      → IsHeld key later n es
      → IsHeld key later n (prune now es (record { entries = []; delivered = delivered })).entries
  unfolding prune
  prune-IsHeld n now [] delivered le h = h
  prune-IsHeld n now (e ∷ es) delivered le (inl (own, few)) =
      let left = length-prune now es (record { entries = []; delivered = delivered }) in
      rw (still_fresh now e le own) (inl (own, omega arith))
  prune-IsHeld n now (e ∷ es) delivered le (inr h) =
      let rest = prune-IsHeld n now es delivered le h in
      elim (Bool-cases (is_fresh now e)) [ inl fresh ↦ rw fresh (inr rest) | inr old ↦ rw old rest ]

  length-pop : (other : String) (es : List Entry) → length (pop other es) ≤ length es
  length-pop other [] = omega arith
  length-pop other (e ∷ es) =
      let rest = length-pop other es in
      elim (Bool-cases (is_key other e)) [
        | inl gone ↦ rw gone (omega arith)
        | inr kept ↦ rw kept (omega arith)
      ]

  pub pop-IsHeld :
      (n : ℕ) (other : String) (es : List Entry)
      → str_eq key other ≡ false
      → IsHeld key later n es
      → IsHeld key later n (pop other es)
  pop-IsHeld n other [] far h = h
  pop-IsHeld n other (e ∷ es) far (inl (own, few)) =
      let mine : is_key key e ≡ true = ground (arith, own) in
      let left = length-pop other es in rw (pop_other key other e far mine) (inl (own, omega arith))
  pop-IsHeld n other (e ∷ es) far (inr h) =
      let rest = pop-IsHeld n other es far h in
      elim (Bool-cases (is_key other e)) [ inl gone ↦ rw gone rest | inr kept ↦ rw kept (inr rest) ]

  pub evict-IsHeld :
      (n room : ℕ) (es : List Entry) (delivered : List String)
      → n < room
      → IsHeld key later n es
      → IsHeld key later n (evict room es delivered).entries
  unfolding evict
  evict-IsHeld n room [] delivered small h = h
  evict-IsHeld n room (e ∷ es) delivered small h = elim (Bool-cases (ltb room (length (e ∷ es)))) [
    | inr fits ↦ rw fits h
    | inl full ↦ elim h [
      | inl (own, few) ↦ absurd (ground (arith, full))
      | inr rest ↦ rw full (evict-IsHeld n room es (discard e.key delivered) small rest)
    ]
  ]
