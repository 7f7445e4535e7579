-- ===== src/Dedup/Kept.antt =====
-- A message that was claimed is refused after any calls on other messages, within the table's room.
use openqqwaifu.Prelude.{
  ℕ, ◌+◌, ◌≤◌, ◌<◌, ◌≡◌, refl, sym, String, true, false, none, some, List, [], ◌∷◌, All, str_eq,
  eq_iff, any, arith, inl, inr, Bool-cases, lt→ltb,
}
use openqqwaifu.Dedup.{
  Entry, Dedup, Limits, is_key, holds, cap, prune_locked, pop, renew, claim, mark_delivered,
  release,
}
use openqqwaifu.Dedup.Claims.{any_mono, claim-refused, entries-release}
use openqqwaifu.Dedup.Runs.{
  Call, claimed, sent, failed, run, claims, Spares, IsHeld, weaken-IsHeld, any-IsHeld, last-IsHeld,
  append-IsHeld, prune-IsHeld, pop-IsHeld, evict-IsHeld,
}

module _ (limits : Limits) (key : String) (later : ℕ) where
  renew-IsHeld :
      (n : ℕ) (other : String) (until : ℕ) (es : List Entry)
      → str_eq key other ≡ false
      → IsHeld key later n es
      → IsHeld key later (n + 1) (renew other until es)
  renew-IsHeld n other until es far h =
      append-IsHeld key later n (pop other es) (record { key = other; expires_at = until })
        (pop-IsHeld key later n other es far h)

  -- A key that is held until later is held now, under an equal name.
  held_now :
      (n now : ℕ) (other : String) (es : List Entry)
      → now ≤ later
      → str_eq key other ≡ true
      → IsHeld key later n es
      → any (holds other now) es ≡ true
  held_now n now other es le same h =
      let one : key ≡ other = (eq_iff key other).0 same in
      any_mono (holds key later) (holds other now) (λ e own. rw (sym one) (ground (arith, own))) es
        (any-IsHeld key later n es h)

  claim-IsHeld :
      (n : ℕ) (other : String) (ttl now : ℕ) (s : Dedup)
      → now ≤ later
      → n + 1 < cap limits.max_entries
      → IsHeld key later n s.entries
      → IsHeld key later (n + 1) (claim limits other ttl now s).0.entries
  unfolding claim
  claim-IsHeld n other ttl now s le room h =
      let s' = prune_locked now s in
      let kept = prune-IsHeld key later n now s.entries s.delivered le h in
      elim (Bool-cases (any (holds other now) s'.entries)) [
        | inl held ↦ rw held (weaken-IsHeld key later n (n + 1) s'.entries (omega arith) kept)
        | inr free ↦ elim (Bool-cases (str_eq key other)) [
          | inl same ↦ absurd (cc (free, held_now n now other s'.entries le same kept))
          | inr far ↦ rw free (
              evict-IsHeld key later (n + 1) (cap limits.max_entries)
                (renew other (now + ttl) s'.entries) s'.delivered room
                (renew-IsHeld n other (now + ttl) s'.entries far kept))
        ]
      ]

  sent-IsHeld :
      (n : ℕ) (other : String) (s : Dedup)
      → IsHeld key later n s.entries
      → IsHeld key later n (mark_delivered other s).entries
  unfolding mark_delivered
  sent-IsHeld n other s h = elim (Bool-cases (any (is_key other) s.entries)) [
    | inl there ↦ rw (mark_delivered, there) h
    | inr gone ↦ rw (mark_delivered, gone) h
  ]

  failed-IsHeld :
      (n : ℕ) (other : String) (s : Dedup)
      → str_eq key other ≡ false
      → IsHeld key later n s.entries
      → IsHeld key later n (release (some other) s).entries
  unfolding release
  failed-IsHeld n other s far h = elim (Bool-cases (str_eq other "")) [
    | inl empty ↦ rw (release, empty) h
    | inr named ↦ elim (Bool-cases (any (λ k. str_eq k other) s.delivered)) [
      | inl done ↦ rw (release, named, done) h
      | inr open_one ↦ rw (release, named, open_one) (pop-IsHeld key later n other s.entries far h)
    ]
  ]

  run-IsHeld :
      (calls : List Call) (n : ℕ) (s : Dedup)
      → All (Spares key later) calls
      → n + claims calls < cap limits.max_entries
      → IsHeld key later n s.entries
      → IsHeld key later (n + claims calls) (run limits calls s).entries
  run-IsHeld [] n s spares room h = weaken-IsHeld key later n (n + 0) s.entries (omega arith) h
  run-IsHeld (claimed other ttl now ∷ calls) n s (le, spares) room h =
      let s' = (claim limits other ttl now s).0 in
      let rest =
        run-IsHeld calls (n + 1) s' spares (omega arith)
          (claim-IsHeld n other ttl now s le (omega arith) h) in
      weaken-IsHeld key later (n + 1 + claims calls) (n + (1 + claims calls))
        (run limits calls s').entries (omega arith) rest
  run-IsHeld (sent other ∷ calls) n s (_, spares) room h =
      run-IsHeld calls n (mark_delivered other s) spares room (sent-IsHeld n other s h)
  run-IsHeld (failed other ∷ calls) n s (far, spares) room h =
      run-IsHeld calls n (release (some other) s) spares room (failed-IsHeld n other s far h)

  -- What a claim that succeeds has recorded.
  granted-IsHeld :
      (ttl now : ℕ) (s : Dedup)
      → (claim limits key ttl now s).1 ≡ some key
      → later < now + ttl
      → IsHeld key later 0 (claim limits key ttl now s).0.entries
  unfolding claim
  granted-IsHeld ttl now s granted soon =
      let s' = prune_locked now s in
      elim (Bool-cases (any (holds key now) s'.entries)) [
        | inl held ↦ absurd (cc (rw held at granted))
        | inr free ↦ rw free (
            evict-IsHeld key later 0 (cap limits.max_entries) (renew key (now + ttl) s'.entries)
              s'.delivered (ground arith)
              (last-IsHeld key later (pop key s'.entries)
                (record { key = key; expires_at = now + ttl })
                (ground (arith, lt→ltb later (now + ttl) soon, (eq_iff key key).1 refl))))
      ]

-- After a claim that succeeds, and then any calls up to some later time without a release of that message
-- and with fewer claims than the table has room for, another claim of the message at that time is refused
-- if the time to live has not passed.
pub claim_once :
    (limits : Limits) (key : String) (ttl ttl' now later : ℕ) (s : Dedup) (calls : List Call)
    → (claim limits key ttl now s).1 ≡ some key
    → later < now + ttl
    → All (Spares key later) calls
    → claims calls < cap limits.max_entries
    → (claim limits key ttl' later (run limits calls (claim limits key ttl now s).0)).1 ≡ none
claim_once limits key ttl ttl' now later s calls granted soon spares room =
    let s' = (claim limits key ttl now s).0 in
    claim-refused limits key ttl' later (run limits calls s') (
      any-IsHeld key later (0 + claims calls) (run limits calls s').entries (
        run-IsHeld limits key later calls 0 s' spares (omega arith)
          (granted-IsHeld limits key later ttl now s granted soon)))

-- After a claim that succeeds, calls up to some later time that do not release the message, its
-- mark_delivered, directly its release, and again such calls, with fewer claims in all than the table has
-- room for, another claim of the message at that time is refused if the time to live has not passed.
pub delivered_stays :
    (limits : Limits) (key : String) (ttl ttl' now later : ℕ) (s : Dedup) (before after : List Call)
    → (claim limits key ttl now s).1 ≡ some key
    → later < now + ttl
    → All (Spares key later) before
    → All (Spares key later) after
    → claims before + claims after < cap limits.max_entries
    → (claim limits key ttl' later (
        run limits after (
          release
            (some key)
            (mark_delivered key (run limits before (claim limits key ttl now s).0))))).1
      ≡ none
delivered_stays limits key ttl ttl' now later s before after granted soon first then room =
    let s' = run limits before (claim limits key ttl now s).0 in
    let held : IsHeld key later (claims before) s'.entries =
      weaken-IsHeld key later (0 + claims before) (claims before) s'.entries (omega arith) (
        run-IsHeld limits key later before 0 (claim limits key ttl now s).0 first (omega arith)
          (granted-IsHeld limits key later ttl now s granted soon)) in
    let there : any (is_key key) s'.entries ≡ true =
      any_mono (holds key later) (is_key key) (λ e k. ground (arith, k)) s'.entries
        (any-IsHeld key later (claims before) s'.entries held) in
    let kept : IsHeld key later (claims before)
        (release (some key) (mark_delivered key s')).entries =
      rw (entries-release key s' there) held in
    let s'' = run limits after (release (some key) (mark_delivered key s')) in
    claim-refused limits key ttl' later s'' (
      any-IsHeld key later (claims before + claims after) s''.entries (
        run-IsHeld limits key later after (claims before)
          (release (some key) (mark_delivered key s')) then room kept))
