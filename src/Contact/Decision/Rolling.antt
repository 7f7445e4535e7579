-- ===== src/Contact/Decision/Rolling.antt =====
-- What the contact rules add up to when every attempt that is recorded was allowed.
use openqqwaifu.Prelude.{
  ℕ, ◌+◌, ◌≤◌, String, ◌≡◌, refl, Bool, true, List, [], ◌∷◌, arith, count_where, All,
  count_where_mono, All-imp, inl, inr, Bool-cases, ltb, leb, str_eq, ◌&&◌, subst, ltb→ge,
}
use openqqwaifu.Result.{ok}
use openqqwaifu.Platform.{Platform}
use openqqwaifu.Tables.{ContactAttempt, Policy, Db, day_span}
use openqqwaifu.Contact.Decision.{policy, recent, decision}
use openqqwaifu.Contact.Decision.Frequency.{Allowed, span_of}
use openqqwaifu.Contact.Decision.Permits.{Permits, decision_exact}

abbrev pub with_attempts : Db → List ContactAttempt → Db
with_attempts db xs = record db { contact_attempts = xs }

-- The attempts to reach `cid`, newest first, each made at a moment when `decision` allowed it.
pub data Contacted (os : Platform) (db : Db) (cid : String) : List ContactAttempt → Type 0 where
  start : Contacted os db cid []
  contact :
      {xs : List ContactAttempt} (a : ContactAttempt) (kind task_zone : String) (allow_quiet : Bool)
      → Contacted os db cid xs
      → All (λ (x : ContactAttempt). x.started_at ≤ a.started_at) xs
      → Allowed (decision os (with_attempts db xs) cid a.started_at kind allow_quiet task_zone)
      → Contacted os db cid (a ∷ xs)

-- The attempts of a conversation in the 24 hours after `t`.
abbrev pub in_window : String → ℕ → ContactAttempt → Bool
in_window cid t a =
    str_eq a.conversation_id cid && (ltb t a.started_at && leb a.started_at (t + day_span))

window-recent :
    (cid : String) (t now : ℕ) (a : ContactAttempt)
    → now ≤ t + day_span
    → in_window cid t a ≡ true
    → recent cid now a ≡ true
window-recent cid t now a h e = ground arith

policy-with_attempts :
    (db : Db) (cid : String) (xs : List ContactAttempt)
    → policy (with_attempts db xs) cid ≡ policy db cid
unfolding policy
policy-with_attempts db cid xs = refl

-- Newest first: every attempt of `cid` stands at least `gap` before each later one.
abbrev pub Spaced : String → ℕ → List ContactAttempt → Type 0
Spaced cid gap [] = Unit
Spaced cid gap (a ∷ xs) =
    All
      (λ (x : ContactAttempt).
        str_eq x.conversation_id cid ≡ true → x.started_at + gap ≤ a.started_at)
      xs
    × Spaced cid gap xs

module _ (os : Platform) (db : Db) (cid : String) (p : Policy) (found : policy db cid ≡ ok p) where
  permitted :
      (xs : List ContactAttempt) (now : ℕ) (kind task_zone : String) (allow_quiet : Bool)
      → Allowed (decision os (with_attempts db xs) cid now kind allow_quiet task_zone)
      → Permits os (with_attempts db xs) cid now kind allow_quiet task_zone p
  permitted xs now kind tz aq a =
      let (q, h) = (decision_exact os (with_attempts db xs) cid now kind aq tz).0 a in
      let same : q ≡ p = cc (h.found, policy-with_attempts db cid xs) in
      subst (Permits os (with_attempts db xs) cid now kind aq tz) same h

  spaced_or_old :
      (x : ContactAttempt) (now : ℕ)
      → p.min_interval_minutes ≤ 1440
      → (recent cid now x ≡ true → x.started_at + span_of p ≤ now)
      → str_eq x.conversation_id cid ≡ true
      → x.started_at + span_of p ≤ now
  spaced_or_old x now bound h same = elim (Bool-cases (ltb now (x.started_at + day_span))) [
    | inl e ↦ h (rw (same, e))
    | inr e ↦ omega (arith, ltb→ge now (x.started_at + day_span) e)
  ]

  -- In no period of 24 hours are there more attempts than the daily limit.
  pub rolling_limit :
      (xs : List ContactAttempt)
      → Contacted os db cid xs
      → (t : ℕ) → count_where (in_window cid t) xs ≤ p.daily_limit
  rolling_limit xs start t = omega arith
  rolling_limit xs (contact {xs = ys} a kind tz aq before latest allowed) t =
      elim (Bool-cases (in_window cid t a)) [
        | inr e ↦ rw e (rolling_limit ys before t)
        | inl e ↦
            let h = permitted ys a.started_at kind tz aq allowed in
            rw e (
              omega (
                arith,
                h.under_limit,
                count_where_mono (in_window cid t) (recent cid a.started_at)
                    (λ x. window-recent cid t a.started_at x (ground arith)) ys,
              ))
      ]

  -- Each attempt is at least the minimal interval later than every earlier one.
  pub spacing :
      (xs : List ContactAttempt)
      → Contacted os db cid xs
      → p.min_interval_minutes ≤ 1440
      → Spaced cid (span_of p) xs
  spacing xs start bound = tt
  spacing xs (contact {xs = ys} a kind tz aq before latest allowed) bound =
      let h = permitted ys a.started_at kind tz aq allowed in
      (
        All-imp _
            (λ (x : ContactAttempt).
              str_eq x.conversation_id cid ≡ true → x.started_at + span_of p ≤ a.started_at)
            (λ x. spaced_or_old x a.started_at bound) ys h.spaced,
        spacing ys before bound,
      )
