-- ===== src/Contact/Decision/Frequency.antt =====
-- The last two rules of `decision` in contact_policy.py, as an equivalence with the attempts.
use openqqwaifu.Prelude.{
  ℕ, ◌+◌, ◌*◌, ◌≤◌, ◌<◌, ◌≡◌, refl, true, List, Option, none, some, arith, length, All, IsSorted,
  inl, inr, Bool-cases, last?-max, last?-cases, All-last?, ltb, leb, if◌then◌else◌, ltb→ge, ge→ltb,
  leb→gt, gt→leb, All-imp, [], ◌∷◌,
}
use openqqwaifu.Result.{Result, ok, err, ◌>>=◌, from_option, index_error}
use openqqwaifu.Tables.{Policy, minute_span, day_span}
use openqqwaifu.Contact.Decision.{Decision, frequency, interval, from_end, refuse, allow}

abbrev pub span_of : Policy → ℕ
span_of p = p.min_interval_minutes * minute_span

-- `r` is a decision to allow.
abbrev pub Allowed : Result Decision → Type 0
Allowed (ok d) = d.allowed ≡ true
Allowed (err e) = ⊥

latest_spaced :
    (p : Policy) (now m : ℕ)
    → Allowed (
        if ltb now (m + span_of p)
        then refuse p "contact_interval" (some (m + span_of p))
        else allow p)
    → m + span_of p ≤ now
latest_spaced p now m a = elim (Bool-cases (ltb now (m + span_of p))) [
  | inl e ↦ absurd (cc (rw e at a))
  | inr e ↦ ltb→ge now (m + span_of p) e
]

interval-Allowed :
    (p : Policy) (used : List ℕ) (now : ℕ)
    → IsSorted used
    → Allowed (interval p used now)
    → All (λ y. y + span_of p ≤ now) used
unfolding interval
interval-Allowed p [] now h a = tt
interval-Allowed p (x ∷ xs) now h a = elim (last?-cases (x ∷ xs)) [
  | inl (l, _) ↦ absurd (omega arith)
  | inr (m, e) ↦
      All-imp (λ y. y ≤ m) (λ y. y + span_of p ≤ now)
        (λ y le. omega (arith, latest_spaced p now m (rw (e, Allowed, interval) at a))) (x ∷ xs)
        (last?-max (x ∷ xs) m h e)
]

interval_free :
    (p : Policy) (used : List ℕ) (now : ℕ)
    → All (λ y. y + span_of p ≤ now) used
    → Allowed (interval p used now)
unfolding interval
interval_free p used now h = elim (last?-cases used) [
  | inl (_, e) ↦ rw (e, Allowed, interval) refl
  | inr (m, e) ↦
      let spaced : m + span_of p ≤ now = All-last? (λ y. y + span_of p ≤ now) used m h e in
      rw (e, Allowed, interval) (rw (ge→ltb now (m + span_of p) spaced) refl)
]

pub frequency-Allowed :
    (p : Policy) (used : List ℕ) (now : ℕ)
    → IsSorted used
    → Allowed (frequency p used now)
    → (length used < p.daily_limit) × All (λ y. y + span_of p ≤ now) used
unfolding frequency
frequency-Allowed p used now h a = elim (Bool-cases (leb p.daily_limit (length used))) [
  | inl full ↦ absurd (limited (from_end used p.daily_limit) (rw full at a))
  | inr free ↦
      (leb→gt p.daily_limit (length used) free, interval-Allowed p used now h (rw free at a))
]
  where
    limited :
        (o : Option ℕ)
        → ¬ Allowed (
            from_option index_error o >>= λ oldest.
            refuse p "contact_daily_limit" (some (oldest + day_span)))
    limited none a = a
    limited (some x) a = cc

pub frequency_free :
    (p : Policy) (used : List ℕ) (now : ℕ)
    → length used < p.daily_limit
    → All (λ y. y + span_of p ≤ now) used
    → Allowed (frequency p used now)
unfolding frequency
frequency_free p used now h a =
    rw (gt→leb p.daily_limit (length used) h) (interval_free p used now a)
