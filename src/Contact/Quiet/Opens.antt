-- ===== src/Contact/Quiet/Opens.antt =====
-- What `next_open` of contact_policy.py returns.
use openqqwaifu.Prelude.{
  ℕ, zero, suc, ◌+◌, ◌-◌, ◌*◌, ◌%◌, ◌≤◌, ◌<◌, String, ◌≡◌, true, false, Bool, ◌≢◌, ltb,
  if◌then◌else◌, some, arith, ◌∙◌, inl, inr, sym,
}
use native.Mathlib.Decide.{dec_lt}
use openqqwaifu.Result.{ok, Result-cases}
use openqqwaifu.Platform.{Platform, IsLawful, IsSteady}
use openqqwaifu.Tables.{minute_span}
use openqqwaifu.Contact.Quiet.Clock.{minute-lt}
use openqqwaifu.Contact.Quiet.{within, in_quiet, minute, scan_open, next_open}

module _ (os : Platform) (zone start end : String) where
  -- `t` is the first of the minutes from `at` to `at + rounds - 1` outside the quiet period.
  pub record FirstOpen (at rounds t : ℕ) : Type 0 where
    pub index : ℕ
    pub from : at ≤ index
    pub below : index < at + rounds
    pub instant : t ≡ index * minute_span
    pub open_then : in_quiet os zone start end t ≡ ok false
    pub quiet_before :
        (j : ℕ) → at ≤ j → j < index → in_quiet os zone start end (j * minute_span) ≡ ok true

  extend :
      (at n t : ℕ)
      → in_quiet os zone start end (at * minute_span) ≡ ok true
      → FirstOpen (at + 1) n t
      → FirstOpen at (suc n) t
  extend at n t q f = record {
    index = f.index;
    from = omega arith;
    below = omega arith;
    instant = f.instant;
    open_then = f.open_then;
    quiet_before = λ j lo hi. elim (dec_lt at j) [
      | yes lt ↦ f.quiet_before j (omega arith) hi
      | no ge ↦ let same : at ≡ j = omega arith in rw (← same) q
    ];
  }

  first :
      (at n t : ℕ)
      → in_quiet os zone start end (at * minute_span) ≡ ok false
      → ok (some (at * minute_span)) ≡ ok (some t)
      → FirstOpen at (suc n) t
  first at n t q e =
      let same : at * minute_span ≡ t = cc in
      record {
        index = at;
        from = omega arith;
        below = omega arith;
        instant = sym same;
        open_then = rw (← same) q;
        quiet_before = λ j lo hi. absurd (omega arith);
      }

  scan_open_lem :
      (at rounds t : ℕ)
      → scan_open os zone start end at rounds ≡ ok (some t)
      → FirstOpen at rounds t
  unfolding scan_open
  scan_open_lem at zero t e = absurd (cc e)
  scan_open_lem at (suc n) t e =
      elim (Result-cases (in_quiet os zone start end (at * minute_span))) [
        | inr (x, q) ↦ absurd (cc (rw q at e))
        | inl (true, q) ↦ extend at n t q (scan_open_lem (at + 1) n t (rw q at e))
        | inl (false, q) ↦ first at n t q (rw q at e)
      ]

  -- What `next_open` returns is the first minute after the given one, among the next 26 hours,
  -- that lies outside the quiet period.
  pub next_open-FirstOpen :
      (utc_minute t : ℕ)
      → next_open os zone start end utc_minute ≡ ok (some t)
      → FirstOpen (utc_minute + 1) 1560 t
  unfolding next_open
  next_open-FirstOpen utc_minute t e = scan_open_lem (utc_minute + 1) 1560 t e

-- In a zone with a constant offset the clock is back at any minute of the day within 24 hours.
module _ (os : Platform) (law : IsLawful os) (zone : String) (steady : IsSteady os zone) where
  clock :
      (m k : ℕ)
      → os.local_minute zone ((m + k) * minute_span)
        ≡ (os.local_minute zone (m * minute_span) + k) % 1440
  clock m zero =
      let same : m + 0 ≡ m = omega arith in
      let now : ℕ = os.local_minute zone (m * minute_span) in
      let small : now < 1440 = law.local_minute-lt zone (m * minute_span) in
      let read : now ≡ (now + 0) % 1440 = omega arith in rw same read
  clock m (suc k) =
      let same : m + suc k ≡ m + k + 1 = omega arith in
      rw (same, steady.ticks (m + k), clock m k) (omega arith)

abbrev wait : ℕ → ℕ → ℕ
wait now target = if ltb now target then target - now else target + 1440 - now

wait_lem :
    (now target : ℕ)
    → now < 1440
    → target < 1440
    → (1 ≤ wait now target) × (wait now target ≤ 1440) × ((now + wait now target) % 1440 ≡ target)
wait_lem now target hn ht = ground arith

within_end : (a b : ℕ) → a ≢ b → within a b b ≡ false
unfolding within
within_end a b ne = ground arith

module _ (os : Platform) (zone start end : String) where
  in_quiet_total :
      (a b : ℕ) (t : ℕ)
      → os.known zone ≡ true
      → minute os start ≡ ok a
      → minute os end ≡ ok b
      → in_quiet os zone start end t ≡ ok (within a b (os.local_minute zone t))
  unfolding in_quiet
  in_quiet_total a b t known ha hb = rw known (rw ha (rw hb))

  step_total :
      (at n k : ℕ)
      → at ≤ k
      → k < at + suc n
      → in_quiet os zone start end (k * minute_span) ≡ ok false
      → (b : Bool) → in_quiet os zone start end (at * minute_span) ≡ ok b
      → (at + 1 ≤ k → (t : ℕ) × (scan_open os zone start end (at + 1) n ≡ ok (some t)))
      → (t : ℕ) × (scan_open os zone start end at (suc n) ≡ ok (some t))
  unfolding scan_open
  step_total at n k lo hi q false h rec = (at * minute_span, rw h)
  step_total at n k lo hi q true h rec =
      let ne : at ≢ k = (λ e. cc) in
      let later : at + 1 ≤ k = omega arith in let (t, found) = rec later in (t, rw h found)

  scan_open_total :
      (at rounds k : ℕ)
      → ((t : ℕ) → (q : Bool) × (in_quiet os zone start end t ≡ ok q))
      → at ≤ k
      → k < at + rounds
      → in_quiet os zone start end (k * minute_span) ≡ ok false
      → (t : ℕ) × (scan_open os zone start end at rounds ≡ ok (some t))
  unfolding scan_open
  scan_open_total at zero k total lo hi q = absurd (omega arith)
  scan_open_total at (suc n) k total lo hi q =
      step_total at n k lo hi q (total (at * minute_span)).0 (total (at * minute_span)).1
        (λ later. scan_open_total (at + 1) n k total later (omega arith) q)

-- An open minute that is known bounds the first one.
tighten :
    (os : Platform) (zone start end : String) (m w t : ℕ)
    → 1 ≤ w
    → w ≤ 1440
    → in_quiet os zone start end ((m + w) * minute_span) ≡ ok false
    → FirstOpen os zone start end (m + 1) 1560 t
    → FirstOpen os zone start end (m + 1) 1440 t
tighten os zone start end m w t lo hi q f = record {
  index = f.index;
  from = f.from;
  below = elim (dec_lt (m + w) f.index) [
    | yes late ↦ absurd (cc (q, f.quiet_before (m + w) (omega arith) late))
    | no early ↦ omega arith
  ];
  instant = f.instant;
  open_then = f.open_then;
  quiet_before = f.quiet_before;
}

-- In a zone with a constant offset, with a valid quiet period whose ends differ, `next_open` always
-- answers: the first open minute, which comes within 24 hours.
pub next_open_total :
    (os : Platform) (law : IsLawful os) (zone : String) (steady : IsSteady os zone)
    (start end : String) (a b : ℕ)
    → os.known zone ≡ true
    → minute os start ≡ ok a
    → minute os end ≡ ok b
    → a ≢ b
    → (m : ℕ)
    → (t : ℕ) × (next_open os zone start end m ≡ ok (some t))
      × FirstOpen os zone start end (m + 1) 1440 t
next_open_total os law zone steady start end a b known ha hb ne m =
    let now = os.local_minute zone (m * minute_span) in
    let w = wait now b in
    let (lo, hi, back) =
      wait_lem now b (law.local_minute-lt zone (m * minute_span)) (minute-lt os law end b hb) in
    let reached : os.local_minute zone ((m + w) * minute_span) ≡ b =
      clock os law zone steady m w ∙ back in
    let free : in_quiet os zone start end ((m + w) * minute_span) ≡ ok false =
      in_quiet_total os zone start end a b ((m + w) * minute_span) known ha hb
      ∙ rw (reached, within_end a b ne) in
    let (t, found) =
      scan_open_total os zone start end (m + 1) 1560 (m + w)
        (λ t.
          (within a b (os.local_minute zone t), in_quiet_total os zone start end a b t known ha hb))
        (omega arith) (omega arith) free in
    let e : next_open os zone start end m ≡ ok (some t) = unfold next_open in found in
    (t, e, tighten os zone start end m w t lo hi free (next_open-FirstOpen os zone start end m t e))
