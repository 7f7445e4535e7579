-- ===== src/Contact/Decision/Permits.antt =====
-- The rules of a policy, and when `decision` of contact_policy.py allows a message.
use openqqwaifu.Prelude.{
  ℕ, ◌+◌, ◌≤◌, ◌<◌, String, ◌≡◌, ◌≢◌, Bool, true, false, Option, none, arith, count_where, All, ◌⊎◌,
  ◌↔◌, inl, inr, Bool-cases, str_eq, eq_iff, not, ◌&&◌, if◌then◌else◌,
}
use openqqwaifu.Result.{Result, ok, err, Result-cases, ◌>>=◌}
use openqqwaifu.Platform.{Platform}
use openqqwaifu.Tables.{ContactAttempt, Policy, Db}
use openqqwaifu.Contact.Quiet.{in_quiet}
use openqqwaifu.Contact.Decision.{
  Decision, policy, recent, attempts, frequency, quiet_hours, decision, zone_of, refuse,
}
use openqqwaifu.Contact.Decision.Window.{
  attempts-IsSorted, length-attempts, All-attempts, of_All-attempts,
}
use openqqwaifu.Contact.Decision.Frequency.{span_of, Allowed, frequency-Allowed, frequency_free}

module _ (os : Platform) (db : Db) (cid : String) (now : ℕ) where
  -- The rules: the policy is not paused, the kind is authorized, the moment is outside the quiet
  -- hours or they do not apply, and the attempts of the last 24 hours leave room.
  pub record Permits (kind : String) (allow_quiet : Bool) (task_zone : String) (p : Policy)
      : Type 0 where
    pub found : policy db cid ≡ ok p
    pub running : p.paused ≡ false
    pub authorized : (kind ≡ "reminder") ⊎ (p.proactive_enabled ≡ true)
    pub audible :
        (p.quiet_enabled ≡ false)
        ⊎ (allow_quiet ≡ true)
        ⊎ (zone_of p task_zone ≢ "")
          × (in_quiet os (zone_of p task_zone) p.quiet_start p.quiet_end now ≡ ok false)
    pub under_limit : count_where (recent cid now) db.contact_attempts < p.daily_limit
    pub spaced :
        All
          (λ (a : ContactAttempt). recent cid now a ≡ true → a.started_at + span_of p ≤ now)
          db.contact_attempts

-- The chain of early returns in `decision`, over what the last two steps answer.
abbrev guarded : Policy → String → Bool → Result Decision → Result Decision → Result Decision
guarded p kind allow_quiet quiet go_on =
    if p.paused
    then refuse p "contact_paused" none
    else if not (str_eq kind "reminder") && not p.proactive_enabled
    then refuse p "proactive_disabled" none
    else if p.quiet_enabled && not allow_quiet
    then quiet
    else go_on

guarded-Allowed :
    (p : Policy) (kind : String) (aq : Bool) (quiet go_on : Result Decision)
    → Allowed (guarded p kind aq quiet go_on)
    → (p.paused ≡ false)
      × ((str_eq kind "reminder" ≡ true) ⊎ (p.proactive_enabled ≡ true))
      × (((p.quiet_enabled ≡ false) × Allowed go_on)
          ⊎ ((aq ≡ true) × Allowed go_on)
          ⊎ Allowed quiet)
guarded-Allowed p kind aq quiet go_on a = ground arith

guarded_free :
    (p : Policy) (kind : String) (aq : Bool) (quiet go_on : Result Decision)
    → p.paused ≡ false
    → (str_eq kind "reminder" ≡ true) ⊎ (p.proactive_enabled ≡ true)
    → Allowed go_on
    → (p.quiet_enabled ≡ false) ⊎ (aq ≡ true) ⊎ Allowed quiet
    → Allowed (guarded p kind aq quiet go_on)
guarded_free p kind aq quiet go_on h k a q = ground arith

module _ (os : Platform) (p : Policy) (now : ℕ) (zone : String) (go_on : Result Decision) where
  not_refused :
      (r : Result (Option ℕ)) (reason : String) → ¬ Allowed (r >>= λ at. refuse p reason at)
  not_refused (ok at) reason a = cc
  not_refused (err e) reason a = a

  quiet-Allowed :
      Allowed (quiet_hours os p now zone go_on)
      → (zone ≢ "") × (in_quiet os zone p.quiet_start p.quiet_end now ≡ ok false) × Allowed go_on
  unfolding quiet_hours
  quiet-Allowed a = elim (Bool-cases (str_eq zone "")) [
    | inl e ↦ absurd (cc (rw (e, Allowed) at a))
    | inr e ↦ elim (Result-cases (in_quiet os zone p.quiet_start p.quiet_end now)) [
      | inr (x, q) ↦ absurd (rw (e, q) at a)
      | inl (true, q) ↦ absurd (not_refused _ "contact_quiet" (rw (e, q) at a))
      | inl (false, q) ↦ ((λ z. cc (e, (eq_iff zone "").1 z)), q, (rw (e, q) at a))
    ]
  ]

  quiet_free :
      zone ≢ ""
      → in_quiet os zone p.quiet_start p.quiet_end now ≡ ok false
      → Allowed go_on
      → Allowed (quiet_hours os p now zone go_on)
  unfolding quiet_hours
  quiet_free ne q a = elim (Bool-cases (str_eq zone "")) [
    | inl e ↦ absurd (ne ((eq_iff zone "").0 e))
    | inr e ↦ rw (e, q) a
  ]

module _ (os : Platform) (db : Db) (cid : String) (now : ℕ) (kind : String) (aq : Bool)
    (tz : String) where
  heard :
      (p : Policy) (go_on : Result Decision)
      → ((p.quiet_enabled ≡ false) × Allowed go_on)
        ⊎ ((aq ≡ true) × Allowed go_on)
        ⊎ Allowed (quiet_hours os p now (zone_of p tz) go_on)
      → ((p.quiet_enabled ≡ false)
          ⊎ (aq ≡ true)
          ⊎ (zone_of p tz ≢ "")
            × (in_quiet os (zone_of p tz) p.quiet_start p.quiet_end now ≡ ok false))
        × Allowed go_on
  heard p go_on (inl (e, a)) = (inl e, a)
  heard p go_on (inr (inl (e, a))) = (inr (inl e), a)
  heard p go_on (inr (inr a)) =
      let (ne, open_now, free) = quiet-Allowed os p now (zone_of p tz) go_on a in
      (inr (inr (ne, open_now)), free)

  rules-Allowed :
      (p : Policy)
      → policy db cid ≡ ok p
      → Allowed (
          guarded p kind aq
            (quiet_hours os p now (zone_of p tz) (frequency p (attempts db cid now) now))
            (frequency p (attempts db cid now) now))
      → Permits os db cid now kind aq tz p
  rules-Allowed p found a =
      let used = attempts db cid now in
      let go_on = frequency p used now in
      let quiet = quiet_hours os p now (zone_of p tz) go_on in
      let (running, kinds, rest) = guarded-Allowed p kind aq quiet go_on a in
      let (audible, free) = heard p go_on rest in
      let (under, spaced) = frequency-Allowed p used now (attempts-IsSorted db cid now) free in
      record {
        found = found;
        running = running;
        authorized = elim kinds [ inl e ↦ inl ((eq_iff kind "reminder").0 e) | inr e ↦ inr e ];
        audible = audible;
        under_limit = omega (arith, length-attempts db cid now);
        spaced = of_All-attempts db cid now (λ y. y + span_of p ≤ now) spaced;
      }

  rules_free :
      (p : Policy)
      → Permits os db cid now kind aq tz p
      → Allowed (
          guarded p kind aq
            (quiet_hours os p now (zone_of p tz) (frequency p (attempts db cid now) now))
            (frequency p (attempts db cid now) now))
  rules_free p h =
      let used = attempts db cid now in
      let free : Allowed (frequency p used now) =
        frequency_free p used now (omega (arith, h.under_limit, length-attempts db cid now))
          (All-attempts db cid now (λ y. y + span_of p ≤ now) h.spaced) in
      guarded_free p kind aq (quiet_hours os p now (zone_of p tz) (frequency p used now))
        (frequency p used now) h.running
        (elim h.authorized [ inl e ↦ inl ((eq_iff kind "reminder").1 e) | inr e ↦ inr e ]) free
        (elim h.audible [
          | inl e ↦ inl e
          | inr (inl e) ↦ inr (inl e)
          | inr (inr q) ↦
              inr (inr (quiet_free os p now (zone_of p tz) (frequency p used now) q.0 q.1 free))
        ])

  -- `decision` allows a message exactly when some policy of the conversation permits it.
  pub decision_exact :
      Allowed (decision os db cid now kind aq tz)
      ↔ ((p : Policy) × Permits os db cid now kind aq tz p)
  unfolding decision
  decision_exact = (
    λ a. elim (Result-cases (policy db cid)) [
      | inl (p, q) ↦ (p, rules-Allowed p q (rw (q, Allowed) at a))
      | inr (x, q) ↦ absurd (rw (q, Allowed) at a)
    ],
    λ h. rw (h.1.found, Allowed) (rules_free h.0 h.1),
  )
