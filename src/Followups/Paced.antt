-- ===== src/Followups/Paced.antt =====
-- What holds when `pace` allows a follow-up.
use openqqwaifu.Prelude.{
  ℕ, ◌+◌, ◌≤◌, ◌<◌, ◌≡◌, ◌⊎◌, inl, inr, refl, sym, ◌∙◌, subst, String, Bool, false, Option, none,
  some, List, [], ◌∷◌, All, All-imp, arith, select, map, sort, length, length-sort, last?,
  last?-cases, count_where, Bool-cases, Option-cases, ltb, leb, ltb→ge, leb→gt,
}
use openqqwaifu.Result.{Ensures}
use openqqwaifu.Tables.{Event, ContactAttempt, Db}
use openqqwaifu.Contact.Decision.{Decision}
use openqqwaifu.Followups.{recent_span}
use openqqwaifu.Followups.Pace.{
  is_recent_followup, followup_times, is_message, latest_time, later_of, unanswered, pace,
}

-- No follow-up in the last 24 hours, fewer than two without an answer, and half an hour since the last
-- message.
pub record IsPaced (db : Db) (cid : String) (now : ℕ) : Type 0 where
  pub first_today : count_where (is_recent_followup cid now) db.contact_attempts ≡ 0
  pub answered : unanswered db cid < 2
  pub rested : All (λ e. (is_message cid e ≡ false) ⊎ (e.received_at + recent_span ≤ now)) db.inbox

-- The decision refuses, or `P` holds.
abbrev pub Unless : Type 0 → Decision → Type 0
Unless P d = (d.allowed ≡ false) ⊎ P

length-times :
    (p : ContactAttempt → Bool) (xs : List ContactAttempt)
    → length (map (λ a. a.started_at) (select p xs)) ≡ count_where p xs
length-times p [] = refl
length-times p (x ∷ xs) = ground (arith, length-times p xs)

none_recent :
    (db : Db) (cid : String) (now : ℕ)
    → last? (followup_times db cid now) ≡ none
    → count_where (is_recent_followup cid now) db.contact_attempts ≡ 0
none_recent db cid now e =
    let chosen = select (is_recent_followup cid now) db.contact_attempts in
    let times = map (λ a. a.started_at) chosen in
    elim (last?-cases (sort times)) [
      | inl (empty, _) ↦ omega (
        arith,
        empty,
        length-sort times,
        length-times (is_recent_followup cid now) db.contact_attempts,
      )
      | inr (m, f) ↦ absurd (cc (sym e ∙ f))
    ]

abbrev AtMost : Option ℕ → ℕ → Type 0
AtMost none bound = Unit
AtMost (some t) bound = t ≤ bound

later_of-AtMost : (t bound : ℕ) (o : Option ℕ) → later_of t o ≤ bound → (t ≤ bound) × AtMost o bound
later_of-AtMost t bound none h = (h, tt)
later_of-AtMost t bound (some u) h = ground (arith, h)

latest_time-AtMost :
    (es : List Event) (bound : ℕ)
    → AtMost (latest_time es) bound
    → All (λ e. e.received_at ≤ bound) es
latest_time-AtMost [] bound h = tt
latest_time-AtMost (e ∷ es) bound h =
    let parts = later_of-AtMost e.received_at bound (latest_time es) h in
    (parts.0, latest_time-AtMost es bound parts.1)

of_select :
    (P : Event → Type 0) (p : Event → Bool) (es : List Event)
    → All P (select p es)
    → All (λ e. (p e ≡ false) ⊎ P e) es
of_select P p [] h = tt
of_select P p (e ∷ es) h = elim (Bool-cases (p e)) [
  | inl t ↦ let k : P e × All P (select p es) = rw t at h in (inr k.0, of_select P p es k.1)
  | inr t ↦ let k : All P (select p es) = rw t at h in (inl t, of_select P p es k)
]

latest_time-some : (es : List Event) → latest_time es ≡ none → es ≡ []
latest_time-some [] h = refl
latest_time-some (e ∷ es) h = absurd (cc h)

rested_after :
    (db : Db) (cid : String) (now bound : ℕ)
    → AtMost (latest_time (select (is_message cid) db.inbox)) bound
    → bound + recent_span ≤ now
    → All (λ e. (is_message cid e ≡ false) ⊎ (e.received_at + recent_span ≤ now)) db.inbox
rested_after db cid now bound h k =
    let messages = select (is_message cid) db.inbox in
    of_select (λ e. e.received_at + recent_span ≤ now) (is_message cid) db.inbox
      (All-imp (λ e. e.received_at ≤ bound) (λ e. e.received_at + recent_span ≤ now)
        (λ e le. omega (arith, le, k)) messages (latest_time-AtMost messages bound h))

pub pace-IsPaced :
    (db : Db) (cid : String) (now : ℕ) (d : Decision)
    → Ensures (Unless (IsPaced db cid now)) (pace db cid now d)
unfolding pace
pace-IsPaced db cid now d =
    let Q = Unless (IsPaced db cid now) in
    elim (Option-cases (last? (followup_times db cid now))) [
      | inr (latest, e) ↦ rw (e, pace) (inl refl)
      | inl e ↦ elim (Bool-cases (leb 2 (unanswered db cid))) [
        | inl many ↦ rw (e, pace, many) (inl refl)
        | inr few ↦ elim (Option-cases (latest_time (select (is_message cid) db.inbox))) [
          | inl f ↦
              let messages = latest_time-some _ f in
              rw (e, pace, few, f)
                (inr (record {
                  first_today = none_recent db cid now e;
                  answered = leb→gt 2 (unanswered db cid) few;
                  rested =
                      of_select (λ x. x.received_at + recent_span ≤ now) (is_message cid) db.inbox
                        (subst (All (λ x. x.received_at + recent_span ≤ now)) (sym messages) tt);
                }))
          | inr (t, f) ↦ elim (Bool-cases (ltb now (t + recent_span))) [
            | inl soon ↦ rw (e, pace, few, f, soon) (inl refl)
            | inr late ↦
                rw (e, pace, few, f, late)
                  (inr (record {
                    first_today = none_recent db cid now e;
                    answered = leb→gt 2 (unanswered db cid) few;
                    rested =
                        rested_after db cid now t (subst (λ o. AtMost o t) (sym f) (omega arith))
                          (ltb→ge now (t + recent_span) late);
                  }))
          ]
        ]
      ]
    ]
