-- ===== src/Contact/Decision/Reopens.antt =====
-- The `next_at` of a conversation that has used up its daily limit.
use openqqwaifu.Prelude.{
  ℕ, zero, suc, ◌+◌, ◌-◌, ◌≤◌, ◌<◌, String, ◌≡◌, refl, Bool, List, [], ◌∷◌, some, arith, ◌∙◌,
  count_where, length, ltb, IsSorted, ◌↔◌, sym, get_elem?-total, count_where-from,
  count_where-behind, count_where-sort, le→leb, lt→ltb, ge→ltb, Bool-cases, inl, inr, map, select,
  ltb→lt, ltb→ge,
}
use openqqwaifu.Tables.{ContactAttempt, Policy, Db, day_span}
use openqqwaifu.Contact.Decision.{recent, attempts, frequency, from_end, refuse}
use openqqwaifu.Contact.Decision.Window.{attempts-IsSorted, length-attempts}

abbrev since : ℕ → ℕ → Bool
since t s = ltb t (s + day_span)

-- From a later moment on, the table and the list of a day's attempts show the same ones.
count_since :
    (cid : String) (now t : ℕ) (xs : List ContactAttempt)
    → now ≤ t
    → count_where
        (since t)
        (map (λ (a : ContactAttempt). a.started_at) (select (recent cid now) xs))
      ≡ count_where (recent cid t) xs
count_since cid now t [] h = refl
count_since cid now t (x ∷ xs) h = ground (arith, count_since cid now t xs h)

length-attempts_later :
    (db : Db) (cid : String) (now t : ℕ)
    → now ≤ t
    → length (attempts db cid t) ≡ count_where (since t) (attempts db cid now)
length-attempts_later db cid now t h =
    length-attempts db cid t
    ∙ sym (count_since cid now t db.contact_attempts h)
    ∙ sym (unfold attempts in count_where-sort (since t) _)

from_end_total :
    (used : List ℕ) (limit : ℕ)
    → 1 ≤ limit
    → limit ≤ length used
    → (x : ℕ) × (from_end used limit ≡ some x)
unfolding from_end
from_end_total used zero pos full = absurd (omega arith)
from_end_total used (suc n) pos full = get_elem?-total used (length used - suc n) (omega arith)

refused_full :
    (p : Policy) (used : List ℕ) (now x : ℕ)
    → p.daily_limit ≤ length used
    → from_end used p.daily_limit ≡ some x
    → frequency p used now ≡ refuse p "contact_daily_limit" (some (x + day_span))
unfolding frequency
refused_full p used now x full e = rw (le→leb p.daily_limit (length used) full) (rw e refl)

reopens :
    (used : List ℕ) (limit x t : ℕ)
    → IsSorted used
    → 1 ≤ limit
    → limit ≤ length used
    → from_end used limit ≡ some x
    → (count_where (since t) used < limit) ↔ (x + day_span ≤ t)
unfolding from_end
reopens used zero x t sorted pos full e = absurd (omega arith)
reopens used (suc n) x t sorted pos full e = (
  λ few. elim (Bool-cases (ltb t (x + day_span))) [
    | inr late ↦ ltb→ge t (x + day_span) late
    | inl early ↦ absurd (
        omega (
          arith,
          count_where-from (since t) used (length used - suc n) x sorted e
              (λ y le. lt→ltb t (y + day_span) (omega (arith, ltb→lt t (x + day_span) early))),
        ))
  ],
  λ late. omega (
    arith,
    count_where-behind (since t) used (length used - suc n) x sorted e
        (λ y le. ge→ltb t (y + day_span) (omega arith)),
  ),
)

-- Where the daily limit is used up, `frequency` refuses and names a moment; at `t`, from now on,
-- with no further attempt, fewer attempts than the limit lie in the last 24 hours exactly when that
-- moment has come.
pub frequency_reopens :
    (db : Db) (cid : String) (p : Policy) (now t : ℕ)
    → 1 ≤ p.daily_limit
    → p.daily_limit ≤ length (attempts db cid now)
    → now ≤ t
    → (w : ℕ) × (frequency p (attempts db cid now) now ≡ refuse p "contact_daily_limit" (some w))
      × ((length (attempts db cid t) < p.daily_limit) ↔ (w ≤ t))
frequency_reopens db cid p now t pos full h =
    let used = attempts db cid now in
    let (oldest, e) = from_end_total used p.daily_limit pos full in
    (
      oldest + day_span,
      refused_full p used now oldest full e,
      rw (length-attempts_later db cid now t h)
          (reopens used p.daily_limit oldest t (attempts-IsSorted db cid now) pos full e),
    )
