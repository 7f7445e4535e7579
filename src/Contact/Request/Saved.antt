-- ===== src/Contact/Request/Saved.antt =====
-- The range of what is saved in a policy.
use openqqwaifu.Prelude.{
  ℕ, ◌≤◌, ◌≡◌, ◌≢◌, ◌⊎◌, ◌==◌, inl, inr, refl, String, Bool, false, not, ◌&&◌, Option, none, some,
  All, All-update_where, str_eq, eq_iff, arith, leb, &&_parts, leb→le, find, any, Bool-cases,
  update_where, if◌then◌else◌,
}
use openqqwaifu.Result.{
  ok, Ensures, Ensures-ok, Ensures-bind, Ensures-require, Ensures-option, Error, ◌>>=◌,
}
use openqqwaifu.Platform.{Platform, IsLawful}
use openqqwaifu.Tables.{Policy, Db}
use openqqwaifu.Contact.Quiet.{minute}
use openqqwaifu.Contact.Decision.{policy}
use openqqwaifu.Contact.Request.{
  Json, text, number, Changes, Payload, Encoding, Operation, Response, Desk, validate_zone,
  zone_field, time_field, limit_field, bounded, bool_field, revise, repeat, store_policy,
  admit_change, apply_request, ensure, identity, is_request,
}

-- The quiet period has two ends that are times and differ; the numbers are in range; a policy with
-- planned contact has a zone.
pub record IsValid (os : Platform) (p : Policy) : Type 0 where
  pub first : ℕ
  pub last : ℕ
  pub starts : minute os p.quiet_start ≡ ok first
  pub ends : minute os p.quiet_end ≡ ok last
  pub differ : first ≢ last
  pub daily_low : 1 ≤ p.daily_limit
  pub daily_high : p.daily_limit ≤ 100
  pub spacing_low : 1 ≤ p.min_interval_minutes
  pub spacing_high : p.min_interval_minutes ≤ 1440
  pub zoned : (p.proactive_enabled ≡ false) ⊎ (p.timezone ≢ "")

abbrev IsTime : Platform → String × ℕ → Type 0
IsTime os (t, m) = minute os t ≡ ok m

minute-IsTime : (os : Platform) (t : String) → Ensures (IsTime os) (minute os t >>= λ m. ok (t, m))
minute-IsTime os t = Ensures-bind (IsTime os) (minute os t) _ λ m e. e

time_field-IsTime :
    (os : Platform) (value : Option Json) (current : String)
    → Ensures (IsTime os) (time_field os value current)
unfolding time_field
time_field-IsTime os none current = minute-IsTime os current
time_field-IsTime os (some (text value)) current = minute-IsTime os value
time_field-IsTime os (some Json.null) current = tt
time_field-IsTime os (some (Json.boolean b)) current = tt
time_field-IsTime os (some (number n)) current = tt
time_field-IsTime os (some Json.other) current = tt

abbrev InRange : ℕ → ℕ → Type 0
InRange maximum value = (1 ≤ value) × (value ≤ maximum)

bounded-InRange : (maximum value : ℕ) → Ensures (InRange maximum) (bounded maximum value)
bounded-InRange maximum value =
    Ensures-require (InRange maximum) (leb 1 value && leb value maximum) Error.limit_out_of_range
      (ok value)
      λ h.
        let parts = &&_parts (leb 1 value) (leb value maximum) h in
        (leb→le 1 value parts.0, leb→le value maximum parts.1)

limit_field-InRange :
    (maximum : ℕ) (value : Option Json) (current : ℕ)
    → Ensures (InRange maximum) (limit_field maximum value current)
limit_field-InRange maximum none current = bounded-InRange maximum current
limit_field-InRange maximum (some (number n)) current = bounded-InRange maximum n
limit_field-InRange maximum (some Json.null) current = tt
limit_field-InRange maximum (some (Json.boolean b)) current = tt
limit_field-InRange maximum (some (text t)) current = tt
limit_field-InRange maximum (some Json.other) current = tt

revise-IsValid :
    (os : Platform) (op : Operation) (c : Changes) (p : Policy)
    → Ensures (IsValid os) (revise os op c p)
unfolding revise
revise-IsValid os op c p =
    let Q = IsValid os in
    Ensures-bind Q (bool_field c.proactive_enabled p.proactive_enabled) _ λ proactive _.
      Ensures-bind Q (bool_field c.quiet_enabled p.quiet_enabled) _ λ quiet _.
        Ensures-bind Q (zone_field os c.timezone p.timezone) _ λ zone _.
          Ensures-require Q (not (proactive && str_eq zone "")) _ _ λ zoned.
            Ensures-bind Q (time_field os c.quiet_start p.quiet_start) _ λ first starts.
              Ensures-bind Q (time_field os c.quiet_end p.quiet_end) _ λ last ends.
                Ensures-require Q (not (first.1 == last.1)) _ _ λ differ.
                  Ensures-bind Q (limit_field 100 c.daily_limit p.daily_limit) _ λ daily low.
                    Ensures-bind Q (limit_field 1440 c.min_interval_minutes p.min_interval_minutes)
                      _
                      λ spacing high.
                        let d =
                          Ensures-ok (InRange 100) _
                            (limit_field-InRange 100 c.daily_limit p.daily_limit) low in
                        let s =
                          Ensures-ok (InRange 1440) _
                            (limit_field-InRange 1440 c.min_interval_minutes p.min_interval_minutes)
                            high in
                        record {
                          first = first.1;
                          last = last.1;
                          starts =
                              Ensures-ok (IsTime os) _
                                (time_field-IsTime os c.quiet_start p.quiet_start) starts;
                          ends =
                              Ensures-ok (IsTime os) _
                                (time_field-IsTime os c.quiet_end p.quiet_end) ends;
                          differ = ground (arith, differ);
                          daily_low = d.0;
                          daily_high = d.1;
                          spacing_low = s.0;
                          spacing_high = s.1;
                          zoned = ground (arith, zoned, eq_iff zone "");
                        }

abbrev pub AllValid : Platform → Desk × Response → Type 0
AllValid os (desk, response) = All (IsValid os) desk.db.policies

store_policy-AllValid :
    (os : Platform) (cid request_id serialized actor : String) (now : ℕ) (revised : Policy)
    (desk : Desk)
    → IsValid os revised
    → All (IsValid os) desk.db.policies
    → Ensures (AllValid os) (store_policy cid request_id serialized actor now revised desk)
unfolding store_policy
store_policy-AllValid os cid request_id serialized actor now revised desk valid all =
    Ensures-bind (AllValid os)
      (policy
        (record (desk.db) {
          policies =
              update_where (λ p. str_eq p.conversation_id cid) (λ _. revised) desk.db.policies;
        })
        cid)
      _
      λ saved _.
        All-update_where (IsValid os) (λ p. str_eq p.conversation_id cid) (λ _. revised)
          (λ _ _ _. valid) desk.db.policies all

apply_request-AllValid :
    (os : Platform) (enc : Encoding) (payload : Payload) (actor : String) (now : ℕ) (user : Bool)
    (desk : Desk)
    → All (IsValid os) desk.db.policies
    → Ensures (AllValid os) (apply_request os enc payload actor now user desk)
unfolding apply_request repeat
apply_request-AllValid os enc payload actor now user desk all =
    let Q = AllValid os in
    Ensures-bind Q (identity payload.conversation_id) _ λ cid _.
      Ensures-bind Q (identity payload.request_id) _ λ request_id _.
        Ensures-bind Q (identity (text actor)) _ λ _ _.
          Ensures-option Q (find (is_request cid request_id) desk.requests) _ _
            (λ _. Ensures-bind Q (admit_change os enc payload user cid desk) _ λ admitted _.
              Ensures-bind Q (revise os admitted.0 admitted.1 admitted.2) _ λ revised made.
                store_policy-AllValid os cid request_id (enc.json_text payload) actor now revised
                  desk
                  (Ensures-ok (IsValid os) _ (revise-IsValid os admitted.0 admitted.1 admitted.2)
                    made)
                  all)
            (λ old _.
              Ensures-require Q
                (str_eq old.payload_json (enc.json_text payload) && str_eq old.actor actor) _ _
                λ _. all)

-- The defaults of the schema.
default_times :
    (os : Platform) → IsLawful os → (minute os "22:00" ≡ ok 1320) × (minute os "08:00" ≡ ok 480)
unfolding minute
default_times os lawful =
    let zero_digit : os.digit 48 ≡ some 0 = lawful.digit_ascii 0 (omega arith) in
    let eight : os.digit 56 ≡ some 8 = lawful.digit_ascii 8 (omega arith) in
    (rw zero_digit refl, rw (zero_digit, eight) refl)

ensure-AllValid :
    (os : Platform)
    → IsLawful os
    → (cid default_zone : String) (db : Db) → All (IsValid os) db.policies
    → Ensures (λ (d : Db). All (IsValid os) d.policies) (ensure os cid default_zone db)
unfolding ensure
ensure-AllValid os lawful cid default_zone db all =
    let Q = λ (d : Db). All (IsValid os) d.policies in
    let times = default_times os lawful in
    Ensures-bind Q (if str_eq default_zone "" then ok "" else validate_zone os (text default_zone))
      _
      λ _ _. elim (Bool-cases (any (λ p. str_eq p.conversation_id cid) db.policies)) [
        | inl there ↦ rw there all
        | inr new ↦ rw new (
          record {
            first = 1320;
            last = 480;
            starts = times.0;
            ends = times.1;
            differ = λ e. omega (arith, e);
            daily_low = omega arith;
            daily_high = omega arith;
            spacing_low = omega arith;
            spacing_high = omega arith;
            zoned = inl refl;
          },
          all,
        )
      ]

-- Where every policy has a valid quiet period, numbers in range, and a zone if planned contact is on,
-- the same holds after a request of any kind that succeeds, and after a new conversation gets the
-- defaults.
pub policies-IsValid :
    (os : Platform)
    → IsLawful os
    → (enc : Encoding) (payload : Payload) (actor cid default_zone : String) (now : ℕ) (user : Bool)
      (desk : Desk)
    → All (IsValid os) desk.db.policies
    → Ensures (AllValid os) (apply_request os enc payload actor now user desk)
      × Ensures (λ (d : Db). All (IsValid os) d.policies) (ensure os cid default_zone desk.db)
policies-IsValid os lawful enc payload actor cid default_zone now user desk all = (
  apply_request-AllValid os enc payload actor now user desk all,
  ensure-AllValid os lawful cid default_zone desk.db all,
)
