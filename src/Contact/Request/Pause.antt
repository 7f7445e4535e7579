-- ===== src/Contact/Request/Pause.antt =====
-- The emergency stop.
use openqqwaifu.Prelude.{
  ℕ, ◌+◌, ◌≤◌, ◌≡◌, ◌⊎◌, ◌==◌, inl, inr, refl, sym, ◌∙◌, ap, String, Bool, true, false, not, ◌&&◌,
  Option, none, some, List, [], ◌∷◌, str_eq, eq_iff, arith, leb, le→leb, find, any, update_where,
  found_own, find-update_where, Option-cases, Bool-cases,
}
use openqqwaifu.Result.{Result, ok, err, ◌>>=◌, from_option}
use openqqwaifu.Platform.{Platform}
use openqqwaifu.Tables.{Policy, Db, Conversation, conversation_of}
use openqqwaifu.Contact.Decision.{policy, decision, refuse}
use openqqwaifu.Contact.Request.{
  Payload, Encoding, Changes, Response, Desk, text, identity, pause, operation_of, is_true,
  says_something, is_number, is_request, admit_change, authorize, valid_changes, revise, zone_field,
  time_field, store_policy, apply_request,
}
use openqqwaifu.Contact.Request.Saved.{IsValid}

-- {}
abbrev pub no_changes : Changes
no_changes = record {
  proactive_enabled = none;
  timezone = none;
  quiet_enabled = none;
  quiet_start = none;
  quiet_end = none;
  daily_limit = none;
  min_interval_minutes = none;
  unknown = false;
}

-- A request to stop that has its papers: from the user, or from the console with an authorization, a
-- note and the data generation. The version of the rules is not asked for.
pub record IsStop (os : Platform) (enc : Encoding) (payload : Payload)
    (actor cid request_id : String) (user : Bool) (desk : Desk) : Type 0 where
  pub about : identity payload.conversation_id ≡ ok cid
  pub numbered : identity payload.request_id ≡ ok request_id
  pub signed : identity (text actor) ≡ ok actor
  pub new : find (is_request cid request_id) desk.requests ≡ none
  pub stops : operation_of payload.operation ≡ some pause
  pub plain : payload.changes ≡ some no_changes
  pub brief : enc.str_length payload.note ≤ 1000
  pub allowed :
      (user ≡ true)
      ⊎ ((c : Conversation) × (user ≡ false)
          × (conversation_of desk.db cid ≡ some c)
          × (is_true payload.authorized ≡ true)
          × (says_something os payload.note ≡ true)
          × (is_number c.data_generation payload.expected_data_generation ≡ true))

-- The row after the stop.
abbrev pub stopped : Policy → Policy
stopped p = record p { paused = true; version = p.version + 1 }

abbrev some_of : Result Policy → Option Policy
some_of (ok p) = some p
some_of (err _) = none

policy-found :
    (db : Db) (cid : String) (p : Policy)
    → policy db cid ≡ ok p
    → find (λ p. str_eq p.conversation_id cid) db.policies ≡ some p
unfolding policy
policy-found db cid p e =
    elim (Option-cases (find (λ p. str_eq p.conversation_id cid) db.policies)) [
      | inl f ↦ absurd (cc (rw (f, from_option) at e))
      | inr (q, f) ↦ f ∙ ap some_of (rw (f, from_option) at e)
    ]

find-any :
    (q : Policy → Bool) (ps : List Policy) (p : Policy) → find q ps ≡ some p → any q ps ≡ true
find-any q [] p e = absurd (cc e)
find-any q (x ∷ xs) p e = elim (Bool-cases (q x)) [
  | inl t ↦ ground (arith, t)
  | inr t ↦ rw t (find-any q xs p (rw t at e))
]

revise-stop :
    (os : Platform) (p : Policy) → IsValid os p → revise os pause no_changes p ≡ ok (stopped p)
unfolding revise zone_field time_field
revise-stop os p v =
    let zone_test : not (p.proactive_enabled && str_eq p.timezone "") ≡ true =
      ground (arith, v.zoned, eq_iff p.timezone "") in
    let ends_test : not (v.first == v.last) ≡ true = ground (arith, v.differ) in
    let daily_test : (leb 1 p.daily_limit && leb p.daily_limit 100) ≡ true =
      ground (arith, v.daily_low, v.daily_high) in
    let spacing_test : (leb 1 p.min_interval_minutes && leb p.min_interval_minutes 1440) ≡ true =
      ground (arith, v.spacing_low, v.spacing_high) in
    rw (zone_test, v.starts, ◌>>=◌, v.ends, ◌>>=◌, ends_test, daily_test, spacing_test) refl

authorize-stop :
    (os : Platform) (enc : Encoding) (payload : Payload) (actor cid request_id : String)
    (user : Bool) (desk : Desk) (p : Policy)
    → IsStop os enc payload actor cid request_id user desk
    → policy desk.db cid ≡ ok p
    → admit_change os enc payload user cid desk ≡ ok (pause, no_changes, p)
unfolding admit_change authorize valid_changes
authorize-stop os enc payload actor cid request_id user desk p h found =
    let there : any (λ p. str_eq p.conversation_id cid) desk.db.policies ≡ true =
      find-any (λ p. str_eq p.conversation_id cid) desk.db.policies p
        (policy-found desk.db cid p found) in
    let brief : leb (enc.str_length payload.note) 1000 ≡ true = le→leb _ _ h.brief in
    elim h.allowed [
      | inl u ↦ rw (there, found, ◌>>=◌, h.stops, u, brief, h.plain) refl
      | inr (c, u, k, a, n, g) ↦
          rw (there, found, ◌>>=◌, h.stops, u, k, a, n, g, brief, h.plain) refl
    ]

-- The desk after the stop.
abbrev desk_after : Encoding → Payload → String → String → String → ℕ → Policy → Desk → Desk
desk_after enc payload actor cid request_id now p desk = record {
  db = record (desk.db) {
    policies = update_where (λ p. str_eq p.conversation_id cid) (λ _. stopped p) desk.db.policies;
  };
  requests =
      record {
        conversation_id = cid;
        request_id = request_id;
        payload_json = enc.json_text payload;
        actor = actor;
        response = record { policy = stopped p; duplicate = false };
        created_at = now;
      }
      ∷ desk.requests;
}

policy-stopped :
    (db : Db) (cid : String) (p : Policy)
    → policy db cid ≡ ok p
    → policy
        (record db {
          policies = update_where (λ p. str_eq p.conversation_id cid) (λ _. stopped p) db.policies;
        })
        cid
      ≡ ok (stopped p)
unfolding policy
policy-stopped db cid p e =
    let q = λ (p : Policy). str_eq p.conversation_id cid in
    let found = policy-found db cid p e in
    let own : q p ≡ true = found_own q db.policies found in
    rw (find-update_where q q (λ _. stopped p) (λ a t. own ∙ sym t) db.policies found, own) refl

stop-saved :
    (os : Platform) (enc : Encoding) (payload : Payload) (actor cid request_id : String) (now : ℕ)
    (user : Bool) (desk : Desk) (p : Policy)
    → IsStop os enc payload actor cid request_id user desk
    → policy desk.db cid ≡ ok p
    → IsValid os p
    → apply_request os enc payload actor now user desk
      ≡ ok (
        desk_after enc payload actor cid request_id now p desk,
        record { policy = stopped p; duplicate = false },
      )
unfolding apply_request store_policy
stop-saved os enc payload actor cid request_id now user desk p h found valid =
    rw
      (
        h.about,
        h.numbered,
        h.signed,
        ◌>>=◌,
        h.new,
        authorize-stop os enc payload actor cid request_id user desk p h found,
        ◌>>=◌,
        revise-stop os p valid,
        ◌>>=◌,
        policy-stopped desk.db cid p found,
      )
      refl

-- A request to stop from a user, or from the console with an authorization, a note and the current
-- data generation, is saved whatever version of the rules it was made for; after it no planned message
-- of any kind is allowed at any time.
pub emergency_stop :
    (os : Platform) (enc : Encoding) (payload : Payload) (actor cid request_id : String) (now : ℕ)
    (user : Bool) (desk : Desk) (p : Policy)
    → IsStop os enc payload actor cid request_id user desk
    → policy desk.db cid ≡ ok p
    → IsValid os p
    → (desk' : Desk) × (response : Response) × (apply_request os enc payload actor now user desk
        ≡ ok (desk', response))
      × ((later : ℕ) (kind zone : String) (allow_quiet : Bool)
          → decision os desk'.db cid later kind allow_quiet zone
            ≡ refuse (stopped p) "contact_paused" none)
unfolding decision
emergency_stop os enc payload actor cid request_id now user desk p h found valid = (
  desk_after enc payload actor cid request_id now p desk,
  record { policy = stopped p; duplicate = false },
  stop-saved os enc payload actor cid request_id now user desk p h found valid,
  λ later kind zone allow_quiet. rw (policy-stopped desk.db cid p found) refl,
)
