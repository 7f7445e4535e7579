-- ===== src/Contact/Request.antt =====
-- `validate_zone`, `ensure`, `apply_request` of contact_policy.py: changes of the rules of contact, from
-- a user or from the console. `contact_requests` stands beside the database.
pub mod Saved
pub mod Once
pub mod Pause
use openqqwaifu.Prelude.{
  ℕ, ◌+◌, String, Bool, true, false, not, ◌&&◌, ◌||◌, Option, none, some, List, [], ◌∷◌, str_eq,
  ltb, leb, ◌==◌, if◌then◌else◌, find, any, length, update_where,
}
use openqqwaifu.Result.{Result, Error, ok, err, from_option, require, ◌>>=◌, ◌>>◌}
use openqqwaifu.Platform.{Platform, codes, is_blank}
pub use openqqwaifu.Json.{Json, null, boolean, number, text, other}
use openqqwaifu.Tables.{Policy, Conversation, Db, conversation_of}
use openqqwaifu.Contact.Quiet.{minute}
use openqqwaifu.Contact.Decision.{policy}

-- The object "changes", a missing key as `none`; `unknown` says that it has other keys.
pub record Changes : Type 0 where
  pub proactive_enabled : Option Json
  pub timezone : Option Json
  pub quiet_enabled : Option Json
  pub quiet_start : Option Json
  pub quiet_end : Option Json
  pub daily_limit : Option Json
  pub min_interval_minutes : Option Json
  pub unknown : Bool

-- `changes` is `none` where the value is not an object.
pub record Payload : Type 0 where
  pub conversation_id : Json
  pub request_id : Json
  pub operation : Json
  pub authorized : Json
  pub note : Json
  pub expected_data_generation : Json
  pub expected_version : Json
  pub changes : Option Changes

-- `json_text` of a payload, and the length of `str` of a value.
pub record Encoding : Type 0 where
  pub json_text : Payload → String
  pub str_length : Json → ℕ

pub data Operation : Type 0 where
  update pause resume : Operation

pub record Response : Type 0 where
  pub policy : Policy
  pub duplicate : Bool

-- A row of contact_requests.
pub record Request : Type 0 where
  pub conversation_id : String
  pub request_id : String
  pub payload_json : String
  pub actor : String
  pub response : Response
  pub created_at : ℕ

pub record Desk : Type 0 where
  pub db : Db
  pub requests : List Request

unfoldable pub validate_zone : Platform → Json → Result String
validate_zone os (text value) =
    require (not (str_eq value "" || ltb 100 (length (codes value)))) Error.unknown_zone
    >> (require (os.known value) Error.unknown_zone >> ok value)
validate_zone os _ = err Error.unknown_zone

-- A text of 1 to 100 characters.
abbrev pub identity : Json → Result String
identity (text value) =
    require (not (str_eq value "") && leb (length (codes value)) 100) Error.identity_required
    >> ok value
identity _ = err Error.identity_required

abbrev pub operation_of : Json → Option Operation
operation_of (text value) =
    if str_eq value "update"
    then some update
    else if str_eq value "pause"
    then some pause
    else if str_eq value "resume"
    then some resume
    else none
operation_of _ = none

abbrev pub is_true : Json → Bool
is_true (boolean true) = true
is_true _ = false

-- A text with more than white space.
abbrev pub says_something : Platform → Json → Bool
says_something os (text value) = not (is_blank os value)
says_something os _ = false

-- `type(value) is int and value == n`
abbrev pub is_number : ℕ → Json → Bool
is_number n (number value) = value == n
is_number n _ = false

abbrev pub is_absent : Option Json → Bool
is_absent none = true
is_absent (some _) = false

-- not changes
abbrev pub is_empty : Changes → Bool
is_empty c =
    not c.unknown
    && is_absent c.proactive_enabled
    && is_absent c.timezone
    && is_absent c.quiet_enabled
    && is_absent c.quiet_start
    && is_absent c.quiet_end
    && is_absent c.daily_limit
    && is_absent c.min_interval_minutes

abbrev pub is_update : Operation → Bool
is_update update = true
is_update _ = false

abbrev pub is_pause : Operation → Bool
is_pause pause = true
is_pause _ = false

-- What the console must show and a user need not.
unfoldable pub authorize : Platform → Payload → Operation → ℕ → Policy → Result (Unit {0})
authorize os payload op generation p =
    require (is_true payload.authorized && says_something os payload.note) Error.not_authorized
    >> (require (is_number generation payload.expected_data_generation) Error.generation_changed
        >> require (is_pause op || is_number p.version payload.expected_version)
            Error.version_changed)

-- The keys of "changes", for the operation.
unfoldable pub valid_changes : Operation → Option Changes → Result Changes
valid_changes op none = err Error.invalid_fields
valid_changes op (some c) =
    require (not c.unknown && (is_update op || is_empty c)) Error.invalid_fields >> ok c

abbrev pub bool_field : Option Json → Bool → Result Bool
bool_field none current = ok current
bool_field (some (boolean value)) current = ok value
bool_field (some _) current = err Error.not_bool

unfoldable pub zone_field : Platform → Option Json → String → Result String
zone_field os none current = ok current
zone_field os (some value) current = validate_zone os value

-- minute(value), with the text
unfoldable pub time_field : Platform → Option Json → String → Result (String × ℕ)
time_field os none current = minute os current >>= λ m. ok (current, m)
time_field os (some (text value)) current = minute os value >>= λ m. ok (value, m)
time_field os (some _) current = err Error.bad_quiet_time

-- type(value) is int and 1 <= value <= maximum
abbrev pub bounded : ℕ → ℕ → Result ℕ
bounded maximum value =
    require (leb 1 value && leb value maximum) Error.limit_out_of_range >> ok value

abbrev pub limit_field : ℕ → Option Json → ℕ → Result ℕ
limit_field maximum none current = bounded maximum current
limit_field maximum (some (number value)) current = bounded maximum value
limit_field maximum (some _) current = err Error.limit_out_of_range

-- The row with the changes, `p.update(changes)` and the checks after it.
unfoldable pub revise : Platform → Operation → Changes → Policy → Result Policy
revise os op c p = do
  proactive ← bool_field c.proactive_enabled p.proactive_enabled
  quiet ← bool_field c.quiet_enabled p.quiet_enabled
  zone ← zone_field os c.timezone p.timezone
  require (not (proactive && str_eq zone "")) Error.timezone_required
  first ← time_field os c.quiet_start p.quiet_start
  last ← time_field os c.quiet_end p.quiet_end
  require (not (first.1 == last.1)) Error.quiet_bounds_equal
  daily ← limit_field 100 c.daily_limit p.daily_limit
  spacing ← limit_field 1440 c.min_interval_minutes p.min_interval_minutes
  ok (record p {
    proactive_enabled = proactive;
    paused = if is_update op then p.paused else is_pause op;
    timezone = zone;
    quiet_enabled = quiet;
    quiet_start = first.0;
    quiet_end = last.0;
    daily_limit = daily;
    min_interval_minutes = spacing;
    version = p.version + 1;
  })

abbrev pub is_request : String → String → Request → Bool
is_request cid request_id r = str_eq r.conversation_id cid && str_eq r.request_id request_id

-- A request that was made before.
unfoldable pub repeat : Request → String → String → Desk → Result (Desk × Response)
repeat old serialized actor desk =
    require (str_eq old.payload_json serialized && str_eq old.actor actor) Error.request_reused
    >> ok (desk, record old.response { duplicate = true })

-- UPDATE contact_policies … WHERE conversation_id=?, and the row of the request
unfoldable pub store_policy :
    String → String → String → String → ℕ → Policy → Desk → Result (Desk × Response)
store_policy cid request_id serialized actor now revised desk =
    let stored = record (desk.db) {
      policies = update_where (λ p. str_eq p.conversation_id cid) (λ _. revised) desk.db.policies;
    } in
    policy stored cid >>= λ saved.
    let response : Response = record { policy = saved; duplicate = false } in
    ok (
      record {
        db = stored;
        requests =
            record {
              conversation_id = cid;
              request_id = request_id;
              payload_json = serialized;
              actor = actor;
              response = response;
              created_at = now;
            }
            ∷ desk.requests;
      },
      response,
    )

-- The checks before the changes.
unfoldable pub admit_change :
    Platform → Encoding → Payload → Bool → String → Desk → Result (Operation × Changes × Policy)
admit_change os enc payload user cid desk = do
  require (any (λ p. str_eq p.conversation_id cid) desk.db.policies) Error.unknown_conversation
  p ← policy desk.db cid
  op ← from_option Error.unsupported_operation (operation_of payload.operation)
  if user
      then ok tt
      else (from_option Error.unknown_conversation (conversation_of desk.db cid) >>= λ c.
          authorize os payload op c.data_generation p)
  require (leb (enc.str_length payload.note) 1000) Error.note_too_long
  changes ← valid_changes op payload.changes
  ok (op, changes, p)

unfoldable pub apply_request :
    Platform → Encoding → Payload → String → ℕ → Bool → Desk → Result (Desk × Response)
apply_request os enc payload actor now user desk = do
  cid ← identity payload.conversation_id
  request_id ← identity payload.request_id
  _ ← identity (text actor)
  elim (find (is_request cid request_id) desk.requests) [
    | some old ↦ repeat old (enc.json_text payload) actor desk
    | none ↦ do
      admitted ← admit_change os enc payload user cid desk
      revised ← revise os admitted.0 admitted.1 admitted.2
      store_policy cid request_id (enc.json_text payload) actor now revised desk
  ]

-- INSERT OR IGNORE INTO contact_policies(…), with the defaults of the schema
unfoldable pub ensure : Platform → String → String → Db → Result Db
ensure os cid default_zone db =
    (if str_eq default_zone "" then ok "" else validate_zone os (text default_zone)) >>= λ _. ok (
      if any (λ p. str_eq p.conversation_id cid) db.policies then db else record db {
        policies =
            record {
              conversation_id = cid;
              proactive_enabled = false;
              paused = false;
              timezone = default_zone;
              quiet_enabled = true;
              quiet_start = "22:00";
              quiet_end = "08:00";
              daily_limit = 20;
              min_interval_minutes = 1;
              version = 1;
            }
            ∷ db.policies;
      })
