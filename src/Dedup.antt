-- ===== src/Dedup.antt =====
-- gateways/inbound_dedup.py: `InboundDeduplicator`, which keeps a message from being handled twice. A
-- time is a number of microseconds of the monotonic clock; `_expires_at` is a list of keys with their
-- times, oldest first.
pub mod Claims
pub mod Marks
pub mod Retry
pub mod Runs
pub mod Kept
use Prim.Native.String.{◌++◌}
use openqqwaifu.Prelude.{
  ℕ, ◌+◌, String, Bool, true, false, not, Option, none, some, List, [], ◌∷◌, str_eq, ltb, leb,
  if◌then◌else◌, any, length, select, ◌&&◌, map,
}

pub record Entry : Type 0 where
  pub key : String
  pub expires_at : ℕ

pub record Dedup : Type 0 where
  pub entries : List Entry
  pub delivered : List String

-- The constructor's arguments.
pub record Limits : Type 0 where
  pub id_ttl : ℕ
  pub content_window : ℕ
  pub max_entries : ℕ

-- The part of an `InboundEvent` that makes its key.
pub record Segment : Type 0 where
  pub kind : String
  pub text : String
  pub image_url : String
  pub mention_target : String

pub record Received : Type 0 where
  pub launcher_type : String
  pub launcher_id : String
  pub sender_id : String
  pub message_id : String
  pub raw_message : String
  pub segments : List Segment
  pub occurred_at : Option ℕ

-- `str.strip`, the SHA-1 of a text in hexadecimal, and `str` of a time.
pub record Texts : Type 0 where
  pub strip : String → String
  pub digest : String → String
  pub time_text : ℕ → String

abbrev describe : Segment → String
describe p = p.kind ++ ":" ++ p.text ++ ":" ++ p.image_url ++ ":" ++ p.mention_target

abbrev join : List String → String
join [] = ""
join (x ∷ []) = x
join (x ∷ y ∷ rest) = x ++ "|" ++ join (y ∷ rest)

abbrev or_else : String → String → String
or_else a b = if str_eq a "" then b else a

-- str(event_time or "").strip(), where a time of 0 counts as none
abbrev stamp_of : Texts → Option ℕ → String
stamp_of texts none = ""
stamp_of texts (some t) = if leb t 0 then "" else texts.strip (texts.time_text t)

abbrev time_of : Option ℕ → Option ℕ → Option ℕ
time_of none occurred = occurred
time_of (some t) occurred = some t

unfoldable pub key_for : Texts → Limits → Received → Option ℕ → String × ℕ
key_for texts limits event event_time =
    let chat = event.launcher_type ++ ":" ++ event.launcher_id in
    let message_id = texts.strip event.message_id in
    let content = or_else (texts.strip event.raw_message) (join (map describe event.segments)) in
    let stamp = stamp_of texts (time_of event_time event.occurred_at) in
    if str_eq message_id ""
    then (
      "content|" ++ chat ++ "|" ++ event.sender_id ++ "|" ++ stamp ++ "|" ++ texts.digest content,
      if str_eq stamp "" then limits.content_window else limits.id_ttl,
    )
    else ("id|" ++ chat ++ "|" ++ message_id, limits.id_ttl)

abbrev pub is_key : String → Entry → Bool
is_key key e = str_eq e.key key

abbrev pub is_fresh : ℕ → Entry → Bool
is_fresh now e = ltb now e.expires_at

-- The key is there and has not expired.
abbrev pub holds : String → ℕ → Entry → Bool
holds key now e = is_key key e && is_fresh now e

-- max(1, max_entries)
abbrev pub cap : ℕ → ℕ
cap n = if leb n 1 then 1 else n

-- set.discard
abbrev pub discard : String → List String → List String
discard key keys = select (λ k. not (str_eq k key)) keys

-- del self._expires_at[key], for every expired key, each with its mark
unfoldable pub prune : ℕ → List Entry → Dedup → Dedup
prune now [] s = s
prune now (e ∷ es) s =
    let s' = prune now es s in
    if is_fresh now e
    then record s' { entries = e ∷ s'.entries }
    else record s' { delivered = discard e.key s'.delivered }

abbrev pub prune_locked : ℕ → Dedup → Dedup
prune_locked now s = prune now s.entries (record { entries = []; delivered = s.delivered })

abbrev pub pop : String → List Entry → List Entry
pop key es = select (λ e. not (is_key key e)) es

unfoldable pub append : List Entry → Entry → List Entry
append [] e = e ∷ []
append (x ∷ xs) e = x ∷ append xs e

-- while len(…) > max_entries: popitem(last=False)
unfoldable pub evict : ℕ → List Entry → List String → Dedup
evict max_entries [] delivered = record { entries = []; delivered = delivered }
evict max_entries (e ∷ es) delivered =
    let rest = evict max_entries es (discard e.key delivered) in
    if ltb max_entries (length (e ∷ es))
    then rest
    else record { entries = e ∷ es; delivered = delivered }

abbrev pub renew : String → ℕ → List Entry → List Entry
renew key expires_at es = append (pop key es) (record { key = key; expires_at = expires_at })

-- `claim`, by the key and its time to live; `none` is an event that was seen.
unfoldable pub claim : Limits → String → ℕ → ℕ → Dedup → Dedup × Option String
claim limits key ttl now s =
    let s' = prune_locked now s in
    if any (holds key now) s'.entries
    then (s', none)
    else (evict (cap limits.max_entries) (renew key (now + ttl) s'.entries) s'.delivered, some key)

unfoldable pub mark_delivered : String → Dedup → Dedup
mark_delivered key s =
    if any (is_key key) s.entries then record s { delivered = key ∷ discard key s.delivered } else s

unfoldable pub release : Option String → Dedup → Dedup
release none s = s
release (some key) s =
    if str_eq key ""
    then s
    else if any (λ k. str_eq k key) s.delivered
    then s
    else record s { entries = pop key s.entries }

unfoldable pub claim_event :
    Texts → Limits → Received → Option ℕ → ℕ → Dedup → Dedup × Option String
claim_event texts limits event event_time now s =
    let (key, ttl) = key_for texts limits event event_time in claim limits key ttl now s

unfoldable pub mark_event : Texts → Limits → Received → Option ℕ → Dedup → Dedup
mark_event texts limits event event_time s =
    mark_delivered (key_for texts limits event event_time).0 s
