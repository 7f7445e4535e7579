-- ===== src/Inbox/Binding.antt =====
-- runtime_v2/store.py: `enqueue_binding`, which queues the change of a conversation's character, with
-- `require_active` and `duplicate_source` of privacy.py.
use Prim.Native.String.{◌++◌}
use openqqwaifu.Prelude.{
  ℕ, String, Bool, true, false, not, ◌&&◌, Option, none, some, List, [], ◌∷◌, str_eq, find,
}
use openqqwaifu.Result.{Result, Error, ok, require, ◌>>=◌, ◌>>◌}
use openqqwaifu.Platform.{Platform, is_blank}
use openqqwaifu.Tables.{
  CharacterSnapshot, Event, EventState, Kind, Source, Db, conversation_of, set_inbox,
}
use openqqwaifu.Inbox.{check_capacity, take_seq}

-- A row of erased_sources, found by the fingerprint of its conversation and source.
pub record ErasedSource : Type 0 where
  pub conversation_id : String
  pub source : String
  pub event_id : String
  pub seq : ℕ

pub record Admission : Type 0 where
  pub event_id : String
  pub seq : ℕ
  pub duplicate : Bool

unfoldable pub duplicate_source : List ErasedSource → String → String → Option ErasedSource
duplicate_source journal cid source =
    find (λ e. str_eq e.conversation_id cid && str_eq e.source source) journal

unfoldable pub require_active : Db → String → Result (Unit {0})
require_active db cid = elim (conversation_of db cid) [
  | none ↦ ok tt
  | some c ↦ require c.active Error.conversation_erased
]

abbrev pub has_request : String → Option Source → Bool
has_request request_id (some (Source.from_binding r)) = str_eq r request_id
has_request request_id _ = false

abbrev pub is_binding : String → String → Event → Bool
is_binding cid request_id e = str_eq e.conversation_id cid && has_request request_id e.source_id

abbrev pub same_character : CharacterSnapshot → CharacterSnapshot → Bool
same_character a b =
    str_eq a.character_id b.character_id
    && str_eq a.version b.version
    && str_eq a.card_json b.card_json

-- old["payload_json"] == payload
abbrev pub binds : CharacterSnapshot → Kind → Bool
binds character (Kind.binding c) = same_character c character
binds character _ = false

abbrev pub binding_event : String → String → ℕ → CharacterSnapshot → String → ℕ → Event
binding_event event_id cid seq character request_id now = record {
  event_id = event_id;
  conversation_id = cid;
  seq = seq;
  source_id = some (Source.from_binding request_id);
  kind = Kind.binding character;
  received_at = now;
  state = EventState.queued;
  error_code = "";
  turn = none;
  outbox = none;
  occurrence = none;
  user_message = none;
  assistant_message = none;
}

-- The new row stands last.
abbrev pub add_row : List Event → Event → List Event
add_row [] e = e ∷ []
add_row (x ∷ xs) e = x ∷ add_row xs e

-- The queue takes the new event.
unfoldable pub admit_binding :
    ℕ → String → ℕ → String → CharacterSnapshot → String → Db → Result (Db × Admission)
admit_binding max_pending event_id now cid character request_id db = do
  check_capacity max_pending db
  taken ← take_seq db cid
  ok (
    set_inbox taken.0
        (add_row taken.0.inbox (binding_event event_id cid taken.1 character request_id now)),
    record { event_id = event_id; seq = taken.1; duplicate = false },
  )

-- A request that is in the inbox.
unfoldable pub repeat_binding : CharacterSnapshot → Event → Db → Result (Db × Admission)
repeat_binding character old db =
    require (binds character old.kind) Error.request_reused
    >> ok (db, record { event_id = old.event_id; seq = old.seq; duplicate = true })

abbrev pub is_erased : Option ErasedSource → Bool
is_erased none = false
is_erased (some _) = true

unfoldable pub enqueue_binding :
    Platform
    → List ErasedSource
    → ℕ
    → String
    → ℕ
    → String
    → CharacterSnapshot
    → String
    → Db
    → Result (Db × Admission)
enqueue_binding os journal max_pending event_id now cid character request_id db = do
  require (not (is_blank os request_id)) Error.identity_required
  require_active db cid
  require (not (is_erased (duplicate_source journal cid ("binding:" ++ request_id))))
      Error.request_erased
  elim (find (is_binding cid request_id) db.inbox) [
    | some old ↦ repeat_binding character old db
    | none ↦ admit_binding max_pending event_id now cid character request_id db
  ]
