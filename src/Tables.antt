-- ===== src/Tables.antt =====
-- The rows of the runtime database: the schemas of src/waifu_standalone/runtime_v2/store.py,
-- reminders.py and contact_policy.py. `turns`, `outbox_messages`, `reminder_occurrences` and
-- `messages` have at most one row for an event (UNIQUE event_id; PRIMARY KEY (event_id, role)), and
-- stand here in the row of their event; so do the delivery attempts of its outbox row.
-- A time is a number of microseconds since the epoch. JSON columns hold the value that they encode.
use openqqwaifu.Prelude.{
  ℕ, ◌*◌, String, Bool, true, false, Option, List, str_eq, find, update_where, count_where, not,
}

abbrev pub second : ℕ
second = 1000000

abbrev pub minute_span : ℕ
minute_span = 60 * second

abbrev pub day_span : ℕ
day_span = 86400 * second

pub record CharacterSnapshot : Type 0 where
  pub character_id : String
  pub version : String
  pub card_json : String

-- `active` is `privacy_state = 'active'`.
pub record Conversation : Type 0 where
  pub conversation_id : String
  pub next_seq : ℕ
  pub character : CharacterSnapshot
  pub generation : ℕ
  pub data_generation : ℕ
  pub active : Bool

-- What the runtime reads of a stored `InboundEvent`: `plain_text` and `to_memory_text()`.
pub record Inbound : Type 0 where
  pub launcher_id : String
  pub plain_text : String
  pub memory_text : String

-- The column `kind` with the payload; of a queued memory change only its target is read.
pub data Kind : Type 0 where
  message : Inbound → Kind
  binding : CharacterSnapshot → Kind
  memory : String → Kind
  reminder_due followup_due erased : Kind

-- The column `source_id`: a prefix with the platform's message id or the request's, or the task's
-- or the candidate's id and version.
pub data Source : Type 0 where
  from_message from_binding from_memory : String → Source
  from_reminder from_followup : String → ℕ → Source

pub data EventState : Type 0 where
  queued generating outbox_ready completed ignored failed cancelled needs_review : EventState

pub data TurnState : Type 0 where
  planned generating awaiting_delivery finished ignored failed cancelled needs_review : TurnState

-- States of an outbox row, and of a delivery attempt.
pub data SendState : Type 0 where
  pending dispatching accepted captured unknown rejected cancelled : SendState

pub record Turn : Type 0 where
  pub turn_id : String
  pub character : CharacterSnapshot
  pub binding_generation : ℕ
  pub config_version : String
  pub state : TurnState
  pub attempts : ℕ

pub record Attempt : Type 0 where
  pub attempt : ℕ
  pub started_at : ℕ
  pub finished_at : Option ℕ
  pub state : SendState

pub record Outbox : Type 0 where
  pub outbox_id : String
  pub launcher_id : String
  pub text : String
  pub state : SendState
  pub platform_message_id : String
  pub attempts : ℕ
  pub error_code : String
  pub erased : Bool
  pub delivery_attempts : List Attempt

pub record Message : Type 0 where
  pub character_id : String
  pub content : String
  pub delivery_state : Option SendState  -- `none` is 'received'

pub record Occurrence : Type 0 where
  pub task_id : String
  pub task_version : ℕ

pub record Event : Type 0 where
  pub event_id : String
  pub conversation_id : String
  pub seq : ℕ
  pub source_id : Option Source
  pub kind : Kind
  pub received_at : ℕ
  pub state : EventState
  pub error_code : String
  pub turn : Option Turn
  pub outbox : Option Outbox
  pub occurrence : Option Occurrence
  pub user_message : Option Message
  pub assistant_message : Option Message

pub data TaskState : Type 0 where
  scheduled enqueued dispatching completed cancelled expired paused needs_review : TaskState

pub record Task : Type 0 where
  pub id : ℕ
  pub task_id : String
  pub conversation_id : String
  pub character : CharacterSnapshot
  pub binding_generation : ℕ
  pub text : String
  pub due_at : ℕ
  pub expires_at : ℕ
  pub timezone : String
  pub local_time : String
  pub version : ℕ
  pub state : TaskState
  pub reason : String
  pub cancel_requested : Bool
  pub linked_memory_id : String
  pub linked_memory_version : ℕ
  pub allow_quiet : Bool
  pub timezone_confirmed : Bool
  pub deferred_until : Option ℕ
  pub updated_at : ℕ

pub data MemoryState : Type 0 where
  open_episode active completed cancelled withdrawn : MemoryState

pub record MemoryRecord : Type 0 where
  pub memory_id : String
  pub conversation_id : String
  pub character_id : String
  pub state : MemoryState
  pub version : ℕ

pub record Policy : Type 0 where
  pub conversation_id : String
  pub proactive_enabled : Bool
  pub paused : Bool
  pub timezone : String
  pub quiet_enabled : Bool
  pub quiet_start : String
  pub quiet_end : String
  pub daily_limit : ℕ
  pub min_interval_minutes : ℕ
  pub version : ℕ

pub record ContactAttempt : Type 0 where
  pub conversation_id : String
  pub outbox_id : String
  pub attempt : ℕ
  pub kind : String
  pub started_at : ℕ
  pub policy_version : ℕ

pub data ReviewAction : Type 0 where
  confirm_sent retry discard resume_generation : ReviewAction

pub record Audit : Type 0 where
  pub created_at : ℕ
  pub action : ReviewAction
  pub target_id : String

pub record Db : Type 0 where
  pub conversations : List Conversation
  pub inbox : List Event
  pub audit : List Audit
  pub policies : List Policy
  pub contact_attempts : List ContactAttempt
  pub tasks : List Task
  pub memories : List MemoryRecord

-- SELECT * FROM conversations WHERE conversation_id=?
abbrev pub conversation_of : Db → String → Option Conversation
conversation_of db cid = find (λ c. str_eq c.conversation_id cid) db.conversations

abbrev pub set_inbox : Db → List Event → Db
set_inbox db es = record db { inbox = es }

-- UPDATE inbox_events, turns, outbox_messages … WHERE event_id=?
abbrev pub update_event : String → (Event → Event) → Db → Db
update_event event_id f db =
    set_inbox db (update_where (λ e. str_eq e.event_id event_id) f db.inbox)

-- state IN ('completed','ignored','failed','cancelled')
abbrev pub is_terminal : EventState → Bool
is_terminal EventState.completed = true
is_terminal EventState.ignored = true
is_terminal EventState.failed = true
is_terminal EventState.cancelled = true
is_terminal _ = false

-- state NOT IN (…), of all conversations
abbrev pub pending_count : Db → ℕ
pending_count db = count_where (λ e. not (is_terminal e.state)) db.inbox
