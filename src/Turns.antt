-- ===== src/Turns.antt =====
-- runtime_v2/store.py: the turn of an inbox event (`next_work`, `save_proposal`), from the queue to
-- the outbox. A reply carries no memory changes here, and the recalled memories of a turn are not read.
pub mod Order
use openqqwaifu.Prelude.{
  ℕ, ◌+◌, ◌≡◌, ◌==◌, String, Bool, true, false, Option, none, some, List, [], ◌∷◌, ◌++◌, str_eq,
  ◌&&◌, not, ltb, if◌then◌else◌, find, update_where,
}
use openqqwaifu.Result.{
  Result, ok, err, occurrence_missing, erased_content, target_mismatch, images_unsupported,
  stale_work, proposal_refused, unknown_conversation, from_option, require, ◌>>=◌, ◌>>◌,
}
use openqqwaifu.Platform.{Platform}
use openqqwaifu.Tables.{
  Conversation, CharacterSnapshot, Inbound, Kind, Event, EventState, Turn, TurnState, Outbox,
  SendState, Message, Audit, ReviewAction, Db, set_inbox, update_event, conversation_of,
  is_terminal,
}
use openqqwaifu.Reminders.Due.{new_outbox, prepare}

pub record Context : Type 0 where
  pub turn_id : String
  pub event_id : String
  pub conversation_seq : ℕ
  pub conversation_id : String
  pub character : CharacterSnapshot
  pub generation : ℕ
  pub config_version : String
  pub data_generation : ℕ

-- What `next_work` hands to the engine.
pub data Work : Type 0 where
  applied : Work  -- a binding, a memory change, or a skipped reminder
  due : Outbox → Work
  turn : Context → Inbound → Option Outbox → Work

abbrev pub belongs : String → Event → Bool
belongs cid e = str_eq e.conversation_id cid && not (is_terminal e.state)

abbrev earlier : Event → Option Event → Event
earlier e none = e
earlier e (some r) = if ltb r.seq e.seq then r else e

-- The first event of the conversation that is not done: ORDER BY seq LIMIT 1.
unfoldable pub head_of : String → List Event → Option Event
head_of cid [] = none
head_of cid (e ∷ es) =
    let rest = head_of cid es in if belongs cid e then some (earlier e rest) else rest

abbrev pub is_ready : EventState → Bool
is_ready EventState.queued = true
is_ready EventState.outbox_ready = true
is_ready _ = false

abbrev pub new_turn : Conversation → String → String → Turn
new_turn c turn_id config_version = record {
  turn_id = turn_id;
  character = c.character;
  binding_generation = c.generation;
  config_version = config_version;
  state = TurnState.generating;
  attempts = 1;
}

abbrev pub resume_turn : String → Turn → Turn
resume_turn config_version t = record t {
  attempts = t.attempts + 1;
  state = TurnState.generating;
  config_version = config_version;
}

abbrev pub is_queued : EventState → Bool
is_queued EventState.queued = true
is_queued _ = false

abbrev pub start_event : Turn → Option Message → Event → Event
start_event t m e = record e {
  turn = some t;
  user_message = m;
  state = if is_queued e.state then EventState.generating else e.state;
}

abbrev pub received : Turn → Inbound → Message
received t inbound = record {
  character_id = t.character.character_id;
  content = inbound.memory_text;
  delivery_state = none;
}

abbrev pub context_of : Conversation → Turn → Event → Context
context_of c t e = record {
  turn_id = t.turn_id;
  event_id = e.event_id;
  conversation_seq = e.seq;
  conversation_id = e.conversation_id;
  character = t.character;
  generation = t.binding_generation;
  config_version = t.config_version;
  data_generation = c.data_generation;
}

abbrev pub resume_audit : Turn → ℕ → Audit
resume_audit t wall = record {
  created_at = wall;
  action = ReviewAction.resume_generation;
  target_id = t.turn_id;
}

-- A message event, by its turn: a new one, that of an interrupted generation, or that of a reply
-- that waits in the outbox.
unfoldable pub start_turn :
    Option Turn → Db → Conversation → Event → Inbound → String → String → ℕ → Db × Option Work
start_turn none db c e inbound config_version turn_id wall =
    let t = new_turn c turn_id config_version in
    (
      update_event e.event_id (start_event t (some (received t inbound))) db,
      some (Work.turn (context_of c t e) inbound e.outbox),
    )
start_turn (some t) db c e inbound config_version turn_id wall =
    let resumed = resume_turn config_version t in
    if is_queued e.state
    then (
      record (update_event e.event_id (start_event resumed e.user_message) db) {
        audit = db.audit ++ resume_audit t wall ∷ [];
      },
      some (Work.turn (context_of c resumed e) inbound e.outbox),
    )
    else (db, some (Work.turn (context_of c t e) inbound e.outbox))

abbrev bind_to : CharacterSnapshot → Conversation → Conversation
bind_to card c = record c { character = card; generation = c.generation + 1 }

abbrev pub complete_event : Event → Event
complete_event e = record e { state = EventState.completed }

abbrev pub conflict_event : Event → Event
conflict_event e = record e { state = EventState.failed; error_code = "memory_revision_conflict" }

abbrev pub apply_binding : Db → String → CharacterSnapshot → Db
apply_binding db cid card = record db {
  conversations = update_where (λ c. str_eq c.conversation_id cid) (bind_to card) db.conversations;
}

-- The fresh identifiers that a call of `next_work` may use.
pub record Ids : Type 0 where
  pub turn_id : String
  pub outbox_id : String

-- What the inbox needs of runtime_v2/memories.py: `apply` is `apply_change` on a queued change,
-- `none` its `InvalidMemoryChange`. It writes the tables of the memories alone.
pub record Memories : Type 0 where
  pub apply : Db → Event → Option Db
  pub inbox-apply : (db db' : Db) (e : Event) → apply db e ≡ some db' → db'.inbox ≡ db.inbox
  pub audit-apply : (db db' : Db) (e : Event) → apply db e ≡ some db' → db'.audit ≡ db.audit

module _ (os : Platform) (memories : Memories) where
  -- The tables of followups.py are empty here, so that `prepare` of a follow-up raises; so does
  -- `_envelope` on the empty payload of an erased event.
  unfoldable pub work_on :
      Kind
      → Db
      → Conversation
      → Event
      → String
      → (String → Bool)
      → ℕ
      → ℕ
      → Ids
      → Result (Db × Option Work)
  work_on Kind.reminder_due db c e config_version enabled now wall ids = do
    (db', o) ← prepare os db e enabled now config_version ids.turn_id ids.outbox_id
    ok (db', some (elim o [ none ↦ Work.applied | some o ↦ Work.due o ]))
  work_on Kind.followup_due db c e config_version enabled now wall ids = err occurrence_missing
  work_on Kind.erased db c e config_version enabled now wall ids = err erased_content
  work_on (Kind.memory _) db c e config_version enabled now wall ids = ok (
    elim (memories.apply db e) [
      | none ↦ update_event e.event_id conflict_event db
      | some db' ↦ update_event e.event_id complete_event db'
    ],
    some Work.applied,
  )
  work_on (Kind.binding card) db c e config_version enabled now wall ids = ok (
    update_event e.event_id complete_event (apply_binding db e.conversation_id card),
    some Work.applied,
  )
  work_on (Kind.message inbound) db c e config_version enabled now wall ids =
      ok (start_turn e.turn db c e inbound config_version ids.turn_id wall)

  unfoldable pub next_work :
      Db → String → String → (String → Bool) → ℕ → ℕ → Ids → Result (Db × Option Work)
  next_work db cid config_version enabled now wall ids = elim (conversation_of db cid) [
    | none ↦ ok (db, none)
    | some c ↦ if not c.active then ok (db, none) else elim (head_of cid db.inbox) [
      | none ↦ ok (db, none)
      | some e ↦
          if not (is_ready e.state)
          then ok (db, none)
          else work_on e.kind db c e config_version enabled now wall ids
    ]
  ]

-- The fields of an `OutboundMessage` that the outbox looks at.
pub record Reply : Type 0 where
  pub person : Bool
  pub launcher_id : String
  pub text : String
  pub has_images : Bool

-- `require_current` of privacy.py: the conversation is there, active, and not erased since.
unfoldable pub require_current : Db → Context → Result (Unit {0})
require_current db context = do
  c ← from_option stale_work (conversation_of db context.conversation_id)
  require ((c.data_generation == context.data_generation) && c.active) stale_work

abbrev pub is_generating : EventState → Bool
is_generating EventState.generating = true
is_generating _ = false

abbrev pub has_none : Option Outbox → Bool
has_none none = true
has_none (some _) = false

unfoldable pub propose_event : Outbox → Event → Event
propose_event o e = record e {
  outbox = some o;
  turn = elim e.turn [
    | none ↦ none
    | some t ↦ some (record t { state = TurnState.awaiting_delivery })
  ];
  state = EventState.outbox_ready;
}

-- The outbox row is UNIQUE for its event: a second one is refused.
unfoldable pub save_proposal : Db → Context → Reply → String → Result (Db × Outbox)
save_proposal db context reply outbox_id = do
  require (reply.person && str_eq reply.launcher_id context.conversation_id) target_mismatch
  require (not reply.has_images) images_unsupported
  require_current db context
  e ← from_option proposal_refused (find (λ r. str_eq r.event_id context.event_id) db.inbox)
  require (is_generating e.state && has_none e.outbox) proposal_refused
  let o = new_outbox outbox_id reply.launcher_id reply.text
  ok (update_event context.event_id (propose_event o) db, o)
