-- ===== src/Delivery.antt =====
-- runtime_v2/store.py: the outbox. `begin_dispatch` stands before an external send, `finish_delivery`
-- after it, `resolve_delivery` is a person's review, `recover` runs when the program starts.
-- The database of the model has no follow-up candidates, so that the calls of followups.py do nothing.
pub mod Review
pub mod Recovery
pub mod Attempts
pub mod Kept
pub mod Steps
pub mod Retry
pub mod Inflow
pub mod Work
pub mod Trace
pub mod Once
pub mod Restart
pub mod Outcome
pub mod Permitted
use openqqwaifu.Prelude.{
  ℕ, ◌+◌, ◌==◌, String, Bool, true, false, Option, none, some, List, [], ◌∷◌, ◌++◌, str_eq, ◌&&◌,
  ◌||◌, not, any, if◌then◌else◌, find, update_where,
}
use openqqwaifu.Result.{
  Result, ok, err, invalid_status, mode_mismatch, not_dispatching, not_reviewable, delivery_changed,
  erased_content, reminder_changed, contact_refused, rejected_not_sent, from_option, require, ◌>>=◌,
  ◌>>◌,
}
use openqqwaifu.Platform.{Platform}
use openqqwaifu.Tables.{
  Event, EventState, Turn, TurnState, Outbox, SendState, Attempt, Message, Task, Audit,
  ReviewAction, ContactAttempt, Db, set_inbox, update_event,
}
use openqqwaifu.Reminders.{is_pending, eligibility}
use openqqwaifu.Reminders.Due.{task_for_event, before_dispatch, delivery_result}
use openqqwaifu.Contact.Decision.{policy, for_task}

-- A live database sends to the platform, a capture database records what it would send.
pub data Mode : Type 0 where
  live capture : Mode

abbrev pub is_dispatching : SendState → Bool
is_dispatching SendState.dispatching = true
is_dispatching _ = false

abbrev pub has_outbox : String → Event → Bool
has_outbox outbox_id e = elim e.outbox [ none ↦ false | some o ↦ str_eq o.outbox_id outbox_id ]

-- SELECT … WHERE outbox_id=?
abbrev pub event_of : Db → String → Option Event
event_of db outbox_id = find (has_outbox outbox_id) db.inbox

abbrev pub map_outbox : (Outbox → Outbox) → Event → Event
map_outbox f e = record e { outbox = elim e.outbox [ none ↦ none | some o ↦ some (f o) ] }

abbrev pub map_turn : (Turn → Turn) → Event → Event
map_turn f e = record e { turn = elim e.turn [ none ↦ none | some t ↦ some (f t) ] }

-- The new attempt's row, and the outbox row that counts it.
unfoldable pub start_attempt : ℕ → Outbox → Outbox
start_attempt now o =
    if is_pending o.state
    then record o {
      state = SendState.dispatching;
      attempts = o.attempts + 1;
      delivery_attempts =
          o.delivery_attempts
          ++ record {
            attempt = o.attempts + 1;
            started_at = now;
            finished_at = none;
            state = SendState.dispatching;
          }
            ∷ [];
    }
    else o

abbrev new_contact : Task → String → Outbox → ℕ → ℕ → ContactAttempt
new_contact task outbox_id o now version = record {
  conversation_id = task.conversation_id;
  outbox_id = outbox_id;
  attempt = o.attempts + 1;
  kind = "reminder";
  started_at = now;
  policy_version = version;
}

-- INSERT INTO contact_attempts, for a reminder
unfoldable pub record_contact : Db → Event → String → Outbox → ℕ → Result Db
record_contact db e outbox_id o now = elim (task_for_event db e) [
  | none ↦ ok db
  | some (task, _) ↦ do
    p ← policy db task.conversation_id
    ok (record db {
      contact_attempts = db.contact_attempts ++ new_contact task outbox_id o now p.version ∷ [];
    })
]

-- The outbox row that may be sent.
abbrev pub sendable : Event → Option Outbox
sendable e = elim e.outbox [
  | none ↦ none
  | some o ↦ if is_pending o.state && not o.erased then some o else none
]

abbrev pub has_pending : Event → Bool
has_pending e = elim e.outbox [ none ↦ false | some o ↦ is_pending o.state ]

-- The row of an outbox message, with its event and turn: the keys of the three rows go together.
abbrev pub update_sent : String → (Event → Event) → Db → Db
update_sent outbox_id f db = set_inbox db (update_where (has_outbox outbox_id) f db.inbox)

abbrev pub dispatch_row : String → ℕ → Db → Db
dispatch_row outbox_id now db = update_sent outbox_id (map_outbox (start_attempt now)) db

-- The UPDATE has its own test of the state, after `before_dispatch`.
unfoldable pub commit_dispatch : Db → Event → String → Outbox → ℕ → Result (Db × Bool)
commit_dispatch db e outbox_id o now =
    if any (λ r. has_outbox outbox_id r && has_pending r) db.inbox
    then (do db' ← record_contact (dispatch_row outbox_id now db) e outbox_id o now; ok (db', true))
    else ok (db, false)

unfoldable pub begin_dispatch : Platform → Db → String → (String → Bool) → ℕ → Result (Db × Bool)
begin_dispatch os db outbox_id enabled now = elim (event_of db outbox_id) [
  | none ↦ ok (db, false)
  | some e ↦ elim (sendable e) [
    | none ↦ ok (db, false)
    | some o ↦ do
      (db', go) ← before_dispatch os db e enabled now
      if go then commit_dispatch db' e outbox_id o now else ok (db', false)
  ]
]

-- The state of the inbox row after a delivery, and that of the turn.
abbrev pub outcome_state : Bool → SendState → EventState
outcome_state erased SendState.accepted = EventState.completed
outcome_state erased SendState.captured = EventState.completed
outcome_state true SendState.rejected = EventState.cancelled
outcome_state erased _ = EventState.needs_review

abbrev pub outcome_turn : Bool → SendState → TurnState
outcome_turn erased SendState.accepted = TurnState.finished
outcome_turn erased SendState.captured = TurnState.finished
outcome_turn true SendState.rejected = TurnState.cancelled
outcome_turn erased _ = TurnState.needs_review

abbrev pub is_delivered : SendState → Bool
is_delivered SendState.accepted = true
is_delivered SendState.captured = true
is_delivered _ = false

abbrev pub close_attempt : SendState → ℕ → Attempt → Attempt
close_attempt status wall a = record a { state = status; finished_at = some wall }

abbrev pub deliver_outbox : SendState → String → String → ℕ → ℕ → Outbox → Outbox
deliver_outbox status platform_id error_code last wall o = record o {
  state = status;
  platform_message_id = platform_id;
  error_code = error_code;
  delivery_attempts =
      update_where (λ a. a.attempt == last) (close_attempt status wall) o.delivery_attempts;
}

-- INSERT OR IGNORE INTO messages
abbrev reply_message : SendState → Outbox → Event → Option Message
reply_message status o e = elim e.assistant_message [
  | some m ↦ some m
  | none ↦
      if is_delivered status && not o.erased
      then elim e.turn [
        | none ↦ none
        | some t ↦ some (record {
          character_id = t.character.character_id;
          content = o.text;
          delivery_state = some status;
        })
      ]
      else none
]

-- The updates of `_commit_delivery`, in the row of the event whose outbox row is `o`.
unfoldable pub deliver_event : SendState → String → String → ℕ → Outbox → Event → Event
deliver_event status platform_id error_code wall o e =
    let sent = map_outbox (deliver_outbox status platform_id error_code o.attempts wall) e in
    let turned = map_turn (λ t. record t { state = outcome_turn o.erased status }) sent in
    record turned {
      state = outcome_state o.erased status;
      error_code = error_code;
      assistant_message = reply_message status o e;
    }

unfoldable pub commit_delivery : Db → Event → Outbox → SendState → String → String → ℕ → ℕ → Db
commit_delivery db e o status platform_id error_code now wall =
    delivery_result
      (update_sent o.outbox_id (deliver_event status platform_id error_code wall o) db) e status now

abbrev pub is_status : SendState → Bool
is_status SendState.accepted = true
is_status SendState.captured = true
is_status SendState.unknown = true
is_status SendState.rejected = true
is_status _ = false

-- What an accepted message is called in the database's mode.
abbrev pub sent_state : Mode → SendState
sent_state Mode.live = SendState.accepted
sent_state Mode.capture = SendState.captured

pub SendState-discrete : Discrete SendState
SendState-discrete = hlevel

abbrev pub same_state : SendState → SendState → Bool
same_state a b = elim (SendState-discrete a b) [ yes _ ↦ true | no _ ↦ false ]

-- The outbox row with its event.
abbrev pub sent_row : Db → String → Option (Event × Outbox)
sent_row db outbox_id = elim (event_of db outbox_id) [
  | none ↦ none
  | some e ↦ elim e.outbox [ none ↦ none | some o ↦ some (e, o) ]
]

unfoldable pub finish_delivery :
    Mode → Db → String → SendState → String → String → ℕ → ℕ → Result Db
unfolding SendState-discrete
finish_delivery mode db outbox_id status platform_id error_code now wall = do
  require (is_status status) invalid_status
  require (not (is_delivered status) || same_state status (sent_state mode)) mode_mismatch
  (e, o) ← from_option not_dispatching (sent_row db outbox_id)
  require (is_dispatching o.state) not_dispatching
  ok (commit_delivery db e o status platform_id error_code now wall)
