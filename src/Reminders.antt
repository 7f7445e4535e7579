-- ===== src/Reminders.antt =====
-- runtime_v2/reminders.py: a reminder task, the inbox event of its due occurrence, and what stops it.
pub mod Due
pub mod Tick
pub mod Counts
pub mod Bounds
use text.Mathlib.Text.{starts_with}
use openqqwaifu.Prelude.{
  ℕ, ◌+◌, ◌==◌, String, Bool, true, false, Option, none, some, List, str_eq, ◌&&◌, ◌||◌, not, ltb,
  if◌then◌else◌, find, any, update_where,
}
use openqqwaifu.Result.{Result, ok, ◌>>=◌}
use openqqwaifu.Platform.{Platform}
use openqqwaifu.Tables.{
  Conversation, Event, EventState, Kind, Turn, TurnState, Outbox, SendState, Task, TaskState,
  Occurrence, MemoryRecord, MemoryState, Db, conversation_of,
}
use openqqwaifu.Contact.Decision.{Decision, for_task}

-- (task_id, task_version) of a `reminder_occurrences` row
abbrev pub occurs : Task → Option Occurrence → Bool
occurs task none = false
occurs task (some o) = str_eq o.task_id task.task_id && (o.task_version == task.version)

abbrev pub is_live_turn : TurnState → Bool
is_live_turn TurnState.generating = true
is_live_turn TurnState.planned = true
is_live_turn TurnState.awaiting_delivery = true
is_live_turn _ = false

abbrev pub is_workable : EventState → Bool
is_workable EventState.queued = true
is_workable EventState.generating = true
is_workable EventState.outbox_ready = true
is_workable _ = false

abbrev pub is_queued : EventState → Bool
is_queued EventState.queued = true
is_queued _ = false

abbrev pub is_pending : SendState → Bool
is_pending SendState.pending = true
is_pending _ = false

unfoldable pub cancel_outbox : String → Option Outbox → Option Outbox
cancel_outbox reason none = none
cancel_outbox reason (some o) = some (
    if is_pending o.state then record o { state = SendState.cancelled; error_code = reason } else o)

unfoldable pub cancel_turn : Option Turn → Option Turn
cancel_turn none = none
cancel_turn (some t) =
    some (if is_live_turn t.state then record t { state = TurnState.cancelled } else t)

-- The first three updates of `invalidate`, on one event that the task occurs in.
unfoldable pub cancel_event : String → Event → Event
unfolding cancel_outbox cancel_turn
cancel_event reason e =
    let e' = record e { outbox = cancel_outbox reason e.outbox; turn = cancel_turn e.turn } in
    if is_workable e.state
    then record e' { state = EventState.cancelled; error_code = reason }
    else e'

abbrev pub is_task : String → Task → Bool
is_task task_id t = str_eq t.task_id task_id

abbrev retire : TaskState → String → ℕ → Task → Task
retire state reason now t = record t {
  state = state;
  reason = reason;
  version = t.version + 1;
  updated_at = now;
}

unfoldable pub invalidate : Db → Task → TaskState → String → ℕ → Db
unfolding cancel_event
invalidate db task state reason now = record db {
  inbox = update_where (λ e. occurs task e.occurrence) (cancel_event reason) db.inbox;
  tasks =
      update_where (λ t. is_task task.task_id t && (t.version == task.version))
        (retire state reason now) db.tasks;
}

-- A queued change of the memory record that the task is linked to.
abbrev changes_memory : String → String → Event → Bool
changes_memory cid memory_id e = elim e.kind [
  | Kind.memory target ↦
      str_eq e.conversation_id cid && (is_queued e.state && str_eq target memory_id)
  | _ ↦ false
]

abbrev is_closed : MemoryState → Bool
is_closed MemoryState.withdrawn = true
is_closed MemoryState.completed = true
is_closed MemoryState.cancelled = true
is_closed _ = false

abbrev pub memory_of : Db → String → String → String → Option MemoryRecord
memory_of db memory_id cid character_id =
    find
      (λ m.
        str_eq m.memory_id memory_id
        && (str_eq m.conversation_id cid && str_eq m.character_id character_id))
      db.memories

-- The part of `eligibility` for a task that is linked to a memory record.
unfoldable pub linked : Db → Task → Option (TaskState × String)
linked db task =
    if any (changes_memory task.conversation_id task.linked_memory_id) db.inbox
    then some (TaskState.paused, "linked_episode_change_pending")
    else elim (memory_of db task.linked_memory_id task.conversation_id
        task.character.character_id) [
          | none ↦ some (TaskState.cancelled, "linked_episode_closed")
          | some m ↦
              if is_closed m.state
              then some (TaskState.cancelled, "linked_episode_closed")
              else if m.version == task.linked_memory_version
              then none
              else some (TaskState.paused, "linked_episode_changed")
        ]

abbrev pub bound_to : Conversation → Task → Bool
bound_to c task =
    str_eq c.character.character_id task.character.character_id
    && (c.generation == task.binding_generation)

-- `none` for an eligible task, else the state to put it in and the reason.
unfoldable pub eligibility : Db → Task → (String → Bool) → ℕ → Option (TaskState × String)
unfolding linked
eligibility db task enabled now =
    if task.cancel_requested
    then some (TaskState.cancelled, "cancellation_requested")
    else if ltb task.expires_at now
    then some (TaskState.expired, "missed_window")
    else if not (enabled task.conversation_id)
    then some (TaskState.paused, "reminders_disabled")
    else elim (conversation_of db task.conversation_id) [
      | none ↦ some (TaskState.paused, "binding_changed")
      | some c ↦
          if not (bound_to c task)
          then some (TaskState.paused, "binding_changed")
          else if str_eq task.linked_memory_id ""
          then none
          else linked db task
    ]

abbrev same_time : Option ℕ → Option ℕ → Bool
same_time none none = true
same_time (some a) (some b) = a == b
same_time _ _ = false

abbrev pub is_enqueued : TaskState → Bool
is_enqueued TaskState.enqueued = true
is_enqueued _ = false

-- reason='', deferred_until=NULL
abbrev clear_reason : Task → Task
clear_reason t = record t { reason = ""; deferred_until = none }

abbrev defer : Decision → ℕ → Task → Task
defer d now t = record t { reason = d.reason; deferred_until = d.next_at; updated_at = now }

abbrev set_tasks : Db → List Task → Db
set_tasks db ts = record db { tasks = ts }

-- What `contact_blocked` writes after a refusal.
unfoldable pub postpone : Db → Task → Decision → ℕ → Db
unfolding invalidate
postpone db task d now =
    let db' =
      if is_enqueued task.state then invalidate db task TaskState.scheduled d.reason now else db in
    set_tasks db' (
      update_where
        (λ t.
          is_task task.task_id t
          && (not (str_eq t.reason d.reason) || not (same_time t.deferred_until d.next_at)))
        (defer d now) db'.tasks)

unfoldable pub contact_blocked : Platform → Db → Task → ℕ → Result (Db × Bool)
unfolding postpone
contact_blocked os db task now = do
  d ← for_task os db task now
  if d.allowed
      then ok (
        if starts_with task.reason "contact_"
            then set_tasks db (update_where (is_task task.task_id) clear_reason db.tasks)
            else db,
        false,
      )
      else ok (postpone db task d now, true)

abbrev pub is_waiting : TaskState → Bool
is_waiting TaskState.scheduled = true
is_waiting TaskState.enqueued = true
is_waiting _ = false
