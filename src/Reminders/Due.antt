-- ===== src/Reminders/Due.antt =====
-- runtime_v2/reminders.py: a due occurrence on its way to the outbox (`task_for_event`, `prepare`,
-- `before_dispatch`, `delivery_result`), and `reconcile_contact`.
use Prim.Native.String.{◌++◌}
use openqqwaifu.Prelude.{
  ℕ, ◌-◌, ◌/◌, ◌==◌, String, Bool, true, false, Option, none, some, List, [], ◌∷◌, str_eq, ◌&&◌,
  not, ltb, leb, if◌then◌else◌, find, update_where, select,
}
use openqqwaifu.Result.{Result, ok, occurrence_missing, from_option, ◌>>=◌}
use openqqwaifu.Platform.{Platform}
use openqqwaifu.Tables.{
  Event, EventState, Turn, TurnState, Outbox, SendState, Task, TaskState, Occurrence, Db,
  update_event, second,
}
use openqqwaifu.Reminders.{
  is_task, is_enqueued, is_waiting, eligibility, invalidate, contact_blocked,
}

abbrev pub task_of : Db → Occurrence → Option Task
task_of db o = find (is_task o.task_id) db.tasks

-- The occurrence of an event with its task.
unfoldable pub task_for_event : Db → Event → Option (Task × ℕ)
task_for_event db e = elim e.occurrence [
  | none ↦ none
  | some o ↦ elim (task_of db o) [ none ↦ none | some t ↦ some (t, o.task_version) ]
]

-- The occurrence belongs to the task as it stands, which waits in the inbox.
abbrev pub is_current : Task → ℕ → Bool
is_current task task_version = (task_version == task.version) && is_enqueued task.state

abbrev set_task_state : TaskState → ℕ → Task → Task
set_task_state state now t = record t { state = state; updated_at = now }

-- UPDATE reminder_tasks SET state=?,updated_at=? WHERE task_id=?
abbrev pub mark_task : Db → String → TaskState → ℕ → Db
mark_task db task_id state now = record db {
  tasks = update_where (is_task task_id) (set_task_state state now) db.tasks;
}

-- Stop what is not eligible or not allowed now; the answer is whether the task may go on.
unfoldable pub clear_to_go : Platform → Db → Task → (String → Bool) → ℕ → Result (Db × Bool)
clear_to_go os db task enabled now = elim (eligibility db task enabled now) [
  | some (state, reason) ↦ ok (invalidate db task state reason now, false)
  | none ↦ do (db', blocked) ← contact_blocked os db task now; ok (db', not blocked)
]

unfoldable pub before_dispatch : Platform → Db → Event → (String → Bool) → ℕ → Result (Db × Bool)
unfolding task_for_event
before_dispatch os db e enabled now = elim (task_for_event db e) [
  | none ↦ ok (db, true)
  | some (task, task_version) ↦ if not (is_current task task_version) then ok (db, false) else do
    (db', go) ← clear_to_go os db task enabled now
    ok (if go then mark_task db' task.task_id TaskState.dispatching now else db', go)
]

-- {"accepted": "completed", …}[status]
abbrev pub result_state : SendState → TaskState
result_state SendState.accepted = TaskState.completed
result_state SendState.captured = TaskState.completed
result_state SendState.cancelled = TaskState.cancelled
result_state SendState.pending = TaskState.enqueued
result_state _ = TaskState.needs_review

unfoldable pub delivery_result : Db → Event → SendState → ℕ → Db
delivery_result db e status now = elim e.occurrence [
  | none ↦ db
  | some o ↦ mark_task db o.task_id (result_state status) now
]

-- late // 60, in minutes, of the whole seconds that the reminder is late
abbrev late_minutes : ℕ → ℕ → ℕ
late_minutes now due_at = (now - due_at) / second / 60

abbrev pub reminder_text : Platform → ℕ → Task → String
reminder_text os now task =
    let late = late_minutes now task.due_at in
    if leb 1 late
    then ("提醒（已延迟 " ++ os.decimal late) ++ (" 分钟）：" ++ task.text)
    else "提醒：" ++ task.text

abbrev pub new_outbox : String → String → String → Outbox
new_outbox outbox_id launcher_id text = record {
  outbox_id = outbox_id;
  launcher_id = launcher_id;
  text = text;
  state = SendState.pending;
  platform_message_id = "";
  attempts = 0;
  error_code = "";
  erased = false;
  delivery_attempts = [];
}

abbrev pub reminder_turn : Task → String → String → Turn
reminder_turn task turn_id config_version = record {
  turn_id = turn_id;
  character = task.character;
  binding_generation = task.binding_generation;
  config_version = config_version;
  state = TurnState.awaiting_delivery;
  attempts = 1;
}

abbrev pub ready_event : Turn → Outbox → Event → Event
ready_event turn outbox e = record e {
  turn = some turn;
  outbox = some outbox;
  state = EventState.outbox_ready;
}

abbrev pub stale_event : Event → Event
stale_event e = record e { state = EventState.cancelled; error_code = "stale_reminder" }

-- `turn_id` and `outbox_id` are the fresh identifiers of the two new rows.
unfoldable pub prepare :
    Platform
    → Db
    → Event
    → (String → Bool)
    → ℕ
    → String
    → String
    → String
    → Result (Db × Option Outbox)
unfolding task_for_event
prepare os db e enabled now config_version turn_id outbox_id = do
  (task, task_version) ← from_option occurrence_missing (task_for_event db e)
  if not (is_current task task_version)
      then ok (update_event e.event_id stale_event db, none)
      else do
        (db', go) ← clear_to_go os db task enabled now
        if not go then ok (db', none) else elim e.outbox [
          | some o ↦ ok (db', some o)
          | none ↦
              let o = new_outbox outbox_id e.conversation_id (reminder_text os now task) in
              let turn = reminder_turn task turn_id config_version in
              ok (update_event e.event_id (ready_event turn o) db', some o)
        ]

-- One round of the loop of `reconcile_contact`.
unfoldable pub reconcile_task : Platform → ℕ → Task → Db → Result Db
reconcile_task os now task db =
    if ltb task.expires_at now
    then ok (invalidate db task TaskState.expired "missed_window" now)
    else if leb task.due_at now
    then (do (db', _) ← contact_blocked os db task now; ok db')
    else ok db

-- The loop, over the rows as they were read.
unfoldable pub reconcile_tasks : Platform → ℕ → List Task → Db → Result Db
reconcile_tasks os now [] db = ok db
reconcile_tasks os now (task ∷ tasks) db = do
  db' ← reconcile_task os now task db
  reconcile_tasks os now tasks db'

unfoldable pub reconcile_contact : Platform → Db → String → ℕ → Result Db
reconcile_contact os db cid now =
    reconcile_tasks os now
      (select (λ t. str_eq t.conversation_id cid && is_waiting t.state) db.tasks) db
