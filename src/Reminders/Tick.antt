-- ===== src/Reminders/Tick.antt =====
-- `tick` of runtime_v2/reminders.py: due tasks become inbox events.
use openqqwaifu.Prelude.{
  ℕ, ◌+◌, ◌==◌, String, Bool, true, false, none, some, List, [], ◌∷◌, ◌++◌, str_eq, ◌&&◌, ◌||◌, not,
  ltb, leb, if◌then◌else◌, any, select, map, update_where,
}
use openqqwaifu.Result.{Result, ok, ◌>>=◌}
use openqqwaifu.Platform.{Platform}
use openqqwaifu.Tables.{Event, EventState, Kind, Source, Task, TaskState, Db, pending_count}
use openqqwaifu.Inbox.{take_seq}
use openqqwaifu.Reminders.{
  is_task, is_enqueued, is_waiting, eligibility, invalidate, contact_blocked,
}

-- ORDER BY due_at,id
abbrev pub before : Task → Task → Bool
before a b = ltb a.due_at b.due_at || ((a.due_at == b.due_at) && leb a.id b.id)

unfoldable pub insert_task : Task → List Task → List Task
insert_task t [] = t ∷ []
insert_task t (x ∷ xs) = let rest = insert_task t xs in if before t x then t ∷ x ∷ xs else x ∷ rest

unfoldable pub order_tasks : List Task → List Task
unfolding insert_task
order_tasks [] = []
order_tasks (t ∷ ts) = insert_task t (order_tasks ts)

-- state IN ('enqueued','dispatching','needs_review')
abbrev pub is_active : TaskState → Bool
is_active TaskState.enqueued = true
is_active TaskState.dispatching = true
is_active TaskState.needs_review = true
is_active _ = false

abbrev pub mem : String → List String → Bool
mem s xs = any (str_eq s) xs

abbrev pub discard : String → List String → List String
discard s xs = select (λ x. not (str_eq s x)) xs

-- The loop's variables; `pending` of the source is `pending - freed`.
pub record Loop : Type 0 where
  pub db : Db
  pub pending : ℕ
  pub freed : ℕ
  pub active : List String
  pub made : ℕ

abbrev pub set_db : Loop → Db → Loop
set_db s db = record s { db = db }

-- active.discard(…); pending -= 1, for a task that was enqueued
abbrev pub free : Task → Loop → Loop
free task s =
    if is_enqueued task.state
    then record s { active = discard task.conversation_id s.active; freed = s.freed + 1 }
    else s

abbrev pub due_event : Task → String → ℕ → ℕ → Event
due_event task event_id seq now = record {
  event_id = event_id;
  conversation_id = task.conversation_id;
  seq = seq;
  source_id = some (Source.from_reminder task.task_id task.version);
  kind = Kind.reminder_due;
  received_at = now;
  state = EventState.queued;
  error_code = "";
  turn = none;
  outbox = none;
  occurrence = some (record { task_id = task.task_id; task_version = task.version });
  user_message = none;
  assistant_message = none;
}

abbrev pub enqueue_task : ℕ → Task → Task
enqueue_task now t = record t {
  state = TaskState.enqueued;
  reason = "";
  deferred_until = none;
  updated_at = now;
}

unfoldable pub enqueue : (ℕ → String) → ℕ → Task → Loop → Result Loop
enqueue uuid now task s = do
  (db, seq) ← take_seq s.db task.conversation_id
  ok (record {
    db = record db {
      inbox = db.inbox ++ due_event task (uuid s.made) seq now ∷ [];
      tasks = update_where (is_task task.task_id) (enqueue_task now) db.tasks;
    };
    pending = s.pending + 1;
    freed = s.freed;
    active = task.conversation_id ∷ s.active;
    made = s.made + 1;
  })

abbrev pub is_scheduled : TaskState → Bool
is_scheduled TaskState.scheduled = true
is_scheduled _ = false

-- The tests after `contact_blocked`.
unfoldable pub offer : (ℕ → String) → ℕ → ℕ → Task → Loop → Result Loop
offer uuid now max_pending task s =
    if not (is_scheduled task.state) || (ltb now task.due_at || mem task.conversation_id s.active)
    then ok s
    else if leb (max_pending + s.freed) s.pending || leb 32 s.made
    then ok s
    else enqueue uuid now task s

unfoldable pub tick_task :
    Platform → (String → Bool) → (ℕ → String) → ℕ → ℕ → Task → Loop → Result Loop
tick_task os enabled uuid now max_pending task s = elim (eligibility s.db task enabled now) [
  | some (state, reason) ↦ ok (free task (set_db s (invalidate s.db task state reason now)))
  | none ↦
      if leb task.due_at now
      then (do
        (db, blocked) ← contact_blocked os s.db task now
        if blocked
            then ok (free task (set_db s db))
            else offer uuid now max_pending task (set_db s db))
      else offer uuid now max_pending task s
]

unfoldable pub tick_loop :
    Platform → (String → Bool) → (ℕ → String) → ℕ → ℕ → List Task → Loop → Result Loop
tick_loop os enabled uuid now max_pending [] s = ok s
tick_loop os enabled uuid now max_pending (task ∷ tasks) s = do
  s' ← tick_task os enabled uuid now max_pending task s
  tick_loop os enabled uuid now max_pending tasks s'

abbrev pub loop_start : Db → Loop
loop_start db = record {
  db = db;
  pending = pending_count db;
  freed = 0;
  active = map (λ t. t.conversation_id) (select (λ t. is_active t.state) db.tasks);
  made = 0;
}

unfoldable pub tick : Platform → (String → Bool) → (ℕ → String) → ℕ → ℕ → Db → Result (Db × ℕ)
tick os enabled uuid now max_pending db = do
  s ←
      tick_loop os enabled uuid now max_pending
        (order_tasks (select (λ t. is_waiting t.state) db.tasks)) (loop_start db)
  ok (s.db, s.made)
