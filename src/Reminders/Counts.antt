-- ===== src/Reminders/Counts.antt =====
-- Rows of the inbox and enqueued tasks, counted through the operations that `tick` calls.
use openqqwaifu.Prelude.{
  ℕ, ◌+◌, ◌≡◌, refl, inl, inr, String, Bool, List, [], ◌∷◌, arith, length, length-update_where,
  count_where, select, Bool-cases,
}
use openqqwaifu.Result.{Ensures, Ensures-bind, Ensures-if, from_option, unknown_conversation}
use openqqwaifu.Platform.{Platform}
use openqqwaifu.Tables.{Task, TaskState, Db, conversation_of}
use openqqwaifu.Contact.Decision.{Decision, for_task}
use openqqwaifu.Inbox.{take_seq}
use openqqwaifu.Reminders.{
  is_waiting, is_enqueued, invalidate, contact_blocked, postpone, occurs, cancel_event,
}
use openqqwaifu.Reminders.Tick.{order_tasks, insert_task, before}

abbrev pub rows : Db → ℕ
rows db = length db.inbox

abbrev pub enqueued : List Task → ℕ
enqueued ts = count_where (λ t. is_enqueued t.state) ts

pub rows-invalidate :
    (db : Db) (task : Task) (state : TaskState) (reason : String) (now : ℕ)
    → rows (invalidate db task state reason now) ≡ rows db
unfolding invalidate
rows-invalidate db task state reason now =
    length-update_where (λ e. occurs task e.occurrence) (cancel_event reason) db.inbox

rows-postpone :
    (db : Db) (task : Task) (d : Decision) (now : ℕ) → rows (postpone db task d now) ≡ rows db
unfolding postpone
rows-postpone db task d now =
    ground (arith, rows-invalidate db task TaskState.scheduled d.reason now)

pub rows-contact_blocked :
    (os : Platform) (db : Db) (task : Task) (now : ℕ)
    → Ensures (λ (r : Db × Bool). rows r.0 ≡ rows db) (contact_blocked os db task now)
unfolding contact_blocked
rows-contact_blocked os db task now =
    let Q = λ (r : Db × Bool). rows r.0 ≡ rows db in
    Ensures-bind Q (for_task os db task now) _
      λ d _. Ensures-if Q d.allowed _ _ (λ _. ground arith) (λ _. rows-postpone db task d now)

pub rows-take_seq :
    (db : Db) (cid : String) → Ensures (λ (r : Db × ℕ). rows r.0 ≡ rows db) (take_seq db cid)
unfolding take_seq
rows-take_seq db cid =
    Ensures-bind (λ (r : Db × ℕ). rows r.0 ≡ rows db)
      (from_option unknown_conversation (conversation_of db cid)) _ (λ c _. refl)

enqueued-cons : (t : Task) (ts : List Task) → enqueued (t ∷ ts) ≡ enqueued (t ∷ []) + enqueued ts
enqueued-cons t ts = ground arith

enqueued-insert_task : (t : Task) (ts : List Task) → enqueued (insert_task t ts) ≡ enqueued (t ∷ ts)
unfolding insert_task
enqueued-insert_task t [] = refl
enqueued-insert_task t (x ∷ xs) = elim (Bool-cases (before t x)) [
  | inl b ↦ rw b refl
  | inr b ↦ rw b (
      omega (
        arith,
        enqueued-insert_task t xs,
        enqueued-cons x (insert_task t xs),
        enqueued-cons t xs,
        enqueued-cons t (x ∷ xs),
        enqueued-cons x xs,
      ))
]

pub enqueued-order_tasks : (ts : List Task) → enqueued (order_tasks ts) ≡ enqueued ts
unfolding order_tasks
enqueued-order_tasks [] = refl
enqueued-order_tasks (t ∷ ts) = omega (
  arith,
  enqueued-insert_task t (order_tasks ts),
  enqueued-order_tasks ts,
  enqueued-cons t (order_tasks ts),
  enqueued-cons t ts,
)

pub enqueued-select :
    (ts : List Task) → enqueued (select (λ t. is_waiting t.state) ts) ≡ enqueued ts
enqueued-select [] = refl
enqueued-select (t ∷ ts) = ground (arith, enqueued-select ts)
