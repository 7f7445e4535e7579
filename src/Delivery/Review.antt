-- ===== src/Delivery/Review.antt =====
-- `resolve_delivery` of runtime_v2/store.py: a person decides on an unknown or rejected delivery.
use openqqwaifu.Prelude.{
  ℕ, ◌==◌, String, Bool, true, false, Option, none, some, [], ◌∷◌, ◌++◌, ◌&&◌, not,
}
use openqqwaifu.Result.{
  Result, ok, not_reviewable, delivery_changed, erased_content, reminder_changed, contact_refused,
  rejected_not_sent, review_note_required, from_option, require, ◌>>=◌, ◌>>◌,
}
use openqqwaifu.Platform.{Platform, is_blank}
use openqqwaifu.Tables.{
  Event, EventState, TurnState, Outbox, SendState, TaskState, ReviewAction, Db,
}
use openqqwaifu.Reminders.{eligibility}
use openqqwaifu.Reminders.Due.{task_for_event, delivery_result}
use openqqwaifu.Contact.Decision.{for_task}
use openqqwaifu.Delivery.{
  Mode, sent_row, sent_state, same_state, commit_delivery, map_outbox, map_turn, update_sent,
}

abbrev pub is_reviewable : SendState → Bool
is_reviewable SendState.unknown = true
is_reviewable SendState.rejected = true
is_reviewable _ = false

abbrev is_eligible : Option (TaskState × String) → Bool
is_eligible none = true
is_eligible (some _) = false

-- A reminder may be sent again only while it is current, eligible and allowed.
unfoldable pub retry_reminder : Platform → Db → Event → (String → Bool) → ℕ → Result (Unit {0})
unfolding task_for_event
retry_reminder os db e enabled now = elim (task_for_event db e) [
  | none ↦ ok tt
  | some (task, task_version) ↦ do
    require
        ((task_version == task.version)
          && (not task.cancel_requested && is_eligible (eligibility db task enabled now)))
        reminder_changed
    d ← for_task os db task now
    require d.allowed contact_refused
]

abbrev pub reopen_outbox : SendState → Outbox → Outbox
reopen_outbox state o = record o { state = state; error_code = "" }

-- The updates of a retry or a discard in the event's row.
unfoldable pub reopen_event : SendState → EventState → TurnState → Event → Event
reopen_event send inbox turn e =
    let opened = map_outbox (reopen_outbox send) e in
    let turned = map_turn (λ t. record t { state = turn }) opened in
    record turned { state = inbox; error_code = "" }

-- What the action writes, before the audit row.
unfoldable pub review_effect :
    Platform
    → Mode
    → Db
    → String
    → Event
    → Outbox
    → ReviewAction
    → (String → Bool)
    → ℕ
    → ℕ
    → Result Db
review_effect os mode db outbox_id e o ReviewAction.confirm_sent enabled now wall = do
  require (not (same_state o.state SendState.rejected)) rejected_not_sent
  ok (commit_delivery db e o (sent_state mode) "" "" now wall)
review_effect os mode db outbox_id e o ReviewAction.retry enabled now wall = do
  require (not o.erased) erased_content
  retry_reminder os db e enabled now
  ok (
      delivery_result
        (update_sent outbox_id
          (reopen_event SendState.pending EventState.outbox_ready TurnState.awaiting_delivery) db)
        e SendState.pending now)
review_effect os mode db outbox_id e o _ enabled now wall = ok (
    delivery_result
      (update_sent outbox_id
        (reopen_event SendState.cancelled EventState.cancelled TurnState.cancelled) db)
      e SendState.cancelled now)

abbrev pub is_review : ReviewAction → Bool
is_review ReviewAction.resume_generation = false
is_review _ = true

abbrev pub matches : Option ℕ → ℕ → Bool
matches none n = true
matches (some m) n = n == m

abbrev pub matches_state : Option SendState → SendState → Bool
matches_state none s = true
matches_state (some t) s = same_state s t

abbrev pub add_audit : ReviewAction → String → ℕ → Db → Db
add_audit action outbox_id wall db = record db {
  audit = db.audit ++ record { created_at = wall; action = action; target_id = outbox_id } ∷ [];
}

unfoldable pub resolve_delivery :
    Platform
    → Mode
    → Db
    → String
    → ReviewAction
    → String
    → Option ℕ
    → Option SendState
    → (String → Bool)
    → ℕ
    → ℕ
    → Result Db
resolve_delivery os mode db outbox_id action note expected_attempts expected_state enabled now
      wall =
    do
      require (is_review action && not (is_blank os note)) review_note_required
      (e, o) ← from_option not_reviewable (sent_row db outbox_id)
      require (is_reviewable o.state) not_reviewable
      require (matches expected_attempts o.attempts && matches_state expected_state o.state)
          delivery_changed
      db' ← review_effect os mode db outbox_id e o action enabled now wall
      ok (add_audit action outbox_id wall db')
