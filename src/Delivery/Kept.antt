-- ===== src/Delivery/Kept.antt =====
-- The count of the attempts through the reminders and through `begin_dispatch`, for a fixed audit
-- table.
use text.Mathlib.Text.{starts_with}
use openqqwaifu.Prelude.{
  ℕ, ◌≡◌, String, Bool, true, false, not, any, Option, none, some, List, All, All-update_where,
  if◌then◌else◌, ◌&&◌, arith,
}
use openqqwaifu.Result.{Ensures, Ensures-bind, Ensures-if, Ensures-ok, Ensures-option}
use openqqwaifu.Platform.{Platform}
use openqqwaifu.Tables.{Occurrence, Event, Outbox, SendState, Task, TaskState, Audit, Db}
use openqqwaifu.Contact.Decision.{policy, Decision, for_task}
use openqqwaifu.Reminders.{
  cancel_event, invalidate, postpone, contact_blocked, eligibility, occurs, is_enqueued,
}
use openqqwaifu.Reminders.Due.{
  result_state, mark_task, clear_to_go, before_dispatch, delivery_result, task_for_event,
  is_current,
}
use openqqwaifu.Delivery.{
  dispatch_row, update_sent, has_pending, start_attempt, map_outbox, has_outbox, begin_dispatch,
  commit_dispatch, record_contact, sendable, event_of,
}
use openqqwaifu.Delivery.Attempts.{
  EventCounted, cancel_event-IsCounted, start_attempt-IsCounted, map_outbox-counted,
}

abbrev pub Counted : List Audit → Db → Type 0
Counted audit db = (db.audit ≡ audit) × All (EventCounted audit) db.inbox

-- A delivery's result for a reminder touches the tasks alone.
pub delivery_result_frame :
    (db : Db) (e : Event) (status : SendState) (now : ℕ)
    → ((delivery_result db e status now).inbox ≡ db.inbox)
      × ((delivery_result db e status now).audit ≡ db.audit)
unfolding delivery_result
delivery_result_frame db e status now = ground arith

module _ (audit : List Audit) where
  pub invalidate-Counted :
      (db : Db) (task : Task) (state : TaskState) (reason : String) (now : ℕ)
      → Counted audit db
      → Counted audit (invalidate db task state reason now)
  unfolding invalidate
  invalidate-Counted db task state reason now h = (
    h.0,
    All-update_where (EventCounted audit) (λ e. occurs task e.occurrence) (cancel_event reason)
        (λ e _. cancel_event-IsCounted audit reason e) db.inbox h.1,
  )

  pub Counted-if :
      (b : Bool) (x y : Db) → Counted audit x → Counted audit y → Counted audit (if b then x else y)
  Counted-if true x y hx hy = hx
  Counted-if false x y hx hy = hy

  postpone-Counted :
      (db : Db) (task : Task) (d : Decision) (now : ℕ)
      → Counted audit db
      → Counted audit (postpone db task d now)
  unfolding postpone
  postpone-Counted db task d now h =
      Counted-if (is_enqueued task.state) (invalidate db task TaskState.scheduled d.reason now) db
        (invalidate-Counted db task TaskState.scheduled d.reason now h) h

  -- A database with a flag, as most operations return it.
  abbrev pub CountedPair {ℓ} : {A : Type ℓ} → Db × A → Type 0
  CountedPair r = Counted audit r.0

  pub contact_blocked-Counted :
      (os : Platform) (db : Db) (task : Task) (now : ℕ)
      → Counted audit db
      → Ensures (CountedPair {A = Bool}) (contact_blocked os db task now)
  unfolding contact_blocked
  contact_blocked-Counted os db task now h =
      Ensures-bind CountedPair (for_task os db task now) _ λ d _.
        Ensures-if CountedPair d.allowed _ _
          (λ _. Counted-if (starts_with task.reason "contact_") _ db h h)
          (λ _. postpone-Counted db task d now h)

  pub clear_to_go-Counted :
      (os : Platform) (db : Db) (task : Task) (enabled : String → Bool) (now : ℕ)
      → Counted audit db
      → Ensures (CountedPair {A = Bool}) (clear_to_go os db task enabled now)
  unfolding clear_to_go
  clear_to_go-Counted os db task enabled now h =
      Ensures-option CountedPair (eligibility db task enabled now) _ _
        (λ _.
          Ensures-bind CountedPair (contact_blocked os db task now) _
            λ r e. Ensures-ok CountedPair _ (contact_blocked-Counted os db task now h) e)
        (λ b _. invalidate-Counted db task b.0 b.1 now h)

  pub before_dispatch-Counted :
      (os : Platform) (db : Db) (e : Event) (enabled : String → Bool) (now : ℕ)
      → Counted audit db
      → Ensures (CountedPair {A = Bool}) (before_dispatch os db e enabled now)
  unfolding before_dispatch
  before_dispatch-Counted os db e enabled now h =
      Ensures-option CountedPair (task_for_event db e) _ _ (λ _. h)
        λ t _.
          Ensures-if CountedPair (not (is_current t.0 t.1)) _ _ (λ _. h)
            λ _. Ensures-bind CountedPair (clear_to_go os db t.0 enabled now) _ λ r e.
              let k : Counted audit r.0 =
                Ensures-ok CountedPair _ (clear_to_go-Counted os db t.0 enabled now h) e in
              Counted-if r.1 _ r.0 k k

  pub delivery_result-Counted :
      (db : Db) (e : Event) (status : SendState) (now : ℕ)
      → Counted audit db
      → Counted audit (delivery_result db e status now)
  unfolding delivery_result
  delivery_result-Counted db e status now h = on_occurrence e.occurrence
    where
      on_occurrence :
          (x : Option Occurrence)
          → Counted audit
              (elim x [ none ↦ db | some o ↦ mark_task db o.task_id (result_state status) now ])
      on_occurrence none = h
      on_occurrence (some o) = h

  pub update_sent-Counted :
      (outbox_id : String) (f : Event → Event) (db : Db)
      → ((e : Event) → EventCounted audit e → EventCounted audit (f e))
      → Counted audit db
      → Counted audit (update_sent outbox_id f db)
  update_sent-Counted outbox_id f db keep h = (
    h.0,
    All-update_where (EventCounted audit) (has_outbox outbox_id) f (λ e _. keep e) db.inbox h.1,
  )

  record_contact-Counted :
      (db : Db) (e : Event) (outbox_id : String) (o : Outbox) (now : ℕ)
      → Counted audit db
      → Ensures (Counted audit) (record_contact db e outbox_id o now)
  unfolding record_contact
  record_contact-Counted db e outbox_id o now h =
      Ensures-option (Counted audit) (task_for_event db e) _ _ (λ _. h)
        λ t _. Ensures-bind (Counted audit) (policy db t.0.conversation_id) _ (λ p _. h)

  commit_dispatch-Counted :
      (db : Db) (e : Event) (outbox_id : String) (o : Outbox) (now : ℕ)
      → Counted audit db
      → Ensures (CountedPair {A = Bool}) (commit_dispatch db e outbox_id o now)
  unfolding commit_dispatch
  commit_dispatch-Counted db e outbox_id o now h =
      let started : Counted audit (dispatch_row outbox_id now db) =
        update_sent-Counted outbox_id (map_outbox (start_attempt now)) db
          (λ r.
            map_outbox-counted audit (start_attempt now) audit r.outbox
              (λ x _. start_attempt-IsCounted audit now x))
          h in
      Ensures-if CountedPair (any (λ r. has_outbox outbox_id r && has_pending r) db.inbox) _ _
        (λ _.
          Ensures-bind CountedPair
            (record_contact (dispatch_row outbox_id now db) e outbox_id o now) _
            λ r k.
              Ensures-ok (Counted audit) _
                (record_contact-Counted (dispatch_row outbox_id now db) e outbox_id o now started)
                k)
        (λ _. h)

  pub begin_dispatch-Counted :
      (os : Platform) (db : Db) (outbox_id : String) (enabled : String → Bool) (now : ℕ)
      → Counted audit db
      → Ensures (CountedPair {A = Bool}) (begin_dispatch os db outbox_id enabled now)
  unfolding begin_dispatch
  begin_dispatch-Counted os db outbox_id enabled now h =
      Ensures-option CountedPair (event_of db outbox_id) _ _ (λ _. h)
        λ e _.
          Ensures-option CountedPair (sendable e) _ _ (λ _. h)
            λ o _. Ensures-bind CountedPair (before_dispatch os db e enabled now) _ λ r k.
              let kept : Counted audit r.0 =
                Ensures-ok CountedPair _ (before_dispatch-Counted os db e enabled now h) k in
              Ensures-if CountedPair r.1 _ _
                (λ _. commit_dispatch-Counted r.0 e outbox_id o now kept) (λ _. kept)
