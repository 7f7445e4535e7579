-- ===== src/Delivery/Inflow.antt =====
-- The count of the attempts through `prepare`, `reconcile_contact` and `tick`.
use openqqwaifu.Prelude.{
  ℕ, ◌+◌, refl, String, Bool, not, Option, List, [], ◌∷◌, All-update_where, All-append, inl, inr,
  Bool-cases, arith, leb, ltb, ◌||◌, select,
}
use openqqwaifu.Result.{
  Ensures, Ensures-ok, Ensures-bind, Ensures-if, Ensures-option, from_option, occurrence_missing,
  unknown_conversation,
}
use openqqwaifu.Platform.{Platform}
use openqqwaifu.Tables.{Event, Outbox, Audit, Task, TaskState, Db, update_event, conversation_of}
use openqqwaifu.Inbox.{take_seq}
use openqqwaifu.Reminders.{is_enqueued, is_waiting, eligibility, contact_blocked, invalidate}
use openqqwaifu.Reminders.Due.{
  prepare, task_for_event, is_current, clear_to_go, stale_event, ready_event, new_outbox,
  reconcile_task, reconcile_tasks, reconcile_contact, reminder_turn, reminder_text,
}
use openqqwaifu.Reminders.Tick.{
  Loop, is_scheduled, mem, enqueue, offer, tick_task, tick_loop, tick, order_tasks, loop_start,
  free, set_db,
}
use openqqwaifu.Delivery.Attempts.{IsCounted, EventCounted}
use openqqwaifu.Delivery.Kept.{
  Counted, CountedPair, clear_to_go-Counted, contact_blocked-Counted, invalidate-Counted,
}

module _ (audit : List Audit) where
  pub update_event-Counted :
      (event_id : String) (f : Event → Event) (db : Db)
      → ((e : Event) → EventCounted audit e → EventCounted audit (f e))
      → Counted audit db
      → Counted audit (update_event event_id f db)
  update_event-Counted event_id f db keep h =
      (h.0, All-update_where (EventCounted audit) _ f (λ e _. keep e) db.inbox h.1)

  -- A message that was never sent is counted.
  pub new_outbox-IsCounted :
      (outbox_id launcher_id text : String)
      → IsCounted audit (new_outbox outbox_id launcher_id text)
  new_outbox-IsCounted outbox_id launcher_id text = record { rows = refl; bound = omega arith }

  pub prepare-Counted :
      (os : Platform) (db : Db) (e : Event) (enabled : String → Bool) (now : ℕ)
      (config_version turn_id outbox_id : String)
      → Counted audit db
      → Ensures
          (CountedPair audit {A = Option Outbox})
          (prepare os db e enabled now config_version turn_id outbox_id)
  unfolding prepare
  prepare-Counted os db e enabled now config_version turn_id outbox_id h =
      Ensures-bind (CountedPair audit) (from_option occurrence_missing (task_for_event db e)) _
        λ t _.
          Ensures-if (CountedPair audit) (not (is_current t.0 t.1)) _ _
            (λ _. update_event-Counted e.event_id stale_event db (λ r k. k) h)
            λ _. Ensures-bind (CountedPair audit) (clear_to_go os db t.0 enabled now) _ λ r g.
              let kept : Counted audit r.0 =
                Ensures-ok (CountedPair audit) _ (clear_to_go-Counted audit os db t.0 enabled now h)
                  g in
              Ensures-if (CountedPair audit) (not r.1) _ _ (λ _. kept)
                λ _.
                  Ensures-option (CountedPair audit) e.outbox _ _
                    (λ _.
                      update_event-Counted e.event_id
                        (ready_event (reminder_turn t.0 turn_id config_version)
                          (new_outbox outbox_id e.conversation_id (reminder_text os now t.0)))
                        r.0
                        (λ x k.
                          new_outbox-IsCounted outbox_id e.conversation_id
                            (reminder_text os now t.0))
                        kept)
                    (λ o _. kept)

  reconcile_task-Counted :
      (os : Platform) (now : ℕ) (task : Task) (db : Db)
      → Counted audit db
      → Ensures (Counted audit) (reconcile_task os now task db)
  unfolding reconcile_task
  reconcile_task-Counted os now task db h =
      Ensures-if (Counted audit) (ltb task.expires_at now) _ _
        (λ _. invalidate-Counted audit db task TaskState.expired "missed_window" now h)
        λ _.
          Ensures-if (Counted audit) (leb task.due_at now) _ _
            (λ _. Ensures-bind (Counted audit) (contact_blocked os db task now) _ λ r g.
              Ensures-ok (CountedPair audit) _ (contact_blocked-Counted audit os db task now h) g)
            (λ _. h)

  reconcile_tasks-Counted :
      (os : Platform) (now : ℕ) (tasks : List Task) (db : Db)
      → Counted audit db
      → Ensures (Counted audit) (reconcile_tasks os now tasks db)
  unfolding reconcile_tasks
  reconcile_tasks-Counted os now [] db h = h
  reconcile_tasks-Counted os now (t ∷ ts) db h =
      Ensures-bind (Counted audit) (reconcile_task os now t db) _ λ d g.
        reconcile_tasks-Counted os now ts d
          (Ensures-ok (Counted audit) _ (reconcile_task-Counted os now t db h) g)

  pub reconcile_contact-Counted :
      (os : Platform) (db : Db) (cid : String) (now : ℕ)
      → Counted audit db
      → Ensures (Counted audit) (reconcile_contact os db cid now)
  unfolding reconcile_contact
  reconcile_contact-Counted os db cid now h = reconcile_tasks-Counted os now _ db h

  -- The database of a loop of `tick`.
  abbrev LoopCounted : Loop → Type 0
  LoopCounted s = Counted audit s.db

  take_seq-Counted :
      (db : Db) (cid : String)
      → Counted audit db
      → Ensures (CountedPair audit {A = ℕ}) (take_seq db cid)
  unfolding take_seq
  take_seq-Counted db cid h =
      Ensures-bind (CountedPair audit) (from_option unknown_conversation (conversation_of db cid)) _
        (λ c _. h)

  enqueue-Counted :
      (uuid : ℕ → String) (now : ℕ) (task : Task) (s : Loop)
      → LoopCounted s
      → Ensures LoopCounted (enqueue uuid now task s)
  unfolding enqueue
  enqueue-Counted uuid now task s h =
      Ensures-bind LoopCounted (take_seq s.db task.conversation_id) _ λ r g.
        let kept : Counted audit r.0 =
          Ensures-ok (CountedPair audit) _ (take_seq-Counted s.db task.conversation_id h) g in
        (kept.0, All-append (EventCounted audit) r.0.inbox _ kept.1 (tt, tt))

  offer-Counted :
      (uuid : ℕ → String) (now max_pending : ℕ) (task : Task) (s : Loop)
      → LoopCounted s
      → Ensures LoopCounted (offer uuid now max_pending task s)
  unfolding offer
  offer-Counted uuid now max_pending task s h =
      Ensures-if LoopCounted
        (not (is_scheduled task.state)
          || (ltb now task.due_at || mem task.conversation_id s.active))
        _ _ (λ _. h)
        λ _.
          Ensures-if LoopCounted (leb (max_pending + s.freed) s.pending || leb 32 s.made) _ _
            (λ _. h) (λ _. enqueue-Counted uuid now task s h)

  free-Counted : (task : Task) (s : Loop) → LoopCounted s → LoopCounted (free task s)
  free-Counted task s h = elim (Bool-cases (is_enqueued task.state)) [
    | inl e ↦ rw e h
    | inr e ↦ rw e h
  ]

  tick_task-Counted :
      (os : Platform) (enabled : String → Bool) (uuid : ℕ → String) (now max_pending : ℕ)
      (task : Task) (s : Loop)
      → LoopCounted s
      → Ensures LoopCounted (tick_task os enabled uuid now max_pending task s)
  unfolding tick_task
  tick_task-Counted os enabled uuid now max_pending task s h =
      Ensures-option LoopCounted (eligibility s.db task enabled now) _ _
        (λ _.
          Ensures-if LoopCounted (leb task.due_at now) _ _
            (λ _. Ensures-bind LoopCounted (contact_blocked os s.db task now) _ λ r g.
              let kept : Counted audit r.0 =
                Ensures-ok (CountedPair audit) _ (contact_blocked-Counted audit os s.db task now h)
                  g in
              Ensures-if LoopCounted r.1 _ _ (λ _. free-Counted task (set_db s r.0) kept)
                (λ _. offer-Counted uuid now max_pending task (set_db s r.0) kept))
            (λ _. offer-Counted uuid now max_pending task s h))
        λ b _.
          free-Counted task (set_db s (invalidate s.db task b.0 b.1 now))
            (invalidate-Counted audit s.db task b.0 b.1 now h)

  tick_loop-Counted :
      (os : Platform) (enabled : String → Bool) (uuid : ℕ → String) (now max_pending : ℕ)
      (tasks : List Task) (s : Loop)
      → LoopCounted s
      → Ensures LoopCounted (tick_loop os enabled uuid now max_pending tasks s)
  unfolding tick_loop
  tick_loop-Counted os enabled uuid now max_pending [] s h = h
  tick_loop-Counted os enabled uuid now max_pending (t ∷ ts) s h =
      Ensures-bind LoopCounted (tick_task os enabled uuid now max_pending t s) _ λ s' g.
        tick_loop-Counted os enabled uuid now max_pending ts s'
          (Ensures-ok LoopCounted _ (tick_task-Counted os enabled uuid now max_pending t s h) g)

  pub tick-Counted :
      (os : Platform) (enabled : String → Bool) (uuid : ℕ → String) (now max_pending : ℕ) (db : Db)
      → Counted audit db
      → Ensures (CountedPair audit {A = ℕ}) (tick os enabled uuid now max_pending db)
  unfolding tick
  tick-Counted os enabled uuid now max_pending db h =
      Ensures-bind (CountedPair audit)
        (tick_loop os enabled uuid now max_pending
          (order_tasks (select (λ t. is_waiting t.state) db.tasks)) (loop_start db))
        _
        λ s g.
          Ensures-ok LoopCounted _
            (tick_loop-Counted os enabled uuid now max_pending
              (order_tasks (select (λ t. is_waiting t.state) db.tasks)) (loop_start db) h)
            g
