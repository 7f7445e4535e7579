-- ===== src/Delivery/Work.antt =====
-- The count of the attempts through `next_work` and `save_proposal`.
use openqqwaifu.Prelude.{
  ℕ, ◌≡◌, refl, String, Bool, not, Option, none, some, inl, inr, Bool-cases, Option-cases, str_eq,
  ◌&&◌, find,
}
use openqqwaifu.Result.{
  ok, Ensures, Ensures-ok, Ensures-bind, Ensures-if, Ensures-option, Ensures-require, from_option,
  proposal_refused,
}
use openqqwaifu.Platform.{Platform}
use openqqwaifu.Tables.{
  Conversation, Inbound, Kind, Event, Turn, Outbox, Db, update_event, conversation_of,
}
use openqqwaifu.Reminders.Due.{prepare, new_outbox}
use openqqwaifu.Turns.{
  Memories, Work, Ids, Context, Reply, start_turn, work_on, next_work, head_of, is_ready,
  save_proposal, propose_event, start_event, new_turn, resume_turn, received, complete_event,
  conflict_event, apply_binding, resume_audit, is_queued, require_current, is_generating, has_none,
}
use openqqwaifu.Delivery.Attempts.{DbCounted}
use openqqwaifu.Delivery.Kept.{Counted, CountedPair}
use openqqwaifu.Delivery.Retry.{DbCounted-more}
use openqqwaifu.Delivery.Inflow.{prepare-Counted, update_event-Counted, new_outbox-IsCounted}

pub of_Counted : (db db' : Db) → Counted db.audit db' → DbCounted db'
of_Counted db db' h = rw h.0 h.1

save_proposal_db :
    (db : Db) (context : Context) (reply : Reply) (outbox_id : String)
    → Ensures
        (λ (r : Db × Outbox).
          r.0
          ≡ update_event context.event_id
              (propose_event (new_outbox outbox_id reply.launcher_id reply.text))
              db)
        (save_proposal db context reply outbox_id)
unfolding save_proposal
save_proposal_db db context reply outbox_id =
    let Q = λ (r : Db × Outbox).
      r.0
      ≡ update_event context.event_id
          (propose_event (new_outbox outbox_id reply.launcher_id reply.text)) db in
    Ensures-require Q (reply.person && str_eq reply.launcher_id context.conversation_id) _ _ λ _.
      Ensures-require Q (not reply.has_images) _ _ λ _.
        Ensures-bind Q (require_current db context) _ λ _ _.
          Ensures-bind Q
            (from_option proposal_refused (find (λ r. str_eq r.event_id context.event_id) db.inbox))
            _ λ e _. Ensures-require Q (is_generating e.state && has_none e.outbox) _ _ λ _. refl

module _ (os : Platform) (memories : Memories) where
  start_turn-DbCounted :
      (x : Option Turn) (db : Db) (c : Conversation) (e : Event) (inbound : Inbound)
      (config turn_id : String) (wall : ℕ)
      → DbCounted db
      → DbCounted (start_turn x db c e inbound config turn_id wall).0
  unfolding start_turn
  start_turn-DbCounted none db c e inbound config turn_id wall h =
      (update_event-Counted db.audit e.event_id
        (start_event (new_turn c turn_id config)
          (some (received (new_turn c turn_id config) inbound)))
        db (λ r k. k) (refl, h)).1
  start_turn-DbCounted (some t) db c e inbound config turn_id wall h =
      elim (Bool-cases (is_queued e.state)) [
        | inr old ↦ rw old h
        | inl queued ↦
            let resumed =
              update_event e.event_id (start_event (resume_turn config t) e.user_message) db in
            let kept : Counted db.audit resumed =
              update_event-Counted db.audit e.event_id
                (start_event (resume_turn config t) e.user_message) db (λ r k. k) (refl, h) in
            rw queued (DbCounted-more db.audit (resume_audit t wall) resumed kept)
      ]

  work_on-DbCounted :
      (k : Kind) (db : Db) (c : Conversation) (e : Event) (config : String)
      (enabled : String → Bool) (now wall : ℕ) (ids : Ids)
      → DbCounted db
      → Ensures
          (λ (r : Db × Option Work). DbCounted r.0)
          (work_on os memories k db c e config enabled now wall ids)
  unfolding work_on
  work_on-DbCounted Kind.reminder_due db c e config enabled now wall ids h =
      Ensures-bind (λ (r : Db × Option Work). DbCounted r.0)
        (prepare os db e enabled now config ids.turn_id ids.outbox_id) _
        λ r g. of_Counted db r.0 (
          Ensures-ok (CountedPair db.audit) _
            (prepare-Counted db.audit os db e enabled now config ids.turn_id ids.outbox_id
              (refl, h))
            g)
  work_on-DbCounted Kind.followup_due db c e config enabled now wall ids h = tt
  work_on-DbCounted Kind.erased db c e config enabled now wall ids h = tt
  work_on-DbCounted (Kind.memory m) db c e config enabled now wall ids h =
      elim (Option-cases (memories.apply db e)) [
        | inl failed ↦
            rw failed
              (update_event-Counted db.audit e.event_id conflict_event db (λ r k. k) (refl, h)).1
        | inr (db', done) ↦
            let kept : Counted db.audit db' =
              (memories.audit-apply db db' e done, rw (memories.inbox-apply db db' e done) h) in
            rw done (
              of_Counted db (update_event e.event_id complete_event db')
                (update_event-Counted db.audit e.event_id complete_event db' (λ r k. k) kept))
      ]
  work_on-DbCounted (Kind.binding card) db c e config enabled now wall ids h =
      (update_event-Counted db.audit e.event_id complete_event
        (apply_binding db e.conversation_id card) (λ r k. k) (refl, h)).1
  work_on-DbCounted (Kind.message inbound) db c e config enabled now wall ids h =
      start_turn-DbCounted e.turn db c e inbound config ids.turn_id wall h

  pub next_work-DbCounted :
      (db : Db) (cid config : String) (enabled : String → Bool) (now wall : ℕ) (ids : Ids)
      → DbCounted db
      → Ensures
          (λ (r : Db × Option Work). DbCounted r.0)
          (next_work os memories db cid config enabled now wall ids)
  unfolding next_work
  next_work-DbCounted db cid config enabled now wall ids h =
      let Q = λ (r : Db × Option Work). DbCounted r.0 in
      Ensures-option Q (conversation_of db cid) _ _ (λ _. h)
        λ c _.
          Ensures-if Q (not c.active) _ _ (λ _. h)
            λ _.
              Ensures-option Q (head_of cid db.inbox) _ _ (λ _. h)
                λ e _.
                  Ensures-if Q (not (is_ready e.state)) _ _ (λ _. h)
                    (λ _. work_on-DbCounted e.kind db c e config enabled now wall ids h)

  pub save_proposal-DbCounted :
      (db : Db) (context : Context) (reply : Reply) (outbox_id : String) (db' : Db) (o : Outbox)
      → save_proposal db context reply outbox_id ≡ ok (db', o)
      → DbCounted db
      → DbCounted db'
  unfolding propose_event
  save_proposal-DbCounted db context reply outbox_id db' o e h =
      let same =
        Ensures-ok
          (λ (r : Db × Outbox).
            r.0
            ≡ update_event context.event_id
                (propose_event (new_outbox outbox_id reply.launcher_id reply.text)) db)
          _ (save_proposal_db db context reply outbox_id) e in
      rw same
        (update_event-Counted db.audit context.event_id
          (propose_event (new_outbox outbox_id reply.launcher_id reply.text)) db
          (λ r k. new_outbox-IsCounted db.audit outbox_id reply.launcher_id reply.text) (refl, h)).1
