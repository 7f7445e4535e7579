-- ===== src/Delivery/Steps.antt =====
-- The count of the attempts through `finish_delivery`, `recover` and `end_generation`.
use openqqwaifu.Prelude.{
  ℕ, ◌≡◌, String, Bool, true, some, List, [], ◌∷◌, All-update_where, All-map, map, inl, inr,
  Option-cases, arith,
}
use openqqwaifu.Result.{ok}
use openqqwaifu.Tables.{Event, Outbox, SendState, Audit, Db, set_inbox}
use openqqwaifu.Delivery.{
  Mode, finish_delivery, commit_delivery, deliver_event, is_status, sent_row, is_dispatching,
}
use openqqwaifu.Delivery.Recovery.{
  recover, recover_event, review_reminders, end_generation, stop_event, is_unknown,
}
use openqqwaifu.Delivery.Attempts.{
  EventCounted, deliver_event-counted, recover_event-counted, stop_event-counted,
}
use openqqwaifu.Delivery.Kept.{Counted, Counted-if, update_sent-Counted, delivery_result-Counted}

-- A delivery that is finished was being sent, under the row that is found.
pub finish_delivery_inv :
    (mode : Mode) (db : Db) (outbox_id : String) (status : SendState)
    (platform_id error_code : String) (now wall : ℕ) (db' : Db)
    → finish_delivery mode db outbox_id status platform_id error_code now wall ≡ ok db'
    → (r : Event × Outbox) × (sent_row db outbox_id ≡ some r)
      × (is_status status ≡ true)
      × (is_dispatching r.1.state ≡ true)
      × (db' ≡ commit_delivery db r.0 r.1 status platform_id error_code now wall)
unfolding finish_delivery
finish_delivery_inv mode db outbox_id status platform_id error_code now wall db' e =
    elim (Option-cases (sent_row db outbox_id)) [
      | inl missing ↦ absurd (ground (arith, missing))
      | inr (r, found) ↦
          (r, found, ground (arith, found), ground (arith, found), ground (arith, found))
    ]

module _ (audit : List Audit) where
  pub commit_delivery-Counted :
      (db : Db) (e : Event) (o : Outbox) (status : SendState) (platform_id error_code : String)
      (now wall : ℕ)
      → is_status status ≡ true
      → Counted audit db
      → Counted audit (commit_delivery db e o status platform_id error_code now wall)
  unfolding commit_delivery
  commit_delivery-Counted db e o status platform_id error_code now wall known h =
      delivery_result-Counted audit _ e status now (
        update_sent-Counted audit o.outbox_id (deliver_event status platform_id error_code wall o)
          db (λ r. deliver_event-counted audit status platform_id error_code wall o r known) h)

  pub finish_delivery-Counted :
      (mode : Mode) (db : Db) (outbox_id : String) (status : SendState)
      (platform_id error_code : String) (now wall : ℕ) (db' : Db)
      → finish_delivery mode db outbox_id status platform_id error_code now wall ≡ ok db'
      → Counted audit db
      → Counted audit db'
  finish_delivery-Counted mode db outbox_id status platform_id error_code now wall db' e h =
      let (r, found, known, sending, same) =
        finish_delivery_inv mode db outbox_id status platform_id error_code now wall db' e in
      rw same (commit_delivery-Counted db r.0 r.1 status platform_id error_code now wall known h)

  review_reminders-Counted :
      (now : ℕ) (es : List Event) (db : Db)
      → Counted audit db
      → Counted audit (review_reminders now es db)
  unfolding review_reminders
  review_reminders-Counted now [] db h = h
  review_reminders-Counted now (e ∷ es) db h = review_reminders-Counted now es _ (
      Counted-if audit (is_unknown e) _ db
        (delivery_result-Counted audit db e SendState.unknown now h) h)

  pub recover-Counted :
      (db : Db) (now wall : ℕ) → Counted audit db → Counted audit (recover db now wall)
  unfolding recover
  recover-Counted db now wall h =
      review_reminders-Counted now (map (recover_event wall) db.inbox)
        (set_inbox db (map (recover_event wall) db.inbox))
        (
          h.0,
          All-map (EventCounted audit) (EventCounted audit) (recover_event wall)
              (recover_event-counted audit wall) db.inbox h.1,
        )

  pub end_generation-Counted :
      (db : Db) (event_id : String) (ignored : Bool) (error_code : String)
      → Counted audit db
      → Counted audit (end_generation db event_id ignored error_code)
  unfolding end_generation
  end_generation-Counted db event_id ignored error_code h = (
    h.0,
    All-update_where (EventCounted audit) _ (stop_event ignored error_code)
        (λ e _. stop_event-counted audit ignored error_code e) db.inbox h.1,
  )
