-- ===== src/Delivery/Trace.antt =====
-- Runs of nine operations of the runtime as steps, in any order, from any counted database. Erasing
-- the data of a conversation is not among them.
use openqqwaifu.Prelude.{
  ℕ, ◌+◌, ◌≤◌, ◌≡◌, refl, String, Bool, Option, none, some, List, All, All-imp, arith, length,
}
use openqqwaifu.Result.{ok, Ensures-ok}
use openqqwaifu.Platform.{Platform}
use openqqwaifu.Tables.{Outbox, SendState, Audit, ReviewAction, Db}
use openqqwaifu.Reminders.Due.{reconcile_contact}
use openqqwaifu.Reminders.Tick.{tick}
use openqqwaifu.Turns.{Memories, Work, Ids, Context, Reply, next_work, save_proposal}
use openqqwaifu.Delivery.{Mode, begin_dispatch, finish_delivery}
use openqqwaifu.Delivery.Review.{resolve_delivery}
use openqqwaifu.Delivery.Recovery.{recover, end_generation}
use openqqwaifu.Delivery.Attempts.{
  OptionCounted, EventCounted, DbCounted, retries, first_attempt-le,
}
use openqqwaifu.Delivery.Kept.{Counted, CountedPair, begin_dispatch-Counted}
use openqqwaifu.Delivery.Steps.{finish_delivery-Counted, recover-Counted, end_generation-Counted}
use openqqwaifu.Delivery.Retry.{resolve_delivery-DbCounted}
use openqqwaifu.Delivery.Inflow.{reconcile_contact-Counted, tick-Counted}
use openqqwaifu.Delivery.Work.{of_Counted, next_work-DbCounted, save_proposal-DbCounted}

-- One attempt row for each attempt, and no more attempts than one and the retries asked for.
abbrev pub IsLimited : List Audit → Option Outbox → Type 0
IsLimited audit none = Unit
IsLimited audit (some o) =
    (length o.delivery_attempts ≡ o.attempts) × (o.attempts ≤ retries audit o.outbox_id + 1)

limited : (audit : List Audit) (x : Option Outbox) → OptionCounted audit x → IsLimited audit x
limited audit none h = tt
limited audit (some o) h = (h.rows, omega (arith, h.bound, first_attempt-le o.state))

module _ (os : Platform) (memories : Memories) (mode : Mode) where
  -- One operation that succeeds: of the engine, of the reminder clock, of a reviewer or of a restart,
  -- in any order and with any arguments.
  pub data Step (db : Db) : Db → Type 0 where
    work :
        (cid config : String) (enabled : String → Bool) (now wall : ℕ) (ids : Ids) {db' : Db}
        (w : Option Work)
        → next_work os memories db cid config enabled now wall ids ≡ ok (db', w)
        → Step db db'
    propose :
        (context : Context) (reply : Reply) (outbox_id : String) {db' : Db} (o : Outbox)
        → save_proposal db context reply outbox_id ≡ ok (db', o)
        → Step db db'
    stop :
        (event_id : String) (ignored : Bool) (error_code : String)
        → Step db (end_generation db event_id ignored error_code)
    dispatch :
        (outbox_id : String) (enabled : String → Bool) (now : ℕ) {db' : Db} (sent : Bool)
        → begin_dispatch os db outbox_id enabled now ≡ ok (db', sent)
        → Step db db'
    finish :
        (outbox_id : String) (status : SendState) (platform_id error_code : String) (now wall : ℕ)
        {db' : Db}
        → finish_delivery mode db outbox_id status platform_id error_code now wall ≡ ok db'
        → Step db db'
    review :
        (outbox_id : String) (action : ReviewAction) (note : String) (attempts : Option ℕ)
        (state : Option SendState) (enabled : String → Bool) (now wall : ℕ) {db' : Db}
        → resolve_delivery os mode db outbox_id action note attempts state enabled now wall ≡ ok db'
        → Step db db'
    restart : (now wall : ℕ) → Step db (recover db now wall)
    remind :
        (enabled : String → Bool) (uuid : ℕ → String) (now max_pending : ℕ) {db' : Db} (made : ℕ)
        → tick os enabled uuid now max_pending db ≡ ok (db', made)
        → Step db db'
    reconcile :
        (cid : String) (now : ℕ) {db' : Db} → reconcile_contact os db cid now ≡ ok db' → Step db db'

  pub data Reach (start : Db) : Db → Type 0 where
    here : Reach start start
    next : {db db' : Db} → Reach start db → Step db db' → Reach start db'

  pub Step-DbCounted : {db db' : Db} → Step db db' → DbCounted db → DbCounted db'
  Step-DbCounted {db} {db'} (work cid config enabled now wall ids w e) h =
      Ensures-ok (λ (r : Db × Option Work). DbCounted r.0) _
        (next_work-DbCounted os memories db cid config enabled now wall ids h) e
  Step-DbCounted {db} {db'} (propose context reply outbox_id o e) h =
      save_proposal-DbCounted os memories db context reply outbox_id db' o e h
  Step-DbCounted {db} (stop event_id ignored error_code) h =
      of_Counted db (end_generation db event_id ignored error_code)
        (end_generation-Counted db.audit db event_id ignored error_code (refl, h))
  Step-DbCounted {db} {db'} (dispatch outbox_id enabled now sent e) h = of_Counted db db' (
      Ensures-ok (CountedPair db.audit) _
        (begin_dispatch-Counted db.audit os db outbox_id enabled now (refl, h)) e)
  Step-DbCounted {db} {db'} (finish outbox_id status platform_id error_code now wall e) h =
      of_Counted db db' (
        finish_delivery-Counted db.audit mode db outbox_id status platform_id error_code now wall
          db' e (refl, h))
  Step-DbCounted {db} {db'} (review outbox_id action note attempts state enabled now wall e) h =
      resolve_delivery-DbCounted os mode db outbox_id action note attempts state enabled now wall
        db' e h
  Step-DbCounted {db} (restart now wall) h =
      of_Counted db (recover db now wall) (recover-Counted db.audit db now wall (refl, h))
  Step-DbCounted {db} {db'} (remind enabled uuid now max_pending made e) h = of_Counted db db' (
      Ensures-ok (CountedPair db.audit) _
        (tick-Counted db.audit os enabled uuid now max_pending db (refl, h)) e)
  Step-DbCounted {db} {db'} (reconcile cid now e) h = of_Counted db db' (
      Ensures-ok (Counted db.audit) _ (reconcile_contact-Counted db.audit os db cid now (refl, h))
        e)

  Reach-DbCounted : {start db : Db} → DbCounted start → Reach start db → DbCounted db
  Reach-DbCounted h here = h
  Reach-DbCounted h (next r s) = Step-DbCounted s (Reach-DbCounted h r)

  -- From a database whose inbox is counted, where no conversation is erased: after next_work,
  -- save_proposal, end_generation, begin_dispatch, finish_delivery, resolve_delivery, recover, tick
  -- and reconcile_contact, any number of times and in any order, each outbox row has one attempt row
  -- for each attempt, and no more attempts than one and the retries that a person asked for.
  pub attempts_bounded :
      {start db : Db}
      → DbCounted start
      → Reach start db
      → All (λ e. IsLimited db.audit e.outbox) db.inbox
  attempts_bounded {start} {db} h r =
      All-imp (EventCounted db.audit) (λ e. IsLimited db.audit e.outbox)
        (λ e. limited db.audit e.outbox) db.inbox (Reach-DbCounted h r)
