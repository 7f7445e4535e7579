-- ===== src/Delivery/Once.antt =====
-- `begin_dispatch` called again for the same message.
use openqqwaifu.Prelude.{
  ℕ, ◌≡◌, refl, String, Bool, true, false, any, none, All, inl, inr, Option-cases, ◌&&◌, arith,
  All-find, All-update_by,
}
use openqqwaifu.Result.{ok, Ensures, Ensures-bind, Ensures-if, Ensures-ok, Ensures-option}
use openqqwaifu.Platform.{Platform}
use openqqwaifu.Tables.{Event, Outbox, Db}
use openqqwaifu.Contact.Decision.{policy}
use openqqwaifu.Reminders.Due.{before_dispatch, task_for_event}
use openqqwaifu.Delivery.{
  has_outbox, event_of, sendable, dispatch_row, map_outbox, start_attempt, record_contact,
  commit_dispatch, begin_dispatch, has_pending,
}

-- The row is not that of the message, or its message is not to be sent.
abbrev pub IsClosed : String → Event → Type 0
IsClosed outbox_id e = has_outbox outbox_id e ≡ true → sendable e ≡ none

pub begin_dispatch-closed :
    (os : Platform) (db : Db) (outbox_id : String) (enabled : String → Bool) (now : ℕ)
    → All (IsClosed outbox_id) db.inbox
    → begin_dispatch os db outbox_id enabled now ≡ ok (db, false)
unfolding begin_dispatch
begin_dispatch-closed os db outbox_id enabled now h = elim (Option-cases (event_of db outbox_id)) [
  | inl missing ↦ rw (begin_dispatch, missing) refl
  | inr (e, found) ↦
      let (closed, own) = All-find (IsClosed outbox_id) (has_outbox outbox_id) db.inbox h found in
      rw (begin_dispatch, found, closed own) refl
]

start_attempt-IsClosed :
    (outbox_id : String) (now : ℕ) (e : Event) → sendable (map_outbox (start_attempt now) e) ≡ none
unfolding start_attempt
start_attempt-IsClosed outbox_id now e = ground arith

dispatch_row-IsClosed :
    (outbox_id : String) (now : ℕ) (db : Db)
    → All (IsClosed outbox_id) (dispatch_row outbox_id now db).inbox
dispatch_row-IsClosed outbox_id now db =
    All-update_by (IsClosed outbox_id) (has_outbox outbox_id) (map_outbox (start_attempt now))
      (λ e _ _. start_attempt-IsClosed outbox_id now e) (λ e other own. cc) db.inbox

inbox-record_contact :
    (db : Db) (e : Event) (outbox_id : String) (o : Outbox) (now : ℕ)
    → Ensures (λ r. r.inbox ≡ db.inbox) (record_contact db e outbox_id o now)
unfolding record_contact
inbox-record_contact db e outbox_id o now =
    Ensures-option (λ r. r.inbox ≡ db.inbox) (task_for_event db e) _ _ (λ _. refl)
      λ t _. Ensures-bind (λ r. r.inbox ≡ db.inbox) (policy db t.0.conversation_id) _ (λ p _. refl)

commit_dispatch-IsClosed :
    (db : Db) (e : Event) (outbox_id : String) (o : Outbox) (now : ℕ)
    → Ensures
        (λ (r : Db × Bool). r.1 ≡ true → All (IsClosed outbox_id) r.0.inbox)
        (commit_dispatch db e outbox_id o now)
unfolding commit_dispatch
commit_dispatch-IsClosed db e outbox_id o now =
    let Q = λ (r : Db × Bool). r.1 ≡ true → All (IsClosed outbox_id) r.0.inbox in
    Ensures-if Q (any (λ r. has_outbox outbox_id r && has_pending r) db.inbox) _ _
      (λ _.
        Ensures-bind Q (record_contact (dispatch_row outbox_id now db) e outbox_id o now) _ λ r k _.
          rw
            (Ensures-ok (λ r. r.inbox ≡ (dispatch_row outbox_id now db).inbox) _
              (inbox-record_contact (dispatch_row outbox_id now db) e outbox_id o now) k)
            (dispatch_row-IsClosed outbox_id now db))
      (λ _ k. absurd (cc k))

begin_dispatch-IsClosed :
    (os : Platform) (db : Db) (outbox_id : String) (enabled : String → Bool) (now : ℕ)
    → Ensures
        (λ (r : Db × Bool). r.1 ≡ true → All (IsClosed outbox_id) r.0.inbox)
        (begin_dispatch os db outbox_id enabled now)
unfolding begin_dispatch
begin_dispatch-IsClosed os db outbox_id enabled now =
    let Q = λ (r : Db × Bool). r.1 ≡ true → All (IsClosed outbox_id) r.0.inbox in
    Ensures-option Q (event_of db outbox_id) _ _ (λ _ k. absurd (cc k))
      λ e _.
        Ensures-option Q (sendable e) _ _ (λ _ k. absurd (cc k))
          λ o _. Ensures-bind Q (before_dispatch os db e enabled now) _ λ r k.
            Ensures-if Q r.1 _ _ (λ _. commit_dispatch-IsClosed r.0 e outbox_id o now)
              (λ neg pos. absurd (cc pos))

-- After `begin_dispatch` has let a message go out, it refuses the same message at any later time
-- and under any switches, and changes nothing: a second worker cannot send it again.
pub begin_dispatch_once :
    (os : Platform) (db db' : Db) (outbox_id : String) (enabled enabled' : String → Bool)
    (now later : ℕ)
    → begin_dispatch os db outbox_id enabled now ≡ ok (db', true)
    → begin_dispatch os db' outbox_id enabled' later ≡ ok (db', false)
begin_dispatch_once os db db' outbox_id enabled enabled' now later e =
    begin_dispatch-closed os db' outbox_id enabled' later (
      Ensures-ok (λ (r : Db × Bool). r.1 ≡ true → All (IsClosed outbox_id) r.0.inbox) _
        (begin_dispatch-IsClosed os db outbox_id enabled now) e refl)
