-- ===== src/Delivery/Outcome.antt =====
-- `finish_delivery`: the message before and after it, and a second report.
use mathlib.Core.Option.{some_inj}
use openqqwaifu.Prelude.{
  ℕ, ◌≡◌, ◌∙◌, refl, sym, ap, subst, String, true, false, Option, none, some, inl, inr,
  Option-cases, arith, find-update_where, found_own, eq_iff,
}
use openqqwaifu.Result.{Error, ok, err, Result-cases}
use openqqwaifu.Tables.{Event, Outbox, SendState, Db}
use openqqwaifu.Reminders.Due.{delivery_result}
use openqqwaifu.Delivery.{
  Mode, has_outbox, event_of, sent_row, is_dispatching, is_status, outcome_state, deliver_outbox,
  deliver_event, commit_delivery, finish_delivery, update_sent,
}
use openqqwaifu.Delivery.Kept.{delivery_result_frame}
use openqqwaifu.Delivery.Steps.{finish_delivery_inv}

sent_row_inv :
    (db : Db) (outbox_id : String) (r : Event × Outbox)
    → sent_row db outbox_id ≡ some r
    → (event_of db outbox_id ≡ some r.0) × (r.0.outbox ≡ some r.1)
sent_row_inv db outbox_id r h = elim (Option-cases (event_of db outbox_id)) [
  | inl missing ↦ absurd (cc (rw (sent_row, missing) at h))
  | inr (e, found) ↦ elim (Option-cases e.outbox) [
    | inl bare ↦ absurd (cc (rw (sent_row, found, bare) at h))
    | inr (o, held) ↦
        let same : (e, o) ≡ r = some_inj.0 (rw (sent_row, found, held) at h) in
        subst (λ (q : Event × Outbox). (event_of db outbox_id ≡ some q.0) × (q.0.outbox ≡ some q.1))
          same (found, held)
  ]
]

abbrev with_event : Event → Option Outbox → Option (Event × Outbox)
with_event e x = elim x [ none ↦ none | some o ↦ some (e, o) ]

sent_row_of :
    (db : Db) (outbox_id : String) (e : Event) (o : Outbox)
    → event_of db outbox_id ≡ some e
    → e.outbox ≡ some o
    → sent_row db outbox_id ≡ some (e, o)
sent_row_of db outbox_id e o found held = rw (sent_row, found) (ap (with_event e) held)

-- The row of a message after an update that keeps its identifier.
sent_row-update :
    (db : Db) (outbox_id : String) (f : Event → Event) (g : Outbox → Outbox) (r : Event × Outbox)
    → ((e : Event) → has_outbox outbox_id (f e) ≡ has_outbox outbox_id e)
    → (f r.0).outbox ≡ some (g r.1)
    → sent_row db outbox_id ≡ some r
    → sent_row (update_sent outbox_id f db) outbox_id ≡ some (f r.0, g r.1)
sent_row-update db outbox_id f g r same new h =
    let (found, held) = sent_row_inv db outbox_id r h in
    let own : has_outbox outbox_id r.0 ≡ true = found_own (has_outbox outbox_id) db.inbox found in
    let after =
      find-update_where (has_outbox outbox_id) (has_outbox outbox_id) f (λ e _. same e) db.inbox
        found in
    sent_row_of (update_sent outbox_id f db) outbox_id (f r.0) (g r.1) (rw own at after) new

has_outbox-deliver_event :
    (id : String) (status : SendState) (platform_id error_code : String) (wall : ℕ) (o : Outbox)
    (e : Event)
    → has_outbox id (deliver_event status platform_id error_code wall o e) ≡ has_outbox id e
unfolding deliver_event
has_outbox-deliver_event id status platform_id error_code wall o e = ground arith

sent_row_frame :
    (db db' : Db) (id : String) → db'.inbox ≡ db.inbox → sent_row db' id ≡ sent_row db id
sent_row_frame db db' id same = rw same refl

own_id :
    (db : Db) (outbox_id : String) (r : Event × Outbox)
    → sent_row db outbox_id ≡ some r
    → r.1.outbox_id ≡ outbox_id
own_id db outbox_id r h =
    let (found, held) = sent_row_inv db outbox_id r h in
    let own : has_outbox outbox_id r.0 ≡ true = found_own (has_outbox outbox_id) db.inbox found in
    (eq_iff r.1.outbox_id outbox_id).0 (rw held at own)

sent_row-commit_delivery :
    (db : Db) (outbox_id : String) (r : Event × Outbox) (status : SendState)
    (platform_id error_code : String) (now wall : ℕ)
    → sent_row db outbox_id ≡ some r
    → sent_row (commit_delivery db r.0 r.1 status platform_id error_code now wall) outbox_id
      ≡ some (
        deliver_event status platform_id error_code wall r.1 r.0,
        deliver_outbox status platform_id error_code r.1.attempts wall r.1,
      )
unfolding commit_delivery deliver_event
sent_row-commit_delivery db outbox_id r status platform_id error_code now wall h =
    let f = deliver_event status platform_id error_code wall r.1 in
    let sent = update_sent r.1.outbox_id f db in
    let held = (sent_row_inv db outbox_id r h).1 in
    sent_row_frame sent (delivery_result sent r.0 status now) outbox_id
      (delivery_result_frame sent r.0 status now).0
    ∙ subst
        (λ id.
          sent_row (update_sent id f db) outbox_id
          ≡ some (f r.0, deliver_outbox status platform_id error_code r.1.attempts wall r.1))
        (sym (own_id db outbox_id r h))
        (sent_row-update db outbox_id f
          (deliver_outbox status platform_id error_code r.1.attempts wall) r
          (has_outbox-deliver_event outbox_id status platform_id error_code wall r.1)
          (ap
            (λ x. elim x [
              | none ↦ none
              | some o ↦ some (deliver_outbox status platform_id error_code r.1.attempts wall o)
            ])
            held)
          h)

-- The message before and after its delivery.
pub record IsDelivered (outbox_id : String) (status : SendState) (db db' : Db) : Type 0 where
  pub before : Event × Outbox
  pub after : Event × Outbox
  pub found : sent_row db outbox_id ≡ some before
  pub left : sent_row db' outbox_id ≡ some after
  pub sending : before.1.state ≡ SendState.dispatching
  pub sent : after.1.state ≡ status
  pub counted : after.1.attempts ≡ before.1.attempts
  pub outcome : after.0.state ≡ outcome_state before.1.erased status

dispatching_only : (s : SendState) → is_dispatching s ≡ true → s ≡ SendState.dispatching
dispatching_only SendState.dispatching h = refl
dispatching_only _ h = absurd (cc h)

status_closed : (s : SendState) → is_status s ≡ true → is_dispatching s ≡ false
status_closed SendState.dispatching h = absurd (cc h)
status_closed _ h = refl

module _ (mode : Mode) (db db' : Db) (outbox_id : String) (status : SendState)
    (platform_id error_code : String) (now wall : ℕ) where
  -- A delivery is finished only for a message that is being sent; the message then has the reported
  -- state and as many attempts as before, and its event the state that belongs to the report.
  pub finish_delivery-IsDelivered :
      finish_delivery mode db outbox_id status platform_id error_code now wall ≡ ok db'
      → IsDelivered outbox_id status db db'
  unfolding deliver_event
  finish_delivery-IsDelivered e =
      let (r, found, known, sending, same) =
        finish_delivery_inv mode db outbox_id status platform_id error_code now wall db' e in
      record {
        before = r;
        after = (
          deliver_event status platform_id error_code wall r.1 r.0,
          deliver_outbox status platform_id error_code r.1.attempts wall r.1,
        );
        found = found;
        left =
            subst
              (λ d.
                sent_row d outbox_id
                ≡ some (
                  deliver_event status platform_id error_code wall r.1 r.0,
                  deliver_outbox status platform_id error_code r.1.attempts wall r.1,
                ))
              (sym same)
              (sent_row-commit_delivery db outbox_id r status platform_id error_code now wall
                found);
        sending = dispatching_only r.1.state sending;
        sent = refl;
        counted = refl;
        outcome = refl;
      }

  -- A delivery is finished once: a second report of any kind for the same message is refused.
  pub finish_delivery_once :
      (other : SendState) (other_id other_error : String) (now' wall' : ℕ)
      → finish_delivery mode db outbox_id status platform_id error_code now wall ≡ ok db'
      → (x : Error) × (finish_delivery mode db' outbox_id other other_id other_error now' wall'
          ≡ err x)
  finish_delivery_once other other_id other_error now' wall' e =
      elim (Result-cases
        (finish_delivery mode db' outbox_id other other_id other_error now' wall')) [
          | inr refused ↦ refused
          | inl (d, again) ↦
              let h = finish_delivery-IsDelivered e in
              let (r, found, known, sending, same) =
                finish_delivery_inv mode db' outbox_id other other_id other_error now' wall' d
                  again in
              let (r0, found0, known0, sending0, same0) =
                finish_delivery_inv mode db outbox_id status platform_id error_code now wall db'
                  e in
              let one : h.after ≡ r = some_inj.0 (sym h.left ∙ found) in
              absurd (cc (status_closed status known0, sending, ap (λ q. q.1.state) one, h.sent))
        ]
