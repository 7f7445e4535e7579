-- ===== src/Delivery/Retry.antt =====
-- The count of the attempts through `resolve_delivery`, with its new audit row.
use openqqwaifu.Prelude.{
  ℕ, ◌≤◌, ◌≡◌, ◌∙◌, refl, String, Bool, true, false, Option, none, some, List, [], ◌∷◌, ◌++◌, All,
  All-update_to, All-imp, inl, inr, Option-cases, str_eq, eq_iff, arith, count_where-append, sym,
}
use openqqwaifu.Result.{ok, Result-cases, Ensures-ok}
use openqqwaifu.Platform.{Platform}
use openqqwaifu.Tables.{Event, EventState, TurnState, Outbox, SendState, Audit, ReviewAction, Db}
use openqqwaifu.Reminders.Due.{delivery_result}
use openqqwaifu.Delivery.{
  Mode, commit_delivery, sent_state, sent_row, has_outbox, is_status, update_sent,
}
use openqqwaifu.Delivery.Review.{
  retry_reminder, resolve_delivery, review_effect, reopen_event, reopen_outbox, is_reviewable,
  add_audit,
}
use openqqwaifu.Delivery.Attempts.{
  IsCounted, OptionCounted, EventCounted, DbCounted, retries, is_retry_of, first_attempt-le,
}
use openqqwaifu.Delivery.Kept.{
  delivery_result_frame, Counted, update_sent-Counted, delivery_result-Counted,
}
use openqqwaifu.Delivery.Steps.{commit_delivery-Counted}

-- What a review that succeeds has checked, and what it writes.
pub resolve_delivery_inv :
    (os : Platform) (mode : Mode) (db : Db) (outbox_id : String) (action : ReviewAction)
    (note : String) (attempts : Option ℕ) (state : Option SendState) (enabled : String → Bool)
    (now wall : ℕ) (db' : Db)
    → resolve_delivery os mode db outbox_id action note attempts state enabled now wall ≡ ok db'
    → (r : Event × Outbox) × (d : Db) × (sent_row db outbox_id ≡ some r)
      × (is_reviewable r.1.state ≡ true)
      × (review_effect os mode db outbox_id r.0 r.1 action enabled now wall ≡ ok d)
      × (db' ≡ add_audit action outbox_id wall d)
unfolding resolve_delivery
resolve_delivery_inv os mode db outbox_id action note attempts state enabled now wall db' e =
    elim (Option-cases (sent_row db outbox_id)) [
      | inl missing ↦ absurd (ground (arith, missing))
      | inr (r, found) ↦
          elim (Result-cases (review_effect os mode db outbox_id r.0 r.1 action enabled now wall)) [
            | inr (x, failed) ↦ absurd (ground (arith, found, failed))
            | inl (d, done) ↦
                (r, d, found, ground (arith, found, done), done, ground (arith, found, done))
          ]
    ]

-- One more audit row.
abbrev pub more : List Audit → Audit → List Audit
more audit a = audit ++ a ∷ []

module _ (audit : List Audit) (a : Audit) where
  retries-more : (id : String) → retries audit id ≤ retries (more audit a) id
  retries-more id = omega (arith, count_where-append (is_retry_of id) audit (a ∷ []))

  IsCounted-more : (o : Outbox) → IsCounted audit o → IsCounted (more audit a) o
  IsCounted-more o h = record {
    rows = h.rows;
    bound = omega (arith, h.bound, retries-more o.outbox_id);
  }

  pub OptionCounted-more :
      (x : Option Outbox) → OptionCounted audit x → OptionCounted (more audit a) x
  OptionCounted-more none h = tt
  OptionCounted-more (some o) h = IsCounted-more o h

  pub EventCounted-more : (e : Event) → EventCounted audit e → EventCounted (more audit a) e
  EventCounted-more e h = OptionCounted-more e.outbox h

  pub DbCounted-more : (db : Db) → Counted audit db → All (EventCounted (more audit a)) db.inbox
  DbCounted-more db h = All-imp _ (EventCounted (more audit a)) EventCounted-more db.inbox h.1

abbrev audit_row : ReviewAction → String → ℕ → Audit
audit_row action outbox_id wall = record {
  created_at = wall;
  action = action;
  target_id = outbox_id;
}

-- A row after the retry of `id` that is being written to the audit table.
module _ (audit : List Audit) (id : String) (wall : ℕ) where
  retried-IsCounted :
      (o : Outbox)
      → str_eq o.outbox_id id ≡ true
      → IsCounted audit o
      → IsCounted
          (more audit (audit_row ReviewAction.retry id wall))
          (reopen_outbox SendState.pending o)
  retried-IsCounted o same h =
      let counted : str_eq id o.outbox_id ≡ true =
        (eq_iff id o.outbox_id).1 (sym ((eq_iff o.outbox_id id).0 same)) in
      record {
        rows = h.rows;
        bound = ground (
          arith,
          h.bound,
          counted,
          first_attempt-le o.state,
          count_where-append (is_retry_of o.outbox_id) audit
              (audit_row ReviewAction.retry id wall ∷ []),
        );
      }

  retried-OptionCounted :
      (x : Option Outbox)
      → (elim x [ none ↦ false | some o ↦ str_eq o.outbox_id id ]) ≡ true
      → OptionCounted audit x
      → OptionCounted
          (more audit (audit_row ReviewAction.retry id wall))
          (elim x [ none ↦ none | some o ↦ some (reopen_outbox SendState.pending o) ])
  retried-OptionCounted none e h = tt
  retried-OptionCounted (some o) e h = retried-IsCounted o e h

discarded-OptionCounted :
    (audit : List Audit) (x : Option Outbox)
    → OptionCounted audit x
    → OptionCounted audit
        (elim x [ none ↦ none | some o ↦ some (reopen_outbox SendState.cancelled o) ])
discarded-OptionCounted audit none h = tt
discarded-OptionCounted audit (some o) h = record {
  rows = h.rows;
  bound = omega (arith, h.bound, first_attempt-le o.state);
}

-- The two parts of what an action must keep.
abbrev Reviewed : List Audit → ReviewAction → String → ℕ → Db → Type 0
Reviewed audit action id wall d =
    (d.audit ≡ audit) × All (EventCounted (more audit (audit_row action id wall))) d.inbox

module _ (os : Platform) (mode : Mode) (db : Db) (id : String) (e : Event) (o : Outbox)
    (enabled : String → Bool) (now wall : ℕ) (audit : List Audit) (h : Counted audit db) where
  sent-is_status : (m : Mode) → is_status (sent_state m) ≡ true
  sent-is_status Mode.live = refl
  sent-is_status Mode.capture = refl

  discard-Reviewed :
      (action : ReviewAction)
      → Reviewed audit action id wall (
          delivery_result
            (update_sent id
              (reopen_event SendState.cancelled EventState.cancelled TurnState.cancelled)
              db)
            e
            SendState.cancelled
            now)
  unfolding reopen_event
  discard-Reviewed action =
      let closed =
        update_sent id (reopen_event SendState.cancelled EventState.cancelled TurnState.cancelled)
          db in
      let kept : Counted audit closed =
        update_sent-Counted audit id
          (reopen_event SendState.cancelled EventState.cancelled TurnState.cancelled) db
          (λ r. discarded-OptionCounted audit r.outbox) h in
      let done = delivery_result-Counted audit closed e SendState.cancelled now kept in
      (
        done.0,
        DbCounted-more audit (audit_row action id wall)
            (delivery_result closed e SendState.cancelled now) done,
      )

  retry-Reviewed : Reviewed audit ReviewAction.retry id wall (
      delivery_result
        (update_sent id
          (reopen_event SendState.pending EventState.outbox_ready TurnState.awaiting_delivery)
          db)
        e
        SendState.pending
        now)
  unfolding reopen_event
  retry-Reviewed =
      let row = audit_row ReviewAction.retry id wall in
      let reopened =
        update_sent id
          (reopen_event SendState.pending EventState.outbox_ready TurnState.awaiting_delivery) db in
      let (same_inbox, same_audit) = delivery_result_frame reopened e SendState.pending now in
      (
        same_audit ∙ h.0,
        rw same_inbox (
            All-update_to (EventCounted audit) (EventCounted (more audit row)) (has_outbox id)
              (reopen_event SendState.pending EventState.outbox_ready TurnState.awaiting_delivery)
              (λ r k c. retried-OptionCounted audit id wall r.outbox k c)
              (EventCounted-more audit row) db.inbox h.1),
      )

  review_effect-Reviewed :
      (action : ReviewAction) (d : Db)
      → review_effect os mode db id e o action enabled now wall ≡ ok d
      → Reviewed audit action id wall d
  unfolding review_effect
  review_effect-Reviewed ReviewAction.confirm_sent d k =
      let same : d ≡ commit_delivery db e o (sent_state mode) "" "" now wall = ground arith in
      let kept =
        commit_delivery-Counted audit db e o (sent_state mode) "" "" now wall (sent-is_status mode)
          h in
      rw same (
        kept.0,
        DbCounted-more audit (audit_row ReviewAction.confirm_sent id wall)
            (commit_delivery db e o (sent_state mode) "" "" now wall) kept,
      )
  review_effect-Reviewed ReviewAction.retry d k =
      elim (Result-cases (retry_reminder os db e enabled now)) [
        | inr (x, failed) ↦ absurd (ground (arith, failed))
        | inl (u, passed) ↦
            let same : d
                ≡ delivery_result
                    (update_sent id
                      (reopen_event SendState.pending EventState.outbox_ready
                        TurnState.awaiting_delivery)
                      db)
                    e SendState.pending now =
              ground (arith, passed) in
            rw same retry-Reviewed
      ]
  review_effect-Reviewed ReviewAction.discard d k =
      Ensures-ok (Reviewed audit ReviewAction.discard id wall) _
        (discard-Reviewed ReviewAction.discard) k
  review_effect-Reviewed ReviewAction.resume_generation d k =
      Ensures-ok (Reviewed audit ReviewAction.resume_generation id wall) _
        (discard-Reviewed ReviewAction.resume_generation) k

-- A review keeps every outbox row counted.
pub resolve_delivery-DbCounted :
    (os : Platform) (mode : Mode) (db : Db) (outbox_id : String) (action : ReviewAction)
    (note : String) (attempts : Option ℕ) (state : Option SendState) (enabled : String → Bool)
    (now wall : ℕ) (db' : Db)
    → resolve_delivery os mode db outbox_id action note attempts state enabled now wall ≡ ok db'
    → DbCounted db
    → DbCounted db'
resolve_delivery-DbCounted os mode db outbox_id action note attempts state enabled now wall db' k
      h =
    let (r, d, found, reviewable, done, same) =
      resolve_delivery_inv os mode db outbox_id action note attempts state enabled now wall db' k in
    let (kept, rows) =
      review_effect-Reviewed os mode db outbox_id r.0 r.1 enabled now wall db.audit (refl, h) action
        d done in
    rw (same, kept) rows
