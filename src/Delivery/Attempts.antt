-- ===== src/Delivery/Attempts.antt =====
-- The count of the delivery attempts of an outbox row, against its attempt rows and the retries in
-- the audit table, and the functions on one row.
use openqqwaifu.Prelude.{
  ℕ, ◌+◌, ◌≤◌, ◌==◌, String, ◌≡◌, ◌∙◌, refl, Bool, true, false, Option, none, some, List, arith,
  str_eq, length, length-snoc, length-update_where, length-map, count_where, All,
}
use openqqwaifu.Tables.{Event, Outbox, SendState, Audit, ReviewAction, Db}
use openqqwaifu.Reminders.{cancel_event, cancel_outbox}
use openqqwaifu.Delivery.{start_attempt, deliver_event, deliver_outbox, close_attempt, is_status}
use openqqwaifu.Delivery.Recovery.{lose_outbox, lose_attempt, recover_event, stop_event}

abbrev pub is_retry_of : String → Audit → Bool
is_retry_of outbox_id a = elim a.action [
  | ReviewAction.retry ↦ str_eq a.target_id outbox_id
  | _ ↦ false
]

abbrev pub retries : List Audit → String → ℕ
retries audit outbox_id = count_where (is_retry_of outbox_id) audit

-- One attempt is free, and a pending message has it still ahead.
abbrev pub first_attempt : SendState → ℕ
first_attempt SendState.pending = 0
first_attempt _ = 1

pub record IsCounted (audit : List Audit) (o : Outbox) : Type 0 where
  pub rows : length o.delivery_attempts ≡ o.attempts
  pub bound : o.attempts ≤ retries audit o.outbox_id + first_attempt o.state

abbrev pub OptionCounted : List Audit → Option Outbox → Type 0
OptionCounted audit none = Unit
OptionCounted audit (some o) = IsCounted audit o

abbrev pub EventCounted : List Audit → Event → Type 0
EventCounted audit e = OptionCounted audit e.outbox

-- Every outbox row of the database is counted.
abbrev pub DbCounted : Db → Type 0
DbCounted db = All (EventCounted db.audit) db.inbox

pub first_attempt-le : (s : SendState) → first_attempt s ≤ 1
first_attempt-le SendState.pending = omega arith
first_attempt-le _ = omega arith

first_attempt-status : (s : SendState) → is_status s ≡ true → first_attempt s ≡ 1
first_attempt-status SendState.pending h = absurd (cc h)
first_attempt-status _ h = refl

module _ (audit : List Audit) where
  cancel_outbox-IsCounted :
      (reason : String) (x : Option Outbox)
      → OptionCounted audit x
      → OptionCounted audit (cancel_outbox reason x)
  unfolding cancel_outbox
  cancel_outbox-IsCounted reason none h = tt
  cancel_outbox-IsCounted reason (some o) h = ground arith

  outbox-cancel_event :
      (reason : String) (e : Event) → (cancel_event reason e).outbox ≡ cancel_outbox reason e.outbox
  unfolding cancel_event
  outbox-cancel_event reason e = ground arith

  pub cancel_event-IsCounted :
      (reason : String) (e : Event)
      → EventCounted audit e
      → EventCounted audit (cancel_event reason e)
  cancel_event-IsCounted reason e h =
      rw (outbox-cancel_event reason e) (cancel_outbox-IsCounted reason e.outbox h)

  pub start_attempt-IsCounted :
      (now : ℕ) (o : Outbox) → IsCounted audit o → IsCounted audit (start_attempt now o)
  unfolding start_attempt
  start_attempt-IsCounted now o h = ground (
    arith,
    length-snoc o.delivery_attempts record {
      attempt = o.attempts + 1;
      started_at = now;
      finished_at = none;
      state = SendState.dispatching;
    },
  )

  pub map_outbox-counted :
      (f : Outbox → Outbox) (audit' : List Audit) (x : Option Outbox)
      → ((o : Outbox) → x ≡ some o → IsCounted audit o → IsCounted audit' (f o))
      → OptionCounted audit x
      → OptionCounted audit' (elim x [ none ↦ none | some o ↦ some (f o) ])
  map_outbox-counted f audit' none keep h = tt
  map_outbox-counted f audit' (some o) keep h = keep o refl h

  deliver_outbox-IsCounted :
      (status : SendState) (platform_id error_code : String) (last wall : ℕ) (o : Outbox)
      → is_status status ≡ true
      → IsCounted audit o
      → IsCounted audit (deliver_outbox status platform_id error_code last wall o)
  deliver_outbox-IsCounted status platform_id error_code last wall o known h = record {
    rows =
        length-update_where (λ a. a.attempt == last) (close_attempt status wall) o.delivery_attempts
        ∙ h.rows;
    bound = omega (arith, h.bound, first_attempt-le o.state, first_attempt-status status known);
  }

  pub deliver_event-counted :
      (status : SendState) (platform_id error_code : String) (wall : ℕ) (o : Outbox) (e : Event)
      → is_status status ≡ true
      → EventCounted audit e
      → EventCounted audit (deliver_event status platform_id error_code wall o e)
  unfolding deliver_event
  deliver_event-counted status platform_id error_code wall o e known h =
      map_outbox-counted (deliver_outbox status platform_id error_code o.attempts wall) audit
        e.outbox
        (λ x _. deliver_outbox-IsCounted status platform_id error_code o.attempts wall x known) h

  lose_outbox-IsCounted :
      (wall : ℕ) (o : Outbox) → IsCounted audit o → IsCounted audit (lose_outbox wall o)
  lose_outbox-IsCounted wall o h =
      ground (arith, length-map (lose_attempt wall) o.delivery_attempts)

  pub outbox-recover_event :
      (wall : ℕ) (e : Event)
      → (recover_event wall e).outbox
        ≡ elim e.outbox [ none ↦ none | some o ↦ some (lose_outbox wall o) ]
  unfolding recover_event
  outbox-recover_event wall e = ground arith

  pub recover_event-counted :
      (wall : ℕ) (e : Event) → EventCounted audit e → EventCounted audit (recover_event wall e)
  recover_event-counted wall e h =
      rw (outbox-recover_event wall e) (
        map_outbox-counted (lose_outbox wall) audit e.outbox (λ o _. lose_outbox-IsCounted wall o)
          h)

  outbox-stop_event :
      (ignored : Bool) (error_code : String) (e : Event)
      → (stop_event ignored error_code e).outbox ≡ e.outbox
  unfolding stop_event
  outbox-stop_event ignored error_code e = ground arith

  pub stop_event-counted :
      (ignored : Bool) (error_code : String) (e : Event)
      → EventCounted audit e
      → EventCounted audit (stop_event ignored error_code e)
  stop_event-counted ignored error_code e h = rw (outbox-stop_event ignored error_code e) h
