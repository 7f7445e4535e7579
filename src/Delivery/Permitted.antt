-- ===== src/Delivery/Permitted.antt =====
-- What has been checked when a message goes out.
use mathlib.Core.Option.{some_inj}
use openqqwaifu.Prelude.{
  ◌∙◌, ℕ, ◌≡◌, refl, sym, subst, String, Bool, true, false, not, Option, none, some, inl, inr,
  Bool-cases, if◌then◌else◌, ◌&&◌, arith,
}
use openqqwaifu.Result.{
  ok, Ensures, Ensures-bind, Ensures-if, Ensures-ok, Ensures-option, Ensures-always,
}
use openqqwaifu.Platform.{Platform}
use openqqwaifu.Tables.{Event, Outbox, SendState, Task, Policy, Db}
use openqqwaifu.Contact.Decision.{for_task}
use openqqwaifu.Contact.Decision.Frequency.{Allowed}
use openqqwaifu.Contact.Decision.Permits.{Permits, decision_exact}
use openqqwaifu.Reminders.{eligibility, contact_blocked, is_pending}
use openqqwaifu.Reminders.Due.{task_for_event, is_current, clear_to_go, before_dispatch}
use openqqwaifu.Delivery.{event_of, sendable, commit_dispatch, begin_dispatch}

abbrev pub task_zone : Task → String
task_zone task = if task.timezone_confirmed then task.timezone else ""

-- The reminder's task, at the version of the occurrence, may be sent at `now`.
pub record IsDue (os : Platform) (db : Db) (enabled : String → Bool) (now : ℕ) (task : Task)
    (version : ℕ) : Type 0 where
  pub current : is_current task version ≡ true
  pub eligible : eligibility db task enabled now ≡ none
  pub permitted :
      (p : Policy) × Permits os db task.conversation_id now "reminder" task.allow_quiet
        (task_zone task)
        p

pending_only : (s : SendState) → is_pending s ≡ true → s ≡ SendState.pending
pending_only SendState.pending h = refl
pending_only _ h = absurd (cc h)

module _ (os : Platform) (db : Db) (now : ℕ) where
  contact_blocked-Allowed :
      (task : Task)
      → Ensures
          (λ (r : Db × Bool). r.1 ≡ false → Allowed (for_task os db task now))
          (contact_blocked os db task now)
  unfolding contact_blocked
  contact_blocked-Allowed task =
      let Q = λ (r : Db × Bool). r.1 ≡ false → Allowed (for_task os db task now) in
      Ensures-bind Q (for_task os db task now) _ λ d e.
        Ensures-if Q d.allowed _ _ (λ pos _. subst Allowed (sym e) pos) (λ _ neg. absurd (cc neg))

  clear_to_go-clear :
      (task : Task) (enabled : String → Bool)
      → Ensures
          (λ (r : Db × Bool).
            r.1 ≡ true
            → (eligibility db task enabled now ≡ none) × Allowed (for_task os db task now))
          (clear_to_go os db task enabled now)
  unfolding clear_to_go
  clear_to_go-clear task enabled =
      let Q = λ (r : Db × Bool).
        r.1 ≡ true → (eligibility db task enabled now ≡ none) × Allowed (for_task os db task now) in
      Ensures-option Q (eligibility db task enabled now) _ _
        (λ fit. Ensures-bind Q (contact_blocked os db task now) _ λ r e pos. (
          fit,
          Ensures-ok (λ (r : Db × Bool). r.1 ≡ false → Allowed (for_task os db task now)) _
              (contact_blocked-Allowed task) e (ground (arith, pos)),
        ))
        (λ b _ pos. absurd (cc pos))

  -- If the event is a reminder's, its task is due.
  abbrev ReminderDue : (String → Bool) → Event → Type 0
  ReminderDue enabled e =
      (task : Task) (version : ℕ)
      → task_for_event db e ≡ some (task, version)
      → IsDue os db enabled now task version

  abbrev pub OptionDue : (String → Bool) → Option (Task × ℕ) → Type 0
  OptionDue enabled none = Unit
  OptionDue enabled (some (task, version)) = IsDue os db enabled now task version

  option_due :
      (enabled : String → Bool) (x : Option (Task × ℕ))
      → ((task : Task) (version : ℕ)
          → x ≡ some (task, version)
          → IsDue os db enabled now task version)
      → OptionDue enabled x
  option_due enabled none h = tt
  option_due enabled (some (task, version)) h = h task version refl

  before_dispatch-ReminderDue :
      (e : Event) (enabled : String → Bool)
      → Ensures
          (λ (r : Db × Bool). r.1 ≡ true → ReminderDue enabled e)
          (before_dispatch os db e enabled now)
  unfolding before_dispatch for_task
  before_dispatch-ReminderDue e enabled =
      let Q = λ (r : Db × Bool). r.1 ≡ true → ReminderDue enabled e in
      Ensures-option Q (task_for_event db e) _ _
        (λ missing _ task version found. absurd (cc (missing, found)))
        λ t found.
          Ensures-if Q (not (is_current t.0 t.1)) _ _ (λ _ neg. absurd (cc neg))
            λ fresh.
              Ensures-bind Q (clear_to_go os db t.0 enabled now) _ λ r k pos task version same.
                let one : t ≡ (task, version) = some_inj.0 (sym found ∙ same) in
                let (fit, allowed) =
                  Ensures-ok
                    (λ (r : Db × Bool).
                      r.1 ≡ true
                      → (eligibility db t.0 enabled now ≡ none) × Allowed (for_task os db t.0 now))
                    _ (clear_to_go-clear t.0 enabled) k pos in
                subst (λ (q : Task × ℕ). IsDue os db enabled now q.0 q.1) one
                  (record {
                    current = ground (arith, fresh);
                    eligible = fit;
                    permitted =
                        (decision_exact os db t.0.conversation_id now "reminder" t.0.allow_quiet
                            (task_zone t.0)).0
                          allowed;
                  })

  -- The message waits, has its content, and is due if it is a reminder.
  pub record IsPermitted (enabled : String → Bool) (outbox_id : String) : Type 0 where
    pub event : Event
    pub outbox : Outbox
    pub found : event_of db outbox_id ≡ some event
    pub held : event.outbox ≡ some outbox
    pub waiting : outbox.state ≡ SendState.pending
    pub whole : outbox.erased ≡ false
    pub due : OptionDue enabled (task_for_event db event)

  sendable_inv :
      (x : Option Outbox) (o : Outbox)
      → (elim x [
        | none ↦ none
        | some o ↦ if is_pending o.state && not o.erased then some o else none
      ])
        ≡ some o
      → (x ≡ some o) × (o.state ≡ SendState.pending) × (o.erased ≡ false)
  sendable_inv none o h = absurd (cc h)
  sendable_inv (some q) o h = elim (Bool-cases (is_pending q.state && not q.erased)) [
    | inr neg ↦ absurd (cc (rw neg at h))
    | inl pos ↦
        let same : q ≡ o = some_inj.0 (rw pos at h) in
        subst (λ r. (some q ≡ some r) × (r.state ≡ SendState.pending) × (r.erased ≡ false)) same
          (refl, pending_only q.state (ground (arith, pos)), ground (arith, pos))
  ]

  dispatch_checked :
      (outbox_id : String) (enabled : String → Bool)
      → Ensures
          (λ (r : Db × Bool). r.1 ≡ true → IsPermitted enabled outbox_id)
          (begin_dispatch os db outbox_id enabled now)
  unfolding begin_dispatch
  dispatch_checked outbox_id enabled =
      let Q = λ (r : Db × Bool). r.1 ≡ true → IsPermitted enabled outbox_id in
      Ensures-option Q (event_of db outbox_id) _ _ (λ _ neg. absurd (cc neg))
        λ e found.
          Ensures-option Q (sendable e) _ _ (λ _ neg. absurd (cc neg))
            λ o fit. Ensures-bind Q (before_dispatch os db e enabled now) _ λ r k.
              let due : r.1 ≡ true → ReminderDue enabled e =
                Ensures-ok (λ (r : Db × Bool). r.1 ≡ true → ReminderDue enabled e) _
                  (before_dispatch-ReminderDue e enabled) k in
              let (held, waiting, whole) = sendable_inv e.outbox o fit in
              Ensures-if Q r.1 _ _
                (λ go. Ensures-always Q (commit_dispatch r.0 e outbox_id o now) (λ _ _. record {
                  event = e;
                  outbox = o;
                  found = found;
                  held = held;
                  waiting = waiting;
                  whole = whole;
                  due = option_due enabled (task_for_event db e) (due go);
                }))
                (λ _ neg. absurd (cc neg))

  -- A message goes out only if its row waits, with its content, and, if it is a reminder's, the task
  -- is at the version of the occurrence, enqueued and eligible, and its conversation's policy
  -- permits a message at that time: outside the quiet hours, under the daily limit, and spaced.
  pub begin_dispatch-IsPermitted :
      (db' : Db) (outbox_id : String) (enabled : String → Bool)
      → begin_dispatch os db outbox_id enabled now ≡ ok (db', true)
      → IsPermitted enabled outbox_id
  begin_dispatch-IsPermitted db' outbox_id enabled e =
      Ensures-ok (λ (r : Db × Bool). r.1 ≡ true → IsPermitted enabled outbox_id) _
        (dispatch_checked outbox_id enabled) e refl
