-- ===== src/Examples.antt =====
-- The theorems at concrete databases: a reminder on its way, a message, and the rules of contact.
mod Console
mod Binding
mod Chatter
mod Episode
mod Games
mod Locks
mod Recall
mod Rules
mod Throws
use openqqwaifu.Prelude.{
  ℕ, ◌+◌, ◌*◌, ◌≤◌, ◌<◌, ◌≡◌, ◌↔◌, ◌⊎◌, refl, String, true, false, none, some, List, [], ◌∷◌, All,
  sort, length, count_where, arith,
}
use openqqwaifu.Result.{Error, ok, err}
use openqqwaifu.Platform.{is_blank}
use openqqwaifu.Tables.{
  Event, SendState, ReviewAction, Policy, Db, minute_span, day_span, pending_count,
}
use openqqwaifu.Contact.Quiet.{in_quiet, minute, next_open}
use openqqwaifu.Contact.Quiet.Opens.{FirstOpen, next_open-FirstOpen, next_open_total}
use openqqwaifu.Contact.Decision.{
  for_task, decision, policy, quiet_hours, frequency, attempts, interval, refuse,
}
use openqqwaifu.Contact.Decision.Frequency.{Allowed, span_of}
use openqqwaifu.Contact.Decision.Permits.{Permits, decision_exact}
use openqqwaifu.Contact.Decision.Rolling.{
  Contacted, start, contact, in_window, Spaced, rolling_limit, spacing,
}
use openqqwaifu.Contact.Decision.Reopens.{frequency_reopens}
use openqqwaifu.Reminders.{eligibility, contact_blocked}
use openqqwaifu.Reminders.Due.{before_dispatch, clear_to_go, task_for_event, delivery_result}
use openqqwaifu.Reminders.Tick.{
  tick, tick_loop, tick_task, offer, enqueue, order_tasks, insert_task,
}
use openqqwaifu.Reminders.Bounds.{tick_bounded}
use openqqwaifu.Reminders.Counts.{enqueued}
use openqqwaifu.Inbox.{take_seq}
use openqqwaifu.Turns.{Work, next_work, head_of, work_on, start_turn, is_ready}
use openqqwaifu.Turns.Order.{IsHead, next_work_in_order}
use openqqwaifu.Delivery.{
  Mode, begin_dispatch, commit_dispatch, record_contact, start_attempt, finish_delivery,
}
use openqqwaifu.Delivery.Review.{resolve_delivery, review_effect, retry_reminder}
use openqqwaifu.Delivery.Recovery.{recover}
use openqqwaifu.Delivery.Once.{begin_dispatch_once}
use openqqwaifu.Delivery.Permitted.{IsPermitted, begin_dispatch-IsPermitted}
use openqqwaifu.Delivery.Restart.{IsAtRest, recover-IsAtRest, recover_no_resend}
use openqqwaifu.Delivery.Outcome.{IsDelivered, finish_delivery-IsDelivered, finish_delivery_once}
use openqqwaifu.Delivery.Trace.{here, next, dispatch, restart, review, IsLimited, attempts_bounded}
use openqqwaifu.Dedup.{Dedup, Limits, cap, claim, mark_delivered, release, prune, append, evict}
use openqqwaifu.Dedup.Claims.{claim_bounded}
use openqqwaifu.Dedup.Runs.{Call, claimed, failed, run, Spares}
use openqqwaifu.Dedup.Kept.{claim_once, delivered_stays}
use openqqwaifu.Dedup.Marks.{IsMarked, marks_kept}
use openqqwaifu.Dedup.Retry.{release_reopens}
use openqqwaifu.Sample.{
  utc, utc-IsLawful, utc-IsSteady, noon, later, reminded, sending, received, all_enabled,
  no_memories, fresh, chat_policy, hello, hello_context, sent_contact, tea_sent, after, after_with,
}

reminder_goes_out : begin_dispatch utc reminded "o2" all_enabled noon ≡ ok (sending, true)
unfolding begin_dispatch before_dispatch task_for_event clear_to_go commit_dispatch record_contact
    start_attempt eligibility contact_blocked for_task decision policy quiet_hours in_quiet minute
    frequency attempts sort interval
reminder_goes_out = refl

begin_dispatch_once_example :
    begin_dispatch utc sending "o2" all_enabled later ≡ ok (sending, false)
begin_dispatch_once_example =
    begin_dispatch_once utc reminded sending "o2" all_enabled all_enabled noon later
      reminder_goes_out

begin_dispatch-IsPermitted_example : IsPermitted utc reminded noon all_enabled "o2"
begin_dispatch-IsPermitted_example =
    begin_dispatch-IsPermitted utc reminded noon sending "o2" all_enabled reminder_goes_out

-- The program stops while it sends the reminder; a person has it sent again.
abbrev lost : Db
lost = recover sending noon noon

abbrev retried : Db
retried = after lost (
    resolve_delivery utc Mode.live lost "o2" ReviewAction.retry "again" none none all_enabled later
      later)

retry_works :
    resolve_delivery utc Mode.live lost "o2" ReviewAction.retry "again" none none all_enabled later
      later
    ≡ ok retried
unfolding resolve_delivery is_blank recover delivery_result review_effect retry_reminder eligibility
    for_task decision policy quiet_hours in_quiet minute frequency attempts sort interval
retry_works = refl

attempts_bounded_example : All (λ e. IsLimited retried.audit e.outbox) retried.inbox
attempts_bounded_example =
    attempts_bounded utc no_memories Mode.live {start = reminded} {db = retried}
      (record { rows = refl; bound = omega arith }, tt)
      (next
        (next (next here (dispatch "o2" all_enabled noon true reminder_goes_out))
          (restart noon noon))
        (review "o2" ReviewAction.retry "again" none none all_enabled later later retry_works))

recover-IsAtRest_example : All IsAtRest lost.inbox
recover-IsAtRest_example = recover-IsAtRest sending noon noon

recover_no_resend_example : begin_dispatch utc lost "o2" all_enabled later ≡ ok (lost, false)
recover_no_resend_example =
    recover_no_resend utc sending "o2" tea_sent all_enabled noon noon later refl refl

abbrev delivered : Db
delivered =
    after sending (finish_delivery Mode.live sending "o2" SendState.accepted "m9" "" later later)

delivery_works :
    finish_delivery Mode.live sending "o2" SendState.accepted "m9" "" later later ≡ ok delivered
unfolding finish_delivery
delivery_works = refl

finish_delivery-IsDelivered_example : IsDelivered "o2" SendState.accepted sending delivered
finish_delivery-IsDelivered_example =
    finish_delivery-IsDelivered Mode.live sending delivered "o2" SendState.accepted "m9" "" later
      later delivery_works

finish_delivery_once_example :
    (x : Error) × (finish_delivery Mode.live delivered "o2" SendState.unknown "" "timeout" later
        later
      ≡ err x)
finish_delivery_once_example =
    finish_delivery_once Mode.live sending delivered "o2" SendState.accepted "m9" "" later later
      SendState.unknown "" "timeout" later later delivery_works

abbrev generating : Db
generating =
    after_with received (next_work utc no_memories received "u1" "v1" all_enabled noon noon fresh)

message_is_next :
    next_work utc no_memories received "u1" "v1" all_enabled noon noon fresh
    ≡ ok (generating, some (Work.turn hello_context hello none))
unfolding next_work head_of work_on start_turn
message_is_next = refl

next_work_in_order_example :
    (e : Event) × IsHead "u1" received.inbox e
    × (is_ready e.state ≡ true)
    × (hello_context.event_id ≡ e.event_id)
next_work_in_order_example =
    next_work_in_order utc no_memories received generating "u1" "v1" all_enabled noon noon fresh
      hello_context hello none message_is_next

abbrev ids : ℕ → String
ids n = "e9"

abbrev ticked : Db
ticked = after_with received (tick utc all_enabled ids noon 10 received)

reminder_is_due : tick utc all_enabled ids noon 10 received ≡ ok (ticked, 1)
unfolding tick tick_loop order_tasks tick_task eligibility contact_blocked for_task decision policy
    quiet_hours in_quiet minute frequency attempts sort interval offer enqueue take_seq insert_task
reminder_is_due = refl

tick_bounded_example :
    (length ticked.inbox ≡ length received.inbox + 1)
    × (1 ≤ 32)
    × ((◌≡◌ {A = ℕ} 1 0) ⊎ (pending_count received + 1 ≤ 10 + enqueued received.tasks))
tick_bounded_example = tick_bounded utc all_enabled ids noon 10 received ticked 1 reminder_is_due

decision_exact_example :
    Allowed (decision utc sending "u1" later "reminder" false "UTC")
    ↔ ((p : Policy) × Permits utc sending "u1" later "reminder" false "UTC" p)
decision_exact_example = decision_exact utc sending "u1" later "reminder" false "UTC"

two_contacts : Contacted utc sending "u1" (sent_contact later ∷ sent_contact noon ∷ [])
unfolding decision policy quiet_hours in_quiet minute frequency attempts sort interval
two_contacts =
    contact (sent_contact later) "reminder" "UTC" false
      (contact (sent_contact noon) "reminder" "UTC" false start tt refl) (omega arith, tt) refl

rolling_limit_example :
    count_where (in_window "u1" 0) (sent_contact later ∷ sent_contact noon ∷ [])
    ≤ chat_policy.daily_limit
unfolding policy
rolling_limit_example =
    rolling_limit utc sending "u1" chat_policy refl (sent_contact later ∷ sent_contact noon ∷ [])
      two_contacts 0

spacing_example : Spaced "u1" (span_of chat_policy) (sent_contact later ∷ sent_contact noon ∷ [])
unfolding policy
spacing_example =
    spacing utc sending "u1" chat_policy refl (sent_contact later ∷ sent_contact noon ∷ [])
      two_contacts (omega arith)

abbrev once_a_day : Policy
once_a_day = record chat_policy { daily_limit = 1 }

frequency_reopens_example :
    (w : ℕ) × (frequency once_a_day (attempts sending "u1" later) later
      ≡ refuse once_a_day "contact_daily_limit" (some w))
    × ((length (attempts sending "u1" (noon + day_span)) < 1) ↔ (w ≤ noon + day_span))
unfolding attempts sort
frequency_reopens_example =
    frequency_reopens sending "u1" once_a_day later (noon + day_span) (omega arith) (omega arith)
      (omega arith)

ten_to_eight : next_open utc "UTC" "22:00" "08:00" 1350 ≡ ok (some (1920 * minute_span))
unfolding next_open in_quiet minute
ten_to_eight = refl

next_open-FirstOpen_example : FirstOpen utc "UTC" "22:00" "08:00" 1351 1560 (1920 * minute_span)
next_open-FirstOpen_example =
    next_open-FirstOpen utc "UTC" "22:00" "08:00" 1350 (1920 * minute_span) ten_to_eight

next_open_total_example :
    (t : ℕ) × (next_open utc "UTC" "22:00" "08:00" 1350 ≡ ok (some t))
    × FirstOpen utc "UTC" "22:00" "08:00" 1351 1440 t
unfolding minute
next_open_total_example =
    next_open_total utc utc-IsLawful "UTC" utc-IsSteady "22:00" "08:00" 1320 480 refl refl refl
      (λ e. absurd (omega (arith, e))) 1350

abbrev small : Limits
small = record { id_ttl = 600; content_window = 10; max_entries = 2 }

abbrev none_seen : Dedup
none_seen = record { entries = []; delivered = [] }

abbrev one_seen : Dedup
one_seen = (claim small "id|person:1|m1" 600 0 none_seen).0

claim_works : (claim small "id|person:1|m2" 600 5 one_seen).1 ≡ some "id|person:1|m2"
unfolding claim prune append evict
claim_works = refl

-- Meanwhile another message is claimed, and its handling fails.
abbrev meanwhile : List Call
meanwhile = claimed "id|person:1|m3" 600 50 ∷ failed "id|person:1|m3" ∷ []

meanwhile-Spares : All (Spares "id|person:1|m2" 100) meanwhile
meanwhile-Spares = (omega arith, (refl, tt))

claim_once_example :
    (claim small "id|person:1|m2" 600 100
      (run small meanwhile (claim small "id|person:1|m2" 600 5 one_seen).0)).1
    ≡ none
claim_once_example =
    claim_once small "id|person:1|m2" 600 600 5 100 one_seen meanwhile claim_works (omega arith)
      meanwhile-Spares (omega arith)

delivered_stays_example :
    (claim small "id|person:1|m2" 600 100 (
      run small [] (
        release (some "id|person:1|m2") (
          mark_delivered "id|person:1|m2"
            (run small meanwhile (claim small "id|person:1|m2" 600 5 one_seen).0))))).1
    ≡ none
delivered_stays_example =
    delivered_stays small "id|person:1|m2" 600 600 5 100 one_seen meanwhile [] claim_works
      (omega arith) meanwhile-Spares tt (omega arith)

one_seen-IsMarked : IsMarked one_seen.entries one_seen.delivered
unfolding claim prune append evict
one_seen-IsMarked = tt

release_reopens_example :
    (claim small "id|person:1|m2" 600 100
      (release (some "id|person:1|m2") (claim small "id|person:1|m2" 600 5 one_seen).0)).1
    ≡ some "id|person:1|m2"
release_reopens_example =
    release_reopens small "id|person:1|m2" 600 600 5 100 one_seen (λ e. cc e) one_seen-IsMarked
      claim_works

marks_kept_example :
    IsMarked (claim small "a" 600 5 one_seen).0.entries (claim small "a" 600 5 one_seen).0.delivered
    × IsMarked (mark_delivered "a" one_seen).entries (mark_delivered "a" one_seen).delivered
    × IsMarked (release (some "a") one_seen).entries (release (some "a") one_seen).delivered
marks_kept_example = marks_kept small "a" 600 5 one_seen one_seen-IsMarked

claim_bounded_example : length (claim small "a" 600 5 none_seen).0.entries ≤ cap small.max_entries
claim_bounded_example = claim_bounded small "a" 600 5 none_seen (omega arith)
