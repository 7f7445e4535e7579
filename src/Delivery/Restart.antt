-- ===== src/Delivery/Restart.antt =====
-- The rows after `recover`, and `begin_dispatch` on a message whose send was interrupted.
use openqqwaifu.Prelude.{
  ℕ, ◌≡◌, ◌∙◌, refl, sym, String, Bool, true, false, Option, none, some, List, [], ◌∷◌, All,
  All-image, map, inl, inr, Bool-cases, arith, find-map, subst,
}
use openqqwaifu.Result.{ok}
use openqqwaifu.Platform.{Platform}
use openqqwaifu.Tables.{Event, Outbox, SendState, Attempt, Db, set_inbox}
use openqqwaifu.Reminders.Due.{delivery_result}
use openqqwaifu.Delivery.{has_outbox, event_of, sendable, is_dispatching, begin_dispatch}
use openqqwaifu.Delivery.Recovery.{
  recover, recover_event, review_reminders, is_sending, is_generating, is_generating_turn,
  lose_attempt, is_unknown, lose_outbox,
}
use openqqwaifu.Delivery.Attempts.{outbox-recover_event}
use openqqwaifu.Delivery.Kept.{delivery_result_frame}

abbrev pub turn_runs : Event → Bool
turn_runs e = elim e.turn [ none ↦ false | some t ↦ is_generating_turn t.state ]

abbrev pub AttemptsClosed : Option Outbox → Type 0
AttemptsClosed none = Unit
AttemptsClosed (some o) = All (λ a. is_dispatching a.state ≡ false) o.delivery_attempts

-- No work is under way in the row: no generation, no send, no open attempt.
pub record IsAtRest (e : Event) : Type 0 where
  pub idle : is_generating e.state ≡ false
  pub planned : turn_runs e ≡ false
  pub unsent : is_sending e ≡ false
  pub closed : AttemptsClosed e.outbox

lose_attempt-closed : (wall : ℕ) (a : Attempt) → is_dispatching (lose_attempt wall a).state ≡ false
lose_attempt-closed wall a = ground arith

lost_attempts :
    (wall : ℕ) (o : Outbox)
    → (lose_outbox wall o).delivery_attempts ≡ map (lose_attempt wall) o.delivery_attempts
lost_attempts wall o = ground arith

lose_outbox-closed :
    (wall : ℕ) (x : Option Outbox)
    → AttemptsClosed (elim x [ none ↦ none | some o ↦ some (lose_outbox wall o) ])
lose_outbox-closed wall none = tt
lose_outbox-closed wall (some o) = rw (lost_attempts wall o) (
    All-image (λ a. is_dispatching a.state ≡ false) (lose_attempt wall) (lose_attempt-closed wall)
      o.delivery_attempts)

recover_event-IsAtRest : (wall : ℕ) (e : Event) → IsAtRest (recover_event wall e)
unfolding recover_event
recover_event-IsAtRest wall e = record {
  idle = ground arith;
  planned = ground arith;
  unsent = ground arith;
  closed =
      subst AttemptsClosed (sym (outbox-recover_event [] wall e))
        (lose_outbox-closed wall e.outbox);
}

review_reminders_frame :
    (now : ℕ) (es : List Event) (db : Db) → (review_reminders now es db).inbox ≡ db.inbox
unfolding review_reminders
review_reminders_frame now [] db = refl
review_reminders_frame now (e ∷ es) db = elim (Bool-cases (is_unknown e)) [
  | inl u ↦
      rw (review_reminders, u)
        (review_reminders_frame now es (delivery_result db e SendState.unknown now)
          ∙ (delivery_result_frame db e SendState.unknown now).0)
  | inr u ↦ rw (review_reminders, u) (review_reminders_frame now es db)
]

pub inbox-recover :
    (db : Db) (now wall : ℕ) → (recover db now wall).inbox ≡ map (recover_event wall) db.inbox
unfolding recover
inbox-recover db now wall =
    review_reminders_frame now (map (recover_event wall) db.inbox)
      (set_inbox db (map (recover_event wall) db.inbox))

-- After a restart no row of the inbox has a generation, a send or an attempt under way.
pub recover-IsAtRest : (db : Db) (now wall : ℕ) → All IsAtRest (recover db now wall).inbox
recover-IsAtRest db now wall =
    rw (inbox-recover db now wall)
      (All-image IsAtRest (recover_event wall) (recover_event-IsAtRest wall) db.inbox)

has_outbox-recover_event :
    (outbox_id : String) (wall : ℕ) (e : Event)
    → has_outbox outbox_id (recover_event wall e) ≡ has_outbox outbox_id e
unfolding recover_event
has_outbox-recover_event outbox_id wall e = ground arith

sendable-recover_event :
    (wall : ℕ) (e : Event) → is_sending e ≡ true → sendable (recover_event wall e) ≡ none
unfolding recover_event
sendable-recover_event wall e h = ground arith

-- A message whose send a crash interrupted is not sent again after the restart, at whatever time and
-- under whatever switches: `begin_dispatch` refuses it and changes nothing.
pub recover_no_resend :
    (os : Platform) (db : Db) (outbox_id : String) (e : Event) (enabled : String → Bool)
    (now wall later : ℕ)
    → event_of db outbox_id ≡ some e
    → is_sending e ≡ true
    → begin_dispatch os (recover db now wall) outbox_id enabled later
      ≡ ok (recover db now wall, false)
unfolding begin_dispatch recover
recover_no_resend os db outbox_id e enabled now wall later found sending =
    let after : event_of (recover db now wall) outbox_id ≡ some (recover_event wall e) =
      rw (inbox-recover db now wall) (
        find-map (has_outbox outbox_id) (recover_event wall)
          (has_outbox-recover_event outbox_id wall) db.inbox found) in
    rw (begin_dispatch, after, sendable-recover_event wall e sending) refl
