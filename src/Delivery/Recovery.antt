-- ===== src/Delivery/Recovery.antt =====
-- `recover` and `end_generation` of runtime_v2/store.py.
use openqqwaifu.Prelude.{
  ℕ, String, Bool, true, false, none, some, List, [], ◌∷◌, if◌then◌else◌, map,
}
use openqqwaifu.Tables.{
  Event, EventState, Turn, TurnState, Outbox, SendState, Attempt, Db, set_inbox, update_event,
}
use openqqwaifu.Reminders.Due.{delivery_result}
use openqqwaifu.Delivery.{is_dispatching, map_outbox, map_turn}

abbrev pub is_generating : EventState → Bool
is_generating EventState.generating = true
is_generating _ = false

abbrev pub is_generating_turn : TurnState → Bool
is_generating_turn TurnState.generating = true
is_generating_turn _ = false

abbrev pub is_sending : Event → Bool
is_sending e = elim e.outbox [ none ↦ false | some o ↦ is_dispatching o.state ]

abbrev pub is_unknown : Event → Bool
is_unknown e = elim e.outbox [
  | none ↦ false
  | some o ↦ elim o.state [ SendState.unknown ↦ true | _ ↦ false ]
]

abbrev replan_turn : Turn → Turn
replan_turn t = if is_generating_turn t.state then record t { state = TurnState.planned } else t

-- An interrupted generation is queued again.
abbrev pub requeue : Event → Event
requeue e =
    let turned = map_turn replan_turn e in
    if is_generating e.state then record turned { state = EventState.queued } else turned

abbrev pub lose_attempt : ℕ → Attempt → Attempt
lose_attempt wall a =
    if is_dispatching a.state
    then record a { state = SendState.unknown; finished_at = some wall }
    else a

abbrev pub lose_outbox : ℕ → Outbox → Outbox
lose_outbox wall o =
    let o' = record o { delivery_attempts = map (lose_attempt wall) o.delivery_attempts } in
    if is_dispatching o.state
    then record o' { state = SendState.unknown; error_code = "interrupted_send" }
    else o'

-- An interrupted send may have reached the platform: it is put up for review.
unfoldable pub recover_event : ℕ → Event → Event
recover_event wall e =
    let lost = map_outbox (lose_outbox wall) (requeue e) in
    if is_sending e
    then map_turn (λ t. record t { state = TurnState.needs_review })
        (record lost { state = EventState.needs_review; error_code = "interrupted_send" })
    else lost

-- The loop over the reminders whose outbox row is unknown.
unfoldable pub review_reminders : ℕ → List Event → Db → Db
review_reminders now [] db = db
review_reminders now (e ∷ es) db =
    review_reminders now es
      (if is_unknown e then delivery_result db e SendState.unknown now else db)

unfoldable pub recover : Db → ℕ → ℕ → Db
unfolding recover_event review_reminders
recover db now wall =
    let events = map (recover_event wall) db.inbox in
    review_reminders now events (set_inbox db events)

-- The end of a turn without a reply: `ignored`, or failed with an error code.
unfoldable pub stop_event : Bool → String → Event → Event
stop_event ignored error_code e =
    let turned =
      map_turn
        (λ t.
          if is_generating_turn t.state
          then record t { state = if ignored then TurnState.ignored else TurnState.failed }
          else t)
        e in
    if is_generating e.state
    then record turned {
      state = if ignored then EventState.ignored else EventState.failed;
      error_code = error_code;
    }
    else turned

unfoldable pub end_generation : Db → String → Bool → String → Db
end_generation db event_id ignored error_code =
    update_event event_id (stop_event ignored error_code) db
