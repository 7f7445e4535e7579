-- ===== src/Followups/Pace.antt =====
-- `decision` and `task_decision` of followups.py: how often a follow-up may go out.
use openqqwaifu.Prelude.{
  ℕ, ◌+◌, String, Bool, true, false, ◌&&◌, Option, none, some, List, [], ◌∷◌, str_eq, ltb, leb,
  if◌then◌else◌, any, select, map, sort, last?, count_where,
}
use openqqwaifu.Result.{Result, ok, ◌>>=◌}
use openqqwaifu.Platform.{Platform}
use openqqwaifu.Tables.{Event, EventState, Kind, Outbox, ContactAttempt, Db, day_span}
use openqqwaifu.Contact.Decision.{Decision, decision}
use openqqwaifu.Followups.{Candidate, recent_span}

-- conversation_id=? AND kind='followup' AND started_at>now-86400
abbrev pub is_recent_followup : String → ℕ → ContactAttempt → Bool
is_recent_followup cid now a =
    str_eq a.conversation_id cid && str_eq a.kind "followup" && ltb now (a.started_at + day_span)

abbrev pub is_message : String → Event → Bool
is_message cid e = elim e.kind [ Kind.message _ ↦ str_eq e.conversation_id cid | _ ↦ false ]

-- The greatest sequence number, 0 for none, and the latest time.
abbrev pub max_seq : List Event → ℕ
max_seq [] = 0
max_seq (e ∷ es) = let rest = max_seq es in if ltb rest e.seq then e.seq else rest

abbrev pub later_of : ℕ → Option ℕ → ℕ
later_of t none = t
later_of t (some u) = if ltb u t then t else u

abbrev pub latest_time : List Event → Option ℕ
latest_time [] = none
latest_time (e ∷ es) = some (later_of e.received_at (latest_time es))

-- An outbox row that a follow-up went out with.
abbrev pub was_followup : Db → String → Outbox → Bool
was_followup db cid o =
    any
      (λ a.
        str_eq a.outbox_id o.outbox_id && str_eq a.conversation_id cid && str_eq a.kind "followup")
      db.contact_attempts

abbrev pub is_unanswered : Db → String → ℕ → Event → Bool
is_unanswered db cid seq e = elim e.outbox [
  | none ↦ false
  | some o ↦ was_followup db cid o && ltb seq e.seq
]

-- Follow-ups after the last message of the user.
abbrev pub unanswered : Db → String → ℕ
unanswered db cid =
    count_where (is_unanswered db cid (max_seq (select (is_message cid) db.inbox))) db.inbox

abbrev pub refused : Decision → String → Option ℕ → Result Decision
refused d reason next_at = ok (record d { allowed = false; reason = reason; next_at = next_at })

abbrev pub followup_times : Db → String → ℕ → List ℕ
followup_times db cid now =
    sort (map (λ a. a.started_at) (select (is_recent_followup cid now) db.contact_attempts))

-- The rules for follow-ups, after the rules of contact.
unfoldable pub pace : Db → String → ℕ → Decision → Result Decision
pace db cid now d = elim (last? (followup_times db cid now)) [
  | some latest ↦ refused d "followup_daily_limit" (some (latest + day_span))
  | none ↦
      if leb 2 (unanswered db cid)
      then refused d "awaiting_interaction" none
      else elim (latest_time (select (is_message cid) db.inbox)) [
        | none ↦ ok d
        | some t ↦
            if ltb now (t + recent_span)
            then refused d "recent_interaction" (some (t + recent_span))
            else ok d
      ]
]

unfoldable pub followup_decision : Platform → Db → String → ℕ → Result Decision
followup_decision os db cid now = decision os db cid now "followup" false "" >>= λ d.
    if d.allowed then pace db cid now d else ok d

abbrev pub is_waiting : EventState → Bool
is_waiting EventState.queued = true
is_waiting EventState.generating = true
is_waiting EventState.outbox_ready = true
is_waiting EventState.needs_review = true
is_waiting _ = false

-- kind IN ('message','binding','memory')
abbrev pub is_input : Kind → Bool
is_input (Kind.message _) = true
is_input (Kind.binding _) = true
is_input (Kind.memory _) = true
is_input _ = false

abbrev pub is_busy : String → Event → Bool
is_busy cid e = str_eq e.conversation_id cid && is_input e.kind && is_waiting e.state

unfoldable pub task_decision : Platform → Db → Candidate → ℕ → Result Decision
task_decision os db task now =
    if any (is_busy task.conversation_id) db.inbox
    then ok (record {
      allowed = false;
      reason = "conversation_busy";
      next_at = none;
      policy_version = 0;
    })
    else followup_decision os db task.conversation_id now
