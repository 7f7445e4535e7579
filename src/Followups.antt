-- ===== src/Followups.antt =====
-- runtime_v2/followups.py: follow-ups on an episode: the candidates, how one is taken back, and what
-- speaks against it. The ledger is the database with the two tables of this file and the table of
-- episode_times.py.
pub mod Pace
pub mod Times
pub mod Versions
pub mod Moves
pub mod Paced
pub mod Sendable
pub mod Stops
use openqqwaifu.Prelude.{
  ℕ, suc, ◌+◌, ◌*◌, String, Bool, true, false, not, ◌&&◌, ◌||◌, Option, none, some, List, [], ◌∷◌,
  str_eq, ltb, leb, ◌==◌, if◌then◌else◌, find, any, select, map, sort, last?, count_where,
  update_where,
}
use openqqwaifu.Result.{Result, ok, err, from_option, ◌>>=◌}
use openqqwaifu.Platform.{Platform}
use openqqwaifu.Tables.{
  Conversation, Event, EventState, Kind, Outbox, ContactAttempt, MemoryRecord, MemoryState, Policy,
  Db, SendState, second, minute_span, day_span, conversation_of,
}
use openqqwaifu.Contact.Decision.{Decision, policy, decision}
use openqqwaifu.Reminders.{cancel_event, memory_of}

pub data CandidateState : Type 0 where
  candidate scheduled enqueued dispatching needs_review : CandidateState
  completed cancelled dismissed expired invalidated : CandidateState

-- The columns of followup_candidates that this model reads or writes.
pub record Candidate : Type 0 where
  pub candidate_id : String
  pub conversation_id : String
  pub character_id : String
  pub memory_id : String
  pub memory_version : ℕ
  pub source_event_id : String
  pub text : String
  pub version : ℕ
  pub state : CandidateState
  pub reason : String
  pub cancel_requested : Bool
  pub binding_generation : Option ℕ
  pub due_at : Option ℕ
  pub expires_at : Option ℕ
  pub deferred_until : Option ℕ
  pub updated_at : ℕ

-- A row of followup_occurrences.
pub record Occurrence : Type 0 where
  pub candidate_id : String
  pub candidate_version : ℕ
  pub event_id : String

-- The column `state` of episode_times; `outdated` is 'invalidated'.
pub data TimeState : Type 0 where
  proposed confirmed outdated : TimeState

-- A row of episode_times, without the proposal and the confirmed value.
pub record EpisodeTime : Type 0 where
  pub memory_id : String
  pub memory_version : ℕ
  pub timezone : String
  pub version : ℕ
  pub state : TimeState
  pub reason : String
  pub updated_at : ℕ

pub record Ledger : Type 0 where
  pub db : Db
  pub candidates : List Candidate
  pub occurrences : List Occurrence
  pub times : List EpisodeTime

abbrev pub recent_span : ℕ
recent_span = 30 * minute_span

abbrev pub source_max_age : ℕ
source_max_age = 30 * day_span

abbrev pub is_candidate : String → Candidate → Bool
is_candidate candidate_id c = str_eq c.candidate_id candidate_id

-- The candidate of an event, with the version that the event was made for.
unfoldable pub for_event : Ledger → String → Option (Candidate × ℕ)
for_event l event_id = elim (find (λ o. str_eq o.event_id event_id) l.occurrences) [
  | none ↦ none
  | some o ↦ elim (find (is_candidate o.candidate_id) l.candidates) [
    | none ↦ none
    | some c ↦ some (c, o.candidate_version)
  ]
]

abbrev pub is_under_way : CandidateState → Bool
is_under_way dispatching = true
is_under_way needs_review = true
is_under_way _ = false

-- The event stands for this version of the candidate.
abbrev pub occurs_in : Ledger → Candidate → Event → Bool
occurs_in l task e =
    any
      (λ o.
        str_eq o.candidate_id task.candidate_id
        && o.candidate_version == task.version
        && str_eq o.event_id e.event_id)
      l.occurrences

abbrev pub request_cancel : String → ℕ → Candidate → Candidate
request_cancel reason now c = record c {
  cancel_requested = true;
  version = c.version + 1;
  reason = reason;
  updated_at = now;
}

abbrev pub close : CandidateState → String → ℕ → Candidate → Candidate
close state reason now c = record c {
  state = state;
  reason = reason;
  version = c.version + 1;
  deferred_until = none;
  updated_at = now;
}

abbrev pub set_candidates : Ledger → List Candidate → Ledger
set_candidates l cs = record l { candidates = cs }

-- A send under way is only marked; anything else is taken back.
unfoldable pub invalidate : Ledger → Candidate → CandidateState → String → ℕ → Ledger
invalidate l task state reason now =
    if is_under_way task.state
    then (if task.cancel_requested
        then l
        else set_candidates l (
            update_where (is_candidate task.candidate_id) (request_cancel reason now) l.candidates))
    else record l {
      db = record (l.db) {
        inbox = update_where (occurs_in l task) (cancel_event reason) l.db.inbox;
      };
      candidates =
          update_where (λ c. is_candidate task.candidate_id c && c.version == task.version)
            (close state reason now) l.candidates;
    }

abbrev pub is_open : MemoryState → Bool
is_open MemoryState.open_episode = true
is_open _ = false

abbrev pub is_unscheduled : CandidateState → Bool
is_unscheduled candidate = true
is_unscheduled _ = false

abbrev pub is_event : String → Event → Bool
is_event event_id e = str_eq e.event_id event_id

-- The source is gone, or older than 30 days.
abbrev pub is_stale : Db → String → ℕ → Bool
is_stale db event_id now = elim (find (is_event event_id) db.inbox) [
  | none ↦ true
  | some e ↦ ltb (e.received_at + source_max_age) now
]

abbrev pub is_past : Option ℕ → ℕ → Bool
is_past none now = false
is_past (some t) now = ltb t now

abbrev pub same_binding : Conversation → Candidate → Bool
same_binding c task =
    str_eq c.character.character_id task.character_id
    && elim task.binding_generation [ none ↦ false | some g ↦ c.generation == g ]

-- The checks of a candidate that has a time.
unfoldable pub scheduled_checks :
    Db → Candidate → Conversation → ℕ → (String → Bool) → Result (Option (CandidateState × String))
scheduled_checks db task binding now enabled =
    if is_past task.expires_at now
    then ok (some (expired, "missed_window"))
    else if not (enabled task.conversation_id)
    then ok (some (cancelled, "runtime_disabled"))
    else (policy db task.conversation_id >>= λ p.
        if not p.proactive_enabled
        then ok (some (cancelled, "authorization_revoked"))
        else if not (same_binding binding task)
        then ok (some (invalidated, "binding_changed"))
        else ok none)

-- The checks of the episode that a candidate is about.
unfoldable pub episode_checks : Db → Candidate → ℕ → Option (CandidateState × String)
episode_checks db task now =
    elim (memory_of db task.memory_id task.conversation_id task.character_id) [
      | none ↦ some (invalidated, "episode_closed")
      | some m ↦
          if not (is_open m.state)
          then some (invalidated, "episode_closed")
          else if not (m.version == task.memory_version)
          then some (invalidated, "episode_changed")
          else if is_stale db task.source_event_id now
          then some (expired, "source_too_old")
          else none
    ]

-- `none` where nothing speaks against the candidate, else its new state and the reason.
unfoldable pub intrinsic :
    Db → Candidate → ℕ → (String → Bool) → Result (Option (CandidateState × String))
intrinsic db task now enabled =
    if task.cancel_requested
    then ok (some (cancelled, "cancellation_requested"))
    else elim (conversation_of db task.conversation_id) [
      | none ↦ ok (some (cancelled, "conversation_erased"))
      | some binding ↦
          if not binding.active
          then ok (some (cancelled, "conversation_erased"))
          else elim (episode_checks db task now) [
            | some blocked ↦ ok (some blocked)
            | none ↦
                if is_unscheduled task.state
                then ok none
                else scheduled_checks db task binding now enabled
          ]
    ]
