-- ===== src/Examples/Episode.antt =====
-- The theorems on follow-ups at an episode that was told in the sample conversation.
use openqqwaifu.Prelude.{◌≡◌, refl, true, false, none, some, [], ◌∷◌, sort}
use openqqwaifu.Result.{ok}
use openqqwaifu.Tables.{Event, EventState, Kind, Source, MemoryRecord, MemoryState, Db, TaskState}
use openqqwaifu.Contact.Quiet.{in_quiet, minute}
use openqqwaifu.Contact.Decision.{policy, decision, quiet_hours, frequency, attempts, interval}
use openqqwaifu.Followups.{
  Candidate, CandidateState, Ledger, EpisodeTime, TimeState, for_event, close, invalidate,
  intrinsic, scheduled_checks, episode_checks,
}
use openqqwaifu.Followups.Times.{
  sync_episode_time, sync_record, sync_open, reset_followups, reset_rows, reset_followup,
}
use openqqwaifu.Followups.Pace.{task_decision, followup_decision, pace}
use openqqwaifu.Followups.Moves.{before_dispatch, resume, dispatch_task, ready}
use openqqwaifu.Followups.Sendable.{IsSendable, followup_goes_out}
use openqqwaifu.Followups.Stops.{invalidate_stops}
use openqqwaifu.Sample.{utc, noon, hello_event, tea_event, chat_policy, with_inbox, all_enabled}

abbrev told : Event
told = record hello_event { state = EventState.completed }

-- The event of the follow-up, ready to be sent.
abbrev question_event : Event
question_event = record tea_event {
  event_id = "e3";
  seq = 3;
  source_id = some (Source.from_followup "f1" 2);
  kind = Kind.followup_due;
  occurrence = none;
}

abbrev exam : MemoryRecord
exam = record {
  memory_id = "m1";
  conversation_id = "u1";
  character_id = "waifu";
  state = MemoryState.open_episode;
  version = 1;
}

abbrev database : Db
database = record (with_inbox (told ∷ question_event ∷ []) TaskState.cancelled) {
  policies = record chat_policy { proactive_enabled = true } ∷ [];
  memories = exam ∷ [];
}

abbrev question : Candidate
question = record {
  candidate_id = "f1";
  conversation_id = "u1";
  character_id = "waifu";
  memory_id = "m1";
  memory_version = 1;
  source_event_id = "e1";
  text = "How was the exam?";
  version = 2;
  state = CandidateState.enqueued;
  reason = "";
  cancel_requested = false;
  binding_generation = some 1;
  due_at = some noon;
  expires_at = some noon;
  deferred_until = none;
  updated_at = 0;
}

abbrev exam_time : EpisodeTime
exam_time = record {
  memory_id = "m1";
  memory_version = 1;
  timezone = "UTC";
  version = 2;
  state = TimeState.confirmed;
  reason = "";
  updated_at = 0;
}

abbrev ledger : Ledger
ledger = record {
  db = database;
  candidates = question ∷ [];
  occurrences = record { candidate_id = "f1"; candidate_version = 2; event_id = "e3" } ∷ [];
  times = exam_time ∷ [];
}

-- The time was confirmed in another zone than that of the policy.
abbrev moved : Ledger
moved = record ledger { times = record exam_time { timezone = "Asia/Tokyo" } ∷ [] }

question_found : for_event ledger "e3" ≡ some (question, 2)
unfolding for_event
question_found = refl

abbrev sent : Ledger
sent = record ledger {
  candidates = record question { state = CandidateState.dispatching; updated_at = noon } ∷ [];
}

question_goes_out : before_dispatch utc ledger "e3" noon all_enabled ≡ ok (sent, true)
unfolding before_dispatch resume dispatch_task ready for_event intrinsic scheduled_checks
    episode_checks task_decision followup_decision pace decision policy quiet_hours in_quiet minute
    frequency attempts sort interval sync_episode_time sync_record sync_open
question_goes_out = refl

followup_goes_out_example :
    IsSendable utc (sync_episode_time ledger question noon) "e3" noon all_enabled
followup_goes_out_example =
    followup_goes_out utc ledger sent "e3" noon all_enabled question 2 question_found
      question_goes_out

-- The new zone takes the follow-up back, also from the queue.
zone_resets :
    (sync_episode_time moved question noon).candidates
    ≡ record question {
      state = CandidateState.candidate;
      reason = "episode_time_changed";
      version = 3;
      binding_generation = none;
      due_at = none;
      expires_at = none;
      updated_at = noon;
    }
      ∷ []
unfolding sync_episode_time sync_record sync_open reset_followups reset_rows reset_followup
    invalidate
zone_resets = refl

abbrev taken_back : Ledger
taken_back = invalidate moved question CandidateState.scheduled "cancelled_by_admin" noon

moved_found : for_event moved "e3" ≡ some (question, 2)
unfolding for_event
moved_found = refl

invalidate_stops_example :
    before_dispatch utc taken_back "e3" noon all_enabled
    ≡ ok (
      sync_episode_time taken_back
          (close CandidateState.scheduled "cancelled_by_admin" noon question)
          noon,
      false,
    )
invalidate_stops_example =
    invalidate_stops utc moved "e3" "cancelled_by_admin" question noon noon CandidateState.scheduled
      all_enabled refl moved_found
