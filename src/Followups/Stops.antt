-- ===== src/Followups/Stops.antt =====
-- What taking a candidate back does to its send.
use openqqwaifu.Prelude.{
  ℕ, ◌+◌, ◌≡◌, refl, ◌∙◌, String, Bool, true, false, ◌&&◌, ◌==◌, some, arith, eq_iff,
}
use openqqwaifu.Result.{ok}
use openqqwaifu.Platform.{Platform}
use openqqwaifu.Followups.{
  Candidate, CandidateState, Ledger, for_event, invalidate, is_candidate, is_under_way, close,
}
use openqqwaifu.Followups.Times.{sync_episode_time}
use openqqwaifu.Followups.Versions.{Goes, for_event-update, sync_episode_time-Goes}
use openqqwaifu.Followups.Moves.{ready, dispatch_task, resume, before_dispatch}

-- `invalidate` of a candidate that is not under way, for the event of that version of it.
for_event-invalidate :
    (l : Ledger) (event_id reason : String) (task : Candidate) (version now : ℕ)
    (state : CandidateState)
    → is_under_way task.state ≡ false
    → for_event l event_id ≡ some (task, version)
    → for_event (invalidate l task state reason now) event_id
      ≡ some (close state reason now task, version)
unfolding invalidate for_event
for_event-invalidate l event_id reason task version now state idle found =
    let q = λ (c : Candidate). is_candidate task.candidate_id c && c.version == task.version in
    let hit : q task ≡ true = ground (arith, (eq_iff task.candidate_id task.candidate_id).1 refl) in
    let moved =
      for_event-update l event_id task version q (close state reason now) (λ _. refl) found in
    rw (invalidate, idle) (rw (for_event, hit) at moved)

dispatch_task_stale :
    (os : Platform) (l : Ledger) (task : Candidate) (version now : ℕ) (enabled : String → Bool)
    → (version == task.version) ≡ false
    → dispatch_task os l task version now enabled ≡ ok (l, false)
unfolding dispatch_task ready
dispatch_task_stale os l task version now enabled stale = rw (dispatch_task, ready, stale) refl

resume-stale :
    (os : Platform) (l : Ledger) (event_id : String) (task : Candidate) (version now : ℕ)
    (enabled : String → Bool)
    → for_event l event_id ≡ some (task, version)
    → (version == task.version) ≡ false
    → resume os l event_id now enabled ≡ ok (l, false)
unfolding resume
resume-stale os l event_id task version now enabled found stale =
    rw (resume, found) (dispatch_task_stale os l task version now enabled stale)

before_dispatch-found :
    (os : Platform) (l : Ledger) (event_id : String) (task : Candidate) (version now : ℕ)
    (enabled : String → Bool)
    → for_event l event_id ≡ some (task, version)
    → before_dispatch os l event_id now enabled
      ≡ resume os (sync_episode_time l task now) event_id now enabled
unfolding before_dispatch
before_dispatch-found os l event_id task version now enabled found =
    rw (before_dispatch, found) refl

-- A candidate that is taken back before its send, whatever its new state and the reason, does not go
-- out with the event that it was planned for, at any time: before_dispatch refuses, and changes no more
-- than what bringing the time of the episode up to date changes.
pub invalidate_stops :
    (os : Platform) (l : Ledger) (event_id reason : String) (task : Candidate) (now later : ℕ)
    (state : CandidateState) (enabled : String → Bool)
    → is_under_way task.state ≡ false
    → for_event l event_id ≡ some (task, task.version)
    → before_dispatch os (invalidate l task state reason now) event_id later enabled
      ≡ ok (
        sync_episode_time (invalidate l task state reason now) (close state reason now task) later,
        false,
      )
invalidate_stops os l event_id reason task now later state enabled idle found =
    let taken_back = invalidate l task state reason now in
    let closed = close state reason now task in
    let after = for_event-invalidate l event_id reason task task.version now state idle found in
    let synced = sync_episode_time taken_back closed later in
    let g : Goes synced event_id task.version (task.version + 1) =
      sync_episode_time-Goes taken_back closed event_id task.version (task.version + 1) later
        (record { task = closed; found = after; grown = omega arith }) in
    before_dispatch-found os taken_back event_id closed task.version later enabled after
    ∙ resume-stale os synced event_id g.task task.version later enabled g.found
        (ground (arith, g.grown))
