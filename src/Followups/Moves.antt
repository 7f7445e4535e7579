-- ===== src/Followups/Moves.antt =====
-- How candidates move: `defer`, `reconcile`, `ready`, `before_dispatch` and `delivery_result` of
-- followups.py.
use openqqwaifu.Prelude.{
  ℕ, String, Bool, true, false, not, ◌&&◌, ◌||◌, Option, none, some, List, [], ◌∷◌, str_eq, leb,
  ◌==◌, if◌then◌else◌, any, select, update_where,
}
use openqqwaifu.Result.{Result, ok, err, from_option, occurrence_missing, invalid_status, ◌>>=◌}
use openqqwaifu.Platform.{Platform}
use openqqwaifu.Tables.{SendState}
use openqqwaifu.Contact.Decision.{Decision}
use openqqwaifu.Followups.{
  Candidate, CandidateState, Ledger, is_candidate, for_event, invalidate, intrinsic, set_candidates,
  candidate, scheduled, enqueued, dispatching, needs_review, completed, cancelled,
}
use openqqwaifu.Followups.Pace.{task_decision}
use openqqwaifu.Followups.Times.{sync_episode_time}

abbrev pub same_time : Option ℕ → Option ℕ → Bool
same_time none none = true
same_time (some a) (some b) = a == b
same_time _ _ = false

abbrev pub is_enqueued : CandidateState → Bool
is_enqueued enqueued = true
is_enqueued _ = false

-- The candidate waits for the moment that the decision names.
unfoldable pub defer : Ledger → Candidate → Decision → ℕ → Ledger
defer l task d now =
    let l' = if is_enqueued task.state then invalidate l task scheduled d.reason now else l in
    set_candidates l' (
      update_where
        (λ c.
          is_candidate task.candidate_id c
          && (not (str_eq c.reason d.reason) || not (same_time c.deferred_until d.next_at)))
        (λ c. record c { reason = d.reason; deferred_until = d.next_at; updated_at = now })
        l'.candidates)

abbrev pub is_planned : CandidateState → Bool
is_planned scheduled = true
is_planned enqueued = true
is_planned _ = false

-- task["due_at"] <= now; a planned candidate has a time
abbrev pub is_due : Option ℕ → ℕ → Bool
is_due none now = false
is_due (some t) now = leb t now

unfoldable pub reconcile_candidate :
    Platform → ℕ → (String → Bool) → Ledger → Candidate → Result Ledger
reconcile_candidate os now enabled l task = do
  blocked ← intrinsic l.db task now enabled
  elim blocked [
    | some (state, reason) ↦ ok (invalidate l task state reason now)
    | none ↦
        if is_planned task.state && is_due task.due_at now
        then (do
          d ← task_decision os l.db task now
          ok (if d.allowed then l else defer l task d now))
        else ok l
  ]

-- ACTIVE
abbrev pub is_active : CandidateState → Bool
is_active candidate = true
is_active scheduled = true
is_active enqueued = true
is_active dispatching = true
is_active needs_review = true
is_active _ = false

abbrev pub in_conversation : Option String → Candidate → Bool
in_conversation none c = true
in_conversation (some cid) c = str_eq c.conversation_id cid

unfoldable pub reconcile_all :
    Platform → ℕ → (String → Bool) → List Candidate → Ledger → Result Ledger
reconcile_all os now enabled [] l = ok l
reconcile_all os now enabled (c ∷ cs) l =
    reconcile_candidate os now enabled l c >>= λ l'. reconcile_all os now enabled cs l'

unfoldable pub reconcile : Platform → ℕ → (String → Bool) → Option String → Ledger → Result Ledger
reconcile os now enabled cid l =
    reconcile_all os now enabled
      (select (λ c. is_active c.state && in_conversation cid c) l.candidates) l

unfoldable pub ready :
    Platform → Ledger → Candidate → ℕ → ℕ → (String → Bool) → Result (Ledger × Bool)
ready os l task version now enabled =
    if not (version == task.version && is_enqueued task.state) then ok (l, false) else do
      blocked ← intrinsic l.db task now enabled
      elim blocked [
        | some (state, reason) ↦ ok (invalidate l task state reason now, false)
        | none ↦ do
          d ← task_decision os l.db task now
          if d.allowed then ok (l, true) else ok (defer l task d now, false)
      ]

abbrev pub begin_send : ℕ → Candidate → Candidate
begin_send now c = record c { state = dispatching; updated_at = now }

-- With the candidate and the version of the event, after the dates were brought up to date.
unfoldable pub dispatch_task :
    Platform → Ledger → Candidate → ℕ → ℕ → (String → Bool) → Result (Ledger × Bool)
dispatch_task os l task version now enabled = do
  checked ← ready os l task version now enabled
  if checked.1
      then ok (
        set_candidates checked.0
            (update_where (is_candidate task.candidate_id) (begin_send now) checked.0.candidates),
        true,
      )
      else ok checked

-- `before_dispatch` from its second `for_event` on.
unfoldable pub resume : Platform → Ledger → String → ℕ → (String → Bool) → Result (Ledger × Bool)
resume os l event_id now enabled = elim (for_event l event_id) [
  | none ↦ err occurrence_missing
  | some (task, version) ↦ dispatch_task os l task version now enabled
]

unfoldable pub before_dispatch :
    Platform → Ledger → String → ℕ → (String → Bool) → Result (Ledger × Bool)
before_dispatch os l event_id now enabled = elim (for_event l event_id) [
  | none ↦ ok (l, true)
  | some (task, _) ↦ resume os (sync_episode_time l task now) event_id now enabled
]

abbrev pub result_state : SendState → Option CandidateState
result_state SendState.accepted = some completed
result_state SendState.captured = some completed
result_state SendState.unknown = some needs_review
result_state SendState.rejected = some needs_review
result_state SendState.cancelled = some cancelled
result_state SendState.pending = some enqueued
result_state SendState.dispatching = none

abbrev pub occurred : Ledger → String → Candidate → Bool
occurred l event_id c =
    any (λ o. str_eq o.event_id event_id && str_eq o.candidate_id c.candidate_id) l.occurrences

unfoldable pub delivery_result : Ledger → String → SendState → ℕ → Result Ledger
delivery_result l event_id status now =
    from_option invalid_status (result_state status) >>= λ state. ok (
      set_candidates l (
        update_where (occurred l event_id) (λ c. record c { state = state; updated_at = now })
          l.candidates))
