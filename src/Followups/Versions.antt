-- ===== src/Followups/Versions.antt =====
-- The versions of candidates never go back: through `invalidate`, and through `sync_episode_time`.
use openqqwaifu.Prelude.{
  ℕ, ◌≤◌, ◌≡◌, inl, inr, refl, ◌∙◌, ap, subst, String, Bool, ◌&&◌, ◌==◌, some, List, [], ◌∷◌, arith,
  str_eq, if◌then◌else◌, find, select, update_where, find-update_where, Option-cases, Bool-cases,
}
use mathlib.Core.Option.{some_inj}
use openqqwaifu.Tables.{MemoryRecord}
use openqqwaifu.Followups.{
  Candidate, CandidateState, Ledger, Occurrence, candidate, for_event, invalidate, is_candidate,
  is_under_way, request_cancel, close, set_candidates, is_open,
}
use openqqwaifu.Followups.Times.{
  clear_time, reset_followup, reset_rows, reset_followups, follows, set_times, sync_open,
  sync_record, sync_episode_time, zone_of, is_left, outdate, is_time_of, is_confirmed,
}

-- An update of candidates that keeps their names changes what an event stands for by the update.
pub for_event-update :
    (l : Ledger) (event_id : String) (task : Candidate) (version : ℕ) (q : Candidate → Bool)
    (f : Candidate → Candidate)
    → ((c : Candidate) → (f c).candidate_id ≡ c.candidate_id)
    → for_event l event_id ≡ some (task, version)
    → for_event (set_candidates l (update_where q f l.candidates)) event_id
      ≡ some (if q task then f task else task, version)
unfolding for_event
for_event-update l event_id task version q f named found =
    elim (Option-cases (find (λ o. str_eq o.event_id event_id) l.occurrences)) [
      | inl e ↦ absurd (cc (rw (for_event, e) at found))
      | inr (o, e) ↦ elim (Option-cases (find (is_candidate o.candidate_id) l.candidates)) [
        | inl lost ↦ absurd (cc (rw (for_event, e, lost) at found))
        | inr (c, there) ↦
            let pair : (c, o.candidate_version) ≡ (task, version) =
              some_inj.0 (rw (for_event, e, there) at found) in
            let same : c ≡ task = ap (λ x. x.0) pair in
            let numbered : o.candidate_version ≡ version = ap (λ x. x.1) pair in
            let moved : find (is_candidate o.candidate_id) (update_where q f l.candidates)
                ≡ some (if q task then f task else task) =
              find-update_where (is_candidate o.candidate_id) q f
                (λ c _. ap (λ x. str_eq x o.candidate_id) (named c)) l.candidates
                (subst (λ x. find (is_candidate o.candidate_id) l.candidates ≡ some x) same
                  there) in
            rw (for_event, e, moved, numbered) refl
      ]
    ]

-- The event still stands for the candidate, whose version is not smaller than before.
pub record Goes (l : Ledger) (event_id : String) (version least : ℕ) : Type 0 where
  pub task : Candidate
  pub found : for_event l event_id ≡ some (task, version)
  pub grown : least ≤ task.version

-- An update that keeps names and does not take versions back.
update-Goes :
    (l : Ledger) (event_id : String) (version least : ℕ) (q : Candidate → Bool)
    (f : Candidate → Candidate)
    → ((c : Candidate) → (f c).candidate_id ≡ c.candidate_id)
    → ((c : Candidate) → c.version ≤ (f c).version)
    → Goes l event_id version least
    → Goes (set_candidates l (update_where q f l.candidates)) event_id version least
update-Goes l event_id version least q f named grows g = record {
  task = if q g.task then f g.task else g.task;
  found = for_event-update l event_id g.task version q f named g.found;
  grown = elim (Bool-cases (q g.task)) [
    | inl hit ↦ rw hit (omega (arith, g.grown, grows g.task))
    | inr missed ↦ rw missed (g.grown)
  ];
}

for_event-bare :
    (l l' : Ledger) (event_id : String)
    → for_event l' event_id
      ≡ for_event (record l { occurrences = l'.occurrences; candidates = l'.candidates }) event_id
unfolding for_event
for_event-bare l l' event_id = refl

-- Only the candidates and the occurrences tell what an event stands for.
same-Goes :
    (l l' : Ledger) (event_id : String) (version least : ℕ)
    → l'.occurrences ≡ l.occurrences
    → l'.candidates ≡ l.candidates
    → Goes l event_id version least
    → Goes l' event_id version least
same-Goes l l' event_id version least o c g =
    let bare : List Occurrence → List Candidate → Ledger =
      λ xs cs. record l { occurrences = xs; candidates = cs } in
    let equal : for_event (bare l'.occurrences l'.candidates) event_id
        ≡ for_event (bare l.occurrences l.candidates) event_id =
      ap (λ x. for_event (bare x l'.candidates) event_id) o
      ∙ ap (λ x. for_event (bare l.occurrences x) event_id) c in
    record {
      task = g.task;
      found = for_event-bare l l' event_id ∙ equal ∙ g.found;
      grown = g.grown;
    }

invalidate-Goes :
    (l : Ledger) (event_id reason : String) (task : Candidate) (state : CandidateState)
    (version least now : ℕ)
    → Goes l event_id version least
    → Goes (invalidate l task state reason now) event_id version least
unfolding invalidate
invalidate-Goes l event_id reason task state version least now g =
    elim (Bool-cases (is_under_way task.state)) [
      | inl sending ↦ elim (Bool-cases task.cancel_requested) [
        | inl asked ↦ rw (invalidate, sending, asked) g
        | inr fresh ↦
            rw (invalidate, sending, fresh)
              (update-Goes l event_id version least (is_candidate task.candidate_id)
                (request_cancel reason now) (λ _. refl) (λ _. omega arith) g)
      ]
      | inr idle ↦
          let q =
            λ (c : Candidate). is_candidate task.candidate_id c && c.version == task.version in
          let f = close state reason now in
          rw (invalidate, idle)
            (same-Goes (set_candidates l (update_where q f l.candidates)) _ event_id version least
              refl refl (update-Goes l event_id version least q f (λ _. refl) (λ _. omega arith) g))
    ]

reset_followup-Goes :
    (l : Ledger) (event_id : String) (row : Candidate) (version least now : ℕ)
    → Goes l event_id version least
    → Goes (reset_followup now row l) event_id version least
unfolding reset_followup
reset_followup-Goes l event_id row version least now g =
    let l' = invalidate l row candidate "episode_time_changed" now in
    let kept =
      invalidate-Goes l event_id "episode_time_changed" row candidate version least now g in
    elim (Bool-cases (is_under_way row.state)) [
      | inl sending ↦ rw (reset_followup, sending) kept
      | inr idle ↦
          rw (reset_followup, idle)
            (update-Goes l' event_id version least (is_candidate row.candidate_id) clear_time
              (λ _. refl) (λ _. omega arith) kept)
    ]

reset_rows-Goes :
    (rows : List Candidate) (l : Ledger) (event_id : String) (version least now : ℕ)
    → Goes l event_id version least
    → Goes (reset_rows now rows l) event_id version least
unfolding reset_rows
reset_rows-Goes [] l event_id version least now g = g
reset_rows-Goes (row ∷ rows) l event_id version least now g =
    reset_rows-Goes rows (reset_followup now row l) event_id version least now
      (reset_followup-Goes l event_id row version least now g)

reset_followups-Goes :
    (l : Ledger) (event_id memory_id : String) (revision version least now : ℕ)
    → Goes l event_id version least
    → Goes (reset_followups l memory_id revision now) event_id version least
unfolding reset_followups
reset_followups-Goes l event_id memory_id revision version least now g =
    reset_rows-Goes (select (follows memory_id revision) l.candidates) l event_id version least now
      g

sync_open-Goes :
    (l : Ledger) (m : MemoryRecord) (zone event_id : String) (version least now : ℕ)
    → Goes l event_id version least
    → Goes (sync_open l m zone now) event_id version least
unfolding sync_open
sync_open-Goes l m zone event_id version least now g =
    elim (Option-cases (find (is_time_of m.memory_id m.version) l.times)) [
      | inl missing ↦ rw (sync_open, missing) (same-Goes l _ event_id version least refl refl g)
      | inr (old, found) ↦ elim (Bool-cases (str_eq old.timezone zone)) [
        | inl same ↦ rw (sync_open, found, same) g
        | inr moved ↦ elim (Bool-cases (is_confirmed old.state)) [
          | inl sure ↦
              rw (sync_open, found, moved, sure)
                (same-Goes (reset_followups l m.memory_id m.version now) _ event_id version least
                  refl refl
                  (reset_followups-Goes l event_id m.memory_id m.version version least now g))
          | inr guess ↦
              rw (sync_open, found, moved, guess) (same-Goes l _ event_id version least refl refl g)
        ]
      ]
    ]

sync_record-Goes :
    (l : Ledger) (m : MemoryRecord) (event_id : String) (version least now : ℕ)
    → Goes l event_id version least
    → Goes (sync_record l m now) event_id version least
unfolding sync_record
sync_record-Goes l m event_id version least now g =
    let l' = set_times l (update_where (is_left m) (outdate now) l.times) in
    let kept = same-Goes l l' event_id version least refl refl g in
    elim (Bool-cases (is_open m.state)) [
      | inl lasting ↦
          rw (sync_record, lasting)
            (sync_open-Goes l' m (zone_of l.db m.conversation_id) event_id version least now kept)
      | inr closed ↦ rw (sync_record, closed) kept
    ]

pub sync_episode_time-Goes :
    (l : Ledger) (task : Candidate) (event_id : String) (version least now : ℕ)
    → Goes l event_id version least
    → Goes (sync_episode_time l task now) event_id version least
unfolding sync_episode_time
sync_episode_time-Goes l task event_id version least now g =
    elim (Option-cases (find (λ m. str_eq m.memory_id task.memory_id) l.db.memories)) [
      | inl missing ↦ rw (sync_episode_time, missing) g
      | inr (m, found) ↦
          rw (sync_episode_time, found) (sync_record-Goes l m event_id version least now g)
    ]
