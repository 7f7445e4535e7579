-- ===== src/Followups/Sendable.antt =====
-- What holds when `before_dispatch` lets a follow-up go out.
use openqqwaifu.Prelude.{
  ℕ, ◌≡◌, ◌⊎◌, inl, inr, refl, sym, ◌∙◌, ap, subst, String, Bool, true, false, not, ◌&&◌, ◌==◌,
  Option, none, some, arith, any, Bool-cases, Option-cases, &&_parts,
}
use openqqwaifu.Result.{
  ok, Ensures, Ensures-ok, Ensures-bind, Ensures-if, Ensures-option, Ensures-imp,
}
use openqqwaifu.Platform.{Platform}
use openqqwaifu.Tables.{Conversation, MemoryRecord, Db, conversation_of}
use openqqwaifu.Contact.Decision.{policy, decision}
use openqqwaifu.Contact.Decision.Frequency.{Allowed}
use openqqwaifu.Contact.Decision.Permits.{Permits, decision_exact}
use openqqwaifu.Reminders.{memory_of}
use openqqwaifu.Followups.Times.{sync_episode_time}
use openqqwaifu.Followups.{
  Candidate, CandidateState, Ledger, for_event, intrinsic, scheduled_checks, episode_checks,
  is_open, is_stale, is_past, is_unscheduled, same_binding, enqueued,
}
use openqqwaifu.Followups.Pace.{pace, followup_decision, is_busy, task_decision}
use openqqwaifu.Followups.Moves.{is_enqueued, ready, dispatch_task, resume, before_dispatch}
use openqqwaifu.Followups.Paced.{IsPaced, Unless, pace-IsPaced}

-- No input of the user waits, the rules of contact permit a follow-up, and it is not too soon.
pub record IsTimely (os : Platform) (db : Db) (cid : String) (now : ℕ) : Type 0 where
  pub idle : any (is_busy cid) db.inbox ≡ false
  pub permitted : (p : _) × Permits os db cid now "followup" false "" p
  pub paced : IsPaced db cid now

followup_decision-Unless :
    (os : Platform) (db : Db) (cid : String) (now : ℕ)
    → Ensures
        (Unless (((p : _) × Permits os db cid now "followup" false "" p) × IsPaced db cid now))
        (followup_decision os db cid now)
unfolding followup_decision
followup_decision-Unless os db cid now =
    let Permitted = (p : _) × Permits os db cid now "followup" false "" p in
    let Q = Unless (Permitted × IsPaced db cid now) in
    Ensures-bind Q (decision os db cid now "followup" false "") _ λ d made.
      Ensures-if Q d.allowed (pace db cid now d) (ok d)
        (λ e.
          let allowed : Allowed (decision os db cid now "followup" false "") = rw made e in
          let permitted : Permitted =
            (decision_exact os db cid now "followup" false "").0 allowed in
          Ensures-imp (Unless (IsPaced db cid now)) Q
            (λ x u. elim u [ inl no_more ↦ inl no_more | inr paced ↦ inr (permitted, paced) ])
            (pace db cid now d) (pace-IsPaced db cid now d))
        (λ e. inl e)

task_decision-IsTimely :
    (os : Platform) (db : Db) (task : Candidate) (now : ℕ)
    → Ensures (Unless (IsTimely os db task.conversation_id now)) (task_decision os db task now)
unfolding task_decision
task_decision-IsTimely os db task now =
    let cid = task.conversation_id in
    let Q = Unless (IsTimely os db cid now) in
    Ensures-if Q (any (is_busy cid) db.inbox) _ _ (λ _. inl refl)
      (λ idle.
        Ensures-imp _ Q
          (λ d u. elim u [
            | inl no_more ↦ inl no_more
            | inr h ↦ inr (record { idle = idle; permitted = h.0; paced = h.1 })
          ])
          (followup_decision os db cid now) (followup_decision-Unless os db cid now))

-- The candidate was not called back, its chat and character are the ones it was planned for, its
-- episode is open and unchanged, its source is recent, and its time has not run out.
pub record IsIntact (db : Db) (task : Candidate) (now : ℕ) (enabled : String → Bool) : Type 0 where
  pub wanted : task.cancel_requested ≡ false
  pub binding : Conversation
  pub bound : conversation_of db task.conversation_id ≡ some binding
  pub active : binding.active ≡ true
  pub same : same_binding binding task ≡ true
  pub episode : MemoryRecord
  pub remembered : memory_of db task.memory_id task.conversation_id task.character_id ≡ some episode
  pub unfinished : is_open episode.state ≡ true
  pub unchanged : episode.version ≡ task.memory_version
  pub recent : is_stale db task.source_event_id now ≡ false
  pub in_time : is_past task.expires_at now ≡ false
  pub on : enabled task.conversation_id ≡ true

abbrev Blocked : Type 0 → Option (CandidateState × String) → Type 0
Blocked P none = P
Blocked P (some _) = Unit

Blocked-imp :
    {P Q : Type 0} → (P → Q) → (o : Option (CandidateState × String)) → Blocked P o → Blocked Q o
Blocked-imp f none h = f h
Blocked-imp f (some x) h = tt

episode_checks-parts :
    (db : Db) (task : Candidate) (now : ℕ)
    → episode_checks db task now ≡ none
    → (m : MemoryRecord) × (memory_of db task.memory_id task.conversation_id task.character_id
        ≡ some m)
      × (is_open m.state ≡ true)
      × (m.version ≡ task.memory_version)
      × (is_stale db task.source_event_id now ≡ false)
unfolding episode_checks
episode_checks-parts db task now e =
    elim (Option-cases (memory_of db task.memory_id task.conversation_id task.character_id)) [
      | inl f ↦ absurd (cc (rw (episode_checks, f) at e))
      | inr (m, f) ↦ elim (Bool-cases (is_open m.state)) [
        | inr shut ↦ absurd (cc (rw (episode_checks, f, shut) at e))
        | inl live ↦ elim (Bool-cases (m.version == task.memory_version)) [
          | inr moved ↦ absurd (cc (rw (episode_checks, f, live, moved) at e))
          | inl same ↦ elim (Bool-cases (is_stale db task.source_event_id now)) [
            | inl old ↦ absurd (cc (rw (episode_checks, f, live, same, old) at e))
            | inr recent ↦ (m, f, live, ground (arith, same), recent)
          ]
        ]
      ]
    ]

scheduled_checks-parts :
    (db : Db) (task : Candidate) (binding : Conversation) (now : ℕ) (enabled : String → Bool)
    → Ensures
        (Blocked (
          (is_past task.expires_at now ≡ false)
          × (enabled task.conversation_id ≡ true)
          × (same_binding binding task ≡ true)))
        (scheduled_checks db task binding now enabled)
unfolding scheduled_checks
scheduled_checks-parts db task binding now enabled =
    let Q = Blocked (
      (is_past task.expires_at now ≡ false)
      × (enabled task.conversation_id ≡ true)
      × (same_binding binding task ≡ true)) in
    Ensures-if Q (is_past task.expires_at now) _ _ (λ _. tt)
      λ in_time.
        Ensures-if Q (not (enabled task.conversation_id)) _ _ (λ _. tt)
          λ on. Ensures-bind Q (policy db task.conversation_id) _ λ p _.
            Ensures-if Q (not p.proactive_enabled) _ _ (λ _. tt)
              λ _.
                Ensures-if Q (not (same_binding binding task)) _ _ (λ _. tt)
                  λ same. (in_time, ground (arith, on), ground (arith, same))

intrinsic-IsIntact :
    (db : Db) (task : Candidate) (now : ℕ) (enabled : String → Bool)
    → is_unscheduled task.state ≡ false
    → Ensures (Blocked (IsIntact db task now enabled)) (intrinsic db task now enabled)
unfolding intrinsic
intrinsic-IsIntact db task now enabled planned =
    let Q = Blocked (IsIntact db task now enabled) in
    Ensures-if Q task.cancel_requested _ _ (λ _. tt)
      λ wanted.
        Ensures-option Q (conversation_of db task.conversation_id) _ _ (λ _. tt)
          λ binding bound.
            Ensures-if Q (not binding.active) _ _ (λ _. tt)
              λ live. elim (Option-cases (episode_checks db task now)) [
                | inr (b, e) ↦ rw e tt
                | inl e ↦
                    let m = episode_checks-parts db task now e in
                    rw (e, planned)
                      (Ensures-imp _ Q
                        (Blocked-imp λ h. record {
                          wanted = wanted;
                          binding = binding;
                          bound = bound;
                          active = ground (arith, live);
                          same = h.2;
                          episode = m.0;
                          remembered = m.1;
                          unfinished = m.2;
                          unchanged = m.3;
                          recent = m.4;
                          in_time = h.0;
                          on = h.1;
                        })
                        (scheduled_checks db task binding now enabled)
                        (scheduled_checks-parts db task binding now enabled))
              ]

-- The candidate as it stands, the one that the event was made for, waits for its send.
pub record IsSendable (os : Platform) (l : Ledger) (event_id : String) (now : ℕ)
    (enabled : String → Bool) : Type 0 where
  pub task : Candidate
  pub found : for_event l event_id ≡ some (task, task.version)
  pub waits : task.state ≡ enqueued
  pub intact : IsIntact l.db task now enabled
  pub timely : IsTimely os l.db task.conversation_id now

-- The answer is no, or `P` holds.
abbrev pub OnlyIf : Type 0 → Ledger × Bool → Type 0
OnlyIf P (l, go) = (go ≡ false) ⊎ P

is_enqueued-eq : (s : CandidateState) → is_enqueued s ≡ true → s ≡ enqueued
is_enqueued-eq CandidateState.candidate h = absurd (cc h)
is_enqueued-eq CandidateState.scheduled h = absurd (cc h)
is_enqueued-eq CandidateState.enqueued h = refl
is_enqueued-eq CandidateState.dispatching h = absurd (cc h)
is_enqueued-eq CandidateState.needs_review h = absurd (cc h)
is_enqueued-eq CandidateState.completed h = absurd (cc h)
is_enqueued-eq CandidateState.cancelled h = absurd (cc h)
is_enqueued-eq CandidateState.dismissed h = absurd (cc h)
is_enqueued-eq CandidateState.expired h = absurd (cc h)
is_enqueued-eq CandidateState.invalidated h = absurd (cc h)

ready-IsSendable :
    (os : Platform) (l : Ledger) (event_id : String) (task : Candidate) (version now : ℕ)
    (enabled : String → Bool)
    → for_event l event_id ≡ some (task, version)
    → Ensures (OnlyIf (IsSendable os l event_id now enabled)) (ready os l task version now enabled)
unfolding ready
ready-IsSendable os l event_id task version now enabled found =
    let Q = OnlyIf (IsSendable os l event_id now enabled) in
    Ensures-if Q (not (version == task.version && is_enqueued task.state)) _ _ (λ _. inl refl)
      λ current.
        let parts =
          &&_parts (version == task.version) (is_enqueued task.state) (ground (arith, current)) in
        let same : version ≡ task.version = ground (arith, parts.0) in
        let waits = is_enqueued-eq task.state parts.1 in
        let planned : is_unscheduled task.state ≡ false = rw waits refl in
        Ensures-bind Q (intrinsic l.db task now enabled) _ λ blocked made.
          let intact =
            Ensures-ok (Blocked (IsIntact l.db task now enabled)) _
              (intrinsic-IsIntact l.db task now enabled planned) made in
          Ensures-option Q blocked _ _
            (λ e.
              let whole : IsIntact l.db task now enabled =
                subst (Blocked (IsIntact l.db task now enabled)) e intact in
              Ensures-bind Q (task_decision os l.db task now) _ λ d decided.
                let timely =
                  Ensures-ok (Unless (IsTimely os l.db task.conversation_id now)) _
                    (task_decision-IsTimely os l.db task now) decided in
                Ensures-if Q d.allowed _ _
                  (λ go. elim timely [
                    | inl no_more ↦ absurd (cc (sym go ∙ no_more))
                    | inr h ↦ inr (record {
                      task = task;
                      found = found ∙ ap (λ v. some (task, v)) same;
                      waits = waits;
                      intact = whole;
                      timely = h;
                    })
                  ])
                  (λ _. inl refl))
            (λ _ _. inl refl)

dispatch_task-IsSendable :
    (os : Platform) (l : Ledger) (event_id : String) (task : Candidate) (version now : ℕ)
    (enabled : String → Bool)
    → for_event l event_id ≡ some (task, version)
    → Ensures
        (OnlyIf (IsSendable os l event_id now enabled))
        (dispatch_task os l task version now enabled)
unfolding dispatch_task
dispatch_task-IsSendable os l event_id task version now enabled found =
    let Q = OnlyIf (IsSendable os l event_id now enabled) in
    Ensures-bind Q (ready os l task version now enabled) _ λ checked made.
      let known =
        Ensures-ok Q _ (ready-IsSendable os l event_id task version now enabled found) made in
      Ensures-if Q checked.1 _ (ok checked)
        (λ go. elim known [ inl stop ↦ absurd (cc (sym go ∙ stop)) | inr h ↦ inr h ]) (λ _. known)

-- Once the time of its episode is up to date, a follow-up goes out only for the current version of a
-- candidate that waits for its send, with its episode open and unchanged and its chat and character as
-- planned; with no input of the user waiting, under the rules of contact, as the first follow-up in 24
-- hours, with fewer than two follow-ups since the last message, and half an hour after it.
pub followup_goes_out :
    (os : Platform) (l l' : Ledger) (event_id : String) (now : ℕ) (enabled : String → Bool)
    (task : Candidate) (version : ℕ)
    → for_event l event_id ≡ some (task, version)
    → before_dispatch os l event_id now enabled ≡ ok (l', true)
    → IsSendable os (sync_episode_time l task now) event_id now enabled
unfolding before_dispatch resume
followup_goes_out os l l' event_id now enabled task version found e =
    let Q = OnlyIf (IsSendable os (sync_episode_time l task now) event_id now enabled) in
    let all : Ensures Q (before_dispatch os l event_id now enabled) =
      rw (found, before_dispatch)
        (Ensures-option Q (for_event (sync_episode_time l task now) event_id) _ _ (λ _. tt)
          λ t again.
            dispatch_task-IsSendable os (sync_episode_time l task now) event_id t.0 t.1 now enabled
              again) in
    elim (Ensures-ok Q (before_dispatch os l event_id now enabled) all e) [
      | inl stop ↦ absurd (cc stop)
      | inr h ↦ h
    ]
