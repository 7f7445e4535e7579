-- ===== src/Followups/Times.antt =====
-- runtime_v2/episode_times.py, `reset_followups` and `sync_record`: the time of an episode is brought up
-- to date with its memory and the zone of its chat. A row is found by its memory and version, which are
-- unique. What episode_time_parser.py proposes is left out with its column.
use openqqwaifu.Prelude.{
  ℕ, ◌+◌, String, Bool, true, false, not, ◌&&◌, ◌||◌, none, some, List, [], ◌∷◌, ◌++◌, str_eq, ◌==◌,
  if◌then◌else◌, find, select, update_where,
}
use openqqwaifu.Tables.{MemoryRecord, Db}
use openqqwaifu.Followups.{
  Candidate, CandidateState, Ledger, TimeState, EpisodeTime, proposed, confirmed, outdated,
  candidate, scheduled, enqueued, dispatching, needs_review, is_candidate, is_under_way, is_open,
  invalidate, set_candidates,
}

-- state IN ('candidate','scheduled','enqueued','dispatching','needs_review')
abbrev pub is_pending : CandidateState → Bool
is_pending candidate = true
is_pending scheduled = true
is_pending enqueued = true
is_pending dispatching = true
is_pending needs_review = true
is_pending _ = false

abbrev pub follows : String → ℕ → Candidate → Bool
follows memory_id version c =
    str_eq c.memory_id memory_id && c.memory_version == version && is_pending c.state

abbrev pub clear_time : Candidate → Candidate
clear_time c = record c { due_at = none; expires_at = none; binding_generation = none }

unfoldable pub reset_followup : ℕ → Candidate → Ledger → Ledger
reset_followup now row l =
    let l' = invalidate l row candidate "episode_time_changed" now in
    if is_under_way row.state
    then l'
    else set_candidates l' (update_where (is_candidate row.candidate_id) clear_time l'.candidates)

unfoldable pub reset_rows : ℕ → List Candidate → Ledger → Ledger
reset_rows now [] l = l
reset_rows now (c ∷ cs) l = reset_rows now cs (reset_followup now c l)

unfoldable pub reset_followups : Ledger → String → ℕ → ℕ → Ledger
reset_followups l memory_id version now =
    reset_rows now (select (follows memory_id version) l.candidates) l

abbrev pub is_time_of : String → ℕ → EpisodeTime → Bool
is_time_of memory_id version t = str_eq t.memory_id memory_id && t.memory_version == version

abbrev is_outdated : TimeState → Bool
is_outdated outdated = true
is_outdated _ = false

abbrev pub is_confirmed : TimeState → Bool
is_confirmed confirmed = true
is_confirmed _ = false

-- The rows of other versions of the memory, or all its rows if it is not open.
abbrev pub is_left : MemoryRecord → EpisodeTime → Bool
is_left m t =
    str_eq t.memory_id m.memory_id
    && not (is_outdated t.state)
    && (not (t.memory_version == m.version) || not (is_open m.state))

abbrev pub outdate : ℕ → EpisodeTime → EpisodeTime
outdate now t = record t {
  state = outdated;
  reason = "episode_changed";
  version = t.version + 1;
  updated_at = now;
}

abbrev pub set_times : Ledger → List EpisodeTime → Ledger
set_times l times = record l { times = times }

-- The zone in the policy of a chat, or "".
abbrev pub zone_of : Db → String → String
zone_of db cid = elim (find (λ p. str_eq p.conversation_id cid) db.policies) [
  | none ↦ ""
  | some p ↦ p.timezone
]

abbrev pub propose_again : String → ℕ → EpisodeTime → EpisodeTime
propose_again zone now t = record t {
  version = t.version + 1;
  state = proposed;
  reason = "timezone_changed";
  timezone = zone;
  updated_at = now;
}

abbrev pub new_time : MemoryRecord → String → ℕ → EpisodeTime
new_time m zone now = record {
  memory_id = m.memory_id;
  memory_version = m.version;
  timezone = zone;
  version = 1;
  state = proposed;
  reason = "";
  updated_at = now;
}

-- `sync_record` from `old = current(...)` on, for an episode that is open.
unfoldable pub sync_open : Ledger → MemoryRecord → String → ℕ → Ledger
sync_open l m zone now = elim (find (is_time_of m.memory_id m.version) l.times) [
  | none ↦ set_times l (l.times ++ new_time m zone now ∷ [])
  | some old ↦
      if str_eq old.timezone zone
      then l
      else let l' =
          if is_confirmed old.state then reset_followups l m.memory_id m.version now else l in
        set_times l'
          (update_where (is_time_of m.memory_id m.version) (propose_again zone now) l'.times)
]

unfoldable pub sync_record : Ledger → MemoryRecord → ℕ → Ledger
sync_record l m now =
    let l' = set_times l (update_where (is_left m) (outdate now) l.times) in
    if is_open m.state then sync_open l' m (zone_of l.db m.conversation_id) now else l'

-- `sync_episode_time` of followups.py.
unfoldable pub sync_episode_time : Ledger → Candidate → ℕ → Ledger
sync_episode_time l task now = elim (find (λ m. str_eq m.memory_id task.memory_id) l.db.memories) [
  | none ↦ l
  | some m ↦ sync_record l m now
]
