-- ===== src/ReplyFlow/Gate.antt =====
-- reply_flow/reply_gate.py: `ReplyGate`, its follow-up windows, the search that waits for a yes, and
-- `should_reply`. The metadata of a session are the three entries that the gate reads.
pub mod Search
pub mod Mention
use openqqwaifu.Prelude.{
  ℕ, ◌+◌, ◌-◌, ◌*◌, String, Bool, true, false, not, ◌&&◌, ◌||◌, Option, none, some, List, [], ◌∷◌,
  str_eq, ltb, leb, ◌==◌, if◌then◌else◌, any, find, count_where,
}
use openqqwaifu.ReplyFlow.Phrases.{
  Words, search_confirmation, search_clarification, search_link_request,
}
use Prim.Native.String.{◌++◌}

-- PENDING_SEARCH_TTL_SECONDS and LAST_SEARCH_TTL_SECONDS
abbrev pub search_ttl : ℕ
search_ttl = 1800 * 1000000

-- "pending_search"; a missing or unreadable time is 0.
pub record Pending : Type 0 where
  pub query : String
  pub expires_at : ℕ

-- "last_search"
pub record LastSearch : Type 0 where
  pub query : String
  pub has_results : Bool
  pub fetched_at : ℕ

pub record Session : Type 0 where
  pub follow_up_until : ℕ
  pub pending : Option Pending
  pub last_search : Option LastSearch

-- An entry of `_group_follow_up_until`.
pub record Window : Type 0 where
  pub character_id : String
  pub launcher_id : String
  pub until : ℕ

pub record Gate : Type 0 where
  pub windows : List Window
  pub sessions : String → String → Session

-- `time.monotonic` and `time.time`
pub record Clock : Type 0 where
  pub monotonic : ℕ
  pub wall : ℕ

-- The settings, with the character that is active.
pub record Config : Type 0 where
  pub character_id : String
  pub ignore_user_ids : List String
  pub bot_account_id : String
  pub requires_mention : Bool
  pub listen_enabled : Bool
  pub window_span : ℕ

-- An event, with what the mention test, the emitter and the listener say of it; `text` is the command
-- text or the text for the memory.
pub record Incoming : Type 0 where
  pub launcher_type : String
  pub launcher_id : String
  pub sender_id : String
  pub text : String
  pub mentions_bot : Bool
  pub superseded : Bool
  pub addresses_bot : Bool

abbrev pub is_window : String → String → Window → Bool
is_window character_id launcher_id w =
    str_eq w.character_id character_id && str_eq w.launcher_id launcher_id

-- self._group_follow_up_until[key] = deadline
abbrev pub put : Window → List Window → List Window
put w [] = w ∷ []
put w (x ∷ xs) =
    let rest = put w xs in if is_window w.character_id w.launcher_id x then w ∷ xs else x ∷ rest

abbrev pub deadline : Option Window → ℕ
deadline none = 0
deadline (some w) = w.until

unfoldable pub is_follow_up_window_active : Clock → String → String → Gate → Bool
is_follow_up_window_active clock character_id launcher_id gate =
    leb clock.monotonic (deadline (find (is_window character_id launcher_id) gate.windows))
    || leb clock.wall (gate.sessions character_id launcher_id).follow_up_until

abbrev pub set_session :
    String → String → Session → (String → String → Session) → String → String → Session
set_session character_id launcher_id session sessions c l =
    if str_eq c character_id && str_eq l launcher_id then session else sessions c l

unfoldable pub persist_follow_up_window : String → String → ℕ → Gate → Gate
persist_follow_up_window character_id launcher_id wall gate = record gate {
  sessions =
      set_session character_id launcher_id
        (record (gate.sessions character_id launcher_id) { follow_up_until = wall }) gate.sessions;
}

unfoldable pub refresh_follow_up_window : Clock → Config → Incoming → Gate → Gate
refresh_follow_up_window clock config event gate =
    if not (str_eq event.launcher_type "group") || config.window_span == 0
    then gate
    else persist_follow_up_window config.character_id event.launcher_id
        (clock.wall + config.window_span)
        (record gate {
          windows =
              put
                (record {
                  character_id = config.character_id;
                  launcher_id = event.launcher_id;
                  until = clock.monotonic + config.window_span;
                })
                gate.windows;
        })

-- active_followup_count_locked
unfoldable pub active_followup_count : String → ℕ → Gate → ℕ
active_followup_count character_id now gate =
    count_where (λ w. str_eq w.character_id character_id && ltb now w.until) gate.windows

-- clear_all_windows_locked
abbrev pub clear_all_windows : Gate → Gate
clear_all_windows gate = record gate { windows = [] }

abbrev pub clear_pending_search : Session → Session
clear_pending_search session = record session { pending = none }

unfoldable pub store_pending_search : Words → ℕ → String → Session → Session
store_pending_search words now query session =
    let cleaned = words.squash query in
    if str_eq cleaned "" then clear_pending_search session else record session {
      pending = some (record { query = cleaned; expires_at = now + search_ttl });
    }

-- A time that is known and more than the time to live ago.
abbrev pub is_out : ℕ → ℕ → Bool
is_out fetched_at now = not (fetched_at == 0) && ltb search_ttl (now - fetched_at)

-- What an older version left: a search without results.
unfoldable pub legacy_payload : Words → ℕ → Option LastSearch → Option Pending
legacy_payload words now none = none
legacy_payload words now (some s) =
    let query = words.strip s.query in
    if str_eq query "" || s.has_results
    then none
    else if is_out s.fetched_at now
    then none
    else some (record {
      query = query;
      expires_at = (if s.fetched_at == 0 then now else s.fetched_at) + search_ttl;
    })

unfoldable pub pending_search_payload : Words → ℕ → Session → Option Pending
pending_search_payload words now session = elim session.pending [
  | none ↦ legacy_payload words now session.last_search
  | some p ↦
      if str_eq (words.strip p.query) ""
      then legacy_payload words now session.last_search
      else some p
]

unfoldable pub recent_search_payload : Words → ℕ → Session → Option LastSearch
recent_search_payload words now session = elim session.last_search [
  | none ↦ none
  | some s ↦ if str_eq (words.strip s.query) "" || is_out s.fetched_at now then none else some s
]

-- " ".join(part for part in (a, b) if part).strip()
abbrev pub join_parts : Words → String → String → String
join_parts words a b =
    words.strip (if str_eq a "" then b else if str_eq b "" then a else a ++ " " ++ b)

unfoldable pub pending_search_query : Words → ℕ → String → Session → Session × String
pending_search_query words now message session = elim (pending_search_payload words now session) [
  | none ↦ (session, "")
  | some p ↦
      if not (p.expires_at == 0) && ltb p.expires_at now
      then (clear_pending_search session, "")
      else if search_confirmation words message
      then (session, words.strip p.query)
      else if search_clarification words message
      then (session, join_parts words (words.strip p.query) (words.squash message))
      else (session, "")
]

abbrev pub recent_search : Words → ℕ → String → Session → Option LastSearch
recent_search words now message session =
    if search_link_request words message then recent_search_payload words now session else none

abbrev pub is_known : Option LastSearch → Bool
is_known none = false
is_known (some _) = true

unfoldable pub has_pending_search_follow_up : Words → Clock → Config → Incoming → Gate → Gate × Bool
has_pending_search_follow_up words clock config event gate =
    if not (str_eq event.launcher_type "group")
    then (gate, false)
    else (let found =
          pending_search_query words clock.wall event.text
            (gate.sessions config.character_id event.launcher_id) in
        (
          record gate {
            sessions = set_session config.character_id event.launcher_id found.0 gate.sessions;
          },
          not (str_eq found.1 ""),
        ))

unfoldable pub has_recent_search_link_follow_up : Words → Clock → Config → Incoming → Gate → Bool
has_recent_search_link_follow_up words clock config event gate =
    str_eq event.launcher_type "group"
    && is_known (
        recent_search words clock.wall event.text
          (gate.sessions config.character_id event.launcher_id))

-- The end of `should_reply`, for a line that nobody aimed at the bot.
abbrev pub search_follow_up : Words → Clock → Config → Incoming → Gate → Gate × Bool
search_follow_up words clock config event gate =
    if has_recent_search_link_follow_up words clock config event gate
    then (gate, true)
    else has_pending_search_follow_up words clock config event gate

abbrev pub is_ignored : Words → Config → Incoming → Bool
is_ignored words config event =
    any
      (λ u. not (str_eq (words.strip u) "") && str_eq (words.strip u) (words.strip event.sender_id))
      config.ignore_user_ids

unfoldable pub should_reply : Words → Clock → Config → Incoming → Gate → Gate × Bool
should_reply words clock config event gate =
    let bot = words.strip config.bot_account_id in
    if is_ignored words config event
    then (gate, false)
    else if not (str_eq event.launcher_type "group")
    then (gate, true)
    else if not (str_eq bot "") && event.mentions_bot
    then (refresh_follow_up_window clock config event gate, true)
    else if not config.requires_mention
    then (gate, not event.superseded)
    else if str_eq bot ""
    then (gate, true)
    else if config.listen_enabled
    then (if event.addresses_bot
        then (gate, true)
        else search_follow_up words clock config event gate)
    else if is_follow_up_window_active clock config.character_id event.launcher_id gate
    then (gate, not event.superseded)
    else search_follow_up words clock config event gate
