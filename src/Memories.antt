-- ===== src/Memories.antt =====
-- runtime_v2/memories.py: memories with their revisions. What `apply_change` reads of the inbox is a
-- list of processed messages with the text segments of each. The times of episodes are left out.
pub mod Apply
pub mod Rows
pub mod Traced
pub mod History
pub mod Follows
use openqqwaifu.Prelude.{
  ℕ, ◌+◌, String, Bool, true, false, not, ◌&&◌, ◌||◌, Option, none, some, List, [], ◌∷◌, str_eq,
  ltb, leb, ◌==◌, if◌then◌else◌, find, any, length, update_where, select,
}
use openqqwaifu.Result.{Result, Error, ok, err, from_option, require, ◌>>=◌, ◌>>◌}
use openqqwaifu.Platform.{Platform, codes, is_blank}
use openqqwaifu.Json.{Json, text, number}

pub data Op : Type 0 where
  create revise withdraw : Op

pub data MemoryKind : Type 0 where
  fact episode : MemoryKind

-- The column `state`; `unfinished` is 'open'.
pub data State : Type 0 where
  active unfinished completed cancelled withdrawn : State

pub data Provenance : Type 0 where
  model_extracted admin_confirmed : Provenance

-- A change as it arrives; `exact` says that its keys are the expected ones.
pub record RawChange : Type 0 where
  pub exact : Bool
  pub op : Json
  pub memory_id : Json
  pub expected_version : Json
  pub kind : Json
  pub title : Json
  pub body : Json
  pub quote : Json
  pub state : Json

pub record Change : Type 0 where
  pub op : Op
  pub memory_id : String
  pub expected_version : ℕ
  pub kind : MemoryKind
  pub title : String
  pub body : String
  pub quote : String
  pub state : State

-- A row of memory_records; `body` is the column `text`.
pub record Memory : Type 0 where
  pub memory_id : String
  pub conversation_id : String
  pub character_id : String
  pub kind : MemoryKind
  pub version : ℕ
  pub state : State
  pub title : String
  pub body : String
  pub source_event_id : String
  pub quote : String
  pub provenance : Provenance
  pub last_seq : ℕ

-- A row of memory_revisions; `snapshot` is what record_json encodes.
pub record Revision : Type 0 where
  pub memory_id : String
  pub version : ℕ
  pub change_event_id : String
  pub snapshot : Memory
  pub actor : String
  pub note : String

-- An event of kind 'message' with its turn's character.
pub record Processed : Type 0 where
  pub event_id : String
  pub conversation_id : String
  pub character_id : String
  pub seq : ℕ
  pub sender_id : String
  pub launcher_type : String
  pub texts : List String

pub record Store : Type 0 where
  pub records : List Memory
  pub revisions : List Revision

-- `part in text`, the id that `apply_change` makes of an event and an index, and `note[:1000]`.
pub record Digest : Type 0 where
  pub contains : String → String → Bool
  pub memory_id : String → ℕ → String
  pub shortened : String → String

abbrev pub as_text : Json → Result String
as_text (text value) = ok value
as_text _ = err Error.invalid_memory_change

abbrev pub as_number : Json → Result ℕ
as_number (number value) = ok value
as_number _ = err Error.invalid_memory_change

abbrev pub invalid_unless : Bool → Result (Unit {0})
invalid_unless test = require test Error.invalid_memory_change

abbrev pub op_of : Bool → String → Option Op
op_of model value =
    if str_eq value "create"
    then some create
    else if str_eq value "revise"
    then some revise
    else if not model && str_eq value "withdraw"
    then some withdraw
    else none

abbrev pub kind_of : String → Option MemoryKind
kind_of value =
    if str_eq value "fact" then some fact else if str_eq value "episode" then some episode else none

abbrev episode_state : String → Option State
episode_state value =
    if str_eq value "open"
    then some unfinished
    else if str_eq value "completed"
    then some completed
    else if str_eq value "cancelled"
    then some cancelled
    else none

-- The states that a change of this kind and operation may write.
abbrev pub state_of : Op → MemoryKind → String → Option State
state_of withdraw _ value = if str_eq value "withdrawn" then some withdrawn else none
state_of create fact value = if str_eq value "active" then some active else none
state_of revise fact value = if str_eq value "active" then some active else none
state_of create episode value = episode_state value
state_of revise episode value = episode_state value

abbrev pub is_create : Op → Bool
is_create create = true
is_create _ = false

abbrev pub targets : Op → String → ℕ → Bool
targets op memory_id version =
    if is_create op
    then str_eq memory_id "" && version == 0
    else not (str_eq memory_id "") && leb 1 version

-- 1 to `limit` characters that are not all white space
abbrev pub is_filled : Platform → String → ℕ → Bool
is_filled os value limit = not (is_blank os value) && leb (length (codes value)) limit

unfoldable pub validate_change : Platform → RawChange → Bool → Result Change
validate_change os raw model = do
  invalid_unless raw.exact
  op_text ← as_text raw.op
  memory_id ← as_text raw.memory_id
  kind_text ← as_text raw.kind
  title ← as_text raw.title
  body ← as_text raw.body
  quote ← as_text raw.quote
  state_text ← as_text raw.state
  op ← from_option Error.invalid_memory_change (op_of model op_text)
  version ← as_number raw.expected_version
  invalid_unless (targets op memory_id version)
  invalid_unless (leb (length (codes memory_id)) 64)
  kind ← from_option Error.invalid_memory_change (kind_of kind_text)
  state ← from_option Error.invalid_memory_change (state_of op kind state_text)
  invalid_unless (is_filled os title 80)
  invalid_unless (is_filled os body 500)
  invalid_unless (is_filled os quote 500)
  ok (record {
    op = op;
    memory_id = memory_id;
    expected_version = version;
    kind = kind;
    title = title;
    body = body;
    quote = quote;
    state = state;
  })
