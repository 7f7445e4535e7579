-- ===== src/Memories/Apply.antt =====
-- `source_text` and `apply_change` of memories.py: the evidence of a change, and what it writes.
use openqqwaifu.Prelude.{
  ℕ, ◌+◌, String, Bool, true, false, not, ◌&&◌, List, ◌∷◌, str_eq, leb, ◌==◌, if◌then◌else◌, find,
  any, update_where,
}
use openqqwaifu.Result.{Result, Error, ok, from_option, require, ◌>>=◌, ◌>>◌}
use openqqwaifu.Platform.{Platform}
use openqqwaifu.Memories.{
  MemoryKind, State, Provenance, RawChange, Change, Memory, Revision, Processed, Store, Digest,
  invalid_unless, is_create, validate_change, fact, episode, withdrawn, model_extracted,
  admin_confirmed,
}

abbrev pub is_source : String → String → String → ℕ → Processed → Bool
is_source source_id cid character before_seq e =
    str_eq e.event_id source_id
    && str_eq e.conversation_id cid
    && str_eq e.character_id character
    && leb e.seq before_seq

unfoldable pub source_text :
    List Processed → String → String → String → ℕ → Result (Processed × List String)
source_text messages source_id cid character before_seq = do
  source ←
      from_option Error.invalid_memory_change
        (find (is_source source_id cid character before_seq) messages)
  invalid_unless (str_eq source.sender_id cid && str_eq source.launcher_type "person")
  ok (source, source.texts)

abbrev pub is_memory : String → Memory → Bool
is_memory memory_id r = str_eq r.memory_id memory_id

abbrev pub in_scope : String → String → String → Memory → Bool
in_scope memory_id cid character r =
    is_memory memory_id r && str_eq r.conversation_id cid && str_eq r.character_id character

abbrev pub is_withdrawn : State → Bool
is_withdrawn withdrawn = true
is_withdrawn _ = false

abbrev pub same_kind : MemoryKind → MemoryKind → Bool
same_kind fact fact = true
same_kind episode episode = true
same_kind _ _ = false

abbrev pub is_confirmed : Provenance → Bool
is_confirmed admin_confirmed = true
is_confirmed model_extracted = false

-- The record that a revision or a withdrawal is about.
unfoldable pub target : Change → String → String → Bool → List Memory → Result Memory
target change cid character model records = do
  old ←
      from_option Error.invalid_memory_change
        (find (in_scope change.memory_id cid character) records)
  invalid_unless (old.version == change.expected_version && not (is_withdrawn old.state))
  invalid_unless (same_kind old.kind change.kind)
  invalid_unless (not (model && is_confirmed old.provenance))
  ok old

abbrev pub provenance_of : Bool → Provenance
provenance_of model = if model then model_extracted else admin_confirmed

-- What both statements write; `stored` gives the columns that they keep.
abbrev pub written : Change → String → ℕ → ℕ → Bool → Memory → Memory
written change source_id seq version model stored = record stored {
  version = version;
  state = change.state;
  title = change.title;
  body = change.body;
  source_event_id = source_id;
  quote = change.quote;
  provenance = provenance_of model;
  last_seq = seq;
}

-- INSERT INTO memory_revisions, with PRIMARY KEY(memory_id,version)
unfoldable pub add_revision : Revision → Store → Result Store
add_revision revision store =
    require
      (not (
        any (λ v. str_eq v.memory_id revision.memory_id && v.version == revision.version)
          store.revisions))
      Error.integrity_error
    >> ok (record store { revisions = revision ∷ store.revisions })

-- UPDATE memory_records SET … WHERE memory_id=?
unfoldable pub update_record : Change → String → ℕ → Bool → Memory → Store → Store × Memory
update_record change source_id seq model old store =
    let made = written change source_id seq (old.version + 1) model in
    (record store { records = update_where (is_memory old.memory_id) made store.records }, made old)

-- INSERT INTO memory_records(…), where memory_id is UNIQUE
unfoldable pub insert_record :
    Change → String → String → String → String → ℕ → Bool → Store → Result (Store × Memory)
insert_record change memory_id cid character source_id seq model store =
    require (not (any (is_memory memory_id) store.records)) Error.integrity_error
    >> (let made : Memory = record {
      memory_id = memory_id;
      conversation_id = cid;
      character_id = character;
      kind = change.kind;
      version = 1;
      state = change.state;
      title = change.title;
      body = change.body;
      source_event_id = source_id;
      quote = change.quote;
      provenance = provenance_of model;
      last_seq = seq;
    } in
        ok (record store { records = made ∷ store.records }, made))

-- Where a change comes from.
pub record Origin : Type 0 where
  pub conversation_id : String
  pub character_id : String
  pub event_id : String
  pub seq : ℕ
  pub source_id : String
  pub actor : String
  pub note : String
  pub model : Bool
  pub index : ℕ

-- The record that the change writes.
unfoldable pub write_record : Digest → Origin → Change → Store → Result (Store × Memory)
write_record digest origin change store =
    if is_create change.op
    then insert_record change (digest.memory_id origin.event_id origin.index) origin.conversation_id
        origin.character_id origin.source_id origin.seq origin.model store
    else target change origin.conversation_id origin.character_id origin.model store.records
      >>= λ old. ok (update_record change origin.source_id origin.seq origin.model old store)

unfoldable pub apply_change :
    Platform → Digest → List Processed → Origin → RawChange → Store → Result (Store × Memory)
apply_change os digest messages origin raw store = do
  change ← validate_change os raw origin.model
  source ←
      source_text messages origin.source_id origin.conversation_id origin.character_id origin.seq
  invalid_unless (any (λ part. digest.contains part change.quote) source.1)
  saved ← write_record digest origin change store
  revised ←
      add_revision
        (record {
          memory_id = saved.1.memory_id;
          version = saved.1.version;
          change_event_id = origin.event_id;
          snapshot = saved.1;
          actor = origin.actor;
          note = digest.shortened origin.note;
        })
        saved.0
  ok (revised, saved.1)
