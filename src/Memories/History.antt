-- ===== src/Memories/History.antt =====
-- The revisions of a memory, over every change.
use openqqwaifu.Prelude.{
  ◌+◌, ◌≡◌, refl, sym, subst, String, Bool, not, ◌&&◌, Option, none, some, List, ◌∷◌, str_eq, arith,
  find, any, found_own, ◌==◌,
}
use openqqwaifu.Result.{
  ok, Ensures, Ensures-ok, Ensures-bind, Ensures-require, Ensures-if, Error, from_option,
}
use openqqwaifu.Platform.{Platform}
use openqqwaifu.Memories.{
  Memory, Store, Change, RawChange, Digest, Processed, validate_change, is_create,
}
use openqqwaifu.Memories.Apply.{
  Origin, is_memory, in_scope, written, add_revision, update_record, insert_record, target,
  write_record, source_text, apply_change, is_withdrawn, same_kind, is_confirmed,
}
use openqqwaifu.Memories.Rows.{IsDistinct, is_memory-eq, find-in_scope}
use openqqwaifu.Memories.Traced.{IsSound, revision_of, inserted-IsSound, updated-IsSound}

from_option-found :
    {A : Type 0} (o : Option A) (e : Error) {a : A} → from_option e o ≡ ok a → o ≡ some a
from_option-found none e h = absurd (cc h)
from_option-found (some b) e h = cc

-- The record that a revision is about is the one under its identity, with the version that it names.
pub target-found :
    (change : Change) (cid character : String) (model : Bool) (records : List Memory) (old : Memory)
    → IsDistinct records
    → target change cid character model records ≡ ok old
    → find (is_memory old.memory_id) records ≡ some old
unfolding target
target-found change cid character model records old d e =
    let id = change.memory_id in
    let Q = λ (r : Memory). find (is_memory r.memory_id) records ≡ some r in
    Ensures-ok Q (target change cid character model records)
      (Ensures-bind Q
        (from_option Error.invalid_memory_change (find (in_scope id cid character) records)) _
        λ r made.
          let found = find-in_scope id cid character records r d (from_option-found _ _ made) in
          let same : r.memory_id ≡ id =
            is_memory-eq id r (found_own (is_memory id) records found) in
          Ensures-require Q (r.version == change.expected_version && not (is_withdrawn r.state)) _ _
            λ _. Ensures-require Q (same_kind r.kind change.kind) _ _ λ _.
              Ensures-require Q (not (model && is_confirmed r.provenance)) _ _
                λ _. subst (λ i. find (is_memory i) records ≡ some r) (sym same) found)
      e

-- What apply_change leaves, where it returns.
abbrev pub LeavesSound : Store × Memory → Type 0
LeavesSound (store, made) = IsSound store

-- The state between the two statements: its revision makes it sound.
abbrev IsWritten : Digest → Origin → Store × Memory → Type 0
IsWritten digest origin (store, made) =
    IsSound (record store { revisions = revision_of digest origin made ∷ store.revisions })

write_record-IsWritten :
    (digest : Digest) (origin : Origin) (change : Change) (store : Store)
    → IsSound store
    → Ensures (IsWritten digest origin) (write_record digest origin change store)
unfolding write_record insert_record update_record
write_record-IsWritten digest origin change store h =
    let Q = IsWritten digest origin in
    Ensures-if Q (is_create change.op) _ _
      (λ _.
        let id = digest.memory_id origin.event_id origin.index in
        Ensures-require Q (not (any (is_memory id) store.records)) _ _
          λ free. inserted-IsSound digest origin store _ refl (ground (arith, free)) h)
      (λ _.
        Ensures-bind Q
          (target change origin.conversation_id origin.character_id origin.model store.records) _
          λ old made.
            updated-IsSound digest origin store old
              (written change origin.source_id origin.seq (old.version + 1) origin.model)
              (λ _. refl) refl
              (target-found change origin.conversation_id origin.character_id origin.model
                store.records old h.distinct made)
              h)

-- Where each memory has one record, and its revisions are numbered without a gap from its version down
-- to 1, the newest with the record as it is, the same holds after a change that is applied.
pub apply_change-IsSound :
    (os : Platform) (digest : Digest) (messages : List Processed) (origin : Origin)
    (raw : RawChange) (store : Store)
    → IsSound store
    → Ensures LeavesSound (apply_change os digest messages origin raw store)
unfolding apply_change add_revision
apply_change-IsSound os digest messages origin raw store h =
    let Q = LeavesSound in
    Ensures-bind Q (validate_change os raw origin.model) _ λ change _.
      Ensures-bind Q
        (source_text messages origin.source_id origin.conversation_id origin.character_id
          origin.seq)
        _
        λ source _.
          Ensures-require Q (any (λ part. digest.contains part change.quote) source.1) _ _ λ _.
            Ensures-bind Q (write_record digest origin change store) _ λ saved made.
              Ensures-bind Q (add_revision (revision_of digest origin saved.1) saved.0) _
                λ revised added.
                  Ensures-ok IsSound (add_revision (revision_of digest origin saved.1) saved.0)
                    (Ensures-require IsSound
                      (not (
                        any
                          (λ v.
                            str_eq v.memory_id saved.1.memory_id && v.version == saved.1.version)
                          saved.0.revisions))
                      _ _
                      λ _.
                        Ensures-ok (IsWritten digest origin) _
                          (write_record-IsWritten digest origin change store h) made)
                    added
