-- ===== src/Memories/Follows.antt =====
-- What one change does to the record under an identity.
use openqqwaifu.Prelude.{
  ◌+◌, ◌≡◌, ◌⊎◌, inl, inr, refl, sym, ap, ◌∙◌, subst, String, Bool, true, false, not, ◌&&◌, some,
  List, str_eq, eq_iff, arith, Bool-cases, find, any, update_where, found_own, find-update_where,
  if◌then◌else◌, ◌==◌,
}
use mathlib.Core.Option.{some_inj}
use openqqwaifu.Result.{
  ok, Ensures, Ensures-ok, Ensures-bind, Ensures-require, Ensures-if, Error, from_option,
}
use openqqwaifu.Platform.{Platform}
use openqqwaifu.Memories.{
  Memory, Revision, Store, Change, RawChange, Digest, Processed, validate_change, is_create,
}
use openqqwaifu.Memories.Apply.{
  Origin, is_memory, in_scope, written, add_revision, update_record, insert_record, target,
  write_record, source_text, apply_change, is_withdrawn, same_kind, is_confirmed,
}
use openqqwaifu.Memories.Rows.{IsDistinct, is_memory-eq, found_any}
use openqqwaifu.Memories.History.{target-found}

-- The next version of a record that was not withdrawn and, for the model, not confirmed by a person.
pub record IsNext (model : Bool) (r r' : Memory) : Type 0 where
  pub next : r'.version ≡ r.version + 1
  pub same_scope : (r'.conversation_id ≡ r.conversation_id) × (r'.character_id ≡ r.character_id)
  pub kept_kind : r'.kind ≡ r.kind
  pub available : is_withdrawn r.state ≡ false
  pub free : (model ≡ false) ⊎ (is_confirmed r.provenance ≡ false)

abbrev pub Follows : Bool → Memory → Memory → Type 0
Follows model r r' = (r' ≡ r) ⊎ IsNext model r r'

-- Under the identity stands a record that follows `r`.
abbrev pub HasNext : String → Bool → Memory → List Memory → Type 0
HasNext id model r records =
    (r' : Memory) × (find (is_memory id) records ≡ some r') × Follows model r r'

target-available :
    (change : Change) (cid character : String) (model : Bool) (records : List Memory)
    → Ensures
        (λ (r : Memory).
          (is_withdrawn r.state ≡ false) × ((model ≡ false) ⊎ (is_confirmed r.provenance ≡ false)))
        (target change cid character model records)
unfolding target
target-available change cid character model records =
    let Q = λ (r : Memory).
      (is_withdrawn r.state ≡ false) × ((model ≡ false) ⊎ (is_confirmed r.provenance ≡ false)) in
    Ensures-bind Q
      (from_option Error.invalid_memory_change
        (find (in_scope change.memory_id cid character) records))
      _
      λ r _.
        Ensures-require Q (r.version == change.expected_version && not (is_withdrawn r.state)) _ _
          λ current. Ensures-require Q (same_kind r.kind change.kind) _ _ λ _.
            Ensures-require Q (not (model && is_confirmed r.provenance)) _ _
              λ automatic. (ground (arith, current), ground (arith, automatic))

update-HasNext :
    (change : Change) (origin : Origin) (id : String) (r old : Memory) (records : List Memory)
    → find (is_memory id) records ≡ some r
    → find (is_memory old.memory_id) records ≡ some old
    → is_withdrawn old.state ≡ false
    → (origin.model ≡ false) ⊎ (is_confirmed old.provenance ≡ false)
    → HasNext id origin.model r (
        update_where
          (is_memory old.memory_id)
          (written change origin.source_id origin.seq (old.version + 1) origin.model)
          records)
update-HasNext change origin id r old records found there live free =
    let f = written change origin.source_id origin.seq (old.version + 1) origin.model in
    let test = is_memory old.memory_id in
    let moved : find (is_memory id) (update_where test f records)
        ≡ some (if test r then f r else r) =
      find-update_where (is_memory id) test f (λ a _. refl) records found in
    elim (Bool-cases (test r)) [
      | inr other ↦ (r, rw other at moved, inl refl)
      | inl same ↦
          let named : r.memory_id ≡ id =
            is_memory-eq id r (found_own (is_memory id) records found) in
          let own : r.memory_id ≡ old.memory_id = is_memory-eq old.memory_id r same in
          let one : r ≡ old = some_inj.0 (
            sym found
            ∙ subst (λ i. find (is_memory i) records ≡ some old) (sym own ∙ named) there) in
          (
            f r,
            rw same at moved,
            inr (record {
              next = ap (λ x. x.version + 1) (sym one);
              same_scope = (refl, refl);
              kept_kind = refl;
              available = subst (λ x. is_withdrawn x.state ≡ false) (sym one) live;
              free =
                  subst (λ x. (origin.model ≡ false) ⊎ (is_confirmed x.provenance ≡ false))
                    (sym one) free;
            }),
          )
    ]

write_record-HasNext :
    (digest : Digest) (origin : Origin) (change : Change) (store : Store) (id : String) (r : Memory)
    → IsDistinct store.records
    → find (is_memory id) store.records ≡ some r
    → Ensures
        (λ (p : Store × Memory). HasNext id origin.model r p.0.records)
        (write_record digest origin change store)
unfolding write_record insert_record update_record
write_record-HasNext digest origin change store id r distinct found =
    let Q = λ (p : Store × Memory). HasNext id origin.model r p.0.records in
    Ensures-if Q (is_create change.op) _ _
      (λ _.
        let made = digest.memory_id origin.event_id origin.index in
        Ensures-require Q (not (any (is_memory made) store.records)) _ _ λ free.
          elim (Bool-cases (str_eq made id)) [
            | inr other ↦ (r, rw other found, inl refl)
            | inl same ↦
                let there : any (is_memory made) store.records ≡ true =
                  subst (λ i. any (is_memory i) store.records ≡ true)
                    (sym ((eq_iff made id).0 same)) (found_any id store.records r found) in
                absurd (ground (arith, free, there))
          ])
      (λ _.
        Ensures-bind Q
          (target change origin.conversation_id origin.character_id origin.model store.records) _
          λ old made.
            let facts =
              Ensures-ok
                (λ (r : Memory).
                  (is_withdrawn r.state ≡ false)
                  × ((origin.model ≡ false) ⊎ (is_confirmed r.provenance ≡ false)))
                _
                (target-available change origin.conversation_id origin.character_id origin.model
                  store.records)
                made in
            update-HasNext change origin id r old store.records found
              (target-found change origin.conversation_id origin.character_id origin.model
                store.records old distinct made)
              facts.0 facts.1)

records-add_revision :
    (v : Revision) (store : Store)
    → Ensures (λ (s : Store). s.records ≡ store.records) (add_revision v store)
unfolding add_revision
records-add_revision v store =
    Ensures-require (λ (s : Store). s.records ≡ store.records)
      (not (any (λ x. str_eq x.memory_id v.memory_id && x.version == v.version) store.revisions)) _
      _ λ _. refl

-- Where each identity has one record, a change that is applied leaves the record under an identity as
-- it is, or makes its next version, of the same kind and for the same chat and character; a withdrawn
-- record is never changed, and a change by the model never changes one that a person confirmed.
pub apply_change-Follows :
    (os : Platform) (digest : Digest) (messages : List Processed) (origin : Origin)
    (raw : RawChange) (store store' : Store) (made : Memory) (id : String) (r : Memory)
    → IsDistinct store.records
    → find (is_memory id) store.records ≡ some r
    → apply_change os digest messages origin raw store ≡ ok (store', made)
    → HasNext id origin.model r store'.records
unfolding apply_change
apply_change-Follows os digest messages origin raw store store' made id r distinct found e =
    let Q = λ (p : Store × Memory). HasNext id origin.model r p.0.records in
    Ensures-ok Q (apply_change os digest messages origin raw store)
      (Ensures-bind Q (validate_change os raw origin.model) _ λ change _.
        Ensures-bind Q
          (source_text messages origin.source_id origin.conversation_id origin.character_id
            origin.seq)
          _
          λ source _.
            Ensures-require Q (any (λ part. digest.contains part change.quote) source.1) _ _ λ _.
              Ensures-bind Q (write_record digest origin change store) _ λ saved wrote.
                let kept =
                  Ensures-ok Q _
                    (write_record-HasNext digest origin change store id r distinct found) wrote in
                Ensures-bind Q (add_revision _ saved.0) _ λ revised added.
                  subst (HasNext id origin.model r)
                    (sym (
                      Ensures-ok (λ (s : Store). s.records ≡ saved.0.records)
                        (add_revision _ saved.0) (records-add_revision _ saved.0) added))
                    kept)
      e
