-- ===== src/Inbox/BindingOnce.antt =====
-- A change of character that is asked for twice.
use Prim.Native.String.{◌++◌}
use openqqwaifu.Prelude.{
  ℕ, ◌≡◌, refl, ◌∙◌, ap, String, Bool, true, not, none, some, List, [], ◌∷◌, str_eq, eq_iff, find,
  find-update_where, found_own, update_where, inl, inr, Bool-cases, Option-cases,
}
use openqqwaifu.Result.{
  ok, Ensures, Ensures-ok, Ensures-bind, Ensures-imp, Ensures-require, Ensures-option, from_option,
}
use openqqwaifu.Platform.{Platform, is_blank}
use openqqwaifu.Tables.{CharacterSnapshot, Conversation, Event, Db, conversation_of}
use openqqwaifu.Inbox.{check_capacity, take_seq, bump_seq}
use openqqwaifu.Inbox.Binding.{
  ErasedSource, Admission, duplicate_source, require_active, is_binding, same_character, binds,
  binding_event, add_row, admit_binding, repeat_binding, is_erased, enqueue_binding,
}

find-add_row :
    (p : Event → Bool) (es : List Event) (e : Event)
    → find p es ≡ none
    → p e ≡ true
    → find p (add_row es e) ≡ some e
find-add_row p [] e none_yet hit = rw hit refl
find-add_row p (x ∷ xs) e none_yet hit = elim (Bool-cases (p x)) [
  | inl t ↦ absurd (cc (rw t at none_yet))
  | inr t ↦ rw t (find-add_row p xs e (rw t at none_yet) hit)
]

same_character_refl : (c : CharacterSnapshot) → same_character c c ≡ true
same_character_refl c =
    rw
      (
        (eq_iff c.character_id c.character_id).1 refl,
        (eq_iff c.version c.version).1 refl,
        (eq_iff c.card_json c.card_json).1 refl,
      )
      refl

-- The request is in the inbox, of an active conversation, with the answer that it got.
record IsRecorded (cid : String) (character : CharacterSnapshot) (request_id : String)
    (d : Db × Admission) : Type 0 where
  open_chat : require_active d.0 cid ≡ ok tt
  row : Event
  found : find (is_binding cid request_id) d.0.inbox ≡ some row
  same : binds character row.kind ≡ true
  answered : (row.event_id ≡ d.1.event_id) × (row.seq ≡ d.1.seq)

take_seq-active :
    (db : Db) (cid : String)
    → require_active db cid ≡ ok tt
    → Ensures
        (λ (t : Db × ℕ). (require_active t.0 cid ≡ ok tt) × (t.0.inbox ≡ db.inbox))
        (take_seq db cid)
unfolding take_seq require_active
take_seq-active db cid e =
    let test = λ (r : Conversation). str_eq r.conversation_id cid in
    elim (Option-cases (conversation_of db cid)) [
      | inl f ↦ rw (take_seq, f, from_option) tt
      | inr (c, f) ↦
          let own : test c ≡ true = found_own test db.conversations f in
          let moved : find test (update_where test bump_seq db.conversations) ≡ some (bump_seq c) =
            find-update_where test test bump_seq (λ _ _. refl) db.conversations f ∙ rw own refl in
          rw (take_seq, f, from_option)
            (rw (require_active, moved) (rw (require_active, f) at e), refl)
    ]

admit_binding-IsRecorded :
    (max_pending : ℕ) (event_id : String) (now : ℕ) (cid : String) (character : CharacterSnapshot)
    (request_id : String) (db : Db)
    → require_active db cid ≡ ok tt
    → find (is_binding cid request_id) db.inbox ≡ none
    → Ensures
        (IsRecorded cid character request_id)
        (admit_binding max_pending event_id now cid character request_id db)
unfolding admit_binding require_active
admit_binding-IsRecorded max_pending event_id now cid character request_id db live new =
    let Q = IsRecorded cid character request_id in
    Ensures-bind Q (check_capacity max_pending db) _ λ _ _.
      Ensures-bind Q (take_seq db cid) _ λ taken made.
        let kept =
          Ensures-ok (λ (t : Db × ℕ). (require_active t.0 cid ≡ ok tt) × (t.0.inbox ≡ db.inbox)) _
            (take_seq-active db cid live) made in
        let e = binding_event event_id cid taken.1 character request_id now in
        record {
          open_chat = kept.0;
          row = e;
          found =
              find-add_row (is_binding cid request_id) taken.0.inbox e
                (ap (find (is_binding cid request_id)) kept.1 ∙ new)
                (rw ((eq_iff cid cid).1 refl, (eq_iff request_id request_id).1 refl) refl);
          same = same_character_refl character;
          answered = (refl, refl);
        }

repeat_binding-IsRecorded :
    (cid : String) (character : CharacterSnapshot) (request_id : String) (old : Event) (db : Db)
    → require_active db cid ≡ ok tt
    → find (is_binding cid request_id) db.inbox ≡ some old
    → Ensures (IsRecorded cid character request_id) (repeat_binding character old db)
unfolding repeat_binding
repeat_binding-IsRecorded cid character request_id old db live found =
    Ensures-require (IsRecorded cid character request_id) (binds character old.kind) _ _ λ same.
      record { open_chat = live; row = old; found = found; same = same; answered = (refl, refl) }

record_eq :
    (a : String) (n : ℕ) (b : String) (m : ℕ)
    → a ≡ b
    → n ≡ m
    → Path Admission
        (record { event_id = a; seq = n; duplicate = true })
        (record { event_id = b; seq = m; duplicate = true })
record_eq a n b m e f = cc

repeated :
    (os : Platform) (journal : List ErasedSource) (max_pending : ℕ) (event_id : String) (now : ℕ)
    (cid : String) (character : CharacterSnapshot) (request_id : String) (d : Db × Admission)
    → not (is_blank os request_id) ≡ true
    → not (is_erased (duplicate_source journal cid ("binding:" ++ request_id))) ≡ true
    → IsRecorded cid character request_id d
    → enqueue_binding os journal max_pending event_id now cid character request_id d.0
      ≡ ok (d.0, record (d.1) { duplicate = true })
unfolding enqueue_binding repeat_binding
repeated os journal max_pending event_id now cid character request_id d given kept r =
    rw (enqueue_binding, given, r.open_chat, kept, r.found, repeat_binding, r.same)
      (ap (λ a. ok (d.0, a))
        (record_eq r.row.event_id r.row.seq d.1.event_id d.1.seq r.answered.0 r.answered.1))

-- A change of character that was queued, asked for again with the same request at any time, changes
-- nothing and gets the same event and sequence number, marked as a duplicate, also when the queue is
-- full by then.
pub enqueue_binding_once :
    (os : Platform) (journal : List ErasedSource) (max_pending max_later : ℕ)
    (event_id event_id' : String) (now later : ℕ) (cid : String) (character : CharacterSnapshot)
    (request_id : String) (db db' : Db) (admission : Admission)
    → enqueue_binding os journal max_pending event_id now cid character request_id db
      ≡ ok (db', admission)
    → enqueue_binding os journal max_later event_id' later cid character request_id db'
      ≡ ok (db', record admission { duplicate = true })
unfolding enqueue_binding
enqueue_binding_once os journal max_pending max_later event_id event_id' now later cid character
      request_id db db' admission h =
    let Q = λ (d : Db × Admission).
      enqueue_binding os journal max_later event_id' later cid character request_id d.0
      ≡ ok (d.0, record (d.1) { duplicate = true }) in
    let erased = is_erased (duplicate_source journal cid ("binding:" ++ request_id)) in
    let again = repeated os journal max_later event_id' later cid character request_id in
    Ensures-ok Q (enqueue_binding os journal max_pending event_id now cid character request_id db)
      (Ensures-require Q (not (is_blank os request_id)) _ _ λ given.
        Ensures-bind Q (require_active db cid) _ λ u live.
          Ensures-require Q (not erased) _ _ λ kept.
            Ensures-option Q (find (is_binding cid request_id) db.inbox) _ _
              (λ new.
                Ensures-imp (IsRecorded cid character request_id) Q (λ d r. again d given kept r)
                  (admit_binding max_pending event_id now cid character request_id db)
                  (admit_binding-IsRecorded max_pending event_id now cid character request_id db
                    live new))
              (λ old found.
                Ensures-imp (IsRecorded cid character request_id) Q (λ d r. again d given kept r)
                  (repeat_binding character old db)
                  (repeat_binding-IsRecorded cid character request_id old db live found)))
      h
