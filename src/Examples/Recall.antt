-- ===== src/Examples/Recall.antt =====
-- The theorems on memories, at a memory that the model has extracted and that a person corrects.
use openqqwaifu.Prelude.{◌≡◌, refl, true, false, [], ◌∷◌, List, arith}
use openqqwaifu.Result.{ok, Ensures}
use openqqwaifu.Platform.{is_blank}
use openqqwaifu.Json.{text, number}
use openqqwaifu.Memories.{
  Memory, Revision, Store, RawChange, Digest, Processed, MemoryKind, State, Provenance,
  validate_change,
}
use openqqwaifu.Memories.Apply.{
  Origin, apply_change, source_text, write_record, update_record, target, add_revision,
}
use openqqwaifu.Memories.Traced.{IsSound}
use openqqwaifu.Memories.History.{LeavesSound, apply_change-IsSound}
use openqqwaifu.Memories.Follows.{HasNext, apply_change-Follows}
use openqqwaifu.Sample.{utc}

-- Each text is in each other, and an identity is that of the event.
abbrev plain : Digest
plain = record { contains = λ _ _. true; memory_id = λ e n. e; shortened = λ s. s }

abbrev cat : Memory
cat = record {
  memory_id = "m1";
  conversation_id = "u1";
  character_id = "waifu";
  kind = MemoryKind.fact;
  version = 1;
  state = State.active;
  title = "A cat";
  body = "The user has a cat.";
  source_event_id = "e1";
  quote = "my cat";
  provenance = Provenance.model_extracted;
  last_seq = 1;
}

abbrev first_revision : Revision
first_revision = record {
  memory_id = "m1";
  version = 1;
  change_event_id = "e1";
  snapshot = cat;
  actor = "extractor";
  note = "";
}

abbrev store : Store
store = record { records = cat ∷ []; revisions = first_revision ∷ [] }

store-IsSound : IsSound store
store-IsSound = record {
  distinct = (tt, tt);
  traced = (record { numbered = (refl, omega arith, refl); newest = refl }, tt);
  owned = (refl, tt);
}

abbrev messages : List Processed
messages =
    record {
      event_id = "e1";
      conversation_id = "u1";
      character_id = "waifu";
      seq = 1;
      sender_id = "u1";
      launcher_type = "person";
      texts = "my cat is black" ∷ [];
    }
    ∷ []

abbrev by_hand : Origin
by_hand = record {
  conversation_id = "u1";
  character_id = "waifu";
  event_id = "e2";
  seq = 2;
  source_id = "e1";
  actor = "admin";
  note = "corrected";
  model = false;
  index = 0;
}

abbrev correction : RawChange
correction = record {
  exact = true;
  op = text "revise";
  memory_id = text "m1";
  expected_version = number 1;
  kind = text "fact";
  title = text "A cat";
  body = text "The user has a black cat.";
  quote = text "my cat is black";
  state = text "active";
}

abbrev black_cat : Memory
black_cat = record cat {
  version = 2;
  body = "The user has a black cat.";
  quote = "my cat is black";
  provenance = Provenance.admin_confirmed;
  last_seq = 2;
}

abbrev corrected : Store
corrected = record {
  records = black_cat ∷ [];
  revisions =
      record {
        memory_id = "m1";
        version = 2;
        change_event_id = "e2";
        snapshot = black_cat;
        actor = "admin";
        note = "corrected";
      }
      ∷ first_revision
      ∷ [];
}

correction_works :
    apply_change utc plain messages by_hand correction store ≡ ok (corrected, black_cat)
unfolding apply_change validate_change source_text write_record update_record target add_revision
    is_blank
correction_works = refl

apply_change-Follows_example : HasNext "m1" false cat corrected.records
apply_change-Follows_example =
    apply_change-Follows utc plain messages by_hand correction store corrected black_cat "m1" cat
      (tt, tt) refl correction_works

apply_change-IsSound_example :
    Ensures LeavesSound (apply_change utc plain messages by_hand correction store)
apply_change-IsSound_example =
    apply_change-IsSound utc plain messages by_hand correction store store-IsSound
