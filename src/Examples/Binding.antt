-- ===== src/Examples/Binding.antt =====
-- The theorem on the change of a character, at the sample conversation.
use openqqwaifu.Prelude.{◌≡◌, refl, true, false, [], ◌∷◌}
use openqqwaifu.Result.{ok}
use openqqwaifu.Platform.{is_blank}
use openqqwaifu.Tables.{CharacterSnapshot, Db}
use openqqwaifu.Inbox.{check_capacity, take_seq}
use openqqwaifu.Inbox.Binding.{
  Admission, enqueue_binding, require_active, duplicate_source, admit_binding, binding_event,
}
use openqqwaifu.Inbox.BindingOnce.{enqueue_binding_once}
use openqqwaifu.Sample.{utc, noon, chat, received, hello_event}

abbrev sage : CharacterSnapshot
sage = record { character_id = "sage"; version = "1"; card_json = "{}" }

abbrev rebound : Db
rebound = record received {
  conversations = record chat { next_seq = 4 } ∷ [];
  inbox = hello_event ∷ binding_event "e9" "u1" 3 sage "r1" noon ∷ [];
}

abbrev admitted : Admission
admitted = record { event_id = "e9"; seq = 3; duplicate = false }

binding_works : enqueue_binding utc [] 5 "e9" noon "u1" sage "r1" received ≡ ok (rebound, admitted)
unfolding enqueue_binding require_active duplicate_source admit_binding check_capacity take_seq
    is_blank
binding_works = refl

enqueue_binding_once_example :
    enqueue_binding utc [] 0 "e10" noon "u1" sage "r1" rebound
    ≡ ok (rebound, record admitted { duplicate = true })
enqueue_binding_once_example =
    enqueue_binding_once utc [] 5 0 "e9" "e10" noon noon "u1" sage "r1" received rebound admitted
      binding_works
