-- ===== src/Examples/Rules.antt =====
-- The theorems on changes of the rules of contact, at the sample conversation.
use openqqwaifu.Prelude.{
  ℕ, ◌≡◌, ◌+◌, refl, Bool, inl, inr, String, true, false, none, some, [], ◌∷◌, All, arith,
}
use openqqwaifu.Result.{ok, Ensures}
use openqqwaifu.Platform.{is_blank}
use openqqwaifu.Tables.{Policy, Db}
use openqqwaifu.Contact.Quiet.{minute}
use openqqwaifu.Contact.Decision.{policy, decision, refuse}
use openqqwaifu.Contact.Request.{
  Payload, Encoding, Response, Desk, number, text, boolean, apply_request, ensure, admit_change,
  authorize, valid_changes, revise, zone_field, time_field, store_policy, says_something,
}
use openqqwaifu.Contact.Request.Saved.{IsValid, AllValid, policies-IsValid}
use openqqwaifu.Contact.Request.Once.{apply_request_once}
use openqqwaifu.Contact.Request.Pause.{IsStop, no_changes, stopped, emergency_stop}
use openqqwaifu.Sample.{utc, utc-IsLawful, noon, received, chat_policy}

abbrev one_name : Encoding
one_name = record { json_text = λ _. "{}"; str_length = λ _. 0 }

abbrev stop : Payload
stop = record {
  conversation_id = text "u1";
  request_id = text "r1";
  operation = text "pause";
  authorized = boolean true;
  note = text "please stop";
  expected_data_generation = number 0;
  expected_version = number 7;
  changes = some no_changes;
}

says : says_something utc (text "please stop") ≡ true
unfolding is_blank
says = refl

abbrev desk : Desk
desk = record { db = received; requests = [] }

chat_policy-IsValid : IsValid utc chat_policy
unfolding minute
chat_policy-IsValid = record {
  first = 1320;
  last = 480;
  starts = refl;
  ends = refl;
  differ = λ e. omega (arith, e);
  daily_low = omega arith;
  daily_high = omega arith;
  spacing_low = omega arith;
  spacing_high = omega arith;
  zoned = inl refl;
}

policies-IsValid_example :
    Ensures (AllValid utc) (apply_request utc one_name stop "admin" noon false desk)
    × Ensures (λ (d : Db). All (IsValid utc) d.policies) (ensure utc "u2" "UTC" received)
policies-IsValid_example =
    policies-IsValid utc utc-IsLawful one_name stop "admin" "u2" "UTC" noon false desk
      (chat_policy-IsValid, tt)

stop-IsStop : IsStop utc one_name stop "admin" "u1" "r1" false desk
stop-IsStop = record {
  about = refl;
  numbered = refl;
  signed = refl;
  new = refl;
  stops = refl;
  plain = refl;
  brief = omega arith;
  allowed = inr (_, refl, refl, refl, says, refl);
}

policy_found : policy received "u1" ≡ ok chat_policy
unfolding policy
policy_found = refl

emergency_stop_example :
    (desk' : Desk) × (response : Response) × (apply_request utc one_name stop "admin" noon false
        desk
      ≡ ok (desk', response))
    × ((later : ℕ) (kind zone : String) (allow_quiet : Bool)
        → decision utc desk'.db "u1" later kind allow_quiet zone
          ≡ refuse (stopped chat_policy) "contact_paused" none)
emergency_stop_example =
    emergency_stop utc one_name stop "admin" "u1" "r1" noon false desk chat_policy stop-IsStop
      policy_found chat_policy-IsValid

abbrev quieter : Payload
quieter = record stop {
  operation = text "update";
  expected_version = number 1;
  changes =
      some (record no_changes { quiet_start = some (text "21:30"); daily_limit = some (number 1) });
}

abbrev quieter_policy : Policy
quieter_policy = record chat_policy { quiet_start = "21:30"; daily_limit = 1; version = 2 }

abbrev quieter_desk : Desk
quieter_desk = record {
  db = record received { policies = quieter_policy ∷ [] };
  requests =
      record {
        conversation_id = "u1";
        request_id = "r1";
        payload_json = "{}";
        actor = "admin";
        response = record { policy = quieter_policy; duplicate = false };
        created_at = noon;
      }
      ∷ [];
}

quieter_works :
    apply_request utc one_name quieter "admin" noon false desk
    ≡ ok (quieter_desk, record { policy = quieter_policy; duplicate = false })
unfolding apply_request admit_change authorize valid_changes revise zone_field time_field
    store_policy policy minute is_blank
quieter_works = refl

apply_request_once_example :
    apply_request utc one_name quieter "admin" (noon + 5) false quieter_desk
    ≡ ok (quieter_desk, record { policy = quieter_policy; duplicate = true })
apply_request_once_example =
    apply_request_once utc one_name quieter "admin" noon (noon + 5) false desk quieter_desk
      (record { policy = quieter_policy; duplicate = false }) quieter_works
