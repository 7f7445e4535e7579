-- ===== src/Examples/Chatter.antt =====
-- The theorems on the reply gate in one group.
use openqqwaifu.Prelude.{
  ◌+◌, ◌≡◌, refl, true, false, none, [], ◌∷◌, str_eq, if◌then◌else◌, leb, arith,
}
use openqqwaifu.ReplyFlow.Phrases.{Words, search_confirmation}
use openqqwaifu.ReplyFlow.Gate.{
  Session, Gate, Clock, Config, Incoming, search_ttl, should_reply, pending_search_query,
  store_pending_search,
}
use openqqwaifu.ReplyFlow.Gate.Search.{IsTidy, search_waits}
use openqqwaifu.ReplyFlow.Gate.Mention.{KeepsWindows, mention_opens_window}

-- Texts are tidy as they are, and hold only themselves.
abbrev literal : Words
literal = record {
  strip = λ s. s;
  squash = λ s. s;
  compact = λ s. s;
  contains = str_eq;
  has_code = λ _. false;
}

literal-IsTidy : IsTidy literal
literal-IsTidy = record { strip-squash = λ s. refl }

abbrev empty : Session
empty = record { follow_up_until = 0; pending = none; last_search = none }

agreed : search_confirmation literal "好的" ≡ true
unfolding search_confirmation
agreed = refl

search_waits_example :
    (pending_search_query literal 10 "好的" (store_pending_search literal 5 "weather" empty)).1
    ≡ (if leb 10 (5 + search_ttl) then "weather" else "")
search_waits_example =
    search_waits literal literal-IsTidy 5 10 "weather" "好的" empty (λ e. cc e) agreed

abbrev settings : Config
settings = record {
  character_id = "waifu";
  ignore_user_ids = "8" ∷ [];
  bot_account_id = "100";
  requires_mention = true;
  listen_enabled = false;
  window_span = 60;
}

abbrev mention : Incoming
mention = record {
  launcher_type = "group";
  launcher_id = "7";
  sender_id = "9";
  text = "hello";
  mentions_bot = true;
  superseded = false;
  addresses_bot = false;
}

abbrev remark : Incoming
remark = record mention { sender_id = "5"; mentions_bot = false }

abbrev quiet : Gate
quiet = record { windows = []; sessions = λ _ _. empty }

abbrev start : Clock
start = record { monotonic = 5; wall = 100 }

abbrev soon : Clock
soon = record { monotonic = 50; wall = 145 }

settings-KeepsWindows : KeepsWindows literal settings
settings-KeepsWindows = record {
  named = λ e. cc e;
  strict = refl;
  deaf = refl;
  lasting = λ e. omega (arith, e);
}

mention_opens_window_example :
    ((should_reply literal start settings mention quiet).1 ≡ true)
    × ((should_reply literal soon settings remark
          (should_reply literal start settings mention quiet).0).1
        ≡ true)
mention_opens_window_example =
    mention_opens_window literal start soon settings mention remark quiet settings-KeepsWindows
      (record { grouped = refl; heard = refl }) (record { grouped = refl; heard = refl }) refl refl
      refl (omega arith)
