-- ===== src/Sample.antt =====
-- A small runtime for the examples: one conversation with a policy, one reminder that is due, and one
-- received message; a platform with a single zone, UTC.
use openqqwaifu.Prelude.{
  ℕ, ◌+◌, ◌-◌, ◌*◌, ◌/◌, ◌%◌, ◌==◌, ◌≡◌, String, Bool, true, false, ◌&&◌, leb, ltb, none, some,
  List, [], ◌∷◌, arith, if◌then◌else◌, str_eq,
}
use openqqwaifu.Platform.{Platform, IsLawful, IsSteady}
use openqqwaifu.Tables.{
  Conversation, CharacterSnapshot, Inbound, Kind, Source, EventState, TurnState, SendState, Turn,
  Attempt, Outbox, Event, TaskState, Task, Policy, ContactAttempt, Db, minute_span,
}
use openqqwaifu.Result.{Result, ok, err}
use openqqwaifu.Turns.{Memories, Ids, Context}

abbrev pub utc : Platform
utc = record {
  known = str_eq "UTC";
  local_minute = λ zone t. (t / minute_span) % 1440;
  digit = λ c. if leb 48 c && ltb c 58 then some (c - 48) else none;
  decimal = λ n. if n == 0 then "0" else "1";
  is_space = λ c. c == 32;
}

pub utc-IsLawful : IsLawful utc
utc-IsLawful = record {
  local_minute-lt = λ zone t. omega arith;
  digit-lt = λ c v h. ground arith;
  digit_ascii = λ v h. ground arith;
}

pub utc-IsSteady : IsSteady utc "UTC"
utc-IsSteady = record { ticks = λ m. omega arith }

abbrev pub noon : ℕ
noon = 720 * minute_span

abbrev pub waifu : CharacterSnapshot
waifu = record { character_id = "waifu"; version = "1"; card_json = "{}" }

abbrev pub chat : Conversation
chat = record {
  conversation_id = "u1";
  next_seq = 3;
  character = waifu;
  generation = 1;
  data_generation = 0;
  active = true;
}

abbrev pub chat_policy : Policy
chat_policy = record {
  conversation_id = "u1";
  proactive_enabled = false;
  paused = false;
  timezone = "UTC";
  quiet_enabled = true;
  quiet_start = "22:00";
  quiet_end = "08:00";
  daily_limit = 2;
  min_interval_minutes = 30;
  version = 1;
}

abbrev pub tea : Task
tea = record {
  id = 1;
  task_id = "t1";
  conversation_id = "u1";
  character = waifu;
  binding_generation = 1;
  text = "tea";
  due_at = noon;
  expires_at = noon + 60 * minute_span;
  timezone = "UTC";
  local_time = "1970-01-01T12:00";
  version = 1;
  state = TaskState.scheduled;
  reason = "";
  cancel_requested = false;
  linked_memory_id = "";
  linked_memory_version = 0;
  allow_quiet = false;
  timezone_confirmed = true;
  deferred_until = none;
  updated_at = 0;
}

abbrev pub hello : Inbound
hello = record { launcher_id = "u1"; plain_text = "hello"; memory_text = "hello" }

abbrev pub hello_event : Event
hello_event = record {
  event_id = "e1";
  conversation_id = "u1";
  seq = 1;
  source_id = some (Source.from_message "m1");
  kind = Kind.message hello;
  received_at = 0;
  state = EventState.queued;
  error_code = "";
  turn = none;
  outbox = none;
  occurrence = none;
  user_message = none;
  assistant_message = none;
}

abbrev pub tea_turn : Turn
tea_turn = record {
  turn_id = "n2";
  character = waifu;
  binding_generation = 1;
  config_version = "v1";
  state = TurnState.awaiting_delivery;
  attempts = 1;
}

abbrev pub tea_outbox : Outbox
tea_outbox = record {
  outbox_id = "o2";
  launcher_id = "u1";
  text = "tea";
  state = SendState.pending;
  platform_message_id = "";
  attempts = 0;
  error_code = "";
  erased = false;
  delivery_attempts = [];
}

-- The reminder's event, ready to be sent.
abbrev pub tea_event : Event
tea_event = record {
  event_id = "e2";
  conversation_id = "u1";
  seq = 2;
  source_id = some (Source.from_reminder "t1" 1);
  kind = Kind.reminder_due;
  received_at = noon;
  state = EventState.outbox_ready;
  error_code = "";
  turn = some tea_turn;
  outbox = some tea_outbox;
  occurrence = some (record { task_id = "t1"; task_version = 1 });
  user_message = none;
  assistant_message = none;
}

abbrev pub with_inbox : List Event → TaskState → Db
with_inbox es state = record {
  conversations = chat ∷ [];
  inbox = es;
  audit = [];
  policies = chat_policy ∷ [];
  contact_attempts = [];
  tasks = record tea { state = state } ∷ [];
  memories = [];
}

-- A message waits, and the reminder is scheduled.
abbrev pub received : Db
received = with_inbox (hello_event ∷ []) TaskState.scheduled

-- The reminder is ready to be sent.
abbrev pub reminded : Db
reminded = with_inbox (tea_event ∷ []) TaskState.enqueued

abbrev pub all_enabled : String → Bool
all_enabled cid = true

pub none_applied : {A : Type 0} (db db' : Db) (x y : A) → none ≡ some db' → x ≡ y
none_applied db db' x y h = absurd (cc h)

abbrev pub no_memories : Memories
no_memories = record {
  apply = λ db e. none;
  inbox-apply = λ db db' e. none_applied db db' db'.inbox db.inbox;
  audit-apply = λ db db' e. none_applied db db' db'.audit db.audit;
}

abbrev pub fresh : Ids
fresh = record { turn_id = "n1"; outbox_id = "o1" }

abbrev pub tea_attempt : Attempt
tea_attempt = record {
  attempt = 1;
  started_at = noon;
  finished_at = none;
  state = SendState.dispatching;
}

abbrev pub tea_sent : Event
tea_sent = record tea_event {
  outbox = some (record tea_outbox {
    state = SendState.dispatching;
    attempts = 1;
    delivery_attempts = tea_attempt ∷ [];
  });
}

-- The reminder is being sent.
abbrev pub sending : Db
sending = record (with_inbox [] TaskState.scheduled) {
  inbox = tea_sent ∷ [];
  contact_attempts =
      record {
        conversation_id = "u1";
        outbox_id = "o2";
        attempt = 1;
        kind = "reminder";
        started_at = noon;
        policy_version = 1;
      }
      ∷ [];
  tasks = record tea { state = TaskState.dispatching; updated_at = noon } ∷ [];
}

-- The database after an operation, or the one before it where it fails.
abbrev pub after : Db → Result Db → Db
after db (ok db') = db'
after db (err e) = db

abbrev pub after_with : {A : Type 0} → Db → Result (Db × A) → Db
after_with db (ok r) = r.0
after_with db (err e) = db

abbrev pub later : ℕ
later = noon + 31 * minute_span

abbrev pub sent_contact : ℕ → ContactAttempt
sent_contact t = record {
  conversation_id = "u1";
  outbox_id = "o2";
  attempt = 1;
  kind = "reminder";
  started_at = t;
  policy_version = 1;
}

abbrev pub hello_context : Context
hello_context = record {
  turn_id = "n1";
  event_id = "e1";
  conversation_seq = 1;
  conversation_id = "u1";
  character = waifu;
  generation = 1;
  config_version = "v1";
  data_generation = 0;
}
