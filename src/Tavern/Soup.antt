-- ===== src/Tavern/Soup.antt =====
-- tavern/soup.py: `TurtleSoup`, riddles served in a chat. `_bowls` is a function of the chat; a bowl
-- has a number, which stands for the identity of the Python object. `_judge` waits for the model, and
-- is two operations here: `judge` before the wait and `judged` after it. A reply is a value with what
-- its text is made of. played.json is a function of the chat's name.
pub mod Play
pub mod Bowls
pub mod Table
pub mod Questions
pub mod Secrecy
pub mod Fresh
use Prim.Native.String.{◌++◌}
use openqqwaifu.Prelude.{
  ℕ, suc, ◌+◌, ◌-◌, ◌%◌, String, Bool, true, false, not, ◌&&◌, ◌||◌, Option, none, some, List, [],
  ◌∷◌, str_eq, ltb, leb, ◌==◌, if◌then◌else◌, any, length, select,
}

pub record Riddle : Type 0 where
  pub riddle_id : String
  pub title : String
  pub surface : String
  pub truth : String
  pub hints : List String
  pub level : String

pub record Bowl : Type 0 where
  pub number : ℕ
  pub riddle : Riddle
  pub questions : ℕ
  pub hints_given : ℕ
  pub last_activity_at : ℕ

-- The key of `_bowls`.
pub record Chat : Type 0 where
  pub launcher_type : String
  pub launcher_id : String

-- `made` counts the bowls so far; it numbers the next one.
pub record Soup : Type 0 where
  pub bowls : Chat → Option Bowl
  pub made : ℕ
  pub played : String → List String

-- What a message is, by the regular expressions of the module and of tavern/mode.py.
pub record Reader : Type 0 where
  pub strip : String → String
  pub compact : String → String
  pub is_start : String → Bool
  pub is_next : String → Bool
  pub is_hint : String → Bool
  pub is_repeat : String → Bool
  pub is_reveal : String → Bool
  pub asks : String → Bool
  pub out_of_character : String → Bool
  pub wants_start : String → Bool
  pub resumes : String → Bool

pub record Settings : Type 0 where
  pub enabled : Bool
  pub idle_timeout : ℕ

-- What a call finds: the time, the riddles of the files, what `random.choice` takes, whether
-- played.json can be written, and whether a tavern is running in the chat.
pub record World : Type 0 where
  pub now : ℕ
  pub riddles : List Riddle
  pub pick : ℕ
  pub writable : Bool
  pub tavern_running : Bool

pub record Line : Type 0 where
  pub chat : Chat
  pub text : String
  pub addressed : Bool

-- _ANSWERS
pub data Answer : Type 0 where
  is_so is_not both unimportant ask_differently : Answer

pub data Reply : Type 0 where
  tavern_open finish_first no_more_hints distracted unclear : Reply
  served : Option Riddle → Reply
  next_bowl : Riddle → Option Riddle → Reply
  hint_given : ℕ → ℕ → String → Reply
  surface_again : String → Reply
  revealed solved : Riddle → ℕ → Reply
  answered : Answer → Reply

-- A line is left to the character, answered at once, or put to the judge: the number is the bowl's.
pub data Outcome : Type 0 where
  left : Outcome
  reply : Reply → Outcome
  judging : ℕ → Outcome

abbrev pub same_chat : Chat → Chat → Bool
same_chat a b = str_eq a.launcher_type b.launcher_type && str_eq a.launcher_id b.launcher_id

-- self._bowls[key] = bowl, and self._bowls.pop(key, None)
abbrev pub set_bowl : Chat → Option Bowl → Soup → Soup
set_bowl chat bowl soup = record soup {
  bowls = λ c. if same_chat c chat then bowl else soup.bowls c;
}

-- The bowl of the chat, unless it was put away.
unfoldable pub bowl_at : Settings → ℕ → Chat → Soup → Soup × Option Bowl
bowl_at settings now chat soup = elim (soup.bowls chat) [
  | none ↦ (soup, none)
  | some bowl ↦
      if ltb 0 settings.idle_timeout && ltb settings.idle_timeout (now - bowl.last_activity_at)
      then (set_bowl chat none soup, none)
      else (soup, some bowl)
]

abbrev pub chat_name : Chat → String
chat_name chat = chat.launcher_type ++ ":" ++ chat.launcher_id

-- `riddle.riddle_id in had`
abbrev pub is_had : List String → Riddle → Bool
is_had had riddle = any (λ x. str_eq x riddle.riddle_id) had

abbrev pub nth_or : Riddle → ℕ → List Riddle → Riddle
nth_or riddle n [] = riddle
nth_or riddle n (x ∷ xs) = let rest = nth_or riddle (n - 1) xs in if n == 0 then x else rest

-- random.choice of a list that is not empty
abbrev pub choice : ℕ → Riddle → List Riddle → Riddle
choice pick x xs = nth_or x (pick % suc (length xs)) (x ∷ xs)

abbrev pub add_last : String → List String → List String
add_last x [] = x ∷ []
add_last x (y ∷ ys) = y ∷ add_last x ys

-- What the chat has had, after the riddle is served. The order of a Python set is not kept.
abbrev pub pour : World → Chat → Riddle → List String → Soup → Soup
pour world chat riddle had soup =
    let name = chat_name chat in
    record soup {
      bowls = λ c.
          if same_chat c chat
          then some (record {
            number = soup.made;
            riddle = riddle;
            questions = 0;
            hints_given = 0;
            last_activity_at = world.now;
          })
          else soup.bowls c;
      made = soup.made + 1;
      played = λ c.
          if world.writable && str_eq c name then add_last riddle.riddle_id had else soup.played c;
    }

-- The riddle, and the set that it is added to: `had`, or none once every riddle was served.
abbrev pub pick_from : ℕ → List String → Riddle → List Riddle → List Riddle → Riddle × List String
pick_from pick had first others [] = (choice pick first others, [])
pick_from pick had first others (x ∷ xs) = (choice pick x xs, had)

abbrev pub draw : ℕ → List String → List Riddle → Option (Riddle × List String)
draw pick had [] = none
draw pick had (first ∷ others) =
    some (pick_from pick had first others (select (λ r. not (is_had had r)) (first ∷ others)))

unfoldable pub serve : World → Chat → Soup → Soup × Option Riddle
serve world chat soup = elim (draw world.pick (soup.played (chat_name chat)) world.riddles) [
  | none ↦ (soup, none)
  | some (riddle, had) ↦ (pour world chat riddle had soup, some riddle)
]

abbrev pub get_elem? : List String → ℕ → Option String
get_elem? [] n = none
get_elem? (x ∷ xs) n = let rest = get_elem? xs (n - 1) in if n == 0 then some x else rest

-- The hint, where one is left, and the bowl after it.
unfoldable pub hint : Bowl → Bowl × Reply
hint bowl = elim (get_elem? bowl.riddle.hints bowl.hints_given) [
  | none ↦ (bowl, no_more_hints)
  | some text ↦ (
    record bowl { hints_given = bowl.hints_given + 1 },
    hint_given (bowl.hints_given + 1) (length bowl.riddle.hints) text,
  )
]
