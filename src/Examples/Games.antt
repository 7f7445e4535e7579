-- ===== src/Examples/Games.antt =====
-- The theorems on the riddles at one chat with one riddle.
use openqqwaifu.Prelude.{
  ◌≡◌, ◌<◌, ◌⊎◌, refl, String, Bool, true, false, none, some, [], ◌∷◌, All, str_eq, arith,
}
use openqqwaifu.Tavern.Soup.{
  Riddle, Bowl, Soup, Chat, Reader, Settings, World, Line, serve, bowl_at, is_had, chat_name,
}
use openqqwaifu.Tavern.Soup.Play.{Verdict, ahandle, judged, order, play, judge}
use openqqwaifu.Tavern.Soup.Table.{Judgement, IsSound, Reach, opened, spoken, answered}
use openqqwaifu.Tavern.Soup.Questions.{questions_counted}
use openqqwaifu.Tavern.Soup.Secrecy.{StaysSecret, KeepsSecret, discloses, truth_ends_bowl}
use openqqwaifu.Tavern.Soup.Fresh.{serve_fresh}

abbrev is_text : String → String → Bool
is_text a b = str_eq b a

abbrev words : Reader
words = record {
  strip = λ s. s;
  compact = λ s. s;
  is_start = is_text "soup";
  is_next = is_text "another";
  is_hint = is_text "hint";
  is_repeat = is_text "again";
  is_reveal = is_text "reveal";
  asks = is_text "was it the cat?";
  out_of_character = λ _. false;
  wants_start = λ _. false;
  resumes = λ _. false;
}

abbrev broken_vase : Riddle
broken_vase = record {
  riddle_id = "vase";
  title = "The vase";
  surface = "It lies in pieces and nobody was at home.";
  truth = "It was the cat.";
  hints = "Who lives there?" ∷ [];
  level = "";
}

abbrev evening : World
evening = record {
  now = 100;
  riddles = broken_vase ∷ [];
  pick = 3;
  writable = true;
  tavern_running = false;
}

abbrev patient : Settings
patient = record { enabled = true; idle_timeout = 0 }

abbrev parlour : Chat
parlour = record { launcher_type = "group"; launcher_id = "7" }

abbrev says : String → Line
says text = record { chat = parlour; text = text; addressed = true }

abbrev nothing_served : Soup
nothing_served = record { bowls = λ _. none; made = 0; played = λ _. [] }

abbrev vase_bowl : Bowl
vase_bowl = record {
  number = 0;
  riddle = broken_vase;
  questions = 0;
  hints_given = 0;
  last_activity_at = 100;
}

abbrev vase_served : Soup
vase_served = (serve evening parlour nothing_served).0

vase_out : vase_served.bowls parlour ≡ some vase_bowl
unfolding serve
vase_out = refl

serve_works : (serve evening parlour nothing_served).1 ≡ some broken_vase
unfolding serve
serve_works = refl

serve_fresh_example :
    ((is_had [] broken_vase ≡ false) ⊎ All (λ r. is_had [] r ≡ true) (broken_vase ∷ []))
    × ((true ≡ false) ⊎ (is_had (vase_served.played (chat_name parlour)) broken_vase ≡ true))
serve_fresh_example = serve_fresh evening parlour nothing_served broken_vase serve_works

vase_numbered : vase_bowl.number < vase_served.made
unfolding serve
vase_numbered = omega arith

-- A question is asked and answered.
abbrev asked : Soup
asked = (ahandle words patient evening (says "was it the cat?") vase_served).0

truth_ends_bowl_example :
    StaysSecret parlour 0 (ahandle words patient evening (says "reveal") vase_served)
    × KeepsSecret 0
        ((judged parlour 0 (Verdict.verdict none true) vase_served).0.bowls parlour)
        (discloses (judged parlour 0 (Verdict.verdict none true) vase_served).1)
truth_ends_bowl_example =
    truth_ends_bowl words patient evening (says "reveal") vase_served vase_bowl
      (Verdict.verdict none true) vase_out vase_numbered

-- The question that the chat asks of its first bowl.
abbrev first_question : Judgement
first_question = record { chat = parlour; number = 0 }

served_and_asked : Reach (record { soup = asked; waiting = first_question ∷ [] })
unfolding ahandle bowl_at order play judge serve
served_and_asked =
    spoken (spoken (opened (λ _. [])) words patient evening (says "soup")) words patient evening
      (says "was it the cat?")

questions_counted_example :
    IsSound (record { soup = (judged parlour 0 Verdict.failed asked).0; waiting = [] })
questions_counted_example =
    questions_counted (answered {soup = asked} [] first_question [] served_and_asked Verdict.failed)
