-- ===== src/Tavern/Soup/Play.antt =====
-- `ahandle` and `_judge` of tavern/soup.py: what a line does in a chat, and the answer of the judge.
use openqqwaifu.Prelude.{
  ℕ, ◌+◌, ◌-◌, Bool, true, false, not, ◌&&◌, ◌||◌, Option, none, some, str_eq, ◌==◌, if◌then◌else◌,
}
use openqqwaifu.Tavern.Soup.{
  Bowl, Chat, Soup, Reader, Settings, World, Line, Answer, Reply, Outcome, set_bowl, bowl_at, serve,
  hint, tavern_open, finish_first, distracted, unclear, served, next_bowl, surface_again, revealed,
  solved, answered, left, reply, judging,
}

-- `_judge` up to the call of the model.
unfoldable pub judge : World → Chat → Bowl → Soup → Soup × Outcome
judge world chat bowl soup = (
  set_bowl chat
      (some (record bowl { questions = bowl.questions + 1; last_activity_at = world.now })) soup,
  judging bowl.number,
)

-- `bowl.last_activity_at = time.time()`
abbrev pub touch : World → Bowl → Bowl
touch world bowl = record bowl { last_activity_at = world.now }

-- A line while a bowl is out.
unfoldable pub play : Reader → World → Line → Bowl → Soup → Soup × Outcome
play read world line bowl soup =
    let stripped = read.strip line.text in
    let compact = read.compact stripped in
    if str_eq stripped "" || read.out_of_character stripped
    then (soup, left)
    else if read.is_reveal compact
    then (set_bowl line.chat none soup, reply (revealed bowl.riddle bowl.questions))
    else if line.addressed && (read.wants_start compact || read.resumes compact)
    then (soup, reply finish_first)
    else if read.is_next compact || read.is_start compact
    then (let fresh = serve world line.chat (set_bowl line.chat none soup) in
        (fresh.0, reply (next_bowl bowl.riddle fresh.1)))
    else if read.is_hint compact
    then (let hinted = hint (touch world bowl) in
        (set_bowl line.chat (some hinted.0) soup, reply hinted.1))
    else if read.is_repeat compact
    then (
      set_bowl line.chat (some (touch world bowl)) soup,
      reply (surface_again bowl.riddle.surface),
    )
    else if str_eq line.chat.launcher_type "group" && not (read.asks stripped || line.addressed)
    then (soup, left)
    else judge world line.chat bowl soup

-- A line while none is out.
unfoldable pub order : Reader → World → Line → Soup → Soup × Outcome
order read world line soup =
    let compact = read.compact (read.strip line.text) in
    if not (str_eq compact "") && read.is_start compact && line.addressed
    then (if world.tavern_running
        then (soup, reply tavern_open)
        else (let fresh = serve world line.chat soup in (fresh.0, reply (served fresh.1))))
    else (soup, left)

-- The rest of `ahandle`, with what `_bowl` answered.
abbrev pub proceed : Reader → World → Line → Soup × Option Bowl → Soup × Outcome
proceed read world line (soup, none) = order read world line soup
proceed read world line (soup, some bowl) = play read world line bowl soup

unfoldable pub ahandle : Reader → Settings → World → Line → Soup → Soup × Outcome
ahandle read settings world line soup =
    if not settings.enabled
    then (soup, left)
    else proceed read world line (bowl_at settings world.now line.chat soup)

-- What the model said: nothing, or the answer and whether the riddle is solved.
pub data Verdict : Type 0 where
  failed : Verdict
  verdict : Option Answer → Bool → Verdict

abbrev pub uncount : Bowl → Bowl
uncount bowl = record bowl { questions = bowl.questions - 1 }

-- `_judge` after the call, for the bowl while it is the chat's; `shared` is that object.
unfoldable pub conclude : Chat → Bowl → Verdict → Soup → Soup × Reply
conclude chat bowl failed soup = (set_bowl chat (some (uncount bowl)) soup, distracted)
conclude chat bowl (verdict answer true) soup =
    (set_bowl chat none soup, solved bowl.riddle bowl.questions)
conclude chat bowl (verdict none false) soup = (set_bowl chat (some (uncount bowl)) soup, unclear)
conclude chat bowl (verdict (some answer) false) soup = (soup, answered answer)

-- The same for a bowl that the chat no longer has: its counter is not read again.
unfoldable pub conclude_late : Verdict → Reply
conclude_late failed = distracted
conclude_late (verdict none _) = unclear
conclude_late (verdict (some answer) _) = answered answer

unfoldable pub judged : Chat → ℕ → Verdict → Soup → Soup × Reply
judged chat number said soup = elim (soup.bowls chat) [
  | none ↦ (soup, conclude_late said)
  | some bowl ↦
      if bowl.number == number then conclude chat bowl said soup else (soup, conclude_late said)
]
