-- ===== src/Tavern/Soup/Secrecy.antt =====
-- What a reply says of the truth of a riddle.
use openqqwaifu.Prelude.{
  ℕ, ◌<◌, ◌≡◌, ◌≢◌, inl, inr, refl, Bool, true, false, not, Option, none, some, str_eq, arith,
  Option-cases, sym, ◌∙◌, ◌&&◌, ◌||◌, if◌then◌else◌,
}
use openqqwaifu.Tavern.Soup.Bowls.{same_chat_refl, serve_cases, bowl_at_cases, judged_cases}
use mathlib.Core.Option.{some_inj}
use openqqwaifu.Tavern.Soup.{
  Riddle, Soup, Bowl, World, Chat, Reader, Line, Reply, Outcome, Settings, serve, bowl_at, hint,
  Reply, left, reply, judging, set_bowl, get_elem?,
}
use openqqwaifu.Tavern.Soup.Play.{
  Verdict, play, order, proceed, ahandle, judged, conclude, judge, touch, conclude_late,
}

-- The riddle whose truth the text holds.
abbrev pub discloses : Reply → Option Riddle
discloses (Reply.next_bowl riddle _) = some riddle
discloses (Reply.revealed riddle _) = some riddle
discloses (Reply.solved riddle _) = some riddle
discloses _ = none

-- No bowl, or one with another number.
abbrev pub IsOther : ℕ → Option Bowl → Type 0
IsOther number none = Unit
IsOther number (some bowl) = bowl.number ≢ number

abbrev pub KeepsSecret : ℕ → Option Bowl → Option Riddle → Type 0
KeepsSecret number bowl none = Unit
KeepsSecret number bowl (some riddle) = IsOther number bowl

-- After a step: the reply has no truth in it, or the bowl with this number is no longer the chat's.
abbrev pub StaysSecret : Chat → ℕ → Soup × Outcome → Type 0
StaysSecret chat number (soup, left) = Unit
StaysSecret chat number (soup, judging _) = Unit
StaysSecret chat number (soup, reply said) = KeepsSecret number (soup.bowls chat) (discloses said)

StaysSecret-if :
    (chat : Chat) (number : ℕ) (test : Bool) (a b : Soup × Outcome)
    → StaysSecret chat number a
    → StaysSecret chat number b
    → StaysSecret chat number (if test then a else b)
StaysSecret-if chat number true a b h k = h
StaysSecret-if chat number false a b h k = k

serve-IsOther :
    (world : World) (chat : Chat) (soup : Soup) (n : ℕ)
    → soup.bowls chat ≡ none
    → n < soup.made
    → IsOther n ((serve world chat soup).0.bowls chat)
serve-IsOther world chat soup n free old = elim (serve_cases world chat soup) [
  | inl f ↦ rw (f, free) tt
  | inr (drawn, f) ↦ rw (f, same_chat_refl chat) (λ e. omega (arith, e, old))
]

hint-discloses : (bowl : Bowl) → discloses (hint bowl).1 ≡ none
unfolding hint
hint-discloses bowl = elim (Option-cases (get_elem? bowl.riddle.hints bowl.hints_given)) [
  | inl f ↦ rw (hint, f) refl
  | inr (text, f) ↦ rw (hint, f) refl
]

play-StaysSecret :
    (read : Reader) (world : World) (line : Line) (bowl : Bowl) (soup : Soup)
    → bowl.number < soup.made
    → StaysSecret line.chat bowl.number (play read world line bowl soup)
unfolding play judge
play-StaysSecret read world line bowl soup old =
    let safe = StaysSecret-if line.chat bowl.number in
    let stripped = read.strip line.text in
    let compact = read.compact stripped in
    let gone : IsOther bowl.number ((set_bowl line.chat none soup).bowls line.chat) =
      rw (same_chat_refl line.chat) tt in
    safe (str_eq stripped "" || read.out_of_character stripped) _ _ tt (
      safe (read.is_reveal compact) _ _ gone (
        safe (line.addressed && (read.wants_start compact || read.resumes compact)) _ _ tt (
          safe (read.is_next compact || read.is_start compact) _ _
            (serve-IsOther world line.chat (set_bowl line.chat none soup) bowl.number
              (rw (same_chat_refl line.chat) refl) old)
            (safe (read.is_hint compact) _ _ (rw (hint-discloses (touch world bowl)) tt) (
              safe (read.is_repeat compact) _ _ tt (
                safe
                  (str_eq line.chat.launcher_type "group"
                    && not (read.asks stripped || line.addressed))
                  (soup, left) (judge world line.chat bowl soup) tt tt))))))

order-StaysSecret :
    (read : Reader) (world : World) (line : Line) (soup : Soup) (number : ℕ)
    → StaysSecret line.chat number (order read world line soup)
unfolding order
order-StaysSecret read world line soup number =
    let compact = read.compact (read.strip line.text) in
    let safe = StaysSecret-if line.chat number in
    safe (not (str_eq compact "") && read.is_start compact && line.addressed) _ (soup, left)
      (safe world.tavern_running (soup, reply Reply.tavern_open) _ tt tt) tt

-- The bowl that is the chat's before a line: a reply with the truth ends it.
ahandle-StaysSecret :
    (read : Reader) (settings : Settings) (world : World) (line : Line) (soup : Soup) (bowl : Bowl)
    → soup.bowls line.chat ≡ some bowl
    → bowl.number < soup.made
    → StaysSecret line.chat bowl.number (ahandle read settings world line soup)
unfolding ahandle
ahandle-StaysSecret read settings world line soup bowl here old =
    StaysSecret-if line.chat bowl.number (not settings.enabled) (soup, left)
      (proceed read world line (bowl_at settings world.now line.chat soup)) tt
      (elim (bowl_at_cases settings world.now line.chat soup) [
        | inl f ↦ rw f (order-StaysSecret read world line soup bowl.number)
        | inr (inl f) ↦
            rw f (order-StaysSecret read world line (set_bowl line.chat none soup) bowl.number)
        | inr (inr (b, there, f)) ↦
            let same : b ≡ bowl = some_inj.0 (sym there ∙ here) in
            rw (f, same) (play-StaysSecret read world line bowl soup old)
      ])

conclude-KeepsSecret :
    (chat : Chat) (bowl : Bowl) (said : Verdict) (soup : Soup)
    → KeepsSecret bowl.number
        ((conclude chat bowl said soup).0.bowls chat)
        (discloses (conclude chat bowl said soup).1)
unfolding conclude
conclude-KeepsSecret chat bowl Verdict.failed soup = tt
conclude-KeepsSecret chat bowl (Verdict.verdict answer true) soup = rw (same_chat_refl chat) tt
conclude-KeepsSecret chat bowl (Verdict.verdict none false) soup = tt
conclude-KeepsSecret chat bowl (Verdict.verdict (some answer) false) soup = tt

conclude_late-discloses : (said : Verdict) → discloses (conclude_late said) ≡ none
unfolding conclude_late
conclude_late-discloses Verdict.failed = refl
conclude_late-discloses (Verdict.verdict none b) = refl
conclude_late-discloses (Verdict.verdict (some answer) b) = refl

judged-KeepsSecret :
    (chat : Chat) (number : ℕ) (said : Verdict) (soup : Soup)
    → KeepsSecret number
        ((judged chat number said soup).0.bowls chat)
        (discloses (judged chat number said soup).1)
judged-KeepsSecret chat number said soup = elim (judged_cases chat number said soup) [
  | inl f ↦ rw (f, conclude_late-discloses said) tt
  | inr (bowl, here, same, f) ↦ rw (f, sym same) (conclude-KeepsSecret chat bowl said soup)
]

-- A reply to a line in a chat, or to a question put to the judge, holds the truth of a riddle only if
-- the bowl is no longer the chat's after it.
pub truth_ends_bowl :
    (read : Reader) (settings : Settings) (world : World) (line : Line) (soup : Soup) (bowl : Bowl)
    (said : Verdict)
    → soup.bowls line.chat ≡ some bowl
    → bowl.number < soup.made
    → StaysSecret line.chat bowl.number (ahandle read settings world line soup)
      × KeepsSecret bowl.number
          ((judged line.chat bowl.number said soup).0.bowls line.chat)
          (discloses (judged line.chat bowl.number said soup).1)
truth_ends_bowl read settings world line soup bowl said here old = (
  ahandle-StaysSecret read settings world line soup bowl here old,
  judged-KeepsSecret line.chat bowl.number said soup,
)
