-- ===== src/Tavern/Soup/Questions.antt =====
-- The counters of a bowl, over lines and answers of the judge in any order.
use openqqwaifu.Prelude.{
  ℕ, ◌+◌, ◌-◌, ◌<◌, ◌≡◌, ◌==◌, inl, inr, String, Bool, true, false, not, ◌&&◌, ◌||◌, if◌then◌else◌,
  none, some, List, [], ◌∷◌, ◌++◌, All, str_eq, count_where, count_where-append, length, Bool-cases,
  Option-cases, arith, subst,
}
use openqqwaifu.Tavern.Soup.{
  Soup, Bowl, World, Chat, Reader, Line, Settings, Outcome, left, reply, hint, Reply, get_elem?,
  bowl_at, set_bowl,
}
use openqqwaifu.Tavern.Soup.Play.{
  Verdict, play, order, proceed, ahandle, judge, judged, conclude, uncount, touch,
}
use openqqwaifu.Tavern.Soup.Bowls.{same_chat_refl, bowl_at_cases, judged_cases}
use openqqwaifu.Tavern.Soup.Table.{
  Judgement, Table, is_of, IsServed, InBowl, IsSound, after, Reach, opened, spoken, answered,
  InBowl-imp, set_bowl-served, set_bowl-IsSound, serve-IsSound,
}

judge-IsSound :
    (world : World) (chat : Chat) (bowl : Bowl) (soup : Soup) (waiting : List Judgement)
    → IsServed waiting soup.made chat bowl
    → IsSound (record { soup = soup; waiting = waiting })
    → IsSound (after waiting chat (judge world chat bowl soup))
unfolding judge
judge-IsSound world chat bowl soup waiting b h =
    let asked : List Judgement = record { chat = chat; number = bowl.number } ∷ waiting in
    record {
      served =
          set_bowl-served (IsServed waiting soup.made) (IsServed asked soup.made) chat
            (some (record bowl { questions = bowl.questions + 1; last_activity_at = world.now }))
            soup
            (record {
              numbered = b.numbered;
              hinted = b.hinted;
              counted = ground (arith, b.counted);
            })
            (λ c x e k. record {
              numbered = k.numbered;
              hinted = k.hinted;
              counted = rw e k.counted;
            })
            h.served;
      asked = (b.numbered, h.asked);
    }

get_elem?-lt : (xs : List String) (n : ℕ) (x : String) → get_elem? xs n ≡ some x → n < length xs
get_elem?-lt [] n x e = absurd (cc e)
get_elem?-lt (y ∷ ys) n x e = elim (Bool-cases (n == 0)) [
  | inl z ↦ ground (arith, z)
  | inr z ↦ ground (arith, z, get_elem?-lt ys (n - 1) x (rw z at e))
]

hint-IsServed :
    (waiting : List Judgement) (made : ℕ) (chat : Chat) (bowl : Bowl)
    → IsServed waiting made chat bowl
    → IsServed waiting made chat (hint bowl).0
unfolding hint
hint-IsServed waiting made chat bowl b =
    elim (Option-cases (get_elem? bowl.riddle.hints bowl.hints_given)) [
      | inl f ↦ rw (hint, f) b
      | inr (text, f) ↦
          rw (hint, f)
            (record {
              numbered = b.numbered;
              hinted = omega (arith, get_elem?-lt bowl.riddle.hints bowl.hints_given text f);
              counted = b.counted;
            })
    ]

IsSound-if :
    (waiting : List Judgement) (chat : Chat) (test : Bool) (a b : Soup × Outcome)
    → IsSound (after waiting chat a)
    → IsSound (after waiting chat b)
    → IsSound (after waiting chat (if test then a else b))
IsSound-if waiting chat true a b h k = h
IsSound-if waiting chat false a b h k = k

play-IsSound :
    (read : Reader) (world : World) (line : Line) (bowl : Bowl) (soup : Soup)
    (waiting : List Judgement)
    → IsServed waiting soup.made line.chat bowl
    → IsSound (record { soup = soup; waiting = waiting })
    → IsSound (after waiting line.chat (play read world line bowl soup))
unfolding play
play-IsSound read world line bowl soup waiting b h =
    let pick = IsSound-if waiting line.chat in
    let stripped = read.strip line.text in
    let compact = read.compact stripped in
    let touched : IsServed waiting soup.made line.chat (touch world bowl) = record {
      numbered = b.numbered;
      hinted = b.hinted;
      counted = b.counted;
    } in
    let emptied = set_bowl-IsSound line.chat none soup waiting tt h in
    pick (str_eq stripped "" || read.out_of_character stripped) _ _ h (
      pick (read.is_reveal compact) _ _ emptied (
        pick (line.addressed && (read.wants_start compact || read.resumes compact)) _ _ h (
          pick (read.is_next compact || read.is_start compact) _ _
            (serve-IsSound world line.chat (set_bowl line.chat none soup) waiting emptied)
            (pick (read.is_hint compact) _ _
              (set_bowl-IsSound line.chat (some (hint (touch world bowl)).0) soup waiting
                (hint-IsServed waiting soup.made line.chat (touch world bowl) touched) h)
              (pick (read.is_repeat compact) _ _
                (set_bowl-IsSound line.chat (some (touch world bowl)) soup waiting touched h)
                (pick
                  (str_eq line.chat.launcher_type "group"
                    && not (read.asks stripped || line.addressed))
                  (soup, left) (judge world line.chat bowl soup) h
                  (judge-IsSound world line.chat bowl soup waiting b h)))))))

order-IsSound :
    (read : Reader) (world : World) (line : Line) (soup : Soup) (waiting : List Judgement)
    → IsSound (record { soup = soup; waiting = waiting })
    → IsSound (after waiting line.chat (order read world line soup))
unfolding order
order-IsSound read world line soup waiting h =
    let pick = IsSound-if waiting line.chat in
    let compact = read.compact (read.strip line.text) in
    pick (not (str_eq compact "") && read.is_start compact && line.addressed) _ (soup, left)
      (pick world.tavern_running (soup, reply Reply.tavern_open) _ h
        (serve-IsSound world line.chat soup waiting h))
      h

ahandle-IsSound :
    (read : Reader) (settings : Settings) (world : World) (line : Line) (t : Table)
    → IsSound t
    → IsSound (after t.waiting line.chat (ahandle read settings world line t.soup))
unfolding ahandle
ahandle-IsSound read settings world line t h =
    let soup = t.soup in
    IsSound-if t.waiting line.chat (not settings.enabled) (soup, left)
      (proceed read world line (bowl_at settings world.now line.chat soup)) h
      (elim (bowl_at_cases settings world.now line.chat soup) [
        | inl f ↦ rw f (order-IsSound read world line soup t.waiting h)
        | inr (inl f) ↦ rw f (
            order-IsSound read world line (set_bowl line.chat none soup) t.waiting
              (set_bowl-IsSound line.chat none soup t.waiting tt h))
        | inr (inr (bowl, there, f)) ↦
            let b : IsServed t.waiting soup.made line.chat bowl =
              subst (InBowl (IsServed t.waiting soup.made line.chat)) there (h.served line.chat) in
            rw f (play-IsSound read world line bowl soup t.waiting b h)
      ])

-- One question fewer waits.
count-drop :
    (p : Judgement → Bool) (before : List Judgement) (j : Judgement) (later : List Judgement)
    → count_where p (before ++ j ∷ later) ≡ count_where p (before ++ later) + (if p j then 1 else 0)
count-drop p before j later =
    ground (arith, count_where-append p before (j ∷ later), count_where-append p before later)

drop-asked :
    (made : ℕ) (before : List Judgement) (j : Judgement) (later : List Judgement)
    → All (λ j. j.number < made) (before ++ j ∷ later)
    → All (λ j. j.number < made) (before ++ later)
drop-asked made [] j later h = h.1
drop-asked made (x ∷ xs) j later h = (h.0, drop-asked made xs j later h.1)

drop-IsSound :
    (soup : Soup) (before : List Judgement) (j : Judgement) (later : List Judgement)
    → IsSound (record { soup = soup; waiting = before ++ j ∷ later })
    → IsSound (record { soup = soup; waiting = before ++ later })
drop-IsSound soup before j later h = record {
  served = λ c.
      InBowl-imp (IsServed (before ++ j ∷ later) soup.made c)
        (IsServed (before ++ later) soup.made c) (soup.bowls c)
        (λ b k. record {
          numbered = k.numbered;
          hinted = k.hinted;
          counted = omega (arith, k.counted, count-drop (is_of c b.number) before j later);
        })
        (h.served c);
  asked = drop-asked soup.made before j later h.asked;
}

uncount-IsServed :
    (made : ℕ) (before : List Judgement) (j : Judgement) (later : List Judgement) (bowl : Bowl)
    → bowl.number ≡ j.number
    → IsServed (before ++ j ∷ later) made j.chat bowl
    → IsServed (before ++ later) made j.chat (uncount bowl)
uncount-IsServed made before j later bowl same b =
    let own : is_of j.chat bowl.number j ≡ true = ground (arith, same, same_chat_refl j.chat) in
    record {
      numbered = b.numbered;
      hinted = b.hinted;
      counted =
          ground (arith, own, b.counted, count-drop (is_of j.chat bowl.number) before j later);
    }

conclude-IsSound :
    (chat : Chat) (bowl : Bowl) (said : Verdict) (soup : Soup) (waiting : List Judgement)
    → IsServed waiting soup.made chat (uncount bowl)
    → IsSound (record { soup = soup; waiting = waiting })
    → IsSound (record { soup = (conclude chat bowl said soup).0; waiting = waiting })
unfolding conclude
conclude-IsSound chat bowl Verdict.failed soup waiting b h =
    set_bowl-IsSound chat (some (uncount bowl)) soup waiting b h
conclude-IsSound chat bowl (Verdict.verdict answer true) soup waiting b h =
    set_bowl-IsSound chat none soup waiting tt h
conclude-IsSound chat bowl (Verdict.verdict none false) soup waiting b h =
    set_bowl-IsSound chat (some (uncount bowl)) soup waiting b h
conclude-IsSound chat bowl (Verdict.verdict (some answer) false) soup waiting b h = h

judged-IsSound :
    (soup : Soup) (before : List Judgement) (j : Judgement) (later : List Judgement)
    (said : Verdict)
    → IsSound (record { soup = soup; waiting = before ++ j ∷ later })
    → IsSound (record { soup = (judged j.chat j.number said soup).0; waiting = before ++ later })
judged-IsSound soup before j later said h =
    let dropped = drop-IsSound soup before j later h in
    elim (judged_cases j.chat j.number said soup) [
      | inl f ↦ rw f dropped
      | inr (bowl, here, same, f) ↦ rw f (
          conclude-IsSound j.chat bowl said soup (before ++ later)
            (uncount-IsServed soup.made before j later bowl same (
              subst (InBowl (IsServed (before ++ j ∷ later) soup.made j.chat)) here
                (h.served j.chat)))
            dropped)
    ]

-- However lines and answers of the judge follow each other, every bowl has given no more hints than
-- its riddle has, and has counted each of its questions that wait for the judge.
pub questions_counted : {t : Table} → Reach t → IsSound t
questions_counted (opened played) = record { served = λ c. tt; asked = tt }
questions_counted (spoken {t} before read settings world line) =
    ahandle-IsSound read settings world line t (questions_counted before)
questions_counted (answered {soup} before j later reached said) =
    judged-IsSound soup before j later said (questions_counted reached)
