-- ===== src/Tavern/Soup/Table.antt =====
-- The bowls with the questions that wait for the judge: how such a table moves, and when it is sound.
use openqqwaifu.Prelude.{
  ℕ, ◌+◌, ◌≤◌, ◌<◌, ◌≡◌, ◌==◌, inl, inr, refl, String, Bool, true, false, ◌&&◌, Option, none, some,
  List, [], ◌∷◌, ◌++◌, All, All-imp, str_eq, eq_iff, count_where, length, Bool-cases, arith,
  &&_parts,
}
use openqqwaifu.Tavern.Soup.{
  Soup, Bowl, World, Chat, Reader, Line, Settings, Outcome, left, reply, judging, serve, same_chat,
  set_bowl,
}
use openqqwaifu.Tavern.Soup.Play.{Verdict, ahandle, judged}
use openqqwaifu.Tavern.Soup.Bowls.{serve_cases}

-- A question that waits for the judge.
pub record Judgement : Type 0 where
  pub chat : Chat
  pub number : ℕ

pub record Table : Type 0 where
  pub soup : Soup
  pub waiting : List Judgement

abbrev pub is_of : Chat → ℕ → Judgement → Bool
is_of chat number j = same_chat chat j.chat && j.number == number

-- A bowl of the chat, where the bowls so far are `made`.
pub record IsServed (waiting : List Judgement) (made : ℕ) (chat : Chat) (bowl : Bowl) : Type 0 where
  pub numbered : bowl.number < made
  pub hinted : bowl.hints_given ≤ length bowl.riddle.hints
  pub counted : count_where (is_of chat bowl.number) waiting ≤ bowl.questions

abbrev pub InBowl : (Bowl → Type 0) → Option Bowl → Type 0
InBowl P none = Unit
InBowl P (some bowl) = P bowl

-- Every bowl has given no more hints than its riddle has, and has counted the questions that wait.
pub record IsSound (t : Table) : Type 0 where
  pub served : (chat : Chat) → InBowl (IsServed t.waiting t.soup.made chat) (t.soup.bowls chat)
  pub asked : All (λ j. j.number < t.soup.made) t.waiting

abbrev pub after : List Judgement → Chat → Soup × Outcome → Table
after waiting chat (soup, left) = record { soup = soup; waiting = waiting }
after waiting chat (soup, reply _) = record { soup = soup; waiting = waiting }
after waiting chat (soup, judging number) = record {
  soup = soup;
  waiting = record { chat = chat; number = number } ∷ waiting;
}

-- From an empty table: lines, and answers of the judge to questions that wait.
pub data Reach : Table → Type 0 where
  opened :
      (played : String → List String)
      → Reach
          (record { soup = record { bowls = λ _. none; made = 0; played = played }; waiting = [] })
  spoken :
      {t : Table}
      → Reach t
      → (read : Reader) (settings : Settings) (world : World) (line : Line)
      → Reach (after t.waiting line.chat (ahandle read settings world line t.soup))
  answered :
      {soup : Soup} (before : List Judgement) (j : Judgement) (later : List Judgement)
      → Reach (record { soup = soup; waiting = before ++ j ∷ later })
      → (said : Verdict)
      → Reach (record { soup = (judged j.chat j.number said soup).0; waiting = before ++ later })

same_chat-eq : (a b : Chat) → same_chat a b ≡ true → a ≡ b
same_chat-eq a b e =
    let parts =
      &&_parts (str_eq a.launcher_type b.launcher_type) (str_eq a.launcher_id b.launcher_id) e in
    let types = (eq_iff a.launcher_type b.launcher_type).0 parts.0 in
    let ids = (eq_iff a.launcher_id b.launcher_id).0 parts.1 in cc

pub InBowl-imp :
    (P Q : Bowl → Type 0) (bowl : Option Bowl)
    → ((b : Bowl) → P b → Q b)
    → InBowl P bowl
    → InBowl Q bowl
InBowl-imp P Q none f h = tt
InBowl-imp P Q (some b) f h = f b h

-- The chat's bowl after it was set, and the others'.
pub set_bowl-served :
    (P Q : Chat → Bowl → Type 0) (chat : Chat) (bowl : Option Bowl) (soup : Soup)
    → InBowl (Q chat) bowl
    → ((c : Chat) (b : Bowl) → same_chat c chat ≡ false → P c b → Q c b)
    → ((c : Chat) → InBowl (P c) (soup.bowls c))
    → (c : Chat) → InBowl (Q c) ((set_bowl chat bowl soup).bowls c)
set_bowl-served P Q chat bowl soup new keep h c = elim (Bool-cases (same_chat c chat)) [
  | inl e ↦ rw (e, same_chat-eq c chat e) new
  | inr e ↦ rw e (InBowl-imp (P c) (Q c) (soup.bowls c) (λ b. keep c b e) (h c))
]

pub set_bowl-IsSound :
    (chat : Chat) (bowl : Option Bowl) (soup : Soup) (waiting : List Judgement)
    → InBowl (IsServed waiting soup.made chat) bowl
    → IsSound (record { soup = soup; waiting = waiting })
    → IsSound (record { soup = set_bowl chat bowl soup; waiting = waiting })
set_bowl-IsSound chat bowl soup waiting new h = record {
  served =
      set_bowl-served (IsServed waiting soup.made) (IsServed waiting soup.made) chat bowl soup new
        (λ c b _ k. k) h.served;
  asked = h.asked;
}

none_of :
    (chat : Chat) (made : ℕ) (waiting : List Judgement)
    → All (λ j. j.number < made) waiting
    → count_where (is_of chat made) waiting ≡ 0
none_of chat made [] h = refl
none_of chat made (j ∷ js) h = ground (arith, h.0, none_of chat made js h.1)

pub serve-IsSound :
    (world : World) (chat : Chat) (soup : Soup) (waiting : List Judgement)
    → IsSound (record { soup = soup; waiting = waiting })
    → IsSound (record { soup = (serve world chat soup).0; waiting = waiting })
serve-IsSound world chat soup waiting h = elim (serve_cases world chat soup) [
  | inl f ↦ rw f h
  | inr (drawn, f) ↦ rw f (record {
    served =
        set_bowl-served (IsServed waiting soup.made) (IsServed waiting (soup.made + 1)) chat
          (some (record {
            number = soup.made;
            riddle = drawn.0;
            questions = 0;
            hints_given = 0;
            last_activity_at = world.now;
          }))
          soup
          (record {
            numbered = omega arith;
            hinted = omega arith;
            counted = rw (none_of chat soup.made waiting h.asked) (omega arith);
          })
          (λ c b _ k. record {
            numbered = omega (arith, k.numbered);
            hinted = k.hinted;
            counted = k.counted;
          })
          h.served;
    asked =
        All-imp (λ j. j.number < soup.made) (λ j. j.number < soup.made + 1)
          (λ j k. omega (arith, k)) waiting h.asked;
  })
]
