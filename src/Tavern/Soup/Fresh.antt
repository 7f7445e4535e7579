-- ===== src/Tavern/Soup/Fresh.antt =====
-- Which riddle `_serve` picks.
use openqqwaifu.Prelude.{
  ℕ, ◌-◌, ◌%◌, ◌≡◌, ◌⊎◌, inl, inr, refl, String, Bool, true, false, not, some, List, [], ◌∷◌, All,
  All-imp, select, any, length, suc, str_eq, eq_iff, Bool-cases, arith, subst, sym, Option-cases,
  ◌==◌,
}
use mathlib.Core.Option.{some_inj}
use openqqwaifu.Tavern.Soup.Bowls.{serve-drawn}
use openqqwaifu.Tavern.Soup.{
  Riddle, Soup, World, Chat, serve, draw, pick_from, pour, choice, nth_or, is_had, add_last,
  chat_name,
}

All-select : (p : Riddle → Bool) (xs : List Riddle) → All (λ x. p x ≡ true) (select p xs)
All-select p [] = tt
All-select p (x ∷ xs) = elim (Bool-cases (p x)) [
  | inl e ↦ rw e (e, All-select p xs)
  | inr e ↦ rw e (All-select p xs)
]

-- A selection that is empty leaves no row that passes.
select-nil : (p : Riddle → Bool) (xs : List Riddle) → select p xs ≡ [] → All (λ x. p x ≡ false) xs
select-nil p [] e = tt
select-nil p (x ∷ xs) e = elim (Bool-cases (p x)) [
  | inl t ↦ absurd (cc (rw t at e))
  | inr t ↦ (t, select-nil p xs (rw t at e))
]

module _ {ℓ} (P : Riddle → Type ℓ) where
  All-nth_or : (d : Riddle) (n : ℕ) (xs : List Riddle) → P d → All P xs → P (nth_or d n xs)
  All-nth_or d n [] h k = h
  All-nth_or d n (x ∷ xs) h k = elim (Bool-cases (n == 0)) [
    | inl e ↦ rw e k.0
    | inr e ↦ rw e (All-nth_or d (n - 1) xs h k.1)
  ]

  All-choice : (pick : ℕ) (x : Riddle) (xs : List Riddle) → All P (x ∷ xs) → P (choice pick x xs)
  All-choice pick x xs h = All-nth_or x (pick % suc (length xs)) (x ∷ xs) h.0 h

is_had-add_last :
    (id : String) (had : List String) → any (λ x. str_eq x id) (add_last id had) ≡ true
is_had-add_last id [] = ground (arith, (eq_iff id id).1 refl)
is_had-add_last id (x ∷ xs) = ground (arith, is_had-add_last id xs)

pick_from-IsFresh :
    (pick : ℕ) (had : List String) (first : Riddle) (others fresh : List Riddle)
    → select (λ r. not (is_had had r)) (first ∷ others) ≡ fresh
    → (is_had had (pick_from pick had first others fresh).0 ≡ false)
      ⊎ All (λ r. is_had had r ≡ true) (first ∷ others)
pick_from-IsFresh pick had first others [] e = inr (
    All-imp (λ r. not (is_had had r) ≡ false) (λ r. is_had had r ≡ true) (λ r h. ground (arith, h))
      (first ∷ others) (select-nil (λ r. not (is_had had r)) (first ∷ others) e))
pick_from-IsFresh pick had first others (x ∷ xs) e =
    let new : not (is_had had (choice pick x xs)) ≡ true =
      All-choice (λ r. not (is_had had r) ≡ true) pick x xs
        (subst (All (λ r. not (is_had had r) ≡ true)) e
          (All-select (λ r. not (is_had had r)) (first ∷ others))) in
    inl (ground (arith, new))

draw-IsFresh :
    (pick : ℕ) (had : List String) (riddles : List Riddle) (drawn : Riddle × List String)
    → draw pick had riddles ≡ some drawn
    → (is_had had drawn.0 ≡ false) ⊎ All (λ r. is_had had r ≡ true) riddles
draw-IsFresh pick had [] drawn e = absurd (cc e)
draw-IsFresh pick had (first ∷ others) drawn e =
    subst (λ d. (is_had had d.0 ≡ false) ⊎ All (λ r. is_had had r ≡ true) (first ∷ others))
      (some_inj.0 e) (pick_from-IsFresh pick had first others _ refl)

pour-had :
    (world : World) (chat : Chat) (soup : Soup) (drawn : Riddle × List String)
    → (world.writable ≡ false)
      ⊎ (is_had ((pour world chat drawn.0 drawn.1 soup).played (chat_name chat)) drawn.0 ≡ true)
pour-had world chat soup drawn = elim (Bool-cases world.writable) [
  | inr w ↦ inl w
  | inl w ↦ inr (
      rw (w, (eq_iff (chat_name chat) (chat_name chat)).1 refl)
        (is_had-add_last drawn.0.riddle_id drawn.1))
]

-- A riddle is served that the chat has not had, or the chat has had all; and it then counts as had,
-- unless played.json could not be written.
pub serve_fresh :
    (world : World) (chat : Chat) (soup : Soup) (riddle : Riddle)
    → (serve world chat soup).1 ≡ some riddle
    → ((is_had (soup.played (chat_name chat)) riddle ≡ false)
        ⊎ All (λ r. is_had (soup.played (chat_name chat)) r ≡ true) world.riddles)
      × ((world.writable ≡ false)
          ⊎ (is_had ((serve world chat soup).0.played (chat_name chat)) riddle ≡ true))
unfolding serve
serve_fresh world chat soup riddle e =
    let had = soup.played (chat_name chat) in
    elim (Option-cases (draw world.pick had world.riddles)) [
      | inl f ↦ absurd (cc (rw (f, serve) at e))
      | inr (drawn, f) ↦
          let run = serve-drawn world chat soup drawn f in
          let own : drawn.0 ≡ riddle = some_inj.0 (rw run at e) in
          rw (run, sym own)
            (draw-IsFresh world.pick had world.riddles drawn f, pour-had world chat soup drawn)
    ]
