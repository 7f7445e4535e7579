-- ===== src/Tavern/Dice/Fair.antt =====
-- What a roll of tavern/dice.py can be: the theorem on `parse_roll`.
use openqqwaifu.Prelude.{
  ℕ, zero, suc, ◌+◌, ◌*◌, ◌≤◌, ◌≡◌, refl, String, true, Option, none, some, List, [], ◌∷◌, length,
  All, arith, inl, inr, Bool-cases, subst,
}
use openqqwaifu.Result.{ok, Ensures, Ensures-bind}
use openqqwaifu.Tavern.Dice.{
  ℤ, pos, negsuc, magnitude, add, Match, dice, bare, Library, DiceRoll, throw, in_range, make_roll,
  given, roll_match, parse_roll, sum, total, max_dice, max_sides, max_modifier,
}

-- What Python documents of `randint`.
abbrev pub IsFair : Library → Type 0
IsFair lib =
    (n low high : ℕ) → low ≤ high → (low ≤ lib.randint n low high) × (lib.randint n low high ≤ high)

-- A number that one of the dice shows.
abbrev pub IsFace : ℕ → ℕ → Type 0
IsFace sides x = (1 ≤ x) × (x ≤ sides)

pub record IsPossible (roll : DiceRoll) : Type 0 where
  pub count-range : (1 ≤ roll.count) × (roll.count ≤ max_dice)
  pub sides-range : (2 ≤ roll.sides) × (roll.sides ≤ max_sides)
  pub modifier-range : magnitude roll.modifier ≤ max_modifier
  pub length-count : length roll.results ≡ roll.count
  pub results-faces : All (IsFace roll.sides) roll.results
  pub total-range : magnitude (total roll) ≤ max_dice * max_sides + max_modifier

abbrev pub RollIsPossible : Option DiceRoll → Type 0
RollIsPossible none = Unit
RollIsPossible (some roll) = IsPossible roll

module _ (lib : Library) (fair : IsFair lib) (sides : ℕ) (some_side : 1 ≤ sides) where
  throw-faces : (n count : ℕ) → All (IsFace sides) (throw lib n sides count)
  throw-faces n zero = tt
  throw-faces n (suc count) = (fair n 1 sides some_side, throw-faces (n + 1) count)

length-throw : (lib : Library) (n sides count : ℕ) → length (throw lib n sides count) ≡ count
length-throw lib n sides zero = refl
length-throw lib n sides (suc count) =
    let rest = length-throw lib (n + 1) sides count in ground arith

sum-le :
    (sides : ℕ)
    → sides ≤ max_sides
    → (xs : List ℕ) → All (IsFace sides) xs
    → sum xs ≤ length xs * max_sides
sum-le sides small [] h = ground arith
sum-le sides small (x ∷ xs) (first, faces) =
    let rest = sum-le sides small xs faces in let top = first.1 in ground arith

magnitude-add : (a : ℕ) (z : ℤ) → magnitude (add a z) ≤ a + magnitude z
magnitude-add a (pos n) = ground arith
magnitude-add a (negsuc n) = ground arith

bounded_total :
    (s count : ℕ) (z : ℤ)
    → s ≤ count * max_sides
    → count ≤ max_dice
    → magnitude z ≤ max_modifier
    → magnitude (add s z) ≤ max_dice * max_sides + max_modifier
bounded_total s count z h few small = let most = magnitude-add s z in omega arith

in_range-parts :
    (count sides : ℕ) (z : ℤ)
    → in_range count sides z ≡ true
    → ((1 ≤ count) × (count ≤ max_dice))
      × ((2 ≤ sides) × (sides ≤ max_sides))
      × (magnitude z ≤ max_modifier)
in_range-parts count sides z h = ground arith

make_roll-IsPossible :
    (lib : Library)
    → IsFair lib
    → (n count sides : ℕ) (z : ℤ) (reason : String)
    → Ensures RollIsPossible (make_roll lib n count sides z reason)
unfolding total
make_roll-IsPossible lib fair n count sides z reason = elim (Bool-cases (in_range count sides z)) [
  | inr refused ↦ rw refused tt
  | inl passed ↦
      let (counts, sides_ok, small) = in_range-parts count sides z passed in
      let faces = throw-faces lib fair sides (omega arith) n count in
      let thrown = length-throw lib n sides count in
      let most : sum (throw lib n sides count) ≤ count * max_sides =
        subst (λ k. sum (throw lib n sides count) ≤ k * max_sides) thrown
          (sum-le sides (sides_ok.1) (throw lib n sides count) faces) in
      rw passed (record {
        count-range = counts;
        sides-range = sides_ok;
        modifier-range = small;
        length-count = thrown;
        results-faces = faces;
        total-range = bounded_total (sum (throw lib n sides count)) count z most (counts.1) small;
      })
]

roll_match-IsPossible :
    (lib : Library)
    → IsFair lib
    → (n : ℕ) (found : Option Match) → Ensures RollIsPossible (roll_match lib n found)
roll_match-IsPossible lib fair n none = tt
roll_match-IsPossible lib fair n (some (bare reason)) =
    make_roll-IsPossible lib fair n 1 20 (pos 0) reason
roll_match-IsPossible lib fair n (some (dice g)) =
    Ensures-bind RollIsPossible (given g.modifier (ok (pos 0)))
      (λ z. make_roll lib n (given g.count 1) g.sides z g.reason)
      (λ z _. make_roll-IsPossible lib fair n (given g.count 1) g.sides z g.reason)

-- Where a random number lies between its bounds, a line that rolls dice and is not refused gives 1 to
-- 20 dice of 2 to 1000 sides and a modifier of at most 1000, one result for each die, each a side of
-- it, and a total at most 21000 away from 0.
pub parse_roll-IsPossible :
    (lib : Library)
    → IsFair lib
    → (n : ℕ) (line : String) → Ensures RollIsPossible (parse_roll lib n line)
unfolding parse_roll
parse_roll-IsPossible lib fair n line =
    roll_match-IsPossible lib fair n (lib.match_roll (lib.strip line))
