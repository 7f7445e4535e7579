-- ===== src/Tavern/Dice.antt =====
-- tavern/dice.py: the dice that a line in a game rolls. The match of the regular expression, with
-- `int` of the digits of its groups, `str.strip`, and the numbers of the system's random source are
-- parameters.
pub mod Fair
use Prim.Native.String.{◌++◌}
use openqqwaifu.Prelude.{
  ℕ, zero, suc, ◌+◌, ◌-◌, String, Bool, ◌&&◌, Option, none, some, List, [], ◌∷◌, str_eq, ltb, leb,
  ◌==◌, if◌then◌else◌,
}
use openqqwaifu.Result.{Result, Error, ok, err, ◌>>=◌}

-- An integer: `negsuc n` is -(n + 1).
pub data ℤ : Type 0 where
  pos negsuc : ℕ → ℤ

abbrev pub magnitude : ℤ → ℕ
magnitude (pos n) = n
magnitude (negsuc n) = suc n

-- A number that is not negative, plus an integer.
abbrev pub add : ℕ → ℤ → ℤ
add a (pos n) = pos (a + n)
add a (negsuc n) = if ltb n a then pos (a - suc n) else negsuc (n - a)

-- The groups of a command with the number of sides; an empty group is `none`.
pub record Groups : Type 0 where
  pub count : Option ℕ
  pub sides : ℕ
  pub modifier : Option (Result ℤ)  -- `int` raises if white space is left in it
  pub reason : String

-- A command with its dice, or without, with what follows it.
pub data Match : Type 0 where
  dice : Groups → Match
  bare : String → Match

pub record Library : Type 0 where
  pub match_roll : String → Option Match  -- `_ROLL.match` of the stripped text
  pub strip : String → String  -- `str.strip`
  pub trim : String → String  -- `.strip` of spaces and punctuation, then `[:20]`
  pub randint : ℕ → ℕ → ℕ → ℕ  -- the n-th number that the source draws between two bounds
  pub decimal : ℕ → String  -- `str` of a number

pub record DiceRoll : Type 0 where
  pub count : ℕ
  pub sides : ℕ
  pub modifier : ℤ
  pub reason : String
  pub results : List ℕ

abbrev pub max_dice : ℕ
max_dice = 20

abbrev pub max_sides : ℕ
max_sides = 1000

abbrev pub max_modifier : ℕ
max_modifier = 1000

abbrev pub given {ℓ} : {A : Type ℓ} → Option A → A → A
given none default = default
given (some value) default = value

-- [_RANDOM.randint(1, sides) for _ in range(count)], from the n-th draw
abbrev pub throw : Library → ℕ → ℕ → ℕ → List ℕ
throw lib n sides zero = []
throw lib n sides (suc count) = lib.randint n 1 sides ∷ throw lib (n + 1) sides count

abbrev pub in_range : ℕ → ℕ → ℤ → Bool
in_range count sides modifier =
    leb 1 count
    && leb count max_dice
    && (leb 2 sides && leb sides max_sides)
    && leb (magnitude modifier) max_modifier

-- The checks and the roll at the end of `parse_roll`.
abbrev pub make_roll : Library → ℕ → ℕ → ℕ → ℤ → String → Result (Option DiceRoll)
make_roll lib n count sides modifier reason =
    if in_range count sides modifier
    then ok (
        some (record {
          count = count;
          sides = sides;
          modifier = modifier;
          reason = lib.trim (lib.strip reason);
          results = throw lib n sides count;
        }))
    else err Error.dice_out_of_range

abbrev pub roll_match : Library → ℕ → Option Match → Result (Option DiceRoll)
roll_match lib n none = ok none
roll_match lib n (some (bare reason)) = make_roll lib n 1 20 (pos 0) reason
roll_match lib n (some (dice g)) = given g.modifier (ok (pos 0)) >>= λ modifier.
    make_roll lib n (given g.count 1) g.sides modifier g.reason

unfoldable pub parse_roll : Library → ℕ → String → Result (Option DiceRoll)
parse_roll lib n line = roll_match lib n (lib.match_roll (lib.strip line))

-- sum(self.results)
abbrev pub sum : List ℕ → ℕ
sum [] = 0
sum (x ∷ xs) = x + sum xs

unfoldable pub total : DiceRoll → ℤ
total roll = add (sum roll.results) roll.modifier

-- f"{value:+d}" if value else ""
abbrev pub modifier_text : Library → ℤ → String
modifier_text lib (pos zero) = ""
modifier_text lib (pos (suc n)) = "+" ++ lib.decimal (suc n)
modifier_text lib (negsuc n) = "-" ++ lib.decimal (suc n)

-- `str` of an integer
abbrev shown : Library → ℤ → String
shown lib (pos n) = lib.decimal n
shown lib (negsuc n) = "-" ++ lib.decimal (suc n)

unfoldable pub expression : Library → DiceRoll → String
expression lib roll =
    (if roll.count == 1 then "" else lib.decimal roll.count)
    ++ "d"
    ++ lib.decimal roll.sides
    ++ modifier_text lib roll.modifier

-- "+".join(str(value) for value in self.results)
abbrev join_results : Library → List ℕ → String
join_results lib [] = ""
join_results lib (x ∷ []) = lib.decimal x
join_results lib (x ∷ xs) = lib.decimal x ++ "+" ++ join_results lib xs

-- f"为「{self.reason}」" if self.reason else ""
abbrev purpose : DiceRoll → String
purpose roll = if str_eq roll.reason "" then "" else "为「" ++ roll.reason ++ "」"

unfoldable pub announcement : Library → DiceRoll → String → String
announcement lib roll player =
    let head = "🎲 " ++ player ++ purpose roll ++ "掷 " ++ expression lib roll ++ "：" in
    if roll.count == 1 && magnitude roll.modifier == 0
    then head ++ shown lib (total roll)
    else head
      ++ join_results lib roll.results
      ++ modifier_text lib roll.modifier
      ++ " = "
      ++ shown lib (total roll)

unfoldable pub story_line : Library → DiceRoll → String → String
story_line lib roll player =
    "（"
    ++ player
    ++ purpose roll
    ++ "掷了 "
    ++ expression lib roll
    ++ "，结果 "
    ++ shown lib (total roll)
    ++ "）"
