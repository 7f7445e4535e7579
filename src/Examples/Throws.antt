-- ===== src/Examples/Throws.antt =====
-- The theorem on dice at a roll of two dice with six sides and 1 more, and rolls as text.
use openqqwaifu.Prelude.{
  ◌≡◌, refl, String, Option, none, some, [], ◌∷◌, str_eq, if◌then◌else◌, arith, ltb,
}
use openqqwaifu.Result.{ok, err, Error, Ensures}
use openqqwaifu.Tavern.Dice.{
  pos, Match, dice, Library, DiceRoll, parse_roll, total, expression, announcement,
}
use openqqwaifu.Tavern.Dice.Fair.{IsFair, RollIsPossible, parse_roll-IsPossible}

abbrev match_line : String → Option Match
match_line line =
    if str_eq line ".r 2d6+1"
    then some
        (dice (record { count = some 2; sides = 6; modifier = some (ok (pos 1)); reason = "" }))
    else if str_eq line ".r 100d6"
    then some (dice (record { count = some 100; sides = 6; modifier = none; reason = "" }))
    else none

abbrev lowest : Library
lowest = record {
  match_roll = match_line;
  strip = λ s. s;
  trim = λ s. s;
  randint = λ n low high. low;
  decimal = λ n. if ltb n 2 then "1" else if ltb n 3 then "2" else if ltb n 4 then "3" else "6";
}

lowest-IsFair : IsFair lowest
lowest-IsFair n low high h = (omega arith, h)

abbrev snake_eyes : DiceRoll
snake_eyes = record { count = 2; sides = 6; modifier = pos 1; reason = ""; results = 1 ∷ 1 ∷ [] }

rolled : parse_roll lowest 0 ".r 2d6+1" ≡ ok (some snake_eyes)
unfolding parse_roll
rolled = refl

too_many : parse_roll lowest 0 ".r 100d6" ≡ err Error.dice_out_of_range
unfolding parse_roll
too_many = refl

summed : total snake_eyes ≡ pos 3
unfolding total
summed = refl

announced : announcement lowest snake_eyes "amy" ≡ "🎲 amy掷 2d6+1：1+1+1 = 3"
unfolding announcement expression total
announced = refl

parse_roll-IsPossible_example : Ensures RollIsPossible (parse_roll lowest 0 ".r 2d6+1")
parse_roll-IsPossible_example = parse_roll-IsPossible lowest lowest-IsFair 0 ".r 2d6+1"
