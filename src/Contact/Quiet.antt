-- ===== src/Contact/Quiet.antt =====
-- `minute`, `in_quiet`, `next_open` of contact_policy.py: the daily quiet period.
pub mod Clock
pub mod Opens
use openqqwaifu.Prelude.{
  ℕ, zero, suc, ◌+◌, ◌-◌, ◌*◌, String, Bool, Option, none, some, List, [], ◌∷◌, ◌&&◌, ◌||◌, ◌==◌,
  ltb, leb, if◌then◌else◌,
}
use openqqwaifu.Result.{Result, ok, unknown_zone, bad_quiet_time, from_option, require, ◌>>=◌, ◌>>◌}
use openqqwaifu.Platform.{Platform, codes}
use openqqwaifu.Tables.{minute_span}

-- The test of `in_quiet` on the clock: [first, last), which may pass midnight.
unfoldable pub within : ℕ → ℕ → ℕ → Bool
within first last current =
    if ltb first last
    then leb first current && ltb current last
    else leb first current || ltb current last

pub time_of_day : Option ℕ → Option ℕ → Option ℕ
time_of_day (some h) (some m) = some (h * 60 + m)
time_of_day _ _ = none

module _ (os : Platform) where
  open os use {known, local_minute, digit}

  -- (?:[01]\d|2[0-3]) with `int` of the two digits
  pub hour_digits : ℕ → ℕ → Option ℕ
  hour_digits a b =
      if a == b'0' || a == b'1'
      then elim (digit b) [ none ↦ none | some v ↦ some ((a - b'0') * 10 + v) ]
      else if a == b'2' && (leb b'0' b && leb b b'3')
      then some (20 + (b - b'0'))
      else none

  -- [0-5]\d
  pub minute_digits : ℕ → ℕ → Option ℕ
  minute_digits a b =
      if leb b'0' a && leb a b'5'
      then elim (digit b) [ none ↦ none | some v ↦ some ((a - b'0') * 10 + v) ]
      else none

  pub minute_codes : List ℕ → Option ℕ
  minute_codes (a ∷ b ∷ c ∷ d ∷ e ∷ []) =
      if c == b':' then time_of_day (hour_digits a b) (minute_digits d e) else none
  minute_codes _ = none

  -- minute(value), for a text
  unfoldable pub minute : String → Result ℕ
  unfolding minute_codes hour_digits minute_digits time_of_day
  minute value = from_option bad_quiet_time (minute_codes (codes value))

  unfoldable pub in_quiet : String → String → String → ℕ → Result Bool
  unfolding within
  in_quiet zone start end instant = do
    require (known zone) unknown_zone
    first ← minute start
    last ← minute end
    ok (within first last (local_minute zone instant))

  -- The loop of `next_open` from one offset on: `rounds` instants are left to try.
  unfoldable pub scan_open : String → String → String → ℕ → ℕ → Result (Option ℕ)
  scan_open zone start end at zero = ok none
  scan_open zone start end at (suc rounds) =
      let rest = scan_open zone start end (at + 1) rounds in
      let instant = at * minute_span in
      in_quiet zone start end instant >>= λ quiet. if quiet then rest else ok (some instant)

  -- range(1, 26 * 60 + 1) from the minute `utc_minute`
  unfoldable pub next_open : String → String → String → ℕ → Result (Option ℕ)
  unfolding scan_open
  next_open zone start end utc_minute = scan_open zone start end (utc_minute + 1) 1560
