-- ===== src/Contact/Quiet/Clock.antt =====
-- What `minute` of contact_policy.py accepts, and the time of day that it returns.
use openqqwaifu.Prelude.{
  ℕ, ◌+◌, ◌*◌, ◌/◌, ◌%◌, ◌<◌, String, ◌≡◌, none, some, [], ◌∷◌, List, Option, arith, Option-cases,
  Bool-cases, ◌==◌, inl, inr,
}
use openqqwaifu.Result.{ok}
use openqqwaifu.Platform.{Platform, IsLawful, codes}
use openqqwaifu.Contact.Quiet.{hour_digits, minute_digits, time_of_day, minute_codes, minute}

module _ (os : Platform) (law : IsLawful os) where
  hour_digits-lt : (a b h : ℕ) → hour_digits os a b ≡ some h → h < 24
  unfolding hour_digits
  hour_digits-lt a b h e = elim (Option-cases (os.digit b)) [
    | inl n ↦ ground arith
    | inr (v, q) ↦ ground (arith, law.digit-lt b v)
  ]

  minute_digits-lt : (a b m : ℕ) → minute_digits os a b ≡ some m → m < 60
  unfolding minute_digits
  minute_digits-lt a b m e = elim (Option-cases (os.digit b)) [
    | inl n ↦ ground arith
    | inr (v, q) ↦ ground (arith, law.digit-lt b v)
  ]

  time_of_day-lt :
      (h m : Option ℕ) (t : ℕ)
      → ((v : ℕ) → h ≡ some v → v < 24)
      → ((v : ℕ) → m ≡ some v → v < 60)
      → time_of_day h m ≡ some t
      → t < 1440
  unfolding time_of_day
  time_of_day-lt none m t hb mb e = cc
  time_of_day-lt (some h) none t hb mb e = cc
  time_of_day-lt (some h) (some m) t hb mb e = ground (arith, hb h, mb m)

  minute_codes-lt : (cs : List ℕ) (t : ℕ) → minute_codes os cs ≡ some t → t < 1440
  unfolding minute_codes
  minute_codes-lt (a ∷ b ∷ c ∷ d ∷ e ∷ []) t h = elim (Bool-cases (c == b':')) [
    | inl colon ↦
        time_of_day-lt (hour_digits os a b) (minute_digits os d e) t (hour_digits-lt a b)
          (minute_digits-lt d e) (rw colon at h)
    | inr other ↦ absurd (cc (rw other at h))
  ]
  minute_codes-lt _ t h = absurd cc

  minute_lem :
      (value : String) (t : ℕ) → minute os value ≡ ok t → minute_codes os (codes value) ≡ some t
  unfolding minute
  minute_lem value t e = elim (Option-cases (minute_codes os (codes value))) [
    | inl n ↦ absurd (cc (rw n at e))
    | inr (v, q) ↦ cc (q, rw q at e)
  ]

  -- A time of day that the policy accepts lies within a day.
  pub minute-lt : (value : String) (t : ℕ) → minute os value ≡ ok t → t < 1440
  minute-lt value t e = minute_codes-lt (codes value) t (minute_lem value t e)

  -- Every time of day, written HH:MM, is accepted and read back.
  pub minute_codes-clock :
      (h m : ℕ)
      → h < 24
      → m < 60
      → minute_codes os ((48 + h / 10) ∷ (48 + h % 10) ∷ b':' ∷ (48 + m / 10) ∷ (48 + m % 10) ∷ [])
        ≡ some (h * 60 + m)
  unfolding minute_codes hour_digits minute_digits time_of_day
  minute_codes-clock h m hb mb = ground (arith, law.digit_ascii (h % 10), law.digit_ascii (m % 10))
