-- ===== src/Platform.antt =====
-- What the runtime takes from Python and the operating system: the IANA zone data behind
-- `ZoneInfo`, the decimal digits and the white space of Unicode, and `json.dumps`.
use Prim.Native.Char.{code}
use openqqwaifu.Prelude.{
  ℕ, ◌+◌, ◌*◌, ◌%◌, ◌<◌, String, ◌≡◌, Bool, true, ◌&&◌, Option, some, List, [], ◌∷◌,
}
use openqqwaifu.Tables.{minute_span}

-- The code points of a text.
abbrev pub codes : String → List ℕ
codes String.[] = []
codes (String.◌∷◌ c s) = code c ∷ codes s

pub record Platform : Type 0 where
  pub known : String → Bool  -- `ZoneInfo(name)` does not raise
  pub local_minute : String → ℕ → ℕ  -- minutes since local midnight, at an instant
  pub digit : ℕ → Option ℕ  -- the value of a code point that `\d` matches
  pub decimal : ℕ → String  -- `str` of a number
  pub is_space : ℕ → Bool  -- `str.isspace` of a code point

abbrev all_space : (ℕ → Bool) → List ℕ → Bool
all_space is_space [] = true
all_space is_space (c ∷ cs) = is_space c && all_space is_space cs

-- not text.strip()
unfoldable pub is_blank : Platform → String → Bool
is_blank os text = all_space os.is_space (codes text)

-- What Python documents of these.
pub record IsLawful (os : Platform) : Type 0 where
  pub local_minute-lt : (zone : String) (t : ℕ) → os.local_minute zone t < 1440
  pub digit-lt : (c v : ℕ) → os.digit c ≡ some v → v < 10
  pub digit_ascii : (v : ℕ) → v < 10 → os.digit (48 + v) ≡ some v

-- A zone whose offset from UTC is constant: each minute moves its clock by one minute.
pub record IsSteady (os : Platform) (zone : String) : Type 0 where
  pub ticks :
      (m : ℕ)
      → os.local_minute zone ((m + 1) * minute_span)
        ≡ (os.local_minute zone (m * minute_span) + 1) % 1440
