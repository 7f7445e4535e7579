-- ===== src/Json.antt =====
-- The values of JSON that the runtime's checks of a payload tell apart.
use openqqwaifu.Prelude.{ℕ, String, Bool}

-- `number` is an integer that is not negative; `other` is any value that no check accepts.
pub data Json : Type 0 where
  null : Json
  boolean : Bool → Json
  number : ℕ → Json
  text : String → Json
  other : Json
