-- ===== src/Contact/Decision.antt =====
-- `policy`, `attempts`, `decision`, `for_task`, `check_requested_time` of contact_policy.py: whether
-- a planned message may go out now. The columns of a policy row that the code reads are modelled.
pub mod Window
pub mod Frequency
pub mod Permits
pub mod Reopens
pub mod Rolling
use openqqwaifu.Prelude.{
  ℕ, zero, suc, ◌+◌, ◌-◌, ◌*◌, ◌/◌, String, Bool, true, false, Option, none, some, List, map, not,
  ◌&&◌, str_eq, ltb, leb, if◌then◌else◌, find, select, length, sort, get_elem?, last?,
}
use openqqwaifu.Result.{
  Result, ok, err, no_policy, timezone_required, quiet_period, index_error, from_option, require,
  ◌>>=◌,
}
use openqqwaifu.Platform.{Platform}
use openqqwaifu.Tables.{minute_span, day_span, Policy, ContactAttempt, Task, Db}
use openqqwaifu.Contact.Quiet.{in_quiet, next_open}

pub record Decision : Type 0 where
  pub allowed : Bool
  pub reason : String
  pub next_at : Option ℕ
  pub policy_version : ℕ

unfoldable pub policy : Db → String → Result Policy
policy db cid = from_option no_policy (find (λ p. str_eq p.conversation_id cid) db.policies)

-- conversation_id=? AND started_at>now-86400
abbrev pub recent : String → ℕ → ContactAttempt → Bool
recent cid now a = str_eq a.conversation_id cid && ltb now (a.started_at + day_span)

unfoldable pub attempts : Db → String → ℕ → List ℕ
attempts db cid now = sort (map (λ a. a.started_at) (select (recent cid now) db.contact_attempts))

abbrev pub refuse : Policy → String → Option ℕ → Result Decision
refuse p reason next_at =
    ok (record { allowed = false; reason = reason; next_at = next_at; policy_version = p.version })

abbrev pub allow : Policy → Result Decision
allow p = ok (record { allowed = true; reason = ""; next_at = none; policy_version = p.version })

-- used[-limit], for `limit <= len(used)`; `used[-0]` is the first element
unfoldable pub from_end : List ℕ → ℕ → Option ℕ
from_end used zero = get_elem? used 0
from_end used (suc n) = get_elem? used (length used - suc n)

-- used and now < used[-1] + p["min_interval_minutes"] * 60
unfoldable pub interval : Policy → List ℕ → ℕ → Result Decision
interval p used now = elim (last? used) [
  | none ↦ allow p
  | some latest ↦
      if ltb now (latest + p.min_interval_minutes * minute_span)
      then refuse p "contact_interval" (some (latest + p.min_interval_minutes * minute_span))
      else allow p
]

unfoldable pub frequency : Policy → List ℕ → ℕ → Result Decision
frequency p used now =
    if leb p.daily_limit (length used)
    then (do
      oldest ← from_option index_error (from_end used p.daily_limit)
      refuse p "contact_daily_limit" (some (oldest + day_span)))
    else interval p used now

abbrev pub zone_of : Policy → String → String
zone_of p task_zone = if str_eq p.timezone "" then task_zone else p.timezone

module _ (os : Platform) where
  unfoldable pub quiet_hours : Policy → ℕ → String → Result Decision → Result Decision
  quiet_hours p now zone go_on =
      if str_eq zone "" then refuse p "contact_timezone_required" none else do
        quiet ← in_quiet os zone p.quiet_start p.quiet_end now
        if quiet
            then (do
              at ← next_open os zone p.quiet_start p.quiet_end (now / minute_span)
              refuse p "contact_quiet" at)
            else go_on

  unfoldable pub decision : Db → String → ℕ → String → Bool → String → Result Decision
  decision db cid now kind allow_quiet task_zone = do
    p ← policy db cid
    let go_on = frequency p (attempts db cid now) now
    if p.paused
        then refuse p "contact_paused" none
        else if not (str_eq kind "reminder") && not p.proactive_enabled
        then refuse p "proactive_disabled" none
        else if p.quiet_enabled && not allow_quiet
        then quiet_hours p now (zone_of p task_zone) go_on
        else go_on

  unfoldable pub for_task : Db → Task → ℕ → Result Decision
  for_task db task now =
      decision db task.conversation_id now "reminder" task.allow_quiet
        (if task.timezone_confirmed then task.timezone else "")

  unfoldable pub check_requested_time : Db → String → ℕ → String → Bool → Result (Unit {0})
  check_requested_time db cid due zone allow_quiet = do
    p ← policy db cid
    if p.quiet_enabled && not allow_quiet
        then (if str_eq (zone_of p zone) "" then err timezone_required else do
          quiet ← in_quiet os (zone_of p zone) p.quiet_start p.quiet_end due
          require (not quiet) quiet_period)
        else ok tt
