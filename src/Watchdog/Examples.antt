-- ===== src/Watchdog/Examples.antt =====
-- Runs of the watchdog at concrete health files.
use agent_letter_bridge.Prelude.{ℕ, ◌*◌, String, ◌≡◌, ◌↔◌, refl, Option, none, some, ok, err, arith}
use agent_letter_bridge.Prelude.Dict
use agent_letter_bridge.Prelude.Int.{ℤ, pos}
use agent_letter_bridge.Json.{
  Json, int, str, obj, Fields, field, end, Float, float_bound, million, overflow_error,
}
use agent_letter_bridge.Watchdog.{Verdict, leave, restart, verdict}
use agent_letter_bridge.Watchdog.Verdicts.{IsOverdue, restart_iff, huge_heartbeat_raises}

abbrev no_text : String → Option Float
no_text s = none

-- a heartbeat at second 1000 in the given state
abbrev beat : String → Fields
beat state =
    field "heartbeat" (int (pos 1000))
      (field "state" (str state) (field "reason" (str "network") end))

abbrev file : String → Option Json
file state = some (obj (beat state))

abbrev second : ℕ → ℤ
second n = pos (n * million)

silent_too_long :
    verdict no_text (second 1121) (file "running")
    ≡ ok (record { state = "unresponsive"; action = restart })
unfolding verdict Dict.get float_bound
silent_too_long = refl

heard_in_time :
    verdict no_text (second 1120) (file "running")
    ≡ ok (record { state = "running"; action = leave })
unfolding verdict Dict.get float_bound
heard_in_time = refl

restart_iff_example :
    ((v : Verdict) × (verdict no_text (second 1121) (file "running") ≡ ok v) × (v.action ≡ restart))
    ↔ IsOverdue no_text (second 1121) (file "running")
restart_iff_example = restart_iff no_text (second 1121) (file "running")

abbrev huge : Fields
huge = field "heartbeat" (int (pos float_bound)) end

huge_heartbeat_raises_example : verdict no_text (second 1) (some (obj huge)) ≡ err overflow_error
unfolding Dict.get
huge_heartbeat_raises_example =
    huge_heartbeat_raises no_text (second 1) huge (pos float_bound) refl (omega arith)
