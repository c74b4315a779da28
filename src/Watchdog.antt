-- ===== src/Watchdog.antt =====
-- alb/watchdog/health.py: one health file is read, and the reader is told what to do about it.
-- Times are whole microseconds. A health file is `none` where it cannot be read or is not JSON. The
-- sentence in a verdict or a status is for people, and is left out.
pub mod Verdicts
pub mod Reports
mod Examples
use agent_letter_bridge.Prelude.{
  ℕ, ◌+◌, ◌-◌, ◌/◌, String, Bool, true, false, not, ◌&&◌, ◌||◌, Option, none, some, List, [], ◌∷◌,
  Result, ok, err, ◌>>=◌, leb, ltb, ◌==◌, elem, if◌then◌else◌,
}
use agent_letter_bridge.Prelude.Dict
use agent_letter_bridge.Prelude.Dict.{Dict}
use agent_letter_bridge.Prelude.Int.{ℤ, pos, negsuc, ◌-ℤ◌, leb_ℤ, ltb_ℤ, trunc_div}
use agent_letter_bridge.Json.{
  Json, str, obj, Float, finite, nan, inf, neg_inf, fields_dict, ConvError, value_error, type_error,
  overflow_error, to_float, hashable, million,
}

pub data Action : Type 0 where
  leave investigate restart : Action

pub record Verdict : Type 0 where
  pub state : String
  pub action : Action

-- MAX_RETRY_AFTER of alb/adapters/telegram/api.py, in seconds
abbrev pub max_retry_after : ℕ
max_retry_after = 3600

abbrev pub default_allowance : ℕ
default_allowance = 120

-- ALLOWANCE: `none` is a state that the table does not have, `some none` the entry None
unfoldable pub allowance : String → Option (Option ℕ)
allowance state =
    if state == "running"
    then some (some 120)
    else if state == "starting"
    then some (some 300)
    else if state == "degraded"
    then some (some (max_retry_after + 300))
    else if state == "yielded"
    then some none
    else none

abbrev pub clock_skew_tolerance : ℕ
clock_skew_tolerance = 30

-- `float(data["heartbeat"])`: a value that is no dict has no such item
unfoldable pub heartbeat_of : (String → Option Float) → Option Json → Result ConvError Float
unfolding to_float
heartbeat_of of_text (some (obj fs)) = elim (Dict.get "heartbeat" (fields_dict fs)) [
  | none ↦ err value_error
  | some v ↦ to_float of_text v
]
heartbeat_of of_text _ = err type_error

abbrev pub record_of : Option Json → Dict Json
record_of (some (obj fs)) = fields_dict fs
record_of _ = []

abbrev pub is_text_in : List String → Option Json → Bool
is_text_in names (some (str s)) = elem s names
is_text_in names _ = false

-- `data.get("state", "running")`
abbrev pub state_or_running : Option Json → Json
state_or_running none = str "running"
state_or_running (some v) = v

abbrev unknown : Verdict
unknown = record { state = "unknown"; action = investigate }

-- The tests after the age is known to be no future time.
unfoldable pub judge_state : Dict Json → Json → ℤ → Result ConvError Verdict
unfolding allowance
judge_state rec (str state) age = elim (allowance state) [
  | none ↦ ok unknown
  | some allowed ↦
      if state == "degraded"
        && not
            (is_text_in ("throttled_429" ∷ "upstream_5xx" ∷ "network" ∷ []) (Dict.get "reason" rec))
      then ok unknown
      else elim allowed [
        | none ↦ ok (record { state = state; action = investigate })
        | some limit ↦
            if leb_ℤ age (pos limit)
            then ok (record { state = state; action = leave })
            else ok (record { state = "unresponsive"; action = restart })
      ]
]
judge_state rec state age = if hashable state then ok unknown else err type_error

unfoldable pub judge : Dict Json → ℤ → Result ConvError Verdict
unfolding judge_state
judge rec age =
    if ltb_ℤ age (negsuc (clock_skew_tolerance - 1))
    then ok unknown
    else judge_state rec (state_or_running (Dict.get "state" rec)) age

-- `verdict(path)` at the time `now`. What its `except` names is a verdict; the rest escapes.
unfoldable pub verdict : (String → Option Float) → ℤ → Option Json → Result ConvError Verdict
unfolding heartbeat_of judge
verdict of_text now file = elim (heartbeat_of of_text file) [
  | ok (finite at) ↦ judge (record_of file) (trunc_div (now -ℤ at) million)
  | ok _ ↦ ok unknown
  | err overflow_error ↦ err overflow_error
  | err _ ↦ ok unknown
]
