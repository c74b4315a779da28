-- ===== src/Watchdog/Reports.antt =====
-- The passive reports of alb/watchdog/health.py: `status` and the age label.
use agent_letter_bridge.Prelude.{
  ℕ, ◌+◌, ◌*◌, ◌/◌, ◌≤◌, ◌<◌, String, ◌≡◌, Option, Result, ok, err, arith, ltb, if◌then◌else◌,
}
use agent_letter_bridge.Prelude.Int.{ℤ, pos, pos_part, ◌-ℤ◌, leb_ℤ, ltb_ℤ}
use agent_letter_bridge.Json.{
  Json, Float, finite, nan, inf, neg_inf, ConvError, value_error, overflow_error, million,
}
use agent_letter_bridge.Watchdog.{heartbeat_of}

pub data Status : Type 0 where
  status_unknown status_stale status_ok : Status

-- `status(path, max_age)`. Both sentences print `int(age)`, which raises on an age that is not
-- finite; only the infinitely old heartbeat is tested as stale.
unfoldable pub status : (String → Option Float) → ℤ → ℕ → Option Json → Result ConvError Status
unfolding heartbeat_of
status of_text now max_age file = elim (heartbeat_of of_text file) [
  | ok (finite at) ↦
      if ltb_ℤ (pos (max_age * million)) (now -ℤ at) then ok status_stale else ok status_ok
  | ok nan ↦ err value_error
  | ok inf ↦ err overflow_error
  | ok neg_inf ↦ err overflow_error
  | err overflow_error ↦ err overflow_error
  | err _ ↦ ok status_unknown
]

pub data AgeUnit : Type 0 where
  secs mins hours days : AgeUnit

-- `_age_label(seconds)`: the number and the letter behind it
unfoldable pub age_label : ℤ → ℕ × AgeUnit
age_label seconds =
    let s = pos_part seconds in
    if ltb s 60
    then (s, secs)
    else if ltb s 3600
    then (s / 60, mins)
    else if ltb s 86400
    then (s / 3600, hours)
    else (s / 86400, days)

abbrev pub unit_seconds : AgeUnit → ℕ
unit_seconds secs = 1
unit_seconds mins = 60
unit_seconds hours = 3600
unit_seconds days = 86400

-- The label names the age to the unit: it is at most the age, by less than one unit, and every
-- number of a unit but days stays below the next unit.
pub age_label_exact :
    (n : ℕ)
    → let (k, u) = age_label (pos n) in (k * unit_seconds u ≤ n) × (n < (k + 1) * unit_seconds u)
unfolding age_label
age_label_exact n = ground arith

-- `status` reports every file whose heartbeat is a finite number, as stale exactly when its age
-- passes the limit.
pub status_of_finite :
    (of_text : String → Option Float) (now : ℤ) (max_age : ℕ) (file : Option Json) (at : ℤ)
    → heartbeat_of of_text file ≡ ok (finite at)
    → status of_text now max_age file
      ≡ ok (if leb_ℤ (now -ℤ at) (pos (max_age * million)) then status_ok else status_stale)
unfolding status
status_of_finite of_text now max_age file at h = ground (arith, h)
