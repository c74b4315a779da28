-- ===== src/Watchdog/Verdicts.antt =====
-- When `verdict` asks for a restart, when it must not, and when it raises.
use agent_letter_bridge.Prelude.{
  ℕ, ◌+◌, ◌≤◌, String, ◌≡◌, ◌↔◌, refl, Bool, true, false, Option, none, some, List, [], ◌∷◌, ok,
  err, Result-cases, Option-cases, inl, inr, arith, ◌==◌, if◌then◌else◌,
}
use agent_letter_bridge.Prelude.Dict
use agent_letter_bridge.Prelude.Int.{
  ℤ, pos, pos_part, neg_part, ◌-ℤ◌, leb_ℤ, ltb_ℤ, negsuc, trunc_div,
}
use agent_letter_bridge.Json.{
  Json, int, str, obj, Fields, Float, finite, fields_dict, to_float, float_bound, million,
  overflow_error,
}
use agent_letter_bridge.Watchdog.{
  leave, investigate, restart, Verdict, verdict, judge, judge_state, heartbeat_of, record_of,
  allowance, state_or_running, is_text_in, max_retry_after,
}

abbrev pub wait_reasons : List String
wait_reasons = "throttled_429" ∷ "upstream_5xx" ∷ "network" ∷ []

-- How old a heartbeat is, in whole seconds.
abbrev pub age : ℤ → ℤ → ℤ
age now at = trunc_div (now -ℤ at) million

abbrev pub known_wait : Option Json → Bool
known_wait file = is_text_in wait_reasons (Dict.get "reason" (record_of file))

-- A readable record in a state that has an allowance, silent for longer than that.
pub record IsOverdue (of_text : String → Option Float) (now : ℤ) (file : Option Json) : Type 0 where
  pub at : ℤ
  pub state : String
  pub limit : ℕ
  pub readable : heartbeat_of of_text file ≡ ok (finite at)
  pub in_state : state_or_running (Dict.get "state" (record_of file)) ≡ str state
  pub allowed : allowance state ≡ some (some limit)
  pub silent : leb_ℤ (age now at) (pos limit) ≡ false
  pub reason : (state == "degraded") ≡ true → known_wait file ≡ true

-- A restart asked for by the tests on the state and the age.
judge_state-restart :
    (file : Option Json) (state : Json) (old : ℤ) (v : Verdict)
    → judge_state (record_of file) state old ≡ ok v
    → v.action ≡ restart
    → (s : String) × (limit : ℕ) × (state ≡ str s)
      × (allowance s ≡ some (some limit))
      × (leb_ℤ old (pos limit) ≡ false)
      × ((s == "degraded") ≡ true → known_wait file ≡ true)
unfolding judge_state
judge_state-restart file (str s) old v h r = elim (Option-cases (allowance s)) [
  | inl e ↦ absurd (ground arith)
  | inr (none, e) ↦ absurd (ground arith)
  | inr (some limit, e) ↦ (s, limit, refl, e, ground arith, λ d. ground arith)
]
judge_state-restart file _ old v h r = absurd (ground arith)

judge-restart :
    (file : Option Json) (old : ℤ) (v : Verdict)
    → judge (record_of file) old ≡ ok v
    → v.action ≡ restart
    → judge_state (record_of file) (state_or_running (Dict.get "state" (record_of file))) old ≡ ok v
unfolding judge
judge-restart file old v h r = ground arith

-- `verdict` asks for a restart of every overdue record.
verdict-restart :
    (of_text : String → Option Float) (now : ℤ) (file : Option Json)
    → IsOverdue of_text now file
    → verdict of_text now file ≡ ok (record { state = "unresponsive"; action = restart })
unfolding verdict
verdict-restart of_text now file h = ground (arith, h.readable, h.in_state, h.allowed, h.silent)

-- and of no other
restart-IsOverdue :
    (of_text : String → Option Float) (now : ℤ) (file : Option Json) (v : Verdict)
    → verdict of_text now file ≡ ok v
    → v.action ≡ restart
    → IsOverdue of_text now file
unfolding verdict
restart-IsOverdue of_text now file v h r = elim (Result-cases (heartbeat_of of_text file)) [
  | inl (finite at, e) ↦
      let judged : judge (record_of file) (age now at) ≡ ok v = ground (arith, e) in
      let (s, limit, a, b, c, d) =
        judge_state-restart file _ (age now at) v (judge-restart file (age now at) v judged r) r in
      record {
        at = at;
        state = s;
        limit = limit;
        readable = e;
        in_state = a;
        allowed = b;
        silent = c;
        reason = d;
      }
  | inl (other, e) ↦ absurd (ground (arith, e))
  | inr (overflow_error, e) ↦ absurd (ground (arith, e))
  | inr (other, e) ↦ absurd (ground (arith, e))
]

-- A restart is asked for exactly when the file holds a readable, finite heartbeat and a state with
-- an allowance, a degraded state has a reason of the three known ones, and the heartbeat is older
-- than the allowance in whole seconds.
pub restart_iff :
    (of_text : String → Option Float) (now : ℤ) (file : Option Json)
    → ((v : Verdict) × (verdict of_text now file ≡ ok v) × (v.action ≡ restart))
      ↔ IsOverdue of_text now file
restart_iff of_text now file = (
  λ (v, h, r). restart-IsOverdue of_text now file v h r,
  λ o. (_, verdict-restart of_text now file o, refl),
)

-- A record in the state "yielded" asks for an investigation and never for a restart, however old it
-- is; its state is shown unless its heartbeat lies more than 30 seconds in the future.
pub yielded_stays_down :
    (of_text : String → Option Float) (now : ℤ) (file : Option Json) (at : ℤ)
    → heartbeat_of of_text file ≡ ok (finite at)
    → Dict.get "state" (record_of file) ≡ some (str "yielded")
    → verdict of_text now file
      ≡ ok (record {
        state = if ltb_ℤ (age now at) (negsuc 29) then "unknown" else "yielded";
        action = investigate;
      })
unfolding verdict judge judge_state
yielded_stays_down of_text now file at h s = ground (arith, h, s)

-- A degraded bridge that waits for a reason this version knows is left alone for as long as the
-- longest wait that the platform adapter honours, and five minutes more.
pub platform_wait_left_alone :
    (of_text : String → Option Float) (now : ℤ) (file : Option Json) (at : ℤ) (waited : ℕ)
    → heartbeat_of of_text file ≡ ok (finite at)
    → Dict.get "state" (record_of file) ≡ some (str "degraded")
    → known_wait file ≡ true
    → age now at ≡ pos waited
    → waited ≤ max_retry_after + 300
    → verdict of_text now file ≡ ok (record { state = "degraded"; action = leave })
unfolding verdict judge judge_state
platform_wait_left_alone of_text now file at waited h s k a w = ground (arith, h, s, k, a)

-- A heartbeat that is an integer too large for a float is not reported: `verdict` raises.
pub huge_heartbeat_raises :
    (of_text : String → Option Float) (now : ℤ) (fs : Fields) (n : ℤ)
    → Dict.get "heartbeat" (fields_dict fs) ≡ some (int n)
    → float_bound ≤ pos_part n + neg_part n
    → verdict of_text now (some (obj fs)) ≡ err overflow_error
unfolding verdict to_float
huge_heartbeat_raises of_text now fs n h big = ground (arith, h)
