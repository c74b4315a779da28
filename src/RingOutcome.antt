-- ===== src/RingOutcome.antt =====
-- alb/ring_outcome.py: what one run of the doorbell helper meant, read from the tokens of its
-- standard output.
pub mod Grammar
pub mod Actions
mod Examples
use agent_letter_bridge.Prelude.{
  ℕ, ◌-◌, String, ◌≡◌, Bool, true, false, not, ◌&&◌, ◌||◌, Option, none, some, List, [], ◌∷◌, map,
  length, filter_by, leb, eqb, ◌==◌, if◌then◌else◌,
}
use agent_letter_bridge.Prelude.Int.{ℤ, pos}
use agent_letter_bridge.Prelude.Text.{
  Text, codes, eq_text, starts_with, count_char, all_chars, split_on, partition, splitlines,
}

abbrev pub prefix : Text
prefix = codes "doorbell-outcome "

abbrev pub unset : Text
unset = codes "-"

-- `_VALUE`: one or more of the letters, digits and `._:%+-`
unfoldable pub is_value_char : ℕ → Bool
is_value_char c =
    ((leb b'A' c && leb c b'Z') || (leb b'a' c && leb c b'z'))
    || ((leb b'0' c && leb c b'9')
        || ((eqb c b'.' || eqb c b'_')
            || ((eqb c b':' || eqb c b'%') || (eqb c b'+' || eqb c b'-'))))

unfoldable pub is_digit : ℕ → Bool
is_digit c = leb b'0' c && leb c b'9'

-- `[…]+$`: one or more characters of the class; `$` also stands before a line feed that ends the text
unfoldable pub matches_class : (ℕ → Bool) → Text → Bool
matches_class p [] = false
matches_class p (c ∷ []) = p c
matches_class p (c ∷ d ∷ []) = p c && (p d || eqb d 10)
matches_class p (c ∷ d ∷ e ∷ t) = p c && matches_class p (d ∷ e ∷ t)

unfoldable pub is_value : Text → Bool
unfolding matches_class is_value_char
is_value v = matches_class is_value_char v

-- `_TARGET_PANE`: a percent sign and digits
unfoldable pub is_pane : Text → Bool
unfolding matches_class is_digit
is_pane [] = false
is_pane (c ∷ t) = eqb c b'%' && matches_class is_digit t

pub data Health : Type 0 where
  healthy failing : Health

pub record Classification : Type 0 where
  pub status : Text
  pub outcome : Option Text
  pub reason : Option Text
  pub target : Option Text
  pub retry : Bool
  pub health : Health

-- The tags of a line that is no contract line.
pub data LineError : Type 0 where
  not_prefix arity token order version charset percent pane outcome cross : LineError

pub data Parsed : Type 0 where
  good : Classification → Parsed
  bad : LineError → Parsed

-- the tests on one `key=value`, in the order of the loop
unfoldable pub value_error : Text → Text → Option LineError
unfolding is_value is_pane
value_error key value =
    if eq_text value unset
    then none
    else if not (is_value value)
    then some charset
    else if leb 1 (count_char b'%' value) && not (eq_text key (codes "target"))
    then some percent
    else if (eq_text key (codes "target") && leb 1 (count_char b'%' value)) && not (is_pane value)
    then some pane
    else none

abbrev first_error : Option LineError → Option LineError → Option LineError
first_error none e = e
first_error (some a) e = some a

-- the tests that tie outcome, reason and target together
unfoldable pub cross_check : Text → Text → Text → Parsed
cross_check o reason target =
    if eq_text o (codes "submitted")
    then (if not (eq_text reason unset) || eq_text target unset
        then bad cross
        else good (record {
          status = o;
          outcome = some o;
          reason = some reason;
          target = some target;
          retry = false;
          health = healthy;
        }))
    else if eq_text o (codes "pasted_not_submitted")
    then (if not (eq_text reason (codes "enter_failed") || eq_text reason unset)
          || eq_text target unset
        then bad cross
        else good (record {
          status = o;
          outcome = some o;
          reason = some reason;
          target = some target;
          retry = false;
          health = failing;
        }))
    else if eq_text o (codes "no_live_surface")
    then (if eq_text reason unset || not (eq_text target unset)
        then bad cross
        else good (record {
          status = reason;
          outcome = some o;
          reason = some reason;
          target = some target;
          retry = false;
          health = failing;
        }))
    else bad outcome

abbrev pub has_one_equals : Text → Bool
has_one_equals part = eqb (count_char b'=' part) 1

abbrev pub key_of : Text → Text
key_of part = (partition b'=' part).0

abbrev pub value_of : Text → Text
value_of part = (partition b'=' part).2

unfoldable pub parse_fields : Text → Text → Text → Text → Parsed
parse_fields a b c d =
    if not ((has_one_equals a && has_one_equals b) && (has_one_equals c && has_one_equals d))
    then bad token
    else if not (
        (eq_text (key_of a) (codes "v") && eq_text (key_of b) (codes "outcome"))
        && (eq_text (key_of c) (codes "reason") && eq_text (key_of d) (codes "target")))
    then bad order
    else if not (eq_text (value_of a) (codes "1"))
    then bad version
    else elim (first_error (value_error (codes "outcome") (value_of b)) (
        first_error (value_error (codes "reason") (value_of c))
          (value_error (codes "target") (value_of d)))) [
            | some e ↦ bad e
            | none ↦ cross_check (value_of b) (value_of c) (value_of d)
          ]

unfoldable pub parse_parts : List Text → Parsed
unfolding parse_fields
parse_parts (head ∷ a ∷ b ∷ c ∷ d ∷ []) =
    if eq_text head (codes "doorbell-outcome") then parse_fields a b c d else bad arity
parse_parts _ = bad arity

-- `parse_line(line)`
unfoldable pub parse_line : Text → Parsed
unfolding parse_parts
parse_line line =
    if starts_with prefix line then parse_parts (split_on b' ' line) else bad not_prefix

abbrev pub surface_lost : Text → Classification
surface_lost reason = record {
  status = reason;
  outcome = some (codes "no_live_surface");
  reason = some reason;
  target = some unset;
  retry = false;
  health = failing;
}

-- `_fail("unparseable")`
abbrev pub unparseable : Classification
unparseable = record {
  status = codes "unparseable";
  outcome = none;
  reason = some (codes "unparseable");
  target = none;
  retry = false;
  health = failing;
}

pub data ExitCode : Type 0 where
  code : ℤ → ExitCode
  code_text : String → ExitCode
  no_code : ExitCode

-- `exit_code in (0, "0", "", None)`
abbrev pub exit_is_zero : ExitCode → Bool
exit_is_zero (code (pos n)) = eqb n 0
exit_is_zero (code _) = false
exit_is_zero (code_text s) = s == "0" || s == ""
exit_is_zero no_code = true

abbrev pub has_outcome : String → Classification → Bool
has_outcome name c = elim c.outcome [ none ↦ false | some o ↦ eq_text o (codes name) ]

-- what is done with a line that parsed
unfoldable pub act : Bool → Classification → Classification
act nonzero c =
    if has_outcome "submitted" c
    then (if nonzero
        then surface_lost (codes "unconfirmed")
        else record c { retry = false; health = healthy })
    else if has_outcome "pasted_not_submitted" c
    then (if nonzero
        then surface_lost (codes "unconfirmed")
        else record c { retry = false; health = failing })
    else record c {
      retry = elim c.reason [ none ↦ false | some r ↦ eq_text r (codes "helper_timeout") ];
      health = failing;
    }

unfoldable pub contract_lines : Text → List Text
contract_lines stdout = filter_by (starts_with prefix) (splitlines stdout)

unfoldable pub classify_lines : List Text → ExitCode → Bool → Classification
unfolding act
classify_lines [] exit timed_out =
    if timed_out then surface_lost (codes "unconfirmed") else unparseable
classify_lines (line ∷ []) exit timed_out = elim (parse_line line) [
  | good c ↦ act (timed_out || not (exit_is_zero exit)) c
  | bad e ↦ if timed_out then surface_lost (codes "unconfirmed") else unparseable
]
classify_lines (a ∷ b ∷ rest) exit timed_out = unparseable

-- `classify(stdout, stderr, …)`: what was written to stderr is dropped
unfoldable pub classify : Text → ExitCode → Bool → Bool → Classification
unfolding classify_lines
classify stdout exit timed_out missing_executable =
    if missing_executable
    then surface_lost (codes "adapter_unavailable")
    else classify_lines (contract_lines stdout) exit timed_out
