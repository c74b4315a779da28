-- ===== src/RingOutcome/Examples.antt =====
-- Contract lines at concrete texts.
use agent_letter_bridge.Prelude.{◌≡◌, ◌↔◌, refl, Bool, true, false, some, ◌++◌}
use agent_letter_bridge.Prelude.Int.{pos}
use agent_letter_bridge.Prelude.Text.{
  Text, codes, starts_with, split_on, partition, count_char, eq_text,
}
use agent_letter_bridge.RingOutcome.{
  Classification, healthy, good, parse_line, cross_check, parse_fields, value_error, is_value_char,
  is_value, code, classify, contract_lines,
}
use agent_letter_bridge.RingOutcome.Grammar.{render, parse_line-render}
use agent_letter_bridge.RingOutcome.Actions.{One, IsSubmitted, IsTimeout, healthy_iff, retry_iff}

abbrev line : Text
line = codes "doorbell-outcome v=1 outcome=submitted reason=- target=%12"

abbrev delivered : Classification
delivered = record {
  status = codes "submitted";
  outcome = some (codes "submitted");
  reason = some (codes "-");
  target = some (codes "%12");
  retry = false;
  health = healthy;
}

line_is_good : parse_line line ≡ good delivered
unfolding parse_line starts_with split_on partition count_char eq_text parse_fields value_error
    cross_check is_value
line_is_good = refl

parse_line-render_example :
    parse_line (render (codes "no_live_surface") (codes "helper_timeout") (codes "-"))
    ≡ cross_check (codes "no_live_surface") (codes "helper_timeout") (codes "-")
unfolding is_value_char
parse_line-render_example =
    parse_line-render (codes "no_live_surface") (codes "helper_timeout") (codes "-") (refl, λ e. cc)
      (refl, λ e. cc) (refl, λ e. cc)

healthy_iff_example :
    ((classify (line ++ codes "\n") (code (pos 0)) false false).health ≡ healthy) ↔ (
      (◌≡◌ {A = Bool} false false)
      × One (contract_lines (line ++ codes "\n")) (IsSubmitted (code (pos 0)) false))
healthy_iff_example = healthy_iff (line ++ codes "\n") (code (pos 0)) false false

retry_iff_example :
    ((classify (line ++ codes "\n") (code (pos 0)) false false).retry ≡ true)
    ↔ ((◌≡◌ {A = Bool} false false) × One (contract_lines (line ++ codes "\n")) IsTimeout)
retry_iff_example = retry_iff (line ++ codes "\n") (code (pos 0)) false false
