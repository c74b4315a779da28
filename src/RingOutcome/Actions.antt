-- ===== src/RingOutcome/Actions.antt =====
-- What the caller may do after a ring: `classify` against the lines and the fate of the helper.
use agent_letter_bridge.Prelude.{
  ◌≡◌, ◌⊎◌, ◌↔◌, refl, Bool, true, false, none, some, List, [], ◌∷◌, arith, inl, inr,
}
use agent_letter_bridge.Prelude.Text.{Text, codes, eq_text}
use agent_letter_bridge.RingOutcome.{
  Classification, healthy, Parsed, good, bad, LineError, parse_line, ExitCode, exit_is_zero,
  classify, classify_lines, contract_lines, has_outcome,
}

Parsed-cases :
    (p : Parsed) → ((c : Classification) × (p ≡ good c)) ⊎ ((e : LineError) × (p ≡ bad e))
Parsed-cases (good c) = inl (c, refl)
Parsed-cases (bad e) = inr (e, refl)

-- The one contract line of the output, with what the line said.
abbrev pub One : List Text → (Classification → Type 0) → Type 0
One lines P =
    (line : Text) × (c : Classification) × (lines ≡ line ∷ []) × (parse_line line ≡ good c) × P c

-- an outcome that the helper vouches for by its exit
abbrev pub IsSubmitted : ExitCode → Bool → Classification → Type 0
IsSubmitted exit timed_out c =
    (has_outcome "submitted" c ≡ true) × (timed_out ≡ false) × (exit_is_zero exit ≡ true)

abbrev pub says_timeout : Classification → Bool
says_timeout c = elim c.reason [ none ↦ false | some r ↦ eq_text r (codes "helper_timeout") ]

abbrev pub IsTimeout : Classification → Type 0
IsTimeout c =
    (has_outcome "submitted" c ≡ false)
    × (has_outcome "pasted_not_submitted" c ≡ false)
    × (says_timeout c ≡ true)

lines_healthy :
    (lines : List Text) (exit : ExitCode) (timed_out : Bool)
    → (classify_lines lines exit timed_out).health ≡ healthy
    → One lines (IsSubmitted exit timed_out)
unfolding classify_lines
lines_healthy [] exit timed_out h = absurd (ground arith)
lines_healthy (line ∷ []) exit timed_out h = elim (Parsed-cases (parse_line line)) [
  | inl (c, e) ↦ (line, c, refl, e, ground (arith, e))
  | inr (x, e) ↦ absurd (ground (arith, e))
]
lines_healthy (a ∷ b ∷ rest) exit timed_out h = absurd (ground arith)

lines_retry :
    (lines : List Text) (exit : ExitCode) (timed_out : Bool)
    → (classify_lines lines exit timed_out).retry ≡ true
    → One lines IsTimeout
unfolding classify_lines
lines_retry [] exit timed_out h = absurd (ground arith)
lines_retry (line ∷ []) exit timed_out h = elim (Parsed-cases (parse_line line)) [
  | inl (c, e) ↦ (line, c, refl, e, ground (arith, e))
  | inr (x, e) ↦ absurd (ground (arith, e))
]
lines_retry (a ∷ b ∷ rest) exit timed_out h = absurd (ground arith)

healthy_of_lines :
    (lines : List Text) (exit : ExitCode) (timed_out : Bool)
    → One lines (IsSubmitted exit timed_out)
    → (classify_lines lines exit timed_out).health ≡ healthy
unfolding classify_lines
healthy_of_lines lines exit timed_out (line, c, e, p, s) = rw e (ground (arith, p, s))

retry_of_lines :
    (lines : List Text) (exit : ExitCode) (timed_out : Bool)
    → One lines IsTimeout
    → (classify_lines lines exit timed_out).retry ≡ true
unfolding classify_lines
retry_of_lines lines exit timed_out (line, c, e, p, s) = rw e (ground (arith, p, s))

-- A ring counts as delivered exactly when the helper was found, ended in time with exit code zero,
-- and wrote exactly one contract line, which parses and says "submitted".
pub healthy_iff :
    (stdout : Text) (exit : ExitCode) (timed_out missing : Bool)
    → ((classify stdout exit timed_out missing).health ≡ healthy)
      ↔ ((missing ≡ false) × One (contract_lines stdout) (IsSubmitted exit timed_out))
unfolding classify
healthy_iff stdout exit timed_out true = (λ h. absurd (ground arith), λ h. absurd (ground arith))
healthy_iff stdout exit timed_out false = (
  λ h. (refl, lines_healthy (contract_lines stdout) exit timed_out h),
  λ h. healthy_of_lines (contract_lines stdout) exit timed_out h.1,
)

-- A ring is tried again exactly when the helper was found and wrote exactly one contract line, which
-- parses, names neither "submitted" nor "pasted_not_submitted" and gives the reason
-- "helper_timeout"; the exit code and the caller's own time limit have no say.
pub retry_iff :
    (stdout : Text) (exit : ExitCode) (timed_out missing : Bool)
    → ((classify stdout exit timed_out missing).retry ≡ true)
      ↔ ((missing ≡ false) × One (contract_lines stdout) IsTimeout)
unfolding classify
retry_iff stdout exit timed_out true = (λ h. absurd (ground arith), λ h. absurd (ground arith))
retry_iff stdout exit timed_out false = (
  λ h. (refl, lines_retry (contract_lines stdout) exit timed_out h),
  λ h. retry_of_lines (contract_lines stdout) exit timed_out h.1,
)
