-- ===== src/Outbound/Stranded.antt =====
-- Which histories are those of a letter in flight, said of the events alone.
use agent_letter_bridge.Prelude.{
  ◌≡◌, refl, Bool, false, not, ◌&&◌, ◌||◌, Option, none, some, List, [], ◌∷◌, arith, any_of,
}
use agent_letter_bridge.Prelude.Text.{Text, codes, eq_text}
use agent_letter_bridge.Outbound.{
  is_terminal, classify, ends_throttled, Delivery, is_in_flight, dead, sent, refused, ambiguous,
  throttled,
}

abbrev pub flagged : Option Delivery → Bool
flagged none = false
flagged (some v) = is_in_flight v

-- the latest event, `e` where there is none
latest : Text → List Text → Text
latest e [] = e
latest e (f ∷ es) = latest f es

-- A history with a "sending", without a "sent", a "refused", an "ambiguous" or a "dead", whose latest
-- event is not a "throttled".
unfoldable pub stranded : List Text → Bool
unfolding latest
stranded es =
    any_of (eq_text (codes "sending")) es
    && (not (any_of (eq_text (codes "sent")) es)
        && (not (any_of (eq_text (codes "refused")) es)
            && (not (any_of (eq_text (codes "ambiguous")) es)
                && (not (any_of (eq_text (codes "dead")) es)
                    && not (eq_text (latest [] es) (codes "throttled"))))))

eq_text-sym : (s t : Text) → eq_text s t ≡ eq_text t s
unfolding eq_text
eq_text-sym [] [] = refl
eq_text-sym [] (c ∷ t) = refl
eq_text-sym (c ∷ s) [] = refl
eq_text-sym (c ∷ s) (d ∷ t) = ground (arith, eq_text-sym s t)

ends_throttled-latest :
    (e : Text) (es : List Text) → ends_throttled (e ∷ es) ≡ eq_text (latest e es) throttled
unfolding ends_throttled latest
ends_throttled-latest e [] = refl
ends_throttled-latest e (f ∷ es) = ends_throttled-latest f es

any_of-is_terminal :
    (es : List Text)
    → any_of is_terminal es ≡ (
        (any_of (eq_text sent) es || any_of (eq_text refused) es)
        || (any_of (eq_text ambiguous) es || any_of (eq_text dead) es))
unfolding is_terminal
any_of-is_terminal [] = refl
any_of-is_terminal (e ∷ es) = ground (
  arith,
  any_of-is_terminal es,
  eq_text-sym e sent,
  eq_text-sym e refused,
  eq_text-sym e ambiguous,
  eq_text-sym e dead,
)

-- The verdict of the code is "in flight" exactly on a stranded history.
pub flagged-stranded : (es : List Text) → flagged (classify es) ≡ stranded es
unfolding classify stranded
flagged-stranded [] = unfold ends_throttled in ground arith
flagged-stranded (e ∷ es) = ground (arith, any_of-is_terminal (e ∷ es), ends_throttled-latest e es)
