-- ===== src/Prelude/Number.antt =====
-- Numbers in text: `str(n)` and `int(t)`, with the blanks, the sign and the underscores that `int`
-- reads. Of the decimal digits only those of ASCII are read.
use Prim.Native.Nat.{ℕ, zero, suc, ◌+◌, ◌-◌, ◌*◌, ◌/◌, ◌%◌, ◌<◌}
use mathlib.Core.Path.{◌≡◌, refl, ap, ◌∙◌}
use mathlib.Core.Logic.{inl, inr, ◌≢◌}
use mathlib.Core.Bool.{Bool, true, false, ◌&&◌}
use mathlib.Core.Option.{Option, none, some}
use mathlib.Core.List.{[], ◌∷◌, ◌++◌}
use native.Mathlib.Omega.{arith}
use agent_letter_bridge.Prelude.Tests.{eqb, leb, ltb, Bool-cases, if◌then◌else◌}
use agent_letter_bridge.Prelude.Text.{
  Text, all_chars, lacks, lacks_of_class, all_chars-append, any_space, strip, is_space, strip_plain,
}

unfoldable pub is_digit : ℕ → Bool
is_digit c = leb b'0' c && leb c b'9'

-- the digits of a number, the last one first computed; the fuel is the number of digits at most
digits_of : ℕ → ℕ → Text
digits_of zero n = []
digits_of (suc fuel) n =
    let rest = digits_of fuel (n / 10) in
    if ltb n 10 then (b'0' + n) ∷ [] else rest ++ (b'0' + n % 10) ∷ []

-- str(n)
unfoldable pub show : ℕ → Text
unfolding digits_of
show n = digits_of (suc n) n

-- The digits of `int`: `after_digit` tells that an underscore may stand here.
int_digits : ℕ → Bool → Text → Option ℕ
unfolding is_digit
int_digits acc after_digit [] = if after_digit then some acc else none
int_digits acc after_digit (c ∷ t) = elim (is_digit c) [
  | true ↦ int_digits (acc * 10 + (c - b'0')) true t
  | false ↦ elim (eqb c b'_' && after_digit) [ true ↦ int_digits acc false t | false ↦ none ]
]

abbrev drop_plus : Text → Text
drop_plus [] = []
drop_plus (c ∷ t) = if eqb c b'+' then t else c ∷ t

-- int(t) of a text without a minus sign; `none` is the ValueError
unfoldable pub py_int : Text → Option ℕ
unfolding int_digits
py_int t = int_digits 0 false (drop_plus (strip t))

digits_of-digits : (fuel n : ℕ) → all_chars is_digit (digits_of fuel n) ≡ true
unfolding digits_of is_digit
digits_of-digits zero n = refl
digits_of-digits (suc fuel) n = ground (
  arith,
  digits_of-digits fuel (n / 10),
  all_chars-append is_digit (digits_of fuel (n / 10)) ((b'0' + n % 10) ∷ []),
)

-- the value of a row of digits after `acc`
value_from : ℕ → Text → ℕ
value_from acc [] = acc
value_from acc (c ∷ t) = value_from (acc * 10 + (c - b'0')) t

value_from-append :
    (acc : ℕ) (s : Text) (c : ℕ) → value_from acc (s ++ c ∷ []) ≡ value_from acc s * 10 + (c - b'0')
unfolding value_from
value_from-append acc [] c = refl
value_from-append acc (d ∷ s) c = value_from-append (acc * 10 + (d - b'0')) s c

value_from-digits_of : (fuel n : ℕ) → n < fuel → value_from 0 (digits_of fuel n) ≡ n
unfolding digits_of value_from
value_from-digits_of zero n h = elim h [ ]
value_from-digits_of (suc fuel) n h = ground (
  arith,
  value_from-digits_of fuel (n / 10),
  value_from-append 0 (digits_of fuel (n / 10)) (b'0' + n % 10),
)

int_digits-digits :
    (acc : ℕ) (after_digit : Bool) (c : ℕ) (t : Text)
    → all_chars is_digit (c ∷ t) ≡ true
    → int_digits acc after_digit (c ∷ t) ≡ some (value_from acc (c ∷ t))
unfolding int_digits value_from
int_digits-digits acc after_digit c [] h = ground arith
int_digits-digits acc after_digit c (d ∷ t) h =
    ground (arith, int_digits-digits (acc * 10 + (c - b'0')) true d t)

digit_no_space : (t : Text) → all_chars is_digit t ≡ true → any_space is_space t ≡ false
unfolding is_digit is_space
digit_no_space [] h = refl
digit_no_space (c ∷ t) h = ground (arith, digit_no_space t)

py_int-digits :
    (c : ℕ) (t : Text)
    → all_chars is_digit (c ∷ t) ≡ true
    → py_int (c ∷ t) ≡ some (value_from 0 (c ∷ t))
unfolding py_int
py_int-digits c t h =
    rw (strip_plain (c ∷ t) (digit_no_space (c ∷ t) h))
      (rw no_plus (int_digits-digits 0 false c t h))
  where
    no_plus : drop_plus (c ∷ t) ≡ c ∷ t
    no_plus = unfold is_digit in ground arith

append_one-ne-nil : (s : Text) (c : ℕ) → s ++ c ∷ [] ≢ []
append_one-ne-nil [] c h = cc
append_one-ne-nil (d ∷ s) c h = cc

digits_of-ne-nil : (fuel n : ℕ) → digits_of (suc fuel) n ≢ []
unfolding digits_of
digits_of-ne-nil fuel n h = elim (Bool-cases (ltb n 10)) [
  | inl e ↦ ground (arith, e)
  | inr e ↦ absurd (append_one-ne-nil (digits_of fuel (n / 10)) (b'0' + n % 10) (rw e at h))
]

-- `int` reads back what `str` writes.
pub py_int-show : (n : ℕ) → py_int (show n) ≡ some n
unfolding show
py_int-show n =
    go (digits_of (suc n) n) (digits_of-digits (suc n) n) (digits_of-ne-nil n n)
    ∙ ap some (value_from-digits_of (suc n) n (omega arith))
  where
    go : (t : Text) → all_chars is_digit t ≡ true → t ≢ [] → py_int t ≡ some (value_from 0 t)
    go [] h e = absurd (e refl)
    go (c ∷ t) h e = py_int-digits c t h

pub show-digits : (n : ℕ) → all_chars is_digit (show n) ≡ true
unfolding show
show-digits n = digits_of-digits (suc n) n

-- What is no digit does not stand in a number.
pub lacks-show : (c n : ℕ) → is_digit c ≡ false → lacks c (show n) ≡ true
lacks-show c n h = lacks_of_class is_digit c (show n) h (show-digits n)
