-- ===== src/Json.antt =====
-- The values that `json.loads` returns, with the conversions of Python that the program applies to
-- them. A finite float is a whole number of millionths; `Float` has the three values that are not
-- finite too, which `json.loads` accepts. The text form is not modelled: a file is the value that
-- its text stands for, or nothing where it cannot be read or parsed.
use agent_letter_bridge.Prelude.{
  ℕ, ◌+◌, ◌-◌, ◌*◌, ◌^◌, String, Bool, true, false, Option, none, some, Result, ok, err, leb, not,
  ◌==◌, if◌then◌else◌, List, [], ◌∷◌,
}
use agent_letter_bridge.Prelude.Dict.{Dict}
use agent_letter_bridge.Prelude.Int.{ℤ, pos, pos_part, neg_part, sub_ℕ}

pub data Float : Type 0 where
  finite : ℤ → Float
  nan inf neg_inf : Float

mutual
  pub data Json : Type 0 where
    null : Json
    bool : Bool → Json
    int : ℤ → Json
    float : Float → Json
    str : String → Json
    arr : Items → Json
    obj : Fields → Json

  pub data Items : Type 0 where
    nil : Items
    cons : Json → Items → Items

  pub data Fields : Type 0 where
    end : Fields
    field : String → Json → Fields → Fields

abbrev pub fields_dict : Fields → Dict Json
fields_dict end = []
fields_dict (field k v fs) = (k, v) ∷ fields_dict fs

abbrev pub items_list : Items → List Json
items_list nil = []
items_list (cons x xs) = x ∷ items_list xs

-- What a conversion raises.
pub data ConvError : Type 0 where
  value_error type_error overflow_error : ConvError

abbrev pub million : ℕ
million = 1_000_000

-- The first integers that do not fit a double: `float` raises OverflowError from here on.
unfoldable pub float_bound : ℕ
float_bound = 2 ^ 1024 - 2 ^ 970

unfoldable pub float_of_int : ℤ → Result ConvError Float
float_of_int n =
    if leb float_bound (pos_part n + neg_part n)
    then err overflow_error
    else ok (finite (sub_ℕ (pos_part n * million) (neg_part n * million)))

abbrev pub float_of_bool : Bool → Float
float_of_bool true = finite (pos million)
float_of_bool false = finite (pos 0)

abbrev pub or_value_error : Option Float → Result ConvError Float
or_value_error none = err value_error
or_value_error (some x) = ok x

-- `float(v)`; the reading of a text is Python's, and is a parameter.
unfoldable pub to_float : (String → Option Float) → Json → Result ConvError Float
unfolding float_of_int
to_float of_text null = err type_error
to_float of_text (bool b) = ok (float_of_bool b)
to_float of_text (int n) = float_of_int n
to_float of_text (float x) = ok x
to_float of_text (str s) = or_value_error (of_text s)
to_float of_text (arr xs) = err type_error
to_float of_text (obj fs) = err type_error

-- Lists and dicts cannot be looked up in a set or a dict.
abbrev pub hashable : Json → Bool
hashable (arr xs) = false
hashable (obj fs) = false
hashable _ = true

abbrev pub is_zero : ℤ → Bool
is_zero n = leb (pos_part n + neg_part n) 0

-- `bool(v)`
unfoldable pub truthy : Json → Bool
truthy null = false
truthy (bool b) = b
truthy (int n) = not (is_zero n)
truthy (float (finite n)) = not (is_zero n)
truthy (float x) = true
truthy (str s) = not (s == "")
truthy (arr nil) = false
truthy (arr (cons x xs)) = true
truthy (obj end) = false
truthy (obj (field k v fs)) = true
