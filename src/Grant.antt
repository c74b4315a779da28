-- ===== src/Grant.antt =====
-- alb/grant/store.py: grants are the operator's authority to originate a message. What is modelled
-- here is how a grant is read and judged: load, effective, set_limits, validate, require_granted.
-- A record is a dict of JSON values, as it is read from disk. Parameters: `digest`, the first 16 hex
-- digits of SHA-256, and `of_text`, the reading of a text by `float`.
pub mod Limits
pub mod Authority
pub mod Granted
mod Examples
use agent_letter_bridge.Prelude.{
  ℕ, ◌*◌, String, Bool, true, false, not, ◌&&◌, ◌||◌, Option, none, some, List, [], ◌∷◌, ◌++◌,
  Result, ok, err, ◌>>=◌, ◌>>◌, require, length, leb, eqb, ◌==◌, filter_by, if◌then◌else◌,
}
use agent_letter_bridge.Prelude.Dict
use agent_letter_bridge.Prelude.Dict.{Dict}
use agent_letter_bridge.Prelude.Int.{ℤ, pos, negsuc, pos_part, neg_part, sub_ℕ, leb_ℤ, ltb_ℤ}
use agent_letter_bridge.Prelude.Text.{Text, codes, all_chars}
use agent_letter_bridge.Json.{
  Json, null, bool, int, float, str, arr, obj, Items, nil, cons, Fields, end, field, Float, finite,
  nan, inf, neg_inf, fields_dict, to_float, million, hashable,
}

-- The redacted messages of PolicyError; `crash` is any other exception.
pub data PolicyError : Type 0 where
  invalid disabled expired missing corrupt limits_refused persist_failed crash : PolicyError

abbrev pub Grant : Type 0
Grant = Dict Json

-- POLICY
unfoldable pub policy : String → Option Json
policy key =
    if key == "per_day"
    then some (int (pos 300))
    else if key == "per_hour"
    then some (int (pos 30))
    else if key == "timezone"
    then some (str "Europe/London")
    else if key == "max_queued"
    then some (int (pos 5))
    else if key == "max_body"
    then some (int (pos 4000))
    else none

unfoldable pub is_hex : ℕ → Bool
is_hex c = (leb b'0' c && leb c b'9') || (leb b'a' c && leb c b'f')

-- `_GRANT_ID_RE.fullmatch`
unfoldable pub is_grant_id : String → Bool
is_grant_id s = eqb (length (codes s)) 32 && all_chars is_hex (codes s)

-- binding_key(platform, chat_id), for texts
unfoldable pub binding_key : (Text → String) → String → String → String
binding_key digest platform chat = digest (codes platform ++ b':' ∷ codes chat)

-- `type(a) is type(b)`
unfoldable pub same_type : Json → Json → Bool
same_type null null = true
same_type (bool a) (bool b) = true
same_type (int a) (int b) = true
same_type (float a) (float b) = true
same_type (str a) (str b) = true
same_type (arr a) (arr b) = true
same_type (obj a) (obj b) = true
same_type _ _ = false

-- a key of POLICY with a value of the type that POLICY has
unfoldable pub is_override : String → Json → Bool
is_override k v = elim (policy k) [ none ↦ false | some expected ↦ same_type v expected ]

-- the loop of _checked_overrides
unfoldable pub checked_fields : Dict Json → Result PolicyError (Dict Json)
checked_fields [] = ok []
checked_fields ((k, v) ∷ d) =
    let rest = checked_fields d in
    if is_override k v then (do out ← rest; ok ((k, v) ∷ out)) else err invalid

-- _checked_overrides
unfoldable pub checked_overrides : Json → Result PolicyError (Dict Json)
checked_overrides (obj fs) = checked_fields (fields_dict fs)
checked_overrides _ = err invalid

abbrev pub overrides_in : Option Json → Dict Json
overrides_in (some (obj fs)) = fields_dict fs
overrides_in _ = []

abbrev or_else : Option Json → Json → Json
or_else (some v) d = v
or_else none d = d

-- effective(grant, key)
unfoldable pub effective : Grant → String → Result PolicyError Json
effective grant key = elim (policy key) [
  | none ↦ err invalid
  | some default ↦ ok (or_else (Dict.get key (overrides_in (Dict.get "overrides" grant))) default)
]

-- _limit_int
unfoldable pub limit_int : Json → Result PolicyError Json
limit_int (int (pos n)) = if leb 1 n && leb n 1000 then ok (int (pos n)) else err limits_refused
limit_int _ = err limits_refused

-- A dict that is made of other values: its entries under texts, and whether it has a key that no text
-- of POLICY is, which is one that is no text or has one character.
pub record Copy : Type 0 where
  pub entries : Dict Json
  pub has_odd_key : Bool

abbrev pub put_pair : Json → Json → Copy → Result PolicyError Copy
put_pair (str k) v c = ok (record c { entries = Dict.put k v c.entries })
put_pair k v c = if hashable k then ok (record c { has_odd_key = true }) else err crash

-- what `dict` makes of one element: a list of two items, a text of two characters, a dict of two keys
unfoldable pub put_element : Json → Copy → Result PolicyError Copy
put_element (arr (cons k (cons v nil))) c = put_pair k v c
put_element (obj (field k v (field j w end))) c = put_pair (str k) (str j) c
put_element (str s) c =
    if eqb (length (codes s)) 2 then ok (record c { has_odd_key = true }) else err crash
put_element x c = err crash

unfoldable pub put_elements : Items → Copy → Result PolicyError Copy
put_elements nil c = ok c
put_elements (cons x xs) c = do added ← put_element x c; put_elements xs added

abbrev pub copy_of : Dict Json → Copy
copy_of d = record { entries = d; has_odd_key = false }

-- `dict(rec.get("overrides") or {})`
unfoldable pub overrides_copy : Option Json → Result PolicyError Copy
overrides_copy none = ok (copy_of [])
overrides_copy (some null) = ok (copy_of [])
overrides_copy (some (bool b)) = if b then err crash else ok (copy_of [])
overrides_copy (some (int n)) =
    if eqb (pos_part n) 0 && eqb (neg_part n) 0 then ok (copy_of []) else err crash
overrides_copy (some (float (finite n))) =
    if eqb (pos_part n) 0 && eqb (neg_part n) 0 then ok (copy_of []) else err crash
overrides_copy (some (float x)) = err crash
overrides_copy (some (str s)) = if s == "" then ok (copy_of []) else err crash
overrides_copy (some (arr xs)) = put_elements xs (copy_of [])
overrides_copy (some (obj fs)) = ok (copy_of (fields_dict fs))

unfoldable pub with_limit : String → Option Json → Dict Json → Result PolicyError (Dict Json)
unfolding limit_int
with_limit key none d = ok d
with_limit key (some v) d = do n ← limit_int v; ok (Dict.put key n d)

-- the limit after the change: the override, or what was in effect
unfoldable pub limit_after : String → Dict Json → Grant → Result PolicyError Json
limit_after key d grant = elim (Dict.get key d) [ some v ↦ ok v | none ↦ effective grant key ]

-- a number as a float, for comparison
unfoldable pub as_number : Json → Option Float
as_number (bool b) = some (finite (pos (if b then million else 0)))
as_number (int n) = some (finite (sub_ℕ (pos_part n * million) (neg_part n * million)))
as_number (float x) = some x
as_number _ = none

unfoldable pub float_lt : Float → Float → Bool
float_lt (finite a) (finite b) = ltb_ℤ a b
float_lt (finite a) inf = true
float_lt neg_inf (finite b) = true
float_lt neg_inf inf = true
float_lt _ _ = false

-- `a < b`, where two texts or lists are compared too; here that is a crash, as for mixed types
unfoldable pub json_lt : Json → Json → Result PolicyError Bool
unfolding as_number float_lt
json_lt a b = elim (as_number a) [
  | none ↦ err crash
  | some x ↦ elim (as_number b) [ none ↦ err crash | some y ↦ ok (float_lt x y) ]
]

abbrev pub dict_fields : Dict Json → Fields
dict_fields [] = end
dict_fields ((k, v) ∷ d) = field k v (dict_fields d)

-- _checked_overrides of the copy: an odd key is refused
abbrev pub checked_copy : Bool → Dict Json → Result PolicyError (Dict Json)
checked_copy true d = err invalid
checked_copy false d = checked_fields d

-- the change that set_limits makes to a record that is loaded, before it is published
unfoldable pub change_limits : Option Json → Option Json → Grant → Result PolicyError Grant
change_limits per_hour per_day grant = do
  old ← overrides_copy (Dict.get "overrides" grant)
  with_hour ← with_limit "per_hour" per_hour old.entries
  new ← with_limit "per_day" per_day with_hour
  hour ← limit_after "per_hour" new grant
  day ← limit_after "per_day" new grant
  less ← json_lt day hour
  require (not less) limits_refused
  checked ← checked_copy old.has_odd_key new
  ok (Dict.put "overrides" (obj (dict_fields checked)) grant)

unfoldable pub set_limits : Option Json → Option Json → Grant → Result PolicyError Grant
set_limits none none grant = err limits_refused
set_limits per_hour per_day grant = change_limits per_hour per_day grant

-- a text that is not empty
unfoldable pub text_field : String → Grant → Result PolicyError String
text_field key grant = elim (Dict.get key grant) [
  | some (str s) ↦ if s == "" then err invalid else ok s
  | _ ↦ err invalid
]

-- _safe_id
unfoldable pub safe_id : Option Json → Result PolicyError String
safe_id (some (str s)) = if is_grant_id s then ok s else err invalid
safe_id _ = err invalid

abbrev pub is_int : Option Json → Bool
is_int (some (int n)) = true
is_int _ = false

abbrev pub is_this : String → Option Json → Bool
is_this s (some (str t)) = t == s
is_this s _ = false

unfoldable pub check_overrides : Option Json → Result PolicyError (Unit {0})
check_overrides none = ok tt
check_overrides (some v) = do out ← checked_overrides v; ok tt

unfoldable pub check_enabled : Option Json → Result PolicyError (Unit {0})
check_enabled (some (bool true)) = ok tt
check_enabled (some (bool false)) = err disabled
check_enabled _ = err invalid

abbrev past : ℤ → ℤ → Result PolicyError (Unit {0})
past now until = if leb_ℤ until now then err expired else ok tt

-- a bool is no expiry, though it is a number
unfoldable pub is_expiry : Json → Bool
is_expiry (int n) = true
is_expiry (float x) = true
is_expiry (str s) = true
is_expiry _ = false

unfoldable pub check_expiry :
    (String → Option Float) → ℤ → Option Json → Result PolicyError (Unit {0})
unfolding is_expiry
check_expiry of_text now none = err invalid
check_expiry of_text now (some null) = ok tt
check_expiry of_text now (some v) =
    if is_expiry v
    then elim (to_float of_text v) [ ok (finite until) ↦ past now until | _ ↦ err invalid ]
    else err invalid

-- validate(grant, now=now)
unfoldable pub validate :
    (Text → String) → (String → Option Float) → ℤ → Grant → Result PolicyError (Unit {0})
validate digest of_text now grant = do
  gid ← safe_id (Dict.get "grant_id" grant)
  platform ← text_field "platform" grant
  chat ← text_field "chat_id" grant
  require (is_int (Dict.get "created" grant)) invalid
  require (is_this (binding_key digest platform chat) (Dict.get "binding_key" grant)) invalid
  check_overrides (Dict.get "overrides" grant)
  check_enabled (Dict.get "enabled" grant)
  check_expiry of_text now (Dict.get "expiry" grant)

-- What lstat says of a ready marker or a payload: `loose` is open to group or other.
pub data Marker : Type 0 where
  absent lookup_failed irregular loose ready : Marker

pub data Payload : Type 0 where
  no_payload irregular_payload loose_payload unopenable unreadable : Payload
  parsed : Json → Payload

-- the two files of one id
pub record GrantFile : Type 0 where
  pub marker : Marker
  pub payload : Payload

-- _read_regular
unfoldable pub read_regular : Payload → Result PolicyError Grant
read_regular no_payload = err missing
read_regular irregular_payload = err corrupt
read_regular loose_payload = err invalid
read_regular unopenable = err missing
read_regular unreadable = err corrupt
read_regular (parsed (obj (field k v fs))) = ok ((k, v) ∷ fields_dict fs)
read_regular (parsed _) = err corrupt

-- _read_published
unfoldable pub read_published : String → GrantFile → Result PolicyError Grant
unfolding read_regular
read_published gid f = elim f.marker [
  | absent ↦ err missing
  | lookup_failed ↦ err persist_failed
  | irregular ↦ err missing
  | loose ↦ err invalid
  | ready ↦ do
    grant ← read_regular f.payload
    require (is_this gid (Dict.get "grant_id" grant)) invalid
    ok grant
]

-- The grants directory by id; `none` where it is missing or unusable, with the error that says so.
abbrev pub GrantsDir : Type 0
GrantsDir = Result PolicyError (Dict GrantFile)

-- load(state, grant_id)
unfoldable pub load : GrantsDir → String → Result PolicyError Grant
load dir gid = do
  safe ← safe_id (some (str gid))
  files ← dir
  elim (Dict.get gid files) [ none ↦ err missing | some f ↦ read_published gid f ]

abbrev pub has_payload : Payload → Bool
has_payload no_payload = false
has_payload _ = true

-- what one entry of the directory adds: a payload with no marker is passed over
unfoldable pub entry_grant : String → GrantFile → Result PolicyError (Option Grant)
entry_grant gid f =
    if not (is_grant_id gid && has_payload f.payload)
    then ok none
    else elim (read_published gid f) [
      | ok grant ↦ ok (some grant)
      | err e ↦ elim f.marker [ absent ↦ ok none | lookup_failed ↦ err persist_failed | _ ↦ err e ]
    ]

abbrev pub is_for : String → String → Grant → Bool
is_for platform chat grant =
    is_this platform (Dict.get "platform" grant) && is_this chat (Dict.get "chat_id" grant)

abbrev add_found : String → String → Option Grant → List Grant → List Grant
add_found platform chat none found = found
add_found platform chat (some grant) found =
    if is_for platform chat grant then grant ∷ found else found

-- the loop of require_granted
unfoldable pub find_grants : String → String → Dict GrantFile → Result PolicyError (List Grant)
find_grants platform chat [] = ok []
find_grants platform chat ((gid, f) ∷ rest) = do
  entry ← entry_grant gid f
  found ← find_grants platform chat rest
  ok (add_found platform chat entry found)

abbrev pub is_enabled : Grant → Bool
is_enabled grant = elim (Dict.get "enabled" grant) [ some (bool b) ↦ b | _ ↦ false ]

-- the tests on what was found
unfoldable pub choose : List Grant → List Grant → Result PolicyError Grant
choose [] enabled = err missing
choose (g ∷ found) [] = err disabled
choose (g ∷ found) (e ∷ []) = ok e
choose (g ∷ found) (e ∷ e' ∷ enabled) = err invalid

-- require_granted(state, platform, chat_id)
unfoldable pub require_granted :
    (Text → String)
    → (String → Option Float)
    → ℤ
    → GrantsDir
    → String
    → String
    → Result PolicyError Grant
require_granted digest of_text now dir platform chat = do
  files ← dir
  found ← find_grants platform chat files
  grant ← choose found (filter_by is_enabled found)
  valid ← validate digest of_text now grant
  ok grant
