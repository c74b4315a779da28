-- ===== src/Grant/Examples.antt =====
-- A grant, its limits and its directory at concrete values.
use agent_letter_bridge.Prelude.{
  ◌⊎◌, String, ◌≡◌, ◌↔◌, refl, true, false, Option, none, some, [], ◌∷◌, ok, ◌==◌,
}
use agent_letter_bridge.Prelude.Dict
use agent_letter_bridge.Prelude.Dict.{Dict}
use agent_letter_bridge.Prelude.Int.{ℤ, pos, ◌≤ℤ◌}
use agent_letter_bridge.Prelude.Text.{Text}
use agent_letter_bridge.Json.{
  Json, null, bool, int, str, obj, arr, cons, nil, Fields, field, end, fields_dict, Float,
}
use agent_letter_bridge.Grant.{
  Grant, effective, set_limits, change_limits, with_limit, limit_after, json_lt, checked_fields,
  is_override, policy, same_type, limit_int, overrides_copy, put_elements, put_element, validate,
  GrantFile, ready, parsed, require_granted, GrantsDir, is_enabled, find_grants, choose,
  entry_grant, read_published, is_grant_id, safe_id, text_field, check_overrides, check_enabled,
  check_expiry, binding_key, is_hex,
}
use agent_letter_bridge.Grant.Limits.{HoldsItems, InRange, set_limits_lem}
use agent_letter_bridge.Grant.Authority.{IsValid, validate_iff}
use agent_letter_bridge.Grant.Granted.{IsPublished, require_granted_lem}

abbrev gid : String
gid = "0123456789abcdef0123456789abcdef"

abbrev digest : Text → String
digest t = "b1"

abbrev of_text : String → Option Float
of_text s = none

abbrev record_of : Fields
record_of = field "grant_id" (str gid) (
    field "platform" (str "telegram") (
      field "chat_id" (str "42") (
        field "enabled" (bool true) (
          field "created" (int (pos 1000))
            (field "expiry" null (field "binding_key" (str "b1") end))))))

abbrev grant : Grant
grant = fields_dict record_of

abbrev limited : Grant
limited = Dict.put "overrides" (obj (field "per_hour" (int (pos 3)) end)) grant

hour_limit : set_limits (some (int (pos 3))) none grant ≡ ok limited
unfolding set_limits change_limits with_limit limit_after effective json_lt checked_fields
    is_override policy same_type limit_int overrides_copy Dict.get Dict.put
hour_limit = refl

set_limits_lem_example :
    (h : ℤ) × (d : ℤ) × (effective limited "per_hour" ≡ ok (int h))
    × (effective limited "per_day" ≡ ok (int d))
    × (h ≤ℤ d)
    × ((v : Json) → some (int (pos 3)) ≡ some v → (effective limited "per_hour" ≡ ok v) × InRange v)
    × ((v : Json) → none ≡ some v → (effective limited "per_day" ≡ ok v) × InRange v)
    × (HoldsItems (Dict.get "overrides" grant)
        ⊎ ((k : String)
            → ("per_hour" == k) ≡ false
            → ("per_day" == k) ≡ false
            → effective limited k ≡ effective grant k))
set_limits_lem_example = set_limits_lem (some (int (pos 3))) none grant limited hour_limit

-- overrides that were edited by hand into a list of pairs are not in effect, and are made so
abbrev paired : Grant
paired =
    Dict.put "overrides" (arr (cons (arr (cons (str "max_queued") (cons (int (pos 9)) nil))) nil))
      grant

abbrev unpaired : Grant
unpaired =
    Dict.put "overrides"
      (obj (field "max_queued" (int (pos 9)) (field "per_hour" (int (pos 3)) end))) grant

pairs_take_effect : set_limits (some (int (pos 3))) none paired ≡ ok unpaired
unfolding set_limits change_limits with_limit limit_after effective json_lt checked_fields
    is_override policy same_type limit_int overrides_copy put_elements put_element Dict.get Dict.put
pairs_take_effect = refl

queue_before : effective paired "max_queued" ≡ ok (int (pos 5))
unfolding effective policy Dict.get Dict.put
queue_before = refl

queue_after : effective unpaired "max_queued" ≡ ok (int (pos 9))
unfolding effective policy Dict.get Dict.put
queue_after = refl

validate_iff_example :
    (validate digest of_text (pos 5) grant ≡ ok tt) ↔ IsValid digest of_text (pos 5) grant
validate_iff_example = validate_iff digest of_text (pos 5) grant

abbrev files : Dict GrantFile
files = (gid, record { marker = ready; payload = parsed (obj record_of) }) ∷ []

is_granted : require_granted digest of_text (pos 5) (ok files) "telegram" "42" ≡ ok grant
unfolding require_granted find_grants choose entry_grant read_published is_grant_id validate safe_id
    text_field check_overrides check_enabled check_expiry binding_key is_hex Dict.get
is_granted = refl

require_granted_lem_example :
    (fs : Dict GrantFile) × (◌≡◌ {A = GrantsDir} (ok files) (ok fs))
    × IsPublished "telegram" "42" fs grant
    × IsValid digest of_text (pos 5) grant
    × ((other : Grant)
        → IsPublished "telegram" "42" fs other
        → is_enabled other ≡ true
        → other ≡ grant)
require_granted_lem_example =
    require_granted_lem digest of_text (pos 5) (ok files) "telegram" "42" grant is_granted
