-- ===== src/Grant/Authority.antt =====
-- What a grant must be for a message to be originated under it.
use agent_letter_bridge.Prelude.{
  String, ◌≡◌, ◌↔◌, ◌⊎◌, refl, ap, Bool, true, false, Option, none, some, ok, >>=-eq-ok,
  Result-cases, arith, eq_iff, eq_refl, inl, inr, ◌==◌, require,
}
use agent_letter_bridge.Prelude.Dict
use agent_letter_bridge.Prelude.Dict.{Dict}
use agent_letter_bridge.Prelude.Int.{ℤ, ◌<ℤ◌}
use agent_letter_bridge.Prelude.Text.{Text}
use agent_letter_bridge.Json.{Json, null, bool, str, Float, finite, to_float}
use agent_letter_bridge.Grant.{
  PolicyError, Grant, invalid, is_grant_id, binding_key, validate, safe_id, text_field, is_int,
  is_this, check_overrides, check_enabled, check_expiry, is_expiry,
}

safe_id-ok :
    (o : Option Json) (s : String) → safe_id o ≡ ok s → (o ≡ some (str s)) × (is_grant_id s ≡ true)
unfolding safe_id
safe_id-ok (some (str t)) s h = ground arith
safe_id-ok (some null) s h = absurd (ground arith)
safe_id-ok none s h = absurd (ground arith)
safe_id-ok (some j) s h = absurd (ground arith)

text_field-ok :
    (key : String) (g : Grant) (s : String)
    → text_field key g ≡ ok s
    → (Dict.get key g ≡ some (str s)) × ((s == "") ≡ false)
unfolding text_field
text_field-ok key g s h = ground arith

is_this-eq : (s : String) (o : Option Json) → is_this s o ≡ true → o ≡ some (str s)
is_this-eq s (some (str t)) h = ap (λ (u : String). some (str u)) ((eq_iff t s).0 h)
is_this-eq s none h = absurd (ground arith)
is_this-eq s (some j) h = absurd (ground arith)

check_enabled-ok : (o : Option Json) → check_enabled o ≡ ok tt → o ≡ some (bool true)
unfolding check_enabled
check_enabled-ok (some (bool true)) h = refl
check_enabled-ok none h = absurd (ground arith)
check_enabled-ok (some j) h = absurd (ground arith)

-- No expiry, or one that reads as a finite time later than `now`.
abbrev pub IsUnexpired : (String → Option Float) → ℤ → Option Json → Type 0
IsUnexpired of_text now o =
    (o ≡ some null)
    ⊎ ((v : Json) × (until : ℤ) × (o ≡ some v)
        × (is_expiry v ≡ true)
        × (to_float of_text v ≡ ok (finite until))
        × (now <ℤ until))

expiry_value :
    (of_text : String → Option Float) (now : ℤ) (v : Json)
    → check_expiry of_text now (some v) ≡ ok tt
    → IsUnexpired of_text now (some v)
unfolding check_expiry
expiry_value of_text now null h = inl refl
expiry_value of_text now v h = elim (Result-cases (to_float of_text v)) [
  | inl (finite until, e) ↦ inr (v, until, refl, ground (arith, e), e, ground (arith, e))
  | inl (x, e) ↦ absurd (ground (arith, e))
  | inr (x, e) ↦ absurd (ground (arith, e))
]

check_expiry-ok :
    (of_text : String → Option Float) (now : ℤ) (o : Option Json)
    → check_expiry of_text now o ≡ ok tt
    → IsUnexpired of_text now o
check_expiry-ok of_text now none h = absurd (unfold check_expiry in ground arith)
check_expiry-ok of_text now (some v) h = expiry_value of_text now v h

-- A grant that may be used at the time `now`: a well-formed id, a platform and a chat that its
-- binding key is derived from, switched on, and not expired.
pub record IsValid (digest : Text → String) (of_text : String → Option Float) (now : ℤ) (g : Grant)
    : Type 0 where
  pub gid : String
  pub platform : String
  pub chat : String
  pub has_id : (Dict.get "grant_id" g ≡ some (str gid)) × (is_grant_id gid ≡ true)
  pub has_platform : (Dict.get "platform" g ≡ some (str platform)) × ((platform == "") ≡ false)
  pub has_chat : (Dict.get "chat_id" g ≡ some (str chat)) × ((chat == "") ≡ false)
  pub is_created : is_int (Dict.get "created" g) ≡ true
  pub bound : Dict.get "binding_key" g ≡ some (str (binding_key digest platform chat))
  pub overrides_ok : check_overrides (Dict.get "overrides" g) ≡ ok tt
  pub enabled : Dict.get "enabled" g ≡ some (bool true)
  pub unexpired : IsUnexpired of_text now (Dict.get "expiry" g)

require-ok : (b : Bool) (e : PolicyError) → require b e ≡ ok tt → b ≡ true
require-ok true e h = refl
require-ok false e h = absurd (ground arith)

module _ (digest : Text → String) (of_text : String → Option Float) (now : ℤ) (g : Grant) where
  -- `validate` accepts only such grants.
  validate_sound : validate digest of_text now g ≡ ok tt → IsValid digest of_text now g
  unfolding validate
  validate_sound h =
      let (gid, a, h1) = >>=-eq-ok (safe_id (Dict.get "grant_id" g)) _ h in
      let (platform, b, h2) = >>=-eq-ok (text_field "platform" g) _ h1 in
      let (chat, c, h3) = >>=-eq-ok (text_field "chat_id" g) _ h2 in
      let (u, d, h4) = >>=-eq-ok (require (is_int (Dict.get "created" g)) invalid) _ h3 in
      let (u, e, h5) =
        >>=-eq-ok
          (require (is_this (binding_key digest platform chat) (Dict.get "binding_key" g)) invalid)
          _ h4 in
      let (u, f, h6) = >>=-eq-ok (check_overrides (Dict.get "overrides" g)) _ h5 in
      let (u, k, h7) = >>=-eq-ok (check_enabled (Dict.get "enabled" g)) _ h6 in
      record {
        gid = gid;
        platform = platform;
        chat = chat;
        has_id = safe_id-ok (Dict.get "grant_id" g) gid a;
        has_platform = text_field-ok "platform" g platform b;
        has_chat = text_field-ok "chat_id" g chat c;
        is_created = require-ok _ invalid d;
        bound = is_this-eq _ (Dict.get "binding_key" g) (require-ok _ invalid e);
        overrides_ok = f;
        enabled = check_enabled-ok (Dict.get "enabled" g) k;
        unexpired = check_expiry-ok of_text now (Dict.get "expiry" g) h7;
      }

  unexpired_passes :
      (o : Option Json) → IsUnexpired of_text now o → check_expiry of_text now o ≡ ok tt
  unfolding check_expiry is_expiry
  unexpired_passes o (inl e) = rw e
  unexpired_passes o (inr (null, until, e, x, t, l)) = absurd (ground arith)
  unexpired_passes o (inr (v, until, e, x, t, l)) = rw e (ground (arith, t, x))

  validate_complete : IsValid digest of_text now g → validate digest of_text now g ≡ ok tt
  unfolding validate safe_id text_field check_enabled
  validate_complete v = ground (
    arith,
    v.has_id,
    v.has_platform,
    v.has_chat,
    v.is_created,
    v.bound,
    v.overrides_ok,
    v.enabled,
    eq_refl (binding_key digest v.platform v.chat),
    unexpired_passes (Dict.get "expiry" g) v.unexpired,
  )

  -- `validate` accepts exactly the grants with a well-formed id, a platform, a chat, a creation time,
  -- the binding key of these two, overrides that the policy knows, `enabled` true, and either no
  -- expiry or a finite one later than `now`.
  pub validate_iff : (validate digest of_text now g ≡ ok tt) ↔ IsValid digest of_text now g
  validate_iff = (validate_sound, validate_complete)
