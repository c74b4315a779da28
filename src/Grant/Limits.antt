-- ===== src/Grant/Limits.antt =====
-- What set_limits leaves behind: the new limits are in effect and in range, and no other key moves
-- where the overrides were a dict.
use agent_letter_bridge.Prelude.{
  ℕ, ◌≤◌, String, ◌≡◌, ◌⊎◌, refl, ap, subst, ◌∙◌, Bool, true, false, not, Option, none, some, [],
  ◌∷◌, ok, ◌>>=◌, >>=-eq-ok, eq_refl, arith, eq_iff, Bool-cases, Option-cases, inl, inr,
  if◌then◌else◌, ◌==◌, require,
}
use agent_letter_bridge.Prelude.Dict
use agent_letter_bridge.Prelude.Dict.{Dict, get-put, get-nil}
use agent_letter_bridge.Prelude.Int.{ℤ, pos, negsuc, ◌≤ℤ◌}
use agent_letter_bridge.Json.{
  Json, Items, null, bool, float, str, arr, nil, cons, finite, int, obj, fields_dict,
}
use agent_letter_bridge.Grant.{
  Grant, policy, same_type, is_override, checked_fields, effective, overrides_in, limit_int,
  with_limit, limit_after, json_lt, dict_fields, change_limits, set_limits, overrides_copy,
  limits_refused, Copy, put_elements, checked_copy,
}

fields_dict-dict_fields : (d : Dict Json) → fields_dict (dict_fields d) ≡ d
fields_dict-dict_fields [] = refl
fields_dict-dict_fields ((k, v) ∷ d) =
    ap (λ (e : Dict Json). (k, v) ∷ e) (fields_dict-dict_fields d)

checked_fields-cons :
    (k : String) (v : Json) (d r : Dict Json)
    → checked_fields ((k, v) ∷ d) ≡ ok r
    → (is_override k v ≡ true)
      × (out : Dict Json) × (checked_fields d ≡ ok out)
      × (r ≡ (k, v) ∷ out)
unfolding checked_fields
checked_fields-cons k v d r h = elim (Bool-cases (is_override k v)) [
  | inl e ↦
      let step : (checked_fields d >>= λ out. ok ((k, v) ∷ out)) ≡ ok r = ground (arith, e) in
      let (out, a, b) = >>=-eq-ok (checked_fields d) (λ out. ok ((k, v) ∷ out)) step in
      (e, out, a, cc)
  | inr e ↦ absurd (ground (arith, e))
]

-- The check returns the dict that it was given.
checked_fields_same : (d r : Dict Json) → checked_fields d ≡ ok r → r ≡ d
checked_fields_same [] r h = unfold checked_fields in cc
checked_fields_same ((k, v) ∷ d) r h =
    let (e, out, a, b) = checked_fields-cons k v d r h in cc (b, checked_fields_same d out a)

checked_fields_override :
    (k : String) (v : Json) (d r : Dict Json)
    → checked_fields d ≡ ok r
    → Dict.get k d ≡ some v
    → is_override k v ≡ true
unfolding Dict.get
checked_fields_override k v [] r h g = absurd (ground arith)
checked_fields_override k v ((j, w) ∷ d) r h g =
    let (e, out, a, b) = checked_fields-cons j w d r h in
    ground (arith, e, eq_iff j k, checked_fields_override k v d out a)

-- An override of an integer limit is an integer.
int_override :
    (k : String) (v : Json) (n : ℕ)
    → policy k ≡ some (int (pos n))
    → is_override k v ≡ true
    → (m : ℤ) × (v ≡ int m)
unfolding is_override same_type
int_override k (int m) n p h = (m, refl)
int_override k v n p h = absurd (ground (arith, p))

effective-known :
    (g : Grant) (k : String) (default : Json)
    → policy k ≡ some default
    → effective g k
      ≡ ok (elim (Dict.get k (overrides_in (Dict.get "overrides" g))) [
        | some v ↦ v
        | none ↦ default
      ])
unfolding effective
effective-known g k default p = ground (arith, p)

-- the steps of a change that succeeds
record Change (per_hour per_day : Option Json) (g g' : Grant) : Type 0 where
  copy : Copy
  with_hour : Dict Json
  new : Dict Json
  hour : Json
  day : Json
  copied : overrides_copy (Dict.get "overrides" g) ≡ ok copy
  hour_set : with_limit "per_hour" per_hour copy.entries ≡ ok with_hour
  day_set : with_limit "per_day" per_day with_hour ≡ ok new
  hour_is : limit_after "per_hour" new g ≡ ok hour
  day_is : limit_after "per_day" new g ≡ ok day
  ordered : json_lt day hour ≡ ok false
  checked : checked_fields new ≡ ok new
  result : g' ≡ Dict.put "overrides" (obj (dict_fields new)) g

not_less : (b : Bool) → require (not b) limits_refused ≡ ok tt → b ≡ false
not_less b h = ground arith

checked_copy-ok :
    (odd : Bool) (d r : Dict Json) → checked_copy odd d ≡ ok r → checked_fields d ≡ ok r
checked_copy-ok true d r h = absurd (cc (h))
checked_copy-ok false d r h = h

change_limits-Change :
    (per_hour per_day : Option Json) (g g' : Grant)
    → change_limits per_hour per_day g ≡ ok g'
    → Change per_hour per_day g g'
unfolding change_limits
change_limits-Change per_hour per_day g g' h =
    let (old, a, h1) = >>=-eq-ok (overrides_copy (Dict.get "overrides" g)) _ h in
    let (with_hour, b, h2) = >>=-eq-ok (with_limit "per_hour" per_hour old.entries) _ h1 in
    let (new, c, h3) = >>=-eq-ok (with_limit "per_day" per_day with_hour) _ h2 in
    let (hour, d, h4) = >>=-eq-ok (limit_after "per_hour" new g) _ h3 in
    let (day, e, h5) = >>=-eq-ok (limit_after "per_day" new g) _ h4 in
    let (less, f, h6) = >>=-eq-ok (json_lt day hour) _ h5 in
    let (u, k, h7) = >>=-eq-ok (require (not less) limits_refused) _ h6 in
    let (checked, odd, h8) = >>=-eq-ok (checked_copy old.has_odd_key new) _ h7 in
    let l = checked_copy-ok old.has_odd_key new checked odd in
    let same : checked ≡ new = checked_fields_same new checked l in
    record {
      copy = old;
      with_hour = with_hour;
      new = new;
      hour = hour;
      day = day;
      copied = a;
      hour_set = b;
      day_set = c;
      hour_is = d;
      day_is = e;
      ordered = f ∙ ap ok (not_less less k);
      checked = l ∙ ap ok same;
      result = cc (h8, same);
    }

-- The overrides are a list with something in it.
abbrev pub HoldsItems : Option Json → Type 0
HoldsItems o = (x : Json) × (xs : Items) × (o ≡ some (arr (cons x xs)))

overrides_copy-in :
    (o : Option Json) (c : Copy)
    → overrides_copy o ≡ ok c
    → (HoldsItems o × (overrides_in o ≡ [])) ⊎ (c.entries ≡ overrides_in o)
unfolding overrides_copy
overrides_copy-in (some (arr (cons x xs))) c h = inl ((x, xs, refl), refl)
overrides_copy-in none c h = inr (ground (arith, h))
overrides_copy-in (some null) c h = inr (ground (arith, h))
overrides_copy-in (some (bool b)) c h = inr (ground (arith, h))
overrides_copy-in (some (int n)) c h = inr (ground (arith, h))
overrides_copy-in (some (float (finite n))) c h = inr (ground (arith, h))
overrides_copy-in (some (float x)) c h = absurd (ground arith)
overrides_copy-in (some (str s)) c h = inr (ground (arith, h))
overrides_copy-in (some (arr nil)) c h = inr (unfold put_elements in ground (arith, h))
overrides_copy-in (some (obj fs)) c h = inr (ground (arith, h))

-- A limit that is given: an integer from 1 to 1000.
abbrev pub InRange : Json → Type 0
InRange v = (n : ℕ) × (v ≡ int (pos n)) × (1 ≤ n) × (n ≤ 1000)

limit_int-InRange : (v n : Json) → limit_int v ≡ ok n → (n ≡ v) × InRange v
unfolding limit_int
limit_int-InRange (int (pos n)) r h = (ground arith, (n, refl, ground arith, ground arith))
limit_int-InRange (int (negsuc n)) r h = absurd (ground arith)
limit_int-InRange v r h = absurd (ground arith)

abbrev given_or : Option Json → Option Json → Option Json
given_or (some v) old = some v
given_or none old = old

with_limit-get :
    (key : String) (o : Option Json) (d d' : Dict Json) (k : String)
    → with_limit key o d ≡ ok d'
    → Dict.get k d' ≡ (if key == k then given_or o (Dict.get k d) else Dict.get k d)
unfolding with_limit
with_limit-get key none d d' k h = ground arith
with_limit-get key (some v) d d' k h =
    let (n, a, b) = >>=-eq-ok (limit_int v) _ h in
    ground (arith, limit_int-InRange v n a, get-put k key v d, b)

with_limit-InRange :
    (key : String) (v : Json) (d d' : Dict Json) → with_limit key (some v) d ≡ ok d' → InRange v
unfolding with_limit
with_limit-InRange key v d d' h =
    let (n, a, b) = >>=-eq-ok (limit_int v) _ h in (limit_int-InRange v n a).1

-- Scaled integers compare as the integers do.
json_lt-int : (a b : ℤ) → json_lt (int a) (int b) ≡ ok false → b ≤ℤ a
unfolding json_lt
json_lt-int (pos a) (pos b) h = ground arith
json_lt-int (pos a) (negsuc b) h = ground arith
json_lt-int (negsuc a) (pos b) h = ground arith
json_lt-int (negsuc a) (negsuc b) h = ground arith

module _ {per_hour per_day : Option Json} {g g' : Grant} (c : Change per_hour per_day g g') where
  new-get :
      (k : String)
      → Dict.get k c.new ≡ (
          if "per_day" == k
          then given_or per_day (Dict.get k c.with_hour)
          else if "per_hour" == k
          then given_or per_hour (Dict.get k c.copy.entries)
          else Dict.get k c.copy.entries)
  new-get k = ground (
    arith,
    with_limit-get "per_day" per_day c.with_hour c.new k c.day_set,
    with_limit-get "per_hour" per_hour c.copy.entries c.with_hour k c.hour_set,
  )

  effective_after :
      (k : String) (default : Json)
      → policy k ≡ some default
      → effective g' k ≡ ok (elim (Dict.get k c.new) [ some v ↦ v | none ↦ default ])
  effective_after k default p = ground (
    arith,
    effective-known g' k default p,
    c.result,
    get-put "overrides" "overrides" (obj (dict_fields c.new)) g,
    eq_refl "overrides",
    fields_dict-dict_fields c.new,
  )

  effective_before :
      (k : String) (default : Json)
      → policy k ≡ some default
      → c.copy.entries ≡ overrides_in (Dict.get "overrides" g)
      → effective g k ≡ ok (elim (Dict.get k c.copy.entries) [ some v ↦ v | none ↦ default ])
  effective_before k default p e = ground (arith, effective-known g k default p, e)

  kept_by :
      c.copy.entries ≡ overrides_in (Dict.get "overrides" g)
      → (k : String) → ("per_hour" == k) ≡ false
      → ("per_day" == k) ≡ false
      → effective g' k ≡ effective g k
  kept_by same k h d = elim (Option-cases (policy k)) [
    | inl e ↦ unfold effective in ground (arith, e)
    | inr (default, e) ↦
        ground
          (arith, effective_after k default e, effective_before k default e same, new-get k, h, d)
  ]

  others_kept :
      HoldsItems (Dict.get "overrides" g)
      ⊎ ((k : String)
          → ("per_hour" == k) ≡ false
          → ("per_day" == k) ≡ false
          → effective g' k ≡ effective g k)
  others_kept = elim (overrides_copy-in (Dict.get "overrides" g) c.copy c.copied) [
    | inl (items, e) ↦ inl items
    | inr same ↦ inr (kept_by same)
  ]

  default_before :
      (k : String) (default : Json)
      → policy k ≡ some default
      → Dict.get k c.copy.entries ≡ none
      → effective g k ≡ ok default
  default_before k default p h = elim (overrides_copy-in (Dict.get "overrides" g) c.copy c.copied) [
    | inl (items, e) ↦ ground (arith, effective-known g k default p, e, get-nil {V = Json} k)
    | inr same ↦ ground (arith, effective_before k default p same, h)
  ]

  int_after :
      (k : String) (n : ℕ) → policy k ≡ some (int (pos n)) → (m : ℤ) × (effective g' k ≡ ok (int m))
  int_after k n p = elim (Option-cases (Dict.get k c.new)) [
    | inl e ↦ (pos n, ground (arith, effective_after k (int (pos n)) p, e))
    | inr (v, e) ↦
        let (m, i) = int_override k v n p (checked_fields_override k v c.new c.new c.checked e) in
        (m, ground (arith, effective_after k (int (pos n)) p, e, i))
  ]

  old_absent : (k : String) → Dict.get k c.new ≡ none → Dict.get k c.copy.entries ≡ none
  old_absent k h =
      ground (
        arith,
        new-get k,
        with_limit-get "per_hour" per_hour c.copy.entries c.with_hour k c.hour_set,
      )

  in_effect :
      (k : String) (default v : Json)
      → policy k ≡ some default
      → limit_after k c.new g ≡ ok v
      → effective g' k ≡ ok v
  unfolding limit_after
  in_effect k default v p h = elim (Option-cases (Dict.get k c.new)) [
    | inl e ↦
        ground (arith, e, effective_after k default p, default_before k default p (old_absent k e))
    | inr (w, e) ↦ ground (arith, e, effective_after k default p)
  ]

  hour_in_effect : effective g' "per_hour" ≡ ok c.hour
  hour_in_effect = in_effect "per_hour" (int (pos 30)) c.hour (unfold policy in refl) c.hour_is

  day_in_effect : effective g' "per_day" ≡ ok c.day
  day_in_effect = in_effect "per_day" (int (pos 300)) c.day (unfold policy in refl) c.day_is

  ordered_after :
      (h d : ℤ)
      → effective g' "per_hour" ≡ ok (int h)
      → effective g' "per_day" ≡ ok (int d)
      → h ≤ℤ d
  ordered_after h d eh ed = json_lt-int d h (cc (c.ordered, hour_in_effect, day_in_effect))

  given_hour : (v : Json) → per_hour ≡ some v → (effective g' "per_hour" ≡ ok v) × InRange v
  given_hour v e = (
    ground (
      arith,
      effective_after "per_hour" (int (pos 30)) (unfold policy in refl),
      new-get "per_hour",
      with_limit-get "per_hour" per_hour c.copy.entries c.with_hour "per_hour" c.hour_set,
      e,
    ),
    with_limit-InRange "per_hour" v c.copy.entries c.with_hour (
        subst (λ (o : Option Json). with_limit "per_hour" o c.copy.entries ≡ ok c.with_hour) e
          c.hour_set),
  )

  given_day : (v : Json) → per_day ≡ some v → (effective g' "per_day" ≡ ok v) × InRange v
  given_day v e = (
    ground (
      arith,
      effective_after "per_day" (int (pos 300)) (unfold policy in refl),
      new-get "per_day",
      e,
    ),
    with_limit-InRange "per_day" v c.with_hour c.new
        (subst (λ (o : Option Json). with_limit "per_day" o c.with_hour ≡ ok c.new) e c.day_set),
  )

set_limits-Change :
    (per_hour per_day : Option Json) (g g' : Grant)
    → set_limits per_hour per_day g ≡ ok g'
    → Change per_hour per_day g g'
unfolding set_limits
set_limits-Change none none g g' h = absurd (ground arith)
set_limits-Change (some v) d g g' h = change_limits-Change (some v) d g g' h
set_limits-Change none (some v) g g' h = change_limits-Change none (some v) g g' h

-- After a set_limits that succeeds both limits in effect are integers, the hour's at most the day's.
-- A limit that was given is an integer from 1 to 1000 and is the one in effect. What is in effect for
-- every other key is what was, unless the overrides were a list with something in it.
pub set_limits_lem :
    (per_hour per_day : Option Json) (g g' : Grant)
    → set_limits per_hour per_day g ≡ ok g'
    → (h : ℤ) × (d : ℤ) × (effective g' "per_hour" ≡ ok (int h))
      × (effective g' "per_day" ≡ ok (int d))
      × (h ≤ℤ d)
      × ((v : Json) → per_hour ≡ some v → (effective g' "per_hour" ≡ ok v) × InRange v)
      × ((v : Json) → per_day ≡ some v → (effective g' "per_day" ≡ ok v) × InRange v)
      × (HoldsItems (Dict.get "overrides" g)
          ⊎ ((k : String)
              → ("per_hour" == k) ≡ false
              → ("per_day" == k) ≡ false
              → effective g' k ≡ effective g k))
set_limits_lem per_hour per_day g g' done =
    let c = set_limits-Change per_hour per_day g g' done in
    let (h, eh) = int_after c "per_hour" 30 (unfold policy in refl) in
    let (d, ed) = int_after c "per_day" 300 (unfold policy in refl) in
    (h, d, eh, ed, ordered_after c h d eh ed, given_hour c, given_day c, others_kept c)
