-- ===== src/Destinations/Labels.antt =====
-- What a label resolves to after it is bound.
use agent_letter_bridge.Prelude.{
  String, ◌≡◌, refl, sym, ap, ◌∙◌, subst, Bool, true, false, Option, some, [], ◌∷◌, Result, ok, err,
  ◌>>=◌, >>=-eq-ok, ◌==◌, if◌then◌else◌, arith, inl, inr, Bool-cases, eq_iff,
}
use agent_letter_bridge.Prelude.Dict
use agent_letter_bridge.Prelude.Dict.{Dict, get-put}
use agent_letter_bridge.Json.{Json, str, fields_dict}
use agent_letter_bridge.Grant.{PolicyError, safe_id}
use agent_letter_bridge.Ids.{UsageError, check_label}
use agent_letter_bridge.Destinations.{
  LabelsFile, LabelError, load_labels, if_label, if_grant, grant_named, resolve_label, dict_fields,
  labels_file, bind_label,
}

fields_dict-dict_fields : (d : Dict Json) → fields_dict (dict_fields d) ≡ d
fields_dict-dict_fields [] = refl
fields_dict-dict_fields ((k, v) ∷ d) =
    ap (λ (e : Dict Json). (k, v) ∷ e) (fields_dict-dict_fields d)

load_labels-labels_file : (d : Dict Json) → load_labels (labels_file d) ≡ d
unfolding load_labels Dict.get
load_labels-labels_file d = fields_dict-dict_fields d

if_label-ok : (r : Result UsageError String) {s : String} → if_label r ≡ ok s → r ≡ ok s
if_label-ok (ok t) e = cc (e)
if_label-ok (err x) e = absurd (cc (e))

if_grant-ok : (r : Result PolicyError String) {s : String} → if_grant r ≡ ok s → r ≡ ok s
if_grant-ok (ok t) e = cc (e)
if_grant-ok (err x) e = absurd (cc (e))

-- a checked label is the label, a safe id the id
check_label-same : (label l : String) → check_label (str label) ≡ ok l → label ≡ l
unfolding check_label
check_label-same label l e = ground (arith, e)

safe_id-same : (g s : String) → safe_id (some (str g)) ≡ ok s → g ≡ s
unfolding safe_id
safe_id-same g s e = ground (arith, e)

put-named :
    (b : Bool) (g : String) (v : Option Json)
    → safe_id (some (str g)) ≡ ok g
    → grant_named (if b then some (str g) else v) ≡ (if b then ok g else grant_named v)
put-named true g v s = ap if_grant s
put-named false g v s = refl

resolve-labels_file :
    (label l g other : String) (table : Dict Json)
    → check_label (str label) ≡ ok l
    → safe_id (some (str g)) ≡ ok g
    → (r : Result UsageError String) → check_label (str other) ≡ r
    → (if_label r >>= (λ m. grant_named (Dict.get m (Dict.put l (str g) table))))
      ≡ (if label == other then ok g else (if_label r >>= (λ m. grant_named (Dict.get m table))))
resolve-labels_file label l g other table c s (err e) q = elim (Bool-cases (label == other)) [
  | inl h ↦ absurd (cc (check_of ((eq_iff label other).0 h), q, c))
  | inr h ↦ rw h refl
]
  where
    check_of : label ≡ other → check_label (str label) ≡ check_label (str other)
    check_of same = ap (λ x. check_label (str x)) same
resolve-labels_file label l g other table c s (ok m) q =
    ap grant_named (get-put m l (str g) table)
    ∙ put-named (l == m) g (Dict.get m table) s
    ∙ ap (λ (x : String). if x == m then ok g else grant_named (Dict.get m table))
        (sym (check_label-same label l c))
    ∙ ap (λ (x : String). if label == x then ok g else grant_named (Dict.get m table))
        (sym (check_label-same other m q))

abbrev ok_file : LabelsFile → Result LabelError LabelsFile
ok_file f = ok f

-- A label that is bound resolves to its grant, and every other label as it did before.
pub resolve_label-bind_label :
    (file file' : LabelsFile) (label grant_id other : String)
    → bind_label file (str label) (str grant_id) ≡ ok file'
    → resolve_label file' (str other)
      ≡ (if label == other then ok grant_id else resolve_label file (str other))
unfolding bind_label resolve_label
resolve_label-bind_label file file' label grant_id other h =
    let (l, a, h) = >>=-eq-ok (if_label (check_label (str label))) _ h in
    let (g, b, h) = >>=-eq-ok (if_grant (safe_id (some (str grant_id)))) _ h in
    let same = safe_id-same grant_id g (if_grant-ok _ b) in
    let safe : safe_id (some (str grant_id)) ≡ ok grant_id = if_grant-ok _ b ∙ ap ok (sym same) in
    let written : labels_file (Dict.put l (str grant_id) (load_labels file)) ≡ file' =
      ap (λ (x : String). labels_file (Dict.put l (str x) (load_labels file))) same
      ∙ written_file h in
    subst
      (λ (f : LabelsFile).
        resolve_label f (str other)
        ≡ (if label == other then ok grant_id else resolve_label file (str other)))
      written
      (ap
          (λ (t : Dict Json).
            if_label (check_label (str other)) >>= (λ m. grant_named (Dict.get m t)))
          (load_labels-labels_file (Dict.put l (str grant_id) (load_labels file)))
        ∙ resolve-labels_file label l grant_id other (load_labels file) (if_label-ok _ a) safe
            (check_label (str other)) refl)
  where
    written_file : {f : LabelsFile} → ok_file f ≡ ok file' → f ≡ file'
    written_file e = cc (e)
