-- ===== src/Destinations.antt =====
-- alb/initiate/destinations.py: the operator's labels for grants. A file that holds no record is as good
-- as none.
pub mod Labels
mod Examples
use agent_letter_bridge.Prelude.{String, Option, none, some, List, [], ◌∷◌, Result, ok, err, ◌>>=◌}
use agent_letter_bridge.Prelude.Dict
use agent_letter_bridge.Prelude.Dict.{Dict}
use agent_letter_bridge.Json.{Json, obj, str, Fields, field, end, fields_dict}
use agent_letter_bridge.Grant.{PolicyError, safe_id}
use agent_letter_bridge.Ids.{UsageError, check_label}

pub data LabelsFile : Type 0 where
  no_record : LabelsFile
  holds : Json → LabelsFile

pub data LabelError : Type 0 where
  unknown_label : LabelError
  label_refused : UsageError → LabelError
  grant_refused : PolicyError → LabelError

-- `table if isinstance(table, dict) else {}`
abbrev pub table_of : Option Json → Dict Json
table_of (some (obj fs)) = fields_dict fs
table_of _ = []

-- _load(state)
unfoldable pub load_labels : LabelsFile → Dict Json
load_labels (holds (obj fs)) = table_of (Dict.get "labels" (fields_dict fs))
load_labels _ = []

abbrev pub if_label : Result UsageError String → Result LabelError String
if_label (ok s) = ok s
if_label (err e) = err (label_refused e)

abbrev pub if_grant : Result PolicyError String → Result LabelError String
if_grant (ok s) = ok s
if_grant (err e) = err (grant_refused e)

-- the grant id under a label, which must be a text that is safe
abbrev pub grant_named : Option Json → Result LabelError String
grant_named (some (str g)) = if_grant (safe_id (some (str g)))
grant_named _ = err unknown_label

-- resolve(state, label)
unfoldable pub resolve_label : LabelsFile → Json → Result LabelError String
resolve_label file label = do
  l ← if_label (check_label label)
  grant_named (Dict.get l (load_labels file))

abbrev pub dict_fields : Dict Json → Fields
dict_fields [] = end
dict_fields ((k, v) ∷ d) = field k v (dict_fields d)

-- `{"labels": table}`, as it is written
abbrev pub labels_file : Dict Json → LabelsFile
labels_file table = holds (obj (field "labels" (obj (dict_fields table)) end))

-- bind(state, label, grant_id)
unfoldable pub bind_label : LabelsFile → Json → Json → Result LabelError LabelsFile
bind_label file label grant_id = do
  l ← if_label (check_label label)
  g ← if_grant (safe_id (some grant_id))
  ok (labels_file (Dict.put l (str g) (load_labels file)))

-- unbind(state, label)
unfoldable pub unbind_label : LabelsFile → Json → Result LabelError LabelsFile
unbind_label file label = do
  l ← if_label (check_label label)
  ok (labels_file (Dict.pop l (load_labels file)))
