-- ===== src/Destinations/Examples.antt =====
-- A label bound to a grant.
use agent_letter_bridge.Prelude.{String, ◌≡◌, refl, [], ◌∷◌, ok}
use agent_letter_bridge.Prelude.Dict
use agent_letter_bridge.Prelude.Number.{is_digit}
use agent_letter_bridge.Prelude.Text.{eq_text, starts_with}
use agent_letter_bridge.Json.{str}
use agent_letter_bridge.Grant.{safe_id, is_grant_id, is_hex}
use agent_letter_bridge.Ids.{check_label, is_raw_chat, is_label}
use agent_letter_bridge.Destinations.{LabelsFile, no_record, labels_file, bind_label, load_labels}

abbrev grant_id : String
grant_id = "0123456789abcdef0123456789abcdef"

abbrev bound : LabelsFile
bound = labels_file (("home", str grant_id) ∷ [])

binds_home : bind_label no_record (str "home") (str grant_id) ≡ ok bound
unfolding bind_label check_label is_raw_chat is_digit is_label safe_id is_grant_id is_hex
    load_labels Dict.put eq_text starts_with
binds_home = refl
