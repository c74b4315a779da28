-- ===== src/Outbound/Examples.antt =====
-- Runs of the receipts at concrete inputs.
use agent_letter_bridge.Prelude.TextDict
use agent_letter_bridge.Outbound.Identity.{
  Identities, missing, malformed, salt, no_map, table, correspondent_key, load_map,
  correspondent_salt, now, salt_change, key_is_stable,
}
use agent_letter_bridge.Prelude.{String, ◌≡◌, refl, false, List, [], ◌∷◌, ◌++◌, ok, ◌==◌}
use agent_letter_bridge.Prelude.Dict
use agent_letter_bridge.Prelude.Dict.{Distinct, get-nil}
use agent_letter_bridge.Prelude.Number.{py_int, show}
use agent_letter_bridge.Prelude.Text.{Text, codes, strip, partition}
use agent_letter_bridge.Outbound.{
  Store, names_of, history, composed, sending, dead, bury, record_event, reconcile_at_startup,
  events_of, sort_by_seq, event_path, event_of, is_event_name, seq_key, seq, remove_suffix,
  classify, is_terminal, ends_throttled,
}
use agent_letter_bridge.Outbound.History.{
  IsNumbered, IsNumbered-recorded, recorded, record_event_lem, events,
}
use agent_letter_bridge.Outbound.Startup.{
  AllNumbered, reconcile_at_startup_lem, startup_idempotent, buried, noted, is_stranded,
}

abbrev empty : Store
empty = record { receipts = []; dead_letters = [] }

AllNumbered-empty : AllNumbered empty
unfolding names_of Dict.get
AllNumbered-empty id = tt

abbrev crashed : Store
crashed = recorded "reply-a" sending (recorded "reply-a" composed empty)

AllNumbered-crashed : AllNumbered crashed
AllNumbered-crashed id =
    IsNumbered-recorded id "reply-a" sending (recorded "reply-a" composed empty) (first "reply-a")
      (first id)
  where
    first : (j : String) → IsNumbered (names_of (recorded "reply-a" composed empty) j)
    first j =
        IsNumbered-recorded j "reply-a" composed empty (AllNumbered-empty "reply-a")
          (AllNumbered-empty j)

Distinct-crashed : Distinct crashed.receipts
unfolding Dict.put Dict.get names_of
Distinct-crashed = (refl, tt)

record_event_lem_example :
    (s' : Store) × (record_event "reply-a" dead crashed ≡ ok s')
    × (events s' "reply-a" ≡ events crashed "reply-a" ++ dead ∷ [])
    × IsNumbered (names_of s' "reply-a")
    × ((j : String) → ("reply-a" == j) ≡ false → names_of s' j ≡ names_of crashed j)
record_event_lem_example =
    record_event_lem "reply-a" dead crashed (AllNumbered-crashed "reply-a") (λ e. cc)

crashed_run : events crashed "reply-a" ≡ composed ∷ sending ∷ []
unfolding names_of Dict.get Dict.put history events_of sort_by_seq event_path event_of is_event_name
    seq_key seq remove_suffix py_int strip partition show
crashed_run = refl

reconcile_at_startup_lem_example :
    (ids : List String) × (s' : Store) × (reconcile_at_startup crashed ≡ ok (ids, s'))
    × ((j : String) → events s' j ≡ buried (is_stranded crashed j) (events crashed j))
    × ((j : String)
        → Dict.get j s'.dead_letters
          ≡ noted (is_stranded crashed j) j (Dict.get j crashed.dead_letters))
    × AllNumbered s'
    × Distinct s'.receipts
reconcile_at_startup_lem_example =
    reconcile_at_startup_lem crashed Distinct-crashed AllNumbered-crashed

abbrev settled : Store
settled = recorded "reply-a" dead (bury "reply-a" "reply-a" "in-flight at restart" crashed)

crashed_is_settled : reconcile_at_startup crashed ≡ ok ("reply-a" ∷ [], settled)
unfolding reconcile_at_startup record_event names_of Dict.get Dict.put history events_of sort_by_seq
    event_path event_of is_event_name seq_key seq remove_suffix classify is_terminal ends_throttled
    py_int strip partition show
crashed_is_settled = refl

startup_idempotent_example : reconcile_at_startup settled ≡ ok ([], settled)
startup_idempotent_example =
    startup_idempotent crashed settled ("reply-a" ∷ []) Distinct-crashed AllNumbered-crashed
      crashed_is_settled

-- the salt itself, then the origin, in place of the digest
abbrev joined : Text → Text → Text
joined s origin = s ++ origin

abbrev no_identities : Identities
no_identities = record { salt_file = missing; map = no_map }

abbrev known : Identities
known = record {
  salt_file = salt (codes "s");
  map = table ((codes "telegram:7", codes "stelegram:7") ∷ []);
}

abbrev unsalted : Identities
unsalted = record {
  salt_file = malformed;
  map = table ((codes "telegram:7", codes "stelegram:7") ∷ []);
}

first_call :
    correspondent_key joined (codes "s") (codes "telegram") (codes "7") no_identities
    ≡ ok (codes "stelegram:7", known)
unfolding correspondent_key load_map correspondent_salt TextDict.get TextDict.put
first_call = refl

key_is_stable_example :
    correspondent_key joined (codes "x") (codes "telegram") (codes "7") unsalted
    ≡ ok (codes "stelegram:7", unsalted)
key_is_stable_example =
    key_is_stable joined joined (codes "s") (codes "x") (codes "telegram") (codes "7")
      (codes "stelegram:7") no_identities known unsalted first_call
      (salt_change malformed known unsalted (now unsalted))
