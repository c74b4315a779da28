-- ===== src/Budget/Examples.antt =====
-- Admissions at concrete reservations.
use agent_letter_bridge.Prelude.{
  ℕ, ◌+◌, String, ◌≡◌, ◌⊎◌, refl, true, not, none, some, [], ◌∷◌, ok, ◌==◌, if◌then◌else◌,
}
use agent_letter_bridge.Prelude.Dict
use agent_letter_bridge.Prelude.Int.{ℤ, pos, ◌≤ℤ◌}
use agent_letter_bridge.Json.{str}
use agent_letter_bridge.Grant.{
  Grant, ready, parsed, load, effective, policy, safe_id, is_grant_id, is_hex, read_published,
}
use agent_letter_bridge.Json.{obj, field, end, fields_dict, Fields}
use agent_letter_bridge.Outbound.{names_of, history, events_of, sort_by_seq}
use agent_letter_bridge.Budget.{
  Env, Reservation, Reservations, new_reservation, admit_new, readmit_existing, limit_in_effect,
  counts, count_all, count_one, count_here, count_live, scope_of, has_terminal, which, which_more,
  create, replace, same_windows, move_into, add_if,
}
use agent_letter_bridge.Budget.Admission.{admit_new_lem, readmit_existing_lem}

abbrev gid : String
gid = "0123456789abcdef0123456789abcdef"

abbrev record_of : Fields
record_of = field "grant_id" (str gid) (field "binding_key" (str "b1") end)

abbrev grant : Grant
grant = fields_dict record_of

abbrev env : Env
env = record {
  dir = ok ((gid, record { marker = ready; payload = parsed (obj record_of) }) ∷ []);
  receipts = record { receipts = []; dead_letters = [] };
  binding = "b1";
  day = "2026-01-02";
  hour = "2026-01-02T10";
}

abbrev first : Reservation
first = new_reservation "v1-a" "b1" gid "i1" "seat" "p" "2026-01-01" "2026-01-01T09"

abbrev second : Reservation
second = new_reservation "v1-b" "b1" gid "i2" "seat" "p" "2026-01-02" "2026-01-02T10"

abbrev before : Reservations
before = ("v1-a", some first) ∷ []

abbrev after : Reservations
after = ("v1-a", some first) ∷ ("v1-b", some second) ∷ []

admitted : admit_new env grant "v1-b" gid "i2" "seat" "p" before ≡ ok (second, after)
unfolding admit_new limit_in_effect effective policy counts count_all count_one count_here
    count_live scope_of has_terminal load safe_id is_grant_id is_hex read_published names_of history
    events_of sort_by_seq which create Dict.get Dict.put Dict.has
admitted = refl

admit_new_lem_example :
    (d h q : ℕ) × (per_day per_hour max_queued : ℤ) × (limit_in_effect grant "per_day" ≡ ok per_day)
    × (limit_in_effect grant "per_hour" ≡ ok per_hour)
    × (limit_in_effect grant "max_queued" ≡ ok max_queued)
    × (counts env.dir env.receipts "b1" "2026-01-02" "2026-01-02T10" none before ≡ ok (d, h, q))
    × (counts env.dir env.receipts "b1" "2026-01-02" "2026-01-02T10" none after
        ≡ ok (d + 1, h + 1, add_if (not (has_terminal env.receipts "v1-b")) q))
    × (pos (d + 1) ≤ℤ per_day)
    × (pos (h + 1) ≤ℤ per_hour)
    × (pos (q + 1) ≤ℤ max_queued)
    × (Dict.get "v1-b" before ≡ none)
    × ((j : String)
        → Dict.get j after ≡ (if "v1-b" == j then some (some second) else Dict.get j before))
unfolding load safe_id is_grant_id is_hex read_published Dict.get
admit_new_lem_example =
    admit_new_lem env grant grant "v1-b" gid "i2" "seat" "p" before after second admitted refl refl
      refl refl

abbrev moved : Reservations
moved =
    ("v1-a", some (new_reservation "v1-a" "b1" gid "i1" "seat" "p" "2026-01-02" "2026-01-02T10"))
    ∷ []

readmitted :
    readmit_existing env grant "v1-a" first before
    ≡ ok (new_reservation "v1-a" "b1" gid "i1" "seat" "p" "2026-01-02" "2026-01-02T10", moved)
unfolding readmit_existing move_into limit_in_effect effective policy counts count_all count_one
    count_here count_live scope_of has_terminal load safe_id is_grant_id is_hex read_published
    names_of history events_of sort_by_seq which_more replace Dict.get Dict.put Dict.has
readmitted = refl

abbrev now_first : Reservation
now_first = new_reservation "v1-a" "b1" gid "i1" "seat" "p" "2026-01-02" "2026-01-02T10"

readmit_existing_lem_example :
    ((same_windows env first ≡ true) × (now_first ≡ first) × (moved ≡ before))
    ⊎ ((d h q : ℕ) × (per_day per_hour : ℤ) × (limit_in_effect grant "per_day" ≡ ok per_day)
        × (limit_in_effect grant "per_hour" ≡ ok per_hour)
        × (counts env.dir env.receipts "b1" "2026-01-02" "2026-01-02T10" (some "v1-a") before
            ≡ ok (d, h, q))
        × (pos (d + 1) ≤ℤ per_day)
        × (pos (h + 1) ≤ℤ per_hour)
        × (same_windows env now_first ≡ true)
        × ((j : String)
            → Dict.get j moved
              ≡ (if "v1-a" == j then some (some now_first) else Dict.get j before)))
readmit_existing_lem_example =
    readmit_existing_lem env grant "v1-a" first now_first before moved readmitted
