-- ===== src/Initiate/Examples.antt =====
-- Crossings at a concrete letter.
use agent_letter_bridge.Prelude.{◌≤◌, String, ◌≡◌, refl, true, none, some, [], ◌∷◌, ◌++◌, ok}
use agent_letter_bridge.Prelude.Dict
use agent_letter_bridge.Prelude.Dict.{get-nil}
use agent_letter_bridge.Prelude.Int.{pos}
use agent_letter_bridge.Prelude.Number.{show}
use agent_letter_bridge.Prelude.Text.{codes, eq_text}
use agent_letter_bridge.Json.{
  null, bool, int, str, obj, arr, cons, nil, Fields, field, end, fields_dict, truthy,
}
use agent_letter_bridge.Grant.{
  Grant, ready, parsed, load, validate, require_granted, find_grants, choose, entry_grant,
  read_published, is_grant_id, safe_id, text_field, check_overrides, check_enabled, check_expiry,
  binding_key, is_hex, effective, policy,
}
use agent_letter_bridge.Allowlist.{holds, allows, chats_of}
use agent_letter_bridge.Ids.{payload_digest, payload_bytes, length_prefixed, to_bytes}
use agent_letter_bridge.Outbound.{
  names_of, history, events_of, sort_by_seq, record_event, event_path, is_terminal, sending,
}
use agent_letter_bridge.Outbound.History.{events}
use agent_letter_bridge.Budget.{
  Reservation, new_reservation, readmit_existing, limit_in_effect, counts, count_all, count_one,
  count_here, count_live, scope_of, has_terminal,
}
use agent_letter_bridge.Initiate.{
  Host, Site, Message, World, Ready, accepted, posted, post_of, prepare, cross, terminal_receipt,
  ends_sending, unresolved_sending, readmit, with_authority, crossing_authority, authority,
  digest_for, photo_hash, photo_ok, start_sending, with_status,
}
use agent_letter_bridge.Initiate.Settling.{IsSound}
use agent_letter_bridge.Initiate.Delivery.{crossing, crash, stop, more, arrivals, answer_event}
use agent_letter_bridge.Initiate.Safety.{at_most_one_arrival}
use agent_letter_bridge.Initiate.Outcomes.{answer_status, answer_result, cross_outcome}

abbrev gid : String
gid = "0123456789abcdef0123456789abcdef"

abbrev host : Host
host = record {
  digest = λ t. "b1";
  sha256 = λ b. "p1";
  encode = codes;
  of_text = λ s. none;
  show_value = λ v. "…";
}

abbrev record_of : Fields
record_of = field "grant_id" (str gid) (
    field "platform" (str "telegram") (
      field "chat_id" (str "42") (
        field "enabled" (bool true) (
          field "created" (int (pos 1000))
            (field "expiry" null (field "binding_key" (str "b1") end))))))

abbrev grant : Grant
grant = fields_dict record_of

abbrev site : Site
site = record {
  dir = ok ((gid, record { marker = ready; payload = parsed (obj record_of) }) ∷ []);
  allowlist = holds (obj (field "chats" (arr (cons (str "42") nil)) end));
  photos = [];
  now = pos 5;
  day = "2026-01-02";
  hour = "2026-01-02T10";
}

abbrev message : Message
message = record { text = "hello"; reason = "why"; seat = "seat"; intent = "i1" }

abbrev reservation : Reservation
reservation = new_reservation "v1-a" "b1" gid "i1" "seat" "p1" "2026-01-02" "2026-01-02T10"

abbrev start : World
start = record {
  reservations = ("v1-a", some reservation) ∷ [];
  outbound = record { receipts = []; dead_letters = [] };
  index = [];
  posts = [];
}

abbrev begun : World
begun = record start {
  outbound = record { receipts = ("v1-a", codes "1-sending.json" ∷ []) ∷ []; dead_letters = [] };
}

abbrev ready_to_send : Ready
ready_to_send = record { rec = reservation; platform = "telegram"; chat = "42" }

start-IsSound : IsSound start.outbound
unfolding names_of Dict.get
start-IsSound = record { numbered = λ j. tt; distinct = tt }

prepared : prepare host site grant message "v1-a" reservation start ≡ (begun, ok ready_to_send)
unfolding prepare terminal_receipt unresolved_sending ends_sending readmit with_authority
    crossing_authority authority digest_for photo_hash photo_ok start_sending readmit_existing
    limit_in_effect counts count_all count_one count_here count_live scope_of has_terminal effective
    policy load validate require_granted find_grants choose entry_grant read_published is_grant_id
    safe_id text_field check_overrides check_enabled check_expiry binding_key is_hex allows chats_of
    payload_digest payload_bytes length_prefixed to_bytes names_of history events_of sort_by_seq
    record_event event_path is_terminal eq_text truthy show Dict.get Dict.put
prepared = refl

cross_outcome_example :
    let (w', result) =
      cross host site grant message "v1-a" reservation (accepted (codes "77")) start in
    (result ≡ answer_result "v1-a" (accepted (codes "77")))
    × (w'.posts ≡ start.posts ++ post_of "v1-a" message ready_to_send (accepted (codes "77")) ∷ [])
    × (events w'.outbound "v1-a"
        ≡ events start.outbound "v1-a" ++ sending ∷ answer_event (accepted (codes "77")) ∷ [])
    × (Dict.get "v1-a" w'.reservations
        ≡ some (some (with_status (answer_status (accepted (codes "77"))) ready_to_send.rec)))
cross_outcome_example =
    cross_outcome host site grant message "v1-a" reservation (accepted (codes "77")) start begun
      ready_to_send start-IsSound prepared

abbrev crashed : World
crashed = posted "v1-a" message ready_to_send (accepted (codes "77")) begun

abbrev retried : World
retried = (cross host site grant message "v1-a" reservation (accepted (codes "78")) crashed).0

at_most_one_arrival_example :
    IsSound retried.outbound × ((oid : String) → arrivals oid retried.posts ≤ 1)
at_most_one_arrival_example = at_most_one_arrival host start retried start-IsSound refl (
    more start crashed retried
      (crash site grant message "v1-a" reservation (accepted (codes "77")) start begun ready_to_send
        prepared)
      (more crashed retried retried
        (crossing site grant message "v1-a" reservation (accepted (codes "78")) crashed)
        (stop retried)))
