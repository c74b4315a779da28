-- ===== src/Initiate.antt =====
-- alb/initiate/send.py: one crossing of an initiated letter (_cross) and what it settles. The grant
-- and the reservation are those that send_initiated hands over; send_initiated itself, which finds or
-- makes them, is not modelled. Parameters, in a `Host`: the digests, the encoder and the conversions
-- of Python; and the sender's answers, one for each crossing. A raise keeps what was written before.
pub mod Settling
pub mod Crossing
pub mod Delivery
pub mod Safety
pub mod Outcomes
mod Examples
use agent_letter_bridge.Prelude.{
  append, String, Bool, true, false, not, ◌&&◌, ◌||◌, Option, none, some, List, [], ◌∷◌, ◌++◌,
  Result, ok, err, ◌>>=◌, ◌>>◌, require, ◌==◌, elem, if◌then◌else◌,
}
use agent_letter_bridge.Prelude.Dict
use agent_letter_bridge.Prelude.Dict.{Dict}
use agent_letter_bridge.Prelude.Int.{ℤ}
use agent_letter_bridge.Prelude.Text.{Text, codes, eq_text}
use agent_letter_bridge.Json.{Json, str, Float, truthy}
use agent_letter_bridge.Grant.{
  PolicyError, invalid, Grant, GrantsDir, load, validate, require_granted, text_field, safe_id,
  is_this,
}
use agent_letter_bridge.Allowlist.{AllowFile, allows, GateError}
use agent_letter_bridge.MsgIndex.{Table, record_message}
use agent_letter_bridge.Ids.{Bytes, UsageError, payload_digest}
use agent_letter_bridge.Outbound.{
  FileName, Store, OutboundError, names_of, history, record_event, event_of, is_terminal, bury,
  sent, refused, ambiguous, dead, throttled, sending,
}
use agent_letter_bridge.Budget.{
  Reservation, Reservations, BudgetError, unreadable_anywhere, text_in, live, replace,
  readmit_existing,
}
use agent_letter_bridge.Budget as Budget

-- what is not part of the program
pub record Host : Type 0 where
  pub digest : Text → String
  pub sha256 : Bytes → String
  pub encode : String → Bytes
  pub of_text : String → Option Float
  pub show_value : Json → String

-- what a crossing reads and never writes
pub record Site : Type 0 where
  pub dir : GrantsDir
  pub allowlist : AllowFile
  pub photos : Dict Bytes
  pub now : ℤ
  pub day : String
  pub hour : String

pub record Message : Type 0 where
  pub text : String
  pub reason : String
  pub seat : String
  pub intent : String

-- what the sender does: it returns the platform's message id, or raises, with the text
-- of the exception, for an unclassified one the name of its type
pub data Answer : Type 0 where
  accepted : Text → Answer
  throttles refuses is_ambiguous fails : String → Answer

-- one call of the sender
pub record Post : Type 0 where
  pub id : String
  pub chat : String
  pub body : String
  pub answer : Answer

-- what a crossing reads and writes; `posts` are the calls of the sender so far
pub record World : Type 0 where
  pub reservations : Reservations
  pub outbound : Store
  pub index : Table
  pub posts : List Post

pub data CrossError : Type 0 where
  terminal_exists ambiguous_outcome authority_refused not_permitted throttled_out refused_out
        key_error :
      CrossError
  policy_error : PolicyError → CrossError
  gate_error : GateError → CrossError
  usage_error : UsageError → CrossError
  budget_error : BudgetError → CrossError
  outbound_error : OutboundError → CrossError

abbrev pub raise_as : {A E : Type 0} → (E → CrossError) → Result E A → Result CrossError A
raise_as f (ok a) = ok a
raise_as f (err e) = err (f e)

-- the state after a call, and its result
abbrev pub After : Type 0 → Type 0
After A = World × Result CrossError A

abbrev pub fail_after : {A B : Type 0} → After A → CrossError → After B
fail_after (w, ok a) e = (w, err e)
fail_after (w, err f) e = (w, err f)

-- rec[key]
abbrev pub need : String → Reservation → Result CrossError Json
need key rec = elim (Dict.get key rec) [ some v ↦ ok v | none ↦ err key_error ]

-- _terminal_receipt: the first terminal event as the directory is listed
unfoldable pub terminal_receipt : List FileName → Option Text
terminal_receipt [] = none
terminal_receipt (x ∷ xs) =
    let rest = terminal_receipt xs in if is_terminal (event_of x) then some (event_of x) else rest

unfoldable pub ends_sending : List Text → Bool
ends_sending [] = false
ends_sending (e ∷ []) = eq_text e sending
ends_sending (e ∷ f ∷ es) = ends_sending (f ∷ es)

-- _unresolved_sending
unfoldable pub unresolved_sending : List FileName → Bool
unresolved_sending names = ends_sending (history names)

-- the status that an event settles a reservation with, in `_settle`
unfoldable pub status_after : Text → Option String
status_after event =
    if eq_text event sent
    then some "settled-sent"
    else if eq_text event refused
    then some "refunded"
    else if eq_text event throttled
    then some "held"
    else if eq_text event ambiguous || eq_text event dead
    then some "settled-ambiguous"
    else none

abbrev pub bury_if : Text → String → String → Store → Store
bury_if event oid detail s =
    if eq_text event ambiguous || eq_text event dead then bury oid oid detail s else s

abbrev pub with_status : String → Reservation → Reservation
with_status status rec = Dict.put "status" (str status) rec

-- _settle after its receipt
unfoldable pub settle_reservation : String → Reservation → Text → String → World → After Reservation
settle_reservation oid rec event detail w = elim (status_after event) [
  | none ↦ (w, ok rec)
  | some status ↦ elim (replace oid (with_status status rec) w.reservations) [
    | err e ↦ (w, err (budget_error e))
    | ok rs ↦ (
      record w { reservations = rs; outbound = bury_if event oid detail w.outbound },
      ok (with_status status rec),
    )
  ]
]

abbrev pub settle_recorded :
    String → Reservation → Text → String → World → Result OutboundError Store → After Reservation
settle_recorded oid rec event detail w (err e) = (w, err (outbound_error e))
settle_recorded oid rec event detail w (ok o) =
    settle_reservation oid rec event detail (record w { outbound = o })

-- _settle(state, rec, event, detail=detail)
unfoldable pub settle : String → Reservation → Text → String → World → After Reservation
settle oid rec event detail w =
    settle_recorded oid rec event detail w (record_event oid event w.outbound)

-- the status that `_repair_live_reservation` writes for a terminal event
unfoldable pub repaired_status : Text → Option String
repaired_status existing =
    if eq_text existing sent
    then some "settled-sent"
    else if eq_text existing refused
    then some "refunded"
    else if eq_text existing ambiguous || eq_text existing dead
    then some "settled-ambiguous"
    else none

-- _repair_live_reservation(state, rec, existing)
unfoldable pub repair : String → Reservation → Text → World → After Reservation
repair oid rec existing w =
    if not (text_in live (Dict.get "status" rec))
    then (w, ok rec)
    else elim (repaired_status existing) [
      | none ↦ (w, ok rec)
      | some status ↦ elim (replace oid (with_status status rec) w.reservations) [
        | err e ↦ (w, err (budget_error e))
        | ok rs ↦ (record w { reservations = rs }, ok (with_status status rec))
      ]
    ]

-- `rec.get("photo_hash") or ""`
unfoldable pub photo_hash : Reservation → Json
photo_hash rec = elim (Dict.get "photo_hash" rec) [
  | none ↦ str ""
  | some v ↦ if truthy v then v else str ""
]

-- _digest(grant, …)
unfoldable pub digest_for : Host → Grant → Message → Json → Result CrossError String
digest_for h grant m photo = do
  binding ← need "binding_key" grant
  raise_as usage_error
      (payload_digest h.encode h.sha256 m.text "initiated" m.seat m.intent binding m.reason photo)

-- _authority(…): the live grant
unfoldable pub authority : Host → Site → Grant → Message → Json → Json → Result CrossError Grant
authority h s grant m expected photo = do
  raise_as policy_error (validate h.digest h.of_text s.now grant)
  platform ← raise_as policy_error (text_field "platform" grant)
  chat ← raise_as policy_error (text_field "chat_id" grant)
  gid ← raise_as policy_error (safe_id (Dict.get "grant_id" grant))
  found ← raise_as policy_error (require_granted h.digest h.of_text s.now s.dir platform chat)
  require (is_this gid (Dict.get "grant_id" found)) authority_refused
  is_open ← raise_as gate_error (allows h.show_value s.allowlist (str chat))
  require is_open not_permitted
  digest ← digest_for h found m photo
  require (is_this digest (some expected)) authority_refused
  ok found

-- load(state, v), where v may be no text
abbrev pub load_value : GrantsDir → Json → Result PolicyError Grant
load_value dir (str gid) = load dir gid
load_value dir v = err invalid

-- the authority of a crossing, re-read for its record
unfoldable pub crossing_authority : Host → Site → Message → Reservation → Result CrossError Grant
crossing_authority h s m rec = do
  gid ← need "grant_id" rec
  grant ← raise_as policy_error (load_value s.dir gid)
  expected ← need "payload_digest" rec
  authority h s grant m expected (photo_hash rec)

-- what the handler around the authority catches
abbrev pub is_local : CrossError → Bool
is_local authority_refused = true
is_local not_permitted = true
is_local (policy_error e) = true
is_local _ = false

-- a crossing that may call the sender
pub record Ready : Type 0 where
  pub rec : Reservation
  pub platform : String
  pub chat : String

-- the staged photo is there and is the one that was reserved
unfoldable pub photo_ok : Host → Site → String → Reservation → Bool
photo_ok h s oid rec =
    if truthy (photo_hash rec)
    then elim (Dict.get oid s.photos) [
      | none ↦ false
      | some bytes ↦ is_this (h.sha256 bytes) (some (photo_hash rec))
    ]
    else true

-- from the record of "sending" on; the two fields are there in a grant that is valid
abbrev pub sending_recorded :
    Reservation → String → String → World → Result OutboundError Store → After Ready
sending_recorded rec platform chat w (err e) = (w, err (outbound_error e))
sending_recorded rec platform chat w (ok o) =
    (record w { outbound = o }, ok (record { rec = rec; platform = platform; chat = chat }))

unfoldable pub start_sending : String → Reservation → Grant → World → After Ready
start_sending oid rec found w = elim (text_field "platform" found) [
  | err e ↦ (w, err (policy_error e))
  | ok platform ↦ elim (text_field "chat_id" found) [
    | err e ↦ (w, err (policy_error e))
    | ok chat ↦ sending_recorded rec platform chat w (record_event oid sending w.outbound)
  ]
]

unfoldable pub with_authority :
    Host → Site → String → Reservation → Result CrossError Grant → World → After Ready
with_authority h s oid rec (err e) w =
    if is_local e then fail_after (settle oid rec refused "local policy" w) e else (w, err e)
with_authority h s oid rec (ok found) w =
    if photo_ok h s oid rec
    then start_sending oid rec found w
    else fail_after (settle oid rec refused "staged photo missing or altered" w) authority_refused

-- readmit_existing of the record, whose binding is a text
unfoldable pub readmit :
    Site → Grant → String → Reservation → World → Result CrossError (Reservation × Reservations)
readmit s grant oid rec w = do
  binding ← need "binding_key" rec
  raise_as budget_error (on_text binding)
  where
    on_text : Json → Result BudgetError (Reservation × Reservations)
    on_text (str b) =
        readmit_existing
          (record { dir = s.dir; receipts = w.outbound; binding = b; day = s.day; hour = s.hour })
          grant oid rec w.reservations
    on_text v = err unreadable_anywhere

abbrev pub prepare_readmitted :
    Host
    → Site
    → Message
    → String
    → World
    → Result CrossError (Reservation × Reservations)
    → After Ready
prepare_readmitted h s m oid w (err e) = (w, err e)
prepare_readmitted h s m oid w (ok (rec, rs)) =
    with_authority h s oid rec (crossing_authority h s m rec) (record w { reservations = rs })

abbrev pub prepare_open : Host → Site → Grant → Message → String → Reservation → World → After Ready
prepare_open h s grant m oid rec w =
    if unresolved_sending (names_of w.outbound oid)
    then fail_after (settle oid rec ambiguous "sending with no terminal" w) ambiguous_outcome
    else if not (text_in live (Dict.get "status" rec))
    then (w, err terminal_exists)
    else prepare_readmitted h s m oid w (readmit s grant oid rec w)

abbrev pub prepare_after :
    Host → Site → Grant → Message → String → Reservation → World → Option Text → After Ready
prepare_after h s grant m oid rec w (some existing) =
    fail_after (repair oid rec existing w) terminal_exists
prepare_after h s grant m oid rec w none = prepare_open h s grant m oid rec w

-- _cross up to the call of the sender
unfoldable pub prepare : Host → Site → Grant → Message → String → Reservation → World → After Ready
prepare h s grant m oid rec w =
    prepare_after h s grant m oid rec w (terminal_receipt (names_of w.outbound oid))

abbrev pub post_of : String → Message → Ready → Answer → Post
post_of oid m r answer = record { id = oid; chat = r.chat; body = m.text; answer = answer }

-- the state after a call of the sender
unfoldable pub posted : String → Message → Ready → Answer → World → World
posted oid m r answer w = record w { posts = w.posts ++ post_of oid m r answer ∷ [] }

-- the end of a settled success: both directions in the index
unfoldable pub index_sent : String → Ready → Text → After Reservation → After String
index_sent oid r platform_id (w, err e) = (w, err e)
index_sent oid r platform_id (w, ok rec) = (
  record w { index = record_message (codes r.platform) (codes r.chat) platform_id oid w.index },
  ok oid,
)

-- _cross after the call of the sender
unfoldable pub finish : String → Ready → Answer → World → After String
finish oid r (accepted platform_id) w =
    index_sent oid r platform_id (settle oid r.rec sent "sent" w)
finish oid r (throttles detail) w = fail_after (settle oid r.rec throttled detail w) throttled_out
finish oid r (refuses detail) w = fail_after (settle oid r.rec refused detail w) refused_out
finish oid r (is_ambiguous detail) w =
    fail_after (settle oid r.rec ambiguous detail w) ambiguous_outcome
finish oid r (fails detail) w =
    fail_after (settle oid r.rec ambiguous (append "unclassified " detail) w) ambiguous_outcome

abbrev pub send_and_finish : String → Message → Answer → After Ready → After String
send_and_finish oid m answer (w, err e) = (w, err e)
send_and_finish oid m answer (w, ok r) = finish oid r answer (posted oid m r answer w)

-- _cross(…), where the sender, if it is called, does `answer`
unfoldable pub cross :
    Host → Site → Grant → Message → String → Reservation → Answer → World → After String
cross h s grant m oid rec answer w = send_and_finish oid m answer (prepare h s grant m oid rec w)
