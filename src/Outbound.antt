-- ===== src/Outbound.antt =====
-- alb/outbound/store.py: the receipts of outbound letters and the startup pass over them. A receipts
-- directory is the list of its file names, in the order in which it is listed.
pub mod History
pub mod Stranded
pub mod Startup
pub mod Identity
mod Examples
use agent_letter_bridge.Prelude.{
  ℕ, zero, suc, ◌+◌, String, Bool, true, false, not, ◌&&◌, ◌||◌, Option, none, some, List, [], ◌∷◌,
  ◌++◌, Result, ok, err, ◌>>=◌, leb, length, any_of, if◌then◌else◌,
}
use agent_letter_bridge.Prelude.Dict
use agent_letter_bridge.Prelude.Dict.{Dict}
use agent_letter_bridge.Prelude.Number.{show, py_int}
use agent_letter_bridge.Prelude.Text.{Text, codes, eq_text, partition}

abbrev pub FileName : Type 0
FileName = Text

-- the contents of a dead letter: its own id, the letter it answers, and what went wrong
pub record DeadLetter : Type 0 where
  pub reply_id : String
  pub letter_id : String
  pub detail : String

pub record Store : Type 0 where
  pub receipts : Dict (List FileName)
  pub dead_letters : Dict DeadLetter

pub data OutboundError : Type 0 where
  file_exists : OutboundError

abbrev pub suffix : Text
suffix = codes ".json"

-- t.removesuffix(s)
unfoldable pub remove_suffix : Text → Text → Text
remove_suffix s [] = []
remove_suffix s (c ∷ t) = let rest = remove_suffix s t in if eq_text (c ∷ t) s then [] else c ∷ rest

-- `_seq`: `none` stands for the -1 of a name that has no number in front
unfoldable pub seq : FileName → Option ℕ
seq name = py_int (partition b'-' name).0

-- the sort key: -1 comes first
unfoldable pub seq_key : FileName → ℕ
seq_key name = elim (seq name) [ none ↦ 0 | some n ↦ suc n ]

-- sorted(names, key=_seq): the sort is stable
unfoldable pub insert_by_seq : FileName → List FileName → List FileName
insert_by_seq x [] = x ∷ []
insert_by_seq x (y ∷ ys) =
    let rest = insert_by_seq x ys in if leb (seq_key x) (seq_key y) then x ∷ y ∷ ys else y ∷ rest

unfoldable pub sort_by_seq : List FileName → List FileName
unfolding insert_by_seq
sort_by_seq [] = []
sort_by_seq (x ∷ xs) = insert_by_seq x (sort_by_seq xs)

unfoldable pub event_of : FileName → Text
event_of name = remove_suffix suffix (partition b'-' name).2

unfoldable pub is_event_name : FileName → Bool
is_event_name name = not (eq_text (event_of name) []) && leb 1 (seq_key name)

unfoldable pub events_of : List FileName → List Text
events_of [] = []
events_of (x ∷ xs) = let rest = events_of xs in if is_event_name x then event_of x ∷ rest else rest

-- `_history(d)`
unfoldable pub history : List FileName → List Text
history d = events_of (sort_by_seq d)

-- `_event_path(d, event)`
unfoldable pub event_path : List FileName → Text → FileName
event_path d event = show (length d + 1) ++ b'-' ∷ (event ++ suffix)

abbrev pub listing : Option (List FileName) → List FileName
listing none = []
listing (some d) = d

unfoldable pub names_of : Store → String → List FileName
names_of s id = listing (Dict.get id s.receipts)

-- `record_event(state, letter_id, event)`: the file is created with O_EXCL
unfoldable pub record_event : String → Text → Store → Result OutboundError Store
unfolding names_of
record_event id event s =
    let d = names_of s id in
    if any_of (eq_text (event_path d event)) d
    then err file_exists
    else ok (record s { receipts = Dict.put id (d ++ event_path d event ∷ []) s.receipts })

abbrev pub sent : Text
sent = codes "sent"

abbrev pub refused : Text
refused = codes "refused"

abbrev pub ambiguous : Text
ambiguous = codes "ambiguous"

abbrev pub dead : Text
dead = codes "dead"

abbrev pub throttled : Text
throttled = codes "throttled"

abbrev pub sending : Text
sending = codes "sending"

abbrev pub composed : Text
composed = codes "composed"

-- `event in TERMINAL`
unfoldable pub is_terminal : Text → Bool
is_terminal e = (eq_text e sent || eq_text e refused) || (eq_text e ambiguous || eq_text e dead)

-- `events[-1] in DEFERRED`
unfoldable pub ends_throttled : List Text → Bool
ends_throttled [] = false
ends_throttled (e ∷ []) = eq_text e throttled
ends_throttled (e ∷ f ∷ es) = ends_throttled (f ∷ es)

pub data Delivery : Type 0 where
  deferred in_flight unsent : Delivery

-- the verdict of `reconcile` on one directory: a terminal letter has none
unfoldable pub classify : List Text → Option Delivery
classify events =
    if any_of is_terminal events
    then none
    else if ends_throttled events
    then some deferred
    else if any_of (eq_text sending) events
    then some in_flight
    else some unsent

abbrev pub set_verdict : String → Option Delivery → Dict Delivery → Dict Delivery
set_verdict id none verdicts = verdicts
set_verdict id (some v) verdicts = Dict.put id v verdicts

-- the walk over the receipts
unfoldable pub reconcile_receipts : Dict (List FileName) → Dict Delivery → Dict Delivery
reconcile_receipts [] verdicts = verdicts
reconcile_receipts ((id, d) ∷ rest) verdicts =
    reconcile_receipts rest (set_verdict id (classify (history d)) verdicts)

-- an entry of the outbox directory
pub record OutboxFile : Type 0 where
  pub stem : String
  pub is_md : Bool
  pub is_symlink : Bool
  pub is_file : Bool

-- the walk over the outbox: a claim that has no receipts directory is unsent
unfoldable pub reconcile_outbox :
    Dict (List FileName) → List OutboxFile → Dict Delivery → Dict Delivery
reconcile_outbox receipts [] verdicts = verdicts
reconcile_outbox receipts (f ∷ fs) verdicts = reconcile_outbox receipts fs (
    if (not f.is_md || f.is_symlink) || not f.is_file
    then verdicts
    else if Dict.has f.stem receipts
    then verdicts
    else Dict.put f.stem unsent verdicts)

-- `reconcile(state, outbox)`
unfoldable pub reconcile : Store → Option (List OutboxFile) → Dict Delivery
unfolding reconcile_receipts reconcile_outbox
reconcile s outbox =
    let verdicts = reconcile_receipts s.receipts [] in
    elim outbox [ none ↦ verdicts | some files ↦ reconcile_outbox s.receipts files verdicts ]

abbrev pub bury : String → String → String → Store → Store
bury reply_id letter_id detail s = record s {
  dead_letters =
      Dict.put reply_id (record { reply_id = reply_id; letter_id = letter_id; detail = detail })
        s.dead_letters;
}

abbrev pub is_in_flight : Delivery → Bool
is_in_flight in_flight = true
is_in_flight _ = false

-- the loop of `reconcile_at_startup`: the flagged ids and the state
unfoldable pub flag_all : Dict Delivery → Store → Result OutboundError (List String × Store)
flag_all [] s = ok ([], s)
flag_all ((id, v) ∷ rest) s = elim (is_in_flight v) [
  | false ↦ flag_all rest s
  | true ↦ do
    s' ← record_event id dead (bury id id "in-flight at restart" s)
    (flagged, s'') ← flag_all rest s'
    ok (id ∷ flagged, s'')
]

unfoldable pub reconcile_at_startup : Store → Result OutboundError (List String × Store)
unfolding flag_all reconcile
reconcile_at_startup s = flag_all (reconcile s none) s
