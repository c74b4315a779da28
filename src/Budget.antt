-- ===== src/Budget.antt =====
-- alb/initiate/budget.py and reservation.py: no counter is stored; what is used is counted over the
-- reservation files. The file of an outbound id is a record of JSON values, or `none` where it
-- cannot be read. Calendar keys come from the time zone library and are arguments here. The lock
-- that serialises admissions for one binding is not modelled: each call is one step.
pub mod Counting
pub mod Admission
mod Examples
use agent_letter_bridge.Prelude.{
  ℕ, ◌+◌, String, Bool, true, false, not, ◌&&◌, ◌||◌, Option, none, some, List, [], ◌∷◌, ◌++◌,
  Result, ok, err, ◌>>=◌, ◌>>◌, ◌==◌, elem, any_of, if◌then◌else◌,
}
use agent_letter_bridge.Prelude.Dict
use agent_letter_bridge.Prelude.Dict.{Dict}
use agent_letter_bridge.Prelude.Int.{ℤ, pos, leb_ℤ, ltb_ℤ}
use agent_letter_bridge.Json.{Json, int, str, hashable}
use agent_letter_bridge.Grant.{PolicyError, Grant, GrantsDir, load, effective, is_this}
use agent_letter_bridge.Outbound.{Store, names_of, history, is_terminal}

abbrev pub Reservation : Type 0
Reservation = Dict Json

-- the reservations directory, by outbound id
abbrev pub Reservations : Type 0
Reservations = Dict (Option Reservation)

pub data Kind : Type 0 where
  hourly daily queued : Kind

-- an exhausted limit: which, what it is, and how much is used
pub record Hit : Type 0 where
  pub kind : Kind
  pub limit : ℤ
  pub used : ℕ

pub data BudgetError : Type 0 where
  capacity : List Hit → BudgetError
  unreadable_anywhere unreadable_here : BudgetError
  policy_error : PolicyError → BudgetError
  file_exists reservation_invalid type_error : BudgetError

-- CHARGED, LIVE and STATUSES
abbrev pub charged : List String
charged = "reserved" ∷ "held" ∷ "settled-sent" ∷ "settled-ambiguous" ∷ []

abbrev pub live : List String
live = "reserved" ∷ "held" ∷ []

abbrev pub statuses : List String
statuses = "reserved" ∷ "held" ∷ "settled-sent" ∷ "settled-ambiguous" ∷ "refunded" ∷ []

abbrev pub text_in : List String → Option Json → Bool
text_in names (some (str s)) = elem s names
text_in names _ = false

abbrev pub is_hashable : Option Json → Bool
is_hashable none = true
is_hashable (some v) = hashable v

-- a text that is not empty
abbrev pub is_key : Option Json → Bool
is_key (some (str s)) = not (s == "")
is_key _ = false

pub data Scope : Type 0 where
  unknown_scope elsewhere here : Scope

abbrev pub in_scope : String → Option Json → Scope
in_scope binding key = if is_this binding key then here else elsewhere

-- the binding that a record counts for: its own, or its grant's once it is settled
unfoldable pub scope_of : GrantsDir → String → Reservation → Scope
scope_of dir binding rec = elim (Dict.get "binding_key" rec) [
  | some (str own) ↦ elim (Dict.get "grant_id" rec) [
    | some (str gid) ↦ elim (load dir gid) [
      | err e ↦ unknown_scope
      | ok grant ↦
          if is_this own (Dict.get "binding_key" grant)
          then in_scope binding (some (str own))
          else if text_in ("settled-sent" ∷ "settled-ambiguous" ∷ []) (Dict.get "status" rec)
          then in_scope binding (Dict.get "binding_key" grant)
          else elsewhere
    ]
    | _ ↦ in_scope binding (some (str own))
  ]
  | _ ↦ unknown_scope
]

-- _has_terminal_receipt
unfoldable pub has_terminal : Store → String → Bool
has_terminal receipts oid = any_of is_terminal (history (names_of receipts oid))

pub record Tally : Type 0 where
  pub day : ℕ
  pub hour : ℕ
  pub active : ℕ
  pub unknown : Bool
  pub unreadable : Bool

abbrev pub add_if : Bool → ℕ → ℕ
add_if b n = if b then n + 1 else n

-- the last statement of the loop: a live record without a terminal receipt waits
unfoldable pub count_live : Store → Reservation → Tally → Result BudgetError Tally
count_live receipts rec t =
    if text_in live (Dict.get "status" rec)
    then elim (Dict.get "outbound_id" rec) [
      | some (str oid) ↦
          ok (record t { active = add_if (not (has_terminal receipts oid)) t.active })
      | _ ↦ err type_error
    ]
    else ok t

-- a record of this binding
unfoldable pub count_here : Store → String → String → Reservation → Tally → Result BudgetError Tally
count_here receipts day hour rec t =
    if not (is_hashable (Dict.get "status" rec))
    then err type_error
    else if text_in charged (Dict.get "status" rec)
    then (if not (is_key (Dict.get "day_key" rec)) || not (is_key (Dict.get "hour_key" rec))
        then ok (record t { unreadable = true })
        else count_live receipts rec (record t {
          day = add_if (is_this day (Dict.get "day_key" rec)) t.day;
          hour = add_if (is_this hour (Dict.get "hour_key" rec)) t.hour;
        }))
    else if text_in statuses (Dict.get "status" rec)
    then ok t
    else ok (record t { unreadable = true })

abbrev pub is_excluded : Option String → Option Json → Bool
is_excluded none oid = false
is_excluded (some x) oid = is_this x oid

-- one turn of the loop of `counts`
unfoldable pub count_one :
    GrantsDir
    → Store
    → String
    → String
    → String
    → Option String
    → Option Reservation
    → Tally
    → Result BudgetError Tally
count_one dir receipts binding day hour exclude none t = ok (record t { unknown = true })
count_one dir receipts binding day hour exclude (some rec) t = elim (scope_of dir binding rec) [
  | unknown_scope ↦ ok (record t { unknown = true })
  | elsewhere ↦ ok t
  | here ↦
      if is_excluded exclude (Dict.get "outbound_id" rec)
      then ok t
      else count_here receipts day hour rec t
]

abbrev pub zero_tally : Tally
zero_tally = record { day = 0; hour = 0; active = 0; unknown = false; unreadable = false }

unfoldable pub count_all :
    GrantsDir
    → Store
    → String
    → String
    → String
    → Option String
    → Reservations
    → Tally
    → Result BudgetError Tally
count_all dir receipts binding day hour exclude [] t = ok t
count_all dir receipts binding day hour exclude ((oid, r) ∷ rest) t = do
  t' ← count_one dir receipts binding day hour exclude r t
  count_all dir receipts binding day hour exclude rest t'

abbrev pub settle_tally : Tally → Result BudgetError (ℕ × ℕ × ℕ)
settle_tally t =
    if t.unknown
    then err unreadable_anywhere
    else if t.unreadable
    then err unreadable_here
    else ok (t.day, t.hour, t.active)

-- counts(state, binding_key, day_key=…, hour_key=…, exclude=…)
unfoldable pub counts :
    GrantsDir
    → Store
    → String
    → String
    → String
    → Option String
    → Reservations
    → Result BudgetError (ℕ × ℕ × ℕ)
counts dir receipts binding day hour exclude rs = do
  t ← count_all dir receipts binding day hour exclude rs zero_tally
  settle_tally t

abbrev pub hit_if : Bool → Hit → List Hit → List Hit
hit_if b h hs = if b then h ∷ hs else hs

-- _which
unfoldable pub which : ℕ → ℕ → ℕ → ℤ → ℤ → ℤ → List Hit
which day hour active per_day per_hour max_queued =
    hit_if (leb_ℤ per_hour (pos hour)) (record { kind = hourly; limit = per_hour; used = hour })
      (hit_if (leb_ℤ per_day (pos day)) (record { kind = daily; limit = per_day; used = day })
        (hit_if (leb_ℤ max_queued (pos active))
          (record { kind = queued; limit = max_queued; used = active }) []))

-- A limit in effect. `validate` has refused an override that is no integer.
unfoldable pub limit_in_effect : Grant → String → Result BudgetError ℤ
limit_in_effect grant key = elim (effective grant key) [
  | ok (int n) ↦ ok n
  | ok _ ↦ err type_error
  | err e ↦ err (policy_error e)
]

abbrev pub refuse_hits : List Hit → Result BudgetError (Unit {0})
refuse_hits [] = ok tt
refuse_hits (h ∷ hs) = err (capacity (h ∷ hs))

-- reservation.create: exclusive
unfoldable pub create : String → Reservation → Reservations → Result BudgetError Reservations
create oid rec rs =
    if not (text_in statuses (Dict.get "status" rec))
    then err reservation_invalid
    else if Dict.has oid rs
    then err file_exists
    else ok (Dict.put oid (some rec) rs)

-- reservation.replace
unfoldable pub replace : String → Reservation → Reservations → Result BudgetError Reservations
replace oid rec rs =
    if text_in statuses (Dict.get "status" rec)
    then ok (Dict.put oid (some rec) rs)
    else err reservation_invalid

-- the record that admit_new writes
abbrev pub new_reservation :
    String → String → String → String → String → String → String → String → Reservation
new_reservation oid binding gid intent seat payload day hour =
    ("outbound_id", str oid)
    ∷ ("binding_key", str binding)
    ∷ ("grant_id", str gid)
    ∷ ("intent_id", str intent)
    ∷ ("seat", str seat)
    ∷ ("payload_digest", str payload)
    ∷ ("day_key", str day)
    ∷ ("hour_key", str hour)
    ∷ ("status", str "reserved")
    ∷ []

-- what the admission of one message reads: the grants, the receipts, the binding and the calendar
pub record Env : Type 0 where
  pub dir : GrantsDir
  pub receipts : Store
  pub binding : String
  pub day : String
  pub hour : String

-- admit_new
unfoldable pub admit_new :
    Env
    → Grant
    → String
    → String
    → String
    → String
    → String
    → Reservations
    → Result BudgetError (Reservation × Reservations)
admit_new e grant oid gid intent seat payload rs = do
  per_day ← limit_in_effect grant "per_day"
  per_hour ← limit_in_effect grant "per_hour"
  max_queued ← limit_in_effect grant "max_queued"
  (day, hour, active) ← counts e.dir e.receipts e.binding e.day e.hour none rs
  refuse_hits (which day hour active per_day per_hour max_queued)
  let rec = new_reservation oid e.binding gid intent seat payload e.day e.hour
  rs' ← create oid rec rs
  ok (rec, rs')

abbrev pub same_windows : Env → Reservation → Bool
same_windows e rec =
    is_this e.day (Dict.get "day_key" rec) && is_this e.hour (Dict.get "hour_key" rec)

-- the hits of readmit_existing, which asks for room for one more
unfoldable pub which_more : ℕ → ℕ → ℤ → ℤ → List Hit
which_more day hour per_day per_hour =
    hit_if (ltb_ℤ per_hour (pos (hour + 1)))
      (record { kind = hourly; limit = per_hour; used = hour })
      (hit_if (ltb_ℤ per_day (pos (day + 1))) (record { kind = daily; limit = per_day; used = day })
        [])

abbrev pub move_windows : Env → Reservation → Reservation
move_windows e rec = Dict.put "hour_key" (str e.hour) (Dict.put "day_key" (str e.day) rec)

-- the end of readmit_existing, in another window than the record's
unfoldable pub move_into :
    Env
    → String
    → Reservation
    → List Hit
    → Reservations
    → Result BudgetError (Reservation × Reservations)
move_into e oid rec hits rs = do
  refuse_hits hits
  rs' ← replace oid (move_windows e rec) rs
  ok (move_windows e rec, rs')

-- readmit_existing for the record of `oid`
unfoldable pub readmit_existing :
    Env
    → Grant
    → String
    → Reservation
    → Reservations
    → Result BudgetError (Reservation × Reservations)
readmit_existing e grant oid rec rs = do
  per_day ← limit_in_effect grant "per_day"
  per_hour ← limit_in_effect grant "per_hour"
  (day, hour, active) ← counts e.dir e.receipts e.binding e.day e.hour (some oid) rs
  if same_windows e rec
      then ok (rec, rs)
      else move_into e oid rec (which_more day hour per_day per_hour) rs
