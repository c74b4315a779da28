-- ===== src/Telegram.antt =====
-- alb/adapters/telegram/api.py: what the adapter makes of the platform's answers, and its mark of the
-- updates that are handled. The HTTP calls are arguments: a `Wire` is how one ended. `show` is Python's
-- `str` of a value that is no text, `int_text` its `int` of a text. The download and the upload of
-- photos are not modelled.
pub mod Message
pub mod Outcomes
pub mod Marks
mod Examples
use agent_letter_bridge.Prelude.{
  ℕ, ◌+◌, String, Bool, true, false, not, ◌&&◌, ◌||◌, Option, none, some, List, [], ◌∷◌, Result, ok,
  err, ◌>>=◌, ◌==◌, eqb, leb, if◌then◌else◌,
}
use agent_letter_bridge.Prelude.Dict
use agent_letter_bridge.Prelude.Int.{ℤ, pos, pos_part, neg_part, sub_ℕ, ltb_ℤ}
use agent_letter_bridge.Prelude.Text.{Text, codes}
use agent_letter_bridge.Prelude.Number.{py_int}
use agent_letter_bridge.Json.{
  Json, null, int, str, obj, field, end, fields_dict, items_list, arr, nil, truthy, ConvError,
  value_error, type_error, overflow_error,
}
use agent_letter_bridge.Allowlist.{as_text}
use agent_letter_bridge.Watchdog.{max_retry_after}
use agent_letter_bridge.Initiate.{Answer, accepted, throttles, refuses, is_ambiguous, fails}
use agent_letter_bridge.Telegram.Message.{
  Item, ShapeError, attribute_error, conversion, int_json, get_or, or_else, read_updates,
}

-- an error answer: its code, its body where that is JSON, and its Retry-After header
pub record HttpError : Type 0 where
  pub status : ℕ
  pub body : Option Json
  pub retry_header : Option String

-- how one HTTP call ended; `not_json` is an answer that json.loads refuses
pub data Wire : Type 0 where
  answered : Json → Wire
  not_json no_network : Wire
  http_error : HttpError → Wire

-- _sane(seconds)
unfoldable pub sane : (Json → String) → Json → Option ℕ
sane show seconds = elim (py_int (codes (as_text show seconds))) [
  | none ↦ none
  | some n ↦ if leb 1 n && leb n max_retry_after then some n else none
]

abbrev or_null : Option Json → Json
or_null none = null
or_null (some v) = v

-- the `retry_after` of the parameters, where they are an object
unfoldable pub parameter_seconds : (Json → String) → Option Json → Option ℕ
parameter_seconds show (some (obj ps)) =
    sane show (or_null (Dict.get "retry_after" (fields_dict ps)))
parameter_seconds show _ = none

-- the number that the body names
unfoldable pub body_seconds : (Json → String) → Option Json → Option ℕ
body_seconds show (some (obj fs)) = parameter_seconds show (Dict.get "parameters" (fields_dict fs))
body_seconds show _ = none

abbrev header_seconds : (Json → String) → Option String → Option ℕ
header_seconds show none = sane show null
header_seconds show (some h) = sane show (str h)

-- _retry_after(exc): the body first, the header only where the body names no number
unfoldable pub retry_after : (Json → String) → HttpError → Option ℕ
retry_after show e = elim (body_seconds show e.body) [
  | some n ↦ some n
  | none ↦ header_seconds show e.retry_header
]

pub data PollError : Type 0 where
  conflict fetch_failed : PollError
  transient : Option ℕ → PollError
  shape_error : ShapeError → PollError
  json_error : PollError

-- an error answer to getUpdates, in `fetch` and in `confirm`
unfoldable pub poll_failure : (Json → String) → HttpError → PollError
poll_failure show e =
    if eqb e.status 409
    then conflict
    else if eqb e.status 429 || leb 500 e.status
    then transient (retry_after show e)
    else fetch_failed

abbrev lift_shape : {A : Type 0} → Result ShapeError A → Result PollError A
lift_shape (ok a) = ok a
lift_shape (err e) = err (shape_error e)

-- `payload.get("result", [])`, iterated over: the keys of an object and the characters of a text have
-- no `get`, and nothing else can be iterated over
abbrev result_list : Json → Result ShapeError (List Json)
result_list (arr xs) = ok (items_list xs)
result_list (obj end) = ok []
result_list (obj (field k v fs)) = err attribute_error
result_list (str s) = if s == "" then ok [] else err attribute_error
result_list v = err (conversion type_error)

-- what `fetch` makes of the end of its call
unfoldable pub fetch : (String → Option ℤ) → (Json → String) → Wire → Result PollError (List Item)
fetch int_text show (answered payload) = lift_shape (do
  found ← get_or "result" (arr nil) payload
  xs ← result_list found
  read_updates int_text show xs)
fetch int_text show not_json = err json_error
fetch int_text show no_network = err (transient none)
fetch int_text show (http_error e) = err (poll_failure show e)

-- the message id of a send's answer, `str(((payload or {}).get("result") or {}).get("message_id", ""))`
unfoldable pub sent_id : (Json → String) → Json → Result ShapeError Text
sent_id show payload = do
  found ← get_or "result" null (or_else payload (obj end))
  id ← get_or "message_id" (str "") (or_else found (obj end))
  ok (codes (as_text show id))

-- _outbound_failure of an error answer
unfoldable pub outbound_failure : HttpError → Answer
outbound_failure e =
    if leb 500 e.status
    then is_ambiguous "server error"
    else if eqb e.status 429
    then throttles "throttled"
    else refuses "refused"

abbrev answer_id : Result ShapeError Text → Answer
answer_id (ok id) = accepted id
answer_id (err e) = fails "AttributeError"

-- what `send` returns or raises, as the send path sees it
unfoldable pub send : (Json → String) → Wire → Answer
send show (answered payload) = answer_id (sent_id show payload)
send show not_json = fails "JSONDecodeError"
send show no_network = is_ambiguous "network failure"
send show (http_error e) = outbound_failure e

-- The file of the mark; `no_path` is an adapter that keeps none.
pub data OffsetFile : Type 0 where
  no_path no_file unreadable : OffsetFile
  holds : Json → OffsetFile

pub record Bot : Type 0 where
  pub acked : Option ℤ
  pub file : OffsetFile

abbrev is_mark_error : ConvError → Bool
is_mark_error overflow_error = false
is_mark_error _ = true

abbrev mark_or_none : Result ConvError ℤ → Result ConvError (Option ℤ)
mark_or_none (ok n) = ok (some n)
mark_or_none (err e) = if is_mark_error e then ok none else err e

-- _load_offset: an OverflowError is not among the exceptions that it takes for an unreadable mark
unfoldable pub load_offset : (String → Option ℤ) → OffsetFile → Result ConvError (Option ℤ)
load_offset int_text (holds (obj fs)) = elim (Dict.get "acked" (fields_dict fs)) [
  | none ↦ ok none
  | some v ↦ mark_or_none (int_json int_text v)
]
load_offset int_text _ = ok none

-- `json.dumps({"acked": self._acked})`, as a value
abbrev pub mark_json : ℤ → Json
mark_json n = obj (field "acked" (int n) end)

-- what _save_offset leaves in the file
abbrev pub saved_file : Option ℤ → OffsetFile → OffsetFile
saved_file none file = file
saved_file (some n) no_path = no_path
saved_file (some n) _ = holds (mark_json n)

-- _save_offset
unfoldable pub save_offset : Bot → Bot
save_offset b = record b { file = saved_file b.acked b.file }

abbrev pub next_ℤ : ℤ → ℤ
next_ℤ n = sub_ℕ (pos_part n + 1) (neg_part n)

-- the offset that a call of getUpdates carries after the mark
abbrev pub offset_after : Option ℤ → Option ℤ
offset_after none = none
offset_after (some n) = some (next_ℤ n)

unfoldable pub next_offset : Bot → Option ℤ
next_offset b = offset_after b.acked

abbrev pub is_new : Option ℤ → ℤ → Bool
is_new none id = true
is_new (some n) id = ltb_ℤ n id

-- ack(update_id): in memory only
unfoldable pub ack : ℤ → Bot → Bot
ack id b = if is_new b.acked id then record b { acked = some id } else b

-- confirm after its call
unfoldable pub confirm_after : (Json → String) → Wire → Bot → Bot × Result PollError (Unit {0})
confirm_after show (answered payload) b = (save_offset b, ok tt)
confirm_after show not_json b = (b, err json_error)
confirm_after show no_network b = (b, err (transient none))
confirm_after show (http_error e) b = (b, err (poll_failure show e))

abbrev pub confirm_mark :
    (Json → String) → Wire → Option ℤ → Bot → Bot × Result PollError (Unit {0})
confirm_mark show wire none b = (b, ok tt)
confirm_mark show wire (some n) b = confirm_after show wire b

-- confirm(), where the call, if there is one, ends as `wire`
unfoldable pub confirm : (Json → String) → Wire → Bot → Bot × Result PollError (Unit {0})
confirm show wire b = confirm_mark show wire b.acked b
