-- ===== src/Slack/Outbound.antt =====
-- alb/adapters/slack/outbound.py, with `call` of web.py: what a send to Slack comes to. The HTTP calls
-- are arguments. `show` is Python's `str` of a value that is no text. Only what the messages of a
-- failure begin with is kept.
pub mod Outcomes
pub mod Photos
mod Examples
pub mod Escapes
use agent_letter_bridge.Prelude.{
  ℕ, String, Bool, true, false, not, ◌&&◌, ◌||◌, Option, none, some, List, [], ◌∷◌, ◌++◌, Result,
  ok, err, ◌>>=◌, ◌>>◌, require, ◌==◌, append, eqb, leb, ltb, elem, length, if◌then◌else◌,
}
use agent_letter_bridge.Prelude.Dict
use agent_letter_bridge.Prelude.Dict.{Dict}
use agent_letter_bridge.Prelude.Text.{Text, codes, eq_text, starts_with, partition, all_chars}
use agent_letter_bridge.Json.{Json, bool, str, obj, fields_dict, truthy}
use agent_letter_bridge.Allowlist.{as_text}
use agent_letter_bridge.Initiate.{Answer, accepted, throttles, refuses, is_ambiguous, fails}
use agent_letter_bridge.Media.{Bytes, MediaError, MediaType, preflight}
use agent_letter_bridge.Slack.Events.{replace, text_or}

-- How one call ends; `lost` is an OSError, `unreadable` a ValueError, `unclassified` any other exception
-- without a status.
pub data CallEnd : Type 0 where
  returned : Json → CallEnd
  http_error : ℕ → CallEnd
  lost unreadable : CallEnd
  unclassified : String → CallEnd

-- an HTTP answer: its status, and its body where that is JSON
pub record Response : Type 0 where
  pub status : ℕ
  pub body : Option Json

abbrev pub read_body : Option Json → CallEnd
read_body none = unreadable
read_body (some v) = returned v

-- `call` of web.py, where there is an answer
unfoldable pub web_call : Response → CallEnd
web_call r = if eqb r.status 200 then read_body r.body else http_error r.status

abbrev pub max_text : ℕ
max_text = 40_000

abbrev pub ambiguous_errors : List String
ambiguous_errors = "internal_error" ∷ "fatal_error" ∷ "service_unavailable" ∷ "request_timeout" ∷ []

abbrev is_upper : ℕ → Bool
is_upper c = leb b'A' c && leb c b'Z'

abbrev is_conversation_char : ℕ → Bool
is_conversation_char c = is_upper c || (leb b'0' c && leb c b'9')

-- _CONVERSATION.fullmatch
unfoldable pub is_conversation : Text → Bool
is_conversation (c ∷ d ∷ t) =
    (eqb c b'C' || (eqb c b'D' || eqb c b'G')) && all_chars is_conversation_char (d ∷ t)
is_conversation _ = false

-- conversation_of
unfoldable pub conversation_of : Text → Result Answer Text
conversation_of chat_id =
    let (conversation, sep, member) = partition b'/' chat_id in
    if sep && (is_conversation conversation && not (eq_text member []))
    then ok conversation
    else err (refuses "not a Slack conversation")

-- escape
unfoldable pub escape : Text → Text
escape t =
    replace (codes ">") (codes "&gt;")
      (replace (codes "<") (codes "&lt;") (replace (codes "&") (codes "&amp;") t))

abbrev is_code_char : ℕ → Bool
is_code_char c = eqb c b'_' || (leb b'a' c && leb c b'z')

-- _ERROR_CODE.fullmatch
unfoldable pub is_error_code : Text → Bool
is_error_code t = not (eq_text t []) && (leb (length t) 64 && all_chars is_code_char t)

-- _error_code
unfoldable pub error_code : Dict Json → String
error_code payload =
    let error : String = text_or (Dict.get "error" payload) in
    if is_error_code (codes error) then error else "unknown"

-- the answer to an error code
unfoldable pub coded_failure : String → Answer
coded_failure error =
    if elem error ambiguous_errors
    then is_ambiguous (append "slack reported " error)
    else if error == "ratelimited"
    then throttles "throttled: ratelimited"
    else refuses (append "refused: " error)

abbrev pub is_ok : Option Json → Bool
is_ok (some (bool true)) = true
is_ok _ = false

-- _post, of how its call ended
unfoldable pub post : CallEnd → Result Answer (Dict Json)
post (returned (obj fs)) =
    if is_ok (Dict.get "ok" (fields_dict fs))
    then ok (fields_dict fs)
    else err (coded_failure (error_code (fields_dict fs)))
post (returned v) = err (is_ambiguous "unreadable response")
post (http_error status) =
    if eqb status 429
    then err (throttles "throttled with HTTP 429")
    else if leb 500 status
    then err (is_ambiguous "server error HTTP")
    else err (refuses "refused with HTTP")
post lost = err (is_ambiguous "network failure")
post unreadable = err (is_ambiguous "unreadable response")
post (unclassified name) = err (fails name)

-- _check_length
unfoldable pub check_length : Text → Result Answer (Unit {0})
check_length body =
    require (not (ltb max_text (length body))) (refuses "text longer than Slack accepts")

-- Sender.check_text
unfoldable pub check_text : Text → Result Answer (Unit {0})
check_text text = check_length (escape text)

-- the parameters of chat.postMessage that change; an empty thread is none
pub record Params : Type 0 where
  pub channel : Text
  pub text : Text
  pub thread_ts : Text

-- the part of `send` before its call
unfoldable pub prepare : Text → Text → Text → Result Answer Params
prepare chat_id text thread = do
  conversation ← conversation_of chat_id
  check_length (escape text)
  ok (record { channel = conversation; text = escape text; thread_ts = thread })

abbrev shown_or : (Json → String) → Option Json → Text
shown_or show none = []
shown_or show (some v) = if truthy v then codes (as_text show v) else []

abbrev pub finish_send : (Json → String) → Result Answer (Dict Json) → Answer
finish_send show (ok payload) = accepted (shown_or show (Dict.get "ts" payload))
finish_send show (err a) = a

abbrev pub send_prepared : (Json → String) → (Params → CallEnd) → Result Answer Params → Answer
send_prepared show call (ok params) = finish_send show (post (call params))
send_prepared show call (err a) = a

-- send
unfoldable pub send : (Json → String) → (Params → CallEnd) → Text → Text → Text → Answer
send show call chat_id text thread = send_prepared show call (prepare chat_id text thread)

-- how the bytes were taken: an HTTP status, an OSError, or any other exception
pub data Upload : Type 0 where
  status : ℕ → Upload
  upload_lost : Upload
  upload_raised : String → Upload

-- the network of `send_photo`: the request of an upload, the bytes, and the completion, with the file
-- id, the conversation, the comment and the thread
pub record Network : Type 0 where
  pub request : MediaType → ℕ → CallEnd
  pub upload : Text → Bytes → Upload
  pub complete : Text → Text → Text → Text → CallEnd

abbrev upload_prefix : Text
upload_prefix = codes "https://files.slack.com/"

-- an ambiguous request of an upload has posted nothing
abbrev pub unstarted : Answer → Answer
unstarted (is_ambiguous d) = refuses "upload not started"
unstarted a = a

abbrev pub lift_media : {A : Type 0} → Result MediaError A → Result Answer A
lift_media (ok a) = ok a
lift_media (err e) = err (fails "MediaError")

abbrev pub lift_ticket : Result Answer (Dict Json) → Result Answer (Dict Json)
lift_ticket (ok payload) = ok payload
lift_ticket (err a) = err (unstarted a)

-- the upload address and the file id, where they are usable
unfoldable pub offered : Dict Json → Result Answer (Text × Text)
offered ticket =
    let url : Text = codes (text_or (Dict.get "upload_url" ticket)) in
    let file_id : Text = codes (text_or (Dict.get "file_id" ticket)) in
    if starts_with upload_prefix url && not (eq_text file_id [])
    then ok (url, file_id)
    else err (refuses "upload not offered")

abbrev pub uploaded : Upload → Result Answer (Unit {0})
uploaded (status n) = require (eqb n 200) (refuses "upload refused with HTTP")
uploaded upload_lost = err (refuses "upload failed")
uploaded (upload_raised name) = err (fails name)

-- send_photo up to the completion: the conversation and the file id
unfoldable pub stage_photo : Network → Text → Bytes → Text → Result Answer (Text × Text)
stage_photo net chat_id bytes caption = do
  conversation ← conversation_of chat_id
  checked ← lift_media (preflight bytes caption)
  ticket ← lift_ticket (post (net.request checked.0 (length bytes)))
  offer ← offered ticket
  uploaded (net.upload offer.0 bytes)
  ok (conversation, offer.1)

abbrev pub finish_photo : Text → Result Answer (Dict Json) → Answer
finish_photo file_id (ok payload) = accepted file_id
finish_photo file_id (err a) = a

abbrev pub complete_photo : Network → Text → Text → Result Answer (Text × Text) → Answer
complete_photo net caption thread (err a) = a
complete_photo net caption thread (ok (conversation, file_id)) =
    finish_photo file_id (post (net.complete file_id conversation (escape caption) thread))

-- send_photo
unfoldable pub send_photo : Network → Text → Bytes → Text → Text → Answer
send_photo net chat_id bytes caption thread =
    complete_photo net caption thread (stage_photo net chat_id bytes caption)
