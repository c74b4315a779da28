-- ===== src/Slack/Pages.antt =====
-- alb/adapters/slack/api.py: _all_pages with _history_call, the cursor that it keeps from one cycle to
-- the next, and _read_conversation. The Web API is an argument: what a call with these parameters
-- returns or raises. `Message` is an object of a page.
use agent_letter_bridge.Prelude.{
  ℕ, zero, suc, String, Bool, true, false, ◌||◌, Option, none, some, List, [], ◌∷◌, ◌++◌, Result,
  ok, err, ◌==◌, eqb, leb, elem, if◌then◌else◌,
}
use agent_letter_bridge.Prelude.Dict
use agent_letter_bridge.Prelude.Dict.{Dict}
use agent_letter_bridge.Json.{Json, bool, arr, obj, fields_dict, items_list, truthy}
use agent_letter_bridge.Allowlist.{as_text}
use agent_letter_bridge.Slack.Events.{text_or}

-- what one call of the Web API returns or raises; `lost` is an OSError, `unreadable` a ValueError
pub data Reply : Type 0 where
  returned : Json → Reply
  http_error : ℕ → Reply
  lost unreadable : Reply

pub data FetchError : Type 0 where
  fetch_failed transient_failure value_error : FetchError

-- what _history_call makes of a reply; `failed` is None
pub data Body : Type 0 where
  page : List (Dict Json) → String → Body
  skip restart failed : Body

-- the parameters that change from call to call
pub record Window : Type 0 where
  pub oldest : String
  pub cursor : String

abbrev pub refused_errors : List String
refused_errors =
    "invalid_auth" ∷ "not_authed" ∷ "token_revoked" ∷ "account_inactive" ∷ "not_allowed_token_type"
    ∷ []

-- the messages that are objects
abbrev pub objects : List Json → List (Dict Json)
objects [] = []
objects (obj fs ∷ vs) = fields_dict fs ∷ objects vs
objects (v ∷ vs) = objects vs

abbrev pub messages_of : Option Json → List (Dict Json)
messages_of (some (arr xs)) = objects (items_list xs)
messages_of _ = []

abbrev pub next_cursor : Option Json → String
next_cursor (some (obj fs)) = text_or (Dict.get "next_cursor" (fields_dict fs))
next_cursor _ = ""

-- `str(body.get("error") or "unknown")`
abbrev error_text : (Json → String) → Option Json → String
error_text show none = "unknown"
error_text show (some v) = if truthy v then as_text show v else "unknown"

-- the error of an answer that is not ok
unfoldable pub history_error : String → Result FetchError Body
history_error error =
    if error == "not_in_channel" || error == "channel_not_found"
    then ok skip
    else if error == "invalid_cursor"
    then ok restart
    else if elem error refused_errors
    then err fetch_failed
    else err transient_failure

abbrev is_refusal : Option Json → Bool
is_refusal (some (bool false)) = true
is_refusal _ = false

-- `_history_call`; `show` is Python's `str` of an error that is no text
unfoldable pub history_call : (Json → String) → Reply → Result FetchError Body
history_call show (returned (obj fs)) =
    let body : Dict Json = fields_dict fs in
    if is_refusal (Dict.get "ok" body)
    then history_error (error_text show (Dict.get "error" body))
    else ok (
        page (messages_of (Dict.get "messages" body))
          (next_cursor (Dict.get "response_metadata" body)))
history_call show (returned v) = ok failed
history_call show (http_error status) =
    if eqb status 429
    then err transient_failure
    else if leb 500 status
    then ok failed
    else err fetch_failed
history_call show lost = ok failed
history_call show unreadable = err value_error

-- how the pages of one cycle end: `partial` keeps the window of the next page
pub data Pages : Type 0 where
  done : List (Dict Json) → Pages
  partial : Window → List (Dict Json) → Pages
  skipped broken restarted : Pages

abbrev pub max_pages : ℕ
max_pages = 10

-- one page; `next` reads the pages after it
abbrev pub page_step :
    (Window → List (Dict Json) → Result FetchError Pages)
    → Window
    → List (Dict Json)
    → Result FetchError Body
    → Result FetchError Pages
page_step next w found (err e) = err e
page_step next w found (ok failed) = ok broken
page_step next w found (ok skip) = ok skipped
page_step next w found (ok restart) = ok restarted
page_step next w found (ok (page messages cursor)) =
    if cursor == ""
    then ok (done (found ++ messages))
    else next (record { oldest = w.oldest; cursor = cursor }) (found ++ messages)

-- the loop of _all_pages, with the number of pages that are left
unfoldable pub pages_from :
    ℕ → (Window → Result FetchError Body) → Window → List (Dict Json) → Result FetchError Pages
pages_from zero call w found = ok (partial w found)
pages_from (suc k) call w found = page_step (pages_from k call) w found (call w)

abbrev pub window_or : String → Option Window → Window
window_or oldest none = record { oldest = oldest; cursor = "" }
window_or oldest (some w) = w

-- the saved window after a cycle: a read that broke off keeps the one it began with
abbrev pub saved_after : Pages → Option Window → Option Window
saved_after (done ms) saved = none
saved_after (partial w ms) saved = some w
saved_after skipped saved = none
saved_after broken saved = saved
saved_after restarted saved = none

abbrev pub save_window : Result FetchError Pages → Option Window → Option Window
save_window (ok r) saved = saved_after r saved
save_window (err e) saved = saved

-- _all_pages, with the window that it leaves for the next cycle
unfoldable pub all_pages :
    (Window → Result FetchError Body)
    → String
    → Option Window
    → Result FetchError Pages × Option Window
all_pages call oldest saved =
    let r : Result FetchError Pages = pages_from max_pages call (window_or oldest saved) [] in
    (r, save_window r saved)
