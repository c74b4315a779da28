-- ===== src/Slack/Examples.antt =====
-- The Slack theorems at concrete inputs, and tests of the definitions.
use agent_letter_bridge.Prelude.{
  ℕ, leb, append, ◌≡◌, ◌⊎◌, refl, String, Bool, true, false, none, some, [], ◌∷◌, Result, ok, err,
  ◌||◌, elem, ◌*◌, length,
}
use agent_letter_bridge.Prelude.Dict
use agent_letter_bridge.Prelude.Dict.{Dict}
use agent_letter_bridge.Prelude.Text.{codes, strip, eq_text, starts_with}
use agent_letter_bridge.Prelude.Number.{py_int}
use agent_letter_bridge.Json.{str, Fields, field, end, fields_dict}
use agent_letter_bridge.Slack.Events.{
  Item, clean, unescape, replace, normalise_event, source_id, is_mail, item_of, files_of, mention,
  occurs,
}
use agent_letter_bridge.Slack.{
  Markers, Adapter, Floats, socket_closed, remember, enqueue, queued, begin_fetch, requeue_inflight,
  requeue, ack, advance, bump, max_ts, ts_value, item_mark, marks_to_apply,
}
use agent_letter_bridge.Slack.Confirm.{confirm, advance_markers, cap_threads, settle, flatten}
use agent_letter_bridge.Slack.Advance.{Advanced, confirm_refines}
use agent_letter_bridge.Slack.Handled.{
  System, Steps, stop, more, fetching, showing, returning, no_item_forgotten,
}
use agent_letter_bridge.Slack.Queue.{ids, IsCovered}
use agent_letter_bridge.Slack.Pages.{
  Body, FetchError, page, failed, Window, pages_from, max_pages, all_pages,
}
use agent_letter_bridge.Slack.Catchup.{
  Identity, Progress, catch_up, read_all, read_conversation, read_pages, with_pending, add_all,
}
use agent_letter_bridge.Slack.Kept.{ack_all}
use agent_letter_bridge.Slack.Ended.{WasRead}
use agent_letter_bridge.Slack.Unread.{unread_marker_stays}
use agent_letter_bridge.Slack.Resume.{cycles, cycles-pages_from}

-- timestamps that are whole numbers
abbrev numbers : Floats
numbers = record { Value = ℕ; float = λ s. py_int (codes s); zero = 0; le = leb }

abbrev item : Item
item = record {
  update_id = "slack:T:C1:7";
  chat_id = "C1/U";
  text = codes "hi";
  photo_file_id = "";
  media_kind = "";
  message_id = "7";
  reply_to_message_id = "";
  reply_thread = "7";
  team = "T";
  channel = "C1";
  thread_ts = "";
  files = [];
}

abbrev markers : Markers
markers = record { conversations = ("C1", "5") ∷ []; threads = [] }

abbrev fresh : Adapter
fresh = record {
  connected = true;
  queue = [];
  seen = [];
  envelopes = [];
  staged = [];
  dropped = [];
  marks = [];
  dropped_marks = [];
  pending = [];
  markers = markers;
  inflight = [];
  held = [];
  file = markers;
}

-- the item is shown, returned by `fetch` and acked
abbrev acked : Adapter
acked = ack "slack:T:C1:7" (queued (remember item "E1" fresh)).0

abbrev takes_all : String → Bool
takes_all e = true

-- its confirmation
abbrev confirmed : Adapter
confirmed = (confirm numbers takes_all true acked).0

confirmed_ok : confirm numbers takes_all true acked ≡ (confirmed, ok tt)
unfolding confirm ack Dict.put Dict.get queued remember enqueue
confirmed_ok = refl

-- the marker of the conversation has moved to the item
confirmed_marker : Dict.get "C1" confirmed.file.conversations ≡ some "7"
unfolding confirm ack queued remember enqueue advance_markers Dict.get Dict.put settle cap_threads
    flatten advance marks_to_apply item_mark bump max_ts ts_value py_int strip
confirmed_marker = refl

confirm_refines_example : Advanced numbers acked confirmed
confirm_refines_example = confirm_refines numbers takes_all true acked confirmed confirmed_ok

-- a closed socket: nothing changes
abbrev closed : Adapter
closed = record acked { connected = false }

closed_err : confirm numbers takes_all true closed ≡ (closed, err socket_closed)
unfolding confirm
closed_err = refl

abbrev start : System
start = record { adapter = fresh; shown = []; confirmed = [] }

-- a fetch shows the item and returns it, and no confirmation follows
abbrev unconfirmed : System
unconfirmed = record {
  adapter = (queued (remember item "E1" (begin_fetch fresh))).0;
  shown = "slack:T:C1:7" ∷ [];
  confirmed = [];
}

fetched : Steps numbers start unconfirmed
unfolding queued remember enqueue begin_fetch requeue_inflight requeue
fetched = more start _ unconfirmed (fetching start) (
    more _ _ unconfirmed (showing item "E1" _)
      (more _ _ unconfirmed (returning _ refl) (stop unconfirmed)))

item_shown : elem "slack:T:C1:7" ("slack:T:C1:7" ∷ []) ≡ true
item_shown = refl

no_item_forgotten_example :
    IsCovered unconfirmed.adapter [] "slack:T:C1:7"
    × ((elem "slack:T:C1:7" (ids (begin_fetch unconfirmed.adapter).queue) || elem "slack:T:C1:7" [])
        ≡ true)
no_item_forgotten_example =
    no_item_forgotten numbers start unconfirmed refl refl fetched "slack:T:C1:7" item_shown

abbrev me : Identity
me = record { team = "T"; bot_user = "B" }

-- the history of each conversation answers with a server error
abbrev down : String → String → String → Window → Result FetchError Body
down method conv thread w = ok failed

abbrev before : Progress
before = record { adapter = fresh; saved = λ m c t. none }

abbrev after : Adapter
after =
    (confirm numbers takes_all true
      (ack_all [] (catch_up numbers me down "1" ("C1" ∷ []) before).0.adapter)).0

after_ok :
    confirm numbers takes_all true
      (ack_all [] (catch_up numbers me down "1" ("C1" ∷ []) before).0.adapter)
    ≡ (after, ok tt)
unfolding catch_up read_all read_conversation read_pages all_pages pages_from confirm
after_ok = refl

watched : elem "C1" ("C1" ∷ []) ≡ true
watched = refl

unread_marker_stays_example :
    WasRead numbers me down "1" "C1"
      ("C1" ∷ [])
      (with_pending (add_all ("C1" ∷ []) before.adapter.pending) before)
    ⊎ (Dict.get "C1" after.file.conversations ≡ Dict.get "C1" markers.conversations)
unread_marker_stays_example =
    unread_marker_stays numbers me down "1" ("C1" ∷ []) before [] takes_all true after after_ok "C1"
      watched

-- every page has a message and a next page
abbrev endless : Window → Result FetchError Body
endless w = ok (page ([] ∷ []) (append w.cursor "c"))

cycles-pages_from_example :
    cycles endless ("1" ∷ "5" ∷ []) none
    ≡ pages_from
        (length {A = String} ("1" ∷ "5" ∷ []) * max_pages)
        endless
        (record { oldest = "1"; cursor = "" })
        []
cycles-pages_from_example = cycles-pages_from endless "1" ("5" ∷ [])

-- a mention of the bot in a channel, and a message that names nobody
abbrev event : String → Fields
event text = field "type" (str "message") (
    field "user" (str "U")
      (field "channel" (str "C1") (field "ts" (str "7") (field "text" (str text) end))))

mention_read : normalise_event (fields_dict (event "<@B> hi")) "T" "B" "channel" ≡ some item
unfolding normalise_event clean is_mail item_of files_of mention occurs source_id Dict.get
    starts_with eq_text unescape replace strip
mention_read = refl

plain_dropped : normalise_event (fields_dict (event "hi")) "T" "B" "channel" ≡ none
unfolding normalise_event clean is_mail item_of files_of mention occurs source_id Dict.get
    starts_with eq_text
plain_dropped = refl
