-- ===== src/Slack/Catchup.antt =====
-- alb/adapters/slack/api.py: _queue_history, _normalise_history, _oldest_conversation,
-- _read_conversation and the loop of _catch_up. `call` stands for the Web API: what a call for a method,
-- a conversation, a thread (empty for the history) and a window comes to. `first_oldest` is the start
-- of the first run's window, a text that the clock gives.
use agent_letter_bridge.Prelude.{
  String, not, ◌&&◌, Option, none, some, List, [], ◌∷◌, Result, ok, err, ◌==◌, elem, filter_by,
  if◌then◌else◌,
}
use agent_letter_bridge.Prelude.Dict
use agent_letter_bridge.Prelude.Dict.{Dict}
use agent_letter_bridge.Prelude.Text.{codes, starts_with}
use agent_letter_bridge.Json.{Json, str}
use agent_letter_bridge.Slack.Events.{Item, normalise_event, text_or}
use agent_letter_bridge.Slack.{Adapter, Floats, ts_value, remember, remember_dropped, dict_or}
use agent_letter_bridge.Slack.Pages.{
  Body, FetchError, Pages, done, partial, skipped, broken, restarted, Window, all_pages,
}

-- who the adapter is, as auth.test told it
pub record Identity : Type 0 where
  pub team : String
  pub bot_user : String

-- event.setdefault(key, v)
abbrev set_default : String → Json → Dict Json → Dict Json
set_default k v d = if Dict.has k d then d else Dict.put k v d

abbrev with_channel : String → Dict Json → Dict Json
with_channel conv d =
    if text_or (Dict.get "channel" d) == "" then Dict.put "channel" (str conv) d else d

-- _normalise_history
unfoldable pub normalise_history : Identity → String → Dict Json → Option Item
normalise_history me conv message =
    normalise_event (with_channel conv (set_default "type" (str "message") message)) me.team
      me.bot_user (if starts_with (codes "D") (codes conv) then "im" else "channel")

-- _remember of one row
unfoldable pub remember_row : Identity → String → Dict Json → Adapter → Adapter
remember_row me conv message a = elim (normalise_history me conv message) [
  | none ↦ remember_dropped "" message conv a
  | some item ↦ remember item "" a
]

abbrev pub remember_rows : Identity → String → List (Dict Json) → Adapter → Adapter
remember_rows me conv [] a = a
remember_rows me conv (m ∷ ms) a = remember_rows me conv ms (remember_row me conv m a)

-- the windows of the reads that stopped at the cap, by method, conversation and thread
abbrev pub Continuations : Type 0
Continuations = String → String → String → Option Window

abbrev pub save_at : String → String → String → Option Window → Continuations → Continuations
save_at method conv thread w saved m c t =
    if m == method && (c == conv && t == thread) then w else saved m c t

pub record Progress : Type 0 where
  pub adapter : Adapter
  pub saved : Continuations

-- how the reading of a conversation ends; it is read to its end only where it is `finished`
pub data Stop : Type 0 where
  finished unfinished : Stop
  raised : FetchError → Stop

abbrev pub add_pending : String → List String → List String
add_pending conv pending = if elem conv pending then pending else conv ∷ pending

abbrev pub discard : String → List String → List String
discard conv pending = filter_by (λ (c : String). not (c == conv)) pending

abbrev pub with_pending : List String → Progress → Progress
with_pending pending p = record p { adapter = record p.adapter { pending = pending } }

abbrev pub first_window : String → Option String → String
first_window first_oldest none = first_oldest
first_window first_oldest (some marker) = if marker == "" then first_oldest else marker

module _ (floats : Floats) where
  ts_of : Dict Json → floats.Value
  ts_of message = ts_value floats (text_or (Dict.get "ts" message))

  abbrev insert_row : Dict Json → List (Dict Json) → List (Dict Json)
  insert_row m [] = m ∷ []
  insert_row m (n ∷ ns) =
      let rest = insert_row m ns in if floats.le (ts_of m) (ts_of n) then m ∷ n ∷ ns else n ∷ rest

  -- rows.sort by the timestamp
  unfoldable pub sort_rows : List (Dict Json) → List (Dict Json)
  unfolding ts_of
  sort_rows [] = []
  sort_rows (m ∷ ms) = insert_row m (sort_rows ms)

  -- _queue_history
  unfoldable pub queue_history : Identity → String → List (Dict Json) → Progress → Progress
  queue_history me conv messages p = record p {
    adapter = remember_rows me conv (sort_rows messages) p.adapter;
  }

  module _ (me : Identity) (call : String → String → String → Window → Result FetchError Body) where
    -- one read of pages; the pages that it found are queued
    unfoldable pub read_pages :
        String → String → String → String → Progress → Progress × Result FetchError Pages
    read_pages method conv thread oldest p =
        let (r, window) = all_pages (call method conv thread) oldest (p.saved method conv thread) in
        (record p { saved = save_at method conv thread window p.saved }, r)

    -- the end of a thread's read, and what follows it
    abbrev pub thread_end :
        String → (Progress → Progress × Stop) → Progress × Result FetchError Pages → Progress × Stop
    thread_end conv next (p, err e) = (p, raised e)
    thread_end conv next (p, ok (done ms)) = next (queue_history me conv ms p)
    thread_end conv next (p, ok (partial w ms)) = (queue_history me conv ms p, unfinished)
    thread_end conv next (p, ok skipped) = next p
    thread_end conv next (p, ok broken) = (p, unfinished)
    thread_end conv next (p, ok restarted) = (p, unfinished)

    -- the loop over the threads of a conversation
    unfoldable pub read_threads : String → Dict String → Progress → Progress × Stop
    read_threads conv [] p = (p, finished)
    read_threads conv ((thread, marker) ∷ rest) p =
        thread_end conv (read_threads conv rest)
          (read_pages "conversations.replies" conv thread marker p)

    -- `self._pending.discard(conv)`, where the conversation was read to its end
    abbrev pub close : String → Progress × Stop → Progress × Stop
    close conv (p, finished) = (with_pending (discard conv p.adapter.pending) p, finished)
    close conv (p, unfinished) = (p, unfinished)
    close conv (p, raised e) = (p, raised e)

    -- the end of the history's read; the threads are those of the markers
    abbrev pub history_end : String → Progress × Result FetchError Pages → Progress × Stop
    history_end conv (p, err e) = (p, raised e)
    history_end conv (p, ok (done ms)) = close conv (
        read_threads conv (dict_or (Dict.get conv p.adapter.markers.threads))
          (queue_history me conv ms p))
    history_end conv (p, ok (partial w ms)) = (queue_history me conv ms p, unfinished)
    history_end conv (p, ok skipped) = close conv (p, finished)
    history_end conv (p, ok broken) = (p, unfinished)
    history_end conv (p, ok restarted) = (p, unfinished)

    -- _read_conversation
    unfoldable pub read_conversation : String → String → Progress → Progress × Stop
    read_conversation first_oldest conv p =
        let begun : Progress = with_pending (add_pending conv p.adapter.pending) p in
        history_end conv (
          read_pages "conversations.history" conv ""
            (first_window first_oldest (Dict.get conv p.adapter.markers.conversations)) begun)

    abbrev pub unless_raised : (Progress → Progress × Stop) → Progress × Stop → Progress × Stop
    unless_raised next (p, raised e) = (p, raised e)
    unless_raised next (p, finished) = next p
    unless_raised next (p, unfinished) = next p

    -- the second loop of _catch_up, and that of _retry_pending: a raise does not reach the rest
    unfoldable pub read_all : String → List String → Progress → Progress × Stop
    read_all first_oldest [] p = (p, finished)
    read_all first_oldest (conv ∷ convs) p =
        unless_raised (read_all first_oldest convs) (read_conversation first_oldest conv p)

abbrev pub add_all : List String → List String → List String
add_all [] pending = pending
add_all (conv ∷ convs) pending = add_all convs (add_pending conv pending)

-- _catch_up over the watched conversations: all are pending before the first is read
unfoldable pub catch_up :
    Floats
    → Identity
    → (String → String → String → Window → Result FetchError Body)
    → String
    → List String
    → Progress
    → Progress × Stop
catch_up floats me call first_oldest watched p =
    read_all floats me call first_oldest watched
      (with_pending (add_all watched p.adapter.pending) p)
