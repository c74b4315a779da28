-- ===== src/Slack.antt =====
-- alb/adapters/slack/api.py: what the adapter keeps between `fetch`, `ack` and `confirm`. The socket is
-- an argument: which of the acknowledgements it took, and whether the write of the markers succeeded.
-- `Floats` stands for Python's floats: `float(text)`, `0.0` and `<=`.
-- Frames, pings, the handshake, the reading of the file of the markers and the downloads, with the
-- addresses of the files, are not modelled.
pub mod Events
pub mod Pages
pub mod Catchup
pub mod Confirm
pub mod Advance
pub mod Queue
pub mod Handled
pub mod Kept
pub mod Ended
pub mod Outbound
pub mod Resume
pub mod Unread
mod Examples
use agent_letter_bridge.Prelude.{
  String, Bool, true, false, not, ◌&&◌, ◌||◌, Option, none, some, List, [], ◌∷◌, ◌++◌, Result, ok,
  err, ◌==◌, elem, length, leb, ℕ, if◌then◌else◌,
}
use agent_letter_bridge.Prelude.Dict
use agent_letter_bridge.Prelude.Dict.{Dict}
use agent_letter_bridge.Prelude.Text.{Text, codes, starts_with}
use agent_letter_bridge.Json.{Json, str, Fields, fields_dict}
use agent_letter_bridge.Slack.Events.{Item, File, text_or}

-- how far a conversation, and one of its threads, has been handled
pub record Mark : Type 0 where
  pub conv : String
  pub ts : String
  pub thread : String

abbrev or_text : String → String → String
or_text s t = if s == "" then t else s

-- a mark needs a conversation and a timestamp
abbrev pub whole_mark : String → String → String → Option Mark
whole_mark conv ts thread =
    if conv == "" || ts == "" then none else some (record { conv = conv; ts = ts; thread = thread })

abbrev is_direct : String → Bool
is_direct conv = starts_with (codes "D") (codes conv)

-- _mark of an item
unfoldable pub item_mark : String → Item → Option Mark
unfolding starts_with
item_mark conv item =
    let conv : String = or_text item.channel conv in
    let thread : String =
      if item.thread_ts == "" && not (is_direct conv) then item.reply_thread else item.thread_ts in
    whole_mark conv item.message_id thread

-- _mark of an event that is no letter
unfoldable pub dropped_mark : String → Dict Json → Option Mark
dropped_mark conv raw =
    whole_mark (or_text (text_or (Dict.get "channel" raw)) conv) (text_or (Dict.get "ts" raw))
      (text_or (Dict.get "thread_ts" raw))

pub record Markers : Type 0 where
  pub conversations : Dict String
  pub threads : Dict (Dict String)

-- The adapter; `file` is what slack-markers.json holds.
pub record Adapter : Type 0 where
  pub connected : Bool
  pub queue : List Item
  pub seen : List String
  pub envelopes : Dict (List String)
  pub staged : Dict (List String)
  pub dropped : List String
  pub marks : Dict Mark
  pub dropped_marks : List Mark
  pub pending : List String
  pub markers : Markers
  pub inflight : List Item
  pub held : List Mark
  pub file : Markers

abbrev pub list_or : Option (List String) → List String
list_or none = []
list_or (some xs) = xs

-- an envelope id that is empty is none
abbrev pub given : String → List String
given e = if e == "" then [] else e ∷ []

abbrev pub marked : Option Mark → List Mark
marked none = []
marked (some m) = m ∷ []

-- _remember(None, envelope, raw, conv)
unfoldable pub remember_dropped : String → Dict Json → String → Adapter → Adapter
remember_dropped envelope raw conv a = record a {
  dropped = a.dropped ++ given envelope;
  dropped_marks = a.dropped_marks ++ marked (dropped_mark conv raw);
}

abbrev pub put_mark : String → Option Mark → Dict Mark → Dict Mark
put_mark id none marks = marks
put_mark id (some m) marks = Dict.put id m marks

abbrev put_envelope : String → String → Dict (List String) → Dict (List String)
put_envelope id envelope es =
    if envelope == "" then es else Dict.put id (list_or (Dict.get id es) ++ envelope ∷ []) es

-- the item is queued once for each fetch
unfoldable pub enqueue : Item → Adapter → Adapter
enqueue item a =
    if elem item.update_id a.seen
    then a
    else record a { seen = item.update_id ∷ a.seen; queue = a.queue ++ item ∷ [] }

-- _remember(item, envelope)
unfoldable pub remember : Item → String → Adapter → Adapter
remember item envelope a = enqueue item (record a {
  marks = put_mark item.update_id (item_mark "" item) a.marks;
  envelopes = put_envelope item.update_id envelope a.envelopes;
})

-- _queued: what `fetch` returns is in flight until `confirm`
unfoldable pub queued : Adapter → Adapter × List Item
queued a = (record a { queue = []; inflight = a.queue }, a.queue)

unfoldable pub requeue : List Item → Adapter → Adapter
requeue [] a = a
requeue (i ∷ is) a = requeue is (enqueue i a)

-- _requeue_inflight
unfoldable pub requeue_inflight : Adapter → Adapter
requeue_inflight a = requeue a.inflight (record a { inflight = [] })

-- the start of `fetch`
unfoldable pub begin_fetch : Adapter → Adapter
begin_fetch a = requeue_inflight (record a { seen = [] })

-- ack(update_id)
unfoldable pub ack : String → Adapter → Adapter
ack id a = record a {
  envelopes = Dict.pop id a.envelopes;
  staged =
      Dict.put id (list_or (Dict.get id a.staged) ++ list_or (Dict.get id a.envelopes)) a.staged;
}

-- list(self._staged)
abbrev pub keys {ℓ} : {V : Type ℓ} → Dict V → List String
keys [] = []
keys ((k, v) ∷ d) = k ∷ keys d

-- _marks_to_apply
abbrev pub marks_of : Dict Mark → List String → List Mark
marks_of marks [] = []
marks_of marks (id ∷ ids) = marked (Dict.get id marks) ++ marks_of marks ids

unfoldable pub marks_to_apply : Adapter → List String → List Mark
marks_to_apply a acked = marks_of a.marks acked ++ a.dropped_marks

abbrev pub pop_all {ℓ} : {V : Type ℓ} → List String → Dict V → Dict V
pop_all [] d = d
pop_all (k ∷ ks) d = pop_all ks (Dict.pop k d)

-- the envelopes to acknowledge, in the order of the sends
abbrev pub all_envelopes : Dict (List String) → List String
all_envelopes [] = []
all_envelopes ((k, es) ∷ d) = es ++ all_envelopes d

pub data ConfirmError : Type 0 where
  socket_closed send_failed write_failed : ConfirmError

abbrev pub put_ts : String → Option String → Dict String → Dict String
put_ts k none d = d
put_ts k (some ts) d = Dict.put k ts d

abbrev pub dict_or : Option (Dict String) → Dict String
dict_or none = []
dict_or (some d) = d

pub record Floats : Type 1 where
  pub Value : Type 0
  pub float : String → Option Value
  pub zero : Value
  pub le : Value → Value → Bool

module _ (floats : Floats) where
  open floats use {Value, float, zero, le}

  -- _ts_value
  unfoldable pub ts_value : String → Value
  ts_value ts = elim (float ts) [ none ↦ zero | some v ↦ v ]

  -- _max_ts
  unfoldable pub max_ts : Option String → String → Option String
  max_ts current candidate = if candidate == "" then current else elim current [
    | none ↦ some candidate
    | some c ↦ if le (ts_value c) (ts_value candidate) then some candidate else some c
  ]

  -- _bump; a mark has a timestamp, so the new marker is never None
  unfoldable pub bump : Mark → Markers → Markers
  bump m s =
      let conversations : Dict String =
        put_ts m.conv (max_ts (Dict.get m.conv s.conversations) m.ts) s.conversations in
      if m.thread == ""
      then record s { conversations = conversations }
      else (let mapping : Dict String = dict_or (Dict.get m.conv s.threads) in
          record {
            conversations = conversations;
            threads =
                Dict.put m.conv (put_ts m.thread (max_ts (Dict.get m.thread mapping) m.ts) mapping)
                  s.threads;
          })

  -- the loop of _advance_markers: the markers, and the marks of conversations still being caught up
  unfoldable pub advance : List String → List Mark → Markers × List Mark → Markers × List Mark
  advance pending [] (s, held) = (s, held)
  advance pending (m ∷ ms) (s, held) =
      advance pending ms (if elem m.conv pending then (s, held ++ m ∷ []) else (bump m s, held))
