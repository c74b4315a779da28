-- ===== src/Slack/Kept.antt =====
-- What the readings and the acks of the Slack adapter leave alone: the pending conversations and the
-- markers.
use agent_letter_bridge.Prelude.{
  ◌≡◌, refl, ◌∙◌, String, Option, none, some, List, [], ◌∷◌, Result, ok, err, arith,
}
use agent_letter_bridge.Prelude.Dict.{Dict}
use agent_letter_bridge.Json.{Json}
use agent_letter_bridge.Slack.Events.{Item}
use agent_letter_bridge.Slack.{Adapter, Floats, remember, remember_dropped, enqueue, ack}
use agent_letter_bridge.Slack.Pages.{
  Body, FetchError, Pages, done, partial, skipped, broken, restarted, Window,
}
use agent_letter_bridge.Slack.Catchup.{
  Identity, Progress, remember_row, remember_rows, normalise_history, queue_history, sort_rows,
  read_pages, thread_end, read_threads,
}

-- what the marker of a conversation depends on
pub record Same (a b : Adapter) : Type 0 where
  pub pending : a.pending ≡ b.pending
  pub markers : a.markers ≡ b.markers

abbrev both : {a b : Adapter} → a.pending ≡ b.pending → a.markers ≡ b.markers → Same a b
both h k = record { pending = h; markers = k }

pub same_refl : (a : Adapter) → Same a a
same_refl a = both refl refl

pub same_trans : {a b c : Adapter} → Same a b → Same b c → Same a c
same_trans h k = both (h.pending ∙ k.pending) (h.markers ∙ k.markers)

enqueue_same : (i : Item) (a : Adapter) → Same (enqueue i a) a
unfolding enqueue
enqueue_same i a = both (ground arith) (ground arith)

remember_same : (i : Item) (envelope : String) (a : Adapter) → Same (remember i envelope a) a
unfolding remember
remember_same i envelope a = same_trans (enqueue_same i _) (both refl refl)

remember_row_same :
    (me : Identity) (conv : String) (m : Dict Json) (a : Adapter)
    → Same (remember_row me conv m a) a
unfolding remember_row remember_dropped
remember_row_same me conv m a = go (normalise_history me conv m)
  where
    go :
        (o : Option Item)
        → Same (elim o [ none ↦ remember_dropped "" m conv a | some item ↦ remember item "" a ]) a
    go none = both refl refl
    go (some item) = remember_same item "" a

remember_rows_same :
    (me : Identity) (conv : String) (ms : List (Dict Json)) (a : Adapter)
    → Same (remember_rows me conv ms a) a
remember_rows_same me conv [] a = same_refl a
remember_rows_same me conv (m ∷ ms) a =
    same_trans (remember_rows_same me conv ms (remember_row me conv m a))
      (remember_row_same me conv m a)

-- the acks of one cycle
abbrev pub ack_all : List String → Adapter → Adapter
ack_all [] a = a
ack_all (id ∷ ids) a = ack_all ids (ack id a)

ack_same : (id : String) (a : Adapter) → Same (ack id a) a
unfolding ack
ack_same id a = both refl refl

pub ack_all_same : (ids : List String) (a : Adapter) → Same (ack_all ids a) a
ack_all_same [] a = same_refl a
ack_all_same (id ∷ ids) a = same_trans (ack_all_same ids (ack id a)) (ack_same id a)

module _ (floats : Floats) (me : Identity)
    (call : String → String → String → Window → Result FetchError Body) where
  abbrev pub SameProgress : Progress → Progress → Type 0
  SameProgress p q = Same p.adapter q.adapter

  pub queue_history_same :
      (conv : String) (ms : List (Dict Json)) (p : Progress)
      → SameProgress (queue_history floats me conv ms p) p
  unfolding queue_history
  queue_history_same conv ms p = remember_rows_same me conv (sort_rows floats ms) p.adapter

  pub read_pages_same :
      (method conv thread oldest : String) (p : Progress)
      → SameProgress (read_pages floats me call method conv thread oldest p).0 p
  unfolding read_pages
  read_pages_same method conv thread oldest p = both refl refl

  pub read_threads_same :
      (conv : String) (threads : Dict String) (p : Progress)
      → SameProgress (read_threads floats me call conv threads p).0 p
  unfolding read_threads
  read_threads_same conv [] p = same_refl p.adapter
  read_threads_same conv ((thread, marker) ∷ rest) p =
      go (read_pages floats me call "conversations.replies" conv thread marker p).0
        (read_pages floats me call "conversations.replies" conv thread marker p).1
        (read_pages_same "conversations.replies" conv thread marker p) (read_threads_same conv rest)
    where
      go :
          (q : Progress) (r : Result FetchError Pages)
          → SameProgress q p
          → ((s : Progress) → SameProgress (read_threads floats me call conv rest s).0 s)
          → SameProgress
              (thread_end floats me call conv (read_threads floats me call conv rest) (q, r)).0
              p
      go q (err e) h ih = h
      go q (ok (done ms)) h ih = same_trans (ih _) (same_trans (queue_history_same conv ms q) h)
      go q (ok (partial w ms)) h ih = same_trans (queue_history_same conv ms q) h
      go q (ok skipped) h ih = same_trans (ih q) h
      go q (ok broken) h ih = h
      go q (ok restarted) h ih = h
