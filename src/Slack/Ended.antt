-- ===== src/Slack/Ended.antt =====
-- What it is that a catch-up of Slack has read a conversation to its end, step by step along its run,
-- and that a reading that finishes has done so.
use agent_letter_bridge.Prelude.{◌≡◌, ◌⊎◌, String, List, [], ◌∷◌, Result, ok, err}
use agent_letter_bridge.Prelude.Dict
use agent_letter_bridge.Prelude.Dict.{Dict}
use agent_letter_bridge.Slack.{Floats, dict_or}
use agent_letter_bridge.Slack.Pages.{
  FetchError, Pages, done, partial, skipped, broken, restarted, Window, Body,
}
use agent_letter_bridge.Slack.Catchup.{
  Identity, Progress, Stop, finished, unfinished, raised, queue_history, read_pages, thread_end,
  read_threads, close, history_end, read_conversation, add_pending, with_pending, first_window,
}

module _ (floats : Floats) (me : Identity)
    (call : String → String → String → Window → Result FetchError Body) where
  -- The read of a thread went on to its last page, or Slack answered that the thread is to be
  -- skipped; then `next` holds of where it left the adapter.
  abbrev pub ThreadEnd : String → (Progress → Type 0) → Progress × Result FetchError Pages → Type 0
  ThreadEnd conv next (q, ok (done ms)) = next (queue_history floats me conv ms q)
  ThreadEnd conv next (q, ok skipped) = next q
  ThreadEnd conv next (q, ok (partial w ms)) = ⊥
  ThreadEnd conv next (q, ok broken) = ⊥
  ThreadEnd conv next (q, ok restarted) = ⊥
  ThreadEnd conv next (q, err e) = ⊥

  -- The reads of the threads, one after another, ended so.
  abbrev pub ThreadsRead : String → Dict String → Progress → Type 0
  ThreadsRead conv [] p = Unit
  ThreadsRead conv ((thread, marker) ∷ rest) p =
      ThreadEnd conv (ThreadsRead conv rest)
        (read_pages floats me call "conversations.replies" conv thread marker p)

  -- The read of the history went on to its last page and the reads of the known threads after it
  -- ended too, or Slack answered that the conversation is to be skipped.
  abbrev pub HistoryEnd : String → Progress × Result FetchError Pages → Type 0
  HistoryEnd conv (q, ok (done ms)) =
      ThreadsRead conv (dict_or (Dict.get conv q.adapter.markers.threads))
        (queue_history floats me conv ms q)
  HistoryEnd conv (q, ok skipped) = Unit
  HistoryEnd conv (q, ok (partial w ms)) = ⊥
  HistoryEnd conv (q, ok broken) = ⊥
  HistoryEnd conv (q, ok restarted) = ⊥
  HistoryEnd conv (q, err e) = ⊥

  -- the read of the conversation that starts at `p` comes to the end
  abbrev pub ReadToEnd : String → String → Progress → Type 0
  ReadToEnd first_oldest conv p = HistoryEnd conv (
      read_pages floats me call "conversations.history" conv ""
        (first_window first_oldest (Dict.get conv p.adapter.markers.conversations))
        (with_pending (add_pending conv p.adapter.pending) p))

  -- what holds of the rest of a run, where no error has ended it
  abbrev pub Goes : (Progress → Type 0) → Progress × Stop → Type 0
  Goes rest (q, finished) = rest q
  Goes rest (q, unfinished) = rest q
  Goes rest (q, raised e) = ⊥

  -- The run over these conversations that starts at `p` reads the conversation `k` to its end.
  abbrev pub WasRead : String → String → List String → Progress → Type 0
  WasRead first_oldest k [] p = ⊥
  WasRead first_oldest k (conv ∷ convs) p =
      ((k ≡ conv) × ReadToEnd first_oldest conv p)
      ⊎ Goes (WasRead first_oldest k convs) (read_conversation floats me call first_oldest conv p)

  thread_end-ThreadEnd :
      (conv : String) (next : Progress → Progress × Stop) (Next : Progress → Type 0)
      (r : Progress × Result FetchError Pages)
      → ((q : Progress) → (next q).1 ≡ finished → Next q)
      → (thread_end floats me call conv next r).1 ≡ finished
      → ThreadEnd conv Next r
  thread_end-ThreadEnd conv next Next (q, ok (done ms)) ih e = ih _ e
  thread_end-ThreadEnd conv next Next (q, ok skipped) ih e = ih q e
  thread_end-ThreadEnd conv next Next (q, ok (partial w ms)) ih e = absurd (cc (e))
  thread_end-ThreadEnd conv next Next (q, ok broken) ih e = absurd (cc (e))
  thread_end-ThreadEnd conv next Next (q, ok restarted) ih e = absurd (cc (e))
  thread_end-ThreadEnd conv next Next (q, err x) ih e = absurd (cc (e))

  read_threads-ThreadsRead :
      (conv : String) (threads : Dict String) (p : Progress)
      → (read_threads floats me call conv threads p).1 ≡ finished
      → ThreadsRead conv threads p
  unfolding read_threads
  read_threads-ThreadsRead conv [] p h = tt
  read_threads-ThreadsRead conv ((thread, marker) ∷ rest) p h =
      thread_end-ThreadEnd conv (read_threads floats me call conv rest) (ThreadsRead conv rest)
        (read_pages floats me call "conversations.replies" conv thread marker p)
        (read_threads-ThreadsRead conv rest) h

  close-finished :
      (conv : String) (end : Progress × Stop)
      → (close floats me call conv end).1 ≡ finished
      → end.1 ≡ finished
  close-finished conv (p, finished) h = h
  close-finished conv (p, unfinished) h = h
  close-finished conv (p, raised e) h = h

  history_end-HistoryEnd :
      (conv : String) (r : Progress × Result FetchError Pages)
      → (history_end floats me call conv r).1 ≡ finished
      → HistoryEnd conv r
  history_end-HistoryEnd conv (q, ok (done ms)) h =
      read_threads-ThreadsRead conv (dict_or (Dict.get conv q.adapter.markers.threads))
        (queue_history floats me conv ms q) (close-finished conv _ h)
  history_end-HistoryEnd conv (q, ok skipped) h = tt
  history_end-HistoryEnd conv (q, ok (partial w ms)) h = absurd (cc (h))
  history_end-HistoryEnd conv (q, ok broken) h = absurd (cc (h))
  history_end-HistoryEnd conv (q, ok restarted) h = absurd (cc (h))
  history_end-HistoryEnd conv (q, err e) h = absurd (cc (h))

  -- A reading that finishes has read the conversation to its end.
  pub read_conversation-ReadToEnd :
      (first_oldest conv : String) (p : Progress)
      → (read_conversation floats me call first_oldest conv p).1 ≡ finished
      → ReadToEnd first_oldest conv p
  unfolding read_conversation
  read_conversation-ReadToEnd first_oldest conv p h = history_end-HistoryEnd conv _ h
