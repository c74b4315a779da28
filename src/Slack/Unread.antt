-- ===== src/Slack/Unread.antt =====
-- The marker of a conversation that was not read to its end stays where it is.
use agent_letter_bridge.Prelude.{
  ◌≡◌, ◌≢◌, refl, ap, sym, ◌∙◌, subst, String, Bool, true, false, ◌||◌, ◌⊎◌, inl, inr, List, [],
  ◌∷◌, Result, ok, err, ◌==◌, eq_refl, eq_iff, elem, Bool-cases, if_true, arith, if◌then◌else◌,
}
use agent_letter_bridge.Prelude.Dict
use agent_letter_bridge.Prelude.Dict.{Dict}
use agent_letter_bridge.Slack.{Adapter, Floats, Markers, dict_or}
use agent_letter_bridge.Slack.Pages.{
  Body, FetchError, Pages, done, partial, skipped, broken, restarted, Window,
}
use agent_letter_bridge.Slack.Confirm.{confirm}
use agent_letter_bridge.Slack.Advance.{confirm_refines}
use agent_letter_bridge.Slack.Catchup.{
  Identity, Progress, Stop, finished, unfinished, raised, queue_history, read_pages, read_threads,
  close, history_end, read_conversation, unless_raised, read_all, add_pending, add_all, discard,
  with_pending, catch_up, first_window,
}
use agent_letter_bridge.Slack.Ended.{WasRead, ReadToEnd, Goes, read_conversation-ReadToEnd}
use agent_letter_bridge.Slack.Kept.{
  SameProgress, same_trans, queue_history_same, read_pages_same, read_threads_same, ack_all,
  ack_all_same,
}

module _ (floats : Floats) (me : Identity)
    (call : String → String → String → Window → Result FetchError Body) where
  elem-add_pending :
      (k conv : String) (ps : List String) → elem k (add_pending conv ps) ≡ (elem k ps || k == conv)
  elem-add_pending k conv ps = ground (arith, eq_iff k conv)

  elem-discard :
      (k conv : String) (ps : List String)
      → elem k (discard conv ps) ≡ (if k == conv then false else elem k ps)
  elem-discard k conv [] = ground arith
  elem-discard k conv (p ∷ ps) =
      ground (arith, elem-discard k conv ps, eq_iff k p, eq_iff p conv, eq_iff k conv)

  -- What a read leaves of the pending conversations and the markers: its own conversation is pending
  -- exactly where it was not read to its end.
  record Left (conv : String) (p q : Progress) (stop : Stop) : Type 0 where
    markers : q.adapter.markers ≡ p.adapter.markers
    others :
        (k : String) → (k == conv) ≡ false → elem k q.adapter.pending ≡ elem k p.adapter.pending
    own : stop ≢ finished → elem conv q.adapter.pending ≡ true

  unread-Left :
      (conv : String) (p q : Progress) (stop : Stop)
      → elem conv p.adapter.pending ≡ true
      → SameProgress floats me call q p
      → Left conv p q stop
  unread-Left conv p q stop waits same = record {
    markers = same.markers;
    others = λ k h. ap (elem k) same.pending;
    own = λ h. ap (elem conv) same.pending ∙ waits;
  }

  close-Left :
      (conv : String) (p q : Progress) (stop : Stop)
      → elem conv p.adapter.pending ≡ true
      → SameProgress floats me call q p
      → Left conv p (close floats me call conv (q, stop)).0 (close floats me call conv (q, stop)).1
  close-Left conv p q finished waits same = record {
    markers = same.markers;
    others =
        λ k h. ground (arith, h, elem-discard k conv q.adapter.pending, ap (elem k) same.pending);
    own = λ h. absurd (h refl);
  }
  close-Left conv p q unfinished waits same = unread-Left conv p q unfinished waits same
  close-Left conv p q (raised e) waits same = unread-Left conv p q (raised e) waits same

  history_end-Left :
      (conv : String) (p q : Progress) (r : Result FetchError Pages)
      → elem conv p.adapter.pending ≡ true
      → SameProgress floats me call q p
      → Left conv p
          (history_end floats me call conv (q, r)).0
          (history_end floats me call conv (q, r)).1
  history_end-Left conv p q (err e) waits same = unread-Left conv p q (raised e) waits same
  history_end-Left conv p q (ok (done ms)) waits same =
      let queued : Progress = queue_history floats me conv ms q in
      let threads : Dict String = dict_or (Dict.get conv q.adapter.markers.threads) in
      let end : Progress × Stop = read_threads floats me call conv threads queued in
      close-Left conv p end.0 end.1 waits (
        same_trans (read_threads_same floats me call conv threads queued)
          (same_trans (queue_history_same floats me call conv ms q) same))
  history_end-Left conv p q (ok (partial w ms)) waits same =
      unread-Left conv p (queue_history floats me conv ms q) unfinished waits
        (same_trans (queue_history_same floats me call conv ms q) same)
  history_end-Left conv p q (ok skipped) waits same = close-Left conv p q finished waits same
  history_end-Left conv p q (ok broken) waits same = unread-Left conv p q unfinished waits same
  history_end-Left conv p q (ok restarted) waits same = unread-Left conv p q unfinished waits same

  read_conversation-Left :
      (first_oldest conv : String) (p : Progress)
      → Left conv p
          (read_conversation floats me call first_oldest conv p).0
          (read_conversation floats me call first_oldest conv p).1
  unfolding read_conversation
  read_conversation-Left first_oldest conv p =
      let begun : Progress = with_pending (add_pending conv p.adapter.pending) p in
      let oldest : String =
        first_window first_oldest (Dict.get conv p.adapter.markers.conversations) in
      let left =
        history_end-Left conv begun
          (read_pages floats me call "conversations.history" conv "" oldest begun).0
          (read_pages floats me call "conversations.history" conv "" oldest begun).1
          (ground (arith, elem-add_pending conv conv p.adapter.pending, eq_refl conv))
          (read_pages_same floats me call "conversations.history" conv "" oldest begun) in
      record {
        markers = left.markers;
        others =
            λ k h. left.others k h ∙ ground (arith, h, elem-add_pending k conv p.adapter.pending);
        own = left.own;
      }

  Stop-cases : (s : Stop) → (s ≡ finished) ⊎ (s ≢ finished)
  Stop-cases finished = inl refl
  Stop-cases unfinished = inr (λ h. cc (h))
  Stop-cases (raised e) = inr (λ h. cc (h))

  -- After the read of one conversation another one waits as before; its own waits, or was read.
  one_read :
      (first_oldest conv k : String) (p : Progress)
      → elem k p.adapter.pending ≡ true
      → (elem k (read_conversation floats me call first_oldest conv p).0.adapter.pending ≡ true)
        ⊎ ((k ≡ conv) × ReadToEnd floats me call first_oldest conv p)
  one_read first_oldest conv k p h =
      let left = read_conversation-Left first_oldest conv p in
      elim (Bool-cases (k == conv)) [
        | inl same ↦ elim (Stop-cases (read_conversation floats me call first_oldest conv p).1) [
          | inl end ↦ inr (
            (eq_iff k conv).0 same,
            read_conversation-ReadToEnd floats me call first_oldest conv p end,
          )
          | inr open_end ↦ inl (
              subst
                (λ (c : String).
                  elem c (read_conversation floats me call first_oldest conv p).0.adapter.pending
                  ≡ true)
                (sym ((eq_iff k conv).0 same)) (left.own open_end))
        ]
        | inr other ↦ inl (left.others k other ∙ h)
      ]

  -- The markers stay, and a conversation that waits goes on waiting or was read.
  record Leaves (Read : String → Type 0) (p q : Progress) : Type 0 where
    markers : q.adapter.markers ≡ p.adapter.markers
    waits :
        (k : String) → elem k p.adapter.pending ≡ true → (elem k q.adapter.pending ≡ true) ⊎ Read k

  -- what is known of the first read and of the rest of the run
  unless_raised-Leaves :
      (p : Progress) (x : Progress × Stop) (next : Progress → Progress × Stop)
      (First : String → Type 0) (Rest : String → Progress → Type 0)
      → Leaves First p x.0
      → ((s : Progress) → Leaves (λ k. Rest k s) s (next s).0)
      → Leaves
          (λ k. First k ⊎ Goes floats me call (Rest k) x)
          p
          (unless_raised floats me call next x).0
  unless_raised-Leaves p (q, finished) next First Rest h ih = record {
    markers = (ih q).markers ∙ h.markers;
    waits = λ k w. elim (h.waits k w) [
      | inr read ↦ inr (inl read)
      | inl still ↦ elim ((ih q).waits k still) [ inl end ↦ inl end | inr read ↦ inr (inr read) ]
    ];
  }
  unless_raised-Leaves p (q, unfinished) next First Rest h ih = record {
    markers = (ih q).markers ∙ h.markers;
    waits = λ k w. elim (h.waits k w) [
      | inr read ↦ inr (inl read)
      | inl still ↦ elim ((ih q).waits k still) [ inl end ↦ inl end | inr read ↦ inr (inr read) ]
    ];
  }
  unless_raised-Leaves p (q, raised e) next First Rest h ih = record {
    markers = h.markers;
    waits = λ k w. elim (h.waits k w) [ inr read ↦ inr (inl read) | inl still ↦ inl still ];
  }

  read_all-Leaves :
      (first_oldest : String) (convs : List String) (p : Progress)
      → Leaves
          (λ k. WasRead floats me call first_oldest k convs p)
          p
          (read_all floats me call first_oldest convs p).0
  unfolding read_all
  read_all-Leaves first_oldest [] p = record { markers = refl; waits = λ k h. inl h }
  read_all-Leaves first_oldest (conv ∷ convs) p =
      unless_raised-Leaves p (read_conversation floats me call first_oldest conv p)
        (read_all floats me call first_oldest convs)
        (λ k. (k ≡ conv) × ReadToEnd floats me call first_oldest conv p)
        (λ k s. WasRead floats me call first_oldest k convs s)
        (record {
          markers = (read_conversation-Left first_oldest conv p).markers;
          waits = λ k h. one_read first_oldest conv k p h;
        })
        (read_all-Leaves first_oldest convs)

  elem-add_all :
      (k : String) (convs ps : List String)
      → elem k (add_all convs ps) ≡ (elem k convs || elem k ps)
  elem-add_all k [] ps = refl
  elem-add_all k (c ∷ convs) ps =
      ground (arith, elem-add_all k convs (add_pending c ps), elem-add_pending k c ps)

  -- Let a catch-up over the watched conversations end in any way, an error included, let the items of
  -- any ids be acked, and let a confirmation succeed. Then the file holds, for each watched
  -- conversation, the marker that it had before, unless in this catch-up the read of its history
  -- went on to the last page and the read of each of its known threads went on to the last page or
  -- was skipped, or Slack answered this catch-up's read of the history that it is to be skipped.
  pub unread_marker_stays :
      (first_oldest : String) (watched : List String) (p : Progress) (acks : List String)
      (send : String → Bool) (writes : Bool) (a' : Adapter)
      → confirm floats send writes
          (ack_all acks (catch_up floats me call first_oldest watched p).0.adapter)
        ≡ (a', ok tt)
      → (k : String) → elem k watched ≡ true
      → WasRead floats me call first_oldest k watched
          (with_pending (add_all watched p.adapter.pending) p)
        ⊎ (Dict.get k a'.file.conversations ≡ Dict.get k p.adapter.markers.conversations)
  unfolding catch_up
  unread_marker_stays first_oldest watched p acks send writes a' h k w =
      let begun : Progress = with_pending (add_all watched p.adapter.pending) p in
      let after : Adapter = (read_all floats me call first_oldest watched begun).0.adapter in
      let left = read_all-Leaves first_oldest watched begun in
      let acked = ack_all_same acks after in
      elim (left.waits k (elem-add_all k watched p.adapter.pending ∙ rw w refl)) [
        | inr read ↦ inl read
        | inl waits ↦ inr (
            (confirm_refines floats send writes (ack_all acks after) a' h).0 k
            ∙ (if_true _ _ (ap (elem k) acked.pending ∙ waits)
                ∙ ap (λ (m : Markers). Dict.get k m.conversations) (acked.markers ∙ left.markers)))
      ]
