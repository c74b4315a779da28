-- ===== src/Poller/Order.antt =====
-- The order of a poll: the letter is on disk before its update is acked, and a poll that completes has
-- acked every update.
use agent_letter_bridge.Prelude.{
  Option, ◌+◌, ◌≡◌, ◌⊎◌, refl, sym, ap, ◌∙◌, subst, Bool, true, false, List, [], ◌∷◌, ◌++◌,
  append_assoc, append-nil, length, map, Result, ok, err, if◌then◌else◌, arith, inl, inr, All,
}
use agent_letter_bridge.Prelude.Text.{Text}
use agent_letter_bridge.Letter.Store.Evidence.{Filed-Carries}
use agent_letter_bridge.Letter.Store.Carried.{Carries, Carries-refl, Carries-trans}
use agent_letter_bridge.Letter.{Meta}
use agent_letter_bridge.Poller.Inbound.{Failure, inbound_text_and_media}
use agent_letter_bridge.Poller.Steps.{
  Ledgered, OnDisk, Moves, IsDenied, Settled, CountsLetters, letter_text, handle-lem,
}
use agent_letter_bridge.Poller.{
  Setup, Home, Arrival, Cycle, Outcome, published, denied, duplicate, extra_fields, handle, acked,
  counted, after_item, poll_items, poll_once, beaten,
}

abbrev pub update_of : Arrival → Text
update_of a = a.item.update_id

-- one of the items
abbrev pub Within : Arrival → List Arrival → Type 0
Within a [] = ⊥
Within a (b ∷ bs) = (a ≡ b) ⊎ Within a bs

-- The text is the letter of one of the items, for the update: its body is the item's text, and its
-- header has the item's fields, under some key of a correspondent and some place in a thread.
abbrev pub Written : Setup → List Arrival → Text → Text → Type 0
Written s arrivals u t =
    (a : Arrival) × (body : Text) × (media : Meta) × (key : Text) × (target : Option (Text × Text))
    × Within a arrivals
    × (a.item.update_id ≡ u)
    × (inbound_text_and_media a.download a.item ≡ ok (body, media))
    × (t ≡ letter_text s a body (extra_fields a.item media key) target)

-- Why the update may be acked: it was denied, or the ledger had it when the poll began, or its letter is
-- on disk when the poll has ended.
abbrev pub IsKept : Setup → (Text → Text → Type 0) → Home → Home → Arrival → Type 0
IsKept s W start end a =
    IsDenied s a ⊎ Ledgered a.item.update_id start ⊎ OnDisk s W a.item.update_id end

Written-counts :
    (s : Setup) (arrivals : List Arrival) (a : Arrival)
    → Within a arrivals
    → CountsLetters s (Written s arrivals) a
Written-counts s arrivals a m body media q key target =
    (a, body, media, key, target, m, refl, q, refl)

-- a poll that completed: nothing was left over, and the counts add up
abbrev Complete : List Arrival → List Arrival → Result Failure Cycle → Type 0
Complete arrivals rest (err e) = Unit
Complete arrivals rest (ok c) =
    (rest ≡ [])
    × (c.fetched ≡ length arrivals)
    × (c.published + c.denied + c.duplicate ≡ length arrivals)
    × (length c.ids ≡ c.published)

-- What the loop leaves: the items it handled come first, each was acked in its turn, and each is kept.
record Polled (s : Setup) (W : Text → Text → Type 0) (start h : Home) (arrivals : List Arrival)
    (end : Home) (r : Result Failure Cycle) : Type 0 where
  handled : List Arrival
  left : List Arrival
  split : handled ++ left ≡ arrivals
  acks : end.acks ≡ h.acks ++ map update_of handled
  files : Carries h.post.inbox end.post.inbox
  kept : All (IsKept s W start end) handled
  complete : Complete arrivals left r

-- What the ledger knows by now it knew at the start, or is on disk.
abbrev Covered : Setup → (Text → Text → Type 0) → Home → Home → Type 0
Covered s W start h = (u : Text) → Ledgered u h → Ledgered u start ⊎ OnDisk s W u h

counted-Complete :
    (o : Outcome) (a : Arrival) (arrivals rest : List Arrival) (c : Cycle)
    → Complete arrivals rest (ok c)
    → Complete (a ∷ arrivals) rest (ok (counted o c))
unfolding counted
counted-Complete (published id) a arrivals rest c (r, f, n, l) =
    (r, omega (arith, f), omega (arith, n), omega (arith, l))
counted-Complete denied a arrivals rest c (r, f, n, l) = (r, omega (arith, f), omega (arith, n), l)
counted-Complete duplicate a arrivals rest c (r, f, n, l) =
    (r, omega (arith, f), omega (arith, n), l)

-- an item that did not raise, before the rest of the loop
more-Polled :
    (s : Setup) (W : Text → Text → Type 0) (start h h' end : Home) (a : Arrival)
    (rest : List Arrival) (o : Outcome) (r r' : Result Failure Cycle)
    → Covered s W start h
    → Moves s W h h'
    → Settled s W a h.post (h', ok o)
    → (q : Polled s W start (acked a.item.update_id h') rest end r) → Complete (a ∷ rest) q.left r'
    → Polled s W start h (a ∷ rest) end r'
more-Polled s W start h h' end a rest o r r' v m k q c = record {
  handled = a ∷ q.handled;
  left = q.left;
  split = ap (λ l. a ∷ l) q.split;
  acks =
      q.acks
      ∙ append_assoc h'.acks (a.item.update_id ∷ []) (map update_of q.handled)
      ∙ ap (λ l. l ++ a.item.update_id ∷ map update_of q.handled) (sym m.same_acks);
  files = Carries-trans _ _ _ m.files q.files;
  kept = (kept_now k, q.kept);
  complete = c;
}
  where
    on_disk : OnDisk s W a.item.update_id h → OnDisk s W a.item.update_id end
    on_disk d =
        Filed-Carries W s.token a.item.update_id _ _ s.processed q.files
          (Filed-Carries W s.token a.item.update_id _ _ s.processed m.files d)

    kept_now : Settled s W a h.post (h', ok o) → IsKept s W start end a
    kept_now (inl d) = inl d
    kept_now (inr (inr d)) =
        inr (inr (Filed-Carries W s.token a.item.update_id _ _ s.processed q.files d))
    kept_now (inr (inl e)) = elim (v a.item.update_id e) [
      | inl e' ↦ inr (inl e')
      | inr d ↦ inr (inr (on_disk d))
    ]

after-Polled :
    (s : Setup) (W : Text → Text → Type 0) (start h : Home) (a : Arrival) (rest : List Arrival)
    (x : Home × Result Failure Outcome) (y : Home × Result Failure Cycle)
    → Covered s W start h
    → Moves s W h x.0
    → Settled s W a h.post x
    → Polled s W start (acked a.item.update_id x.0) rest y.0 y.1
    → Polled s W start h (a ∷ rest) (after_item x y).0 (after_item x y).1
after-Polled s W start h a rest (h', err e) y v m k q = record {
  handled = [];
  left = a ∷ rest;
  split = refl;
  acks = sym m.same_acks ∙ sym (append-nil h.acks);
  files = m.files;
  kept = tt;
  complete = tt;
}
after-Polled s W start h a rest (h', ok o) (end, err e) v m k q =
    more-Polled s W start h h' end a rest o (err e) (err e) v m k q tt
after-Polled s W start h a rest (h', ok o) (end, ok c) v m k q =
    more-Polled s W start h h' end a rest o (ok c) (ok (counted o c)) v m k q
      (counted-Complete o a rest q.left c q.complete)

poll_items-Polled :
    (s : Setup) (W : Text → Text → Type 0) (start : Home) (arrivals : List Arrival) (h : Home)
    → ((a : Arrival) → Within a arrivals → CountsLetters s W a)
    → Covered s W start h
    → Polled s W start h arrivals (poll_items s arrivals h).0 (poll_items s arrivals h).1
unfolding poll_items
poll_items-Polled s W start [] h w v = record {
  handled = [];
  left = [];
  split = refl;
  acks = sym (append-nil h.acks);
  files = Carries-refl h.post.inbox;
  kept = tt;
  complete = (refl, refl, refl, refl);
}
poll_items-Polled s W start (a ∷ rest) h w v =
    let (m, k) = handle-lem s W a h (w a (inl refl)) in
    after-Polled s W start h a rest (handle s a h)
      (poll_items s rest (acked a.item.update_id (handle s a h).0)) v m k
      (poll_items-Polled s W start rest (acked a.item.update_id (handle s a h).0)
        (λ b i. w b (inr i)) (covered m))
  where
    covered :
        Moves s W h (handle s a h).0 → Covered s W start (acked a.item.update_id (handle s a h).0)
    covered m u e = elim (m.ledger u e) [
      | inl e' ↦ elim (v u e') [
        | inl b ↦ inl b
        | inr d ↦ inr (Filed-Carries W s.token u _ _ s.processed m.files d)
      ]
      | inr d ↦ inr d
    ]

-- the heartbeat changes neither the acks nor the letters
beaten-Polled :
    (s : Setup) (W : Text → Text → Type 0) (start h : Home) (arrivals : List Arrival)
    (x : Home × Result Failure Cycle)
    → Polled s W start h arrivals x.0 x.1
    → Polled s W start h arrivals (beaten s x).0 (beaten s x).1
beaten-Polled s W start h arrivals (end, err e) q = q
beaten-Polled s W start h arrivals (end, ok c) q = go s.has_health
  where
    go :
        (b : Bool)
        → Polled s W start h arrivals
            (if b then record end { heartbeats = 1 + end.heartbeats } else end)
            (ok c)
    go true = record {
      handled = q.handled;
      left = q.left;
      split = q.split;
      acks = q.acks;
      files = q.files;
      kept = q.kept;
      complete = q.complete;
    }
    go false = q

poll_once-Polled :
    (s : Setup) (arrivals : List Arrival) (h : Home)
    → Polled s
        (Written s arrivals)
        h
        h
        arrivals
        (poll_once s (ok arrivals) h).0
        (poll_once s (ok arrivals) h).1
unfolding poll_once
poll_once-Polled s arrivals h =
    beaten-Polled s (Written s arrivals) h h arrivals (poll_items s arrivals h) (
      poll_items-Polled s (Written s arrivals) h arrivals h (Written-counts s arrivals)
        (λ u e. inl e))

-- Letter to disk, then the ack: whether a poll completes or raises, the updates that it acked are those
-- of the first items that it fetched, in their order, and each of these was denied by the gate, was in
-- the ledger when the poll began, or is on disk when the poll ends. On disk is: some processed
-- directory has a readable letter that records the update; or the inbox has a file, named for the
-- update, with a letter that records it, or with the letter that was written for it, of the text and
-- the fields of one of the fetched items with this update. Of the inbox's letter only line ends may
-- have changed since, and a line that begins with "thread:", with no line that begins with "thread: "
-- above it, to one that names another thread.
pub no_ack_loses_mail :
    (s : Setup) (arrivals : List Arrival) (h h' : Home) (r : Result Failure Cycle)
    → poll_once s (ok arrivals) h ≡ (h', r)
    → (handled : List Arrival) × (left : List Arrival) × (handled ++ left ≡ arrivals)
      × (h'.acks ≡ h.acks ++ map update_of handled)
      × All (IsKept s (Written s arrivals) h h') handled
no_ack_loses_mail s arrivals h h' r e =
    let q =
      subst
        (λ (x : Home × Result Failure Cycle). Polled s (Written s arrivals) h h arrivals x.0 x.1) e
        (poll_once-Polled s arrivals h) in
    (q.handled, q.left, q.split, q.acks, q.kept)

-- A poll that completes has acked every update that it fetched, the denied ones included, in their
-- order; it published, denied or found again each of them, and it returns one id for each it published.
pub completed_poll_acks_all :
    (s : Setup) (arrivals : List Arrival) (h h' : Home) (c : Cycle)
    → poll_once s (ok arrivals) h ≡ (h', ok c)
    → (h'.acks ≡ h.acks ++ map update_of arrivals)
      × (c.fetched ≡ length arrivals)
      × (c.published + c.denied + c.duplicate ≡ length arrivals)
      × (length c.ids ≡ c.published)
completed_poll_acks_all s arrivals h h' c e =
    let q =
      subst
        (λ (x : Home × Result Failure Cycle). Polled s (Written s arrivals) h h arrivals x.0 x.1) e
        (poll_once-Polled s arrivals h) in
    let (none_left, fetched, counts, ids) = q.complete in
    let all : q.handled ≡ arrivals =
      sym (append-nil q.handled) ∙ ap (λ l. q.handled ++ l) (sym none_left) ∙ q.split in
    (q.acks ∙ ap (λ l. h.acks ++ map update_of l) all, fetched, counts, ids)
