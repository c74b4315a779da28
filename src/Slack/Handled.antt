-- ===== src/Slack/Handled.antt =====
-- No item that the adapter was shown is forgotten, over any run of fetches, acks and confirmations.
use agent_letter_bridge.Prelude.{
  ◌≡◌, ap, subst, String, Bool, true, ◌||◌, ◌⊎◌, inl, inr, List, [], ◌∷◌, ◌++◌, Result, ok, err,
  ◌==◌, eq_iff, elem, Bool-cases, arith,
}
use agent_letter_bridge.Prelude.Dict
use agent_letter_bridge.Slack.Events.{Item}
use agent_letter_bridge.Slack.{
  Adapter, ConfirmError, Floats, remember, remember_dropped, enqueue, queued, begin_fetch, ack,
}
use agent_letter_bridge.Slack.Confirm.{confirm, advance_markers, settle}
use agent_letter_bridge.Json.{Json}
use agent_letter_bridge.Slack.Queue.{
  ids, IsCovered, elem-append, enqueue_keeps, enqueue_new, enqueue_seen, enqueue_rest,
  begin_fetch_seen, begin_fetch_keeps,
}

-- `shown` are the ids of the items that `remember` was called with, `confirmed` those of the items in
-- flight at the confirmations that succeeded.
pub record System : Type 0 where
  pub adapter : Adapter
  pub shown : List String
  pub confirmed : List String

abbrev after_confirm : List Item → Result ConfirmError (Unit {0}) → List String → List String
after_confirm inflight (ok done) confirmed = ids inflight ++ confirmed
after_confirm inflight (err e) confirmed = confirmed

module _ (floats : Floats) where
  pub data Step : System → System → Type 0 where
    -- `fetch` begins
    fetching : (s : System) → Step s (record s { adapter = begin_fetch s.adapter })
    -- a frame or a page shows an item, or an event that is no letter
    showing :
        (item : Item) (envelope : String) (s : System)
        → Step s (record s {
          adapter = remember item envelope s.adapter;
          shown = item.update_id ∷ s.shown;
        })
    dropping :
        (envelope conv : String) (raw : Dict.Dict Json) (s : System)
        → Step s (record s { adapter = remember_dropped envelope raw conv s.adapter })
    -- a conversation begins or ends being caught up
    watching :
        (pending : List String) (s : System)
        → Step s (record s { adapter = record s.adapter { pending = pending } })
    -- `fetch` returns: only here do the queued items leave the queue
    returning :
        (s : System)
        → s.adapter.inflight ≡ []
        → Step s (record s { adapter = (queued s.adapter).0 })
    acking : (id : String) (s : System) → Step s (record s { adapter = ack id s.adapter })
    -- a confirmation with any end, and the socket that is closed or opened before it
    confirming :
        (send : String → Bool) (writes connected : Bool) (s : System)
        → Step s (
            let before : Adapter = record s.adapter { connected = connected } in
            record {
              adapter = (confirm floats send writes before).0;
              shown = s.shown;
              confirmed =
                  after_confirm s.adapter.inflight
                    (confirm floats send writes before).1
                    s.confirmed;
            })

  pub data Steps : System → System → Type 0 where
    stop : (s : System) → Steps s s
    more : (s m t : System) → Step s m → Steps m t → Steps s t

-- What was shown is covered, and so is what the adapter takes for seen.
pub record IsSafe (s : System) : Type 0 where
  pub shown : (id : String) → elem id s.shown ≡ true → IsCovered s.adapter s.confirmed id
  pub seen : (id : String) → elem id s.adapter.seen ≡ true → IsCovered s.adapter s.confirmed id

begin_fetch-IsCovered :
    (a : Adapter) (confirmed : List String) (id : String)
    → IsCovered a confirmed id
    → IsCovered (begin_fetch a) confirmed id
begin_fetch-IsCovered a confirmed id h = ground (arith, h, begin_fetch_keeps id a)

enqueue-IsCovered :
    (item : Item) (a : Adapter) (confirmed : List String) (id : String)
    → IsCovered a confirmed id
    → IsCovered (enqueue item a) confirmed id
enqueue-IsCovered item a confirmed id h = ground (
  arith,
  h,
  enqueue_keeps id item a,
  ap (λ (f : List Item). elem id (ids f)) (enqueue_rest item a),
)

-- What is seen after an item is queued is covered, the item included.
enqueue_seen-IsCovered :
    (item : Item) (a : Adapter) (confirmed : List String)
    → ((id : String) → elem id a.seen ≡ true → IsCovered a confirmed id)
    → (id : String) → (elem id (enqueue item a).seen || id == item.update_id) ≡ true
    → IsCovered (enqueue item a) confirmed id
enqueue_seen-IsCovered item a confirmed old id h = elim (Bool-cases (elem id a.seen)) [
  | inl e ↦ enqueue-IsCovered item a confirmed id (old id e)
  | inr e ↦
      ground (arith, h, e, enqueue_seen id item a, enqueue_new item a, eq_iff id item.update_id)
]

confirm_keeps :
    (floats : Floats) (send : String → Bool) (writes : Bool) (a : Adapter)
    → let after = confirm floats send writes a in
      (after.0.queue ≡ a.queue)
      × (after.0.seen ≡ a.seen)
      × ((after.0.inflight ≡ a.inflight) ⊎ (after.1 ≡ ok tt))
unfolding confirm advance_markers settle
confirm_keeps floats send writes a = ground arith

-- What was in flight is confirmed, or else it still is in flight.
confirm-IsCovered :
    (floats : Floats) (send : String → Bool) (writes : Bool) (a : Adapter) (confirmed : List String)
    (id : String)
    → IsCovered a confirmed id
    → IsCovered
        (confirm floats send writes a).0
        (after_confirm a.inflight (confirm floats send writes a).1 confirmed)
        id
confirm-IsCovered floats send writes a confirmed id h =
    go (confirm floats send writes a).0 (confirm floats send writes a).1
      (confirm_keeps floats send writes a)
  where
    go :
        (a' : Adapter) (r : Result ConfirmError (Unit {0}))
        → (a'.queue ≡ a.queue) × (a'.seen ≡ a.seen) × ((a'.inflight ≡ a.inflight) ⊎ (r ≡ ok tt))
        → IsCovered a' (after_confirm a.inflight r confirmed) id
    go a' (ok done) k = ground (
      arith,
      h,
      ap (λ (f : List Item). elem id (ids f)) k.0,
      elem-append id (ids a.inflight) confirmed,
    )
    go a' (err e) (same, _, inl kept) = ground (
      arith,
      h,
      ap (λ (f : List Item). elem id (ids f)) same,
      ap (λ (f : List Item). elem id (ids f)) kept,
    )
    go a' (err e) (same, _, inr failed) = absurd (cc (failed))

module _ (floats : Floats) where
  Step-IsSafe : {s t : System} → Step floats s t → IsSafe s → IsSafe t
  unfolding remember remember_dropped queued ack
  Step-IsSafe (fetching s) v = record {
    shown = λ id h. begin_fetch-IsCovered s.adapter s.confirmed id (v.shown id h);
    seen = λ id h. ground (arith, begin_fetch_seen s.adapter id h);
  }
  Step-IsSafe (showing item envelope s) v = record {
    shown = λ id h. elim (Bool-cases (elem id s.shown)) [
      | inl e ↦ enqueue-IsCovered item _ s.confirmed id (v.shown id e)
      | inr e ↦ enqueue_seen-IsCovered item _ s.confirmed v.seen id (ground (arith, h, e))
    ];
    seen = λ id h. enqueue_seen-IsCovered item _ s.confirmed v.seen id (ground (arith, h));
  }
  Step-IsSafe (dropping envelope conv raw s) v = record { shown = v.shown; seen = v.seen }
  Step-IsSafe (watching pending s) v = record { shown = v.shown; seen = v.seen }
  Step-IsSafe (returning s none_left) v = record {
    shown = λ id h. moved id (v.shown id h);
    seen = λ id h. moved id (v.seen id h);
  }
    where
      moved :
          (id : String)
          → IsCovered s.adapter s.confirmed id
          → IsCovered (queued s.adapter).0 s.confirmed id
      moved id h = ground (arith, h, ap (λ (f : List Item). elem id (ids f)) none_left)
  Step-IsSafe (acking id s) v = record { shown = v.shown; seen = v.seen }
  Step-IsSafe (confirming send writes connected s) v = record {
    shown = λ id h. confirm-IsCovered floats send writes _ s.confirmed id (v.shown id h);
    seen = λ id h. confirm-IsCovered floats send writes _ s.confirmed id (
        v.seen id (
          subst (λ (seen : List String). elem id seen ≡ true)
            (confirm_keeps floats send writes (record s.adapter { connected = connected })).1 h));
  }

  Steps-IsSafe : {s t : System} → Steps floats s t → IsSafe s → IsSafe t
  Steps-IsSafe (stop s) v = v
  Steps-IsSafe (more s m t step rest) v = Steps-IsSafe rest (Step-IsSafe step v)

  -- Take any run of the adapter that starts with nothing shown or seen: starts of fetches, items and
  -- dropped events, changes of the conversations being caught up, returns of fetches, acks and
  -- confirmations with any end. Each item that was shown is queued, or it is in flight, or it was
  -- in flight at a confirmation that succeeded; and a fetch that begins then queues it again, unless it
  -- was in flight at such a confirmation.
  pub no_item_forgotten :
      (s t : System)
      → s.shown ≡ []
      → s.adapter.seen ≡ []
      → Steps floats s t
      → (id : String) → elem id t.shown ≡ true
      → IsCovered t.adapter t.confirmed id
        × ((elem id (ids (begin_fetch t.adapter).queue) || elem id t.confirmed) ≡ true)
  no_item_forgotten s t fresh unseen steps id h =
      let safe : IsSafe t = Steps-IsSafe steps (record {
        shown = λ j k. cc (ap (elem j) fresh, k);
        seen = λ j k. cc (ap (elem j) unseen, k);
      }) in
      (safe.shown id h, ground (arith, safe.shown id h, begin_fetch_keeps id t.adapter))
