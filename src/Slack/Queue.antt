-- ===== src/Slack/Queue.antt =====
-- The queue of the Slack adapter: what one fetch queues again, and what it has seen.
use agent_letter_bridge.Prelude.{
  ◌≡◌, refl, ap, ◌∙◌, String, true, ◌||◌, List, [], ◌∷◌, ◌++◌, eq_refl, eq_iff, elem, arith,
}
use agent_letter_bridge.Slack.Events.{Item}
use agent_letter_bridge.Slack.{Adapter, enqueue, requeue, requeue_inflight, begin_fetch}

abbrev pub ids : List Item → List String
ids [] = []
ids (i ∷ is) = i.update_id ∷ ids is

pub elem-append :
    (id : String) (xs ys : List String) → elem id (xs ++ ys) ≡ (elem id xs || elem id ys)
elem-append id [] ys = refl
elem-append id (x ∷ xs) ys = ground (arith, elem-append id xs ys)

ids-append : (is js : List Item) → ids (is ++ js) ≡ ids is ++ ids js
ids-append [] js = refl
ids-append (i ∷ is) js = ap (λ (t : List String). i.update_id ∷ t) (ids-append is js)

-- An item is queued, in flight or confirmed.
abbrev pub IsCovered : Adapter → List String → String → Type 0
IsCovered a confirmed id =
    (elem id (ids a.queue) || (elem id (ids a.inflight) || elem id confirmed)) ≡ true

pub enqueue_keeps :
    (id : String) (i : Item) (a : Adapter)
    → elem id (ids a.queue) ≡ true
    → elem id (ids (enqueue i a).queue) ≡ true
unfolding enqueue
enqueue_keeps id i a h = ground (
  arith,
  h,
  ap (elem id) (ids-append a.queue (i ∷ [])),
  elem-append id (ids a.queue) (i.update_id ∷ []),
)

pub enqueue_new :
    (i : Item) (a : Adapter)
    → (elem i.update_id (ids (enqueue i a).queue) || elem i.update_id a.seen) ≡ true
unfolding enqueue
enqueue_new i a = ground (
  arith,
  ap (elem i.update_id) (ids-append a.queue (i ∷ [])),
  elem-append i.update_id (ids a.queue) (i.update_id ∷ []),
  eq_refl i.update_id,
)

pub enqueue_seen :
    (id : String) (i : Item) (a : Adapter)
    → elem id (enqueue i a).seen ≡ true
    → (elem id (ids (enqueue i a).queue) || elem id a.seen) ≡ true
unfolding enqueue
enqueue_seen id i a h = ground (
  arith,
  h,
  ap (elem id) (ids-append a.queue (i ∷ [])),
  elem-append id (ids a.queue) (i.update_id ∷ []),
)

pub enqueue_rest : (i : Item) (a : Adapter) → ((enqueue i a).inflight ≡ a.inflight)
unfolding enqueue
enqueue_rest i a = ground arith

-- What a fetch has seen is queued.
abbrev pub SeenQueued : Adapter → Type 0
SeenQueued a = (id : String) → elem id a.seen ≡ true → elem id (ids a.queue) ≡ true

enqueue-SeenQueued : (i : Item) (a : Adapter) → SeenQueued a → SeenQueued (enqueue i a)
enqueue-SeenQueued i a w id h = ground (arith, enqueue_seen id i a h, enqueue_keeps id i a, w id)

requeue-SeenQueued : (is : List Item) (a : Adapter) → SeenQueued a → SeenQueued (requeue is a)
unfolding requeue
requeue-SeenQueued [] a w = w
requeue-SeenQueued (i ∷ is) a w = requeue-SeenQueued is (enqueue i a) (enqueue-SeenQueued i a w)

requeue_keeps :
    (id : String) (is : List Item) (a : Adapter)
    → SeenQueued a
    → (elem id (ids a.queue) || elem id (ids is)) ≡ true
    → elem id (ids (requeue is a).queue) ≡ true
unfolding requeue
requeue_keeps id [] a w h = ground (arith, h)
requeue_keeps id (i ∷ is) a w h =
    requeue_keeps id is (enqueue i a) (enqueue-SeenQueued i a w) (
      ground
        (arith, h, enqueue_keeps id i a, enqueue_new i a, w i.update_id, eq_iff id i.update_id))

requeue_inflight_empty : (is : List Item) (a : Adapter) → (requeue is a).inflight ≡ a.inflight
unfolding requeue
requeue_inflight_empty [] a = refl
requeue_inflight_empty (i ∷ is) a = requeue_inflight_empty is (enqueue i a) ∙ enqueue_rest i a

pub begin_fetch_seen : (a : Adapter) → SeenQueued (begin_fetch a)
unfolding begin_fetch requeue_inflight
begin_fetch_seen a = requeue-SeenQueued a.inflight _ (λ id h. cc (h))

-- At the start of a fetch all that was queued or in flight is queued.
pub begin_fetch_keeps :
    (id : String) (a : Adapter)
    → (elem id (ids a.queue) || elem id (ids a.inflight)) ≡ true
    → elem id (ids (begin_fetch a).queue) ≡ true
unfolding begin_fetch requeue_inflight
begin_fetch_keeps id a h = requeue_keeps id a.inflight _ (λ j e. cc (e)) h
