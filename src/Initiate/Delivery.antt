-- ===== src/Initiate/Delivery.antt =====
-- At most one message of a letter may have arrived, whatever the crossings, the sender's answers, the
-- crashes and the restarts.
use agent_letter_bridge.Prelude.{
  append, ℕ, suc, ◌≤◌, String, ◌≡◌, refl, sym, ap, subst, ◌∙◌, Bool, true, false, ◌&&◌, List, [],
  ◌∷◌, ◌++◌, append-nil, ok, err, ◌==◌, if◌then◌else◌, arith, inl, inr, Bool-cases, eq_iff, any_of,
  any_of-append, cons_not_nil,
}
use mathlib.Core.Bool.{false≢true}
use agent_letter_bridge.Prelude.Text.{Text, eq_text}
use agent_letter_bridge.Outbound.{
  Store, is_terminal, sending, sent, refused, ambiguous, throttled, reconcile_at_startup,
}
use agent_letter_bridge.Outbound.History.{events}
use agent_letter_bridge.Grant.{Grant}
use agent_letter_bridge.MsgIndex.{Table}
use agent_letter_bridge.Budget.{Reservation, Reservations}
use agent_letter_bridge.Initiate.{
  World, After, CrossError, Host, Site, Message, Ready, Answer, accepted, throttles, refuses,
  is_ambiguous, fails, Post, posted, finish, settle, cross, prepare, index_sent, fail_after,
  ends_sending,
}
use agent_letter_bridge.Initiate.Settling.{IsSound, Grew, settle-Grew, fail_after-err, grown}
use agent_letter_bridge.Initiate.Crossing.{is_closed, IsQuiet}

-- The platform may have the message: all answers but a throttle and a refusal leave that open.
abbrev pub may_arrive : Answer → Bool
may_arrive (accepted id) = true
may_arrive (throttles d) = false
may_arrive (refuses d) = false
may_arrive (is_ambiguous d) = true
may_arrive (fails d) = true

-- the calls of the sender for a letter whose message may have arrived
abbrev pub count_if : Bool → ℕ → ℕ
count_if b n = if b then suc n else n

unfoldable pub arrivals : String → List Post → ℕ
arrivals oid [] = 0
arrivals oid (p ∷ ps) = count_if ((p.id == oid) && may_arrive p.answer) (arrivals oid ps)

-- One thing that happens to the state of the program.
pub data Step (h : Host) : World → World → Type 0 where
  -- a crossing of any letter, under any grants, allowlist and clock, with any answer of the sender
  crossing :
      (s : Site) (grant : Grant) (m : Message) (oid : String) (rec : Reservation) (answer : Answer)
      (w : World)
      → Step h w (cross h s grant m oid rec answer w).0
  -- a crossing that dies after its record of "sending", before the sender is called
  crash_before :
      (s : Site) (grant : Grant) (m : Message) (oid : String) (rec : Reservation) (w w' : World)
      (r : Ready)
      → prepare h s grant m oid rec w ≡ (w', ok r)
      → Step h w w'
  -- a crossing that dies after the sender was called, before anything is recorded of its answer
  crash :
      (s : Site) (grant : Grant) (m : Message) (oid : String) (rec : Reservation) (answer : Answer)
      (w w' : World) (r : Ready)
      → prepare h s grant m oid rec w ≡ (w', ok r)
      → Step h w (posted oid m r answer w')
  -- the startup pass
  restart :
      (w : World) (ids : List String) (o : Store)
      → reconcile_at_startup w.outbound ≡ ok (ids, o)
      → Step h w (record w { outbound = o })
  -- any change of the reservations and the index
  other :
      (rs : Reservations) (t : Table) (w : World)
      → Step h w (record w { reservations = rs; index = t })

pub data Steps (h : Host) : World → World → Type 0 where
  stop : (w : World) → Steps h w w
  more : (w m w' : World) → Step h w m → Steps h m w' → Steps h w w'

-- At most one message of the letter may have arrived, and where one may have, the letter is closed.
abbrev pub OnceAt : String → World → Type 0
OnceAt oid w =
    (arrivals oid w.posts ≤ 1)
    × (is_closed (events w.outbound oid) ≡ false → arrivals oid w.posts ≡ 0)

pub record IsSafe (w : World) : Type 0 where
  pub sound : IsSound w.outbound
  pub once : (oid : String) → OnceAt oid w

count_if_comm : (a b : Bool) (n : ℕ) → count_if a (count_if b n) ≡ count_if b (count_if a n)
count_if_comm true true n = refl
count_if_comm true false n = refl
count_if_comm false true n = refl
count_if_comm false false n = refl

arrivals-append :
    (oid : String) (ps : List Post) (p : Post)
    → arrivals oid (ps ++ p ∷ [])
      ≡ count_if ((p.id == oid) && may_arrive p.answer) (arrivals oid ps)
unfolding arrivals
arrivals-append oid [] p = refl
arrivals-append oid (q ∷ ps) p =
    ap (count_if ((q.id == oid) && may_arrive q.answer)) (arrivals-append oid ps p)
    ∙ count_if_comm ((q.id == oid) && may_arrive q.answer) ((p.id == oid) && may_arrive p.answer)
        (arrivals oid ps)

ends_sending-append : (es : List Text) (e : Text) → ends_sending (es ++ e ∷ []) ≡ eq_text e sending
unfolding ends_sending
ends_sending-append [] e = refl
ends_sending-append (d ∷ []) e = refl
ends_sending-append (d ∷ d' ∷ es) e = ends_sending-append (d' ∷ es) e

pub closed-terminal :
    (es tail : List Text) → any_of is_terminal tail ≡ true → is_closed (es ++ tail) ≡ true
unfolding is_closed
closed-terminal es tail t = ground (arith, any_of-append is_terminal es tail, t)

pub closed-sending : (es : List Text) → is_closed (es ++ sending ∷ []) ≡ true
unfolding is_closed eq_text
closed-sending es = ground (arith, ends_sending-append es sending)

closed-quiet :
    (es tail : List Text) → IsQuiet tail → is_closed (es ++ tail) ≡ false → is_closed es ≡ false
closed-quiet es tail (inl e) c =
    subst (λ (t : List Text). is_closed t ≡ false)
      (ap (λ (t : List Text). es ++ t) e ∙ append-nil es) c
closed-quiet es tail (inr t) c = absurd (ground (arith, c, closed-terminal es tail t))

pub OnceAt-quiet :
    (w w' : World) (oid j : String) (tail : List Text)
    → Grew w w' oid tail
    → IsQuiet tail
    → OnceAt j w
    → OnceAt j w'
OnceAt-quiet w w' oid j tail g q o =
    let same : arrivals j w'.posts ≡ arrivals j w.posts = ap (arrivals j) g.posts_same in
    (
      subst (λ (n : ℕ). n ≤ 1) (sym same) o.0,
      λ c.
          same
          ∙ o.1
              (go (oid == j) (subst (λ (es : List Text). is_closed es ≡ false) (g.histories j) c)),
    )
  where
    go :
        (b : Bool)
        → is_closed (grown b (events w.outbound j) tail) ≡ false
        → is_closed (events w.outbound j) ≡ false
    go true c = closed-quiet (events w.outbound j) tail q c
    go false c = c

-- a letter that is closed now, with no call of the sender
pub OnceAt-closing :
    (w w' : World) (oid j : String) (tail : List Text)
    → Grew w w' oid tail
    → ((es : List Text) → is_closed (es ++ tail) ≡ true)
    → OnceAt j w
    → OnceAt j w'
OnceAt-closing w w' oid j tail g closes o =
    let same : arrivals j w'.posts ≡ arrivals j w.posts = ap (arrivals j) g.posts_same in
    (
      subst (λ (n : ℕ). n ≤ 1) (sym same) o.0,
      λ c.
          same
          ∙ o.1
              (go (oid == j) (subst (λ (es : List Text). is_closed es ≡ false) (g.histories j) c)),
    )
  where
    go :
        (b : Bool)
        → is_closed (grown b (events w.outbound j) tail) ≡ false
        → is_closed (events w.outbound j) ≡ false
    go true c = absurd (false≢true (sym c ∙ closes (events w.outbound j)))
    go false c = c

-- a letter that was open, and whose message may have arrived only if it is closed now
OnceAt-here :
    (oid : String) (n : ℕ) (answer : Answer) (tail es : List Text)
    → n ≡ 0
    → (may_arrive answer ≡ true → is_closed (es ++ tail) ≡ true)
    → (count_if (may_arrive answer) n ≤ 1)
      × (is_closed (es ++ tail) ≡ false → count_if (may_arrive answer) n ≡ 0)
OnceAt-here oid n answer tail es z c = elim (Bool-cases (may_arrive answer)) [
  | inl m ↦ rw m (omega (arith, z), λ o. absurd (false≢true (sym o ∙ c m)))
  | inr m ↦ rw m (omega (arith, z), λ o. z)
]

pub OnceAt-posted :
    (w w' : World) (oid j : String) (p : Post) (tail : List Text)
    → p.id ≡ oid
    → w'.posts ≡ w.posts ++ p ∷ []
    → events w'.outbound j ≡ grown (oid == j) (events w.outbound j) tail
    → is_closed (events w.outbound oid) ≡ false
    → ((es : List Text) → may_arrive p.answer ≡ true → is_closed (es ++ tail) ≡ true)
    → OnceAt j w
    → OnceAt j w'
OnceAt-posted w w' oid j p tail named posts hist open_ closes o =
    let n : arrivals j w'.posts
        ≡ count_if ((oid == j) && may_arrive p.answer) (arrivals j w.posts) =
      ap (arrivals j) posts
      ∙ (arrivals-append j w.posts p
          ∙ ap (λ (i : String). count_if ((i == j) && may_arrive p.answer) (arrivals j w.posts))
              named) in
    elim (Bool-cases (oid == j)) [
      | inl e ↦
          let is_j : oid ≡ j = (eq_iff oid j).0 e in
          let none_yet : arrivals j w.posts ≡ 0 =
            o.1 (subst (λ (i : String). is_closed (events w.outbound i) ≡ false) is_j open_) in
          let here =
            OnceAt-here j (arrivals j w.posts) p.answer tail (events w.outbound j) none_yet
              (closes (events w.outbound j)) in
          let counted : arrivals j w'.posts ≡ count_if (may_arrive p.answer) (arrivals j w.posts) =
            n ∙ ap (λ (b : Bool). count_if (b && may_arrive p.answer) (arrivals j w.posts)) e in
          let now : events w'.outbound j ≡ events w.outbound j ++ tail =
            hist ∙ ap (λ (b : Bool). grown b (events w.outbound j) tail) e in
          (
            subst (λ (k : ℕ). k ≤ 1) (sym counted) here.0,
            λ c. counted ∙ here.1 (subst (λ (es : List Text). is_closed es ≡ false) now c),
          )
      | inr e ↦
          let counted : arrivals j w'.posts ≡ arrivals j w.posts =
            n ∙ ap (λ (b : Bool). count_if (b && may_arrive p.answer) (arrivals j w.posts)) e in
          let now : events w'.outbound j ≡ events w.outbound j =
            hist ∙ ap (λ (b : Bool). grown b (events w.outbound j) tail) e in
          (
            subst (λ (k : ℕ). k ≤ 1) (sym counted) o.0,
            λ c. counted ∙ o.1 (subst (λ (es : List Text). is_closed es ≡ false) now c),
          )
    ]

-- the event that an answer is recorded as
unfoldable pub answer_event : Answer → Text
answer_event (accepted id) = sent
answer_event (throttles d) = throttled
answer_event (refuses d) = refused
answer_event (is_ambiguous d) = ambiguous
answer_event (fails d) = ambiguous

index_sent-Grew :
    (w : World) (oid : String) (r : Ready) (id : Text) (a : After Reservation) (tail : List Text)
    → Grew w a.0 oid tail
    → Grew w (index_sent oid r id a).0 oid tail
unfolding index_sent
index_sent-Grew w oid r id (m, err e) tail g = g
index_sent-Grew w oid r id (m, ok rec) tail g = record {
  posts_same = g.posts_same;
  histories = g.histories;
  sound = g.sound;
}

failed-Grew :
    (w : World) (oid : String) (a : After Reservation) (e : CrossError) (tail : List Text)
    → Grew w a.0 oid tail
    → Grew w (fail_after {B = String} a e).0 oid tail
failed-Grew w oid a e tail g =
    subst (λ (x : After String). Grew w x.0 oid tail)
      (sym (fail_after-err Reservation String a e).1) g

pub finish-Grew :
    (oid : String) (r : Ready) (answer : Answer) (w : World)
    → IsSound w.outbound
    → Grew w (finish oid r answer w).0 oid (answer_event answer ∷ [])
unfolding finish answer_event
finish-Grew oid r (accepted id) w v =
    index_sent-Grew w oid r id (settle oid r.rec sent "sent" w) (sent ∷ [])
      (settle-Grew oid r.rec sent "sent" w v cons_not_nil)
finish-Grew oid r (throttles d) w v =
    failed-Grew w oid _ _ (throttled ∷ []) (settle-Grew oid r.rec throttled d w v cons_not_nil)
finish-Grew oid r (refuses d) w v =
    failed-Grew w oid _ _ (refused ∷ []) (settle-Grew oid r.rec refused d w v cons_not_nil)
finish-Grew oid r (is_ambiguous d) w v =
    failed-Grew w oid _ _ (ambiguous ∷ []) (settle-Grew oid r.rec ambiguous d w v cons_not_nil)
finish-Grew oid r (fails d) w v =
    failed-Grew w oid _ _ (ambiguous ∷ [])
      (settle-Grew oid r.rec ambiguous (append "unclassified " d) w v cons_not_nil)

pub answer_event-closes :
    (answer : Answer)
    → may_arrive answer ≡ true
    → any_of is_terminal (sending ∷ answer_event answer ∷ []) ≡ true
unfolding answer_event is_terminal eq_text
answer_event-closes (accepted id) h = refl
answer_event-closes (throttles d) h = absurd (false≢true h)
answer_event-closes (refuses d) h = absurd (false≢true h)
answer_event-closes (is_ambiguous d) h = refl
answer_event-closes (fails d) h = refl
