-- ===== src/Initiate/Safety.antt =====
-- Each step keeps the letters safe, so any run of the program does.
use agent_letter_bridge.Prelude.{
  ◌≤◌, String, ◌≡◌, refl, sym, ap, subst, ◌∙◌, Bool, true, false, List, [], ◌∷◌, ◌++◌, append_assoc,
  ok, inl, inr, ◌==◌, any_of, arith,
}
use agent_letter_bridge.Prelude.Text.{Text, eq_text}
use agent_letter_bridge.Outbound.{Store, sending, dead, is_terminal, reconcile_at_startup}
use agent_letter_bridge.Outbound.History.{events}
use agent_letter_bridge.Outbound.Startup.{buried, is_stranded, reconcile_at_startup_lem}
use agent_letter_bridge.Grant.{Grant}
use agent_letter_bridge.Budget.{Reservation}
use agent_letter_bridge.Initiate.{
  World, After, Host, Site, Message, Ready, Answer, Post, post_of, posted, finish, cross, prepare,
  send_and_finish,
}
use agent_letter_bridge.Initiate.Settling.{IsSound, Grew, grown}
use agent_letter_bridge.Initiate.Crossing.{is_closed, Stopped, prepare_lem}
use agent_letter_bridge.Initiate.Delivery.{
  arrivals, Step, crossing, crash, crash_before, OnceAt-closing, restart, other, Steps, stop, more,
  OnceAt, IsSafe, OnceAt-quiet, OnceAt-posted, answer_event, answer_event-closes, finish-Grew,
  closed-terminal, closed-sending,
}

grown-twice : (b : Bool) (es s t : List Text) → grown b (grown b es s) t ≡ grown b es (s ++ t)
grown-twice true es s t = append_assoc es s t
grown-twice false es s t = refl

stopped-IsSafe :
    (w : World) (oid : String) (a : After Ready) → Stopped w oid a → IsSafe w → IsSafe a.0
stopped-IsSafe w oid a st v =
    subst (λ (x : After Ready). IsSafe x.0) (sym st.stopped)
      (record {
        sound = st.grew.sound;
        once = λ j. OnceAt-quiet w st.end oid j st.tail st.grew st.quiet (v.once j);
      })

crashed-IsSafe :
    (w w' : World) (oid : String) (m : Message) (r : Ready) (answer : Answer)
    → Grew w w' oid (sending ∷ [])
    → is_closed (events w.outbound oid) ≡ false
    → IsSafe w
    → IsSafe (posted oid m r answer w')
unfolding posted
crashed-IsSafe w w' oid m r answer g c v = record {
  sound = g.sound;
  once = λ j.
      OnceAt-posted w (posted oid m r answer w') oid j (post_of oid m r answer) (sending ∷ []) refl
        (ap (λ (ps : List Post). ps ++ post_of oid m r answer ∷ []) g.posts_same) (g.histories j) c
        (λ es h. closed-sending es) (v.once j);
}

finished-IsSafe :
    (w w' : World) (oid : String) (m : Message) (r : Ready) (answer : Answer)
    → Grew w w' oid (sending ∷ [])
    → is_closed (events w.outbound oid) ≡ false
    → IsSafe w
    → IsSafe (finish oid r answer (posted oid m r answer w')).0
unfolding posted
finished-IsSafe w w' oid m r answer g c v =
    let f = finish-Grew oid r answer (posted oid m r answer w') g.sound in
    record {
      sound = f.sound;
      once = λ j.
          OnceAt-posted w (finish oid r answer (posted oid m r answer w')).0 oid j
            (post_of oid m r answer) (sending ∷ answer_event answer ∷ []) refl
            (f.posts_same ∙ ap (λ (ps : List Post). ps ++ post_of oid m r answer ∷ []) g.posts_same)
            (f.histories j
              ∙ (ap (λ (es : List Text). grown (oid == j) es (answer_event answer ∷ []))
                    (g.histories j)
                  ∙ grown-twice (oid == j) (events w.outbound j) (sending ∷ [])
                      (answer_event answer ∷ [])))
            c (λ es h. closed-terminal es _ (answer_event-closes answer h)) (v.once j);
    }

cross-IsSafe :
    (h : Host) (s : Site) (grant : Grant) (m : Message) (oid : String) (rec : Reservation)
    (answer : Answer) (w : World)
    → IsSafe w
    → IsSafe (cross h s grant m oid rec answer w).0
unfolding cross
cross-IsSafe h s grant m oid rec answer w v = elim (prepare_lem h s grant m oid rec w v.sound) [
  | inl st ↦
      subst (λ (x : After Ready). IsSafe (send_and_finish oid m answer x).0) (sym st.stopped)
        (subst (λ (x : After Ready). IsSafe x.0) st.stopped (stopped-IsSafe w oid _ st v))
  | inr st ↦
      subst (λ (x : After Ready). IsSafe (send_and_finish oid m answer x).0) (sym st.started)
        (finished-IsSafe w st.end oid m st.ready answer st.grew st.was_open v)
]

crash-IsSafe :
    (h : Host) (s : Site) (grant : Grant) (m : Message) (oid : String) (rec : Reservation)
    (answer : Answer) (w w' : World) (r : Ready)
    → prepare h s grant m oid rec w ≡ (w', ok r)
    → IsSafe w
    → IsSafe (posted oid m r answer w')
crash-IsSafe h s grant m oid rec answer w w' r e v =
    elim (prepare_lem h s grant m oid rec w v.sound) [
      | inl st ↦ absurd (cc (e, st.stopped))
      | inr st ↦
          let same : st.end ≡ w' = cc (e, st.started) in
          crashed-IsSafe w w' oid m r answer
            (subst (λ (x : World). Grew w x oid (sending ∷ [])) same st.grew) st.was_open v
    ]

crash_before-IsSafe :
    (h : Host) (s : Site) (grant : Grant) (m : Message) (oid : String) (rec : Reservation)
    (w w' : World) (r : Ready)
    → prepare h s grant m oid rec w ≡ (w', ok r)
    → IsSafe w
    → IsSafe w'
crash_before-IsSafe h s grant m oid rec w w' r e v =
    elim (prepare_lem h s grant m oid rec w v.sound) [
      | inl st ↦ absurd (cc (e, st.stopped))
      | inr st ↦
          let same : st.end ≡ w' = cc (e, st.started) in
          let g = subst (λ (x : World). Grew w x oid (sending ∷ [])) same st.grew in
          record {
            sound = g.sound;
            once = λ j.
                OnceAt-closing w w' oid j (sending ∷ []) g (λ es. closed-sending es) (v.once j);
          }
    ]

dead_terminal : any_of is_terminal (dead ∷ []) ≡ true
unfolding is_terminal eq_text
dead_terminal = refl

closed-buried : (b : Bool) (es : List Text) → is_closed (buried b es) ≡ false → is_closed es ≡ false
closed-buried true es c = absurd (ground (arith, c, closed-terminal es (dead ∷ []) dead_terminal))
closed-buried false es c = c

restart-IsSafe :
    (w : World) (ids : List String) (o : Store)
    → reconcile_at_startup w.outbound ≡ ok (ids, o)
    → IsSafe w
    → IsSafe (record w { outbound = o })
restart-IsSafe w ids o e v =
    let (ids', o', done, hist, notes, n, d) =
      reconcile_at_startup_lem w.outbound v.sound.distinct v.sound.numbered in
    let same : o' ≡ o = cc (e, done) in
    subst (λ (t : Store). IsSafe (record w { outbound = t })) same
      (record {
        sound = record { numbered = n; distinct = d };
        once = λ j. (
          (v.once j).0,
          λ c. (v.once j).1 (
              closed-buried (is_stranded w.outbound j) (events w.outbound j)
                (subst (λ (es : List Text). is_closed es ≡ false) (hist j) c)),
        );
      })

pub Step-IsSafe : (h : Host) (w w' : World) → Step h w w' → IsSafe w → IsSafe w'
Step-IsSafe h w w' (crossing s grant m oid rec answer _) v =
    cross-IsSafe h s grant m oid rec answer w v
Step-IsSafe h w w' (crash_before s grant m oid rec _ _ r e) v =
    crash_before-IsSafe h s grant m oid rec w w' r e v
Step-IsSafe h w w' (crash s grant m oid rec answer _ w1 r e) v =
    crash-IsSafe h s grant m oid rec answer w w1 r e v
Step-IsSafe h w w' (restart _ ids o e) v = restart-IsSafe w ids o e v
Step-IsSafe h w w' (other rs t _) v = record { sound = v.sound; once = v.once }

pub Steps-IsSafe : (h : Host) (w w' : World) → Steps h w w' → IsSafe w → IsSafe w'
Steps-IsSafe h w w' (stop _) v = v
Steps-IsSafe h w w' (more _ m _ s r) v = Steps-IsSafe h m w' r (Step-IsSafe h w m s v)

no_arrivals : (oid : String) → arrivals oid [] ≡ 0
unfolding arrivals
no_arrivals oid = refl

-- From sound receipts with no call of the sender yet, any run of crossings, crashes around a call of
-- the sender, restarts and changes of the reservations keeps the receipts sound, and of each letter at
-- most one message may have arrived: at most one call was answered by anything but a throttle or a
-- refusal.
pub at_most_one_arrival :
    (h : Host) (w w' : World)
    → IsSound w.outbound
    → w.posts ≡ []
    → Steps h w w'
    → IsSound w'.outbound × ((oid : String) → arrivals oid w'.posts ≤ 1)
at_most_one_arrival h w w' v e r =
    let safe = Steps-IsSafe h w w' r (record { sound = v; once = λ oid. none_yet oid }) in
    (safe.sound, λ oid. (safe.once oid).0)
  where
    none_yet : (oid : String) → OnceAt oid w
    none_yet oid = let z = ap (arrivals oid) e ∙ no_arrivals oid in (omega (arith, z), λ c. z)
