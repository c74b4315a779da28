-- ===== src/Initiate/Outcomes.antt =====
-- What a crossing that calls the sender leaves behind, for each answer.
use agent_letter_bridge.Prelude.{
  append, String, ◌≡◌, ◌≢◌, refl, sym, ap, ◌∙◌, subst, Bool, true, Option, some, List, [], ◌∷◌,
  ◌++◌, append_assoc, Result, ok, err, ◌==◌, arith, eq_refl, cons_not_nil, inl, inr, if◌then◌else◌,
}
use agent_letter_bridge.Prelude.Dict
use agent_letter_bridge.Prelude.Dict.{get-put}
use agent_letter_bridge.Prelude.Text.{Text, eq_text}
use agent_letter_bridge.Json.{str}
use agent_letter_bridge.Outbound.{sending, sent, refused, ambiguous, throttled}
use agent_letter_bridge.Outbound.History.{events}
use agent_letter_bridge.Grant.{Grant}
use agent_letter_bridge.Budget.{Reservation, replace, statuses, text_in}
use agent_letter_bridge.Initiate.{
  World, After, CrossError, Host, Site, Message, Ready, Answer, Post, accepted, throttles, refuses,
  is_ambiguous, fails, ambiguous_outcome, throttled_out, refused_out, post_of, posted, finish,
  settle, settle_recorded, settle_reservation, status_after, with_status, bury_if, cross, prepare,
  send_and_finish, fail_after, index_sent,
}
use agent_letter_bridge.Initiate.Settling.{IsSound, Grew, grown, record_event-Grew}
use agent_letter_bridge.Initiate.Crossing.{prepare_lem}
use agent_letter_bridge.Initiate.Delivery.{answer_event, finish-Grew}

stored_status :
    (oid : String) (rec : Reservation) (event : Text) (status detail : String) (w : World)
    → status_after event ≡ some status
    → text_in statuses (some (str status)) ≡ true
    → settle_reservation oid rec event detail w ≡ (
      record w {
        reservations = Dict.put oid (some (with_status status rec)) w.reservations;
        outbound = bury_if event oid detail w.outbound;
      },
      ok (with_status status rec),
    )
unfolding settle_reservation replace
stored_status oid rec event status detail w e k =
    ground (arith, e, k, get-put "status" "status" (str status) rec, eq_refl "status")

-- Settling an event stores the reservation with the status for it.
settle_stores :
    (oid : String) (rec : Reservation) (event : Text) (status detail : String) (w : World)
    → IsSound w.outbound
    → event ≢ []
    → status_after event ≡ some status
    → text_in statuses (some (str status)) ≡ true
    → (w' : World) × (settle oid rec event detail w ≡ (w', ok (with_status status rec)))
      × (Dict.get oid w'.reservations ≡ some (some (with_status status rec)))
unfolding settle
settle_stores oid rec event status detail w v n e k =
    let (o, done, g) = record_event-Grew w oid event v n in
    (
      record w {
        reservations = Dict.put oid (some (with_status status rec)) w.reservations;
        outbound = bury_if event oid detail o;
      },
      ap (settle_recorded oid rec event detail w) done
          ∙ stored_status oid rec event status detail (record w { outbound = o }) e k,
      get-put oid oid (some (with_status status rec)) w.reservations
          ∙ here oid (some (with_status status rec)) (Dict.get oid w.reservations),
    )
  where
    here :
        (i : String) (x : Option Reservation) (y : Option (Option Reservation))
        → (if i == i then some x else y) ≡ some x
    here i x y = rw eq_refl refl

-- the status of a reservation after each answer of the sender, and what the crossing returns
abbrev pub answer_status : Answer → String
answer_status (accepted id) = "settled-sent"
answer_status (throttles d) = "held"
answer_status (refuses d) = "refunded"
answer_status (is_ambiguous d) = "settled-ambiguous"
answer_status (fails d) = "settled-ambiguous"

abbrev pub answer_result : String → Answer → Result CrossError String
answer_result oid (accepted id) = ok oid
answer_result oid (throttles d) = err throttled_out
answer_result oid (refuses d) = err refused_out
answer_result oid (is_ambiguous d) = err ambiguous_outcome
answer_result oid (fails d) = err ambiguous_outcome

Finished : String → Ready → Answer → After String → Type 0
Finished oid r answer a =
    (a.1 ≡ answer_result oid answer)
    × (Dict.get oid a.0.reservations ≡ some (some (with_status (answer_status answer) r.rec)))

finish_stores :
    (oid : String) (r : Ready) (answer : Answer) (w : World)
    → IsSound w.outbound
    → Finished oid r answer (finish oid r answer w)
unfolding finish Finished index_sent status_after eq_text
finish_stores oid r (accepted id) w v =
    let (w', e, k) =
      settle_stores oid r.rec sent "settled-sent" "sent" w v cons_not_nil refl refl in
    subst (λ (a : After Reservation). Finished oid r (accepted id) (index_sent oid r id a)) (sym e)
      (refl, k)
finish_stores oid r (throttles d) w v =
    let (w', e, k) = settle_stores oid r.rec throttled "held" d w v cons_not_nil refl refl in
    subst (λ (a : After Reservation). Finished oid r (throttles d) (fail_after a throttled_out))
      (sym e) (refl, k)
finish_stores oid r (refuses d) w v =
    let (w', e, k) = settle_stores oid r.rec refused "refunded" d w v cons_not_nil refl refl in
    subst (λ (a : After Reservation). Finished oid r (refuses d) (fail_after a refused_out)) (sym e)
      (refl, k)
finish_stores oid r (is_ambiguous d) w v =
    let (w', e, k) =
      settle_stores oid r.rec ambiguous "settled-ambiguous" d w v cons_not_nil refl refl in
    subst
      (λ (a : After Reservation). Finished oid r (is_ambiguous d) (fail_after a ambiguous_outcome))
      (sym e) (refl, k)
finish_stores oid r (fails d) w v =
    let (w', e, k) =
      settle_stores oid r.rec ambiguous "settled-ambiguous" (append "unclassified " d) w v
        cons_not_nil refl refl in
    subst (λ (a : After Reservation). Finished oid r (fails d) (fail_after a ambiguous_outcome))
      (sym e) (refl, k)

-- A crossing that comes to call the sender calls it once, with the chat that it found and the text
-- of the message. The letter's history ends with "sending" and the event of the answer, the reservation
-- is stored with the status of the answer, and the crossing returns the id after a success and raises
-- the answer's error otherwise. The receipts are sound before.
pub cross_outcome :
    (h : Host) (s : Site) (grant : Grant) (m : Message) (oid : String) (rec : Reservation)
    (answer : Answer) (w w1 : World) (r : Ready)
    → IsSound w.outbound
    → prepare h s grant m oid rec w ≡ (w1, ok r)
    → let (w', result) = cross h s grant m oid rec answer w in
      (result ≡ answer_result oid answer)
      × (w'.posts ≡ w.posts ++ post_of oid m r answer ∷ [])
      × (events w'.outbound oid ≡ events w.outbound oid ++ sending ∷ answer_event answer ∷ [])
      × (Dict.get oid w'.reservations ≡ some (some (with_status (answer_status answer) r.rec)))
unfolding cross posted Finished
cross_outcome h s grant m oid rec answer w w1 r v e = elim (prepare_lem h s grant m oid rec w v) [
  | inl st ↦ absurd (cc (e, st.stopped))
  | inr st ↦
      let same : st.end ≡ w1 = cc (e, st.started) in
      let g = subst (λ (x : World). Grew w x oid (sending ∷ [])) same st.grew in
      let f = finish-Grew oid r answer (posted oid m r answer w1) g.sound in
      let (res, stored) = finish_stores oid r answer (posted oid m r answer w1) g.sound in
      subst
        (λ (a : After Ready).
          let (w', result) = send_and_finish oid m answer a in
          (result ≡ answer_result oid answer)
          × (w'.posts ≡ w.posts ++ post_of oid m r answer ∷ [])
          × (events w'.outbound oid ≡ events w.outbound oid ++ sending ∷ answer_event answer ∷ [])
          × (Dict.get oid w'.reservations ≡ some (some (with_status (answer_status answer) r.rec))))
        (sym e)
        (
          res,
          f.posts_same ∙ ap (λ (ps : List Post). ps ++ post_of oid m r answer ∷ []) g.posts_same,
          self oid (events w1.outbound oid) (answer_event answer ∷ []) (f.histories oid)
              ∙ (ap (λ (es : List Text). es ++ answer_event answer ∷ [])
                    (self oid (events w.outbound oid) (sending ∷ []) (g.histories oid))
                  ∙ append_assoc (events w.outbound oid) (sending ∷ []) (answer_event answer ∷ [])),
          stored,
        )
]
  where
    self :
        {x : List Text} (i : String) (es tail : List Text)
        → x ≡ grown (i == i) es tail
        → x ≡ es ++ tail
    self i es tail e = e ∙ ap (λ (b : Bool). grown b es tail) (eq_refl i)
