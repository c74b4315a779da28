-- ===== src/Slack/Outbound/Outcomes.antt =====
-- When a message to Slack may have arrived.
use agent_letter_bridge.Prelude.{
  ◌<◌, ◌≡◌, refl, ap, sym, ◌∙◌, subst, ◌↔◌, ◌⊎◌, inl, inr, String, true, false, ◌>>=◌, Result, ok,
  err, elem, Bool-cases, arith,
}
use agent_letter_bridge.Prelude.Dict
use agent_letter_bridge.Prelude.Dict.{Dict}
use agent_letter_bridge.Prelude.Text.{Text}
use agent_letter_bridge.Json.{Json, null, bool, int, float, str, arr, obj, Fields, fields_dict}
use agent_letter_bridge.Initiate.{Answer}
use agent_letter_bridge.Initiate.Delivery.{may_arrive}
use agent_letter_bridge.Slack.Outbound.{
  CallEnd, returned, http_error, lost, unreadable, unclassified, ambiguous_errors, conversation_of,
  escape, error_code, coded_failure, is_ok, post, check_length, Params, prepare, finish_send,
  send_prepared, send,
}

-- Slack has refused the call before it acted: an error answer with a code below 500, or an object that
-- is not ok and names an error outside the four ambiguous ones.
abbrev pub IsDefinite : CallEnd → Type 0
IsDefinite (returned v) =
    (fs : Fields) × (v ≡ obj fs)
    × (is_ok (Dict.get "ok" (fields_dict fs)) ≡ false)
    × (elem (error_code (fields_dict fs)) ambiguous_errors ≡ false)
IsDefinite (http_error n) = n < 500
IsDefinite lost = ⊥
IsDefinite unreadable = ⊥
IsDefinite (unclassified name) = ⊥

coded_failure-may_arrive : (e : String) → may_arrive (coded_failure e) ≡ elem e ambiguous_errors
unfolding coded_failure
coded_failure-may_arrive e = elim (Bool-cases (elem e ambiguous_errors)) [
  | inl h ↦ rw h refl
  | inr h ↦ rw h (ground arith)
]

-- Whatever is made of the payload counts as arrived.
abbrev pub finished : (Dict Json → Answer) → Result Answer (Dict Json) → Answer
finished f (ok payload) = f payload
finished f (err a) = a

module _ (f : Dict Json → Answer) (arrives : (d : Dict Json) → may_arrive (f d) ≡ true) where
  object_iff :
      (fs : Fields)
      → may_arrive (finished f (post (returned (obj fs)))) ≡ false
      → (is_ok (Dict.get "ok" (fields_dict fs)) ≡ false)
        × (elem (error_code (fields_dict fs)) ambiguous_errors ≡ false)
  unfolding post
  object_iff fs h =
      ground
        (arith, h, arrives (fields_dict fs), coded_failure-may_arrive (error_code (fields_dict fs)))

  post-IsDefinite : (c : CallEnd) → may_arrive (finished f (post c)) ≡ false → IsDefinite c
  unfolding post
  post-IsDefinite (returned (obj fs)) h = (fs, refl, (object_iff fs h).0, (object_iff fs h).1)
  post-IsDefinite (returned null) h = cc (h)
  post-IsDefinite (returned (bool b)) h = cc (h)
  post-IsDefinite (returned (int n)) h = cc (h)
  post-IsDefinite (returned (float x)) h = cc (h)
  post-IsDefinite (returned (str s)) h = cc (h)
  post-IsDefinite (returned (arr xs)) h = cc (h)
  post-IsDefinite (http_error n) h = ground (arith, h)
  post-IsDefinite lost h = absurd (cc (h))
  post-IsDefinite unreadable h = absurd (cc (h))
  post-IsDefinite (unclassified name) h = absurd (cc (h))

  pub may_arrive-post : (c : CallEnd) → IsDefinite c → may_arrive (finished f (post c)) ≡ false
  unfolding post
  may_arrive-post (returned v) (fs, e, no_ok, code) =
      rw e (rw no_ok (coded_failure-may_arrive (error_code (fields_dict fs)) ∙ code))
  may_arrive-post (http_error n) h = ground (arith, h)
  may_arrive-post lost h = absurd h
  may_arrive-post unreadable h = absurd h
  may_arrive-post (unclassified name) h = absurd h

-- Where the call fails, its answer is one of these.
abbrev pub Fails : {A : Type 0} → (Answer → Type 0) → Result Answer A → Type 0
Fails P (ok x) = Unit
Fails P (err a) = P a

pub Fails-bind :
    {A B : Type 0} (P : Answer → Type 0) (m : Result Answer A) (f : A → Result Answer B)
    → Fails P m
    → ((x : A) → Fails P (f x))
    → Fails P (m >>= f)
Fails-bind P (ok x) f h k = k x
Fails-bind P (err a) f h k = h

fails_err :
    {A : Type 0} (P : Answer → Type 0) (r : Result Answer A) (a : Answer)
    → Fails P r
    → r ≡ err a
    → P a
fails_err P (ok x) a h e = absurd (cc (e))
fails_err P (err b) a h e = subst (Fails P) e h

abbrev pub Unsent : Answer → Type 0
Unsent a = may_arrive a ≡ false

pub conversation_of-Unsent : (chat_id : Text) → Fails Unsent (conversation_of chat_id)
unfolding conversation_of
conversation_of-Unsent chat_id = ground arith

check_length-Unsent : (body : Text) → Fails Unsent (check_length body)
unfolding check_length
check_length-Unsent body = ground arith

-- What is refused before the call was not posted.
prepare-Unsent : (chat_id text thread : Text) → Fails Unsent (prepare chat_id text thread)
unfolding prepare
prepare-Unsent chat_id text thread =
    Fails-bind Unsent (conversation_of chat_id) _ (conversation_of-Unsent chat_id) (λ c.
      Fails-bind Unsent (check_length (escape text)) _ (check_length-Unsent (escape text))
        (λ u. tt))

abbrev sent_as : (Json → String) → Dict Json → Answer
sent_as show d = finish_send show (ok d)

finish_send_as :
    (show : Json → String) (r : Result Answer (Dict Json))
    → finish_send show r ≡ finished (sent_as show) r
finish_send_as show (ok d) = refl
finish_send_as show (err a) = refl

-- A message to Slack surely has not arrived in exactly two cases: the destination or the length was
-- refused before the call, or the call was made and Slack answered it with an error code below 500
-- or with an object that is not ok and names an error outside the four ambiguous ones.
pub send_refused_iff :
    (show : Json → String) (call : Params → CallEnd) (chat_id text thread : Text)
    → (may_arrive (send show call chat_id text thread) ≡ false) ↔ (
        ((a : Answer) × (prepare chat_id text thread ≡ err a))
        ⊎ ((p : Params) × (prepare chat_id text thread ≡ ok p) × IsDefinite (call p)))
unfolding send
send_refused_iff show call chat_id text thread =
    go (prepare chat_id text thread) (prepare-Unsent chat_id text thread)
  where
    go :
        (r : Result Answer Params)
        → Fails Unsent r
        → (may_arrive (send_prepared show call r) ≡ false)
          ↔ (((a : Answer) × (r ≡ err a)) ⊎ ((p : Params) × (r ≡ ok p) × IsDefinite (call p)))
    go (ok p) u = (
      λ h. inr (
        p,
        refl,
        post-IsDefinite (sent_as show) (λ d. refl) (call p)
            (ap may_arrive (sym (finish_send_as show (post (call p)))) ∙ h),
      ),
      λ e. elim e [
        | inl refused ↦ absurd (cc (refused.1))
        | inr called ↦
            ap may_arrive (finish_send_as show (post (call p)))
            ∙ may_arrive-post (sent_as show) (λ d. refl) (call p)
                (subst (λ (q : Params). IsDefinite (call q)) (cc (called.1)) called.2)
      ],
    )
    go (err a) u = (λ h. inl (a, refl), λ e. u)
