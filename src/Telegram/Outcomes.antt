-- ===== src/Telegram/Outcomes.antt =====
-- What the adapter makes of an HTTP outcome.
use agent_letter_bridge.Prelude.{
  ℕ, ◌≤◌, ◌<◌, String, ◌≡◌, ◌↔◌, refl, ap, ◌∙◌, subst, ◌>>=◌, false, Option, none, some, List, [],
  ◌∷◌, ◌≢◌, >>=-eq-ok, map, Result, ok, err, arith,
}
use agent_letter_bridge.Prelude.Int.{ℤ}
use agent_letter_bridge.Json.{Json, null, str, obj, arr, nil, Items, items_list, end}
use agent_letter_bridge.Initiate.Delivery.{may_arrive}
use agent_letter_bridge.Watchdog.{max_retry_after}
use agent_letter_bridge.Telegram.Message.{
  Item, ShapeError, get_or, read_update, read_updates, update_number, chat_of, or_else,
  largest_photo_id, media_kind, id_text,
}
use agent_letter_bridge.Telegram.{
  HttpError, Wire, answered, not_json, no_network, http_error, sane, parameter_seconds,
  body_seconds, lift_shape, result_list, retry_after, transient, poll_failure, fetch,
  outbound_failure, send, header_seconds,
}

-- The send was refused by the platform, with a code below 500.
abbrev pub IsDefinite : Wire → Type 0
IsDefinite wire = (e : HttpError) × (wire ≡ http_error e) × (e.status < 500)

-- A send counts as surely not arrived exactly where the platform answered with an error code below
-- 500. After any other end of the call, a lost answer or an answer that cannot be read included, the
-- message may have arrived.
pub send_iff :
    (show : Json → String) (wire : Wire) → (may_arrive (send show wire) ≡ false) ↔ IsDefinite wire
unfolding send outbound_failure
send_iff show wire = (definite wire, λ d. rw d.1 (ground (arith, d.2)))
  where
    definite : (w : Wire) → may_arrive (send show w) ≡ false → IsDefinite w
    definite (answered payload) h = absurd (ground (arith, h))
    definite not_json h = absurd (cc (h))
    definite no_network h = absurd (cc (h))
    definite (http_error e) h = (e, refl, ground (arith, h))

sane_bounds :
    (show : Json → String) (v : Json) (n : ℕ) → sane show v ≡ some n → (1 ≤ n) × (n ≤ 3600)
unfolding sane
sane_bounds show v n h = ground (arith, h)

parameter_seconds_bounds :
    (show : Json → String) (b : Option Json) (n : ℕ)
    → parameter_seconds show b ≡ some n
    → (1 ≤ n) × (n ≤ 3600)
unfolding parameter_seconds
parameter_seconds_bounds show (some (obj ps)) n h = sane_bounds show _ n h
parameter_seconds_bounds show _ n h = absurd (cc (h))

body_seconds_bounds :
    (show : Json → String) (b : Option Json) (n : ℕ)
    → body_seconds show b ≡ some n
    → (1 ≤ n) × (n ≤ 3600)
unfolding body_seconds
body_seconds_bounds show (some (obj fs)) n h = parameter_seconds_bounds show _ n h
body_seconds_bounds show _ n h = absurd (cc (h))

header_seconds_bounds :
    (show : Json → String) (b : Option String) (n : ℕ)
    → header_seconds show b ≡ some n
    → (1 ≤ n) × (n ≤ 3600)
header_seconds_bounds show none n h = sane_bounds show _ n h
header_seconds_bounds show (some t) n h = sane_bounds show _ n h

retry_after_bounds :
    (show : Json → String) (e : HttpError) (n : ℕ)
    → retry_after show e ≡ some n
    → (1 ≤ n) × (n ≤ 3600)
unfolding retry_after
retry_after_bounds show e n h = go (body_seconds show e.body) refl h
  where
    go :
        (r : Option ℕ)
        → body_seconds show e.body ≡ r
        → elim r [ some m ↦ some m | none ↦ header_seconds show e.retry_header ] ≡ some n
        → (1 ≤ n) × (n ≤ 3600)
    go none q k = header_seconds_bounds show e.retry_header n k
    go (some m) q k = body_seconds_bounds show e.body n (q ∙ k)

poll_failure_wait :
    (show : Json → String) (e : HttpError) (n : ℕ)
    → poll_failure show e ≡ transient (some n)
    → (1 ≤ n) × (n ≤ 3600)
unfolding poll_failure
poll_failure_wait show e n h = retry_after_bounds show e n (ground (arith, h))

unlift : {A : Type 0} (r : Result ShapeError A) {a : A} → lift_shape r ≡ ok a → r ≡ ok a
unlift (ok a) h = cc (h)
unlift (err e) h = absurd (cc (h))

lift_shape-IsNotTransient :
    {A : Type 0} (r : Result ShapeError A) (w : Option ℕ) → lift_shape r ≢ err (transient w)
lift_shape-IsNotTransient (ok a) w h = absurd (cc (h))
lift_shape-IsNotTransient (err e) w h = absurd (cc (h))

-- A wait that `fetch` asks for, from whatever the platform answered, is at least one second and at
-- most an hour, the longest that the watchdog allows for.
pub fetch_wait_bounds :
    (int_text : String → Option ℤ) (show : Json → String) (wire : Wire) (n : ℕ)
    → fetch int_text show wire ≡ err (transient (some n))
    → (1 ≤ n) × (n ≤ max_retry_after)
unfolding fetch
fetch_wait_bounds int_text show (answered payload) n h =
    absurd (lift_shape-IsNotTransient _ (some n) h)
fetch_wait_bounds int_text show not_json n h = absurd (cc (h))
fetch_wait_bounds int_text show no_network n h = absurd (cc (h))
fetch_wait_bounds int_text show (http_error e) n h = poll_failure_wait show e n (cc (h))

abbrev id_of : Result ShapeError Item → Result ShapeError ℤ
id_of (ok i) = ok i.update_id
id_of (err e) = err e

update_number-read_update :
    (int_text : String → Option ℤ) (show : Json → String) (x : Json) (i : Item)
    → read_update int_text show x ≡ ok i
    → update_number x ≡ ok i.update_id
unfolding read_update
update_number-read_update int_text show x i h =
    let (given, _, h) = >>=-eq-ok (get_or "message" null x) _ h in
    let (number, q, h) = >>=-eq-ok (update_number x) _ h in
    let (chat, _, h) = >>=-eq-ok (chat_of show (or_else given (obj end))) _ h in
    let (text, _, h) = >>=-eq-ok (get_or "text" (str "") (or_else given (obj end))) _ h in
    let (caption, _, h) = >>=-eq-ok (get_or "caption" (str "") (or_else given (obj end))) _ h in
    let (photo, _, h) = >>=-eq-ok (largest_photo_id int_text (or_else given (obj end))) _ h in
    let (kind, _, h) = >>=-eq-ok (media_kind (or_else given (obj end))) _ h in
    let (id, _, h) = >>=-eq-ok (id_text show "message_id" (or_else given (obj end))) _ h in
    let (reply, _, h) = >>=-eq-ok (get_or "reply_to_message" null (or_else given (obj end))) _ h in
    let (reply_id, _, h) = >>=-eq-ok (id_text show "message_id" (or_else reply (obj end))) _ h in
    q ∙ ap id_of h

read_updates_ids :
    (int_text : String → Option ℤ) (show : Json → String) (xs : List Json) (is : List Item)
    → read_updates int_text show xs ≡ ok is
    → map update_number xs ≡ map (λ i. ok i.update_id) is
unfolding read_updates
read_updates_ids int_text show [] is h = ground (arith, h)
read_updates_ids int_text show (x ∷ xs) is h =
    let (i, q, h) = >>=-eq-ok (read_update int_text show x) _ h in
    let (rest, q₂, h) = >>=-eq-ok (read_updates int_text show xs) _ h in
    let a = update_number-read_update int_text show x i q in
    let b = read_updates_ids int_text show xs rest q₂ in cc (a, b, h)

-- `fetch` drops nothing and reorders nothing: where it returns, the items are the updates of the
-- answer one by one, those that are no messages included, each under the number of its update.
pub fetch_keeps_updates :
    (int_text : String → Option ℤ) (show : Json → String) (payload : Json) (xs : Items)
    (is : List Item)
    → get_or "result" (arr nil) payload ≡ ok (arr xs)
    → fetch int_text show (answered payload) ≡ ok is
    → map update_number (items_list xs) ≡ map (λ i. ok i.update_id) is
unfolding fetch
fetch_keeps_updates int_text show payload xs is e h =
    let (found, q, h) = >>=-eq-ok (get_or "result" (arr nil) payload) _ (unlift _ h) in
    let same : found ≡ arr xs = cc (q, e) in
    read_updates_ids int_text show (items_list xs) is
      (subst (λ v. (result_list v >>= read_updates int_text show) ≡ ok is) same h)
