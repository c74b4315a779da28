-- ===== src/Slack/Outbound/Photos.antt =====
-- When a photo to Slack may have arrived.
use agent_letter_bridge.Prelude.{
  ℕ, ◌≡◌, refl, ap, ◌⊎◌, inl, inr, String, true, false, Result, ok, err, length, Bool-cases, eqb,
  leb, arith,
}
use agent_letter_bridge.Prelude.Dict
use agent_letter_bridge.Prelude.Dict.{Dict}
use agent_letter_bridge.Prelude.Text.{Text}
use agent_letter_bridge.Json.{Json, null, bool, int, float, str, arr, obj, Fields, fields_dict}
use agent_letter_bridge.Initiate.{Answer, accepted, fails}
use agent_letter_bridge.Initiate.Delivery.{may_arrive}
use agent_letter_bridge.Media.{Bytes, MediaError, MediaType, preflight}
use agent_letter_bridge.Slack.Outbound.{
  CallEnd, returned, http_error, lost, unreadable, unclassified, conversation_of, escape,
  error_code, coded_failure, is_ok, post, Upload, status, upload_lost, upload_raised, Network,
  unstarted, lift_media, lift_ticket, offered, uploaded, stage_photo, finish_photo, complete_photo,
  send_photo,
}
use agent_letter_bridge.Slack.Outbound.Outcomes.{
  IsDefinite, finished, may_arrive-post, Fails, Fails-bind, Unsent, conversation_of-Unsent,
}

-- A failure before the completion: nothing was posted, or an exception that nothing classifies.
abbrev Early : Answer → Type 0
Early a = (may_arrive a ≡ false) ⊎ ((name : String) × (a ≡ fails name))

coded_failure-Early : (e : String) → Early (unstarted (coded_failure e))
unfolding coded_failure
coded_failure-Early e = inl (ground arith)

object-Early : (fs : Fields) → Fails Early (lift_ticket (post (returned (obj fs))))
unfolding post
object-Early fs = elim (Bool-cases (is_ok (Dict.get "ok" (fields_dict fs)))) [
  | inl e ↦ rw e tt
  | inr e ↦ rw e (coded_failure-Early (error_code (fields_dict fs)))
]

http_error-Early : (n : ℕ) → Fails Early (lift_ticket (post (http_error n)))
unfolding post
http_error-Early n = elim (Bool-cases (eqb n 429)) [
  | inl e ↦ rw e (inl refl)
  | inr e ↦ elim (Bool-cases (leb 500 n)) [
    | inl k ↦ rw (e, k) (inl refl)
    | inr k ↦ rw (e, k) (inl refl)
  ]
]

post-Early : (c : CallEnd) → Fails Early (lift_ticket (post c))
post-Early (returned (obj fs)) = object-Early fs
post-Early (returned null) = unfold post in inl refl
post-Early (returned (bool b)) = unfold post in inl refl
post-Early (returned (int n)) = unfold post in inl refl
post-Early (returned (float x)) = unfold post in inl refl
post-Early (returned (str s)) = unfold post in inl refl
post-Early (returned (arr xs)) = unfold post in inl refl
post-Early (http_error n) = http_error-Early n
post-Early lost = unfold post in inl refl
post-Early unreadable = unfold post in inl refl
post-Early (unclassified name) = unfold post in inr (name, refl)

conversation_of-Early : (chat_id : Text) → Fails Early (conversation_of chat_id)
conversation_of-Early chat_id = go (conversation_of chat_id) (conversation_of-Unsent chat_id)
  where
    go : (r : Result Answer Text) → Fails Unsent r → Fails Early r
    go (ok c) h = tt
    go (err a) h = inl h

lift_media-Early : (r : Result MediaError (MediaType × ℕ × ℕ)) → Fails Early (lift_media r)
lift_media-Early (ok m) = tt
lift_media-Early (err e) = inr ("MediaError", refl)

offered-Early : (ticket : Dict Json) → Fails Early (offered ticket)
offered-Early ticket = go (offered ticket) (unfold offered in ground arith)
  where
    go : (r : Result Answer (Text × Text)) → Fails Unsent r → Fails Early r
    go (ok c) h = tt
    go (err a) h = inl h

uploaded-Early : (u : Upload) → Fails Early (uploaded u)
uploaded-Early (status n) = elim (Bool-cases (eqb n 200)) [
  | inl e ↦ rw e tt
  | inr e ↦ rw e (inl refl)
]
uploaded-Early upload_lost = inl refl
uploaded-Early (upload_raised name) = inr (name, refl)

stage_photo-Early :
    (net : Network) (chat_id : Text) (bytes : Bytes) (caption : Text)
    → Fails Early (stage_photo net chat_id bytes caption)
unfolding stage_photo
stage_photo-Early net chat_id bytes caption =
    Fails-bind Early (conversation_of chat_id) _ (conversation_of-Early chat_id) λ conversation.
      Fails-bind Early (lift_media (preflight bytes caption)) _
        (lift_media-Early (preflight bytes caption))
        λ checked.
          Fails-bind Early (lift_ticket (post (net.request checked.0 (length bytes)))) _
            (post-Early (net.request checked.0 (length bytes)))
            λ ticket. Fails-bind Early (offered ticket) _ (offered-Early ticket) λ offer.
              Fails-bind Early (uploaded (net.upload offer.0 bytes)) _
                (uploaded-Early (net.upload offer.0 bytes)) λ u. tt

abbrev err_answer : Answer → Result Answer (Text × Text)
err_answer a = err a

finish_photo_as :
    (file_id : Text) (r : Result Answer (Dict Json))
    → finish_photo file_id r ≡ finished (λ d. accepted file_id) r
finish_photo_as file_id (ok d) = refl
finish_photo_as file_id (err a) = refl

-- A photo to Slack may have arrived only in two cases. Either all before the completion succeeded, the
-- completion was called with the conversation, the comment escaped and the thread, and Slack did not
-- refuse it before it acted; or a step before the completion raised an exception that the sender
-- does not classify.
pub photo_may_arrive :
    (net : Network) (chat_id : Text) (bytes : Bytes) (caption thread : Text)
    → may_arrive (send_photo net chat_id bytes caption thread) ≡ true
    → ((conversation : Text) × (file_id : Text) × (stage_photo net chat_id bytes caption
          ≡ ok (conversation, file_id))
        × ¬ IsDefinite (net.complete file_id conversation (escape caption) thread))
      ⊎ ((name : String) × (stage_photo net chat_id bytes caption ≡ err (fails name)))
unfolding send_photo
photo_may_arrive net chat_id bytes caption thread h =
    go (stage_photo net chat_id bytes caption) (stage_photo-Early net chat_id bytes caption) h
  where
    go :
        (r : Result Answer (Text × Text))
        → Fails Early r
        → may_arrive (complete_photo net caption thread r) ≡ true
        → ((conversation : Text) × (file_id : Text) × (r ≡ ok (conversation, file_id))
            × ¬ IsDefinite (net.complete file_id conversation (escape caption) thread))
          ⊎ ((name : String) × (r ≡ err (fails name)))
    go (err a) (inl unsent) k = absurd (cc (unsent, k))
    go (err a) (inr raised) k = inr (raised.0, ap err_answer raised.1)
    go (ok (conversation, file_id)) u k = inl (
      conversation,
      file_id,
      refl,
      λ definite. cc (
        k,
        ap may_arrive (
            finish_photo_as file_id
              (post (net.complete file_id conversation (escape caption) thread))),
        may_arrive-post (λ d. accepted file_id) (λ d. refl)
            (net.complete file_id conversation (escape caption) thread) definite,
      ),
    )
