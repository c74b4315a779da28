-- ===== src/Slack/Outbound/Examples.antt =====
-- A message and a photo to one conversation of Slack.
use agent_letter_bridge.Prelude.{◌≡◌, ◌↔◌, ◌⊎◌, refl, String, true, false, [], ◌∷◌, ◌++◌, ok, err}
use agent_letter_bridge.Prelude.Dict
use agent_letter_bridge.Prelude.Text.{Text, codes, strip, partition, starts_with, eq_text}
use agent_letter_bridge.Json.{Json, bool, str, obj, field, end}
use agent_letter_bridge.Initiate.{Answer, refuses, fails}
use agent_letter_bridge.Initiate.Delivery.{may_arrive}
use agent_letter_bridge.Media.{
  Bytes, preflight, detect, dimensions, png_size, slice, take_bytes, drop_bytes, from_big,
  check_geometry,
}
use agent_letter_bridge.Slack.Events.{clean, replace}
use agent_letter_bridge.Slack.Outbound.{
  CallEnd, returned, http_error, lost, Params, prepare, conversation_of, is_conversation, escape,
  check_length, post, send, status, Network, offered, stage_photo, send_photo,
}
use agent_letter_bridge.Slack.Outbound.Outcomes.{IsDefinite, send_refused_iff}
use agent_letter_bridge.Slack.Outbound.Photos.{photo_may_arrive}
use agent_letter_bridge.Slack.Outbound.Escapes.{clean-escape}

abbrev show : Json → String
show v = ""

abbrev chat : Text
chat = codes "C1/U"

-- a call that Slack refuses with a server error
abbrev failing : Params → CallEnd
failing p = http_error 503

send_refused_iff_example : (may_arrive (send show failing chat (codes "<hi>") []) ≡ false) ↔ (
    ((a : Answer) × (prepare chat (codes "<hi>") [] ≡ err a))
    ⊎ ((p : Params) × (prepare chat (codes "<hi>") [] ≡ ok p) × IsDefinite (failing p)))
send_refused_iff_example = send_refused_iff show failing chat (codes "<hi>") []

prepared :
    prepare chat (codes "<hi>") []
    ≡ ok (record { channel = codes "C1"; text = codes "&lt;hi&gt;"; thread_ts = [] })
unfolding prepare conversation_of is_conversation partition eq_text check_length escape replace
    starts_with
prepared = refl

-- a chat of Telegram never reaches Slack
telegram_refused :
    prepare (codes "12345") (codes "hi") [] ≡ err (refuses "not a Slack conversation")
unfolding prepare conversation_of partition
telegram_refused = refl

clean-escape_example : clean (escape (codes "<@B> a&lt;b ")) "B" ≡ strip (codes "<@B> a&lt;b ")
clean-escape_example = clean-escape "B" (codes "<@B> a&lt;b ")

-- a PNG of 100 by 50 pixels
abbrev image : Bytes
image =
    137
    ∷ (codes "PNG"
        ++ 13
          ∷ 10
          ∷ 26
          ∷ 10
          ∷ 0
          ∷ 0
          ∷ 0
          ∷ 13
          ∷ (codes "IHDR" ++ 0 ∷ 0 ∷ 0 ∷ 100 ∷ 0 ∷ 0 ∷ 0 ∷ 50 ∷ []))

-- the upload is offered and taken, and the answer to the completion is lost
abbrev lossy : Network
lossy = record {
  request = λ kind n. returned (
      obj (
        field "ok" (bool true)
          (field "upload_url" (str "https://files.slack.com/u") (field "file_id" (str "F1") end))));
  upload = λ url bytes. status 200;
  complete = λ file_id conversation comment thread. lost;
}

lossy_arrives : may_arrive (send_photo lossy chat image (codes "x") []) ≡ true
unfolding send_photo stage_photo conversation_of partition is_conversation eq_text preflight detect
    starts_with dimensions png_size check_geometry from_big slice take_bytes drop_bytes post
    Dict.get offered
lossy_arrives = refl

photo_may_arrive_example :
    ((conversation : Text) × (file_id : Text) × (stage_photo lossy chat image (codes "x")
        ≡ ok (conversation, file_id))
      × ¬ IsDefinite (lossy.complete file_id conversation (escape (codes "x")) []))
    ⊎ ((name : String) × (stage_photo lossy chat image (codes "x") ≡ err (fails name)))
photo_may_arrive_example = photo_may_arrive lossy chat image (codes "x") [] lossy_arrives
