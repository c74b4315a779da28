-- ===== src/Poller/Inbound.antt =====
-- _join_marker and _inbound_text_and_media of alb/poller/loop.py. An item is the dict that an adapter
-- hands over, with what a missing key reads as. What the download of a photo and its staging give is a
-- `Download`.
use agent_letter_bridge.Prelude.{
  String, not, ◌&&◌, Option, List, [], ◌∷◌, ◌++◌, Result, ok, err, if◌then◌else◌, any_of,
}
use agent_letter_bridge.Prelude.Text.{Text, codes, eq_text, strip}
use agent_letter_bridge.Letter.{Meta, LetterError}
use agent_letter_bridge.Allowlist.{GateError}
use agent_letter_bridge.Outbound.Identity.{IdentityError}

-- `provenance` is none where the item has no such key
pub record Incoming : Type 0 where
  pub update_id : Text
  pub chat_id : String
  pub text : Text
  pub caption : Text
  pub media_kind : Text
  pub photo_file_id : Text
  pub message_id : Text
  pub reply_to_message_id : Text
  pub provenance : Option Meta
  pub reply_thread : Text

pub record Asset : Type 0 where
  pub asset_id : Text
  pub media_type : Text
  pub bytes : Text
  pub name : Text

-- `no_downloader` is a platform that cannot download
pub data Download : Type 0 where
  no_downloader deferred failed : Download
  staged : Asset → Download

-- what a poll raises
pub data Failure : Type 0 where
  transient : Failure
  letter_failure : LetterError → Failure
  gate_failure : GateError → Failure
  identity_failure : IdentityError → Failure

-- _join_marker(text, marker)
unfoldable pub join_marker : Text → Text → Text
join_marker [] marker = marker
join_marker (c ∷ t) marker = strip ((c ∷ t) ++ 10 ∷ marker)

-- `text or caption`
abbrev pub or_text : Text → Text → Text
or_text [] t = t
or_text (c ∷ s) t = c ∷ s

abbrev carried_kinds : List Text
carried_kinds = codes "photo" ∷ codes "voice" ∷ codes "sticker" ∷ codes "document" ∷ []

-- an item whose photo is not downloaded
unfoldable pub without_photo : Text → Text → Text × Meta
without_photo kind body =
    if any_of (eq_text kind) carried_kinds
    then (join_marker body (b'[' ∷ (kind ++ codes " received; content not carried]")), [])
    else (body, [])

abbrev pub asset_fields : Asset → Meta
asset_fields a =
    (codes "media_asset_id", a.asset_id)
    ∷ (codes "media_kind", codes "image")
    ∷ (codes "media_type", a.media_type)
    ∷ (codes "media_bytes", a.bytes)
    ∷ (codes "media_name", a.name)
    ∷ []

unfoldable pub with_photo : Download → Text → Text → Result Failure (Text × Meta)
with_photo no_downloader kind body = ok (without_photo kind body)
with_photo deferred kind body = err transient
with_photo failed kind body = ok (
  join_marker body (codes "[photo unavailable]"),
  (codes "media_status", codes "fetch-failed") ∷ (codes "media_kind", codes "image") ∷ [],
)
with_photo (staged a) kind body = ok (body, asset_fields a)

-- _inbound_text_and_media(platform, state, item)
unfoldable pub inbound_text_and_media : Download → Incoming → Result Failure (Text × Meta)
inbound_text_and_media download item =
    if eq_text item.media_kind (codes "photo") && not (eq_text item.photo_file_id [])
    then with_photo download item.media_kind (or_text item.text item.caption)
    else ok (without_photo item.media_kind (or_text item.text item.caption))
