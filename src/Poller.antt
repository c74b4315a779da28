-- ===== src/Poller.antt =====
-- alb/poller/loop.py: poll_once. `Home` is what a poll reads and writes, the calls of the platform's
-- `ack` included. Each item comes with what the clock, uuid4 and the download give for it. The media
-- store is not modelled but for what staging gives back: its `promote` and `discard_staging` change
-- nothing here. Of the heartbeat only its being written is modelled.
pub mod Inbound
pub mod Threads
pub mod Stamping
pub mod Steps
pub mod Order
mod Examples
use agent_letter_bridge.Prelude.{
  ℕ, ◌+◌, String, Bool, true, false, not, ◌&&◌, Option, none, some, List, [], ◌∷◌, ◌++◌, Result, ok,
  err, if◌then◌else◌,
}
use agent_letter_bridge.Prelude.Text.{Text, codes, eq_text, partition}
use agent_letter_bridge.Prelude.TextDict
use agent_letter_bridge.Prelude.TextDict.{TextDict}
use agent_letter_bridge.Json.{Json, str}
use agent_letter_bridge.Allowlist.{AllowFile, GateError, allows}
use agent_letter_bridge.MsgIndex.{Table, record_message, lookup}
use agent_letter_bridge.Outbound.Identity.{Identities, IdentityError, correspondent_key}
use agent_letter_bridge.Letter.{
  Meta, Letter, LetterError, malformed_letter, no_such_letter, unsafe_identifier, os_error,
  Directory, envelope, resolve,
}
use agent_letter_bridge.Letter.Store.{Mint, Post, publish_once, find_by_update, is_skipped}
use agent_letter_bridge.Poller.Inbound.{
  Incoming, Download, Failure, letter_failure, gate_failure, identity_failure,
  inbound_text_and_media,
}
use agent_letter_bridge.Poller.Threads.{thread_of, current_thread, stamp_thread}

-- The arguments of a poll, and what stands for code that is not here: `token` is update_token, `derive`
-- the digest of a salt and an origin, `minted` a new salt, `spell` the string of given code points.
pub record Setup : Type 0 where
  pub name : Text
  pub sender : Text
  pub recipient : Text
  pub allowlist : AllowFile
  pub processed : List Directory
  pub has_health : Bool
  pub token : Text → Text
  pub derive : Text → Text → Text
  pub minted : Text
  pub spell : Text → String
  pub show : Json → String

pub record Home : Type 0 where
  pub post : Post
  pub threads : TextDict Text
  pub index : Table
  pub identities : Identities
  pub acks : List Text
  pub heartbeats : ℕ

pub record Arrival : Type 0 where
  pub item : Incoming
  pub mint : Mint
  pub download : Download

-- Cycle
pub record Cycle : Type 0 where
  pub ids : List Text
  pub fetched : ℕ
  pub published : ℕ
  pub denied : ℕ
  pub duplicate : ℕ

abbrev pub searched : Setup → Home → List Directory
searched s h = h.post.inbox ∷ s.processed

abbrev base_fields : Incoming → Option Meta → Meta
base_fields item none = (codes "telegram_update_id", item.update_id) ∷ []
base_fields item (some provenance) =
    if eq_text item.reply_thread []
    then provenance
    else TextDict.put (codes "reply_thread") item.reply_thread provenance

abbrev message_field : Option Meta → Text → Meta → Meta
message_field none (c ∷ id) extra = TextDict.put (codes "telegram_message_id") (c ∷ id) extra
message_field _ _ extra = extra

-- the fields of the letter before its place in a thread
unfoldable pub extra_fields : Incoming → Meta → Text → Meta
extra_fields item media key = TextDict.put (codes "correspondent") key (
    message_field item.provenance item.message_id
      (TextDict.update (base_fields item item.provenance) media))

-- a reply's target and its thread, where the index knows the target
abbrev pub reply_fields : Option (Text × Text) → Meta → Meta
reply_fields none extra = extra
reply_fields (some (target, thread)) extra =
    TextDict.put (codes "thread") thread (TextDict.put (codes "re") target extra)

abbrev target_text : Option String → Text
target_text none = []
target_text (some id) = codes id

abbrev resolved_target : List Directory → Text → Result Failure (Option (Text × Text))
resolved_target dirs [] = ok none
resolved_target dirs (c ∷ id) = elim (thread_of dirs (c ∷ id)) [
  | err e ↦ err (letter_failure e)
  | ok thread ↦ ok (some (c ∷ id, thread))
]

abbrev reply_target_of : Setup → Incoming → Home → Text → Result Failure (Option (Text × Text))
reply_target_of s item h [] = ok none
reply_target_of s item h (c ∷ m) =
    resolved_target (searched s h)
      (target_text (lookup s.name (codes item.chat_id) (c ∷ m) h.index))

-- the letter that the item replies to, with its thread
unfoldable pub reply_target : Setup → Incoming → Home → Result Failure (Option (Text × Text))
reply_target s item h = reply_target_of s item h item.reply_to_message_id

-- What became of an item.
pub data Outcome : Type 0 where
  published : Text → Outcome
  denied duplicate : Outcome

abbrev pub stamped_home : Home → Text → Result LetterError Directory → Home × Result Failure Outcome
stamped_home h id (err e) = (h, err (letter_failure e))
stamped_home h id (ok inbox) =
    (record h { post = record { inbox = inbox; ledger = h.post.ledger } }, ok (published id))

abbrev pub in_thread : Text → Text → Home → Text × TextDict Text → Home × Result Failure Outcome
in_thread key id h (thread, threads) =
    stamped_home (record h { threads = threads }) id (stamp_thread h.post.inbox id thread)

-- the thread of a published letter
unfoldable pub place :
    Text → Text → Text → Option (Text × Text) → Home → Home × Result Failure Outcome
place key body id none h =
    in_thread key id h
      (current_thread key id (eq_text (partition b' ' body).0 (codes "/new")) h.threads)
place key body id (some (target, thread)) h =
    stamped_home h id (stamp_thread h.post.inbox id thread)

abbrev stored_ok : Result LetterError Letter → Result Failure Outcome
stored_ok (ok letter) = ok duplicate
stored_ok (err e) = if is_skipped e then ok duplicate else err (letter_failure e)

-- the second look at a letter that was there already
unfoldable pub look_again : Result LetterError (Option (Directory × Text)) → Result Failure Outcome
look_again (err e) = err (letter_failure e)
look_again (ok none) = ok duplicate
look_again (ok (some (dir, id))) = stored_ok (resolve dir id)

-- after publish_once
unfoldable pub after_publish :
    Setup
    → Incoming
    → Text
    → Text
    → Option (Text × Text)
    → Home
    → Result LetterError (Option Text × Post)
    → Home × Result Failure Outcome
after_publish s item key body target h (err e) = (h, err (letter_failure e))
after_publish s item key body target h (ok (some id, post)) = place key body id target (record h {
  post = post;
  index = record_message s.name (codes item.chat_id) item.message_id (s.spell id) h.index;
})
after_publish s item key body target h (ok (none, post)) = (
  record h { post = post },
  look_again (find_by_update s.token item.update_id (post.inbox ∷ s.processed)),
)

abbrev pub letter_cap : ℕ
letter_cap = 1000

abbrev pub with_target :
    Setup
    → Arrival
    → Text
    → Text
    → Meta
    → Home
    → Result Failure (Option (Text × Text))
    → Home × Result Failure Outcome
with_target s a key body extra h (err e) = (h, err e)
with_target s a key body extra h (ok target) = after_publish s a.item key body target h (
    publish_once s.token a.mint letter_cap h.post (searched s h) a.item.update_id body
      (envelope s.sender s.recipient (codes "info") (codes "now") (reply_fields target extra)))

abbrev pub with_key :
    Setup
    → Arrival
    → Text
    → Meta
    → Home
    → Result IdentityError (Text × Identities)
    → Home × Result Failure Outcome
with_key s a body media h (err e) = (h, err (identity_failure e))
with_key s a body media h (ok (key, identities)) =
    with_target s a key body (extra_fields a.item media key) (record h { identities = identities })
      (reply_target s a.item (record h { identities = identities }))

abbrev pub with_text :
    Setup → Arrival → Home → Result Failure (Text × Meta) → Home × Result Failure Outcome
with_text s a h (err e) = (h, err e)
with_text s a h (ok (body, media)) =
    with_key s a body media h
      (correspondent_key s.derive s.minted s.name (codes a.item.chat_id) h.identities)

-- an item that the allowlist permits
unfoldable pub deliver : Setup → Arrival → Home → Home × Result Failure Outcome
deliver s a h = with_text s a h (inbound_text_and_media a.download a.item)

abbrev pub gated : Setup → Arrival → Home → Result GateError Bool → Home × Result Failure Outcome
gated s a h (err e) = (h, err (gate_failure e))
gated s a h (ok true) = deliver s a h
gated s a h (ok false) = (h, ok denied)

-- one turn of the loop, up to the ack
unfoldable pub handle : Setup → Arrival → Home → Home × Result Failure Outcome
handle s a h = gated s a h (allows s.show s.allowlist (str a.item.chat_id))

-- platform.ack(update_id)
abbrev pub acked : Text → Home → Home
acked id h = record h { acks = h.acks ++ id ∷ [] }

unfoldable pub counted : Outcome → Cycle → Cycle
counted (published id) c = record c {
  ids = id ∷ c.ids;
  fetched = 1 + c.fetched;
  published = 1 + c.published;
}
counted denied c = record c { fetched = 1 + c.fetched; denied = 1 + c.denied }
counted duplicate c = record c { fetched = 1 + c.fetched; duplicate = 1 + c.duplicate }

abbrev pub empty_cycle : Cycle
empty_cycle = record { ids = []; fetched = 0; published = 0; denied = 0; duplicate = 0 }

abbrev pub count_rest : Outcome → Home × Result Failure Cycle → Home × Result Failure Cycle
count_rest o (h, ok c) = (h, ok (counted o c))
count_rest o (h, err e) = (h, err e)

-- an item that raises ends the loop; `later` is the rest of the loop after one that does not
abbrev pub after_item :
    Home × Result Failure Outcome → Home × Result Failure Cycle → Home × Result Failure Cycle
after_item (h, err e) later = (h, err e)
after_item (h, ok o) later = count_rest o later

-- the loop: the ack comes only after its item was handled
unfoldable pub poll_items : Setup → List Arrival → Home → Home × Result Failure Cycle
poll_items s [] h = (h, ok empty_cycle)
poll_items s (a ∷ rest) h =
    let done = handle s a h in
    let later = poll_items s rest (acked a.item.update_id done.0) in after_item done later

abbrev pub beaten : Setup → Home × Result Failure Cycle → Home × Result Failure Cycle
beaten s (h, ok c) = (if s.has_health then record h { heartbeats = 1 + h.heartbeats } else h, ok c)
beaten s (h, err e) = (h, err e)

-- poll_once, after what `fetch` gives
unfoldable pub poll_once :
    Setup → Result Failure (List Arrival) → Home → Home × Result Failure Cycle
poll_once s (err e) h = (h, err e)
poll_once s (ok arrivals) h = beaten s (poll_items s arrivals h)
