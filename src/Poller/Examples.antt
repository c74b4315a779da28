-- ===== src/Poller/Examples.antt =====
-- A poll of two messages, of which the allowlist permits the first.
use agent_letter_bridge.Prelude.{
  ◌+◌, String, ◌≡◌, refl, ap, ◌++◌, false, none, List, [], ◌∷◌, length, map, Result, ok, All,
}
use agent_letter_bridge.Prelude.Text.{Text, codes}
use agent_letter_bridge.Prelude.TextDict
use agent_letter_bridge.Allowlist.{allows, chats_of}
use agent_letter_bridge.Poller.Inbound.{
  inbound_text_and_media, join_marker, with_photo, without_photo,
}
use agent_letter_bridge.Outbound.Identity.{correspondent_key, load_map, correspondent_salt}
use agent_letter_bridge.Letter.Store.{
  publish_once, load_delivered, find_by_update, candidates, first_verified, insert_name,
  is_for_update, last_entries, leb_text, letter_id, publish, publish_unless, record_delivered,
  sort_names, stamped,
}
use agent_letter_bridge.Letter.{
  header_line, header_lines, newlines_from, ordered, others, pick, serialise, universal_newlines,
  envelope,
}
use agent_letter_bridge.MsgIndex.{entry, key, lookup, record_message}
use agent_letter_bridge.Poller.Threads.{
  current_thread, replace_thread, stamp_text, stamp_thread, thread_of,
}
use agent_letter_bridge.Prelude.Text.{eq_text, join_on, partition, split_on, starts_with}
use agent_letter_bridge.Prelude.Dict
use agent_letter_bridge.Json.{obj, field, end, arr, cons, nil, str}
use agent_letter_bridge.Allowlist.{holds}
use agent_letter_bridge.Outbound.Identity.{missing, no_map}
use agent_letter_bridge.Poller.Inbound.{Failure, no_downloader}
use agent_letter_bridge.Poller.{
  Setup, Home, Arrival, Cycle, poll_once, poll_items, handle, deliver, reply_target, after_publish,
  counted, extra_fields, look_again, place,
}
use agent_letter_bridge.Poller.Order.{
  Written, update_of, IsKept, no_ack_loses_mail, completed_poll_acks_all,
}

abbrev setup : Setup
setup = record {
  name = codes "telegram";
  sender = codes "telegram-bridge";
  recipient = codes "agent";
  allowlist = holds (obj (field "chats" (arr (cons (str "7") nil)) end));
  processed = [];
  has_health = false;
  token = λ u. codes "abc";
  derive = λ s o. o;
  minted = codes "s";
  spell = λ t. "letter";
  show = λ v. "";
}

abbrev from_chat : Text → String → Arrival
from_chat update chat = record {
  item = record {
    update_id = update;
    chat_id = chat;
    text = codes "hi";
    caption = [];
    media_kind = [];
    photo_file_id = [];
    message_id = codes "3";
    reply_to_message_id = [];
    provenance = none;
    reply_thread = [];
  };
  mint = record {
    stamp = codes "2026-01-02T101112";
    sent = codes "2026-01-02T10:11:12Z";
    unique = codes "00c0ffee";
  };
  download = no_downloader;
}

abbrev messages : List Arrival
messages = from_chat (codes "5") "7" ∷ from_chat (codes "6") "8" ∷ []

abbrev home : Home
home = record {
  post = record { inbox = []; ledger = none };
  threads = [];
  index = [];
  identities = record { salt_file = missing; map = no_map };
  acks = [];
  heartbeats = 0;
}

abbrev cycle : Cycle
cycle = record {
  ids = codes "2026-01-02T101112-00c0ffee-uabc" ∷ [];
  fetched = 2;
  published = 1;
  denied = 1;
  duplicate = 0;
}

abbrev after : Home
after = (poll_once setup (ok messages) home).0

poll_completes : (poll_once setup (ok messages) home).1 ≡ ok cycle
unfolding poll_once poll_items handle deliver reply_target after_publish counted extra_fields
    look_again place allows chats_of inbound_text_and_media join_marker with_photo without_photo
    correspondent_key load_map correspondent_salt publish_once load_delivered find_by_update
    candidates first_verified insert_name is_for_update last_entries leb_text letter_id publish
    publish_unless record_delivered sort_names stamped header_line header_lines newlines_from
    ordered others pick serialise universal_newlines envelope entry key lookup record_message
    current_thread replace_thread stamp_text stamp_thread thread_of eq_text join_on partition
    split_on starts_with Dict.get TextDict.get TextDict.has TextDict.put
poll_completes = refl

no_ack_loses_mail_example :
    (handled : List Arrival) × (left : List Arrival) × (handled ++ left ≡ messages)
    × (after.acks ≡ [] ++ map update_of handled)
    × All (IsKept setup (Written setup messages) home after) handled
no_ack_loses_mail_example =
    no_ack_loses_mail setup messages home after (poll_once setup (ok messages) home).1 refl

completed_poll_acks_all_example :
    (after.acks ≡ [] ++ map update_of messages)
    × (cycle.fetched ≡ length messages)
    × (cycle.published + cycle.denied + cycle.duplicate ≡ length messages)
    × (length cycle.ids ≡ cycle.published)
completed_poll_acks_all_example =
    completed_poll_acks_all setup messages home after cycle
      (ap (λ (r : Result Failure Cycle). (after, r)) poll_completes)
