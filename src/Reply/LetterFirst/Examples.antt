-- ===== src/Reply/LetterFirst/Examples.antt =====
-- Two replies to one stored letter.
use agent_letter_bridge.Prelude.{
  ◌≤◌, ◌≡◌, refl, String, true, false, ◌⊎◌, Result, none, some, ◌++◌, [], ◌∷◌, if◌then◌else◌,
}
use agent_letter_bridge.Prelude.Text.{Text, codes}
use agent_letter_bridge.Reply.{destination, legacy_chat}
use agent_letter_bridge.Allowlist.{allows, chats_of}
use agent_letter_bridge.MsgIndex.{origins_of, origin_in}
use agent_letter_bridge.Outbound.{
  reconcile, reconcile_receipts, classify, history, events_of, sort_by_seq, insert_by_seq, seq_key,
  seq, event_of, is_event_name, remove_suffix, is_terminal, ends_throttled, record_event, names_of,
  event_path,
}
use agent_letter_bridge.Outbound.Identity.{correspondent_key, load_map, correspondent_salt}
use agent_letter_bridge.Letter.{
  resolve, is_safe_id, read_file, parse, parse_parts, split_text, cut, universal_newlines,
  newlines_from, read_headers, read_header, join_text, serialise, ordered, others, pick,
  header_line, header_lines, envelope,
}
use agent_letter_bridge.Prelude.Text.{
  eq_text, starts_with, splitlines, is_break, strip, is_space, partition,
}
use agent_letter_bridge.Prelude.Dict
use agent_letter_bridge.Prelude.TextDict
use agent_letter_bridge.Prelude.Number.{show, py_int}
use agent_letter_bridge.Json.{obj, field, end, arr, cons, nil, str}
use agent_letter_bridge.Allowlist.{holds}
use agent_letter_bridge.Outbound.Identity.{missing, no_map}
use agent_letter_bridge.Letter.{text}
use agent_letter_bridge.Initiate.{throttles, accepted}
use agent_letter_bridge.Reply.LetterFirst.{
  Desk, Office, reply_letter_id, ready_reply, permit_reply, find_source, comes_from_elsewhere,
  compose, outbound_text, call_sender, settle_reply, send_reply,
}
use agent_letter_bridge.Reply.LetterFirst.Resume.{Resumable, resume_throttled, resumable}
use agent_letter_bridge.Reply.LetterFirst.Waiting.{IsResumable, resume_throttled_lem}
use agent_letter_bridge.Reply.LetterFirst.{ReplyFailure}
use agent_letter_bridge.Reply.LetterFirst.Once.{calls_of, attempt, next, rest, at_most_one_reply}

-- `spell` at the field names and values that the replies read
unfoldable spelling : Text → String
spelling t =
    if eq_text t (codes "telegram_chat_id")
    then "telegram_chat_id"
    else if eq_text t (codes "7")
    then "7"
    else "L1"

abbrev desk : Desk
desk = record {
  platform = codes "telegram";
  agent = codes "agent";
  searched = ((codes "L1", text (codes "---\ntelegram_chat_id: 7\n---\nhello\n")) ∷ []) ∷ [];
  allowlist = holds (obj (field "chats" (arr (cons (str "7") nil)) end));
  derive = λ s o. o;
  minted = codes "s";
  sent_at = codes "2026-01-02T10:11:12Z";
  spell = spelling;
  show = λ v. "";
  text_ok = λ t. true;
}

abbrev office : Office
office = record {
  outbox = [];
  outbound = record { receipts = []; dead_letters = [] };
  index = [];
  identities = record { salt_file = missing; map = no_map };
  calls = [];
}

abbrev first : Office
first = (send_reply desk (codes "L1") (codes "yes") (throttles "later") office).0

abbrev second : Office
second = (send_reply desk (codes "L1") (codes "no") (accepted (codes "12")) first).0

at_most_one_reply_example : calls_of (reply_letter_id (codes "L1")) second.calls ≤ 1
at_most_one_reply_example = at_most_one_reply office second (codes "L1") refl (
    next office first second (attempt desk (codes "L1") (codes "yes") (throttles "later") office) (
      next first second second
        (attempt desk (codes "L1") (codes "no") (accepted (codes "12")) first) (rest second)))

first_reply_calls : calls_of (reply_letter_id (codes "L1")) first.calls ≡ 1
unfolding spelling calls_of ready_reply permit_reply find_source comes_from_elsewhere compose
    outbound_text call_sender settle_reply send_reply destination legacy_chat allows chats_of
    origins_of origin_in record_event names_of event_path correspondent_key load_map
    correspondent_salt resolve is_safe_id read_file parse parse_parts split_text cut
    universal_newlines newlines_from read_headers read_header join_text serialise ordered others
    pick header_line header_lines envelope eq_text starts_with splitlines is_break strip is_space
    partition Dict.get Dict.put TextDict.get TextDict.put TextDict.has show
first_reply_calls = refl

-- the throttled reply resumed
abbrev resumed : Office
resumed =
    (resume_throttled desk (reply_letter_id (codes "L1")) false none (accepted (codes "12"))
      first).0

abbrev resume_result : Result ReplyFailure Text
resume_result =
    (resume_throttled desk (reply_letter_id (codes "L1")) false none (accepted (codes "12"))
      first).1

resume_throttled_lem_example :
    (first.calls ≡ resumed.calls)
    ⊎ ((p : Resumable) × IsResumable desk (reply_letter_id (codes "L1")) first p
        × (first.calls
              ++ record {
                id = reply_letter_id (codes "L1");
                chat = some p.chat;
                body = p.body;
                reply_thread = p.reply_thread;
                answer = accepted (codes "12");
              }
                ∷ []
            ≡ resumed.calls))
resume_throttled_lem_example =
    resume_throttled_lem desk (reply_letter_id (codes "L1")) false none (accepted (codes "12"))
      first resumed resume_result refl

resume_calls_again : calls_of (reply_letter_id (codes "L1")) resumed.calls ≡ 2
unfolding spelling calls_of ready_reply permit_reply find_source comes_from_elsewhere compose
    outbound_text call_sender settle_reply send_reply destination legacy_chat allows chats_of
    origins_of origin_in record_event names_of event_path correspondent_key load_map
    correspondent_salt resolve is_safe_id read_file parse parse_parts split_text cut
    universal_newlines newlines_from read_headers read_header join_text serialise ordered others
    pick header_line header_lines envelope eq_text starts_with splitlines is_break strip is_space
    partition Dict.get Dict.put TextDict.get TextDict.put TextDict.has show resume_throttled
    resumable reconcile reconcile_receipts classify history events_of sort_by_seq insert_by_seq
    seq_key seq event_of is_event_name remove_suffix is_terminal ends_throttled py_int
resume_calls_again = refl
