-- ===== src/Reply/LetterFirst/Resume.antt =====
-- resume_throttled and _resume_locked of alb/send/reply.py, for a reply without a photo. `is_held` tells
-- that another resumer holds the lock.
use agent_letter_bridge.Prelude.{
  Bool, true, false, not, Option, none, some, [], ◌∷◌, Result, ok, err, ◌>>=◌, if◌then◌else◌,
}
use agent_letter_bridge.Prelude.Dict
use agent_letter_bridge.Prelude.Text.{Text, codes, eq_text}
use agent_letter_bridge.Prelude.TextDict
use agent_letter_bridge.Allowlist.{GateError, allows}
use agent_letter_bridge.Outbound.{Delivery, deferred, reconcile, sending}
use agent_letter_bridge.Letter.{LetterError, unsafe_identifier, is_safe_id, resolve}
use agent_letter_bridge.Initiate.{Answer}
use agent_letter_bridge.Reply.{destination}
use agent_letter_bridge.Reply.LetterFirst.{
  thread_argument, Desk, Office, Permit, ReplyFailure, not_permitted, not_deferred, text_changed,
  letter_failure, gate_failure, find_source, correspondents, named, chat_json, note_event,
  call_sender, settle_reply,
}

abbrev pub if_letter : {A : Type 0} → Result LetterError A → Result ReplyFailure A
if_letter (ok a) = ok a
if_letter (err e) = err (letter_failure e)

abbrev pub if_waiting : Option Delivery → Result ReplyFailure (Unit {0})
if_waiting (some deferred) = ok tt
if_waiting _ = err not_deferred

-- `letter.meta.get("re", "")`, which must not be empty
abbrev pub if_named : Option Text → Result ReplyFailure Text
if_named none = err not_deferred
if_named (some []) = err not_deferred
if_named (some (c ∷ source)) = ok (c ∷ source)

abbrev pub if_same : Option Text → Text → Result ReplyFailure (Unit {0})
if_same none body = ok tt
if_same (some given) body = if eq_text given body then ok tt else err text_changed

abbrev pub if_chat : Option Text → Result ReplyFailure Text
if_chat none = err not_permitted
if_chat (some chat) = ok chat

abbrev pub if_allowed : Result GateError Bool → Result ReplyFailure (Unit {0})
if_allowed (err e) = err (gate_failure e)
if_allowed (ok false) = err not_permitted
if_allowed (ok true) = ok tt

abbrev pub if_free : Bool → Bool → Result ReplyFailure (Unit {0})
if_free is_safe is_held =
    if not is_safe
    then err (letter_failure unsafe_identifier)
    else if is_held
    then err not_deferred
    else ok tt

-- the letter that is resumed: the source it answers, its chat, its body and its thread
pub record Resumable : Type 0 where
  pub source : Text
  pub chat : Text
  pub body : Text
  pub reply_thread : Option Text

-- _resume_locked up to its record of "sending", with the checks of resume_throttled
unfoldable pub resumable : Desk → Text → Bool → Option Text → Office → Result ReplyFailure Resumable
resumable s id is_held given o = do
  free ← if_free (is_safe_id id) is_held
  waits ← if_waiting (Dict.get (s.spell id) (reconcile o.outbound none))
  letter ← if_letter (resolve o.outbox id)
  source ← if_named (TextDict.get (codes "re") letter.meta)
  stored ← if_letter (find_source s.searched source)
  same ← if_same given letter.body
  chat ←
      if_chat (
        destination (correspondents s.spell o.identities.map) (named s.spell stored.meta)
          s.platform)
  allowed ← if_allowed (allows s.show s.allowlist (chat_json s (some chat)))
  ok (record {
    source = source;
    chat = chat;
    body = letter.body;
    reply_thread = thread_argument stored.meta;
  })

abbrev pub permit_of : Resumable → Permit
permit_of p = record { chat = some p.chat; thread = none; reply_thread = p.reply_thread }

abbrev pub resume_call :
    Desk
    → Text
    → Answer
    → Resumable
    → Office × Result ReplyFailure (Unit {0})
    → Office × Result ReplyFailure Text
resume_call s id answer p (o, err e) = (o, err e)
resume_call s id answer p (o, ok done) =
    settle_reply s id p.source (some p.chat) answer (call_sender id p.body (permit_of p) answer o)

abbrev pub resume_with :
    Desk
    → Text
    → Answer
    → Office
    → Result ReplyFailure Resumable
    → Office × Result ReplyFailure Text
resume_with s id answer o (err e) = (o, err e)
resume_with s id answer o (ok p) = resume_call s id answer p (note_event s id sending o)

-- resume_throttled(sender, inbox, state, allowlist_path, out_id, outbox, searched, text)
unfoldable pub resume_throttled :
    Desk → Text → Bool → Option Text → Answer → Office → Office × Result ReplyFailure Text
resume_throttled s id is_held given answer o =
    resume_with s id answer o (resumable s id is_held given o)
