-- ===== src/Reply/LetterFirst.antt =====
-- alb/send/reply.py: send_reply with an outbox and no photo, and compose of alb/outbound/store.py. The
-- letter's exclusive creation is the claim. `spell` gives the string of given code points, `show` is
-- Python's str, `text_ok` the sender's check of a text; the sender, if it is called, does `answer`.
pub mod Resume
pub mod Once
pub mod Waiting
mod Examples
use agent_letter_bridge.Prelude.{
  append, String, Bool, true, false, not, ◌&&◌, ◌||◌, Option, none, some, List, [], ◌∷◌, ◌++◌,
  Result, ok, err, if◌then◌else◌, any_of,
}
use agent_letter_bridge.Prelude.Dict.{Dict}
use agent_letter_bridge.Prelude.Text.{Text, codes, eq_text}
use agent_letter_bridge.Prelude.TextDict
use agent_letter_bridge.Prelude.TextDict.{TextDict}
use agent_letter_bridge.Json.{Json, null, str}
use agent_letter_bridge.Allowlist.{AllowFile, GateError, allows}
use agent_letter_bridge.MsgIndex.{Table, origins_of, record_message}
use agent_letter_bridge.Outbound.{
  Store, OutboundError, record_event, bury, composed, sending, sent, throttled, refused, ambiguous,
}
use agent_letter_bridge.Outbound.Identity.{
  Identities, IdentityError, MapFile, no_map, corrupt, table, correspondent_key,
}
use agent_letter_bridge.Letter.{
  Meta, Letter, LetterError, no_such_letter, Directory, LetterFile, text, envelope, resolve,
  serialise,
}
use agent_letter_bridge.Initiate.{Answer, accepted, throttles, refuses, is_ambiguous, fails}
use agent_letter_bridge.Reply.{
  ReplyError, already_claimed, ambiguous_outcome, definite_refusal, throttled_out, Correspondents,
  destination,
}

-- one call of the sender
pub record Call : Type 0 where
  pub id : Text
  pub chat : Option Text
  pub body : Text
  pub reply_thread : Option Text
  pub answer : Answer

-- what a reply reads and writes, and the calls of the sender so far
pub record Office : Type 0 where
  pub outbox : Directory
  pub outbound : Store
  pub index : Table
  pub identities : Identities
  pub calls : List Call

pub data ReplyFailure : Type 0 where
  not_permitted not_deferred text_changed : ReplyFailure
  letter_failure : LetterError → ReplyFailure
  gate_failure : GateError → ReplyFailure
  identity_failure : IdentityError → ReplyFailure
  receipt_failure : OutboundError → ReplyFailure
  reply_failure : ReplyError → ReplyFailure

-- the sender and the files that only are read, with what stands for code that is not here
pub record Desk : Type 0 where
  pub platform : Text
  pub agent : Text
  pub searched : List Directory
  pub allowlist : AllowFile
  pub derive : Text → Text → Text
  pub minted : Text
  pub sent_at : Text
  pub spell : Text → String
  pub show : Json → String
  pub text_ok : Text → Bool

abbrev is_missing : LetterError → Bool
is_missing no_such_letter = true
is_missing _ = false

abbrev letter_or : Result LetterError Letter → Result LetterError Letter → Result LetterError Letter
letter_or (ok letter) rest = ok letter
letter_or (err e) rest = if is_missing e then rest else err e

-- the stored letter, searched for everywhere letters travel
unfoldable pub find_source : List Directory → Text → Result LetterError Letter
find_source [] id = err no_such_letter
find_source (d ∷ ds) id = letter_or (resolve d id) (find_source ds id)

abbrev spelled : (Text → String) → TextDict Text → List (Text × String)
spelled spell [] = []
spelled spell ((k, v) ∷ d) = (k, spell v) ∷ spelled spell d

abbrev pub named : (Text → String) → TextDict Text → Dict String
named spell [] = []
named spell ((k, v) ∷ d) = (spell k, spell v) ∷ named spell d

-- the private map, as origin_chat_for reads it
abbrev pub correspondents : (Text → String) → MapFile → Correspondents
correspondents spell no_map = some []
correspondents spell corrupt = none
correspondents spell (table t) = some (spelled spell t)

-- `str(chat_id)`
abbrev pub chat_text : Desk → Option Text → Text
chat_text s none = codes (s.show null)
chat_text s (some chat) = chat

abbrev pub chat_json : Desk → Option Text → Json
chat_json s none = null
chat_json s (some chat) = str (s.spell chat)

-- `recorded and recorded != {str(chat_id)}`
unfoldable pub comes_from_elsewhere : List Text → Text → Bool
comes_from_elsewhere recorded chat = any_of (λ (origin : Text). not (eq_text origin chat)) recorded

-- the thread of the platform that _thread_of passes on, where it is not empty
abbrev pub named_thread : Option Text → Option Text
named_thread none = none
named_thread (some []) = none
named_thread (some (c ∷ t)) = some (c ∷ t)

abbrev pub thread_argument : Meta → Option Text
thread_argument meta = named_thread (TextDict.get (codes "reply_thread") meta)

-- what a reply may be sent with
pub record Permit : Type 0 where
  pub chat : Option Text
  pub thread : Option Text
  pub reply_thread : Option Text

abbrev pub gate_said : Permit → Result GateError Bool → Result ReplyFailure Permit
gate_said permit (err e) = err (gate_failure e)
gate_said permit (ok false) = err not_permitted
gate_said permit (ok true) = ok permit

abbrev checked_text : Desk → Text → Permit → Result ReplyFailure Permit
checked_text s [] permit = err (reply_failure definite_refusal)
checked_text s (c ∷ t) permit =
    if s.text_ok (c ∷ t) then ok permit else err (reply_failure definite_refusal)

abbrev then_text : Desk → Text → Result ReplyFailure Permit → Result ReplyFailure Permit
then_text s body (err e) = err e
then_text s body (ok permit) = checked_text s body permit

abbrev source_permit :
    Desk → Text → Text → Office → Result LetterError Letter → Result ReplyFailure Permit
source_permit s source body o (err e) = err (letter_failure e)
source_permit s source body o (ok letter) =
    let chat =
      destination (correspondents s.spell o.identities.map) (named s.spell letter.meta)
        s.platform in
    if comes_from_elsewhere (origins_of s.platform (s.spell source) o.index) (chat_text s chat)
    then err not_permitted
    else then_text s body (
        gate_said
          (record {
            chat = chat;
            thread = TextDict.get (codes "thread") letter.meta;
            reply_thread = thread_argument letter.meta;
          })
          (allows s.show s.allowlist (chat_json s chat)))

-- send_reply up to the letter: the source, its destination, the record of its origin, the gate, the text
unfoldable pub permit_reply : Desk → Text → Text → Office → Result ReplyFailure Permit
permit_reply s source body o = source_permit s source body o (find_source s.searched source)

abbrev pub reply_letter_id : Text → Text
reply_letter_id source = codes "reply-" ++ source

abbrev thread_or : Text → Option Text → Text
thread_or source none = source
thread_or source (some []) = source
thread_or source (some (c ∷ t)) = c ∷ t

-- the outbound letter
unfoldable pub outbound_text : Desk → Text → Text → Text → Option Text → Text
outbound_text s source body key thread =
    serialise
      (TextDict.put (codes "sent") s.sent_at (
        TextDict.put (codes "thread") (thread_or source thread) (
          TextDict.put (codes "re") source (
            TextDict.put (codes "id") (reply_letter_id source) (
              envelope s.agent (s.platform ++ codes "-bridge") (codes "info") (codes "now")
                ((codes "correspondent", key) ∷ []))))))
      body

abbrev pub recorded : Office → Result OutboundError Store → Office × Result ReplyFailure (Unit {0})
recorded o (err e) = (o, err (receipt_failure e))
recorded o (ok outbound) = (record o { outbound = outbound }, ok tt)

-- record_event
abbrev pub note_event : Desk → Text → Text → Office → Office × Result ReplyFailure (Unit {0})
note_event s id event o = recorded o (record_event (s.spell id) event o.outbound)

abbrev pub create :
    Desk
    → Text
    → Text
    → Office
    → Option Text
    → Text
    → Option LetterFile
    → Office × Result ReplyFailure (Unit {0})
create s source body o thread key (some f) = (o, err (reply_failure already_claimed))
create s source body o thread key none = note_event s (reply_letter_id source) composed (record o {
  outbox =
      TextDict.put (reply_letter_id source) (text (outbound_text s source body key thread))
        o.outbox;
})

abbrev pub create_with :
    Desk
    → Text
    → Text
    → Office
    → Option Text
    → Result IdentityError (Text × Identities)
    → Office × Result ReplyFailure (Unit {0})
create_with s source body o thread (err e) = (o, err (identity_failure e))
create_with s source body o thread (ok (key, identities)) =
    create s source body (record o { identities = identities }) thread key
      (TextDict.get (reply_letter_id source) o.outbox)

-- compose(outbox, state, source_id, origin_chat, sender, body, platform, thread)
unfoldable pub compose :
    Desk → Text → Text → Permit → Office → Office × Result ReplyFailure (Unit {0})
compose s source body permit o =
    create_with s source body o permit.thread
      (correspondent_key s.derive s.minted s.platform (chat_text s permit.chat) o.identities)

abbrev pub then_sending :
    Desk → Text → Office × Result ReplyFailure (Unit {0}) → Office × Result ReplyFailure (Unit {0})
then_sending s id (o, err e) = (o, err e)
then_sending s id (o, ok done) = note_event s id sending o

abbrev pub with_permit :
    Permit → Office × Result ReplyFailure (Unit {0}) → Office × Result ReplyFailure Permit
with_permit permit (o, err e) = (o, err e)
with_permit permit (o, ok done) = (o, ok permit)

abbrev pub permitted :
    Desk → Text → Text → Office → Result ReplyFailure Permit → Office × Result ReplyFailure Permit
permitted s source body o (err e) = (o, err e)
permitted s source body o (ok permit) =
    with_permit permit (then_sending s (reply_letter_id source) (compose s source body permit o))

-- send_reply up to the call of the sender
unfoldable pub ready_reply : Desk → Text → Text → Office → Office × Result ReplyFailure Permit
ready_reply s source body o = permitted s source body o (permit_reply s source body o)

unfoldable pub call_sender : Text → Text → Permit → Answer → Office → Office
call_sender id body permit answer o = record o {
  calls =
      o.calls
      ++ record {
        id = id;
        chat = permit.chat;
        body = body;
        reply_thread = permit.reply_thread;
        answer = answer;
      }
        ∷ [];
}

abbrev pub raising :
    ReplyError → Office × Result ReplyFailure (Unit {0}) → Office × Result ReplyFailure Text
raising e (o, err e') = (o, err e')
raising e (o, ok done) = (o, err (reply_failure e))

abbrev pub burying :
    Desk
    → Text
    → Text
    → String
    → Office × Result ReplyFailure (Unit {0})
    → Office × Result ReplyFailure Text
burying s id source detail (o, err e) = (o, err e)
burying s id source detail (o, ok done) = (
  record o { outbound = bury (s.spell id) (s.spell source) detail o.outbound },
  err (reply_failure ambiguous_outcome),
)

abbrev pub indexing :
    Desk
    → Text
    → Option Text
    → Text
    → Office × Result ReplyFailure (Unit {0})
    → Office × Result ReplyFailure Text
indexing s id chat platform_id (o, err e) = (o, err e)
indexing s id chat platform_id (o, ok done) = (
  record o {
    index = record_message s.platform (chat_text s chat) platform_id (s.spell id) o.index;
  },
  ok id,
)

-- what send_reply and resume_throttled record of the sender's answer, and what they return
unfoldable pub settle_reply :
    Desk → Text → Text → Option Text → Answer → Office → Office × Result ReplyFailure Text
settle_reply s id source chat (accepted platform_id) o =
    indexing s id chat platform_id (note_event s id sent o)
settle_reply s id source chat (throttles detail) o =
    raising throttled_out (note_event s id throttled o)
settle_reply s id source chat (refuses detail) o =
    raising definite_refusal (note_event s id refused o)
settle_reply s id source chat (is_ambiguous detail) o =
    burying s id source detail (note_event s id ambiguous o)
settle_reply s id source chat (fails detail) o =
    burying s id source (append "unclassified " detail) (note_event s id ambiguous o)

abbrev pub after_ready :
    Desk
    → Text
    → Text
    → Answer
    → Office × Result ReplyFailure Permit
    → Office × Result ReplyFailure Text
after_ready s source body answer (o, err e) = (o, err e)
after_ready s source body answer (o, ok permit) =
    settle_reply s (reply_letter_id source) source permit.chat answer
      (call_sender (reply_letter_id source) body permit answer o)

-- send_reply(sender, inbox, state, allowlist_path, letter_id, text, searched, outbox, agent)
unfoldable pub send_reply : Desk → Text → Text → Answer → Office → Office × Result ReplyFailure Text
send_reply s source body answer o = after_ready s source body answer (ready_reply s source body o)
