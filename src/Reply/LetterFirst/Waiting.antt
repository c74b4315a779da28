-- ===== src/Reply/LetterFirst/Waiting.antt =====
-- What a resume sends, and when.
use agent_letter_bridge.Prelude.{
  ◌≡◌, ◌⊎◌, refl, ap, subst, ◌∙◌, Bool, true, false, Option, none, some, [], ◌∷◌, ◌++◌, Result, ok,
  err, >>=-eq-ok, inl, inr,
}
use agent_letter_bridge.Prelude.Dict
use agent_letter_bridge.Prelude.Text.{Text, codes}
use agent_letter_bridge.Prelude.TextDict
use agent_letter_bridge.Allowlist.{GateError, allows}
use agent_letter_bridge.Outbound.{Delivery, deferred, in_flight, unsent, reconcile, sending}
use agent_letter_bridge.Letter.{Letter, LetterError, is_safe_id, resolve}
use agent_letter_bridge.Initiate.{Answer}
use agent_letter_bridge.Reply.{destination}
use agent_letter_bridge.Reply.LetterFirst.{
  thread_argument, Desk, Office, ReplyFailure, find_source, correspondents, named, chat_json,
  note_event, call_sender,
}
use agent_letter_bridge.Reply.LetterFirst.Once.{note-Unmoved, settle-Unmoved}
use agent_letter_bridge.Reply.LetterFirst.Resume.{
  if_letter, if_waiting, if_named, if_same, if_chat, if_allowed, if_free, Resumable, resumable,
  permit_of, resume_call, resume_with, resume_throttled,
}

-- The letter waits on a throttle, answers the source, which names the chat, and the chat is permitted.
pub record IsResumable (s : Desk) (id : Text) (o : Office) (p : Resumable) : Type 0 where
  pub waits : Dict.get (s.spell id) (reconcile o.outbound none) ≡ some deferred
  pub letter : Letter
  pub composed : resolve o.outbox id ≡ ok letter
  pub answers : TextDict.get (codes "re") letter.meta ≡ some p.source
  pub stored : Letter
  pub found : find_source s.searched p.source ≡ ok stored
  pub goes_to :
      destination (correspondents s.spell o.identities.map) (named s.spell stored.meta) s.platform
      ≡ some p.chat
  pub allowed : allows s.show s.allowlist (chat_json s (some p.chat)) ≡ ok true
  pub says : letter.body ≡ p.body
  pub threaded : thread_argument stored.meta ≡ p.reply_thread

if_letter-ok : {A : Type 0} (r : Result LetterError A) {a : A} → if_letter r ≡ ok a → r ≡ ok a
if_letter-ok (ok a) e = cc (e)
if_letter-ok (err x) e = absurd (cc (e))

if_waiting-ok : (v : Option Delivery) {u : Unit {0}} → if_waiting v ≡ ok u → v ≡ some deferred
if_waiting-ok none e = absurd (cc (e))
if_waiting-ok (some deferred) e = refl
if_waiting-ok (some in_flight) e = absurd (cc (e))
if_waiting-ok (some unsent) e = absurd (cc (e))

if_named-ok : (v : Option Text) {t : Text} → if_named v ≡ ok t → v ≡ some t
if_named-ok none e = absurd (cc (e))
if_named-ok (some []) e = absurd (cc (e))
if_named-ok (some (c ∷ source)) e = cc (e)

if_chat-ok : (v : Option Text) {t : Text} → if_chat v ≡ ok t → v ≡ some t
if_chat-ok none e = absurd (cc (e))
if_chat-ok (some chat) e = cc (e)

if_allowed-ok : (r : Result GateError Bool) {u : Unit {0}} → if_allowed r ≡ ok u → r ≡ ok true
if_allowed-ok (err x) e = absurd (cc (e))
if_allowed-ok (ok false) e = absurd (cc (e))
if_allowed-ok (ok true) e = refl

abbrev ok_resumable : Resumable → Result ReplyFailure Resumable
ok_resumable p = ok p

resumable-IsResumable :
    (s : Desk) (id : Text) (is_held : Bool) (given : Option Text) (o : Office) (p : Resumable)
    → resumable s id is_held given o ≡ ok p
    → IsResumable s id o p
unfolding resumable
resumable-IsResumable s id is_held given o p h =
    let (free, a₁, h) = >>=-eq-ok (if_free (is_safe_id id) is_held) _ h in
    let (waits, a₂, h) =
      >>=-eq-ok (if_waiting (Dict.get (s.spell id) (reconcile o.outbound none))) _ h in
    let (letter, a₃, h) = >>=-eq-ok (if_letter (resolve o.outbox id)) _ h in
    let (source, a₄, h) = >>=-eq-ok (if_named (TextDict.get (codes "re") letter.meta)) _ h in
    let (stored, a₅, h) = >>=-eq-ok (if_letter (find_source s.searched source)) _ h in
    let (same, a₆, h) = >>=-eq-ok (if_same given letter.body) _ h in
    let (chat, a₇, h) =
      >>=-eq-ok
        (if_chat (
          destination (correspondents s.spell o.identities.map) (named s.spell stored.meta)
            s.platform))
        _ h in
    let (allowed, a₈, h) =
      >>=-eq-ok (if_allowed (allows s.show s.allowlist (chat_json s (some chat)))) _ h in
    subst (IsResumable s id o) (is_p h) (record {
      waits = if_waiting-ok _ a₂;
      letter = letter;
      composed = if_letter-ok _ a₃;
      answers = if_named-ok _ a₄;
      stored = stored;
      found = if_letter-ok _ a₅;
      goes_to = if_chat-ok _ a₇;
      allowed = if_allowed-ok _ a₈;
      says = refl;
      threaded = refl;
    })
  where
    is_p : {q : Resumable} → ok_resumable q ≡ ok p → q ≡ p
    is_p e = cc (e)

abbrev Sends : Desk → Text → Answer → Office → Office → Type 0
Sends s id answer o o' =
    (o.calls ≡ o'.calls)
    ⊎ ((p : Resumable) × IsResumable s id o p
        × (o.calls
              ++ record {
                id = id;
                chat = some p.chat;
                body = p.body;
                reply_thread = p.reply_thread;
                answer = answer;
              }
                ∷ []
            ≡ o'.calls))

-- Whatever it returns or raises, a resume calls the sender at most once, and only where the letter waits
-- on a throttle: with the body of the letter that stands in the outbox, to the chat and into the thread
-- that the stored source letter names; the allowlist permits the chat at that time.
pub resume_throttled_lem :
    (s : Desk) (id : Text) (is_held : Bool) (given : Option Text) (answer : Answer) (o o' : Office)
    (r : Result ReplyFailure Text)
    → resume_throttled s id is_held given answer o ≡ (o', r)
    → (o.calls ≡ o'.calls)
      ⊎ ((p : Resumable) × IsResumable s id o p
          × (o.calls
                ++ record {
                  id = id;
                  chat = some p.chat;
                  body = p.body;
                  reply_thread = p.reply_thread;
                  answer = answer;
                }
                  ∷ []
              ≡ o'.calls))
unfolding resume_throttled call_sender
resume_throttled_lem s id is_held given answer o o' r e =
    subst (Sends s id answer o) (ap (λ x. x.0) e) (go (resumable s id is_held given o) refl)
  where
    called :
        (p : Resumable)
        → IsResumable s id o p
        → (x : Office × Result ReplyFailure (Unit {0})) → o.calls ≡ x.0.calls
        → Sends s id answer o (resume_call s id answer p x).0
    called p v (m, err f) c = inl c
    called p v (m, ok done) c = inr (
      p,
      v,
      ap
            (λ cs.
              cs
              ++ record {
                id = id;
                chat = some p.chat;
                body = p.body;
                reply_thread = p.reply_thread;
                answer = answer;
              }
                ∷ [])
            c
          ∙ (settle-Unmoved s id p.source (some p.chat) answer
              (call_sender id p.body (permit_of p) answer m)).0,
    )

    go :
        (q : Result ReplyFailure Resumable)
        → resumable s id is_held given o ≡ q
        → Sends s id answer o (resume_with s id answer o q).0
    go (err f) e = inl refl
    go (ok p) e =
        called p (resumable-IsResumable s id is_held given o p e) (note_event s id sending o)
          (note-Unmoved s id sending o).0
