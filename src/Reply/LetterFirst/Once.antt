-- ===== src/Reply/LetterFirst/Once.antt =====
-- The outbound letter is the claim: it is never released, so a stored letter gets at most one call of
-- the sender from send_reply.
use agent_letter_bridge.Prelude.{
  append, ℕ, suc, ◌≤◌, String, ◌≡◌, refl, sym, ap, subst, ◌∙◌, Option, none, some, List, [], ◌∷◌,
  ◌++◌, Result, ok, err, if◌then◌else◌, arith, inl, inr, Bool-cases, Option-cases,
}
use agent_letter_bridge.Prelude.Text.{Text, eq_text, eq_text→eq}
use agent_letter_bridge.Prelude.TextDict
use agent_letter_bridge.Outbound.{
  Store, OutboundError, record_event, composed, sending, sent, throttled, refused, ambiguous,
}
use agent_letter_bridge.Outbound.Identity.{Identities, IdentityError, correspondent_key}
use agent_letter_bridge.Letter.{LetterFile, text}
use agent_letter_bridge.Letter.Store.Evidence.{Keeps, Keeps-put, put_there}
use agent_letter_bridge.Initiate.{Answer, accepted, throttles, refuses, is_ambiguous, fails}
use agent_letter_bridge.Reply.{ReplyError, already_claimed, throttled_out, definite_refusal}
use agent_letter_bridge.Reply.LetterFirst.{
  Call, Office, ReplyFailure, identity_failure, reply_failure, Desk, Permit, permit_reply,
  reply_letter_id, recorded, note_event, create, create_with, compose, then_sending, with_permit,
  permitted, ready_reply, call_sender, raising, burying, indexing, settle_reply, after_ready,
  send_reply, outbound_text,
}

-- the calls of the sender for an outbound letter
unfoldable pub calls_of : Text → List Call → ℕ
calls_of id [] = 0
calls_of id (c ∷ cs) = if eq_text c.id id then suc (calls_of id cs) else calls_of id cs

calls_of-append :
    (id : Text) (cs : List Call) (c : Call)
    → calls_of id (cs ++ c ∷ [])
      ≡ (if eq_text c.id id then suc (calls_of id cs) else calls_of id cs)
unfolding calls_of
calls_of-append id [] c = refl
calls_of-append id (d ∷ cs) c = ground (arith, calls_of-append id cs c)

abbrev pub Unmoved : Office → Office → Type 0
Unmoved o o' = (o.calls ≡ o'.calls) × (o.outbox ≡ o'.outbox)

pub note-Unmoved : (s : Desk) (id event : Text) (o : Office) → Unmoved o (note_event s id event o).0
note-Unmoved s id event o = go (record_event (s.spell id) event o.outbound)
  where
    go : (r : Result OutboundError Store) → Unmoved o (recorded o r).0
    go (err e) = (refl, refl)
    go (ok outbound) = (refl, refl)

-- What goes before a call: nothing is called, no letter is lost, and where it succeeds the letter was not
-- there before and is there after.
abbrev Claimed {ℓ} : {A : Type ℓ} → Text → Office → Office × Result ReplyFailure A → Type 0
Claimed id o (o', err e) = Unit
Claimed id o (o', ok a) =
    (TextDict.get id o.outbox ≡ none) × (f : LetterFile) × (TextDict.get id o'.outbox ≡ some f)

record Claims {ℓ} {A : Type ℓ} (id : Text) (o : Office) (x : Office × Result ReplyFailure A)
    : Type 0 where
  uncalled : o.calls ≡ x.0.calls
  files : Keeps o.outbox x.0.outbox
  claimed : Claimed id o x

raised-Claims {ℓ} :
    {A : Type ℓ} (id : Text) (o : Office) (e : ReplyFailure) → Claims {A = A} id o (o, err e)
raised-Claims id o e = record { uncalled = refl; files = λ i f q. (f, q); claimed = tt }

-- a step that leaves the letters and the calls alone keeps a claim
moved-Claims {ℓ} :
    {A : Type ℓ} (id : Text) (o o₁ : Office) (f : LetterFile) (x : Office × Result ReplyFailure A)
    → o.calls ≡ o₁.calls
    → Keeps o.outbox o₁.outbox
    → TextDict.get id o.outbox ≡ none
    → TextDict.get id o₁.outbox ≡ some f
    → Unmoved o₁ x.0
    → Claims id o x
moved-Claims {A = A} id o o₁ f (o', r) c k n g (c', b) = record {
  uncalled = c ∙ c';
  files = subst (Keeps o.outbox) b k;
  claimed = claimed r;
}
  where
    claimed : (r : Result ReplyFailure A) → Claimed id o (o', r)
    claimed (err e) = tt
    claimed (ok a) = (n, f, ap (TextDict.get id) (sym b) ∙ g)

create-Claims :
    (s : Desk) (source body : Text) (o : Office) (thread : Option Text) (key : Text)
    (found : Option LetterFile)
    → TextDict.get (reply_letter_id source) o.outbox ≡ found
    → Claims (reply_letter_id source) o (create s source body o thread key found)
create-Claims s source body o thread key (some f) q =
    raised-Claims (reply_letter_id source) o (reply_failure already_claimed)
create-Claims s source body o thread key none q =
    let f = text (outbound_text s source body key thread) in
    let o₁ = record o { outbox = TextDict.put (reply_letter_id source) f o.outbox } in
    moved-Claims (reply_letter_id source) o o₁ f (note_event s (reply_letter_id source) composed o₁)
      refl (Keeps-put o.outbox (reply_letter_id source) f) q
      (put_there (reply_letter_id source) f o.outbox)
      (note-Unmoved s (reply_letter_id source) composed o₁)

compose-Claims :
    (s : Desk) (source body : Text) (permit : Permit) (o : Office)
    → Claims (reply_letter_id source) o (compose s source body permit o)
unfolding compose
compose-Claims s source body permit o = go (correspondent_key _ _ _ _ o.identities)
  where
    widened :
        (identities : Identities) (x : Office × Result ReplyFailure (Unit {0}))
        → Claims (reply_letter_id source) (record o { identities = identities }) x
        → Claims (reply_letter_id source) o x
    widened identities (o', err e) c = record {
      uncalled = c.uncalled;
      files = c.files;
      claimed = tt;
    }
    widened identities (o', ok a) c = record {
      uncalled = c.uncalled;
      files = c.files;
      claimed = c.claimed;
    }

    go :
        (r : Result IdentityError (Text × Identities))
        → Claims (reply_letter_id source) o (create_with s source body o permit.thread r)
    go (err e) = raised-Claims (reply_letter_id source) o (identity_failure e)
    go (ok (key, identities)) =
        let c =
          create-Claims s source body (record o { identities = identities }) permit.thread key _
            refl in
        widened identities _ c

sending-Claims :
    (s : Desk) (id : Text) (o : Office) (x : Office × Result ReplyFailure (Unit {0}))
    → Claims id o x
    → Claims id o (then_sending s id x)
sending-Claims s id o (o', err e) c = record {
  uncalled = c.uncalled;
  files = c.files;
  claimed = tt;
}
sending-Claims s id o (o', ok a) c =
    moved-Claims id o o' c.claimed.1 (note_event s id sending o') c.uncalled c.files c.claimed.0
      c.claimed.2 (note-Unmoved s id sending o')

permit-Claims :
    (id : Text) (permit : Permit) (o : Office) (x : Office × Result ReplyFailure (Unit {0}))
    → Claims id o x
    → Claims id o (with_permit permit x)
permit-Claims id permit o (o', err e) c = record {
  uncalled = c.uncalled;
  files = c.files;
  claimed = tt;
}
permit-Claims id permit o (o', ok a) c = record {
  uncalled = c.uncalled;
  files = c.files;
  claimed = c.claimed;
}

ready-Claims :
    (s : Desk) (source body : Text) (o : Office)
    → Claims (reply_letter_id source) o (ready_reply s source body o)
unfolding ready_reply
ready-Claims s source body o = go (permit_reply s source body o)
  where
    go :
        (r : Result ReplyFailure Permit)
        → Claims (reply_letter_id source) o (permitted s source body o r)
    go (err e) = raised-Claims (reply_letter_id source) o e
    go (ok permit) =
        permit-Claims (reply_letter_id source) permit o _
          (sending-Claims s (reply_letter_id source) o _ (compose-Claims s source body permit o))

call_sender-lem :
    (source body : Text) (permit : Permit) (answer : Answer) (o : Office) (id : Text)
    → calls_of id (call_sender (reply_letter_id source) body permit answer o).calls ≡ (
        if eq_text (reply_letter_id source) id
        then suc (calls_of id o.calls)
        else calls_of id o.calls)
unfolding call_sender
call_sender-lem source body permit answer o id = calls_of-append id o.calls _

raising-Unmoved :
    (e : ReplyError) (o : Office) (x : Office × Result ReplyFailure (Unit {0}))
    → Unmoved o x.0
    → Unmoved o (raising e x).0
raising-Unmoved e o (o', err e') u = u
raising-Unmoved e o (o', ok a) u = u

burying-Unmoved :
    (s : Desk) (id source : Text) (detail : String) (o : Office)
    (x : Office × Result ReplyFailure (Unit {0}))
    → Unmoved o x.0
    → Unmoved o (burying s id source detail x).0
burying-Unmoved s id source detail o (o', err e) u = u
burying-Unmoved s id source detail o (o', ok a) u = u

pub settle-Unmoved :
    (s : Desk) (id source : Text) (chat : Option Text) (answer : Answer) (o : Office)
    → Unmoved o (settle_reply s id source chat answer o).0
unfolding settle_reply
settle-Unmoved s id source chat (accepted platform_id) o =
    indexed (note_event s id sent o) (note-Unmoved s id sent o)
  where
    indexed :
        (x : Office × Result ReplyFailure (Unit {0}))
        → Unmoved o x.0
        → Unmoved o (indexing s id chat platform_id x).0
    indexed (o', err e) u = u
    indexed (o', ok a) u = u
settle-Unmoved s id source chat (throttles detail) o =
    raising-Unmoved throttled_out o _ (note-Unmoved s id throttled o)
settle-Unmoved s id source chat (refuses detail) o =
    raising-Unmoved definite_refusal o _ (note-Unmoved s id refused o)
settle-Unmoved s id source chat (is_ambiguous detail) o =
    burying-Unmoved s id source detail o _ (note-Unmoved s id ambiguous o)
settle-Unmoved s id source chat (fails detail) o =
    burying-Unmoved s id source (append "unclassified " detail) o _ (note-Unmoved s id ambiguous o)

-- One thing that happens in the office: an attempt at a reply, with any sender, files and answer; one
-- that dies while it creates the outbound letter, whose file may then hold anything; one that dies
-- after "composed" is recorded, after "sending" is recorded, or right after the call of the sender; and
-- a change of the receipts, the index and the keys, by which an attempt dies elsewhere, after it has
-- moved only those, and by which others change them.
pub data Run : Office → Office → Type 0 where
  attempt :
      (s : Desk) (source body : Text) (answer : Answer) (o : Office)
      → Run o (send_reply s source body answer o).0
  dies_creating :
      (source : Text) (f : LetterFile) (o : Office)
      → TextDict.get (reply_letter_id source) o.outbox ≡ none
      → Run o (record o { outbox = TextDict.put (reply_letter_id source) f o.outbox })
  dies_composed :
      (s : Desk) (source body : Text) (permit : Permit) (o : Office)
      → Run o (compose s source body permit o).0
  dies_before : (s : Desk) (source body : Text) (o : Office) → Run o (ready_reply s source body o).0
  dies_after :
      (s : Desk) (source body : Text) (answer : Answer) (o o' : Office) (permit : Permit)
      → ready_reply s source body o ≡ (o', ok permit)
      → Run o (call_sender (reply_letter_id source) body permit answer o')
  elsewhere : (o o' : Office) → Unmoved o o' → Run o o'

pub data Runs : Office → Office → Type 0 where
  rest : (o : Office) → Runs o o
  next : (o m o' : Office) → Run o m → Runs m o' → Runs o o'

-- A letter that is not in the outbox has no call, and any letter at most one.
record IsOnce (id : Text) (o : Office) : Type 0 where
  at_most : calls_of id o.calls ≤ 1
  uncalled : TextDict.get id o.outbox ≡ none → calls_of id o.calls ≡ 0

kept-IsOnce :
    (id : Text) (o o' : Office)
    → o.calls ≡ o'.calls
    → Keeps o.outbox o'.outbox
    → IsOnce id o
    → IsOnce id o'
kept-IsOnce id o o' c k v = record {
  at_most = subst (λ (cs : List Call). calls_of id cs ≤ 1) c v.at_most;
  uncalled = λ n. sym (ap (calls_of id) c) ∙ v.uncalled (absent n);
}
  where
    absent : TextDict.get id o'.outbox ≡ none → TextDict.get id o.outbox ≡ none
    absent n = elim (Option-cases (TextDict.get id o.outbox)) [
      | inl e ↦ e
      | inr (f, e) ↦ let (g, q) = k id f e in absurd (cc (q, n))
    ]

called-IsOnce :
    (source body : Text) (permit : Permit) (answer : Answer) (o o' : Office) (id : Text)
    → Claims (reply_letter_id source) o (o', ok permit)
    → IsOnce id o
    → IsOnce id (call_sender (reply_letter_id source) body permit answer o')
unfolding call_sender
called-IsOnce source body permit answer o o' id c v =
    let k = kept-IsOnce id o o' c.uncalled c.files v in
    let n = call_sender-lem source body permit answer o' id in
    elim (Bool-cases (eq_text (reply_letter_id source) id)) [
      | inl e ↦
          let same = eq_text→eq (reply_letter_id source) id e in
          let zero : calls_of id o'.calls ≡ 0 =
            sym (ap (calls_of id) c.uncalled)
            ∙ v.uncalled (subst (λ (x : Text). TextDict.get x o.outbox ≡ none) same c.claimed.0) in
          let one : calls_of id (
                o'.calls
                ++ record {
                  id = reply_letter_id source;
                  chat = permit.chat;
                  body = body;
                  reply_thread = permit.reply_thread;
                  answer = answer;
                }
                  ∷ [])
              ≡ 1 =
            ground (arith, n, e, zero) in
          record {
            at_most = ground (arith, one);
            uncalled = λ g. absurd (
                cc (
                  g,
                  subst (λ (x : Text). TextDict.get x o'.outbox ≡ some c.claimed.1) same
                      c.claimed.2,
                ));
          }
      | inr e ↦ record {
        at_most = ground (arith, n, e, k.at_most);
        uncalled = λ g. ground (arith, n, e, k.uncalled g);
      }
    ]

Run-IsOnce : (o o' : Office) (id : Text) → Run o o' → IsOnce id o → IsOnce id o'
unfolding send_reply
Run-IsOnce o o' id (attempt s source body answer _) v =
    go (ready_reply s source body o) (ready-Claims s source body o)
  where
    go :
        (x : Office × Result ReplyFailure Permit)
        → Claims (reply_letter_id source) o x
        → IsOnce id (after_ready s source body answer x).0
    go (m, err e) c = kept-IsOnce id o m c.uncalled c.files v
    go (m, ok permit) c =
        let called = called-IsOnce source body permit answer o m id c v in
        let (same_calls, same_outbox) =
          settle-Unmoved s (reply_letter_id source) source permit.chat answer
            (call_sender (reply_letter_id source) body permit answer m) in
        kept-IsOnce id _ _ same_calls (subst (Keeps _) same_outbox (λ i f q. (f, q))) called
Run-IsOnce o o' id (dies_creating source f _ e) v =
    kept-IsOnce id o _ refl (Keeps-put o.outbox (reply_letter_id source) f) v
Run-IsOnce o o' id (dies_composed s source body permit _) v =
    let c = compose-Claims s source body permit o in kept-IsOnce id o _ c.uncalled c.files v
Run-IsOnce o o' id (elsewhere _ _ (c, b)) v =
    kept-IsOnce id o o' c (subst (Keeps o.outbox) b (λ i f q. (f, q))) v
Run-IsOnce o o' id (dies_before s source body _) v =
    let c = ready-Claims s source body o in kept-IsOnce id o _ c.uncalled c.files v
Run-IsOnce o o' id (dies_after s source body answer _ m permit e) v =
    called-IsOnce source body permit answer o m id
      (subst (λ (x : Office × Result ReplyFailure Permit). Claims (reply_letter_id source) o x) e
        (ready-Claims s source body o))
      v

Runs-IsOnce : (o o' : Office) (id : Text) → Runs o o' → IsOnce id o → IsOnce id o'
Runs-IsOnce o o' id (rest _) v = v
Runs-IsOnce o o' id (next _ m _ r l) v = Runs-IsOnce m o' id l (Run-IsOnce o m id r v)

-- Let the sender not have been called yet, and let replies be attempted any number of times, with any
-- texts, senders and answers. An attempt may die while it creates the outbound letter, which leaves a
-- file with any content, after "composed", after "sending", right after the call of the sender, or
-- where it has moved only the receipts, the index and the keys; between attempts those three may
-- change in any way. Then send_reply has called the sender at most once for each stored letter.
pub at_most_one_reply :
    (o o' : Office) (source : Text)
    → o.calls ≡ []
    → Runs o o'
    → calls_of (reply_letter_id source) o'.calls ≤ 1
at_most_one_reply o o' source e l = (Runs-IsOnce o o' (reply_letter_id source) l fresh).at_most
  where
    fresh : IsOnce (reply_letter_id source) o
    fresh = record {
      at_most = rw e (unfold calls_of in omega arith);
      uncalled = λ n. rw e (unfold calls_of in refl);
    }
