-- ===== src/Poller/Steps.antt =====
-- One item of a poll: what it leaves on disk, and that it acks nothing itself.
use agent_letter_bridge.Prelude.{
  ◌≡◌, ◌⊎◌, refl, sym, ◌∙◌, subst, Bool, true, false, Option, none, some, Result, ok, err, inl, inr,
  any_of,
}
use agent_letter_bridge.Prelude.Text.{Text, codes, eq_text}
use agent_letter_bridge.Prelude.TextDict
use agent_letter_bridge.Prelude.TextDict.{TextDict}
use agent_letter_bridge.Json.{str}
use agent_letter_bridge.Allowlist.{GateError, allows}
use agent_letter_bridge.Outbound.Identity.{Identities, IdentityError}
use agent_letter_bridge.Letter.{Meta, LetterError, Directory, serialise, envelope}
use agent_letter_bridge.Letter.Store.{Mint, Post, publish_once, load_delivered}
use agent_letter_bridge.Letter.Store.Evidence.{
  Filed, Filed-Carries, Evidence, publish_once-Evidence,
}
use agent_letter_bridge.Letter.Store.Once.{final_meta}
use agent_letter_bridge.Letter.Store.Carried.{Carries, Carries-refl, Carries-trans}
use agent_letter_bridge.Poller.Inbound.{
  Incoming, Failure, letter_failure, identity_failure, inbound_text_and_media,
}
use agent_letter_bridge.Poller.Threads.{current_thread, stamp_thread}
use agent_letter_bridge.Poller.Stamping.{stamp_file-Carries}
use agent_letter_bridge.Poller.{
  Setup, Home, Arrival, Outcome, searched, reply_target, extra_fields, stamped_home, in_thread,
  place, after_publish, reply_fields, letter_cap, with_target, with_key, with_text, deliver, gated,
  handle,
}

-- the update is in the ledger
abbrev pub Ledgered : Text → Home → Type 0
Ledgered u h = any_of (eq_text u) (load_delivered h.post.ledger) ≡ true

abbrev pub OnDisk : Setup → (Text → Text → Type 0) → Text → Home → Type 0
OnDisk s W u h = Filed W s.token u h.post.inbox s.processed

-- A part of a poll acks nothing, loses no file, changes no file but for its thread lines, and writes
-- nothing to the ledger without evidence. `W` says of a text that it was written for an update.
pub record Moves (s : Setup) (W : Text → Text → Type 0) (h h' : Home) : Type 0 where
  pub same_acks : h.acks ≡ h'.acks
  pub files : Carries h.post.inbox h'.post.inbox
  pub ledger : (u : Text) → Ledgered u h' → Ledgered u h ⊎ OnDisk s W u h'

pub Moves-trans :
    (s : Setup) (W : Text → Text → Type 0) (h h' h'' : Home)
    → Moves s W h h'
    → Moves s W h' h''
    → Moves s W h h''
Moves-trans s W h h' h'' m n = record {
  same_acks = m.same_acks ∙ n.same_acks;
  files = Carries-trans _ _ _ m.files n.files;
  ledger = λ u e. elim (n.ledger u e) [
    | inl e' ↦ elim (m.ledger u e') [
      | inl a ↦ inl a
      | inr d ↦ inr (Filed-Carries W s.token u _ _ s.processed n.files d)
    ]
    | inr d ↦ inr d
  ];
}

-- a change of nothing but the tables
abbrev Still : Home → Home → Type 0
Still h h' = (h.acks ≡ h'.acks) × (h.post ≡ h'.post)

Still-Moves : (s : Setup) (W : Text → Text → Type 0) (h h' : Home) → Still h h' → Moves s W h h'
Still-Moves s W h h' (a, p) = record {
  same_acks = a;
  files = subst (λ (x : Post). Carries h.post.inbox x.inbox) p (Carries-refl h.post.inbox);
  ledger = λ u e.
      inl (subst (λ (x : Post). any_of (eq_text u) (load_delivered x.ledger) ≡ true) (sym p) e);
}

stamped-Moves :
    (s : Setup) (W : Text → Text → Type 0) (h : Home) (id thread : Text)
    → Moves s W h (stamped_home h id (stamp_thread h.post.inbox id thread)).0
unfolding stamp_thread
stamped-Moves s W h id thread = go (stamp_thread h.post.inbox id thread) refl
  where
    go :
        (r : Result LetterError Directory)
        → stamp_thread h.post.inbox id thread ≡ r
        → Moves s W h (stamped_home h id r).0
    go (err e) q = Still-Moves s W h h (refl, refl)
    go (ok inbox) q = record {
      same_acks = refl;
      files = stamp_file-Carries h.post.inbox inbox id thread (TextDict.get id h.post.inbox) refl q;
      ledger = λ u e. inl e;
    }

place-Moves :
    (s : Setup) (W : Text → Text → Type 0) (h : Home) (key body id : Text)
    (target : Option (Text × Text))
    → Moves s W h (place key body id target h).0
unfolding place
place-Moves s W h key body id (some (target, thread)) = stamped-Moves s W h id thread
place-Moves s W h key body id none = go (current_thread key id _ h.threads)
  where
    go : (r : Text × TextDict Text) → Moves s W h (in_thread key id h r).0
    go (thread, threads) =
        Moves-trans s W h (record h { threads = threads }) _
          (Still-Moves s W h (record h { threads = threads }) (refl, refl))
          (stamped-Moves s W (record h { threads = threads }) id thread)

-- an item that did not raise: its update was in the ledger, or is on disk
abbrev pub IsKnown :
    Setup → (Text → Text → Type 0) → Text → Post → Home × Result Failure Outcome → Type 0
IsKnown s W u p (h, err e) = Unit
IsKnown s W u p (h, ok o) = (any_of (eq_text u) (load_delivered p.ledger) ≡ true) ⊎ OnDisk s W u h

abbrev Handles :
    Setup → (Text → Text → Type 0) → Text → Home → Home × Result Failure Outcome → Type 0
Handles s W u h x = Moves s W h x.0 × IsKnown s W u h.post x

any_result-IsKnown :
    (s : Setup) (W : Text → Text → Type 0) (u : Text) (p : Post) (x : Home × Result Failure Outcome)
    → (any_of (eq_text u) (load_delivered p.ledger) ≡ true) ⊎ OnDisk s W u x.0
    → IsKnown s W u p x
any_result-IsKnown s W u p (h, err e) k = tt
any_result-IsKnown s W u p (h, ok o) k = k

raised-Handles :
    (s : Setup) (W : Text → Text → Type 0) (u : Text) (h : Home) (e : Failure)
    → Handles s W u h (h, err e)
raised-Handles s W u h e = (Still-Moves s W h h (refl, refl), tt)

evident-Moves :
    (s : Setup) (W : Text → Text → Type 0) (h h' : Home) (u : Text)
    → h.acks ≡ h'.acks
    → Evidence W s.token u h.post h'.post s.processed
    → Moves s W h h'
evident-Moves s W h h' u a e = record { same_acks = a; files = e.files; ledger = e.ledger }

after-Handles :
    (s : Setup) (W : Text → Text → Type 0) (item : Incoming) (m : Mint) (key body : Text)
    (meta : Meta) (target : Option (Text × Text)) (h : Home)
    (r : Result LetterError (Option Text × Post))
    → W item.update_id (serialise (final_meta s.token m item.update_id meta) body)
    → publish_once s.token m letter_cap h.post (searched s h) item.update_id body meta ≡ r
    → Handles s W item.update_id h (after_publish s item key body target h r)
unfolding after_publish
after-Handles s W item m key body meta target h (err e) w q =
    raised-Handles s W item.update_id h (letter_failure e)
after-Handles s W item m key body meta target h (ok (none, post)) w q =
    let e =
      publish_once-Evidence W s.token m letter_cap h.post post s.processed item.update_id body meta
        none w q in
    (
      evident-Moves s W h _ item.update_id refl e,
      any_result-IsKnown s W item.update_id h.post
          (after_publish s item key body target h (ok (none, post))) e.known,
    )
after-Handles s W item m key body meta target h (ok (some id, post)) w q =
    let e =
      publish_once-Evidence W s.token m letter_cap h.post post s.processed item.update_id body meta
        (some id) w q in
    let placed = place-Moves s W (record h { post = post; index = _ }) key body id target in
    (
      Moves-trans s W h _ _ (evident-Moves s W h _ item.update_id refl e) placed,
      any_result-IsKnown s W item.update_id h.post
          (after_publish s item key body target h (ok (some id, post)))
          (elim e.known [
            | inl k ↦ inl k
            | inr d ↦
                inr (Filed-Carries W s.token item.update_id post.inbox _ s.processed placed.files d)
          ]),
    )

-- the text of the letter that an item makes, with its place in a thread
abbrev pub letter_text : Setup → Arrival → Text → Meta → Option (Text × Text) → Text
letter_text s a body extra target =
    serialise
      (final_meta s.token a.mint a.item.update_id
        (envelope s.sender s.recipient (codes "info") (codes "now") (reply_fields target extra)))
      body

-- `W` says so of the letters with this body and these fields that are made for the item.
abbrev IsWritten : Setup → (Text → Text → Type 0) → Arrival → Text → Meta → Type 0
IsWritten s W a body extra =
    (target : Option (Text × Text)) → W a.item.update_id (letter_text s a body extra target)

-- `W` says so of the letters that are made of the item's text and fields.
abbrev pub CountsLetters : Setup → (Text → Text → Type 0) → Arrival → Type 0
CountsLetters s W a =
    (body : Text) (media : Meta)
    → inbound_text_and_media a.download a.item ≡ ok (body, media)
    → (key : Text) → IsWritten s W a body (extra_fields a.item media key)

target-Handles :
    (s : Setup) (W : Text → Text → Type 0) (a : Arrival) (key body : Text) (extra : Meta) (h : Home)
    (r : Result Failure (Option (Text × Text)))
    → IsWritten s W a body extra
    → Handles s W a.item.update_id h (with_target s a key body extra h r)
target-Handles s W a key body extra h (err e) w = raised-Handles s W a.item.update_id h e
target-Handles s W a key body extra h (ok target) w =
    after-Handles s W a.item a.mint key body _ target h _ (w target) refl

key-Handles :
    (s : Setup) (W : Text → Text → Type 0) (a : Arrival) (body : Text) (media : Meta) (h : Home)
    (r : Result IdentityError (Text × Identities))
    → ((key : Text) → IsWritten s W a body (extra_fields a.item media key))
    → Handles s W a.item.update_id h (with_key s a body media h r)
key-Handles s W a body media h (err e) w =
    raised-Handles s W a.item.update_id h (identity_failure e)
key-Handles s W a body media h (ok (key, identities)) w =
    let (moved, known) =
      target-Handles s W a key body (extra_fields a.item media key)
        (record h { identities = identities })
        (reply_target s a.item (record h { identities = identities })) (w key) in
    (
      Moves-trans s W h (record h { identities = identities }) _
          (Still-Moves s W h (record h { identities = identities }) (refl, refl)) moved,
      known,
    )

deliver-Handles :
    (s : Setup) (W : Text → Text → Type 0) (a : Arrival) (h : Home)
    → CountsLetters s W a
    → Handles s W a.item.update_id h (deliver s a h)
unfolding deliver
deliver-Handles s W a h w = go (inbound_text_and_media a.download a.item) refl
  where
    go :
        (r : Result Failure (Text × Meta))
        → inbound_text_and_media a.download a.item ≡ r
        → Handles s W a.item.update_id h (with_text s a h r)
    go (err e) q = raised-Handles s W a.item.update_id h e
    go (ok (body, media)) q = key-Handles s W a body media h _ (w body media q)

-- The gate denies the item.
abbrev pub IsDenied : Setup → Arrival → Type 0
IsDenied s a = allows s.show s.allowlist (str a.item.chat_id) ≡ ok false

-- what is known of an item that did not raise
abbrev pub Settled :
    Setup → (Text → Text → Type 0) → Arrival → Post → Home × Result Failure Outcome → Type 0
Settled s W a p (h, err e) = Unit
Settled s W a p (h, ok o) = IsDenied s a ⊎ IsKnown s W a.item.update_id p (h, ok o)

pub handle-lem :
    (s : Setup) (W : Text → Text → Type 0) (a : Arrival) (h : Home)
    → CountsLetters s W a
    → Moves s W h (handle s a h).0 × Settled s W a h.post (handle s a h)
unfolding handle
handle-lem s W a h w = go (allows s.show s.allowlist (str a.item.chat_id)) refl
  where
    settled :
        (x : Home × Result Failure Outcome)
        → IsKnown s W a.item.update_id h.post x
        → Settled s W a h.post x
    settled (h', err e) k = tt
    settled (h', ok o) k = inr k

    go :
        (r : Result GateError Bool)
        → allows s.show s.allowlist (str a.item.chat_id) ≡ r
        → Moves s W h (gated s a h r).0 × Settled s W a h.post (gated s a h r)
    go (err e) q = (Still-Moves s W h h (refl, refl), tt)
    go (ok false) q = (Still-Moves s W h h (refl, refl), inl q)
    go (ok true) q = let (m, k) = deliver-Handles s W a h w in (m, settled (deliver s a h) k)
