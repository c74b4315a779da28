-- ===== src/Letter/Store/Once.antt =====
-- Publishing once: what a publication leaves behind, and that a redelivery adds nothing to it.
use agent_letter_bridge.Prelude.{
  ℕ, ◌≡◌, ◌⊎◌, refl, sym, ap, ◌∙◌, subst, true, false, Option, none, some, List, [], ◌∷◌, ◌++◌, ok,
  >>=-eq-ok, if◌then◌else◌, arith, inl, inr, Bool-cases, any_of,
}
use agent_letter_bridge.Prelude.Text.{Text, codes, eq_text, eq_text_refl}
use agent_letter_bridge.Prelude.TextDict
use agent_letter_bridge.Prelude.TextDict.{get-put, Distinct}
use agent_letter_bridge.Letter.{
  Meta, Letter, LetterFile, text, Directory, is_safe_id, serialise, parse, read_file, resolve,
}
use agent_letter_bridge.Letter.Headers.{AllPlain}
use agent_letter_bridge.Letter.RoundTrip.{parse-serialise, read_body}
use agent_letter_bridge.Letter.Store.{
  Mint, unique_part, suffix_for, letter_id, stamped, publish, ends_with, is_for_update, or_empty,
  find_by_update, load_delivered, record_delivered, Post, searched_or, publish_unless, publish_once,
}
use agent_letter_bridge.Letter.Store.Search.{
  Records, Among, find_by_update_sound, find_by_update_complete,
}

-- the header of the letter that publish_once writes
abbrev pub final_meta : (Text → Text) → Mint → Text → Meta → Meta
final_meta token m update meta =
    stamped m (letter_id token m update) (TextDict.put (codes "source_id") update meta)

-- What the format asks of a letter: a safe id, no key twice, and plain fields.
pub record IsWritable (token : Text → Text) (m : Mint) (update : Text) (meta : Meta) : Type 0 where
  pub safe : is_safe_id (letter_id token m update) ≡ true
  pub distinct : Distinct (final_meta token m update meta)
  pub plain : AllPlain (final_meta token m update meta)

ends_with-append : (s p : Text) → ends_with s (p ++ s) ≡ true
ends_with-append [] [] = unfold eq_text in refl
ends_with-append (c ∷ s) [] = ground (arith, eq_text_refl (c ∷ s))
ends_with-append s (c ∷ p) = ground (arith, ends_with-append s p)

pub letter_id-end :
    (token : Text → Text) (m : Mint) (update : Text)
    → ends_with (suffix_for token update) (letter_id token m update) ≡ true
unfolding letter_id
letter_id-end token m update = ends_with-append (suffix_for token update) (unique_part m)

-- The stamps leave the recorded update alone.
final_meta-source :
    (token : Text → Text) (m : Mint) (update : Text) (meta : Meta)
    → TextDict.get (codes "source_id") (final_meta token m update meta) ≡ some update
unfolding stamped eq_text
final_meta-source token m update meta =
    let with_source = TextDict.put (codes "source_id") update meta in
    let with_sent = TextDict.put (codes "sent") m.sent with_source in
    ground (
      arith,
      get-put (codes "source_id") (codes "source_id") update meta,
      get-put (codes "source_id") (codes "sent") m.sent with_source,
      get-put (codes "source_id") (codes "id") (letter_id token m update) with_sent,
    )

resolve-text :
    (dir : Directory) (id t : Text)
    → is_safe_id id ≡ true
    → TextDict.get id dir ≡ some (text t)
    → resolve dir id ≡ parse t
unfolding resolve read_file
resolve-text dir id t s g = ground (arith, s, g)

pub publish-ok :
    (token : Text → Text) (m : Mint) (inbox inbox' : Directory) (body : Text) (meta : Meta)
    (update id : Text)
    → publish token m inbox body meta update ≡ ok (id, inbox')
    → (letter_id token m update ≡ id)
      × (TextDict.get id inbox ≡ none)
      × (TextDict.put id (text (serialise (stamped m id meta) body)) inbox ≡ inbox')
unfolding publish TextDict.has
publish-ok token m inbox inbox' body meta update id h =
    elim (Bool-cases (TextDict.has (letter_id token m update) inbox)) [
      | inl e ↦ absurd (ground (arith, e, h))
      | inr e ↦
          let same : letter_id token m update ≡ id = cc (h, e) in
          (
            same,
            subst (λ (x : Text). TextDict.get x inbox ≡ none) same (ground (arith, e)),
            subst
                (λ (x : Text).
                  TextDict.put x (text (serialise (stamped m x meta) body)) inbox ≡ inbox')
                same (cc (h, e)),
          )
    ]

-- The letter that a publication leaves: a new file that reads back as the letter, beside the old ones.
pub record Published (token : Text → Text) (m : Mint) (p p' : Post) (update body : Text)
    (meta : Meta) (id : Text) : Type 0 where
  pub named : letter_id token m update ≡ id
  pub fresh : TextDict.get id p.inbox ≡ none
  pub file :
      (j : Text)
      → TextDict.get j p'.inbox ≡ (
          if eq_text id j
          then some (text (serialise (final_meta token m update meta) body))
          else TextDict.get j p.inbox)
  pub letter : Letter
  pub resolves : resolve p'.inbox id ≡ ok letter
  pub fields :
      (k : Text) → TextDict.get k letter.meta ≡ TextDict.get k (final_meta token m update meta)
  pub body_kept : letter.body ≡ read_body body

if_self : (id : Text) (x y : Option LetterFile) → (if eq_text id id then x else y) ≡ x
if_self id x y = rw eq_text_refl refl

published :
    (token : Text → Text) (m : Mint) (p p' : Post) (update body : Text) (meta : Meta) (id : Text)
    (inbox' : Directory)
    → IsWritable token m update meta
    → publish token m p.inbox body (TextDict.put (codes "source_id") update meta) update
      ≡ ok (id, inbox')
    → p'.inbox ≡ inbox'
    → Published token m p p' update body meta id
published token m p p' update body meta id inbox' w h e =
    let (named, fresh, done) =
      publish-ok token m p.inbox inbox' body (TextDict.put (codes "source_id") update meta) update
        id h in
    let same : stamped m id (TextDict.put (codes "source_id") update meta)
        ≡ final_meta token m update meta =
      ap (λ (x : Text). stamped m x (TextDict.put (codes "source_id") update meta)) (sym named) in
    let written : p'.inbox
        ≡ TextDict.put id (text (serialise (final_meta token m update meta) body)) p.inbox =
      e ∙ (sym done ∙ ap (λ (x : Meta). TextDict.put id (text (serialise x body)) p.inbox) same) in
    let (letter, parsed, fields, kept) =
      parse-serialise (final_meta token m update meta) body w.distinct w.plain in
    let file = λ (j : Text).
      ap (TextDict.get j) written
      ∙ get-put j id (text (serialise (final_meta token m update meta) body)) p.inbox in
    record {
      named = named;
      fresh = fresh;
      file = file;
      letter = letter;
      resolves =
          resolve-text p'.inbox id (serialise (final_meta token m update meta) body)
            (subst (λ (x : Text). is_safe_id x ≡ true) named w.safe) (file id ∙ if_self id _ _)
          ∙ parsed;
      fields = fields;
      body_kept = kept;
    }

skipped :
    (token : Text → Text) (m : Mint) (limit : ℕ) (p p' : Post) (update body : Text) (meta : Meta)
    (found : Directory × Text) (r : Option Text)
    → publish_unless token m limit p update body meta (some found) ≡ ok (r, p')
    → (r ≡ none) × (p'.inbox ≡ p.inbox)
unfolding publish_unless
skipped token m limit p p' update body meta found r h =
    let same : record p { ledger = record_delivered limit (load_delivered p.ledger) update } ≡ p' =
      cc (h) in
    (cc (h), ap (λ (q : Post). q.inbox) (sym same))

unless-Published :
    (token : Text → Text) (m : Mint) (limit : ℕ) (p p' : Post) (update body : Text) (meta : Meta)
    (r : Option Text)
    → IsWritable token m update meta
    → publish_unless token m limit p update body meta none ≡ ok (r, p')
    → (id : Text) × (r ≡ some id) × Published token m p p' update body meta id
unfolding publish_unless
unless-Published token m limit p p' update body meta r w h =
    let ((id, inbox'), a, b) =
      >>=-eq-ok (publish token m p.inbox body (TextDict.put (codes "source_id") update meta) update)
        _ h in
    let same : record {
      inbox = inbox';
      ledger = record_delivered limit (load_delivered p.ledger) update;
    }
        ≡ p' =
      cc (b) in
    (
      id,
      cc (b),
      published token m p p' update body meta id inbox' w a (ap (λ (q : Post). q.inbox) (sym same)),
    )

after_search :
    (token : Text → Text) (m : Mint) (limit : ℕ) (p p' : Post) (searched : List Directory)
    (update body : Text) (meta : Meta) (r : Option Text)
    → any_of (eq_text update) (load_delivered p.ledger) ≡ false
    → publish_once token m limit p searched update body meta ≡ ok (r, p')
    → (found : Option (Directory × Text)) × (find_by_update token update
          (searched_or p.inbox searched)
        ≡ ok found)
      × (publish_unless token m limit p update body meta found ≡ ok (r, p'))
unfolding publish_once
after_search token m limit p p' searched update body meta r unknown h =
    >>=-eq-ok (find_by_update token update (searched_or p.inbox searched))
      (publish_unless token m limit p update body meta) (ground (arith, unknown, h))

-- What publish_once does when it succeeds. Either it publishes, and the inbox has one new file, which
-- reads back as a letter with the stamped header, the update's id in it, and the body up to line
-- ends; or the inbox stays as it was, and then the ledger has the update or some searched directory
-- has a readable letter that records it. The letter is one that the format can carry.
pub publish_once_lem :
    (token : Text → Text) (m : Mint) (limit : ℕ) (p p' : Post) (searched : List Directory)
    (update body : Text) (meta : Meta) (r : Option Text)
    → IsWritable token m update meta
    → publish_once token m limit p searched update body meta ≡ ok (r, p')
    → ((id : Text) × (r ≡ some id) × Published token m p p' update body meta id)
      ⊎ ((r ≡ none)
          × (p'.inbox ≡ p.inbox)
          × ((any_of (eq_text update) (load_delivered p.ledger) ≡ true)
              ⊎ ((d : Directory) × (id : Text) × Among d (searched_or p.inbox searched)
                  × Records update d id)))
unfolding publish_once
publish_once_lem token m limit p p' searched update body meta r w h =
    elim (Bool-cases (any_of (eq_text update) (load_delivered p.ledger))) [
      | inl known ↦ inr (ground (arith, known, h), ground (arith, known, h), inl known)
      | inr unknown ↦
          let (found, a, b) =
            after_search token m limit p p' searched update body meta r unknown h in
          by_search found a b
    ]
  where
    by_search :
        (found : Option (Directory × Text))
        → find_by_update token update (searched_or p.inbox searched) ≡ ok found
        → publish_unless token m limit p update body meta found ≡ ok (r, p')
        → ((id : Text) × (r ≡ some id) × Published token m p p' update body meta id)
          ⊎ ((r ≡ none)
              × (p'.inbox ≡ p.inbox)
              × ((any_of (eq_text update) (load_delivered p.ledger) ≡ true)
                  ⊎ ((d : Directory) × (id : Text) × Among d (searched_or p.inbox searched)
                      × Records update d id)))
    by_search (some (d, id)) a b =
        let (among, rec) =
          find_by_update_sound token update (searched_or p.inbox searched) d id a in
        let (e, kept) = skipped token m limit p p' update body meta (d, id) r b in
        inr (e, kept, inr (d, id, among, rec))
    by_search none a b = inl (unless-Published token m limit p p' update body meta r w b)

moved-Records :
    (token : Text → Text) (m : Mint) (p p' : Post) (update body : Text) (meta : Meta) (id : Text)
    (dir : Directory)
    → IsWritable token m update meta
    → Published token m p p' update body meta id
    → TextDict.get id dir ≡ TextDict.get id p'.inbox
    → Records update dir id
unfolding is_for_update
moved-Records token m p p' update body meta id dir w q g = record {
  letter = q.letter;
  resolves =
      resolve-text dir id (serialise (final_meta token m update meta) body)
        (subst (λ (x : Text). is_safe_id x ≡ true) q.named w.safe)
        (g ∙ (q.file id ∙ if_self id _ _))
      ∙ (sym (
            resolve-text p'.inbox id (serialise (final_meta token m update meta) body)
              (subst (λ (x : Text). is_safe_id x ≡ true) q.named w.safe)
              (q.file id ∙ if_self id _ _))
          ∙ q.resolves);
  same =
      ap (λ (o : Option Text). eq_text (or_empty o) update)
        (q.fields (codes "source_id") ∙ final_meta-source token m update meta)
      ∙ eq_text_refl update;
}

pub publish_once-Published :
    (token : Text → Text) (m : Mint) (limit : ℕ) (p p' : Post) (searched : List Directory)
    (update body : Text) (meta : Meta) (id : Text)
    → IsWritable token m update meta
    → publish_once token m limit p searched update body meta ≡ ok (some id, p')
    → Published token m p p' update body meta id
publish_once-Published token m limit p p' searched update body meta id w h =
    elim (publish_once_lem token m limit p p' searched update body meta (some id) w h) [
      | inl (i, e, q) ↦
          let same : i ≡ id = cc (e) in
          subst (λ (x : Text). Published token m p p' update body meta x) same q
      | inr (e, kept, why) ↦ absurd (cc (e))
    ]

-- Let a letter be published for an update, its id safe, its header without a key twice and with
-- plain fields only (the fields of `IsWritable`). Then a later call for the same update that succeeds
-- publishes nothing, whatever its text and whatever the ledger says by then, even if the crash came
-- before the ledger was written, provided that one of the directories that the later call searches
-- holds the file of the first letter.
pub redelivery_publishes_nothing :
    (token : Text → Text) (m : Mint) (limit : ℕ) (p p' : Post) (searched : List Directory)
    (update body : Text) (meta : Meta) (id : Text) (m₂ : Mint) (limit₂ : ℕ) (p₂ p₂' : Post)
    (searched₂ : List Directory) (body₂ : Text) (meta₂ : Meta) (dir : Directory) (r : Option Text)
    → IsWritable token m update meta
    → publish_once token m limit p searched update body meta ≡ ok (some id, p')
    → Among dir (searched_or p₂.inbox searched₂)
    → TextDict.get id dir ≡ TextDict.get id p'.inbox
    → publish_once token m₂ limit₂ p₂ searched₂ update body₂ meta₂ ≡ ok (r, p₂')
    → (r ≡ none) × (p₂'.inbox ≡ p₂.inbox)
redelivery_publishes_nothing token m limit p p' searched update body meta id m₂ limit₂ p₂ p₂'
      searched₂ body₂ meta₂ dir r w first among held second =
    elim (Bool-cases (any_of (eq_text update) (load_delivered p₂.ledger))) [
      | inl known ↦
          unfold publish_once in (ground (arith, known, second), ground (arith, known, second))
      | inr unknown ↦
          let (found, a, b) =
            after_search token m₂ limit₂ p₂ p₂' searched₂ update body₂ meta₂ r unknown second in
          by_search found a b
    ]
  where
    q : Published token m p p' update body meta id
    q = publish_once-Published token m limit p p' searched update body meta id w first

    recorded : Records update dir id
    recorded = moved-Records token m p p' update body meta id dir w q held

    named : ends_with (suffix_for token update) id ≡ true
    named =
        subst (λ (x : Text). ends_with (suffix_for token update) x ≡ true) q.named
          (letter_id-end token m update)

    by_search :
        (found : Option (Directory × Text))
        → find_by_update token update (searched_or p₂.inbox searched₂) ≡ ok found
        → publish_unless token m₂ limit₂ p₂ update body₂ meta₂ found ≡ ok (r, p₂')
        → (r ≡ none) × (p₂'.inbox ≡ p₂.inbox)
    by_search (some f) a b = skipped token m₂ limit₂ p₂ p₂' update body₂ meta₂ f r b
    by_search none a b = absurd (
        find_by_update_complete token update id dir (searched_or p₂.inbox searched₂) among named
          recorded a)
