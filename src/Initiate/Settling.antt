-- ===== src/Initiate/Settling.antt =====
-- What settling does to the receipts: one event more for the letter, and no call of the sender.
use agent_letter_bridge.Prelude.{
  String, ◌≡◌, ◌≢◌, refl, sym, ap, subst, ◌∙◌, Bool, true, false, List, [], ◌∷◌, ◌++◌, append-nil,
  Result, ok, err, ◌==◌, if◌then◌else◌, arith, eq_iff,
}
use agent_letter_bridge.Prelude.Dict.{Distinct, Distinct-put}
use agent_letter_bridge.Prelude.Text.{Text}
use agent_letter_bridge.Outbound.{Store, OutboundError, names_of, record_event}
use agent_letter_bridge.Outbound.History.{
  IsNumbered, recorded, events, record_event-eq-recorded, events-recorded, IsNumbered-recorded,
}
use agent_letter_bridge.Outbound.Startup.{AllNumbered}
use agent_letter_bridge.Budget.{Reservation}
use agent_letter_bridge.Initiate.{
  settle_recorded, World, After, CrossError, fail_after, settle, settle_reservation, bury_if,
  repair,
}

-- Receipts as the program writes them: numbered files, and one directory for each letter.
pub record IsSound (s : Store) : Type 0 where
  pub numbered : AllNumbered s
  pub distinct : Distinct s.receipts

abbrev pub grown : Bool → List Text → List Text → List Text
grown true es tail = es ++ tail
grown false es tail = es

-- The letter `oid` has the events `tail` more, and no other letter has any; the sender is not called.
pub record Grew (w w' : World) (oid : String) (tail : List Text) : Type 0 where
  pub posts_same : w'.posts ≡ w.posts
  pub histories : (j : String) → events w'.outbound j ≡ grown (oid == j) (events w.outbound j) tail
  pub sound : IsSound w'.outbound

-- Two states with the same receipts and the same calls of the sender.
pub record Same (w w' : World) : Type 0 where
  pub same_receipts : w'.outbound.receipts ≡ w.outbound.receipts
  pub same_posts : w'.posts ≡ w.posts

names_of-receipts :
    (s t : Store) (j : String) → t.receipts ≡ s.receipts → names_of t j ≡ names_of s j
unfolding names_of
names_of-receipts s t j e = rw e refl

IsSound-receipts : (s t : Store) → t.receipts ≡ s.receipts → IsSound s → IsSound t
IsSound-receipts s t e v = record {
  numbered = λ j. subst IsNumbered (sym (names_of-receipts s t j e)) (v.numbered j);
  distinct = subst Distinct (sym e) v.distinct;
}

pub Grew-Same :
    (w m w' : World) (oid : String) (tail : List Text)
    → Grew w m oid tail
    → Same m w'
    → Grew w w' oid tail
Grew-Same w m w' oid tail g s = record {
  posts_same = s.same_posts ∙ g.posts_same;
  histories = λ j. unfold names_of in rw s.same_receipts (g.histories j);
  sound = IsSound-receipts m.outbound w'.outbound s.same_receipts g.sound;
}

grown-nil : (b : Bool) (es : List Text) → es ≡ grown b es []
grown-nil true es = sym (append-nil es)
grown-nil false es = refl

pub Same-Grew : (w w' : World) (oid : String) → IsSound w.outbound → Same w w' → Grew w w' oid []
Same-Grew w w' oid v s = record {
  posts_same = s.same_posts;
  histories =
      λ j. unfold names_of in rw s.same_receipts (grown-nil (oid == j) (events w.outbound j));
  sound = IsSound-receipts w.outbound w'.outbound s.same_receipts v;
}

grown-here :
    (oid j : String) (b : Bool) (s : Store) (tail : List Text)
    → (b ≡ true → oid ≡ j)
    → (if b then events s oid ++ tail else events s j) ≡ grown b (events s j) tail
grown-here oid j true s tail same = ap (λ (k : String). events s k ++ tail) (same refl)
grown-here oid j false s tail same = refl

recorded-Grew :
    (w : World) (oid : String) (event : Text)
    → IsSound w.outbound
    → event ≢ []
    → Grew w (record w { outbound = recorded oid event w.outbound }) oid (event ∷ [])
recorded-Grew w oid event v n = record {
  posts_same = refl;
  histories = λ j.
      events-recorded j oid event w.outbound (v.numbered oid) n
      ∙ grown-here oid j (oid == j) w.outbound (event ∷ []) (eq_iff oid j).0;
  sound = record {
    numbered = λ j. IsNumbered-recorded j oid event w.outbound (v.numbered oid) (v.numbered j);
    distinct = Distinct-put oid _ w.outbound.receipts v.distinct;
  };
}

-- a record of an event, if it succeeds or not
pub record_event-Grew :
    (w : World) (oid : String) (event : Text)
    → IsSound w.outbound
    → event ≢ []
    → (o : Store) × (record_event oid event w.outbound ≡ ok o)
      × Grew w (record w { outbound = o }) oid (event ∷ [])
record_event-Grew w oid event v n = (
  recorded oid event w.outbound,
  record_event-eq-recorded oid event w.outbound (v.numbered oid),
  recorded-Grew w oid event v n,
)

bury_if-receipts :
    (event : Text) (oid detail : String) (s : Store)
    → (bury_if event oid detail s).receipts ≡ s.receipts
bury_if-receipts event oid detail s = ground arith

settle_reservation-Same :
    (oid : String) (rec : Reservation) (event : Text) (detail : String) (w : World)
    → Same w (settle_reservation oid rec event detail w).0
unfolding settle_reservation
settle_reservation-Same oid rec event detail w = record {
  same_receipts = ground arith;
  same_posts = ground arith;
}

-- Settling an event adds it to the letter's history.
pub settle-Grew :
    (oid : String) (rec : Reservation) (event : Text) (detail : String) (w : World)
    → IsSound w.outbound
    → event ≢ []
    → Grew w (settle oid rec event detail w).0 oid (event ∷ [])
unfolding settle
settle-Grew oid rec event detail w v n =
    let (o, e, g) = record_event-Grew w oid event v n in
    subst
      (λ (r : Result OutboundError Store).
        Grew w (settle_recorded oid rec event detail w r).0 oid (event ∷ []))
      (sym e)
      (Grew-Same w (record w { outbound = o }) _ oid (event ∷ []) g
        (settle_reservation-Same oid rec event detail (record w { outbound = o })))

pub repair-Same :
    (oid : String) (rec : Reservation) (existing : Text) (w : World)
    → Same w (repair oid rec existing w).0
unfolding repair
repair-Same oid rec existing w = record { same_receipts = ground arith; same_posts = ground arith }

pub fail_after-err :
    (A B : Type 0) (a : After A) (e : CrossError)
    → (f : CrossError) × (fail_after {B = B} a e ≡ (a.0, err f))
fail_after-err A B (w, ok a) e = (e, refl)
fail_after-err A B (w, err f) e = (f, refl)
