-- ===== src/Outbound/Startup.antt =====
-- The startup pass: every letter that was in flight is buried once, and nothing else changes.
use agent_letter_bridge.Prelude.{
  String, ◌≡◌, refl, sym, ap, subst, ◌∙◌, Bool, true, false, ◌||◌, Option, none, some, List, [],
  ◌∷◌, ◌++◌, ok, inl, inr, arith, eq_iff, eq_refl, Bool-cases, if_true, if_false, Option-cases,
  any_of, any_of-append, if◌then◌else◌, ◌==◌,
}
use agent_letter_bridge.Prelude.Dict
use agent_letter_bridge.Prelude.Dict.{Dict, Distinct, Distinct-put, get-put, get-nil}
use agent_letter_bridge.Prelude.Text.{Text, eq_text}
use agent_letter_bridge.Outbound.{
  FileName, DeadLetter, Store, names_of, record_event, history, events_of, sort_by_seq, is_terminal,
  classify, ends_throttled, Delivery, in_flight, unsent, set_verdict, reconcile, reconcile_receipts,
  reconcile_at_startup, flag_all, is_in_flight, bury, dead,
}
use agent_letter_bridge.Outbound.History.{
  IsNumbered, events, recorded, record_event-eq-recorded, events-recorded, IsNumbered-recorded,
}
use agent_letter_bridge.Outbound.Stranded.{flagged, stranded, flagged-stranded}

abbrev pub AllNumbered : Store → Type 0
AllNumbered s = (id : String) → IsNumbered (names_of s id)

-- the verdict of a listing over one found earlier
abbrev verdict_over : Option (List FileName) → Option Delivery → Option Delivery
verdict_over none old = old
verdict_over (some d) old = elim (classify (history d)) [ none ↦ old | some v ↦ some v ]

get-reconcile_receipts :
    (j : String) (rs : Dict (List FileName)) (vs : Dict Delivery)
    → Distinct rs
    → Dict.get j (reconcile_receipts rs vs) ≡ verdict_over (Dict.get j rs) (Dict.get j vs)
unfolding reconcile_receipts Dict.get
get-reconcile_receipts j [] vs h = refl
get-reconcile_receipts j ((id, d) ∷ rs) vs h = elim (Option-cases (classify (history d))) [
  | inl e ↦ ground (arith, e, get-reconcile_receipts j rs vs h.1, eq_iff id j)
  | inr (v, e) ↦
      ground (
        arith,
        e,
        get-reconcile_receipts j rs (Dict.put id v vs) h.1,
        eq_iff id j,
        get-put j id v vs,
      )
]

Distinct-reconcile_receipts :
    (rs : Dict (List FileName)) (vs : Dict Delivery)
    → Distinct vs
    → Distinct (reconcile_receipts rs vs)
unfolding reconcile_receipts
Distinct-reconcile_receipts [] vs h = h
Distinct-reconcile_receipts ((id, d) ∷ rs) vs h =
    Distinct-reconcile_receipts rs (set_verdict id (classify (history d)) vs)
      (go (classify (history d)))
  where
    go : (v : Option Delivery) → Distinct (set_verdict id v vs)
    go none = h
    go (some v) = Distinct-put id v vs h

classify_nothing : classify (history []) ≡ some unsent
unfolding classify history events_of sort_by_seq ends_throttled
classify_nothing = refl

-- `reconcile` reports a letter in flight exactly when its history says so.
flagged-reconcile :
    (s : Store) (j : String)
    → Distinct s.receipts
    → flagged (Dict.get j (reconcile s none)) ≡ flagged (classify (events s j))
unfolding reconcile names_of
flagged-reconcile s j h =
    ground
      (arith, get-reconcile_receipts j s.receipts [] h, classify_nothing, get-nil {V = Delivery} j)

-- What the pass does to the history of a letter.
abbrev pub buried : Bool → List Text → List Text
buried true es = es ++ dead ∷ []
buried false es = es

abbrev note_of : String → DeadLetter
note_of id = record { reply_id = id; letter_id = id; detail = "in-flight at restart" }

abbrev pub noted : Bool → String → Option DeadLetter → Option DeadLetter
noted true id old = some (note_of id)
noted false id old = old

record IsFlagged (vs : Dict Delivery) (s : Store) (ids : List String) (s' : Store) : Type 0 where
  done : flag_all vs s ≡ ok (ids, s')
  histories : (j : String) → events s' j ≡ buried (flagged (Dict.get j vs)) (events s j)
  notes :
      (j : String)
      → Dict.get j s'.dead_letters ≡ noted (flagged (Dict.get j vs)) j (Dict.get j s.dead_letters)
  numbered : AllNumbered s'
  distinct : Distinct s.receipts → Distinct s'.receipts

buried_one : String → Store → Store
buried_one id s = recorded id dead (bury id id "in-flight at restart" s)

events-buried_one :
    (j id : String) (s : Store)
    → AllNumbered s
    → events (buried_one id s) j ≡ buried (id == j) (events s j)
unfolding buried_one names_of
events-buried_one j id s n =
    events-recorded j id dead (bury id id "in-flight at restart" s) (n id) (λ e. cc)
    ∙ same_key j id (id == j) refl
  where
    same_key :
        (j id : String) (b : Bool)
        → (id == j) ≡ b
        → (if b then events s id ++ dead ∷ [] else events s j) ≡ buried b (events s j)
    same_key j id true h = ap (λ (k : String). events s k ++ dead ∷ []) ((eq_iff id j).0 h)
    same_key j id false h = refl

numbered-buried_one : (id : String) (s : Store) → AllNumbered s → AllNumbered (buried_one id s)
unfolding buried_one names_of
numbered-buried_one id s n j =
    IsNumbered-recorded j id dead (bury id id "in-flight at restart" s) (n id) (n j)

notes-buried_one :
    (j id : String) (s : Store)
    → Dict.get j (buried_one id s).dead_letters ≡ noted (id == j) j (Dict.get j s.dead_letters)
unfolding buried_one
notes-buried_one j id s = get-put j id (note_of id) s.dead_letters ∙ same_key (id == j) refl
  where
    same_key :
        (b : Bool)
        → (id == j) ≡ b
        → (if b then some (note_of id) else Dict.get j s.dead_letters)
          ≡ noted b j (Dict.get j s.dead_letters)
    same_key true h = ap (λ (k : String). some (note_of k)) ((eq_iff id j).0 h)
    same_key false h = refl

record_event-bury :
    (id : String) (s : Store)
    → AllNumbered s
    → record_event id dead (bury id id "in-flight at restart" s) ≡ ok (buried_one id s)
unfolding buried_one names_of
record_event-bury id s n =
    record_event-eq-recorded id dead (bury id id "in-flight at restart" s) (n id)

flag_all-in_flight :
    (id : String) (vs : Dict Delivery) (s s' : Store) (ids : List String)
    → AllNumbered s
    → flag_all vs (buried_one id s) ≡ ok (ids, s')
    → flag_all ((id, in_flight) ∷ vs) s ≡ ok (id ∷ ids, s')
unfolding flag_all
flag_all-in_flight id vs s s' ids n h = rw (record_event-bury id s n) (rw h)

-- the head of the list, then the rest
flagged-cons :
    (j id : String) (v : Delivery) (vs : Dict Delivery)
    → flagged (Dict.get j ((id, v) ∷ vs))
      ≡ (if id == j then is_in_flight v else flagged (Dict.get j vs))
unfolding Dict.get
flagged-cons j id v vs = ground arith

flagged_absent :
    (j id : String) (vs : Dict Delivery)
    → Dict.get id vs ≡ none
    → (id == j) ≡ true
    → flagged (Dict.get j vs) ≡ false
flagged_absent j id vs h e =
    ap (λ (k : String). flagged (Dict.get k vs)) (sym ((eq_iff id j).0 e)) ∙ ap flagged h

flag_all-other :
    (id : String) (v : Delivery) (vs : Dict Delivery) (s : Store)
    → is_in_flight v ≡ false
    → flag_all ((id, v) ∷ vs) s ≡ flag_all vs s
unfolding flag_all
flag_all-other id v vs s e = rw (e, flag_all)

flag_all_lem :
    (vs : Dict Delivery) (s : Store)
    → Distinct vs
    → AllNumbered s
    → (ids : List String) × (s' : Store) × IsFlagged vs s ids s'
flag_all_lem [] s h n = (
  [],
  s,
  record {
    done = unfold flag_all in refl;
    histories = λ j. rw (get-nil {V = Delivery} j);
    notes = λ j. rw (get-nil {V = Delivery} j);
    numbered = n;
    distinct = λ d. d;
  },
)
flag_all_lem ((id, in_flight) ∷ vs) s h n =
    let (ids, s', r) = flag_all_lem vs (buried_one id s) h.1 (numbered-buried_one id s n) in
    (
      id ∷ ids,
      s',
      record {
        done = flag_all-in_flight id vs s s' ids n r.done;
        histories = λ j. ground (
          arith,
          r.histories j,
          events-buried_one j id s n,
          flagged-cons j id in_flight vs,
          flagged_absent j id vs h.0,
        );
        notes = λ j. ground (
          arith,
          r.notes j,
          notes-buried_one j id s,
          flagged-cons j id in_flight vs,
          flagged_absent j id vs h.0,
        );
        numbered = r.numbered;
        distinct = λ d. r.distinct (unfold buried_one in Distinct-put id _ s.receipts d);
      },
    )
flag_all_lem ((id, v) ∷ vs) s h n =
    let (ids, s', r) = flag_all_lem vs s h.1 n in
    (
      ids,
      s',
      record {
        done = flag_all-other id v vs s refl ∙ r.done;
        histories =
            λ j. ground (arith, r.histories j, flagged-cons j id v vs, flagged_absent j id vs h.0);
        notes = λ j. ground (arith, r.notes j, flagged-cons j id v vs, flagged_absent j id vs h.0);
        numbered = r.numbered;
        distinct = r.distinct;
      },
    )

flagged_tail :
    (id : String) (v : Delivery) (vs : Dict Delivery)
    → Distinct ((id, v) ∷ vs)
    → ((j : String) → flagged (Dict.get j ((id, v) ∷ vs)) ≡ false)
    → (j : String) → flagged (Dict.get j vs) ≡ false
flagged_tail id v vs h f j = elim (Bool-cases (id == j)) [
  | inl e ↦ flagged_absent j id vs h.0 e
  | inr e ↦ sym (if_false _ _ e) ∙ (sym (flagged-cons j id v vs) ∙ f j)
]

flag_all-none :
    (vs : Dict Delivery) (s : Store)
    → Distinct vs
    → ((j : String) → flagged (Dict.get j vs) ≡ false)
    → flag_all vs s ≡ ok ([], s)
flag_all-none [] s h f = unfold flag_all in refl
flag_all-none ((id, v) ∷ vs) s h f =
    flag_all-other id v vs s
      (sym (if_true _ _ (eq_refl id)) ∙ (sym (flagged-cons id id v vs) ∙ f id))
    ∙ flag_all-none vs s h.1 (flagged_tail id v vs h f)

abbrev pub is_stranded : Store → String → Bool
is_stranded s j = stranded (events s j)

Distinct-reconcile : (s : Store) → Distinct (reconcile s none)
unfolding reconcile
Distinct-reconcile s = Distinct-reconcile_receipts s.receipts [] tt

-- Let no letter's receipts be listed twice and every receipts directory be numbered. Then the startup
-- pass succeeds. A letter with a "sending" among its events and no "sent", "refused", "ambiguous" or
-- "dead", whose latest event is not a "throttled", has one event more, a last "dead", and a dead
-- letter that names it; every other letter has the history and the dead letter that it had.
pub reconcile_at_startup_lem :
    (s : Store)
    → Distinct s.receipts
    → AllNumbered s
    → (ids : List String) × (s' : Store) × (reconcile_at_startup s ≡ ok (ids, s'))
      × ((j : String) → events s' j ≡ buried (is_stranded s j) (events s j))
      × ((j : String)
          → Dict.get j s'.dead_letters ≡ noted (is_stranded s j) j (Dict.get j s.dead_letters))
      × AllNumbered s'
      × Distinct s'.receipts
unfolding reconcile_at_startup
reconcile_at_startup_lem s d n =
    let (ids, s', r) = flag_all_lem (reconcile s none) s (Distinct-reconcile s) n in
    (
      ids,
      s',
      r.done,
      λ j. r.histories j ∙ ap (λ (b : Bool). buried b (events s j)) (found j),
      λ j. r.notes j ∙ ap (λ (b : Bool). noted b j (Dict.get j s.dead_letters)) (found j),
      r.numbered,
      r.distinct d,
    )
  where
    found : (j : String) → flagged (Dict.get j (reconcile s none)) ≡ is_stranded s j
    found j = flagged-reconcile s j d ∙ flagged-stranded (events s j)

-- a letter that is dead is not in flight
flagged-buried : (es : List Text) → flagged (classify (buried (flagged (classify es)) es)) ≡ false
flagged-buried es = elim (Bool-cases (flagged (classify es))) [
  | inl h ↦ rw h (unfold classify in rw (any_of-append, dead_ends es) refl)
  | inr h ↦ rw h h
]
  where
    dead_ends : (es : List Text) → (any_of is_terminal es || any_of is_terminal (dead ∷ [])) ≡ true
    dead_ends es = unfold is_terminal eq_text in ground arith

-- Where no letter's receipts are listed twice and every receipts directory is numbered, a second pass
-- after one that succeeded flags nothing and changes nothing.
pub startup_idempotent :
    (s s' : Store) (ids : List String)
    → Distinct s.receipts
    → AllNumbered s
    → reconcile_at_startup s ≡ ok (ids, s')
    → reconcile_at_startup s' ≡ ok ([], s')
startup_idempotent s s' ids d n h =
    let (ids', t, e, hist, notes, n', d') = reconcile_at_startup_lem s d n in
    let same : t ≡ s' = cc (e, h) in
    subst (λ (t : Store). reconcile_at_startup t ≡ ok ([], t)) same
      (unfold reconcile_at_startup in
        flag_all-none (reconcile t none) t (Distinct-reconcile t) (λ j.
          flagged-reconcile t j d'
          ∙ (ap (λ (es : List Text). flagged (classify es))
                (hist j
                  ∙ ap (λ (b : Bool). buried b (events s j)) (sym (flagged-stranded (events s j))))
              ∙ flagged-buried (events s j))))
