-- ===== src/Letter/Store/Evidence.antt =====
-- The evidence on disk that an update was delivered, and that publish_once leaves it.
use agent_letter_bridge.Prelude.{
  ℕ, zero, suc, length, eqb, ◌-◌, ◌≡◌, ◌⊎◌, refl, sym, ap, ◌∙◌, subst, Bool, true, Option, none,
  some, List, [], ◌∷◌, ◌++◌, Result, ok, err, ◌>>=◌, >>=-eq-ok, arith, inl, inr, Bool-cases, any_of,
  any_of-append, filter_by, All, Option-cases,
}
use agent_letter_bridge.Prelude.Text.{Text, codes, eq_text, eq_text→eq, eq_text_refl}
use agent_letter_bridge.Prelude.TextDict
use agent_letter_bridge.Prelude.TextDict.{get-put, eq_text_sym}
use agent_letter_bridge.Letter.{
  Meta, Letter, LetterError, Directory, LetterFile, text, unreadable, undecodable, resolve,
  read_file, parse, serialise,
}
use agent_letter_bridge.Letter.Store.{
  stamped, Mint, Post, ends_with, suffix_for, leb_text, insert_name, sort_names, names, candidates,
  is_for_update, is_skipped, verify, first_verified, found_or, find_by_update, publish,
  publish_unless, publish_once, load_delivered, record_delivered, last_entries, drop_first,
}
use agent_letter_bridge.Letter.Store.Search.{
  Among, Records, find_by_update_sound, first_verified_sound,
}
use agent_letter_bridge.Letter.Store.Once.{letter_id-end, publish-ok, final_meta}
use agent_letter_bridge.Letter.Store.Carried.{
  Follows, as_written, Follows-trans, Carries, Carries-refl, Carries-put,
}

-- A text is a letter that records the update.
abbrev pub IsLetterFor : Text → Text → Type 0
IsLetterFor update t =
    (letter : Letter) × (parse t ≡ ok letter) × (is_for_update update letter ≡ true)

-- The inbox has a file that is named for the update and follows a letter: one that was written for
-- the update, or one that records it. Or one of the other directories has a letter that records it.
-- `Written update t` says that `t` was written for the update.
abbrev pub Filed :
    (Text → Text → Type 0) → (Text → Text) → Text → Directory → List Directory → Type 0
Filed Written token update inbox others =
    ((id : Text) × (t : Text) × (f : LetterFile) × (ends_with (suffix_for token update) id ≡ true)
      × (TextDict.get id inbox ≡ some f)
      × Follows (text t) f
      × (Written update t ⊎ IsLetterFor update t))
    ⊎ ((dir : Directory) × (id : Text) × Among dir others × Records update dir id)

-- No file is lost.
abbrev pub Keeps : Directory → Directory → Type 0
Keeps inbox inbox' =
    (id : Text) (f : LetterFile)
    → TextDict.get id inbox ≡ some f
    → (g : LetterFile) × (TextDict.get id inbox' ≡ some g)

pub Filed-Carries :
    (Written : Text → Text → Type 0) (token : Text → Text) (update : Text)
    (inbox inbox' : Directory) (others : List Directory)
    → Carries inbox inbox'
    → Filed Written token update inbox others
    → Filed Written token update inbox' others
Filed-Carries Written token update inbox inbox' others k (inl (id, t, f, e, g, r, w)) =
    let (f', g', r') = k id f g in inl (id, t, f', e, g', Follows-trans (text t) f f' r r', w)
Filed-Carries Written token update inbox inbox' others k (inr d) = inr d

pub Keeps-put :
    (inbox : Directory) (id : Text) (f : LetterFile) → Keeps inbox (TextDict.put id f inbox)
Keeps-put inbox id f j g e = elim (Bool-cases (eq_text id j)) [
  | inl s ↦ (f, get-put j id f inbox ∙ rw s refl)
  | inr s ↦ (g, get-put j id f inbox ∙ rw s e)
]

pub put_there :
    (id : Text) (f : LetterFile) (inbox : Directory)
    → TextDict.get id (TextDict.put id f inbox) ≡ some f
put_there id f inbox = get-put id id f inbox ∙ rw (eq_text_refl id) refl

All-filter : (p : Text → Bool) (l : List Text) → All (λ x. p x ≡ true) (filter_by p l)
All-filter p [] = tt
All-filter p (x ∷ l) = elim (Bool-cases (p x)) [
  | inl e ↦ rw e (e, All-filter p l)
  | inr e ↦ rw e (All-filter p l)
]

All-insert :
    (P : Text → Type 0) (x : Text) (l : List Text) → P x → All P l → All P (insert_name x l)
unfolding insert_name
All-insert P x [] p a = (p, tt)
All-insert P x (y ∷ l) p a = elim (Bool-cases (leb_text x y)) [
  | inl e ↦ rw e (p, a)
  | inr e ↦ rw e (a.0, All-insert P x l p a.1)
]

All-sort : (P : Text → Type 0) (l : List Text) → All P l → All P (sort_names l)
unfolding sort_names
All-sort P [] a = tt
All-sort P (x ∷ l) a = All-insert P x (sort_names l) a.0 (All-sort P l a.1)

abbrev ok_some : Text → Result LetterError (Option Text)
ok_some id = ok (some id)

first_verified-All :
    (P : Text → Type 0) (update id : Text) (dir : Directory) (ids : List Text)
    → All P ids
    → first_verified update dir ids ≡ ok (some id)
    → P id
unfolding first_verified
first_verified-All P update id dir [] a h = absurd (cc (h))
first_verified-All P update id dir (x ∷ ids) a h =
    go (resolve dir x) (first_verified-All P update id dir ids a.1) h
  where
    found : ok_some x ≡ ok_some id → x ≡ id
    found q = cc (q)

    go :
        (r : Result LetterError Letter)
        → (first_verified update dir ids ≡ ok (some id) → P id)
        → verify update x r (first_verified update dir ids) ≡ ok (some id)
        → P id
    go (ok letter) others e = elim (Bool-cases (is_for_update update letter)) [
      | inl s ↦ subst P (found (ground (arith, s, e))) a.0
      | inr s ↦ others (ground (arith, s, e))
    ]
    go (err x) others e = elim (Bool-cases (is_skipped x)) [
      | inl s ↦ others (ground (arith, s, e))
      | inr s ↦ absurd (ground (arith, s, e))
    ]

Records-text :
    (update id : Text) (dir : Directory)
    → Records update dir id
    → (t : Text) × (TextDict.get id dir ≡ some (text t)) × IsLetterFor update t
unfolding resolve
Records-text update id dir r = elim (Option-cases (TextDict.get id dir)) [
  | inl e ↦ absurd (ground (arith, e, r.resolves))
  | inr (f, e) ↦ of_file f e (ground (arith, e, r.resolves))
]
  where
    of_file :
        (f : LetterFile)
        → TextDict.get id dir ≡ some f
        → read_file f ≡ ok r.letter
        → (t : Text) × (TextDict.get id dir ≡ some (text t)) × IsLetterFor update t
    of_file (text t) e q = (t, e, (r.letter, unfold read_file in q, r.same))
    of_file unreadable e q = absurd (unfold read_file in cc (q))
    of_file undecodable e q = absurd (unfold read_file in cc (q))

found-Filed :
    (Written : Text → Text → Type 0) (token : Text → Text) (update : Text) (inbox : Directory)
    (others : List Directory) (found : Directory × Text)
    → find_by_update token update (inbox ∷ others) ≡ ok (some found)
    → Filed Written token update inbox others
unfolding find_by_update candidates
found-Filed Written token update inbox others (dir, id) h =
    go (first_verified update inbox (candidates token update inbox)) refl h
  where
    go :
        (r : Result LetterError (Option Text))
        → first_verified update inbox (candidates token update inbox) ≡ r
        → found_or inbox r (find_by_update token update others) ≡ ok (some (dir, id))
        → Filed Written token update inbox others
    go (err x) e k = absurd (cc (k))
    go (ok none) e k =
        let (a, r) = find_by_update_sound token update others dir id k in inr (dir, id, a, r)
    go (ok (some i)) e k =
        let r = first_verified_sound update i inbox (candidates token update inbox) e in
        let (t, g, l) = Records-text update i inbox r in
        inl (
          i,
          t,
          text t,
          first_verified-All (λ x. ends_with (suffix_for token update) x ≡ true) update i inbox _
              (All-sort _ _ (All-filter (ends_with (suffix_for token update)) (names inbox))) e,
          g,
          as_written (text t),
          inr l,
        )

any_of-drop_first :
    (p : Text → Bool) (n : ℕ) (l : List Text) → any_of p (drop_first n l) ≡ true → any_of p l ≡ true
any_of-drop_first p zero l h = h
any_of-drop_first p (suc n) [] h = h
any_of-drop_first p (suc n) (x ∷ l) h = ground (arith, any_of-drop_first p n l, h)

-- What a recorded ledger knows was known before, or is the update that was recorded.
recorded_before :
    (limit : ℕ) (delivered : List Text) (update u : Text)
    → any_of (eq_text u) (load_delivered (record_delivered limit delivered update)) ≡ true
    → (any_of (eq_text u) delivered ≡ true) ⊎ (update ≡ u)
unfolding load_delivered record_delivered last_entries
recorded_before limit delivered update u h = elim (Bool-cases (any_of (eq_text u) delivered)) [
  | inl e ↦ inl e
  | inr e ↦ inr (
      sym (
        eq_text→eq u update
          (ground (arith, e, whole, any_of-append (eq_text u) delivered (update ∷ [])))))
]
  where
    whole : any_of (eq_text u) (delivered ++ update ∷ []) ≡ true
    whole = elim (Bool-cases (eqb limit 0)) [
      | inl e ↦ ground (arith, e, h)
      | inr e ↦
          any_of-drop_first (eq_text u) (length (delivered ++ update ∷ []) - limit)
            (delivered ++ update ∷ []) (ground (arith, e, h))
    ]

abbrev ok_result : Option Text × Post → Result LetterError (Option Text × Post)
ok_result x = ok x

-- What a call of publish_once leaves: every file that was there, as it was; a ledger that knows only what it knew
-- before and what has its evidence on disk; and the update in the ledger before, or on disk.
pub record Evidence (Written : Text → Text → Type 0) (token : Text → Text) (update : Text)
    (p p' : Post) (others : List Directory) : Type 0 where
  pub files : Carries p.inbox p'.inbox
  pub ledger :
      (u : Text)
      → any_of (eq_text u) (load_delivered p'.ledger) ≡ true
      → (any_of (eq_text u) (load_delivered p.ledger) ≡ true)
        ⊎ Filed Written token u p'.inbox others
  pub known :
      (any_of (eq_text update) (load_delivered p.ledger) ≡ true)
      ⊎ Filed Written token update p'.inbox others

recorded-Evidence :
    (Written : Text → Text → Type 0) (token : Text → Text) (limit : ℕ) (update : Text) (p : Post)
    (inbox : Directory) (others : List Directory)
    → Carries p.inbox inbox
    → Filed Written token update inbox others
    → Evidence Written token update p
        (record { inbox = inbox; ledger = record_delivered limit (load_delivered p.ledger) update })
        others
recorded-Evidence Written token limit update p inbox others k f = record {
  files = k;
  ledger = λ u e. elim (recorded_before limit (load_delivered p.ledger) update u e) [
    | inl a ↦ inl a
    | inr same ↦ inr (subst (λ x. Filed Written token x inbox others) same f)
  ];
  known = inr f;
}

published-Evidence :
    (Written : Text → Text → Type 0) (token : Text → Text) (m : Mint) (limit : ℕ) (p p' : Post)
    (others : List Directory) (update body : Text) (meta : Meta) (r : Option Text)
    (found : Option (Directory × Text))
    → find_by_update token update (p.inbox ∷ others) ≡ ok found
    → Written update (serialise (final_meta token m update meta) body)
    → publish_unless token m limit p update body meta found ≡ ok (r, p')
    → Evidence Written token update p p' others
unfolding publish_unless
published-Evidence Written token m limit p p' others update body meta r (some found) q w h =
    subst (λ x. Evidence Written token update p x others) (cc (h))
      (recorded-Evidence Written token limit update p p.inbox others (Carries-refl p.inbox)
        (found-Filed Written token update p.inbox others found q))
published-Evidence Written token m limit p p' others update body meta r none q w h =
    let ((id, inbox), a, b) =
      >>=-eq-ok (publish token m p.inbox body (TextDict.put (codes "source_id") update meta) update)
        _ h in
    subst (λ x. Evidence Written token update p x others) (cc (b)) (new id inbox a)
  where
    new :
        (id : Text) (inbox : Directory)
        → publish token m p.inbox body (TextDict.put (codes "source_id") update meta) update
          ≡ ok (id, inbox)
        → Evidence Written token update p
            (record {
              inbox = inbox;
              ledger = record_delivered limit (load_delivered p.ledger) update;
            })
            others
    new id inbox a =
        let (named, fresh, done) =
          publish-ok token m p.inbox inbox body (TextDict.put (codes "source_id") update meta)
            update id a in
        recorded-Evidence Written token limit update p inbox others
          (subst (Carries p.inbox) done (Carries-put p.inbox id _ (λ f e. absurd (cc (e, fresh)))))
          (inl (
            id,
            serialise (final_meta token m update meta) body,
            text (serialise (final_meta token m update meta) body),
            subst (λ x. ends_with (suffix_for token update) x ≡ true) named
                (letter_id-end token m update),
            ap (TextDict.get id) (sym done)
                ∙ (put_there id _ p.inbox
                    ∙ ap
                        (λ (x : Text). some (
                          text (
                            serialise (stamped m x (TextDict.put (codes "source_id") update meta))
                              body)))
                        (sym named)),
            as_written _,
            inl w,
          ))

-- publish_once leaves the evidence of the update.
pub publish_once-Evidence :
    (Written : Text → Text → Type 0) (token : Text → Text) (m : Mint) (limit : ℕ) (p p' : Post)
    (others : List Directory) (update body : Text) (meta : Meta) (r : Option Text)
    → Written update (serialise (final_meta token m update meta) body)
    → publish_once token m limit p (p.inbox ∷ others) update body meta ≡ ok (r, p')
    → Evidence Written token update p p' others
unfolding publish_once
publish_once-Evidence Written token m limit p p' others update body meta r w h =
    elim (Bool-cases (any_of (eq_text update) (load_delivered p.ledger))) [
      | inl e ↦
          subst (λ x. Evidence Written token update p x others) (kept (ground (arith, e, h)))
            (record { files = Carries-refl p.inbox; ledger = λ u k. inl k; known = inl e })
      | inr e ↦ searched_for (ground (arith, e, h))
    ]
  where
    kept : ok_result (none, p) ≡ ok_result (r, p') → p ≡ p'
    kept e = cc (e)

    searched_for :
        (find_by_update token update (p.inbox ∷ others)
            >>= publish_unless token m limit p update body meta)
          ≡ ok (r, p')
        → Evidence Written token update p p' others
    searched_for k =
        let (found, q, k) = >>=-eq-ok (find_by_update token update (p.inbox ∷ others)) _ k in
        published-Evidence Written token m limit p p' others update body meta r found q w k
