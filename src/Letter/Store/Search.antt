-- ===== src/Letter/Store/Search.antt =====
-- The search for a letter by its update: what it finds records the update, and it does not miss a
-- letter that does.
use agent_letter_bridge.Prelude.{
  ◌≡◌, ◌≢◌, ◌⊎◌, refl, sym, ap, ◌∙◌, subst, Bool, true, ◌||◌, Option, none, some, List, [], ◌∷◌,
  Result, ok, err, arith, inl, inr, Bool-cases, Option-cases, any_of, filter_by,
}
use agent_letter_bridge.Prelude.Text.{Text, eq_text, eq_text→eq}
use agent_letter_bridge.Prelude.TextDict
use agent_letter_bridge.Letter.{Letter, LetterError, Directory, LetterFile, resolve}
use agent_letter_bridge.Letter.Store.{
  ends_with, suffix_for, insert_name, sort_names, names, candidates, is_for_update, is_skipped,
  verify, first_verified, found_or, find_by_update,
}

-- The letter in the directory is readable and records the update.
pub record Records (update : Text) (dir : Directory) (id : Text) : Type 0 where
  pub letter : Letter
  pub resolves : resolve dir id ≡ ok letter
  pub same : is_for_update update letter ≡ true

verify_sound :
    (update id : Text) (dir : Directory) (r : Result LetterError Letter)
    (rest : Result LetterError (Option Text)) (found : Text)
    → resolve dir id ≡ r
    → verify update id r rest ≡ ok (some found)
    → Records update dir found ⊎ (rest ≡ ok (some found))
verify_sound update id dir (ok letter) rest found e h =
    elim (Bool-cases (is_for_update update letter)) [
      | inl s ↦ inl (
          subst (λ (x : Text). Records update dir x) (here (ground (arith, s, h)))
            (record { letter = letter; resolves = e; same = s }))
      | inr s ↦ inr (ground (arith, s, h))
    ]
  where
    here : id ≡ found → id ≡ found
    here e = e
verify_sound update id dir (err x) rest found e h = elim (Bool-cases (is_skipped x)) [
  | inl s ↦ inr (ground (arith, s, h))
  | inr s ↦ absurd (ground (arith, s, h))
]

pub first_verified_sound :
    (update found : Text) (dir : Directory) (ids : List Text)
    → first_verified update dir ids ≡ ok (some found)
    → Records update dir found
unfolding first_verified
first_verified_sound update found dir [] h = absurd (ground (arith, h))
first_verified_sound update found dir (id ∷ ids) h =
    elim (verify_sound update id dir (resolve dir id) _ found refl h) [
      | inl r ↦ r
      | inr e ↦ first_verified_sound update found dir ids e
    ]

-- one of the directories
abbrev pub Among : Directory → List Directory → Type 0
Among d [] = ⊥
Among d (e ∷ es) = (e ≡ d) ⊎ Among d es

pub find_by_update_sound :
    (token : Text → Text) (update : Text) (dirs : List Directory) (d : Directory) (id : Text)
    → find_by_update token update dirs ≡ ok (some (d, id))
    → Among d dirs × Records update d id
unfolding find_by_update
find_by_update_sound token update [] d id h = absurd (cc (h))
find_by_update_sound token update (dir ∷ dirs) d id h =
    go (first_verified update dir (candidates token update dir)) refl h
      (find_by_update_sound token update dirs d id)
  where
    go :
        (r : Result LetterError (Option Text))
        → first_verified update dir (candidates token update dir) ≡ r
        → found_or dir r (find_by_update token update dirs) ≡ ok (some (d, id))
        → (find_by_update token update dirs ≡ ok (some (d, id))
            → Among d dirs × Records update d id)
        → Among d (dir ∷ dirs) × Records update d id
    go (err x) e h ih = absurd (cc (h))
    go (ok none) e h ih = let (a, r) = ih h in (inr a, r)
    go (ok (some i)) e h ih =
        let same_dir : dir ≡ d = cc (h) in
        let same_id : i ≡ id = cc (h) in
        let r = first_verified_sound update i dir (candidates token update dir) e in
        (
          inl same_dir,
          subst (λ (x : Directory). Records update x id) same_dir
              (subst (λ (x : Text). Records update dir x) same_id r),
        )

-- membership in the candidates
elem_text : Text → List Text → Bool
elem_text id = any_of (eq_text id)

elem_text-insert :
    (id x : Text) (l : List Text)
    → elem_text id (insert_name x l) ≡ (eq_text id x || elem_text id l)
unfolding insert_name elem_text
elem_text-insert id x [] = refl
elem_text-insert id x (y ∷ l) = ground (arith, elem_text-insert id x l)

elem_text-sort : (id : Text) (l : List Text) → elem_text id (sort_names l) ≡ elem_text id l
unfolding sort_names elem_text
elem_text-sort id [] = refl
elem_text-sort id (x ∷ l) =
    ground (arith, elem_text-insert id x (sort_names l), elem_text-sort id l)

elem_text-filter :
    (id : Text) (p : Text → Bool) (l : List Text)
    → p id ≡ true
    → elem_text id l ≡ true
    → elem_text id (filter_by p l) ≡ true
unfolding elem_text
elem_text-filter id p [] h e = e
elem_text-filter id p (x ∷ l) h e = elim (Bool-cases (eq_text id x)) [
  | inl s ↦ ground (arith, ap p (eq_text→eq id x s), h, s)
  | inr s ↦ ground (arith, elem_text-filter id p l, h, s, e)
]

elem_text-names :
    (id : Text) (f : LetterFile) (dir : Directory)
    → TextDict.get id dir ≡ some f
    → elem_text id (names dir) ≡ true
unfolding elem_text TextDict.get
elem_text-names id f [] h = absurd (cc (h))
elem_text-names id f ((i, g) ∷ dir) h =
    ground (arith, elem_text-names id f dir, TextDict.eq_text_sym i id)

candidate :
    (token : Text → Text) (update id : Text) (f : LetterFile) (dir : Directory)
    → TextDict.get id dir ≡ some f
    → ends_with (suffix_for token update) id ≡ true
    → elem_text id (candidates token update dir) ≡ true
unfolding candidates
candidate token update id f dir g e =
    elem_text-sort id (filter_by (ends_with (suffix_for token update)) (names dir))
    ∙ elem_text-filter id (ends_with (suffix_for token update)) (names dir) e
        (elem_text-names id f dir g)

first_verified_complete :
    (update id : Text) (dir : Directory) (ids : List Text)
    → elem_text id ids ≡ true
    → Records update dir id
    → first_verified update dir ids ≢ ok none
unfolding first_verified elem_text
first_verified_complete update id dir [] e r h = cc (e)
first_verified_complete update id dir (x ∷ ids) e r h = elim (Bool-cases (eq_text id x)) [
  | inl s ↦
      let at : resolve dir x ≡ ok r.letter =
        ap (resolve dir) (sym (eq_text→eq id x s)) ∙ r.resolves in
      cc (
        sym h
        ∙ ap (λ (q : Result LetterError Letter). verify update x q (first_verified update dir ids))
            at
        ∙ if_same x r.letter r.same (first_verified update dir ids))
  | inr s ↦
      go (resolve dir x) h (first_verified_complete update id dir ids (ground (arith, s, e)) r)
]
  where
    if_same :
        (x : Text) (l : Letter)
        → is_for_update update l ≡ true
        → (rest : Result LetterError (Option Text)) → verify update x (ok l) rest ≡ ok (some x)
    if_same x l e rest = rw e refl

    go :
        (q : Result LetterError Letter)
        → verify update x q (first_verified update dir ids) ≡ ok none
        → first_verified update dir ids ≢ ok none
        → ⊥
    go (ok l) h n = elim (Bool-cases (is_for_update update l)) [
      | inl s ↦ absurd (ground (arith, s, h))
      | inr s ↦ n (ground (arith, s, h))
    ]
    go (err x) h n = elim (Bool-cases (is_skipped x)) [
      | inl s ↦ n (ground (arith, s, h))
      | inr s ↦ absurd (ground (arith, s, h))
    ]

pub resolve-file :
    (dir : Directory) (id : Text) (l : Letter)
    → resolve dir id ≡ ok l
    → (f : LetterFile) × (TextDict.get id dir ≡ some f)
unfolding resolve
resolve-file dir id l h = elim (Option-cases (TextDict.get id dir)) [
  | inl e ↦ absurd (ground (arith, e, h))
  | inr (f, e) ↦ (f, e)
]

-- A letter that records the update and carries its name is not missed, in whichever of the searched
-- directories it is: the search finds a letter, or raises.
pub find_by_update_complete :
    (token : Text → Text) (update id : Text) (dir : Directory) (dirs : List Directory)
    → Among dir dirs
    → ends_with (suffix_for token update) id ≡ true
    → Records update dir id
    → find_by_update token update dirs ≢ ok none
unfolding find_by_update
find_by_update_complete token update id dir [] a e r h = elim a [ ]
find_by_update_complete token update id dir (d ∷ dirs) a e r h =
    go (first_verified update d (candidates token update d)) refl h a
      (λ b. find_by_update_complete token update id dir dirs b e r)
  where
    here : first_verified update dir (candidates token update dir) ≡ ok none → ⊥
    here n =
        let (f, g) = resolve-file dir id r.letter r.resolves in
        first_verified_complete update id dir (candidates token update dir)
          (candidate token update id f dir g e) r n

    go :
        (q : Result LetterError (Option Text))
        → first_verified update d (candidates token update d) ≡ q
        → found_or d q (find_by_update token update dirs) ≡ ok none
        → (d ≡ dir) ⊎ Among dir dirs
        → (Among dir dirs → find_by_update token update dirs ≢ ok none)
        → ⊥
    go (err x) q h a ih = cc (h)
    go (ok (some i)) q h a ih = cc (h)
    go (ok none) q h (inr b) ih = ih b h
    go (ok none) q h (inl s) ih = here (
        subst (λ (x : Directory). first_verified update x (candidates token update x) ≡ ok none) s
          q)
