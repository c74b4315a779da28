-- ===== src/Grant/Granted.antt =====
-- The grant predicate: what require_granted returns, and that no other grant could have been meant.
use agent_letter_bridge.Prelude.{
  String, ◌≡◌, ◌⊎◌, refl, sym, ap, subst, ◌∙◌, Bool, true, Option, none, some, List, [], ◌∷◌, ok,
  >>=-eq-ok, Result-cases, arith, Bool-cases, inl, inr, if◌then◌else◌, filter_by,
}
use agent_letter_bridge.Prelude.Dict.{Dict}
use agent_letter_bridge.Prelude.Int.{ℤ}
use agent_letter_bridge.Prelude.Text.{Text}
use agent_letter_bridge.Json.{Float}
use agent_letter_bridge.Grant.{
  Grant, is_grant_id, validate, GrantFile, read_published, entry_grant, has_payload, is_for,
  add_found, find_grants, choose, is_enabled, require_granted, GrantsDir,
}
use agent_letter_bridge.Grant.Authority.{IsValid, validate_iff}

-- The directory lists the file of this id.
abbrev pub Listed : String → GrantFile → Dict GrantFile → Type 0
Listed gid f [] = ⊥
Listed gid f ((k, e) ∷ files) = ((k ≡ gid) × (e ≡ f)) ⊎ Listed gid f files

abbrev In : Grant → List Grant → Type 0
In g [] = ⊥
In g (x ∷ xs) = (x ≡ g) ⊎ In g xs

-- A listed id whose marker and payload are both in order, for this platform and chat.
pub record IsPublished (platform chat : String) (files : Dict GrantFile) (g : Grant) : Type 0 where
  pub gid : String
  pub file : GrantFile
  pub listed : Listed gid file files
  pub id_ok : is_grant_id gid ≡ true
  pub has_file : has_payload file.payload ≡ true
  pub read : read_published gid file ≡ ok g
  pub addressed : is_for platform chat g ≡ true

entry_grant-some :
    (gid : String) (f : GrantFile) (g : Grant)
    → entry_grant gid f ≡ ok (some g)
    → (is_grant_id gid ≡ true) × (has_payload f.payload ≡ true) × (read_published gid f ≡ ok g)
unfolding entry_grant
entry_grant-some gid f g h = elim (Result-cases (read_published gid f)) [
  | inl (g', e) ↦ ground (arith, e)
  | inr (x, e) ↦ absurd (ground (arith, e))
]

entry_grant-read :
    (gid : String) (f : GrantFile) (g : Grant)
    → is_grant_id gid ≡ true
    → has_payload f.payload ≡ true
    → read_published gid f ≡ ok g
    → entry_grant gid f ≡ ok (some g)
unfolding entry_grant
entry_grant-read gid f g i p r = rw (i, p, r)

module _ (platform chat : String) where
  weaken :
      {k : String} {e : GrantFile} {files : Dict GrantFile} {g : Grant}
      → IsPublished platform chat files g
      → IsPublished platform chat ((k, e) ∷ files) g
  weaken p = record {
    gid = p.gid;
    file = p.file;
    listed = inr p.listed;
    id_ok = p.id_ok;
    has_file = p.has_file;
    read = p.read;
    addressed = p.addressed;
  }

  find_grants-cons :
      (gid : String) (f : GrantFile) (files : Dict GrantFile) (found : List Grant)
      → find_grants platform chat ((gid, f) ∷ files) ≡ ok found
      → (entry : Option Grant) × (rest : List Grant) × (entry_grant gid f ≡ ok entry)
        × (find_grants platform chat files ≡ ok rest)
        × (found ≡ add_found platform chat entry rest)
  unfolding find_grants
  find_grants-cons gid f files found h =
      let (entry, a, h1) = >>=-eq-ok (entry_grant gid f) _ h in
      let (rest, b, h2) = >>=-eq-ok (find_grants platform chat files) _ h1 in
      (entry, rest, a, b, cc)

  -- what is found is published
  find_sound :
      (files : Dict GrantFile) (found : List Grant) (g : Grant)
      → find_grants platform chat files ≡ ok found
      → In g found
      → IsPublished platform chat files g
  find_sound [] found g h i = absurd (unfold find_grants in ground arith)
  find_sound ((gid, f) ∷ files) found g h i =
      let (entry, rest, a, b, e) = find_grants-cons gid f files found h in
      step entry rest a e (find_sound files rest g b) (subst (In g) e i)
    where
      step :
          (entry : Option Grant) (rest : List Grant)
          → entry_grant gid f ≡ ok entry
          → found ≡ add_found platform chat entry rest
          → (In g rest → IsPublished platform chat files g)
          → In g (add_found platform chat entry rest)
          → IsPublished platform chat ((gid, f) ∷ files) g
      step none rest a e ih i = weaken (ih i)
      step (some g') rest a e ih i = elim (Bool-cases (is_for platform chat g')) [
        | inl y ↦
            head g' rest a y ih
              (subst (In g) (ap (λ (b : Bool). if b then g' ∷ rest else rest) y) i)
        | inr n ↦ weaken (ih (subst (In g) (ap (λ (b : Bool). if b then g' ∷ rest else rest) n) i))
      ]
        where
          head :
              (g' : Grant) (rest : List Grant)
              → entry_grant gid f ≡ ok (some g')
              → is_for platform chat g' ≡ true
              → (In g rest → IsPublished platform chat files g)
              → In g (g' ∷ rest)
              → IsPublished platform chat ((gid, f) ∷ files) g
          head g' rest a y ih (inl e) =
              let (i, p, r) = entry_grant-some gid f g' a in
              record {
                gid = gid;
                file = f;
                listed = inl (refl, refl);
                id_ok = i;
                has_file = p;
                read = r ∙ ap ok e;
                addressed = subst (λ (x : Grant). is_for platform chat x ≡ true) e y;
              }
          head g' rest a y ih (inr i) = weaken (ih i)

  In-add_found :
      (entry : Option Grant) (rest : List Grant) (g : Grant)
      → In g rest
      → In g (add_found platform chat entry rest)
  In-add_found none rest g i = i
  In-add_found (some g') rest g i = elim (Bool-cases (is_for platform chat g')) [
    | inl y ↦ subst (In g) (ap (λ (b : Bool). if b then g' ∷ rest else rest) (sym y)) (inr i)
    | inr n ↦ subst (In g) (ap (λ (b : Bool). if b then g' ∷ rest else rest) (sym n)) i
  ]

  -- what is published is found
  find_complete :
      (files : Dict GrantFile) (found : List Grant) (g : Grant) (gid : String) (f : GrantFile)
      → find_grants platform chat files ≡ ok found
      → Listed gid f files
      → entry_grant gid f ≡ ok (some g)
      → is_for platform chat g ≡ true
      → In g found
  find_complete [] found g gid f h l r y = elim l [ ]
  find_complete ((k, e) ∷ files) found g gid f h (inl (same_id, same)) r y =
      let (entry, rest, a, b, x) = find_grants-cons k e files found h in
      let here : entry ≡ some g = cc (a, r, same_id, same) in
      subst (In g) (sym (x ∙ ap (λ (o : Option Grant). add_found platform chat o rest) here))
        (subst (In g) (ap (λ (b : Bool). if b then g ∷ rest else rest) (sym y)) (inl refl))
  find_complete ((k, e) ∷ files) found g gid f h (inr l) r y =
      let (entry, rest, a, b, x) = find_grants-cons k e files found h in
      subst (In g) (sym x) (In-add_found entry rest g (find_complete files rest g gid f b l r y))

In-filter :
    (g : Grant) (l : List Grant) → In g l → is_enabled g ≡ true → In g (filter_by is_enabled l)
In-filter g [] i h = elim i [ ]
In-filter g (x ∷ l) (inl e) h =
    subst
      (λ (y : Grant).
        In g (if is_enabled y then y ∷ filter_by is_enabled l else filter_by is_enabled l))
      (sym e)
      (subst (λ (b : Bool). In g (if b then g ∷ filter_by is_enabled l else filter_by is_enabled l))
        (sym h) (inl refl))
In-filter g (x ∷ l) (inr i) h = elim (Bool-cases (is_enabled x)) [
  | inl y ↦
      subst (λ (b : Bool). In g (if b then x ∷ filter_by is_enabled l else filter_by is_enabled l))
        (sym y) (inr (In-filter g l i h))
  | inr n ↦
      subst (λ (b : Bool). In g (if b then x ∷ filter_by is_enabled l else filter_by is_enabled l))
        (sym n) (In-filter g l i h)
]

filter-In :
    (g : Grant) (l : List Grant) → In g (filter_by is_enabled l) → In g l × (is_enabled g ≡ true)
filter-In g [] i = elim i [ ]
filter-In g (x ∷ l) i = elim (Bool-cases (is_enabled x)) [
  | inl y ↦
      pick x y
        (subst
          (λ (b : Bool). In g (if b then x ∷ filter_by is_enabled l else filter_by is_enabled l)) y
          i)
        (filter-In g l)
  | inr n ↦
      let (a, b) = filter-In g l (
        subst
          (λ (b : Bool). In g (if b then x ∷ filter_by is_enabled l else filter_by is_enabled l)) n
          i) in
      (inr a, b)
]
  where
    pick :
        (x : Grant)
        → is_enabled x ≡ true
        → In g (x ∷ filter_by is_enabled l)
        → (In g (filter_by is_enabled l) → In g l × (is_enabled g ≡ true))
        → In g (x ∷ l) × (is_enabled g ≡ true)
    pick x y (inl e) ih = (inl e, ap is_enabled (sym e) ∙ y)
    pick x y (inr j) ih = let (a, b) = ih j in (inr a, b)

choose-only :
    (found enabled : List Grant) (g : Grant) → choose found enabled ≡ ok g → enabled ≡ g ∷ []
unfolding choose
choose-only [] enabled g h = absurd (ground arith)
choose-only (x ∷ found) [] g h = absurd (ground arith)
choose-only (x ∷ found) (e ∷ []) g h = ground arith
choose-only (x ∷ found) (e ∷ e' ∷ enabled) g h = absurd (ground arith)

In-single : (g x : Grant) → In x (g ∷ []) → x ≡ g
In-single g x (inl e) = sym e
In-single g x (inr i) = elim i [ ]

-- What require_granted returns is published in the directory for this platform and chat, passes
-- every test of `validate` at that time, and is the only enabled grant published there for them.
pub require_granted_lem :
    (digest : Text → String) (of_text : String → Option Float) (now : ℤ) (dir : GrantsDir)
    (platform chat : String) (g : Grant)
    → require_granted digest of_text now dir platform chat ≡ ok g
    → (files : Dict GrantFile) × (dir ≡ ok files)
      × IsPublished platform chat files g
      × IsValid digest of_text now g
      × ((other : Grant)
          → IsPublished platform chat files other
          → is_enabled other ≡ true
          → other ≡ g)
unfolding require_granted
require_granted_lem digest of_text now dir platform chat g h =
    let (files, a, h1) = >>=-eq-ok dir _ h in
    let (found, b, h2) = >>=-eq-ok (find_grants platform chat files) _ h1 in
    let (g', c, h3) = >>=-eq-ok (choose found (filter_by is_enabled found)) _ h2 in
    let (u, d, h4) = >>=-eq-ok (validate digest of_text now g') _ h3 in
    let same : g' ≡ g = cc (h4) in
    let only : filter_by is_enabled found ≡ g ∷ [] = choose-only found _ g (c ∙ ap ok same) in
    let (i, on) = filter-In g found (subst (In g) (sym only) (inl refl)) in
    (
      files,
      a,
      find_sound platform chat files found g b i,
      (validate_iff digest of_text now g).0
          (subst (λ (x : Grant). validate digest of_text now x ≡ ok tt) same d),
      λ other p y. In-single g other (
          subst (In other) only (
            In-filter other found
              (find_complete platform chat files found other p.gid p.file b p.listed
                (entry_grant-read p.gid p.file other p.id_ok p.has_file p.read) p.addressed)
              y)),
    )
