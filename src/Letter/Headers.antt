-- ===== src/Letter/Headers.antt =====
-- The header of a letter: its order keeps every field, and its lines are read back.
use agent_letter_bridge.Prelude.{
  ℕ, ◌≡◌, refl, ap, ◌∙◌, subst, Bool, true, false, not, ◌&&◌, Option, none, some, List, [], ◌∷◌,
  ◌++◌, append_assoc, eqb, if◌then◌else◌, arith, inl, inr, Bool-cases, Option-cases, any_of,
}
use agent_letter_bridge.Prelude.Text.{
  Text, codes, eq_text, eq_text→eq, lacks, lacks-append, lacks_of_class, one_line, is_break,
  all_chars-append, partition-append, splitlines, splitlines-line, strip, strip_blank,
}
use agent_letter_bridge.Prelude.TextDict
use agent_letter_bridge.Prelude.TextDict.{
  TextDict, Distinct, AllEntries, AllEntries-get, AllEntries-append, Distinct-append, get-append,
  get-update, eq_text_sym,
}
use agent_letter_bridge.Letter.{
  Meta, add_field, envelope_order, pick, others, ordered, header_line, header_lines, read_header,
  read_headers,
}
use agent_letter_bridge.Letter.Format.{ends_dashes, IsFree, IsFree-line, IsFree-append}

-- A field that the format can carry: neither text holds a line break or blanks at its ends, the key
-- holds no colon, and the value does not end with three dashes.
pub record IsPlain (key value : Text) : Type 0 where
  pub key_line : one_line key ≡ true
  pub key_colon : lacks b':' key ≡ true
  pub key_strip : strip key ≡ key
  pub value_line : one_line value ≡ true
  pub value_strip : strip value ≡ value
  pub value_end : ends_dashes value ≡ false

abbrev pub AllPlain : Meta → Type 0
AllPlain = AllEntries IsPlain

abbrev in_keys : Text → List Text → Bool
in_keys j ks = any_of (λ (k : Text). eq_text k j) ks

get-pick :
    (j : Text) (ks : List Text) (meta : Meta)
    → TextDict.get j (pick ks meta) ≡ (if in_keys j ks then TextDict.get j meta else none)
unfolding pick TextDict.get
get-pick j [] meta = refl
get-pick j (k ∷ ks) meta = elim (Bool-cases (eq_text k j)) [
  | inl e ↦
      ground (arith, e, get-pick j ks meta, eq_text→eq k j e, Option-cases (TextDict.get k meta))
  | inr e ↦ ground (arith, e, get-pick j ks meta, Option-cases (TextDict.get k meta))
]

get-others :
    (j : Text) (out meta : Meta)
    → TextDict.get j (others out meta) ≡ (if TextDict.has j out then none else TextDict.get j meta)
unfolding others TextDict.get
get-others j out [] = ground arith
get-others j out ((k, v) ∷ meta) = elim (Bool-cases (eq_text k j)) [
  | inl e ↦
      ground
        (arith, e, get-others j out meta, ap (λ (x : Text). TextDict.has x out) (eq_text→eq k j e))
  | inr e ↦ ground (arith, e, get-others j out meta)
]

-- The order changes where a field stands, and no field.
pub get-ordered : (j : Text) (meta : Meta) → TextDict.get j (ordered meta) ≡ TextDict.get j meta
unfolding ordered TextDict.has
get-ordered j meta = ground (
  arith,
  get-append j (pick envelope_order meta) (others (pick envelope_order meta) meta),
  get-pick j envelope_order meta,
  get-others j (pick envelope_order meta) meta,
  Option-cases (TextDict.get j meta),
)

abbrev DistinctKeys : List Text → Type 0
DistinctKeys [] = Unit
DistinctKeys (k ∷ ks) = (in_keys k ks ≡ false) × DistinctKeys ks

Distinct-pick : (ks : List Text) (meta : Meta) → DistinctKeys ks → Distinct (pick ks meta)
unfolding pick
Distinct-pick [] meta d = tt
Distinct-pick (k ∷ ks) meta d =
    ground
      (arith, get-pick k ks meta, Distinct-pick ks meta d.1, Option-cases (TextDict.get k meta))

Distinct-others : (out meta : Meta) → Distinct meta → Distinct (others out meta)
unfolding others
Distinct-others out [] d = tt
Distinct-others out ((k, v) ∷ meta) d =
    ground (arith, get-others k out meta, Distinct-others out meta d.1)

pub Distinct-ordered : (meta : Meta) → Distinct meta → Distinct (ordered meta)
unfolding ordered eq_text
Distinct-ordered meta d =
    Distinct-append (pick envelope_order meta) (others (pick envelope_order meta) meta)
      (Distinct-pick envelope_order meta
        (refl, (refl, (refl, (refl, (refl, (refl, (refl, (refl, (refl, tt))))))))))
      (Distinct-others (pick envelope_order meta) meta d)
      (λ k h. ground (arith, h, get-others k (pick envelope_order meta) meta))

AllPlain-add_field :
    (k : Text) (o : Option Text) (rest meta : Meta)
    → TextDict.get k meta ≡ o
    → AllPlain meta
    → AllPlain rest
    → AllPlain (add_field k o rest)
AllPlain-add_field k none rest meta e a r = r
AllPlain-add_field k (some v) rest meta e a r = (AllEntries-get IsPlain k v meta a e, r)

AllPlain-pick : (ks : List Text) (meta : Meta) → AllPlain meta → AllPlain (pick ks meta)
unfolding pick
AllPlain-pick [] meta a = tt
AllPlain-pick (k ∷ ks) meta a =
    AllPlain-add_field k (TextDict.get k meta) (pick ks meta) meta refl a (AllPlain-pick ks meta a)

AllPlain-others : (out meta : Meta) → AllPlain meta → AllPlain (others out meta)
unfolding others
AllPlain-others out [] a = tt
AllPlain-others out ((k, v) ∷ meta) a = elim (Bool-cases (TextDict.has k out)) [
  | inl e ↦ rw e (AllPlain-others out meta a.1)
  | inr e ↦ rw e (a.0, AllPlain-others out meta a.1)
]

pub AllPlain-ordered : (meta : Meta) → AllPlain meta → AllPlain (ordered meta)
unfolding ordered
AllPlain-ordered meta a =
    AllEntries-append IsPlain (pick envelope_order meta) (others (pick envelope_order meta) meta)
      (AllPlain-pick envelope_order meta a) (AllPlain-others (pick envelope_order meta) meta a)

header_line-one_line : (k v : Text) → IsPlain k v → one_line (header_line k v) ≡ true
unfolding header_line is_break
header_line-one_line k [] p =
    ground (arith, p.key_line, all_chars-append (λ c. not (is_break c)) k (b':' ∷ []))
header_line-one_line k (c ∷ v) p = ground (
  arith,
  p.key_line,
  p.value_line,
  all_chars-append (λ c. not (is_break c)) k (b':' ∷ b' ' ∷ c ∷ v),
)

newline_free : (t : Text) → one_line t ≡ true → lacks 10 t ≡ true
newline_free t h = lacks_of_class (λ c. not (is_break c)) 10 t (unfold is_break in refl) h

eq_text-blank :
    (c : ℕ) (p v : Text) → eqb c b'-' ≡ false → eq_text (p ++ c ∷ v) (codes "---") ≡ false
unfolding eq_text
eq_text-blank c [] v h = ground (arith, h)
eq_text-blank c (a ∷ []) v h = ground (arith, h)
eq_text-blank c (a ∷ b ∷ []) v h = ground (arith, h)
eq_text-blank c (a ∷ b ∷ d ∷ p) v h = go p
  where
    go :
        (p : Text) → (eqb a b'-' && (eqb b b'-' && (eqb d b'-' && eq_text (p ++ c ∷ v) []))) ≡ false
    go [] = ground arith
    go (x ∷ p) = ground arith

ends_dashes-append :
    (c : ℕ) (p v : Text) → eqb c b'-' ≡ false → ends_dashes (p ++ c ∷ v) ≡ ends_dashes v
unfolding ends_dashes
ends_dashes-append c [] v h = ground (arith, eq_text-blank c [] v h)
ends_dashes-append c (a ∷ p) v h =
    ground (arith, eq_text-blank c (a ∷ p) v h, ends_dashes-append c p v h)

header_line-end : (k v : Text) → IsPlain k v → ends_dashes (header_line k v) ≡ false
unfolding header_line ends_dashes
header_line-end k [] p = ends_dashes-append b':' k [] refl
header_line-end k (c ∷ v) p =
    ends_dashes-append b':' k (b' ' ∷ c ∷ v) refl
    ∙ (ends_dashes-append b' ' [] (c ∷ v) refl ∙ p.value_end)

-- No fence begins in the header.
pub header_lines-IsFree :
    (meta : Meta) (rest : Text) → AllPlain meta → IsFree (header_lines meta) rest
unfolding header_lines
header_lines-IsFree [] rest a = tt
header_lines-IsFree ((k, v) ∷ meta) rest a =
    subst (λ (t : Text). IsFree t rest)
      (append_assoc (header_line k v) (10 ∷ []) (header_lines meta))
      (IsFree-append (header_line k v ++ 10 ∷ []) (header_lines meta) rest
        (IsFree-line (header_line k v) _
          (newline_free (header_line k v) (header_line-one_line k v a.0)) (header_line-end k v a.0))
        (header_lines-IsFree meta rest a.1))

pub header_lines-no_cr : (meta : Meta) → AllPlain meta → lacks 13 (header_lines meta) ≡ true
unfolding header_lines
header_lines-no_cr [] a = refl
header_lines-no_cr ((k, v) ∷ meta) a =
    lacks-append 13 (header_line k v) (10 ∷ header_lines meta)
      (lacks_of_class (λ c. not (is_break c)) 13 (header_line k v) (unfold is_break in refl)
        (header_line-one_line k v a.0))
      (header_lines-no_cr meta a.1)

read_header-line :
    (k v : Text) (meta : Meta)
    → IsPlain k v
    → read_header (header_line k v) meta ≡ TextDict.put k v meta
unfolding read_header header_line
read_header-line k [] meta p =
    rw (partition-append b':' k [] p.key_colon) (rw p.key_strip (unfold strip in refl))
read_header-line k (c ∷ v) meta p =
    rw (partition-append b':' k (b' ' ∷ c ∷ v) p.key_colon)
      (rw p.key_strip (rw (strip_blank (c ∷ v)) (rw p.value_strip refl)))

-- The lines of the header put its fields into the dict, in order.
pub read_headers-lines :
    (meta acc : Meta)
    → AllPlain meta
    → read_headers (splitlines (header_lines meta)) acc ≡ TextDict.update acc meta
unfolding header_lines read_headers
read_headers-lines [] acc a = unfold splitlines in refl
read_headers-lines ((k, v) ∷ meta) acc a =
    ap (λ (ls : List Text). read_headers ls acc)
      (splitlines-line (header_line k v) (header_lines meta) (header_line-one_line k v a.0))
    ∙ (ap (λ (m : Meta). read_headers (splitlines (header_lines meta)) m)
          (read_header-line k v acc a.0)
        ∙ read_headers-lines meta (TextDict.put k v acc) a.1)
