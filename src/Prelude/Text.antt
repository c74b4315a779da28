-- ===== src/Prelude/Text.antt =====
-- Text that the program walks: a list of code points, with the Python operations that it uses.
use Prim.Native.Nat.{ℕ, ◌+◌}
use Prim.Native.Char.{code}
use text.Mathlib.TextEquality.{Char-path}
use Prim.Native.String.{String}
use mathlib.Core.Path.{◌≡◌, refl, ap, ap₂, sym, ◌∙◌}
use mathlib.Core.Logic.{inl, inr, ◌≢◌}
use mathlib.Core.Bool.{Bool, true, false, false≢true, not, ◌&&◌, ◌||◌}
use mathlib.Core.List.{List, [], ◌∷◌, ◌++◌, append-nil, append_assoc}
use native.Mathlib.Omega.{arith}
use agent_letter_bridge.Prelude.Tests.{eqb, leb, eqb→eq, Bool-cases, if◌then◌else◌}

abbrev pub Text : Type 0
Text = List ℕ

abbrev pub codes : String → Text
codes String.[] = []
codes (String.◌∷◌ c s) = code c ∷ codes s

unfoldable pub eq_text : Text → Text → Bool
eq_text [] [] = true
eq_text (a ∷ s) (b ∷ t) = eqb a b && eq_text s t
eq_text _ _ = false

pub eq_text_refl : (s : Text) → eq_text s s ≡ true
unfolding eq_text
eq_text_refl [] = refl
eq_text_refl (a ∷ s) = ground (arith, eq_text_refl s)

pub eq_text→eq : (s t : Text) → eq_text s t ≡ true → s ≡ t
unfolding eq_text
eq_text→eq [] [] h = refl
eq_text→eq [] (b ∷ t) h = ground arith
eq_text→eq (a ∷ s) [] h = ground arith
eq_text→eq (a ∷ s) (b ∷ t) h = ground (arith, eq_text→eq s t)

-- t.startswith(p)
unfoldable pub starts_with : Text → Text → Bool
starts_with [] t = true
starts_with (a ∷ p) [] = false
starts_with (a ∷ p) (b ∷ t) = eqb a b && starts_with p t

pub starts_with-append : (p t : Text) → starts_with p (p ++ t) ≡ true
unfolding starts_with
starts_with-append [] t = refl
starts_with-append (a ∷ p) t = ground (arith, starts_with-append p t)

-- t.count(c) for one character
unfoldable pub count_char : ℕ → Text → ℕ
count_char c [] = 0
count_char c (d ∷ t) = (if eqb d c then 1 else 0) + count_char c t

abbrev pub all_chars : (ℕ → Bool) → Text → Bool
all_chars p [] = true
all_chars p (c ∷ t) = p c && all_chars p t

pub all_chars-head : (p : ℕ → Bool) (c : ℕ) (t : Text) → all_chars p (c ∷ t) ≡ true → p c ≡ true
all_chars-head p c t h = ground arith

pub all_chars-tail :
    (p : ℕ → Bool) (c : ℕ) (t : Text) → all_chars p (c ∷ t) ≡ true → all_chars p t ≡ true
all_chars-tail p c t h = ground arith

pub and-left : (a b : Bool) → (a && b) ≡ true → a ≡ true
and-left a b h = ground arith

pub all_chars_mono :
    (p q : ℕ → Bool)
    → ((c : ℕ) → p c ≡ true → q c ≡ true)
    → (t : Text) → all_chars p t ≡ true
    → all_chars q t ≡ true
all_chars_mono p q f [] h = refl
all_chars_mono p q f (c ∷ t) h = ground (arith, f c, all_chars_mono p q f t)

-- The character does not stand in the text.
abbrev pub lacks : ℕ → Text → Bool
lacks c [] = true
lacks c (d ∷ t) = elim (eqb d c) [ true ↦ false | false ↦ lacks c t ]

abbrev pub on_head : (Text → Text) → List Text → List Text
on_head f [] = f [] ∷ []
on_head f (p ∷ ps) = f p ∷ ps

-- t.split(c) for one character
unfoldable pub split_on : ℕ → Text → List Text
split_on c [] = [] ∷ []
split_on c (d ∷ t) =
    let rest = split_on c t in if eqb d c then [] ∷ rest else on_head (λ p. d ∷ p) rest

-- c.join(parts)
unfoldable pub join_on : ℕ → List Text → Text
join_on c [] = []
join_on c (p ∷ []) = p
join_on c (p ∷ q ∷ ps) = p ++ c ∷ join_on c (q ∷ ps)

split_on-ne-nil : (c : ℕ) (t : Text) → split_on c t ≢ []
unfolding split_on
split_on-ne-nil c [] h = ground arith
split_on-ne-nil c (d ∷ t) h = ground (arith, split_on-ne-nil c t)

join_on-head :
    (c d : ℕ) (ps : List Text) → ps ≢ [] → join_on c (on_head (λ p. d ∷ p) ps) ≡ d ∷ join_on c ps
unfolding join_on
join_on-head c d [] h = absurd (h refl)
join_on-head c d (p ∷ []) h = refl
join_on-head c d (p ∷ q ∷ ps) h = refl

join_on-nil : (c : ℕ) (ps : List Text) → ps ≢ [] → join_on c ([] ∷ ps) ≡ c ∷ join_on c ps
unfolding join_on
join_on-nil c [] h = absurd (h refl)
join_on-nil c (p ∷ ps) h = refl

pub join_on-split_on : (c : ℕ) (t : Text) → join_on c (split_on c t) ≡ t
unfolding split_on
join_on-split_on c [] = unfold join_on in refl
join_on-split_on c (d ∷ t) = ground (
  arith,
  join_on-split_on c t,
  join_on-nil c (split_on c t) (split_on-ne-nil c t),
  join_on-head c d (split_on c t) (split_on-ne-nil c t),
)

pub split_on-lacks : (c : ℕ) (p : Text) → lacks c p ≡ true → split_on c p ≡ p ∷ []
unfolding split_on
split_on-lacks c [] h = refl
split_on-lacks c (d ∷ p) h = ground (arith, split_on-lacks c p)

pub split_on-append :
    (c : ℕ) (p t : Text) → lacks c p ≡ true → split_on c (p ++ c ∷ t) ≡ p ∷ split_on c t
unfolding split_on
split_on-append c [] t h = ground arith
split_on-append c (d ∷ p) t h = ground (arith, split_on-append c p t)

-- t.partition(c): the text before the first separator, whether there is one, and what follows
unfoldable pub partition : ℕ → Text → Text × Bool × Text
partition c [] = ([], false, [])
partition c (d ∷ t) =
    let (head, sep, rest) = partition c t in
    if eqb d c then ([], true, t) else (d ∷ head, sep, rest)

pub partition-append :
    (c : ℕ) (p t : Text) → lacks c p ≡ true → partition c (p ++ c ∷ t) ≡ (p, true, t)
unfolding partition
partition-append c [] t h = ground arith
partition-append c (d ∷ p) t h = ground (arith, partition-append c p t)

-- What `partition` returns determines the text.
pub partition_sound :
    (c : ℕ) (t : Text)
    → let (head, sep, rest) = partition c t in
      (lacks c head ≡ true) × (t ≡ (if sep then head ++ c ∷ rest else head))
unfolding partition
partition_sound c [] = (refl, refl)
partition_sound c (d ∷ t) = ground (arith, partition_sound c t)

-- t.splitlines(): the line breaks of `str`; "\r\n" is one break, and no empty line stands at the end
unfoldable pub is_break : ℕ → Bool
is_break c =
    (eqb c 10 || eqb c 13)
    || ((eqb c 11 || eqb c 12)
        || ((eqb c 0x1c || eqb c 0x1d)
            || ((eqb c 0x1e || eqb c 0x85) || (eqb c 0x2028 || eqb c 0x2029))))

abbrev flush : Bool → Text → List Text
flush true acc = acc ∷ []
flush false acc = []

-- `cr` tells that the break just passed was "\r", `open` that the line has begun
lines_from : Bool → Bool → Text → Text → List Text
unfolding is_break
lines_from cr open_line acc [] = flush open_line acc
lines_from cr open_line acc (c ∷ t) = elim (cr && eqb c 10) [
  | true ↦ lines_from false false [] t
  | false ↦ elim (is_break c) [
    | true ↦ acc ∷ lines_from (eqb c 13) false [] t
    | false ↦ lines_from false true (acc ++ c ∷ []) t
  ]
]

unfoldable pub splitlines : Text → List Text
unfolding lines_from
splitlines t = lines_from false false [] t

-- no line break stands in the text
abbrev pub one_line : Text → Bool
one_line t = all_chars (λ c. not (is_break c)) t

lines_from-one_line :
    (open_line : Bool) (acc t : Text)
    → one_line t ≡ true
    → lines_from false open_line acc t ≡ flush (open_line || not (eq_text t [])) (acc ++ t)
unfolding lines_from eq_text
lines_from-one_line open_line acc [] h = ground (arith, append-nil acc)
lines_from-one_line open_line acc (c ∷ t) h =
    ground (arith, lines_from-one_line true (acc ++ c ∷ []) t, append_assoc acc (c ∷ []) t)

-- A text that holds no line break is its own only line.
pub splitlines-one_line :
    (c : ℕ) (t : Text) → one_line (c ∷ t) ≡ true → splitlines (c ∷ t) ≡ (c ∷ t) ∷ []
unfolding splitlines eq_text
splitlines-one_line c t h = lines_from-one_line false [] (c ∷ t) h

lines_from-break :
    (open_line : Bool) (acc l t : Text)
    → one_line l ≡ true
    → lines_from false open_line acc (l ++ 10 ∷ t) ≡ (acc ++ l) ∷ splitlines t
unfolding lines_from splitlines
lines_from-break open_line acc [] t h = rw append-nil refl
lines_from-break open_line acc (c ∷ l) t h =
    ground (arith, lines_from-break true (acc ++ c ∷ []) l t, append_assoc acc (c ∷ []) l)

-- A line in front of a text is its first line.
pub splitlines-line : (l t : Text) → one_line l ≡ true → splitlines (l ++ 10 ∷ t) ≡ l ∷ splitlines t
splitlines-line l t h = unfold splitlines in lines_from-break false [] l t h

splitlines_test : splitlines (codes "a\r\nb\n\nc\n") ≡ codes "a" ∷ codes "b" ∷ [] ∷ codes "c" ∷ []
unfolding splitlines
splitlines_test = refl

pub lacks_of_class :
    (p : ℕ → Bool) (c : ℕ) (t : Text) → p c ≡ false → all_chars p t ≡ true → lacks c t ≡ true
lacks_of_class p c [] h a = refl
lacks_of_class p c (d ∷ t) h a = elim (Bool-cases (eqb d c)) [
  | inl e ↦ absurd (false≢true (sym h ∙ (ap p (sym (eqb→eq d c e)) ∙ all_chars-head p d t a)))
  | inr e ↦ rw (e, lacks) (lacks_of_class p c t h (all_chars-tail p d t a))
]

pub count_char-lacks : (c : ℕ) (t : Text) → lacks c t ≡ true → count_char c t ≡ 0
unfolding count_char
count_char-lacks c [] h = refl
count_char-lacks c (d ∷ t) h = ground (arith, count_char-lacks c t)

pub lacks-count_char : (c : ℕ) (t : Text) → count_char c t ≡ 0 → lacks c t ≡ true
unfolding count_char
lacks-count_char c [] h = refl
lacks-count_char c (d ∷ t) h = ground (arith, lacks-count_char c t)

pub count_char-append :
    (c : ℕ) (s t : Text) → count_char c (s ++ t) ≡ count_char c s + count_char c t
unfolding count_char
count_char-append c [] t = omega arith
count_char-append c (d ∷ s) t = ground (arith, count_char-append c s t)

pub partition-found : (c : ℕ) (t : Text) → count_char c t ≡ 1 → (partition c t).1 ≡ true
unfolding partition count_char
partition-found c [] h = ground arith
partition-found c (d ∷ t) h = ground (arith, partition-found c t)

pub lacks-append :
    (c : ℕ) (s t : Text) → lacks c s ≡ true → lacks c t ≡ true → lacks c (s ++ t) ≡ true
lacks-append c [] t hs ht = ht
lacks-append c (d ∷ s) t hs ht = ground (arith, lacks-append c s t)

pub all_chars-append :
    (p : ℕ → Bool) (s t : Text) → all_chars p (s ++ t) ≡ (all_chars p s && all_chars p t)
all_chars-append p [] t = refl
all_chars-append p (c ∷ s) t = ground (arith, all_chars-append p s t)

-- str.isspace, for the blanks of Unicode
unfoldable pub is_space : ℕ → Bool
is_space c =
    (((leb 9 c && leb c 13) || (leb 28 c && leb c 32)) || (eqb c 0x85 || eqb c 0xa0))
    || (((eqb c 0x1680 || (leb 0x2000 c && leb c 0x200a)) || (eqb c 0x2028 || eqb c 0x2029))
        || (eqb c 0x202f || (eqb c 0x205f || eqb c 0x3000)))

abbrev pub rstrip_by : (ℕ → Bool) → Text → Text
rstrip_by p [] = []
rstrip_by p (c ∷ t) = let rest = rstrip_by p t in if eq_text rest [] && p c then [] else c ∷ rest

abbrev pub lstrip_by : (ℕ → Bool) → Text → Text
lstrip_by p [] = []
lstrip_by p (c ∷ t) = let rest = lstrip_by p t in if p c then rest else c ∷ t

-- t.strip()
unfoldable pub strip : Text → Text
unfolding eq_text is_space
strip t = lstrip_by is_space (rstrip_by is_space t)

abbrev pub any_space : (ℕ → Bool) → Text → Bool
any_space p [] = false
any_space p (c ∷ t) = p c || any_space p t

rstrip_by-keeps : (p : ℕ → Bool) (t : Text) → any_space p t ≡ false → rstrip_by p t ≡ t
unfolding eq_text
rstrip_by-keeps p [] h = refl
rstrip_by-keeps p (c ∷ t) h = ground (arith, rstrip_by-keeps p t)

lstrip_by-keeps : (p : ℕ → Bool) (t : Text) → any_space p t ≡ false → lstrip_by p t ≡ t
lstrip_by-keeps p [] h = refl
lstrip_by-keeps p (c ∷ t) h = ground arith

-- A text without blanks is its own strip.
pub strip_plain : (t : Text) → any_space is_space t ≡ false → strip t ≡ t
strip_plain t h =
    unfold strip in
    ap (lstrip_by is_space) (rstrip_by-keeps is_space t h) ∙ lstrip_by-keeps is_space t h

pub strip_blank : (t : Text) → strip (32 ∷ t) ≡ strip t
unfolding strip is_space eq_text
strip_blank t = go (rstrip_by is_space t)
  where
    go :
        (r : Text)
        → lstrip_by is_space (if eq_text r [] && is_space 32 then [] else 32 ∷ r)
          ≡ lstrip_by is_space r
    go [] = refl
    go (c ∷ r) = refl

pub codes-injective : (s t : String) → codes s ≡ codes t → s ≡ t
codes-injective String.[] String.[] e = refl
codes-injective String.[] (String.◌∷◌ d t) e = absurd (cc (e))
codes-injective (String.◌∷◌ c s) String.[] e = absurd (cc (e))
codes-injective (String.◌∷◌ c s) (String.◌∷◌ d t) e =
    let heads : code c ≡ code d = cc (e) in
    let tails : codes s ≡ codes t = cc (e) in
    ap₂ (λ h r. String.◌∷◌ h r) (Char-path c d heads) (codes-injective s t tails)
