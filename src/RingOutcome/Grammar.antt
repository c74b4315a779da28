-- ===== src/RingOutcome/Grammar.antt =====
-- The contract line: what `parse_line` accepts is what the four fields print, and what they print is
-- accepted.
use agent_letter_bridge.Prelude.{
  ℕ, String, ◌≡◌, refl, sym, ap, ◌∙◌, Bool, true, false, not, ◌&&◌, none, List, [], ◌∷◌, ◌++◌,
  arith, eqb, eqb→eq, if◌then◌else◌, ◌≢◌,
}
use agent_letter_bridge.Prelude.Text.{
  Text, codes, eq_text, eq_text→eq, eq_text_refl, starts_with, count_char, all_chars,
  all_chars_mono, and-left, lacks, lacks_of_class, lacks-append, count_char-lacks,
  count_char-append, split_on, split_on-append, split_on-lacks, join_on, join_on-split_on,
  partition, partition-append, partition-found, partition_sound,
}
use agent_letter_bridge.RingOutcome.{
  Classification, good, parse_line, parse_parts, parse_fields, value_error, cross_check, prefix,
  key_of, value_of, has_one_equals, is_value, is_value_char, matches_class,
}

-- One `key=value`.
abbrev pub pair : String → Text → Text
pair key value = codes key ++ b'=' ∷ value

-- The line that the helper writes.
pub render : Text → Text → Text → Text
unfolding join_on
render o reason target = join_on b' ' (
    codes "doorbell-outcome"
    ∷ pair "v" (codes "1")
    ∷ pair "outcome" o
    ∷ pair "reason" reason
    ∷ pair "target" target
    ∷ [])

pair_sound :
    (key : String) (part : Text)
    → has_one_equals part ≡ true
    → eq_text (key_of part) (codes key) ≡ true
    → part ≡ pair key (value_of part)
pair_sound key part one k =
    let sep : (partition b'=' part).1 ≡ true = partition-found b'=' part (eqb→eq _ _ one) in
    let whole : part
        ≡ (if (partition b'=' part).1 then key_of part ++ b'=' ∷ value_of part else key_of part) =
      (partition_sound b'=' part).1 in
    let name : key_of part ≡ codes key = eq_text→eq _ _ k in whole ∙ cc (sep, name)

abbrev Equal : Text → String → Type 0
Equal t s = eq_text t (codes s) ≡ true

-- what the tests of `parse_fields` leave
parse_fields_tests :
    (a b c d : Text) (r : Classification)
    → parse_fields a b c d ≡ good r
    → (has_one_equals a ≡ true)
      × (has_one_equals b ≡ true)
      × (has_one_equals c ≡ true)
      × (has_one_equals d ≡ true)
      × Equal (key_of a) "v"
      × Equal (key_of b) "outcome"
      × Equal (key_of c) "reason"
      × Equal (key_of d) "target"
      × Equal (value_of a) "1"
      × (cross_check (value_of b) (value_of c) (value_of d) ≡ good r)
unfolding parse_fields
parse_fields_tests a b c d r h = ground arith

parse_fields_sound :
    (a b c d : Text) (r : Classification)
    → parse_fields a b c d ≡ good r
    → (a ≡ pair "v" (codes "1"))
      × (b ≡ pair "outcome" (value_of b))
      × (c ≡ pair "reason" (value_of c))
      × (d ≡ pair "target" (value_of d))
      × (cross_check (value_of b) (value_of c) (value_of d) ≡ good r)
parse_fields_sound a b c d r h =
    let (oa, ob, oc, od, ka, kb, kc, kd, va, x) = parse_fields_tests a b c d r h in
    (
      pair_sound "v" a oa ka ∙ ap (pair "v") (eq_text→eq _ _ va),
      pair_sound "outcome" b ob kb,
      pair_sound "reason" c oc kc,
      pair_sound "target" d od kd,
      x,
    )

parse_parts_sound :
    (parts : List Text) (r : Classification)
    → parse_parts parts ≡ good r
    → (o : Text) × (reason : Text) × (target : Text) × (join_on b' ' parts ≡ render o reason target)
      × (cross_check o reason target ≡ good r)
unfolding parse_parts render join_on
parse_parts_sound (head ∷ a ∷ b ∷ c ∷ d ∷ []) r h =
    let h' : eq_text head (codes "doorbell-outcome") ≡ true = ground arith in
    let (pa, pb, pc, pd, x) = parse_fields_sound a b c d r (ground arith) in
    (
      value_of b,
      value_of c,
      value_of d,
      λ i. join_on b' ' (eq_text→eq head _ h' i ∷ pa i ∷ pb i ∷ pc i ∷ pd i ∷ []),
      x,
    )
parse_parts_sound _ r h = absurd (ground arith)

-- A line that is accepted is the print of some outcome, reason and target, which pass the cross
-- checks with the result that is returned.
pub parse_line_sound :
    (line : Text) (r : Classification)
    → parse_line line ≡ good r
    → (o : Text) × (reason : Text) × (target : Text) × (line ≡ render o reason target)
      × (cross_check o reason target ≡ good r)
unfolding parse_line
parse_line_sound line r h =
    let (o, reason, target, e, x) = parse_parts_sound (split_on b' ' line) r (ground arith) in
    (o, reason, target, sym (join_on-split_on b' ' line) ∙ e, x)

-- A value of the letters, digits and `._:+-`, with at least one of them.
abbrev pub is_plain_char : ℕ → Bool
is_plain_char c = is_value_char c && not (eqb c b'%')

abbrev pub IsPlain : Text → Type 0
IsPlain v = (all_chars is_plain_char v ≡ true) × (v ≢ [])

matches_class-all_chars :
    (p : ℕ → Bool) (v : Text) → all_chars p v ≡ true → v ≢ [] → matches_class p v ≡ true
unfolding matches_class
matches_class-all_chars p [] a n = absurd (n refl)
matches_class-all_chars p (c ∷ []) a n = ground arith
matches_class-all_chars p (c ∷ d ∷ []) a n = ground arith
matches_class-all_chars p (c ∷ d ∷ e ∷ v) a n =
    ground (arith, matches_class-all_chars p (d ∷ e ∷ v))

is_value-IsPlain : (v : Text) → IsPlain v → is_value v ≡ true
unfolding is_value
is_value-IsPlain v (a, n) =
    matches_class-all_chars is_value_char v
      (all_chars_mono is_plain_char is_value_char (λ c h. and-left _ _ h) v a) n

plain_lacks : (c : ℕ) (v : Text) → is_plain_char c ≡ false → IsPlain v → lacks c v ≡ true
plain_lacks c v h p = lacks_of_class is_plain_char c v h p.0

value_error-plain : (key v : Text) → IsPlain v → value_error key v ≡ none
unfolding value_error
value_error-plain key v p = ground (
  arith,
  is_value-IsPlain v p,
  count_char-lacks b'%' v (plain_lacks b'%' v (unfold is_value_char in refl) p),
)

count_equals : (v : Text) → IsPlain v → count_char b'=' (b'=' ∷ v) ≡ 1
unfolding count_char
count_equals v p =
    ground (arith, count_char-lacks b'=' v (plain_lacks b'=' v (unfold is_value_char in refl) p))

pair_one_equals :
    (key : String) (v : Text)
    → count_char b'=' (codes key) ≡ 0
    → IsPlain v
    → has_one_equals (pair key v) ≡ true
pair_one_equals key v k p =
    ground (arith, count_char-append b'=' (codes key) (b'=' ∷ v), count_equals v p)

pair_parts :
    (key : String) (v : Text)
    → lacks b'=' (codes key) ≡ true
    → (eq_text (key_of (pair key v)) (codes key) ≡ true) × (value_of (pair key v) ≡ v)
pair_parts key v k =
    let e : partition b'=' (pair key v) ≡ (codes key, true, v) =
      partition-append b'=' (codes key) v k in
    (
      ap (λ (t : Text × Bool × Text). eq_text t.0 (codes key)) e ∙ eq_text_refl (codes key),
      ap (λ (t : Text × Bool × Text). t.2) e,
    )

parse_fields_pairs :
    (o reason target : Text)
    → IsPlain o
    → IsPlain reason
    → IsPlain target
    → parse_fields
        (pair "v" (codes "1"))
        (pair "outcome" o)
        (pair "reason" reason)
        (pair "target" target)
      ≡ cross_check o reason target
unfolding parse_fields
parse_fields_pairs o reason target po pr pt =
    let (kb, vb) = pair_parts "outcome" o refl in
    let (kc, vc) = pair_parts "reason" reason refl in
    let (kd, vd) = pair_parts "target" target refl in
    rw
      (
        pair_one_equals "outcome" o (unfold count_char in refl) po,
        pair_one_equals "reason" reason (unfold count_char in refl) pr,
        pair_one_equals "target" target (unfold count_char in refl) pt,
        kb,
        kc,
        kd,
        vb,
        vc,
        vd,
        value_error-plain (codes "outcome") o po,
        value_error-plain (codes "reason") reason pr,
        value_error-plain (codes "target") target pt,
      )
      (unfold count_char partition eq_text in refl)

lacks-pair :
    (key : String) (v : Text)
    → lacks b' ' (codes key) ≡ true
    → IsPlain v
    → lacks b' ' (pair key v) ≡ true
lacks-pair key v k p =
    lacks-append b' ' (codes key) (b'=' ∷ v) k (plain_lacks b' ' v (unfold is_value_char in refl) p)

split_on-render :
    (o reason target : Text)
    → IsPlain o
    → IsPlain reason
    → IsPlain target
    → split_on b' ' (render o reason target)
      ≡ codes "doorbell-outcome"
        ∷ pair "v" (codes "1")
        ∷ pair "outcome" o
        ∷ pair "reason" reason
        ∷ pair "target" target
        ∷ []
unfolding render
split_on-render o reason target po pr pt =
    split_on-append b' ' (codes "doorbell-outcome") _ refl
    ∙ ap (λ (l : List Text). codes "doorbell-outcome" ∷ l)
        (split_on-append b' ' (pair "v" (codes "1")) _ refl
          ∙ ap (λ (l : List Text). pair "v" (codes "1") ∷ l)
              (split_on-append b' ' (pair "outcome" o) _ (lacks-pair "outcome" o refl po)
                ∙ ap (λ (l : List Text). pair "outcome" o ∷ l)
                    (split_on-append b' ' (pair "reason" reason) _
                        (lacks-pair "reason" reason refl pr)
                      ∙ ap (λ (l : List Text). pair "reason" reason ∷ l)
                          (split_on-lacks b' ' (pair "target" target)
                            (lacks-pair "target" target refl pt)))))

-- The line of an outcome, a reason and a target of plain characters is read back: the result is that
-- of the cross checks on these three.
pub parse_line-render :
    (o reason target : Text)
    → IsPlain o
    → IsPlain reason
    → IsPlain target
    → parse_line (render o reason target) ≡ cross_check o reason target
unfolding parse_line
parse_line-render o reason target po pr pt =
    rw (render_prefix o reason target, split_on-render o reason target po pr pt)
      (unfold eq_text in parse_fields_pairs o reason target po pr pt)
  where
    render_prefix : (o reason target : Text) → starts_with prefix (render o reason target) ≡ true
    render_prefix o reason target = unfold render starts_with in refl
