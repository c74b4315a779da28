-- ===== src/Slack/Outbound/Escapes.antt =====
-- The escapes of an outgoing text against the reading of an incoming one.
use agent_letter_bridge.Prelude.{
  ℕ, ◌≡◌, refl, ap, subst, eqb→eq, sym, ◌∙◌, String, Bool, true, false, ◌&&◌, [], ◌∷◌, ◌++◌,
  Bool-cases, inl, inr, eqb, arith, if◌then◌else◌,
}
use agent_letter_bridge.Prelude.Text.{
  Text, codes, eq_text, starts_with, strip, is_space, rstrip_by, lstrip_by, any_space,
}
use agent_letter_bridge.Slack.Events.{replace, mention, unescape, clean}
use agent_letter_bridge.Slack.Outbound.{escape}

-- What stands for one character, while some of the three entities are still escaped.
abbrev entity : Bool → Bool → ℕ → Text
entity lt gt c =
    if eqb c b'&'
    then codes "&amp;"
    else if eqb c b'<' && lt
    then codes "&lt;"
    else if eqb c b'>' && gt
    then codes "&gt;"
    else c ∷ []

abbrev blocks : Bool → Bool → Text → Text
blocks lt gt [] = []
blocks lt gt (c ∷ t) = entity lt gt c ++ blocks lt gt t

-- replace of one character
abbrev swap_char : ℕ → Text → Text → Text
swap_char d new [] = []
swap_char d new (c ∷ t) = let rest = swap_char d new t in if eqb d c then new ++ rest else c ∷ rest

replace-swap_char : (d : ℕ) (new t : Text) → replace (d ∷ []) new t ≡ swap_char d new t
unfolding replace starts_with
replace-swap_char d new [] = refl
replace-swap_char d new (c ∷ t) = ground (arith, replace-swap_char d new t)

swaps-blocks :
    (t : Text)
    → swap_char b'>'
        (codes "&gt;")
        (swap_char b'<' (codes "&lt;") (swap_char b'&' (codes "&amp;") t))
      ≡ blocks true true t
swaps-blocks [] = refl
swaps-blocks (c ∷ t) = ground (arith, swaps-blocks t)

escape-blocks : (t : Text) → escape t ≡ blocks true true t
unfolding escape
escape-blocks t =
    replace-swap_char b'>' (codes "&gt;") _
    ∙ (ap (swap_char b'>' (codes "&gt;")) (
          replace-swap_char b'<' (codes "&lt;") _
          ∙ ap (swap_char b'<' (codes "&lt;")) (replace-swap_char b'&' (codes "&amp;") t))
        ∙ swaps-blocks t)

-- The entities are undone one after the other.
undo_lt : (t : Text) → replace (codes "&lt;") (codes "<") (blocks true true t) ≡ blocks false true t
unfolding replace starts_with
undo_lt [] = refl
undo_lt (c ∷ t) = ground (arith, undo_lt t)

undo_gt :
    (t : Text) → replace (codes "&gt;") (codes ">") (blocks false true t) ≡ blocks false false t
unfolding replace starts_with
undo_gt [] = refl
undo_gt (c ∷ t) = ground (arith, undo_gt t)

undo_amp : (t : Text) → replace (codes "&amp;") (codes "&") (blocks false false t) ≡ t
unfolding replace starts_with
undo_amp [] = refl
undo_amp (c ∷ t) = ground (arith, undo_amp t)

blocks_empty : (t : Text) → eq_text (blocks true true t) [] ≡ eq_text t []
unfolding eq_text
blocks_empty [] = refl
blocks_empty (c ∷ t) = ground arith

rstrip_word :
    (w t : Text)
    → any_space is_space w ≡ false
    → rstrip_by is_space (w ++ t) ≡ w ++ rstrip_by is_space t
rstrip_word [] t h = refl
rstrip_word (c ∷ w) t h = ground (arith, h, rstrip_word w t)

-- an escaped character and its entity are no blanks
data Shape (c : ℕ) : Type 0 where
  escaped : any_space is_space (entity true true c) ≡ false → is_space c ≡ false → Shape c
  plain : entity true true c ≡ c ∷ [] → Shape c

entity-Shape : (c : ℕ) → Shape c
entity-Shape c = elim (Bool-cases (eqb c b'&')) [
  | inl e ↦ subst Shape (sym (eqb→eq c b'&' e)) (unfold is_space in escaped refl refl)
  | inr amp ↦ elim (Bool-cases (eqb c b'<')) [
    | inl e ↦ subst Shape (sym (eqb→eq c b'<' e)) (unfold is_space in escaped refl refl)
    | inr lt ↦ elim (Bool-cases (eqb c b'>')) [
      | inl e ↦ subst Shape (sym (eqb→eq c b'>' e)) (unfold is_space in escaped refl refl)
      | inr gt ↦ plain (rw (amp, lt, gt) refl)
    ]
  ]
]

rstrip_solid :
    (c : ℕ) (t : Text) → is_space c ≡ false → rstrip_by is_space (c ∷ t) ≡ c ∷ rstrip_by is_space t
rstrip_solid c t h = ground (arith, h)

-- a plain character is its own block, under a test
plain_if :
    (b : Bool) (c : ℕ) (r : Text)
    → entity true true c ≡ c ∷ []
    → (if b then [] else c ∷ blocks true true r) ≡ blocks true true (if b then [] else c ∷ r)
plain_if true c r e = refl
plain_if false c r e = ap (λ (w : Text). w ++ blocks true true r) (sym e)

rstrip-blocks :
    (t : Text) → rstrip_by is_space (blocks true true t) ≡ blocks true true (rstrip_by is_space t)
rstrip-blocks [] = refl
rstrip-blocks (c ∷ t) = go (entity-Shape c) (rstrip-blocks t)
  where
    go :
        Shape c
        → rstrip_by is_space (blocks true true t) ≡ blocks true true (rstrip_by is_space t)
        → rstrip_by is_space (entity true true c ++ blocks true true t)
          ≡ blocks true true (rstrip_by is_space (c ∷ t))
    go (escaped solid no_blank) ih =
        rstrip_word (entity true true c) (blocks true true t) solid
        ∙ (ap (λ (r : Text). entity true true c ++ r) ih
            ∙ ap (blocks true true) (sym (rstrip_solid c t no_blank)))
    go (plain e) ih =
        ap (λ (w : Text). rstrip_by is_space (w ++ blocks true true t)) e
        ∙ (ap (λ (r : Text). if eq_text r [] && is_space c then [] else c ∷ r) ih
            ∙ (ap
                  (λ (b : Bool).
                    if b && is_space c then [] else c ∷ blocks true true (rstrip_by is_space t))
                  (blocks_empty (rstrip_by is_space t))
                ∙ plain_if (eq_text (rstrip_by is_space t) [] && is_space c) c
                    (rstrip_by is_space t) e))

lstrip-blocks :
    (t : Text) → lstrip_by is_space (blocks true true t) ≡ blocks true true (lstrip_by is_space t)
unfolding is_space
lstrip-blocks [] = refl
lstrip-blocks (c ∷ t) = ground (arith, lstrip-blocks t)

-- No "<" is left, so no mention.
no_mention :
    (bot_user : String) (t : Text)
    → replace (mention bot_user) [] (blocks true true t) ≡ blocks true true t
unfolding replace mention starts_with
no_mention bot_user [] = refl
no_mention bot_user (c ∷ t) = ground (arith, no_mention bot_user t)

strip-blocks : (t : Text) → strip (blocks true true t) ≡ blocks true true (strip t)
unfolding strip
strip-blocks t = ap (lstrip_by is_space) (rstrip-blocks t) ∙ lstrip-blocks (rstrip_by is_space t)

-- A text that is sent to Slack and read back as a message of Slack is the text without the blanks
-- around it, whatever entities, tags or mentions stand in it, that of the reading bot included.
pub clean-escape : (bot_user : String) (t : Text) → clean (escape t) bot_user ≡ strip t
unfolding clean unescape
clean-escape bot_user t =
    rw
      (escape-blocks t, no_mention bot_user t, strip-blocks t, undo_lt (strip t), undo_gt (strip t))
      (undo_amp (strip t))
