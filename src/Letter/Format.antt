-- ===== src/Letter/Format.antt =====
-- The text of a letter: where its fences are found.
use agent_letter_bridge.Prelude.{
  ℕ, zero, suc, ◌≡◌, ◌≢◌, refl, ap, ◌∙◌, Bool, true, false, ◌||◌, List, [], ◌∷◌, ◌++◌, append_assoc,
  arith, inl, inr, Bool-cases,
}
use agent_letter_bridge.Prelude.Text.{Text, codes, eq_text, starts_with, lacks, on_head}
use agent_letter_bridge.Letter.{fence, cut, join_text, newlines_from}

pub newlines-append :
    (a b : Text) → lacks 13 a ≡ true → newlines_from false (a ++ b) ≡ a ++ newlines_from false b
unfolding newlines_from
newlines-append [] b h = refl
newlines-append (c ∷ a) b h = ground (arith, newlines-append a b)

-- No fence begins in `p` where `rest` follows it.
abbrev pub IsFree : Text → Text → Type 0
IsFree [] rest = Unit
IsFree (c ∷ p) rest = (starts_with fence (c ∷ p ++ rest) ≡ false) × IsFree p rest

pub cut-IsFree :
    (p rest h : Text) (hs : List Text)
    → IsFree p rest
    → cut fence 0 rest ≡ h ∷ hs
    → cut fence 0 (p ++ rest) ≡ (p ++ h) ∷ hs
unfolding cut
cut-IsFree [] rest h hs f e = e
cut-IsFree (c ∷ p) rest h hs f e = rw (f.0, cut) (rw (cut-IsFree p rest h hs f.1 e) refl)

pub cut-fence : (t : Text) → cut fence 0 (fence ++ t) ≡ [] ∷ cut fence 0 t
unfolding cut starts_with
cut-fence t = refl

pub IsFree-append : (p q rest : Text) → IsFree p (q ++ rest) → IsFree q rest → IsFree (p ++ q) rest
IsFree-append [] q rest f g = g
IsFree-append (c ∷ p) q rest f g = (
  ap (λ (t : Text). starts_with fence (c ∷ t)) (append_assoc p q rest) ∙ f.0,
  IsFree-append p q rest f.1 g,
)

-- The text ends with three dashes.
unfoldable pub ends_dashes : Text → Bool
ends_dashes [] = false
ends_dashes (c ∷ t) = eq_text (c ∷ t) (codes "---") || ends_dashes t

starts_with-line :
    (s rest : Text)
    → lacks 10 s ≡ true
    → starts_with fence (s ++ 10 ∷ rest) ≡ eq_text s (codes "---")
unfolding starts_with eq_text
starts_with-line [] rest h = refl
starts_with-line (a ∷ []) rest h = ground arith
starts_with-line (a ∷ b ∷ []) rest h = ground arith
starts_with-line (a ∷ b ∷ c ∷ []) rest h = ground arith
starts_with-line (a ∷ b ∷ c ∷ d ∷ s) rest h = ground arith

-- A line that does not end with three dashes hides no fence.
pub IsFree-line :
    (l rest : Text) → lacks 10 l ≡ true → ends_dashes l ≡ false → IsFree (l ++ 10 ∷ []) rest
unfolding ends_dashes
IsFree-line [] rest h d = (unfold starts_with in refl, tt)
IsFree-line (c ∷ l) rest h d = (
  ap (λ (t : Text). starts_with fence (c ∷ t)) (append_assoc l (10 ∷ []) rest)
      ∙ starts_with-line (c ∷ l) rest h
      ∙ ground (arith, d),
  IsFree-line l rest (ground (arith, h)) (ground (arith, d)),
)

join-on_head :
    (c : ℕ) (sep : Text) (ps : List Text)
    → ps ≢ []
    → join_text sep (on_head (λ p. c ∷ p) ps) ≡ c ∷ join_text sep ps
unfolding join_text
join-on_head c sep [] n = absurd (n refl)
join-on_head c sep (p ∷ []) n = refl
join-on_head c sep (p ∷ q ∷ ps) n = refl

abbrev drop : ℕ → Text → Text
drop zero t = t
drop (suc n) [] = []
drop (suc n) (c ∷ t) = drop n t

fence-found : (c : ℕ) (t : Text) → starts_with fence (c ∷ t) ≡ true → fence ++ drop 3 t ≡ c ∷ t
unfolding starts_with
fence-found c [] h = ground (arith, h)
fence-found c (a ∷ []) h = ground (arith, h)
fence-found c (a ∷ b ∷ []) h = ground (arith, h)
fence-found c (a ∷ b ∷ d ∷ t) h = ground (arith, h)

pub cut-ne-nil : (k : ℕ) (t : Text) → cut fence k t ≢ []
unfolding cut
cut-ne-nil k [] h = ground (arith, h)
cut-ne-nil zero (c ∷ t) h = elim (Bool-cases (starts_with fence (c ∷ t))) [
  | inl e ↦ cc (h, e)
  | inr e ↦ on_head_ne (cut fence 0 t) (ground (arith, e, h))
]
  where
    on_head_ne : (ps : List Text) → on_head (λ p. c ∷ p) ps ≡ [] → ⊥
    on_head_ne [] e = cc (e)
    on_head_ne (p ∷ ps) e = cc (e)
cut-ne-nil (suc k) (c ∷ t) h = cut-ne-nil k t h

join-nil :
    (sep : Text) (ps : List Text) → ps ≢ [] → join_text sep ([] ∷ ps) ≡ sep ++ join_text sep ps
unfolding join_text
join-nil sep [] n = absurd (n refl)
join-nil sep (p ∷ ps) n = refl

join-cut : (k : ℕ) (t : Text) → join_text fence (cut fence k t) ≡ drop k t
unfolding cut
join-cut zero [] = unfold join_text in refl
join-cut (suc k) [] = unfold join_text in refl
join-cut zero (c ∷ t) = elim (Bool-cases (starts_with fence (c ∷ t))) [
  | inl e ↦ rw e (
      join-nil fence (cut fence 3 t) (cut-ne-nil 3 t)
      ∙ (ap (λ (s : Text). fence ++ s) (join-cut 3 t) ∙ fence-found c t e))
  | inr e ↦ rw e (
      join-on_head c fence (cut fence 0 t) (cut-ne-nil 0 t)
      ∙ ap (λ (s : Text). c ∷ s) (join-cut 0 t))
]
join-cut (suc k) (c ∷ t) = join-cut k t

-- Joining what was split at fences gives the text back.
pub join-split : (t : Text) → join_text fence (cut fence 0 t) ≡ t
join-split t = join-cut 0 t
