-- ===== src/Letter/Store/Carried.antt =====
-- What becomes of the files of an inbox while the poller works on it: a file stays as it is, or a line
-- of it that names a thread is written again.
use agent_letter_bridge.Prelude.{
  ◌≡◌, refl, true, false, any_of, some, List, ◌∷◌, ◌++◌, Bool-cases, inl, inr, ◌∙◌, ap,
}
use agent_letter_bridge.Prelude.Text.{
  Text, codes, eq_text, eq_text→eq, starts_with, split_on, join_on,
}
use agent_letter_bridge.Prelude.TextDict
use agent_letter_bridge.Prelude.TextDict.{get-put}
use agent_letter_bridge.Letter.{Directory, LetterFile, text, universal_newlines}

-- The second file is the first one, or the first one with a line that begins with "thread:", and that
-- no line beginning with "thread: " stands above, replaced by a line that names a thread, any number
-- of times; line ends are then those that a reader sees.
pub data Follows : LetterFile → LetterFile → Type 0 where
  as_written : (f : LetterFile) → Follows f f
  restamped :
      (t thread line : Text) (before after : List Text) (f : LetterFile)
      → split_on 10 (universal_newlines t) ≡ before ++ line ∷ after
      → starts_with (codes "thread:") line ≡ true
      → any_of (starts_with (codes "thread: ")) before ≡ false
      → Follows (text (join_on 10 (before ++ (codes "thread: " ++ thread) ∷ after))) f
      → Follows (text t) f

pub Follows-trans : (f g h : LetterFile) → Follows f g → Follows g h → Follows f h
Follows-trans f g h (as_written _) k = k
Follows-trans f g h (restamped t thread line before after _ e s n r) k =
    restamped t thread line before after h e s n (Follows-trans _ g h r k)

-- No file is lost, and each follows the one that had its name.
abbrev pub Carries : Directory → Directory → Type 0
Carries inbox inbox' =
    (id : Text) (f : LetterFile)
    → TextDict.get id inbox ≡ some f
    → (g : LetterFile) × (TextDict.get id inbox' ≡ some g) × Follows f g

pub Carries-refl : (inbox : Directory) → Carries inbox inbox
Carries-refl inbox id f e = (f, e, as_written f)

pub Carries-trans : (a b c : Directory) → Carries a b → Carries b c → Carries a c
Carries-trans a b c k l id f e =
    let (g, q, r) = k id f e in let (h, q', r') = l id g q in (h, q', Follows-trans f g h r r')

-- A file that is written follows the one that it replaces, if there is one.
pub Carries-put :
    (inbox : Directory) (id : Text) (g : LetterFile)
    → ((f : LetterFile) → TextDict.get id inbox ≡ some f → Follows f g)
    → Carries inbox (TextDict.put id g inbox)
Carries-put inbox id g k j f e = elim (Bool-cases (eq_text id j)) [
  | inl s ↦ (
    g,
    get-put j id g inbox ∙ rw s refl,
    k f (ap (λ (x : Text). TextDict.get x inbox) (eq_text→eq id j s) ∙ e),
  )
  | inr s ↦ (f, get-put j id g inbox ∙ rw s e, as_written f)
]
