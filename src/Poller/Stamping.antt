-- ===== src/Poller/Stamping.antt =====
-- Stamping a thread on a letter of the inbox: only a line that names a thread changes.
use agent_letter_bridge.Prelude.{
  ◌≡◌, refl, ◌∙◌, ap, sym, subst, true, false, Option, none, some, List, [], ◌∷◌, ◌++◌, ok, inl,
  inr, any_of, Bool-cases, arith,
}
use agent_letter_bridge.Prelude.Text.{
  Text, codes, eq_text, eq_text→eq, starts_with, split_on, join_on,
}
use agent_letter_bridge.Prelude.TextDict
use agent_letter_bridge.Letter.{
  Directory, LetterFile, text, unreadable, undecodable, universal_newlines,
}
use agent_letter_bridge.Letter.Store.Carried.{Follows, as_written, restamped, Carries, Carries-put}
use agent_letter_bridge.Poller.Threads.{
  stamp_file, stamp_text, stamped_file, is_thread_line, replace_thread, option_cons,
}

starts-is_thread_line :
    (line : Text) → is_thread_line line ≡ true → starts_with (codes "thread:") line ≡ true
unfolding starts_with eq_text
starts-is_thread_line line h = elim (Bool-cases (eq_text line (codes "thread:"))) [
  | inl e ↦ rw (eq_text→eq line (codes "thread:") e) refl
  | inr e ↦ ground (arith, e, h)
]

cons-some :
    (line : Text) (o : Option (List Text)) (lines' : List Text)
    → option_cons line o ≡ some lines'
    → (lines : List Text) × (o ≡ some lines) × (lines' ≡ line ∷ lines)
cons-some line none lines' h = absurd (cc (h))
cons-some line (some lines) lines' h = (lines, refl, cc)

-- what replacing the thread of some lines does to them
replace_thread-lines :
    (thread : Text) (lines lines' : List Text)
    → replace_thread thread lines ≡ some lines'
    → (before : List Text) × (line : Text) × (after : List Text) × (lines ≡ before ++ line ∷ after)
      × (starts_with (codes "thread:") line ≡ true)
      × (any_of (starts_with (codes "thread: ")) before ≡ false)
      × (lines' ≡ before ++ (codes "thread: " ++ thread) ∷ after)
unfolding replace_thread
replace_thread-lines thread [] lines' h = absurd (cc (h))
replace_thread-lines thread (line ∷ lines) lines' h = elim (Bool-cases (is_thread_line line)) [
  | inl e ↦
      let q : ◌≡◌ {A = Option (List Text)} (some ((codes "thread: " ++ thread) ∷ lines))
          (some lines') =
        ground (arith, e, h) in
      ([], line, lines, refl, starts-is_thread_line line e, refl, cc (q))
  | inr e ↦
      let (rest, q, w) =
        cons-some line (replace_thread thread lines) lines' (ground (arith, e, h)) in
      let (before, l, after, a, b, n, c) = replace_thread-lines thread lines rest q in
      (
        line ∷ before,
        l,
        after,
        ap (λ ls. line ∷ ls) a,
        b,
        ground (arith, e, n),
        w ∙ ap (λ ls. line ∷ ls) c,
      )
]

stamp_text-Follows : (thread t : Text) → Follows (text t) (text (stamp_text thread t))
unfolding stamp_text
stamp_text-Follows thread t = go (replace_thread thread (split_on 10 (universal_newlines t))) refl
  where
    go :
        (o : Option (List Text))
        → replace_thread thread (split_on 10 (universal_newlines t)) ≡ o
        → Follows (text t) (text (stamped_file t o))
    go none e = as_written (text t)
    go (some lines) e =
        let (before, line, after, q, r, n, w) =
          replace_thread-lines thread (split_on 10 (universal_newlines t)) lines e in
        restamped t thread line before after _ q r n (
          subst
            (λ (x : List Text).
              Follows (text (join_on 10 (before ++ (codes "thread: " ++ thread) ∷ after)))
                (text (join_on 10 x)))
            (sym w) (as_written _))

pub stamp_file-Carries :
    (inbox inbox' : Directory) (id thread : Text) (f : Option LetterFile)
    → TextDict.get id inbox ≡ f
    → stamp_file inbox id thread f ≡ ok inbox'
    → Carries inbox inbox'
stamp_file-Carries inbox inbox' id thread none g h = absurd (cc (h))
stamp_file-Carries inbox inbox' id thread (some unreadable) g h = absurd (cc (h))
stamp_file-Carries inbox inbox' id thread (some undecodable) g h = absurd (cc (h))
stamp_file-Carries inbox inbox' id thread (some (text t)) g h = subst (Carries inbox) (cc (h)) (
    Carries-put inbox id (text (stamp_text thread t)) (λ f e.
      subst (λ (x : LetterFile). Follows x (text (stamp_text thread t))) (cc (e, g))
        (stamp_text-Follows thread t)))
