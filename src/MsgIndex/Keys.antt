-- ===== src/MsgIndex/Keys.antt =====
-- Keys: a triple has its own entry, and the first writer wins.
use agent_letter_bridge.Prelude.{
  ℕ, String, ◌≡◌, ◌≢◌, inl, inr, refl, sym, ap, ◌∙◌, Bool, true, false, [], ◌∷◌, ◌++◌, Option, none,
  some, if◌then◌else◌, arith, Bool-cases, Option-cases,
}
use agent_letter_bridge.Prelude.Text.{
  Text, eq_text, eq_text_refl, eq_text→eq, partition, partition-append, lacks,
}
use agent_letter_bridge.MsgIndex.{Table, key, entry, record_message, lookup, rpartition}

pub rpartition-lacks : (c : ℕ) (m : Text) → lacks c m ≡ true → rpartition c m ≡ ([], false, m)
unfolding rpartition
rpartition-lacks c [] h = refl
rpartition-lacks c (a ∷ m) h = ground (arith, rpartition-lacks c m)

pub rpartition-append :
    (c : ℕ) (o m : Text) → lacks c m ≡ true → rpartition c (o ++ c ∷ m) ≡ (o, true, m)
unfolding rpartition
rpartition-append c [] m h = ground (arith, rpartition-lacks c m)
rpartition-append c (a ∷ o) m h = ground (arith, rpartition-append c o m)

-- Two triples share a key only where they are the same, for platforms and message ids without a bar;
-- the origins may be any text.
pub key_injective :
    (p o m p' o' m' : Text)
    → lacks b'|' p ≡ true
    → lacks b'|' p' ≡ true
    → lacks b'|' m ≡ true
    → lacks b'|' m' ≡ true
    → key p o m ≡ key p' o' m'
    → (p ≡ p') × (o ≡ o') × (m ≡ m')
unfolding key
key_injective p o m p' o' m' hp hp' hm hm' e =
    let outer : (p, true, o ++ b'|' ∷ m) ≡ (p', true, o' ++ b'|' ∷ m') =
      sym (partition-append b'|' p (o ++ b'|' ∷ m) hp)
      ∙ (ap (partition b'|') e ∙ partition-append b'|' p' (o' ++ b'|' ∷ m') hp') in
    let inner : (o, true, m) ≡ (o', true, m') =
      sym (rpartition-append b'|' o m hm)
      ∙ (ap (λ (t : Text × Bool × Text). rpartition b'|' t.2) outer
          ∙ rpartition-append b'|' o' m' hm') in
    (
      ap (λ (t : Text × Bool × Text). t.0) outer,
      ap (λ (t : Text × Bool × Text). t.0) inner,
      ap (λ (t : Text × Bool × Text). t.2) inner,
    )

pub entry-append :
    (k j : Text) (v : String) (t : Table)
    → entry k (t ++ (j, v) ∷ [])
      ≡ elim (entry k t) [ some w ↦ some w | none ↦ (if eq_text j k then some v else none) ]
unfolding entry
entry-append k j v [] = ground arith
entry-append k j v ((i, w) ∷ t) = ground (arith, entry-append k j v t)

-- what the index says of a triple after a write for it
abbrev pub first_of : Option String → String → String
first_of none new = new
first_of (some old) new = old

different :
    (p o m p' o' m' : Text)
    → lacks b'|' p ≡ true
    → lacks b'|' p' ≡ true
    → lacks b'|' m ≡ true
    → lacks b'|' m' ≡ true
    → ¬ ((p ≡ p') × (o ≡ o') × (m ≡ m'))
    → eq_text (key p o m) (key p' o' m') ≡ false
different p o m p' o' m' hp hp' hm hm' n = elim (Bool-cases (eq_text (key p o m) (key p' o' m'))) [
  | inl h ↦
      let (a, b, c) = key_injective p o m p' o' m' hp hp' hm hm' (eq_text→eq _ _ h) in
      absurd (n (a, b, c))
  | inr h ↦ h
]

-- After a write the triple, whose message id is not empty, has the letter of its first writer. Every
-- other triple has what it had; platforms and message ids carry no bar.
pub record_message_lem :
    (p o m : Text) (letter : String) (t : Table)
    → m ≢ []
    → lacks b'|' p ≡ true
    → lacks b'|' m ≡ true
    → (lookup p o m (record_message p o m letter t) ≡ some (first_of (lookup p o m t) letter))
      × ((p' o' m' : Text)
          → lacks b'|' p' ≡ true
          → lacks b'|' m' ≡ true
          → ¬ ((p ≡ p') × (o ≡ o') × (m ≡ m'))
          → lookup p' o' m' (record_message p o m letter t) ≡ lookup p' o' m' t)
unfolding lookup record_message
record_message_lem p o [] letter t n hp hm = absurd (n refl)
record_message_lem p o (c ∷ m) letter t n hp hm = elim (Option-cases (entry (key p o (c ∷ m)) t)) [
  | inl h ↦ (
    ground (
      arith,
      h,
      entry-append (key p o (c ∷ m)) (key p o (c ∷ m)) letter t,
      eq_text_refl (key p o (c ∷ m)),
    ),
    λ p' o' m' hp' hm' d. ground (
      arith,
      h,
      entry-append (key p' o' m') (key p o (c ∷ m)) letter t,
      different p o (c ∷ m) p' o' m' hp hp' hm hm' d,
    ),
  )
  | inr (old, h) ↦ (ground (arith, h), λ p' o' m' hp' hm' d. ground (arith, h))
]
