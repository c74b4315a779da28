-- ===== src/Prelude/TextDict.antt =====
-- `dict` with keys that the program walks, in insertion order.
use mathlib.Core.Path.{◌≡◌, refl, ap, subst, ◌∙◌}
use mathlib.Core.Logic.{inl, inr}
use mathlib.Core.Bool.{Bool, true, false}
use mathlib.Core.Option.{Option, none, some}
use mathlib.Core.List.{List, [], ◌∷◌, ◌++◌}
use native.Mathlib.Omega.{arith}
use agent_letter_bridge.Prelude.Tests.{if◌then◌else◌, Bool-cases}
use agent_letter_bridge.Prelude.Text.{Text, eq_text, eq_text_refl, eq_text→eq}

abbrev pub TextDict {ℓ} : Type ℓ → Type ℓ
TextDict V = List (Text × V)

-- Equality of texts, both ways.
pub eq_text_sym : (s t : Text) → eq_text s t ≡ eq_text t s
unfolding eq_text
eq_text_sym [] [] = refl
eq_text_sym [] (b ∷ t) = refl
eq_text_sym (a ∷ s) [] = refl
eq_text_sym (a ∷ s) (b ∷ t) = ground (arith, eq_text_sym s t)

pub eq_text_trans : (s t u : Text) → eq_text s t ≡ true → eq_text s u ≡ eq_text t u
eq_text_trans s t u h = ap (λ (x : Text). eq_text x u) (eq_text→eq s t h)

module _ {ℓ} {V : Type ℓ} where
  -- d.get(k)
  unfoldable pub get : Text → TextDict V → Option V
  get k [] = none
  get k ((j, v) ∷ d) = if eq_text j k then some v else get k d

  -- k in d
  unfoldable pub has : Text → TextDict V → Bool
  has k d = elim (get k d) [ none ↦ false | some v ↦ true ]

  -- d[k] = v
  unfoldable pub put : Text → V → TextDict V → TextDict V
  put k v [] = (k, v) ∷ []
  put k v ((j, w) ∷ d) = let rest = put k v d in if eq_text j k then (j, v) ∷ d else (j, w) ∷ rest

  pub get-put :
      (j k : Text) (v : V) (d : TextDict V)
      → get j (put k v d) ≡ (if eq_text k j then some v else get j d)
  unfolding get put
  get-put j k v [] = refl
  get-put j k v ((i, w) ∷ d) = elim (Bool-cases (eq_text i k)) [
    | inl h ↦ ground (arith, h, eq_text_trans i k j h)
    | inr h ↦ elim (Bool-cases (eq_text k j)) [
      | inl e ↦ ground (arith, h, e, get-put j k v d, eq_text→eq k j e)
      | inr e ↦ ground (arith, h, e, get-put j k v d)
    ]
  ]

  pub get-append :
      (k : Text) (d e : TextDict V)
      → get k (d ++ e) ≡ elim (get k d) [ some v ↦ some v | none ↦ get k e ]
  unfolding get
  get-append k [] e = refl
  get-append k ((j, v) ∷ d) e = ground (arith, get-append k d e)

  -- No key stands twice.
  abbrev pub Distinct : TextDict V → Type ℓ
  Distinct [] = Unit
  Distinct ((k, v) ∷ d) = (get k d ≡ none) × Distinct d

  -- A key that is not there is written at the end.
  pub put_absent :
      (k : Text) (v : V) (d : TextDict V) → get k d ≡ none → put k v d ≡ d ++ (k, v) ∷ []
  unfolding put get
  put_absent k v [] h = refl
  put_absent k v ((j, w) ∷ d) h = ground (arith, put_absent k v d)

  -- d.update(e)
  abbrev pub update : TextDict V → TextDict V → TextDict V
  update d [] = d
  update d ((k, v) ∷ e) = update (put k v d) e

  abbrev pub AllEntries {κ} : (Text → V → Type κ) → TextDict V → Type κ
  AllEntries P [] = Unit
  AllEntries P ((k, v) ∷ d) = P k v × AllEntries P d

  pub AllEntries-get {κ} :
      (P : Text → V → Type κ) (k : Text) (v : V) (d : TextDict V)
      → AllEntries P d
      → get k d ≡ some v
      → P k v
  unfolding get
  AllEntries-get P k v [] a h = cc (h)
  AllEntries-get P k v ((j, w) ∷ d) a h = elim (Bool-cases (eq_text j k)) [
    | inl e ↦
        subst (λ (x : Text). P x v) (eq_text→eq j k e)
          (subst (P j) (found (ground (arith, e, h))) a.0)
    | inr e ↦ AllEntries-get P k v d a.1 (ground (arith, e, h))
  ]
    where
      found : some w ≡ some v → w ≡ v
      found e = cc (e)

  pub AllEntries-append {κ} :
      (P : Text → V → Type κ) (d e : TextDict V)
      → AllEntries P d
      → AllEntries P e
      → AllEntries P (d ++ e)
  AllEntries-append P [] e a b = b
  AllEntries-append P ((k, v) ∷ d) e a b = (a.0, AllEntries-append P d e a.1 b)

  pub Distinct-append :
      (d e : TextDict V)
      → Distinct d
      → Distinct e
      → ((k : Text) → has k d ≡ true → get k e ≡ none)
      → Distinct (d ++ e)
  unfolding has get
  Distinct-append [] e a b f = b
  Distinct-append ((k, v) ∷ d) e a b f = (
    ground (arith, get-append k d e, a.0, f k, eq_text_refl k),
    Distinct-append d e a.1 b (λ j h. ground (arith, f j, h)),
  )

  pub get-update :
      (j : Text) (d e : TextDict V)
      → Distinct e
      → get j (update d e) ≡ elim (get j e) [ some v ↦ some v | none ↦ get j d ]
  unfolding get
  get-update j d [] h = refl
  get-update j d ((k, v) ∷ e) h = elim (Bool-cases (eq_text k j)) [
    | inl q ↦
        rw (q)
          (get-update j (put k v d) e h.1 ∙ ground (arith, q, h, get-put j k v d, eq_text→eq k j q))
    | inr q ↦ rw (q) (get-update j (put k v d) e h.1 ∙ ground (arith, q, h, get-put j k v d))
  ]

pub get-nil {ℓ} : {V : Type ℓ} (k : Text) → get {V = V} k [] ≡ none
unfolding get
get-nil k = refl
