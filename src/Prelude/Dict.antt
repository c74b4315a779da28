-- ===== src/Prelude/Dict.antt =====
-- Python's `dict` with text keys, in insertion order: a write to a key that is there keeps its place.
use Prim.Native.String.{String}
use mathlib.Core.Path.{◌≡◌, refl}
use mathlib.Core.Bool.{Bool, true, false}
use mathlib.Core.Option.{Option, none, some}
use mathlib.Core.List.{List, [], ◌∷◌, ◌++◌}
use native.Mathlib.Omega.{arith}
use text.Mathlib.TextEquality.{eq_iff}
use agent_letter_bridge.Prelude.Tests.{◌==◌, if◌then◌else◌}

abbrev pub Dict {ℓ} : Type ℓ → Type ℓ
Dict V = List (String × V)

module _ {ℓ} {V : Type ℓ} where
  -- d.get(k)
  unfoldable pub get : String → Dict V → Option V
  get k [] = none
  get k ((j, v) ∷ d) = if j == k then some v else get k d

  -- k in d
  unfoldable pub has : String → Dict V → Bool
  has k d = elim (get k d) [ none ↦ false | some v ↦ true ]

  -- d[k] = v
  unfoldable pub put : String → V → Dict V → Dict V
  put k v [] = (k, v) ∷ []
  put k v ((j, w) ∷ d) = let rest = put k v d in if j == k then (j, v) ∷ d else (j, w) ∷ rest

  -- d.pop(k, None)
  unfoldable pub pop : String → Dict V → Dict V
  pop k [] = []
  pop k ((j, w) ∷ d) = let rest = pop k d in if j == k then rest else (j, w) ∷ rest

  pub get-put :
      (j k : String) (v : V) (d : Dict V) → get j (put k v d) ≡ (if k == j then some v else get j d)
  unfolding get put
  get-put j k v [] = refl
  get-put j k v ((i, w) ∷ d) = ground (arith, eq_iff k j, eq_iff i k, eq_iff i j, get-put j k v d)

  pub get-pop : (j k : String) (d : Dict V) → get j (pop k d) ≡ (if k == j then none else get j d)
  unfolding get pop
  get-pop j k [] = ground arith
  get-pop j k ((i, w) ∷ d) = ground (arith, eq_iff k j, eq_iff i k, eq_iff i j, get-pop j k d)

  -- No key stands twice.
  abbrev pub Distinct : Dict V → Type ℓ
  Distinct [] = Unit
  Distinct ((k, v) ∷ d) = (get k d ≡ none) × Distinct d

  pub Distinct-put : (k : String) (v : V) (d : Dict V) → Distinct d → Distinct (put k v d)
  unfolding put get
  Distinct-put k v [] h = (refl, tt)
  Distinct-put k v ((j, w) ∷ d) h =
      ground (arith, get-put j k v d, eq_iff j k, eq_iff k j, Distinct-put k v d h.1)

pub get-nil {ℓ} : {V : Type ℓ} (k : String) → get {V = V} k [] ≡ none
unfolding get
get-nil k = refl

-- A key that is not there is written at the end.
pub put_absent {ℓ} :
    {V : Type ℓ} (k : String) (v : V) (d : Dict V) → get k d ≡ none → put k v d ≡ d ++ (k, v) ∷ []
unfolding put get
put_absent k v [] h = refl
put_absent k v ((j, w) ∷ d) h = ground (arith, put_absent k v d)

pub has-none {ℓ} : {V : Type ℓ} (k : String) (d : Dict V) → has k d ≡ false → get k d ≡ none
unfolding has
has-none k d h = ground arith
