-- ===== src/Ids/Prefixes.antt =====
-- Length prefixes keep the parts apart: the bytes determine the parts.
use agent_letter_bridge.Prelude.{
  ℕ, ◌+◌, ◌*◌, ◌/◌, ◌%◌, ◌<◌, String, ◌≡◌, ◌≢◌, refl, sym, ap, ap₂, ◌∙◌, List, [], ◌∷◌, ◌++◌, ok,
  >>=-eq-ok, length, arith, inl, inr, if◌then◌else◌, ◌==◌, Bool-cases, cons_not_nil, eq_iff,
}
use agent_letter_bridge.Json.{Json, str, truthy}
use agent_letter_bridge.Ids.{Bytes, to_bytes, length_prefixed, payload_bytes}

append-cancel :
    (xs ys r r' : Bytes) → length xs ≡ length ys → xs ++ r ≡ ys ++ r' → (xs ≡ ys) × (r ≡ r')
append-cancel [] [] r r' l e = (refl, e)
append-cancel [] (y ∷ ys) r r' l e = absurd (omega (arith, l))
append-cancel (x ∷ xs) [] r r' l e = absurd (omega (arith, l))
append-cancel (x ∷ xs) (y ∷ ys) r r' l e =
    let tails : xs ++ r ≡ ys ++ r' = cc (e) in
    let heads : x ≡ y = cc (e) in
    let (a, b) = append-cancel xs ys r r' (omega (arith, l)) tails in
    (ap₂ (λ (h : ℕ) (t : Bytes). h ∷ t) heads a, b)

split-of :
    (n : ℕ)
    → n < 4_294_967_296
    → n
      ≡ n / 16_777_216 % 256 * 16_777_216
        + n / 65_536 % 256 * 65_536
        + n / 256 % 256 * 256
        + n % 256
split-of n h = omega arith

quad : ℕ → Bytes
quad n = n / 16_777_216 % 256 ∷ n / 65_536 % 256 ∷ n / 256 % 256 ∷ n % 256 ∷ []

to_bytes-ok : (n : ℕ) (x : Bytes) → to_bytes n ≡ ok x → (n < 4_294_967_296) × (x ≡ quad n)
unfolding to_bytes quad
to_bytes-ok n x h = ground arith

quad-injective :
    (n m : ℕ) (r r' : Bytes)
    → n < 4_294_967_296
    → m < 4_294_967_296
    → quad n ++ r ≡ quad m ++ r'
    → (n ≡ m) × (r ≡ r')
unfolding quad
quad-injective n m r r' hn hm e =
    let a : n / 16_777_216 % 256 ≡ m / 16_777_216 % 256 = cc (e) in
    let b : n / 65_536 % 256 ≡ m / 65_536 % 256 = cc (e) in
    let c : n / 256 % 256 ≡ m / 256 % 256 = cc (e) in
    let d : n % 256 ≡ m % 256 = cc (e) in
    (omega (arith, split-of n hn, split-of m hm, a, b, c, d), cc (e))

to_bytes-injective :
    (n m : ℕ) (x y r r' : Bytes)
    → to_bytes n ≡ ok x
    → to_bytes m ≡ ok y
    → x ++ r ≡ y ++ r'
    → (n ≡ m) × (r ≡ r')
to_bytes-injective n m x y r r' hn hm e =
    let (bn, qn) = to_bytes-ok n x hn in
    let (bm, qm) = to_bytes-ok m y hm in
    quad-injective n m r r' bn bm
      (sym (ap (λ (t : Bytes). t ++ r) qn) ∙ (e ∙ ap (λ (t : Bytes). t ++ r') qm))

to_bytes-length : (n : ℕ) (x : Bytes) → to_bytes n ≡ ok x → length x ≡ 4
unfolding quad
to_bytes-length n x h = ap length (to_bytes-ok n x h).1

-- The texts of a list of parts.
abbrev pub texts : List String → List Json
texts [] = []
texts (p ∷ ps) = str p ∷ texts ps

prefixed-cons :
    (encode : String → Bytes) (p : String) (ps : List String) (b : Bytes)
    → length_prefixed encode (texts (p ∷ ps)) ≡ ok b
    → (size rest : Bytes) × (to_bytes (length (encode p)) ≡ ok size)
      × (length_prefixed encode (texts ps) ≡ ok rest)
      × (b ≡ size ++ (encode p ++ rest))
unfolding length_prefixed
prefixed-cons encode p ps b h =
    let (size, a, h1) = >>=-eq-ok (to_bytes (length (encode p))) _ h in
    let (rest, c, h2) = >>=-eq-ok (length_prefixed encode (texts ps)) _ h1 in
    (size, rest, a, c, cc (h2))

prefixed-not_nil :
    (encode : String → Bytes) (p : String) (ps : List String)
    → length_prefixed encode (texts (p ∷ ps)) ≢ ok []
prefixed-not_nil encode p ps h =
    let (size, rest, a, c, e) = prefixed-cons encode p ps [] h in
    absurd (go size (encode p ++ rest) (to_bytes-length (length (encode p)) size a) e)
  where
    go : (size t : Bytes) → length size ≡ 4 → [] ≡ size ++ t → ⊥
    go [] t l e = absurd (omega (arith, l))
    go (x ∷ size) t l e = cons_not_nil (sym e)

-- Two lists of parts have the same length-prefixed bytes only where they are the same list. The
-- encoder takes different texts to different bytes.
pub length_prefixed-injective :
    (encode : String → Bytes)
    → ((s t : String) → encode s ≡ encode t → s ≡ t)
    → (ps qs : List String) (b : Bytes) → length_prefixed encode (texts ps) ≡ ok b
    → length_prefixed encode (texts qs) ≡ ok b
    → ps ≡ qs
unfolding length_prefixed
length_prefixed-injective encode inj [] [] b h k = refl
length_prefixed-injective encode inj [] (q ∷ qs) b h k =
    let empty : [] ≡ b = cc (h) in
    absurd (prefixed-not_nil encode q qs (k ∙ ap (λ (t : Bytes). ok t) (sym empty)))
length_prefixed-injective encode inj (p ∷ ps) [] b h k =
    let empty : [] ≡ b = cc (k) in
    absurd (prefixed-not_nil encode p ps (h ∙ ap (λ (t : Bytes). ok t) (sym empty)))
length_prefixed-injective encode inj (p ∷ ps) (q ∷ qs) b h k =
    let (size, rest, a, c, e) = prefixed-cons encode p ps b h in
    let (size', rest', a', c', e') = prefixed-cons encode q qs b k in
    let (n, tails) =
      to_bytes-injective (length (encode p)) (length (encode q)) size size' (encode p ++ rest)
        (encode q ++ rest') a a' (sym e ∙ e') in
    let (parts, rests) = append-cancel (encode p) (encode q) rest rest' n tails in
    ap₂ (λ (s : String) (t : List String). s ∷ t) (inj p q parts)
      (length_prefixed-injective encode inj ps qs rest c
        (c' ∙ ap (λ (t : Bytes). ok t) (sym rests)))

-- the parts of a payload digest, with a photo hash or without one (an empty text)
abbrev pub parts_of : String → String → String → String → String → String → String → List String
parts_of body kind seat intent binding reason photo =
    body ∷ kind ∷ seat ∷ intent ∷ binding ∷ reason ∷ (if photo == "" then [] else photo ∷ [])

payload_bytes-parts :
    (encode : String → Bytes) (body kind seat intent binding reason photo : String)
    → payload_bytes encode body kind seat intent (str binding) reason (str photo)
      ≡ length_prefixed encode (texts (parts_of body kind seat intent binding reason photo))
unfolding payload_bytes truthy
payload_bytes-parts encode body kind seat intent binding reason photo =
    elim (Bool-cases (photo == "")) [ inl h ↦ rw h refl | inr h ↦ rw h refl ]

photos :
    (p q : String) → (if p == "" then [] else p ∷ []) ≡ (if q == "" then [] else q ∷ []) → p ≡ q
photos p q e = ground (arith, e, eq_iff p "", eq_iff q "")

-- The bytes that are hashed for a payload fix its text, seat, intent, binding, reason and photo: two
-- payloads of kind "initiated" have the same bytes only where all of these agree, and a payload with
-- a photo has not the bytes of one without. The encoder takes different texts to different bytes.
pub payload_bytes_bind :
    (encode : String → Bytes)
    → ((s t : String) → encode s ≡ encode t → s ≡ t)
    → (body seat intent binding reason photo body' seat' intent' binding' reason' photo' : String)
      (b : Bytes)
    → payload_bytes encode body "initiated" seat intent (str binding) reason (str photo) ≡ ok b
    → payload_bytes encode body' "initiated" seat' intent' (str binding') reason' (str photo')
      ≡ ok b
    → (body ≡ body')
      × (seat ≡ seat')
      × (intent ≡ intent')
      × (binding ≡ binding')
      × (reason ≡ reason')
      × (photo ≡ photo')
payload_bytes_bind encode inj body seat intent binding reason photo body' seat' intent' binding'
      reason' photo' b h k =
    let e : parts_of body "initiated" seat intent binding reason photo
        ≡ parts_of body' "initiated" seat' intent' binding' reason' photo' =
      length_prefixed-injective encode inj _ _ b
        (sym (payload_bytes-parts encode body "initiated" seat intent binding reason photo) ∙ h)
        (sym (payload_bytes-parts encode body' "initiated" seat' intent' binding' reason' photo')
          ∙ k) in
    (cc (e), cc (e), cc (e), cc (e), cc (e), photos photo photo' (cc (e)))
