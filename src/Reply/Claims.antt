-- ===== src/Reply/Claims.antt =====
-- A claim is never released, so a reply id has at most one call of the sender.
use agent_letter_bridge.Prelude.{
  ℕ, suc, ◌≤◌, String, ◌≡◌, refl, sym, ap, subst, ◌∙◌, Bool, true, false, none, some, List, [], ◌∷◌,
  ◌++◌, Result, ok, err, ◌==◌, if◌then◌else◌, arith, inl, inr, Bool-cases, eq_iff,
}
use agent_letter_bridge.Prelude.Dict
use agent_letter_bridge.Prelude.Dict.{get-put}
use agent_letter_bridge.Prelude.Text.{Text}
use agent_letter_bridge.Initiate.{Answer, accepted, throttles, refuses, is_ambiguous, fails}
use agent_letter_bridge.Reply.{
  Desk, Sent, ReplyError, claim, record_outcome, dead_letter, call, sent_of, conclude, reply_id,
  send_legacy, after_claim,
}

abbrev pub add_call : Bool → ℕ → ℕ
add_call b n = if b then suc n else n

-- the calls of the sender for a reply id
unfoldable pub calls_for : String → List Sent → ℕ
calls_for rid [] = 0
calls_for rid (c ∷ cs) = add_call (c.id == rid) (calls_for rid cs)

calls_for-append :
    (rid : String) (cs : List Sent) (c : Sent)
    → calls_for rid (cs ++ c ∷ []) ≡ add_call (c.id == rid) (calls_for rid cs)
unfolding calls_for
calls_for-append rid [] c = refl
calls_for-append rid (d ∷ cs) c =
    ap (add_call (d.id == rid)) (calls_for-append rid cs c)
    ∙ swap (d.id == rid) (c.id == rid) (calls_for rid cs)
  where
    swap : (a b : Bool) (n : ℕ) → add_call a (add_call b n) ≡ add_call b (add_call a n)
    swap true true n = refl
    swap true false n = refl
    swap false true n = refl
    swap false false n = refl

-- One thing that happens at the desk.
pub data Turn (digest : Text → String) : Desk → Desk → Type 0 where
  -- an attempt at any reply, with any answer of the sender
  attempt :
      (letter_id chat text : String) (answer : Answer) (d : Desk)
      → Turn digest d (send_legacy digest letter_id chat text answer d).0
  -- an attempt that dies after its claim
  dies_claimed :
      (letter_id text : String) (d d' : Desk)
      → claim (reply_id digest letter_id text) d ≡ ok d'
      → Turn digest d d'
  -- an attempt that dies after the call of the sender
  dies_called :
      (letter_id chat text : String) (answer : Answer) (d d' : Desk)
      → claim (reply_id digest letter_id text) d ≡ ok d'
      → Turn digest d (call (reply_id digest letter_id text) chat text answer d')

pub data Turns (digest : Text → String) : Desk → Desk → Type 0 where
  rest : (d : Desk) → Turns digest d d
  next : (d m d' : Desk) → Turn digest d m → Turns digest m d' → Turns digest d d'

-- A reply id without a claim has no call, and one with a claim at most one.
abbrev pub IsClaimedAt : String → Desk → Type 0
IsClaimedAt rid d =
    (calls_for rid d.calls ≤ 1) × (Dict.get rid d.claims ≡ none → calls_for rid d.calls ≡ 0)

abbrev pub IsKept : Desk → Type 0
IsKept d = (rid : String) → IsClaimedAt rid d

claim-ok :
    (rid : String) (d d' : Desk)
    → claim rid d ≡ ok d'
    → (Dict.get rid d.claims ≡ none)
      × (d'.calls ≡ d.calls)
      × (d'.claims ≡ Dict.put rid "in_flight" d.claims)
unfolding claim Dict.has
claim-ok rid d d' e = (
  ground (arith, e),
  ap (λ (x : Desk). x.calls) (sym (same e)),
  ap (λ (x : Desk). x.claims) (sym (same e)),
)
  where
    same : claim rid d ≡ ok d' → record d { claims = Dict.put rid "in_flight" d.claims } ≡ d'
    same e = elim (Bool-cases (Dict.has rid d.claims)) [
      | inl h ↦ absurd (ground (arith, e, h))
      | inr h ↦ cc (e, h)
    ]

-- more claims and the same calls
IsKept-claims :
    (rid outcome : String) (d d' : Desk)
    → d'.calls ≡ d.calls
    → d'.claims ≡ Dict.put rid outcome d.claims
    → IsKept d
    → IsKept d'
IsKept-claims rid outcome d d' c p k j = (
  subst (λ (cs : List Sent). calls_for j cs ≤ 1) (sym c) (k j).0,
  λ n.
      ap (calls_for j) c
      ∙ (k j).1
          (unclaimed (rid == j) (sym (ap (Dict.get j) p ∙ get-put j rid outcome d.claims) ∙ n)),
)
  where
    unclaimed :
        (b : Bool)
        → (if b then some outcome else Dict.get j d.claims) ≡ none
        → Dict.get j d.claims ≡ none
    unclaimed true n = absurd (cc (n))
    unclaimed false n = n

-- a claim and the call of the sender for it
IsKept-call :
    (rid chat text : String) (answer : Answer) (d d' : Desk)
    → claim rid d ≡ ok d'
    → IsKept d
    → IsKept (call rid chat text answer d')
unfolding call
IsKept-call rid chat text answer d d' e k j =
    let (free, c, p) = claim-ok rid d d' e in
    let n : calls_for j (d'.calls ++ sent_of rid chat text answer ∷ [])
        ≡ add_call (rid == j) (calls_for j d.calls) =
      ap (λ (cs : List Sent). calls_for j (cs ++ sent_of rid chat text answer ∷ [])) c
      ∙ calls_for-append j d.calls (sent_of rid chat text answer) in
    let g : Dict.get j d'.claims ≡ (if rid == j then some "in_flight" else Dict.get j d.claims) =
      ap (Dict.get j) p ∙ get-put j rid "in_flight" d.claims in
    elim (Bool-cases (rid == j)) [
      | inl h ↦
          let zero_before : calls_for j d.calls ≡ 0 =
            (k j).1 (ap (λ (i : String). Dict.get i d.claims) (sym ((eq_iff rid j).0 h)) ∙ free) in
          ground (arith, n, g, h, zero_before)
      | inr h ↦ ground (arith, n, g, h, k j)
    ]

conclude-claims :
    (rid letter_id : String) (answer : Answer) (d : Desk)
    → (outcome : String) × ((conclude rid letter_id answer d).0.calls ≡ d.calls)
      × ((conclude rid letter_id answer d).0.claims ≡ Dict.put rid outcome d.claims)
unfolding conclude record_outcome dead_letter
conclude-claims rid letter_id (accepted i) d = ("sent", refl, refl)
conclude-claims rid letter_id (throttles i) d = ("throttled", refl, refl)
conclude-claims rid letter_id (refuses i) d = ("refused", refl, refl)
conclude-claims rid letter_id (is_ambiguous i) d = ("ambiguous", refl, refl)
conclude-claims rid letter_id (fails i) d = ("ambiguous", refl, refl)

IsKept-after :
    (rid letter_id chat text : String) (answer : Answer) (d : Desk) (r : Result ReplyError Desk)
    → claim rid d ≡ r
    → IsKept d
    → IsKept (after_claim rid letter_id chat text answer d r).0
IsKept-after rid letter_id chat text answer d (err e) h k = k
IsKept-after rid letter_id chat text answer d (ok d') h k =
    let (outcome, c, p) = conclude-claims rid letter_id answer (call rid chat text answer d') in
    IsKept-claims rid outcome (call rid chat text answer d')
      (conclude rid letter_id answer (call rid chat text answer d')).0 c p
      (IsKept-call rid chat text answer d d' h k)

Turn-IsKept : (digest : Text → String) (d d' : Desk) → Turn digest d d' → IsKept d → IsKept d'
unfolding send_legacy
Turn-IsKept digest d d' (attempt letter_id chat text answer _) k =
    IsKept-after (reply_id digest letter_id text) letter_id chat text answer d
      (claim (reply_id digest letter_id text) d) refl k
Turn-IsKept digest d d' (dies_claimed letter_id text _ _ e) k =
    let (free, c, p) = claim-ok (reply_id digest letter_id text) d d' e in
    IsKept-claims (reply_id digest letter_id text) "in_flight" d d' c p k
Turn-IsKept digest d d' (dies_called letter_id chat text answer _ d1 e) k =
    IsKept-call (reply_id digest letter_id text) chat text answer d d1 e k

Turns-IsKept : (digest : Text → String) (d d' : Desk) → Turns digest d d' → IsKept d → IsKept d'
Turns-IsKept digest d d' (rest _) k = k
Turns-IsKept digest d d' (next _ m _ t ts) k =
    Turns-IsKept digest m d' ts (Turn-IsKept digest d m t k)

no_calls : (rid : String) → calls_for rid [] ≡ 0
unfolding calls_for
no_calls rid = refl

-- From a desk with no call of the sender yet, over any run of attempts and of attempts that die after
-- their claim or after the call of the sender, the sender is called at most once for each reply id,
-- whatever it answers.
pub at_most_one_call :
    (digest : Text → String) (d d' : Desk) (rid : String)
    → d.calls ≡ []
    → Turns digest d d'
    → calls_for rid d'.calls ≤ 1
at_most_one_call digest d d' rid e t = (Turns-IsKept digest d d' t none_yet rid).0
  where
    none_yet : IsKept d
    none_yet j = let z = ap (calls_for j) e ∙ no_calls j in (omega (arith, z), λ n. z)
