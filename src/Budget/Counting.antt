-- ===== src/Budget/Counting.antt =====
-- The count over the reservation files: one more file is one more turn, and a file that cannot be
-- read stops every count.
use agent_letter_bridge.Prelude.{
  ℕ, String, ◌≡◌, ◌≢◌, ◌⊎◌, refl, true, Option, none, some, [], ◌∷◌, ◌++◌, Result, ok, err, ◌>>=◌,
  >>=-eq-ok, arith, inl, inr,
}
use agent_letter_bridge.Grant.{GrantsDir}
use agent_letter_bridge.Outbound.{Store}
use agent_letter_bridge.Budget.{
  Reservation, Reservations, BudgetError, Tally, Scope, unknown_scope, elsewhere, here, scope_of,
  count_one, count_here, count_live, count_all, counts, zero_tally,
}

Scope-cases : (s : Scope) → (s ≡ unknown_scope) ⊎ ((s ≡ elsewhere) ⊎ (s ≡ here))
Scope-cases unknown_scope = inl refl
Scope-cases elsewhere = inr (inl refl)
Scope-cases here = inr (inr refl)

module _ (dir : GrantsDir) (receipts : Store) (binding day hour : String)
    (exclude : Option String) where
  pub count_all-append :
      (rs : Reservations) (oid : String) (r : Option Reservation) (t : Tally)
      → count_all dir receipts binding day hour exclude (rs ++ (oid, r) ∷ []) t ≡ (
          count_all dir receipts binding day hour exclude rs t
          >>= count_one dir receipts binding day hour exclude r)
  unfolding count_all
  count_all-append [] oid r t = go (count_one dir receipts binding day hour exclude r t)
    where
      go : (m : Result BudgetError Tally) → (m >>= λ t'. ok t') ≡ m
      go (ok t) = refl
      go (err e) = refl
  count_all-append ((j, q) ∷ rs) oid r t =
      go (count_one dir receipts binding day hour exclude q t) (λ t'. count_all-append rs oid r t')
    where
      go :
          (m : Result BudgetError Tally)
          → ((t' : Tally)
              → count_all dir receipts binding day hour exclude (rs ++ (oid, r) ∷ []) t' ≡ (
                  count_all dir receipts binding day hour exclude rs t'
                  >>= count_one dir receipts binding day hour exclude r))
          → (m >>= λ t'. count_all dir receipts binding day hour exclude (rs ++ (oid, r) ∷ []) t')
            ≡ ((m >>= λ t'. count_all dir receipts binding day hour exclude rs t')
                >>= count_one dir receipts binding day hour exclude r)
      go (ok t') ih = ih t'
      go (err e) ih = refl

  count_here-unknown :
      (rec : Reservation) (t t' : Tally)
      → count_here receipts day hour rec t ≡ ok t'
      → t'.unknown ≡ t.unknown
  unfolding count_here count_live
  count_here-unknown rec t t' h = ground arith

  count_one-unknown :
      (r : Option Reservation) (t t' : Tally)
      → count_one dir receipts binding day hour exclude r t ≡ ok t'
      → t.unknown ≡ true
      → t'.unknown ≡ true
  unfolding count_one
  count_one-unknown none t t' h u = ground arith
  count_one-unknown (some rec) t t' h u = elim (Scope-cases (scope_of dir binding rec)) [
    | inl e ↦ ground (arith, e)
    | inr (inl e) ↦ ground (arith, e)
    | inr (inr e) ↦ ground (arith, e, count_here-unknown rec t t')
  ]

  count_all-unknown :
      (rs : Reservations) (t t' : Tally)
      → count_all dir receipts binding day hour exclude rs t ≡ ok t'
      → t.unknown ≡ true
      → t'.unknown ≡ true
  unfolding count_all
  count_all-unknown [] t t' h u = ground arith
  count_all-unknown ((oid, r) ∷ rs) t t' h u =
      let (m, a, b) = >>=-eq-ok (count_one dir receipts binding day hour exclude r t) _ h in
      count_all-unknown rs m t' b (count_one-unknown r t m a u)

-- Some file in the directory cannot be read.
abbrev pub HasUnreadable : Reservations → Type 0
HasUnreadable [] = ⊥
HasUnreadable ((oid, r) ∷ rs) = (r ≡ none) ⊎ HasUnreadable rs

module _ (dir : GrantsDir) (receipts : Store) (binding day hour : String)
    (exclude : Option String) where
  count_all-unreadable :
      (rs : Reservations) (t t' : Tally)
      → HasUnreadable rs
      → count_all dir receipts binding day hour exclude rs t ≡ ok t'
      → t'.unknown ≡ true
  unfolding count_all count_one
  count_all-unreadable [] t t' u h = elim u [ ]
  count_all-unreadable ((oid, none) ∷ rs) t t' u h =
      count_all-unknown dir receipts binding day hour exclude rs (record t { unknown = true }) t' h
        refl
  count_all-unreadable ((oid, some r) ∷ rs) t t' (inl e) h = absurd (ground arith)
  count_all-unreadable ((oid, some r) ∷ rs) t t' (inr u) h =
      let (m, a, b) = >>=-eq-ok (count_one dir receipts binding day hour exclude (some r) t) _ h in
      count_all-unreadable rs m t' u b

  -- With such a file there is no count for any binding.
  pub counts-unreadable :
      (rs : Reservations) (r : ℕ × ℕ × ℕ)
      → HasUnreadable rs
      → counts dir receipts binding day hour exclude rs ≢ ok r
  unfolding counts
  counts-unreadable rs r u h =
      let (t, a, b) =
        >>=-eq-ok (count_all dir receipts binding day hour exclude rs zero_tally) _ h in
      absurd (ground (arith, b, count_all-unreadable rs zero_tally t u a))
