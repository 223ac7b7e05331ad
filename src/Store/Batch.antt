-- ===== src/Store/Batch.antt =====
-- The claim of a batch of rows in one UPDATE: the first `limit` rows that pass a test are changed, and
-- returned as they now are. FindAndClaimPending (outbox.go) and FindAndClaim (capacity_reservation.go)
-- both have this form.
use drone_runner_aws.Base.{
  ℕ, zero, suc, List, [], ◌∷◌, Bool, true, false, In, ◌≡◌, refl, inl, inr, arith, keep, length, min,
  ◌≤◌, Bool-cases, if◌then◌else◌,
}

unfoldable pub claim_up_to : {A : Type 0} → (A → Bool) → (A → A) → ℕ → List A → List A × List A
claim_up_to test f limit [] = ([], [])
claim_up_to test f zero (x ∷ rows) = ([], x ∷ rows)
claim_up_to test f (suc limit) (x ∷ rows) =
    let taken = claim_up_to test f limit rows in
    let passed = claim_up_to test f (suc limit) rows in
    if test x then (f x ∷ taken.0, f x ∷ taken.1) else (passed.0, x ∷ passed.1)

module _ {A : Type 0} (test : A → Bool) (f : A → A) where
  -- As many as pass, up to the limit.
  pub length-claim_up_to :
      (limit : ℕ) (rows : List A)
      → length (claim_up_to test f limit rows).0 ≡ min limit (length (keep test rows))
  unfolding claim_up_to
  length-claim_up_to limit [] = omega arith
  length-claim_up_to zero (j ∷ rows) = omega arith
  length-claim_up_to (suc limit) (j ∷ rows) =
      ground (arith, length-claim_up_to limit rows, length-claim_up_to (suc limit) rows)

  -- What is returned is what was changed: each returned job is a row that passed, as changed.
  pub claimed-In :
      (limit : ℕ) (rows : List A) (k : A)
      → In k (claim_up_to test f limit rows).0
      → (j : A) × In j rows × (test j ≡ true) × (k ≡ f j)
  unfolding claim_up_to
  claimed-In limit [] k m = absurd m
  claimed-In zero (j ∷ rows) k m = absurd m
  claimed-In (suc limit) (j ∷ rows) k m =
      go (test j) refl (claimed-In limit rows k) (claimed-In (suc limit) rows k) m
    where
      go :
          (b : Bool)
          → test j ≡ b
          → (In k (claim_up_to test f limit rows).0
              → (i : A) × In i rows × (test i ≡ true) × (k ≡ f i))
          → (In k (claim_up_to test f (suc limit) rows).0
              → (i : A) × In i rows × (test i ≡ true) × (k ≡ f i))
          → In k
              (if◌then◌else◌ {A = List A × List A} b
                (f j ∷ (claim_up_to test f limit rows).0, f j ∷ (claim_up_to test f limit rows).1)
                (
                  (claim_up_to test f (suc limit) rows).0,
                  j ∷ (claim_up_to test f (suc limit) rows).1,
                )).0
          → (i : A) × In i (j ∷ rows) × (test i ≡ true) × (k ≡ f i)
      go true e taken passed (inl h) = (j, inl refl, e, h)
      go true e taken passed (inr n) = let (i, a, b, c) = taken n in (i, inr a, b, c)
      go false e taken passed n = let (i, a, b, c) = passed n in (i, inr a, b, c)

  -- The returned rows stand in the table as they are returned.
  pub claimed-stored :
      (limit : ℕ) (rows : List A) (k : A)
      → In k (claim_up_to test f limit rows).0
      → In k (claim_up_to test f limit rows).1
  unfolding claim_up_to
  claimed-stored limit [] k m = absurd m
  claimed-stored zero (j ∷ rows) k m = absurd m
  claimed-stored (suc limit) (j ∷ rows) k m =
      go (test j) (claimed-stored limit rows k) (claimed-stored (suc limit) rows k) m
    where
      go :
          (b : Bool)
          → (In k (claim_up_to test f limit rows).0 → In k (claim_up_to test f limit rows).1)
          → (In k (claim_up_to test f (suc limit) rows).0
              → In k (claim_up_to test f (suc limit) rows).1)
          → In k
              (if◌then◌else◌ {A = List A × List A} b
                (f j ∷ (claim_up_to test f limit rows).0, f j ∷ (claim_up_to test f limit rows).1)
                (
                  (claim_up_to test f (suc limit) rows).0,
                  j ∷ (claim_up_to test f (suc limit) rows).1,
                )).0
          → In k
              (if◌then◌else◌ {A = List A × List A} b
                (f j ∷ (claim_up_to test f limit rows).0, f j ∷ (claim_up_to test f limit rows).1)
                (
                  (claim_up_to test f (suc limit) rows).0,
                  j ∷ (claim_up_to test f (suc limit) rows).1,
                )).1
      go true taken passed (inl h) = inl h
      go true taken passed (inr n) = inr (taken n)
      go false taken passed n = inr (passed n)

  -- A limit that is no limit: every row that passes is returned.
  pub claimed-all :
      (limit : ℕ) (rows : List A) (x : A)
      → length rows ≤ limit
      → In x rows
      → test x ≡ true
      → In (f x) (claim_up_to test f limit rows).0
  unfolding claim_up_to
  claimed-all limit [] x h m e = absurd m
  claimed-all zero (y ∷ rows) x h m e = absurd (omega arith)
  claimed-all (suc limit) (y ∷ rows) x h (inl p) e = rw (← p, e) (inl refl)
  claimed-all (suc limit) (y ∷ rows) x h (inr m) e = elim (Bool-cases (test y)) [
    | inl t ↦ rw t (inr (claimed-all limit rows x (omega arith) m e))
    | inr g ↦ rw g (claimed-all (suc limit) rows x (omega arith) m e)
  ]
