-- ===== src/Store/Instances/Claim.antt =====
-- InstanceStore.FindAndClaim: the row that is claimed, and the others.
use drone_runner_aws.Base.{
  List, [], ◌∷◌, Bool, true, false, Option, none, some, keep, In, All, In-keep, keep-In, sym, ◌≡◌,
  refl, subst, ◌⊎◌, inl, inr, Bool-cases, arith, if◌then◌else◌, is_empty, conj-All,
}
use drone_runner_aws.Base.Result.{ok, err}
use drone_runner_aws.Types.{Instance, InstanceState, QueryParams, mem_state}
use drone_runner_aws.Store.Instances.{
  StoreError, no_rows, failed, Conn, comes_before, pick_first, is_candidate, stamp, set_row,
  claim_row, find_and_claim, matches_claim, claim_conditions,
}

comes_before_asym :
    (s : InstanceState) (i j : Instance) → comes_before s i j ≡ true → comes_before s j i ≡ false
unfolding comes_before
comes_before_asym s i j h = ground arith

comes_before_step :
    (s : InstanceState) (k j i : Instance)
    → comes_before s k j ≡ false
    → comes_before s j i ≡ false
    → comes_before s k i ≡ false
unfolding comes_before
comes_before_step s k j i g h = ground arith

comes_before_irrefl : (s : InstanceState) (i : Instance) → comes_before s i i ≡ false
unfolding comes_before
comes_before_irrefl s i = ground arith

-- No row of the list comes before the one that is picked, which is one of them.
abbrev pub IsFirst : InstanceState → Instance → List Instance → Type 0
IsFirst s i rows = In i rows × ((j : Instance) → In j rows → comes_before s j i ≡ false)

pick_first-none :
    (s : InstanceState) (rows : List Instance) → pick_first (comes_before s) rows ≡ none → rows ≡ []
unfolding pick_first
pick_first-none s [] e = refl
pick_first-none s (i ∷ rows) e = ground arith

IsFirst-choose :
    (s : InstanceState) (x j : Instance) (rows : List Instance) (b : Bool)
    → comes_before s j x ≡ b
    → IsFirst s j rows
    → IsFirst s (if b then j else x) (x ∷ rows)
IsFirst-choose s x j rows true b f = (inr f.0, stays)
  where
    stays : (k : Instance) → In k (x ∷ rows) → comes_before s k j ≡ false
    stays k (inl e) = rw e (comes_before_asym s j x b)
    stays k (inr m) = f.1 k m
IsFirst-choose s x j rows false b f = (inl refl, falls)
  where
    falls : (k : Instance) → In k (x ∷ rows) → comes_before s k x ≡ false
    falls k (inl e) = rw e (comes_before_irrefl s x)
    falls k (inr m) = comes_before_step s k j x (f.1 k m) b

IsFirst-alone : (s : InstanceState) (x : Instance) → IsFirst s x (x ∷ [])
IsFirst-alone s x = (inl refl, same)
  where
    same : (k : Instance) → In k (x ∷ []) → comes_before s k x ≡ false
    same k (inl e) = rw e (comes_before_irrefl s x)
    same k (inr m) = absurd m

pick_first-cons :
    (s : InstanceState) (x j : Instance) (rows : List Instance)
    → pick_first (comes_before s) rows ≡ some j
    → pick_first (comes_before s) (x ∷ rows) ≡ some (if comes_before s j x then j else x)
unfolding pick_first
pick_first-cons s x j rows h = ground arith

pick_first-alone :
    (s : InstanceState) (x : Instance) (rows : List Instance)
    → pick_first (comes_before s) rows ≡ none
    → (pick_first (comes_before s) (x ∷ rows) ≡ some x) × (rows ≡ [])
unfolding pick_first
pick_first-alone s x [] n = (refl, refl)
pick_first-alone s x (y ∷ rows) n = ground arith

pub pick_first-IsFirst :
    (s : InstanceState) (rows : List Instance) (i : Instance)
    → pick_first (comes_before s) rows ≡ some i
    → IsFirst s i rows
pick_first-IsFirst s [] i e = unfold pick_first in cc
pick_first-IsFirst s (x ∷ rows) i e =
    go (pick_first (comes_before s) rows) refl (pick_first-IsFirst s rows)
  where
    go :
        (o : Option Instance)
        → pick_first (comes_before s) rows ≡ o
        → ((j : Instance) → pick_first (comes_before s) rows ≡ some j → IsFirst s j rows)
        → IsFirst s i (x ∷ rows)
    go none n ih =
        let (one, nil) = pick_first-alone s x rows n in
        let same : x ≡ i = cc (one, e) in
        subst (λ r. IsFirst s i (x ∷ r)) (sym nil)
          (subst (λ k. IsFirst s k (x ∷ [])) same (IsFirst-alone s x))
    go (some j) h ih =
        let same : (if comes_before s j x then j else x) ≡ i =
          cc (pick_first-cons s x j rows h, e) in
        subst (λ k. IsFirst s k (x ∷ rows)) same
          (IsFirst-choose s x j rows (comes_before s j x) refl (ih j h))

-- What a successful claim promises: the row was there, it met every condition of the query, was in
-- an allowed state and not locked, no other such row comes before it in the order of the query; it
-- is returned as it now stands, and the table differs from the old one in that row alone.
abbrev pub Claims :
    Conn
    → QueryParams
    → InstanceState
    → List InstanceState
    → Bool
    → List Instance
    → Instance
    → List Instance
    → Type 0
Claims c p s allowed u rows claimed rows' =
    (i : Instance) × In i rows
    × (is_candidate c p allowed i ≡ true)
    × ((j : Instance) → In j rows → is_candidate c p allowed j ≡ true → comes_before s j i ≡ false)
    × (claimed ≡ stamp c s u i)
    × (rows' ≡ set_row i.id (stamp c s u) rows)

module _ (c : Conn) (p : QueryParams) (s : InstanceState) (allowed : List InstanceState) (u : Bool)
    (rows : List Instance) where
  claim_row-Claims :
      (o : Option Instance)
      → pick_first (comes_before s) (keep (is_candidate c p allowed) rows) ≡ o
      → (i : Instance) (rows' : List Instance) → claim_row c s u o rows ≡ (ok i, rows')
      → Claims c p s allowed u rows i rows'
  unfolding claim_row
  claim_row-Claims none h i rows' e = cc
  claim_row-Claims (some j) h i rows' e =
      let f = pick_first-IsFirst s (keep (is_candidate c p allowed) rows) j h in
      let m = In-keep (is_candidate c p allowed) j rows f.0 in
      (j, m.0, m.1, λ k n t. f.1 k (keep-In (is_candidate c p allowed) k rows n t), cc, cc)

  -- A claim that succeeds took a row that met every condition of the query, was in an allowed state
  -- and not locked, and that no other such row comes before; it returns the row as it now stands, and
  -- nothing else in the table has changed.
  pub find_and_claim-Claims :
      (i : Instance) (rows' : List Instance)
      → find_and_claim c p s allowed u rows ≡ (ok i, rows')
      → Claims c p s allowed u rows i rows'
  find_and_claim-Claims i rows' e =
      claim_row-Claims (pick_first (comes_before s) (keep (is_candidate c p allowed) rows)) refl i
        rows' (unfold find_and_claim in ground arith)

  claim_row-no_rows :
      (o : Option Instance)
      → pick_first (comes_before s) (keep (is_candidate c p allowed) rows) ≡ o
      → (claim_row c s u o rows).0 ≡ err no_rows
      → keep (is_candidate c p allowed) rows ≡ []
  unfolding claim_row
  claim_row-no_rows none h e = pick_first-none s _ h
  claim_row-no_rows (some j) h e = cc

  -- `sql.ErrNoRows` is answered only when no row meets the conditions.
  pub find_and_claim-no_rows :
      (find_and_claim c p s allowed u rows).0 ≡ err no_rows
      → (i : Instance) → In i rows
      → is_candidate c p allowed i ≡ false
  find_and_claim-no_rows e i m = elim (Bool-cases (is_candidate c p allowed i)) [
    | inr f ↦ f
    | inl t ↦
        let nil =
          claim_row-no_rows (pick_first (comes_before s) (keep (is_candidate c p allowed) rows))
            refl (unfold find_and_claim in ground arith) in
        absurd (subst (In i) nil (keep-In (is_candidate c p allowed) i rows m t))
  ]

  claim_row-cases :
      (o : Option Instance)
      → ((e : StoreError) × (claim_row c s u o rows ≡ (err e, rows)))
        ⊎ ((i : Instance) × (rows' : List Instance) × (claim_row c s u o rows ≡ (ok i, rows')))
  unfolding claim_row
  claim_row-cases none = inl (no_rows, refl)
  claim_row-cases (some i) = inr (stamp c s u i, set_row i.id (stamp c s u) rows, refl)

  -- A claim changes nothing, or keeps its promise.
  pub find_and_claim-cases :
      ((e : StoreError) × (find_and_claim c p s allowed u rows ≡ (err e, rows)))
      ⊎ ((i : Instance) × (rows' : List Instance) × (find_and_claim c p s allowed u rows
            ≡ (ok i, rows'))
          × Claims c p s allowed u rows i rows')
  find_and_claim-cases = elim (Bool-cases c.down) [
    | inl d ↦ inl (failed, unfold find_and_claim in rw d)
    | inr d ↦
        elim (claim_row-cases
          (pick_first (comes_before s) (keep (is_candidate c p allowed) rows))) [
            | inl (e, h) ↦ inl (e, unfold find_and_claim in rw d h)
            | inr (i, rows', h) ↦ inr (
              i,
              rows',
              unfold find_and_claim in rw d h,
              find_and_claim-Claims i rows' (unfold find_and_claim in rw d h),
            )
          ]
  ]

-- Every condition of the query holds of a row that it matches.
pub matches_claim-All :
    (p : QueryParams) (allowed : List InstanceState) (i : Instance)
    → matches_claim p allowed i ≡ true
    → All (λ b. b ≡ true) (claim_conditions p allowed i)
unfolding matches_claim
matches_claim-All p allowed i h = conj-All (claim_conditions p allowed i) h

pub matches_claim-state :
    (p : QueryParams) (allowed : List InstanceState) (i : Instance)
    → is_empty allowed ≡ false
    → matches_claim p allowed i ≡ true
    → mem_state i.state allowed ≡ true
matches_claim-state p allowed i e h =
    let m = (matches_claim-All p allowed i h).1.1.1.1.1.1.1.1.1.0 in ground arith
