-- ===== src/Drivers/Capacity/Trace.antt =====
-- What the claims of cleanupCapacities do, told from what they return.
use drone_runner_aws.Base.{
  ℕ, ◌+◌, ◌<◌, String, List, [], ◌∷◌, ◌++◌, true, false, In, In-append, ◌≡◌, ◌≢◌, refl, sym, ap,
  ◌∙◌, ◌⊎◌, inl, inr, Bool-cases, str_eq, Option, some, Distinct,
}
use drone_runner_aws.Base.Text.{lookup, text-differ}
use drone_runner_aws.Base.Result.{Result, ok, err}
use drone_runner_aws.Types.{
  Instance, CapacityReservation, CapacityState, in_use, terminating, CapacityQuery,
}
use drone_runner_aws.Store.Instances.{StoreError, Conn}
use drone_runner_aws.Store.Capacity.{matches_capacity, list_capacities, find_and_claim_capacities}
use drone_runner_aws.Store.Capacity.Evolves.{Evolves, unchanged, Evolves-trans, Evolves-In}
use drone_runner_aws.Store.Capacity.Listed.{
  stage_ids, stage-facts, list-In, origin, Evolves-Distinct, stages_unique,
}
use drone_runner_aws.Drivers.Tenants.{Pool}
use drone_runner_aws.Drivers.Driver.{Driver, Pools, get_instance_by_stage_id}
use drone_runner_aws.Drivers.Capacity.{of_stage, answered, is_ok, claim_orphans}
use drone_runner_aws.Drivers.Capacity.Steps.{find_and_claim-Evolves, claimed-facts}
use drone_runner_aws.Drivers.Capacity.Lookup.{no_instance_of_stage}

-- Of the pool, and made before the time.
abbrev pub Old : String → ℕ → CapacityReservation → Type 0
Old pool before r = (r.pool_name ≡ pool) × (r.created_at < before)

-- A reservation that the sweep may end or remove: an old one of the pool, and if it is in use, then no
-- instance of the pool is in use for its stage.
abbrev pub Due : String → ℕ → List Instance → CapacityReservation → Type 0
Due pool before is r =
    Old pool before r
    × (r.state ≡ in_use
        → (i : Instance) → In i is
        → i.pool ≡ pool
        → i.state ≡ in_use
        → i.stage ≢ r.stage_id)

-- What was ended stays ended: every row of the stage is old and terminating.
abbrev pub Settled : String → ℕ → List CapacityReservation → CapacityReservation → Type 0
Settled pool before rows r =
    (s : CapacityReservation)
    → In s rows
    → s.stage_id ≡ r.stage_id
    → Old pool before s × (s.state ≡ terminating)

pub settle :
    {D : CapacityReservation → Type 0} (pool : String) (before : ℕ) {a b : List CapacityReservation}
    → Distinct (stage_ids a)
    → Evolves D a b
    → (r : CapacityReservation) → In r a
    → Old pool before r
    → r.state ≡ terminating
    → Settled pool before b r
settle pool before {a} d e r m old t s n q = elim (Evolves-In e s n) [
  | inl here ↦ let same : s ≡ r = stages_unique a s r d here m q in (rw same old, rw same t)
  | inr (x, there, p) ↦
      let same : x ≡ r =
        stages_unique a x r d there m (ap (λ (y : CapacityReservation). y.stage_id) (sym p) ∙ q) in
      (rw (p, same) old, rw p refl)
]

module _ (pool : String) (before : ℕ) (is : List Instance) (pools : Pools) {p : Pool Driver}
    (known : lookup pool pools ≡ some p) where
  -- The rows of the stages of the listed reservations are old.
  abbrev pub Listed : List CapacityReservation → List CapacityReservation → Type 0
  Listed rs rows =
      (r : CapacityReservation)
      → In r rs
      → (s : CapacityReservation) → In s rows
      → s.stage_id ≡ r.stage_id
      → Old pool before s

  Listed-Evolves :
      (rs : List CapacityReservation) {a b : List CapacityReservation}
      → Evolves (Due pool before is) a b
      → Listed rs a
      → Listed rs b
  Listed-Evolves rs e h r m s n q =
      let (t, here, stage, own, time) = origin e s n in
      let old = h r m t here (sym stage ∙ q) in (own ∙ old.0, rw time old.1)

  -- What is returned of a table was ended in it, and the table has changed in rows that are due.
  abbrev pub Traced :
      List CapacityReservation → List CapacityReservation × List CapacityReservation → Type 0
  Traced rows out =
      Evolves (Due pool before is) rows out.1
      × ((k : CapacityReservation) → In k out.0 → Settled pool before out.1 k)

  -- The claims, whatever they ask for, of rows that are due.
  module _ (c : Conn) (q : CapacityQuery) (allowed : List CapacityState)
      (rows : List CapacityReservation) (distinct : Distinct (stage_ids rows))
      (due : (r : CapacityReservation)
        → In r rows
        → matches_capacity (some q) allowed r ≡ true
        → Due pool before is r) where
    abbrev claim : Result StoreError (List CapacityReservation) × List CapacityReservation
    claim = find_and_claim_capacities c (some q) terminating allowed rows

    pub claim_ends : Evolves (Due pool before is) rows claim.1
    claim_ends = find_and_claim-Evolves (Due pool before is) c (some q) allowed rows due

    pub claim-Traced :
        (rest : List CapacityReservation × List CapacityReservation)
        → Traced claim.1 rest
        → Traced rows (answered claim.0 ++ rest.0, rest.1)
    claim-Traced rest t =
        (Evolves-trans claim_ends t.0, λ k m. go k (In-append (answered claim.0) rest.0 k m))
      where
        mine : (k : CapacityReservation) → In k (answered claim.0) → Settled pool before rest.1 k
        mine k m =
            let (here, (j, there, passed, e)) = claimed-facts c (some q) allowed rows k m in
            let old : Old pool before k = rw e ((due j there passed).0) in
            settle pool before (Evolves-Distinct claim_ends distinct) t.0 k here old (rw e refl)

        go :
            (k : CapacityReservation)
            → In k (answered claim.0) ⊎ In k rest.0
            → Settled pool before rest.1 k
        go k (inl m) = mine k m
        go k (inr m) = t.1 k m

  -- One round of the loop; `rest` is the loop from any table on.
  claim_orphan-Traced :
      (net : ℕ → Conn) (r : CapacityReservation) (rs rows : List CapacityReservation)
      → (net 0).down ≡ false
      → Distinct (stage_ids rows)
      → Listed (r ∷ rs) rows
      → ((rows' : List CapacityReservation)
          → Evolves (Due pool before is) rows rows'
          → Traced rows' (claim_orphans (λ n. net (n + 2)) pools pool is rs rows'))
      → Traced rows (claim_orphans net pools pool is (r ∷ rs) rows)
  unfolding claim_orphans
  claim_orphan-Traced net r rs rows up d h rest = elim (Bool-cases (str_eq r.stage_id "")) [
    | inl t ↦ rw t (rest rows (unchanged rows))
    | inr f ↦
        elim (Bool-cases (is_ok (get_instance_by_stage_id (net 0) pools pool r.stage_id is))) [
          | inl t ↦ rw (f, t) (rest rows (unchanged rows))
          | inr g ↦
              let due = due_of (text-differ r.stage_id "" f) g in
              rw (f, g)
                (claim-Traced (net 1) (of_stage r.stage_id) (in_use ∷ []) rows d due _
                  (rest _ (claim_ends (net 1) (of_stage r.stage_id) (in_use ∷ []) rows d due)))
        ]
  ]
    where
      due_of :
          r.stage_id ≢ ""
          → is_ok (get_instance_by_stage_id (net 0) pools pool r.stage_id is) ≡ false
          → (s : CapacityReservation) → In s rows
          → matches_capacity (some (of_stage r.stage_id)) (in_use ∷ []) s ≡ true
          → Due pool before is s
      due_of ne g s m e =
          let q = stage-facts r.stage_id (in_use ∷ []) s ne e in
          (
            h r (inl refl) s m q,
            λ busy i n own used mine.
                no_instance_of_stage (net 0) pools p pool r.stage_id is known up ne g i n own used
                  (mine ∙ q),
          )

  pub claim_orphans-Traced :
      (net : ℕ → Conn) (rs rows : List CapacityReservation)
      → ((n : ℕ) → (net n).down ≡ false)
      → Distinct (stage_ids rows)
      → Listed rs rows
      → Traced rows (claim_orphans net pools pool is rs rows)
  unfolding claim_orphans
  claim_orphans-Traced net [] rows up d h = (unchanged rows, λ k m. absurd m)
  claim_orphans-Traced net (r ∷ rs) rows up d h =
      claim_orphan-Traced net r rs rows (up 0) d h (λ rows' e.
        claim_orphans-Traced (λ n. net (n + 2)) rs rows' (λ n. up (n + 2)) (Evolves-Distinct e d)
          (Listed-Evolves rs e (λ s m. h s (inr m))))

  -- An answered list: rows of the table that match.
  pub answered-In :
      (c : Conn) (q : Option CapacityQuery) (states : List CapacityState)
      (rows : List CapacityReservation) (r : CapacityReservation)
      → In r (answered (list_capacities c q states rows))
      → In r rows × (matches_capacity q states r ≡ true)
  answered-In c q states rows r m = go (list_capacities c q states rows) refl m
    where
      go :
          (a : Result StoreError (List CapacityReservation))
          → list_capacities c q states rows ≡ a
          → In r (answered a)
          → In r rows × (matches_capacity q states r ≡ true)
      go (ok rs) e n = list-In c q states rows rs r e n
      go (err x) e n = absurd n
