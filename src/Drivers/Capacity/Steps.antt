-- ===== src/Drivers/Capacity/Steps.antt =====
-- The steps of the sweep over reservations as changes of the table, in which the rows that change are
-- among some `D`.
use drone_runner_aws.Base.{
  ℕ, ◌+◌, String, List, [], ◌∷◌, Bool, true, false, not, ◌&&◌, In, ◌≡◌, refl, sym, ap, ◌∙◌, inl,
  inr, Bool-cases, arith, str_eq, eq_iff, Option, some, if◌then◌else◌, Option-cases,
}
use drone_runner_aws.Base.Text.{lookup}
use drone_runner_aws.Base.Result.{Result, ok, err}
use drone_runner_aws.Types.{
  CapacityReservation, CapacityState, created, in_use, terminating, CapacityQuery,
}
use drone_runner_aws.Store.Instances.{StoreError, failed, Conn}
use drone_runner_aws.Store.Batch.{claim_up_to, claimed-In, claimed-stored}
use drone_runner_aws.Store.Capacity.{
  matches_capacity, find_and_claim_capacities, delete_capacity, limit_of, enter, is_free_row,
}
use drone_runner_aws.Store.Capacity.Evolves.{
  Evolves, unchanged, Evolves-trans, Evolves-In, claim-Evolves, keep-Evolves,
}
use drone_runner_aws.Store.Capacity.Listed.{stage-facts}
use drone_runner_aws.Drivers.Driver.{Pools}
use drone_runner_aws.Drivers.Capacity.{
  World, of_stage, claim_for_termination, marked, delete_record, destroy_capacity,
  destroy_capacities, answered,
}

-- What passes a claim's test matches its query.
claims_match :
    (c : Conn) (q : Option CapacityQuery) (allowed : List CapacityState) (r : CapacityReservation)
    → is_free_row c q allowed r ≡ true
    → matches_capacity q allowed r ≡ true
claims_match c q allowed r e = ground arith

module _ (D : CapacityReservation → Type 0) where
  -- A claim into the terminating state, with any answer.
  pub find_and_claim-Evolves :
      (c : Conn) (q : Option CapacityQuery) (allowed : List CapacityState)
      (rows : List CapacityReservation)
      → ((r : CapacityReservation) → In r rows → matches_capacity q allowed r ≡ true → D r)
      → Evolves D rows (find_and_claim_capacities c q terminating allowed rows).1
  unfolding find_and_claim_capacities
  find_and_claim-Evolves c q allowed rows h = elim (Bool-cases c.down) [
    | inl t ↦ rw t (unchanged rows)
    | inr f ↦ rw f (
        claim-Evolves (is_free_row c q allowed) (limit_of q rows) rows
          (λ r m e. h r m (claims_match c q allowed r e)))
  ]

  delete-Evolves :
      (c : Conn) (stage : String) (rows : List CapacityReservation)
      → ((r : CapacityReservation) → In r rows → r.stage_id ≡ stage → D r)
      → Evolves D rows (delete_record c stage rows)
  unfolding delete_capacity
  delete-Evolves c stage rows h = elim (Bool-cases c.down) [
    | inl t ↦ rw t (unchanged rows)
    | inr f ↦ rw f (
        keep-Evolves (λ r. not (str_eq r.stage_id stage)) rows
          (λ r m e. h r m (ground (arith, eq_iff r.stage_id stage))))
  ]

  -- All rows of the stage may be ended.
  abbrev pub Doomed : List CapacityReservation → CapacityReservation → Type 0
  Doomed rows r = (s : CapacityReservation) → In s rows → s.stage_id ≡ r.stage_id → D s

  claim_for_termination-Evolves :
      (c : Conn) (r : CapacityReservation) (rows : List CapacityReservation)
      → Doomed rows r
      → Evolves D rows (claim_for_termination c r rows)
  claim_for_termination-Evolves c r rows h = elim (Bool-cases (str_eq r.stage_id "")) [
    | inl t ↦ rw t (unchanged rows)
    | inr f ↦ rw f (
        find_and_claim-Evolves c (some (of_stage r.stage_id)) (created ∷ in_use ∷ []) rows (λ s m e.
          h s m (
            stage-facts r.stage_id (created ∷ in_use ∷ []) s
              (λ p. ground (arith, eq_iff r.stage_id "")) e)))
  ]

  pub Doomed-Evolves :
      ((r : CapacityReservation) → D r → D (record r { state = terminating }))
      → (r : CapacityReservation) {a b : List CapacityReservation} → Evolves D a b
      → Doomed a r
      → Doomed b r
  Doomed-Evolves stays r e h s m q = elim (Evolves-In e s m) [
    | inl n ↦ h s n q
    | inr (t, n, p) ↦
        rw p (stays t (h t n (ap (λ (x : CapacityReservation). x.stage_id) (sym p) ∙ q)))
  ]

  -- A reservation is destroyed, with whatever errors.
  pub destroy_capacity-Evolves :
      ((r : CapacityReservation) → D r → D (record r { state = terminating }))
      → (net : ℕ → Conn) (pools : Pools) (r : CapacityReservation) (w : World)
      → Doomed w.capacities r
      → Evolves D w.capacities (destroy_capacity net pools r w).1.capacities
  unfolding destroy_capacity
  destroy_capacity-Evolves stays net pools r w h = elim (Bool-cases (str_eq r.pool_name "")) [
    | inl t ↦ rw t (unchanged w.capacities)
    | inr f ↦ elim (Option-cases (lookup r.pool_name pools)) [
      | inl n ↦ rw (f, n) (unchanged w.capacities)
      | inr (p, e) ↦
          elim (Bool-cases (
            not (str_eq r.reservation_id "")
            && not (p.driver.destroy_capacity (marked (net 0) r w.capacities)))) [
              | inl t ↦ rw (f, e, t) ends
              | inr g ↦ rw (f, e, g) removes
            ]
    ]
  ]
    where
      claimed : List CapacityReservation
      claimed = claim_for_termination (net 0) r w.capacities

      ends : Evolves D w.capacities claimed
      ends = claim_for_termination-Evolves (net 0) r w.capacities h

      removes : Evolves D w.capacities (delete_record (net 3) r.stage_id claimed)
      removes =
          Evolves-trans ends
            (delete-Evolves (net 3) r.stage_id claimed (Doomed-Evolves stays r ends h))

  -- And so is a list of them, one after the other.
  pub destroy_capacities-Evolves :
      ((r : CapacityReservation) → D r → D (record r { state = terminating }))
      → (net : ℕ → Conn) (pools : Pools) (rs : List CapacityReservation) (w : World)
      → ((r : CapacityReservation) → In r rs → Doomed w.capacities r)
      → Evolves D w.capacities (destroy_capacities net pools rs w).capacities
  unfolding destroy_capacities
  destroy_capacities-Evolves stays net pools [] w h = unchanged w.capacities
  destroy_capacities-Evolves stays net pools (r ∷ rs) w h =
      let e = destroy_capacity-Evolves stays net pools r w (h r (inl refl)) in
      Evolves-trans e (
        destroy_capacities-Evolves stays (λ n. net (n + 4)) pools rs
          (destroy_capacity net pools r w).1 (λ s m. Doomed-Evolves stays s e (h s (inr m))))

-- A claimed reservation stands in the table as it is returned, and was a row that matches.
pub claimed-facts :
    (c : Conn) (q : Option CapacityQuery) (allowed : List CapacityState)
    (rows : List CapacityReservation) (k : CapacityReservation)
    → In k (answered (find_and_claim_capacities c q terminating allowed rows).0)
    → In k (find_and_claim_capacities c q terminating allowed rows).1
      × ((j : CapacityReservation) × In j rows
          × (matches_capacity q allowed j ≡ true)
          × (k ≡ record j { state = terminating }))
unfolding find_and_claim_capacities
claimed-facts c q allowed rows k m = go c.down m
  where
    test : CapacityReservation → Bool
    test = is_free_row c q allowed

    pair : List CapacityReservation × List CapacityReservation
    pair = claim_up_to test (enter terminating) (limit_of q rows) rows

    go :
        (b : Bool)
        → In k (
            answered
              (if◌then◌else◌
                {A = Result StoreError (List CapacityReservation) × List CapacityReservation} b
                (err failed, rows)
                (ok pair.0, pair.1)).0)
        → In k
            (if◌then◌else◌
              {A = Result StoreError (List CapacityReservation) × List CapacityReservation} b
              (err failed, rows)
              (ok pair.0, pair.1)).1
          × ((j : CapacityReservation) × In j rows
              × (matches_capacity q allowed j ≡ true)
              × (k ≡ record j { state = terminating }))
    go true n = absurd n
    go false n =
        let (j, a, t, e) = claimed-In test (enter terminating) (limit_of q rows) rows k n in
        (
          claimed-stored test (enter terminating) (limit_of q rows) rows k n,
          (j, a, claims_match c q allowed j t, e),
        )
