-- ===== src/Drivers/Capacity/Removal.antt =====
-- cleanupCapacities: what a sweep without failures removes.
use drone_runner_aws.Base.{
  ℕ, ◌+◌, ◌-◌, ◌<◌, String, List, [], ◌∷◌, true, false, not, ◌&&◌, In, In-left, In-right, In-keep,
  keep-In, ◌≡◌, ◌≢◌, refl, sym, ap, subst, ◌∙◌, inl, inr, arith, keep, str_eq, eq_iff, some, length,
  Bool-cases,
}
use drone_runner_aws.Base.Text.{lookup}
use drone_runner_aws.Base.Result.{Result, ok, err}
use drone_runner_aws.Types.{CapacityReservation, CapacityState, created, in_use, terminating}
use drone_runner_aws.Store.Instances.{StoreError, Conn}
use drone_runner_aws.Store.Batch.{claimed-all}
use drone_runner_aws.Store.Capacity.{
  matches_capacity, list_capacities, find_and_claim_capacities, delete_capacity, enter, is_free_row,
}
use drone_runner_aws.Store.Capacity.Listed.{list-all, older-matches, origin}
use drone_runner_aws.Drivers.Tenants.{Pool}
use drone_runner_aws.Drivers.Driver.{Driver, Pools}
use drone_runner_aws.Drivers.Capacity.{
  World, claim_for_termination, claim_of_stage, mark, marked, delete_record, destroy_capacity,
  destroy_capacities, answered, older_than, find_stale_capacities, cleanup_capacities,
}
use drone_runner_aws.Drivers.Capacity.Steps.{destroy_capacities-Evolves}

abbrev Gone : String → List CapacityReservation → Type 0
Gone stage rows = (s : CapacityReservation) → In s rows → s.stage_id ≢ stage

-- A record that is deleted by a call that goes through.
delete_record-Gone :
    (c : Conn) (stage : String) (rows : List CapacityReservation)
    → c.down ≡ false
    → Gone stage (delete_record c stage rows)
unfolding delete_capacity
delete_record-Gone c stage rows up s m q =
    let n : In s (keep (λ (r : CapacityReservation). not (str_eq r.stage_id stage)) rows) =
      rw up at m in
    let kept = (In-keep (λ r. not (str_eq r.stage_id stage)) s rows n).1 in
    ground (arith, eq_iff s.stage_id stage)

-- A reservation that has ended is marked already.
marked-same :
    (c : Conn) (r : CapacityReservation) (rows : List CapacityReservation)
    → r.state ≡ terminating
    → marked c r rows ≡ r
marked-same c r rows e = elim (Bool-cases (str_eq r.stage_id "")) [
  | inl t ↦ rw t refl
  | inr f ↦ rw f (mark-same (claim_of_stage c r rows).0)
]
  where
    mark-same : (a : Result StoreError (List CapacityReservation)) → mark r a ≡ r
    mark-same (ok (k ∷ rows)) = ap (λ t. record r { state = t }) (sym e)
    mark-same (ok []) = refl
    mark-same (err x) = refl

module _ (pools : Pools) {p : Pool Driver} {pool : String} (known : lookup pool pools ≡ some p)
    (named : pool ≢ "") where
  destroy_capacity-Gone :
      (net : ℕ → Conn) (r : CapacityReservation) (w : World)
      → (net 3).down ≡ false
      → r.pool_name ≡ pool
      → r.state ≡ terminating
      → p.driver.destroy_capacity r ≡ true
      → Gone r.stage_id (destroy_capacity net pools r w).1.capacities
  unfolding destroy_capacity
  destroy_capacity-Gone net r w up own ended works =
      let found : lookup r.pool_name pools ≡ some p = rw own known in
      let named' : str_eq r.pool_name "" ≡ false = ground (arith, eq_iff r.pool_name "") in
      let passed : (not (str_eq r.reservation_id "")
            && not (p.driver.destroy_capacity (marked (net 0) r w.capacities)))
          ≡ false =
        rw (marked-same (net 0) r w.capacities ended) (ground arith) in
      rw (named', found, passed)
        (delete_record-Gone (net 3) r.stage_id (claim_for_termination (net 0) r w.capacities) up)

  -- What has gone does not come back.
  destroy_capacities-Gone_still :
      (net : ℕ → Conn) (rs : List CapacityReservation) (w : World) (stage : String)
      → Gone stage w.capacities
      → Gone stage (destroy_capacities net pools rs w).capacities
  destroy_capacities-Gone_still net rs w stage h s m q =
      let (t, here, same, _, _) =
        origin
          (destroy_capacities-Evolves (λ r. Unit {0}) (λ r d. tt) net pools rs w (λ r n t i e. tt))
          s m in
      h t here (sym same ∙ q)

  destroy_capacities-Gone :
      (net : ℕ → Conn) (rs : List CapacityReservation) (w : World) (r : CapacityReservation)
      → ((n : ℕ) → (net n).down ≡ false)
      → In r rs
      → r.pool_name ≡ pool
      → r.state ≡ terminating
      → p.driver.destroy_capacity r ≡ true
      → Gone r.stage_id (destroy_capacities net pools rs w).capacities
  unfolding destroy_capacities
  destroy_capacities-Gone net [] w r up m own ended works = absurd m
  destroy_capacities-Gone net (x ∷ rs) w r up (inl e) own ended works =
      destroy_capacities-Gone_still (λ n. net (n + 4)) rs (destroy_capacity net pools x w).1
        r.stage_id
        (subst
          (λ (y : CapacityReservation).
            Gone r.stage_id (destroy_capacity net pools y w).1.capacities)
          e (destroy_capacity-Gone net r w (up 3) own ended works))
  destroy_capacities-Gone net (x ∷ rs) w r up (inr m) own ended works =
      destroy_capacities-Gone (λ n. net (n + 4)) rs (destroy_capacity net pools x w).1 r
        (λ n. up (n + 4)) m own ended works

-- A claim without a limit takes each row that passes.
claim-all :
    (c : Conn) (pool : String) (before : ℕ) (rows : List CapacityReservation)
    (r : CapacityReservation)
    → c.down ≡ false
    → In r rows
    → is_free_row c (some (older_than pool before)) (created ∷ []) r ≡ true
    → In
        (record r { state = terminating })
        (answered
          (find_and_claim_capacities c
            (some (older_than pool before))
            terminating
            (created ∷ [])
            rows).0)
unfolding find_and_claim_capacities
claim-all c pool before rows r up m e = rw up (
    claimed-all (is_free_row c (some (older_than pool before)) (created ∷ [])) (enter terminating)
      (length rows) rows r (omega arith) m e)

module _ (net : ℕ → Conn) (pools : Pools) (pool : String) (before : ℕ) (w : World) where
  abbrev found : List CapacityReservation
  found = (find_stale_capacities net pools pool before w).1.0

module _ (net : ℕ → Conn) (pools : Pools) (pool : String) (before : ℕ) (w : World)
    (r : CapacityReservation) (own : r.pool_name ≡ pool) (old : r.created_at < before)
    (here : In r w.capacities) where
  -- One that an earlier sweep has left is listed.
  terminating-found :
      (net 0).down ≡ false → r.state ≡ terminating → In r (found net pools pool before w)
  unfolding find_stale_capacities
  terminating-found up e =
      In-left
        (answered
          (list_capacities (net 0) (some (older_than pool before)) (terminating ∷ []) w.capacities))
        _ r
        (rw (list-all (net 0) pool before (terminating ∷ []) w.capacities up) (
          keep-In (matches_capacity (some (older_than pool before)) (terminating ∷ [])) r
            w.capacities here (older-matches pool before terminating r own old e)))

  -- One that is not in use yet is claimed.
  created-found :
      (net 1).down ≡ false
      → (net 1).locked r.stage_id ≡ false
      → r.state ≡ created
      → In (record r { state = terminating }) (found net pools pool before w)
  unfolding find_stale_capacities
  created-found up free e =
      let passed = older-matches pool before created r own old e in
      In-right
        (answered
          (list_capacities (net 0) (some (older_than pool before)) (terminating ∷ []) w.capacities))
        _ (record r { state = terminating })
        (In-left _ _ (record r { state = terminating })
          (claim-all (net 1) pool before w.capacities r up here (ground arith)))

-- A reservation of the pool that is older than the maximal age and not in use is removed, if no call
-- fails, it is not locked, and the driver destroys it: after the sweep its stage has no reservation.
pub cleanup_capacities-removes :
    (net later : ℕ → Conn) (pools : Pools) (p : Pool Driver) (pool : String) (now max_age : ℕ)
    (w : World) (r : CapacityReservation)
    → lookup pool pools ≡ some p
    → pool ≢ ""
    → ((n : ℕ) → (net n).down ≡ false)
    → ((n : ℕ) → (later n).down ≡ false)
    → (net 1).locked r.stage_id ≡ false
    → p.driver.destroy_capacity (record r { state = terminating }) ≡ true
    → In r w.capacities
    → r.pool_name ≡ pool
    → r.created_at + max_age < now
    → r.state ≢ in_use
    → (s : CapacityReservation)
    → In s (cleanup_capacities net later pools pool now max_age w).1.capacities
    → s.stage_id ≢ r.stage_id
unfolding cleanup_capacities
cleanup_capacities-removes net later pools p pool now max_age w r known named up up' free works m
      own old idle =
    destroy_capacities-Gone pools known named later (found net pools pool before w)
      (find_stale_capacities net pools pool before w).1.1 (record r { state = terminating }) up'
      (go r.state refl) own refl works
  where
    before : ℕ
    before = now - max_age

    go :
        (t : CapacityState)
        → r.state ≡ t
        → In (record r { state = terminating }) (found net pools pool before w)
    go created e = created-found net pools pool before w r own (omega arith) m (up 1) free e
    go in_use e = absurd (idle e)
    go terminating e =
        subst (λ (x : CapacityReservation). In x (found net pools pool before w))
          (ap (λ (u : CapacityState). record r { state = u }) e)
          (terminating-found net pools pool before w r own (omega arith) m (up 0) e)
