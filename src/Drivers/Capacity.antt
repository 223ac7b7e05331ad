-- ===== src/Drivers/Capacity.antt =====
-- Capacity reservations: how one is destroyed (app/drivers/instance_ops.go), and the sweep over old
-- ones (app/drivers/distributed_manager.go). `now` is the runner's clock. The calls of a part that makes
-- several are `net 0`, `net 1` and so on; no other process acts between them.
pub mod Lookup
pub mod Steps
pub mod Trace
pub mod Sweep
pub mod Removal
use drone_runner_aws.Base.{
  ℕ, ◌+◌, ◌-◌, String, List, [], ◌∷◌, ◌++◌, Bool, true, false, not, ◌&&◌, Option, none, some,
  str_eq, keep, is_empty, if◌then◌else◌,
}
use drone_runner_aws.Base.Text.{lookup}
use drone_runner_aws.Base.Result.{Result, ok, err}
use drone_runner_aws.Types.{
  Instance, CapacityReservation, CapacityState, created, in_use, terminating, CapacityQuery,
}
use drone_runner_aws.Store.Instances.{StoreError, Conn}
use drone_runner_aws.Store.Capacity.{
  list_capacities, find_and_claim_capacities, find_capacity, delete_capacity,
}
use drone_runner_aws.Drivers.Driver.{
  Driver, Pools, ManagerError, no_pool, driver_failed, get_instance_by_stage_id, destroy_instance,
}

-- The two tables.
pub record World : Type 0 where
  pub instances : List Instance
  pub capacities : List CapacityReservation

abbrev pub of_stage : String → CapacityQuery
of_stage stage = record { stage_id = stage; pool_name = ""; created_at_before = 0; limit = 1 }

abbrev pub claim_of_stage :
    Conn
    → CapacityReservation
    → List CapacityReservation
    → Result StoreError (List CapacityReservation) × List CapacityReservation
claim_of_stage c r rows =
    find_and_claim_capacities c (some (of_stage r.stage_id)) CapacityState.terminating
      (CapacityState.created ∷ CapacityState.in_use ∷ []) rows

-- A reservation without a stage id is not claimed.
abbrev pub claim_for_termination :
    Conn → CapacityReservation → List CapacityReservation → List CapacityReservation
claim_for_termination c r rows = if str_eq r.stage_id "" then rows else (claim_of_stage c r rows).1

-- The caller's reservation is marked too, if a row was claimed.
abbrev pub mark :
    CapacityReservation → Result StoreError (List CapacityReservation) → CapacityReservation
mark r (ok (k ∷ rows)) = record r { state = CapacityState.terminating }
mark r _ = r

abbrev pub marked : Conn → CapacityReservation → List CapacityReservation → CapacityReservation
marked c r rows = if str_eq r.stage_id "" then r else mark r (claim_of_stage c r rows).0

abbrev pub delete_record : Conn → String → List CapacityReservation → List CapacityReservation
delete_record c stage rows = elim (delete_capacity c stage rows) [ ok rows' ↦ rows' | err e ↦ rows ]

-- `net 0` claims, `net 1` and `net 2` destroy the instance, `net 3` deletes the record.
unfoldable pub destroy_capacity :
    (ℕ → Conn) → Pools → CapacityReservation → World → Result ManagerError (Unit {0}) × World
destroy_capacity net pools r w =
    if str_eq r.pool_name "" then (ok tt, w) else elim (lookup r.pool_name pools) [
      | none ↦ (err no_pool, w)
      | some p ↦
          let claimed = claim_for_termination (net 0) r w.capacities in
          let own = marked (net 0) r w.capacities in
          let instances =
            if str_eq r.instance_id ""
            then w.instances
            else (destroy_instance (λ n. net (n + 1)) pools r.pool_name r.instance_id none
                w.instances).1 in
          if not (str_eq r.reservation_id "") && not (p.driver.destroy_capacity own)
          then (err driver_failed, record { instances = instances; capacities = claimed })
          else (
            ok tt,
            record { instances = instances; capacities = delete_record (net 3) r.stage_id claimed },
          )
    ]

-- The loop over the reservations that were found; an error is logged, and the next one has its turn.
unfoldable pub destroy_capacities : (ℕ → Conn) → Pools → List CapacityReservation → World → World
destroy_capacities net pools [] w = w
destroy_capacities net pools (r ∷ rs) w =
    destroy_capacities (λ n. net (n + 4)) pools rs (destroy_capacity net pools r w).1

-- destroyCapacity: the reservations of the stages of destroyed instances. The lookup takes a call.
unfoldable pub destroy_capacities_of : (ℕ → Conn) → Pools → List Instance → World → World
destroy_capacities_of net pools [] w = w
destroy_capacities_of net pools (i ∷ is) w =
    destroy_capacities_of (λ n. net (n + 5)) pools is
      (if str_eq i.stage "" then w else elim (find_capacity (net 4) i.stage w.capacities) [
        | ok r ↦ (destroy_capacity net pools r w).1
        | err e ↦ w
      ])

abbrev pub answered : {E : Type 0} → Result E (List CapacityReservation) → List CapacityReservation
answered (ok rows) = rows
answered (err e) = []

abbrev pub is_ok : {E A : Type 0} → Result E A → Bool
is_ok (ok a) = true
is_ok (err e) = false

-- The loop over the reservations in use: one whose stage has no instance is claimed. A lookup that fails
-- counts as no instance.
unfoldable pub claim_orphans :
    (ℕ → Conn)
    → Pools
    → String
    → List Instance
    → List CapacityReservation
    → List CapacityReservation
    → List CapacityReservation × List CapacityReservation
claim_orphans net pools pool is [] rows = ([], rows)
claim_orphans net pools pool is (r ∷ rs) rows =
    let skip = claim_orphans (λ n. net (n + 2)) pools pool is rs rows in
    let (answer, rows') =
      find_and_claim_capacities (net 1) (some (of_stage r.stage_id)) CapacityState.terminating
        (CapacityState.in_use ∷ []) rows in
    let rest = claim_orphans (λ n. net (n + 2)) pools pool is rs rows' in
    if str_eq r.stage_id ""
    then skip
    else if is_ok (get_instance_by_stage_id (net 0) pools pool r.stage_id is)
    then skip
    else (answered answer ++ rest.0, rest.1)

abbrev pub older_than : String → ℕ → CapacityQuery
older_than pool before = record {
  stage_id = "";
  pool_name = pool;
  created_at_before = before;
  limit = 0;
}

-- `net 0` lists the reservations in use, the others look up and claim.
unfoldable pub find_orphaned :
    (ℕ → Conn) → Pools → String → ℕ → World → List CapacityReservation × List CapacityReservation
unfolding claim_orphans
find_orphaned net pools pool before w =
    claim_orphans (λ n. net (n + 1)) pools pool w.instances
      (answered (
        list_capacities (net 0) (some (older_than pool before)) (CapacityState.in_use ∷ [])
          w.capacities))
      w.capacities

-- What is found: the stale list, the claimed rows, the orphans; with the table after the claims.
unfoldable pub find_stale_capacities :
    (ℕ → Conn) → Pools → String → ℕ → World → Bool × (List CapacityReservation × World)
unfolding find_orphaned
find_stale_capacities net pools pool before w =
    let q = some (older_than pool before) in
    let stale = list_capacities (net 0) q (CapacityState.terminating ∷ []) w.capacities in
    let (free, rows) =
      find_and_claim_capacities (net 1) q CapacityState.terminating (CapacityState.created ∷ [])
        w.capacities in
    let (orphans, rows') =
      find_orphaned (λ n. net (n + 2)) pools pool before (record w { capacities = rows }) in
    (
      is_ok stale && is_ok free,
      (answered stale ++ (answered free ++ orphans), record w { capacities = rows' }),
    )

-- Whether no lookup has failed, and what becomes of the tables. The destructions are the calls of `later`.
unfoldable pub cleanup_capacities :
    (ℕ → Conn) → (ℕ → Conn) → Pools → String → ℕ → ℕ → World → Bool × World
unfolding find_stale_capacities destroy_capacities
cleanup_capacities net later pools pool now max_age w =
    let (fine, (doomed, w')) = find_stale_capacities net pools pool (now - max_age) w in
    (fine, destroy_capacities later pools doomed w')
