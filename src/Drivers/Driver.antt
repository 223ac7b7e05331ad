-- ===== src/Drivers/Driver.antt =====
-- app/drivers/pool.go: the provider of a pool's machines, as the managers see it (the interface
-- Driver), and app/drivers/instance_ops.go: how an instance is found and destroyed through it. What a
-- provider does is outside: a driver is a record of its answers. An error's text is left out.
use drone_runner_aws.Base.{
  ℕ, String, List, [], ◌∷◌, Bool, not, Option, none, some, str_eq, is_empty, if◌then◌else◌,
}
use drone_runner_aws.Base.Text.{lookup}
use drone_runner_aws.Base.Result.{Result, ok, err}
use drone_runner_aws.Types.{Instance, in_use, empty_query, CapacityReservation}
use drone_runner_aws.Store.Instances.{
  StoreError, Conn, find_instance, list_instances, delete_instance,
}
use drone_runner_aws.Drivers.Tenants.{Pool, driver_for_tenant}

pub record Driver : Type 0 where
  -- Each answers the instances that it could not destroy, and whether there was no error.
  pub destroy : List Instance → List Instance × Bool
  pub destroy_instance_and_storage : List Instance → List Instance × Bool
  -- Each answers whether there was no error.
  pub destroy_capacity : CapacityReservation → Bool
  pub hibernate : Instance → Bool
  pub can_hibernate : Bool

-- The manager's map from names to pools.
abbrev pub Pools : Type 0
Pools = List (String × Pool Driver)

pub data ManagerError : Type 0 where
  no_pool driver_failed no_stage_id no_instance : ManagerError
  store_failed : StoreError → ManagerError

abbrev pub from_store {ℓ} : {A : Type ℓ} → Result StoreError A → Result ManagerError A
from_store (ok a) = ok a
from_store (err e) = err (store_failed e)

abbrev pub head_of : List Instance → Result ManagerError Instance
head_of [] = err no_instance
head_of (i ∷ rows) = ok i

abbrev pub first_of : Result StoreError (List Instance) → Result ManagerError Instance
first_of (err e) = err (store_failed e)
first_of (ok rows) = head_of rows

unfoldable pub get_instance_by_stage_id :
    Conn → Pools → String → String → List Instance → Result ManagerError Instance
get_instance_by_stage_id c pools pool stage rows =
    if str_eq stage "" then err no_stage_id else elim (lookup pool pools) [
      | none ↦ err no_pool
      | some _ ↦ first_of (
          list_instances c pool (some (record empty_query { status = some in_use; stage = stage }))
            rows)
    ]

-- The row that is left to delete may be gone, or the deletion may fail: neither is an error.
abbrev pub or_rows : List Instance → Result StoreError (List Instance) → List Instance
or_rows rows (err e) = rows
or_rows rows (ok rows') = rows'

abbrev pub destroy_found :
    Conn → Pool Driver → Instance → List Instance → Result ManagerError (Unit {0}) × List Instance
destroy_found c p i rows =
    let (left, done) = (driver_for_tenant p i.tenant_id).destroy_instance_and_storage (i ∷ []) in
    if not done
    then (err driver_failed, rows)
    else if not (is_empty left)
    then (err driver_failed, rows)
    else (ok tt, or_rows rows (delete_instance c i.id rows))

abbrev pub destroy_answer :
    Conn
    → Pool Driver
    → List Instance
    → Result StoreError Instance
    → Result ManagerError (Unit {0}) × List Instance
destroy_answer c p rows (err e) = (err (store_failed e), rows)
destroy_answer c p rows (ok i) = destroy_found c p i rows

-- `net 0` finds the instance where the caller has none, `net 1` deletes the row.
abbrev pub destroy_in :
    (ℕ → Conn)
    → Option (Pool Driver)
    → String
    → Option Instance
    → List Instance
    → Result ManagerError (Unit {0}) × List Instance
destroy_in net none id known rows = (err no_pool, rows)
destroy_in net (some p) id none rows = destroy_answer (net 1) p rows (find_instance (net 0) id rows)
destroy_in net (some p) id (some i) rows = destroy_answer (net 1) p rows (ok i)

unfoldable pub destroy_instance :
    (ℕ → Conn)
    → Pools
    → String
    → String
    → Option Instance
    → List Instance
    → Result ManagerError (Unit {0}) × List Instance
destroy_instance net pools pool id known rows = destroy_in net (lookup pool pools) id known rows
