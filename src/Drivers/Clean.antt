-- ===== src/Drivers/Clean.antt =====
-- app/drivers/distributed_manager.go: CleanPools, which destroys the instances of the runner's pools. The
-- instances of a pool are claimed one by one, in a loop without a bound: `fuel` bounds it here, and Claims
-- shows how much is enough. No other process acts between the calls of one clean-up.
pub mod Claims
pub mod Cleared
use drone_runner_aws.Base.{
  ℕ, zero, suc, ◌+◌, String, List, [], ◌∷◌, ◌++◌, Bool, true, false, not, ◌&&◌, Option, none, some,
  is_empty, keep, mem_text, if◌then◌else◌,
}
use drone_runner_aws.Base.Result.{Result, ok, err}
use drone_runner_aws.Types.{
  Instance, InstanceState, created, in_use, hibernating, provisioning, terminating, QueryParams,
  empty_query,
}
use drone_runner_aws.Store.Instances.{StoreError, no_rows, failed, Conn, find_and_claim}
use drone_runner_aws.Drivers.Tenants.{Pool}
use drone_runner_aws.Drivers.Driver.{Driver, Pools}
use drone_runner_aws.Drivers.Tenanted.{destroy_by_tenant}
use drone_runner_aws.Drivers.Purger.{ids_of, destroyed_by, delete_destroyed}
use drone_runner_aws.Drivers.Capacity.{World, destroy_capacities_of}

pub data CleanError : Type 0 where
  nothing_to_clean : CleanError
  claim_failed delete_failed : StoreError → CleanError

-- The claims so far and the table; `none` is out of fuel. After an error the list is dropped.
abbrev pub Claimed : Type 0
Claimed = Option (Result StoreError (List Instance) × List Instance)

abbrev pub and_claimed : Instance → Claimed → Claimed
and_claimed i none = none
and_claimed i (some (err e, rows)) = some (err e, rows)
and_claimed i (some (ok is, rows)) = some (ok (i ∷ is), rows)

abbrev pub claim_more :
    (List Instance → Claimed) → Result StoreError Instance × List Instance → Claimed
claim_more rest (err no_rows, rows) = some (ok [], rows)
claim_more rest (err failed, rows) = some (err failed, rows)
claim_more rest (ok i, rows) = and_claimed i (rest rows)

unfoldable pub claim_all :
    ℕ → (ℕ → Conn) → QueryParams → List InstanceState → List Instance → Claimed
claim_all zero net q allowed rows = none
claim_all (suc fuel) net q allowed rows =
    claim_more (λ rows'. claim_all fuel (λ n. net (n + 1)) q allowed rows')
      (find_and_claim (net 0) q terminating allowed false rows)

abbrev pub cleaned_states : Bool → Bool → List InstanceState
cleaned_states busy free =
    (if busy then in_use ∷ [] else [])
    ++ (if free then created ∷ hibernating ∷ provisioning ∷ [] else [])

abbrev pub Cleaned : Type 0
Cleaned = Result CleanError (Unit {0}) × World

-- `destroyed` have been destroyed, and their rows are deleted, or not.
abbrev pub release :
    (ℕ → Conn)
    → Pools
    → List Instance
    → World
    → Result StoreError (List Instance) × List Instance
    → Cleaned
release net pools destroyed w (err e, rows) = (err (delete_failed e), record w { instances = rows })
release net pools destroyed w (ok _, rows) =
    (ok tt, destroy_capacities_of net pools destroyed (record w { instances = rows }))

-- `later 0` deletes the rows, the other calls of `later` are for the reservations.
abbrev pub destroy_claimed :
    (ℕ → Conn)
    → (List String → List String)
    → Pools
    → Pool Driver
    → World
    → Claimed
    → Option Cleaned
destroy_claimed later order pools p w none = none
destroy_claimed later order pools p w (some (err e, rows)) =
    some (err (claim_failed e), record w { instances = rows })
destroy_claimed later order pools p w (some (ok [], rows)) =
    some (ok tt, record w { instances = rows })
destroy_claimed later order pools p w (some (ok (i ∷ is), rows)) =
    let destroyed =
      destroyed_by (λ claimed. ids_of (destroy_by_tenant order p claimed).0) (i ∷ is) in
    some
      (release (λ n. later (n + 1)) pools destroyed w (delete_destroyed (later 0) destroyed rows))

unfoldable pub clean_pool :
    ℕ
    → (ℕ → Conn)
    → (ℕ → Conn)
    → (List String → List String)
    → Pools
    → String
    → Pool Driver
    → QueryParams
    → Bool
    → Bool
    → World
    → Option Cleaned
unfolding claim_all destroy_capacities_of
clean_pool fuel net later order pools name p q busy free w =
    if not busy && not free
    then some (err nothing_to_clean, w)
    else destroy_claimed later order pools p w
        (claim_all fuel net (record q { pool_name = name }) (cleaned_states busy free) w.instances)

abbrev pub clean_query : String → QueryParams
clean_query runner = record empty_query {
  runner_name = runner;
  match_labels = ("retain", "false") ∷ [];
}

-- What is left of an error once the later pools have been cleaned.
abbrev pub later_error :
    Result CleanError (Unit {0}) → Result CleanError (Unit {0}) → Result CleanError (Unit {0})
later_error first (err e) = err e
later_error first (ok _) = first

abbrev pub then_pool : (World → Option Cleaned) → Option Cleaned → Option Cleaned
then_pool rest none = none
then_pool rest (some (answer, w)) = elim (rest w) [
  | none ↦ none
  | some (answer', w') ↦ some (later_error answer answer', w')
]

-- The pools in the order in which the map gives them, each with its own calls; the last error is returned.
unfoldable pub clean_pools :
    ℕ
    → (String → ℕ → Conn)
    → (String → ℕ → Conn)
    → (List String → List String)
    → Pools
    → String
    → Bool
    → Bool
    → Pools
    → World
    → Option Cleaned
unfolding clean_pool
clean_pools fuel net later order pools runner busy free [] w = some (ok tt, w)
clean_pools fuel net later order pools runner busy free ((name, p) ∷ rest) w =
    then_pool (λ w'. clean_pools fuel net later order pools runner busy free rest w')
      (clean_pool fuel (net name) (later name) order pools name p (clean_query runner) busy free w)
