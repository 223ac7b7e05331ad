-- ===== src/Drivers/Hibernate.antt =====
-- app/drivers/distributed_manager.go: what follows the creation of an instance for a pool, in the
-- background: the wait for its health, and its hibernation. The provider answers each of the three
-- attempts; what other processes do to the table meanwhile is `others`. The pauses and logs are left out.
pub mod Outcomes
use drone_runner_aws.Base.{
  ℕ, ◌+◌, String, List, [], ◌∷◌, Bool, true, false, not, ◌&&◌, ◌||◌, Option, none, some, str_eq,
  if◌then◌else◌,
}
use drone_runner_aws.Base.Text.{lookup}
use drone_runner_aws.Base.Result.{Result, ok, err}
use drone_runner_aws.Types.{
  Instance, created, hibernating, QueryParams, empty_query, SetupInstanceParams, default_variant_id,
}
use drone_runner_aws.Store.Instances.{
  StoreError, Conn, find_and_claim, update_instance, find_instance,
}
use drone_runner_aws.Store.Outbox.{Outbox}
use drone_runner_aws.Drivers.Tenants.{Pool, driver_for_tenant}
use drone_runner_aws.Drivers.Driver.{Driver, Pools, destroy_instance}
use drone_runner_aws.Drivers.Provision.{setup_instance_async}

pub data HibernateError : Type 0 where
  no_pool not_hibernated : HibernateError
  claim_failed update_failed : StoreError → HibernateError

abbrev pub hibernate_query : String → String → QueryParams
hibernate_query pool id = record empty_query { pool_name = pool; instance_id = id }

-- The attempts end with the first that succeeds.
abbrev pub hibernate_attempts : (ℕ → Bool) → Bool
hibernate_attempts attempt = attempt 1 || attempt 2 || attempt 3

-- The row that is written back: as it was claimed, in the state `created`.
abbrev pub woken : Bool → Instance → Instance
woken done i = record i { state = created; is_hibernated = if done then true else i.is_hibernated }

abbrev pub hibernate_answer :
    Bool → Result StoreError (List Instance) → Result HibernateError (Unit {0})
hibernate_answer done (err e) = err (update_failed e)
hibernate_answer true (ok rows) = ok tt
hibernate_answer false (ok rows) = err not_hibernated

abbrev pub rows_or : List Instance → Result StoreError (List Instance) → List Instance
rows_or rows (err e) = rows
rows_or rows (ok rows') = rows'

-- What is done with the answer of the claim.
abbrev pub hibernate_claimed :
    Conn
    → (List Instance → List Instance)
    → (Instance → ℕ → Bool)
    → Result StoreError Instance × List Instance
    → Result HibernateError (Unit {0}) × List Instance
hibernate_claimed c others attempt (err e, rows) = (err (claim_failed e), rows)
hibernate_claimed c others attempt (ok i, rows) =
    let done = hibernate_attempts (attempt i) in
    let written = update_instance c (woken done i) (others rows) in
    (hibernate_answer done written, rows_or (others rows) written)

abbrev pub if_known {ℓ} : {A : Type ℓ} → Option (Pool Driver) → A → A → A
if_known none missing found = missing
if_known (some p) missing found = found

-- `net 0` claims the instance, `net 1` writes it back.
unfoldable pub hibernate :
    (ℕ → Conn)
    → (List Instance → List Instance)
    → (Instance → ℕ → Bool)
    → Pools
    → String
    → Instance
    → Bool
    → List Instance
    → Result HibernateError (Unit {0}) × List Instance
hibernate net others attempt pools pool i should rows =
    if_known (lookup pool pools) (err no_pool, rows)
      (if not should
        then (ok tt, rows)
        else hibernate_claimed (net 1) others attempt (
            find_and_claim (net 0) (hibernate_query pool i.id) hibernating (created ∷ []) false
              rows))

-- A variant has its own setting, the base instances follow the driver.
abbrev pub should_hibernate : Pool Driver → SetupInstanceParams → Instance → Bool
should_hibernate p params i =
    if not (str_eq params.variant_id "") && not (str_eq params.variant_id default_variant_id)
    then params.hibernate
    else (driver_for_tenant p i.tenant_id).can_hibernate

-- The instance is looked up anew, has an address, and answers the health check.
abbrev pub is_connected : (Instance → Bool) → Result StoreError Instance → Bool
is_connected healthy (err e) = false
is_connected healthy (ok i) = not (str_eq i.address "") && healthy i

abbrev pub after_update :
    (List Instance → Result HibernateError (Unit {0}) × List Instance)
    → List Instance
    → Result StoreError (List Instance)
    → List Instance
after_update go rows (err e) = rows
after_update go rows (ok rows') = (go rows').1

-- `net 0` looks the instance up. If it is not reachable, it is destroyed, and a job is to replace it;
-- or else `net 1` makes it available, and it is hibernated.
unfoldable pub after_setup :
    (ℕ → Conn)
    → (List Instance → List Instance)
    → (Instance → ℕ → Bool)
    → (Instance → Bool)
    → Pools
    → String
    → Pool Driver
    → String
    → SetupInstanceParams
    → Instance
    → List Instance
    → Outbox
    → List Instance × Outbox
unfolding hibernate
after_setup net others attempt healthy pools pool p runner params i rows o =
    if is_connected healthy (find_instance (net 0) i.id rows)
    then (
      after_update
          (hibernate (λ n. net (n + 2)) others attempt pools pool i (should_hibernate p params i))
          rows (update_instance (net 1) (record i { state = created }) rows),
      o,
    )
    else (
      (destroy_instance (λ n. net (n + 1)) pools pool i.id (some i) rows).1,
      setup_instance_async (net 3) pool runner params o,
    )
