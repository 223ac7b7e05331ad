-- ===== src/Drivers/Suspend.antt =====
-- app/drivers/hibernator.go and instance_ops.go: how a manager of its own pools puts an instance to sleep,
-- and wakes it. The pool's lock is released while the provider hibernates the instance: `others` is what
-- happens to the table meanwhile. What the provider answers is a parameter. Pauses, metrics and logs are
-- left out, and an instance that comes with the request is given as it has been decoded.
pub mod Resumed
use drone_runner_aws.Base.{
  ℕ, zero, suc, ◌+◌, String, List, Bool, true, false, not, ◌&&◌, Option, none, some, if◌then◌else◌,
}
use drone_runner_aws.Base.Text.{lookup}
use drone_runner_aws.Base.Result.{Result, ok, err}
use drone_runner_aws.Types.{Instance, InstanceState, created, in_use, hibernating, same_state}
use drone_runner_aws.Store.Instances.{
  StoreError, Conn, find_instance, create_instance, update_instance,
}
use drone_runner_aws.Drivers.Tenants.{Pool, driver_for_tenant}
use drone_runner_aws.Drivers.Driver.{Driver, Pools}

-- The provider's answer to a hibernation: an error may be worth another attempt.
pub data SleepAnswer : Type 0 where
  asleep try_later refused : SleepAnswer

pub data SuspendError : Type 0 where
  no_pool not_started : SuspendError
  find_failed create_failed update_failed : StoreError → SuspendError
  not_hibernated : SleepAnswer → SuspendError

abbrev pub Suspended : Type 0
Suspended = Result SuspendError (Unit {0}) × List Instance

abbrev pub update_answer : List Instance → Result StoreError (List Instance) → Suspended
update_answer rows (err e) = (err (update_failed e), rows)
update_answer rows (ok rows') = (ok tt, rows')

-- `write` changes what was found.
abbrev pub write_found :
    Conn → (Instance → Instance) → List Instance → Result StoreError Instance → Suspended
write_found c write rows (err e) = (err (find_failed e), rows)
write_found c write rows (ok i) = update_answer rows (update_instance c (write i) rows)

abbrev pub enter_state : InstanceState → Instance → Instance
enter_state state i = record i { state = state }

-- `net 0` finds the instance, `net 1` writes it.
unfoldable pub update_inst_state : (ℕ → Conn) → String → InstanceState → List Instance → Suspended
update_inst_state net key state rows =
    write_found (net 1) (enter_state state) rows (find_instance (net 0) key rows)

abbrev pub sleeping : Instance → Instance
sleeping i = record i { is_hibernated = true; state = created }

-- After the provider's answer.
abbrev pub after_sleep : (ℕ → Conn) → String → List Instance → SleepAnswer → Suspended
after_sleep net key rows asleep = write_found (net 1) sleeping rows (find_instance (net 0) key rows)
after_sleep net key rows answer =
    (err (not_hibernated answer), (update_inst_state net key created rows).1)

abbrev pub hibernate_marked :
    (ℕ → Conn)
    → (List Instance → List Instance)
    → SleepAnswer
    → String
    → List Instance
    → Result StoreError (List Instance)
    → Suspended
hibernate_marked net others answer key rows (err e) = (err (update_failed e), rows)
hibernate_marked net others answer key rows (ok rows') = after_sleep net key (others rows') answer

abbrev pub hibernate_found :
    (ℕ → Conn)
    → (List Instance → List Instance)
    → (Instance → SleepAnswer)
    → String
    → List Instance
    → Result StoreError Instance
    → Suspended
hibernate_found net others attempt key rows (err e) = (err (find_failed e), rows)
hibernate_found net others attempt key rows (ok i) =
    let marked = enter_state hibernating i in
    if same_state i.state in_use
    then (ok tt, rows)
    else hibernate_marked (λ n. net (n + 1)) others (attempt marked) key rows
        (update_instance (net 0) marked rows)

-- One attempt makes up to four calls.
unfoldable pub hibernate :
    (ℕ → Conn)
    → (List Instance → List Instance)
    → (Instance → SleepAnswer)
    → String
    → List Instance
    → Suspended
unfolding update_inst_state
hibernate net others attempt key rows =
    hibernate_found (λ n. net (n + 1)) others attempt key rows (find_instance (net 0) key rows)

-- Only the provider's error can ask for another attempt.
abbrev pub again : (List Instance → Suspended) → Suspended → Suspended
again rest (err (not_hibernated try_later), rows) = rest rows
again rest (answer, rows) = (answer, rows)

-- `left` attempts may follow the first one.
unfoldable pub hibernate_attempts :
    ℕ
    → (ℕ → Conn)
    → (ℕ → List Instance → List Instance)
    → (ℕ → Instance → SleepAnswer)
    → String
    → List Instance
    → Suspended
unfolding hibernate
hibernate_attempts zero net others attempt key rows = hibernate net (others 0) (attempt 0) key rows
hibernate_attempts (suc left) net others attempt key rows =
    again
      (hibernate_attempts left (λ n. net (n + 4)) (λ n. others (n + 1)) (λ n. attempt (n + 1)) key)
      (hibernate net (others 0) (attempt 0) key rows)

abbrev pub hibernate_in :
    Option (Pool Driver) → Instance → Bool → (List Instance → Suspended) → List Instance → Suspended
hibernate_in none i fallback_stop go rows = (err no_pool, rows)
hibernate_in (some p) i fallback_stop go rows =
    if not (driver_for_tenant p i.tenant_id).can_hibernate && not fallback_stop
    then (ok tt, rows)
    else go rows

unfoldable pub hibernate_or_stop_with_retries :
    (ℕ → Conn)
    → (ℕ → List Instance → List Instance)
    → (ℕ → Instance → SleepAnswer)
    → Pools
    → String
    → Instance
    → Bool
    → List Instance
    → Suspended
unfolding hibernate_attempts
hibernate_or_stop_with_retries net others attempt pools pool i fallback_stop rows =
    hibernate_in (lookup pool pools) i fallback_stop (hibernate_attempts 2 net others attempt i.id)
      rows

abbrev pub Found : Type 0
Found = Result SuspendError Instance × List Instance

abbrev pub found_answer : Instance → List Instance → Result StoreError (List Instance) → Found
found_answer i rows (err e) = (err (update_failed e), rows)
found_answer i rows (ok rows') = (ok i, rows')

abbrev pub made_free : Conn → Instance → List Instance → Found
made_free c i rows =
    let mine = enter_state created i in found_answer mine rows (update_instance c mine rows)

abbrev pub stored : Conn → Instance → List Instance → Result StoreError (List Instance) → Found
stored c i rows (err e) = (err (create_failed e), rows)
stored c i rows (ok rows') = made_free c i rows'

-- Any error of the lookup counts as a missing row.
abbrev pub or_created : (ℕ → Conn) → Instance → List Instance → Result StoreError Instance → Found
or_created net i rows (ok j) = made_free (net 1) j rows
or_created net i rows (err _) = stored (net 1) i rows (create_instance (net 0) i rows)

unfoldable pub find_or_create_instance : (ℕ → Conn) → Instance → List Instance → Found
find_or_create_instance net i rows =
    or_created (λ n. net (n + 1)) i rows (find_instance (net 0) i.id rows)

abbrev pub then_hibernate : (Instance → List Instance → Suspended) → Found → Suspended
then_hibernate go (err e, rows) = (err e, rows)
then_hibernate go (ok i, rows) = go i rows

abbrev pub suspend_in :
    Option (Pool Driver)
    → (Instance → List Instance → Suspended)
    → Found
    → List Instance
    → Suspended
suspend_in none go found rows = (err no_pool, rows)
suspend_in (some p) go found rows = then_hibernate go found

-- The first three calls find the row or make it, the others hibernate the instance.
unfoldable pub suspend :
    (ℕ → Conn)
    → (ℕ → List Instance → List Instance)
    → (ℕ → Instance → SleepAnswer)
    → Pools
    → String
    → Instance
    → List Instance
    → Suspended
unfolding hibernate_or_stop_with_retries find_or_create_instance
suspend net others attempt pools pool i rows =
    suspend_in (lookup pool pools)
      (λ j. hibernate_or_stop_with_retries (λ n. net (n + 3)) others attempt pools pool j true)
      (find_or_create_instance net i rows) rows

abbrev pub awake : String → Instance → Instance
awake address i = record i { is_hibernated = false; address = address }

-- The provider answers the new address, or fails.
abbrev pub start_answer : Conn → Instance → List Instance → Option String → Found
start_answer c i rows none = (err not_started, rows)
start_answer c i rows (some address) =
    found_answer (awake address i) rows (update_instance c (awake address i) rows)

abbrev pub start_found :
    Conn → (Instance → Option String) → List Instance → Result StoreError Instance → Found
start_found c start rows (err e) = (err (find_failed e), rows)
start_found c start rows (ok i) =
    if not i.is_hibernated then (ok i, rows) else start_answer c i rows (start i)

abbrev pub given_or : Option Instance → Result StoreError Instance → Result StoreError Instance
given_or (some i) found = ok (record i { is_hibernated = true })
given_or none found = found

abbrev pub start_in : Option (Pool Driver) → Found → List Instance → Found
start_in none answer rows = (err no_pool, rows)
start_in (some p) answer rows = answer

-- The instance of the request counts as hibernated; without it, `net 0` finds the row.
unfoldable pub start_instance :
    (ℕ → Conn)
    → (Instance → Option String)
    → Pools
    → String
    → String
    → Option Instance
    → List Instance
    → Found
start_instance net start pools pool id given rows =
    start_in (lookup pool pools)
      (start_found (net 1) start rows (given_or given (find_instance (net 0) id rows))) rows
