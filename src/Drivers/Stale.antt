-- ===== src/Drivers/Stale.antt =====
-- app/drivers/purger.go: how a manager of its own pools removes stale instances, and cleans a pool. The
-- calls under a pool's lock stand here one after the other; `order` is the order of a Go map (see
-- Tenanted). Metrics, logs and the ticker are left out; `now` is the runner's clock, in whole seconds.
pub mod Spared
pub mod Cleared
use drone_runner_aws.Base.{
  ℕ, ◌+◌, String, List, [], ◌∷◌, ◌++◌, Bool, Option, none, some, ltb, keep, is_empty, mem_text,
  if◌then◌else◌,
}
use drone_runner_aws.Base.Result.{Result, ok, err}
use drone_runner_aws.Types.{Instance, QueryParams, empty_query, SetupInstanceParams}
use drone_runner_aws.Store.Instances.{StoreError, Conn, delete_instance}
use drone_runner_aws.Drivers.Strategy.{Strategy}
use drone_runner_aws.Drivers.Tenants.{Pool}
use drone_runner_aws.Drivers.Driver.{Driver, Pools}
use drone_runner_aws.Drivers.Tenanted.{destroy_by_tenant}
use drone_runner_aws.Drivers.Purger.{ids_of, stuck_provisioning_max_age}
use drone_runner_aws.Drivers.Clean.{clean_query}
use drone_runner_aws.Drivers.Manager.{Buckets, list_pool}
use drone_runner_aws.Drivers.Build.{idle, build_pool}

pub data StaleError : Type 0 where
  some_left : StaleError
  list_failed delete_failed build_failed : StoreError → StaleError

abbrev pub is_over : ℕ → ℕ → Instance → Bool
is_over now max_age i = ltb (i.started + max_age) now

abbrev pub not_retained : QueryParams
not_retained = record empty_query { match_labels = ("retain", "false") ∷ [] }

-- The first age is for instances in use, the second for idle ones.
abbrev pub stale_of : ℕ → ℕ → ℕ → Buckets → List Instance
stale_of now max_busy max_free b =
    keep (is_over now max_busy) (b.busy ++ b.terminating_rows)
    ++ (keep (is_over now max_free) (idle b)
        ++ keep (is_over now stuck_provisioning_max_age) b.provisioning_rows)

abbrev pub after_delete :
    (List Instance → Result StoreError (Unit {0}) × List Instance)
    → List Instance
    → Result StoreError (List Instance)
    → Result StoreError (Unit {0}) × List Instance
after_delete rest rows (err e) = (err e, rows)
after_delete rest rows (ok rows') = rest rows'

-- The rows of the instances that the drivers have not `left` are deleted, up to the first failure.
unfoldable pub delete_each :
    (ℕ → Conn)
    → List String
    → List Instance
    → List Instance
    → Result StoreError (Unit {0}) × List Instance
delete_each net left [] rows = (ok tt, rows)
delete_each net left (i ∷ is) rows =
    let rest = delete_each (λ n. net (n + 1)) left is in
    if mem_text i.id left
    then rest rows
    else after_delete rest rows (delete_instance (net 0) i.id rows)

abbrev pub Answer : Type 0
Answer = Result StaleError (Unit {0}) × List Instance

module _ (net : ℕ → Conn) (order : List String → List String) (name : String)
    (p : Pool Driver) where
  module _ (setup : Option SetupInstanceParams → List Instance → Bool × List Instance)
      (strategy : Strategy) where
    abbrev pub built : Result StoreError (List Instance) × List Instance → Answer
    built (err e, rows) = (err (build_failed e), rows)
    built (ok _, rows) = (ok tt, rows)

    abbrev pub rebuild : Result StoreError (Unit {0}) × List Instance → Answer
    rebuild (err e, rows) = (err (delete_failed e), rows)
    rebuild (ok _, rows) =
        built (build_pool setup (λ params s. s) strategy (net 1) name p none rows rows)

    abbrev pub purge_found : List Instance → List Instance → Answer
    purge_found [] rows = (ok tt, rows)
    purge_found (i ∷ is) rows = rebuild (
        delete_each (λ n. net (n + 2)) (ids_of (destroy_by_tenant order p (i ∷ is)).0) (i ∷ is)
          rows)

    abbrev pub purge_listed : ℕ → ℕ → ℕ → List Instance → Result StoreError Buckets → Answer
    purge_listed now max_busy max_free rows (err e) = (err (list_failed e), rows)
    purge_listed now max_busy max_free rows (ok b) =
        purge_found (stale_of now max_busy max_free b) rows

    -- `net 0` lists the pool, `net 1` lists it anew to fill it, the others delete.
    unfoldable pub purge_stale_instances : ℕ → ℕ → ℕ → List Instance → Answer
    unfolding delete_each
    purge_stale_instances now max_busy max_free rows =
        purge_listed now max_busy max_free rows (list_pool (net 0) name (some not_retained) rows)

  abbrev pub chosen : Bool → Bool → Buckets → List Instance
  chosen busy free b =
      (if busy then b.busy ++ b.terminating_rows else [])
      ++ (if free then idle b ++ b.provisioning_rows else [])

  abbrev pub checked : List Instance → Result StoreError (Unit {0}) × List Instance → Answer
  checked left (err e, rows) = (err (delete_failed e), rows)
  checked left (ok _, rows) = (if is_empty left then ok tt else err some_left, rows)

  abbrev pub clean_found : List Instance → List Instance → Answer
  clean_found [] rows = (ok tt, rows)
  clean_found (i ∷ is) rows =
      let left = (destroy_by_tenant order p (i ∷ is)).0 in
      checked left (delete_each (λ n. net (n + 1)) (ids_of left) (i ∷ is) rows)

  abbrev pub clean_listed : Bool → Bool → List Instance → Result StoreError Buckets → Answer
  clean_listed busy free rows (err e) = (err (list_failed e), rows)
  clean_listed busy free rows (ok b) = clean_found (chosen busy free b) rows

  -- `net 0` lists the pool, the others delete.
  unfoldable pub clean_pool : QueryParams → Bool → Bool → List Instance → Answer
  unfolding delete_each
  clean_pool q busy free rows = clean_listed busy free rows (list_pool (net 0) name (some q) rows)

abbrev pub last_error :
    Result StaleError (Unit {0}) → Result StaleError (Unit {0}) → Result StaleError (Unit {0})
last_error first (err e) = err e
last_error first (ok _) = first

-- The pools in the order of the map, each with its own calls; the last error is returned.
unfoldable pub clean_pools :
    (String → ℕ → Conn)
    → (List String → List String)
    → String
    → Bool
    → Bool
    → Pools
    → List Instance
    → Answer
unfolding clean_pool
clean_pools net order runner busy free [] rows = (ok tt, rows)
clean_pools net order runner busy free ((name, p) ∷ rest) rows =
    let (answer, rows') = clean_pool (net name) order name p (clean_query runner) busy free rows in
    let (later, rows'') = clean_pools net order runner busy free rest rows' in
    (last_error answer later, rows'')
