-- ===== src/Tests/PurgerTests.antt =====
-- Runs of the building, cleaning and sweeping of a manager's own pools, and of suspended instances.
use drone_runner_aws.Base.{
  ℕ, ◌+◌, String, List, [], ◌∷◌, Bool, true, false, Option, none, some, In, Distinct, ◌≡◌, ◌≢◌,
  refl, inl, inr,
}
use drone_runner_aws.Base.Text.{lookup, text-differ}
use drone_runner_aws.Base.Result.{ok}
use drone_runner_aws.Types.{Instance, created, SetupInstanceParams}
use drone_runner_aws.Store.Instances.{
  list_instances, matches_list, sort_by_started, insert_by_started, delete_instance, find_instance,
  set_row, overwrite,
}
use drone_runner_aws.Drivers.Strategy.{min_max}
use drone_runner_aws.Drivers.Purger.{ids_of}
use drone_runner_aws.Drivers.Tenanted.{destroy_by_tenant}
use drone_runner_aws.Drivers.Manager.{buckets_of}
use drone_runner_aws.Drivers.Stale.{purge_stale_instances, clean_pool, delete_each, not_retained}
use drone_runner_aws.Drivers.Stale.Spared.{is_stale, purge_stale_instances-spares}
use drone_runner_aws.Drivers.Stale.Cleared.{clean_pool-Gone}
use drone_runner_aws.Drivers.Suspend.{SleepAnswer, asleep, awake, suspend, start_instance}
use drone_runner_aws.Drivers.Suspend.Resumed.{suspend-start_instance}
use drone_runner_aws.Tests.{conn_at, row, two_rows, linux_only, one_pool, one_pool-linux}

-- The state counts the set-ups.
abbrev count_up : Option SetupInstanceParams → ℕ → Bool × ℕ
count_up params n = (true, n + 1)

abbrev labelled : String → ℕ → Instance
labelled id started = record (row id created started) { labels = ("retain", "false") ∷ [] }

abbrev old_and_new : List Instance
old_and_new = labelled "old" 10 ∷ labelled "new" 900 ∷ []

abbrev no_set_up : Option SetupInstanceParams → List Instance → Bool × List Instance
no_set_up params rows = (false, rows)

fresh : is_stale 1000 300 500 "linux" (labelled "new" 900) ≡ false
unfolding lookup
fresh = refl

purge_stale_instances-spares_example :
    In
      (labelled "new" 900)
      (purge_stale_instances
        (λ n. conn_at 1000)
        (λ ts. ts)
        "linux"
        linux_only
        no_set_up
        min_max
        1000
        300
        500
        old_and_new).1
purge_stale_instances-spares_example =
    purge_stale_instances-spares (λ n. conn_at 1000) (λ ts. ts) "linux" linux_only no_set_up min_max
      1000 300 500 old_and_new (labelled "new" 900) (λ params s m. m) distinct (inr (inl refl))
      fresh
  where
    distinct : Distinct (ids_of old_and_new)
    distinct = ((text-differ "old" "new" refl, tt), (tt, tt))

abbrev elsewhere : Instance
elsewhere = record (row "vm-3" created 30) { pool = "windows" }

cleaned :
    clean_pool
      (λ n. conn_at 100)
      (λ ts. ts)
      "linux"
      linux_only
      not_retained
      false
      true
      (labelled "vm-1" 20 ∷ elsewhere ∷ [])
    ≡ (ok tt, elsewhere ∷ [])
unfolding clean_pool delete_each list_instances sort_by_started insert_by_started buckets_of lookup
    delete_instance destroy_by_tenant
cleaned = refl

selected : matches_list "linux" (some not_retained) (labelled "vm-1" 20) ≡ true
unfolding lookup
selected = refl

clean_pool-Gone_example : "vm-3" ≢ (labelled "vm-1" 20).id
clean_pool-Gone_example =
    clean_pool-Gone (λ n. conn_at 100) (λ ts. ts) "linux" linux_only not_retained false true
      (labelled "vm-1" 20 ∷ elsewhere ∷ []) (elsewhere ∷ []) cleaned (labelled "vm-1" 20) (inl refl)
      selected refl elsewhere (inl refl)

abbrev sleeps : ℕ → Instance → SleepAnswer
sleeps n i = asleep

abbrev starts : Instance → Option String
starts i = some "10.0.0.7"

in_table : find_instance (conn_at 100) "vm-1" two_rows ≡ ok (row "vm-1" created 20)
unfolding find_instance
in_table = refl

suspend-start_instance_example :
    start_instance
      (λ n. conn_at 200)
      starts
      one_pool
      "linux"
      "vm-1"
      none
      (suspend
        (λ n. conn_at 100)
        (λ n s. s)
        sleeps
        one_pool
        "linux"
        (row "vm-1" created 20)
        two_rows).1
    ≡ (
      ok (awake "10.0.0.7" (row "vm-1" created 20)),
      set_row "vm-1" (overwrite (awake "10.0.0.7" (row "vm-1" created 20))) two_rows,
    )
suspend-start_instance_example =
    suspend-start_instance one_pool "linux" one_pool-linux (row "vm-1" created 20) two_rows
      (λ n. conn_at 100) (λ n. conn_at 200) sleeps starts "10.0.0.7" (λ n. refl) (λ n. refl)
      in_table refl refl
