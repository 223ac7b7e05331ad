-- ===== src/Tests/ManagerTests.antt =====
-- Runs of a manager of its own pools.
use drone_runner_aws.Base.{List, [], ◌∷◌, true, none, ◌≡◌, refl}
use drone_runner_aws.Base.Int.{pos}
use drone_runner_aws.Base.Result.{ok}
use drone_runner_aws.Types.{Instance, created, empty_params, empty_query}
use drone_runner_aws.Store.Instances.{
  list_instances, sort_by_started, insert_by_started, update_instance, set_row,
}
use drone_runner_aws.Drivers.Strategy.{min_max}
use drone_runner_aws.Drivers.Manager.{buckets_of, handed, provision_from_pool}
use drone_runner_aws.Drivers.Manager.Provided.{Provides, provision_from_pool-Provides}
use drone_runner_aws.Tests.{conn_at, row, two_rows}

abbrev oldest : Instance
oldest = handed 100 "me" (row "vm-2" created 10)

abbrev one_busy : List Instance
one_busy = row "vm-1" created 20 ∷ oldest ∷ []

warm :
    provision_from_pool
      (λ n. conn_at 100)
      100
      min_max
      (pos 1)
      (pos 3)
      "runner"
      "me"
      empty_params
      none
      "linux"
      empty_query
      two_rows
    ≡ (ok (oldest, true), one_busy)
unfolding provision_from_pool buckets_of list_instances sort_by_started insert_by_started
    update_instance set_row
warm = refl

provision_from_pool-Provides_example :
    Provides
      (λ n. conn_at 100)
      100
      min_max
      (pos 1)
      (pos 3)
      "runner"
      "me"
      empty_params
      none
      "linux"
      empty_query
      two_rows
      oldest
      true
      one_busy
provision_from_pool-Provides_example =
    provision_from_pool-Provides (λ n. conn_at 100) 100 min_max (pos 1) (pos 3) "runner" "me"
      empty_params none "linux" empty_query two_rows oldest true one_busy warm
