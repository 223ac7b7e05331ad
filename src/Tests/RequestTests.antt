-- ===== src/Tests/RequestTests.antt =====
-- Runs of a whole request.
use drone_runner_aws.Base.{[], ◌∷◌, true, false, Option, none, some, ◌≡◌, refl}
use drone_runner_aws.Base.Result.{ok}
use drone_runner_aws.Types.{
  Instance, InstanceSource, in_use, provisioning, SetupInstanceParams, empty_params,
  CapacityReservation,
}
use drone_runner_aws.Store.Instances.{
  find_and_claim, matches_claim, pick_first, comes_before, claim_row, create_instance,
}
use drone_runner_aws.Base.Text.{lookup}
use drone_runner_aws.Drivers.Tenants.{resolve_tenant, variants_for_tenant}
use drone_runner_aws.Drivers.Provision.{plan_of, filter_variants, claim_ready}
use drone_runner_aws.Drivers.Capacity.{World}
use drone_runner_aws.Drivers.Manager.{fitted, setup_instance}
use drone_runner_aws.Drivers.Request.{Served, provision}
use drone_runner_aws.Drivers.Request.Cold.{Made, provision-Made}
use drone_runner_aws.Tests.{conn_at, row, linux_only, one_pool, one_pool-linux, one_job, request}

-- The provider makes the same instance each time.
abbrev makes : SetupInstanceParams → Option CapacityReservation → Option Instance
makes params reserved = some (row "vm-9" provisioning 50)

abbrev busy_world : World
busy_world = record { instances = row "vm-1" in_use 10 ∷ []; capacities = [] }

abbrev new_one : Instance
new_one =
    fitted "runner" true "me"
      (record empty_params {
        variant_id = "default";
        tenant_id = "default";
        source = some InstanceSource.on_demand;
      })
      (row "vm-9" provisioning 50)

abbrev served : Served
served = record { instance = new_one; is_warm = false; variant = "default" }

abbrev world_after : World
world_after = record { instances = row "vm-1" in_use 10 ∷ new_one ∷ []; capacities = [] }

made_anew :
    provision one_pool "runner" "me" makes
      (λ n. conn_at 100)
      (conn_at 101)
      "linux"
      (λ s. s)
      request
      none
      busy_world
      one_job
    ≡ (ok served, (world_after, one_job))
unfolding provision plan_of filter_variants variants_for_tenant resolve_tenant lookup claim_ready
    find_and_claim matches_claim pick_first comes_before claim_row setup_instance create_instance
made_anew = refl

provision-Made_example :
    Made one_pool "runner" "me" makes
      (λ n. conn_at 100)
      (conn_at 101)
      "linux"
      (λ s. s)
      request
      linux_only
      busy_world
      new_one
      "default"
      world_after
provision-Made_example =
    provision-Made one_pool "runner" "me" makes (λ n. conn_at 100) (conn_at 101) "linux" (λ s. s)
      request linux_only busy_world one_job one_job served world_after one_pool-linux
      (λ n key. refl) made_anew refl
