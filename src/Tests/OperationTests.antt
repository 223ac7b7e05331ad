-- ===== src/Tests/OperationTests.antt =====
-- Runs of operations that the other tests do not reach.
use drone_runner_aws.Base.Int.{pos}
use drone_runner_aws.Base.{ℕ, ◌*◌, [], ◌∷◌, true, false, ◌≡◌, refl}
use drone_runner_aws.Base.Result.{ok, err}
use drone_runner_aws.Base.Text.{lookup}
use drone_runner_aws.Types.{created, in_use, provisioning, empty_params}
use drone_runner_aws.Store.Instances.{failed, create_instance, delete_instance}
use drone_runner_aws.Store.Outbox.{delete_older_than}
use drone_runner_aws.Jobs.Trigger.{new_config, minute}
use drone_runner_aws.Jobs.Processor.{cleanup_old_jobs}
use drone_runner_aws.Drivers.Purger.{is_stale_free, sweep, force_delete_leaked, is_stale_busy}
use drone_runner_aws.Drivers.Tenants.{Pool, variants_for_tenant, resolve_tenant}
use drone_runner_aws.Drivers.Provision.{ProvisionParams, plan_of, filter_variants}
use drone_runner_aws.Tests.{conn_at, row, two_rows, one_job}

id_taken : create_instance (conn_at 1) (row "vm-1" created 5) two_rows ≡ err failed
unfolding create_instance
id_taken = refl

deleted : delete_instance (conn_at 1) "vm-1" two_rows ≡ ok (row "vm-2" created 10 ∷ [])
unfolding delete_instance
deleted = refl

defaults :
    new_config (record { enabled = true; window_duration = 0; lead_time = 0 })
    ≡ record { enabled = true; window_duration = 30 * minute; lead_time = 5 * minute }
unfolding new_config
defaults = refl

old_job : (cleanup_old_jobs 172806 (conn_at 172806) one_job).0 ≡ ok 1
unfolding cleanup_old_jobs delete_older_than
old_job = refl

stuck : is_stale_free 10000 "linux" 9000 [] (row "vm-1" provisioning 8000) ≡ true
unfolding is_stale_free
stuck = refl

-- The old one is destroyed and deleted, the new one stays.
swept :
    sweep
      (λ n. conn_at 1000)
      1000
      "linux"
      (λ rows. [])
      500
      500
      []
      (row "old" in_use 400 ∷ row "new" in_use 900 ∷ [])
    ≡ row "new" in_use 900 ∷ []
unfolding sweep is_stale_free is_stale_busy force_delete_leaked lookup
swept = refl

abbrev request : ProvisionParams
request = record {
  image_name = "ubuntu";
  nested_virtualization = false;
  resource_class = "";
  zones = "a" ∷ [];
  skip_cloud_vm_cleanup = false;
  account_id = "acc-1";
  stage_runtime_id = "";
  pipeline_execution_id = "";
  long_running = false;
  reservation_per_pool_timeout = 0;
}

-- A driver is a number.
abbrev single : Pool ℕ
single = record {
  max_size = pos 9;
  min_size = pos 1;
  driver = 0;
  variants =
      record {
        pool = 1;
        limit = 2;
        params = record empty_params {
          image_name = "ubuntu";
          variant_id = "u";
          machine_type = "large";
        };
      }
      ∷ [];
  tenant_drivers = [];
  account_to_tenant = [];
  tenants = [];
}

-- The variant is applied, the zones are cleared, and the variant is tried.
planned : plan_of (λ s. s) single request ≡ (
  record empty_params {
    resource_class = "";
    account_id = "acc-1";
    tenant_id = "default";
    machine_type = "large";
    variant_id = "u";
  },
  "u" ∷ [],
)
unfolding plan_of filter_variants variants_for_tenant resolve_tenant lookup
planned = refl
