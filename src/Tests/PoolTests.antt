-- ===== src/Tests/PoolTests.antt =====
-- Runs of the scaler on a whole pool.
use drone_runner_aws.Base.{[], ◌∷◌, true, false, none, some, ◌≡◌, refl}
use drone_runner_aws.Base.Result.{ok}
use drone_runner_aws.Store.Outbox.{create_job}
use drone_runner_aws.Store.Instances.{list_instances, sort_by_started, insert_by_started}
use drone_runner_aws.Jobs.Trigger.{ScalablePool}
use drone_runner_aws.Jobs.Scaler.{ScalerConfig, Services, Tables, up_params, setup_job, InstanceKey}
use drone_runner_aws.Jobs.Scaler.Pass.{apply_delta, scale_variant, target_count}
use drone_runner_aws.Jobs.Scaler.Pools.{
  scale_pool, scale_tenants, scale_variants, scale_active_images, scale_images,
}
use drone_runner_aws.Jobs.Scaler.Whole.{scale_pool-dry}
use drone_runner_aws.Tests.{conn_at, two_rows}

abbrev dry : ScalerConfig
dry = record {
  scale_percent = 100;
  recent_usage_min_instances = 0;
  dry_run = true;
  disabled_pools = "windows" ∷ [];
}

abbrev wet : ScalerConfig
wet = record dry { dry_run = false }

-- Three instances are predicted.
abbrev services : Services
services = record {
  predict = λ pool k s e. some 3;
  recent_usage = λ pool k. none;
  active_images = λ pool tenant variant. some ("ubuntu" ∷ "" ∷ []);
  destroy = λ i rows. (true, rows);
}

abbrev linux_pool : ScalablePool
linux_pool = record { name = "linux"; driver = "google"; min_size = 2; variants = []; tenants = [] }

abbrev tables : Tables
tables = record { instances = two_rows; outbox = record { jobs = []; next_id = 0 } }

abbrev ubuntu_key : InstanceKey
ubuntu_key = record { tenant_id = "default"; variant_id = "default"; image_name = "ubuntu" }

-- Two are free, so one is missing.
abbrev scaled : Tables
scaled = record tables {
  outbox =
      (create_job (conn_at 7) (setup_job "linux" (up_params ubuntu_key none false))
        tables.outbox).1;
}

runs_dry :
    scale_pool services
      (conn_at 1)
      (λ a b c n. conn_at 7)
      dry
      (linux_pool ∷ [])
      "linux"
      1800
      3600
      tables
    ≡ ok tables
unfolding scale_pool scale_tenants scale_variants scale_active_images scale_images scale_variant
    target_count apply_delta list_instances sort_by_started insert_by_started
runs_dry = refl

scale_pool-dry_example : tables ≡ tables
scale_pool-dry_example =
    scale_pool-dry services dry (conn_at 1) (λ a b c n. conn_at 7) (linux_pool ∷ []) "linux" 1800
      3600 tables tables refl runs_dry
