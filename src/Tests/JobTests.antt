-- ===== src/Tests/JobTests.antt =====
-- Runs of the scheduler's jobs.
use drone_runner_aws.Base.{
  ℕ, suc, ◌+◌, ◌*◌, ◌/◌, ◌≤◌, ◌<◌, List, [], ◌∷◌, true, false, ◌&&◌, none, some, ◌≡◌, ◌≢◌, refl,
  inl, arith, length, keep,
}
use drone_runner_aws.Base.Text.{text-differ}
use drone_runner_aws.Types.{OutboxJob}
use drone_runner_aws.Store.Outbox.{Outbox, create_job, find_scale_job_for_window}
use drone_runner_aws.Jobs.Trigger.{
  TriggerConfig, ScalablePool, minute, second, day, next_window_boundary, execute, window_job,
  trigger_pool, trigger_pools,
}
use drone_runner_aws.Jobs.Trigger.Window.{next_window_boundary-next}
use drone_runner_aws.Jobs.Trigger.Created.{HasJob, execute-HasJob}
use drone_runner_aws.Jobs.Scaler.{
  Services, ScalerConfig, InstanceKey, Tables, scale_up, scale_down, up_params, count_of,
  count_free, key_of, is_free, same_key,
}
use drone_runner_aws.Jobs.Scaler.Pass.{target_count, buffer_delta, scale_variant, apply_delta}
use drone_runner_aws.Jobs.Scaler.Up.{Adds, succeeded, scale_up-Adds}
use drone_runner_aws.Jobs.Scaler.Down.{Destroys, scale_down-Destroys}
use drone_runner_aws.Jobs.Scaler.Counts.{count_free-count}
use drone_runner_aws.Jobs.Scaler.Plan.{Scaled, scale_variant-Scaled}
use drone_runner_aws.Jobs.Processor.{ProcessorConfig, Collaborators, run_rounds}
use drone_runner_aws.Jobs.Processor.Once.{only}
use drone_runner_aws.Jobs.Processor.Rounds.{iterate, run_rounds-deletes}
use drone_runner_aws.Tests.{conn_at, two_rows, global_job}

abbrev config : TriggerConfig
config = record { enabled = true; window_duration = 30 * minute; lead_time = 5 * minute }

-- 00:27 on the second day.
abbrev now : ℕ
now = day + 27 * minute

abbrev start : ℕ
start = 86400 + 1800

boundary : next_window_boundary config now ≡ some (start, start + 1800)
unfolding next_window_boundary
boundary = refl

next_window_boundary-next_example :
    (now < start * second)
    × (start * second ≤ now + 30 * minute)
    × (start + 1800 ≡ start + 30 * 60)
    × ((k : ℕ) × (start ≡ now / day * 86400 + k * 30 * 60))
next_window_boundary-next_example =
    next_window_boundary-next config now 30 start (start + 1800) refl boundary

abbrev google_pool : ScalablePool
google_pool = record {
  name = "linux";
  driver = "google";
  min_size = 2;
  variants = [];
  tenants = [];
}

abbrev empty : Outbox
empty = record { jobs = []; next_id = 0 }

abbrev after : Outbox
after = record {
  jobs = record (window_job "linux" start (start + 1800)) { created_at = 7 } ∷ [];
  next_id = 1;
}

executed :
    execute (λ n. conn_at 7) (λ n o. o) config (google_pool ∷ []) now 0 empty ≡ some (start, after)
unfolding execute trigger_pools trigger_pool find_scale_job_for_window create_job
    next_window_boundary
executed = refl

execute-HasJob_example : HasJob "linux" start after
execute-HasJob_example =
    execute-HasJob (λ n. conn_at 7) (λ n o. o) config (google_pool ∷ []) now 0 start empty after
      (λ n pool s o h. h) (λ n. refl) executed (λ e. omega (arith, e)) google_pool (inl refl) refl

abbrev scaler : ScalerConfig
scaler = record {
  scale_percent = 150;
  recent_usage_min_instances = 1;
  dry_run = false;
  disabled_pools = [];
}

-- Three instances are predicted; a destruction deletes nothing.
abbrev services : Services
services = record {
  predict = λ pool k s e. some 3;
  recent_usage = λ pool k. none;
  active_images = λ pool tenant variant. some ("ubuntu" ∷ []);
  destroy = λ i rows. (true, rows);
}

abbrev key : InstanceKey
key = record { tenant_id = "default"; variant_id = "default"; image_name = "ubuntu" }

abbrev tables : Tables
tables = record { instances = two_rows; outbox = empty }

abbrev scaled : Tables
scaled = record {
  instances = two_rows;
  outbox =
      scale_up (λ n. conn_at 7) "linux" key none 2 true
        (scale_up (λ n. conn_at 7) "linux" key none 3 false empty);
}

scales :
    scale_variant services (λ n. conn_at 7) scaler "linux" key 1 none start (start + 1800) [] tables
    ≡ some scaled
unfolding scale_variant target_count apply_delta buffer_delta count_of
scales = refl

scale_variant-Scaled_example :
    (predicted : ℕ) × (some 3 ≡ some predicted)
    × (let (target, recent) = target_count scaler predicted 1 none in
        Scaled services
          (λ n. conn_at 7)
          scaler
          "linux"
          key
          none
          (count_of key [])
          target
          recent
          tables
          scaled)
scale_variant-Scaled_example =
    scale_variant-Scaled services (λ n. conn_at 7) scaler "linux" key none 1 start (start + 1800) []
      tables scaled scales

scale_up-Adds_example :
    (new : List OutboxJob) × Adds "linux"
      (up_params key none true)
      new
      empty
      (scale_up (λ n. conn_at 7) "linux" key none 2 true empty)
    × (length new ≡ succeeded (λ n. conn_at 7) 2)
scale_up-Adds_example = scale_up-Adds (λ n. conn_at 7) "linux" key none 2 true empty

scale_down-Destroys_example :
    Destroys services "linux" key 1 two_rows
      (scale_down services (λ n. conn_at 7) "linux" key 1 two_rows)
scale_down-Destroys_example = scale_down-Destroys services (λ n. conn_at 7) "linux" key 1 two_rows

count_free-count_example :
    count_of key (count_free two_rows [])
    ≡ count_of key [] + length (keep (λ i. is_free i && same_key (key_of i) key) two_rows)
count_free-count_example = count_free-count key two_rows []

-- The world counts the tries, which all fail.
abbrev failing : Collaborators ℕ
failing = record {
  setup_instance_for_pool = λ pool p w. (some "no capacity", (suc w.0, w.1));
  scale_pool = none;
}

abbrev processor : ProcessorConfig
processor = record { max_retries = 3; batch_size = 5; retry_minutes = 2; runner_name = "runner" }

runner_named : processor.runner_name ≢ ""
runner_named = text-differ "runner" "" refl

run_rounds-deletes_example :
    run_rounds failing (λ i n. conn_at (i * 200)) processor 4 (0, only (global_job 0) 1)
    ≡ (iterate suc 3 0, record { jobs = []; next_id = 1 })
run_rounds-deletes_example =
    run_rounds-deletes failing processor "no capacity" suc (λ i n. conn_at (i * 200)) 3
      (global_job 0) 1 0 ((λ i n. refl), (λ i. refl), λ i. omega arith) (omega arith) runner_named
      (λ pool p w o. refl) (refl, refl, refl, (λ e. cc), refl) (omega arith)
