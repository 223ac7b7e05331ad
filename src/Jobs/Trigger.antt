-- ===== src/Jobs/Trigger.antt =====
-- app/scheduler/jobs/scaler_trigger.go: scale jobs for the next window. Times and durations are
-- numbers of nanoseconds since the epoch, windows numbers of seconds. `net` is what the server
-- decides in the calls of a run, in their order, and `others n` is what other processes do to the
-- table before the n-th call. Negative durations, and metrics and logs, are left out.
pub mod Window
pub mod Cases
pub mod Invariant
pub mod Created
use drone_runner_aws.Base.{
  ℕ, suc, ◌+◌, ◌-◌, ◌*◌, ◌/◌, ◌%◌, String, List, [], ◌∷◌, Bool, true, false, not, ◌&&◌, ◌||◌,
  Option, none, some, str_eq, ltb, ◌==◌, if◌then◌else◌,
}
use drone_runner_aws.Base.Result.{Result, ok, err}
use drone_runner_aws.Types.{OutboxJob, JobParams, scale_params, pending, scale, SetupInstanceParams}
use drone_runner_aws.Store.Instances.{StoreError, Conn}
use drone_runner_aws.Store.Outbox.{Outbox, create_job, find_scale_job_for_window}

pub record ScalableVariant : Type 0 where
  pub min_size : ℕ
  pub params : SetupInstanceParams

pub record ScalableTenant : Type 0 where
  pub id : String
  pub min_size : ℕ
  pub variants : List ScalableVariant

pub record ScalablePool : Type 0 where
  pub name : String
  pub driver : String
  pub min_size : ℕ
  pub variants : List ScalableVariant
  pub tenants : List ScalableTenant

pub record TriggerConfig : Type 0 where
  pub enabled : Bool
  pub window_duration : ℕ
  pub lead_time : ℕ

abbrev pub second : ℕ
second = 1000000000

abbrev pub minute : ℕ
minute = 60 * second

abbrev pub day : ℕ
day = 1440 * minute

abbrev pub default_window_duration : ℕ
default_window_duration = 30 * minute

abbrev pub default_lead_time : ℕ
default_lead_time = 5 * minute

unfoldable pub new_config : TriggerConfig → TriggerConfig
new_config c = record c {
  window_duration = if c.window_duration == 0 then default_window_duration else c.window_duration;
  lead_time = if c.lead_time == 0 then default_lead_time else c.lead_time;
}

-- Midnight in UTC is a multiple of a day. `none` is the panic of a division by 0, for a duration
-- under a minute.
abbrev pub boundary_after : ℕ → ℕ → ℕ → ℕ × ℕ
boundary_after duration midnight index =
    let start = midnight + (index + 1) * (duration / minute) * minute in
    (start / second, (start + duration) / second)

unfoldable pub next_window_boundary : TriggerConfig → ℕ → Option (ℕ × ℕ)
next_window_boundary c now =
    let window_minutes = c.window_duration / minute in
    let midnight = now - now % day in
    let minutes_since_midnight = (now - midnight) / minute in
    if window_minutes == 0
    then none
    else some (boundary_after c.window_duration midnight (minutes_since_midnight / window_minutes))

-- Only pools of these two drivers are scaled.
abbrev pub is_scaled_driver : String → Bool
is_scaled_driver d = str_eq d "google" || str_eq d "amazon"

abbrev pub window_job : String → ℕ → ℕ → OutboxJob
window_job pool_name start end = record {
  id = 0;
  pool_name = pool_name;
  runner_name = "";
  job_type = scale;
  job_params = some (scale_params (record { window_start = start; window_end = end }));
  created_at = 0;
  processed_at = none;
  status = pending;
  error_message = none;
  retry_count = 0;
}

abbrev pub create_unless :
    Conn → OutboxJob → Result StoreError (Option OutboxJob) → (Outbox → Outbox) → Outbox → Outbox
create_unless c job (err e) others o = o
create_unless c job (ok (some existing)) others o = o
create_unless c job (ok none) others o = (create_job c job (others o)).1

-- The body of the loop over the pools.
unfoldable pub trigger_pool :
    (ℕ → Conn) → (ℕ → Outbox → Outbox) → ℕ → ℕ → ScalablePool → Outbox → Outbox
trigger_pool net others start end p o =
    let before = others 0 o in
    if is_scaled_driver p.driver
    then create_unless (net 1) (window_job p.name start end)
        (find_scale_job_for_window (net 0) p.name start before) (others 1) before
    else o

unfoldable pub trigger_pools :
    (ℕ → Conn) → (ℕ → Outbox → Outbox) → ℕ → ℕ → List ScalablePool → Outbox → Outbox
trigger_pools net others start end [] o = o
trigger_pools net others start end (p ∷ pools) o =
    trigger_pools (λ n. net (n + 2)) (λ n. others (n + 2)) start end pools
      (trigger_pool net others start end p o)

-- The window is not near yet, or has begun.
abbrev pub is_out_of_reach : TriggerConfig → ℕ → ℕ → Bool
is_out_of_reach c now start = ltb c.lead_time (start * second - now) || ltb (start * second) now

-- The job keeps the last window it handled; the zero value is 0.
abbrev pub execute_at :
    (ℕ → Conn)
    → (ℕ → Outbox → Outbox)
    → TriggerConfig
    → List ScalablePool
    → ℕ
    → ℕ
    → Outbox
    → Option (ℕ × ℕ)
    → Option (ℕ × Outbox)
execute_at net others c pools now last o none = none
execute_at net others c pools now last o (some (start, end)) =
    if is_out_of_reach c now start
    then some (last, o)
    else if start == last
    then some (last, o)
    else some (start, trigger_pools net others start end pools o)

unfoldable pub execute :
    (ℕ → Conn)
    → (ℕ → Outbox → Outbox)
    → TriggerConfig
    → List ScalablePool
    → ℕ
    → ℕ
    → Outbox
    → Option (ℕ × Outbox)
unfolding next_window_boundary
execute net others c pools now last o =
    let run = execute_at net others c pools now last o (next_window_boundary c now) in
    if c.enabled then run else some (last, o)
