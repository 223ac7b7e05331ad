-- ===== src/Jobs/Scaler.antt =====
-- app/scheduler/jobs/scaler.go: scaling a pool for a window. Sizes and counts are numbers, so
-- negative ones are not modelled; ScalePercent is a whole number of percent, for which Go's
-- floating-point ceiling is the exact one at any count below 2 ^ 46. What the scaler calls behind
-- its interfaces (the predictor, the utilization history, the manager's Destroy) is in `Services`.
-- Logs and metrics are left out.
pub mod Pass
pub mod Pools
pub mod Up
pub mod Down
pub mod Plan
pub mod Whole
pub mod Counts
use drone_runner_aws.Base.{
  ℕ, zero, suc, ◌+◌, ◌-◌, ◌*◌, ◌/◌, String, List, [], ◌∷◌, ◌++◌, Bool, true, false, not, ◌&&◌, ◌||◌,
  Option, none, some, str_eq, ltb, ◌==◌, if◌then◌else◌, first, mem_text, is_empty,
}
use drone_runner_aws.Base.Result.{Result, ok, err}
use drone_runner_aws.Types.{
  OutboxJob, JobParams, setup_params, pending, setup_instance, SetupInstanceParams, empty_params,
  Instance, InstanceState, created, hibernating, provisioning, terminating, predictor, QueryParams,
  empty_query, default_tenant_id, default_variant_id, mem_state,
}
use drone_runner_aws.Store.Instances.{StoreError, Conn, find_and_claim, list_instances}
use drone_runner_aws.Store.Outbox.{Outbox, create_job}
use drone_runner_aws.Jobs.Trigger.{ScalablePool, ScalableTenant, ScalableVariant}

pub record ScalerConfig : Type 0 where
  pub scale_percent : ℕ
  pub recent_usage_min_instances : ℕ
  pub dry_run : Bool
  pub disabled_pools : List String

pub record InstanceKey : Type 0 where
  pub tenant_id : String
  pub variant_id : String
  pub image_name : String

pub record Tables : Type 0 where
  pub instances : List Instance
  pub outbox : Outbox

-- `none` is an error. The windows of the history's look-back are fixed by the configuration and the
-- clock, so they are part of the functions; `destroy` is true when it succeeds.
pub record Services : Type 0 where
  pub predict : String → InstanceKey → ℕ → ℕ → Option ℕ
  pub recent_usage : String → InstanceKey → Option Bool
  pub active_images : String → String → String → Option (List String)
  pub destroy : Instance → List Instance → Bool × List Instance

abbrev pub same_key : InstanceKey → InstanceKey → Bool
same_key k l =
    str_eq k.tenant_id l.tenant_id
    && str_eq k.variant_id l.variant_id
    && str_eq k.image_name l.image_name

-- A map from keys to counts, where a key that is missing counts 0.
unfoldable pub count_of : InstanceKey → List (InstanceKey × ℕ) → ℕ
count_of k [] = 0
count_of k ((l, n) ∷ counts) = if same_key l k then n else count_of k counts

unfoldable pub increment : InstanceKey → List (InstanceKey × ℕ) → List (InstanceKey × ℕ)
increment k [] = (k, 1) ∷ []
increment k ((l, n) ∷ counts) =
    if same_key l k then (l, suc n) ∷ counts else (l, n) ∷ increment k counts

abbrev pub key_of : Instance → InstanceKey
key_of i = record {
  tenant_id = if str_eq i.tenant_id "" then default_tenant_id else i.tenant_id;
  variant_id = i.variant_id;
  image_name = i.image;
}

abbrev pub is_free : Instance → Bool
is_free i = mem_state i.state (created ∷ hibernating ∷ provisioning ∷ [])

unfoldable pub count_free : List Instance → List (InstanceKey × ℕ) → List (InstanceKey × ℕ)
count_free [] counts = counts
count_free (i ∷ rows) counts =
    let counted = count_free rows (increment (key_of i) counts) in
    let skipped = count_free rows counts in if is_free i then counted else skipped

abbrev pub free_instance_counts :
    Conn → String → List Instance → Result StoreError (List (InstanceKey × ℕ))
free_instance_counts c pool rows = elim (list_instances c pool none rows) [
  | err e ↦ err e
  | ok listed ↦ ok (count_free listed [])
]

abbrev pub up_params : InstanceKey → Option SetupInstanceParams → Bool → SetupInstanceParams
up_params k none hibernate = record empty_params {
  variant_id = k.variant_id;
  tenant_id = k.tenant_id;
  image_name = k.image_name;
  source = some predictor;
  hibernate = hibernate;
}
up_params k (some p) hibernate = record p {
  variant_id = k.variant_id;
  tenant_id = k.tenant_id;
  source = some predictor;
  image_name = if str_eq k.image_name "" then p.image_name else k.image_name;
  hibernate = if hibernate then true else p.hibernate;
}

abbrev pub setup_job : String → SetupInstanceParams → OutboxJob
setup_job pool p = record {
  id = 0;
  pool_name = pool;
  runner_name = "";
  job_type = setup_instance;
  job_params = some (setup_params p);
  created_at = 0;
  processed_at = none;
  status = pending;
  error_message = none;
  retry_count = 0;
}

-- A job that cannot be stored is logged, and the loop goes on.
unfoldable pub scale_up :
    (ℕ → Conn) → String → InstanceKey → Option SetupInstanceParams → ℕ → Bool → Outbox → Outbox
scale_up net pool k params zero hibernate o = o
scale_up net pool k params (suc count) hibernate o =
    scale_up (λ n. net (suc n)) pool k params count hibernate
      (create_job (net 0) (setup_job pool (up_params k params hibernate)) o).1

abbrev pub down_query : String → InstanceKey → QueryParams
down_query pool k = record empty_query {
  pool_name = pool;
  tenant_id = k.tenant_id;
  variant_id = k.variant_id;
  image_name = k.image_name;
  filter_source = some predictor;
}

-- The loop ends at the first claim that fails; a destruction that fails is logged.
abbrev pub down_step :
    Services
    → (List Instance → List Instance)
    → Result StoreError Instance × List Instance
    → List Instance
down_step s rest (err e, rows) = rows
down_step s rest (ok i, rows) = rest (s.destroy i rows).1

pub scale_down : Services → (ℕ → Conn) → String → InstanceKey → ℕ → List Instance → List Instance
scale_down s net pool k zero rows = rows
scale_down s net pool k (suc count) rows =
    down_step s (scale_down s (λ n. net (suc n)) pool k count) (
      find_and_claim (net 0) (down_query pool k) terminating (created ∷ hibernating ∷ []) false
        rows)
