-- ===== src/Store/Outbox.antt =====
-- store/database/sql/outbox.go: the table of outbox jobs, with the unique index that
-- store/database/migrate/postgres/0018_create_index_outbox_scale_jobs.up.sql puts on it.
-- Statements are functions of the rows, as in Store/Instances.antt.
pub mod Claim
pub mod Table
pub mod Windows
pub mod Exclusive
use drone_runner_aws.Base.{
  ℕ, zero, suc, ◌+◌, ◌*◌, String, List, [], ◌∷◌, ◌++◌, Bool, true, false, ◌&&◌, ◌||◌, Option, none,
  some, str_eq, ltb, keep, any, first, length, conj, if◌then◌else◌, ◌==◌, ◌-◌,
}
use drone_runner_aws.Store.Batch.{claim_up_to}
use drone_runner_aws.Base.Result.{Result, ok, err}
use drone_runner_aws.Types.{
  OutboxJob, OutboxJobType, OutboxJobStatus, JobParams, scale_params, setup_params, malformed,
  pending, running, scale, setup_instance,
}
use drone_runner_aws.Store.Instances.{StoreError, no_rows, failed, Conn}

pub record Outbox : Type 0 where
  pub jobs : List OutboxJob
  pub next_id : ℕ

abbrev pub same_job_type : OutboxJobType → OutboxJobType → Bool
same_job_type setup_instance setup_instance = true
same_job_type scale scale = true
same_job_type (OutboxJobType.other s) (OutboxJobType.other t) = str_eq s t
same_job_type _ _ = false

abbrev pub mem_job_type : OutboxJobType → List OutboxJobType → Bool
mem_job_type t [] = false
mem_job_type t (u ∷ us) = same_job_type t u || mem_job_type t us

abbrev pub is_pending : OutboxJobStatus → Bool
is_pending pending = true
is_pending running = false

-- `job_params->>'window_start'`, which is NULL where the parameters have no such key.
abbrev pub window_of : Option JobParams → Option ℕ
window_of (some (scale_params w)) = some w.window_start
window_of _ = none

abbrev pub is_window : Option ℕ → ℕ → Bool
is_window none w = false
is_window (some v) w = v == w

abbrev pub is_scale_job : String → ℕ → OutboxJob → Bool
is_scale_job pool w j =
    same_job_type j.job_type scale
    && str_eq j.pool_name pool
    && is_window (window_of j.job_params) w

-- The unique index: a row of the same pool and window.
abbrev pub clashes_at : Option ℕ → OutboxJob → List OutboxJob → Bool
clashes_at none j jobs = false
clashes_at (some w) j jobs = same_job_type j.job_type scale && any (is_scale_job j.pool_name w) jobs

-- `created_at` is the runner's clock, which is read here as the server's.
abbrev pub inserted : Conn → OutboxJob → ℕ → OutboxJob
inserted c j id = record j {
  id = id;
  status = pending;
  created_at = c.now;
  processed_at = none;
  error_message = none;
  retry_count = 0;
}

unfoldable pub create_job : Conn → OutboxJob → Outbox → Result StoreError OutboxJob × Outbox
create_job c j o =
    if c.down || clashes_at (window_of j.job_params) j o.jobs then (err failed, o) else (
      ok (record j { id = o.next_id }),
      record { jobs = o.jobs ++ inserted c j o.next_id ∷ []; next_id = suc o.next_id },
    )

abbrev pub is_due : ℕ → ℕ → Option ℕ → Bool
is_due now retry_minutes none = true
is_due now retry_minutes (some t) = ltb (t + 60 * retry_minutes) now

unfoldable pub is_claimable : Conn → String → List OutboxJobType → ℕ → OutboxJob → Bool
is_claimable c runner job_types retry_minutes j = conj (
    str_eq j.runner_name runner
    ∷ is_pending j.status
    ∷ mem_job_type j.job_type job_types
    ∷ is_due c.now retry_minutes j.processed_at
    ∷ (if c.locked_job j.id then false else true)
    ∷ [])

-- The SET clause of the claim.
abbrev pub start_job : Conn → OutboxJob → OutboxJob
start_job c j = record j {
  status = running;
  processed_at = some c.now;
  retry_count = suc j.retry_count;
}

unfoldable pub find_and_claim_pending :
    Conn
    → String
    → List OutboxJobType
    → ℕ
    → ℕ
    → Outbox
    → Result StoreError (List OutboxJob) × Outbox
find_and_claim_pending c runner job_types limit retry_minutes o =
    let (claimed, jobs) =
      claim_up_to (is_claimable c runner job_types retry_minutes) (start_job c) limit o.jobs in
    if c.down then (err failed, o) else (ok claimed, record o { jobs = jobs })

abbrev pub has_id : ℕ → OutboxJob → Bool
has_id id j = j.id == id

unfoldable pub set_job : ℕ → (OutboxJob → OutboxJob) → List OutboxJob → List OutboxJob
set_job id f [] = []
set_job id f (j ∷ jobs) = (if j.id == id then f j else j) ∷ set_job id f jobs

-- `none` is success; an update of no row is `sql.ErrNoRows`.
unfoldable pub update_status :
    Conn → ℕ → OutboxJobStatus → String → Outbox → Option StoreError × Outbox
update_status c id status message o =
    if c.down
    then (some failed, o)
    else if any (has_id id) o.jobs
    then (
      none,
      record o {
        jobs =
            set_job id
              (λ j. record j {
                status = status;
                error_message = some message;
                processed_at = some c.now;
              })
              o.jobs;
      },
    )
    else (some no_rows, o)

unfoldable pub delete_job : Conn → ℕ → Outbox → Option StoreError × Outbox
delete_job c id o =
    if c.down
    then (some failed, o)
    else if any (has_id id) o.jobs
    then (none, record o { jobs = keep (λ j. if j.id == id then false else true) o.jobs })
    else (some no_rows, o)

unfoldable pub delete_older_than : Conn → ℕ → Outbox → Result StoreError ℕ × Outbox
delete_older_than c timestamp o = if c.down then (err failed, o) else (
  ok (length (keep (λ j. ltb j.created_at timestamp) o.jobs)),
  record o { jobs = keep (λ j. if ltb j.created_at timestamp then false else true) o.jobs },
)

-- No row is no error here.
unfoldable pub find_scale_job_for_window :
    Conn → String → ℕ → Outbox → Result StoreError (Option OutboxJob)
find_scale_job_for_window c pool w o =
    if c.down then err failed else ok (first (is_scale_job pool w) o.jobs)
