-- ===== src/Jobs/Processor.antt =====
-- app/scheduler/jobs/outbox.go: the processing of outbox jobs. What the processor calls behind its
-- two collaborators is in `Collaborators`, over the rest `W` of the world and the outbox, which they
-- may change; a message is an error's text, without
-- the prefixes that wrap it. A JSON object that lacks a type's fields decodes to its zero value. The goroutines of one batch are run one after the
-- other, in the order of the list that they are started from. Logs are left out.
pub mod Once
pub mod Rounds
use drone_runner_aws.Base.{
  ℕ, zero, suc, ◌+◌, ◌-◌, ◌*◌, String, List, [], ◌∷◌, ◌++◌, Bool, true, false, Option, none, some,
  ltb, if◌then◌else◌,
}
use drone_runner_aws.Base.Result.{Result, ok, err}
use drone_runner_aws.Types.{
  OutboxJob, OutboxJobType, JobParams, setup_params, scale_params, malformed, setup_instance, scale,
  pending, SetupInstanceParams, empty_params, ScaleJobParams,
}
use drone_runner_aws.Store.Instances.{StoreError, Conn}
use drone_runner_aws.Store.Outbox.{
  Outbox, find_and_claim_pending, update_status, delete_job, delete_older_than,
}

pub record ProcessorConfig : Type 0 where
  pub max_retries : ℕ
  pub batch_size : ℕ
  pub retry_minutes : ℕ
  pub runner_name : String

module _ (W : Type 0) where
  -- `scale_pool` is `none` when no scaler was set.
  pub record Collaborators : Type 0 where
    pub setup_instance_for_pool :
        String → Option SetupInstanceParams → W × Outbox → Option String × (W × Outbox)
    pub scale_pool : Option (String → ℕ → ℕ → W × Outbox → Option String × (W × Outbox))

module _ {W : Type 0} (x : Collaborators W) where
  abbrev pub setup_with : String → Option JobParams → W × Outbox → Option String × (W × Outbox)
  setup_with pool none w = x.setup_instance_for_pool pool none w
  setup_with pool (some (setup_params p)) w = x.setup_instance_for_pool pool (some p) w
  setup_with pool (some (scale_params p)) w = x.setup_instance_for_pool pool (some empty_params) w
  setup_with pool (some malformed) w = (some "failed to unmarshal job params", w)

  abbrev scale_with :
      Option (String → ℕ → ℕ → W × Outbox → Option String × (W × Outbox))
      → String
      → Option JobParams
      → W × Outbox
      → Option String × (W × Outbox)
  scale_with none pool params w = (some "scaler not configured", w)
  scale_with (some f) pool none w = (some "scale job has no params", w)
  scale_with (some f) pool (some (scale_params p)) w = f pool p.window_start p.window_end w
  scale_with (some f) pool (some (setup_params p)) w = f pool 0 0 w
  scale_with (some f) pool (some malformed) w = (some "failed to unmarshal scale job params", w)

  -- The deletion of a job that is done.
  abbrev pub delete_done : Conn → ℕ → Option String × (W × Outbox) → Option String × (W × Outbox)
  delete_done c id (some e, w) = (some e, w)
  delete_done c id (none, (w, o)) =
      let (e, o') = delete_job c id o in
      (elim e [ none ↦ none | some _ ↦ some "failed to delete completed job" ], (w, o'))

  abbrev pub process_typed :
      Conn → OutboxJob → OutboxJobType → W × Outbox → Option String × (W × Outbox)
  process_typed c j setup_instance w = delete_done c j.id (setup_with j.pool_name j.job_params w)
  process_typed c j scale w = scale_with x.scale_pool j.pool_name j.job_params w
  process_typed c j (OutboxJobType.other t) w = (some "unknown job type", w)

  pub process_job : Conn → OutboxJob → W × Outbox → Option String × (W × Outbox)
  process_job c j w = process_typed c j j.job_type w

  abbrev pub put_back : Conn → ℕ → Option String × (W × Outbox) → W × Outbox
  put_back c id (none, w) = w
  put_back c id (some message, (w, o)) = (w, (update_status c id pending message o).1)

  -- `net 0` is the call of Delete, `net 1` that of UpdateStatus.
  pub process_job_with_retry : (ℕ → Conn) → ProcessorConfig → OutboxJob → W × Outbox → W × Outbox
  unfolding process_job
  process_job_with_retry net p j (w, o) =
      if ltb p.max_retries j.retry_count
      then (w, (delete_job (net 0) j.id o).1)
      else put_back (net 1) j.id (process_job (net 0) j (w, o))

  pub process_all : (ℕ → Conn) → ProcessorConfig → List OutboxJob → W × Outbox → W × Outbox
  unfolding process_job_with_retry
  process_all net p [] w = w
  process_all net p (j ∷ jobs) w =
      process_all (λ n. net (n + 2)) p jobs (process_job_with_retry net p j w)

  abbrev pub job_types : List OutboxJobType
  job_types = setup_instance ∷ scale ∷ []

  abbrev pub run_claimed :
      (ℕ → Conn)
      → ProcessorConfig
      → W
      → List OutboxJob
      → Result StoreError (List OutboxJob) × Outbox
      → Result StoreError (Unit {0}) × (W × Outbox)
  run_claimed net p w own (err e, o) = (err e, (w, o))
  run_claimed net p w own (ok global, o) =
      (ok tt, process_all (λ n. net (n + 2)) p (own ++ global) (w, o))

  abbrev pub claim_global :
      (ℕ → Conn)
      → ProcessorConfig
      → W
      → Result StoreError (List OutboxJob) × Outbox
      → Result StoreError (Unit {0}) × (W × Outbox)
  claim_global net p w (err e, o) = (err e, (w, o))
  claim_global net p w (ok own, o) =
      run_claimed net p w own
        (find_and_claim_pending (net 1) "" job_types p.batch_size p.retry_minutes o)

  -- Jobs of this runner, then jobs of any runner.
  pub process_pending_jobs :
      (ℕ → Conn) → ProcessorConfig → W × Outbox → Result StoreError (Unit {0}) × (W × Outbox)
  unfolding process_all
  process_pending_jobs net p (w, o) =
      claim_global net p w
        (find_and_claim_pending (net 0) p.runner_name job_types p.batch_size p.retry_minutes o)

  -- The processor's job runs again and again; the i-th run makes its calls through `nets i`.
  pub run_rounds : (ℕ → ℕ → Conn) → ProcessorConfig → ℕ → W × Outbox → W × Outbox
  unfolding process_pending_jobs
  run_rounds nets p zero w = w
  run_rounds nets p (suc n) w =
      run_rounds (λ i. nets (suc i)) p n (process_pending_jobs (nets 0) p w).1

-- Jobs of more than 48 hours, by the runner's clock, are deleted.
unfoldable pub cleanup_old_jobs : ℕ → Conn → Outbox → Result StoreError ℕ × Outbox
unfolding delete_older_than
cleanup_old_jobs now c o = delete_older_than c (now - 48 * 3600) o
