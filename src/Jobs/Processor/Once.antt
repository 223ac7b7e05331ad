-- ===== src/Jobs/Processor/Once.antt =====
-- OutboxProcessor: one round with one job whose set-up fails.
use drone_runner_aws.Base.{
  ℕ, zero, suc, ◌+◌, ◌<◌, String, List, [], ◌∷◌, Bool, true, false, Option, none, some, ◌≡◌, ◌≢◌,
  refl, ap, ap₂, ◌∙◌, arith, ltb, eq_iff, eq_refl, if◌then◌else◌,
}
use drone_runner_aws.Base.Result.{ok}
use drone_runner_aws.Types.{
  OutboxJob, OutboxJobType, JobParams, SetupInstanceParams, setup_instance, scale, pending,
  malformed, setup_params, scale_params,
}
use drone_runner_aws.Store.Instances.{Conn}
use drone_runner_aws.Store.Batch.{claim_up_to}
use drone_runner_aws.Store.Outbox.{
  Outbox, find_and_claim_pending, is_claimable, is_due, start_job, update_status, delete_job,
  set_job,
}
use drone_runner_aws.Jobs.Processor.{
  ProcessorConfig, Collaborators, setup_with, delete_done, process_typed, process_job, put_back,
  process_job_with_retry, process_all, process_pending_jobs,
}

-- The outbox with one job.
abbrev pub only : OutboxJob → ℕ → Outbox
only j next = record { jobs = j ∷ []; next_id = next }

-- The job as it stands after a try that failed.
abbrev pub tried : ℕ → String → OutboxJob → OutboxJob
tried now message j = record j {
  status = pending;
  error_message = some message;
  processed_at = some now;
  retry_count = suc j.retry_count;
}

module _ (test : OutboxJob → Bool) (f : OutboxJob → OutboxJob) (j : OutboxJob) where
  claim_one : (n : ℕ) → 0 < n → test j ≡ true → claim_up_to test f n (j ∷ []) ≡ (f j ∷ [], f j ∷ [])
  unfolding claim_up_to
  claim_one zero h e = absurd (omega (arith, h))
  claim_one (suc n) h e = rw e (ground arith)

  claim_none : (n : ℕ) → test j ≡ false → claim_up_to test f n (j ∷ []) ≡ ([], j ∷ [])
  unfolding claim_up_to
  claim_none zero e = refl
  claim_none (suc n) e = rw e (ground arith)

module _ {W : Type 0} (x : Collaborators W) where
  -- Setting up an instance always fails, with a message, and never touches the outbox.
  abbrev pub Fails : String → (W → W) → Type 0
  Fails message f =
      (pool : String) (p : Option SetupInstanceParams) (w : W) (o : Outbox)
      → x.setup_instance_for_pool pool p (w, o) ≡ (some message, (f w, o))

  -- A global set-up job that is due, in an outbox of its own.
  abbrev pub Waits : ℕ → ProcessorConfig → OutboxJob → Type 0
  Waits now p j =
      (j.runner_name ≡ "")
      × (j.job_type ≡ setup_instance)
      × (j.status ≡ pending)
      × (j.job_params ≢ some malformed)
      × (is_due now p.retry_minutes j.processed_at ≡ true)

  claimable :
      (c : Conn) (p : ProcessorConfig) (j : OutboxJob)
      → c.locked_job j.id ≡ false
      → Waits c.now p j
      → is_claimable c "" (setup_instance ∷ scale ∷ []) p.retry_minutes j ≡ true
  unfolding is_claimable
  claimable c p j l (runner, type, status, _, due) =
      rw (runner, type, status, due, l) (ground (arith, eq_refl ""))

  other_runner :
      (c : Conn) (p : ProcessorConfig) (j : OutboxJob)
      → p.runner_name ≢ ""
      → j.runner_name ≡ ""
      → is_claimable c p.runner_name (setup_instance ∷ scale ∷ []) p.retry_minutes j ≡ false
  unfolding is_claimable
  other_runner c p j n runner = ground (arith, eq_iff j.runner_name p.runner_name)

  claim_up :
      (c : Conn) (runner : String) (types : List OutboxJobType) (limit minutes : ℕ) (o : Outbox)
      (r : List OutboxJob × List OutboxJob)
      → c.down ≡ false
      → claim_up_to (is_claimable c runner types minutes) (start_job c) limit o.jobs ≡ r
      → find_and_claim_pending c runner types limit minutes o ≡ (ok r.0, record o { jobs = r.1 })
  unfolding find_and_claim_pending
  claim_up c runner types limit minutes o r d e = ground (arith, e)

  claims :
      (c : Conn) (p : ProcessorConfig) (j : OutboxJob) (next : ℕ)
      → c.down ≡ false
      → c.locked_job j.id ≡ false
      → 0 < p.batch_size
      → Waits c.now p j
      → find_and_claim_pending c ""
          (setup_instance ∷ scale ∷ [])
          p.batch_size
          p.retry_minutes
          (only j next)
        ≡ (ok (start_job c j ∷ []), only (start_job c j) next)
  claims c p j next d l b wait =
      claim_up c "" (setup_instance ∷ scale ∷ []) p.batch_size p.retry_minutes (only j next) _ d (
        claim_one (is_claimable c "" (setup_instance ∷ scale ∷ []) p.retry_minutes) (start_job c) j
          p.batch_size b (claimable c p j l wait))

  skips :
      (c : Conn) (p : ProcessorConfig) (j : OutboxJob) (next : ℕ)
      → c.down ≡ false
      → p.runner_name ≢ ""
      → j.runner_name ≡ ""
      → find_and_claim_pending c p.runner_name
          (setup_instance ∷ scale ∷ [])
          p.batch_size
          p.retry_minutes
          (only j next)
        ≡ (ok [], only j next)
  skips c p j next d n runner =
      claim_up c p.runner_name (setup_instance ∷ scale ∷ []) p.batch_size p.retry_minutes
        (only j next) _ d
        (claim_none (is_claimable c p.runner_name (setup_instance ∷ scale ∷ []) p.retry_minutes)
          (start_job c) j p.batch_size (other_runner c p j n runner))

  Fails-setup :
      (message : String) (f : W → W) (pool : String) (q : Option JobParams) (w : W) (o : Outbox)
      → q ≢ some malformed
      → Fails message f
      → setup_with x pool q (w, o) ≡ (some message, (f w, o))
  Fails-setup message f pool none w o n fails = fails pool none w o
  Fails-setup message f pool (some (setup_params q)) w o n fails = fails pool (some q) w o
  Fails-setup message f pool (some (scale_params q)) w o n fails = fails pool _ w o
  Fails-setup message f pool (some malformed) w o n fails = absurd (n refl)

  deletes :
      (c : Conn) (j : OutboxJob) (next : ℕ)
      → c.down ≡ false
      → (delete_job c j.id (only j next)).1 ≡ record { jobs = []; next_id = next }
  unfolding delete_job
  deletes c j next d = ground (arith, d)

  updates :
      (c : Conn) (j : OutboxJob) (next : ℕ) (message : String)
      → c.down ≡ false
      → (update_status c j.id pending message (only j next)).1
        ≡ only
            (record j { status = pending; error_message = some message; processed_at = some c.now })
            next
  unfolding update_status set_job
  updates c j next message d = ground (arith, d)

  -- What is done with the job that was claimed.
  handled :
      (net : ℕ → Conn) (p : ProcessorConfig) (j : OutboxJob) (next : ℕ) (message : String)
      (f : W → W) (w : W)
      → ((n : ℕ) → (net n).down ≡ false)
      → j.job_type ≡ setup_instance
      → j.job_params ≢ some malformed
      → Fails message f
      → process_job_with_retry x net p j (w, only j next) ≡ (
          if ltb p.max_retries j.retry_count then (w, record { jobs = []; next_id = next }) else (
            f w,
            only
                (record j {
                  status = pending;
                  error_message = some message;
                  processed_at = some (net 1).now;
                })
                next,
          ))
  unfolding process_job_with_retry process_job
  handled net p j next message f w up type good fails =
      ap₂ (λ (a b : W × Outbox). if ltb p.max_retries j.retry_count then a else b)
        (ap (λ (o : Outbox). (w, o)) (deletes (net 0) j next (up 0)))
        (ap
            (λ (t : OutboxJobType).
              put_back x (net 1) j.id (process_typed x (net 0) j t (w, only j next)))
            type
          ∙ ap
              (λ (r : Option String × (W × Outbox)).
                put_back x (net 1) j.id (delete_done x (net 0) j.id r))
              (Fails-setup message f j.pool_name j.job_params w (only j next) good fails)
          ∙ ap (λ (o : Outbox). (f w, o)) (updates (net 1) j next message (up 1)))

  -- One round with such a job.
  pub round :
      (net : ℕ → Conn) (p : ProcessorConfig) (j : OutboxJob) (next : ℕ) (message : String)
      (f : W → W) (w : W)
      → ((n : ℕ) → (net n).down ≡ false)
      → (net 1).locked_job j.id ≡ false
      → 0 < p.batch_size
      → p.runner_name ≢ ""
      → Waits (net 1).now p j
      → Fails message f
      → process_pending_jobs x net p (w, only j next) ≡ (
        ok tt,
        if ltb p.max_retries (suc j.retry_count)
            then (w, record { jobs = []; next_id = next })
            else (f w, only (tried (net 3).now message j) next),
      )
  unfolding process_pending_jobs process_all
  round net p j next message f w up free batch named wait fails =
      rw
        (skips (net 0) p j next (up 0) named wait.0, claims (net 1) p j next (up 1) free batch wait)
        (ap (λ (r : W × Outbox). (ok tt, r))
          (handled (λ n. net (n + 2)) p (start_job (net 1) j) next message f w (λ n. up (n + 2))
            wait.1 wait.3 fails))
