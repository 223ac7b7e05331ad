-- ===== src/Jobs/Processor/Rounds.antt =====
-- OutboxProcessor: round after round with one job whose set-up fails.
use drone_runner_aws.Base.{
  ℕ, zero, suc, ◌+◌, ◌*◌, ◌≤◌, ◌<◌, String, [], Bool, true, false, ◌≡◌, ◌≢◌, refl, ap, ◌∙◌, arith,
  ltb, lt→ltb, if◌then◌else◌,
}
use drone_runner_aws.Base.Result.{Result, ok}
use drone_runner_aws.Types.{OutboxJob}
use drone_runner_aws.Store.Instances.{StoreError, Conn}
use drone_runner_aws.Store.Outbox.{Outbox}
use drone_runner_aws.Jobs.Processor.{ProcessorConfig, Collaborators, run_rounds}
use drone_runner_aws.Jobs.Processor.Once.{only, tried, Fails, Waits, round}

-- `n` times.
abbrev pub iterate {ℓ} : {A : Type ℓ} → (A → A) → ℕ → A → A
iterate f zero a = a
iterate f (suc n) a = iterate f n (f a)

the_last : {m r : ℕ} → m < suc r → ltb m (suc r) ≡ true
the_last h = ground (arith, h)

not_last : {m r : ℕ} → suc r ≤ m → ltb m (suc r) ≡ false
not_last h = ground (arith, h)

module _ {W : Type 0} (x : Collaborators W) (p : ProcessorConfig) (message : String)
    (f : W → W) where
  -- The calls of all rounds succeed and see the job, and between two rounds there is more time than
  -- the retry interval.
  abbrev pub Timely : (ℕ → ℕ → Conn) → ℕ → Type 0
  Timely nets id =
      ((i n : ℕ) → (nets i n).down ≡ false)
      × ((i : ℕ) → (nets i 1).locked_job id ≡ false)
      × ((i : ℕ) → (nets i 3).now + 60 * p.retry_minutes < (nets (suc i) 1).now)

  -- A job of any runner, alone in the outbox and due, sets an instance up, which always fails without
  -- touching the outbox. No call fails, the row is never locked, and the rounds are further apart than
  -- the retry interval. Then the job is tried once a round until it has been tried as often as is
  -- allowed, and no more: the round after that deletes it.
  pub run_rounds-deletes :
      (nets : ℕ → ℕ → Conn) (k : ℕ) (j : OutboxJob) (next : ℕ) (w : W)
      → Timely nets j.id
      → 0 < p.batch_size
      → p.runner_name ≢ ""
      → Fails x message f
      → Waits x (nets 0 1).now p j
      → j.retry_count + k ≡ p.max_retries
      → run_rounds x nets p (suc k) (w, only j next)
        ≡ (iterate f k w, record { jobs = []; next_id = next })
  unfolding run_rounds
  run_rounds-deletes nets zero j next w (up, free, apart) batch named fails wait count =
      ap (λ (r : Result StoreError Unit × (W × Outbox)). r.1)
        (round x (nets 0) p j next message f w (up 0) (free 0) batch named wait fails)
      ∙ ap
          (λ (b : Bool).
            if b
            then (w, record { jobs = []; next_id = next })
            else (f w, only (tried (nets 0 3).now message j) next))
          (the_last (omega (arith, count)))
  run_rounds-deletes nets (suc k) j next w (up, free, apart) batch named fails wait count =
      ap
        (λ (r : Result StoreError Unit × (W × Outbox)).
          run_rounds x (λ i. nets (suc i)) p (suc k) r.1)
        (round x (nets 0) p j next message f w (up 0) (free 0) batch named wait fails
          ∙ ap
              (λ (b : Bool). (
                ok tt,
                if b
                    then (w, record { jobs = []; next_id = next })
                    else (f w, only (tried (nets 0 3).now message j) next),
              ))
              (not_last (omega (arith, count))))
      ∙ run_rounds-deletes (λ i. nets (suc i)) k (tried (nets 0 3).now message j) next (f w)
          ((λ i. up (suc i)), (λ i. free (suc i)), λ i. apart (suc i)) batch named fails
          (
            wait.0,
            wait.1,
            refl,
            wait.3,
            lt→ltb ((nets 0 3).now + 60 * p.retry_minutes) (nets 1 1).now (apart 0),
          )
          (omega (arith, count))
