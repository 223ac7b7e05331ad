-- ===== src/Jobs/Trigger/Created.antt =====
-- ScalerTriggerJob.Execute: which jobs a run leaves in the outbox.
use drone_runner_aws.Base.{
  ℕ, ◌+◌, String, List, [], ◌∷◌, ◌++◌, Bool, true, false, ◌||◌, Option, none, some, In, ◌≢◌, ◌≡◌,
  refl, sym, ap, subst, ◌∙◌, inl, inr, arith, if◌then◌else◌, eq_refl, first, any,
}
use drone_runner_aws.Base.Result.{Result, ok, err}
use drone_runner_aws.Types.{OutboxJob}
use drone_runner_aws.Store.Instances.{StoreError, Conn}
use drone_runner_aws.Store.Outbox.{
  Outbox, create_job, find_scale_job_for_window, is_scale_job, inserted,
}
use drone_runner_aws.Jobs.Trigger.{
  ScalablePool, TriggerConfig, is_scaled_driver, window_job, create_unless, trigger_pool,
  trigger_pools, execute,
}
use drone_runner_aws.Jobs.Trigger.Cases.{execute-cases}

-- The outbox holds a scale job for the pool and window.
abbrev pub HasJob : String → ℕ → Outbox → Type 0
HasJob pool start o = any (is_scale_job pool start) o.jobs ≡ true

any-append :
    (p : OutboxJob → Bool) (xs ys : List OutboxJob) → any p (xs ++ ys) ≡ any p xs || any p ys
any-append p [] ys = refl
any-append p (x ∷ xs) ys = ground (arith, any-append p xs ys)

first-any :
    (p : OutboxJob → Bool) (xs : List OutboxJob) (x : OutboxJob)
    → first p xs ≡ some x
    → any p xs ≡ true
first-any p [] x e = cc
first-any p (y ∷ xs) x e = ground (arith, first-any p xs x)

-- A job that is in the table stays, and the calls that are up leave one for the pool.
create_job-HasJob :
    (c : Conn) (pool : String) (start end : ℕ) (o : Outbox)
    → c.down ≡ false
    → HasJob pool start (create_job c (window_job pool start end) o).1
unfolding create_job
create_job-HasJob c pool start end o d = ground (
  arith,
  any-append (is_scale_job pool start) o.jobs
      (inserted c (window_job pool start end) o.next_id ∷ []),
  eq_refl pool,
)

create_job-keeps :
    (c : Conn) (j : OutboxJob) (pool : String) (start : ℕ) (o : Outbox)
    → HasJob pool start o
    → HasJob pool start (create_job c j o).1
unfolding create_job
create_job-keeps c j pool start o h =
    ground (arith, any-append (is_scale_job pool start) o.jobs (inserted c j o.next_id ∷ []))

-- No other process deletes a scale job while the loop runs.
abbrev pub Keeps : (ℕ → Outbox → Outbox) → Type 0
Keeps others =
    (n : ℕ) (pool : String) (start : ℕ) (o : Outbox)
    → HasJob pool start o
    → HasJob pool start (others n o)

create_unless-keeps :
    (c : Conn) (j : OutboxJob) (r : Result StoreError (Option OutboxJob)) (others : Outbox → Outbox)
    (pool : String) (start : ℕ) (o : Outbox)
    → ((o : Outbox) → HasJob pool start o → HasJob pool start (others o))
    → HasJob pool start o
    → HasJob pool start (create_unless c j r others o)
create_unless-keeps c j (err e) others pool start o k h = h
create_unless-keeps c j (ok (some i)) others pool start o k h = h
create_unless-keeps c j (ok none) others pool start o k h =
    create_job-keeps c j pool start (others o) (k o h)

module _ (net : ℕ → Conn) (others : ℕ → Outbox → Outbox) (start end : ℕ) where
  trigger_pool-Keeps :
      (p : ScalablePool) (pool : String) (o : Outbox)
      → Keeps others
      → HasJob pool start o
      → HasJob pool start (trigger_pool net others start end p o)
  unfolding trigger_pool
  trigger_pool-Keeps p pool o k h = go (is_scaled_driver p.driver)
    where
      go :
          (b : Bool)
          → HasJob pool start (
              if b
              then create_unless
                  (net 1)
                  (window_job p.name start end)
                  (find_scale_job_for_window (net 0) p.name start (others 0 o))
                  (others 1)
                  (others 0 o)
              else o)
      go true =
          create_unless-keeps (net 1) (window_job p.name start end) _ (others 1) pool start
            (others 0 o) (k 1 pool start) (k 0 pool start o h)
      go false = h

  trigger_pool-HasJob :
      (p : ScalablePool) (o : Outbox)
      → ((n : ℕ) → (net n).down ≡ false)
      → is_scaled_driver p.driver ≡ true
      → HasJob p.name start (trigger_pool net others start end p o)
  unfolding trigger_pool find_scale_job_for_window
  trigger_pool-HasJob p o up s =
      rw (s, up 0) (go (first (is_scale_job p.name start) (others 0 o).jobs) refl)
    where
      go :
          (r : Option OutboxJob)
          → first (is_scale_job p.name start) (others 0 o).jobs ≡ r
          → HasJob p.name start
              (create_unless (net 1) (window_job p.name start end) (ok r) (others 1) (others 0 o))
      go none e = create_job-HasJob (net 1) p.name start end (others 1 (others 0 o)) (up 1)
      go (some j) e = first-any (is_scale_job p.name start) (others 0 o).jobs j e

trigger_pools-Keeps :
    (net : ℕ → Conn) (others : ℕ → Outbox → Outbox) (start end : ℕ) (pools : List ScalablePool)
    (pool : String) (o : Outbox)
    → Keeps others
    → HasJob pool start o
    → HasJob pool start (trigger_pools net others start end pools o)
unfolding trigger_pools
trigger_pools-Keeps net others start end [] pool o k h = h
trigger_pools-Keeps net others start end (p ∷ pools) pool o k h =
    trigger_pools-Keeps (λ n. net (n + 2)) (λ n. others (n + 2)) start end pools pool _
      (λ n. k (n + 2)) (trigger_pool-Keeps net others start end p pool o k h)

trigger_pools-HasJob :
    (net : ℕ → Conn) (others : ℕ → Outbox → Outbox) (start end : ℕ) (pools : List ScalablePool)
    (p : ScalablePool) (o : Outbox)
    → Keeps others
    → ((n : ℕ) → (net n).down ≡ false)
    → In p pools
    → is_scaled_driver p.driver ≡ true
    → HasJob p.name start (trigger_pools net others start end pools o)
unfolding trigger_pools
trigger_pools-HasJob net others start end [] p o k up m s = absurd m
trigger_pools-HasJob net others start end (q ∷ pools) p o k up (inl e) s =
    trigger_pools-Keeps (λ n. net (n + 2)) (λ n. others (n + 2)) start end pools p.name _
      (λ n. k (n + 2))
      (subst (λ (r : ScalablePool). HasJob r.name start (trigger_pool net others start end q o))
        (sym e)
        (trigger_pool-HasJob net others start end q o up
          (sym (ap (λ (r : ScalablePool). is_scaled_driver r.driver) e) ∙ s)))
trigger_pools-HasJob net others start end (q ∷ pools) p o k up (inr m) s =
    trigger_pools-HasJob (λ n. net (n + 2)) (λ n. others (n + 2)) start end pools p _
      (λ n. k (n + 2)) (λ n. up (n + 2)) m s

module _ (net : ℕ → Conn) (others : ℕ → Outbox → Outbox) (c : TriggerConfig)
    (pools : List ScalablePool) (now last last' : ℕ) (o o' : Outbox) where
  -- If no other process deletes a scale job meanwhile, a run in which no call fails and that moves to a
  -- new window leaves every Google and Amazon pool with a scale job for that window.
  pub execute-HasJob :
      Keeps others
      → ((n : ℕ) → (net n).down ≡ false)
      → execute net others c pools now last o ≡ some (last', o')
      → last' ≢ last
      → (p : ScalablePool) → In p pools
      → is_scaled_driver p.driver ≡ true
      → HasJob p.name last' o'
  execute-HasJob k up e new p m s = elim (execute-cases net others c pools now last last' o o' e) [
    | inl (same, _) ↦ absurd (new same)
    | inr (end, q, _, _, _, _) ↦
        subst (HasJob p.name last') (sym q)
          (trigger_pools-HasJob net others last' end pools p o k up m s)
  ]
