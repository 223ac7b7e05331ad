-- ===== src/Store/Outbox/Windows.antt =====
-- The outbox over a history of calls: its ids, and the scale jobs of a pool and window.
use drone_runner_aws.Base.{
  ℕ, zero, suc, String, List, [], ◌∷◌, ◌++◌, Bool, true, false, All, ◌≡◌, refl, ◌∙◌, arith, keep,
  any, if◌then◌else◌, ◌||◌,
}
use drone_runner_aws.Types.{OutboxJob, OutboxJobType, OutboxJobStatus}
use drone_runner_aws.Store.Instances.{Conn}
use drone_runner_aws.Store.Batch.{claim_up_to}
use drone_runner_aws.Store.Outbox.{
  Outbox, is_claimable, start_job, find_and_claim_pending, create_job, set_job, has_id,
  update_status, delete_job, delete_older_than, clashes_at, window_of, inserted,
}
use drone_runner_aws.Store.Outbox.Table.{
  is_same_window, Inv, Same, Alike, Ascending-append, Ascending-keep, OneEach-keep, Alike-refl,
  Ascending-Alike, OneEach-Alike, clashes_at-All, clashes_at-Same, OneEach-append,
}

claim_up_to-Alike :
    (test : OutboxJob → Bool) (c : Conn) (limit : ℕ) (jobs : List OutboxJob)
    → Alike jobs (claim_up_to test (start_job c) limit jobs).1
unfolding claim_up_to
claim_up_to-Alike test c limit [] = tt
claim_up_to-Alike test c zero (j ∷ jobs) = Alike-refl (j ∷ jobs)
claim_up_to-Alike test c (suc limit) (j ∷ jobs) =
    ground (arith, claim_up_to-Alike test c limit jobs, claim_up_to-Alike test c (suc limit) jobs)

set_job-Alike :
    (id : ℕ) (f : OutboxJob → OutboxJob) (jobs : List OutboxJob)
    → ((j : OutboxJob) → Same j (f j))
    → Alike jobs (set_job id f jobs)
unfolding set_job
set_job-Alike id f [] same = tt
set_job-Alike id f (j ∷ jobs) same = (ground (arith, same j), set_job-Alike id f jobs same)

Inv-Alike :
    (o : Outbox) (jobs : List OutboxJob)
    → Alike o.jobs jobs
    → Inv o
    → Inv (record o { jobs = jobs })
Inv-Alike o jobs s v = record {
  ids = Ascending-Alike 0 o.jobs jobs o.next_id s v.ids;
  windows = OneEach-Alike o.jobs jobs s v.windows;
}

Inv-keep : (p : OutboxJob → Bool) (o : Outbox) → Inv o → Inv (record o { jobs = keep p o.jobs })
Inv-keep p o v = record {
  ids = Ascending-keep p 0 o.jobs o.next_id v.ids;
  windows = OneEach-keep p o.jobs v.windows;
}

-- One call of the outbox store, with what the server decides in it.
pub data Call : Type 0 where
  create : Conn → OutboxJob → Call
  claim : Conn → String → List OutboxJobType → ℕ → ℕ → Call
  update : Conn → ℕ → OutboxJobStatus → String → Call
  delete : Conn → ℕ → Call
  clean : Conn → ℕ → Call

unfoldable pub step : Outbox → Call → Outbox
step o (create c j) = (create_job c j o).1
step o (claim c runner types limit minutes) =
    (find_and_claim_pending c runner types limit minutes o).1
step o (update c id status message) = (update_status c id status message o).1
step o (delete c id) = (delete_job c id o).1
step o (clean c timestamp) = (delete_older_than c timestamp o).1

pub run : Outbox → List Call → Outbox
run o [] = o
run o (c ∷ calls) = run (step o c) calls

Inv-if {ℓ} :
    {A : Type ℓ} (b : Bool) (x y : A × Outbox)
    → (b ≡ true → Inv x.1)
    → (b ≡ false → Inv y.1)
    → Inv (if b then x else y).1
Inv-if true x y h k = h refl
Inv-if false x y h k = k refl

append-Inv :
    (c : Conn) (j : OutboxJob) (o : Outbox)
    → clashes_at (window_of j.job_params) j o.jobs ≡ false
    → Inv o
    → Inv (record { jobs = o.jobs ++ inserted c j o.next_id ∷ []; next_id = suc o.next_id })
append-Inv c j o e v = record {
  ids = Ascending-append 0 o.jobs o.next_id (inserted c j o.next_id) refl v.ids;
  windows =
      OneEach-append o.jobs (inserted c j o.next_id) v.windows
        (same o.jobs (clashes_at-All (window_of j.job_params) j o.jobs e));
}
  where
    same :
        (jobs : List OutboxJob)
        → All (λ k. clashes_at (window_of j.job_params) j (k ∷ []) ≡ false) jobs
        → All (λ k. is_same_window (inserted c j o.next_id) k ≡ false) jobs
    same [] h = tt
    same (k ∷ jobs) h = (
      clashes_at-Same (window_of j.job_params) j (inserted c j o.next_id) k k (refl, refl, refl)
            (refl, refl, refl)
          ∙ h.0,
      same jobs h.1,
    )

pub step-Inv : (o : Outbox) (c : Call) → Inv o → Inv (step o c)
unfolding step create_job find_and_claim_pending update_status delete_job delete_older_than
step-Inv o (create c j) v =
    Inv-if (c.down || clashes_at (window_of j.job_params) j o.jobs) _ _ (λ e. v)
      (λ e. append-Inv c j o (ground arith) v)
step-Inv o (claim c runner types limit minutes) v =
    Inv-if c.down _ _ (λ e. v)
      (λ e.
        Inv-Alike o _ (claim_up_to-Alike (is_claimable c runner types minutes) c limit o.jobs) v)
step-Inv o (update c id status message) v =
    Inv-if c.down _ _ (λ e. v)
      (λ e.
        Inv-if (any (has_id id) o.jobs) _ _
          (λ h. Inv-Alike o _ (set_job-Alike id _ o.jobs (λ j. (refl, (refl, refl, refl)))) v)
          (λ h. v))
step-Inv o (delete c id) v =
    Inv-if c.down _ _ (λ e. v)
      (λ e. Inv-if (any (has_id id) o.jobs) _ _ (λ h. Inv-keep _ o v) (λ h. v))
step-Inv o (clean c timestamp) v = Inv-if c.down _ _ (λ e. v) (λ e. Inv-keep _ o v)

-- From an outbox that has the invariant, every history of calls, whoever makes them and whichever of
-- them fail, keeps it: ids grow along the table, so that no two rows share one, and no two scale jobs
-- are for the same pool and window.
pub run-Inv : (o : Outbox) (calls : List Call) → Inv o → Inv (run o calls)
unfolding run
run-Inv o [] v = v
run-Inv o (c ∷ calls) v = run-Inv (step o c) calls (step-Inv o c v)

pub claim-Inv :
    (c : Conn) (runner : String) (types : List OutboxJobType) (limit minutes : ℕ) (o : Outbox)
    → Inv o
    → Inv (find_and_claim_pending c runner types limit minutes o).1
claim-Inv c runner types limit minutes o v =
    unfold step in step-Inv o (claim c runner types limit minutes) v
