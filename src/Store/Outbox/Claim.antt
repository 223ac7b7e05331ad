-- ===== src/Store/Outbox/Claim.antt =====
-- outboxStore.FindAndClaimPending: the jobs that a claim returns.
use drone_runner_aws.Base.{
  ℕ, String, List, true, In, ◌≡◌, ap, subst, sym, ◌∙◌, arith, keep, length, min,
}
use drone_runner_aws.Types.{OutboxJob, OutboxJobType}
use drone_runner_aws.Base.Result.{ok}
use drone_runner_aws.Store.Instances.{Conn}
use drone_runner_aws.Store.Batch.{claim_up_to, length-claim_up_to, claimed-In, claimed-stored}
use drone_runner_aws.Store.Outbox.{Outbox, is_claimable, start_job, find_and_claim_pending}

module _ (c : Conn) (runner : String) (types : List OutboxJobType) (limit minutes : ℕ)
    (o o' : Outbox) (jobs : List OutboxJob) where
  -- As many jobs are returned as pass the conditions, up to the limit, and each is a row that passed,
  -- as it now stands in the table: running, with the time and one more try.
  abbrev pub Claimed : Type 0
  Claimed =
      (length jobs ≡ min limit (length (keep (is_claimable c runner types minutes) o.jobs)))
      × ((k : OutboxJob)
          → In k jobs
          → In k o'.jobs
            × ((j : OutboxJob) × In j o.jobs
                × (is_claimable c runner types minutes j ≡ true)
                × (k ≡ start_job c j)))

  claim_parts :
      find_and_claim_pending c runner types limit minutes o ≡ (ok jobs, o')
      → (jobs ≡ (claim_up_to (is_claimable c runner types minutes) (start_job c) limit o.jobs).0)
        × (o'.jobs
            ≡ (claim_up_to (is_claimable c runner types minutes) (start_job c) limit o.jobs).1)
  unfolding find_and_claim_pending
  claim_parts e = ground arith

  -- A claim that succeeds returns as many jobs as pass the conditions, up to the limit; each is a row
  -- that passed, as it now stands in the table: running, with the time and one more try.
  pub find_and_claim_pending-Claimed :
      find_and_claim_pending c runner types limit minutes o ≡ (ok jobs, o') → Claimed
  find_and_claim_pending-Claimed e =
      let (p, q) = claim_parts e in
      (
        ap length p
            ∙ length-claim_up_to (is_claimable c runner types minutes) (start_job c) limit o.jobs,
        λ k m.
            let n = subst (In k) p m in
            (
              subst (In k) (sym q) (
                  claimed-stored (is_claimable c runner types minutes) (start_job c) limit o.jobs k
                    n),
              claimed-In (is_claimable c runner types minutes) (start_job c) limit o.jobs k n,
            ),
      )
