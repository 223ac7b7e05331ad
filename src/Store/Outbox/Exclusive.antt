-- ===== src/Store/Outbox/Exclusive.antt =====
-- outboxStore.FindAndClaimPending: two claims, one after the other.
use drone_runner_aws.Base.{
  ℕ, suc, ◌≤◌, String, List, [], ◌∷◌, true, In, ◌≡◌, ◌≢◌, ap, subst, ◌∙◌, inl, inr, arith,
}
use drone_runner_aws.Base.Result.{Result, ok}
use drone_runner_aws.Types.{OutboxJob, OutboxJobType, pending, running}
use drone_runner_aws.Store.Instances.{StoreError, Conn}
use drone_runner_aws.Store.Outbox.{Outbox, find_and_claim_pending, is_claimable}
use drone_runner_aws.Store.Outbox.Claim.{find_and_claim_pending-Claimed}
use drone_runner_aws.Store.Outbox.Table.{Ascending, Inv}
use drone_runner_aws.Store.Outbox.Windows.{claim-Inv}

Ascending-In :
    (lo : ℕ) (jobs : List OutboxJob) (hi : ℕ) (j : OutboxJob)
    → Ascending lo jobs hi
    → In j jobs
    → lo ≤ j.id
Ascending-In lo [] hi j a m = absurd m
Ascending-In lo (k ∷ jobs) hi j a (inl e) = omega (arith, a.0, ap (λ (q : OutboxJob). q.id) e)
Ascending-In lo (k ∷ jobs) hi j a (inr m) =
    omega (arith, a.0, Ascending-In (suc k.id) jobs hi j a.1 m)

-- Rows of one id are one row.
pub Ascending-unique :
    (lo : ℕ) (jobs : List OutboxJob) (hi : ℕ) (j k : OutboxJob)
    → Ascending lo jobs hi
    → In j jobs
    → In k jobs
    → j.id ≡ k.id
    → j ≡ k
Ascending-unique lo [] hi j k a m n e = absurd m
Ascending-unique lo (x ∷ jobs) hi j k a (inl p) (inl q) e = cc
Ascending-unique lo (x ∷ jobs) hi j k a (inl p) (inr n) e =
    absurd (omega (arith, Ascending-In (suc x.id) jobs hi k a.1 n, ap (λ (y : OutboxJob). y.id) p))
Ascending-unique lo (x ∷ jobs) hi j k a (inr m) (inl q) e =
    absurd (omega (arith, Ascending-In (suc x.id) jobs hi j a.1 m, ap (λ (y : OutboxJob). y.id) q))
Ascending-unique lo (x ∷ jobs) hi j k a (inr m) (inr n) e =
    Ascending-unique (suc x.id) jobs hi j k a.1 m n e

claimable-pending :
    (c : Conn) (runner : String) (types : List OutboxJobType) (minutes : ℕ) (j : OutboxJob)
    → is_claimable c runner types minutes j ≡ true
    → j.status ≡ pending
unfolding is_claimable
claimable-pending c runner types minutes j h = ground arith

-- In an outbox that has its invariant, a job that one claim returns is not returned by the next one,
-- whichever runners make them and whatever they ask for.
pub claim_twice :
    (o o₁ o₂ : Outbox) (c c' : Conn) (runner runner' : String) (types types' : List OutboxJobType)
    (limit limit' minutes minutes' : ℕ) (first second : List OutboxJob) (j k : OutboxJob)
    → Inv o
    → find_and_claim_pending c runner types limit minutes o ≡ (ok first, o₁)
    → find_and_claim_pending c' runner' types' limit' minutes' o₁ ≡ (ok second, o₂)
    → In j first
    → In k second
    → j.id ≢ k.id
claim_twice o o₁ o₂ c c' runner runner' types types' limit limit' minutes minutes' first second j k
      v e e' m n same =
    let (stored, (i, _, _, started)) =
      (find_and_claim_pending-Claimed c runner types limit minutes o o₁ first e).1 j m in
    let (_, (i', stored', test', started')) =
      (find_and_claim_pending-Claimed c' runner' types' limit' minutes' o₁ o₂ second e').1 k n in
    let v₁ : Inv o₁ =
      subst Inv (ap (λ (t : Result StoreError (List OutboxJob) × Outbox). t.1) e)
        (claim-Inv c runner types limit minutes o v) in
    let row : j ≡ i' =
      Ascending-unique 0 o₁.jobs o₁.next_id j i' v₁.ids stored stored'
        (same ∙ ap (λ (q : OutboxJob). q.id) started') in
    let p = claimable-pending c' runner' types' minutes' i' test' in
    let q : j.status ≡ running = ap (λ (q : OutboxJob). q.status) started in
    cc (ap (λ (q : OutboxJob). q.status) row)
