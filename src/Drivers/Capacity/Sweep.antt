-- ===== src/Drivers/Capacity/Sweep.antt =====
-- cleanupCapacities: which reservations the sweep may touch.
use drone_runner_aws.Base.{
  ℕ, ◌+◌, ◌-◌, ◌<◌, String, List, [], ◌∷◌, ◌++◌, true, false, In, In-append, ◌≡◌, ◌≢◌, refl, ◌⊎◌,
  inl, inr, arith, some, Distinct,
}
use drone_runner_aws.Base.Text.{lookup}
use drone_runner_aws.Base.Result.{Result}
use drone_runner_aws.Types.{
  Instance, CapacityReservation, created, in_use, terminating, CapacityQuery,
}
use drone_runner_aws.Store.Instances.{StoreError, Conn}
use drone_runner_aws.Store.Capacity.{matches_capacity, list_capacities, find_and_claim_capacities}
use drone_runner_aws.Store.Capacity.Evolves.{Evolves, Evolves-trans}
use drone_runner_aws.Store.Capacity.Listed.{stage_ids, older-facts, Evolves-Distinct, stages_unique}
use drone_runner_aws.Drivers.Tenants.{Pool}
use drone_runner_aws.Drivers.Driver.{Driver, Pools}
use drone_runner_aws.Drivers.Capacity.{
  World, answered, older_than, find_orphaned, find_stale_capacities, cleanup_capacities,
}
use drone_runner_aws.Drivers.Capacity.Steps.{destroy_capacities-Evolves}
use drone_runner_aws.Drivers.Capacity.Trace.{
  Due, Settled, settle, Traced, claim_ends, claim-Traced, claim_orphans-Traced, answered-In,
}

module _ (pool : String) (before : ℕ) (is : List Instance) (pools : Pools) {p : Pool Driver}
    (known : lookup pool pools ≡ some p) where
  module _ (named : pool ≢ "") (some_age : 0 < before) where
    find_orphaned-Traced :
        (net : ℕ → Conn) (w : World)
        → w.instances ≡ is
        → ((n : ℕ) → (net n).down ≡ false)
        → Distinct (stage_ids w.capacities)
        → Traced pool before is pools known w.capacities (find_orphaned net pools pool before w)
    unfolding find_orphaned
    find_orphaned-Traced net w same up d = rw same (
        claim_orphans-Traced pool before is pools known (λ n. net (n + 1)) _ w.capacities
          (λ n. up (n + 1)) d
          (λ r m s n q.
            let (here, passed) =
              answered-In pool before is pools known (net 0) (some (older_than pool before))
                (in_use ∷ []) w.capacities r m in
            let facts = older-facts pool before in_use r named some_age passed in
            let one : s ≡ r = stages_unique w.capacities s r d n here q in
            rw one (facts.0, facts.1)))

    find_stale-Traced :
        (net : ℕ → Conn) (w : World)
        → w.instances ≡ is
        → ((n : ℕ) → (net n).down ≡ false)
        → Distinct (stage_ids w.capacities)
        → Traced pool before is pools known w.capacities (
          (find_stale_capacities net pools pool before w).1.0,
          (find_stale_capacities net pools pool before w).1.1.capacities,
        )
    unfolding find_stale_capacities
    find_stale-Traced net w same up d = (traced.0, λ k m. go k (In-append (answered stale) _ k m))
      where
        q : CapacityQuery
        q = older_than pool before

        stale : Result StoreError (List CapacityReservation)
        stale = list_capacities (net 0) (some q) (terminating ∷ []) w.capacities

        due :
            (r : CapacityReservation)
            → In r w.capacities
            → matches_capacity (some q) (created ∷ []) r ≡ true
            → Due pool before is r
        due r m e =
            let (own, old, fresh) = older-facts pool before created r named some_age e in
            ((own, old), λ busy. cc)

        free : Result StoreError (List CapacityReservation) × List CapacityReservation
        free = find_and_claim_capacities (net 1) (some q) terminating (created ∷ []) w.capacities

        orphans : List CapacityReservation × List CapacityReservation
        orphans =
            find_orphaned (λ n. net (n + 2)) pools pool before (record w { capacities = free.1 })

        ends : Evolves (Due pool before is) w.capacities free.1
        ends = claim_ends pool before is pools known (net 1) q (created ∷ []) w.capacities d due

        traced :
            Traced pool before is pools known w.capacities (answered free.0 ++ orphans.0, orphans.1)
        traced =
            claim-Traced pool before is pools known (net 1) q (created ∷ []) w.capacities d due
              orphans
              (find_orphaned-Traced (λ n. net (n + 2)) (record w { capacities = free.1 }) same
                (λ n. up (n + 2)) (Evolves-Distinct ends d))

        go :
            (k : CapacityReservation)
            → In k (answered stale) ⊎ In k (answered free.0 ++ orphans.0)
            → Settled pool before orphans.1 k
        go k (inr m) = traced.1 k m
        go k (inl m) =
            let (here, passed) =
              answered-In pool before is pools known (net 0) (some q) (terminating ∷ [])
                w.capacities k m in
            let (own, old, ended) = older-facts pool before terminating k named some_age passed in
            settle pool before d traced.0 k here (own, old) ended

-- If the lookups go through, and the table has one row for a stage, then the sweep ends or removes only
-- reservations of the pool that are older than the maximal age, and of those in use only such whose
-- stage has no instance in use; it changes nothing of a row but its state, to terminating, and adds no
-- row. This holds whichever of the destructions fail.
pub cleanup_capacities-Evolves :
    (net later : ℕ → Conn) (pools : Pools) (p : Pool Driver) (pool : String) (now max_age : ℕ)
    (w : World)
    → lookup pool pools ≡ some p
    → pool ≢ ""
    → max_age < now
    → ((n : ℕ) → (net n).down ≡ false)
    → Distinct (stage_ids w.capacities)
    → Evolves
        (Due pool (now - max_age) w.instances)
        w.capacities
        (cleanup_capacities net later pools pool now max_age w).1.capacities
unfolding cleanup_capacities
cleanup_capacities-Evolves net later pools p pool now max_age w known named young up d =
    Evolves-trans found.0 (
      destroy_capacities-Evolves (Due pool before w.instances) (λ r e. (e.0, λ busy. cc)) later
        pools (find_stale_capacities net pools pool before w).1.0
        (find_stale_capacities net pools pool before w).1.1
        (λ r m s n q. let (old, ended) = found.1 r m s n q in (old, λ busy. cc)))
  where
    before : ℕ
    before = now - max_age

    found : Traced pool before w.instances pools known w.capacities (
      (find_stale_capacities net pools pool before w).1.0,
      (find_stale_capacities net pools pool before w).1.1.capacities,
    )
    found =
        find_stale-Traced pool before w.instances pools known named (omega arith) net w refl up d
