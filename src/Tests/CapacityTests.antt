-- ===== src/Tests/CapacityTests.antt =====
-- Runs of the sweep over capacity reservations.
use drone_runner_aws.Base.{
  ℕ, ◌+◌, ◌<◌, String, [], ◌∷◌, none, In, Distinct, ◌≡◌, ◌≢◌, refl, inl, arith,
}
use drone_runner_aws.Base.Text.{lookup, text-differ}
use drone_runner_aws.Types.{CapacityReservation, CapacityState, created, in_use}
use drone_runner_aws.Store.Instances.{list_instances, sort_by_started, insert_by_started}
use drone_runner_aws.Store.Batch.{claim_up_to}
use drone_runner_aws.Store.Capacity.{
  matches_capacity, list_capacities, find_and_claim_capacities, delete_capacity,
}
use drone_runner_aws.Store.Capacity.Evolves.{Evolves}
use drone_runner_aws.Drivers.Driver.{get_instance_by_stage_id}
use drone_runner_aws.Drivers.Capacity.{
  World, cleanup_capacities, find_stale_capacities, find_orphaned, claim_orphans,
  destroy_capacities, destroy_capacity,
}
use drone_runner_aws.Drivers.Capacity.Trace.{Due}
use drone_runner_aws.Drivers.Capacity.Sweep.{cleanup_capacities-Evolves}
use drone_runner_aws.Drivers.Capacity.Removal.{cleanup_capacities-removes}
use drone_runner_aws.Tests.{conn_at, row, linux_only, one_pool, one_pool-linux}

abbrev reserved : String → CapacityState → ℕ → CapacityReservation
reserved stage state made = record {
  stage_id = stage;
  pool_name = "linux";
  instance_id = "";
  reservation_id = "res";
  created_at = made;
  state = state;
  zone = none;
}

-- The second reservation is too young; the third is in use, and its instance is; the fourth is an orphan.
abbrev reservations : World
reservations = record {
  instances = record (row "vm-1" in_use 20) { stage = "s3" } ∷ [];
  capacities =
      reserved "s1" created 100
      ∷ reserved "s2" created 900
      ∷ reserved "s3" in_use 100
      ∷ reserved "s4" in_use 100
      ∷ [];
}

reservations-Distinct : Distinct ("s1" ∷ "s2" ∷ "s3" ∷ "s4" ∷ [])
reservations-Distinct = (
  (text-differ "s1" "s2" refl, (text-differ "s1" "s3" refl, (text-differ "s1" "s4" refl, tt))),
  (
    (text-differ "s2" "s3" refl, (text-differ "s2" "s4" refl, tt)),
    ((text-differ "s3" "s4" refl, tt), (tt, tt)),
  ),
)

swept :
    (cleanup_capacities
      (λ n. conn_at 1000)
      (λ n. conn_at 1001)
      one_pool
      "linux"
      1000
      300
      reservations).1.capacities
    ≡ reserved "s2" created 900 ∷ reserved "s3" in_use 100 ∷ []
unfolding cleanup_capacities find_stale_capacities find_orphaned claim_orphans destroy_capacities
    destroy_capacity list_capacities find_and_claim_capacities delete_capacity claim_up_to
    matches_capacity get_instance_by_stage_id lookup list_instances sort_by_started
    insert_by_started
swept = refl

cleanup_capacities-Evolves_example :
    Evolves
      (Due "linux" 700 reservations.instances)
      reservations.capacities
      (cleanup_capacities
        (λ n. conn_at 1000)
        (λ n. conn_at 1001)
        one_pool
        "linux"
        1000
        300
        reservations).1.capacities
cleanup_capacities-Evolves_example =
    cleanup_capacities-Evolves (λ n. conn_at 1000) (λ n. conn_at 1001) one_pool linux_only "linux"
      1000 300 reservations one_pool-linux (text-differ "linux" "" refl) (omega arith) (λ n. refl)
      reservations-Distinct

young_stays :
    In
      (reserved "s2" created 900)
      (cleanup_capacities
        (λ n. conn_at 1000)
        (λ n. conn_at 1001)
        one_pool
        "linux"
        1000
        300
        reservations).1.capacities
young_stays = rw swept (inl refl)

cleanup_capacities-removes_example : "s2" ≢ (reserved "s1" created 100).stage_id
cleanup_capacities-removes_example =
    cleanup_capacities-removes (λ n. conn_at 1000) (λ n. conn_at 1001) one_pool linux_only "linux"
      1000 300 reservations (reserved "s1" created 100) one_pool-linux (text-differ "linux" "" refl)
      (λ n. refl) (λ n. refl) refl refl (inl refl) refl old (λ e. cc) (reserved "s2" created 900)
      young_stays
  where
    old : 100 + 300 < 1000
    old = omega arith
