-- ===== src/Tests/CleanTests.antt =====
-- Runs of the clean-up of pools and of hibernation.
use drone_runner_aws.Base.{
  ℕ, String, List, [], ◌∷◌, Bool, true, some, In, In-keep, length, ◌<◌, ◌==◌, Bool-cases, ◌↔◌, ◌≡◌,
  ◌≢◌, ◌⊎◌, refl, inl, inr, arith, str_eq, keep,
}
use drone_runner_aws.Base.Text.{lookup, text-differ}
use drone_runner_aws.Base.Result.{ok, err}
use drone_runner_aws.Types.{Instance, created, in_use, empty_query}
use drone_runner_aws.Store.Instances.{
  StoreError, matches_claim, find_and_claim, pick_first, comes_before, claim_row, set_row,
  update_instance,
}
use drone_runner_aws.Drivers.Tenants.{Pool, driver_for_tenant}
use drone_runner_aws.Drivers.Driver.{Driver}
use drone_runner_aws.Drivers.Tenanted.{
  destroy_by_tenant, destroy_groups, tenants_in, tenant_of, Reports, Refused,
  destroy_by_tenant-Refused,
}
use drone_runner_aws.Drivers.Capacity.{World}
use drone_runner_aws.Drivers.Clean.{clean_pool, cleaned_states}
use drone_runner_aws.Drivers.Clean.Cleared.{clean_pool-clears}
use drone_runner_aws.Drivers.Hibernate.{claim_failed, hibernate}
use drone_runner_aws.Drivers.Hibernate.Outcomes.{Settled, hibernate-Settled}
use drone_runner_aws.Tests.{conn_at, row, two_rows, obedient, linux_only, one_pool, one_pool-linux}

-- It leaves the first instance.
abbrev reluctant : Driver
reluctant = record obedient { destroy = λ is. (keep (λ i. str_eq i.id "vm-1") is, true) }

abbrev two_drivers : Pool Driver
two_drivers = record linux_only {
  tenant_drivers = ("default", some reluctant) ∷ ("acme", some obedient) ∷ [];
}

two_drivers-Reports : (tenant : String) → Reports (driver_for_tenant two_drivers tenant)
unfolding driver_for_tenant lookup
two_drivers-Reports tenant is i = elim (Bool-cases (str_eq "default" tenant)) [
  | inl t ↦ rw t (λ m. (In-keep (λ i. str_eq i.id "vm-1") i is m).0)
  | inr f ↦ elim (Bool-cases (str_eq "acme" tenant)) [
    | inl t ↦ rw (f, t) (λ m. absurd m)
    | inr g ↦ rw (f, g) (λ m. (In-keep (λ i. str_eq i.id "vm-1") i is m).0)
  ]
]

abbrev mixed : List Instance
mixed = row "vm-1" in_use 10 ∷ record (row "vm-2" in_use 20) { tenant_id = "acme" } ∷ []

one_left : (destroy_by_tenant (λ ts. ts) two_drivers mixed).0 ≡ row "vm-1" in_use 10 ∷ []
unfolding destroy_by_tenant destroy_groups tenants_in driver_for_tenant lookup
one_left = refl

destroy_by_tenant-Refused_example :
    In (row "vm-1" in_use 10) (destroy_by_tenant (λ ts. ts) two_drivers mixed).0 ↔ (
      In (row "vm-1" in_use 10) mixed
      × Refused two_drivers mixed (row "vm-1" in_use 10) (tenant_of (row "vm-1" in_use 10)))
destroy_by_tenant-Refused_example =
    destroy_by_tenant-Refused (λ ts. ts) two_drivers mixed refl (λ tenant. ((λ m. m), λ m. m))
      two_drivers-Reports (row "vm-1" in_use 10)

abbrev clean_world : World
clean_world = record { instances = two_rows; capacities = [] }

clean_pool-clears_example :
    (w' : World) × (clean_pool 3
        (λ n. conn_at 100)
        (λ n. conn_at 200)
        (λ ts. ts)
        one_pool
        "linux"
        linux_only
        empty_query
        true
        true
        clean_world
      ≡ some (ok tt, w'))
    × ((i : Instance)
        → In i two_rows
        → matches_claim (record empty_query { pool_name = "linux" }) (cleaned_states true true) i
          ≡ true
        → (j : Instance) → In j w'.instances
        → j.id ≢ i.id)
clean_pool-clears_example =
    clean_pool-clears 3 (λ n. conn_at 100) (λ n. conn_at 200) (λ ts. ts) one_pool "linux" linux_only
      empty_query true true clean_world refl enough (λ n. refl) (λ n key. refl) (λ n. refl)
      (λ is. all_gone is)
  where
    enough :
        length (
          keep
            (matches_claim (record empty_query { pool_name = "linux" }) (cleaned_states true true))
            two_rows)
        < 3
    enough = unfold matches_claim in omega arith

    all_gone : (is : List Instance) → (destroy_by_tenant (λ ts. ts) linux_only is).0 ≡ []
    all_gone is = unfold destroy_by_tenant in refl

-- The second attempt succeeds.
abbrev second_try : Instance → ℕ → Bool
second_try i n = n == 2

hibernated :
    (hibernate
      (λ n. conn_at 100)
      (λ rows. rows)
      second_try
      one_pool
      "linux"
      (row "vm-1" created 20)
      true
      two_rows).0
    ≡ ok tt
unfolding hibernate lookup find_and_claim matches_claim pick_first comes_before claim_row set_row
    update_instance
hibernated = refl

hibernate-Settled_example :
    ((e : StoreError) × (hibernate
          (λ n. conn_at 100)
          (λ rows. rows)
          second_try
          one_pool
          "linux"
          (row "vm-1" created 20)
          true
          two_rows
        ≡ (err (claim_failed e), two_rows)))
    ⊎ ((a : Instance) × In a two_rows
        × (a.id ≡ "vm-1")
        × (a.state ≡ created)
        × Settled
            (λ n. conn_at 100)
            (λ rows. rows)
            second_try
            two_rows
            a
            (hibernate
              (λ n. conn_at 100)
              (λ rows. rows)
              second_try
              one_pool
              "linux"
              (row "vm-1" created 20)
              true
              two_rows))
hibernate-Settled_example =
    hibernate-Settled (λ n. conn_at 100) (λ rows. rows) second_try one_pool linux_only "linux"
      (row "vm-1" created 20) two_rows one_pool-linux (text-differ "vm-1" "" refl) refl
