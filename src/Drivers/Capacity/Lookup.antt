-- ===== src/Drivers/Capacity/Lookup.antt =====
-- What it means that a stage has no instance, as the sweep over reservations finds out.
use drone_runner_aws.Base.{
  String, List, [], ◌∷◌, Bool, true, false, In, keep-In, ◌≡◌, ◌≢◌, arith, keep, eq_iff, some,
}
use drone_runner_aws.Base.Text.{lookup}
use drone_runner_aws.Types.{Instance, in_use, empty_query}
use drone_runner_aws.Store.Instances.{Conn, matches_list, list_instances, sort_by_started}
use drone_runner_aws.Store.Instances.Sorted.{In-sort}
use drone_runner_aws.Drivers.Tenants.{Pool}
use drone_runner_aws.Drivers.Driver.{Driver, Pools, get_instance_by_stage_id, head_of}
use drone_runner_aws.Drivers.Capacity.{is_ok}

no_head : (rows : List Instance) (i : Instance) → is_ok (head_of rows) ≡ false → In i rows → ⊥
no_head [] i e m = m
no_head (x ∷ rows) i e m = cc

-- A lookup that goes through and finds nothing.
pub no_instance_of_stage :
    (c : Conn) (pools : Pools) (p : Pool Driver) (pool stage : String) (rows : List Instance)
    → lookup pool pools ≡ some p
    → c.down ≡ false
    → stage ≢ ""
    → is_ok (get_instance_by_stage_id c pools pool stage rows) ≡ false
    → (i : Instance) → In i rows
    → i.pool ≡ pool
    → i.state ≡ in_use
    → i.stage ≢ stage
unfolding get_instance_by_stage_id list_instances
no_instance_of_stage c pools p pool stage rows known up ne e i m own busy mine =
    no_head (sort_by_started (keep test rows)) i e'
      (In-sort (keep test rows) i (keep-In test i rows m passes))
  where
    test : Instance → Bool
    test = matches_list pool (some (record empty_query { status = some in_use; stage = stage }))

    passes : test i ≡ true
    passes = ground (arith, eq_iff i.pool pool, eq_iff i.stage stage, eq_iff "" "")

    e' : is_ok (head_of (sort_by_started (keep test rows))) ≡ false
    e' = ground (arith, eq_iff stage "")
