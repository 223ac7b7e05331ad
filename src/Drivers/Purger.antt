-- ===== src/Drivers/Purger.antt =====
-- app/drivers/distributed_manager.go: the sweeps over old instances of a pool. Times are in seconds,
-- `now` is the runner's clock. `destroy` stands for destroyByTenant and answers the ids of the
-- instances that could not be destroyed. What the sweeps do to capacity reservations, the logs and
-- the metrics are left out; of a returned row the code reads the id, the tenant and the zone.
pub mod Rows
pub mod Sweep
use drone_runner_aws.Base.{
  ℕ, ◌+◌, ◌-◌, ◌*◌, String, List, [], ◌∷◌, Bool, true, false, not, ◌&&◌, ◌||◌, Option, none, some,
  str_eq, ltb, ◌==◌, if◌then◌else◌, keep, mem_text, map, is_empty,
}
use drone_runner_aws.Base.Text.{lookup}
use drone_runner_aws.Base.Result.{Result, ok, err}
use drone_runner_aws.Types.{
  Instance, InstanceState, created, in_use, hibernating, terminating, provisioning, same_state,
  mem_state,
}
use drone_runner_aws.Store.Instances.{StoreError, failed, Conn, stamp, has_labels}

abbrev pub hour : ℕ
hour = 3600

abbrev pub extended_max_busy : ℕ
extended_max_busy = 7 * (24 * hour)

abbrev pub stuck_terminating_max_age : ℕ
stuck_terminating_max_age = 120

abbrev pub stuck_provisioning_max_age : ℕ
stuck_provisioning_max_age = 1800

-- A row that began before `now - age`.
abbrev pub is_older : ℕ → ℕ → ℕ → Bool
is_older now age time = ltb time (now - age)

abbrev pub has_ttl : Instance → Bool
has_ttl i = elim (lookup "ttl" i.labels) [ none ↦ false | some _ ↦ true ]

unfoldable pub is_stale_busy : ℕ → String → ℕ → List (String × String) → Instance → Bool
is_stale_busy now pool max_age labels i =
    let busy = mem_state i.state (in_use ∷ terminating ∷ []) in
    str_eq i.pool pool
    && ((busy && is_older now max_age i.started && not (has_ttl i) && has_labels labels i.labels)
        || (busy
            && is_older now extended_max_busy i.started
            && has_ttl i
            && has_labels labels i.labels)
        || (same_state i.state terminating && is_older now stuck_terminating_max_age i.updated))

unfoldable pub is_stale_free : ℕ → String → ℕ → List (String × String) → Instance → Bool
is_stale_free now pool max_age labels i =
    str_eq i.pool pool
    && ((mem_state i.state (created ∷ hibernating ∷ [])
          && is_older now max_age i.started
          && has_labels labels i.labels)
        || (same_state i.state provisioning && is_older now stuck_provisioning_max_age i.started))

abbrev pub is_leaked : ℕ → String → ℕ → Instance → Bool
is_leaked now pool max_age i = str_eq i.pool pool && is_older now (2 * max_age) i.started

unfoldable pub force_delete_leaked : Conn → ℕ → String → ℕ → List Instance → List Instance
force_delete_leaked c now pool max_age rows =
    if max_age == 0 || c.down then rows else keep (λ i. not (is_leaked now pool max_age i)) rows

-- UPDATE … WHERE: the rows that pass are changed.
pub update_where : (Instance → Bool) → (Instance → Instance) → List Instance → List Instance
update_where test f [] = []
update_where test f (i ∷ rows) = (if test i then f i else i) ∷ update_where test f rows

abbrev pub ids_of : List Instance → List String
ids_of = map (λ i. i.id)

-- The rows that were destroyed are deleted.
unfoldable pub delete_destroyed :
    Conn → List Instance → List Instance → Result StoreError (List Instance) × List Instance
delete_destroyed c destroyed rows =
    if is_empty destroyed
    then (ok destroyed, rows)
    else if c.down
    then (err failed, rows)
    else (ok destroyed, keep (λ i. not (mem_text i.id (ids_of destroyed))) rows)

-- What the driver did not report as failed.
abbrev pub destroyed_by : (List Instance → List String) → List Instance → List Instance
destroyed_by destroy claimed = keep (λ i. not (mem_text i.id (destroy claimed))) claimed

abbrev pub claim_stale : Conn → (Instance → Bool) → List Instance → List Instance
claim_stale c stale rows = map (stamp c terminating false) (keep stale rows)

-- `net 0` deletes what has leaked, `net 1` claims the stale rows, `net 2` deletes the destroyed ones.
pub execute_instance_cleanup :
    (ℕ → Conn)
    → ℕ
    → String
    → (List Instance → List String)
    → (Instance → Bool)
    → ℕ
    → List Instance
    → Result StoreError (List Instance) × List Instance
unfolding force_delete_leaked update_where delete_destroyed
execute_instance_cleanup net now pool destroy stale max_age rows =
    let left = force_delete_leaked (net 0) now pool max_age rows in
    let claimed = claim_stale (net 1) stale left in
    if (net 1).down
    then (err failed, left)
    else delete_destroyed (net 2) (destroyed_by destroy claimed)
        (update_where stale (stamp (net 1) terminating false) left)

abbrev pub cleanup_busy :
    (ℕ → Conn)
    → ℕ
    → String
    → (List Instance → List String)
    → ℕ
    → List (String × String)
    → List Instance
    → Result StoreError (List Instance) × List Instance
cleanup_busy net now pool destroy max_age labels =
    execute_instance_cleanup net now pool destroy (is_stale_busy now pool max_age labels) max_age

abbrev pub cleanup_free :
    (ℕ → Conn)
    → ℕ
    → String
    → (List Instance → List String)
    → ℕ
    → List (String × String)
    → List Instance
    → Result StoreError (List Instance) × List Instance
cleanup_free net now pool destroy max_age labels =
    execute_instance_cleanup net now pool destroy (is_stale_free now pool max_age labels) max_age

-- A sweep: an age of 0 leaves its part out, and an error of one part does not stop the other.
unfoldable pub sweep :
    (ℕ → Conn)
    → ℕ
    → String
    → (List Instance → List String)
    → ℕ
    → ℕ
    → List (String × String)
    → List Instance
    → List Instance
unfolding execute_instance_cleanup
sweep net now pool destroy max_age_busy max_age_free labels rows =
    let swept =
      if max_age_busy == 0
      then rows
      else (cleanup_busy net now pool destroy max_age_busy labels rows).1 in
    if max_age_free == 0
    then swept
    else (cleanup_free (λ n. net (n + 3)) now pool destroy max_age_free labels swept).1
