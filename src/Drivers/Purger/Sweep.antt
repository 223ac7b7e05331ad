-- ===== src/Drivers/Purger/Sweep.antt =====
-- cleanupBusyInstances and forceDeleteLeakedInstances: how old an instance may become.
use drone_runner_aws.Base.{
  ℕ, ◌+◌, ◌*◌, ◌≤◌, String, List, false, not, In, In-keep, keep, Distinct, ◌≡◌, ◌≢◌, subst, arith,
  if◌then◌else◌, eq_refl,
}
use drone_runner_aws.Types.{Instance, in_use}
use drone_runner_aws.Store.Instances.{Conn}
use drone_runner_aws.Drivers.Purger.{
  has_ttl, is_stale_busy, is_leaked, force_delete_leaked, ids_of, cleanup_busy, extended_max_busy,
}
use drone_runner_aws.Drivers.Purger.Rows.{cleanup-spares}

-- How old an instance in use may become: a week with a `ttl` label.
abbrev pub allowed_age : ℕ → Instance → ℕ
allowed_age max_age i = if has_ttl i then extended_max_busy else max_age

fresh-not_stale :
    (now : ℕ) (pool : String) (max_age : ℕ) (labels : List (String × String)) (i : Instance)
    → i.state ≡ in_use
    → now ≤ i.started + allowed_age max_age i
    → is_stale_busy now pool max_age labels i ≡ false
unfolding is_stale_busy
fresh-not_stale now pool max_age labels i s h = rw s (ground (arith, h))

-- In a table whose ids are distinct, an instance in use that is no older than it may become (a week
-- with a `ttl` label, the maximal age without) and no older than twice the maximal age is left as it is.
pub cleanup_busy-fresh :
    (net : ℕ → Conn) (now : ℕ) (pool : String) (destroy : List Instance → List String) (max_age : ℕ)
    (labels : List (String × String)) (rows : List Instance) (i : Instance)
    → Distinct (ids_of rows)
    → In i rows
    → i.state ≡ in_use
    → now ≤ i.started + allowed_age max_age i
    → now ≤ i.started + 2 * max_age
    → In i (cleanup_busy net now pool destroy max_age labels rows).1
cleanup_busy-fresh net now pool destroy max_age labels rows i d m s h k =
    cleanup-spares net now pool destroy (is_stale_busy now pool max_age labels) max_age rows i d m
      (ground arith) (fresh-not_stale now pool max_age labels i s h)

-- With a maximal age that is not 0, and a call that goes through, the first statement of a sweep leaves
-- no row of the pool that is older than twice that age, whatever its state and its labels.
pub force_delete_leaked-bound :
    (c : Conn) (now : ℕ) (pool : String) (max_age : ℕ) (rows : List Instance) (i : Instance)
    → c.down ≡ false
    → max_age ≢ 0
    → In i (force_delete_leaked c now pool max_age rows)
    → i.pool ≡ pool
    → now ≤ i.started + 2 * max_age
unfolding force_delete_leaked
force_delete_leaked-bound c now pool max_age rows i d n m p =
    let k : In i (keep (λ j. not (is_leaked now pool max_age j)) rows) =
      subst (λ b. In i (if b then rows else keep (λ j. not (is_leaked now pool max_age j)) rows))
        {y = false} (ground (arith, d, n)) m in
    let e = (In-keep (λ j. not (is_leaked now pool max_age j)) i rows k).1 in
    ground (arith, e, p, eq_refl pool)
