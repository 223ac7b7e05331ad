-- ===== src/Jobs/Tracker.antt =====
-- app/scheduler/jobs/utilization_tracker.go and history_cleanup.go: the jobs that write the history of
-- usage, and that take old records out of it. `net 0` counts, the other calls create a record each.
pub mod Recorded
use drone_runner_aws.Base.{ℕ, ◌+◌, ◌-◌, List, [], ◌∷◌, Bool, true, false}
use drone_runner_aws.Base.Result.{Result, ok, err}
use drone_runner_aws.Types.{Instance, in_use, InstanceCount, UtilizationRecord}
use drone_runner_aws.Store.Instances.{StoreError, Conn}
use drone_runner_aws.Store.History.{
  count_grouped_instances, create_record, delete_records_older_than,
}

abbrev pub record_of : ℕ → InstanceCount → UtilizationRecord
record_of now n = record {
  pool = n.pool;
  tenant_id = n.tenant_id;
  variant_id = n.variant_id;
  image_name = n.image_name;
  in_use_instances = n.count;
  recorded_at = now;
}

abbrev pub or_kept :
    List UtilizationRecord → Result StoreError (List UtilizationRecord) → List UtilizationRecord
or_kept rows (err e) = rows
or_kept rows (ok rows') = rows'

-- An error is logged, and the next group has its turn.
unfoldable pub record_counts :
    (ℕ → Conn) → ℕ → List InstanceCount → List UtilizationRecord → List UtilizationRecord
record_counts net now [] rows = rows
record_counts net now (n ∷ counts) rows =
    record_counts (λ k. net (k + 1)) now counts
      (or_kept rows (create_record (net 0) (record_of now n) rows))

abbrev pub record_all :
    (ℕ → Conn)
    → ℕ
    → List UtilizationRecord
    → Result StoreError (List InstanceCount)
    → Result StoreError (Unit {0}) × List UtilizationRecord
record_all net now rows (err e) = (err e, rows)
record_all net now rows (ok counts) = (ok tt, record_counts net now counts rows)

unfoldable pub track_utilization :
    (ℕ → Conn)
    → ℕ
    → List Instance
    → List UtilizationRecord
    → Result StoreError (Unit {0}) × List UtilizationRecord
unfolding record_counts
track_utilization net now instances rows =
    record_all (λ n. net (n + 1)) now rows (count_grouped_instances (net 0) in_use instances)

unfoldable pub clean_history :
    Conn → ℕ → ℕ → List UtilizationRecord → Result StoreError (List UtilizationRecord)
clean_history c now retention rows = delete_records_older_than c (now - retention) rows
