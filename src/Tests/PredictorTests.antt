-- ===== src/Tests/PredictorTests.antt =====
-- Runs of the predictor and of the tracker that records its data.
use drone_runner_aws.Base.{ℕ, ◌+◌, List, [], ◌∷◌, ◌≡◌, refl, keep, length}
use drone_runner_aws.Base.Result.{ok}
use drone_runner_aws.Types.{Instance, created, in_use, same_state, UtilizationRecord, TimeRange}
use drone_runner_aws.Store.History.{
  utilization_history_batch, sort_by_time, insert_by_time, create_record, count_in, count_groups,
  count_grouped_instances,
}
use drone_runner_aws.Predictor.{
  default_predictor_config, PredictionInput, weekday_ranges, ema_from, calculate_ema, peak,
  calculate_historical_with_decay, predict,
}
use drone_runner_aws.Predictor.Fractions.{ceiling}
use drone_runner_aws.Jobs.Tracker.{record_counts, track_utilization}
use drone_runner_aws.Jobs.Tracker.Recorded.{recorded, is_kind, track_utilization-recorded}
use drone_runner_aws.Tests.{conn_at, row}

abbrev usage : ℕ → ℕ → UtilizationRecord
usage value time = record {
  pool = "linux";
  tenant_id = "default";
  variant_id = "default";
  image_name = "ubuntu";
  in_use_instances = value;
  recorded_at = time;
}

-- The first hour of a Monday, which is the day with number 32.
abbrev monday : PredictionInput
monday = record {
  pool_name = "linux";
  tenant_id = "";
  start_timestamp = 2764800;
  end_timestamp = 2768400;
  variant_id = "default";
  image_name = "ubuntu";
}

-- On the Monday before, and on the Friday before.
abbrev usages : List UtilizationRecord
usages = usage 4 2160100 ∷ usage 6 2505700 ∷ []

predicts_six : predict (λ n. conn_at 2764000) default_predictor_config monday usages ≡ ok 6
unfolding predict calculate_ema calculate_historical_with_decay weekday_ranges ema_from peak
    utilization_history_batch sort_by_time insert_by_time ceiling
predicts_six = refl

friday : TimeRange
friday = record { start_time = 2505600; end_time = 2509200 }

abbrev fleet : List Instance
fleet = row "vm-1" in_use 10 ∷ row "vm-2" created 20 ∷ row "vm-3" in_use 30 ∷ []

counts_two : (track_utilization (λ n. conn_at 50) 50 fleet []).1 ≡ usage 2 50 ∷ []
unfolding track_utilization record_counts create_record count_grouped_instances count_groups
    count_in
counts_two = refl

track_utilization-recorded_example :
    recorded "linux" "default" "default" "ubuntu"
      (track_utilization (λ n. conn_at 50) 50 fleet usages).1
    ≡ recorded "linux" "default" "default" "ubuntu" usages
      + length (
          keep
            (is_kind "linux" "default" "default" "ubuntu")
            (keep (λ i. same_state i.state in_use) fleet))
track_utilization-recorded_example =
    track_utilization-recorded "linux" "default" "default" "ubuntu" (λ n. conn_at 50) 50 fleet
      usages (λ n. refl)
