-- ===== src/Predictor/Between.antt =====
-- A prediction lies between the least and the greatest usage that has been recorded.
use drone_runner_aws.Base.{ℕ, ◌-◌, ◌≤◌, ◌<◌, List, Bool, true, false, ◌&&◌, ◌≡◌, In, keep}
use drone_runner_aws.Base.Result.{Result}
use drone_runner_aws.Types.{UtilizationRecord, TimeRange}
use drone_runner_aws.Store.History.{sort_by_time, is_of, is_within, tenant_key}
use drone_runner_aws.Predictor.{
  PredictorConfig, PredictionInput, is_weekend, weekday_ranges, weeks_ago,
}

module _ (input : PredictionInput) (rows : List UtilizationRecord) where
  -- The records that a prediction is about.
  abbrev pub of_kind : UtilizationRecord → Bool
  of_kind r = is_of input.pool_name (tenant_key input.tenant_id) input.variant_id input.image_name r

  -- A record of the kind in the time range.
  abbrev pub Seen : TimeRange → Type 0
  Seen t = (r : UtilizationRecord) × In r rows × (of_kind r ≡ true) × (is_within t r ≡ true)

  abbrev in_range : TimeRange → List UtilizationRecord
  in_range t = sort_by_time (keep (λ r. of_kind r && is_within t r) rows)

  module _ (lo hi : ℕ)
      (usual : (r : UtilizationRecord)
        → In r rows
        → of_kind r ≡ true
        → (lo ≤ r.in_use_instances) × (r.in_use_instances ≤ hi)) where
    -- Something has been recorded a week ago, when the first week counts, and before a weekday on
    -- one of the weekdays that are asked for.
    abbrev pub Known : PredictorConfig → Type 0
    Known config =
        (0 < config.week_decay_factors.0)
        × Seen (weeks_ago input 1)
        × (is_weekend input.start_timestamp ≡ false
            → (t : TimeRange) × In t (
                weekday_ranges config.max_lookback_days 1 0 config.target_weekdays
                  input.start_timestamp (input.end_timestamp - input.start_timestamp))
              × Seen t)
