-- ===== src/Predictor.antt =====
-- app/predictor/ema_weekend_decay_predictor.go: how many instances a window will need, from the recorded
-- usage. Go computes with float64; here a value is an exact fraction of two numbers, the weights are
-- whole hundredths, and the smoothing period is at least 1. Times are Unix times of at least three weeks.
pub mod Fractions
pub mod Means
pub mod Between
use drone_runner_aws.Base.{
  ℕ, zero, suc, ◌+◌, ◌-◌, ◌*◌, ◌/◌, ◌%◌, String, List, [], ◌∷◌, ◌++◌, Bool, true, false, ◌||◌, ◌==◌,
  ltb, is_empty, max, if◌then◌else◌,
}
use drone_runner_aws.Base.Result.{Result, ok, err, ◌>>=◌}
use drone_runner_aws.Types.{UtilizationRecord, TimeRange}
use drone_runner_aws.Store.Instances.{StoreError, Conn}
use drone_runner_aws.Store.History.{utilization_history_batch, sort_by_time}
use drone_runner_aws.Predictor.Fractions.{Fraction, whole, ceiling}

pub record PredictorConfig : Type 0 where
  pub ema_period : ℕ
  -- In hundredths, like the decay factors of the three weeks.
  pub ema_weight : ℕ
  pub week_decay_factors : ℕ × ℕ × ℕ
  pub min_instances : ℕ
  pub max_lookback_days : ℕ
  pub target_weekdays : ℕ

abbrev pub default_predictor_config : PredictorConfig
default_predictor_config = record {
  ema_period = 3;
  ema_weight = 85;
  week_decay_factors = (85, 10, 5);
  min_instances = 0;
  max_lookback_days = 4;
  target_weekdays = 2;
}

pub record PredictionInput : Type 0 where
  pub pool_name : String
  pub tenant_id : String
  pub start_timestamp : ℕ
  pub end_timestamp : ℕ
  pub variant_id : String
  pub image_name : String

abbrev pub seconds_per_day : ℕ
seconds_per_day = 24 * 3600

-- Sunday is 0; 1 January 1970 was a Thursday.
abbrev pub weekday : ℕ → ℕ
weekday time = (time / seconds_per_day + 4) % 7

abbrev pub is_weekend : ℕ → Bool
is_weekend time = (weekday time == 6) || (weekday time == 0)

-- The loop over the days back: `days` are left to look at, `found` of the wanted ones have been found.
unfoldable pub weekday_ranges : ℕ → ℕ → ℕ → ℕ → ℕ → ℕ → List TimeRange
weekday_ranges zero back found wanted start duration = []
weekday_ranges (suc days) back found wanted start duration =
    let past = start - back * seconds_per_day in
    let skip = weekday_ranges days (back + 1) found wanted start duration in
    let more = weekday_ranges days (back + 1) (found + 1) wanted start duration in
    if ltb found wanted
    then (if is_weekend past
        then skip
        else record { start_time = past; end_time = past + duration } ∷ more)
    else []

abbrev pub flatten : List (List UtilizationRecord) → List UtilizationRecord
flatten [] = []
flatten (rows ∷ batch) = rows ++ flatten batch

-- With alpha = 2 / (period + 1): alpha * value + (1 - alpha) * ema.
abbrev pub smooth : ℕ → Fraction → ℕ → Fraction
smooth period ema value = record {
  num = 2 * value * ema.den + (period - 1) * ema.num;
  den = (period + 1) * ema.den;
}

unfoldable pub ema_from : ℕ → Fraction → List UtilizationRecord → Fraction
ema_from period ema [] = ema
ema_from period ema (r ∷ rows) = ema_from period (smooth period ema r.in_use_instances) rows

abbrev pub ema_of : ℕ → List UtilizationRecord → Fraction
ema_of period [] = whole 0
ema_of period (r ∷ rows) = ema_from period (whole r.in_use_instances) rows

unfoldable pub calculate_ema :
    Conn → PredictorConfig → PredictionInput → List UtilizationRecord → Result StoreError Fraction
unfolding weekday_ranges ema_from
calculate_ema c config input rows =
    let ranges =
      weekday_ranges config.max_lookback_days 1 0 config.target_weekdays input.start_timestamp
        (input.end_timestamp - input.start_timestamp) in
    if is_empty ranges then ok (whole 0) else do
      batch ←
          utilization_history_batch c input.pool_name input.tenant_id input.variant_id
            input.image_name ranges rows
      ok (ema_of config.ema_period (sort_by_time (flatten batch)))

unfoldable pub peak : List UtilizationRecord → ℕ
peak [] = 0
peak (r ∷ rows) =
    let rest = peak rows in if ltb rest r.in_use_instances then r.in_use_instances else rest

abbrev pub weighted : ℕ → List UtilizationRecord → Fraction → Fraction
weighted weight [] total = total
weighted weight (r ∷ rows) total = record {
  num = total.num + peak (r ∷ rows) * weight;
  den = total.den + weight;
}

-- The weighted sum over the total weight.
abbrev pub week_sum : ℕ × ℕ × ℕ → List (List UtilizationRecord) → Fraction
week_sum (a, b, c) (one ∷ two ∷ three ∷ []) =
    weighted c three (weighted b two (weighted a one (record { num = 0; den = 0 })))
week_sum weights _ = record { num = 0; den = 0 }

abbrev pub or_nothing : Fraction → Fraction
or_nothing f = if f.den == 0 then whole 0 else f

abbrev pub seconds_per_week : ℕ
seconds_per_week = 7 * (24 * 3600)

abbrev pub weeks_ago : PredictionInput → ℕ → TimeRange
weeks_ago input week = record {
  start_time = input.start_timestamp - week * seconds_per_week;
  end_time = input.end_timestamp - week * seconds_per_week;
}

unfoldable pub calculate_historical_with_decay :
    Conn → PredictorConfig → PredictionInput → List UtilizationRecord → Result StoreError Fraction
unfolding peak
calculate_historical_with_decay c config input rows = do
  batch ←
      utilization_history_batch c input.pool_name input.tenant_id input.variant_id input.image_name
        (weeks_ago input 1 ∷ weeks_ago input 2 ∷ weeks_ago input 3 ∷ []) rows
  ok (or_nothing (week_sum config.week_decay_factors batch))

-- weight * ema + (1 - weight) * historical
abbrev pub combine_values : ℕ → Fraction → Fraction → Fraction
combine_values weight ema historical = record {
  num = weight * ema.num * historical.den + (100 - weight) * historical.num * ema.den;
  den = 100 * (ema.den * historical.den);
}

-- `net 0` asks for the weeks, `net 1` for the weekdays.
unfoldable pub predict :
    (ℕ → Conn) → PredictorConfig → PredictionInput → List UtilizationRecord → Result StoreError ℕ
unfolding calculate_ema calculate_historical_with_decay
predict net config input rows = do
  historical ← calculate_historical_with_decay (net 0) config input rows
  base ←
      if is_weekend input.start_timestamp
      then ok historical
      else (calculate_ema (net 1) config input rows >>= λ ema.
          ok (combine_values config.ema_weight ema historical))
  ok (
      let predicted = ceiling base in
      if ltb predicted config.min_instances then config.min_instances else predicted)
