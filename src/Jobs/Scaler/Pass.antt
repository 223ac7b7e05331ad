-- ===== src/Jobs/Scaler/Pass.antt =====
-- Scaler.scaleVariant: the pass over one tenant, variant and image.
use drone_runner_aws.Base.{
  ℕ, ◌+◌, ◌-◌, ◌*◌, ◌/◌, String, List, Bool, true, false, ◌&&◌, Option, none, some, ltb, ◌==◌,
  if◌then◌else◌,
}
use drone_runner_aws.Types.{SetupInstanceParams}
use drone_runner_aws.Store.Instances.{Conn}
use drone_runner_aws.Jobs.Scaler.{
  ScalerConfig, InstanceKey, Tables, Services, count_of, scale_up, scale_down,
}

-- The target, and whether it is there for recent usage only.
abbrev pub floored : ScalerConfig → ℕ → Option Bool → ℕ × Bool
floored c target (some true) =
    if ltb target c.recent_usage_min_instances
    then (c.recent_usage_min_instances, true)
    else (target, false)
floored c target _ = (target, false)

unfoldable pub target_count : ScalerConfig → ℕ → ℕ → Option Bool → ℕ × Bool
target_count c predicted min_size recent =
    let target = if ltb predicted min_size then min_size else predicted in
    if predicted == 0 && ltb 0 c.recent_usage_min_instances
    then floored c target recent
    else (target, false)

-- ceil(delta * (percent - 100) / 100), for a positive delta and a percentage above 100.
unfoldable pub buffer_delta : ℕ → ℕ → ℕ
buffer_delta percent delta =
    if ltb 0 delta && ltb 100 percent then (delta * (percent - 100) + 99) / 100 else 0

-- The last part of scaleVariant, from the deltas on.
unfoldable pub apply_delta :
    Services
    → (ℕ → Conn)
    → ScalerConfig
    → String
    → InstanceKey
    → Option SetupInstanceParams
    → ℕ
    → ℕ
    → Bool
    → Tables
    → Tables
unfolding buffer_delta scale_up scale_down
apply_delta s net c pool k params free target recent t =
    let delta = target - free in
    let buffer = buffer_delta c.scale_percent delta in
    let scaled = scale_up net pool k params delta recent t.outbox in
    if c.dry_run
    then t
    else if ltb free target
    then record t { outbox = scale_up (λ n. net (delta + n)) pool k params buffer true scaled }
    else record t { instances = scale_down s net pool k (free - target) t.instances }

-- `none` is the error of a prediction that fails.
unfoldable pub scale_variant :
    Services
    → (ℕ → Conn)
    → ScalerConfig
    → String
    → InstanceKey
    → ℕ
    → Option SetupInstanceParams
    → ℕ
    → ℕ
    → List (InstanceKey × ℕ)
    → Tables
    → Option Tables
unfolding target_count
scale_variant s net c pool k min_size params start end counts t =
    elim (s.predict pool k start end) [
      | none ↦ none
      | some predicted ↦
          let (target, recent) = target_count c predicted min_size (s.recent_usage pool k) in
          some (apply_delta s net c pool k params (count_of k counts) target recent t)
    ]
