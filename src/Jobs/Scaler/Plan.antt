-- ===== src/Jobs/Scaler/Plan.antt =====
-- Scaler.scaleVariant: how many instances it asks for, and what it does about it.
use drone_runner_aws.Base.{
  ℕ, ◌+◌, ◌-◌, ◌*◌, ◌≤◌, ◌<◌, String, List, ◌++◌, Bool, true, false, Option, none, some, ◌≡◌, refl,
  ap, subst, ◌∙◌, ◌⊎◌, inl, inr, Bool-cases, arith, length, ltb, max, All,
}
use drone_runner_aws.Types.{OutboxJob, SetupInstanceParams}
use drone_runner_aws.Store.Instances.{Conn}
use drone_runner_aws.Jobs.Scaler.{
  Services, ScalerConfig, InstanceKey, Tables, scale_up, up_params, count_of,
}
use drone_runner_aws.Jobs.Scaler.Pass.{target_count, buffer_delta, apply_delta, scale_variant}
use drone_runner_aws.Jobs.Scaler.Up.{SetsUp, succeeded, scale_up-Adds}
use drone_runner_aws.Jobs.Scaler.Down.{Destroys, scale_down-Destroys}

-- The target is at least the prediction and the minimal size; it is more than both only for a
-- prediction of 0 with recent usage, and is then the configured floor.
pub target_count-bounds :
    (c : ScalerConfig) (predicted min_size : ℕ) (recent : Option Bool)
    → let (target, extra) = target_count c predicted min_size recent in
      (max predicted min_size ≤ target)
      × (((extra ≡ false) × (target ≡ max predicted min_size))
          ⊎ ((extra ≡ true)
              × (predicted ≡ 0)
              × (recent ≡ some true)
              × (target ≡ c.recent_usage_min_instances)
              × (min_size < target)))
unfolding target_count
target_count-bounds c predicted min_size none = (ground arith, ground arith)
target_count-bounds c predicted min_size (some false) = (ground arith, ground arith)
target_count-bounds c predicted min_size (some true) = (ground arith, ground arith)

no_excess : (percent delta : ℕ) → percent ≤ 100 → delta * (percent - 100) ≡ 0
no_excess percent delta h = let e : percent - 100 ≡ 0 = omega arith in rw e (omega arith)

-- Above 100 percent the buffer is the smallest number of instances that makes up the excess
-- percentage of the delta; otherwise there is none.
pub buffer_delta-ceiling :
    (percent delta : ℕ)
    → (delta * (percent - 100) ≤ 100 * buffer_delta percent delta)
      × (100 * buffer_delta percent delta ≤ delta * (percent - 100) + 99)
unfolding buffer_delta
buffer_delta-ceiling percent delta =
    (grind (arith, no_excess percent delta), grind (arith, no_excess percent delta))

module _ (s : Services) (net : ℕ → Conn) (c : ScalerConfig) (pool : String) (k : InstanceKey)
    (params : Option SetupInstanceParams) (free target : ℕ) (recent : Bool) (t : Tables) where
  -- What is left of a pass over one key: the jobs that are missing, and the buffer of hibernated
  -- ones, as far as the calls go through; or at most as many destructions as there are instances too many.
  abbrev pub Scaled : Tables → Type 0
  Scaled t' =
      ((c.dry_run ≡ true) × (t' ≡ t))
      ⊎ ((c.dry_run ≡ false)
          × (free < target)
          × (t'.instances ≡ t.instances)
          × ((live extra : List OutboxJob) × (t'.outbox.jobs ≡ (t.outbox.jobs ++ live) ++ extra)
              × All (SetsUp pool (up_params k params recent)) live
              × All (SetsUp pool (up_params k params true)) extra
              × (length live ≡ succeeded net (target - free))
              × (length extra
                  ≡ succeeded (λ n. net (target - free + n))
                      (buffer_delta c.scale_percent (target - free)))))
      ⊎ ((c.dry_run ≡ false)
          × (target ≤ free)
          × (t'.outbox ≡ t.outbox)
          × Destroys s pool k (free - target) t.instances t'.instances)

  -- The two rounds of scaleUp.
  abbrev Raised : Tables → Type 0
  Raised t' =
      (live extra : List OutboxJob) × (t'.outbox.jobs ≡ (t.outbox.jobs ++ live) ++ extra)
      × All (SetsUp pool (up_params k params recent)) live
      × All (SetsUp pool (up_params k params true)) extra
      × (length live ≡ succeeded net (target - free))
      × (length extra
          ≡ succeeded (λ n. net (target - free + n)) (buffer_delta c.scale_percent (target - free)))

  abbrev raised : Tables
  raised = record t {
    outbox =
        scale_up (λ n. net (target - free + n)) pool k params
          (buffer_delta c.scale_percent (target - free)) true
          (scale_up net pool k params (target - free) recent t.outbox);
  }

  raised-Raised : Raised raised
  raised-Raised =
      let delta = target - free in
      let middle = scale_up net pool k params delta recent t.outbox in
      let (x, (e, h), m) = scale_up-Adds net pool k params delta recent t.outbox in
      let (y, (f, g), n) =
        scale_up-Adds (λ n. net (delta + n)) pool k params (buffer_delta c.scale_percent delta) true
          middle in
      (x, y, f ∙ ap (λ (js : List OutboxJob). js ++ y) e, h, g, m, n)

  apply_delta-Scaled : Scaled (apply_delta s net c pool k params free target recent t)
  unfolding apply_delta
  apply_delta-Scaled = elim (Bool-cases c.dry_run) [
    | inl d ↦ inl (d, rw d refl)
    | inr d ↦ elim (Bool-cases (ltb free target)) [
      | inl l ↦ inr (inl (d, ground arith, rw (d, l) refl, subst Raised (went d l) raised-Raised))
      | inr l ↦ inr (
          inr (
            d,
            ground arith,
            rw (d, l) refl,
            rw (d, l) (scale_down-Destroys s net pool k (free - target) t.instances),
          ))
    ]
  ]
    where
      went :
          c.dry_run ≡ false
          → ltb free target ≡ true
          → raised ≡ apply_delta s net c pool k params free target recent t
      went d l = rw (d, l) refl

module _ (s : Services) (net : ℕ → Conn) (c : ScalerConfig) (pool : String) (k : InstanceKey)
    (params : Option SetupInstanceParams) where
  -- A pass over one key that succeeds had a prediction, and works from the number of free instances
  -- that was counted towards the target count. A dry run changes nothing. Below the target, it adds
  -- a job for each missing instance and for the buffer, as far as the calls go through, and touches no
  -- instance. From the target on it adds no job and destroys at most what is above the target.
  pub scale_variant-Scaled :
      (min_size start end : ℕ) (counts : List (InstanceKey × ℕ)) (t t' : Tables)
      → scale_variant s net c pool k min_size params start end counts t ≡ some t'
      → (predicted : ℕ) × (s.predict pool k start end ≡ some predicted)
        × (let (target, recent) = target_count c predicted min_size (s.recent_usage pool k) in
            Scaled s net c pool k params (count_of k counts) target recent t t')
  unfolding scale_variant
  scale_variant-Scaled min_size start end counts t t' e = go (s.predict pool k start end) refl e
    where
      plan : ℕ → ℕ × Bool
      plan predicted = target_count c predicted min_size (s.recent_usage pool k)

      result : ℕ → Tables
      result predicted =
          apply_delta s net c pool k params (count_of k counts) (plan predicted).0
            (plan predicted).1 t

      go :
          (p : Option ℕ)
          → s.predict pool k start end ≡ p
          → elim p [ none ↦ none | some predicted ↦ some (result predicted) ] ≡ some t'
          → (predicted : ℕ) × (s.predict pool k start end ≡ some predicted)
            × Scaled s net c pool k params
                (count_of k counts)
                (plan predicted).0
                (plan predicted).1
                t
                t'
      go none h f = cc
      go (some predicted) h f = (
        predicted,
        h,
        subst
            (Scaled s net c pool k params (count_of k counts) (plan predicted).0 (plan predicted).1
              t)
            (ground (arith, f))
            (apply_delta-Scaled s net c pool k params (count_of k counts) (plan predicted).0
              (plan predicted).1 t),
      )
