-- ===== src/Jobs/Scaler/Pools.antt =====
-- Scaler.ScalePool, scalePoolInternal and scaleVariantForActiveImages: the passes over a whole pool.
use drone_runner_aws.Base.{
  ℕ, suc, String, List, [], ◌∷◌, Option, none, some, str_eq, if◌then◌else◌, first, mem_text,
  is_empty,
}
use drone_runner_aws.Base.Result.{Result, ok, err}
use drone_runner_aws.Types.{SetupInstanceParams, default_tenant_id, default_variant_id}
use drone_runner_aws.Store.Instances.{StoreError, Conn}
use drone_runner_aws.Jobs.Trigger.{ScalablePool, ScalableTenant, ScalableVariant}
use drone_runner_aws.Jobs.Scaler.{ScalerConfig, InstanceKey, Tables, Services, free_instance_counts}
use drone_runner_aws.Jobs.Scaler.Pass.{scale_variant}

-- The tables after a pass, which are the old ones if it fails.
abbrev pub or_same : Option Tables → Tables → Tables
or_same none t = t
or_same (some t') t = t'

-- An image without a name is skipped, and one that fails is logged. The n-th image makes its calls
-- through `net n`.
unfoldable pub scale_images :
    Services
    → (ℕ → ℕ → Conn)
    → ScalerConfig
    → String
    → String
    → String
    → ℕ
    → Option SetupInstanceParams
    → ℕ
    → ℕ
    → List (InstanceKey × ℕ)
    → List String
    → Tables
    → Tables
scale_images s net c pool tenant variant min_size params start end counts [] t = t
scale_images s net c pool tenant variant min_size params start end counts (image ∷ images) t =
    let k : InstanceKey = record { tenant_id = tenant; variant_id = variant; image_name = image } in
    let scaled =
      if str_eq image ""
      then t
      else or_same (scale_variant s (net 0) c pool k min_size params start end counts t) t in
    scale_images s (λ n. net (suc n)) c pool tenant variant min_size params start end counts images
      scaled

unfoldable pub scale_active_images :
    Services
    → (ℕ → ℕ → Conn)
    → ScalerConfig
    → String
    → String
    → String
    → ℕ
    → Option SetupInstanceParams
    → ℕ
    → ℕ
    → List (InstanceKey × ℕ)
    → Tables
    → Tables
scale_active_images s net c pool tenant variant min_size params start end counts t =
    elim (s.active_images pool tenant variant) [
      | none ↦ t
      | some images ↦
          scale_images s net c pool tenant variant min_size params start end counts images t
    ]

-- The i-th variant of a tenant makes its calls through `net i`; the pool itself is number 0.
unfoldable pub scale_variants :
    Services
    → (ℕ → ℕ → ℕ → Conn)
    → ScalerConfig
    → String
    → String
    → ℕ
    → ℕ
    → List (InstanceKey × ℕ)
    → List ScalableVariant
    → Tables
    → Tables
unfolding scale_active_images
scale_variants s net c pool tenant start end counts [] t = t
scale_variants s net c pool tenant start end counts (v ∷ variants) t =
    scale_variants s (λ n. net (suc n)) c pool tenant start end counts variants
      (scale_active_images s (net 0) c pool tenant v.params.variant_id v.min_size (some v.params)
        start end counts t)

unfoldable pub scale_tenants :
    Services
    → (ℕ → ℕ → ℕ → ℕ → Conn)
    → ScalerConfig
    → String
    → ℕ
    → ℕ
    → List (InstanceKey × ℕ)
    → List ScalableTenant
    → Tables
    → Tables
unfolding scale_active_images scale_variants
scale_tenants s net c pool start end counts [] t = t
scale_tenants s net c pool start end counts (x ∷ tenants) t =
    let own =
      scale_active_images s (net 0 0) c pool x.id default_variant_id x.min_size none start end
        counts t in
    scale_tenants s (λ n. net (suc n)) c pool start end counts tenants
      (scale_variants s (λ n. net 0 (suc n)) c pool x.id start end counts x.variants own)

abbrev pub tenants_of : ScalablePool → List ScalableTenant
tenants_of p =
    if is_empty p.tenants
    then record { id = default_tenant_id; min_size = p.min_size; variants = p.variants } ∷ []
    else p.tenants

abbrev pub scale_found :
    Services
    → Conn
    → (ℕ → ℕ → ℕ → ℕ → Conn)
    → ScalerConfig
    → Option ScalablePool
    → ℕ
    → ℕ
    → Tables
    → Result StoreError Tables
scale_found s listing net c none start end t = ok t
scale_found s listing net c (some p) start end t =
    elim (free_instance_counts listing p.name t.instances) [
      | err e ↦ err e
      | ok counts ↦ ok (scale_tenants s net c p.name start end counts (tenants_of p) t)
    ]

unfoldable pub scale_pool :
    Services
    → Conn
    → (ℕ → ℕ → ℕ → ℕ → Conn)
    → ScalerConfig
    → List ScalablePool
    → String
    → ℕ
    → ℕ
    → Tables
    → Result StoreError Tables
unfolding scale_tenants
scale_pool s listing net c pools pool start end t =
    if mem_text pool c.disabled_pools
    then ok t
    else scale_found s listing net c (first (λ p. str_eq p.name pool) pools) start end t
