-- ===== src/Jobs/Scaler/Whole.antt =====
-- Scaler.ScalePool: what holds after the passes over a whole pool.
use drone_runner_aws.Base.{
  ℕ, suc, String, List, [], ◌∷◌, Bool, true, false, Option, none, some, str_eq, mem_text, first,
  ◌≡◌, refl, subst, arith, if◌then◌else◌,
}
use drone_runner_aws.Base.Result.{Result, ok, err}
use drone_runner_aws.Types.{SetupInstanceParams, default_variant_id}
use drone_runner_aws.Store.Instances.{StoreError, Conn}
use drone_runner_aws.Store.Outbox.{Outbox}
use drone_runner_aws.Jobs.Trigger.{ScalablePool, ScalableTenant, ScalableVariant}
use drone_runner_aws.Jobs.Scaler.{
  Services, ScalerConfig, InstanceKey, Tables, free_instance_counts, count_of,
}
use drone_runner_aws.Jobs.Scaler.Pass.{apply_delta, scale_variant, target_count}
use drone_runner_aws.Jobs.Scaler.Pools.{
  or_same, scale_images, scale_active_images, scale_variants, scale_tenants, scale_found,
  scale_pool, tenants_of,
}

-- A statement about the tables that every pass keeps is kept by the whole.
module _ (s : Services) (c : ScalerConfig) (Q : Tables → Type 0)
    (kept : (net : ℕ → Conn) (pool : String) (k : InstanceKey) (params : Option SetupInstanceParams)
        (free target : ℕ) (recent : Bool) (t : Tables)
      → Q t
      → Q (apply_delta s net c pool k params free target recent t)) where
  pass-kept :
      (net : ℕ → Conn) (pool : String) (k : InstanceKey) (min_size : ℕ)
      (params : Option SetupInstanceParams) (start end : ℕ) (counts : List (InstanceKey × ℕ))
      (t : Tables)
      → Q t
      → Q (or_same (scale_variant s net c pool k min_size params start end counts t) t)
  unfolding scale_variant
  pass-kept net pool k min_size params start end counts t q = go (s.predict pool k start end)
    where
      result : Option ℕ → Option Tables
      result none = none
      result (some predicted) =
          let (target, recent) = target_count c predicted min_size (s.recent_usage pool k) in
          some (apply_delta s net c pool k params (count_of k counts) target recent t)

      go : (p : Option ℕ) → Q (or_same (result p) t)
      go none = q
      go (some n) = kept net pool k params (count_of k counts) _ _ t q

  images-kept :
      (net : ℕ → ℕ → Conn) (pool tenant variant : String) (min_size : ℕ)
      (params : Option SetupInstanceParams) (start end : ℕ) (counts : List (InstanceKey × ℕ))
      (images : List String) (t : Tables)
      → Q t
      → Q (scale_images s net c pool tenant variant min_size params start end counts images t)
  unfolding scale_images
  images-kept net pool tenant variant min_size params start end counts [] t q = q
  images-kept net pool tenant variant min_size params start end counts (image ∷ images) t q =
      images-kept (λ n. net (suc n)) pool tenant variant min_size params start end counts images _
        (go (str_eq image ""))
    where
      key : InstanceKey
      key = record { tenant_id = tenant; variant_id = variant; image_name = image }

      go :
          (b : Bool)
          → Q (
              if b
              then t
              else or_same
                  (scale_variant s (net 0) c pool key min_size params start end counts t)
                  t)
      go true = q
      go false = pass-kept (net 0) pool key min_size params start end counts t q

  active-kept :
      (net : ℕ → ℕ → Conn) (pool tenant variant : String) (min_size : ℕ)
      (params : Option SetupInstanceParams) (start end : ℕ) (counts : List (InstanceKey × ℕ))
      (t : Tables)
      → Q t
      → Q (scale_active_images s net c pool tenant variant min_size params start end counts t)
  unfolding scale_active_images
  active-kept net pool tenant variant min_size params start end counts t q =
      go (s.active_images pool tenant variant)
    where
      go :
          (o : Option (List String))
          → Q (elim o [
            | none ↦ t
            | some images ↦
                scale_images s net c pool tenant variant min_size params start end counts images t
          ])
      go none = q
      go (some images) =
          images-kept net pool tenant variant min_size params start end counts images t q

  variants-kept :
      (net : ℕ → ℕ → ℕ → Conn) (pool tenant : String) (start end : ℕ)
      (counts : List (InstanceKey × ℕ)) (variants : List ScalableVariant) (t : Tables)
      → Q t
      → Q (scale_variants s net c pool tenant start end counts variants t)
  unfolding scale_variants
  variants-kept net pool tenant start end counts [] t q = q
  variants-kept net pool tenant start end counts (v ∷ variants) t q =
      variants-kept (λ n. net (suc n)) pool tenant start end counts variants _
        (active-kept (net 0) pool tenant v.params.variant_id v.min_size (some v.params) start end
          counts t q)

  tenants-kept :
      (net : ℕ → ℕ → ℕ → ℕ → Conn) (pool : String) (start end : ℕ) (counts : List (InstanceKey × ℕ))
      (tenants : List ScalableTenant) (t : Tables)
      → Q t
      → Q (scale_tenants s net c pool start end counts tenants t)
  unfolding scale_tenants
  tenants-kept net pool start end counts [] t q = q
  tenants-kept net pool start end counts (x ∷ tenants) t q =
      tenants-kept (λ n. net (suc n)) pool start end counts tenants _
        (variants-kept (λ n. net 0 (suc n)) pool x.id start end counts x.variants _
          (active-kept (net 0 0) pool x.id default_variant_id x.min_size none start end counts t q))

  found-kept :
      (listing : Conn) (net : ℕ → ℕ → ℕ → ℕ → Conn) (p : Option ScalablePool) (start end : ℕ)
      (t t' : Tables)
      → scale_found s listing net c p start end t ≡ ok t'
      → Q t
      → Q t'
  found-kept listing net none start end t t' e q = subst Q (ground (arith, e)) q
  found-kept listing net (some p) start end t t' e q =
      go (free_instance_counts listing p.name t.instances) e
    where
      go :
          (r : Result StoreError (List (InstanceKey × ℕ)))
          → elim r [
            | err x ↦ err x
            | ok counts ↦ ok (scale_tenants s net c p.name start end counts (tenants_of p) t)
          ]
            ≡ ok t'
          → Q t'
      go (err x) f = cc
      go (ok counts) f =
          subst Q (ground (arith, f)) (tenants-kept net p.name start end counts (tenants_of p) t q)

  pub scale_pool-kept :
      (listing : Conn) (net : ℕ → ℕ → ℕ → ℕ → Conn) (pools : List ScalablePool) (pool : String)
      (start end : ℕ) (t t' : Tables)
      → scale_pool s listing net c pools pool start end t ≡ ok t'
      → Q t
      → Q t'
  unfolding scale_pool
  scale_pool-kept listing net pools pool start end t t' e q = go (mem_text pool c.disabled_pools) e
    where
      go :
          (b : Bool)
          → (if b
              then ok t
              else scale_found s listing net c (first (λ p. str_eq p.name pool) pools) start end t)
            ≡ ok t'
          → Q t'
      go true f = subst Q (ground (arith, f)) q
      go false f = found-kept listing net (first (λ p. str_eq p.name pool) pools) start end t t' f q

module _ (s : Services) (c : ScalerConfig) (listing : Conn) (net : ℕ → ℕ → ℕ → ℕ → Conn)
    (pools : List ScalablePool) (pool : String) (start end : ℕ) (t t' : Tables) where
  -- A dry run leaves both tables as they were, for every pool.
  pub scale_pool-dry :
      c.dry_run ≡ true → scale_pool s listing net c pools pool start end t ≡ ok t' → t' ≡ t
  scale_pool-dry d e =
      scale_pool-kept s c (λ u. u ≡ t)
        (λ net pool k params free target recent u q. unfold apply_delta in rw d q) listing net pools
        pool start end t t' e refl
