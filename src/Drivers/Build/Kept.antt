-- ===== src/Drivers/Build/Kept.antt =====
-- What each set-up keeps, the building of a pool keeps.
use drone_runner_aws.Base.{
  ℕ, zero, suc, String, List, [], ◌∷◌, Bool, Option, some, none, length, Bool-cases, inl, inr,
}
use drone_runner_aws.Base.Int.{pos, pos_part, ltb_ℤ}
use drone_runner_aws.Base.Result.{Result, ok, err}
use drone_runner_aws.Types.{Instance, QueryParams, SetupInstanceParams, empty_params, PoolVariant}
use drone_runner_aws.Store.Instances.{StoreError, Conn}
use drone_runner_aws.Drivers.Strategy.{Strategy, count_create_remove}
use drone_runner_aws.Drivers.Tenants.{Pool, TenantPool, is_multi_tenant}
use drone_runner_aws.Drivers.Driver.{Driver}
use drone_runner_aws.Drivers.Manager.{Buckets, list_pool}
use drone_runner_aws.Drivers.Build.{
  idle, base_of, of_tenant, build_one, create_instances, build_variants, build_single, build_tenant,
  build_tenants, build_listed, build_pool,
}

module _ {S : Type 0} (setup : Option SetupInstanceParams → S → Bool × S)
    (async : Option SetupInstanceParams → S → S) (P : S → Type 0)
    (keeps : (params : Option SetupInstanceParams) (s : S)
      → P s
      → P (build_one setup async params s)) where
  create_instances-keeps :
      (n : ℕ) (params : Option SetupInstanceParams) (s : S)
      → P s
      → P (create_instances setup async n params s)
  unfolding create_instances
  create_instances-keeps zero params s h = h
  create_instances-keeps (suc n) params s h =
      create_instances-keeps n params (build_one setup async params s) (keeps params s h)

  build_variants-keeps :
      (own : SetupInstanceParams → SetupInstanceParams) (vs : List PoolVariant) (s : S)
      → P s
      → P (build_variants setup async own vs s)
  unfolding build_variants
  build_variants-keeps own [] s h = h
  build_variants-keeps own (v ∷ vs) s h =
      build_variants-keeps own vs (create_instances setup async v.pool (some (own v.params)) s)
        (create_instances-keeps v.pool (some (own v.params)) s h)

  build_single-keeps :
      (strategy : Strategy) (p : Pool Driver) (b : Buckets) (s : S)
      → P s
      → P (build_single setup async strategy p b s).1
  unfolding build_single
  build_single-keeps strategy p b s h =
      let create =
        (count_create_remove strategy p.min_size p.max_size (pos (length b.busy))
          (pos (length (idle b)))).0 in
      elim (Bool-cases (ltb_ℤ create (pos 0))) [
        | inl t ↦ rw t h
        | inr f ↦ rw f (
            build_variants-keeps (λ params. params) p.variants
              (create_instances setup async (pos_part create) none s)
              (create_instances-keeps (pos_part create) none s h))
      ]

  build_tenants-keeps :
      (strategy : Strategy) (b : Buckets) (ts : List TenantPool) (s : S)
      → P s
      → P (build_tenants setup async strategy b ts s).1
  unfolding build_tenants build_tenant
  build_tenants-keeps strategy b [] s h = h
  build_tenants-keeps strategy b (t ∷ ts) s h =
      let create =
        (count_create_remove strategy t.min_size t.max_size (pos (length (base_of t.id b.busy)))
          (pos (length (base_of t.id (idle b))))).0 in
      build_tenants-keeps strategy b ts (build_tenant setup async strategy b t s).1 (
        build_variants-keeps (of_tenant t.id) t.variants
          (create_instances setup async (pos_part create) (some (of_tenant t.id empty_params)) s)
          (create_instances-keeps (pos_part create) (some (of_tenant t.id empty_params)) s h))

  pub build_pool-keeps :
      (strategy : Strategy) (c : Conn) (name : String) (p : Pool Driver) (q : Option QueryParams)
      (rows : List Instance) (s : S)
      → P s
      → P (build_pool setup async strategy c name p q rows s).1
  unfolding build_pool
  build_pool-keeps strategy c name p q rows s h = go (list_pool c name q rows)
    where
      go : (a : Result StoreError Buckets) → P (build_listed setup async strategy p s a).1
      go (err e) = h
      go (ok b) = elim (Bool-cases (is_multi_tenant p)) [
        | inl t ↦ rw t (build_tenants-keeps strategy b p.tenants s h)
        | inr f ↦ rw f (build_single-keeps strategy p b s h)
      ]
