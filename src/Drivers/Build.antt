-- ===== src/Drivers/Build.antt =====
-- app/drivers/pool_builder.go: how a pool is filled. As in the code, the set-up of one instance and the
-- job that replaces a failed one are parameters, on a state `S`; without such jobs `async` changes
-- nothing. The goroutines of a batch stand here one after the other, and logs are left out.
pub mod Sized
pub mod Kept
use drone_runner_aws.Base.{
  ℕ, zero, suc, String, List, [], ◌∷◌, ◌++◌, Bool, ◌&&◌, ◌||◌, Option, none, some, str_eq, keep,
  length, take, if◌then◌else◌,
}
use drone_runner_aws.Base.Int.{ℤ, pos, pos_part, ltb_ℤ}
use drone_runner_aws.Base.Result.{Result, ok, err}
use drone_runner_aws.Types.{
  Instance, QueryParams, SetupInstanceParams, empty_params, PoolVariant, default_variant_id,
}
use drone_runner_aws.Store.Instances.{StoreError, Conn}
use drone_runner_aws.Drivers.Strategy.{Strategy, count_create_remove}
use drone_runner_aws.Drivers.Tenants.{Pool, TenantPool, is_multi_tenant}
use drone_runner_aws.Drivers.Driver.{Driver}
use drone_runner_aws.Drivers.Tenanted.{tenant_of}
use drone_runner_aws.Drivers.Manager.{Buckets, list_pool}

-- Free instances, hibernated or on the way to it.
abbrev pub idle : Buckets → List Instance
idle b = b.free ++ b.hibernating_rows

abbrev pub is_base : Instance → Bool
is_base i = str_eq i.variant_id "" || str_eq i.variant_id default_variant_id

abbrev pub base_of : String → List Instance → List Instance
base_of tenant = keep (λ i. is_base i && str_eq (tenant_of i) tenant)

abbrev pub of_tenant : String → SetupInstanceParams → SetupInstanceParams
of_tenant tenant params = record params { tenant_id = tenant }

module _ {S : Type 0} (setup : Option SetupInstanceParams → S → Bool × S)
    (async : Option SetupInstanceParams → S → S) where
  abbrev pub build_one : Option SetupInstanceParams → S → S
  build_one params s = let (made, s') = setup params s in if made then s' else async params s'

  unfoldable pub create_instances : ℕ → Option SetupInstanceParams → S → S
  create_instances zero params s = s
  create_instances (suc n) params s = create_instances n params (build_one params s)

  -- `own` fills in the tenant where there is one.
  unfoldable pub build_variants :
      (SetupInstanceParams → SetupInstanceParams) → List PoolVariant → S → S
  unfolding create_instances
  build_variants own [] s = s
  build_variants own (v ∷ vs) s =
      build_variants own vs (create_instances v.pool (some (own v.params)) s)

  -- With the instances that are handed to the driver to be destroyed; its answer is only logged, and
  -- their rows stay. With a negative count the variants are not built.
  unfoldable pub build_single : Strategy → Pool Driver → Buckets → S → List Instance × S
  unfolding build_variants
  build_single strategy p b s =
      let (create, remove) =
        count_create_remove strategy p.min_size p.max_size (pos (length b.busy))
          (pos (length (idle b))) in
      let doomed = take (pos_part remove) (idle b) in
      if ltb_ℤ create (pos 0) then (doomed, s) else (
        doomed,
        build_variants (λ params. params) p.variants (create_instances (pos_part create) none s),
      )

  unfoldable pub build_tenant : Strategy → Buckets → TenantPool → S → List Instance × S
  unfolding build_variants
  build_tenant strategy b t s =
      let free = base_of t.id (idle b) in
      let (create, remove) =
        count_create_remove strategy t.min_size t.max_size (pos (length (base_of t.id b.busy)))
          (pos (length free)) in
      (
        take (pos_part remove) free,
        build_variants (of_tenant t.id) t.variants
            (create_instances (pos_part create) (some (of_tenant t.id empty_params)) s),
      )

  -- Each tenant's instances to destroy, which go to the tenant's driver.
  unfoldable pub build_tenants : Strategy → Buckets → List TenantPool → S → List Instance × S
  unfolding build_tenant
  build_tenants strategy b [] s = ([], s)
  build_tenants strategy b (t ∷ ts) s =
      let (doomed, s') = build_tenant strategy b t s in
      let (more, s'') = build_tenants strategy b ts s' in (doomed ++ more, s'')

  abbrev pub build_listed :
      Strategy → Pool Driver → S → Result StoreError Buckets → Result StoreError (List Instance) × S
  build_listed strategy p s (err e) = (err e, s)
  build_listed strategy p s (ok b) =
      let (doomed, s') =
        (if is_multi_tenant p
          then build_tenants strategy b p.tenants s
          else build_single strategy p b s) in
      (ok doomed, s')

  unfoldable pub build_pool :
      Strategy
      → Conn
      → String
      → Pool Driver
      → Option QueryParams
      → List Instance
      → S
      → Result StoreError (List Instance) × S
  unfolding build_single build_tenants
  build_pool strategy c name p q rows s = build_listed strategy p s (list_pool c name q rows)
