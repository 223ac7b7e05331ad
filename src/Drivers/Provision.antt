-- ===== src/Drivers/Provision.antt =====
-- app/drivers/distributed_manager.go: the choice of a pool's variants for a request, and the claim
-- of an instance that the pool holds ready. `qualify` is the driver's GetFullyQualifiedImage, whose
-- errors the code ignores. The creation of an instance where none is ready goes to the provider, and
-- is left out, as are the identity labels, the logs and the metrics.
pub mod Variants
pub mod Claimed
use drone_runner_aws.Base.{
  ℕ, suc, ◌+◌, String, List, [], ◌∷◌, Bool, true, false, not, ◌&&◌, ◌||◌, Option, none, some,
  str_eq, ◌==◌, if◌then◌else◌, keep, is_empty, map,
}
use drone_runner_aws.Base.Result.{Result, ok, err}
use drone_runner_aws.Types.{
  Instance, InstanceSource, pool, same_source, SetupInstanceParams, empty_params, PoolVariant,
  QueryParams, empty_query, in_use, created, default_variant_id, OutboxJob, setup_instance,
  setup_params, pending, default_tenant_id,
}
use drone_runner_aws.Store.Instances.{
  StoreError, no_rows, failed, Conn, same_bool, find_and_claim, update_instance,
}
use drone_runner_aws.Store.Outbox.{Outbox, create_job}
use drone_runner_aws.Drivers.Tenants.{Pool, resolve_tenant, variants_for_tenant}

-- A request; the image's name is empty where the request has no image configuration.
pub record ProvisionParams : Type 0 where
  pub image_name : String
  pub nested_virtualization : Bool
  pub resource_class : String
  pub zones : List String
  pub skip_cloud_vm_cleanup : Bool
  pub account_id : String
  pub stage_runtime_id : String
  pub pipeline_execution_id : String
  pub long_running : Bool
  pub reservation_per_pool_timeout : ℕ

abbrev pub to_setup_params : ProvisionParams → SetupInstanceParams
to_setup_params p = record empty_params {
  nested_virtualization = p.nested_virtualization;
  resource_class = p.resource_class;
  skip_cloud_vm_cleanup = p.skip_cloud_vm_cleanup;
  account_id = p.account_id;
  stage_runtime_id = p.stage_runtime_id;
  pipeline_execution_id = p.pipeline_execution_id;
  long_running = p.long_running;
  reservation_per_pool_timeout = p.reservation_per_pool_timeout;
  zones = p.zones;
}

abbrev pub is_fit : ProvisionParams → PoolVariant → Bool
is_fit p v =
    str_eq v.resource_class p.resource_class
    && same_bool v.nested_virtualization p.nested_virtualization

abbrev pub has_image : (String → String) → String → PoolVariant → Bool
has_image qualify image v = not (str_eq v.image_name "") && str_eq (qualify v.image_name) image

-- The candidates with the image, or else those without an image name.
abbrev pub by_image : (String → String) → String → List PoolVariant → List PoolVariant
by_image qualify image candidates =
    let matched = keep (has_image qualify image) candidates in
    if is_empty matched then keep (λ v. str_eq v.image_name "") candidates else matched

unfoldable pub filter_variants :
    (String → String) → ProvisionParams → List PoolVariant → List PoolVariant
filter_variants qualify p variants =
    let candidates = keep (is_fit p) variants in
    let image = qualify p.image_name in
    if str_eq image "" then candidates else by_image qualify image candidates

abbrev pub text_or : String → String → String
text_or new old = if str_eq new "" then old else new

abbrev pub apply_variant : SetupInstanceParams → PoolVariant → SetupInstanceParams
apply_variant s v = record s {
  machine_type = text_or v.machine_type s.machine_type;
  disk_size = if v.disk_size == 0 then s.disk_size else v.disk_size;
  disk_type = text_or v.disk_type s.disk_type;
  gpu = if v.gpu then true else s.gpu;
  hibernate = if v.hibernate then true else s.hibernate;
  variant_id = v.variant_id;
}

abbrev pub apply_first : SetupInstanceParams → List PoolVariant → SetupInstanceParams
apply_first s [] = s
apply_first s (v ∷ variants) = apply_variant s v

abbrev pub variants_to_try : List PoolVariant → List String
variants_to_try [] = default_variant_id ∷ []
variants_to_try (v ∷ variants) = map (λ w. w.variant_id) (v ∷ variants)

-- The set-up parameters of the request, and the variants to try, in their order.
unfoldable pub plan_of :
    {D : Type 0} → (String → String) → Pool D → ProvisionParams → SetupInstanceParams × List String
unfolding filter_variants
plan_of qualify p request =
    let tenant = resolve_tenant p request.account_id in
    let matched = filter_variants qualify request (variants_for_tenant p tenant) in
    (
      record (apply_first (record (to_setup_params request) { tenant_id = tenant }) matched) {
        zones = [];
      },
      variants_to_try matched,
    )

abbrev pub replenish_params : SetupInstanceParams → Instance → SetupInstanceParams
replenish_params s i = record empty_params {
  image_name = i.image;
  nested_virtualization = i.enable_nested_virtualization;
  gpu = i.gpu;
  machine_type = i.size;
  hibernate = i.is_hibernated;
  variant_id = i.variant_id;
  tenant_id = i.tenant_id;
  disk_size = s.disk_size;
  disk_type = s.disk_type;
  resource_class = s.resource_class;
  source = some pool;
}

abbrev pub should_replenish : Instance → Bool
should_replenish i = same_source i.source pool

abbrev pub setup_instance_async : Conn → String → String → SetupInstanceParams → Outbox → Outbox
setup_instance_async c pool_name runner_name params o =
    if str_eq pool_name "" || str_eq runner_name ""
    then o
    else (create_job c
        (record {
          id = 0;
          pool_name = pool_name;
          runner_name = runner_name;
          job_type = setup_instance;
          job_params = some (setup_params params);
          created_at = 0;
          processed_at = none;
          status = pending;
          error_message = none;
          retry_count = 0;
        })
        o).1

abbrev pub ready_query : String → SetupInstanceParams → String → String → QueryParams
ready_query pool_name s image variant = record empty_query {
  pool_name = pool_name;
  machine_type = s.machine_type;
  nested_virtualization = s.nested_virtualization;
  variant_id = variant;
  tenant_id = s.tenant_id;
  image_name = image;
  gpu = s.gpu;
}

-- No instance is ready, a call has failed, or an instance was claimed for a variant.
pub data Ready : Type 0 where
  nothing : Ready
  broke : StoreError → Ready
  hit : Instance → String → Ready

module _ (s : SetupInstanceParams) (owner variant : String) where
  abbrev pub tagged :
      Conn
      → Instance
      → List Instance
      → Outbox
      → Result StoreError (List Instance)
      → Ready × (List Instance × Outbox)
  tagged c i rows o (err e) = (broke e, (rows, o))
  tagged c i rows o (ok rows') = (
    hit i variant,
    (
      rows',
      if should_replenish i
          then setup_instance_async c i.pool i.runner_name (replenish_params s i) o
          else o,
    ),
  )

  -- What is done with the answer of a claim; `rest` tries the other variants.
  abbrev pub take_ready :
      (ℕ → Conn)
      → Outbox
      → (List Instance → Ready × (List Instance × Outbox))
      → Result StoreError Instance × List Instance
      → Ready × (List Instance × Outbox)
  take_ready net o rest (err no_rows, rows) = rest rows
  take_ready net o rest (err failed, rows) = (broke failed, (rows, o))
  take_ready net o rest (ok i, rows) =
      let mine = record i { owner_id = owner } in
      tagged (net 2) mine rows o (update_instance (net 1) mine rows)

-- The loop over the variants; each claim has up to three calls.
unfoldable pub claim_ready :
    (ℕ → Conn)
    → String
    → SetupInstanceParams
    → String
    → String
    → List String
    → List Instance
    → Outbox
    → Ready × (List Instance × Outbox)
claim_ready net pool_name s image owner [] rows o = (nothing, (rows, o))
claim_ready net pool_name s image owner (variant ∷ variants) rows o =
    take_ready s owner variant net o
      (λ rows'. claim_ready (λ n. net (n + 3)) pool_name s image owner variants rows' o)
      (find_and_claim (net 0) (ready_query pool_name s image variant) in_use (created ∷ []) true
        rows)
