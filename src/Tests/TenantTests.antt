-- ===== src/Tests/TenantTests.antt =====
-- Runs of the resolution of tenants.
use drone_runner_aws.Base.{ℕ, String, List, [], ◌∷◌, Option, none, some, ◌≡◌, refl}
use drone_runner_aws.Base.Int.{pos}
use drone_runner_aws.Base.Text.{lookup, insert, text-differ}
use drone_runner_aws.Base.Result.{ok}
use drone_runner_aws.Config.Tenants.{
  override_by_id, Tenant, PoolInstance, ResolvedTenant, Accounts, resolve_tenants,
  resolve_overrides, check_groups, map_accounts, tenant_id, merge_variants, resolved,
  default_tenant,
}
use drone_runner_aws.Types.{PoolVariant, empty_params}
use drone_runner_aws.Config.Tenants.Merged.{find_variant, or_variant, merge_variants-find}
use drone_runner_aws.Config.Tenants.Accounts.{Resolves, resolve_tenants-Resolves}
use drone_runner_aws.Drivers.Tenants.{Pool, resolve_tenant, driver_for_tenant}
use drone_runner_aws.Drivers.Tenants.Route.{resolve_tenant-owner, owner, driver_for_tenant-member}

-- The spec is a text; a merge takes the override.
abbrev merge : String → String → Option String
merge base override = some override

abbrev acme : Tenant String
acme = record {
  ids = "acc-1" ∷ "acc-2" ∷ [];
  group_id = "acme";
  spec = none;
  pool = some (pos 3);
  limit = none;
  variants = [];
}

abbrev linux : PoolInstance String
linux = record {
  name = "linux";
  spec = some "base";
  pool = pos 1;
  limit = pos 9;
  variants = [];
  tenants = acme ∷ [];
}

abbrev two_tenants : List (ResolvedTenant String)
two_tenants = default_tenant merge linux "base" ∷ resolved merge linux acme "acme" "base" ∷ []

abbrev accounts : Accounts
accounts = ("acc-1", "acme") ∷ ("acc-2", "acme") ∷ []

resolves : resolve_tenants merge linux ≡ ok (two_tenants, accounts)
unfolding resolve_tenants resolve_overrides check_groups map_accounts tenant_id merge_variants
    lookup insert
resolves = refl

resolve_tenants-Resolves_example : Resolves linux two_tenants accounts
resolve_tenants-Resolves_example =
    resolve_tenants-Resolves merge linux two_tenants accounts resolves

-- A driver is a number.
abbrev linux_pool : Pool ℕ
linux_pool = record {
  max_size = pos 9;
  min_size = pos 1;
  driver = 0;
  variants = [];
  tenant_drivers = ("default", some 1) ∷ ("acme", some 2) ∷ [];
  account_to_tenant = accounts;
  tenants = [];
}

resolve_tenant-owner_example : resolve_tenant linux_pool "acc-2" ≡ owner "acc-2" (acme ∷ [])
resolve_tenant-owner_example =
    resolve_tenant-owner merge linux two_tenants linux_pool "acc-2" resolves
      (text-differ "acc-2" "" refl)

goes_to_acme : resolve_tenant linux_pool "acc-2" ≡ "acme"
unfolding resolve_tenant lookup
goes_to_acme = refl

no_own_driver : lookup "acc-1" linux_pool.tenant_drivers ≡ none
unfolding lookup
no_own_driver = refl

group_driver : lookup (resolve_tenant linux_pool "acc-1") linux_pool.tenant_drivers ≡ some (some 2)
unfolding lookup resolve_tenant
group_driver = refl

driver_for_tenant-member_example :
    (driver_for_tenant linux_pool "acc-1" ≡ 2)
    × (driver_for_tenant linux_pool (resolve_tenant linux_pool "acc-1") ≡ 2)
driver_for_tenant-member_example =
    driver_for_tenant-member linux_pool "acc-1" 2 no_own_driver group_driver

abbrev variant : String → ℕ → PoolVariant
variant id size = record {
  pool = size;
  limit = 9;
  params = record empty_params { variant_id = id };
}

merge_variants-find_example :
    find_variant "b"
      (merge_variants (variant "a" 1 ∷ variant "b" 1 ∷ []) (variant "b" 2 ∷ variant "c" 3 ∷ []))
    ≡ or_variant
        (override_by_id "b" (variant "b" 2 ∷ variant "c" 3 ∷ []))
        (find_variant "b" (variant "a" 1 ∷ variant "b" 1 ∷ []))
merge_variants-find_example =
    merge_variants-find "b" (variant "a" 1 ∷ variant "b" 1 ∷ [])
      (variant "b" 2 ∷ variant "c" 3 ∷ []) refl
