-- ===== src/Drivers/Tenants.antt =====
-- app/drivers/pool.go: the tenants of a pool. `D` is the type of drivers; a nil driver in the map is
-- `none`.
pub mod Route
use drone_runner_aws.Base.{
  String, List, [], ◌∷◌, Bool, true, false, not, Option, none, some, str_eq, is_empty, first,
  if◌then◌else◌,
}
use drone_runner_aws.Base.Int.{ℤ}
use drone_runner_aws.Base.Text.{lookup}
use drone_runner_aws.Types.{PoolVariant, default_tenant_id}

pub record TenantPool : Type 0 where
  pub id : String
  pub min_size : ℤ
  pub max_size : ℤ
  pub variants : List PoolVariant

abbrev pub variants_or : Option TenantPool → List PoolVariant → List PoolVariant
variants_or none other = other
variants_or (some t) other = t.variants

abbrev pub tenant_or_default : Option String → String
tenant_or_default none = default_tenant_id
tenant_or_default (some tenant) = tenant

module _ (D : Type 0) where
  pub record Pool : Type 0 where
    pub max_size : ℤ
    pub min_size : ℤ
    pub driver : D
    pub variants : List PoolVariant
    pub tenant_drivers : List (String × Option D)
    pub account_to_tenant : List (String × String)
    pub tenants : List TenantPool

module _ {D : Type 0} where
  abbrev pub is_multi_tenant : Pool D → Bool
  is_multi_tenant p = not (is_empty p.tenant_drivers)

  unfoldable pub resolve_tenant : Pool D → String → String
  resolve_tenant p account = tenant_or_default (lookup account p.account_to_tenant)

  -- The driver of the tenant, unless it is missing or nil.
  abbrev pub or_else : Option (Option D) → D → D
  or_else (some (some d)) other = d
  or_else _ other = other

  abbrev pub driver_of_account : Pool D → Option String → D → D
  driver_of_account p none other = other
  driver_of_account p (some tenant) other = or_else (lookup tenant p.tenant_drivers) other

  unfoldable pub driver_for_tenant : Pool D → String → D
  driver_for_tenant p tenant =
      if is_empty p.tenant_drivers
      then p.driver
      else or_else (lookup tenant p.tenant_drivers) (
          driver_of_account p (lookup tenant p.account_to_tenant)
            (or_else (lookup default_tenant_id p.tenant_drivers) p.driver))

  unfoldable pub variants_for_tenant : Pool D → String → List PoolVariant
  variants_for_tenant p tenant =
      let id = if str_eq tenant "" then default_tenant_id else tenant in
      if is_multi_tenant p
      then variants_or (first (λ t. str_eq t.id id) p.tenants)
          (variants_or (first (λ t. str_eq t.id default_tenant_id) p.tenants) p.variants)
      else p.variants
