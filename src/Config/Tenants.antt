-- ===== src/Config/Tenants.antt =====
-- command/config/tenant_merge.go: a pool's tenants. The provider specs are of a type `Spec`, and
-- MergeSpec, which goes through JSON, is a function that may fail.
pub mod Overrides
pub mod Merged
pub mod Accounts
use drone_runner_aws.Base.{
  ℕ, String, List, [], ◌∷◌, ◌++◌, Bool, true, false, not, ◌&&◌, ◌||◌, Option, none, some, str_eq,
  mem_text, is_empty, keep, if◌then◌else◌,
}
use drone_runner_aws.Base.Int.{ℤ}
use drone_runner_aws.Base.Text.{lookup, insert}
use drone_runner_aws.Base.Result.{Result, ok, err, ◌>>=◌, ◌>>◌, guard}
use drone_runner_aws.Types.{PoolVariant, default_tenant_id}

pub data TenantError : Type 0 where
  missing_base_spec empty_ids empty_account_id : TenantError
  duplicate_tenant merge_failed mapped_twice group_collides : String → TenantError

abbrev pub int_or_default : Option ℤ → ℤ → ℤ
int_or_default none def = def
int_or_default (some n) def = n

-- The last of the override's entries with an id: the loop that fills `overrideByID` overwrites.
pub override_by_id : String → List PoolVariant → Option PoolVariant
override_by_id id [] = none
override_by_id id (v ∷ vs) = elim (override_by_id id vs) [
  | none ↦ if str_eq v.variant_id id then some v else none
  | some w ↦ some w
]

pub replace_base : List PoolVariant → List PoolVariant → List PoolVariant
unfolding override_by_id
replace_base override [] = []
replace_base override (v ∷ base) =
    elim (override_by_id v.variant_id override) [ none ↦ v | some w ↦ w ]
    ∷ replace_base override base

abbrev pub variant_ids : List PoolVariant → List String
variant_ids [] = []
variant_ids (v ∷ vs) = v.variant_id ∷ variant_ids vs

-- The ids of the override that are not in `seen`, each once, in their order.
pub append_new : List PoolVariant → List String → List String → List PoolVariant
unfolding override_by_id
append_new override seen [] = []
append_new override seen (id ∷ order) =
    let skip = append_new override seen order in
    let more = append_new override (id ∷ seen) order in
    if mem_text id seen
    then skip
    else elim (override_by_id id override) [ none ↦ more | some w ↦ w ∷ more ]

-- The base ids that the override has, which the first loop marks.
abbrev pub matched_ids : List PoolVariant → List PoolVariant → List String
matched_ids base override = keep (λ id. mem_text id (variant_ids override)) (variant_ids base)

unfoldable pub merge_variants : List PoolVariant → List PoolVariant → List PoolVariant
unfolding replace_base append_new
merge_variants base override =
    if is_empty override
    then base
    else if is_empty base
    then override
    else replace_base override base
      ++ append_new override (matched_ids base override) (variant_ids override)

module _ (Spec : Type 0) where
  -- An entry of the `tenants` block.
  pub record Tenant : Type 0 where
    pub ids : List String
    pub group_id : String
    pub spec : Option Spec
    pub pool : Option ℤ
    pub limit : Option ℤ
    pub variants : List PoolVariant

  pub record PoolInstance : Type 0 where
    pub name : String
    pub spec : Option Spec
    pub pool : ℤ
    pub limit : ℤ
    pub variants : List PoolVariant
    pub tenants : List Tenant

  pub record ResolvedTenant : Type 0 where
    pub id : String
    pub spec : Spec
    pub pool : ℤ
    pub limit : ℤ
    pub variants : List PoolVariant

abbrev pub Accounts : Type 0
Accounts = List (String × String)

-- The inner loop over the account ids of one tenant.
unfoldable pub map_accounts : String → List String → Accounts → Result TenantError Accounts
map_accounts tenant [] m = ok m
map_accounts tenant (a ∷ ids) m =
    let kept = map_accounts tenant ids m in
    let added = map_accounts tenant ids (insert a tenant m) in
    if str_eq a "" then kept else elim (lookup a m) [
      | none ↦ added
      | some existing ↦ if str_eq existing tenant then added else err (mapped_twice a)
    ]

-- GroupID, or else the first of the ids, which must not be empty.
abbrev pub first_id : List String → Result TenantError String
first_id [] = err empty_ids
first_id (a ∷ ids) = ok a

unfoldable pub tenant_id : {Spec : Type 0} → Tenant Spec → Result TenantError String
tenant_id t = do
  a ← first_id t.ids
  let id = if str_eq t.group_id "" then a else t.group_id
  guard (not (str_eq id "")) empty_account_id
  ok id

-- The post-pass over the explicit group ids.
unfoldable pub check_groups :
    {Spec : Type 0} → List (Tenant Spec) → Accounts → Result TenantError (Unit {0})
check_groups [] m = ok tt
check_groups (t ∷ tenants) m = do
  guard
      (str_eq t.group_id ""
        || elim (lookup t.group_id m) [ none ↦ true | some existing ↦ str_eq existing t.group_id ])
      (group_collides t.group_id)
  check_groups tenants m

module _ {Spec : Type 0} (merge_spec : Spec → Spec → Option Spec) where
  abbrev pub merged : Spec → Option Spec → String → Result TenantError Spec
  merged base none id = ok base
  merged base (some s) id = elim (merge_spec base s) [
    | none ↦ err (merge_failed id)
    | some m ↦ ok m
  ]

  abbrev pub resolved : PoolInstance Spec → Tenant Spec → String → Spec → ResolvedTenant Spec
  resolved inst t id spec = record {
    id = id;
    spec = spec;
    pool = int_or_default t.pool inst.pool;
    limit = int_or_default t.limit inst.limit;
    variants = merge_variants inst.variants t.variants;
  }

  -- The loop over the overrides; `seen` holds the tenant ids so far.
  unfoldable pub resolve_overrides :
      PoolInstance Spec
      → Spec
      → List (Tenant Spec)
      → List String
      → Accounts
      → Result TenantError (List (ResolvedTenant Spec) × Accounts)
  resolve_overrides inst base [] seen m = ok ([], m)
  resolve_overrides inst base (t ∷ tenants) seen m = do
    id ← tenant_id t
    guard (not (mem_text id seen)) (duplicate_tenant id)
    spec ← merged base t.spec id
    m' ← map_accounts id t.ids m
    (rest, m'') ← resolve_overrides inst base tenants (id ∷ seen) m'
    ok (resolved inst t id spec ∷ rest, m'')

  abbrev pub default_tenant : PoolInstance Spec → Spec → ResolvedTenant Spec
  default_tenant inst base = record {
    id = default_tenant_id;
    spec = base;
    pool = inst.pool;
    limit = inst.limit;
    variants = inst.variants;
  }

  abbrev pub resolve_from :
      PoolInstance Spec → Option Spec → Result TenantError (List (ResolvedTenant Spec) × Accounts)
  resolve_from inst none = err missing_base_spec
  resolve_from inst (some base) = do
    (rest, m) ← resolve_overrides inst base inst.tenants (default_tenant_id ∷ []) []
    check_groups inst.tenants m
    ok (default_tenant inst base ∷ rest, m)

  unfoldable pub resolve_tenants :
      PoolInstance Spec → Result TenantError (List (ResolvedTenant Spec) × Accounts)
  resolve_tenants inst = resolve_from inst inst.spec
