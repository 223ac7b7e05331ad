-- ===== src/Drivers/Tenanted.antt =====
-- app/drivers/pool.go: destroyByTenant, which hands the instances of each tenant to the tenant's driver.
-- The code goes through a Go map: `order` is the order in which it meets the tenants of the list that it
-- is given. Which of the drivers' errors is returned is left out; the callers only log it.
use drone_runner_aws.Base.{
  String, List, [], ◌∷◌, ◌++◌, Bool, true, ◌&&◌, ◌≡◌, refl, sym, ap, subst, ◌↔◌, In-left, In-right,
  In-append, inl, inr, In, In-keep, str_eq, eq_iff, keep, mem_text, if◌then◌else◌, Bool-cases,
}
use drone_runner_aws.Base.Text.{In-mem_text}
use drone_runner_aws.Types.{Instance, default_tenant_id}
use drone_runner_aws.Drivers.Tenants.{Pool, is_multi_tenant, driver_for_tenant}
use drone_runner_aws.Drivers.Driver.{Driver}

abbrev pub tenant_of : Instance → String
tenant_of i = if str_eq i.tenant_id "" then default_tenant_id else i.tenant_id

-- The tenants of the instances, each once.
unfoldable pub tenants_in : List Instance → List String
tenants_in [] = []
tenants_in (i ∷ is) =
    let rest = tenants_in is in if mem_text (tenant_of i) rest then rest else tenant_of i ∷ rest

abbrev pub group : String → List Instance → List Instance
group tenant = keep (λ i. str_eq (tenant_of i) tenant)

unfoldable pub destroy_groups : Pool Driver → List Instance → List String → List Instance × Bool
destroy_groups p is [] = ([], true)
destroy_groups p is (tenant ∷ tenants) =
    let (left, done) = (driver_for_tenant p tenant).destroy (group tenant is) in
    let rest = destroy_groups p is tenants in (left ++ rest.0, done && rest.1)

unfoldable pub destroy_by_tenant :
    (List String → List String) → Pool Driver → List Instance → List Instance × Bool
unfolding destroy_groups tenants_in
destroy_by_tenant order p is =
    if is_multi_tenant p then destroy_groups p is (order (tenants_in is)) else p.driver.destroy is

-- A driver reports only what it was given.
abbrev pub Reports : Driver → Type 0
Reports d = (is : List Instance) (i : Instance) → In i (d.destroy is).0 → In i is

module _ (p : Pool Driver) (is : List Instance) (i : Instance) where
  abbrev pub Refused : String → Type 0
  Refused tenant = In i ((driver_for_tenant p tenant).destroy (group tenant is)).0

  groups-Refused :
      (tenants : List String)
      → In i (destroy_groups p is tenants).0
      → (tenant : String) × In tenant tenants × Refused tenant
  unfolding destroy_groups
  groups-Refused [] m = absurd m
  groups-Refused (t ∷ tenants) m =
      elim (In-append ((driver_for_tenant p t).destroy (group t is)).0 _ i m) [
        | inl n ↦ (t, inl refl, n)
        | inr n ↦ let (u, k, r) = groups-Refused tenants n in (u, inr k, r)
      ]

  Refused-groups :
      (tenants : List String) (tenant : String)
      → In tenant tenants
      → Refused tenant
      → In i (destroy_groups p is tenants).0
  unfolding destroy_groups
  Refused-groups [] tenant m r = absurd m
  Refused-groups (t ∷ tenants) tenant (inl e) r =
      In-left ((driver_for_tenant p t).destroy (group t is)).0 _ i (subst Refused e r)
  Refused-groups (t ∷ tenants) tenant (inr m) r =
      In-right ((driver_for_tenant p t).destroy (group t is)).0 _ i
        (Refused-groups tenants tenant m r)

In-tenants : (is : List Instance) (i : Instance) → In i is → In (tenant_of i) (tenants_in is)
unfolding tenants_in
In-tenants [] i m = absurd m
In-tenants (x ∷ is) i (inl e) = elim (Bool-cases (mem_text (tenant_of x) (tenants_in is))) [
  | inl t ↦ rw (t, ap tenant_of e) (In-mem_text (tenant_of x) (tenants_in is) t)
  | inr f ↦ rw f (inl (ap tenant_of e))
]
In-tenants (x ∷ is) i (inr m) = elim (Bool-cases (mem_text (tenant_of x) (tenants_in is))) [
  | inl t ↦ rw t (In-tenants is i m)
  | inr f ↦ rw f (inr (In-tenants is i m))
]

-- In a pool with tenants, whichever order the tenants are met in: an instance is reported as left exactly
-- if it was to be destroyed, and the driver of its own tenant, given the instances of that tenant, has
-- left it. (The drivers report only what they are given.)
pub destroy_by_tenant-Refused :
    (order : List String → List String) (p : Pool Driver) (is : List Instance)
    → is_multi_tenant p ≡ true
    → ((tenant : String) → In tenant (order (tenants_in is)) ↔ In tenant (tenants_in is))
    → ((tenant : String) → Reports (driver_for_tenant p tenant))
    → (i : Instance)
    → In i (destroy_by_tenant order p is).0 ↔ (In i is × Refused p is i (tenant_of i))
unfolding destroy_by_tenant
destroy_by_tenant-Refused order p is many all reports i = rw many (left, right)
  where
    left :
        In i (destroy_groups p is (order (tenants_in is))).0
        → In i is × Refused p is i (tenant_of i)
    left m =
        let (tenant, _, r) = groups-Refused p is i (order (tenants_in is)) m in
        let (here, own) =
          In-keep (λ j. str_eq (tenant_of j) tenant) i is (reports tenant (group tenant is) i r) in
        (here, subst (Refused p is i) (sym ((eq_iff (tenant_of i) tenant).0 own)) r)

    right :
        In i is × Refused p is i (tenant_of i)
        → In i (destroy_groups p is (order (tenants_in is))).0
    right (here, r) =
        Refused-groups p is i (order (tenants_in is)) (tenant_of i)
          ((all (tenant_of i)).1 (In-tenants is i here)) r
