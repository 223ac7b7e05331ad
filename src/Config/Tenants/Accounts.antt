-- ===== src/Config/Tenants/Accounts.antt =====
-- ResolveTenants: the ids of the tenants and the routing of accounts.
use drone_runner_aws.Base.{
  String, List, [], ◌∷◌, Option, none, some, eq_iff, In, Distinct, ◌≡◌, ◌≢◌, refl, sym, ap, subst,
  inl, inr, arith,
}
use drone_runner_aws.Base.Text.{lookup}
use drone_runner_aws.Base.Result.{Result, ok, >>=-eq-ok, guard-eq-ok}
use drone_runner_aws.Types.{default_tenant_id}
use drone_runner_aws.Config.Tenants.{
  TenantError, Tenant, PoolInstance, ResolvedTenant, Accounts, tenant_id, check_groups,
  resolve_overrides, resolve_tenants, default_tenant, group_collides, resolve_from,
}
use drone_runner_aws.Config.Tenants.Overrides.{
  tenant_ids, overrides-Distinct, overrides-route, overrides-only, seen_parts,
}

-- What a successful resolution promises: the default tenant comes first and all ids are distinct;
-- each non-empty account of an override is routed to that override's tenant, which is among the
-- resolved ones; no other account is in the map; and an explicit group id that is also a member
-- account is routed to itself.
abbrev pub Resolves :
    {Spec : Type 0} → PoolInstance Spec → List (ResolvedTenant Spec) → Accounts → Type 0
Resolves {Spec} inst rs m =
    (first : ResolvedTenant Spec) × (others : List (ResolvedTenant Spec)) × (rs ≡ first ∷ others)
    × (first.id ≡ default_tenant_id)
    × Distinct (tenant_ids rs)
    × ((t : Tenant Spec) (a : String)
        → In t inst.tenants
        → In a t.ids
        → a ≢ ""
        → (id : String) × (tenant_id t ≡ ok id) × (lookup a m ≡ some id) × In id (tenant_ids rs))
    × ((a x : String)
        → lookup a m ≡ some x
        → (t : Tenant Spec) × In t inst.tenants × In a t.ids × (tenant_id t ≡ ok x))
    × ((t : Tenant Spec) (x : String)
        → In t inst.tenants
        → t.group_id ≢ ""
        → lookup t.group_id m ≡ some x
        → x ≡ t.group_id)

check_groups-lookup :
    {Spec : Type 0} (tenants : List (Tenant Spec)) (m : Accounts) (t : Tenant Spec) (x : String)
    → check_groups tenants m ≡ ok tt
    → In t tenants
    → t.group_id ≢ ""
    → lookup t.group_id m ≡ some x
    → x ≡ t.group_id
unfolding check_groups
check_groups-lookup {Spec = Spec} [] m t x e n f h = absurd n
check_groups-lookup {Spec = Spec} (u ∷ tenants) m t x e (inl n) f h =
    let g = (guard-eq-ok _ (group_collides u.group_id) (check_groups tenants m) e).0 in
    ground
      (arith, eq_iff x t.group_id, eq_iff t.group_id "", ap (λ (v : Tenant Spec). v.group_id) n)
check_groups-lookup {Spec = Spec} (u ∷ tenants) m t x e (inr n) f h =
    check_groups-lookup tenants m t x
      ((guard-eq-ok _ (group_collides u.group_id) (check_groups tenants m) e).1) n f h

module _ {Spec : Type 0} (merge_spec : Spec → Spec → Option Spec) (inst : PoolInstance Spec) where
  abbrev done :
      Spec
      → List (ResolvedTenant Spec) × Accounts
      → Result TenantError (List (ResolvedTenant Spec) × Accounts)
  done base p = ok (default_tenant merge_spec inst base ∷ p.0, p.1)

  resolve_parts :
      (base : Spec) (rs : List (ResolvedTenant Spec)) (m : Accounts)
      → resolve_from merge_spec inst (some base) ≡ ok (rs, m)
      → (others : List (ResolvedTenant Spec)) × (resolve_overrides merge_spec inst base inst.tenants
            (default_tenant_id ∷ [])
            []
          ≡ ok (others, m))
        × (check_groups inst.tenants m ≡ ok tt)
        × (rs ≡ default_tenant merge_spec inst base ∷ others)
  resolve_parts base rs m e =
      let (p, e₁, f₁) =
        >>=-eq-ok (resolve_overrides merge_spec inst base inst.tenants (default_tenant_id ∷ []) [])
          _ e in
      let (u, e₂, f₂) = >>=-eq-ok (check_groups inst.tenants p.1) _ f₁ in parts p e₁ u e₂ f₂
    where
      parts :
          (p : List (ResolvedTenant Spec) × Accounts)
          → resolve_overrides merge_spec inst base inst.tenants (default_tenant_id ∷ []) [] ≡ ok p
          → (u : Unit) → check_groups inst.tenants p.1 ≡ ok u
          → done base p ≡ ok (rs, m)
          → (others : List (ResolvedTenant Spec)) × (resolve_overrides merge_spec inst base
                inst.tenants
                (default_tenant_id ∷ [])
                []
              ≡ ok (others, m))
            × (check_groups inst.tenants m ≡ ok tt)
            × (rs ≡ default_tenant merge_spec inst base ∷ others)
      parts (others, n) e₁ u e₂ f₂ = (others, ground arith, ground arith, ground arith)

  -- After a resolution that succeeds, the default tenant comes first and all ids are distinct; each
  -- non-empty account of an override is routed to that override's tenant, which is a resolved one; no
  -- other account is routed; and a group id that is also a member account is routed to itself.
  pub resolve_tenants-Resolves :
      (rs : List (ResolvedTenant Spec)) (m : Accounts)
      → resolve_tenants merge_spec inst ≡ ok (rs, m)
      → Resolves inst rs m
  resolve_tenants-Resolves rs m e = go inst.spec (unfold resolve_tenants in e)
    where
      go :
          (spec : Option Spec) → resolve_from merge_spec inst spec ≡ ok (rs, m) → Resolves inst rs m
      go none f = cc
      go (some base) f =
          let (others, e₁, e₂, same) = resolve_parts base rs m f in
          let (new, d) =
            overrides-Distinct merge_spec inst base inst.tenants (default_tenant_id ∷ []) [] m
              others e₁ in
          (
            default_tenant merge_spec inst base,
            others,
            same,
            refl,
            subst (λ (q : List (ResolvedTenant Spec)). Distinct (tenant_ids q)) (sym same)
                ((seen_parts default_tenant_id [] (tenant_ids others) new).1, d),
            (λ t a n k f.
                let (id, i, l, o) =
                  overrides-route merge_spec inst base inst.tenants (default_tenant_id ∷ []) [] m
                    others t a e₁ n k f in
                (
                  id,
                  i,
                  l,
                  subst (λ (q : List (ResolvedTenant Spec)). In id (tenant_ids q)) (sym same)
                      (inr o),
                )),
            (λ a x l.
                elim (overrides-only merge_spec inst base inst.tenants (default_tenant_id ∷ []) [] m
                  others a x e₁ l) [ inl k ↦ unfold lookup in cc | inr k ↦ k ]),
            λ t x n f l. check_groups-lookup inst.tenants m t x e₂ n f l,
          )
