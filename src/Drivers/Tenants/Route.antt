-- ===== src/Drivers/Tenants/Route.antt =====
-- Pool.ResolveTenant and Pool.DriverForTenant on a pool whose tenants ResolveTenants has resolved.
use drone_runner_aws.Base.{
  String, List, [], ◌∷◌, false, Option, none, some, In, ◌≡◌, ◌≢◌, refl, sym, ap, subst, ◌∙◌,
  is_empty, inl, inr, mem_text, if◌then◌else◌, ◌⊎◌, Bool-cases,
}
use drone_runner_aws.Base.Text.{lookup, In-mem_text, mem_text-In}
use drone_runner_aws.Base.Result.{ok, err}
use drone_runner_aws.Types.{default_tenant_id}
use drone_runner_aws.Config.Tenants.{
  Tenant, PoolInstance, ResolvedTenant, tenant_id, resolve_tenants,
}
use drone_runner_aws.Config.Tenants.Accounts.{resolve_tenants-Resolves}
use drone_runner_aws.Config.Tenants.Overrides.{tenant_ids}
use drone_runner_aws.Drivers.Tenants.{Pool, tenant_or_default, resolve_tenant, driver_for_tenant}

filled :
    {V : Type 0} (k : String) (m : List (String × V)) {v : V}
    → lookup k m ≡ some v
    → is_empty m ≡ false
unfolding lookup
filled k [] e = cc
filled k (x ∷ m) e = refl

module _ {D : Type 0} (p : Pool D) where
  driver_of-lookup :
      (tenant : String) (d : D)
      → lookup tenant p.tenant_drivers ≡ some (some d)
      → driver_for_tenant p tenant ≡ d
  unfolding driver_for_tenant
  driver_of-lookup tenant d e = rw (filled tenant p.tenant_drivers e, e) refl

  -- A row that was stamped with a member account, which has no driver of its own, is handled by the
  -- driver of the tenant that the account resolves to now, where that tenant has one.
  pub driver_for_tenant-member :
      (account : String) (d : D)
      → lookup account p.tenant_drivers ≡ none
      → lookup (resolve_tenant p account) p.tenant_drivers ≡ some (some d)
      → (driver_for_tenant p account ≡ d) × (driver_for_tenant p (resolve_tenant p account) ≡ d)
  driver_for_tenant-member account d e f = (
    go (lookup account p.account_to_tenant) refl (at (lookup account p.account_to_tenant) refl),
    driver_of-lookup (resolve_tenant p account) d f,
  )
    where
      at :
          (o : Option String)
          → lookup account p.account_to_tenant ≡ o
          → lookup (tenant_or_default o) p.tenant_drivers ≡ some (some d)
      at o h =
          subst (λ r. lookup (tenant_or_default r) p.tenant_drivers ≡ some (some d)) h
            (unfold resolve_tenant in f)

      go :
          (o : Option String)
          → lookup account p.account_to_tenant ≡ o
          → lookup (tenant_or_default o) p.tenant_drivers ≡ some (some d)
          → driver_for_tenant p account ≡ d
      go none h g =
          unfold driver_for_tenant in rw (filled default_tenant_id p.tenant_drivers g, e, h, g) refl
      go (some tenant) h g =
          unfold driver_for_tenant in rw (filled tenant p.tenant_drivers g, e, h, g) refl

module _ {Spec : Type 0} where
  -- The tenant of an account, from the overrides: that of the first that lists the account.
  abbrev pub owner : String → List (Tenant Spec) → String
  owner a [] = default_tenant_id
  owner a (t ∷ ts) =
      if mem_text a t.ids
      then elim (tenant_id t) [ ok id ↦ id | err e ↦ default_tenant_id ]
      else owner a ts

  elsewhere :
      (t : Tenant Spec) (ts : List (Tenant Spec)) (a : String)
      → mem_text a t.ids ≡ false
      → ((u : Tenant Spec) → In u ts → In a u.ids → ⊥)
      → (u : Tenant Spec) → In u (t ∷ ts)
      → In a u.ids
      → ⊥
  elsewhere t ts a f h u (inl q) n =
      let there = mem_text-In a u.ids n in
      let same_ids = ap (λ (x : Tenant Spec). mem_text a x.ids) q in cc
  elsewhere t ts a f h u (inr m) n = h u m n

  owner-cases :
      (a : String) (ts : List (Tenant Spec))
      → ((t : Tenant Spec) × In t ts
          × In a t.ids
          × ((id : String) → tenant_id t ≡ ok id → owner a ts ≡ id))
        ⊎ (((t : Tenant Spec) → In t ts → In a t.ids → ⊥) × (owner a ts ≡ default_tenant_id))
  owner-cases a [] = inr ((λ t m. absurd m), refl)
  owner-cases a (t ∷ ts) = elim (Bool-cases (mem_text a t.ids)) [
    | inl e ↦ inl (t, inl refl, In-mem_text a t.ids e, λ id i. rw (e, i) refl)
    | inr f ↦ elim (owner-cases a ts) [
      | inl (u, m, n, same) ↦ inl (u, inr m, n, λ id i. rw f (same id i))
      | inr (not_listed, same) ↦ inr (elsewhere t ts a f not_listed, rw f same)
    ]
  ]

module _ {Spec D : Type 0} (merge_spec : Spec → Spec → Option Spec) (inst : PoolInstance Spec)
    (rs : List (ResolvedTenant Spec)) (p : Pool D) where
  resolve_tenant-lookup :
      (a x : String) → lookup a p.account_to_tenant ≡ some x → resolve_tenant p a ≡ x
  unfolding resolve_tenant
  resolve_tenant-lookup a x e = ap tenant_or_default e

  -- On a pool with the accounts of a resolution, an account that an override lists goes to that
  -- override's tenant, which is one of the resolved tenants.
  resolve_tenant-own :
      (t : Tenant Spec) (a : String)
      → resolve_tenants merge_spec inst ≡ ok (rs, p.account_to_tenant)
      → a ≢ ""
      → In t inst.tenants
      → In a t.ids
      → (tenant_id t ≡ ok (resolve_tenant p a)) × In (resolve_tenant p a) (tenant_ids rs)
  resolve_tenant-own t a e h m n =
      let (_, _, _, _, _, route, _, _) =
        resolve_tenants-Resolves merge_spec inst rs p.account_to_tenant e in
      let (id, i, l, o) = route t a m n h in
      let same = sym (resolve_tenant-lookup a id l) in
      (i ∙ ap ok same, subst (λ (x : String). In x (tenant_ids rs)) same o)

  -- An account that no override lists goes to the default tenant.
  resolve_tenant-other :
      (a : String)
      → resolve_tenants merge_spec inst ≡ ok (rs, p.account_to_tenant)
      → ((u : Tenant Spec) → In u inst.tenants → In a u.ids → ⊥)
      → resolve_tenant p a ≡ default_tenant_id
  resolve_tenant-other a e none_lists = go (lookup a p.account_to_tenant) refl
    where
      go :
          (o : Option String)
          → lookup a p.account_to_tenant ≡ o
          → resolve_tenant p a ≡ default_tenant_id
      go none h = unfold resolve_tenant in ap tenant_or_default h
      go (some x) h =
          let (_, _, _, _, _, _, only, _) =
            resolve_tenants-Resolves merge_spec inst rs p.account_to_tenant e in
          let (u, m, n, _) = only a x h in absurd (none_lists u m n)

  -- On a pool with the accounts of a resolution that succeeded, an account that is not empty goes to the
  -- tenant of the override that lists it, or else to the default tenant.
  pub resolve_tenant-owner :
      (a : String)
      → resolve_tenants merge_spec inst ≡ ok (rs, p.account_to_tenant)
      → a ≢ ""
      → resolve_tenant p a ≡ owner a inst.tenants
  resolve_tenant-owner a e h = elim (owner-cases a inst.tenants) [
    | inl (t, m, n, same) ↦ sym (same (resolve_tenant p a) (resolve_tenant-own t a e h m n).0)
    | inr (not_listed, same) ↦ resolve_tenant-other a e not_listed ∙ sym same
  ]
