-- ===== src/Config/Tenants/Overrides.antt =====
-- ResolveTenants: the loop over the overrides, and its inner loop over the accounts.
use drone_runner_aws.Base.{
  String, List, [], ◌∷◌, false, not, Option, some, eq_iff, mem_text, In, All, Distinct, ◌≡◌, ◌≢◌,
  refl, sym, ap, ◌∙◌, subst, ◌⊎◌, inl, inr, arith,
}
use drone_runner_aws.Base.Text.{lookup, insert, lookup-insert}
use drone_runner_aws.Base.Result.{ok, >>=-eq-ok, guard-eq-ok}
use drone_runner_aws.Config.Tenants.{
  Tenant, PoolInstance, ResolvedTenant, Accounts, map_accounts, tenant_id, merged, resolved,
  resolve_overrides,
}

-- A mapping that is there stays.
map_accounts-keeps :
    (t : String) (ids : List String) (m m' : Accounts) (a x : String)
    → map_accounts t ids m ≡ ok m'
    → lookup a m ≡ some x
    → lookup a m' ≡ some x
unfolding map_accounts
map_accounts-keeps t [] m m' a x e h = ground arith
map_accounts-keeps t (b ∷ ids) m m' a x e h = ground (
  arith,
  eq_iff b a,
  eq_iff x t,
  lookup-insert b a t m,
  map_accounts-keeps t ids m m' a x,
  map_accounts-keeps t ids (insert b t m) m' a x,
)

-- Every account of the list, unless empty, is mapped to the tenant.
map_accounts-maps :
    (t : String) (ids : List String) (m m' : Accounts) (a : String)
    → map_accounts t ids m ≡ ok m'
    → In a ids
    → a ≢ ""
    → lookup a m' ≡ some t
unfolding map_accounts
map_accounts-maps t [] m m' a e n h = absurd n
map_accounts-maps t (b ∷ ids) m m' a e (inl n) h = ground (
  arith,
  eq_iff b a,
  eq_iff b "",
  lookup-insert b a t m,
  map_accounts-keeps t ids (insert b t m) m' a t,
)
map_accounts-maps t (b ∷ ids) m m' a e (inr n) h =
    ground (arith, map_accounts-maps t ids m m' a, map_accounts-maps t ids (insert b t m) m' a)

-- Nothing else is mapped.
map_accounts-only :
    (t : String) (ids : List String) (m m' : Accounts) (a x : String)
    → map_accounts t ids m ≡ ok m'
    → lookup a m' ≡ some x
    → (lookup a m ≡ some x) ⊎ (In a ids × (x ≡ t))
unfolding map_accounts
map_accounts-only t [] m m' a x e h = ground arith
map_accounts-only t (b ∷ ids) m m' a x e h = ground (
  arith,
  eq_iff b a,
  lookup-insert b a t m,
  map_accounts-only t ids m m' a x,
  map_accounts-only t ids (insert b t m) m' a x,
)

abbrev pub tenant_ids : {Spec : Type 0} → List (ResolvedTenant Spec) → List String
tenant_ids [] = []
tenant_ids (r ∷ rs) = r.id ∷ tenant_ids rs

-- What is not in `id ∷ seen` is not in `seen`, and is not `id`.
pub seen_parts :
    (id : String) (seen xs : List String)
    → All (λ y. mem_text y (id ∷ seen) ≡ false) xs
    → All (λ y. mem_text y seen ≡ false) xs × All (λ y. id ≢ y) xs
seen_parts id seen [] h = (tt, tt)
seen_parts id seen (y ∷ xs) h =
    let (a, b) = seen_parts id seen xs h.1 in
    let p = h.0 in ((ground arith, a), ((λ e. ground (arith, eq_iff id y)), b))

module _ {Spec : Type 0} (merge_spec : Spec → Spec → Option Spec) (inst : PoolInstance Spec)
    (base : Spec) where
  -- What one round of the loop over the overrides has done when the whole loop succeeds.
  abbrev Round :
      Tenant Spec
      → List (Tenant Spec)
      → List String
      → Accounts
      → List (ResolvedTenant Spec)
      → Accounts
      → Type 0
  Round t tenants seen m rs m'' =
      (id : String) × (spec : Spec) × (m' : Accounts) × (rest : List (ResolvedTenant Spec))
      × (tenant_id t ≡ ok id)
      × (mem_text id seen ≡ false)
      × (map_accounts id t.ids m ≡ ok m')
      × (resolve_overrides merge_spec inst base tenants (id ∷ seen) m' ≡ ok (rest, m''))
      × (rs ≡ resolved merge_spec inst t id spec ∷ rest)

  resolve-Round :
      (t : Tenant Spec) (tenants : List (Tenant Spec)) (seen : List String) (m m'' : Accounts)
      (rs : List (ResolvedTenant Spec))
      → resolve_overrides merge_spec inst base (t ∷ tenants) seen m ≡ ok (rs, m'')
      → Round t tenants seen m rs m''
  unfolding resolve_overrides
  resolve-Round t tenants seen m m'' rs e =
      let (id, e₁, f₁) = >>=-eq-ok (tenant_id t) _ e in
      let (g, f₂) = guard-eq-ok (not (mem_text id seen)) _ _ f₁ in
      let (spec, e₃, f₃) = >>=-eq-ok (merged merge_spec base t.spec id) _ f₂ in
      let (m', e₄, f₄) = >>=-eq-ok (map_accounts id t.ids m) _ f₃ in
      let (p, e₅, f₅) =
        >>=-eq-ok (resolve_overrides merge_spec inst base tenants (id ∷ seen) m') _ f₄ in
      (id, spec, m', p.0, e₁, ground arith, e₄, ground arith, ground arith)

  overrides-keep :
      (tenants : List (Tenant Spec)) (seen : List String) (m m' : Accounts)
      (rs : List (ResolvedTenant Spec)) (a x : String)
      → resolve_overrides merge_spec inst base tenants seen m ≡ ok (rs, m')
      → lookup a m ≡ some x
      → lookup a m' ≡ some x
  overrides-keep [] seen m m' rs a x e h = unfold resolve_overrides in ground arith
  overrides-keep (t ∷ tenants) seen m m' rs a x e h =
      let (id, _, n, rest, _, _, e₁, e₂, _) = resolve-Round t tenants seen m m' rs e in
      overrides-keep tenants (id ∷ seen) n m' rest a x e₂ (map_accounts-keeps id t.ids m n a x e₁ h)

  -- The ids are new, and distinct.
  pub overrides-Distinct :
      (tenants : List (Tenant Spec)) (seen : List String) (m m' : Accounts)
      (rs : List (ResolvedTenant Spec))
      → resolve_overrides merge_spec inst base tenants seen m ≡ ok (rs, m')
      → All (λ id. mem_text id seen ≡ false) (tenant_ids rs) × Distinct (tenant_ids rs)
  overrides-Distinct [] seen m m' rs e =
      subst
        (λ (q : List (ResolvedTenant Spec)).
          All (λ id. mem_text id seen ≡ false) (tenant_ids q) × Distinct (tenant_ids q))
        {x = []} (unfold resolve_overrides in ground arith) (tt, tt)
  overrides-Distinct (t ∷ tenants) seen m m' rs e =
      let (id, spec, n, rest, _, new, _, e₂, same) = resolve-Round t tenants seen m m' rs e in
      let (a, d) = overrides-Distinct tenants (id ∷ seen) n m' rest e₂ in
      let (b, c) = seen_parts id seen (tenant_ids rest) a in
      subst
        (λ (q : List (ResolvedTenant Spec)).
          All (λ y. mem_text y seen ≡ false) (tenant_ids q) × Distinct (tenant_ids q))
        (sym same) ((new, b), (c, d))

  -- Every non-empty account of a tenant's list is routed to that tenant.
  pub overrides-route :
      (tenants : List (Tenant Spec)) (seen : List String) (m m' : Accounts)
      (rs : List (ResolvedTenant Spec)) (t : Tenant Spec) (a : String)
      → resolve_overrides merge_spec inst base tenants seen m ≡ ok (rs, m')
      → In t tenants
      → In a t.ids
      → a ≢ ""
      → (id : String) × (tenant_id t ≡ ok id) × (lookup a m' ≡ some id) × In id (tenant_ids rs)
  overrides-route [] seen m m' rs t a e n k f = absurd n
  overrides-route (u ∷ tenants) seen m m' rs t a e (inl n) k f =
      let (id, _, m₁, rest, i, _, e₁, e₂, same) = resolve-Round u tenants seen m m' rs e in
      (
        id,
        ap tenant_id n ∙ i,
        overrides-keep tenants (id ∷ seen) m₁ m' rest a id e₂
            (map_accounts-maps id u.ids m m₁ a e₁ (subst (λ (v : Tenant Spec). In a v.ids) n k) f),
        subst (λ (q : List (ResolvedTenant Spec)). In id (tenant_ids q)) (sym same) (inl refl),
      )
  overrides-route (u ∷ tenants) seen m m' rs t a e (inr n) k f =
      let (id, _, m₁, rest, i, _, e₁, e₂, same) = resolve-Round u tenants seen m m' rs e in
      let (x, j, l, o) = overrides-route tenants (id ∷ seen) m₁ m' rest t a e₂ n k f in
      (x, j, l, subst (λ (q : List (ResolvedTenant Spec)). In x (tenant_ids q)) (sym same) (inr o))

  -- Nothing else is routed.
  pub overrides-only :
      (tenants : List (Tenant Spec)) (seen : List String) (m m' : Accounts)
      (rs : List (ResolvedTenant Spec)) (a x : String)
      → resolve_overrides merge_spec inst base tenants seen m ≡ ok (rs, m')
      → lookup a m' ≡ some x
      → (lookup a m ≡ some x)
        ⊎ ((t : Tenant Spec) × In t tenants × In a t.ids × (tenant_id t ≡ ok x))
  overrides-only [] seen m m' rs a x e h = inl (unfold resolve_overrides in ground arith)
  overrides-only (u ∷ tenants) seen m m' rs a x e h =
      let (id, _, m₁, rest, i, _, e₁, e₂, same) = resolve-Round u tenants seen m m' rs e in
      elim (overrides-only tenants (id ∷ seen) m₁ m' rest a x e₂ h) [
        | inr (t, n, k, j) ↦ inr (t, inr n, k, j)
        | inl l ↦ elim (map_accounts-only id u.ids m m₁ a x e₁ l) [
          | inl l' ↦ inl l'
          | inr (k, same_id) ↦ inr (u, inl refl, k, i ∙ ap ok (sym same_id))
        ]
      ]
