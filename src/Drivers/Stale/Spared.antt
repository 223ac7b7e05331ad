-- ===== src/Drivers/Stale/Spared.antt =====
-- purgeStaleInstancesForPool: which rows the purger leaves alone.
use drone_runner_aws.Base.{
  ℕ, ◌+◌, String, List, [], ◌∷◌, ◌++◌, Bool, true, false, ◌&&◌, In, In-append, In-keep, keep-In,
  ◌≡◌, ◌≢◌, refl, inl, inr, arith, Option, some, none, keep, mem_text, Distinct, Bool-cases,
  if◌then◌else◌, str_eq, eq_iff,
}
use drone_runner_aws.Base.Result.{Result, ok, err}
use drone_runner_aws.Types.{
  Instance, InstanceState, created, in_use, hibernating, provisioning, terminating,
  SetupInstanceParams,
}
use drone_runner_aws.Store.Instances.{
  StoreError, Conn, matches_list, list_instances, sort_by_started, delete_instance,
}
use drone_runner_aws.Store.Instances.Sorted.{sort-In}
use drone_runner_aws.Drivers.Strategy.{Strategy}
use drone_runner_aws.Drivers.Tenants.{Pool}
use drone_runner_aws.Drivers.Driver.{Driver}
use drone_runner_aws.Drivers.Tenanted.{destroy_by_tenant}
use drone_runner_aws.Drivers.Purger.{ids_of, stuck_provisioning_max_age}
use drone_runner_aws.Drivers.Purger.Rows.{ids_unique}
use drone_runner_aws.Drivers.Manager.{buckets_of}
use drone_runner_aws.Drivers.Manager.Sorted.{bucket_of, bucket-In}
use drone_runner_aws.Drivers.Build.{build_one, build_pool}
use drone_runner_aws.Drivers.Build.Kept.{build_pool-keeps}
use drone_runner_aws.Drivers.Stale.{
  is_over, not_retained, stale_of, after_delete, delete_each, built, rebuild, purge_found,
  purge_stale_instances,
}

-- The maximal age in a state: of a used instance, of an idle one, or of one that is being made.
abbrev pub age_in : ℕ → ℕ → InstanceState → ℕ
age_in max_busy max_free in_use = max_busy
age_in max_busy max_free terminating = max_busy
age_in max_busy max_free created = max_free
age_in max_busy max_free hibernating = max_free
age_in max_busy max_free provisioning = stuck_provisioning_max_age

-- A row of the pool with the label `retain=false` that is too old for its state.
abbrev pub is_stale : ℕ → ℕ → ℕ → String → Instance → Bool
is_stale now max_busy max_free name i =
    matches_list name (some not_retained) i && is_over now (age_in max_busy max_free i.state) i

module _ (now max_busy max_free : ℕ) (l : List Instance) (i : Instance) where
  abbrev Over : Type 0
  Over = In i l × (is_over now (age_in max_busy max_free i.state) i ≡ true)

  over-In :
      (t : InstanceState)
      → In i (bucket_of t (buckets_of l))
      → is_over now (age_in max_busy max_free t) i ≡ true
      → Over
  over-In t m e = let (n, q) = bucket-In t l i m in (n, rw q e)

  stale-In : In i (stale_of now max_busy max_free (buckets_of l)) → Over
  stale-In m =
      elim (In-append
        (keep (is_over now max_busy) ((buckets_of l).busy ++ (buckets_of l).terminating_rows)) _ i
        m) [
          | inl n ↦
              let (k, e) = In-keep (is_over now max_busy) i _ n in
              elim (In-append (buckets_of l).busy _ i k) [
                | inl k' ↦ over-In in_use k' e
                | inr k' ↦ over-In terminating k' e
              ]
          | inr n ↦ elim (In-append (keep (is_over now max_free) _) _ i n) [
            | inl k ↦
                let (k', e) = In-keep (is_over now max_free) i _ k in
                elim (In-append (buckets_of l).free _ i k') [
                  | inl k'' ↦ over-In created k'' e
                  | inr k'' ↦ over-In hibernating k'' e
                ]
            | inr k ↦
                let (k', e) = In-keep (is_over now stuck_provisioning_max_age) i _ k in
                over-In provisioning k' e
          ]
        ]

delete-spares :
    (c : Conn) (key : String) (rows : List Instance) (i : Instance)
    → i.id ≢ key
    → In i rows
    → In i (after_delete (λ rows'. (ok tt, rows')) rows (delete_instance c key rows)).1
unfolding delete_instance
delete-spares c key rows i ne m = elim (Bool-cases c.down) [
  | inl t ↦ rw t m
  | inr f ↦ rw f (
      keep-In (λ j. if str_eq j.id key then false else true) i rows m
        (ground (arith, eq_iff i.id key)))
]

pub delete_each-spares :
    (net : ℕ → Conn) (left : List String) (is rows : List Instance) (i : Instance)
    → ((j : Instance) → In j is → i.id ≢ j.id)
    → In i rows
    → In i (delete_each net left is rows).1
unfolding delete_each
delete_each-spares net left [] rows i ne m = m
delete_each-spares net left (j ∷ is) rows i ne m = elim (Bool-cases (mem_text j.id left)) [
  | inl t ↦ rw t (delete_each-spares (λ n. net (n + 1)) left is rows i (λ k n. ne k (inr n)) m)
  | inr f ↦ rw f (
      go (delete_instance (net 0) j.id rows) (delete-spares (net 0) j.id rows i (ne j (inl refl)) m)
        (λ rows'. delete_each-spares (λ n. net (n + 1)) left is rows' i (λ k n. ne k (inr n))))
]
  where
    go :
        (a : Result StoreError (List Instance))
        → In i (after_delete (λ rows'. (ok tt, rows')) rows a).1
        → ((rows' : List Instance)
            → In i rows'
            → In i (delete_each (λ n. net (n + 1)) left is rows').1)
        → In i (after_delete (delete_each (λ n. net (n + 1)) left is) rows a).1
    go (err e) n rest = n
    go (ok rows') n rest = rest rows' n

module _ (net : ℕ → Conn) (order : List String → List String) (name : String) (p : Pool Driver)
    (setup : Option SetupInstanceParams → List Instance → Bool × List Instance)
    (strategy : Strategy) (i : Instance)
    (keeps : (params : Option SetupInstanceParams) (s : List Instance)
      → In i s
      → In i (setup params s).1) where
  one-keeps :
      (params : Option SetupInstanceParams) (s : List Instance)
      → In i s
      → In i (build_one setup (λ params s. s) params s)
  one-keeps params s n = elim (Bool-cases (setup params s).0) [
    | inl t ↦ rw t (keeps params s n)
    | inr f ↦ rw f (keeps params s n)
  ]

  built-keeps :
      (a : Result StoreError (List Instance) × List Instance)
      → In i a.1
      → In i (built net order name p setup strategy a).1
  built-keeps (err e, s) n = n
  built-keeps (ok u, s) n = n

  rebuild-keeps :
      (a : Result StoreError (Unit {0}) × List Instance)
      → In i a.1
      → In i (rebuild net order name p setup strategy a).1
  rebuild-keeps (err e, s) n = n
  rebuild-keeps (ok u, s) n =
      built-keeps (build_pool setup (λ params s. s) strategy (net 1) name p none s s)
        (build_pool-keeps setup (λ params s. s) (In i) one-keeps strategy (net 1) name p none s s n)

  found-spares :
      (is rows : List Instance)
      → ((j : Instance) → In j is → i.id ≢ j.id)
      → In i rows
      → In i (purge_found net order name p setup strategy is rows).1
  found-spares [] rows ne m = m
  found-spares (j ∷ is) rows ne m = rebuild-keeps _ (
      delete_each-spares (λ n. net (n + 2)) (ids_of (destroy_by_tenant order p (j ∷ is)).0) (j ∷ is)
        rows i ne m)

-- A row that is not stale, one with another label or of another pool included, stays as it is, whatever
-- fails, if the ids are unique and the set-up of instances, which fills the pool again, keeps rows.
pub purge_stale_instances-spares :
    (net : ℕ → Conn) (order : List String → List String) (name : String) (p : Pool Driver)
    (setup : Option SetupInstanceParams → List Instance → Bool × List Instance)
    (strategy : Strategy) (now max_busy max_free : ℕ) (rows : List Instance) (i : Instance)
    → ((params : Option SetupInstanceParams) (s : List Instance) → In i s → In i (setup params s).1)
    → Distinct (ids_of rows)
    → In i rows
    → is_stale now max_busy max_free name i ≡ false
    → In i (purge_stale_instances net order name p setup strategy now max_busy max_free rows).1
unfolding purge_stale_instances list_instances
purge_stale_instances-spares net order name p setup strategy now max_busy max_free rows i keeps d m
      fresh =
    elim (Bool-cases (net 0).down) [
      | inl t ↦ rw t m
      | inr f ↦ rw f (
          found-spares net order name p setup strategy i keeps
            (stale_of now max_busy max_free (buckets_of listed)) rows other m)
    ]
  where
    listed : List Instance
    listed = sort_by_started (keep (matches_list name (some not_retained)) rows)

    other : (j : Instance) → In j (stale_of now max_busy max_free (buckets_of listed)) → i.id ≢ j.id
    other j n e =
        let (k, over) = stale-In now max_busy max_free listed j n in
        let (here, fit) = In-keep (matches_list name (some not_retained)) j rows (sort-In _ j k) in
        let same : i ≡ j = ids_unique rows i j d m here e in
        let stale : is_stale now max_busy max_free name i ≡ true = rw (same, fit, over) refl in cc
