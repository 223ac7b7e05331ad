-- ===== src/Drivers/Manager/Provided.antt =====
-- Manager.provisionFromPool: what a request gets.
use drone_runner_aws.Base.{
  ℕ, String, List, [], ◌∷◌, ◌++◌, Bool, true, false, In, In-keep, keep-In, ◌≡◌, ◌≢◌, refl, sym,
  subst, inl, inr, Bool-cases, str_eq, Option, none, some, keep, length, ltb, any, ◌||◌,
}
use drone_runner_aws.Base.Int.{ℤ, pos}
use drone_runner_aws.Base.Result.{ok}
use drone_runner_aws.Types.{Instance, InstanceState, created, QueryParams, SetupInstanceParams}
use drone_runner_aws.Store.Instances.{
  Conn, matches_list, list_instances, create_instance, update_instance, set_row, overwrite,
  sort_by_started,
}
use drone_runner_aws.Store.Instances.Sorted.{In-sort, sort-In, IsLeast, sort-IsLeast}
use drone_runner_aws.Drivers.Strategy.{Strategy, can_create}
use drone_runner_aws.Drivers.Manager.Sorted.{bucket_of, bucket-In, In-bucket}
use drone_runner_aws.Drivers.Manager.{
  buckets_of, fitted, setup_instance, handed, hand_out, provision_from_pool, cold, tagged_answer,
}

module _ (net : ℕ → Conn) (now : ℕ) (s : Strategy) (min_size max_size : ℤ) (runner owner : String)
    (params : SetupInstanceParams) (made : Option Instance) (pool : String) (q : QueryParams)
    (rows : List Instance) where
  -- The rows of the pool that the query selects, the oldest first.
  abbrev listed : List Instance
  listed = sort_by_started (keep (matches_list pool (some q)) rows)

  abbrev busy_count : ℕ
  busy_count = length (buckets_of listed).busy

  -- An instance from the pool, or a new one.
  abbrev pub Provides : Instance → Bool → List Instance → Type 0
  Provides k true rows' =
      (a : Instance) × In a rows
      × (matches_list pool (some q) a ≡ true)
      × (a.state ≡ created)
      × ((b : Instance)
          → In b rows
          → matches_list pool (some q) b ≡ true
          → b.state ≡ created
          → ltb b.started a.started ≡ false)
      × (k ≡ handed now owner a)
      × (rows' ≡ set_row a.id (overwrite k) rows)
  Provides k false rows' =
      ((b : Instance) → In b rows → matches_list pool (some q) b ≡ true → b.state ≢ created)
      × (can_create s min_size max_size (pos busy_count) (pos 0) ≡ true)
      × ((i : Instance) × (made ≡ some i) × (k ≡ fitted runner true owner params i))
      × (rows' ≡ rows ++ k ∷ [])

  listed-free :
      (b : Instance)
      → In b rows
      → matches_list pool (some q) b ≡ true
      → b.state ≡ created
      → In b (sort_by_started (buckets_of listed).free)
  listed-free b m e f = In-sort (buckets_of listed).free b (
      subst (λ (t : InstanceState). In b (bucket_of t (buckets_of listed))) f
        (In-bucket listed b (
          In-sort (keep (matches_list pool (some q)) rows) b
            (keep-In (matches_list pool (some q)) b rows m e))))

  free-facts :
      (a : Instance)
      → In a (sort_by_started (buckets_of listed).free)
      → In a rows × (matches_list pool (some q) a ≡ true) × (a.state ≡ created)
  free-facts a m =
      let (n, f) = bucket-In created listed a (sort-In (buckets_of listed).free a m) in
      let (here, e) =
        In-keep (matches_list pool (some q)) a rows
          (sort-In (keep (matches_list pool (some q)) rows) a n) in
      (here, e, f)

  warm-facts :
      (a k : Instance) (warm : Bool) (rows' : List Instance)
      → tagged_answer (handed now owner a) rows (update_instance (net 1) (handed now owner a) rows)
        ≡ (ok (k, warm), rows')
      → (k ≡ handed now owner a)
        × (warm ≡ true)
        × (rows' ≡ set_row a.id (overwrite (handed now owner a)) rows)
  unfolding update_instance
  warm-facts a k warm rows' e = elim (Bool-cases (net 1).down) [
    | inl t ↦ let e' = rw t at e in cc
    | inr f ↦ let e' = rw f at e in (cc, cc, cc)
  ]

  made-facts :
      (i k : Instance) (warm : Bool) (rows' : List Instance)
      → cold (setup_instance (net 1) runner true owner params (some i) rows) ≡ (ok (k, warm), rows')
      → (k ≡ fitted runner true owner params i) × (warm ≡ false) × (rows' ≡ rows ++ k ∷ [])
  unfolding setup_instance create_instance
  made-facts i k warm rows' e =
      let own = fitted runner true owner params i in
      elim (Bool-cases
        ((net 1).down || any (λ j. str_eq j.id own.id || str_eq j.name own.name) rows)) [
          | inl t ↦ let e' = rw t at e in cc
          | inr f ↦ let e' = rw f at e in (cc, cc, cc)
        ]

  cold-facts :
      (k : Instance) (warm : Bool) (rows' : List Instance)
      → hand_out net now s min_size max_size runner owner params made busy_count rows []
        ≡ (ok (k, warm), rows')
      → (can_create s min_size max_size (pos busy_count) (pos 0) ≡ true)
        × ((i : Instance) × (made ≡ some i)
            × (k ≡ fitted runner true owner params i)
            × (warm ≡ false)
            × (rows' ≡ rows ++ k ∷ []))
  cold-facts k warm rows' e =
      elim (Bool-cases (can_create s min_size max_size (pos busy_count) (pos 0))) [
        | inl t ↦ (t, stored made refl (rw t at e))
        | inr f ↦ let e' = rw f at e in cc
      ]
    where
      stored :
          (o : Option Instance)
          → made ≡ o
          → cold (setup_instance (net 1) runner true owner params made rows) ≡ (ok (k, warm), rows')
          → (i : Instance) × (made ≡ some i)
            × (k ≡ fitted runner true owner params i)
            × (warm ≡ false)
            × (rows' ≡ rows ++ k ∷ [])
      stored none m h = let h' = rw m at h in unfold setup_instance in cc
      stored (some i) m h =
          let (is_k, w, after) = made-facts i k warm rows' (rw m at h) in (i, m, is_k, w, after)

  hand_out-Provides :
      (free : List Instance)
      → sort_by_started (buckets_of listed).free ≡ free
      → (k : Instance) (warm : Bool) (rows' : List Instance)
      → hand_out net now s min_size max_size runner owner params made busy_count rows free
        ≡ (ok (k, warm), rows')
      → Provides k warm rows'
  hand_out-Provides [] is_free k warm rows' e =
      let (allowed, (i, is_made, is_k, w, after)) = cold-facts k warm rows' e in
      subst (λ (b : Bool). Provides k b rows') (sym w)
        (λ b m f g. subst (In b) is_free (listed-free b m f g), allowed, (i, is_made, is_k), after)
  hand_out-Provides (a ∷ free) is_free k warm rows' e =
      let (is_k, w, after) = warm-facts a k warm rows' e in
      let (here, fit, ready) = free-facts a (subst (In a) (sym is_free) (inl refl)) in
      let least = subst IsLeast is_free (sort-IsLeast (buckets_of listed).free) in
      subst (λ (b : Bool). Provides k b rows') (sym w)
        (
          a,
          here,
          fit,
          ready,
          λ b m f g. least b (subst (In b) is_free (listed-free b m f g)),
          is_k,
          rw is_k after,
        )

  -- A request that succeeds gets the free instance that started first, of those of the pool that the
  -- query selects: it is tagged with the owner and in use, and has a new start if it was hibernated;
  -- nothing else has changed. Or there was no such instance, and the strategy allowed one more: then it
  -- gets the one that the provider has made, which is in use and is added to the table.
  pub provision_from_pool-Provides :
      (k : Instance) (warm : Bool) (rows' : List Instance)
      → provision_from_pool net now s min_size max_size runner owner params made pool q rows
        ≡ (ok (k, warm), rows')
      → Provides k warm rows'
  unfolding provision_from_pool list_instances
  provision_from_pool-Provides k warm rows' e = elim (Bool-cases (net 0).down) [
    | inl t ↦ let e' = rw t at e in cc
    | inr f ↦ hand_out-Provides _ refl k warm rows' (rw f at e)
  ]
