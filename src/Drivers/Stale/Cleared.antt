-- ===== src/Drivers/Stale/Cleared.antt =====
-- cleanPool of a manager of its own pools: what a clean-up without an error has removed.
use drone_runner_aws.Base.{
  ℕ, ◌+◌, String, List, [], ◌∷◌, ◌++◌, Bool, true, false, In, In-left, In-right, In-keep, keep-In,
  ◌≡◌, ◌≢◌, refl, sym, ap, subst, ◌∙◌, inl, inr, arith, some, keep, Bool-cases, if◌then◌else◌,
  str_eq, eq_iff,
}
use drone_runner_aws.Base.Result.{Result, ok, err}
use drone_runner_aws.Types.{
  Instance, InstanceState, created, in_use, hibernating, provisioning, terminating, QueryParams,
}
use drone_runner_aws.Store.Instances.{
  StoreError, Conn, matches_list, list_instances, sort_by_started, delete_instance,
}
use drone_runner_aws.Store.Instances.Sorted.{In-sort}
use drone_runner_aws.Drivers.Tenants.{Pool}
use drone_runner_aws.Drivers.Driver.{Driver}
use drone_runner_aws.Drivers.Tenanted.{destroy_by_tenant}
use drone_runner_aws.Drivers.Purger.{ids_of}
use drone_runner_aws.Drivers.Manager.{buckets_of}
use drone_runner_aws.Drivers.Manager.Sorted.{bucket_of, In-bucket}
use drone_runner_aws.Drivers.Stale.{
  after_delete, delete_each, chosen, checked, clean_found, clean_pool,
}

abbrev Gone : String → List Instance → Type 0
Gone id rows = (j : Instance) → In j rows → j.id ≢ id

deleted-Gone :
    (c : Conn) (key : String) (rows rows' : List Instance)
    → delete_instance c key rows ≡ ok rows'
    → Gone key rows' × ((id : String) → Gone id rows → Gone id rows')
unfolding delete_instance
deleted-Gone c key rows rows' e = elim (Bool-cases c.down) [
  | inl t ↦ let e' = rw t at e in cc
  | inr f ↦
      let same : keep (λ (j : Instance). if str_eq j.id key then false else true) rows ≡ rows' =
        let e' = rw f at e in cc in
      rw (← same) (
        λ j m q.
            let kept =
              (In-keep (λ (j : Instance). if str_eq j.id key then false else true) j rows m).1 in
            ground (arith, eq_iff j.id key),
        λ id h j m.
            h j (In-keep (λ (j : Instance). if str_eq j.id key then false else true) j rows m).0,
      )
]

delete_each-Gone :
    (net : ℕ → Conn) (is rows rows' : List Instance)
    → delete_each net [] is rows ≡ (ok tt, rows')
    → ((id : String) → Gone id rows → Gone id rows') × ((i : Instance) → In i is → Gone i.id rows')
unfolding delete_each
delete_each-Gone net [] rows rows' e =
    let same : rows ≡ rows' = ap (λ a. a.1) e in ((λ id h. subst (Gone id) same h), λ i m. absurd m)
delete_each-Gone net (x ∷ is) rows rows' e =
    go (delete_instance (net 0) x.id rows) refl e
      (λ s. delete_each-Gone (λ n. net (n + 1)) is s rows')
  where
    go :
        (a : Result StoreError (List Instance))
        → delete_instance (net 0) x.id rows ≡ a
        → after_delete (delete_each (λ n. net (n + 1)) [] is) rows a ≡ (ok tt, rows')
        → ((s : List Instance)
            → delete_each (λ n. net (n + 1)) [] is s ≡ (ok tt, rows')
            → ((id : String) → Gone id s → Gone id rows')
              × ((i : Instance) → In i is → Gone i.id rows'))
        → ((id : String) → Gone id rows → Gone id rows')
          × ((i : Instance) → In i (x ∷ is) → Gone i.id rows')
    go (err y) d q rest = cc
    go (ok s) d q rest =
        let (own, stay) = deleted-Gone (net 0) x.id rows s d in
        let (on, all) = rest s q in
        (
          λ id h. on id (stay id h),
          λ i. elim [
            | inl r ↦
                subst (λ (k : String). Gone k rows') (ap (λ (y : Instance). y.id) (sym r))
                  (on x.id own)
            | inr m ↦ all i m
          ],
        )

-- Whether a clean-up is about a state.
abbrev pub is_cleaned : Bool → Bool → InstanceState → Bool
is_cleaned busy free in_use = busy
is_cleaned busy free terminating = busy
is_cleaned busy free created = free
is_cleaned busy free hibernating = free
is_cleaned busy free provisioning = free

module _ (net : ℕ → Conn) (order : List String → List String) (name : String)
    (p : Pool Driver) where
  In-chosen :
      (busy free : Bool) (l : List Instance) (i : Instance) (t : InstanceState)
      → is_cleaned busy free t ≡ true
      → In i (bucket_of t (buckets_of l))
      → In i (chosen net order name p busy free (buckets_of l))
  In-chosen busy free l i in_use e m = rw e (In-left _ _ i (In-left _ _ i m))
  In-chosen busy free l i terminating e m =
      rw e (In-left _ _ i (In-right (buckets_of l).busy _ i m))
  In-chosen busy free l i created e m =
      rw e (In-right (if busy then _ else []) _ i (In-left _ _ i (In-left _ _ i m)))
  In-chosen busy free l i hibernating e m =
      rw e
        (In-right (if busy then _ else []) _ i (In-left _ _ i (In-right (buckets_of l).free _ i m)))
  In-chosen busy free l i provisioning e m = rw e (
      In-right (if busy then _ else []) _ i
        (In-right ((buckets_of l).free ++ (buckets_of l).hibernating_rows) _ i m))

  clean_found-Gone :
      (is rows rows' : List Instance)
      → clean_found net order name p is rows ≡ (ok tt, rows')
      → (i : Instance) → In i is
      → Gone i.id rows'
  clean_found-Gone [] rows rows' e i m = absurd m
  clean_found-Gone (x ∷ is) rows rows' e i m = go (destroy_by_tenant order p (x ∷ is)).0 e
    where
      go :
          (left : List Instance)
          → checked net order name p left
              (delete_each (λ n. net (n + 1)) (ids_of left) (x ∷ is) rows)
            ≡ (ok tt, rows')
          → Gone i.id rows'
      go left q = last left (delete_each (λ n. net (n + 1)) (ids_of left) (x ∷ is) rows) refl q
        where
          last :
              (left : List Instance) (a : Result StoreError (Unit {0}) × List Instance)
              → delete_each (λ n. net (n + 1)) (ids_of left) (x ∷ is) rows ≡ a
              → checked net order name p left a ≡ (ok tt, rows')
              → Gone i.id rows'
          last left (err y, s) d r = cc
          last (y ∷ left) (ok u, s) d r = cc
          last [] (ok u, s) d r =
              (delete_each-Gone (λ n. net (n + 1)) (x ∷ is) rows rows'
                  (d ∙ ap (λ t. (ok u, t)) (ap (λ b. b.1) r))).1
                i m

  -- If a clean-up ends without an error, no row is left with the id of an instance of the pool that its
  -- query selects and that is in a state to be cleaned.
  pub clean_pool-Gone :
      (q : QueryParams) (busy free : Bool) (rows rows' : List Instance)
      → clean_pool net order name p q busy free rows ≡ (ok tt, rows')
      → (i : Instance) → In i rows
      → matches_list name (some q) i ≡ true
      → is_cleaned busy free i.state ≡ true
      → (j : Instance) → In j rows'
      → j.id ≢ i.id
  unfolding clean_pool list_instances
  clean_pool-Gone q busy free rows rows' e i m fit wanted = elim (Bool-cases (net 0).down) [
    | inl t ↦ let e' = rw t at e in cc
    | inr f ↦
        clean_found-Gone (chosen net order name p busy free (buckets_of listed)) rows rows'
          (rw f at e) i
          (In-chosen busy free listed i i.state wanted
            (In-bucket listed i (In-sort _ i (keep-In (matches_list name (some q)) i rows m fit))))
  ]
    where
      listed : List Instance
      listed = sort_by_started (keep (matches_list name (some q)) rows)
