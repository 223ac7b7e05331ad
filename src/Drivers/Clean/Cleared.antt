-- ===== src/Drivers/Clean/Cleared.antt =====
-- cleanPool: a clean-up without failures leaves none of the instances that it is for.
use drone_runner_aws.Base.{
  ℕ, ◌+◌, ◌<◌, String, List, [], ◌∷◌, Bool, true, false, not, ◌&&◌, In, In-keep, ◌≡◌, ◌≢◌, refl, ap,
  inl, inr, Bool-cases, Option-cases, arith, str_eq, Option, none, some, keep, length, is_empty,
  mem_text, if◌then◌else◌,
}
use drone_runner_aws.Base.Text.{lookup}
use drone_runner_aws.Base.Result.{Result, ok, err}
use drone_runner_aws.Types.{
  Instance, InstanceState, terminating, mem_state, QueryParams, CapacityReservation,
}
use drone_runner_aws.Store.Instances.{
  StoreError, Conn, matches_claim, delete_instance, find_instance,
}
use drone_runner_aws.Store.Capacity.{find_capacity}
use drone_runner_aws.Drivers.Tenants.{Pool, driver_for_tenant}
use drone_runner_aws.Drivers.Driver.{
  Driver, Pools, destroy_instance, destroy_found, destroy_answer, destroy_in, or_rows,
}
use drone_runner_aws.Drivers.Tenanted.{destroy_by_tenant}
use drone_runner_aws.Drivers.Purger.{ids_of, destroyed_by, delete_destroyed}
use drone_runner_aws.Drivers.Capacity.{marked, World, destroy_capacity, destroy_capacities_of}
use drone_runner_aws.Drivers.Clean.{
  Cleaned, claim_all, cleaned_states, release, destroy_claimed, clean_pool,
}
use drone_runner_aws.Drivers.Clean.Claims.{claim_all-total, claim_all-covers, claim_all-no_error}

-- The second table has no row that the first has not.
abbrev Within : List Instance → List Instance → Type 0
Within rows rows' = (i : Instance) → In i rows' → In i rows

delete_instance-Within :
    (c : Conn) (key : String) (rows : List Instance)
    → Within rows (or_rows rows (delete_instance c key rows))
unfolding delete_instance
delete_instance-Within c key rows i m = elim (Bool-cases c.down) [
  | inl t ↦ rw t at m
  | inr f ↦
      (In-keep (λ (j : Instance). if str_eq j.id key then false else true) i rows (rw f at m)).0
]

destroy_found-Within :
    (c : Conn) (p : Pool Driver) (x : Instance) (rows : List Instance)
    → Within rows (destroy_found c p x rows).1
destroy_found-Within c p x rows i m =
    let (left, done) = (driver_for_tenant p x.tenant_id).destroy_instance_and_storage (x ∷ []) in
    elim (Bool-cases (not done)) [
      | inl t ↦ rw t at m
      | inr f ↦ elim (Bool-cases (not (is_empty left))) [
        | inl t ↦ rw (f, t) at m
        | inr g ↦ delete_instance-Within c x.id rows i (rw (f, g) at m)
      ]
    ]

destroy_instance-Within :
    (net : ℕ → Conn) (pools : Pools) (pool id : String) (rows : List Instance)
    → Within rows (destroy_instance net pools pool id none rows).1
unfolding destroy_instance
destroy_instance-Within net pools pool id rows i = within (lookup pool pools)
  where
    answer :
        (p : Pool Driver) (a : Result StoreError Instance)
        → In i (destroy_answer (net 1) p rows a).1
        → In i rows
    answer p (err x) n = n
    answer p (ok x) n = destroy_found-Within (net 1) p x rows i n

    within : (o : Option (Pool Driver)) → In i (destroy_in net o id none rows).1 → In i rows
    within none n = n
    within (some p) n = answer p (find_instance (net 0) id rows) n

destroy_capacity-Within :
    (net : ℕ → Conn) (pools : Pools) (r : CapacityReservation) (w : World)
    → Within w.instances (destroy_capacity net pools r w).1.instances
unfolding destroy_capacity
destroy_capacity-Within net pools r w i m = elim (Bool-cases (str_eq r.pool_name "")) [
  | inl t ↦ rw t at m
  | inr f ↦ elim (Option-cases (lookup r.pool_name pools)) [
    | inl n ↦ rw (f, n) at m
    | inr (p, e) ↦
        elim (Bool-cases (
          not (str_eq r.reservation_id "")
          && not (p.driver.destroy_capacity (marked (net 0) r w.capacities)))) [
            | inl t ↦ kept (str_eq r.instance_id "") (rw (f, e, t) at m)
            | inr g ↦ kept (str_eq r.instance_id "") (rw (f, e, g) at m)
          ]
  ]
]
  where
    kept :
        (b : Bool)
        → In i (
            if b
            then w.instances
            else (destroy_instance
                (λ n. net (n + 1))
                pools
                r.pool_name
                r.instance_id
                none
                w.instances).1)
        → In i w.instances
    kept true n = n
    kept false n =
        destroy_instance-Within (λ k. net (k + 1)) pools r.pool_name r.instance_id w.instances i n

destroy_capacities_of-Within :
    (net : ℕ → Conn) (pools : Pools) (is : List Instance) (w : World)
    → Within w.instances (destroy_capacities_of net pools is w).instances
unfolding destroy_capacities_of
destroy_capacities_of-Within net pools [] w i m = m
destroy_capacities_of-Within net pools (x ∷ is) w i m =
    one (str_eq x.stage "") (find_capacity (net 4) x.stage w.capacities)
      (destroy_capacities_of-Within (λ n. net (n + 5)) pools is _ i m)
  where
    one :
        (b : Bool) (a : Result StoreError CapacityReservation)
        → In i
            (if b
              then w
              else elim a [ ok r ↦ (destroy_capacity net pools r w).1 | err e ↦ w ]).instances
        → In i w.instances
    one true a n = n
    one false (err e) n = n
    one false (ok r) n = destroy_capacity-Within net pools r w i n

abbrev Gone : String → List Instance → Type 0
Gone id rows = (i : Instance) → In i rows → i.id ≢ id

delete_destroyed-Gone :
    (c : Conn) (destroyed rows : List Instance) (id : String)
    → c.down ≡ false
    → mem_text id (ids_of destroyed) ≡ true
    → Gone id (delete_destroyed c destroyed rows).1
unfolding delete_destroyed
delete_destroyed-Gone c [] rows id up e i m q = cc
delete_destroyed-Gone c (x ∷ destroyed) rows id up e i m q =
    let n : In i (keep (λ (j : Instance). not (mem_text j.id (ids_of (x ∷ destroyed)))) rows) =
      rw up at m in
    let t = (In-keep (λ (j : Instance). not (mem_text j.id (ids_of (x ∷ destroyed)))) i rows n).1 in
    ground (arith, q)

cleaned_states-facts :
    (busy free : Bool)
    → (not busy && not free) ≡ false
    → (is_empty (cleaned_states busy free) ≡ false)
      × (mem_state terminating (cleaned_states busy free) ≡ false)
cleaned_states-facts true true e = (refl, refl)
cleaned_states-facts true false e = (refl, refl)
cleaned_states-facts false true e = (refl, refl)
cleaned_states-facts false false e = cc

module _ (later : ℕ → Conn) (order : List String → List String) (pools : Pools) (p : Pool Driver)
    (w : World) (up : (n : ℕ) → (later n).down ≡ false)
    (refuses_none : (is : List Instance) → (destroy_by_tenant order p is).0 ≡ []) where
  abbrev Clears : List Instance → Option Cleaned → Type 0
  Clears is answer =
      (w' : World) × (answer ≡ some (ok tt, w'))
      × ((id : String) → mem_text id (ids_of is) ≡ true → Gone id w'.instances)

  all_destroyed :
      (is : List Instance)
      → destroyed_by (λ claimed. ids_of (destroy_by_tenant order p claimed).0) is ≡ is
  all_destroyed is = rw (refuses_none is) (keep_all is)
    where
      keep_all : (xs : List Instance) → keep (λ i. not (mem_text i.id (ids_of []))) xs ≡ xs
      keep_all [] = refl
      keep_all (x ∷ xs) = ap (◌∷◌ x) (keep_all xs)

  release-Clears :
      (is rows : List Instance) (answer : Result StoreError (List Instance) × List Instance)
      → ((x : StoreError) → answer.0 ≢ err x)
      → ((id : String) → mem_text id (ids_of is) ≡ true → Gone id answer.1)
      → Clears is (some (release (λ n. later (n + 1)) pools is w answer))
  release-Clears is rows (err x, rows') fine gone = absurd (fine x refl)
  release-Clears is rows (ok _, rows') fine gone = (
    destroy_capacities_of (λ n. later (n + 1)) pools is (record w { instances = rows' }),
    refl,
    λ id m i n. gone id m i (
        destroy_capacities_of-Within (λ k. later (k + 1)) pools is (record w { instances = rows' })
          i n),
  )

  delete_destroyed-ok :
      (is rows : List Instance) (x : StoreError) → (delete_destroyed (later 0) is rows).0 ≢ err x
  unfolding delete_destroyed
  delete_destroyed-ok [] rows x e = cc
  delete_destroyed-ok (i ∷ is) rows x e = let e' = rw (up 0) at e in cc

  destroy_claimed-Clears :
      (is rows : List Instance)
      → Clears is (destroy_claimed later order pools p w (some (ok is, rows)))
  destroy_claimed-Clears [] rows = (record w { instances = rows }, refl, λ id m. cc)
  destroy_claimed-Clears (i ∷ is) rows = rw (all_destroyed (i ∷ is)) (
      release-Clears (i ∷ is) rows (delete_destroyed (later 0) (i ∷ is) rows)
        (delete_destroyed-ok (i ∷ is) rows)
        (λ id m. delete_destroyed-Gone (later 0) (i ∷ is) rows id (up 0) m))

-- A clean-up of a pool ends with no error and leaves no row with the id of an instance that its query and
-- states select, whatever its labels say, if no call fails, no row is locked, and the drivers leave
-- none of the instances. It takes at most one claim more than there are such instances.
pub clean_pool-clears :
    (fuel : ℕ) (net later : ℕ → Conn) (order : List String → List String) (pools : Pools)
    (name : String) (p : Pool Driver) (q : QueryParams) (busy free : Bool) (w : World)
    → (not busy && not free) ≡ false
    → length (
        keep (matches_claim (record q { pool_name = name }) (cleaned_states busy free)) w.instances)
      < fuel
    → ((n : ℕ) → (net n).down ≡ false)
    → ((n : ℕ) (key : String) → (net n).locked key ≡ false)
    → ((n : ℕ) → (later n).down ≡ false)
    → ((is : List Instance) → (destroy_by_tenant order p is).0 ≡ [])
    → (w' : World) × (clean_pool fuel net later order pools name p q busy free w ≡ some (ok tt, w'))
      × ((i : Instance)
          → In i w.instances
          → matches_claim (record q { pool_name = name }) (cleaned_states busy free) i ≡ true
          → (j : Instance) → In j w'.instances
          → j.id ≢ i.id)
unfolding clean_pool
clean_pool-clears fuel net later order pools name p q busy free w some_states enough up open_rows
      up' refuses_none =
    go claimed.0 claimed.1
  where
    named : QueryParams
    named = record q { pool_name = name }

    states : List InstanceState
    states = cleaned_states busy free

    facts : (is_empty states ≡ false) × (mem_state terminating states ≡ false)
    facts = cleaned_states-facts busy free some_states

    claimed :
        (out : Result StoreError (List Instance) × List Instance) × (claim_all fuel net named states
            w.instances
          ≡ some out)
    claimed = claim_all-total named states facts.0 facts.1 fuel net w.instances enough

    go :
        (out : Result StoreError (List Instance) × List Instance)
        → claim_all fuel net named states w.instances ≡ some out
        → (w' : World) × (clean_pool fuel net later order pools name p q busy free w
            ≡ some (ok tt, w'))
          × ((i : Instance)
              → In i w.instances
              → matches_claim named states i ≡ true
              → (j : Instance) → In j w'.instances
              → j.id ≢ i.id)
    go (err x, rows) e =
        absurd (claim_all-no_error named states facts.0 facts.1 fuel net w.instances rows x up e)
    go (ok is, rows) e =
        let (w', done, gone) =
          destroy_claimed-Clears later order pools p w up' refuses_none is rows in
        (
          w',
          rw (some_states, e) done,
          λ i m fit. gone i.id (
              claim_all-covers named states facts.0 facts.1 fuel net w.instances is rows up
                open_rows e i m fit),
        )
