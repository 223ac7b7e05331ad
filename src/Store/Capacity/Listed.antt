-- ===== src/Store/Capacity/Listed.antt =====
-- What the queries for reservations answer, and tables in which a stage has one row.
use drone_runner_aws.Base.{
  take, In-take, take-all, ℕ, ◌<◌, ◌≤◌, length, String, List, [], ◌∷◌, Bool, true, false, In,
  In-keep, ◌≡◌, ◌≢◌, refl, subst, sym, ap, ◌∙◌, inl, inr, arith, keep, eq_iff, Distinct, All, map,
  Option, some, if◌then◌else◌,
}
use drone_runner_aws.Base.Result.{ok, err}
use drone_runner_aws.Types.{
  CapacityReservation, CapacityState, CapacityQuery, created, in_use, terminating,
  same_capacity_state,
}
use drone_runner_aws.Store.Instances.{failed, Conn}
use drone_runner_aws.Store.Capacity.{matches_capacity, list_capacities, limit_of}
use drone_runner_aws.Store.Capacity.Evolves.{Evolves, done, same, ended, gone, Evolves-In}

abbrev pub stage_ids : List CapacityReservation → List String
stage_ids = map (λ r. r.stage_id)

pub same_capacity_state-eq : (s t : CapacityState) → same_capacity_state s t ≡ true → s ≡ t
same_capacity_state-eq created created e = refl
same_capacity_state-eq in_use in_use e = refl
same_capacity_state-eq terminating terminating e = refl
same_capacity_state-eq created in_use e = cc
same_capacity_state-eq created terminating e = cc
same_capacity_state-eq in_use created e = cc
same_capacity_state-eq in_use terminating e = cc
same_capacity_state-eq terminating created e = cc
same_capacity_state-eq terminating in_use e = cc

same_capacity_state_refl : (s : CapacityState) → same_capacity_state s s ≡ true
same_capacity_state_refl created = refl
same_capacity_state_refl in_use = refl
same_capacity_state_refl terminating = refl

-- A row that passes a query for one state, in a pool and before a time.
pub older-facts :
    (pool : String) (before : ℕ) (s : CapacityState) (r : CapacityReservation)
    → pool ≢ ""
    → 0 < before
    → matches_capacity
        (some (record { stage_id = ""; pool_name = pool; created_at_before = before; limit = 0 }))
        (s ∷ [])
        r
      ≡ true
    → (r.pool_name ≡ pool) × (r.created_at < before) × (r.state ≡ s)
unfolding matches_capacity
older-facts pool before s r ne p e =
    ground (arith, eq_iff pool "", eq_iff r.pool_name pool, same_capacity_state-eq r.state s)

-- A row that passes a query for one stage.
pub stage-facts :
    (stage : String) (states : List CapacityState) (r : CapacityReservation)
    → stage ≢ ""
    → matches_capacity
        (some (record { stage_id = stage; pool_name = ""; created_at_before = 0; limit = 1 }))
        states
        r
      ≡ true
    → r.stage_id ≡ stage
unfolding matches_capacity
stage-facts stage states r ne e = ground (arith, eq_iff stage "", eq_iff r.stage_id stage)

-- What is listed is in the table and passes.
pub list-In :
    (c : Conn) (q : Option CapacityQuery) (states : List CapacityState)
    (rows rs : List CapacityReservation) (r : CapacityReservation)
    → list_capacities c q states rows ≡ ok rs
    → In r rs
    → In r rows × (matches_capacity q states r ≡ true)
unfolding list_capacities
list-In c q states rows rs r e m = In-keep (matches_capacity q states) r rows (
    In-take (limit_of q rows) (keep (matches_capacity q states) rows) r
      (subst (In r) (listed c.down e) m))
  where
    listed :
        (b : Bool)
        → (if b
            then err failed
            else ok (take (limit_of q rows) (keep (matches_capacity q states) rows)))
          ≡ ok rs
        → rs ≡ take (limit_of q rows) (keep (matches_capacity q states) rows)
    listed true h = cc
    listed false h = cc

All-ne_eq : {s s' : String} (xs : List String) → s' ≡ s → All (λ t. s ≢ t) xs → All (λ t. s' ≢ t) xs
All-ne_eq xs e h = rw e h

module _ {Due : CapacityReservation → Type 0} where
  -- The columns that nothing changes.
  pub origin :
      {a b : List CapacityReservation}
      → Evolves Due a b
      → (r : CapacityReservation) → In r b
      → (s : CapacityReservation) × In s a
        × (r.stage_id ≡ s.stage_id)
        × (r.pool_name ≡ s.pool_name)
        × (r.created_at ≡ s.created_at)
  origin e r m = elim (Evolves-In e r m) [
    | inl n ↦ (r, n, refl, refl, refl)
    | inr (s, n, q) ↦ (
      s,
      n,
      ap (λ (x : CapacityReservation). x.stage_id) q,
      ap (λ (x : CapacityReservation). x.pool_name) q,
      ap (λ (x : CapacityReservation). x.created_at) q,
    )
  ]

  All-ne :
      (s : String) {a b : List CapacityReservation}
      → Evolves Due a b
      → All (λ t. s ≢ t) (stage_ids a)
      → All (λ t. s ≢ t) (stage_ids b)
  All-ne s done h = tt
  All-ne s (same r e) h = (h.0, All-ne s e h.1)
  All-ne s (ended r r' q d e) h =
      (λ p. h.0 (p ∙ ap (λ (x : CapacityReservation). x.stage_id) q), All-ne s e h.1)
  All-ne s (gone r d e) h = All-ne s e h.1

  pub Evolves-Distinct :
      {a b : List CapacityReservation}
      → Evolves Due a b
      → Distinct (stage_ids a)
      → Distinct (stage_ids b)
  Evolves-Distinct done h = tt
  Evolves-Distinct (same r e) h = (All-ne r.stage_id e h.0, Evolves-Distinct e h.1)
  Evolves-Distinct (ended r r' q d e) h = (
    All-ne_eq _ (ap (λ (x : CapacityReservation). x.stage_id) q) (All-ne r.stage_id e h.0),
    Evolves-Distinct e h.1,
  )
  Evolves-Distinct (gone r d e) h = Evolves-Distinct e h.1

other_stage :
    (x : CapacityReservation) (rows : List CapacityReservation) (y : CapacityReservation)
    → In y rows
    → All (λ s. x.stage_id ≢ s) (stage_ids rows)
    → x.stage_id ≢ y.stage_id
other_stage x [] y m a e = absurd m
other_stage x (z ∷ rows) y (inl q) a e = a.0 (e ∙ ap (λ (w : CapacityReservation). w.stage_id) q)
other_stage x (z ∷ rows) y (inr m) a e = other_stage x rows y m a.1 e

-- Rows of one stage are one row.
pub stages_unique :
    (rows : List CapacityReservation) (i j : CapacityReservation)
    → Distinct (stage_ids rows)
    → In i rows
    → In j rows
    → i.stage_id ≡ j.stage_id
    → i ≡ j
stages_unique [] i j d m n e = absurd m
stages_unique (x ∷ rows) i j d (inl p) (inl q) e = p ∙ sym q
stages_unique (x ∷ rows) i j d (inl p) (inr n) e =
    absurd (other_stage x rows j n d.0 (ap (λ (y : CapacityReservation). y.stage_id) (sym p) ∙ e))
stages_unique (x ∷ rows) i j d (inr m) (inl q) e =
    absurd
      (other_stage x rows i m d.0 (ap (λ (y : CapacityReservation). y.stage_id) (sym q) ∙ sym e))
stages_unique (x ∷ rows) i j d (inr m) (inr n) e = stages_unique rows i j d.1 m n e

length-keep : {A : Type 0} (p : A → Bool) (xs : List A) → length (keep p xs) ≤ length xs
length-keep p [] = omega arith
length-keep p (x ∷ xs) = ground (arith, length-keep p xs)

-- A query without a limit answers all rows that match.
pub list-all :
    (c : Conn) (pool : String) (before : ℕ) (states : List CapacityState)
    (rows : List CapacityReservation)
    → c.down ≡ false
    → let q : Option CapacityQuery =
        some (record { stage_id = ""; pool_name = pool; created_at_before = before; limit = 0 }) in
      list_capacities c q states rows ≡ ok (keep (matches_capacity q states) rows)
unfolding list_capacities
list-all c pool before states rows up =
    let q : Option CapacityQuery =
      some (record { stage_id = ""; pool_name = pool; created_at_before = before; limit = 0 }) in
    rw up (
      ap ok (
        take-all (length rows) (keep (matches_capacity q states) rows)
          (length-keep (matches_capacity q states) rows)))

-- The converse of `older-facts`.
pub older-matches :
    (pool : String) (before : ℕ) (s : CapacityState) (r : CapacityReservation)
    → r.pool_name ≡ pool
    → r.created_at < before
    → r.state ≡ s
    → matches_capacity
        (some (record { stage_id = ""; pool_name = pool; created_at_before = before; limit = 0 }))
        (s ∷ [])
        r
      ≡ true
unfolding matches_capacity
older-matches pool before s r p q e =
    ground (arith, eq_iff r.pool_name pool, same_capacity_state_refl s, eq_iff "" "")
