-- ===== src/Jobs/Tracker/Recorded.antt =====
-- UtilizationTrackerJob.Execute: what a run adds to the history of a kind of instances.
use drone_runner_aws.Base.{
  ℕ, suc, ◌+◌, String, List, [], ◌∷◌, ◌++◌, Bool, true, false, ◌&&◌, ◌≡◌, refl, inl, inr, arith,
  eq_iff, str_eq, keep, length, if◌then◌else◌, Bool-cases,
}
use drone_runner_aws.Types.{Instance, in_use, same_state, InstanceCount, UtilizationRecord}
use drone_runner_aws.Store.Instances.{Conn}
use drone_runner_aws.Store.History.{
  tenant_key, create_record, is_of, same_group, count_in, count_groups, count_grouped_instances,
}
use drone_runner_aws.Jobs.Tracker.{record_of, record_counts, track_utilization}

module _ (pool tenant variant image : String) where
  -- The usage that the records of the kind add up to.
  abbrev pub recorded : List UtilizationRecord → ℕ
  recorded [] = 0
  recorded (r ∷ rows) =
      (if is_of pool tenant variant image r then r.in_use_instances else 0) + recorded rows

  -- An instance of the kind; one without a tenant belongs to the default tenant.
  abbrev pub is_kind : Instance → Bool
  is_kind i =
      str_eq i.pool pool
      && str_eq (tenant_key i.tenant_id) tenant
      && str_eq i.variant_id variant
      && str_eq i.image image

  abbrev counts_kind : InstanceCount → Bool
  counts_kind n =
      str_eq n.pool pool
      && str_eq (tenant_key n.tenant_id) tenant
      && str_eq n.variant_id variant
      && str_eq n.image_name image

  abbrev total : List InstanceCount → ℕ
  total [] = 0
  total (n ∷ counts) = (if counts_kind n then n.count else 0) + total counts

  same_group-kind :
      (n : InstanceCount) (i : Instance) → same_group n i ≡ true → counts_kind n ≡ is_kind i
  same_group-kind n i e =
      let a : n.pool ≡ i.pool = ground (arith, eq_iff n.pool i.pool) in
      let b : n.tenant_id ≡ i.tenant_id = ground (arith, eq_iff n.tenant_id i.tenant_id) in
      let c : n.variant_id ≡ i.variant_id = ground (arith, eq_iff n.variant_id i.variant_id) in
      let d : n.image_name ≡ i.image = ground (arith, eq_iff n.image_name i.image) in
      rw (a, b, c, d) refl

  total-count_in :
      (i : Instance) (counts : List InstanceCount)
      → total (count_in i counts) ≡ total counts + (if is_kind i then 1 else 0)
  unfolding count_in
  total-count_in i [] = omega arith
  total-count_in i (n ∷ counts) = elim (Bool-cases (same_group n i)) [
    | inl t ↦ rw t (grow (same_group-kind n i t))
    | inr f ↦ rw f (omega (arith, total-count_in i counts))
  ]
    where
      grow :
          counts_kind n ≡ is_kind i
          → (if counts_kind n then suc n.count else 0) + total counts
            ≡ (if counts_kind n then n.count else 0) + total counts + (if is_kind i then 1 else 0)
      grow e = rw e (ground arith)

  total-count_groups :
      (rows : List Instance) → total (count_groups rows) ≡ length (keep is_kind rows)
  unfolding count_groups
  total-count_groups [] = refl
  total-count_groups (i ∷ rows) =
      ground (arith, total-count_in i (count_groups rows), total-count_groups rows)

  recorded-append :
      (rows more : List UtilizationRecord) → recorded (rows ++ more) ≡ recorded rows + recorded more
  recorded-append [] more = omega arith
  recorded-append (r ∷ rows) more = omega (arith, recorded-append rows more)

  recorded-counts :
      (net : ℕ → Conn) (now : ℕ) (counts : List InstanceCount) (rows : List UtilizationRecord)
      → ((n : ℕ) → (net n).down ≡ false)
      → recorded (record_counts net now counts rows) ≡ recorded rows + total counts
  unfolding record_counts create_record
  recorded-counts net now [] rows up = omega arith
  recorded-counts net now (n ∷ counts) rows up = rw (up 0) (
      omega (
        arith,
        recorded-counts (λ k. net (k + 1)) now counts
            (rows ++ record (record_of now n) { tenant_id = tenant_key n.tenant_id } ∷ [])
            (λ k. up (k + 1)),
        recorded-append rows (record (record_of now n) { tenant_id = tenant_key n.tenant_id } ∷ []),
      ))

  -- A run in which no call fails adds to the recorded usage of a kind the number of its instances that
  -- are in use.
  pub track_utilization-recorded :
      (net : ℕ → Conn) (now : ℕ) (instances : List Instance) (rows : List UtilizationRecord)
      → ((n : ℕ) → (net n).down ≡ false)
      → recorded (track_utilization net now instances rows).1
        ≡ recorded rows + length (keep is_kind (keep (λ i. same_state i.state in_use) instances))
  unfolding track_utilization count_grouped_instances
  track_utilization-recorded net now instances rows up = rw (up 0) (
      omega (
        arith,
        recorded-counts (λ n. net (n + 1)) now
            (count_groups (keep (λ i. same_state i.state in_use) instances)) rows (λ n. up (n + 1)),
        total-count_groups (keep (λ i. same_state i.state in_use) instances),
      ))
