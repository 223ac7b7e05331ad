-- ===== src/Drivers/Manager/Sorted.antt =====
-- list: which instances stand in which list.
use drone_runner_aws.Base.{
  List, [], ◌∷◌, true, In, ◌≡◌, refl, sym, ap, subst, ◌∙◌, inl, inr, Bool-cases, if◌then◌else◌,
}
use drone_runner_aws.Types.{
  Instance, InstanceState, created, in_use, hibernating, provisioning, terminating, same_state,
}
use drone_runner_aws.Drivers.Manager.{Buckets, put_in, buckets_of}

abbrev pub bucket_of : InstanceState → Buckets → List Instance
bucket_of in_use b = b.busy
bucket_of created b = b.free
bucket_of hibernating b = b.hibernating_rows
bucket_of provisioning b = b.provisioning_rows
bucket_of terminating b = b.terminating_rows

same_state-eq : (s t : InstanceState) → same_state s t ≡ true → s ≡ t
same_state-eq created created e = refl
same_state-eq in_use in_use e = refl
same_state-eq hibernating hibernating e = refl
same_state-eq provisioning provisioning e = refl
same_state-eq terminating terminating e = refl
same_state-eq s t e = cc

same_state_refl : (s : InstanceState) → same_state s s ≡ true
same_state_refl created = refl
same_state_refl in_use = refl
same_state_refl hibernating = refl
same_state_refl provisioning = refl
same_state_refl terminating = refl

put_in-bucket :
    (x : Instance) (b : Buckets) (s t : InstanceState)
    → bucket_of t (put_in x s b) ≡ (if same_state s t then x ∷ bucket_of t b else bucket_of t b)
put_in-bucket x b created created = refl
put_in-bucket x b in_use in_use = refl
put_in-bucket x b hibernating hibernating = refl
put_in-bucket x b provisioning provisioning = refl
put_in-bucket x b terminating terminating = refl
put_in-bucket x b s t = refl

pub bucket-In :
    (t : InstanceState) (rows : List Instance) (i : Instance)
    → In i (bucket_of t (buckets_of rows))
    → In i rows × (i.state ≡ t)
unfolding buckets_of
bucket-In created [] i m = absurd m
bucket-In in_use [] i m = absurd m
bucket-In hibernating [] i m = absurd m
bucket-In provisioning [] i m = absurd m
bucket-In terminating [] i m = absurd m
bucket-In t (x ∷ rows) i m = elim (Bool-cases (same_state x.state t)) [
  | inl e ↦ here e (bucket-In t rows i) (
      subst (In i) {y = x ∷ bucket_of t (buckets_of rows)}
        (put_in-bucket x (buckets_of rows) x.state t ∙ rw e refl) m)
  | inr f ↦
      let (n, q) = bucket-In t rows i (
        subst (In i) {y = bucket_of t (buckets_of rows)}
          (put_in-bucket x (buckets_of rows) x.state t ∙ rw f refl) m) in
      (inr n, q)
]
  where
    here :
        same_state x.state t ≡ true
        → (In i (bucket_of t (buckets_of rows)) → In i rows × (i.state ≡ t))
        → In i (x ∷ bucket_of t (buckets_of rows))
        → In i (x ∷ rows) × (i.state ≡ t)
    here e rest (inl q) = (inl q, ap (λ (y : Instance). y.state) q ∙ same_state-eq x.state t e)
    here e rest (inr n) = let (k, q) = rest n in (inr k, q)

pub In-bucket :
    (rows : List Instance) (i : Instance) → In i rows → In i (bucket_of i.state (buckets_of rows))
unfolding buckets_of
In-bucket [] i m = absurd m
In-bucket (x ∷ rows) i m =
    subst (In i) (sym (put_in-bucket x (buckets_of rows) x.state i.state)) (go (In-bucket rows i) m)
  where
    go :
        (In i rows → In i (bucket_of i.state (buckets_of rows)))
        → In i (x ∷ rows)
        → In i (
            if same_state x.state i.state
            then x ∷ bucket_of i.state (buckets_of rows)
            else bucket_of i.state (buckets_of rows))
    go rest (inl q) =
        let same : same_state x.state i.state ≡ true =
          subst (λ s. same_state s i.state ≡ true) (ap (λ (y : Instance). y.state) q)
            (same_state_refl i.state) in
        rw same (inl q)
    go rest (inr n) = elim (Bool-cases (same_state x.state i.state)) [
      | inl e ↦ rw e (inr (rest n))
      | inr f ↦ rw f (rest n)
    ]
