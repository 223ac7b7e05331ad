-- ===== src/Jobs/Scaler/Up.antt =====
-- Scaler.scaleUp: the jobs that it adds.
use drone_runner_aws.Base.{
  ℕ, zero, suc, ◌+◌, String, List, [], ◌∷◌, ◌++◌, Bool, true, false, Option, some, All, All-append,
  ◌≡◌, refl, sym, ap, ap₂, if◌then◌else◌, ◌∙◌, length, length-append, append-nil, append_assoc,
}
use drone_runner_aws.Types.{OutboxJob, setup_params, pending, setup_instance, SetupInstanceParams}
use drone_runner_aws.Store.Instances.{Conn}
use drone_runner_aws.Store.Outbox.{Outbox, create_job, inserted}
use drone_runner_aws.Jobs.Scaler.{InstanceKey, up_params, setup_job, scale_up}

-- A pending job of any runner, which sets an instance up with the given parameters.
abbrev pub SetsUp : String → SetupInstanceParams → OutboxJob → Type 0
SetsUp pool p j =
    (j.pool_name ≡ pool)
    × (j.runner_name ≡ "")
    × (j.job_type ≡ setup_instance)
    × (j.job_params ≡ some (setup_params p))
    × (j.status ≡ pending)
    × (j.retry_count ≡ 0)

-- `after` has these jobs more than `before`.
abbrev pub Adds : String → SetupInstanceParams → List OutboxJob → Outbox → Outbox → Type 0
Adds pool p new before after = (after.jobs ≡ before.jobs ++ new) × All (SetsUp pool p) new

Adds-trans :
    (pool : String) (p : SetupInstanceParams) (xs ys : List OutboxJob) (a b c : Outbox)
    → Adds pool p xs a b
    → Adds pool p ys b c
    → Adds pool p (xs ++ ys) a c
Adds-trans pool p xs ys a b c (e, h) (f, k) =
    (f ∙ ap (λ r. r ++ ys) e ∙ append_assoc a.jobs xs ys, All-append _ xs ys h k)

create_setup :
    (c : Conn) (pool : String) (p : SetupInstanceParams) (o : Outbox)
    → (new : List OutboxJob) × Adds pool p new o (create_job c (setup_job pool p) o).1
      × (length new ≡ (if c.down then 0 else 1))
unfolding create_job
create_setup c pool p o = go c.down refl
  where
    go :
        (b : Bool)
        → c.down ≡ b
        → (new : List OutboxJob) × Adds pool p new o (create_job c (setup_job pool p) o).1
          × (length new ≡ (if c.down then 0 else 1))
    go true e = ([], (rw e (sym (append-nil o.jobs)), tt), rw e refl)
    go false e = (
      inserted c (setup_job pool p) o.next_id ∷ [],
      (rw e refl, ((refl, refl, refl, refl, refl, refl), tt)),
      rw e refl,
    )

-- How many of the first `n` calls go through.
abbrev pub succeeded : (ℕ → Conn) → ℕ → ℕ
succeeded net zero = 0
succeeded net (suc n) = (if (net 0).down then 0 else 1) + succeeded (λ i. net (suc i)) n

-- As many jobs are added as calls of the `count` ones go through, each of which sets an instance up
-- with the same parameters; what was in the outbox stays.
pub scale_up-Adds :
    (net : ℕ → Conn) (pool : String) (k : InstanceKey) (params : Option SetupInstanceParams)
    (count : ℕ) (hibernate : Bool) (o : Outbox)
    → (new : List OutboxJob) × Adds pool
        (up_params k params hibernate)
        new
        o
        (scale_up net pool k params count hibernate o)
      × (length new ≡ succeeded net count)
unfolding scale_up
scale_up-Adds net pool k params zero hibernate o = ([], (sym (append-nil o.jobs), tt), refl)
scale_up-Adds net pool k params (suc count) hibernate o =
    let p = up_params k params hibernate in
    let middle = (create_job (net 0) (setup_job pool p) o).1 in
    let (x, a, l) = create_setup (net 0) pool p o in
    let (y, b, l') = scale_up-Adds (λ n. net (suc n)) pool k params count hibernate middle in
    (
      x ++ y,
      Adds-trans pool p x y o middle
          (scale_up (λ n. net (suc n)) pool k params count hibernate middle) a b,
      length-append x y ∙ ap₂ (λ (m n : ℕ). m + n) l l',
    )
