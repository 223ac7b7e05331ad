-- ===== src/Store/Outbox/Table.antt =====
-- The rows of the outbox: their ids, and the scale jobs among them.
use drone_runner_aws.Base.{
  ℕ, suc, ◌≤◌, List, [], ◌∷◌, ◌++◌, Bool, true, false, Option, none, some, All, All-keep,
  All-append, ◌≡◌, refl, ap, ◌∙◌, arith, keep, if◌then◌else◌, str_eq, eq_iff, ◌||◌, ◌&&◌,
}
use drone_runner_aws.Types.{OutboxJob, scale}
use drone_runner_aws.Store.Outbox.{Outbox, clashes_at, window_of, same_job_type, is_window}

-- Ids from `lo` on, growing, and below `hi`.
abbrev pub Ascending : ℕ → List OutboxJob → ℕ → Type 0
Ascending lo [] hi = lo ≤ hi
Ascending lo (j ∷ jobs) hi = (lo ≤ j.id) × Ascending (suc j.id) jobs hi

-- Two jobs that the unique index would refuse beside one another.
abbrev pub is_same_window : OutboxJob → OutboxJob → Bool
is_same_window j k = clashes_at (window_of j.job_params) j (k ∷ [])

abbrev pub OneEach : List OutboxJob → Type 0
OneEach [] = Unit
OneEach (j ∷ jobs) = All (λ k. is_same_window j k ≡ false) jobs × OneEach jobs

pub record Inv (o : Outbox) : Type 0 where
  pub ids : Ascending 0 o.jobs o.next_id
  pub windows : OneEach o.jobs

Ascending-weaken :
    (lo lo' : ℕ) (jobs : List OutboxJob) (hi : ℕ)
    → lo ≤ lo'
    → Ascending lo' jobs hi
    → Ascending lo jobs hi
Ascending-weaken lo lo' [] hi h a = omega arith
Ascending-weaken lo lo' (j ∷ jobs) hi h a = (omega arith, a.1)

pub Ascending-append :
    (lo : ℕ) (jobs : List OutboxJob) (hi : ℕ) (j : OutboxJob)
    → j.id ≡ hi
    → Ascending lo jobs hi
    → Ascending lo (jobs ++ j ∷ []) (suc hi)
Ascending-append lo [] hi j e a = (omega arith, omega arith)
Ascending-append lo (k ∷ jobs) hi j e a = (a.0, Ascending-append (suc k.id) jobs hi j e a.1)

pub Ascending-keep :
    (p : OutboxJob → Bool) (lo : ℕ) (jobs : List OutboxJob) (hi : ℕ)
    → Ascending lo jobs hi
    → Ascending lo (keep p jobs) hi
Ascending-keep p lo [] hi a = a
Ascending-keep p lo (j ∷ jobs) hi a = go (p j) (Ascending-keep p (suc j.id) jobs hi a.1)
  where
    go :
        (b : Bool)
        → Ascending (suc j.id) (keep p jobs) hi
        → Ascending lo (if b then j ∷ keep p jobs else keep p jobs) hi
    go true r = (a.0, r)
    go false r = Ascending-weaken lo (suc j.id) (keep p jobs) hi (omega arith) r

pub OneEach-keep :
    (p : OutboxJob → Bool) (jobs : List OutboxJob) → OneEach jobs → OneEach (keep p jobs)
OneEach-keep p [] w = tt
OneEach-keep p (j ∷ jobs) w = go (p j) (OneEach-keep p jobs w.1)
  where
    go : (b : Bool) → OneEach (keep p jobs) → OneEach (if b then j ∷ keep p jobs else keep p jobs)
    go true r = (All-keep _ p jobs w.0, r)
    go false r = r

-- What the unique index reads of a row.
abbrev SameKey : OutboxJob → OutboxJob → Type 0
SameKey j k =
    (k.pool_name ≡ j.pool_name) × (k.job_type ≡ j.job_type) × (k.job_params ≡ j.job_params)

-- A row that was changed in place keeps its id, pool, type and parameters.
abbrev pub Same : OutboxJob → OutboxJob → Type 0
Same j k = (k.id ≡ j.id) × (SameKey j k)

abbrev pub Alike : List OutboxJob → List OutboxJob → Type 0
Alike [] [] = Unit
Alike (j ∷ jobs) (k ∷ jobs') = Same j k × Alike jobs jobs'
Alike _ _ = ⊥

pub Alike-refl : (jobs : List OutboxJob) → Alike jobs jobs
Alike-refl [] = tt
Alike-refl (j ∷ jobs) = ((refl, (refl, refl, refl)), Alike-refl jobs)

pub Ascending-Alike :
    (lo : ℕ) (jobs jobs' : List OutboxJob) (hi : ℕ)
    → Alike jobs jobs'
    → Ascending lo jobs hi
    → Ascending lo jobs' hi
Ascending-Alike lo [] [] hi s a = a
Ascending-Alike lo [] (k ∷ jobs') hi s a = absurd s
Ascending-Alike lo (j ∷ jobs) [] hi s a = absurd s
Ascending-Alike lo (j ∷ jobs) (k ∷ jobs') hi (e, s) a = (
  omega (arith, e.0),
  Ascending-weaken (suc k.id) (suc j.id) jobs' hi (omega (arith, e.0))
      (Ascending-Alike (suc j.id) jobs jobs' hi s a.1),
)

pub clashes_at-Same :
    (o : Option ℕ) (j j' k k' : OutboxJob)
    → SameKey j j'
    → SameKey k k'
    → clashes_at o j' (k' ∷ []) ≡ clashes_at o j (k ∷ [])
clashes_at-Same none j j' k k' e f i = false
clashes_at-Same (some w) j j' k k' e f i =
    same_job_type (e.1 i) scale
    && ((same_job_type (f.1 i) scale && str_eq (f.0 i) (e.0 i) && is_window (window_of (f.2 i)) w)
        || false)

is_same_window-Same :
    (j j' k k' : OutboxJob)
    → SameKey j j'
    → SameKey k k'
    → is_same_window j' k' ≡ is_same_window j k
is_same_window-Same j j' k k' e f =
    ap (λ q. clashes_at (window_of q) j' (k' ∷ [])) e.2
    ∙ clashes_at-Same (window_of j.job_params) j j' k k' e f

is_same_window_sym : (j k : OutboxJob) → is_same_window j k ≡ false → is_same_window k j ≡ false
is_same_window_sym j k h =
    ground (arith, eq_iff j.pool_name k.pool_name, eq_iff k.pool_name j.pool_name)

pub OneEach-Alike : (jobs jobs' : List OutboxJob) → Alike jobs jobs' → OneEach jobs → OneEach jobs'
OneEach-Alike [] [] s w = tt
OneEach-Alike [] (k ∷ jobs') s w = absurd s
OneEach-Alike (j ∷ jobs) [] s w = absurd s
OneEach-Alike (j ∷ jobs) (k ∷ jobs') (e, s) w =
    (others jobs jobs' s w.0, OneEach-Alike jobs jobs' s w.1)
  where
    others :
        (xs ys : List OutboxJob)
        → Alike xs ys
        → All (λ x. is_same_window j x ≡ false) xs
        → All (λ y. is_same_window k y ≡ false) ys
    others [] [] s h = tt
    others [] (y ∷ ys) s h = absurd s
    others (x ∷ xs) [] s h = absurd s
    others (x ∷ xs) (y ∷ ys) (f, s) h =
        (is_same_window-Same j k x y e.1 f.1 ∙ h.0, others xs ys s h.1)

pub clashes_at-All :
    (o : Option ℕ) (j : OutboxJob) (jobs : List OutboxJob)
    → clashes_at o j jobs ≡ false
    → All (λ k. clashes_at o j (k ∷ []) ≡ false) jobs
clashes_at-All o j [] h = tt
clashes_at-All none j (k ∷ jobs) h = (refl, clashes_at-All none j jobs h)
clashes_at-All (some w) j (k ∷ jobs) h =
    (ground arith, clashes_at-All (some w) j jobs (ground arith))

pub OneEach-append :
    (jobs : List OutboxJob) (j : OutboxJob)
    → OneEach jobs
    → All (λ k. is_same_window j k ≡ false) jobs
    → OneEach (jobs ++ j ∷ [])
OneEach-append [] j w h = (tt, tt)
OneEach-append (k ∷ jobs) j w h =
    (All-append _ jobs (j ∷ []) w.0 (is_same_window_sym j k h.0, tt), OneEach-append jobs j w.1 h.1)
