-- ===== src/Predictor/Means.antt =====
-- The averages of the predictor stay within the bounds of what was recorded.
use native.Mathlib.Nat.{mul-le-mul_right}
use drone_runner_aws.Base.{
  ℕ, ◌*◌, ◌≤◌, List, [], ◌∷◌, Bool, true, false, ◌==◌, ◌≡◌, refl, inl, inr, In, All, Bool-cases,
  arith, keep, is_empty, ltb,
}
use drone_runner_aws.Types.{UtilizationRecord}
use drone_runner_aws.Store.History.{sort_by_time, insert_by_time}
use drone_runner_aws.Predictor.Fractions.{Fraction, whole, Between, Between-whole, Between-smooth}
use drone_runner_aws.Predictor.{smooth, ema_from, ema_of, peak, weighted, week_sum, or_nothing}

module _ (lo hi : ℕ) where
  abbrev pub Usual : UtilizationRecord → Type 0
  Usual r = (lo ≤ r.in_use_instances) × (r.in_use_instances ≤ hi)

  ema_from-Between :
      (p : ℕ) (f : Fraction) (rows : List UtilizationRecord)
      → 1 ≤ p
      → All Usual rows
      → Between lo hi f
      → Between lo hi (ema_from p f rows)
  unfolding ema_from
  ema_from-Between p f [] some all b = b
  ema_from-Between p f (r ∷ rows) some all b =
      ema_from-Between p (smooth p f r.in_use_instances) rows some all.1
        (Between-smooth lo hi p r.in_use_instances f some all.0.0 all.0.1 b)

  -- Nothing is expected where nothing is recorded, so the lower bound needs a record.
  pub ema_of-Between :
      (p : ℕ) (rows : List UtilizationRecord)
      → 1 ≤ p
      → All Usual rows
      → (is_empty rows ≡ true → lo ≡ 0)
      → Between lo hi (ema_of p rows)
  ema_of-Between p [] some all none = Between-whole lo hi 0 (omega (arith, none refl)) (omega arith)
  ema_of-Between p (r ∷ rows) some all none =
      ema_from-Between p (whole r.in_use_instances) rows some all.1
        (Between-whole lo hi r.in_use_instances all.0.0 all.0.1)

  peak-le : (rows : List UtilizationRecord) → All Usual rows → peak rows ≤ hi
  unfolding peak
  peak-le [] all = omega arith
  peak-le (r ∷ rows) all = ground (arith, peak-le rows all.1)

  le-peak :
      (r : UtilizationRecord) (rows : List UtilizationRecord)
      → All Usual (r ∷ rows)
      → lo ≤ peak (r ∷ rows)
  unfolding peak
  le-peak r rows all = ground arith

  -- Like `Between`, with a total weight that may be 0.
  abbrev Within : Fraction → Type 0
  Within f = (lo * f.den ≤ f.num) × (f.num ≤ hi * f.den)

  weighted-Within :
      (weight : ℕ) (rows : List UtilizationRecord) (total : Fraction)
      → All Usual rows
      → Within total
      → Within (weighted weight rows total)
  weighted-Within weight [] total all b = b
  weighted-Within weight (r ∷ rows) total all b = (
    omega (arith, mul-le-mul_right weight (le-peak r rows all)),
    omega (arith, mul-le-mul_right weight (peak-le (r ∷ rows) all)),
  )

  pub week_sum-Within :
      (weights : ℕ × ℕ × ℕ) (one two three : List UtilizationRecord)
      → All Usual one
      → All Usual two
      → All Usual three
      → Within (week_sum weights (one ∷ two ∷ three ∷ []))
  week_sum-Within (a, b, c) one two three p q r = weighted-Within c three _ r (
      weighted-Within b two _ q
        (weighted-Within a one (record { num = 0; den = 0 }) p (omega arith, omega arith)))

  pub or_nothing-Between :
      (f : Fraction) → Within f → (f.den ≡ 0 → lo ≡ 0) → Between lo hi (or_nothing f)
  or_nothing-Between f b none = elim (Bool-cases (f.den == 0)) [
    | inl t ↦ rw t (Between-whole lo hi 0 (ground arith) (omega arith))
    | inr g ↦ rw g (record { positive = ground arith; above = b.0; below = b.1 })
  ]

pub All-of_kept :
    {P : UtilizationRecord → Type 0} (p : UtilizationRecord → Bool) (rows : List UtilizationRecord)
    → ((r : UtilizationRecord) → In r rows → p r ≡ true → P r)
    → All P (keep p rows)
All-of_kept p [] h = tt
All-of_kept p (r ∷ rows) h = elim (Bool-cases (p r)) [
  | inl t ↦ rw t (h r (inl refl) t, All-of_kept p rows (λ s m. h s (inr m)))
  | inr f ↦ rw f (All-of_kept p rows (λ s m. h s (inr m)))
]

module _ (P : UtilizationRecord → Type 0) where
  All-insert :
      (r : UtilizationRecord) (rows : List UtilizationRecord)
      → P r
      → All P rows
      → All P (insert_by_time r rows)
  unfolding insert_by_time
  All-insert r [] h all = (h, all)
  All-insert r (s ∷ rows) h all = elim (Bool-cases (ltb s.recorded_at r.recorded_at)) [
    | inl t ↦ rw t (all.0, All-insert r rows h all.1)
    | inr f ↦ rw f (h, all)
  ]

  pub All-sort : (rows : List UtilizationRecord) → All P rows → All P (sort_by_time rows)
  unfolding sort_by_time
  All-sort [] all = tt
  All-sort (r ∷ rows) all = All-insert r (sort_by_time rows) all.0 (All-sort rows all.1)

insert-not_empty :
    (r : UtilizationRecord) (rows : List UtilizationRecord)
    → is_empty (insert_by_time r rows) ≡ false
unfolding insert_by_time
insert-not_empty r [] = refl
insert-not_empty r (s ∷ rows) = ground arith

pub sort-empty : (rows : List UtilizationRecord) → is_empty (sort_by_time rows) ≡ is_empty rows
unfolding sort_by_time
sort-empty [] = refl
sort-empty (r ∷ rows) = insert-not_empty r (sort_by_time rows)

pub In-not_empty :
    (rows : List UtilizationRecord) (r : UtilizationRecord) → In r rows → is_empty rows ≡ false
In-not_empty [] r m = absurd m
In-not_empty (s ∷ rows) r m = refl
