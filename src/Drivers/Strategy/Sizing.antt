-- ===== src/Drivers/Strategy/Sizing.antt =====
-- Greedy and MinMax: the sizes of a pool.
use drone_runner_aws.Base.{ℕ, ◌+◌, ◌-◌, ◌≤◌, ◌≡◌, true, arith, ◌⊎◌, min, max, if◌then◌else◌, ltb}
use drone_runner_aws.Base.Int.{ℤ, pos, negsuc, ◌+ℤ◌, ◌-ℤ◌, ◌≤ℤ◌, pos_part}
use drone_runner_aws.Drivers.Strategy.{
  greedy, min_max, count_create_remove, can_create, min_max_count, floor_max, floor_min, cap_min,
  count_within,
}

-- The sizes that count: a limit below 1 is 1; a minimum below 0, or above the limit, is 0.
abbrev pub limit : ℤ → ℕ
limit (pos n) = max n 1
limit (negsuc n) = 1

abbrev pub minimum : ℤ → ℕ → ℕ
minimum (pos n) hi = if ltb hi n then 0 else n
minimum (negsuc n) hi = 0

-- How many `min_max` creates and removes, for `b` busy and `f` free instances.
abbrev pub to_create : ℕ → ℕ → ℕ → ℕ
to_create lo b f = lo - (b + f)

abbrev pub to_remove : ℕ → ℕ → ℕ → ℕ
to_remove hi b f = min f (b + f - hi)

floor_max-limit : (hi : ℤ) → floor_max hi ≡ pos (limit hi)
floor_max-limit (pos n) = ground arith
floor_max-limit (negsuc n) = ground arith

cap_min-minimum : (lo : ℤ) (t : ℕ) → cap_min (floor_min lo) (pos t) ≡ pos (minimum lo t)
cap_min-minimum (pos n) t = ground arith
cap_min-minimum (negsuc n) t = ground arith

count_within_lem :
    (m t b f : ℕ)
    → m ≤ t
    → count_within (pos m) (pos t) (pos f) (pos b +ℤ pos f)
      ≡ (pos (to_create m b f), pos (to_remove t b f))
unfolding ◌+ℤ◌ ◌-ℤ◌
count_within_lem m t b f h = ground arith

minimum-le : (lo : ℤ) (t : ℕ) → minimum lo t ≤ t
minimum-le (pos n) t = ground arith
minimum-le (negsuc n) t = omega arith

min_max_count_lem :
    (lo hi : ℤ) (b f : ℕ)
    → min_max_count lo hi (pos b) (pos f)
      ≡ (pos (to_create (minimum lo (limit hi)) b f), pos (to_remove (limit hi) b f))
unfolding min_max_count ◌+ℤ◌ ◌-ℤ◌
min_max_count_lem lo hi b f =
    rw (floor_max-limit hi, cap_min-minimum lo (limit hi))
      (count_within_lem (minimum lo (limit hi)) (limit hi) b f (minimum-le lo (limit hi)))

-- `min_max` creates what the minimum lacks and removes free instances above the limit: never both,
-- never more than there are, and afterwards the pool has its minimum and is within its limit, or
-- only busy instances are left.
pub min_max-Sized :
    (lo hi : ℤ) (b f : ℕ)
    → let c = to_create (minimum lo (limit hi)) b f in
      let r = to_remove (limit hi) b f in
      (count_create_remove min_max lo hi (pos b) (pos f) ≡ (pos c, pos r))
      × (r ≤ f)
      × ((c ≡ 0) ⊎ (r ≡ 0))
      × (minimum lo (limit hi) ≤ b + (f + c - r))
      × (b + (f + c - r) ≤ max b (limit hi))
unfolding count_create_remove
min_max-Sized lo hi b f =
    (min_max_count_lem lo hi b f, ground arith, ground arith, ground arith, ground arith)

-- `greedy` ignores the limit and the busy instances, and never removes.
pub greedy-Sized :
    (lo hi : ℤ) (b f : ℕ)
    → (c : ℕ) × (count_create_remove greedy lo hi (pos b) (pos f) ≡ (pos c, pos 0))
      × (lo ≤ℤ pos (f + c))
      × ((c ≡ 0) ⊎ (pos (f + c) ≡ lo))
unfolding count_create_remove
greedy-Sized lo hi b f = (pos_part lo - f, ground arith, ground arith, ground arith)

-- With `min_max` a pool that may create stays within its limit.
pub can_create-limit :
    (lo hi : ℤ) (b f : ℕ) → can_create min_max lo hi (pos b) (pos f) ≡ true → b + f + 1 ≤ limit hi
unfolding can_create
can_create-limit lo hi b f h = ground arith
