-- ===== src/Drivers/Strategy.antt =====
-- app/drivers/strategy.go: how many instances a pool should create and remove. Go's `int` is an
-- integer here; the counts stay far below its range.
pub mod Sizing
use drone_runner_aws.Base.{Bool, true, if◌then◌else◌}
use drone_runner_aws.Base.Int.{ℤ, pos, ◌+ℤ◌, ◌-ℤ◌, ltb_ℤ}

-- The interface, by the name of what implements it.
pub data Strategy : Type 0 where
  greedy min_max : Strategy

abbrev pub leb_ℤ : ℤ → ℤ → Bool
leb_ℤ a b = if ltb_ℤ b a then Bool.false else true

pub greedy_count : ℤ → ℤ → ℤ → ℤ → ℤ × ℤ
unfolding ◌-ℤ◌
greedy_count min_size max_size busy free =
    (if ltb_ℤ free min_size then min_size -ℤ free else pos 0, pos 0)

-- The three corrections of the sizes that `MinMax` starts with.
abbrev pub floor_min : ℤ → ℤ
floor_min min_size = if ltb_ℤ min_size (pos 0) then pos 0 else min_size

abbrev pub floor_max : ℤ → ℤ
floor_max max_size = if leb_ℤ max_size (pos 0) then pos 1 else max_size

abbrev pub cap_min : ℤ → ℤ → ℤ
cap_min min_size max_size = if ltb_ℤ max_size min_size then pos 0 else min_size

abbrev pub count_within : ℤ → ℤ → ℤ → ℤ → ℤ × ℤ
count_within min_size max_size free count =
    if ltb_ℤ max_size count
    then (pos 0, if ltb_ℤ free (count -ℤ max_size) then free else count -ℤ max_size)
    else if ltb_ℤ count min_size
    then (min_size -ℤ count, pos 0)
    else (pos 0, pos 0)

pub min_max_count : ℤ → ℤ → ℤ → ℤ → ℤ × ℤ
unfolding ◌+ℤ◌ ◌-ℤ◌
min_max_count min_size max_size busy free =
    let top = floor_max max_size in
    count_within (cap_min (floor_min min_size) top) top free (busy +ℤ free)

pub count_create_remove : Strategy → ℤ → ℤ → ℤ → ℤ → ℤ × ℤ
unfolding greedy_count min_max_count
count_create_remove greedy = greedy_count
count_create_remove min_max = min_max_count

unfoldable pub can_create : Strategy → ℤ → ℤ → ℤ → ℤ → Bool
unfolding ◌+ℤ◌
can_create greedy min_size max_size busy free = true
can_create min_max min_size max_size busy free = ltb_ℤ (busy +ℤ free) max_size
