-- ===== src/Drivers/Build/Sized.antt =====
-- How many set-ups the building of a pool asks for.
use drone_runner_aws.Base.{ℕ, ◌+◌, ◌-◌, ◌≤◌, List, [], ◌∷◌, Bool, In, ◌≡◌, ◌⊎◌, Option, length, max}
use drone_runner_aws.Types.{Instance, SetupInstanceParams, PoolVariant}
use drone_runner_aws.Drivers.Strategy.Sizing.{limit, minimum}
use drone_runner_aws.Drivers.Tenants.{Pool}
use drone_runner_aws.Drivers.Driver.{Driver}
use drone_runner_aws.Drivers.Manager.{Buckets}
use drone_runner_aws.Drivers.Build.{idle, build_one}

-- The sizes of the warm pools of the variants.
abbrev pub warm : List PoolVariant → ℕ
warm [] = 0
warm (v ∷ vs) = v.pool + warm vs

-- `tries` counts the set-ups; the job that replaces one that failed belongs to it.
module _ {S : Type 0} (setup : Option SetupInstanceParams → S → Bool × S)
    (async : Option SetupInstanceParams → S → S) (tries : S → ℕ)
    (counts : (params : Option SetupInstanceParams) (s : S)
      → tries (build_one setup async params s) ≡ tries s + 1) where
  -- The result of a building of the pool, with `b` busy and `f` idle instances.
  abbrev pub Filled : Pool Driver → Buckets → S → List Instance → S → Type 0
  Filled p b s doomed s' =
      let busy = length b.busy in
      let free = length (idle b) in
      let gone = length doomed in
      (n : ℕ) × (tries s' ≡ tries s + (n + warm p.variants))
      × ((n ≡ 0) ⊎ (gone ≡ 0))
      × (minimum p.min_size (limit p.max_size) ≤ busy + (free + n - gone))
      × (busy + (free + n - gone) ≤ max busy (limit p.max_size))
      × ((i : Instance) → In i doomed → In i (idle b))
