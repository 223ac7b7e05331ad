-- ===== src/Drivers/Provision/Claimed.antt =====
-- provisionFromPool: which ready instance a request gets.
use drone_runner_aws.Base.{String, List, [], ◌∷◌, ◌++◌, true, false, In, All, ◌≡◌, ◌⊎◌}
use drone_runner_aws.Base.Result.{Result}
use drone_runner_aws.Types.{Instance, SetupInstanceParams, in_use, created}
use drone_runner_aws.Store.Instances.{Conn, is_candidate}
use drone_runner_aws.Store.Instances.Claim.{Claims}
use drone_runner_aws.Store.Outbox.{Outbox}
use drone_runner_aws.Drivers.Provision.{ready_query, should_replenish}

module _ (pool : String) (s : SetupInstanceParams) (image owner : String) (rows : List Instance)
    (o : Outbox) where
  -- No row could be claimed for the variant when it was tried.
  abbrev pub NoneFor : String → Type 0
  NoneFor variant =
      (c : Conn) × ((j : Instance)
        → In j rows
        → is_candidate c (ready_query pool s image variant) (created ∷ []) j ≡ false)

  -- The instance was ready, in the state `created`, and is the oldest one of its variant that could be
  -- claimed; the variants before this one had none. It is now in use and the owner's. A job to replace it
  -- is written at most for an instance that the pool had made.
  abbrev pub Hits : List String → Instance → String → Outbox → Type 0
  Hits variants i variant o' =
      (before after : List String) × (variants ≡ before ++ variant ∷ after)
      × All NoneFor before
      × (c : Conn) × (taken : Instance) × (rows' : List Instance) × Claims c
          (ready_query pool s image variant) in_use (created ∷ []) true rows taken rows'
      × (i ≡ record taken { owner_id = owner })
      × ((o' ≡ o) ⊎ (should_replenish i ≡ true))
