-- ===== src/Drivers/Request.antt =====
-- app/drivers/distributed_manager.go: the whole of a request for an instance, Provision with
-- provisionFromPool and provisionFromReservedCapacity. What the provider makes of the parameters and the
-- reservation is `made` (see Manager), a request's image is qualified by `qualify` (see Provision). Left
-- out are tasks that only reserve capacity, the reservation that is answered, cloud labels, and logs.
pub mod Cold
use drone_runner_aws.Base.{
  ℕ, ◌+◌, String, List, [], ◌∷◌, Bool, true, false, Option, none, some, str_eq, if◌then◌else◌,
}
use drone_runner_aws.Base.Text.{lookup}
use drone_runner_aws.Base.Result.{Result, ok, err}
use drone_runner_aws.Types.{Instance, InstanceSource, SetupInstanceParams, CapacityReservation}
use drone_runner_aws.Store.Instances.{StoreError, Conn, find_instance}
use drone_runner_aws.Store.Outbox.{Outbox}
use drone_runner_aws.Drivers.Tenants.{Pool}
use drone_runner_aws.Drivers.Driver.{Driver, Pools}
use drone_runner_aws.Drivers.Provision.{
  ProvisionParams, plan_of, Ready, nothing, broke, hit, claim_ready,
}
use drone_runner_aws.Drivers.Capacity.{World, destroy_capacity}
use drone_runner_aws.Drivers.Manager.{ProvisionError, setup_instance}

pub data RequestError : Type 0 where
  no_pool : RequestError
  claim_failed : StoreError → RequestError
  not_set_up : ProvisionError → RequestError

-- What a request gets: whether it was ready, and the variant.
pub record Served : Type 0 where
  pub instance : Instance
  pub is_warm : Bool
  pub variant : String

abbrev pub Outcome : Type 0
Outcome = Result RequestError Served × (World × Outbox)

abbrev pub set_up_answer :
    String → World → Outbox → Result ProvisionError Instance × List Instance → Outcome
set_up_answer variant w o (err e, rows) = (err (not_set_up e), (record w { instances = rows }, o))
set_up_answer variant w o (ok i, rows) = (
  ok (record { instance = i; is_warm = false; variant = variant }),
  (record w { instances = rows }, o),
)

abbrev pub first_variant : List String → String
first_variant [] = ""
first_variant (v ∷ variants) = v

abbrev pub on_demand_params : SetupInstanceParams → SetupInstanceParams
on_demand_params params = record params { source = some InstanceSource.on_demand }

module _ (pools : Pools) (runner owner : String)
    (made : SetupInstanceParams → Option CapacityReservation → Option Instance) where
  -- A new instance, of the variant that its row will have.
  abbrev pub set_up :
      Conn → SetupInstanceParams → Option CapacityReservation → String → World → Outbox → Outcome
  set_up c params reserved variant w o =
      set_up_answer variant w o
        (setup_instance c runner true owner params (made params reserved) w.instances)

  abbrev pub found_reserved :
      (World → Outcome) → World → Outbox → Result StoreError Instance → Outcome
  found_reserved otherwise w o (err e) = otherwise w
  found_reserved otherwise w o (ok i) =
      (ok (record { instance = i; is_warm = true; variant = i.variant_id }), (w, o))

  abbrev pub own_variant : Outcome → Outcome
  own_variant (err e, rest) = (err e, rest)
  own_variant (ok s, rest) = (ok (record s { variant = s.instance.variant_id }), rest)

  -- `net 0` looks for the reserved instance, `net 1` stores a new one, the others destroy the reservation
  -- of an instance that is not found.
  unfoldable pub provision_from_reserved_capacity :
      (ℕ → Conn) → SetupInstanceParams → CapacityReservation → World → Outbox → Outcome
  provision_from_reserved_capacity net params r w o =
      let own = on_demand_params params in
      if str_eq r.instance_id ""
      then own_variant (set_up (net 1) own (some r) "" w o)
      else found_reserved
          (λ w'.
            own_variant
              (set_up (net 1) own none "" (destroy_capacity (λ n. net (n + 2)) pools r w').1 o))
          w o (find_instance (net 0) r.instance_id w.instances)

  -- What is done once the ready instances have been tried.
  abbrev pub serve :
      Conn → SetupInstanceParams → List String → World → Ready × (List Instance × Outbox) → Outcome
  serve c params variants w (broke e, (rows, o)) =
      (err (claim_failed e), (record w { instances = rows }, o))
  serve c params variants w (hit i variant, (rows, o)) = (
    ok (record { instance = i; is_warm = true; variant = variant }),
    (record w { instances = rows }, o),
  )
  serve c params variants w (nothing, (rows, o)) =
      let variant = first_variant variants in
      set_up c (on_demand_params (record params { variant_id = variant })) none variant
        (record w { instances = rows }) o

  abbrev pub provide_for :
      (ℕ → Conn)
      → Conn
      → String
      → (String → String)
      → ProvisionParams
      → SetupInstanceParams × List String
      → Option CapacityReservation
      → World
      → Outbox
      → Outcome
  provide_for net last name qualify request (params, variants) (some r) w o =
      provision_from_reserved_capacity net params r w o
  provide_for net last name qualify request (params, variants) none w o =
      serve last params variants w
        (claim_ready net name params (qualify request.image_name) owner variants w.instances o)

  abbrev pub provision_in :
      Option (Pool Driver) → (Pool Driver → Outcome) → World → Outbox → Outcome
  provision_in none go w o = (err no_pool, (w, o))
  provision_in (some p) go w o = go p

  -- The calls of `net` are for the reservation, or for the claims; `last` stores a new instance.
  unfoldable pub provision :
      (ℕ → Conn)
      → Conn
      → String
      → (String → String)
      → ProvisionParams
      → Option CapacityReservation
      → World
      → Outbox
      → Outcome
  unfolding provision_from_reserved_capacity
  provision net last name qualify request reserved w o =
      provision_in (lookup name pools)
        (λ p. provide_for net last name qualify request (plan_of qualify p request) reserved w o) w
        o
