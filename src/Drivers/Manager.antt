-- ===== src/Drivers/Manager.antt =====
-- app/drivers/instance_ops.go and provisioner.go: a manager of its own pools, which does not share the
-- table. What the provider makes of a request is `made`, an error is `none`; the options of a request
-- (certificates, addresses of binaries, cloud labels), tasks that only reserve capacity, the logs and the
-- metrics are left out. The calls under a pool's lock stand here one after the other.
pub mod Sorted
pub mod Provided
use drone_runner_aws.Base.{
  ℕ, String, List, [], ◌∷◌, Bool, true, false, Option, none, some, str_eq, is_empty, length,
  if◌then◌else◌,
}
use drone_runner_aws.Base.Int.{ℤ, pos}
use drone_runner_aws.Base.Result.{Result, ok, err}
use drone_runner_aws.Types.{
  Instance, InstanceState, created, in_use, hibernating, provisioning, terminating, InstanceSource,
  QueryParams, SetupInstanceParams, default_tenant_id, default_variant_id,
}
use drone_runner_aws.Store.Instances.{
  StoreError, Conn, list_instances, create_instance, update_instance, sort_by_started,
}
use drone_runner_aws.Drivers.Strategy.{Strategy, can_create}

-- The instances of a pool by state, each list in the order of the table.
pub record Buckets : Type 0 where
  pub busy : List Instance
  pub free : List Instance
  pub hibernating_rows : List Instance
  pub provisioning_rows : List Instance
  pub terminating_rows : List Instance

abbrev pub no_rows_yet : Buckets
no_rows_yet = record {
  busy = [];
  free = [];
  hibernating_rows = [];
  provisioning_rows = [];
  terminating_rows = [];
}

abbrev pub put_in : Instance → InstanceState → Buckets → Buckets
put_in i in_use b = record b { busy = i ∷ b.busy }
put_in i hibernating b = record b { hibernating_rows = i ∷ b.hibernating_rows }
put_in i provisioning b = record b { provisioning_rows = i ∷ b.provisioning_rows }
put_in i terminating b = record b { terminating_rows = i ∷ b.terminating_rows }
put_in i created b = record b { free = i ∷ b.free }

unfoldable pub buckets_of : List Instance → Buckets
buckets_of [] = no_rows_yet
buckets_of (i ∷ rows) = put_in i i.state (buckets_of rows)

abbrev pub list_pool :
    Conn → String → Option QueryParams → List Instance → Result StoreError Buckets
list_pool c pool q rows = elim (list_instances c pool q rows) [
  | err e ↦ err e
  | ok listed ↦ ok (buckets_of listed)
]

pub data ProvisionError : Type 0 where
  no_instance_available not_made : ProvisionError
  list_failed tag_failed create_failed : StoreError → ProvisionError

abbrev pub retain_label : List (String × String) → List (String × String)
retain_label [] = ("retain", "false") ∷ []
retain_label labels = labels

abbrev pub source_or_pool : Option InstanceSource → InstanceSource
source_or_pool none = InstanceSource.pool
source_or_pool (some source) = source

-- What the manager writes on an instance that has been made.
abbrev pub fitted : String → Bool → String → SetupInstanceParams → Instance → Instance
fitted runner used owner params i = record i {
  state = if used then in_use else i.state;
  owner_id = if used then owner else i.owner_id;
  runner_name = runner;
  variant_id = if str_eq params.variant_id "" then default_variant_id else params.variant_id;
  tenant_id = if str_eq params.tenant_id "" then default_tenant_id else params.tenant_id;
  source = source_or_pool params.source;
  labels = retain_label i.labels;
}

abbrev pub stored_answer :
    Instance
    → List Instance
    → Result StoreError (List Instance)
    → Result ProvisionError Instance × List Instance
stored_answer i rows (err e) = (err (create_failed e), rows)
stored_answer i rows (ok rows') = (ok i, rows')

-- An instance that cannot be stored is destroyed again.
unfoldable pub setup_instance :
    Conn
    → String
    → Bool
    → String
    → SetupInstanceParams
    → Option Instance
    → List Instance
    → Result ProvisionError Instance × List Instance
setup_instance c runner used owner params none rows = (err not_made, rows)
setup_instance c runner used owner params (some i) rows =
    let own = fitted runner used owner params i in
    stored_answer own rows (create_instance c own rows)

-- The oldest free instance is handed out; one that was hibernated starts its life anew.
abbrev pub handed : ℕ → String → Instance → Instance
handed now owner i = record i {
  state = in_use;
  owner_id = owner;
  started = if i.is_hibernated then now else i.started;
}

abbrev pub tagged_answer :
    Instance
    → List Instance
    → Result StoreError (List Instance)
    → Result ProvisionError (Instance × Bool) × List Instance
tagged_answer i rows (err e) = (err (tag_failed e), rows)
tagged_answer i rows (ok rows') = (ok (i, true), rows')

abbrev pub cold :
    Result ProvisionError Instance × List Instance
    → Result ProvisionError (Instance × Bool) × List Instance
cold (err e, rows) = (err e, rows)
cold (ok i, rows) = (ok (i, false), rows)

module _ (net : ℕ → Conn) (now : ℕ) (s : Strategy) (min_size max_size : ℤ) (runner owner : String)
    (params : SetupInstanceParams) (made : Option Instance) where
  abbrev pub hand_out :
      ℕ → List Instance → List Instance → Result ProvisionError (Instance × Bool) × List Instance
  hand_out busy rows [] =
      if can_create s min_size max_size (pos busy) (pos 0)
      then cold (setup_instance (net 1) runner true owner params made rows)
      else (err no_instance_available, rows)
  hand_out busy rows (i ∷ free) =
      let mine = handed now owner i in tagged_answer mine rows (update_instance (net 1) mine rows)

  abbrev pub provide :
      List Instance
      → Result StoreError Buckets
      → Result ProvisionError (Instance × Bool) × List Instance
  provide rows (err e) = (err (list_failed e), rows)
  provide rows (ok b) = hand_out (length b.busy) rows (sort_by_started b.free)

  -- `net 0` lists the pool, `net 1` tags or stores the instance; the answer tells whether it was warm.
  unfoldable pub provision_from_pool :
      String → QueryParams → List Instance → Result ProvisionError (Instance × Bool) × List Instance
  unfolding buckets_of
  provision_from_pool pool q rows = provide rows (list_pool (net 0) pool (some q) rows)
