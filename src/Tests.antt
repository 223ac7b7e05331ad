-- ===== src/Tests.antt =====
-- Sample data for the tests and examples of the child modules.
mod StoreTests
mod JobTests
mod DriverTests
mod TenantTests
mod PoolTests
mod OperationTests
mod CapacityTests
mod CleanTests
mod PredictorTests
mod ManagerTests
mod PurgerTests
mod RequestTests
use drone_runner_aws.Base.{
  ℕ, String, List, [], ◌∷◌, Bool, true, false, Option, none, some, ◌≡◌, refl,
}
use drone_runner_aws.Types.{
  Instance, InstanceState, created, InstanceSource, QueryParams, empty_query, OutboxJob,
  setup_instance, setup_params, empty_params, pending,
}
use drone_runner_aws.Store.Instances.{Conn}
use drone_runner_aws.Store.Outbox.{Outbox}
use drone_runner_aws.Base.Int.{pos}
use drone_runner_aws.Base.Text.{lookup}
use drone_runner_aws.Drivers.Tenants.{Pool}
use drone_runner_aws.Drivers.Provision.{ProvisionParams}
use drone_runner_aws.Drivers.Driver.{Driver, Pools}

abbrev pub conn_at : ℕ → Conn
conn_at now = record { now = now; locked = λ key. false; locked_job = λ id. false; down = false }

abbrev pub row : String → InstanceState → ℕ → Instance
row id state started = record {
  id = id;
  name = id;
  address = "";
  state = state;
  pool = "linux";
  image = "ubuntu";
  zone = "a";
  size = "small";
  owner_id = "";
  stage = "";
  updated = started;
  started = started;
  is_hibernated = false;
  runner_name = "runner";
  labels = [];
  enable_nested_virtualization = false;
  variant_id = "default";
  gpu = false;
  source = InstanceSource.predictor;
  tenant_id = "default";
}

abbrev pub two_rows : List Instance
two_rows = row "vm-1" created 20 ∷ row "vm-2" created 10 ∷ []

abbrev pub linux_query : QueryParams
linux_query = record empty_query { pool_name = "linux" }

abbrev pub global_job : ℕ → OutboxJob
global_job id = record {
  id = id;
  pool_name = "linux";
  runner_name = "";
  job_type = setup_instance;
  job_params = some (setup_params empty_params);
  created_at = 5;
  processed_at = none;
  status = pending;
  error_message = none;
  retry_count = 0;
}

abbrev pub one_job : Outbox
one_job = record { jobs = global_job 0 ∷ []; next_id = 1 }

-- A driver that does all that it is asked for.
abbrev pub obedient : Driver
obedient = record {
  destroy = λ is. ([], true);
  destroy_instance_and_storage = λ is. ([], true);
  destroy_capacity = λ r. true;
  hibernate = λ i. true;
  can_hibernate = true;
}

abbrev pub linux_only : Pool Driver
linux_only = record {
  max_size = pos 4;
  min_size = pos 2;
  driver = obedient;
  variants = [];
  tenant_drivers = [];
  account_to_tenant = [];
  tenants = [];
}

abbrev pub one_pool : Pools
one_pool = ("linux", linux_only) ∷ []

pub one_pool-linux : lookup "linux" one_pool ≡ some linux_only
unfolding lookup
one_pool-linux = refl

abbrev pub request : ProvisionParams
request = record {
  image_name = "ubuntu";
  nested_virtualization = false;
  resource_class = "";
  zones = [];
  skip_cloud_vm_cleanup = false;
  account_id = "acc-1";
  stage_runtime_id = "";
  pipeline_execution_id = "";
  long_running = false;
  reservation_per_pool_timeout = 0;
}
