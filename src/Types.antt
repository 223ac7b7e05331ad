-- ===== src/Types.antt =====
-- types/types.go: instances, the parameters of their set-up and of queries, outbox jobs, capacity
-- reservations.
-- Texts are native strings, Unix times and sizes are numbers. Of an instance, the key and
-- certificate bytes, the platform, the ports and the network are left out: no modelled code reads
-- them. A JSON object of labels is an association list.
use drone_runner_aws.Base.{ℕ, String, List, [], ◌∷◌, Bool, true, false, Option, none, if◌then◌else◌}

-- The column holds a text; these five are the ones that the code writes.
pub data InstanceState : Type 0 where
  created in_use hibernating terminating provisioning : InstanceState

abbrev pub same_state : InstanceState → InstanceState → Bool
same_state created created = true
same_state in_use in_use = true
same_state hibernating hibernating = true
same_state terminating terminating = true
same_state provisioning provisioning = true
same_state _ _ = false

abbrev pub mem_state : InstanceState → List InstanceState → Bool
mem_state s [] = false
mem_state s (t ∷ ts) = if same_state s t then true else mem_state s ts

pub data InstanceSource : Type 0 where
  unknown pool predictor on_demand : InstanceSource

abbrev pub same_source : InstanceSource → InstanceSource → Bool
same_source unknown unknown = true
same_source pool pool = true
same_source predictor predictor = true
same_source on_demand on_demand = true
same_source _ _ = false

abbrev pub default_tenant_id : String
default_tenant_id = "default"

abbrev pub default_variant_id : String
default_variant_id = "default"

pub record Instance : Type 0 where
  pub id : String
  pub name : String
  pub address : String
  pub state : InstanceState
  pub pool : String
  pub image : String
  pub zone : String
  pub size : String
  pub owner_id : String
  pub stage : String
  pub updated : ℕ
  pub started : ℕ
  pub is_hibernated : Bool
  pub runner_name : String
  pub labels : List (String × String)
  pub enable_nested_virtualization : Bool
  pub variant_id : String
  pub gpu : Bool
  pub source : InstanceSource
  pub tenant_id : String

-- `none` stands for Go's empty status, state or source, which adds no condition.
pub record QueryParams : Type 0 where
  pub status : Option InstanceState
  pub stage : String
  pub runner_name : String
  pub match_labels : List (String × String)
  pub pool_name : String
  pub instance_id : String
  pub image_name : String
  pub machine_type : String
  pub nested_virtualization : Bool
  pub gpu : Bool
  pub variant_id : String
  pub tenant_id : String
  pub filter_source : Option InstanceSource

abbrev pub empty_query : QueryParams
empty_query = record {
  status = none;
  stage = "";
  runner_name = "";
  match_labels = [];
  pool_name = "";
  instance_id = "";
  image_name = "";
  machine_type = "";
  nested_virtualization = false;
  gpu = false;
  variant_id = "";
  tenant_id = "";
  filter_source = none;
}

-- The empty source is `none`.
pub record SetupInstanceParams : Type 0 where
  pub image_name : String
  pub nested_virtualization : Bool
  pub machine_type : String
  pub hibernate : Bool
  pub zones : List String
  pub variant_id : String
  pub tenant_id : String
  pub disk_size : ℕ
  pub disk_type : String
  pub resource_class : String
  pub gpu : Bool
  pub source : Option InstanceSource
  pub skip_cloud_vm_cleanup : Bool
  pub account_id : String
  pub stage_runtime_id : String
  pub pipeline_execution_id : String
  pub long_running : Bool
  pub created_at : ℕ
  pub reservation_per_pool_timeout : ℕ

-- Go's zero value.
abbrev pub empty_params : SetupInstanceParams
empty_params = record {
  image_name = "";
  nested_virtualization = false;
  machine_type = "";
  hibernate = false;
  zones = [];
  variant_id = "";
  tenant_id = "";
  disk_size = 0;
  disk_type = "";
  resource_class = "";
  gpu = false;
  source = none;
  skip_cloud_vm_cleanup = false;
  account_id = "";
  stage_runtime_id = "";
  pipeline_execution_id = "";
  long_running = false;
  created_at = 0;
  reservation_per_pool_timeout = 0;
}

-- Go embeds the set-up parameters; a warm-pool size below 0 acts as 0 and is not modelled.
pub record PoolVariant : Type 0 where
  pub pool : ℕ
  pub limit : ℕ
  pub params : SetupInstanceParams
  pub open params use *

pub record ScaleJobParams : Type 0 where
  pub window_start : ℕ
  pub window_end : ℕ

pub data OutboxJobStatus : Type 0 where
  pending running : OutboxJobStatus

pub data OutboxJobType : Type 0 where
  setup_instance scale : OutboxJobType
  other : String → OutboxJobType

-- The JSON of the parameters, by what it decodes to; `malformed` is JSON that does not decode.
pub data JobParams : Type 0 where
  setup_params : SetupInstanceParams → JobParams
  scale_params : ScaleJobParams → JobParams
  malformed : JobParams

pub record OutboxJob : Type 0 where
  pub id : ℕ
  pub pool_name : String
  pub runner_name : String
  pub job_type : OutboxJobType
  pub job_params : Option JobParams
  pub created_at : ℕ
  pub processed_at : Option ℕ
  pub status : OutboxJobStatus
  pub error_message : Option String
  pub retry_count : ℕ

-- A row holds one of these three texts.
pub data CapacityState : Type 0 where
  created in_use terminating : CapacityState

abbrev pub same_capacity_state : CapacityState → CapacityState → Bool
same_capacity_state created created = true
same_capacity_state in_use in_use = true
same_capacity_state terminating terminating = true
same_capacity_state _ _ = false

abbrev pub mem_capacity_state : CapacityState → List CapacityState → Bool
mem_capacity_state s [] = false
mem_capacity_state s (t ∷ ts) = if same_capacity_state s t then true else mem_capacity_state s ts

pub record CapacityQuery : Type 0 where
  pub stage_id : String
  pub pool_name : String
  pub created_at_before : ℕ
  pub limit : ℕ

-- The reservation's state is `state`.
pub record CapacityReservation : Type 0 where
  pub stage_id : String
  pub pool_name : String
  pub instance_id : String
  pub reservation_id : String
  pub created_at : ℕ
  pub state : CapacityState
  pub zone : Option String

-- `count` instances of a group, as a grouped count answers them.
pub record InstanceCount : Type 0 where
  pub pool : String
  pub tenant_id : String
  pub variant_id : String
  pub image_name : String
  pub count : ℕ

-- The id, which nothing reads, is left out.
pub record UtilizationRecord : Type 0 where
  pub pool : String
  pub tenant_id : String
  pub variant_id : String
  pub image_name : String
  pub in_use_instances : ℕ
  pub recorded_at : ℕ

pub record TimeRange : Type 0 where
  pub start_time : ℕ
  pub end_time : ℕ
