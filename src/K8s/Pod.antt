-- ===== src/K8s/Pod.antt =====
-- Pod-level structs of k8s.io/api/core/v1 and the quantities of k8s.io/apimachinery.
use flink_on_k8s_operator.Base.{ℕ, String, Option, Bool, List}
use flink_on_k8s_operator.Base.Int.{ℤ}

-- `resource.Quantity`: what `Value()` returns, and the `Format` field.
pub record Quantity : Type 0 where
  pub value : ℤ
  pub format : String

-- The memory limit (the zero quantity when none is set), and every other entry by its name.
pub record ResourceRequirements : Type 0 where
  pub limits_memory : Quantity
  pub other_entries : List (String × Quantity)

pub data PullPolicy : Type 0 where
  unset always if_not_present never : PullPolicy
  other : String → PullPolicy

pub data VolumeSource : Type 0 where
  config_map secret : String → VolumeSource
  other : String → VolumeSource

pub record Volume : Type 0 where
  pub name : String
  pub source : VolumeSource

pub record VolumeMount : Type 0 where
  pub name : String
  pub mount_path : String
  pub read_only : Bool

pub record ResourceFieldSelector : Type 0 where
  pub container_name : String
  pub resource : String
  pub divisor : String

pub record EnvVar : Type 0 where
  pub name : String
  pub value : String
  pub value_from : Option ResourceFieldSelector

pub record ContainerPort : Type 0 where
  pub name : String
  pub container_port : ℤ

-- A TCP probe with its four counters.
pub record Probe : Type 0 where
  pub tcp_port : ℤ
  pub timeout_seconds : ℕ
  pub initial_delay_seconds : ℕ
  pub period_seconds : ℕ
  pub failure_threshold : ℕ

pub record Container : Type 0 where
  pub name : String
  pub image : String
  pub image_pull_policy : PullPolicy
  pub args : List String
  pub ports : List ContainerPort
  pub liveness_probe : Option Probe
  pub readiness_probe : Option Probe
  pub resources : Option ResourceRequirements
  pub env : List EnvVar
  pub volume_mounts : List VolumeMount

pub data RestartPolicy : Type 0 where
  unset never : RestartPolicy

pub record PodSpec : Type 0 where
  pub init_containers : List Container
  pub containers : List Container
  pub restart_policy : RestartPolicy
  pub volumes : List Volume
  pub node_selector : List (String × String)
  pub image_pull_secrets : List String
