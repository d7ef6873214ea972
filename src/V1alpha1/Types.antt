-- ===== src/V1alpha1/Types.antt =====
-- The types in which the version differs, api/v1alpha1/flinkcluster_types.go: there is no access scope
-- `NodePort`, and the status of the JobManager service has no node port.
use flink_on_k8s_operator.Base.{
  String, Option, Bool, List, true, ◌≡◌, ◌↔◌, is_yes, is_yes_iff, string_discrete, ℕ_discrete,
}
use flink_on_k8s_operator.Base.Int.{ℤ}
use flink_on_k8s_operator.K8s.{ResourceRequirements, Quantity, Volume, VolumeMount, EnvVar}
use flink_on_k8s_operator.Api.{
  ImageSpec, JobManagerIngressSpec, JobManagerPorts, TaskManagerSpec, JobSpec, HadoopConfig,
  GcpConfig, ClusterState, FlinkClusterComponentState, JobManagerIngressStatus, JobStatus,
}

pub data AccessScope : Type 0 where
  unset cluster vpc external : AccessScope
  other : String → AccessScope

pub record JobManagerSpec : Type 0 where
  pub replicas : Option ℤ
  pub access_scope : AccessScope
  pub ingress : Option JobManagerIngressSpec
  pub ports : JobManagerPorts
  pub resources : ResourceRequirements
  pub memory_off_heap_ratio : Option ℤ
  pub memory_off_heap_min : Quantity
  pub volumes : List Volume
  pub volume_mounts : List VolumeMount
  pub node_selector : List (String × String)

pub record FlinkClusterSpec : Type 0 where
  pub image : ImageSpec
  pub job_manager : JobManagerSpec
  pub task_manager : TaskManagerSpec
  pub job : Option JobSpec
  pub env_vars : List EnvVar
  pub flink_properties : List (String × String)
  pub hadoop_config : Option HadoopConfig
  pub gcp_config : Option GcpConfig

pub record FlinkClusterComponentsStatus : Type 0 where
  pub config_map : FlinkClusterComponentState
  pub job_manager_deployment : FlinkClusterComponentState
  pub job_manager_service : FlinkClusterComponentState
  pub job_manager_ingress : Option JobManagerIngressStatus
  pub task_manager_deployment : FlinkClusterComponentState
  pub job : Option JobStatus

pub record FlinkClusterStatus : Type 0 where
  pub state : ClusterState
  pub components : FlinkClusterComponentsStatus
  pub last_update_time : String

pub record FlinkCluster : Type 0 where
  pub api_version : String
  pub kind : String
  pub namespace : String
  pub name : String
  pub uid : String
  pub spec : FlinkClusterSpec
  pub status : FlinkClusterStatus

unfoldable pub FlinkClusterSpec-discrete : Discrete FlinkClusterSpec
unfolding string_discrete ℕ_discrete
FlinkClusterSpec-discrete = hlevel (ℕ_discrete, string_discrete)

-- `reflect.DeepEqual` of two specs.
unfoldable pub equal_specs : FlinkClusterSpec → FlinkClusterSpec → Bool
unfolding FlinkClusterSpec-discrete
equal_specs a b = is_yes (FlinkClusterSpec-discrete a b)

pub equal_specs_iff : (a b : FlinkClusterSpec) → (equal_specs a b ≡ true) ↔ (a ≡ b)
unfolding equal_specs
equal_specs_iff a b = is_yes_iff (FlinkClusterSpec-discrete a b)
