-- ===== src/Api/Spec.antt =====
-- The spec of a FlinkCluster, the first half of api/v1beta1/flinkcluster_types.go.
-- A pointer is an `Option`, an `int32` an integer, a Go map a list of pairs. A string that the
-- source compares with a set of constants is a data type: one constructor for each constant,
-- `unset` for the empty string where the source tests for it, `other s` for any other text `s`.
use flink_on_k8s_operator.Base.{String, Option, Bool, List}
use flink_on_k8s_operator.Base.Int.{ℤ}
use flink_on_k8s_operator.K8s.{
  PullPolicy, ResourceRequirements, Quantity, Volume, VolumeMount, Container, EnvVar,
}

pub data AccessScope : Type 0 where
  unset cluster vpc external node_port : AccessScope
  other : String → AccessScope

pub data JobRestartPolicy : Type 0 where
  never from_savepoint_on_failure : JobRestartPolicy
  other : String → JobRestartPolicy

pub record ImageSpec : Type 0 where
  pub name : String
  pub pull_policy : PullPolicy
  pub pull_secrets : List String

pub record JobManagerPorts : Type 0 where
  pub rpc : Option ℤ
  pub blob : Option ℤ
  pub query : Option ℤ
  pub ui : Option ℤ

pub record JobManagerIngressSpec : Type 0 where
  pub host_format : Option String
  pub annotations : List (String × String)
  pub use_tls : Option Bool
  pub tls_secret_name : Option String

pub record JobManagerSpec : Type 0 where
  pub replicas : Option ℤ
  pub access_scope : AccessScope
  pub ingress : Option JobManagerIngressSpec
  pub ports : JobManagerPorts
  pub resources : ResourceRequirements
  pub memory_off_heap_ratio : Option ℤ
  pub memory_off_heap_min : Quantity
  pub volumes : List Volume
  pub volume_mounts : List VolumeMount
  pub node_selector : List (String × String)

pub record TaskManagerPorts : Type 0 where
  pub data_port : Option ℤ
  pub rpc : Option ℤ
  pub query : Option ℤ

pub record TaskManagerSpec : Type 0 where
  pub replicas : ℤ
  pub ports : TaskManagerPorts
  pub resources : ResourceRequirements
  pub memory_off_heap_ratio : Option ℤ
  pub memory_off_heap_min : Quantity
  pub volumes : List Volume
  pub volume_mounts : List VolumeMount
  pub node_selector : List (String × String)
  pub sidecars : List Container

pub data CleanupAction : Type 0 where
  keep_cluster delete_cluster delete_task_manager : CleanupAction
  other : String → CleanupAction

pub record CleanupPolicy : Type 0 where
  pub after_job_succeeds : CleanupAction
  pub after_job_fails : CleanupAction
  pub after_job_cancelled : CleanupAction

pub record JobSpec : Type 0 where
  pub jar_file : String
  pub class_name : Option String
  pub args : List String
  pub from_savepoint : Option String
  pub allow_non_restored_state : Option Bool
  pub savepoints_dir : Option String
  pub auto_savepoint_seconds : Option ℤ
  pub savepoint_generation : ℤ
  pub parallelism : Option ℤ
  pub no_logging_to_stdout : Option Bool
  pub volumes : List Volume
  pub volume_mounts : List VolumeMount
  pub init_containers : List Container
  pub restart_policy : Option JobRestartPolicy
  pub cleanup_policy : Option CleanupPolicy
  pub cancel_requested : Option Bool

pub record HadoopConfig : Type 0 where
  pub config_map_name : String
  pub mount_path : String

pub record GcpServiceAccount : Type 0 where
  pub secret_name : String
  pub key_file : String
  pub mount_path : String

pub record GcpConfig : Type 0 where
  pub service_account : Option GcpServiceAccount

pub record FlinkClusterSpec : Type 0 where
  pub image : ImageSpec
  pub job_manager : JobManagerSpec
  pub task_manager : TaskManagerSpec
  pub job : Option JobSpec
  pub env_vars : List EnvVar
  pub flink_properties : List (String × String)
  pub hadoop_config : Option HadoopConfig
  pub gcp_config : Option GcpConfig
