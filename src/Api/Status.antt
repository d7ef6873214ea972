-- ===== src/Api/Status.antt =====
-- The status of a FlinkCluster, the second half of api/v1beta1/flinkcluster_types.go, and the
-- resource itself. States are data types, as in `Api/Spec`.
use flink_on_k8s_operator.Base.{String, Option, List}
use flink_on_k8s_operator.Base.Int.{ℤ}
use flink_on_k8s_operator.Api.Spec.{FlinkClusterSpec}

pub data ClusterState : Type 0 where
  unset creating running reconciling stopping partially_stopped stopped : ClusterState
  other : String → ClusterState

pub data ComponentState : Type 0 where
  unset not_ready ready deleted : ComponentState
  other : String → ComponentState

pub data JobState : Type 0 where
  unset pending running succeeded failed cancelled unknown : JobState
  other : String → JobState

pub record FlinkClusterComponentState : Type 0 where
  pub name : String
  pub state : ComponentState

pub record JobStatus : Type 0 where
  pub name : String
  pub id : String
  pub state : JobState
  pub from_savepoint : String
  pub savepoint_generation : ℤ
  pub savepoint_location : String
  pub last_savepoint_trigger_id : String
  pub last_savepoint_time : String
  pub restart_count : ℤ

pub record JobManagerIngressStatus : Type 0 where
  pub name : String
  pub state : ComponentState
  pub urls : List String

pub record JobManagerServiceStatus : Type 0 where
  pub name : String
  pub state : ComponentState
  pub node_port : ℤ

pub record FlinkClusterComponentsStatus : Type 0 where
  pub config_map : FlinkClusterComponentState
  pub job_manager_deployment : FlinkClusterComponentState
  pub job_manager_service : JobManagerServiceStatus
  pub job_manager_ingress : Option JobManagerIngressStatus
  pub task_manager_deployment : FlinkClusterComponentState
  pub job : Option JobStatus

pub record FlinkClusterStatus : Type 0 where
  pub state : ClusterState
  pub components : FlinkClusterComponentsStatus
  pub last_update_time : String

-- The fields of the embedded `TypeMeta` and `ObjectMeta` that the operator reads.
pub record FlinkCluster : Type 0 where
  pub api_version : String
  pub kind : String
  pub namespace : String
  pub name : String
  pub uid : String
  pub spec : FlinkClusterSpec
  pub status : FlinkClusterStatus
