-- ===== src/Controllers/Converter/Desired.antt =====
-- The desired state of a cluster, `getDesiredClusterState` of controllers/flinkcluster_converter.go.
pub mod Promise
pub mod Total
use flink_on_k8s_operator.Base.{Option, none, some}
use flink_on_k8s_operator.Base.Run.{Run, done, panic, ◌>>=◌}
use flink_on_k8s_operator.Api.{FlinkCluster}
use flink_on_k8s_operator.Controllers.State.{DesiredClusterState}
use flink_on_k8s_operator.Controllers.Converter.HeapSize.{Float64}
use flink_on_k8s_operator.Controllers.Converter.ConfigMap.{get_desired_config_map}
use flink_on_k8s_operator.Controllers.Converter.Ingress.{get_desired_job_manager_ingress}
use flink_on_k8s_operator.Controllers.Converter.Job.{get_desired_job}
use flink_on_k8s_operator.Controllers.Converter.Objects.{
  get_desired_job_manager_deployment, get_desired_task_manager_deployment,
  get_desired_job_manager_service,
}

abbrev pub nothing_desired : DesiredClusterState
nothing_desired = record {
  jm_deployment = none;
  jm_service = none;
  jm_ingress = none;
  tm_deployment = none;
  config_map = none;
  job = none;
}

-- The fields are computed in the order in which the source writes them.
unfoldable pub desired_state_of : Float64 → FlinkCluster → Run DesiredClusterState
desired_state_of f cluster = do
  config_map ← get_desired_config_map f cluster
  jm_deployment ← get_desired_job_manager_deployment cluster
  jm_service ← get_desired_job_manager_service cluster
  jm_ingress ← get_desired_job_manager_ingress cluster
  tm_deployment ← get_desired_task_manager_deployment cluster
  job ← get_desired_job cluster
  done (record {
    jm_deployment = jm_deployment;
    jm_service = jm_service;
    jm_ingress = jm_ingress;
    tm_deployment = tm_deployment;
    config_map = config_map;
    job = job;
  })

-- Of a deleted cluster everything is cleaned up.
unfoldable pub get_desired_cluster_state : Float64 → Option FlinkCluster → Run DesiredClusterState
unfolding desired_state_of
get_desired_cluster_state f none = done nothing_desired
get_desired_cluster_state f (some cluster) = desired_state_of f cluster
