-- ===== src/Controllers/Updater/Status.antt =====
-- `deriveClusterStatus`, put together from its blocks.
use flink_on_k8s_operator.Base.{ℕ, ◌+◌, Option}
use flink_on_k8s_operator.Base.Run.{Run, done, ◌>>=◌}
use flink_on_k8s_operator.Api.{
  ComponentState, JobStatus, FlinkClusterComponentsStatus, FlinkClusterStatus, FlinkCluster,
}
use flink_on_k8s_operator.Controllers.State.{ObservedClusterState}
use flink_on_k8s_operator.Controllers.Updater.{
  derive_config_map, derive_deployment, derive_service, derive_ingress,
}
use flink_on_k8s_operator.Controllers.Updater.Derive.{get_flink_job_id, derive_job, derive_state}

-- `runningComponents++` where a block finds its component ready.
abbrev pub ready_count : ComponentState → ℕ
ready_count ComponentState.ready = 1
ready_count _ = 0

-- The status of the components, with that of the job given.
unfoldable pub derive_components :
    FlinkClusterComponentsStatus
    → ObservedClusterState
    → Option JobStatus
    → FlinkClusterComponentsStatus
derive_components recorded observed job = record {
  config_map = derive_config_map observed.config_map recorded.config_map;
  job_manager_deployment = derive_deployment observed.jm_deployment recorded.job_manager_deployment;
  job_manager_service = derive_service observed.jm_service recorded.job_manager_service;
  job_manager_ingress = derive_ingress observed.jm_ingress recorded.job_manager_ingress;
  task_manager_deployment =
      derive_deployment observed.tm_deployment recorded.task_manager_deployment;
  job = job;
}

-- How many of the JobManager deployment, the JobManager service and the TaskManager deployment run.
abbrev pub running_components : FlinkClusterComponentsStatus → ℕ
running_components c =
    ready_count c.job_manager_deployment.state
    + ready_count c.job_manager_service.state
    + ready_count c.task_manager_deployment.state

-- `recorded` is the status of `cluster`, which was observed.
unfoldable pub derive_cluster_status : FlinkCluster → ObservedClusterState → Run FlinkClusterStatus
derive_cluster_status cluster observed = do
  let recorded = cluster.status
  let flink_job_id = get_flink_job_id observed.flink_job_id recorded.components.job
  (job, flags) ← derive_job observed.job flink_job_id recorded.components.job cluster.spec.job
  let components = derive_components recorded.components observed job
  state ← derive_state recorded.state flags (running_components components) cluster.spec.job
  done (record { state = state; components = components; last_update_time = "" })
