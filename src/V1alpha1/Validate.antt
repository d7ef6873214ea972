-- ===== src/V1alpha1/Validate.antt =====
-- The validating webhook of the version, api/v1alpha1/flinkcluster_validate.go. An error names the access
-- scope by its text.
use flink_on_k8s_operator.Base.{
  Option, none, some, false, not, ◌&&◌, is_empty, is_set, if◌then◌else◌,
}
use flink_on_k8s_operator.Base.Int.{eqb_ℤ, succ_int32}
use flink_on_k8s_operator.Api.{JobSpec}
use flink_on_k8s_operator.Webhook.Validate.{
  Error, name_unspecified, namespace_unspecified, invalid_access_scope, cancel_requested_withdrawn,
  wrong_savepoint_generation, immutable, ◌>>◌, refuse_if, validate_hadoop_config,
  validate_gcp_config, validate_image, validate_job_manager_replicas, validate_port,
  validate_memory_off_heap_ratio, validate_memory_off_heap_min, validate_task_manager, validate_job,
  Checked, fails, returns, status_generation, accept_or,
}
use flink_on_k8s_operator.V1alpha1.Types.{AccessScope, JobManagerSpec, FlinkCluster, equal_specs}
use flink_on_k8s_operator.V1alpha1.Upgrade.{upgrade_scope}

unfoldable pub validate_meta : FlinkCluster → Option Error
validate_meta cluster = do
  refuse_if (is_empty cluster.name) name_unspecified
  refuse_if (is_empty cluster.namespace) namespace_unspecified

unfoldable pub validate_access_scope : AccessScope → Option Error
validate_access_scope AccessScope.cluster = none
validate_access_scope AccessScope.vpc = none
validate_access_scope AccessScope.external = none
validate_access_scope s = some (invalid_access_scope (upgrade_scope s))

unfoldable pub validate_job_manager : JobManagerSpec → Option Error
validate_job_manager jm = do
  validate_job_manager_replicas jm.replicas
  validate_access_scope jm.access_scope
  validate_port jm.ports.rpc "rpc" "jobmanager"
  validate_port jm.ports.blob "blob" "jobmanager"
  validate_port jm.ports.query "query" "jobmanager"
  validate_port jm.ports.ui "ui" "jobmanager"
  validate_memory_off_heap_ratio jm.memory_off_heap_ratio "jobmanager"
  validate_memory_off_heap_min (some jm.memory_off_heap_min) jm.resources.limits_memory "jobmanager"

unfoldable pub validate_create : FlinkCluster → Option Error
validate_create cluster = do
  validate_meta cluster
  validate_hadoop_config cluster.spec.hadoop_config
  validate_gcp_config cluster.spec.gcp_config
  validate_image cluster.spec.image
  validate_job_manager cluster.spec.job_manager
  validate_task_manager cluster.spec.task_manager
  validate_job cluster.spec.job

unfoldable pub check_cancel_of :
    FlinkCluster → FlinkCluster → Option JobSpec → Option JobSpec → Checked
check_cancel_of old new (some old_job) (some new_job) =
    if is_set old_job.cancel_requested && not (is_set new_job.cancel_requested)
    then fails cancel_requested_withdrawn
    else if not (is_set old_job.cancel_requested) && is_set new_job.cancel_requested
    then returns (
        equal_specs new.spec (record (old.spec) {
          job = some (record old_job { cancel_requested = new_job.cancel_requested });
        }))
    else returns false
check_cancel_of old new _ _ = returns false

unfoldable pub check_cancel_requested : FlinkCluster → FlinkCluster → Checked
check_cancel_requested old new = check_cancel_of old new old.spec.job new.spec.job

unfoldable pub check_generation_of :
    FlinkCluster → FlinkCluster → Option JobSpec → Option JobSpec → Checked
check_generation_of old new (some old_job) (some new_job) =
    let next = succ_int32 (status_generation old.status.components.job) in
    if eqb_ℤ old_job.savepoint_generation new_job.savepoint_generation
    then returns false
    else if not (eqb_ℤ new_job.savepoint_generation next)
    then fails (wrong_savepoint_generation next)
    else returns (
        equal_specs new.spec (record (old.spec) {
          job = some (record old_job { savepoint_generation = new_job.savepoint_generation });
        }))
check_generation_of old new _ _ = returns false

unfoldable pub check_savepoint_generation : FlinkCluster → FlinkCluster → Checked
check_savepoint_generation old new = check_generation_of old new old.spec.job new.spec.job

unfoldable pub validate_update : FlinkCluster → FlinkCluster → Option Error
validate_update old new = accept_or (check_cancel_requested old new) (
    accept_or (check_savepoint_generation old new)
      (if equal_specs new.spec old.spec then none else some immutable))
