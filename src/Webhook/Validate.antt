-- ===== src/Webhook/Validate.antt =====
-- The validating webhook, api/v1beta1/flinkcluster_validate.go. An `error` is an `Option`, `none`
-- for nil; each message of the source is a constructor with the values that it prints.
pub mod Create
pub mod Update
pub mod History
use flink_on_k8s_operator.Base.{
  String, Option, none, some, Bool, true, false, not, ◌&&◌, ◌||◌, ◌==◌, is_empty, is_set,
  if◌then◌else◌,
}
use flink_on_k8s_operator.Base.Int.{ℤ, pos, ltb_ℤ, leb_ℤ, eqb_ℤ, succ_int32}
use flink_on_k8s_operator.K8s.{PullPolicy, Quantity}
use flink_on_k8s_operator.Api.{
  AccessScope, JobRestartPolicy, CleanupAction, CleanupPolicy, ImageSpec, JobManagerSpec,
  TaskManagerSpec, JobSpec, HadoopConfig, GcpConfig, GcpServiceAccount, JobStatus, FlinkClusterSpec,
  FlinkCluster, equal_specs,
}

pub data Error : Type 0 where
  name_unspecified namespace_unspecified : Error
  hadoop_config_map_unspecified hadoop_mount_path_unspecified : Error
  gcp_secret_unspecified gcp_key_file_unspecified gcp_mount_path_unspecified : Error
  gcp_mount_path_invalid : Error
  image_unspecified : Error
  invalid_pull_policy : PullPolicy → Error
  invalid_job_manager_replicas invalid_task_manager_replicas : Error
  invalid_access_scope : AccessScope → Error
  port_unspecified : (component port : String) → Error
  invalid_port : (component port : String) → ℤ → Error
  invalid_off_heap_ratio off_heap_min_unspecified invalid_off_heap_min :
      (component : String) → Error
  jar_file_unspecified parallelism_unspecified invalid_parallelism : Error
  restart_policy_unspecified cleanup_policy_unspecified : Error
  invalid_restart_policy : JobRestartPolicy → Error
  invalid_cleanup_action : (property : String) → CleanupAction → Error
  cancel_requested_for_new_job : Error
  cancel_requested_withdrawn : Error
  wrong_savepoint_generation : ℤ → Error
  immutable : Error

-- `if err != nil { return err }` between two checks.
infixl 5 ◌>>◌
abbrev pub ◌>>◌ : Option Error → Option Error → Option Error
none >> next = next
some e >> next = some e

abbrev pub refuse_if : Bool → Error → Option Error
refuse_if b e = if b then some e else none

unfoldable pub validate_meta : FlinkCluster → Option Error
validate_meta cluster = do
  refuse_if (is_empty cluster.name) name_unspecified
  refuse_if (is_empty cluster.namespace) namespace_unspecified

unfoldable pub validate_hadoop_config : Option HadoopConfig → Option Error
validate_hadoop_config none = none
validate_hadoop_config (some hadoop) = do
  refuse_if (is_empty hadoop.config_map_name) hadoop_config_map_unspecified
  refuse_if (is_empty hadoop.mount_path) hadoop_mount_path_unspecified

-- `strings.HasSuffix`.
unfoldable pub has_suffix : String → String → Bool
has_suffix String.[] suffix = is_empty suffix
has_suffix (String.◌∷◌ c s) suffix = String.◌∷◌ c s == suffix || has_suffix s suffix

validate_service_account : Option GcpServiceAccount → Option Error
validate_service_account none = none
validate_service_account (some sa) = do
  refuse_if (is_empty sa.secret_name) gcp_secret_unspecified
  refuse_if (is_empty sa.key_file) gcp_key_file_unspecified
  refuse_if (is_empty sa.mount_path) gcp_mount_path_unspecified
  refuse_if (has_suffix sa.mount_path sa.key_file) gcp_mount_path_invalid

unfoldable pub validate_gcp_config : Option GcpConfig → Option Error
unfolding validate_service_account
validate_gcp_config none = none
validate_gcp_config (some gcp) = validate_service_account gcp.service_account

validate_pull_policy : PullPolicy → Option Error
validate_pull_policy PullPolicy.always = none
validate_pull_policy PullPolicy.if_not_present = none
validate_pull_policy PullPolicy.never = none
validate_pull_policy p = some (invalid_pull_policy p)

unfoldable pub validate_image : ImageSpec → Option Error
unfolding validate_pull_policy
validate_image image = do
  refuse_if (is_empty image.name) image_unspecified
  validate_pull_policy image.pull_policy

unfoldable pub validate_port : Option ℤ → String → String → Option Error
validate_port none name component = some (port_unspecified component name)
validate_port (some port) name component =
    refuse_if (leb_ℤ port (pos 1024)) (invalid_port component name port)

unfoldable pub validate_memory_off_heap_ratio : Option ℤ → String → Option Error
validate_memory_off_heap_ratio none component = some (invalid_off_heap_ratio component)
validate_memory_off_heap_ratio (some ratio) component =
    refuse_if (ltb_ℤ (pos 100) ratio || ltb_ℤ ratio (pos 0)) (invalid_off_heap_ratio component)

unfoldable pub validate_memory_off_heap_min : Option Quantity → Quantity → String → Option Error
validate_memory_off_heap_min none limit component = some (off_heap_min_unspecified component)
validate_memory_off_heap_min (some off_heap_min) limit component =
    refuse_if (ltb_ℤ (pos 0) limit.value && ltb_ℤ limit.value off_heap_min.value)
      (invalid_off_heap_min component)

unfoldable pub validate_job_manager_replicas : Option ℤ → Option Error
validate_job_manager_replicas none = some invalid_job_manager_replicas
validate_job_manager_replicas (some n) =
    refuse_if (not (eqb_ℤ n (pos 1))) invalid_job_manager_replicas

unfoldable pub validate_access_scope : AccessScope → Option Error
validate_access_scope AccessScope.cluster = none
validate_access_scope AccessScope.vpc = none
validate_access_scope AccessScope.external = none
validate_access_scope AccessScope.node_port = none
validate_access_scope s = some (invalid_access_scope s)

unfoldable pub validate_job_manager : JobManagerSpec → Option Error
unfolding validate_job_manager_replicas validate_access_scope
validate_job_manager jm = do
  validate_job_manager_replicas jm.replicas
  validate_access_scope jm.access_scope
  validate_port jm.ports.rpc "rpc" "jobmanager"
  validate_port jm.ports.blob "blob" "jobmanager"
  validate_port jm.ports.query "query" "jobmanager"
  validate_port jm.ports.ui "ui" "jobmanager"
  validate_memory_off_heap_ratio jm.memory_off_heap_ratio "jobmanager"
  validate_memory_off_heap_min (some jm.memory_off_heap_min) jm.resources.limits_memory "jobmanager"

unfoldable pub validate_task_manager : TaskManagerSpec → Option Error
validate_task_manager tm = do
  refuse_if (ltb_ℤ tm.replicas (pos 1)) invalid_task_manager_replicas
  validate_port tm.ports.rpc "rpc" "taskmanager"
  validate_port tm.ports.data_port "data" "taskmanager"
  validate_port tm.ports.query "query" "taskmanager"
  validate_memory_off_heap_ratio tm.memory_off_heap_ratio "taskmanager"
  validate_memory_off_heap_min (some tm.memory_off_heap_min) tm.resources.limits_memory
      "taskmanager"

unfoldable pub validate_cleanup_action : String → CleanupAction → Option Error
validate_cleanup_action property CleanupAction.delete_cluster = none
validate_cleanup_action property CleanupAction.delete_task_manager = none
validate_cleanup_action property CleanupAction.keep_cluster = none
validate_cleanup_action property action = some (invalid_cleanup_action property action)

validate_parallelism : Option ℤ → Option Error
validate_parallelism none = some parallelism_unspecified
validate_parallelism (some n) = refuse_if (ltb_ℤ n (pos 1)) invalid_parallelism

validate_restart_policy : Option JobRestartPolicy → Option Error
validate_restart_policy none = some restart_policy_unspecified
validate_restart_policy (some JobRestartPolicy.never) = none
validate_restart_policy (some JobRestartPolicy.from_savepoint_on_failure) = none
validate_restart_policy (some p) = some (invalid_restart_policy p)

validate_cleanup_policy : Option CleanupPolicy → Option Error
validate_cleanup_policy none = some cleanup_policy_unspecified
validate_cleanup_policy (some policy) = do
  validate_cleanup_action "cleanupPolicy.afterJobSucceeds" policy.after_job_succeeds
  validate_cleanup_action "cleanupPolicy.afterJobFails" policy.after_job_fails

unfoldable pub validate_job : Option JobSpec → Option Error
unfolding validate_parallelism validate_restart_policy validate_cleanup_policy
validate_job none = none
validate_job (some job) = do
  refuse_if (is_empty job.jar_file) jar_file_unspecified
  validate_parallelism job.parallelism
  validate_restart_policy job.restart_policy
  validate_cleanup_policy job.cleanup_policy
  refuse_if (is_set job.cancel_requested) cancel_requested_for_new_job

unfoldable pub validate_create : FlinkCluster → Option Error
validate_create cluster = do
  validate_meta cluster
  validate_hadoop_config cluster.spec.hadoop_config
  validate_gcp_config cluster.spec.gcp_config
  validate_image cluster.spec.image
  validate_job_manager cluster.spec.job_manager
  validate_task_manager cluster.spec.task_manager
  validate_job cluster.spec.job

-- The result of a check that returns `(bool, error)`.
pub data Checked : Type 0 where
  fails : Error → Checked
  returns : Bool → Checked

unfoldable pub check_cancel_of :
    FlinkCluster → FlinkCluster → Option JobSpec → Option JobSpec → Checked
check_cancel_of old new (some old_job) (some new_job) =
    if is_set old_job.cancel_requested && not (is_set new_job.cancel_requested)
    then fails cancel_requested_withdrawn
    else if not (is_set old_job.cancel_requested) && is_set new_job.cancel_requested
    then returns (
        equal_specs new.spec (record old.spec {
          job = some (record old_job { cancel_requested = new_job.cancel_requested });
        }))
    else returns false
check_cancel_of old new _ _ = returns false

unfoldable pub check_cancel_requested : FlinkCluster → FlinkCluster → Checked
unfolding check_cancel_of
check_cancel_requested old new = check_cancel_of old new old.spec.job new.spec.job

-- The generation in the status, 0 when the status names no job.
abbrev pub status_generation : Option JobStatus → ℤ
status_generation none = pos 0
status_generation (some status) = status.savepoint_generation

unfoldable pub check_generation_of :
    FlinkCluster → FlinkCluster → Option JobSpec → Option JobSpec → Checked
check_generation_of old new (some old_job) (some new_job) =
    let next = succ_int32 (status_generation old.status.components.job) in
    if eqb_ℤ old_job.savepoint_generation new_job.savepoint_generation
    then returns false
    else if not (eqb_ℤ new_job.savepoint_generation next)
    then fails (wrong_savepoint_generation next)
    else returns (
        equal_specs new.spec (record old.spec {
          job = some (record old_job { savepoint_generation = new_job.savepoint_generation });
        }))
check_generation_of old new _ _ = returns false

unfoldable pub check_savepoint_generation : FlinkCluster → FlinkCluster → Checked
unfolding check_generation_of
check_savepoint_generation old new = check_generation_of old new old.spec.job new.spec.job

-- `if err != nil { return err }; if updated { return nil }` before the rest of the checks.
abbrev pub accept_or : Checked → Option Error → Option Error
accept_or (fails e) rest = some e
accept_or (returns true) rest = none
accept_or (returns false) rest = rest

unfoldable pub validate_update : FlinkCluster → FlinkCluster → Option Error
validate_update old new = accept_or (check_cancel_requested old new) (
    accept_or (check_savepoint_generation old new)
      (if equal_specs new.spec old.spec then none else some immutable))
