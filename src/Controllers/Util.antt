-- ===== src/Controllers/Util.antt =====
-- Names and small decisions, controllers/flinkcluster_util.go.
use Prim.Native.String.{◌++◌ as str_append}
use flink_on_k8s_operator.Base.{
  String, Option, none, some, Bool, true, false, not, ◌&&◌, List, [], ◌∷◌, ◌==◌, is_empty,
  format_int, if◌then◌else◌,
}
use flink_on_k8s_operator.Base.Run.{Run, done, panic, ◌>>=◌, deref}
use flink_on_k8s_operator.K8s.{PodSpec}
use flink_on_k8s_operator.Api.{JobRestartPolicy, JobState, JobStatus, FlinkCluster}

unfoldable pub get_config_map_name : String → String
get_config_map_name cluster_name = str_append cluster_name "-configmap"

unfoldable pub get_job_manager_deployment_name : String → String
get_job_manager_deployment_name cluster_name = str_append cluster_name "-jobmanager"

unfoldable pub get_job_manager_service_name : String → String
get_job_manager_service_name cluster_name = str_append cluster_name "-jobmanager"

unfoldable pub get_job_manager_ingress_name : String → String
get_job_manager_ingress_name cluster_name = str_append cluster_name "-jobmanager"

unfoldable pub get_task_manager_deployment_name : String → String
get_task_manager_deployment_name cluster_name = str_append cluster_name "-taskmanager"

unfoldable pub get_job_name : String → String
get_job_name cluster_name = str_append cluster_name "-job"

-- The UI port is dereferenced.
unfoldable pub get_flink_api_base_url : FlinkCluster → Run String
unfolding get_job_manager_service_name format_int
get_flink_api_base_url cluster = do
  ui ← deref cluster.spec.job_manager.ports.ui
  done (
      str_append "http://" (
        str_append (get_job_manager_service_name cluster.name) (
          str_append "."
            (str_append cluster.namespace (str_append ".svc.cluster.local:" (format_int ui))))))

abbrev is_restart_policy_from_savepoint : Option JobRestartPolicy → Bool
is_restart_policy_from_savepoint (some JobRestartPolicy.from_savepoint_on_failure) = true
is_restart_policy_from_savepoint _ = false

abbrev pub is_failed : JobState → Bool
is_failed JobState.failed = true
is_failed _ = false

abbrev failed_with_savepoint : Option JobStatus → Bool
failed_with_savepoint none = false
failed_with_savepoint (some status) =
    is_failed status.state && not (is_empty status.savepoint_location)

unfoldable pub should_restart_job : Option JobRestartPolicy → Option JobStatus → Bool
should_restart_job policy status =
    is_restart_policy_from_savepoint policy && failed_with_savepoint status

-- The loop of `getFromSavepoint`: the first `--fromSavepoint` that is not the last argument.
unfoldable pub from_savepoint_arg : List String → String
from_savepoint_arg [] = ""
from_savepoint_arg (arg ∷ []) = ""
from_savepoint_arg (arg ∷ next ∷ rest) =
    if arg == "--fromSavepoint" then next else from_savepoint_arg (next ∷ rest)

-- Of the first container of the pod.
unfoldable pub get_from_savepoint : PodSpec → Run String
unfolding from_savepoint_arg
get_from_savepoint pod = elim pod.containers [
  | [] ↦ panic
  | container ∷ _ ↦ done (from_savepoint_arg container.args)
]
