-- ===== src/Controllers/Converter.antt =====
-- The parts that the desired objects share, controllers/flinkcluster_converter.go.
pub mod Cleanup
pub mod Mounts
pub mod Objects
pub mod Job
pub mod HeapSize
pub mod LogConf
pub mod Properties
pub mod ConfigMap
pub mod Ingress
pub mod Desired
pub mod Tests
use Prim.Native.String.{◌++◌ as str_append}
use flink_on_k8s_operator.Base.{
  String, Option, none, some, Bool, true, false, not, ◌&&◌, ◌||◌, List, [], ◌∷◌, ◌++◌, ◌==◌,
  is_empty, if◌then◌else◌, map,
}
use flink_on_k8s_operator.Base.Run.{Run, done, panic, ◌>>=◌, deref}
use flink_on_k8s_operator.K8s.{OwnerReference, Volume, VolumeSource, VolumeMount, EnvVar, Container}
use flink_on_k8s_operator.Api.{
  JobState, CleanupAction, CleanupPolicy, JobSpec, JobStatus, HadoopConfig, GcpConfig, FlinkCluster,
}
use flink_on_k8s_operator.Webhook.Validate.{has_suffix}
use flink_on_k8s_operator.Controllers.Util.{get_config_map_name, should_restart_job}

-- The components that the source names by a string.
pub data Component : Type 0 where
  config_map job_manager_deployment job_manager_service job_manager_ingress : Component
  task_manager_deployment : Component

abbrev is_task_manager : Component → Bool
is_task_manager Component.task_manager_deployment = true
is_task_manager _ = false

-- The action of the policy for a job that has ended; none for any other state.
abbrev pub ended_action : JobState → Option (CleanupPolicy → CleanupAction)
ended_action JobState.succeeded = some (λ p. p.after_job_succeeds)
ended_action JobState.failed = some (λ p. p.after_job_fails)
ended_action JobState.cancelled = some (λ p. p.after_job_cancelled)
ended_action _ = none

abbrev pub removes : CleanupAction → Component → Bool
removes CleanupAction.delete_cluster component = true
removes CleanupAction.delete_task_manager component = is_task_manager component
removes _ component = false

-- The policy is dereferenced only for a job that has ended.
abbrev cleanup_by : Option (CleanupPolicy → CleanupAction) → Option JobSpec → Component → Run Bool
cleanup_by none spec component = done false
cleanup_by (some action) spec component = do
  job ← deref spec
  policy ← deref job.cleanup_policy
  done (removes (action policy) component)

unfoldable pub should_cleanup : FlinkCluster → Component → Run Bool
should_cleanup cluster component = elim (cluster.status.components.job) [
  | none ↦ done false
  | some job ↦ cleanup_by (ended_action job.state) cluster.spec.job component
]

unfoldable pub to_owner_reference : FlinkCluster → OwnerReference
to_owner_reference cluster = record {
  api_version = cluster.api_version;
  kind = cluster.kind;
  name = cluster.name;
  uid = cluster.uid;
  controller = true;
  block_owner_deletion = false;
}

abbrev savepoint_of : Option JobStatus → Option String
savepoint_of none = none
savepoint_of (some status) = some status.savepoint_location

unfoldable pub convert_from_savepoint : JobSpec → Option JobStatus → Option String
convert_from_savepoint job status =
    if should_restart_job job.restart_policy status then savepoint_of status else job.from_savepoint

-- A volume, where it is mounted, and the variable that tells.
pub record Attached : Type 0 where
  pub volume : Volume
  pub mount : VolumeMount
  pub env : EnvVar

unfoldable pub convert_flink_config : String → Volume × VolumeMount
unfolding get_config_map_name
convert_flink_config cluster_name = (
  record {
    name = "flink-config-volume";
    source = VolumeSource.config_map (get_config_map_name cluster_name);
  },
  record { name = "flink-config-volume"; mount_path = "/opt/flink/conf"; read_only = false },
)

-- The three results of the source are nil together.
unfoldable pub convert_hadoop_config : Option HadoopConfig → Option Attached
convert_hadoop_config none = none
convert_hadoop_config (some hadoop) = some (record {
  volume = record {
    name = "hadoop-config-volume";
    source = VolumeSource.config_map hadoop.config_map_name;
  };
  mount = record {
    name = "hadoop-config-volume";
    mount_path = hadoop.mount_path;
    read_only = true;
  };
  env = record { name = "HADOOP_CONF_DIR"; value = hadoop.mount_path; value_from = none };
})

abbrev with_slash : String → String
with_slash path = if has_suffix path "/" then path else str_append path "/"

-- The service account is dereferenced.
unfoldable pub convert_gcp_config : Option GcpConfig → Run (Option Attached)
unfolding has_suffix
convert_gcp_config none = done none
convert_gcp_config (some gcp) = do
  sa ← deref gcp.service_account
  done (
      some (record {
        volume = record {
          name = "gcp-service-account-volume";
          source = VolumeSource.secret sa.secret_name;
        };
        mount = record {
          name = "gcp-service-account-volume";
          mount_path = with_slash sa.mount_path;
          read_only = true;
        };
        env = record {
          name = "GOOGLE_APPLICATION_CREDENTIALS";
          value = str_append (with_slash sa.mount_path) sa.key_file;
          value_from = none;
        };
      }))

-- `if v != nil { vs = append(vs, *v) }`
abbrev pub attached {ℓ} : {A : Type ℓ} → (Attached → A) → Option Attached → List A
attached field none = []
attached field (some a) = field a ∷ []

-- The job's mounts are added to an init container, each unless one is there at its path.
unfoldable pub has_mount_at : String → List VolumeMount → Bool
has_mount_at path [] = false
has_mount_at path (mount ∷ mounts) = path == mount.mount_path || has_mount_at path mounts

unfoldable pub add_mounts : List VolumeMount → List VolumeMount → List VolumeMount
unfolding has_mount_at
add_mounts mounts [] = mounts
add_mounts mounts (job_mount ∷ rest) =
    add_mounts
      (if has_mount_at job_mount.mount_path mounts then mounts else mounts ++ job_mount ∷ []) rest

unfoldable pub convert_job_init_containers : JobSpec → List Container
unfolding add_mounts
convert_job_init_containers job =
    map
      (λ (container : Container). record container {
        volume_mounts = add_mounts container.volume_mounts job.volume_mounts;
      })
      job.init_containers
