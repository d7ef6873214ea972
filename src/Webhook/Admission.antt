-- ===== src/Webhook/Admission.antt =====
-- A new cluster passes the mutating webhook and then the validating one: flinkcluster_webhook.go.
use flink_on_k8s_operator.Base.{
  Option, none, some, false, ◌≡◌, ◌⊎◌, is_empty, is_set, if◌then◌else◌,
}
use flink_on_k8s_operator.Base.Int.{ℤ, pos, ◌≤ℤ◌, ◌<ℤ◌}
use flink_on_k8s_operator.K8s.{PullPolicy, Quantity}
use flink_on_k8s_operator.Api.{
  AccessScope, JobRestartPolicy, JobManagerSpec, TaskManagerSpec, JobSpec, FlinkCluster,
}
use flink_on_k8s_operator.Webhook.Default.{default_off_heap_min}
use flink_on_k8s_operator.Webhook.Validate.Create.{
  NonEmpty, IfGiven, HasRoom, IsKnownScope, IsKnownPullPolicy, IsKnownAction, IsServiceAccount,
}

abbrev pub IsPortIfGiven : Option ℤ → Type 0
IsPortIfGiven = IfGiven (λ n. pos 1024 <ℤ n)

abbrev pub IsRatioIfGiven : Option ℤ → Type 0
IsRatioIfGiven = IfGiven (λ n. (pos 0 ≤ℤ n) × (n ≤ℤ pos 100))

-- The off-heap minimum is the default one if none was given.
abbrev pub HasRoomOrDefault : Quantity → Quantity → Type 0
HasRoomOrDefault limit q = HasRoom limit (if is_empty q.format then default_off_heap_min else q)

pub record IsJobManagerIfGiven (jm : JobManagerSpec) : Type 0 where
  pub replicas : IfGiven (λ n. n ≡ pos 1) jm.replicas
  pub access_scope : (jm.access_scope ≡ AccessScope.unset) ⊎ IsKnownScope jm.access_scope
  pub rpc : IsPortIfGiven jm.ports.rpc
  pub blob : IsPortIfGiven jm.ports.blob
  pub query : IsPortIfGiven jm.ports.query
  pub ui : IsPortIfGiven jm.ports.ui
  pub ratio : IsRatioIfGiven jm.memory_off_heap_ratio
  pub memory : HasRoomOrDefault jm.resources.limits_memory jm.memory_off_heap_min

pub record IsTaskManagerIfGiven (tm : TaskManagerSpec) : Type 0 where
  pub replicas : pos 1 ≤ℤ tm.replicas
  pub rpc : IsPortIfGiven tm.ports.rpc
  pub data_port : IsPortIfGiven tm.ports.data_port
  pub query : IsPortIfGiven tm.ports.query
  pub ratio : IsRatioIfGiven tm.memory_off_heap_ratio
  pub memory : HasRoomOrDefault tm.resources.limits_memory tm.memory_off_heap_min

pub record IsJobIfGiven (job : JobSpec) : Type 0 where
  pub jar_file : NonEmpty job.jar_file
  pub parallelism : IfGiven (λ n. pos 1 ≤ℤ n) job.parallelism
  pub restart_policy :
      (job.restart_policy ≡ none)
      ⊎ (job.restart_policy ≡ some JobRestartPolicy.never)
      ⊎ (job.restart_policy ≡ some JobRestartPolicy.from_savepoint_on_failure)
  pub cleanup_policy :
      IfGiven
        (λ p. IsKnownAction p.after_job_succeeds × IsKnownAction p.after_job_fails)
        job.cleanup_policy
  pub not_cancelled : is_set job.cancel_requested ≡ false

-- What is asked of a new cluster in the values that its author wrote, and of nothing else.
pub record IsWelcome (cluster : FlinkCluster) : Type 0 where
  pub name : NonEmpty cluster.name
  pub namespace : NonEmpty cluster.namespace
  pub hadoop : IfGiven (λ h. NonEmpty h.config_map_name) cluster.spec.hadoop_config
  pub gcp : IfGiven (λ gcp. IfGiven IsServiceAccount gcp.service_account) cluster.spec.gcp_config
  pub image : NonEmpty cluster.spec.image.name
  pub pull_policy :
      (cluster.spec.image.pull_policy ≡ PullPolicy.unset)
      ⊎ IsKnownPullPolicy cluster.spec.image.pull_policy
  pub job_manager : IsJobManagerIfGiven cluster.spec.job_manager
  pub task_manager : IsTaskManagerIfGiven cluster.spec.task_manager
  pub job : IfGiven IsJobIfGiven cluster.spec.job
