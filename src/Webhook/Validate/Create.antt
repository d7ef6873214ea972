-- ===== src/Webhook/Validate/Create.antt =====
-- Which clusters `ValidateCreate` accepts, field by field: flinkcluster_validate.go.
use flink_on_k8s_operator.Base.{
  String, Option, none, some, false, ◌≡◌, ◌↔◌, ◌⊎◌, arith, is_empty, is_set,
}
use flink_on_k8s_operator.Base.Int.{ℤ, pos, ◌≤ℤ◌, ◌<ℤ◌}
use flink_on_k8s_operator.K8s.{PullPolicy, Quantity}
use flink_on_k8s_operator.Api.{
  AccessScope, JobRestartPolicy, CleanupAction, ImageSpec, JobManagerSpec, TaskManagerSpec, JobSpec,
  HadoopConfig, GcpConfig, GcpServiceAccount, FlinkCluster,
}
use flink_on_k8s_operator.Webhook.Validate.{
  Error, ◌>>◌, validate_meta, validate_hadoop_config, has_suffix, validate_gcp_config,
  validate_image, validate_port, validate_memory_off_heap_ratio, validate_memory_off_heap_min,
  validate_job_manager, validate_task_manager, validate_cleanup_action, validate_job,
  validate_create,
}

abbrev pub NonEmpty : String → Type 0
NonEmpty s = is_empty s ≡ false

-- A pointer that is not nil, to a value with a property.
abbrev pub Given {ℓ} : {A : Type ℓ} → (A → Type 0) → Option A → Type 0
Given P none = ⊥
Given P (some a) = P a

-- A pointer that is nil, or points to a value with a property.
abbrev pub IfGiven {ℓ} : {A : Type ℓ} → (A → Type 0) → Option A → Type 0
IfGiven P none = Unit
IfGiven P (some a) = P a

abbrev pub IsPort : Option ℤ → Type 0
IsPort = Given (λ n. pos 1024 <ℤ n)

abbrev pub IsRatio : Option ℤ → Type 0
IsRatio = Given (λ n. (pos 0 ≤ℤ n) × (n ≤ℤ pos 100))

-- No memory limit, or one that leaves room for the off-heap minimum.
abbrev pub HasRoom : Quantity → Quantity → Type 0
HasRoom limit off_heap_min = (limit.value ≤ℤ pos 0) ⊎ (off_heap_min.value ≤ℤ limit.value)

abbrev pub IsKnownScope : AccessScope → Type 0
IsKnownScope s =
    (s ≡ AccessScope.cluster)
    ⊎ (s ≡ AccessScope.vpc)
    ⊎ (s ≡ AccessScope.external)
    ⊎ (s ≡ AccessScope.node_port)

abbrev pub IsKnownPullPolicy : PullPolicy → Type 0
IsKnownPullPolicy p =
    (p ≡ PullPolicy.always) ⊎ (p ≡ PullPolicy.if_not_present) ⊎ (p ≡ PullPolicy.never)

abbrev pub IsKnownAction : CleanupAction → Type 0
IsKnownAction a =
    (a ≡ CleanupAction.delete_cluster)
    ⊎ (a ≡ CleanupAction.delete_task_manager)
    ⊎ (a ≡ CleanupAction.keep_cluster)

abbrev pub IsHadoopConfig : HadoopConfig → Type 0
IsHadoopConfig hadoop = NonEmpty hadoop.config_map_name × NonEmpty hadoop.mount_path

abbrev pub IsServiceAccount : GcpServiceAccount → Type 0
IsServiceAccount sa =
    NonEmpty sa.secret_name
    × NonEmpty sa.key_file
    × NonEmpty sa.mount_path
    × (has_suffix sa.mount_path sa.key_file ≡ false)

pub record IsJobManager (jm : JobManagerSpec) : Type 0 where
  pub replicas : jm.replicas ≡ some (pos 1)
  pub access_scope : IsKnownScope jm.access_scope
  pub rpc : IsPort jm.ports.rpc
  pub blob : IsPort jm.ports.blob
  pub query : IsPort jm.ports.query
  pub ui : IsPort jm.ports.ui
  pub ratio : IsRatio jm.memory_off_heap_ratio
  pub memory : HasRoom jm.resources.limits_memory jm.memory_off_heap_min

pub record IsTaskManager (tm : TaskManagerSpec) : Type 0 where
  pub replicas : pos 1 ≤ℤ tm.replicas
  pub rpc : IsPort tm.ports.rpc
  pub data_port : IsPort tm.ports.data_port
  pub query : IsPort tm.ports.query
  pub ratio : IsRatio tm.memory_off_heap_ratio
  pub memory : HasRoom tm.resources.limits_memory tm.memory_off_heap_min

pub record IsNewJob (job : JobSpec) : Type 0 where
  pub jar_file : NonEmpty job.jar_file
  pub parallelism : Given (λ n. pos 1 ≤ℤ n) job.parallelism
  pub restart_policy :
      (job.restart_policy ≡ some JobRestartPolicy.never)
      ⊎ (job.restart_policy ≡ some JobRestartPolicy.from_savepoint_on_failure)
  pub cleanup_policy :
      Given
        (λ p. IsKnownAction p.after_job_succeeds × IsKnownAction p.after_job_fails)
        job.cleanup_policy
  pub not_cancelled : is_set job.cancel_requested ≡ false

-- What a new cluster must satisfy. Nothing is asked of `after_job_cancelled`, nor of a GCP
-- configuration without a service account.
pub record IsAcceptable (cluster : FlinkCluster) : Type 0 where
  pub name : NonEmpty cluster.name
  pub namespace : NonEmpty cluster.namespace
  pub hadoop : IfGiven IsHadoopConfig cluster.spec.hadoop_config
  pub gcp : IfGiven (λ gcp. IfGiven IsServiceAccount gcp.service_account) cluster.spec.gcp_config
  pub image : NonEmpty cluster.spec.image.name
  pub pull_policy : IsKnownPullPolicy cluster.spec.image.pull_policy
  pub job_manager : IsJobManager cluster.spec.job_manager
  pub task_manager : IsTaskManager cluster.spec.task_manager
  pub job : IfGiven IsNewJob cluster.spec.job

>>-eq-none_iff : (a b : Option Error) → ((a >> b) ≡ none) ↔ ((a ≡ none) × (b ≡ none))
>>-eq-none_iff a b = ground arith

validate_meta_iff :
    (c : FlinkCluster) → (validate_meta c ≡ none) ↔ (NonEmpty c.name × NonEmpty c.namespace)
unfolding validate_meta
validate_meta_iff c = ground arith

validate_hadoop_config_iff :
    (h : Option HadoopConfig) → (validate_hadoop_config h ≡ none) ↔ IfGiven IsHadoopConfig h
unfolding validate_hadoop_config
validate_hadoop_config_iff h = ground arith

validate_gcp_config_iff :
    (g : Option GcpConfig)
    → (validate_gcp_config g ≡ none)
      ↔ IfGiven (λ gcp. IfGiven IsServiceAccount gcp.service_account) g
unfolding validate_gcp_config
validate_gcp_config_iff none = ground arith
validate_gcp_config_iff (some gcp) = ground arith

validate_image_iff :
    (image : ImageSpec)
    → (validate_image image ≡ none) ↔ (NonEmpty image.name × IsKnownPullPolicy image.pull_policy)
unfolding validate_image
validate_image_iff image = ground arith

validate_port_iff :
    (port : Option ℤ) (name component : String)
    → (validate_port port name component ≡ none) ↔ IsPort port
unfolding validate_port
validate_port_iff port name component = ground arith

validate-IsRatio_iff :
    (r : Option ℤ) (component : String)
    → (validate_memory_off_heap_ratio r component ≡ none) ↔ IsRatio r
unfolding validate_memory_off_heap_ratio
validate-IsRatio_iff r component = ground arith

validate_memory_off_heap_min_iff :
    (off_heap_min limit : Quantity) (component : String)
    → (validate_memory_off_heap_min (some off_heap_min) limit component ≡ none)
      ↔ HasRoom limit off_heap_min
unfolding validate_memory_off_heap_min
validate_memory_off_heap_min_iff off_heap_min limit component = ground arith

validate_job_manager_iff :
    (jm : JobManagerSpec) → (validate_job_manager jm ≡ none) ↔ IsJobManager jm
unfolding validate_job_manager
validate_job_manager_iff jm = ground (
  arith,
  validate_port_iff jm.ports.rpc "rpc" "jobmanager",
  validate_port_iff jm.ports.blob "blob" "jobmanager",
  validate_port_iff jm.ports.query "query" "jobmanager",
  validate_port_iff jm.ports.ui "ui" "jobmanager",
  validate-IsRatio_iff jm.memory_off_heap_ratio "jobmanager",
  validate_memory_off_heap_min_iff jm.memory_off_heap_min jm.resources.limits_memory "jobmanager",
)

validate_task_manager_iff :
    (tm : TaskManagerSpec) → (validate_task_manager tm ≡ none) ↔ IsTaskManager tm
unfolding validate_task_manager
validate_task_manager_iff tm = ground (
  arith,
  validate_port_iff tm.ports.rpc "rpc" "taskmanager",
  validate_port_iff tm.ports.data_port "data" "taskmanager",
  validate_port_iff tm.ports.query "query" "taskmanager",
  validate-IsRatio_iff tm.memory_off_heap_ratio "taskmanager",
  validate_memory_off_heap_min_iff tm.memory_off_heap_min tm.resources.limits_memory "taskmanager",
)

validate_job_iff : (job : Option JobSpec) → (validate_job job ≡ none) ↔ IfGiven IsNewJob job
unfolding validate_job validate_cleanup_action
validate_job_iff none = ground arith
validate_job_iff (some job) = ground arith

-- The validator accepts a new cluster exactly when every field meets its condition.
pub validate_create_iff :
    (cluster : FlinkCluster) → (validate_create cluster ≡ none) ↔ IsAcceptable cluster
unfolding validate_create
validate_create_iff c = ground (
  arith,
  validate_meta_iff c,
  validate_hadoop_config_iff c.spec.hadoop_config,
  validate_gcp_config_iff c.spec.gcp_config,
  validate_image_iff c.spec.image,
  validate_job_manager_iff c.spec.job_manager,
  validate_task_manager_iff c.spec.task_manager,
  validate_job_iff c.spec.job,
)
