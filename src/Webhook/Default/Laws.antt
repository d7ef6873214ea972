-- ===== src/Webhook/Default/Laws.antt =====
-- What defaulting does to a spec, as a whole: flinkcluster_default.go.
use mathlib.Core.Option
use flink_on_k8s_operator.Base.{Option, none, some, false, ◌≡◌, refl, ◌≢◌, arith, is_empty}
use flink_on_k8s_operator.K8s.{PullPolicy}
use flink_on_k8s_operator.Api.{
  AccessScope, ImageSpec, JobManagerSpec, TaskManagerSpec, JobSpec, HadoopConfig, FlinkClusterSpec,
  FlinkCluster, JobManagerIngressSpec,
}
use flink_on_k8s_operator.Webhook.Default.{
  set_image_default, set_job_manager_default, set_task_manager_default, set_job_default,
  set_hadoop_config_default, set_default, set_ingress_default,
}

-- A pointer keeps the value that the user gave.
abbrev pub Keeps {ℓ} : {A : Type ℓ} → Option A → Option A → Type ℓ
Keeps {A} old new = (a : A) → old ≡ some a → new ≡ some a

-- A pointer is kept as it is when it is nil, else its value keeps what was given in it.
abbrev pub KeepsWithin {ℓ} : {A : Type ℓ} → (A → A → Type 0) → Option A → Option A → Type ℓ
KeepsWithin P none new = new ≡ none
KeepsWithin {A} P (some old) new = (a : A) × (new ≡ some a) × P old a

pub record KeepsIngress (old new : JobManagerIngressSpec) : Type 0 where
  pub host_format : new.host_format ≡ old.host_format
  pub annotations : new.annotations ≡ old.annotations
  pub use_tls : Keeps old.use_tls new.use_tls
  pub tls_secret_name : new.tls_secret_name ≡ old.tls_secret_name

pub record KeepsHadoop (old new : HadoopConfig) : Type 0 where
  pub config_map_name : new.config_map_name ≡ old.config_map_name
  pub mount_path : is_empty old.mount_path ≡ false → new.mount_path ≡ old.mount_path

-- What the user gave in an image, a JobManager, a TaskManager, a job: kept.
pub record KeepsImage (old new : ImageSpec) : Type 0 where
  pub name : new.name ≡ old.name
  pub pull_policy : old.pull_policy ≢ PullPolicy.unset → new.pull_policy ≡ old.pull_policy
  pub pull_secrets : new.pull_secrets ≡ old.pull_secrets

pub record KeepsJobManager (old new : JobManagerSpec) : Type 0 where
  pub replicas : Keeps old.replicas new.replicas
  pub access_scope : old.access_scope ≢ AccessScope.unset → new.access_scope ≡ old.access_scope
  pub rpc : Keeps old.ports.rpc new.ports.rpc
  pub blob : Keeps old.ports.blob new.ports.blob
  pub query : Keeps old.ports.query new.ports.query
  pub ui : Keeps old.ports.ui new.ports.ui
  pub ratio : Keeps old.memory_off_heap_ratio new.memory_off_heap_ratio
  pub off_heap_min :
      is_empty old.memory_off_heap_min.format ≡ false
      → new.memory_off_heap_min ≡ old.memory_off_heap_min
  pub resources : new.resources ≡ old.resources
  pub volumes : new.volumes ≡ old.volumes
  pub volume_mounts : new.volume_mounts ≡ old.volume_mounts
  pub node_selector : new.node_selector ≡ old.node_selector
  pub ingress : KeepsWithin KeepsIngress old.ingress new.ingress

pub record KeepsTaskManager (old new : TaskManagerSpec) : Type 0 where
  pub replicas : new.replicas ≡ old.replicas
  pub data_port : Keeps old.ports.data_port new.ports.data_port
  pub rpc : Keeps old.ports.rpc new.ports.rpc
  pub query : Keeps old.ports.query new.ports.query
  pub ratio : Keeps old.memory_off_heap_ratio new.memory_off_heap_ratio
  pub off_heap_min :
      is_empty old.memory_off_heap_min.format ≡ false
      → new.memory_off_heap_min ≡ old.memory_off_heap_min
  pub resources : new.resources ≡ old.resources
  pub volumes : new.volumes ≡ old.volumes
  pub volume_mounts : new.volume_mounts ≡ old.volume_mounts
  pub node_selector : new.node_selector ≡ old.node_selector
  pub sidecars : new.sidecars ≡ old.sidecars

pub record KeepsJob (old new : JobSpec) : Type 0 where
  pub jar_file : new.jar_file ≡ old.jar_file
  pub class_name : new.class_name ≡ old.class_name
  pub args : new.args ≡ old.args
  pub from_savepoint : new.from_savepoint ≡ old.from_savepoint
  pub allow_non_restored_state : Keeps old.allow_non_restored_state new.allow_non_restored_state
  pub savepoints_dir : new.savepoints_dir ≡ old.savepoints_dir
  pub auto_savepoint_seconds : new.auto_savepoint_seconds ≡ old.auto_savepoint_seconds
  pub savepoint_generation : new.savepoint_generation ≡ old.savepoint_generation
  pub parallelism : Keeps old.parallelism new.parallelism
  pub no_logging_to_stdout : Keeps old.no_logging_to_stdout new.no_logging_to_stdout
  pub volumes : new.volumes ≡ old.volumes
  pub init_containers : new.init_containers ≡ old.init_containers
  pub volume_mounts : new.volume_mounts ≡ old.volume_mounts
  pub restart_policy : Keeps old.restart_policy new.restart_policy
  pub cleanup_policy : Keeps old.cleanup_policy new.cleanup_policy
  pub cancel_requested : new.cancel_requested ≡ old.cancel_requested

pub record KeepsGiven (old new : FlinkClusterSpec) : Type 0 where
  pub image : KeepsImage old.image new.image
  pub job_manager : KeepsJobManager old.job_manager new.job_manager
  pub task_manager : KeepsTaskManager old.task_manager new.task_manager
  pub job : KeepsWithin KeepsJob old.job new.job
  pub env_vars : new.env_vars ≡ old.env_vars
  pub flink_properties : new.flink_properties ≡ old.flink_properties
  pub hadoop_config : KeepsWithin KeepsHadoop old.hadoop_config new.hadoop_config
  pub gcp_config : new.gcp_config ≡ old.gcp_config

set_job_default-Keeps : (job : Option JobSpec) → KeepsWithin KeepsJob job (set_job_default job)
unfolding set_job_default
set_job_default-Keeps none = refl
set_job_default-Keeps (some job) = (_, refl, ground arith)

set_hadoop_config_default-Keeps :
    (hadoop : Option HadoopConfig)
    → KeepsWithin KeepsHadoop hadoop (set_hadoop_config_default hadoop)
unfolding set_hadoop_config_default
set_hadoop_config_default-Keeps none = refl
set_hadoop_config_default-Keeps (some hadoop) = (_, refl, ground arith)

ingress-Keeps :
    (ingress : Option JobManagerIngressSpec)
    → KeepsWithin KeepsIngress ingress (Option.map set_ingress_default ingress)
unfolding set_ingress_default
ingress-Keeps none = refl
ingress-Keeps (some ingress) = (_, refl, ground arith)

-- Defaulting overrides nothing: what the user gave in the spec stays, whatever else is filled in.
pub set_default-KeepsGiven :
    (cluster : FlinkCluster) → KeepsGiven cluster.spec (set_default cluster).spec
unfolding set_default
set_default-KeepsGiven cluster = record {
  image = unfold set_image_default in ground arith;
  job_manager =
      unfold set_job_manager_default in
      ground (arith, ingress-Keeps cluster.spec.job_manager.ingress);
  task_manager = unfold set_task_manager_default in ground arith;
  job = set_job_default-Keeps cluster.spec.job;
  env_vars = refl;
  flink_properties = refl;
  hadoop_config = set_hadoop_config_default-Keeps cluster.spec.hadoop_config;
  gcp_config = refl;
}
