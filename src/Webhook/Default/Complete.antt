-- ===== src/Webhook/Default/Complete.antt =====
-- What defaulting fills in, api/v1beta1/flinkcluster_default.go.
use mathlib.Core.Path.{subst}
use mathlib.Core.Option
use flink_on_k8s_operator.Base.{
  Option, none, some, true, false, ◌≡◌, refl, ◌≢◌, ◌↔◌, arith, is_empty, is_some, if◌then◌else◌,
  Bool-cases, inl, inr, String,
}
use flink_on_k8s_operator.K8s.{PullPolicy, Quantity}
use flink_on_k8s_operator.Api.{
  AccessScope, ImageSpec, JobManagerIngressSpec, JobManagerSpec, TaskManagerSpec, JobSpec,
  HadoopConfig, FlinkClusterSpec, FlinkCluster,
}
use flink_on_k8s_operator.Webhook.Validate.Create.{IfGiven}
use flink_on_k8s_operator.Webhook.Default.{
  set_image_default, set_ingress_default, set_job_manager_default, set_task_manager_default,
  set_job_default, set_hadoop_config_default, set_default, default_off_heap_min,
}

abbrev pub IsGiven {ℓ} : {A : Type ℓ} → Option A → Type 0
IsGiven o = is_some o ≡ true

pub record IsCompleteJobManager (jm : JobManagerSpec) : Type 0 where
  pub replicas : IsGiven jm.replicas
  pub access_scope : jm.access_scope ≢ AccessScope.unset
  pub ingress : IfGiven (λ (i : JobManagerIngressSpec). IsGiven i.use_tls) jm.ingress
  pub rpc : IsGiven jm.ports.rpc
  pub blob : IsGiven jm.ports.blob
  pub query : IsGiven jm.ports.query
  pub ui : IsGiven jm.ports.ui
  pub off_heap_min : is_empty jm.memory_off_heap_min.format ≡ false
  pub ratio : IsGiven jm.memory_off_heap_ratio

pub record IsCompleteTaskManager (tm : TaskManagerSpec) : Type 0 where
  pub data_port : IsGiven tm.ports.data_port
  pub rpc : IsGiven tm.ports.rpc
  pub query : IsGiven tm.ports.query
  pub off_heap_min : is_empty tm.memory_off_heap_min.format ≡ false
  pub ratio : IsGiven tm.memory_off_heap_ratio

pub record IsCompleteJob (job : JobSpec) : Type 0 where
  pub allow_non_restored_state : IsGiven job.allow_non_restored_state
  pub parallelism : IsGiven job.parallelism
  pub no_logging_to_stdout : IsGiven job.no_logging_to_stdout
  pub restart_policy : IsGiven job.restart_policy
  pub cleanup_policy : IsGiven job.cleanup_policy

-- Every field that has a default is given.
pub record IsComplete (spec : FlinkClusterSpec) : Type 0 where
  pub pull_policy : spec.image.pull_policy ≢ PullPolicy.unset
  pub job_manager : IsCompleteJobManager spec.job_manager
  pub task_manager : IsCompleteTaskManager spec.task_manager
  pub job : IfGiven IsCompleteJob spec.job
  pub hadoop :
      IfGiven (λ (hadoop : HadoopConfig). is_empty hadoop.mount_path ≡ false) spec.hadoop_config

image-filled : (image : ImageSpec) → (set_image_default image).pull_policy ≢ PullPolicy.unset
unfolding set_image_default
image-filled image = ground arith

ingress-filled :
    (i : Option JobManagerIngressSpec)
    → IfGiven (λ (i : JobManagerIngressSpec). IsGiven i.use_tls) (Option.map set_ingress_default i)
unfolding set_ingress_default
ingress-filled none = tt
ingress-filled (some i) = refl

quantity-filled :
    (q : Quantity) → is_empty (if is_empty q.format then default_off_heap_min else q).format ≡ false
quantity-filled q = elim (Bool-cases (is_empty q.format)) [ inl e ↦ rw e refl | inr e ↦ rw e e ]

path-filled : (s : String) → is_empty (if is_empty s then "/etc/hadoop/conf" else s) ≡ false
path-filled s = elim (Bool-cases (is_empty s)) [ inl e ↦ rw e refl | inr e ↦ rw e e ]

scope-filled : (jm : JobManagerSpec) → (set_job_manager_default jm).access_scope ≢ AccessScope.unset
unfolding set_job_manager_default
scope-filled jm = ground arith

job_manager-filled : (jm : JobManagerSpec) → IsCompleteJobManager (set_job_manager_default jm)
unfolding set_job_manager_default
job_manager-filled jm = record {
  replicas = refl;
  access_scope = scope-filled jm;
  ingress = ingress-filled jm.ingress;
  rpc = refl;
  blob = refl;
  query = refl;
  ui = refl;
  off_heap_min = quantity-filled jm.memory_off_heap_min;
  ratio = refl;
}

task_manager-filled : (tm : TaskManagerSpec) → IsCompleteTaskManager (set_task_manager_default tm)
unfolding set_task_manager_default
task_manager-filled tm = record {
  data_port = refl;
  rpc = refl;
  query = refl;
  off_heap_min = quantity-filled tm.memory_off_heap_min;
  ratio = refl;
}

job-filled : (job : Option JobSpec) → IfGiven IsCompleteJob (set_job_default job)
unfolding set_job_default
job-filled none = tt
job-filled (some job) = ground arith

hadoop-filled :
    (h : Option HadoopConfig)
    → IfGiven
        (λ (hadoop : HadoopConfig). is_empty hadoop.mount_path ≡ false)
        (set_hadoop_config_default h)
unfolding set_hadoop_config_default
hadoop-filled none = tt
hadoop-filled (some h) = path-filled h.mount_path

set_default-filled : (cluster : FlinkCluster) → IsComplete (set_default cluster).spec
unfolding set_default
set_default-filled cluster = record {
  pull_policy = image-filled cluster.spec.image;
  job_manager = job_manager-filled cluster.spec.job_manager;
  task_manager = task_manager-filled cluster.spec.task_manager;
  job = job-filled cluster.spec.job;
  hadoop = hadoop-filled cluster.spec.hadoop_config;
}

image-fixed :
    (image : ImageSpec) → image.pull_policy ≢ PullPolicy.unset → set_image_default image ≡ image
unfolding set_image_default
image-fixed image h = ground arith

ingress-fixed :
    (i : Option JobManagerIngressSpec)
    → IfGiven (λ (i : JobManagerIngressSpec). IsGiven i.use_tls) i
    → Option.map set_ingress_default i ≡ i
unfolding set_ingress_default
ingress-fixed none h = refl
ingress-fixed (some i) h = ground arith

job_manager-fixed :
    (jm : JobManagerSpec) → IsCompleteJobManager jm → set_job_manager_default jm ≡ jm
unfolding set_job_manager_default
job_manager-fixed jm h = ground (arith, ingress-fixed jm.ingress h.ingress)

task_manager-fixed :
    (tm : TaskManagerSpec) → IsCompleteTaskManager tm → set_task_manager_default tm ≡ tm
unfolding set_task_manager_default
task_manager-fixed tm h = ground arith

job-fixed : (job : Option JobSpec) → IfGiven IsCompleteJob job → set_job_default job ≡ job
unfolding set_job_default
job-fixed none h = refl
job-fixed (some job) h = ground arith

hadoop-fixed :
    (h : Option HadoopConfig)
    → IfGiven (λ (hadoop : HadoopConfig). is_empty hadoop.mount_path ≡ false) h
    → set_hadoop_config_default h ≡ h
unfolding set_hadoop_config_default
hadoop-fixed none k = refl
hadoop-fixed (some h) k = ground arith

set_default-fixed :
    (cluster : FlinkCluster) → IsComplete cluster.spec → set_default cluster ≡ cluster
unfolding set_default
set_default-fixed cluster h =
    rw
      (
        image-fixed cluster.spec.image h.pull_policy,
        job_manager-fixed cluster.spec.job_manager h.job_manager,
        task_manager-fixed cluster.spec.task_manager h.task_manager,
        job-fixed cluster.spec.job h.job,
        hadoop-fixed cluster.spec.hadoop_config h.hadoop,
      )
      refl

-- After defaulting, every field that has a default is given; and defaulting leaves a cluster alone
-- exactly when every such field was given, so a second time it changes nothing.
pub set_default-IsComplete :
    (cluster : FlinkCluster)
    → IsComplete (set_default cluster).spec
      × ((set_default cluster ≡ cluster) ↔ IsComplete cluster.spec)
      × (set_default (set_default cluster) ≡ set_default cluster)
set_default-IsComplete cluster = (
  set_default-filled cluster,
  (
    λ e. subst (λ (c : FlinkCluster). IsComplete c.spec) e (set_default-filled cluster),
    set_default-fixed cluster,
  ),
  set_default-fixed (set_default cluster) (set_default-filled cluster),
)
