-- ===== src/Webhook/Default.antt =====
-- The mutating webhook, api/v1beta1/flinkcluster_default.go. Each function returns the record that
-- the source's function leaves behind its pointer.
pub mod Laws
pub mod Complete
use mathlib.Core.Option
use flink_on_k8s_operator.Base.{Option, none, some, false, is_empty, or_else, if◌then◌else◌}
use flink_on_k8s_operator.Base.Int.{ℤ, pos}
use flink_on_k8s_operator.K8s.{PullPolicy, Quantity}
use flink_on_k8s_operator.Api.{
  AccessScope, JobRestartPolicy, CleanupAction, CleanupPolicy, ImageSpec, JobManagerSpec,
  JobManagerIngressSpec, JobManagerPorts, TaskManagerSpec, TaskManagerPorts, JobSpec, HadoopConfig,
  FlinkClusterSpec, FlinkCluster,
}

default_pull_policy : PullPolicy → PullPolicy
default_pull_policy PullPolicy.unset = PullPolicy.always
default_pull_policy p = p

unfoldable pub set_image_default : ImageSpec → ImageSpec
unfolding default_pull_policy
set_image_default image = record image { pull_policy = default_pull_policy image.pull_policy }

unfoldable pub default_access_scope : AccessScope → AccessScope
default_access_scope AccessScope.unset = AccessScope.cluster
default_access_scope s = s

unfoldable pub set_ingress_default : JobManagerIngressSpec → JobManagerIngressSpec
set_ingress_default ingress = record ingress { use_tls = some (or_else false ingress.use_tls) }

-- `resource.NewScaledQuantity(600, 6)`.
abbrev pub default_off_heap_min : Quantity
default_off_heap_min = record { value = pos 600000000; format = "DecimalSI" }

unfoldable pub default_quantity : Quantity → Quantity
default_quantity q = if is_empty q.format then default_off_heap_min else q

unfoldable pub set_job_manager_ports_default : JobManagerPorts → JobManagerPorts
set_job_manager_ports_default ports = record {
  rpc = some (or_else (pos 6123) ports.rpc);
  blob = some (or_else (pos 6124) ports.blob);
  query = some (or_else (pos 6125) ports.query);
  ui = some (or_else (pos 8081) ports.ui);
}

unfoldable pub set_job_manager_default : JobManagerSpec → JobManagerSpec
unfolding default_access_scope set_ingress_default set_job_manager_ports_default default_quantity
set_job_manager_default jm = record jm {
  replicas = some (or_else (pos 1) jm.replicas);
  access_scope = default_access_scope jm.access_scope;
  ingress = Option.map set_ingress_default jm.ingress;
  ports = set_job_manager_ports_default jm.ports;
  memory_off_heap_min = default_quantity jm.memory_off_heap_min;
  memory_off_heap_ratio = some (or_else (pos 25) jm.memory_off_heap_ratio);
}

set_task_manager_ports_default : TaskManagerPorts → TaskManagerPorts
set_task_manager_ports_default ports = record {
  data_port = some (or_else (pos 6121) ports.data_port);
  rpc = some (or_else (pos 6122) ports.rpc);
  query = some (or_else (pos 6125) ports.query);
}

unfoldable pub set_task_manager_default : TaskManagerSpec → TaskManagerSpec
unfolding set_task_manager_ports_default default_quantity
set_task_manager_default tm = record tm {
  ports = set_task_manager_ports_default tm.ports;
  memory_off_heap_min = default_quantity tm.memory_off_heap_min;
  memory_off_heap_ratio = some (or_else (pos 25) tm.memory_off_heap_ratio);
}

abbrev pub default_cleanup_policy : CleanupPolicy
default_cleanup_policy = record {
  after_job_succeeds = CleanupAction.delete_cluster;
  after_job_fails = CleanupAction.keep_cluster;
  after_job_cancelled = CleanupAction.delete_cluster;
}

-- The part of `_SetJobDefault` below the nil check.
set_job_spec_default : JobSpec → JobSpec
set_job_spec_default job = record job {
  allow_non_restored_state = some (or_else false job.allow_non_restored_state);
  parallelism = some (or_else (pos 1) job.parallelism);
  no_logging_to_stdout = some (or_else false job.no_logging_to_stdout);
  restart_policy = some (or_else JobRestartPolicy.never job.restart_policy);
  cleanup_policy = some (or_else default_cleanup_policy job.cleanup_policy);
}

unfoldable pub set_job_default : Option JobSpec → Option JobSpec
unfolding set_job_spec_default
set_job_default none = none
set_job_default (some job) = some (set_job_spec_default job)

unfoldable pub set_hadoop_config_default : Option HadoopConfig → Option HadoopConfig
set_hadoop_config_default none = none
set_hadoop_config_default (some hadoop) = some (record hadoop {
  mount_path = if is_empty hadoop.mount_path then "/etc/hadoop/conf" else hadoop.mount_path;
})

unfoldable pub set_spec_default : FlinkClusterSpec → FlinkClusterSpec
set_spec_default spec = record spec {
  image = set_image_default spec.image;
  job_manager = set_job_manager_default spec.job_manager;
  task_manager = set_task_manager_default spec.task_manager;
  job = set_job_default spec.job;
  hadoop_config = set_hadoop_config_default spec.hadoop_config;
}

-- `_SetDefault`: the whole cluster.
unfoldable pub set_default : FlinkCluster → FlinkCluster
unfolding set_spec_default
set_default cluster = record cluster { spec = set_spec_default cluster.spec }
