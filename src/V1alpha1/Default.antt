-- ===== src/V1alpha1/Default.antt =====
-- The mutating webhook of the version, api/v1alpha1/flinkcluster_default.go.
use mathlib.Core.Option
use flink_on_k8s_operator.Base.{some, or_else}
use flink_on_k8s_operator.Base.Int.{pos}
use flink_on_k8s_operator.Webhook.Default.{
  set_ingress_default, set_job_manager_ports_default, default_quantity, set_image_default,
  set_task_manager_default, set_job_default, set_hadoop_config_default,
}
use flink_on_k8s_operator.V1alpha1.Types.{
  AccessScope, JobManagerSpec, FlinkClusterSpec, FlinkCluster,
}

unfoldable pub default_access_scope : AccessScope → AccessScope
default_access_scope AccessScope.unset = AccessScope.cluster
default_access_scope s = s

unfoldable pub set_job_manager_default : JobManagerSpec → JobManagerSpec
unfolding default_access_scope
set_job_manager_default jm = record jm {
  replicas = some (or_else (pos 1) jm.replicas);
  access_scope = default_access_scope jm.access_scope;
  ingress = Option.map set_ingress_default jm.ingress;
  ports = set_job_manager_ports_default jm.ports;
  memory_off_heap_min = default_quantity jm.memory_off_heap_min;
  memory_off_heap_ratio = some (or_else (pos 25) jm.memory_off_heap_ratio);
}

unfoldable pub set_spec_default : FlinkClusterSpec → FlinkClusterSpec
unfolding set_job_manager_default
set_spec_default spec = record spec {
  image = set_image_default spec.image;
  job_manager = set_job_manager_default spec.job_manager;
  task_manager = set_task_manager_default spec.task_manager;
  job = set_job_default spec.job;
  hadoop_config = set_hadoop_config_default spec.hadoop_config;
}

unfoldable pub set_default : FlinkCluster → FlinkCluster
unfolding set_spec_default
set_default cluster = record cluster { spec = set_spec_default cluster.spec }
