-- ===== src/V1alpha1/Tests.antt =====
-- The agreement of the two versions at a cluster of the older one that asks for a node port.
use flink_on_k8s_operator.Base.{none, some, true, ◌≡◌, ◌≢◌, ◌↔◌, refl}
use flink_on_k8s_operator.Webhook.Default
use flink_on_k8s_operator.Webhook.Validate
use flink_on_k8s_operator.V1alpha1.Types.{AccessScope, FlinkClusterSpec, FlinkCluster}
use flink_on_k8s_operator.V1alpha1.Default.{set_default}
use flink_on_k8s_operator.V1alpha1.Validate.{validate_create, validate_update}
use flink_on_k8s_operator.V1alpha1.Upgrade.{upgrade}
use flink_on_k8s_operator.V1alpha1.Agreement.{webhooks-upgrade}
use flink_on_k8s_operator.Samples.{sample_job_spec, sample_spec, sample_cluster}

abbrev old_spec : FlinkClusterSpec
old_spec = record {
  image = sample_spec.image;
  job_manager = record {
    replicas = sample_spec.job_manager.replicas;
    access_scope = AccessScope.other "NodePort";
    ingress = sample_spec.job_manager.ingress;
    ports = sample_spec.job_manager.ports;
    resources = sample_spec.job_manager.resources;
    memory_off_heap_ratio = sample_spec.job_manager.memory_off_heap_ratio;
    memory_off_heap_min = sample_spec.job_manager.memory_off_heap_min;
    volumes = sample_spec.job_manager.volumes;
    volume_mounts = sample_spec.job_manager.volume_mounts;
    node_selector = sample_spec.job_manager.node_selector;
  };
  task_manager = sample_spec.task_manager;
  job = sample_spec.job;
  env_vars = sample_spec.env_vars;
  flink_properties = sample_spec.flink_properties;
  hadoop_config = sample_spec.hadoop_config;
  gcp_config = sample_spec.gcp_config;
}

abbrev old_cluster : FlinkCluster
old_cluster = record {
  api_version = "flinkoperator.k8s.io/v1alpha1";
  kind = "FlinkCluster";
  namespace = sample_cluster.namespace;
  name = sample_cluster.name;
  uid = sample_cluster.uid;
  spec = old_spec;
  status = record {
    state = sample_cluster.status.state;
    components = record {
      config_map = sample_cluster.status.components.config_map;
      job_manager_deployment = sample_cluster.status.components.job_manager_deployment;
      job_manager_service = sample_cluster.status.components.config_map;
      job_manager_ingress = none;
      task_manager_deployment = sample_cluster.status.components.task_manager_deployment;
      job = sample_cluster.status.components.job;
    };
    last_update_time = sample_cluster.status.last_update_time;
  };
}

abbrev cancelled_cluster : FlinkCluster
cancelled_cluster = record old_cluster {
  spec = record old_spec { job = some (record sample_job_spec { cancel_requested = some true }) };
}

-- A node port is refused.
node_port-refused : validate_create old_cluster ≢ none
node_port-refused e = ((webhooks-upgrade old_cluster old_cluster).1.0 e).1 refl

webhooks-upgrade_example :
    (Default.set_default (upgrade cancelled_cluster) ≡ upgrade (set_default cancelled_cluster))
    × ((validate_create cancelled_cluster ≡ none) ↔ (
        (Validate.validate_create (upgrade cancelled_cluster) ≡ none)
        × (cancelled_cluster.spec.job_manager.access_scope ≢ AccessScope.other "NodePort")))
    × (Validate.validate_update (upgrade old_cluster) (upgrade cancelled_cluster)
        ≡ validate_update old_cluster cancelled_cluster)
webhooks-upgrade_example = webhooks-upgrade old_cluster cancelled_cluster
