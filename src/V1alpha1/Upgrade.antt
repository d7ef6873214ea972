-- ===== src/V1alpha1/Upgrade.antt =====
-- A cluster of the older version read as one of the newer: the same text, decoded with the newer types.
use flink_on_k8s_operator.Base.{
  ◌≡◌, refl, sym, ap, ◌∙◌, ◌==◌, eq_iff, if◌then◌else◌, Bool-cases, inl, inr,
}
use flink_on_k8s_operator.Base.Int.{pos}
use flink_on_k8s_operator.Api
use flink_on_k8s_operator.Api.{FlinkClusterComponentState, JobManagerServiceStatus}
use flink_on_k8s_operator.V1alpha1.Types.{
  AccessScope, JobManagerSpec, FlinkClusterSpec, FlinkClusterStatus, FlinkCluster,
}

abbrev pub upgrade_scope : AccessScope → Api.AccessScope
upgrade_scope AccessScope.unset = Api.AccessScope.unset
upgrade_scope AccessScope.cluster = Api.AccessScope.cluster
upgrade_scope AccessScope.vpc = Api.AccessScope.vpc
upgrade_scope AccessScope.external = Api.AccessScope.external
upgrade_scope (AccessScope.other s) =
    if s == "NodePort" then Api.AccessScope.node_port else Api.AccessScope.other s

abbrev pub upgrade_job_manager : JobManagerSpec → Api.JobManagerSpec
upgrade_job_manager jm = record {
  replicas = jm.replicas;
  access_scope = upgrade_scope jm.access_scope;
  ingress = jm.ingress;
  ports = jm.ports;
  resources = jm.resources;
  memory_off_heap_ratio = jm.memory_off_heap_ratio;
  memory_off_heap_min = jm.memory_off_heap_min;
  volumes = jm.volumes;
  volume_mounts = jm.volume_mounts;
  node_selector = jm.node_selector;
}

abbrev pub upgrade_spec : FlinkClusterSpec → Api.FlinkClusterSpec
upgrade_spec spec = record {
  image = spec.image;
  job_manager = upgrade_job_manager spec.job_manager;
  task_manager = spec.task_manager;
  job = spec.job;
  env_vars = spec.env_vars;
  flink_properties = spec.flink_properties;
  hadoop_config = spec.hadoop_config;
  gcp_config = spec.gcp_config;
}

-- A node port that is missing is decoded as zero.
abbrev upgrade_service : FlinkClusterComponentState → JobManagerServiceStatus
upgrade_service service = record { name = service.name; state = service.state; node_port = pos 0 }

abbrev pub upgrade_status : FlinkClusterStatus → Api.FlinkClusterStatus
upgrade_status status = record {
  state = status.state;
  components = record {
    config_map = status.components.config_map;
    job_manager_deployment = status.components.job_manager_deployment;
    job_manager_service = upgrade_service status.components.job_manager_service;
    job_manager_ingress = status.components.job_manager_ingress;
    task_manager_deployment = status.components.task_manager_deployment;
    job = status.components.job;
  };
  last_update_time = status.last_update_time;
}

abbrev pub upgrade : FlinkCluster → Api.FlinkCluster
upgrade cluster = record {
  api_version = cluster.api_version;
  kind = cluster.kind;
  namespace = cluster.namespace;
  name = cluster.name;
  uid = cluster.uid;
  spec = upgrade_spec cluster.spec;
  status = upgrade_status cluster.status;
}

-- Nothing is lost.
downgrade_scope : Api.AccessScope → AccessScope
downgrade_scope Api.AccessScope.unset = AccessScope.unset
downgrade_scope Api.AccessScope.cluster = AccessScope.cluster
downgrade_scope Api.AccessScope.vpc = AccessScope.vpc
downgrade_scope Api.AccessScope.external = AccessScope.external
downgrade_scope Api.AccessScope.node_port = AccessScope.other "NodePort"
downgrade_scope (Api.AccessScope.other s) = AccessScope.other s

downgrade-upgrade_scope : (s : AccessScope) → downgrade_scope (upgrade_scope s) ≡ s
unfolding downgrade_scope
downgrade-upgrade_scope AccessScope.unset = refl
downgrade-upgrade_scope AccessScope.cluster = refl
downgrade-upgrade_scope AccessScope.vpc = refl
downgrade-upgrade_scope AccessScope.external = refl
downgrade-upgrade_scope (AccessScope.other s) = elim (Bool-cases (s == "NodePort")) [
  | inl e ↦ rw e (ap AccessScope.other (sym ((eq_iff s "NodePort").0 e)))
  | inr n ↦ rw n refl
]

downgrade_spec : Api.FlinkClusterSpec → FlinkClusterSpec
downgrade_spec spec = record {
  image = spec.image;
  job_manager = record {
    replicas = spec.job_manager.replicas;
    access_scope = downgrade_scope spec.job_manager.access_scope;
    ingress = spec.job_manager.ingress;
    ports = spec.job_manager.ports;
    resources = spec.job_manager.resources;
    memory_off_heap_ratio = spec.job_manager.memory_off_heap_ratio;
    memory_off_heap_min = spec.job_manager.memory_off_heap_min;
    volumes = spec.job_manager.volumes;
    volume_mounts = spec.job_manager.volume_mounts;
    node_selector = spec.job_manager.node_selector;
  };
  task_manager = spec.task_manager;
  job = spec.job;
  env_vars = spec.env_vars;
  flink_properties = spec.flink_properties;
  hadoop_config = spec.hadoop_config;
  gcp_config = spec.gcp_config;
}

downgrade-upgrade_spec : (spec : FlinkClusterSpec) → downgrade_spec (upgrade_spec spec) ≡ spec
unfolding downgrade_spec
downgrade-upgrade_spec spec =
    ap (λ s. record spec { job_manager = record (spec.job_manager) { access_scope = s } })
      (downgrade-upgrade_scope spec.job_manager.access_scope)

pub upgrade_spec-injective : (a b : FlinkClusterSpec) → upgrade_spec a ≡ upgrade_spec b → a ≡ b
upgrade_spec-injective a b e =
    sym (downgrade-upgrade_spec a) ∙ ap downgrade_spec e ∙ downgrade-upgrade_spec b
