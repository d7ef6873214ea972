-- ===== src/Samples.antt =====
-- A cluster, its job and what is observed of it, as test data.
pub mod Ready
use flink_on_k8s_operator.Base.{ℕ, ◌+◌, ◌-◌, ◌/◌, String, none, some, [], ◌∷◌}
use flink_on_k8s_operator.Base.Int.{pos, pos_part}
use flink_on_k8s_operator.K8s.{
  Quantity, ResourceRequirements, PullPolicy, Container, RestartPolicy, PodSpec, ObjectMeta,
  Deployment, ServiceType, Service, ConfigMap, Job,
}
use flink_on_k8s_operator.Api.{
  AccessScope, JobRestartPolicy, CleanupAction, JobSpec, FlinkClusterSpec, ClusterState,
  ComponentState, JobState, FlinkClusterComponentState, JobStatus, FlinkClusterStatus, FlinkCluster,
}
use flink_on_k8s_operator.Controllers.State.{ObservedClusterState, DesiredClusterState}
use flink_on_k8s_operator.Controllers.Converter.HeapSize.{Float64}
use flink_on_k8s_operator.Controllers.Effects.{Error, ok, err, SavepointJson, Env}

abbrev no_quantity : Quantity
no_quantity = record { value = pos 0; format = "" }

abbrev no_resources : ResourceRequirements
no_resources = record { limits_memory = no_quantity; other_entries = [] }

abbrev pub sample_job_spec : JobSpec
sample_job_spec = record {
  jar_file = "/app.jar";
  class_name = none;
  args = [];
  from_savepoint = none;
  allow_non_restored_state = none;
  savepoints_dir = some "gs://savepoints";
  auto_savepoint_seconds = some (pos 300);
  savepoint_generation = pos 0;
  parallelism = some (pos 2);
  no_logging_to_stdout = none;
  volumes = [];
  volume_mounts = [];
  init_containers = [];
  restart_policy = some JobRestartPolicy.from_savepoint_on_failure;
  cleanup_policy = some (record {
    after_job_succeeds = CleanupAction.delete_cluster;
    after_job_fails = CleanupAction.keep_cluster;
    after_job_cancelled = CleanupAction.delete_cluster;
  });
  cancel_requested = none;
}

abbrev pub sample_spec : FlinkClusterSpec
sample_spec = record {
  image = record { name = "flink:1.8"; pull_policy = PullPolicy.always; pull_secrets = [] };
  job_manager = record {
    replicas = some (pos 1);
    access_scope = AccessScope.cluster;
    ingress = none;
    ports = record {
      rpc = some (pos 6123);
      blob = some (pos 6124);
      query = some (pos 6125);
      ui = some (pos 8081);
    };
    resources = no_resources;
    memory_off_heap_ratio = some (pos 25);
    memory_off_heap_min = no_quantity;
    volumes = [];
    volume_mounts = [];
    node_selector = [];
  };
  task_manager = record {
    replicas = pos 2;
    ports = record { data_port = some (pos 6121); rpc = some (pos 6122); query = some (pos 6125) };
    resources = no_resources;
    memory_off_heap_ratio = some (pos 25);
    memory_off_heap_min = no_quantity;
    volumes = [];
    volume_mounts = [];
    node_selector = [];
    sidecars = [];
  };
  job = some sample_job_spec;
  env_vars = [];
  flink_properties = [];
  hadoop_config = none;
  gcp_config = none;
}

abbrev pub sample_job_status : JobStatus
sample_job_status = record {
  name = "wordcount-job";
  id = "a1";
  state = JobState.running;
  from_savepoint = "";
  savepoint_generation = pos 0;
  savepoint_location = "";
  last_savepoint_trigger_id = "";
  last_savepoint_time = "";
  restart_count = pos 0;
}

abbrev ready : String → FlinkClusterComponentState
ready name = record { name = name; state = ComponentState.ready }

abbrev pub sample_status : FlinkClusterStatus
sample_status = record {
  state = ClusterState.running;
  components = record {
    config_map = ready "wordcount-configmap";
    job_manager_deployment = ready "wordcount-jobmanager";
    job_manager_service = record {
      name = "wordcount-jobmanager";
      state = ComponentState.ready;
      node_port = pos 0;
    };
    job_manager_ingress = none;
    task_manager_deployment = ready "wordcount-taskmanager";
    job = some sample_job_status;
  };
  last_update_time = "";
}

abbrev pub sample_cluster : FlinkCluster
sample_cluster = record {
  api_version = "v1beta1";
  kind = "FlinkCluster";
  namespace = "flink";
  name = "wordcount";
  uid = "7";
  spec = sample_spec;
  status = sample_status;
}

-- The same cluster without a recorded job.
abbrev pub fresh_cluster : FlinkCluster
fresh_cluster = record sample_cluster {
  status = record sample_status { components = record (sample_status.components) { job = none } };
}

abbrev meta_of : String → ObjectMeta
meta_of name = record {
  namespace = "flink";
  name = name;
  owner_references = [];
  labels = [];
  annotations = [];
}

abbrev sample_container : Container
sample_container = record {
  name = "main";
  image = "flink:1.8";
  image_pull_policy = PullPolicy.always;
  args = "--fromSavepoint" ∷ "gs://savepoints/1" ∷ [];
  ports = [];
  liveness_probe = none;
  readiness_probe = none;
  resources = none;
  env = [];
  volume_mounts = [];
}

abbrev sample_pod : PodSpec
sample_pod = record {
  init_containers = [];
  containers = sample_container ∷ [];
  restart_policy = RestartPolicy.never;
  volumes = [];
  node_selector = [];
  image_pull_secrets = [];
}

abbrev pub sample_job : Job
sample_job = record {
  meta = meta_of "wordcount-job";
  pod_labels = [];
  pod = sample_pod;
  backoff_limit = pos 0;
  failed = pos 0;
  succeeded = pos 0;
}

abbrev sample_deployment : String → Deployment
sample_deployment name = record {
  meta = meta_of name;
  replicas = pos 1;
  selector = [];
  pod_labels = [];
  pod = sample_pod;
  available_replicas = pos 1;
}

abbrev sample_service : Service
sample_service = record {
  meta = meta_of "wordcount-jobmanager";
  selector = [];
  ports = [];
  service_type = ServiceType.cluster_ip;
  cluster_ip = "10.0.0.1";
  load_balancer = [];
}

abbrev sample_config_map : ConfigMap
sample_config_map = record { meta = meta_of "wordcount-configmap"; contents = [] }

abbrev pub sample_observed : ObservedClusterState
sample_observed = record {
  cluster = some sample_cluster;
  config_map = some sample_config_map;
  jm_deployment = some (sample_deployment "wordcount-jobmanager");
  jm_service = some sample_service;
  jm_ingress = none;
  tm_deployment = some (sample_deployment "wordcount-taskmanager");
  job = some sample_job;
  flink_job_list = some (record { id = "a1"; status = "RUNNING" } ∷ []);
  flink_running_job_ids = "a1" ∷ [];
  flink_job_id = some "a1";
}

abbrev pub sample_desired : DesiredClusterState
sample_desired = record {
  jm_deployment = some (sample_deployment "wordcount-jobmanager");
  jm_service = some sample_service;
  jm_ingress = none;
  tm_deployment = some (sample_deployment "wordcount-taskmanager");
  config_map = some sample_config_map;
  job = some sample_job;
}

-- Fractions with exact division, for integers that are not negative.
abbrev pub exact_float : Float64
exact_float = record {
  Float = ℕ × ℕ;
  of_int64 = λ n. (pos_part n, 1);
  to_int64 = λ x. pos x.0;
  divide = λ x y. (x.0, y.0);
  ceil = λ x. ((x.0 + x.1 - 1) / x.1, 1);
}

abbrev completed : SavepointJson
completed = record {
  status = some (ok "COMPLETED");
  operation = some (ok (record { location = some (ok "gs://savepoints/2"); failure_cause = none }));
}

-- A world in which every object is there, writes succeed and Flink completes savepoints at once.
abbrev pub sample_env : Env
sample_env = record {
  get_cluster = λ log namespace name. ok sample_cluster;
  get_config_map = λ log namespace name. ok sample_config_map;
  get_deployment = λ log namespace name. ok (sample_deployment name);
  get_service = λ log namespace name. ok sample_service;
  get_ingress = λ log namespace name. err Error.not_found;
  get_job = λ log namespace name. ok sample_job;
  write = λ log c. none;
  jobs = λ log url. ok (record { id = "a1"; status = "RUNNING" } ∷ []);
  stop = λ log url. none;
  trigger = λ log url dir. ok "t1";
  poll = λ log url. ok completed;
  now = λ log i. i;
  format_time = λ n. "2020-01-01T00:00:00Z";
  parse_time = λ s. some 0;
}

-- The same world, but every write is refused.
abbrev pub refusing_env : Env
refusing_env = record sample_env { write = λ log c. some (Error.message "refused") }
