-- ===== src/Controllers/Converter/Objects.antt =====
-- The desired deployments and the JobManager service, controllers/flinkcluster_converter.go.
pub mod Presence
pub mod Spared
use flink_on_k8s_operator.Base.{
  ℕ, String, Option, none, some, Bool, true, false, List, [], ◌∷◌, ◌++◌, or_else, if◌then◌else◌,
}
use flink_on_k8s_operator.Base.Int.{ℤ, pos}
use flink_on_k8s_operator.Base.Run.{Run, done, panic, ◌>>=◌, deref}
use flink_on_k8s_operator.K8s.{
  ResourceFieldSelector, EnvVar, ContainerPort, Probe, Container, RestartPolicy, PodSpec,
  ObjectMeta, Deployment, ServiceType, ServicePort, Service, ResourceRequirements, Volume,
  VolumeMount,
}
use flink_on_k8s_operator.Api.{AccessScope, JobManagerSpec, TaskManagerSpec, FlinkCluster}
use flink_on_k8s_operator.Controllers.Util.{
  get_job_manager_deployment_name, get_job_manager_service_name, get_task_manager_deployment_name,
}
use flink_on_k8s_operator.Controllers.Converter.{
  Component, should_cleanup, to_owner_reference, Attached, attached, convert_flink_config,
  convert_hadoop_config, convert_gcp_config,
}

abbrev pub labels : FlinkCluster → String → List (String × String)
labels cluster component =
    ("cluster", cluster.name) ∷ ("app", "flink") ∷ ("component", component) ∷ []

-- The metadata of an object of this name.
abbrev pub object_meta : FlinkCluster → String → String → List (String × String) → ObjectMeta
object_meta cluster name component annotations = record {
  namespace = cluster.namespace;
  name = name;
  owner_references = to_owner_reference cluster ∷ [];
  labels = labels cluster component;
  annotations = annotations;
}

-- An environment variable that shows a limit of the container.
abbrev limit_env : String → String → String → String → EnvVar
limit_env name container resource divisor = record {
  name = name;
  value = "";
  value_from = some (record { container_name = container; resource = resource; divisor = divisor });
}

abbrev tcp_probe : ℤ → Probe
tcp_probe port = record {
  tcp_port = port;
  timeout_seconds = 10;
  initial_delay_seconds = 30;
  period_seconds = 60;
  failure_threshold = 5;
}

abbrev container_port : String → ℤ → ContainerPort
container_port name port = record { name = name; container_port = port }

-- An object that the cleanup policy removes is not desired.
abbrev pub unless_cleanup {ℓ} : {A : Type ℓ} → Bool → Run A → Run (Option A)
unless_cleanup true object = done none
unless_cleanup false object = object >>= λ o. done (some o)

module _ (cluster : FlinkCluster) (gcp : Option Attached) where
  abbrev pub all_volumes : List Volume → List Volume
  all_volumes given =
      given
      ++ (convert_flink_config cluster.name).0 ∷ []
      ++ attached (λ a. a.volume) (convert_hadoop_config cluster.spec.hadoop_config)
      ++ attached (λ a. a.volume) gcp

  abbrev pub all_mounts : List VolumeMount → List VolumeMount
  all_mounts given =
      given
      ++ (convert_flink_config cluster.name).1 ∷ []
      ++ attached (λ a. a.mount) (convert_hadoop_config cluster.spec.hadoop_config)
      ++ attached (λ a. a.mount) gcp

  abbrev all_env : List EnvVar → List EnvVar
  all_env limits =
      limits
      ++ attached (λ a. a.env) (convert_hadoop_config cluster.spec.hadoop_config)
      ++ attached (λ a. a.env) gcp
      ++ cluster.spec.env_vars

  -- The container of a component, with the ports and the port that is probed.
  abbrev pub component_container :
      String
      → List ContainerPort
      → ℤ
      → ResourceRequirements
      → List EnvVar
      → List VolumeMount
      → Container
  component_container name ports probed resources limits mounts = record {
    name = name;
    image = cluster.spec.image.name;
    image_pull_policy = cluster.spec.image.pull_policy;
    args = name ∷ [];
    ports = ports;
    liveness_probe = some (tcp_probe probed);
    readiness_probe = some (tcp_probe probed);
    resources = some resources;
    env = all_env limits;
    volume_mounts = all_mounts mounts;
  }

  abbrev pub component_pod : List Container → List Volume → List (String × String) → PodSpec
  component_pod containers volumes node_selector = record {
    init_containers = [];
    containers = containers;
    restart_policy = RestartPolicy.unset;
    volumes = all_volumes volumes;
    node_selector = node_selector;
    image_pull_secrets = cluster.spec.image.pull_secrets;
  }

abbrev pub component_deployment : FlinkCluster → String → String → ℤ → PodSpec → Deployment
component_deployment cluster name component replicas pod = record {
  meta = object_meta cluster name component [];
  replicas = replicas;
  selector = labels cluster component;
  pod_labels = labels cluster component;
  pod = pod;
  available_replicas = pos 0;
}

-- A nil number of replicas is taken as one by Kubernetes.
abbrev pub job_manager_deployment :
    FlinkCluster → (rpc blob query ui : ℤ) → Option Attached → Deployment
job_manager_deployment cluster rpc blob query ui gcp =
    component_deployment cluster (get_job_manager_deployment_name cluster.name) "jobmanager"
      (or_else (pos 1) cluster.spec.job_manager.replicas)
      (component_pod cluster gcp
        (component_container cluster gcp "jobmanager"
            (container_port "rpc" rpc
              ∷ container_port "blob" blob
              ∷ container_port "query" query
              ∷ container_port "ui" ui
              ∷ [])
            rpc cluster.spec.job_manager.resources
            (limit_env "JOB_MANAGER_CPU_LIMIT" "jobmanager" "limits.cpu" "1m"
              ∷ limit_env "JOB_MANAGER_MEMORY_LIMIT" "jobmanager" "limits.memory" "1Mi"
              ∷ [])
            cluster.spec.job_manager.volume_mounts
          ∷ [])
        cluster.spec.job_manager.volumes cluster.spec.job_manager.node_selector)

unfoldable pub job_manager_deployment_of : FlinkCluster → Run Deployment
job_manager_deployment_of cluster = do
  let ports = cluster.spec.job_manager.ports
  rpc ← deref ports.rpc
  blob ← deref ports.blob
  query ← deref ports.query
  ui ← deref ports.ui
  gcp ← convert_gcp_config cluster.spec.gcp_config
  done (job_manager_deployment cluster rpc blob query ui gcp)

unfoldable pub get_desired_job_manager_deployment : FlinkCluster → Run (Option Deployment)
get_desired_job_manager_deployment cluster = do
  cleanup ← should_cleanup cluster Component.job_manager_deployment
  unless_cleanup cleanup (job_manager_deployment_of cluster)

abbrev pub task_manager_deployment :
    FlinkCluster → (data_port rpc query : ℤ) → Option Attached → Deployment
task_manager_deployment cluster data_port rpc query gcp =
    component_deployment cluster (get_task_manager_deployment_name cluster.name) "taskmanager"
      cluster.spec.task_manager.replicas
      (component_pod cluster gcp
        (component_container cluster gcp "taskmanager"
            (container_port "data" data_port
              ∷ container_port "rpc" rpc
              ∷ container_port "query" query
              ∷ [])
            rpc cluster.spec.task_manager.resources
            (limit_env "TASK_MANAGER_CPU_LIMIT" "taskmanager" "limits.cpu" "1m"
              ∷ limit_env "TASK_MANAGER_MEMORY_LIMIT" "taskmanager" "limits.memory" "1Mi"
              ∷ [])
            cluster.spec.task_manager.volume_mounts
          ∷ cluster.spec.task_manager.sidecars)
        cluster.spec.task_manager.volumes cluster.spec.task_manager.node_selector)

unfoldable pub task_manager_deployment_of : FlinkCluster → Run Deployment
task_manager_deployment_of cluster = do
  let ports = cluster.spec.task_manager.ports
  data_port ← deref ports.data_port
  rpc ← deref ports.rpc
  query ← deref ports.query
  gcp ← convert_gcp_config cluster.spec.gcp_config
  done (task_manager_deployment cluster data_port rpc query gcp)

unfoldable pub get_desired_task_manager_deployment : FlinkCluster → Run (Option Deployment)
get_desired_task_manager_deployment cluster = do
  cleanup ← should_cleanup cluster Component.task_manager_deployment
  unless_cleanup cleanup (task_manager_deployment_of cluster)

abbrev service_port : String → ℤ → ServicePort
service_port name port = record { name = name; port = port; target_port = name; node_port = pos 0 }

-- The type of the service and its annotations; an unknown scope is a panic.
unfoldable pub service_type_of : AccessScope → Run (ServiceType × List (String × String))
service_type_of AccessScope.cluster = done (ServiceType.cluster_ip, [])
service_type_of AccessScope.vpc =
    done (ServiceType.load_balancer, ("cloud.google.com/load-balancer-type", "Internal") ∷ [])
service_type_of AccessScope.external = done (ServiceType.load_balancer, [])
service_type_of AccessScope.node_port = done (ServiceType.node_port, [])
service_type_of _ = panic

abbrev pub job_manager_service :
    FlinkCluster → (rpc blob query ui : ℤ) → ServiceType → List (String × String) → Service
job_manager_service cluster rpc blob query ui service_type annotations = record {
  meta = object_meta cluster (get_job_manager_service_name cluster.name) "jobmanager" annotations;
  selector = labels cluster "jobmanager";
  ports =
      service_port "rpc" rpc
      ∷ service_port "blob" blob
      ∷ service_port "query" query
      ∷ service_port "ui" ui
      ∷ [];
  service_type = service_type;
  cluster_ip = "";
  load_balancer = [];
}

unfoldable pub job_manager_service_of : FlinkCluster → Run Service
job_manager_service_of cluster = do
  let ports = cluster.spec.job_manager.ports
  rpc ← deref ports.rpc
  blob ← deref ports.blob
  query ← deref ports.query
  ui ← deref ports.ui
  (service_type, annotations) ← service_type_of cluster.spec.job_manager.access_scope
  done (job_manager_service cluster rpc blob query ui service_type annotations)

unfoldable pub get_desired_job_manager_service : FlinkCluster → Run (Option Service)
get_desired_job_manager_service cluster = do
  cleanup ← should_cleanup cluster Component.job_manager_service
  unless_cleanup cleanup (job_manager_service_of cluster)
