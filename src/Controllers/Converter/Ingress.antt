-- ===== src/Controllers/Converter/Ingress.antt =====
-- The desired JobManager ingress, controllers/flinkcluster_converter.go.
pub mod Host
use flink_on_k8s_operator.Base.{
  String, Option, none, some, Bool, true, false, not, ◌&&◌, ◌||◌, List, [], ◌∷◌, is_empty, is_set,
  is_cons, or_else, if◌then◌else◌,
}
use flink_on_k8s_operator.Base.Run.{Run, done, panic, ◌>>=◌}
use flink_on_k8s_operator.K8s.{Ingress, IngressTls}
use flink_on_k8s_operator.Api.{JobManagerIngressSpec, FlinkCluster}
use flink_on_k8s_operator.Controllers.Util.{
  get_job_manager_service_name, get_job_manager_ingress_name,
}
use flink_on_k8s_operator.Controllers.Converter.{Component, should_cleanup}
use flink_on_k8s_operator.Controllers.Converter.Objects.{object_meta, unless_cleanup}
use flink_on_k8s_operator.Controllers.Converter.Ingress.Host.{get_job_manager_ingress_host}

-- The host is empty without a format.
unfoldable pub ingress_host : JobManagerIngressSpec → String → String
unfolding get_job_manager_ingress_host
ingress_host spec cluster_name = elim (spec.host_format) [
  | none ↦ ""
  | some host_format ↦ get_job_manager_ingress_host host_format cluster_name
]

-- The TLS entry, unless it had neither a host nor a secret.
abbrev tls_entry : List String → String → List IngressTls
tls_entry hosts secret_name =
    if is_cons hosts || not (is_empty secret_name)
    then record { hosts = hosts; secret_name = secret_name } ∷ []
    else []

unfoldable pub ingress_tls : JobManagerIngressSpec → String → List IngressTls
ingress_tls spec host =
    if is_set spec.use_tls
    then tls_entry (if is_empty host then [] else host ∷ []) (or_else "" spec.tls_secret_name)
    else []

unfoldable pub job_manager_ingress : FlinkCluster → JobManagerIngressSpec → Ingress
unfolding ingress_host ingress_tls
job_manager_ingress cluster spec =
    let host = ingress_host spec cluster.name in
    record {
      meta =
          object_meta cluster (get_job_manager_ingress_name cluster.name) "jobmanager"
            spec.annotations;
      tls = ingress_tls spec host;
      rules =
          record {
            host = host;
            path = "/";
            service_name = get_job_manager_service_name cluster.name;
            service_port = "ui";
          }
          ∷ [];
      load_balancer = [];
    }

unfoldable pub desired_ingress_of :
    FlinkCluster → Option JobManagerIngressSpec → Run (Option Ingress)
unfolding job_manager_ingress
desired_ingress_of cluster none = done none
desired_ingress_of cluster (some spec) =
    should_cleanup cluster Component.job_manager_ingress >>= λ cleanup.
    unless_cleanup cleanup (done (job_manager_ingress cluster spec))

unfoldable pub get_desired_job_manager_ingress : FlinkCluster → Run (Option Ingress)
unfolding desired_ingress_of
get_desired_job_manager_ingress cluster =
    desired_ingress_of cluster cluster.spec.job_manager.ingress
