-- ===== src/Controllers/Converter/ConfigMap.antt =====
-- The desired config map, controllers/flinkcluster_converter.go.
pub mod Laws
use flink_on_k8s_operator.Base.{String, Option, List, [], ◌∷◌, or_else}
use flink_on_k8s_operator.Base.Int.{ℤ}
use flink_on_k8s_operator.Base.Dict.{lookup}
use flink_on_k8s_operator.Base.Run.{Run, done, ◌>>=◌, deref}
use flink_on_k8s_operator.K8s.{ConfigMap}
use flink_on_k8s_operator.Api.{FlinkCluster}
use flink_on_k8s_operator.Controllers.Util.{get_config_map_name}
use flink_on_k8s_operator.Controllers.Converter.{Component, should_cleanup, to_owner_reference}
use flink_on_k8s_operator.Controllers.Converter.HeapSize.{Float64, cal_flink_heap_size}
use flink_on_k8s_operator.Controllers.Converter.LogConf.{get_log_conf}
use flink_on_k8s_operator.Controllers.Converter.Objects.{unless_cleanup}
use flink_on_k8s_operator.Controllers.Converter.Properties.{
  deployed_props, flink_props, get_flink_properties,
}

-- The object around the text of the Flink configuration.
abbrev pub config_map_with : FlinkCluster → String → ConfigMap
config_map_with cluster flink_conf = record {
  meta = record {
    namespace = cluster.namespace;
    name = get_config_map_name cluster.name;
    owner_references = to_owner_reference cluster ∷ [];
    labels = ("cluster", cluster.name) ∷ ("app", "flink") ∷ [];
    annotations = [];
  };
  contents =
      ("flink-conf.yaml", flink_conf)
      ∷ ("log4j-console.properties", or_else "" (lookup "log4j-console.properties" get_log_conf))
      ∷ ("logback-console.xml", or_else "" (lookup "logback-console.xml" get_log_conf))
      ∷ [];
}

module _ (f : Float64) (cluster : FlinkCluster) where
  abbrev pub flink_conf : (sizes : List (String × String)) → (rpc blob query ui tm_rpc : ℤ) → String
  flink_conf sizes rpc blob query ui tm_rpc = get_flink_properties (
      flink_props (deployed_props cluster.name rpc blob query ui tm_rpc) sizes
        cluster.spec.flink_properties)

  unfoldable pub config_map_of : Run ConfigMap
  config_map_of = do
    sizes ← cal_flink_heap_size f cluster
    let jm_ports = cluster.spec.job_manager.ports
    rpc ← deref jm_ports.rpc
    blob ← deref jm_ports.blob
    query ← deref jm_ports.query
    ui ← deref jm_ports.ui
    tm_rpc ← deref cluster.spec.task_manager.ports.rpc
    done (config_map_with cluster (flink_conf sizes rpc blob query ui tm_rpc))

  unfoldable pub get_desired_config_map : Run (Option ConfigMap)
  unfolding config_map_of
  get_desired_config_map = do
    cleanup ← should_cleanup cluster Component.config_map
    unless_cleanup cleanup config_map_of
