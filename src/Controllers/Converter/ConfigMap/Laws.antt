-- ===== src/Controllers/Converter/ConfigMap/Laws.antt =====
-- The config map as a function of the properties that the user gave.
use flink_on_k8s_operator.Base.{String, ◌≡◌, refl, ap, List}
use flink_on_k8s_operator.Base.Int.{ℤ}
use flink_on_k8s_operator.Base.Dict.{keys, lookup, contains, AreDistinct}
use flink_on_k8s_operator.Base.Run.{done, deref, >>=-cong}
use flink_on_k8s_operator.Api.{FlinkCluster}
use flink_on_k8s_operator.Controllers.Converter.{Component, should_cleanup, to_owner_reference}
use flink_on_k8s_operator.Controllers.Converter.HeapSize.{Float64, cal_flink_heap_size}
use flink_on_k8s_operator.Controllers.Converter.Objects.{unless_cleanup}
use flink_on_k8s_operator.Controllers.Converter.Properties.{deployed_props}
use flink_on_k8s_operator.Controllers.Converter.Properties.Laws.{
  get_flink_properties-flink_props_unique,
}
use flink_on_k8s_operator.Controllers.Converter.ConfigMap.{
  config_map_with, flink_conf, config_map_of, get_desired_config_map,
}

-- The cluster with other properties.
abbrev pub with_properties : FlinkCluster → List (String × String) → FlinkCluster
with_properties cluster properties = record cluster {
  spec = record (cluster.spec) { flink_properties = properties };
}

deployed_props-AreDistinct :
    (name : String) (rpc blob query ui tm_rpc : ℤ)
    → AreDistinct (keys (deployed_props name rpc blob query ui tm_rpc))
unfolding deployed_props keys contains
deployed_props-AreDistinct name rpc blob query ui tm_rpc =
    (refl, (refl, (refl, (refl, (refl, (refl, tt))))))

module _ (f : Float64) (cluster : FlinkCluster) (given' : List (String × String))
    (distinct : AreDistinct (keys cluster.spec.flink_properties))
    (distinct' : AreDistinct (keys given'))
    (same : (k : String) → lookup k cluster.spec.flink_properties ≡ lookup k given') where
  flink_conf-with_properties :
      (sizes : List (String × String)) (rpc blob query ui tm_rpc : ℤ)
      → flink_conf f cluster sizes rpc blob query ui tm_rpc
        ≡ flink_conf f (with_properties cluster given') sizes rpc blob query ui tm_rpc
  flink_conf-with_properties sizes rpc blob query ui tm_rpc =
      get_flink_properties-flink_props_unique (deployed_props cluster.name rpc blob query ui tm_rpc)
        sizes cluster.spec.flink_properties given'
        (deployed_props-AreDistinct cluster.name rpc blob query ui tm_rpc) distinct distinct' same

  config_map_of-with_properties :
      config_map_of f cluster ≡ config_map_of f (with_properties cluster given')
  unfolding config_map_of cal_flink_heap_size to_owner_reference
  config_map_of-with_properties = >>=-cong (cal_flink_heap_size f cluster) _ _ λ sizes.
      >>=-cong (deref cluster.spec.job_manager.ports.rpc) _ _ λ rpc.
        >>=-cong (deref cluster.spec.job_manager.ports.blob) _ _ λ blob.
          >>=-cong (deref cluster.spec.job_manager.ports.query) _ _ λ query.
            >>=-cong (deref cluster.spec.job_manager.ports.ui) _ _ λ ui.
              >>=-cong (deref cluster.spec.task_manager.ports.rpc) _ _ λ tm_rpc.
                ap (λ conf. done (config_map_with cluster conf))
                  (flink_conf-with_properties sizes rpc blob query ui tm_rpc)

  -- The desired config map depends on the properties of the user as a map alone: two lists with the same
  -- value at every key, each key once, as two iterations over one Go map give them, give the same
  -- config map.
  pub get_desired_config_map-with_properties :
      get_desired_config_map f cluster ≡ get_desired_config_map f (with_properties cluster given')
  unfolding get_desired_config_map should_cleanup
  get_desired_config_map-with_properties =
      >>=-cong (should_cleanup cluster Component.config_map) _ _
        λ cleanup. ap (unless_cleanup cleanup) config_map_of-with_properties
