-- ===== src/Controllers/Converter/Tests.antt =====
-- The converter theorems at a sample cluster.
use flink_on_k8s_operator.Base.{
  String, none, some, true, false, ◌≡◌, refl, ◌↔◌, ◌⊎◌, List, [], ◌∷◌, arith, eq_iff, if◌then◌else◌,
}
use flink_on_k8s_operator.Base.Int.{pos}
use flink_on_k8s_operator.Base.Int64.{wrap_int64}
use flink_on_k8s_operator.Base.Run.{done, Yields}
use flink_on_k8s_operator.K8s.{VolumeMount, Job}
use flink_on_k8s_operator.Api.{JobState, CleanupAction, FlinkCluster}
use flink_on_k8s_operator.Controllers.Util.{get_from_savepoint, get_job_name, should_restart_job}
use flink_on_k8s_operator.Controllers.Converter.{
  Component, should_cleanup, to_owner_reference, convert_from_savepoint, convert_gcp_config,
  convert_hadoop_config, add_mounts,
}
use flink_on_k8s_operator.Controllers.Converter.Cleanup.{CallsFor, should_cleanup_iff}
use flink_on_k8s_operator.Controllers.Converter.Mounts.{
  Covers, AreDistinct, add_mounts-AreDistinct, add_mounts-Covers_iff,
}
use flink_on_k8s_operator.Controllers.Converter.Job.{
  job_labels, job_pod, job_address, desired_job_of,
}
use flink_on_k8s_operator.Controllers.Converter.Job.Laws.{desired_job_of-get_from_savepoint}
use flink_on_k8s_operator.Base.Dict.{keys, lookup, insert, contains, AreDistinct as HasDistinctKeys}
use flink_on_k8s_operator.Controllers.Converter.Desired.{get_desired_cluster_state}
use flink_on_k8s_operator.Controllers.Converter.Desired.Promise.{AreDesired}
use flink_on_k8s_operator.Controllers.Converter.Desired.Total.{get_desired_cluster_state-AreDesired}
use flink_on_k8s_operator.Controllers.Converter.Ingress.Host.{get_job_manager_ingress_host}
use flink_on_k8s_operator.Controllers.Converter.ConfigMap.{get_desired_config_map}
use flink_on_k8s_operator.Controllers.Converter.ConfigMap.Laws.{
  with_properties, get_desired_config_map-with_properties,
}
use flink_on_k8s_operator.Controllers.Converter.HeapSize.{cal_heap_size}
use flink_on_k8s_operator.Controllers.Converter.HeapSize.Bounds.{
  IsExact, IsHeap, reserve, cal_heap_size-IsHeap,
}
use flink_on_k8s_operator.Controllers.Converter.Properties.{
  is_sys_prop, copy_heap_size, flink_props, get_flink_properties,
}
use flink_on_k8s_operator.Controllers.Converter.Properties.Laws.{
  first_of, given_heap_size, flink_props_lem,
}
use flink_on_k8s_operator.Samples.{
  sample_job_spec, sample_job_status, sample_status, sample_cluster, exact_float,
}
use flink_on_k8s_operator.Samples.Ready.{sample_cluster-IsReady}

should_cleanup_iff_example : (should_cleanup sample_cluster Component.config_map ≡ done true) ↔ (
    CallsFor sample_cluster CleanupAction.delete_cluster
    ⊎ (CallsFor sample_cluster CleanupAction.delete_task_manager
        × (Component.config_map ≡ Component.task_manager_deployment)))
should_cleanup_iff_example = should_cleanup_iff sample_cluster Component.config_map

abbrev mount_at : String → VolumeMount
mount_at path = record { name = "volume"; mount_path = path; read_only = false }

one_mount : AreDistinct (mount_at "/a" ∷ [])
one_mount = (λ h. h, tt)

add_mounts-AreDistinct_example :
    AreDistinct (add_mounts (mount_at "/a" ∷ []) (mount_at "/a" ∷ mount_at "/b" ∷ []))
add_mounts-AreDistinct_example =
    add_mounts-AreDistinct (mount_at "/a" ∷ []) (mount_at "/a" ∷ mount_at "/b" ∷ []) one_mount

add_mounts-Covers_iff_example :
    Covers "/b" (add_mounts (mount_at "/a" ∷ []) (mount_at "/b" ∷ []))
    ↔ (Covers "/b" (mount_at "/a" ∷ []) ⊎ Covers "/b" (mount_at "/b" ∷ []))
add_mounts-Covers_iff_example = add_mounts-Covers_iff "/b" (mount_at "/a" ∷ []) (mount_at "/b" ∷ [])

get_desired_cluster_state-AreDesired_example :
    Yields
      (AreDesired (some sample_cluster))
      (get_desired_cluster_state exact_float (some sample_cluster))
get_desired_cluster_state-AreDesired_example =
    get_desired_cluster_state-AreDesired exact_float (some sample_cluster) sample_cluster-IsReady

-- After a failure, with a savepoint.
abbrev failed_cluster : FlinkCluster
failed_cluster = record sample_cluster {
  status = record sample_status {
    components = record (sample_status.components) {
      job = some (record sample_job_status {
        state = JobState.failed;
        savepoint_location = "gs://savepoints/2";
      });
    };
  };
}

abbrev restarted_job : Job
restarted_job = record {
  meta = record {
    namespace = "flink";
    name = "wordcount-job";
    owner_references = to_owner_reference failed_cluster ∷ [];
    labels = job_labels failed_cluster;
    annotations = [];
  };
  pod_labels = job_labels failed_cluster;
  pod =
      job_pod failed_cluster sample_job_spec (job_address failed_cluster sample_job_spec (pos 8081))
        none none;
  backoff_limit = pos 0;
  failed = pos 0;
  succeeded = pos 0;
}

restarted_job_desired : desired_job_of failed_cluster sample_job_spec ≡ done restarted_job
unfolding desired_job_of get_job_name convert_gcp_config convert_hadoop_config
restarted_job_desired = refl

last_savepoint_chosen :
    convert_from_savepoint sample_job_spec failed_cluster.status.components.job
    ≡ some "gs://savepoints/2"
unfolding convert_from_savepoint should_restart_job
last_savepoint_chosen = refl

desired_job_of-get_from_savepoint_example :
    get_from_savepoint restarted_job.pod ≡ done "gs://savepoints/2"
desired_job_of-get_from_savepoint_example =
    desired_job_of-get_from_savepoint failed_cluster sample_job_spec restarted_job (pos 8081)
      "gs://savepoints/2" refl tt last_savepoint_chosen restarted_job_desired

-- The heap sizes.
exact_float-IsExact : IsExact exact_float
exact_float-IsExact a b h k l = refl

cal_heap_size-IsHeap_example :
    IsHeap 1073741824
      (reserve 1073741824 (pos 600000000) 25)
      (cal_heap_size exact_float (pos 1073741824) (pos 600000000) (pos 25))
cal_heap_size-IsHeap_example =
    cal_heap_size-IsHeap exact_float 1073741824 (pos 600000000) 25 exact_float-IsExact (omega arith)
      (omega arith) (omega arith)

heap_size_test : cal_heap_size exact_float (pos 1073741824) (pos 600000000) (pos 25) ≡ pos 474
unfolding cal_heap_size wrap_int64
heap_size_test = refl

-- The host of the ingress.
host_test :
    get_job_manager_ingress_host "{{$clusterName}}.{{ $clusterName\t}}.ex{{$cluster}}" "my"
    ≡ "my.my.ex{{$cluster}}"
unfolding get_job_manager_ingress_host
host_test = refl

-- The Flink properties.
abbrev two_properties : List (String × String)
two_properties = ("rest.port", "1") ∷ ("a.b", "c") ∷ []

abbrev two_properties_again : List (String × String)
two_properties_again = ("a.b", "c") ∷ ("rest.port", "1") ∷ []

two_properties-distinct : HasDistinctKeys (keys two_properties)
unfolding keys contains
two_properties-distinct = (refl, (refl, tt))

two_properties_again-distinct : HasDistinctKeys (keys two_properties_again)
unfolding keys contains
two_properties_again-distinct = (refl, (refl, tt))

abbrev deployed : List (String × String)
deployed = ("rest.port", "8081") ∷ []

flink_props_lem_example : lookup "a.b" (flink_props deployed [] two_properties) ≡ (
    if is_sys_prop "a.b"
    then lookup "a.b" deployed
    else first_of
        (lookup "a.b" two_properties)
        (first_of (given_heap_size "a.b" []) (lookup "a.b" deployed)))
flink_props_lem_example = flink_props_lem "a.b" deployed [] two_properties two_properties-distinct

text_test :
    get_flink_properties (flink_props deployed [] two_properties) ≡ "a.b: c\nrest.port: 8081\n"
unfolding get_flink_properties flink_props is_sys_prop copy_heap_size insert
text_test = refl

abbrev with_two : FlinkCluster
with_two = with_properties sample_cluster two_properties

same_properties : (k : String) → lookup k two_properties ≡ lookup k two_properties_again
unfolding lookup
same_properties k = ground (arith, eq_iff "rest.port" k, eq_iff "a.b" k, eq_iff "rest.port" "a.b")

get_desired_config_map-with_properties_example :
    get_desired_config_map exact_float with_two
    ≡ get_desired_config_map exact_float (with_properties with_two two_properties_again)
get_desired_config_map-with_properties_example =
    get_desired_config_map-with_properties exact_float with_two two_properties_again
      two_properties-distinct two_properties_again-distinct same_properties
