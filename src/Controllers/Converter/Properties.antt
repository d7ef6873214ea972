-- ===== src/Controllers/Converter/Properties.antt =====
-- The Flink properties of the config map, controllers/flinkcluster_converter.go.
pub mod Laws
use Prim.Native.String.{◌++◌ as str_append}
use flink_on_k8s_operator.Base.{
  String, Bool, List, [], ◌∷◌, is_empty, or_else, map, format_int, concat, if◌then◌else◌,
}
use flink_on_k8s_operator.Base.Int.{ℤ}
use flink_on_k8s_operator.Base.Dict.{keys, lookup, insert, contains}
use flink_on_k8s_operator.Base.Sort.{sort_strings}
use flink_on_k8s_operator.Controllers.Util.{get_job_manager_service_name}

unfoldable pub flink_sys_props : List String
flink_sys_props =
    "jobmanager.rpc.address" ∷ "jobmanager.rpc.port" ∷ "blob.server.port" ∷ "query.server.port"
    ∷ "rest.port" ∷ []

-- `_, ok := flinkSysProps[key]`
unfoldable pub is_sys_prop : String → Bool
unfolding contains flink_sys_props
is_sys_prop key = contains key flink_sys_props

-- The properties that the deployment decides.
unfoldable pub deployed_props :
    String → (rpc blob query ui task_manager_rpc : ℤ) → List (String × String)
unfolding get_job_manager_service_name
deployed_props cluster_name rpc blob query ui task_manager_rpc =
    ("jobmanager.rpc.address", get_job_manager_service_name cluster_name)
    ∷ ("jobmanager.rpc.port", format_int rpc)
    ∷ ("blob.server.port", format_int blob)
    ∷ ("query.server.port", format_int query)
    ∷ ("rest.port", format_int ui)
    ∷ ("taskmanager.rpc.port", format_int task_manager_rpc)
    ∷ []

-- `if sizes[key] != "" { props[key] = sizes[key] }`; a missing key reads as the empty text.
unfoldable pub copy_heap_size :
    String → List (String × String) → List (String × String) → List (String × String)
copy_heap_size key sizes props =
    let size = or_else "" (lookup key sizes) in
    if is_empty size then props else insert key size props

-- The loop over the properties of the user, in whatever order it meets them.
unfoldable pub add_flink_properties :
    List (String × String) → List (String × String) → List (String × String)
add_flink_properties [] props = props
add_flink_properties ((key, value) ∷ rest) props =
    add_flink_properties rest (if is_sys_prop key then props else insert key value props)

-- `flinkProps`: the deployment's, the heap sizes, and the user's.
unfoldable pub flink_props :
    (deployed sizes given : List (String × String)) → List (String × String)
unfolding add_flink_properties
flink_props deployed sizes given = add_flink_properties given (
    copy_heap_size "taskmanager.heap.size" sizes
      (copy_heap_size "jobmanager.heap.size" sizes deployed))

-- `fmt.Sprintf("%s: %s\n", key, properties[key])`
property_line : List (String × String) → String → String
property_line properties key =
    str_append key (str_append ": " (str_append (or_else "" (lookup key properties)) "\n"))

-- The keys are sorted; the lines are written in their order.
unfoldable pub get_flink_properties : List (String × String) → String
unfolding property_line keys sort_strings lookup
get_flink_properties properties =
    concat (map (property_line properties) (sort_strings (keys properties)))
