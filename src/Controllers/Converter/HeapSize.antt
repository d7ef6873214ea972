-- ===== src/Controllers/Converter/HeapSize.antt =====
-- The heap sizes that are left by the off-heap reserve, controllers/flinkcluster_converter.go.
pub mod Bounds
use flink_on_k8s_operator.Base.{
  ℕ, String, Option, none, some, List, [], ◌∷◌, ◌++◌, format_int, if◌then◌else◌,
}
use Prim.Native.String.{◌++◌ as str_append}
use flink_on_k8s_operator.Base.Int.{ℤ, pos, ltb_ℤ}
use flink_on_k8s_operator.Base.Int64.{◌-ℤ◌, ◌*ℤ◌, wrap_int64}
use flink_on_k8s_operator.Base.Dict.{insert}
use flink_on_k8s_operator.Base.Run.{Run, done, panic, ◌>>=◌, deref}
use flink_on_k8s_operator.K8s.{Quantity}
use flink_on_k8s_operator.Api.{FlinkCluster}

-- `float64` as the source uses it: two conversions, the division, and `math.Ceil`.
pub record Float64 : Type 1 where
  pub Float : Type 0
  pub of_int64 : ℤ → Float
  pub to_int64 : Float → ℤ
  pub divide : Float → Float → Float
  pub ceil : Float → Float

abbrev decimal_si : ℤ → Quantity
decimal_si value = record { value = value; format = "DecimalSI" }

abbrev at_least : ℤ → ℤ → ℤ
at_least off_heap_min off_heap_size =
    if ltb_ℤ off_heap_size off_heap_min then off_heap_min else off_heap_size

module _ (f : Float64) where
  -- `int64(math.Ceil(float64(a) / float64(b)))`
  abbrev pub ceil_quotient : ℤ → ℤ → ℤ
  ceil_quotient a b = f.to_int64 (f.ceil (f.divide (f.of_int64 a) (f.of_int64 b)))

  unfoldable pub convert_resource_memory_to_int64 : Quantity → Quantity → ℤ
  convert_resource_memory_to_int64 memory divisor = ceil_quotient memory.value divisor.value

  -- `resource.MustParse("1M")` is a million bytes.
  unfoldable pub heap_size_of : ℤ → ℤ
  unfolding convert_resource_memory_to_int64
  heap_size_of heap_size =
      if ltb_ℤ (pos 0) heap_size
      then convert_resource_memory_to_int64 (decimal_si heap_size) (decimal_si (pos 1000000))
      else pos 0

  unfoldable pub cal_heap_size : (mem_size off_heap_min off_heap_ratio : ℤ) → ℤ
  unfolding heap_size_of
  cal_heap_size mem_size off_heap_min off_heap_ratio =
      let off_heap_size = ceil_quotient (wrap_int64 (mem_size *ℤ off_heap_ratio)) (pos 100) in
      heap_size_of (wrap_int64 (mem_size -ℤ at_least off_heap_min off_heap_size))

  -- A heap size that is not positive is not set.
  abbrev set_heap_size : String → ℤ → List (String × String) → List (String × String)
  set_heap_size key heap_size sizes =
      if ltb_ℤ (pos 0) heap_size
      then insert key (str_append (format_int heap_size) "m") sizes
      else sizes

  -- The block of one component, entered if it has a memory limit.
  unfoldable pub add_heap_size :
      String
      → (limit off_heap_min : Quantity) → Option ℤ
      → List (String × String)
      → Run (List (String × String))
  unfolding insert cal_heap_size format_int
  add_heap_size key limit off_heap_min ratio sizes =
      if ltb_ℤ (pos 0) limit.value
      then (do
        ratio ← deref ratio
        done (set_heap_size key (cal_heap_size limit.value off_heap_min.value ratio) sizes))
      else done sizes

  -- A JobManager without a ratio gives the nil map.
  unfoldable pub cal_flink_heap_size : FlinkCluster → Run (List (String × String))
  unfolding add_heap_size
  cal_flink_heap_size cluster =
      let jm = cluster.spec.job_manager in
      let tm = cluster.spec.task_manager in
      elim (jm.memory_off_heap_ratio) [
        | none ↦ done []
        | some ratio ↦
            add_heap_size "jobmanager.heap.size" jm.resources.limits_memory jm.memory_off_heap_min
              (some ratio) []
            >>= λ sizes.
                add_heap_size "taskmanager.heap.size" tm.resources.limits_memory
                  tm.memory_off_heap_min tm.memory_off_heap_ratio sizes
      ]
