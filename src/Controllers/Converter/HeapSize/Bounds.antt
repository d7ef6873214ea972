-- ===== src/Controllers/Converter/HeapSize/Bounds.antt =====
-- The heap size is what the reserve leaves, rounded up to a million bytes.
use flink_on_k8s_operator.Base.{
  ℕ, ◌≡◌, ◌∙◌, ◌+◌, ◌-◌, ◌*◌, ◌/◌, ◌≤◌, ◌<◌, arith, ltb, if◌then◌else◌,
}
use flink_on_k8s_operator.Base.Int.{ℤ, pos, pos_part, ◌≤ℤ◌}
use flink_on_k8s_operator.Base.Int64.{◌-ℤ◌, sub_ℕ, wrap_int64, wrap_int64_pos, wrap_int64-sub}
use flink_on_k8s_operator.Controllers.Converter.HeapSize.{
  Float64, ceil_quotient, at_least, heap_size_of, cal_heap_size,
}

-- Of numbers up to 2^53, which a `float64` holds exactly, the rounded-up quotient is exact: the
-- rounding of the quotient is too small to reach the integer below it.
abbrev pub IsExact : Float64 → Type 0
IsExact f =
    (a b : ℕ)
    → a ≤ 9007199254740992
    → 0 < b
    → b ≤ 9007199254740992
    → ceil_quotient f (pos a) (pos b) ≡ pos ((a + b - 1) / b)

-- The reserve: a share of the memory, and not less than the minimum.
abbrev pub reserve : (mem_size : ℕ) → ℤ → (off_heap_ratio : ℕ) → ℕ
reserve mem_size off_heap_min off_heap_ratio =
    let share = (mem_size * off_heap_ratio + 99) / 100 in
    if ltb share (pos_part off_heap_min) then pos_part off_heap_min else share

-- In units of a million bytes: what is left, rounded up.
abbrev pub IsHeap : (mem_size reserve : ℕ) → ℤ → Type 0
IsHeap mem_size reserve heap_size =
    (h : ℕ) × (heap_size ≡ pos h)
    × (mem_size ≤ reserve → h ≡ 0)
    × (reserve < mem_size → mem_size ≤ h * 1000000 + reserve)
    × (reserve < mem_size → h * 1000000 + reserve < mem_size + 1000000)

heap_size_of_lem :
    (f : Float64) (mem_size r : ℕ)
    → IsExact f
    → mem_size ≤ 9007199254740992
    → heap_size_of f (sub_ℕ mem_size r) ≡ pos ((mem_size - r + 999999) / 1000000)
unfolding heap_size_of
heap_size_of_lem f mem_size r exact h =
    ground (arith, exact (mem_size - r) 1000000 (omega arith) (omega arith) (omega arith))

-- The share that the code computes.
ceil_quotient-share :
    (f : Float64) (mem_size off_heap_ratio : ℕ)
    → IsExact f
    → mem_size * off_heap_ratio ≤ 9007199254740992
    → ceil_quotient f (wrap_int64 (pos (mem_size * off_heap_ratio))) (pos 100)
      ≡ pos ((mem_size * off_heap_ratio + 99) / 100)
ceil_quotient-share f mem_size off_heap_ratio exact h =
    rw (wrap_int64_pos (mem_size * off_heap_ratio) (omega arith))
      (exact (mem_size * off_heap_ratio) 100 h (omega arith) (omega arith) ∙ ground arith)

-- What the code leaves does not wrap round.
left_over :
    (mem_size share : ℕ) (off_heap_min : ℤ)
    → mem_size ≤ 9007199254740992
    → share ≤ 9007199254740992
    → off_heap_min ≤ℤ pos mem_size
    → wrap_int64 (pos mem_size -ℤ at_least off_heap_min (pos share))
      ≡ sub_ℕ mem_size (if ltb share (pos_part off_heap_min) then pos_part off_heap_min else share)
left_over mem_size share off_heap_min h k below =
    ground (arith, wrap_int64-sub mem_size share, wrap_int64-sub mem_size (pos_part off_heap_min))

-- For a memory limit and a ratio whose product is at most 2^53, and a minimum that is not above
-- the limit: the heap size ends in a number of megabytes.
pub cal_heap_size-IsHeap :
    (f : Float64) (mem_size : ℕ) (off_heap_min : ℤ) (off_heap_ratio : ℕ)
    → IsExact f
    → mem_size ≤ 9007199254740992
    → mem_size * off_heap_ratio ≤ 9007199254740992
    → off_heap_min ≤ℤ pos mem_size
    → IsHeap mem_size
        (reserve mem_size off_heap_min off_heap_ratio)
        (cal_heap_size f (pos mem_size) off_heap_min (pos off_heap_ratio))
unfolding cal_heap_size
cal_heap_size-IsHeap f mem_size off_heap_min off_heap_ratio exact small product below =
    let r = reserve mem_size off_heap_min off_heap_ratio in
    (
      (mem_size - r + 999999) / 1000000,
      rw (ceil_quotient-share f mem_size off_heap_ratio exact product) (
          rw
            (left_over mem_size ((mem_size * off_heap_ratio + 99) / 100) off_heap_min small
              (omega arith) below)
            (heap_size_of_lem f mem_size r exact small)),
      (λ h. omega arith),
      (λ h. omega arith),
      (λ h. omega arith),
    )
