-- ===== src/Controllers/Converter/Mounts.antt =====
-- The mounts of the init containers of a job.
use flink_on_k8s_operator.Base.{
  String, Bool, true, false, ◌≡◌, refl, ◌↔◌, ◌⊎◌, inl, inr, List, [], ◌∷◌, ◌++◌, ◌||◌, ◌==◌, arith,
  eq_iff, if◌then◌else◌,
}
use flink_on_k8s_operator.K8s.{VolumeMount}
use flink_on_k8s_operator.Controllers.Converter.{has_mount_at, add_mounts}

-- Some mount is at this path.
abbrev pub Covers : String → List VolumeMount → Type 0
Covers path [] = ⊥
Covers path (mount ∷ mounts) = (path ≡ mount.mount_path) ⊎ Covers path mounts

-- No two mounts are at one path.
abbrev pub AreDistinct : List VolumeMount → Type 0
AreDistinct [] = Unit
AreDistinct (mount ∷ mounts) = (¬ Covers mount.mount_path mounts) × AreDistinct mounts

-- The same, as the code tests it.
abbrev IsFound : String → List VolumeMount → Type 0
IsFound path mounts = has_mount_at path mounts ≡ true

abbrev HaveNoClash : List VolumeMount → Type 0
HaveNoClash [] = Unit
HaveNoClash (mount ∷ mounts) = (has_mount_at mount.mount_path mounts ≡ false) × HaveNoClash mounts

has_mount_at_iff :
    (path : String) (mounts : List VolumeMount) → IsFound path mounts ↔ Covers path mounts
unfolding has_mount_at
has_mount_at_iff path [] = ground arith
has_mount_at_iff path (m ∷ ms) = ground (arith, has_mount_at_iff path ms, eq_iff path m.mount_path)

distinct_iff : (mounts : List VolumeMount) → HaveNoClash mounts ↔ AreDistinct mounts
distinct_iff [] = ground arith
distinct_iff (m ∷ ms) = ground (arith, distinct_iff ms, has_mount_at_iff m.mount_path ms)

has_mount_at-append :
    (path : String) (xs ys : List VolumeMount)
    → has_mount_at path (xs ++ ys) ≡ (has_mount_at path xs || has_mount_at path ys)
unfolding has_mount_at
has_mount_at-append path [] ys = refl
has_mount_at-append path (x ∷ xs) ys = ground (arith, has_mount_at-append path xs ys)

HaveNoClash-append_one :
    (mounts : List VolumeMount) (mount : VolumeMount)
    → HaveNoClash mounts
    → has_mount_at mount.mount_path mounts ≡ false
    → HaveNoClash (mounts ++ mount ∷ [])
unfolding has_mount_at
HaveNoClash-append_one [] mount h k = (refl, tt)
HaveNoClash-append_one (m ∷ mounts) mount (h, hs) k = (
  ground (
    arith,
    has_mount_at-append m.mount_path mounts (mount ∷ []),
    eq_iff mount.mount_path m.mount_path,
    eq_iff m.mount_path mount.mount_path,
  ),
  HaveNoClash-append_one mounts mount hs (ground arith),
)

add_mounts-HaveNoClash :
    (mounts job_mounts : List VolumeMount)
    → HaveNoClash mounts
    → HaveNoClash (add_mounts mounts job_mounts)
unfolding add_mounts
add_mounts-HaveNoClash mounts [] h = h
add_mounts-HaveNoClash mounts (m ∷ rest) h =
    add_mounts-HaveNoClash (if has_mount_at m.mount_path mounts then mounts else mounts ++ m ∷ [])
      rest (added (has_mount_at m.mount_path mounts) refl)
  where
    added :
        (b : Bool)
        → has_mount_at m.mount_path mounts ≡ b
        → HaveNoClash (if b then mounts else mounts ++ m ∷ [])
    added true e = h
    added false e = HaveNoClash-append_one mounts m h e

-- Adding the mounts of the job to those of an init container puts no two of them at one path, if there
-- were none before.
pub add_mounts-AreDistinct :
    (mounts job_mounts : List VolumeMount)
    → AreDistinct mounts
    → AreDistinct (add_mounts mounts job_mounts)
add_mounts-AreDistinct mounts job_mounts h =
    (distinct_iff (add_mounts mounts job_mounts)).0
      (add_mounts-HaveNoClash mounts job_mounts ((distinct_iff mounts).1 h))

-- One mount of the job.
has_mount_at-added :
    (path : String) (mounts : List VolumeMount) (m : VolumeMount) (b : Bool)
    → has_mount_at m.mount_path mounts ≡ b
    → IsFound path (if b then mounts else mounts ++ m ∷ [])
      ↔ (IsFound path mounts ⊎ ((path == m.mount_path) ≡ true))
unfolding has_mount_at
has_mount_at-added path mounts m true e = (λ h. inl h, λ h. from h)
  where
    from : IsFound path mounts ⊎ ((path == m.mount_path) ≡ true) → IsFound path mounts
    from (inl h) = h
    from (inr h) = rw ((eq_iff path m.mount_path).0 h) e
has_mount_at-added path mounts m false e = ground (arith, has_mount_at-append path mounts (m ∷ []))

add_mounts-IsFound_iff :
    (path : String) (mounts job_mounts : List VolumeMount)
    → IsFound path (add_mounts mounts job_mounts) ↔ (IsFound path mounts ⊎ IsFound path job_mounts)
unfolding add_mounts has_mount_at
add_mounts-IsFound_iff path mounts [] = (λ h. inl h, λ h. from h)
  where
    from : IsFound path mounts ⊎ (false ≡ true) → IsFound path mounts
    from (inl h) = h
    from (inr h) = cc
add_mounts-IsFound_iff path mounts (m ∷ rest) = ground (
  arith,
  has_mount_at-added path mounts m (has_mount_at m.mount_path mounts) refl,
  add_mounts-IsFound_iff path
      (if has_mount_at m.mount_path mounts then mounts else mounts ++ m ∷ []) rest,
)

-- A path is mounted in the end exactly when the container or the job mounts it.
pub add_mounts-Covers_iff :
    (path : String) (mounts job_mounts : List VolumeMount)
    → Covers path (add_mounts mounts job_mounts) ↔ (Covers path mounts ⊎ Covers path job_mounts)
add_mounts-Covers_iff path mounts job_mounts = ground (
  arith,
  add_mounts-IsFound_iff path mounts job_mounts,
  has_mount_at_iff path (add_mounts mounts job_mounts),
  has_mount_at_iff path mounts,
  has_mount_at_iff path job_mounts,
)
