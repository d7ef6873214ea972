-- ===== src/Controllers/Converter/Properties/Laws.antt =====
-- Which value each Flink property gets, and that the order of the user's properties is no matter.
use Prim.Native.String.{◌++◌ as str_append}
use mathlib.Core.Path.{fun_ext}
use flink_on_k8s_operator.Base.{
  String, Option, none, some, true, false, List, [], ◌∷◌, ◌≡◌, refl, ap, sym, ◌∙◌, is_empty,
  is_some, or_else, arith, eq_iff, ◌==◌, if◌then◌else◌, Bool-cases, inl, inr,
}
use flink_on_k8s_operator.Base.Dict.{
  keys, lookup, insert, contains, AreDistinct, lookup-insert, contains-keys, insert-AreDistinct,
}
use flink_on_k8s_operator.Base.Sort.{sort_strings}
use flink_on_k8s_operator.Base.Sort.Laws.{sort_strings_unique}
use flink_on_k8s_operator.Controllers.Converter.Properties.{
  is_sys_prop, copy_heap_size, add_flink_properties, flink_props, property_line,
  get_flink_properties,
}

abbrev pub first_of {ℓ} : {A : Type ℓ} → Option A → Option A → Option A
first_of none b = b
first_of (some a) b = some a

lookup-fresh :
    (k : String) (m : List (String × String)) → contains k (keys m) ≡ false → lookup k m ≡ none
lookup-fresh k m h = ground (arith, contains-keys k m)

lookup-cons :
    (key k value : String) (rest : List (String × String))
    → lookup k ((key, value) ∷ rest) ≡ (if key == k then some value else lookup k rest)
unfolding lookup
lookup-cons key k value rest = refl

one_more :
    (k key value : String) (rest props : List (String × String))
    → lookup key rest ≡ none
    → (if is_sys_prop k
        then lookup k (if is_sys_prop key then props else insert key value props)
        else first_of
            (lookup k rest)
            (lookup k (if is_sys_prop key then props else insert key value props)))
      ≡ (if is_sys_prop k
          then lookup k props
          else first_of (lookup k ((key, value) ∷ rest)) (lookup k props))
one_more k key value rest props h = elim (Bool-cases (key == k)) [
  | inl e ↦
      let same : key ≡ k = (eq_iff key k).0 e in
      elim (Bool-cases (is_sys_prop key)) [
        | inl sys ↦ rw (sys, (sym (ap is_sys_prop same) ∙ sys)) refl
        | inr free ↦
            rw
              (
                free,
                sym (ap is_sys_prop same) ∙ free,
                lookup-insert key k value props,
                lookup-cons key k value rest,
                e,
                sym (ap (λ j. lookup j rest) same) ∙ h,
              )
              refl
      ]
  | inr n ↦
      rw (lookup-cons key k value rest, n)
        (elim (Bool-cases (is_sys_prop key)) [
          | inl sys ↦ rw sys refl
          | inr free ↦ rw (free, lookup-insert key k value props, n) refl
        ])
]

lookup-add_flink_properties :
    (k : String) (given props : List (String × String))
    → AreDistinct (keys given)
    → lookup k (add_flink_properties given props)
      ≡ (if is_sys_prop k then lookup k props else first_of (lookup k given) (lookup k props))
unfolding add_flink_properties lookup keys
lookup-add_flink_properties k [] props h = ground arith
lookup-add_flink_properties k ((key, value) ∷ rest) props (fresh, h) =
    rw
      (lookup-add_flink_properties k rest
        (if is_sys_prop key then props else insert key value props) h)
      (one_more k key value rest props (lookup-fresh key rest fresh))

-- A heap size that is set.
abbrev pub non_empty : Option String → Option String
non_empty none = none
non_empty (some s) = if is_empty s then none else some s

lookup-copy_heap_size :
    (k key : String) (sizes props : List (String × String))
    → lookup k (copy_heap_size key sizes props) ≡ (
        if key == k
        then first_of (non_empty (lookup key sizes)) (lookup k props)
        else lookup k props)
unfolding copy_heap_size
lookup-copy_heap_size k key sizes props = from (lookup key sizes)
  where
    from :
        (size : Option String)
        → lookup k
            (if is_empty (or_else "" size) then props else insert key (or_else "" size) props)
          ≡ (if key == k then first_of (non_empty size) (lookup k props) else lookup k props)
    from none = ground arith
    from (some s) = ground (arith, lookup-insert key k s props)

-- The heap size of the component whose property this is.
abbrev pub given_heap_size : String → List (String × String) → Option String
given_heap_size k sizes =
    if "taskmanager.heap.size" == k
    then non_empty (lookup "taskmanager.heap.size" sizes)
    else if "jobmanager.heap.size" == k
    then non_empty (lookup "jobmanager.heap.size" sizes)
    else none

jm_heap_size_free : is_sys_prop "jobmanager.heap.size" ≡ false
unfolding is_sys_prop
jm_heap_size_free = refl

tm_heap_size_free : is_sys_prop "taskmanager.heap.size" ≡ false
unfolding is_sys_prop
tm_heap_size_free = refl

lookup-copies :
    (k : String) (deployed sizes : List (String × String))
    → lookup k (
        copy_heap_size "taskmanager.heap.size" sizes
          (copy_heap_size "jobmanager.heap.size" sizes deployed))
      ≡ first_of (given_heap_size k sizes) (lookup k deployed)
lookup-copies k deployed sizes =
    rw
      (
        lookup-copy_heap_size k "taskmanager.heap.size" sizes
            (copy_heap_size "jobmanager.heap.size" sizes deployed),
        lookup-copy_heap_size k "jobmanager.heap.size" sizes deployed,
      )
      (elim (Bool-cases ("taskmanager.heap.size" == k)) [
        | inl e ↦
            let not_jm : ("jobmanager.heap.size" == k) ≡ false =
              ap (λ j. "jobmanager.heap.size" == j)
                (sym ((eq_iff "taskmanager.heap.size" k).0 e)) in
            rw (e, not_jm) refl
        | inr n ↦ rw n (elim (Bool-cases ("jobmanager.heap.size" == k)) [
          | inl e ↦ rw e refl
          | inr m ↦ rw m refl
        ])
      ])

given_heap_size-sys :
    (k : String) (sizes : List (String × String))
    → is_sys_prop k ≡ true
    → given_heap_size k sizes ≡ none
given_heap_size-sys k sizes h = elim (Bool-cases ("taskmanager.heap.size" == k)) [
  | inl e ↦ cc (ap is_sys_prop ((eq_iff "taskmanager.heap.size" k).0 e), h, tm_heap_size_free)
  | inr n ↦ rw n (elim (Bool-cases ("jobmanager.heap.size" == k)) [
    | inl e ↦ cc (ap is_sys_prop ((eq_iff "jobmanager.heap.size" k).0 e), h, jm_heap_size_free)
    | inr m ↦ rw m refl
  ])
]

-- In the Flink configuration of a cluster whose user gave distinct properties: a system property has
-- the value of the deployment, whatever the user gave; any other has the value that the user gave,
-- else the heap size that was computed, else the value of the deployment.
pub flink_props_lem :
    (k : String) (deployed sizes given : List (String × String))
    → AreDistinct (keys given)
    → lookup k (flink_props deployed sizes given) ≡ (
        if is_sys_prop k
        then lookup k deployed
        else first_of (lookup k given) (first_of (given_heap_size k sizes) (lookup k deployed)))
unfolding flink_props
flink_props_lem k deployed sizes given distinct =
    rw
      (
        lookup-add_flink_properties k given
            (copy_heap_size "taskmanager.heap.size" sizes
              (copy_heap_size "jobmanager.heap.size" sizes deployed))
            distinct,
        lookup-copies k deployed sizes,
      )
      (elim (Bool-cases (is_sys_prop k)) [
        | inl sys ↦ rw (sys, given_heap_size-sys k sizes sys) refl
        | inr free ↦ rw free refl
      ])

copy_heap_size-AreDistinct :
    (key : String) (sizes props : List (String × String))
    → AreDistinct (keys props)
    → AreDistinct (keys (copy_heap_size key sizes props))
unfolding copy_heap_size
copy_heap_size-AreDistinct key sizes props h =
    ground (arith, insert-AreDistinct key (or_else "" (lookup key sizes)) props h)

add_flink_properties-AreDistinct :
    (given props : List (String × String))
    → AreDistinct (keys props)
    → AreDistinct (keys (add_flink_properties given props))
unfolding add_flink_properties
add_flink_properties-AreDistinct [] props h = h
add_flink_properties-AreDistinct ((key, value) ∷ rest) props h =
    add_flink_properties-AreDistinct rest
      (if is_sys_prop key then props else insert key value props)
      (ground (arith, insert-AreDistinct key value props h))

flink_props-AreDistinct :
    (deployed sizes given : List (String × String))
    → AreDistinct (keys deployed)
    → AreDistinct (keys (flink_props deployed sizes given))
unfolding flink_props
flink_props-AreDistinct deployed sizes given h = add_flink_properties-AreDistinct given _ (
    copy_heap_size-AreDistinct "taskmanager.heap.size" sizes _
      (copy_heap_size-AreDistinct "jobmanager.heap.size" sizes deployed h))

-- The text depends on the map alone.
get_flink_properties_unique :
    (m m' : List (String × String))
    → AreDistinct (keys m)
    → AreDistinct (keys m')
    → ((k : String) → lookup k m ≡ lookup k m')
    → get_flink_properties m ≡ get_flink_properties m'
unfolding get_flink_properties
get_flink_properties_unique m m' d d' same =
    let lines : property_line m ≡ property_line m' = fun_ext (λ key.
      ap (λ v. str_append key (str_append ": " (str_append (or_else "" v) "\n"))) (same key)) in
    let sorted : sort_strings (keys m) ≡ sort_strings (keys m') =
      sort_strings_unique (keys m) (keys m') d d'
        λ k. contains-keys k m ∙ ap is_some (same k) ∙ sym (contains-keys k m') in
    rw (lines, sorted) refl

-- Two lists of the same properties of the user give the same text.
pub get_flink_properties-flink_props_unique :
    (deployed sizes given given' : List (String × String))
    → AreDistinct (keys deployed)
    → AreDistinct (keys given)
    → AreDistinct (keys given')
    → ((k : String) → lookup k given ≡ lookup k given')
    → get_flink_properties (flink_props deployed sizes given)
      ≡ get_flink_properties (flink_props deployed sizes given')
get_flink_properties-flink_props_unique deployed sizes given given' d e e' same =
    get_flink_properties_unique (flink_props deployed sizes given)
      (flink_props deployed sizes given') (flink_props-AreDistinct deployed sizes given d)
      (flink_props-AreDistinct deployed sizes given' d)
      λ k.
        flink_props_lem k deployed sizes given e
        ∙ ap
            (λ v.
              if is_sys_prop k
              then lookup k deployed
              else first_of v (first_of (given_heap_size k sizes) (lookup k deployed)))
            (same k)
        ∙ sym (flink_props_lem k deployed sizes given' e')
