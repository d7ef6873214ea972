-- ===== src/Base/Dict.antt =====
-- A Go map with texts for keys, as the list of its entries in the order in which a loop meets them.
use mathlib.Core.Path.{◌≡◌, refl}
use mathlib.Core.Bool.{Bool, false, ◌||◌}
use mathlib.Core.Option.{Option, none, some}
use mathlib.Core.List.{List, [], ◌∷◌, map}
use Prim.Native.String.{String}
use native.Mathlib.Omega.{arith}
use text.Mathlib.Text.{◌==◌}
use text.Mathlib.TextEquality.{eq_iff}
use flink_on_k8s_operator.Base.Tests.{if◌then◌else◌, is_some}

unfoldable pub contains : String → List String → Bool
contains k [] = false
contains k (j ∷ js) = j == k || contains k js

-- Every key stands in front once.
abbrev pub AreDistinct : List String → Type 0
AreDistinct [] = Unit
AreDistinct (k ∷ ks) = (contains k ks ≡ false) × AreDistinct ks

module _ {ℓ} {V : Type ℓ} where
  unfoldable pub keys : List (String × V) → List String
  keys = map (λ (k, _). k)

  -- `value, ok := dict[key]`
  unfoldable pub lookup : String → List (String × V) → Option V
  lookup key [] = none
  lookup key (entry ∷ rest) = if entry.0 == key then some entry.1 else lookup key rest

  -- `dict[key] = value`: a new key goes to the end.
  unfoldable pub insert : String → V → List (String × V) → List (String × V)
  insert key value [] = (key, value) ∷ []
  insert key value (entry ∷ rest) =
      let unchanged = insert key value rest in
      if entry.0 == key then (key, value) ∷ rest else entry ∷ unchanged

  pub lookup-insert :
      (key asked : String) (value : V) (dict : List (String × V))
      → lookup asked (insert key value dict)
        ≡ (if key == asked then some value else lookup asked dict)
  unfolding insert lookup
  lookup-insert key asked value [] = refl
  lookup-insert key asked value (entry ∷ rest) = ground (
    arith,
    lookup-insert key asked value rest,
    eq_iff key asked,
    eq_iff entry.0 asked,
    eq_iff entry.0 key,
  )

  pub contains-keys :
      (k : String) (m : List (String × V)) → contains k (keys m) ≡ is_some (lookup k m)
  unfolding contains keys lookup
  contains-keys k [] = refl
  contains-keys k ((j, v) ∷ m) = ground (arith, contains-keys k m)

  contains-keys-insert :
      (k j : String) (v : V) (m : List (String × V))
      → contains j (keys (insert k v m)) ≡ (k == j || contains j (keys m))
  unfolding contains keys insert
  contains-keys-insert k j v [] = refl
  contains-keys-insert k j v ((i, w) ∷ m) =
      ground (arith, eq_iff k j, eq_iff i k, eq_iff i j, contains-keys-insert k j v m)

  pub insert-AreDistinct :
      (k : String) (v : V) (m : List (String × V))
      → AreDistinct (keys m)
      → AreDistinct (keys (insert k v m))
  unfolding keys insert contains
  insert-AreDistinct k v [] h = (refl, tt)
  insert-AreDistinct k v ((j, w) ∷ m) (fresh, h) =
      ground
        (arith, eq_iff j k, eq_iff k j, contains-keys-insert k j v m, insert-AreDistinct k v m h)
