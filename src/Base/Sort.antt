-- ===== src/Base/Sort.antt =====
-- The order of texts, and `sort.Strings`: the order of their bytes in UTF-8 is that of their code
-- points.
pub mod Laws
use Prim.Native.Char.{code}
use Prim.Native.String.{String}
use mathlib.Core.Path.{◌≡◌, refl}
use mathlib.Core.Bool.{Bool, true, false}
use mathlib.Core.List.{List, [], ◌∷◌}
use native.Mathlib.Omega.{arith}
use text.Mathlib.TextEquality.{Char-path}
use flink_on_k8s_operator.Base.Tests.{ltb, if◌then◌else◌}

-- `s < t`
unfoldable pub str_lt : String → String → Bool
str_lt s String.[] = false
str_lt String.[] (String.◌∷◌ d t) = true
str_lt (String.◌∷◌ c s) (String.◌∷◌ d t) =
    if ltb (code c) (code d) then true else if ltb (code d) (code c) then false else str_lt s t

pub str_lt_irrefl : (s : String) → str_lt s s ≡ false
unfolding str_lt
str_lt_irrefl String.[] = refl
str_lt_irrefl (String.◌∷◌ c s) = ground (arith, str_lt_irrefl s)

pub str_lt_trans : (s t u : String) → str_lt s t ≡ true → str_lt t u ≡ true → str_lt s u ≡ true
unfolding str_lt
str_lt_trans s t String.[] h k = cc
str_lt_trans s String.[] (String.◌∷◌ e u) h k = cc
str_lt_trans String.[] (String.◌∷◌ d t) (String.◌∷◌ e u) h k = refl
str_lt_trans (String.◌∷◌ c s) (String.◌∷◌ d t) (String.◌∷◌ e u) h k =
    ground (arith, str_lt_trans s t u)

-- Two texts neither of which is less are the same.
pub str_lt_total : (s t : String) → str_lt s t ≡ false → str_lt t s ≡ false → s ≡ t
unfolding str_lt
str_lt_total String.[] String.[] h k = refl
str_lt_total String.[] (String.◌∷◌ d t) h k = cc
str_lt_total (String.◌∷◌ c s) String.[] h k = cc
str_lt_total (String.◌∷◌ c s) (String.◌∷◌ d t) h k = ground (arith, Char-path c d, str_lt_total s t)

-- Insertion into a sorted list.
insert_sorted : String → List String → List String
insert_sorted k [] = k ∷ []
insert_sorted k (j ∷ js) = if str_lt j k then j ∷ insert_sorted k js else k ∷ j ∷ js

unfoldable pub sort_strings : List String → List String
unfolding insert_sorted str_lt
sort_strings [] = []
sort_strings (k ∷ ks) = insert_sorted k (sort_strings ks)
