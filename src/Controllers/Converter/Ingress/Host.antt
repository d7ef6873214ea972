-- ===== src/Controllers/Converter/Ingress/Host.antt =====
-- The host of the ingress, `getJobManagerIngressHost` of controllers/flinkcluster_converter.go.
use Prim.Native.Char.{Char, code}
use Prim.Native.String.{◌++◌ as str_append}
use flink_on_k8s_operator.Base.{String, Option, none, some, Bool, ◌||◌, eqb_ℕ, if◌then◌else◌}

-- What is left of a text after another that it begins with.
unfoldable pub after : String → String → Option String
after String.[] s = some s
after (String.◌∷◌ d t) String.[] = none
after (String.◌∷◌ d t) (String.◌∷◌ c s) = if eqb_ℕ (code d) (code c) then after t s else none

-- `\s`: tab, line feed, form feed, carriage return and space.
abbrev is_space : Char → Bool
is_space c =
    eqb_ℕ (code c) 9
    || eqb_ℕ (code c) 10
    || eqb_ℕ (code c) 12
    || eqb_ℕ (code c) 13
    || eqb_ℕ (code c) 32

unfoldable pub skip_spaces : String → String
skip_spaces String.[] = ""
skip_spaces (String.◌∷◌ c s) = if is_space c then skip_spaces s else String.◌∷◌ c s

-- `jobManagerIngressHostRegex` at the start of a text: what follows the match. No choice is lost,
-- since neither `$` nor `}` is a space.
unfoldable pub after_reference : String → Option String
unfolding after skip_spaces
after_reference s = elim (after "{{" s) [
  | none ↦ none
  | some s ↦ elim (after "$clusterName" (skip_spaces s)) [
    | none ↦ none
    | some s ↦ after "}}" (skip_spaces s)
  ]
]

-- `ReplaceAllString`: the matches from left to right. A text has no more matches and characters
-- than it has characters.
unfoldable pub replace_all : (fuel replacement s : String) → String
replace_all String.[] replacement s = s
replace_all (String.◌∷◌ _ fuel) replacement String.[] = ""
replace_all (String.◌∷◌ _ fuel) replacement (String.◌∷◌ c s) =
    elim (after_reference (String.◌∷◌ c s)) [
      | none ↦ String.◌∷◌ c (replace_all fuel replacement s)
      | some rest ↦ str_append replacement (replace_all fuel replacement rest)
    ]

-- The name of a cluster is a DNS name: it has no `$`, which would be expanded in a replacement.
unfoldable pub get_job_manager_ingress_host : (host_format cluster_name : String) → String
unfolding replace_all after_reference
get_job_manager_ingress_host host_format cluster_name =
    replace_all host_format cluster_name host_format
