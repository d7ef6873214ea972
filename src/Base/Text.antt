-- ===== src/Base/Text.antt =====
-- Texts: the empty one, equality as a decision, and decimal numbers.
use Prim.Native.Nat.{ℕ, zero, suc, ◌/◌, ◌%◌}
use Prim.Native.String.{String, ◌++◌ as str_append}
use mathlib.Core.Logic.{inl, inr}
use mathlib.Core.Bool.{Bool, true, false}
use mathlib.Core.List.{List, [], ◌∷◌}
use text.Mathlib.Text.{◌==◌}
use text.Mathlib.TextEquality.{eq_iff}
use flink_on_k8s_operator.Base.Tests.{Bool-cases, ltb, if◌then◌else◌}
use flink_on_k8s_operator.Base.Int.{ℤ, pos, negsuc}

-- `len(s) == 0`
abbrev pub is_empty : String → Bool
is_empty String.[] = true
is_empty (String.◌∷◌ _ _) = false

unfoldable pub string_discrete : Discrete String
string_discrete s t = elim (Bool-cases (s == t)) [
  | inl e ↦ yes ((eq_iff s t).0 e)
  | inr e ↦ no (λ p. cc ((eq_iff s t).1 p))
]

-- `strings.Builder`
abbrev pub concat : List String → String
concat [] = ""
concat (s ∷ rest) = str_append s (concat rest)

digit : ℕ → String
digit zero = "0"
digit (suc zero) = "1"
digit (suc (suc zero)) = "2"
digit (suc (suc (suc zero))) = "3"
digit (suc (suc (suc (suc zero)))) = "4"
digit (suc (suc (suc (suc (suc zero))))) = "5"
digit (suc (suc (suc (suc (suc (suc zero)))))) = "6"
digit (suc (suc (suc (suc (suc (suc (suc zero))))))) = "7"
digit (suc (suc (suc (suc (suc (suc (suc (suc zero)))))))) = "8"
digit _ = "9"

-- The decimal digits of a number before `acc`; a number has fewer digits than its successor.
digits_before : ℕ → ℕ → String → String
digits_before zero n acc = acc
digits_before (suc fuel) n acc =
    let rest = digits_before fuel (n / 10) (str_append (digit (n % 10)) acc) in
    if ltb n 10 then str_append (digit n) acc else rest

-- `%d` of package fmt.
unfoldable pub format_int : ℤ → String
unfolding digit digits_before
format_int (pos n) = digits_before (suc n) n ""
format_int (negsuc n) = str_append "-" (digits_before (suc (suc n)) (suc n) "")
