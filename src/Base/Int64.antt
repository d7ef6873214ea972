-- ===== src/Base/Int64.antt =====
-- Arithmetic on `int64`, which wraps round.
use Prim.Native.Nat.{ℕ, suc, ◌+◌, ◌-◌, ◌*◌, ◌%◌, ◌<◌}
use mathlib.Core.Path.{◌≡◌}
use native.Mathlib.Omega.{arith}
use flink_on_k8s_operator.Base.Tests.{ltb, leb, if◌then◌else◌}
use flink_on_k8s_operator.Base.Int.{ℤ, pos, negsuc, pos_part, neg_part}

-- a - b, as an integer.
abbrev pub sub_ℕ : ℕ → ℕ → ℤ
sub_ℕ a b = if leb b a then pos (a - b) else negsuc (b - a - 1)

infixl 65 ◌-ℤ◌
infixl 70 ◌*ℤ◌
abbrev pub ◌-ℤ◌ : ℤ → ℤ → ℤ
a -ℤ b = sub_ℕ (pos_part a + neg_part b) (pos_part b + neg_part a)

abbrev pub ◌*ℤ◌ : ℤ → ℤ → ℤ
pos a *ℤ pos b = pos (a * b)
pos a *ℤ negsuc b = sub_ℕ 0 (a * suc b)
negsuc a *ℤ pos b = sub_ℕ 0 (suc a * b)
negsuc a *ℤ negsuc b = pos (suc a * suc b)

-- The value from -2^63 to 2^63 - 1 that is the same modulo 2^64.
unfoldable pub wrap_int64 : ℤ → ℤ
wrap_int64 (pos n) =
    let r = n % 18446744073709551616 in
    if ltb r 9223372036854775808 then pos r else negsuc (18446744073709551616 - r - 1)
wrap_int64 (negsuc n) =
    let r = n % 18446744073709551616 in
    if ltb r 9223372036854775808 then negsuc r else pos (18446744073709551616 - r - 1)

pub wrap_int64_pos : (n : ℕ) → n < 9223372036854775808 → wrap_int64 (pos n) ≡ pos n
unfolding wrap_int64
wrap_int64_pos n h = ground arith

-- A difference of two values that are not negative does not wrap round.
pub wrap_int64-sub :
    (a b : ℕ)
    → a < 9223372036854775808
    → b < 9223372036854775808
    → wrap_int64 (pos a -ℤ pos b) ≡ pos a -ℤ pos b
unfolding wrap_int64
wrap_int64-sub a b h k = ground arith
