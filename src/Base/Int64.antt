-- ===== src/Base/Int64.antt =====
-- Go's `int`, `int64` and `time.Duration`: integers that wrap around at 64 bits.
use Prim.Native.Nat.{ℕ, suc, ◌+◌, ◌-◌, ◌/◌, ◌%◌, ◌≤◌, ◌<◌}
use mathlib.Core.Path.{◌≡◌}
use native.Mathlib.Omega.{arith}
use pomodoro_backend.Base.Tests.{ltb, leb, if◌then◌else◌}
use pomodoro_backend.Base.Int.{ℤ, pos, negsuc, pos_part, neg_part, sub_ℕ, ◌+ℤ◌, ◌-ℤ◌, ◌*ℤ◌, ltb_ℤ}

-- 2 ^ 63 and 2 ^ 64
abbrev pub half_range : ℕ
half_range = 9223372036854775808

abbrev pub full_range : ℕ
full_range = 18446744073709551616

-- The value that 64 bits of two's complement hold of an integer.
unfoldable pub wrap64 : ℤ → ℤ
wrap64 a =
    let u = (pos_part a + (full_range - neg_part a % full_range)) % full_range in
    if ltb u half_range then pos u else negsuc (full_range - u - 1)

abbrev pub IsInt64 : ℤ → Type 0
IsInt64 a = (pos_part a < half_range) × (neg_part a ≤ half_range)

unfoldable pub add64 : ℤ → ℤ → ℤ
add64 a b = wrap64 (a +ℤ b)

unfoldable pub sub64 : ℤ → ℤ → ℤ
sub64 a b = wrap64 (a -ℤ b)

unfoldable pub mul64 : ℤ → ℤ → ℤ
mul64 a b = wrap64 (a *ℤ b)

-- An integer over a number, rounded towards zero.
abbrev pub quot : ℤ → ℕ → ℤ
quot (pos n) d = pos (n / d)
quot (negsuc n) d = sub_ℕ 0 (suc n / d)

-- Go's `/`. The callers divide by a value that is not zero.
unfoldable pub div64 : ℤ → ℤ → ℤ
div64 a (pos d) = wrap64 (quot a d)
div64 a (negsuc d) = wrap64 (pos 0 -ℤ quot a (suc d))

-- The nearest integer of 64 bits, where Go's `time` saturates.
unfoldable pub sat64 : ℤ → ℤ
sat64 a =
    if leb half_range (pos_part a)
    then pos (half_range - 1)
    else if ltb half_range (neg_part a)
    then negsuc (half_range - 1)
    else a

pub wrap64-IsInt64 : (a : ℤ) → IsInt64 (wrap64 a)
unfolding wrap64
wrap64-IsInt64 a = ground arith

-- In range, nothing wraps.
pub wrap64_id : (a : ℤ) → IsInt64 a → wrap64 a ≡ a
unfolding wrap64
wrap64_id (pos n) h = ground arith
wrap64_id (negsuc n) h = ground arith

-- Wrapping an intermediate sum does not change the final one.
pub wrap64-add : (a b : ℤ) → wrap64 (wrap64 a +ℤ b) ≡ wrap64 (a +ℤ b)
unfolding wrap64 ◌+ℤ◌
wrap64-add a b = ground arith

pub sat64_sign : (a : ℤ) → ltb_ℤ (pos 0) (sat64 a) ≡ ltb_ℤ (pos 0) a
unfolding sat64
sat64_sign (pos n) = ground arith
sat64_sign (negsuc n) = ground arith

pub sat64_id : (a : ℤ) → IsInt64 a → sat64 a ≡ a
unfolding sat64
sat64_id a h = ground arith
