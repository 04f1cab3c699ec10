-- ===== src/Base/Decimal.antt =====
-- Numbers as texts: Go's verbs `%d` and `%02d`, and `strconv.Atoi`.
pub mod Reading
use Prim.Native.Char.{Char, code}
use Prim.Native.Nat.{ℕ, zero, suc, ◌+◌, ◌-◌, ◌*◌, ◌/◌, ◌%◌, ◌≤◌, ◌<◌}
use Prim.Native.String.{String}
use mathlib.Core.Bool.{Bool, true, false, not, ◌&&◌, ◌||◌}
use mathlib.Core.List.{List, [], ◌∷◌}
use mathlib.Core.Logic.{◌≢◌, ◌⊎◌, inl, inr}
use mathlib.Core.Option.{Option, none, some}
use mathlib.Core.Path.{◌≡◌, refl, ap, ◌∙◌}
use native.Mathlib.Omega.{arith}
use pomodoro_backend.Base.Tests.{ltb, leb, ◌==◌, if◌then◌else◌, Bool-cases}
use pomodoro_backend.Base.Int.{ℤ, pos, negsuc, sub_ℕ}
use pomodoro_backend.Base.Int64.{half_range, full_range, IsInt64}
use pomodoro_backend.Base.Text.{append, split_on, extend}

-- The digit of a number below ten.
digit_char : ℕ → Char
digit_char zero = "0"
digit_char (suc zero) = "1"
digit_char (suc (suc zero)) = "2"
digit_char (suc (suc (suc zero))) = "3"
digit_char (suc (suc (suc (suc zero)))) = "4"
digit_char (suc (suc (suc (suc (suc zero))))) = "5"
digit_char (suc (suc (suc (suc (suc (suc zero)))))) = "6"
digit_char (suc (suc (suc (suc (suc (suc (suc zero))))))) = "7"
digit_char (suc (suc (suc (suc (suc (suc (suc (suc zero)))))))) = "8"
digit_char _ = "9"

code-digit_char : (n : ℕ) → n < 10 → code (digit_char n) ≡ 48 + n
unfolding digit_char
code-digit_char zero h = refl
code-digit_char (suc zero) h = refl
code-digit_char (suc (suc zero)) h = refl
code-digit_char (suc (suc (suc zero))) h = refl
code-digit_char (suc (suc (suc (suc zero)))) h = refl
code-digit_char (suc (suc (suc (suc (suc zero))))) h = refl
code-digit_char (suc (suc (suc (suc (suc (suc zero)))))) h = refl
code-digit_char (suc (suc (suc (suc (suc (suc (suc zero))))))) h = refl
code-digit_char (suc (suc (suc (suc (suc (suc (suc (suc zero)))))))) h = refl
code-digit_char (suc (suc (suc (suc (suc (suc (suc (suc (suc zero))))))))) h = refl
code-digit_char (suc (suc (suc (suc (suc (suc (suc (suc (suc (suc n)))))))))) h =
    absurd (omega arith)

-- The digits of a number in front of a text, the last one first. The number is below the fuel.
emit : (fuel : ℕ) → ℕ → String → String
unfolding digit_char
emit zero n out = out
emit (suc fuel) n out = elim (ltb n 10) [
  | true ↦ String.◌∷◌ (digit_char (n % 10)) out
  | false ↦ emit fuel (n / 10) (String.◌∷◌ (digit_char (n % 10)) out)
]

-- `%d` of a number that is not negative.
unfoldable pub decimal : ℕ → String
unfolding emit
decimal n = emit (suc n) n ""

-- `%d`
unfoldable pub format_int : ℤ → String
unfolding decimal
format_int (pos n) = decimal n
format_int (negsuc n) = append "-" (decimal (suc n))

-- `%02d`
unfoldable pub two_digits : ℕ → String
unfolding decimal
two_digits n = if ltb n 10 then append "0" (decimal n) else decimal n

-- The loop of `ParseUint`: `none` is a syntax error, and a number out of 64 bits is cut off there,
-- whatever follows.
unfoldable pub scan_digits : ℕ → String → Option ℕ
scan_digits n String.[] = some n
scan_digits n (String.◌∷◌ c s) =
    let m = n * 10 + (code c - 48) in
    let rest = scan_digits m s in
    if ltb (code c) 48 || ltb 57 (code c)
    then none
    else if leb full_range m
    then some (full_range - 1)
    else rest

abbrev unsigned : String → Option ℕ
unsigned String.[] = none
unsigned (String.◌∷◌ c s) = scan_digits 0 (String.◌∷◌ c s)

abbrev cut_off : (neg : Bool) → Option ℕ → ℤ
cut_off neg none = pos 0
cut_off true (some u) = if leb u half_range then sub_ℕ 0 u else negsuc (half_range - 1)
cut_off false (some u) = if ltb u half_range then pos u else pos (half_range - 1)

-- The value that `strconv.Atoi` returns, with an error or not: 0 for a syntax error, and the
-- nearest integer of 64 bits for a number out of range.
unfoldable pub atoi : String → ℤ
unfolding scan_digits
atoi String.[] = pos 0
atoi (String.◌∷◌ c s) =
    if code c == 45
    then cut_off true (unsigned s)
    else if code c == 43
    then cut_off false (unsigned s)
    else cut_off false (unsigned (String.◌∷◌ c s))
