-- ===== src/Base/Decimal/Reading.antt =====
-- Numbers are read back from their texts.
use Prim.Native.Char.{code}
use Prim.Native.Nat.{ℕ, zero, suc, ◌+◌, ◌*◌, ◌/◌, ◌%◌, ◌≤◌, ◌<◌}
use Prim.Native.String.{String}
use mathlib.Core.Bool.{true, false}
use mathlib.Core.List.{[], ◌∷◌}
use mathlib.Core.Logic.{◌≢◌, inl, inr}
use mathlib.Core.Option.{some}
use mathlib.Core.Path.{◌≡◌, refl, ap, ◌∙◌}
use native.Mathlib.Omega.{arith}
use pomodoro_backend.Base.Tests.{ltb, Bool-cases}
use pomodoro_backend.Base.Int.{ℤ, pos, negsuc}
use pomodoro_backend.Base.Int64.{full_range, IsInt64}
use pomodoro_backend.Base.Text.{append, split_on}
use pomodoro_backend.Base.Decimal.{
  digit_char, code-digit_char, emit, decimal, format_int, two_digits, scan_digits, cut_off, atoi,
}

-- The texts of numbers hold digits alone.
abbrev pub IsDigits : String → Type 0
IsDigits String.[] = Unit
IsDigits (String.◌∷◌ c s) = (48 ≤ code c) × (code c ≤ 57) × IsDigits s

emit-IsDigits : (fuel n : ℕ) (out : String) → IsDigits out → IsDigits (emit fuel n out)
unfolding emit
emit-IsDigits zero n out h = h
emit-IsDigits (suc fuel) n out h =
    let d = code-digit_char (n % 10) (omega arith) in
    let more : IsDigits (String.◌∷◌ (digit_char (n % 10)) out) =
      (omega (arith, d), omega (arith, d), h) in
    elim (Bool-cases (ltb n 10)) [
      | inl e ↦ rw (e, emit) more
      | inr e ↦ rw (e, emit) (emit-IsDigits fuel (n / 10) _ more)
    ]

pub decimal-IsDigits : (n : ℕ) → IsDigits (decimal n)
unfolding decimal
decimal-IsDigits n = emit-IsDigits (suc n) n "" tt

-- One digit read behind a number.
scan_digit :
    (m k : ℕ) (out : String)
    → k < 10
    → m * 10 + k < full_range
    → scan_digits m (String.◌∷◌ (digit_char k) out) ≡ scan_digits (m * 10 + k) out
unfolding scan_digits
scan_digit m k out h fits = ground (arith, code-digit_char k h)

scan-emit :
    (fuel n : ℕ) (out : String)
    → n < fuel
    → n < full_range
    → scan_digits 0 (emit fuel n out) ≡ scan_digits n out
unfolding emit
scan-emit zero n out lt fits = absurd (omega arith)
scan-emit (suc fuel) n out lt fits = elim (Bool-cases (ltb n 10)) [
  | inl e ↦
      let last = scan_digit 0 (n % 10) out (omega arith) (omega arith) in
      let same : 0 * 10 + n % 10 ≡ n = ground arith in
      rw (e, emit) (last ∙ ap (λ m. scan_digits m out) same)
  | inr e ↦
      let more =
        scan-emit fuel (n / 10) (String.◌∷◌ (digit_char (n % 10)) out) (ground arith)
          (omega arith) in
      let same : n / 10 * 10 + n % 10 ≡ n = omega arith in
      rw (e, emit)
        (more
          ∙ scan_digit (n / 10) (n % 10) out (omega arith) (omega arith)
          ∙ ap (λ m. scan_digits m out) same)
]

pub scan_digits-decimal : (n : ℕ) → n < full_range → scan_digits 0 (decimal n) ≡ some n
unfolding decimal scan_digits
scan_digits-decimal n fits = scan-emit (suc n) n "" (omega arith) fits

emit-ne-nil : (fuel n : ℕ) (out : String) → out ≢ "" → emit fuel n out ≢ ""
unfolding emit
emit-ne-nil zero n out h = h
emit-ne-nil (suc fuel) n out h = elim (Bool-cases (ltb n 10)) [
  | inl e ↦ rw (e, emit) (λ p. cc p)
  | inr e ↦ rw (e, emit) (emit-ne-nil fuel (n / 10) _ (λ p. cc p))
]

pub decimal-ne-nil : (n : ℕ) → decimal n ≢ ""
unfolding decimal emit
decimal-ne-nil n = elim (Bool-cases (ltb n 10)) [
  | inl e ↦ rw (e, emit) (λ p. cc p)
  | inr e ↦ rw (e, emit) (emit-ne-nil n (n / 10) _ (λ p. cc p))
]

atoi_digits : (s : String) → IsDigits s → s ≢ "" → atoi s ≡ cut_off false (scan_digits 0 s)
unfolding atoi
atoi_digits String.[] h full = absurd (full refl)
atoi_digits (String.◌∷◌ c s) h full = ground arith

atoi_minus : (s : String) → s ≢ "" → atoi (append "-" s) ≡ cut_off true (scan_digits 0 s)
unfolding atoi append
atoi_minus String.[] full = absurd (full refl)
atoi_minus (String.◌∷◌ c s) full = refl

-- `Atoi` reads what `%d` writes of a number of 64 bits.
pub atoi-format_int : (n : ℤ) → IsInt64 n → atoi (format_int n) ≡ n
unfolding format_int
atoi-format_int (pos n) fits =
    atoi_digits (decimal n) (decimal-IsDigits n) (decimal-ne-nil n)
    ∙ ap (cut_off false) (scan_digits-decimal n (omega arith))
    ∙ ground arith
atoi-format_int (negsuc n) fits =
    atoi_minus (decimal (suc n)) (decimal-ne-nil (suc n))
    ∙ ap (cut_off true) (scan_digits-decimal (suc n) (omega arith))
    ∙ ground arith

pub two_digits-IsDigits : (n : ℕ) → IsDigits (two_digits n)
unfolding two_digits append
two_digits-IsDigits n = elim (Bool-cases (ltb n 10)) [
  | inl e ↦ rw e (omega arith, omega arith, decimal-IsDigits n)
  | inr e ↦ rw e (decimal-IsDigits n)
]

pub scan_digits-two_digits : (n : ℕ) → n < full_range → scan_digits 0 (two_digits n) ≡ some n
unfolding two_digits append scan_digits
scan_digits-two_digits n fits = elim (Bool-cases (ltb n 10)) [
  | inl e ↦ rw e (scan_digits-decimal n fits)
  | inr e ↦ rw e (scan_digits-decimal n fits)
]

-- A text of digits is not parted at another character.
pub split_on_digits : (k : ℕ) (s : String) → IsDigits s → 57 < k → split_on k s ≡ s ∷ []
unfolding split_on
split_on_digits k String.[] h lt = refl
split_on_digits k (String.◌∷◌ c s) h lt = ground (arith, split_on_digits k s h.2 lt)

pub split_on-append :
    (k : ℕ) (s t rest : String)
    → IsDigits s
    → 57 < k
    → split_on k t ≡ "" ∷ rest ∷ []
    → split_on k (append s t) ≡ s ∷ rest ∷ []
unfolding split_on append
split_on-append k String.[] t rest h lt e = e
split_on-append k (String.◌∷◌ c s) t rest h lt e =
    ground (arith, split_on-append k s t rest h.2 lt e)
