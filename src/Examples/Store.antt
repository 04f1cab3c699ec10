-- ===== src/Examples/Store.antt =====
-- A store of hashes in memory with texts for its values, which has the behaviour that
-- internal/clock/redis_persistence.go relies on: it stands for Redis in the examples.
use Prim.Native.Char.{code}
use Prim.Native.Nat.{compare, Ordering}
use text.Mathlib.Text.{◌==◌ as str_eq}
use text.Mathlib.TextEquality.{eq_iff}
use pomodoro_backend.Base.{
  ℕ, zero, suc, ◌+◌, ◌-◌, ◌*◌, ◌/◌, ◌%◌, ◌≤◌, String, ◌≡◌, refl, ap, ◌∙◌, Bool, true, Option, none,
  some, [], ◌∷◌, ◌++◌, if◌then◌else◌, ◌==◌, ℤ, pos, negsuc, arith,
}
use pomodoro_backend.Clock.Time.{second}
use pomodoro_backend.Clock.Redis.{Fields, lookup, Redis, IsRedis}

abbrev digit : ℕ → String → String
digit n s = elim (compare (n % 2) 0) [ Ordering.eq ↦ String.◌∷◌ "0" s | _ ↦ String.◌∷◌ "1" s ]

-- The binary digits of a number, the lowest first.
abbrev pub binary : (fuel : ℕ) → ℕ → String
binary zero n = ""
binary (suc fuel) n = elim (compare n 0) [ Ordering.eq ↦ "" | _ ↦ digit n (binary fuel (n / 2)) ]

abbrev pub value : String → ℕ
value String.[] = 0
value (String.◌∷◌ c s) = code c - 48 + 2 * value s

value-digit : (n : ℕ) (s : String) → value (digit n s) ≡ n % 2 + 2 * value s
value-digit n s = ground arith

value-digits :
    (n : ℕ) (o : Ordering) (s : String)
    → compare n 0 ≡ o
    → value s ≡ n / 2
    → value (elim o [ Ordering.eq ↦ "" | _ ↦ digit n s ]) ≡ n
value-digits n Ordering.lt s o h = omega (arith, value-digit n s, h)
value-digits n Ordering.eq s o h = ground arith
value-digits n Ordering.gt s o h = omega (arith, value-digit n s, h)

pub value-binary : (fuel n : ℕ) → n ≤ fuel → value (binary fuel n) ≡ n
value-binary zero n h = ground arith
value-binary (suc fuel) n h =
    value-digits n (compare n 0) (binary fuel (n / 2)) refl
      (value-binary fuel (n / 2) (omega arith))

abbrev text_of : ℤ → String
text_of (pos n) = String.◌∷◌ "+" (binary n n)
text_of (negsuc n) = String.◌∷◌ "-" (binary n n)

abbrev int_of : String → Option ℤ
int_of String.[] = none
int_of (String.◌∷◌ c s) = if code c == 45 then some (negsuc (value s)) else some (pos (value s))

int_of-text_of : (n : ℤ) → int_of (text_of n) ≡ some n
int_of-text_of (pos n) = ap (λ k. some (pos k)) (value-binary n n (omega arith))
int_of-text_of (negsuc n) = ap (λ k. some (negsuc k)) (value-binary n n (omega arith))

abbrev put : (String → Fields) → String → Fields → (String → Fields) × Bool
put db key fs = (λ k. if str_eq k key then fs ++ db k else db k, true)

abbrev pub memory : Redis
memory = record {
  Store = String → Fields;
  hset = put;
  hgetall = λ db key. some (db key);
  format_int = text_of;
  format_bool = λ b. if b then "1" else "0";
  scan_int = int_of;
  format_time = λ t. binary (t / second) (t / second);
  parse_time = λ s. some (second * value s);
  timezone = "UTC";
}

abbrev pub empty_store : memory.Store
empty_store key = []

lookup-append : (k v : String) (m n : Fields) → lookup k m ≡ some v → lookup k (m ++ n) ≡ some v
lookup-append k v [] n h = cc
lookup-append k v ((j, w) ∷ m) n h = ground (arith, lookup-append k v m n)

found :
    (db : String → Fields) (key : String) (written loaded : Fields) (field value : String)
    → some ((put db key written).0 key) ≡ some loaded
    → lookup field written ≡ some value
    → lookup field loaded ≡ some value
found db key written loaded field value read h =
    ground (arith, eq_iff key key, lookup-append field value written (db key) h)

pub memory-IsRedis : IsRedis memory
memory-IsRedis = record {
  hgetall-hset =
      λ db key written loaded field value ok read h. found db key written loaded field value read h;
  scan_int-format_int = int_of-text_of;
  format_bool_true = refl;
  format_bool_false = refl;
  parse_time-format_time = λ t.
      ap some (
        ap (λ k. second * k) (value-binary (t / second) (t / second) (omega arith))
        ∙ (omega arith));
}
