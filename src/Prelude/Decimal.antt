-- ===== src/Prelude/Decimal.antt =====
-- `fmt.Sprintf` of a natural number, plainly (`%d`) and with zeros up to three digits (`%03d`).
use Prim.Native.Nat.{ℕ, zero, suc, ◌+◌, ◌-◌, ◌*◌, ◌/◌, ◌%◌, ◌<◌}
use Prim.Native.Char.{Char, code}
use Prim.Native.String.{String, [], ◌∷◌}
use mathlib.Core.Path.{◌≡◌, refl, ap, ◌∙◌}
use mathlib.Core.Logic.{inl, inr}
use native.Mathlib.Omega.{arith}
use magi_system.Prelude.Tests.{ltb, if◌then◌else◌, Bool-cases, ltb→lt}

digit_char : ℕ → Char
digit_char zero = "0"
digit_char (suc zero) = "1"
digit_char (suc (suc zero)) = "2"
digit_char (suc (suc (suc zero))) = "3"
digit_char (suc (suc (suc (suc zero)))) = "4"
digit_char (suc (suc (suc (suc (suc zero))))) = "5"
digit_char (suc (suc (suc (suc (suc (suc zero)))))) = "6"
digit_char (suc (suc (suc (suc (suc (suc (suc zero))))))) = "7"
digit_char (suc (suc (suc (suc (suc (suc (suc (suc zero)))))))) = "8"
digit_char _ = "9"

-- The digits of `n`, in front of `tail`. One round of fuel more than `n` is enough.
digits_before : ℕ → ℕ → String → String
digits_before zero n tail = tail
digits_before (suc f) n tail =
    let longer = digits_before f (n / 10) (digit_char (n % 10) ∷ tail) in
    if ltb n 10 then digit_char (n % 10) ∷ tail else longer

unfoldable pub decimal : ℕ → String
unfolding digits_before digit_char
decimal n = digits_before (suc n) n []

unfoldable pub decimal_3 : ℕ → String
unfolding decimal
decimal_3 n =
    if ltb n 10 then "0" ∷ "0" ∷ decimal n else if ltb n 100 then "0" ∷ decimal n else decimal n

-- Reading the digits back.
pub value : ℕ → String → ℕ
value v [] = v
value v (c ∷ s) = value (v * 10 + (code c - 48)) s

digit_code : (d : ℕ) → d < 10 → code (digit_char d) - 48 ≡ d
unfolding digit_char
digit_code zero h = refl
digit_code (suc zero) h = refl
digit_code (suc (suc zero)) h = refl
digit_code (suc (suc (suc zero))) h = refl
digit_code (suc (suc (suc (suc zero)))) h = refl
digit_code (suc (suc (suc (suc (suc zero))))) h = refl
digit_code (suc (suc (suc (suc (suc (suc zero)))))) h = refl
digit_code (suc (suc (suc (suc (suc (suc (suc zero))))))) h = refl
digit_code (suc (suc (suc (suc (suc (suc (suc (suc zero)))))))) h = refl
digit_code (suc (suc (suc (suc (suc (suc (suc (suc (suc zero))))))))) h = refl
digit_code (suc (suc (suc (suc (suc (suc (suc (suc (suc (suc d)))))))))) h = absurd (omega arith)

last_digit_code : (n : ℕ) → code (digit_char (n % 10)) - 48 ≡ n % 10
last_digit_code n = digit_code (n % 10) (omega arith)

value-digits_before :
    (f n : ℕ) (tail : String) → n < f → value 0 (digits_before f n tail) ≡ value n tail
unfolding digits_before value
value-digits_before zero n tail h = absurd (omega arith)
value-digits_before (suc f) n tail h = elim (Bool-cases (ltb n 10)) [
  | inl small ↦
      rw small (ap (λ k. value k tail) (omega (arith, last_digit_code n, ltb→lt n 10 small)))
  | inr large ↦ rw large (
      value-digits_before f (n / 10) (digit_char (n % 10) ∷ tail) (ground arith)
      ∙ ap (λ k. value k tail) (omega (arith, last_digit_code n)))
]

-- The printed number reads back, so printing is injective.
pub value-decimal_3 : (n : ℕ) → value 0 (decimal_3 n) ≡ n
unfolding decimal_3 value
value-decimal_3 n = ground (arith, value-digits_before (suc n) n [])

decimal_3_samples : decimal_3 7 ≡ "007"
unfolding decimal_3
decimal_3_samples = refl
