-- ===== src/Shared/Decimals.antt =====
-- `String(n)` and `Number(text)` on natural numbers, and their round trip.
use Prim.Native.Nat.{ℕ, zero, suc, ◌+◌, ◌*◌, ◌-◌, ◌/◌, ◌%◌, ◌<◌}
use Prim.Native.Char.{Char, code}
use Prim.Native.String.{String, [], ◌∷◌}
use mathlib.Core.Path.{◌≡◌, refl, ap, ◌∙◌}
use mathlib.Core.Bool.{true}
use mathlib.Core.Logic.{inl, inr}
use native.Mathlib.Omega.{arith}
use internal_package_contrac.Shared.Tests.{ltb, if◌then◌else◌, Bool-cases, ltb→lt}
use internal_package_contrac.Shared.Regex.{is_digit, AllChars, IsNonEmpty}

-- The digit of a number below ten.
digit : ℕ → Char
digit zero = "0"
digit (suc zero) = "1"
digit (suc (suc zero)) = "2"
digit (suc (suc (suc zero))) = "3"
digit (suc (suc (suc (suc zero)))) = "4"
digit (suc (suc (suc (suc (suc zero))))) = "5"
digit (suc (suc (suc (suc (suc (suc zero)))))) = "6"
digit (suc (suc (suc (suc (suc (suc (suc zero))))))) = "7"
digit (suc (suc (suc (suc (suc (suc (suc (suc zero)))))))) = "8"
digit _ = "9"

decimal_from : ℕ → ℕ → String → String
decimal_from zero n later = later
decimal_from (suc fuel) n later =
    let rest = decimal_from fuel (n / 10) (digit (n % 10) ∷ later) in
    if ltb n 10 then digit n ∷ later else rest

-- A number has fewer digits than its successor counts.
unfoldable pub decimal : ℕ → String
unfolding decimal_from digit
decimal n = decimal_from (suc n) n []

number_from : ℕ → String → ℕ
number_from acc [] = acc
number_from acc (c ∷ s) = number_from (acc * 10 + (code c - 48)) s

unfoldable pub number : String → ℕ
unfolding number_from
number s = number_from 0 s

code-digit : (d : ℕ) → d < 10 → code (digit d) ≡ 48 + d
unfolding digit
code-digit zero h = refl
code-digit (suc zero) h = refl
code-digit (suc (suc zero)) h = refl
code-digit (suc (suc (suc zero))) h = refl
code-digit (suc (suc (suc (suc zero)))) h = refl
code-digit (suc (suc (suc (suc (suc zero))))) h = refl
code-digit (suc (suc (suc (suc (suc (suc zero)))))) h = refl
code-digit (suc (suc (suc (suc (suc (suc (suc zero))))))) h = refl
code-digit (suc (suc (suc (suc (suc (suc (suc (suc zero)))))))) h = refl
code-digit (suc (suc (suc (suc (suc (suc (suc (suc (suc zero))))))))) h = refl
code-digit (suc (suc (suc (suc (suc (suc (suc (suc (suc (suc d)))))))))) h = absurd (omega arith)

digit-is_digit : (d : ℕ) → d < 10 → is_digit (digit d) ≡ true
unfolding is_digit
digit-is_digit d h = ground (arith, code-digit d h)

number_from-digit :
    (acc d : ℕ) (s : String) → d < 10 → number_from acc (digit d ∷ s) ≡ number_from (acc * 10 + d) s
unfolding number_from
number_from-digit acc d s h = rw (code-digit d h) (rw (cancel) refl)
  where
    cancel : 48 + d - 48 ≡ d
    cancel = omega arith

number-decimal_from :
    (fuel n : ℕ) (later : String)
    → n < fuel
    → number_from 0 (decimal_from fuel n later) ≡ number_from n later
unfolding decimal_from
number-decimal_from zero n later h = absurd (omega arith)
number-decimal_from (suc fuel) n later h = elim (Bool-cases (ltb n 10)) [
  | inl last ↦
      rw last (
        number_from-digit 0 n later (ltb→lt n 10 last)
        ∙ ap (λ m. number_from m later) (omega arith))
  | inr more ↦ rw more (
      rw (number-decimal_from fuel (n / 10) (digit (n % 10) ∷ later) (ground arith))
        (rw (number_from-digit (n / 10) (n % 10) later (omega arith)) (rw (whole) refl)))
]
  where
    whole : n / 10 * 10 + n % 10 ≡ n
    whole = omega arith

pub number-decimal : (n : ℕ) → number (decimal n) ≡ n
unfolding number decimal
number-decimal n = number-decimal_from (suc n) n [] (omega arith)

decimal_from-digits :
    (fuel n : ℕ) (later : String)
    → AllChars is_digit later
    → AllChars is_digit (decimal_from fuel n later)
unfolding decimal_from
decimal_from-digits zero n later h = h
decimal_from-digits (suc fuel) n later h = elim (Bool-cases (ltb n 10)) [
  | inl last ↦ rw last (digit-is_digit n (ltb→lt n 10 last), h)
  | inr more ↦ rw more (
      decimal_from-digits fuel (n / 10) (digit (n % 10) ∷ later)
        (digit-is_digit (n % 10) (omega arith), h))
]

decimal_from-IsNonEmpty :
    (fuel n : ℕ) (later : String) → n < fuel → IsNonEmpty (decimal_from fuel n later)
unfolding decimal_from
decimal_from-IsNonEmpty zero n later h = absurd (omega arith)
decimal_from-IsNonEmpty (suc fuel) n later h = elim (Bool-cases (ltb n 10)) [
  | inl last ↦ rw last tt
  | inr more ↦ rw more (decimal_from-IsNonEmpty fuel (n / 10) _ (ground arith))
]

pub decimal-digits : (n : ℕ) → AllChars is_digit (decimal n)
unfolding decimal
decimal-digits n = decimal_from-digits (suc n) n [] tt

pub decimal-IsNonEmpty : (n : ℕ) → IsNonEmpty (decimal n)
unfolding decimal
decimal-IsNonEmpty n = decimal_from-IsNonEmpty (suc n) n [] (omega arith)
