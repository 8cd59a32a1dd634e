-- ===== src/Common/Hex.antt =====
-- Printing in base 16 and reading back; what the printed text looks like.
use Prim.Native.Nat.{ℕ, zero, suc, ◌+◌, ◌*◌, ◌/◌, ◌%◌, ◌<◌, ◌≤◌, ◌^◌}
use Prim.Native.Char.{code}
use Prim.Native.String.{String}
use mathlib.Core.Path.{◌≡◌, refl, ◌∙◌}
use mathlib.Core.Logic.{inl, inr}
use mathlib.Core.Option.{some}
use native.Mathlib.Omega.{arith}
use native.Mathlib.Nat.{pow-suc}
use dwn_server.Common.Tests.{nat_beq, Bool-cases}
use dwn_server.Common.Lists.{length, All}
use dwn_server.Common.Text.{codes, digit, digits_from, to_string, digit_value, hex_from}

pub digit_value-digit : (d : ℕ) → d < 16 → digit_value (code (digit d)) ≡ some d
unfolding digit_value digit
digit_value-digit zero h = refl
digit_value-digit (suc zero) h = refl
digit_value-digit (suc (suc zero)) h = refl
digit_value-digit (suc (suc (suc zero))) h = refl
digit_value-digit (suc (suc (suc (suc zero)))) h = refl
digit_value-digit (suc (suc (suc (suc (suc zero))))) h = refl
digit_value-digit (suc (suc (suc (suc (suc (suc zero)))))) h = refl
digit_value-digit (suc (suc (suc (suc (suc (suc (suc zero))))))) h = refl
digit_value-digit (suc (suc (suc (suc (suc (suc (suc (suc zero)))))))) h = refl
digit_value-digit (suc (suc (suc (suc (suc (suc (suc (suc (suc zero))))))))) h = refl
digit_value-digit (suc (suc (suc (suc (suc (suc (suc (suc (suc (suc zero)))))))))) h = refl
digit_value-digit (suc (suc (suc (suc (suc (suc (suc (suc (suc (suc (suc zero))))))))))) h = refl
digit_value-digit (suc (suc (suc (suc (suc (suc (suc (suc (suc (suc (suc (suc zero)))))))))))) h =
    refl
digit_value-digit (suc (suc (suc (suc (suc (suc (suc (suc (suc (suc (suc (suc (suc zero)))))))))))))
      h =
    refl
digit_value-digit
      (suc (suc (suc (suc (suc (suc (suc (suc (suc (suc (suc (suc (suc (suc zero)))))))))))))) h =
    refl
digit_value-digit
      (suc (suc (suc (suc (suc (suc (suc (suc (suc (suc (suc (suc (suc (suc (suc zero)))))))))))))))
      h =
    refl
digit_value-digit
      (suc
        (suc (suc (suc (suc (suc (suc (suc (suc (suc (suc (suc (suc (suc (suc (suc d))))))))))))))))
      h =
    absurd (omega arith)

-- Reading the digits of `n` in front of `rest` goes on with `n` at `rest`.
pub hex_from-digits_from :
    (fuel n : ℕ) (rest : String)
    → n < fuel
    → hex_from 0 (digits_from fuel 16 n rest) ≡ hex_from n rest
unfolding digits_from hex_from
hex_from-digits_from zero n rest h = absurd (omega arith)
hex_from-digits_from (suc fuel) n rest h = elim (Bool-cases (nat_beq (n / 16) 0)) [
  | inl last ↦
      let small : n < 16 = ground arith in
      let whole : 0 * 16 + n % 16 ≡ n = omega arith in
      rw (last, digit_value-digit (n % 16) (omega arith), hex_from) (rw whole)
  | inr more ↦
      let fewer : n / 16 < fuel = ground arith in
      let whole : n / 16 * 16 + n % 16 ≡ n = omega arith in
      rw more (
        hex_from-digits_from fuel (n / 16) (String.◌∷◌ (digit (n % 16)) rest) fewer
        ∙ rw (digit_value-digit (n % 16) (omega arith), hex_from) (rw whole))
]

-- What is printed in base 16 is read back as the same number.
pub big_int_of_hex-to_string : (n : ℕ) → hex_from 0 (to_string 16 n) ≡ some n
unfolding to_string hex_from
big_int_of_hex-to_string n = hex_from-digits_from (suc n) n "" (omega arith)

module _ (P : ℕ → Type 0) (P-digit : (d : ℕ) → d < 16 → P (code (digit d))) where
  pub All-digits_from :
      (fuel n : ℕ) (rest : String) → All P (codes rest) → All P (codes (digits_from fuel 16 n rest))
  unfolding digits_from
  All-digits_from zero n rest h = h
  All-digits_from (suc fuel) n rest h = elim (Bool-cases (nat_beq (n / 16) 0)) [
    | inl last ↦ rw last (P-digit (n % 16) (omega arith), h)
    | inr more ↦ rw more (
        All-digits_from fuel (n / 16) (String.◌∷◌ (digit (n % 16)) rest)
          (P-digit (n % 16) (omega arith), h))
  ]

-- A number below 16 ^ k prints with at most k digits.
pub length-digits_from-le :
    (fuel k n : ℕ) (rest : String)
    → n < 16 ^ suc k
    → length (codes (digits_from fuel 16 n rest)) ≤ suc k + length (codes rest)
unfolding digits_from
length-digits_from-le zero k n rest h = omega arith
length-digits_from-le (suc fuel) zero n rest h = ground arith
length-digits_from-le (suc fuel) (suc k) n rest h =
    let fits : n / 16 < 16 ^ suc k = omega (arith, pow-suc 16 (suc k)) in
    ground (arith, length-digits_from-le fuel k (n / 16) (String.◌∷◌ (digit (n % 16)) rest) fits)

pub length-digits_from-pos :
    (fuel n : ℕ) (rest : String) → length (codes rest) ≤ length (codes (digits_from fuel 16 n rest))
unfolding digits_from
length-digits_from-pos zero n rest = omega arith
length-digits_from-pos (suc fuel) n rest =
    ground (arith, length-digits_from-pos fuel (n / 16) (String.◌∷◌ (digit (n % 16)) rest))
