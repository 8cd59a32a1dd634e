-- ===== src/PowManager/Challenge.antt =====
-- The challenge that is given out: the maximum as 64 hexadecimal digits.
use Prim.Native.Char.{code}
use Prim.Native.String.{String}
use dwn_server.Common.{
  ℕ, zero, suc, ◌+◌, ◌-◌, ◌^◌, ◌≤◌, ◌<◌, ◌≡◌, refl, ◌∙◌, true, some, List, [], ◌∷◌, arith, length,
  All,
}
use dwn_server.Common.Int.{pos}
use dwn_server.Common.Text.{
  codes, digit, digit_value, digits_from, to_string, to_string_ℤ, hex_from, big_int_of_hex,
}
use dwn_server.Common.Hex.{
  digit_value-digit, big_int_of_hex-to_string, All-digits_from, length-digits_from-le,
}
use dwn_server.PowManager.{is_hex_digit, all_hex, is_hex_string, pad_zeros, big_int_to_hex_string}

is_hex_digit-digit_value : (c d : ℕ) → digit_value c ≡ some d → is_hex_digit c ≡ true
unfolding digit_value
is_hex_digit-digit_value c d h = ground arith

pub is_hex_digit-digit : (d : ℕ) → d < 16 → is_hex_digit (code (digit d)) ≡ true
is_hex_digit-digit d h = is_hex_digit-digit_value (code (digit d)) d (digit_value-digit d h)

pub all_hex-All : (cs : List ℕ) → All (λ c. is_hex_digit c ≡ true) cs → all_hex cs ≡ true
all_hex-All [] h = refl
all_hex-All (c ∷ cs) h = ground (arith, all_hex-All cs h.1)

length-pad_zeros : (n : ℕ) (s : String) → length (codes (pad_zeros n s)) ≡ n + length (codes s)
unfolding pad_zeros
length-pad_zeros zero s = omega arith
length-pad_zeros (suc n) s = omega (arith, length-pad_zeros n (String.◌∷◌ "0" s))

hex_from-pad_zeros : (n : ℕ) (s : String) → hex_from 0 (pad_zeros n s) ≡ hex_from 0 s
unfolding pad_zeros
hex_from-pad_zeros zero s = refl
hex_from-pad_zeros (suc n) s = hex_from-pad_zeros n (String.◌∷◌ "0" s) ∙ hex_from-zero s
  where
    hex_from-zero : (s : String) → hex_from 0 (String.◌∷◌ "0" s) ≡ hex_from 0 s
    hex_from-zero s = unfold hex_from digit_value in refl

all_hex-pad_zeros :
    (n : ℕ) (s : String) → all_hex (codes s) ≡ true → all_hex (codes (pad_zeros n s)) ≡ true
unfolding pad_zeros
all_hex-pad_zeros zero s h = h
all_hex-pad_zeros (suc n) s h = all_hex-pad_zeros n (String.◌∷◌ "0" s) h

big_int_of_hex-hex_from : (s : String) → 0 < length (codes s) → big_int_of_hex s ≡ hex_from 0 s
unfolding big_int_of_hex
big_int_of_hex-hex_from String.[] h = absurd (omega arith)
big_int_of_hex-hex_from (String.◌∷◌ c s) h = refl

length-to_string : (n : ℕ) → n < 16 ^ 64 → length (codes (to_string 16 n)) ≤ 64
unfolding to_string
length-to_string n h = omega (arith, length-digits_from-le (suc n) 63 n "" h)

all_hex-to_string : (n : ℕ) → all_hex (codes (to_string 16 n)) ≡ true
unfolding to_string
all_hex-to_string n =
    all_hex-All (codes (digits_from (suc n) 16 n ""))
      (All-digits_from (λ c. is_hex_digit c ≡ true) is_hex_digit-digit (suc n) n "" tt)

-- A maximum below 2 ^ 256 is given out as 64 hexadecimal digits, and reading these back, as the
-- client does and as the configured maximum is read, gives the same number.
pub big_int_to_hex_string_roundtrip :
    (n : ℕ)
    → n < 16 ^ 64
    → (big_int_of_hex (big_int_to_hex_string (pos n)) ≡ some n)
      × (length (codes (big_int_to_hex_string (pos n))) ≡ 64)
      × (is_hex_string (big_int_to_hex_string (pos n)) ≡ true)
unfolding big_int_to_hex_string is_hex_string to_string_ℤ
big_int_to_hex_string_roundtrip n h =
    let hex = to_string 16 n in
    let missing = 64 - length (codes hex) in
    let size : length (codes (pad_zeros missing hex)) ≡ 64 =
      omega (arith, length-pad_zeros missing hex, length-to_string n h) in
    (
      big_int_of_hex-hex_from (pad_zeros missing hex) (omega (arith, size))
          ∙ hex_from-pad_zeros missing hex
          ∙ big_int_of_hex-to_string n,
      size,
      ground (arith, size, all_hex-pad_zeros missing hex (all_hex-to_string n)),
    )
