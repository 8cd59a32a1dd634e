-- ===== src/Common/Text.antt =====
-- Text as its code points, and how numbers print in it and are read from it.
use Prim.Native.Nat.{ℕ, zero, suc, ◌+◌, ◌-◌, ◌*◌, ◌/◌, ◌%◌}
use Prim.Native.Char.{Char, code}
use Prim.Native.String
use Prim.Native.String.{String}
use mathlib.Core.Bool.{◌&&◌}
use mathlib.Core.List.{List, [], ◌∷◌}
use mathlib.Core.Option.{Option, none, some}
use dwn_server.Common.Tests.{if◌then◌else◌, nat_beq, leb}
use dwn_server.Common.Int.{ℤ, pos, negsuc}

-- `+` on texts
infixl 65 ◌<>◌
abbrev pub ◌<>◌ : String → String → String
◌<>◌ = String.◌++◌

-- `items.join('')`
abbrev pub concat : List String → String
concat [] = ""
concat (s ∷ ss) = s <> concat ss

-- The code points of a text: its code units too, unless one lies above U+FFFF.
abbrev pub codes : String → List ℕ
codes String.[] = []
codes (String.◌∷◌ c s) = code c ∷ codes s

-- One digit in base 16, in capitals.
unfoldable pub digit : ℕ → Char
digit zero = "0"
digit (suc zero) = "1"
digit (suc (suc zero)) = "2"
digit (suc (suc (suc zero))) = "3"
digit (suc (suc (suc (suc zero)))) = "4"
digit (suc (suc (suc (suc (suc zero))))) = "5"
digit (suc (suc (suc (suc (suc (suc zero)))))) = "6"
digit (suc (suc (suc (suc (suc (suc (suc zero))))))) = "7"
digit (suc (suc (suc (suc (suc (suc (suc (suc zero)))))))) = "8"
digit (suc (suc (suc (suc (suc (suc (suc (suc (suc zero))))))))) = "9"
digit (suc (suc (suc (suc (suc (suc (suc (suc (suc (suc zero)))))))))) = "A"
digit (suc (suc (suc (suc (suc (suc (suc (suc (suc (suc (suc zero))))))))))) = "B"
digit (suc (suc (suc (suc (suc (suc (suc (suc (suc (suc (suc (suc zero)))))))))))) = "C"
digit (suc (suc (suc (suc (suc (suc (suc (suc (suc (suc (suc (suc (suc zero))))))))))))) = "D"
digit (suc (suc (suc (suc (suc (suc (suc (suc (suc (suc (suc (suc (suc (suc zero)))))))))))))) = "E"
digit _ = "F"

-- The digits of `n` in the given base, in front of `rest`; the fuel bounds the number of digits.
unfoldable pub digits_from : ℕ → ℕ → ℕ → String → String
digits_from zero base n rest = rest
digits_from (suc fuel) base n rest =
    let longer = String.◌∷◌ (digit (n % base)) rest in
    let more = digits_from fuel base (n / base) longer in
    if nat_beq (n / base) 0 then longer else more

-- `n.toString(base)` for a natural number, in capitals; `n + 1` digits are always enough.
unfoldable pub to_string : ℕ → ℕ → String
unfolding digits_from digit
to_string base n = digits_from (suc n) base n ""

-- The same for an integer.
unfoldable pub to_string_ℤ : ℕ → ℤ → String
unfolding to_string
to_string_ℤ base (pos n) = to_string base n
to_string_ℤ base (negsuc n) = "-" <> to_string base (suc n)

-- The value of a hexadecimal digit, of either case.
unfoldable pub digit_value : ℕ → Option ℕ
digit_value c =
    if leb b'0' c && leb c b'9'
    then some (c - b'0')
    else if leb b'a' c && leb c b'f'
    then some (c - b'a' + 10)
    else if leb b'A' c && leb c b'F'
    then some (c - b'A' + 10)
    else none

unfoldable pub hex_from : ℕ → String → Option ℕ
hex_from n String.[] = some n
hex_from n (String.◌∷◌ c s) = elim (digit_value (code c)) [
  | none ↦ none
  | some d ↦ hex_from (n * 16 + d) s
]

-- BigInt(`0x${s}`); `none` is the SyntaxError of a text that has no digit or another character.
unfoldable pub big_int_of_hex : String → Option ℕ
unfolding hex_from digit_value
big_int_of_hex String.[] = none
big_int_of_hex (String.◌∷◌ c s) = hex_from 0 (String.◌∷◌ c s)
