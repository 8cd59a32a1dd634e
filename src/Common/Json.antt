-- ===== src/Common/Json.antt =====
-- How JSON.stringify prints texts.
use Prim.Native.Char.{Char, code}
use Prim.Native.String.{String}
use dwn_server.Common.Tests.{if◌then◌else◌, nat_beq, ltb}
use dwn_server.Common.Text.{◌<>◌, digit}
use Prim.Native.Nat.{ℕ, ◌/◌, ◌%◌}

-- A control character as \u00XX; the language prints the digits in small letters.
abbrev small_digit : ℕ → String
small_digit n =
    if nat_beq n 10
    then "a"
    else if nat_beq n 11
    then "b"
    else if nat_beq n 12
    then "c"
    else if nat_beq n 13
    then "d"
    else if nat_beq n 14
    then "e"
    else if nat_beq n 15
    then "f"
    else String.◌∷◌ (digit n) ""

abbrev escape : Char → String
escape c =
    if nat_beq (code c) 0x22
    then "\\\""
    else if nat_beq (code c) 0x5c
    then "\\\\"
    else if nat_beq (code c) 8
    then "\\b"
    else if nat_beq (code c) 9
    then "\\t"
    else if nat_beq (code c) 10
    then "\\n"
    else if nat_beq (code c) 12
    then "\\f"
    else if nat_beq (code c) 13
    then "\\r"
    else if ltb (code c) 0x20
    then "\\u00" <> small_digit (code c / 16) <> small_digit (code c % 16)
    else String.◌∷◌ c ""

unfoldable pub escape_all : String → String
unfolding digit
escape_all String.[] = ""
escape_all (String.◌∷◌ c s) = escape c <> escape_all s

-- A text between quotes.
unfoldable pub quote : String → String
unfolding escape_all
quote s = "\"" <> escape_all s <> "\""
