-- ===== src/Prelude/Text.antt =====
-- What the program uses of `str`: `trim`, `to_ascii_lowercase`, `contains`, hexadecimal digits.
use Prim.Native.Nat.{ℕ, ◌+◌, ◌-◌, ◌/◌, ◌%◌}
use Prim.Native.Char.{Char, code}
use Prim.Native.String.{String, ◌++◌, char_at, slice}
use mathlib.Core.Path.{◌≡◌, refl}
use mathlib.Core.Bool.{Bool, true, false, ◌&&◌, ◌||◌}
use mathlib.Core.List.{List, [], ◌∷◌}
use text.Mathlib.Text.{find?, ◌==◌}
use codaze.Prelude.Tests.{leb, nat_eq, if◌then◌else◌, is_some}

-- `char::is_whitespace`: the Unicode property White_Space.
unfoldable pub is_whitespace : ℕ → Bool
is_whitespace c =
    leb 0x9 c && leb c 0xd
    || nat_eq c 0x20
    || nat_eq c 0x85
    || nat_eq c 0xa0
    || nat_eq c 0x1680
    || leb 0x2000 c && leb c 0x200a
    || nat_eq c 0x2028
    || nat_eq c 0x2029
    || nat_eq c 0x202f
    || nat_eq c 0x205f
    || nat_eq c 0x3000

-- `trim_start`
unfoldable pub trim_start : String → String
unfolding is_whitespace
trim_start String.[] = ""
trim_start (String.◌∷◌ c s) = if is_whitespace (code c) then trim_start s else String.◌∷◌ c s

-- `trim_end`: a character is dropped if it is white and nothing is left behind it.
trim_end_step : Char → String → String
unfolding is_whitespace
trim_end_step c String.[] = if is_whitespace (code c) then "" else String.◌∷◌ c ""
trim_end_step c (String.◌∷◌ d s) = String.◌∷◌ c (String.◌∷◌ d s)

unfoldable pub trim_end : String → String
unfolding trim_end_step
trim_end String.[] = ""
trim_end (String.◌∷◌ c s) = trim_end_step c (trim_end s)

unfoldable pub trim : String → String
unfolding trim_start trim_end
trim s = trim_end (trim_start s)

abbrev pub is_empty : String → Bool
is_empty String.[] = true
is_empty (String.◌∷◌ c s) = false

-- `contains`
abbrev pub contains_text : String → String → Bool
contains_text s t = is_some (find? s t)

-- `to_ascii_lowercase`
abbrev lower_char : Char → Char
lower_char c =
    if leb b'A' (code c) && leb (code c) b'Z'
    then char_at "abcdefghijklmnopqrstuvwxyz" (code c - b'A')
    else c

unfoldable pub to_ascii_lowercase : String → String
to_ascii_lowercase String.[] = ""
to_ascii_lowercase (String.◌∷◌ c s) = String.◌∷◌ (lower_char c) (to_ascii_lowercase s)

-- `{byte:02x}`
abbrev hex_digit : ℕ → String
hex_digit n = slice "0123456789abcdef" n (n + 1)

unfoldable pub hex_byte : ℕ → String
hex_byte b = hex_digit (b / 16 % 16) ++ hex_digit (b % 16)

trim_runs : trim "\t a b \n" ≡ "a b"
unfolding trim
trim_runs = refl

lower_runs : to_ascii_lowercase "Rate Limit" ≡ "rate limit"
unfolding to_ascii_lowercase
lower_runs = refl

hex_runs : hex_byte 0x4f ≡ "4f"
unfolding hex_byte
hex_runs = refl

-- `str::ends_with`
unfoldable pub ends_with : String → String → Bool
ends_with String.[] t = "" == t
ends_with (String.◌∷◌ c s) t = String.◌∷◌ c s == t || ends_with s t

-- `str::split` at a character.
abbrev push_char : Char → List String → List String
push_char c [] = String.◌∷◌ c "" ∷ []
push_char c (part ∷ parts) = String.◌∷◌ c part ∷ parts

unfoldable pub split : ℕ → String → List String
split at String.[] = "" ∷ []
split at (String.◌∷◌ c s) =
    let rest = split at s in if nat_eq (code c) at then "" ∷ rest else push_char c rest
