-- ===== src/Prelude/Utf8.antt =====
-- Texts as bytes: `str::as_bytes`, and `String::from_utf8_lossy`.
use Prim.Native.Nat.{ℕ, zero, suc, ◌+◌, ◌-◌, ◌*◌, ◌/◌, ◌%◌, Ordering, lt, eq, gt, compare}
use Prim.Native.Char.{Char, char, code, IsScalar, IsLt}
use Prim.Native.String.{String}
use mathlib.Core.Path.{◌≡◌, refl}
use mathlib.Core.Bool.{Bool, ◌&&◌}
use mathlib.Core.Option.{Option, none, some}
use mathlib.Core.List.{List, [], ◌∷◌, ◌++◌}
use codaze.Prelude.Tests.{leb, ltb, nat_eq, if◌then◌else◌}

-- The two helpers of `IsScalar`, with its clauses.
abbrev BothLt : Ordering → Ordering → Type 0
BothLt lt o = IsLt o
BothLt eq o = ⊥
BothLt gt o = ⊥

abbrev LtOrBoth : Ordering → Ordering → Ordering → Type 0
LtOrBoth lt o p = Unit
LtOrBoth eq o p = BothLt o p
LtOrBoth gt o p = BothLt o p

abbrev both_lt? : (o p : Ordering) → Option (BothLt o p)
both_lt? lt lt = some tt
both_lt? lt _ = none
both_lt? _ p = none

abbrev lt_or_both? : (o p q : Ordering) → Option (LtOrBoth o p q)
lt_or_both? lt p q = some tt
lt_or_both? eq p q = both_lt? p q
lt_or_both? gt p q = both_lt? p q

-- The character of a number, and the replacement character for a number that has none.
abbrev char_of : ℕ → Char
char_of n =
    let scalar : Option (IsScalar n) =
      lt_or_both? (compare n 55296) (compare 57343 n) (compare n 1114112) in
    elim scalar [ none ↦ char 0xfffd tt | some p ↦ char n p ]

-- What a byte is waited for: nothing, or one between two bounds, and so many after it.
pub data Pending : Type 0 where
  start : Pending
  more : ℕ → ℕ → ℕ → ℕ → Pending

abbrev between : ℕ → ℕ → ℕ → Bool
between low high b = leb low b && leb b high

-- The first byte of a character: the numbers that it ends, and what is waited for.
abbrev begin_char : ℕ → List ℕ × Pending
begin_char b =
    if ltb b 0x80
    then (b ∷ [], start)
    else if between 0xc2 0xdf b
    then ([], more 0x80 0xbf 0 (b - 0xc0))
    else if nat_eq b 0xe0
    then ([], more 0xa0 0xbf 1 0)
    else if nat_eq b 0xed
    then ([], more 0x80 0x9f 1 13)
    else if between 0xe1 0xef b
    then ([], more 0x80 0xbf 1 (b - 0xe0))
    else if nat_eq b 0xf0
    then ([], more 0x90 0xbf 2 0)
    else if between 0xf1 0xf3 b
    then ([], more 0x80 0xbf 2 (b - 0xf0))
    else if nat_eq b 0xf4
    then ([], more 0x80 0x8f 2 4)
    else (0xfffd ∷ [], start)

abbrev end_char : ℕ → ℕ → List ℕ × Pending
end_char zero n = (n ∷ [], start)
end_char (suc left) n = ([], more 0x80 0xbf left n)

-- A byte that does not continue a character replaces what there is of it, and begins another.
abbrev step : Pending → ℕ → List ℕ × Pending
step start b = begin_char b
step (more low high left n) b =
    let (codes, next) = begin_char b in
    if between low high b then end_char left (n * 64 + (b - 0x80)) else (0xfffd ∷ codes, next)

abbrev text_of_codes : List ℕ → String → String
text_of_codes [] s = s
text_of_codes (n ∷ codes) s = String.◌∷◌ (char_of n) (text_of_codes codes s)

unfoldable pub decode_from : Pending → List ℕ → String
decode_from start [] = ""
decode_from (more low high left n) [] = String.◌∷◌ (char_of 0xfffd) ""
decode_from waiting (b ∷ bytes) =
    let (codes, next) = step waiting b in text_of_codes codes (decode_from next bytes)

unfoldable pub from_utf8_lossy : List ℕ → String
unfolding decode_from
from_utf8_lossy bytes = decode_from start bytes

abbrev char_bytes : ℕ → List ℕ
char_bytes n =
    if ltb n 0x80
    then n ∷ []
    else if ltb n 0x800
    then (0xc0 + n / 64) ∷ (0x80 + n % 64) ∷ []
    else if ltb n 0x10000
    then (0xe0 + n / 4096) ∷ (0x80 + n / 64 % 64) ∷ (0x80 + n % 64) ∷ []
    else (0xf0 + n / 262144) ∷ (0x80 + n / 4096 % 64) ∷ (0x80 + n / 64 % 64) ∷ (0x80 + n % 64) ∷ []

unfoldable pub as_bytes : String → List ℕ
as_bytes String.[] = []
as_bytes (String.◌∷◌ c s) = char_bytes (code c) ++ as_bytes s

lossy_test : from_utf8_lossy (as_bytes "aé€" ++ (0xff ∷ 0xe2 ∷ 0x82 ∷ as_bytes "b")) ≡ "aé€��b"
unfolding from_utf8_lossy as_bytes
lossy_test = refl
