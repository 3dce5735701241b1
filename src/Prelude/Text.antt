-- ===== src/Prelude/Text.antt =====
-- Texts: `{}` and `{:016x}` of numbers, joined names, and replacement.
use text.Mathlib.Text.{starts_with}
use Prim.Native.Nat.{ℕ, zero, suc, ◌-◌, ◌+◌, ◌/◌, ◌%◌}
use Prim.Native.String.{String, ◌++◌}
use mathlib.Core.List.{List, [], ◌∷◌}
use unified_api.Prelude.Tests.{if◌then◌else◌, ltb}

-- `text.chars().count()`
unfoldable pub count_chars : String → ℕ
count_chars String.[] = 0
count_chars (String.◌∷◌ c rest) = suc (count_chars rest)

abbrev symbols : List String
symbols =
    "0" ∷ "1" ∷ "2" ∷ "3" ∷ "4" ∷ "5" ∷ "6" ∷ "7" ∷ "8" ∷ "9" ∷ "a" ∷ "b" ∷ "c" ∷ "d" ∷ "e" ∷ "f"
    ∷ []

symbol_in : List String → ℕ → String
symbol_in [] d = ""
symbol_in (s ∷ ss) zero = s
symbol_in (s ∷ ss) (suc d) = symbol_in ss d

-- the last `n` digits in base 16
hex_digits : ℕ → ℕ → String
hex_digits zero x = ""
hex_digits (suc n) x = hex_digits n (x / 16) ++ symbol_in symbols (x % 16)

-- `{:016x}` of a 64-bit number, which has at most sixteen digits
unfoldable pub hex_16 : ℕ → String
unfolding hex_digits symbol_in
hex_16 x = hex_digits 16 x

decimal_digits : ℕ → ℕ → String
decimal_digits zero x = ""
decimal_digits (suc fuel) x =
    let rest = decimal_digits fuel (x / 10) in
    if ltb x 10 then symbol_in symbols x else rest ++ symbol_in symbols (x % 10)

-- `{}` of a number: a number has fewer digits than its successor says
unfoldable pub decimal : ℕ → String
unfolding decimal_digits symbol_in
decimal x = decimal_digits (x + 1) x

-- `names.join(separator)`
unfoldable pub join : String → List String → String
join separator [] = ""
join separator (name ∷ []) = name
join separator (name ∷ next ∷ names) = name ++ separator ++ join separator (next ∷ names)

-- `text.replace(pattern, to)`: what a match covers is skipped. The pattern is not empty.
replace_from : String → String → ℕ → String → String
replace_from pattern to n String.[] = ""
replace_from pattern to zero (String.◌∷◌ c rest) =
    let skipped = replace_from pattern to (count_chars pattern - 1) rest in
    let kept = replace_from pattern to zero rest in
    if starts_with (String.◌∷◌ c rest) pattern then to ++ skipped else String.◌∷◌ c kept
replace_from pattern to (suc n) (String.◌∷◌ c rest) = replace_from pattern to n rest

unfoldable pub replace_all : String → String → String → String
unfolding replace_from count_chars
replace_all pattern to text = replace_from pattern to 0 text
