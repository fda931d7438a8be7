-- ===== src/Prelude/Text.antt =====
-- Texts as lists of character codes, with the operations of JavaScript strings that the code uses.
use Prim.Native.Nat.{ℕ, suc, ◌+◌, ◌-◌, ◌*◌}
use Prim.Native.Char.{code}
use Prim.Native.String.{String}
use mathlib.Core.Bool.{Bool, true, false, ◌&&◌, ◌||◌}
use mathlib.Core.Option.{Option, none, some}
use mathlib.Core.List.{List, [], ◌∷◌, ◌++◌, map}
use volatility_services.Prelude.Tests.{leb, nat_beq, if◌then◌else◌}

abbrev pub Text : Type 0
Text = List ℕ

abbrev pub codes : String → Text
codes String.[] = []
codes (String.◌∷◌ c s) = code c ∷ codes s

abbrev pub text_beq : Text → Text → Bool
text_beq [] [] = true
text_beq [] (y ∷ ys) = false
text_beq (x ∷ xs) [] = false
text_beq (x ∷ xs) (y ∷ ys) = nat_beq x y && text_beq xs ys

abbrev pub cons_head : ℕ → List Text → List Text
cons_head x [] = (x ∷ []) ∷ []
cons_head x (w ∷ ws) = (x ∷ w) ∷ ws

-- `split` at one character: never empty.
unfoldable pub split : ℕ → Text → List Text
split c [] = [] ∷ []
split c (x ∷ xs) = let rest = split c xs in if nat_beq x c then [] ∷ rest else cons_head x rest

-- `indexOf` of one character; `none` is -1.
unfoldable pub index_of : ℕ → Text → Option ℕ
index_of c [] = none
index_of c (x ∷ xs) =
    if nat_beq x c then some 0 else elim (index_of c xs) [ none ↦ none | some i ↦ some (suc i) ]

abbrev pub is_digit : ℕ → Bool
is_digit c = leb b'0' c && leb c b'9'

-- The value of a text of digits, and `none` for any other.
unfoldable pub decimal : ℕ → Text → Option ℕ
decimal acc [] = some acc
decimal acc (x ∷ xs) =
    let rest = decimal (acc * 10 + (x - b'0')) xs in if is_digit x then rest else none

-- `parseInt(text, 10)`: the value of the digits at the start, and `none` (NaN) without any. A blank
-- or a sign before them is not read.
unfoldable pub parse_int : Option ℕ → Text → Option ℕ
parse_int acc [] = acc
parse_int none (x ∷ xs) =
    let rest = parse_int (some (x - b'0')) xs in if is_digit x then rest else none
parse_int (some n) (x ∷ xs) =
    let rest = parse_int (some (n * 10 + (x - b'0'))) xs in if is_digit x then rest else some n

-- `s.startsWith(prefix)`
abbrev pub text_starts_with : Text → Text → Bool
text_starts_with [] s = true
text_starts_with (x ∷ t) [] = false
text_starts_with (x ∷ t) (y ∷ s) = nat_beq x y && text_starts_with t s

-- `s.includes(part)`
unfoldable pub text_includes : Text → Text → Bool
text_includes t [] = text_starts_with t []
text_includes t (x ∷ s) = text_starts_with t (x ∷ s) || text_includes t s

-- `words.join("-")` for one character
unfoldable pub join : ℕ → List Text → Text
join c [] = []
join c (w ∷ []) = w
join c (w ∷ v ∷ ws) = w ++ (c ∷ join c (v ∷ ws))

-- `toUpperCase` of a text of ASCII characters
abbrev pub upper : ℕ → ℕ
upper c = if leb b'a' c && leb c b'z' then c - 32 else c

abbrev pub to_upper : Text → Text
to_upper = map upper

-- `toLowerCase`, likewise
abbrev pub lower : ℕ → ℕ
lower c = if leb b'A' c && leb c b'Z' then c + 32 else c

abbrev pub to_lower : Text → Text
to_lower = map lower
