-- ===== src/Base/Text.antt =====
-- Texts as the lists of their bytes, and what the code uses of Go's packages strings, strconv and fmt.
use Prim.Native.Char.{code}
use Prim.Native.String.{String}
use Prim.Native.Nat.{ℕ, zero, suc, ◌+◌, ◌-◌, ◌*◌, ◌/◌, ◌%◌, ◌^◌}
use mathlib.Core.Path.{◌≡◌, refl}
use mathlib.Core.Logic.{◌↔◌}
use mathlib.Core.Bool.{Bool, true, false, ◌&&◌, ◌||◌}
use mathlib.Core.Option.{Option, none, some}
use mathlib.Core.List.{List, [], ◌∷◌, ◌++◌, map}
use native.Mathlib.Omega.{arith}
use lalmax.Base.Int.{ℤ, pos, negsuc}
use lalmax.Base.Lists.{length, drop}
use lalmax.Base.Tests.{ltb, leb, ◌==◌, if◌then◌else◌}

abbrev pub Text : Type 0
Text = List ℕ

-- The bytes of an ASCII literal.
abbrev pub codes : String → List ℕ
codes String.[] = []
codes (String.◌∷◌ c s) = code c ∷ codes s

unfoldable pub text_eq : List ℕ → List ℕ → Bool
text_eq [] [] = true
text_eq (a ∷ as_rest) (b ∷ bs) = a == b && text_eq as_rest bs
text_eq _ _ = false

unfoldable pub has_prefix : List ℕ → List ℕ → Bool
has_prefix [] s = true
has_prefix (p ∷ ps) [] = false
has_prefix (p ∷ ps) (c ∷ s) = p == c && has_prefix ps s

unfoldable pub contains : List ℕ → List ℕ → Bool
unfolding has_prefix
contains [] sub = has_prefix sub []
contains (c ∷ s) sub = has_prefix sub (c ∷ s) || contains s sub

unfoldable pub trim_prefix : List ℕ → List ℕ → List ℕ
unfolding has_prefix
trim_prefix s prefix = if has_prefix prefix s then drop (length prefix) s else s

unfoldable pub member : ℕ → List ℕ → Bool
member c [] = false
member c (d ∷ rest) = c == d || member c rest

-- `strings.TrimLeft`, whose second argument is a set of characters.
unfoldable pub trim_left : List ℕ → List ℕ → List ℕ
unfolding member
trim_left [] cutset = []
trim_left (c ∷ s) cutset = if member c cutset then trim_left s cutset else c ∷ s

-- `strings.Split` at a separator of one byte; `current` is the part since the last one.
unfoldable pub split_from : ℕ → List ℕ → List ℕ → List (List ℕ)
split_from sep current [] = current ∷ []
split_from sep current (c ∷ s) =
    let cut = current ∷ split_from sep [] s in
    let grown = split_from sep (current ++ (c ∷ [])) s in if c == sep then cut else grown

unfoldable pub split : List ℕ → ℕ → List (List ℕ)
unfolding split_from
split s sep = split_from sep [] s

-- `strings.Split` at "\r\n".
unfoldable pub split_lines_from : List ℕ → List ℕ → List (List ℕ)
split_lines_from current [] = current ∷ []
split_lines_from current (c ∷ []) = (current ++ (c ∷ [])) ∷ []
split_lines_from current (c ∷ d ∷ s) =
    let cut = current ∷ split_lines_from [] s in
    let grown = split_lines_from (current ++ (c ∷ [])) (d ∷ s) in
    if c == 13 && d == 10 then cut else grown

unfoldable pub split_lines : List ℕ → List (List ℕ)
unfolding split_lines_from
split_lines s = split_lines_from [] s

-- `strings.ToLower` and `strings.ToUpper` on ASCII.
unfoldable pub to_lower : List ℕ → List ℕ
to_lower = map (λ c. if leb b'A' c && leb c b'Z' then c + 32 else c)

unfoldable pub to_upper : List ℕ → List ℕ
to_upper = map (λ c. if leb b'a' c && leb c b'z' then c - 32 else c)

-- `strings.LastIndex` of one byte.
unfoldable pub last_index : ℕ → List ℕ → Option ℕ
last_index c [] = none
last_index c (d ∷ s) = elim (last_index c s) [
  | some i ↦ some (suc i)
  | none ↦ if c == d then some 0 else none
]

-- The decimal digits of a number, as `%d` and `strconv.Itoa` write it. Go's integers have at most 20
-- digits, which is the fuel.
unfoldable pub digits_loop : ℕ → ℕ → List ℕ → List ℕ
digits_loop zero n rest = rest
digits_loop (suc fuel) n rest =
    let more = digits_loop fuel (n / 10) ((b'0' + n % 10) ∷ rest) in
    if ltb n 10 then (b'0' + n) ∷ rest else more

unfoldable pub decimal : ℕ → List ℕ
unfolding digits_loop
decimal n = digits_loop 20 n []

unfoldable pub decimal_int : ℤ → List ℕ
unfolding decimal
decimal_int (pos n) = decimal n
decimal_int (negsuc n) = b'-' ∷ decimal (n + 1)

-- `%03d`.
unfoldable pub decimal3 : ℕ → List ℕ
unfolding decimal
decimal3 n =
    if ltb n 10 then b'0' ∷ b'0' ∷ decimal n else if ltb n 100 then b'0' ∷ decimal n else decimal n

unfoldable pub parse_digits : ℕ → List ℕ → Option ℕ
parse_digits n [] = some n
parse_digits n (c ∷ s) =
    let more = parse_digits (10 * n + (c - b'0')) s in
    if leb b'0' c && leb c b'9' then more else none

-- A number without a sign: at least one digit.
unfoldable pub parse_nat : List ℕ → Option ℕ
unfolding parse_digits
parse_nat [] = none
parse_nat (c ∷ s) = parse_digits 0 (c ∷ s)

abbrev below : ℕ → Option ℕ → Option ℤ
below bound (some n) = if ltb n bound then some (pos n) else none
below bound none = none

abbrev from_below : ℕ → Option ℕ → Option ℤ
from_below bound (some zero) = some (pos 0)
from_below bound (some (suc n)) = if ltb n bound then some (negsuc n) else none
from_below bound none = none

-- `strconv.ParseInt(s, 10, bits)`; `none` is its error.
unfoldable pub parse_int : ℕ → List ℕ → Option ℤ
unfolding parse_nat
parse_int bits [] = none
parse_int bits (c ∷ s) =
    if c == b'-'
    then from_below (2 ^ (bits - 1)) (parse_nat s)
    else if c == b'+'
    then below (2 ^ (bits - 1)) (parse_nat s)
    else below (2 ^ (bits - 1)) (parse_nat (c ∷ s))

pub text_eq_iff : (s t : List ℕ) → (text_eq s t ≡ true) ↔ (s ≡ t)
unfolding text_eq
text_eq_iff [] [] = ground arith
text_eq_iff [] (b ∷ t) = ground arith
text_eq_iff (a ∷ s) [] = ground arith
text_eq_iff (a ∷ s) (b ∷ t) = ground (arith, text_eq_iff s t)

pub text_eq_refl : (s : List ℕ) → text_eq s s ≡ true
text_eq_refl s = (text_eq_iff s s).1 refl
