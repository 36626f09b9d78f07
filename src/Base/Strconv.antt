-- ===== src/Base/Strconv.antt =====
-- What the packages take of `strconv` and `strings`: decimal text, and comparison under case folding.
pub mod Decimal
pub mod Split
use orchy.Base.Tests.{ltb, leb, if◌then◌else◌}
use orchy.Base.Ints.{ℤ, pos, negsuc}
use orchy.Base.Strings.{Text, text_beq, text_eq}
use orchy.Base.Equality.{◌==◌}
use Prim.Native.Nat.{ℕ, zero, suc, ◌+◌, ◌-◌, ◌*◌, ◌/◌, ◌%◌, ◌^◌}
use mathlib.Core.Path.{◌≡◌, refl}
use mathlib.Core.Bool.{Bool, ◌&&◌}
use mathlib.Core.List.{List, [], ◌∷◌, ◌++◌, map, reverse}
use mathlib.Core.Option.{Option, none, some}

-- The decimal digits of `n` before `acc`; a number has at most as many digits as the fuel, n + 1.
unfoldable pub digits_from : ℕ → ℕ → Text → Text
digits_from zero n acc = acc
digits_from (suc fuel) n acc =
    let rest = digits_from fuel (n / 10) ((b'0' + n % 10) ∷ acc) in
    if ltb n 10 then (b'0' + n) ∷ acc else rest

unfoldable pub decimal : ℕ → Text
unfolding digits_from
decimal n = digits_from (suc n) n []

-- strconv.Itoa, and the verb %d.
unfoldable pub itoa : ℤ → Text
unfolding decimal
itoa (pos n) = decimal n
itoa (negsuc n) = b'-' ∷ decimal (suc n)

-- Simple case folding, as far as a letter of ASCII takes part in it: the long s and the Kelvin sign
-- fold to s and k.
unfoldable pub fold_case : ℕ → ℕ
fold_case c =
    if leb b'A' c && leb c b'Z'
    then c + 32
    else if leb 0x17F c && leb c 0x17F
    then b's'
    else if leb 0x212A c && leb c 0x212A
    then b'k'
    else c

-- strings.EqualFold, where one of the texts is of ASCII letters.
unfoldable pub equal_fold : Text → Text → Bool
unfolding fold_case text_beq
equal_fold s t = map fold_case s == map fold_case t

itoa_minus : itoa (negsuc 119) ≡ b'-' ∷ b'1' ∷ b'2' ∷ b'0' ∷ []
unfolding itoa
itoa_minus = refl

-- A decimal digit's value; `none` for any other character.
abbrev digit : ℕ → Option ℕ
digit c = if leb b'0' c && leb c b'9' then some (c - b'0') else none

-- The value of a run of digits after `acc`; `none` if a character is no digit.
unfoldable pub digits_value : ℕ → Text → Option ℕ
digits_value acc [] = some acc
digits_value acc (c ∷ s) = elim (digit c) [ none ↦ none | some d ↦ digits_value (acc * 10 + d) s ]

-- An unsigned numeral has at least one digit.
unfoldable pub numeral : Text → Option ℕ
unfolding digits_value
numeral [] = none
numeral (c ∷ s) = digits_value 0 (c ∷ s)

abbrev negated : Option ℕ → ℤ
negated none = pos 0
negated (some zero) = pos 0
negated (some (suc n)) = if ltb n (2 ^ 63) then negsuc n else negsuc (2 ^ 63 - 1)

abbrev plain : Option ℕ → ℤ
plain none = pos 0
plain (some n) = if ltb n (2 ^ 63) then pos n else pos (2 ^ 63 - 1)

-- The value that strconv.Atoi returns, its error left aside: 0 for a text that is no numeral, and
-- the nearest int64 for one that is out of range.
unfoldable pub atoi : Text → ℤ
unfolding numeral
atoi [] = pos 0
atoi (c ∷ s) =
    if leb b'-' c && leb c b'-'
    then negated (numeral s)
    else if leb b'+' c && leb c b'+'
    then plain (numeral s)
    else plain (numeral (c ∷ s))

-- strings.Split(s, ":"), on the part that is read so far, in reverse order.
unfoldable pub split_from : Text → Text → List Text
split_from part [] = reverse part ∷ []
split_from part (c ∷ s) =
    let rest = split_from [] s in
    let more = split_from (c ∷ part) s in
    if leb b':' c && leb c b':' then reverse part ∷ rest else more

unfoldable pub split : Text → List Text
unfolding split_from
split s = split_from [] s

-- strings.Join(parts, ":")
unfoldable pub join : List Text → Text
join [] = []
join (p ∷ []) = p
join (p ∷ q ∷ rest) = p ++ (b':' ∷ join (q ∷ rest))
