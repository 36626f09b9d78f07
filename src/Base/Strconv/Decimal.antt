-- ===== src/Base/Strconv/Decimal.antt =====
-- Decimal text: strconv.Atoi reads what strconv.Itoa writes.
use Prim.Native.Nat.{ℕ, zero, suc, ◌+◌, ◌/◌, ◌%◌, ◌^◌, ◌<◌, ◌≤◌}
use mathlib.Core.Path.{◌≡◌, refl, sym, ap, ◌∙◌}
use mathlib.Core.Logic.{◌≢◌, inl, inr}
use mathlib.Core.List.{[], ◌∷◌}
use mathlib.Core.Option.{some}
use native.Mathlib.Omega.{arith}
use orchy.Base.Tests.{ltb, Bool-cases}
use orchy.Base.Ints.{ℤ, pos, negsuc}
use orchy.Base.Lists.{All}
use orchy.Base.Strings.{Text}
use orchy.Base.Strconv.{digits_from, decimal, itoa, digits_value, numeral, atoi}

-- A character between 0 and 9.
abbrev pub IsDigit : ℕ → Type 0
IsDigit c = (b'0' ≤ c) × (c ≤ b'9')

-- An int64.
pub data IsInt64 : ℤ → Type 0 where
  pos_lt : {n : ℕ} → n < 2 ^ 63 → IsInt64 (pos n)
  negsuc_lt : {n : ℕ} → n < 2 ^ 63 → IsInt64 (negsuc n)

-- Reading what is written before `acc` is reading `acc` after the value.
digits_value-digits_from :
    (fuel n : ℕ) (acc : Text)
    → n < fuel
    → digits_value 0 (digits_from fuel n acc) ≡ digits_value n acc
unfolding digits_value digits_from
digits_value-digits_from zero n acc h = absurd (omega arith)
digits_value-digits_from (suc fuel) n acc h =
    ground (arith, digits_value-digits_from fuel (n / 10) ((b'0' + n % 10) ∷ acc))

-- Digits are written, and one at least.
digits_from-All :
    (fuel n : ℕ) (acc : Text)
    → n < fuel
    → All IsDigit acc
    → All IsDigit (digits_from fuel n acc) × (digits_from fuel n acc ≢ [])
unfolding digits_from
digits_from-All zero n acc h d = absurd (omega arith)
digits_from-All (suc fuel) n acc h d = elim (Bool-cases (ltb n 10)) [
  | inl small ↦ rw small (((ground arith, ground arith), d), λ e. cc)
  | inr big ↦ rw big (
      digits_from-All fuel (n / 10) ((b'0' + n % 10) ∷ acc) (ground arith)
        ((omega arith, omega arith), d))
]

-- A number's text is read back, without its sign.
numeral-digits :
    (s : Text) (n : ℕ) → All IsDigit s × (s ≢ []) → digits_value 0 s ≡ some n → numeral s ≡ some n
unfolding numeral
numeral-digits [] n h e = absurd (h.1 refl)
numeral-digits (c ∷ s) n h e = e

numeral-decimal : (n : ℕ) → numeral (decimal n) ≡ some n
unfolding decimal digits_value
numeral-decimal n =
    numeral-digits (digits_from (suc n) n []) n (digits_from-All (suc n) n [] (omega arith) tt)
      (digits_value-digits_from (suc n) n [] (omega arith))

-- A text that starts with a digit has no sign.
atoi-digits :
    (s : Text) (n : ℕ) → All IsDigit s × (s ≢ []) → numeral s ≡ some n → n < 2 ^ 63 → atoi s ≡ pos n
unfolding atoi
atoi-digits [] n h e small = absurd (h.1 refl)
atoi-digits (c ∷ s) n h e small = ground (arith, h, e)

pub decimal-IsDigit : (n : ℕ) → All IsDigit (decimal n)
unfolding decimal
decimal-IsDigit n = (digits_from-All (suc n) n [] (omega arith) tt).0

negative : (n : ℕ) → n < 2 ^ 63 → atoi (b'-' ∷ decimal (suc n)) ≡ negsuc n
unfolding atoi
negative n h = ground (arith, numeral-decimal (suc n))

-- Atoi of what Itoa wrote is the number, for every int64.
pub atoi-itoa : (z : ℤ) → IsInt64 z → atoi (itoa z) ≡ z
unfolding itoa decimal
atoi-itoa (pos n) (pos_lt h) =
    atoi-digits (digits_from (suc n) n []) n (digits_from-All (suc n) n [] (omega arith) tt)
      (numeral-decimal n) h
atoi-itoa (negsuc n) (negsuc_lt h) = negative n h

-- Two int64 with one text are one.
pub itoa-injective : (y z : ℤ) → IsInt64 y → IsInt64 z → itoa y ≡ itoa z → y ≡ z
itoa-injective y z hy hz e = sym (atoi-itoa y hy) ∙ ap atoi e ∙ atoi-itoa z hz
