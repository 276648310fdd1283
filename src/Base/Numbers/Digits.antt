-- ===== src/Base/Numbers/Digits.antt =====
-- The printed form of a natural number: its length, and reading it back.
use Prim.Native.Nat.{ℕ, zero, suc, ◌+◌, ◌*◌, ◌/◌, ◌%◌, ◌^◌, ◌<◌, ◌≤◌}
use mathlib.Core.Path.{◌≡◌, refl, sym, ap, ◌∙◌}
use mathlib.Core.Logic.{inl, inr}
use mathlib.Core.Bool.{true}
use mathlib.Core.List.{[], ◌∷◌, ◌++◌}
use mathlib.Core.List.{append_assoc, append-nil}
use native.Mathlib.Omega.{arith}
use gnu_halevt.Base.Tests.{ltb, Bool-cases, ltb→lt, lt→ltb}
use gnu_halevt.Base.Lists.{length, length-append}
use gnu_halevt.Base.Text.{Bytes, is_space}
use gnu_halevt.Base.Numbers.{
  ℤ, pos, negsuc, decimal_fuel, decimal, read_digits, is_digit, atoi, signed, skip_spaces, negate,
  print_int, ull, clamp_ull, strtoull,
}

-- 10 to the power of `k`
abbrev pub power_of_ten : ℕ → ℕ
power_of_ten zero = 1
power_of_ten (suc k) = 10 * power_of_ten k

length-decimal_fuel :
    (fuel k n : ℕ) → n < power_of_ten (suc k) → length (decimal_fuel fuel n) ≤ suc k
unfolding decimal_fuel
length-decimal_fuel zero k n h = omega arith
length-decimal_fuel (suc fuel) zero n h = ground arith
length-decimal_fuel (suc fuel) (suc k) n h = elim (Bool-cases (ltb n 10)) [
  | inl small ↦ rw small (omega arith)
  | inr large ↦ rw large (
      omega (
        arith,
        length-decimal_fuel fuel k (n / 10) (omega arith),
        length-append (decimal_fuel fuel (n / 10)) ((48 + n % 10) ∷ []),
      ))
]

pub length-decimal : (k n : ℕ) → n < power_of_ten (suc k) → length (decimal n) ≤ suc k
unfolding decimal
length-decimal k n h = length-decimal_fuel (suc n) k n h

digit-is_digit : (d : ℕ) → d < 10 → is_digit (48 + d) ≡ true
unfolding is_digit
digit-is_digit d h = ground arith

read_digits-digit :
    (acc d : ℕ) (rest : Bytes)
    → d < 10
    → read_digits acc ((48 + d) ∷ rest) ≡ read_digits (acc * 10 + d) rest
unfolding read_digits
read_digits-digit acc d rest h =
    rw (digit-is_digit d h) (ap (λ a. read_digits a rest) (omega arith))

-- The decimal digits are read back, with any digits that were read before them.
read_digits-decimal_fuel :
    (fuel n : ℕ) (rest : Bytes)
    → n < fuel
    → read_digits 0 (decimal_fuel fuel n ++ rest) ≡ read_digits n rest
unfolding decimal_fuel
read_digits-decimal_fuel zero n rest h = absurd (omega arith)
read_digits-decimal_fuel (suc fuel) n rest h = elim (Bool-cases (ltb n 10)) [
  | inl small ↦ rw small (read_digits-digit 0 n rest (ltb→lt n 10 small) ∙ zero_acc)
  | inr large ↦ rw large (
      ap (read_digits 0) (append_assoc (decimal_fuel fuel (n / 10)) ((48 + n % 10) ∷ []) rest)
      ∙ read_digits-decimal_fuel fuel (n / 10) ((48 + n % 10) ∷ rest) (ground arith)
      ∙ read_digits-digit (n / 10) (n % 10) rest (omega arith)
      ∙ ap (λ a. read_digits a rest) (omega arith))
]
  where
    zero_acc : read_digits (0 * 10 + n) rest ≡ read_digits n rest
    zero_acc = ap (λ a. read_digits a rest) (omega arith)

-- The text begins with a digit.
abbrev BeginsWithDigit : Bytes → Type 0
BeginsWithDigit [] = ⊥
BeginsWithDigit (c ∷ cs) = (48 ≤ c) × (c < 58)

BeginsWithDigit-append : (s t : Bytes) → BeginsWithDigit s → BeginsWithDigit (s ++ t)
BeginsWithDigit-append [] t h = absurd h
BeginsWithDigit-append (c ∷ s) t h = h

BeginsWithDigit-decimal_fuel : (fuel n : ℕ) → n < fuel → BeginsWithDigit (decimal_fuel fuel n)
unfolding decimal_fuel
BeginsWithDigit-decimal_fuel zero n h = absurd (omega arith)
BeginsWithDigit-decimal_fuel (suc fuel) n h = elim (Bool-cases (ltb n 10)) [
  | inl small ↦ rw small (ground arith)
  | inr large ↦ rw large (
      BeginsWithDigit-append (decimal_fuel fuel (n / 10)) _
        (BeginsWithDigit-decimal_fuel fuel (n / 10) (ground arith)))
]

skip_spaces-digit : (c : ℕ) (cs : Bytes) → 48 ≤ c → c < 58 → skip_spaces (c ∷ cs) ≡ c ∷ cs
unfolding skip_spaces is_space
skip_spaces-digit c cs h k = ground arith

signed-digit :
    (c : ℕ) (cs : Bytes) → 48 ≤ c → c < 58 → signed (c ∷ cs) ≡ pos (read_digits 0 (c ∷ cs))
unfolding signed
signed-digit c cs h k = ground arith

atoi_digits : (s : Bytes) → BeginsWithDigit s → atoi s ≡ pos (read_digits 0 s)
atoi_digits [] h = absurd h
atoi_digits (c ∷ cs) h =
    unfold atoi in ap signed (skip_spaces-digit c cs h.0 h.1) ∙ signed-digit c cs h.0 h.1

read_digits-decimal : (n : ℕ) → read_digits 0 (decimal n) ≡ n
unfolding decimal
read_digits-decimal n =
    ap (read_digits 0) (sym (append-nil (decimal_fuel (suc n) n)))
    ∙ read_digits-decimal_fuel (suc n) n [] (omega arith)
    ∙ unfold read_digits in refl

decimal-BeginsWithDigit : (n : ℕ) → BeginsWithDigit (decimal n)
unfolding decimal
decimal-BeginsWithDigit n = BeginsWithDigit-decimal_fuel (suc n) n (omega arith)

-- `atoi` reads back what "%d" has printed.
pub atoi-decimal : (n : ℕ) → atoi (decimal n) ≡ pos n
atoi-decimal n =
    atoi_digits (decimal n) (decimal-BeginsWithDigit n) ∙ ap pos (read_digits-decimal n)

minus_sign : (cs : Bytes) (n : ℕ) → read_digits 0 cs ≡ n + 1 → atoi (b'-' ∷ cs) ≡ negsuc n
unfolding atoi skip_spaces is_space signed negate
minus_sign cs n h = let e : n + 1 ≡ suc n = omega arith in ap negate (h ∙ e)

pub atoi-print_int : (i : ℤ) → atoi (print_int i) ≡ i
unfolding print_int
atoi-print_int (pos n) = atoi-decimal n
atoi-print_int (negsuc n) = minus_sign (decimal (n + 1)) n (read_digits-decimal (n + 1))

ull-digit :
    (c : ℕ) (cs : Bytes) → 48 ≤ c → c < 58 → ull (c ∷ cs) ≡ clamp_ull (read_digits 0 (c ∷ cs))
unfolding ull
ull-digit c cs h k = ground arith

strtoull_digits : (s : Bytes) → BeginsWithDigit s → strtoull s ≡ clamp_ull (read_digits 0 s)
strtoull_digits [] h = absurd h
strtoull_digits (c ∷ cs) h =
    unfold strtoull in ap ull (skip_spaces-digit c cs h.0 h.1) ∙ ull-digit c cs h.0 h.1

-- `strtoull` reads back a number in the range of its type.
pub strtoull-decimal : (n : ℕ) → n < 2 ^ 64 → strtoull (decimal n) ≡ n
strtoull-decimal n h =
    strtoull_digits (decimal n) (decimal-BeginsWithDigit n)
    ∙ ap clamp_ull (read_digits-decimal n)
    ∙ unfold clamp_ull in rw (lt→ltb n (2 ^ 64) h) refl
