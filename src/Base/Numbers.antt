-- ===== src/Base/Numbers.antt =====
-- Numbers in text: `snprintf` with "%d" and "%llu", `atoi`, `strtoull`; C's signed integers.
pub mod Digits
use mathlib.Core.Path.{◌≡◌}
use native.Mathlib.Omega.{arith}
use Prim.Native.Nat.{ℕ, zero, suc, ◌<◌, ◌+◌, ◌-◌, ◌*◌, ◌/◌, ◌%◌, ◌^◌}
use mathlib.Core.Bool.{Bool, false, ◌&&◌}
use mathlib.Core.List.{[], ◌∷◌, ◌++◌}
use gnu_halevt.Base.Tests.{◌==◌, ltb, leb, if◌then◌else◌}
use gnu_halevt.Base.Text.{Bytes, is_space}

-- `negsuc n` is -(n + 1).
pub data ℤ : Type 0 where
  pos : ℕ → ℤ
  negsuc : ℕ → ℤ

unfoldable pub int_eq : ℤ → ℤ → Bool
int_eq (pos a) (pos b) = a == b
int_eq (negsuc a) (negsuc b) = a == b
int_eq _ _ = false

-- The decimal digits of `n`, by rounds of division by ten.
decimal_fuel : ℕ → ℕ → Bytes
decimal_fuel zero n = []
decimal_fuel (suc f) n =
    let rest = decimal_fuel f (n / 10) in
    if ltb n 10 then (48 + n) ∷ [] else rest ++ (48 + n % 10) ∷ []

-- `n / 10 < n` while a round is left, so `n + 1` rounds are enough.
unfoldable pub decimal : ℕ → Bytes
unfolding decimal_fuel
decimal n = decimal_fuel (suc n) n

-- "%d" of a signed integer
unfoldable pub print_int : ℤ → Bytes
unfolding decimal
print_int (pos n) = decimal n
print_int (negsuc n) = b'-' ∷ decimal (n + 1)

is_digit : ℕ → Bool
is_digit c = leb 48 c && leb c 57

-- The value of the digits at the head of the text, after `acc`.
unfoldable pub read_digits : ℕ → Bytes → ℕ
unfolding is_digit
read_digits acc [] = acc
read_digits acc (c ∷ cs) =
    let rest = read_digits (acc * 10 + (c - 48)) cs in if is_digit c then rest else acc

unfoldable pub skip_spaces : Bytes → Bytes
unfolding is_space
skip_spaces [] = []
skip_spaces (c ∷ cs) = let rest = skip_spaces cs in if is_space c then rest else c ∷ cs

unfoldable pub negate : ℕ → ℤ
negate zero = pos 0
negate (suc n) = negsuc n

signed : Bytes → ℤ
signed [] = pos 0
signed (c ∷ cs) =
    if c == b'-'
    then negate (read_digits 0 cs)
    else if c == b'+'
    then pos (read_digits 0 cs)
    else pos (read_digits 0 (c ∷ cs))

-- The number that `atoi` reads, before it is cut to an int.
unfoldable pub atoi : Bytes → ℤ
unfolding signed read_digits skip_spaces negate
atoi s = signed (skip_spaces s)

-- Conversion of an `int` to `unsigned long long`.
unfoldable pub to_ull : ℤ → ℕ
to_ull (pos n) = n % 2 ^ 64
to_ull (negsuc n) = 2 ^ 64 - 1 - n % 2 ^ 64

clamp_ull : ℕ → ℕ
clamp_ull n = if ltb n (2 ^ 64) then n else 2 ^ 64 - 1

-- `-` negates in the unsigned type, but a magnitude out of range saturates whatever its sign.
negate_ull : ℕ → ℕ
negate_ull n = if ltb n (2 ^ 64) then (2 ^ 64 - n) % 2 ^ 64 else 2 ^ 64 - 1

ull : Bytes → ℕ
ull [] = 0
ull (c ∷ cs) =
    if c == b'-'
    then negate_ull (read_digits 0 cs)
    else if c == b'+'
    then clamp_ull (read_digits 0 cs)
    else clamp_ull (read_digits 0 (c ∷ cs))

-- `strtoull (s, NULL, 10)`
unfoldable pub strtoull : Bytes → ℕ
unfolding ull clamp_ull negate_ull read_digits skip_spaces
strtoull s = ull (skip_spaces s)

-- A 64-bit long, which `strtol` does not leave.
unfoldable as_long : ℤ → ℤ
as_long (pos n) = if ltb n (2 ^ 63) then pos n else pos (2 ^ 63 - 1)
as_long (negsuc n) = if ltb n (2 ^ 63) then negsuc n else negsuc (2 ^ 63 - 1)

-- The low 32 bits, as a signed number.
unfoldable to_int : ℤ → ℤ
to_int (pos n) =
    let low = n % 2 ^ 32 in if ltb low (2 ^ 31) then pos low else negsuc (2 ^ 32 - low - 1)
to_int (negsuc n) =
    let low = n % 2 ^ 32 in if ltb low (2 ^ 31) then negsuc low else pos (2 ^ 32 - low - 1)

-- `atoi` in glibc: `strtol`, cut to an int.
unfoldable pub atoi_int : Bytes → ℤ
unfolding atoi as_long to_int
atoi_int s = to_int (as_long (atoi s))

-- The range of C's `int`.
abbrev pub IsInt : ℤ → Type 0
IsInt (pos n) = n < 2 ^ 31
IsInt (negsuc n) = n < 2 ^ 31

pub atoi_int_in : (s : Bytes) (i : ℤ) → atoi s ≡ i → IsInt i → atoi_int s ≡ i
unfolding atoi_int as_long to_int
atoi_int_in s (pos n) e h = rw e (ground arith)
atoi_int_in s (negsuc n) e h = rw e (ground arith)
