-- ===== src/Base/Text.antt =====
-- C strings as lists of byte values, without the final NUL, and the functions of <string.h> and
-- <ctype.h> that the program calls.
use Prim.Native.Nat.{◌+◌, ◌-◌, zero, suc, ◌<◌, ◌≤◌, ℕ}
use Prim.Native.Char.{code}
use Prim.Native.String.{String}
use mathlib.Core.Path.{◌≡◌, refl, ap}
use mathlib.Core.Logic.{◌↔◌, inl, inr}
use mathlib.Core.Bool.{Bool, true, false, ◌&&◌, ◌||◌}
use mathlib.Core.List.{List, [], ◌∷◌, ◌++◌}
use mathlib.Core.Option.{Option, none, some}
use native.Mathlib.Omega.{arith}
use gnu_halevt.Base.Lists.{length, take}
use gnu_halevt.Base.Tests.{◌==◌, ltb, lt→ltb, leb, if◌then◌else◌, Bool-cases}

abbrev pub Bytes : Type 0
Bytes = List ℕ

-- The code points of a literal: its bytes, since every literal of the source is ASCII.
abbrev pub codes : String → Bytes
codes String.[] = []
codes (String.◌∷◌ c s) = code c ∷ codes s

-- `! strcmp (a, b)`
unfoldable pub str_eq : Bytes → Bytes → Bool
str_eq [] [] = true
str_eq (x ∷ xs) (y ∷ ys) = x == y && str_eq xs ys
str_eq _ _ = false

pub str_eq_iff : (a b : Bytes) → (str_eq a b ≡ true) ↔ (a ≡ b)
unfolding str_eq
str_eq_iff (x ∷ a) (y ∷ b) = ground (arith, str_eq_iff a b)
str_eq_iff _ _ = ground arith

pub str_eq_self : (a : Bytes) → str_eq a a ≡ true
str_eq_self a = (str_eq_iff a a).1 refl

-- `isspace` in the C locale
unfoldable pub is_space : ℕ → Bool
is_space c = c == 32 || (leb 9 c && leb c 13)

-- `! strncmp (s, prefix, strlen (prefix))`
unfoldable pub starts_with : Bytes → Bytes → Bool
starts_with [] s = true
starts_with (p ∷ ps) [] = false
starts_with (p ∷ ps) (c ∷ cs) = p == c && starts_with ps cs

-- `snprintf`: the text that is left in a buffer of `size` bytes.
unfoldable pub snprintf : ℕ → Bytes → Bytes
snprintf size text = take (size - 1) text

take_all {ℓ} : {A : Type ℓ} (n : ℕ) (xs : List A) → length xs ≤ n → take n xs ≡ xs
take_all zero [] h = refl
take_all zero (x ∷ xs) h = absurd (omega arith)
take_all (suc n) [] h = refl
take_all (suc n) (x ∷ xs) h = ap (◌∷◌ x) (take_all n xs (omega arith))

pub snprintf-fits : (size : ℕ) (text : Bytes) → length text < size → snprintf size text ≡ text
unfolding snprintf
snprintf-fits size text h = take_all (size - 1) text (omega arith)

-- `strcat (buffer, s)` in a buffer of `size` bytes. `none`: the text and its NUL do not fit.
unfoldable pub strcat : ℕ → Bytes → Bytes → Option Bytes
strcat size buffer s = if ltb (length buffer + length s) size then some (buffer ++ s) else none

pub strcat_lem :
    (size : ℕ) (buffer s : Bytes)
    → length buffer + length s < size
    → strcat size buffer s ≡ some (buffer ++ s)
unfolding strcat
strcat_lem size buffer s h = rw (lt→ltb _ _ h)

-- A text at least as long as the prefix decides the test.
pub starts_with-append :
    (p a b : Bytes) → length p ≤ length a → starts_with p (a ++ b) ≡ starts_with p a
unfolding starts_with
starts_with-append [] a b h = refl
starts_with-append (x ∷ p) [] b h = absurd (omega arith)
starts_with-append (x ∷ p) (c ∷ a) b h = rw (starts_with-append p a b (omega arith))

pub starts_with_cut : (p s : Bytes) → starts_with p s ≡ true → (rest : Bytes) × (s ≡ p ++ rest)
unfolding starts_with
starts_with_cut [] s h = (s, refl)
starts_with_cut (x ∷ p) [] h = cc
starts_with_cut (x ∷ p) (c ∷ s) h =
    let (rest, e) = starts_with_cut p s (ground arith) in (rest, ground arith)

pub starts_with_self : (p s : Bytes) → starts_with p (p ++ s) ≡ true
unfolding starts_with
starts_with_self [] s = refl
starts_with_self (x ∷ p) s = ground (arith, starts_with_self p s)

-- One more byte before the place that was found.
unfoldable pub grow : ℕ → Option (Bytes × Bytes) → Option (Bytes × Bytes)
grow c none = none
grow c (some (before, at)) = some (c ∷ before, at)

-- `strstr (s, needle)` for a needle that is not empty: the text before the first occurrence, and
-- the text from there on.
unfoldable pub strstr : Bytes → Bytes → Option (Bytes × Bytes)
unfolding grow
strstr needle [] = none
strstr needle (c ∷ cs) =
    let later = strstr needle cs in
    if starts_with needle (c ∷ cs) then some ([], c ∷ cs) else grow c later

module _ (needle : Bytes) where
  abbrev Cuts : Bytes → Option (Bytes × Bytes) → Type 0
  Cuts s none = Unit
  Cuts s (some (before, at)) = (s ≡ before ++ at) × (starts_with needle at ≡ true)

  grow-Cuts :
      (c : ℕ) (cs : Bytes) (r : Option (Bytes × Bytes)) → Cuts cs r → Cuts (c ∷ cs) (grow c r)
  unfolding grow
  grow-Cuts c cs none h = tt
  grow-Cuts c cs (some (b, a)) h = (ap (◌∷◌ c) h.0, h.1)

  strstr-Cuts : (s : Bytes) → Cuts s (strstr needle s)
  unfolding strstr
  strstr-Cuts [] = tt
  strstr-Cuts (c ∷ cs) = elim (Bool-cases (starts_with needle (c ∷ cs))) [
    | inl here ↦ rw here (refl, here)
    | inr later ↦ rw later (grow-Cuts c cs (strstr needle cs) (strstr-Cuts cs))
  ]

  -- What `strstr` returns is a cut of the text, in front of the needle.
  pub strstr_cut :
      (s : Bytes) {before at : Bytes}
      → strstr needle s ≡ some (before, at)
      → (s ≡ before ++ at) × (starts_with needle at ≡ true)
  strstr_cut s e = rw e at (strstr-Cuts s)

-- `q` is the text from some place of `p` on.
pub data IsSuffix (q : Bytes) : Bytes → Type 0 where
  here : IsSuffix q q
  there : {c : ℕ} {p : Bytes} → IsSuffix q p → IsSuffix q (c ∷ p)

abbrev pub tail : Bytes → Bytes
tail [] = []
tail (c ∷ cs) = cs

IsSuffix-nil : (p : Bytes) → IsSuffix [] p
IsSuffix-nil [] = here
IsSuffix-nil (c ∷ p) = there (IsSuffix-nil p)

pub IsSuffix-tail_left : (q : Bytes) {p : Bytes} → IsSuffix q p → IsSuffix (tail q) p
IsSuffix-tail_left [] s = s
IsSuffix-tail_left (c ∷ q) here = there here
IsSuffix-tail_left (c ∷ q) (there s) = there (IsSuffix-tail_left (c ∷ q) s)

pub IsSuffix-tail : (q p : Bytes) → IsSuffix q p → IsSuffix (tail q) (tail p)
IsSuffix-tail q _ here = here
IsSuffix-tail q _ (there s) = IsSuffix-tail_left q s

IsSuffix-append : (b a : Bytes) → IsSuffix a (b ++ a)
IsSuffix-append [] a = here
IsSuffix-append (c ∷ b) a = there (IsSuffix-append b a)

IsSuffix-trans : {a b c : Bytes} → IsSuffix a b → IsSuffix b c → IsSuffix a c
IsSuffix-trans s here = s
IsSuffix-trans s (there t) = there (IsSuffix-trans s t)

pub length-IsSuffix : {q p : Bytes} → IsSuffix q p → length q ≤ length p
length-IsSuffix here = omega arith
length-IsSuffix (there s) = omega (arith, length-IsSuffix s)

grow-some :
    (c : ℕ) {r : Option (Bytes × Bytes)} {b a : Bytes}
    → r ≡ some (b, a)
    → grow c r ≡ some (c ∷ b, a)
unfolding grow
grow-some c e = rw e refl

-- A search that starts earlier stops no later.
pub strstr_earlier :
    (needle : Bytes) {q p : Bytes} (b₂ a₂ : Bytes)
    → IsSuffix q p
    → strstr needle q ≡ some (b₂, a₂)
    → (b₁ : Bytes) × (a₁ : Bytes) × (strstr needle p ≡ some (b₁, a₁)) × IsSuffix a₂ a₁
unfolding strstr
strstr_earlier needle b₂ a₂ here e = (b₂, a₂, e, here)
strstr_earlier needle {q} b₂ a₂ (there {c} {p} s) e =
    elim (Bool-cases (starts_with needle (c ∷ p))) [
      | inl found ↦
          let suffix : IsSuffix a₂ q = rw (strstr_cut needle q e).0 (IsSuffix-append b₂ a₂) in
          ([], c ∷ p, rw found refl, there (IsSuffix-trans suffix s))
      | inr later ↦
          let (b₁, a₁, e₁, s₁) = strstr_earlier needle b₂ a₂ s e in
          (c ∷ b₁, a₁, rw later (grow-some c e₁), s₁)
    ]

pub strstr-IsSuffix :
    (needle s : Bytes) {before at : Bytes} → strstr needle s ≡ some (before, at) → IsSuffix at s
strstr-IsSuffix needle s {before} {at} e = rw (strstr_cut needle s e).0 (IsSuffix-append before at)
