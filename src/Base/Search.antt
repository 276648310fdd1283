-- ===== src/Base/Search.antt =====
-- `strstr` for a single byte.
use Prim.Native.Nat.{ℕ}
use mathlib.Core.Path.{◌≡◌, refl}
use mathlib.Core.Bool.{true, false}
use mathlib.Core.List.{[], ◌∷◌, ◌++◌}
use mathlib.Core.Option.{none, some}
use native.Mathlib.Omega.{arith}
use gnu_halevt.Base.Lists.{All}
use gnu_halevt.Base.Tests.{◌==◌, ==_self}
use gnu_halevt.Base.Text.{Bytes, starts_with, strstr}

-- The byte does not occur in the text.
abbrev pub IsFree : ℕ → Bytes → Type 0
IsFree x s = All (λ c. (c == x) ≡ false) s

starts_with-other : (x c : ℕ) (s : Bytes) → (c == x) ≡ false → starts_with (x ∷ []) (c ∷ s) ≡ false
unfolding starts_with
starts_with-other x c s h = ground arith

starts_with-same : (x : ℕ) (s : Bytes) → starts_with (x ∷ []) (x ∷ s) ≡ true
unfolding starts_with
starts_with-same x s = rw (==_self x) refl

pub strstr_free : (x : ℕ) (s : Bytes) → IsFree x s → strstr (x ∷ []) s ≡ none
unfolding strstr
strstr_free x [] h = refl
strstr_free x (c ∷ cs) h = rw (starts_with-other x c cs h.0, strstr_free x cs h.1) refl

pub strstr_first :
    (x : ℕ) (s t : Bytes) → IsFree x s → strstr (x ∷ []) (s ++ x ∷ t) ≡ some (s, x ∷ t)
unfolding strstr
strstr_first x [] t h = rw (starts_with-same x t) refl
strstr_first x (c ∷ cs) t h =
    rw (starts_with-other x c (cs ++ x ∷ t) h.0, strstr_first x cs t h.1) refl
