-- ===== src/Expr/Segments.antt =====
-- A description of the atoms in a text that first splits the whole text at the delimiters, and then
-- looks at each segment by itself.
use mathlib.Core.List.{append_assoc}
use gnu_halevt.Base.{
  ℕ, ◌+◌, true, false, List, [], ◌∷◌, ◌++◌, Option, none, some, Bytes, ◌≡◌, refl, ap, length,
  is_space, skip_spaces, decimal, if◌then◌else◌,
}
use gnu_halevt.Expr.Scan.{is_delimiter, trim_cons, trim_end}

-- The text between two delimiters, the delimiter behind it, and the rest.
pub data Segments : Type 0 where
  last : Bytes → Segments
  next : Bytes → ℕ → Segments → Segments

abbrev pub onto : Bytes → Segments → Segments
onto g (last h) = last (g ++ h)
onto g (next h c r) = next (g ++ h) c r

unfoldable pub split : Bytes → Segments
split [] = last []
split (c ∷ cs) =
    let later = split cs in if is_delimiter c then next [] c later else onto (c ∷ []) later

-- The atom of a segment, if it has more than spaces.
abbrev pub named : Bytes → List Bytes
named [] = []
named (c ∷ cs) = (c ∷ cs) ∷ []

abbrev pub name_of : Bytes → List Bytes
name_of g = named (trim_end (skip_spaces g))

-- The index of an atom takes its place.
abbrev pub index_of : ℕ → List Bytes → Bytes
index_of n [] = []
index_of n (a ∷ _) = decimal n

-- The atoms of a text, in order.
abbrev pub atoms_of : Segments → List Bytes
atoms_of (last g) = name_of g
atoms_of (next g c r) = name_of g ++ atoms_of r

-- The delimiters of a text, in order, with the number of an atom where it stood.
abbrev pub expr_of : ℕ → Segments → Bytes
expr_of n (last g) = index_of n (name_of g)
expr_of n (next g c r) = index_of n (name_of g) ++ (c ∷ expr_of (n + length (name_of g)) r)

-- The open atom, if there is one, begins with a byte that is no space.
abbrev pub Opened : Option Bytes → Type 0
Opened none = Unit
Opened (some []) = ⊥
Opened (some (c ∷ cs)) = is_space c ≡ false

abbrev pub opened : Option Bytes → Bytes
opened none = []
opened (some a) = a

trim_cons-ne :
    (c : ℕ) (cs : Bytes) → is_space c ≡ false → named (trim_cons c cs) ≡ trim_cons c cs ∷ []
unfolding trim_cons
trim_cons-ne c [] h = rw h refl
trim_cons-ne c (d ∷ ds) h = refl

skip_spaces-stop : (c : ℕ) (cs : Bytes) → is_space c ≡ false → skip_spaces (c ∷ cs) ≡ c ∷ cs
unfolding skip_spaces
skip_spaces-stop c cs h = rw h refl

skip_spaces-skip : (c : ℕ) (cs : Bytes) → is_space c ≡ true → skip_spaces (c ∷ cs) ≡ skip_spaces cs
unfolding skip_spaces
skip_spaces-skip c cs h = rw h refl

-- A segment that an open atom fills has that atom, without its trailing spaces.
pub name_of-Opened : (a : Bytes) → Opened (some a) → name_of a ≡ trim_end a ∷ []
unfolding trim_end
name_of-Opened [] h = absurd h
name_of-Opened (c ∷ cs) h = rw (skip_spaces-stop c cs h) (trim_cons-ne c (trim_end cs) h)

pub atoms_of_space :
    (c : ℕ) (r : Segments) → is_space c ≡ true → atoms_of (onto (c ∷ []) r) ≡ atoms_of r
atoms_of_space c (last g) h = rw (skip_spaces-skip c g h) refl
atoms_of_space c (next g d r) h = rw (skip_spaces-skip c g h) refl

pub expr_of_space :
    (n c : ℕ) (r : Segments) → is_space c ≡ true → expr_of n (onto (c ∷ []) r) ≡ expr_of n r
expr_of_space n c (last g) h = rw (skip_spaces-skip c g h) refl
expr_of_space n c (next g d r) h = rw (skip_spaces-skip c g h) refl

pub onto-nil : (r : Segments) → onto [] r ≡ r
onto-nil (last g) = refl
onto-nil (next g c r) = refl

pub onto-append : (a b : Bytes) (r : Segments) → onto (a ++ b) r ≡ onto a (onto b r)
onto-append a b (last g) = ap last (append_assoc a b g)
onto-append a b (next g c r) = ap (λ x. next x c r) (append_assoc a b g)
