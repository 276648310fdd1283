-- ===== src/Expr/Scan.antt =====
-- src/match.c: the loop of `new_boolean_expression` that takes the atoms out of the text and puts
-- their numbers into the expression for boolstuff. The buffers grow as they do in the source.
-- A step is `none` where the source gives up, would write outside a buffer, or where the size of a
-- buffer leaves the range of int.
pub mod Safe
use gnu_halevt.Base.{
  ℕ, ◌+◌, ◌-◌, ◌*◌, Bool, ◌||◌, List, [], ◌∷◌, ◌++◌, Option, none, some, Bytes, length, is_space,
  as_int, strcat, decimal, ltb, leb, ◌==◌, if◌then◌else◌, ◌>>=◌,
}

-- The local variables of the loop. `matches_size` is the length of `atoms`; `atom` is the text
-- from the start of the open atom up to `index`.
pub record Scanner : Type 0 where
  pub atom : Option Bytes
  pub atoms : List Bytes
  pub expr : Bytes
  pub expr_string_size : ℕ
  pub atom_sizes : ℕ

abbrev pub start : Scanner
start = record { atom = none; atoms = []; expr = []; expr_string_size = 10; atom_sizes = 4 }

unfoldable pub is_delimiter : ℕ → Bool
is_delimiter c = c == b'&' || c == b'|' || c == b'(' || c == b')' || c == b'!'

unfoldable pub trim_cons : ℕ → Bytes → Bytes
trim_cons c [] = if is_space c then [] else c ∷ []
trim_cons c (d ∷ ds) = c ∷ d ∷ ds

-- The text without its trailing spaces.
unfoldable pub trim_end : Bytes → Bytes
unfolding trim_cons
trim_end [] = []
trim_end (c ∷ cs) = trim_cons c (trim_end cs)

-- A byte that is no delimiter: it begins an atom, goes into one, or is a space between atoms.
unfoldable pub extend : Option Bytes → ℕ → Option Bytes
extend none c = if is_space c then none else some (c ∷ [])
extend (some a) c = some (a ++ c ∷ [])

unfoldable pub ordinary : Scanner → ℕ → Scanner
unfolding extend
ordinary s c = record s { atom = extend s.atom c }

-- Doubled, where the next atom and one more would not fit.
unfoldable pub sizes_for : ℕ → ℕ → Option ℕ
sizes_for atom_sizes matches_size =
    if leb (atom_sizes - 1) matches_size then as_int (atom_sizes * 2) else some atom_sizes

-- The end of an atom: it goes to the place `matches_size - 1` of an array that may be doubled
-- first, and its number is printed into 256 bytes. The result has the number's text.
unfoldable pub store_atom : Scanner → Bytes → Option (Scanner × Bytes)
unfolding trim_end sizes_for
store_atom s a =
    let matches_size = length s.atoms + 1 in
    let index_string = decimal (matches_size - 1) in
    sizes_for s.atom_sizes matches_size >>= λ sizes.
    if ltb (matches_size - 1) sizes
    then if ltb (length index_string) 256
      then some (record s { atoms = s.atoms ++ trim_end a ∷ []; atom_sizes = sizes }, index_string)
      else none
    else none

unfoldable pub end_atom : Scanner → Option Bytes → Option (Scanner × Bytes)
unfolding store_atom
end_atom s none = some (s, [])
end_atom s (some a) = store_atom s a

unfoldable pub grow_expr : Scanner → ℕ → Option ℕ
grow_expr s index_size =
    if ltb s.expr_string_size (length s.expr + index_size + 2)
    then as_int (s.expr_string_size * 2)
    else some s.expr_string_size

-- At a delimiter, or at the end: the open atom is stored, and its number is appended.
unfoldable pub flush : Scanner → Option Scanner
unfolding end_atom grow_expr
flush s = do
  ended ← end_atom s s.atom
  size ← grow_expr ended.0 (length ended.1)
  expr ← strcat size ended.0.expr ended.1
  some (record (ended.0) { atom = none; expr = expr; expr_string_size = size })

unfoldable pub delimiter : Scanner → ℕ → Option Scanner
unfolding flush
delimiter s next_char = do
  s' ← flush s
  expr ← strcat s'.expr_string_size s'.expr (next_char ∷ [])
  some (record s' { expr = expr })

unfoldable pub step : Scanner → ℕ → Option Scanner
unfolding delimiter ordinary is_delimiter
step s next_char =
    if is_delimiter next_char then delimiter s next_char else some (ordinary s next_char)

unfoldable pub scan : Scanner → Bytes → Option Scanner
unfolding step flush
scan s [] = flush s
scan s (c ∷ cs) = do s' ← step s c; scan s' cs
