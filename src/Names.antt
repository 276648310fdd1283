-- ===== src/Names.antt =====
-- src/parse_config.c and src/match.h: names of hal properties, with the devices to go through.
-- `parse_property_name` cuts its text in place; here each piece is a text of its own.
pub mod Cut
pub mod RoundTrip
pub mod Print
pub mod Exact
use gnu_halevt.Base.{
  ℕ, zero, suc, ◌+◌, Bool, ◌||◌, not, List, [], ◌∷◌, ◌++◌, Option, none, some, Bytes, codes, length,
  take, drop, get_elem?, traverse, starts_with, strcat, as_int, ltb, if◌then◌else◌, ◌>>=◌,
}

-- `halevt_property_name`. The parse never keeps a NULL name: it is `none` there.
pub record PropertyName : Type 0 where
  pub name : Bytes
  pub parents : List Bytes

abbrev pub hal_prefix : Bytes
hal_prefix = codes "hal."

abbrev pub hal_substring : Bytes
hal_substring = codes ".hal."

-- What follows the prefix; `none` is NULL.
unfoldable pub hal_string : Bytes → Option Bytes
hal_string string =
    if ltb (length string) 5 || not (starts_with hal_prefix string)
    then none
    else some (drop 4 string)

-- The loop that counts the parents: `strstr` is called again one byte after each place that it
-- finds, so it stops at every place where the text stands.
unfoldable pub occurrences : Bytes → Bytes → ℕ
occurrences needle [] = 0
occurrences needle (c ∷ cs) =
    let later = occurrences needle cs in if starts_with needle (c ∷ cs) then suc later else later

unfoldable pub push : ℕ → List Bytes → List Bytes
push c [] = (c ∷ []) ∷ []
push c (piece ∷ pieces) = (c ∷ piece) ∷ pieces

-- The loop that cuts: the dot of each ".hal." becomes the end of a piece, and the next piece and
-- the next search begin behind it.
unfoldable pub cut : Bytes → List Bytes
unfolding push
cut [] = [] ∷ []
cut (c ∷ cs) =
    let later = cut cs in if starts_with hal_substring (c ∷ cs) then [] ∷ later else push c later

-- The branch with parents: each piece loses its prefix, the last one is the name, and its place
-- in the array becomes the NULL at the end of the parents.
unfoldable pub parse_parents : ℕ → Bytes → Option PropertyName
unfolding cut hal_string
parse_parents parents_size string = do
  pieces ← traverse hal_string (cut string)
  name ← get_elem? pieces parents_size
  some (record { name = name; parents = take parents_size pieces })

unfoldable pub parse_property_name : Bytes → Option PropertyName
unfolding occurrences parse_parents hal_string
parse_property_name string =
    let parents_size = occurrences hal_substring string in
    if ltb 0 parents_size
    then parse_parents parents_size string
    else hal_string string >>= λ name. some (record { name = name; parents = [] })

unfoldable pub add_sizes : ℕ → List Bytes → ℕ
add_sizes total_size [] = total_size
add_sizes total_size (p ∷ ps) = add_sizes (total_size + (length p + 2)) ps

-- The size that `print_property_name` allocates.
unfoldable pub print_size : PropertyName → ℕ
unfolding add_sizes
print_size property = add_sizes (length property.name + 1) property.parents

unfoldable pub print_parents : ℕ → Bytes → List Bytes → Option Bytes
unfolding strcat
print_parents size string [] = some string
print_parents size string (p ∷ ps) = do
  s ← strcat size string p
  t ← strcat size s (codes "->")
  print_parents size t ps

-- The text for messages, written into a buffer of `print_size` bytes; `none` is a write outside,
-- or a size out of the range of int.
unfoldable pub print_property_name : PropertyName → Option Bytes
unfolding print_size print_parents strcat
print_property_name property = do
  total_size ← as_int (print_size property)
  string ← print_parents total_size [] property.parents
  strcat total_size string property.name
