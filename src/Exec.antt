-- ===== src/Exec.antt =====
-- src/parse_config.c and src/parse_config.h: commands with "$hal.…$" places to be filled in.
-- `new_exec` walks its text twice with `strstr`, once to size the array of elements and once to
-- fill it; both walks are written with fuel, a round for each "$hal." at most.
pub mod Bounds
pub mod RoundTrip
pub mod Print
use gnu_halevt.Base.{
  ℕ, zero, suc, ◌+◌, Bool, List, [], ◌∷◌, ◌++◌, Option, none, some, Bytes, codes, length, tail,
  starts_with, strstr, strcat, as_int, if◌then◌else◌, ◌>>=◌,
}
use gnu_halevt.Names.{PropertyName, parse_property_name, print_property_name}

-- `halevt_exec_element`: the flag `hal_property` tells the two forms apart.
pub data ExecElement : Type 0 where
  text : Bytes → ExecElement
  hal_value : PropertyName → ExecElement

-- `halevt_exec`; `exec_size` is the length of `elements`.
pub record Exec : Type 0 where
  pub string : Bytes
  pub elements : List ExecElement

abbrev pub exec_prefix : Bytes
exec_prefix = codes "$hal."

abbrev pub dollar : Bytes
dollar = codes "$"

-- The first pass: how far it raises `sub_elements_number`. It goes on from the closing "$" itself.
unfoldable pub count_rest : (Bytes → ℕ) → Bytes → Bytes → ℕ
count_rest again p [] = 1
count_rest again p (_ ∷ _) = 2 + again p

unfoldable pub count_to : (Bytes → ℕ) → Option (Bytes × Bytes) → ℕ
unfolding count_rest
count_to again none = 0
count_to again (some (_, p)) = count_rest again p (tail p)

unfoldable pub count_from : (Bytes → ℕ) → Option (Bytes × Bytes) → ℕ
unfolding count_to
count_from again none = 0
count_from again (some (_, p)) = count_to again (strstr dollar (tail p))

unfoldable pub count_elements : ℕ → Bytes → ℕ
unfolding count_from
count_elements zero p = 0
count_elements (suc fuel) p = count_from (count_elements fuel) (strstr exec_prefix p)

-- The outcome of the second pass.
pub data Fill : Type 0 where
  out_of_fuel : Fill
  bad_property : Fill
  filled : List ExecElement → Fill

unfoldable pub prepend : ExecElement → ExecElement → Fill → Fill
prepend a b (filled es) = filled (a ∷ b ∷ es)
prepend a b r = r

-- The second pass. `s` is the text element that is open, from its first byte on; it ends where
-- the next place begins, and a place with no closing "$" is left in it.
unfoldable pub fill_rest : (Bytes → Fill) → Bytes → PropertyName → Bytes → Fill
unfolding prepend
fill_rest again before property [] = filled (text before ∷ hal_value property ∷ [])
fill_rest again before property (c ∷ cs) =
    prepend (text before) (hal_value property) (again (c ∷ cs))

unfoldable pub fill_property : (Bytes → Fill) → Bytes → Option PropertyName → Bytes → Fill
unfolding fill_rest
fill_property again before none rest = bad_property
fill_property again before (some property) rest = fill_rest again before property rest

unfoldable pub fill_to : (Bytes → Fill) → Bytes → Bytes → Option (Bytes × Bytes) → Fill
unfolding fill_property
fill_to again s before none = filled (text s ∷ [])
fill_to again s before (some (inside, p)) =
    fill_property again before (parse_property_name inside) (tail p)

unfoldable pub fill_from : (Bytes → Fill) → Bytes → Option (Bytes × Bytes) → Fill
unfolding fill_to
fill_from again s none = filled (text s ∷ [])
fill_from again s (some (before, p_begin)) = fill_to again s before (strstr dollar (tail p_begin))

unfoldable pub fill_elements : ℕ → Bytes → Fill
unfolding fill_from
fill_elements zero s = out_of_fuel
fill_elements (suc fuel) s = fill_from (fill_elements fuel) s (strstr exec_prefix s)

unfoldable pub to_exec : Bytes → Fill → Option Exec
to_exec string (filled es) = some (record { string = string; elements = es })
to_exec string _ = none

-- `none` is NULL: a place at the very beginning is refused, and so is a bad property name.
unfoldable pub new_exec : Bytes → Option Exec
unfolding fill_elements to_exec
new_exec exec =
    if starts_with exec_prefix exec
    then none
    else to_exec exec (fill_elements (suc (length exec)) exec)

-- The text for messages. The sum of the sizes of the parts, two bytes after each.
unfoldable pub element_string : ExecElement → Option Bytes
element_string (text s) = some s
element_string (hal_value property) = print_property_name property

unfoldable pub print_exec_size : List ExecElement → Option ℕ
unfolding element_string
print_exec_size [] = some 0
print_exec_size (e ∷ es) = do
  string ← element_string e
  rest ← print_exec_size es
  some (length string + 2 + rest)

unfoldable pub print_elements : ℕ → Bytes → List ExecElement → Option Bytes
unfolding element_string
print_elements size result [] = some result
print_elements size result (e ∷ es) = do
  string ← element_string e
  r ← strcat size result string
  r' ← strcat size r (codes "| ")
  print_elements size r' es

unfoldable pub print_exec : Exec → Option Bytes
unfolding print_exec_size print_elements
print_exec exec_str = do
  str_size ← print_exec_size exec_str.elements
  size ← as_int (str_size + 1)
  print_elements size [] exec_str.elements
