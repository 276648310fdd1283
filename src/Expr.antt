-- ===== src/Expr.antt =====
-- src/match.c and src/match.h: boolean expressions over matches of hal properties. The boolean
-- part is handed to the boolstuff library, a parameter here.
pub mod Scan
pub mod Segments
pub mod Tokens
pub mod Parse
pub mod Print
use Scan.{start, trim_end, scan}
use gnu_halevt.Base.{
  ℕ, zero, suc, ◌+◌, ◌-◌, ◌*◌, Bool, ◌||◌, List, [], ◌∷◌, ◌++◌, Option, none, some, Bytes, codes,
  length, tail, strstr, strcat, as_int, skip_spaces, decimal, traverse, ltb, if◌then◌else◌, ◌>>=◌,
}
use gnu_halevt.Names.{PropertyName, hal_string, parse_property_name, print_property_name}

-- `halevt_match`; a NULL value asks only whether the property exists.
pub record Match : Type 0 where
  pub value : Option Bytes
  pub property : PropertyName

-- `halevt_boolean_expression`, less `string`, which only messages read; `matches_size` is the
-- length of `matches`.
pub record BooleanExpression (Tree : Type 0) : Type 0 where
  pub tree : Tree
  pub expression_string : Bytes
  pub matches : List Match

-- What the program calls of boolstuff. The variable sets are the negated and the other variables
-- of one term.
pub record BoolStuff (Tree : Type 0) : Type 0 where
  pub parse : Bytes → Option Tree
  pub disjunctive_normal_form : Tree → Tree
  pub dnf_term_roots : Tree → List Tree
  pub positives : Tree → List Bytes
  pub negatives : Tree → List Bytes

-- `strsep (&value, "=")`: the name, and the value behind the first "=".
unfoldable pub separated : Bytes → Option (Bytes × Bytes) → Bytes × Option Bytes
separated atom none = (atom, none)
separated atom (some (before, at)) = (before, some (tail at))

unfoldable pub strsep : Bytes → Bytes × Option Bytes
unfolding separated
strsep atom = separated atom (strstr (codes "=") atom)

unfoldable pub named_match : Bytes → Option Bytes → Option Match
named_match name value = do
  _ ← hal_string name
  property ← parse_property_name name
  some (record { value = value; property = property })

-- One atom: "name = value" without the spaces round the "=", or "name".
unfoldable pub parse_atom : Bytes × Option Bytes → Option Match
unfolding named_match trim_end
parse_atom (name, none) = named_match name none
parse_atom (name, some value) = named_match (trim_end name) (some (skip_spaces value))

unfoldable pub parse_match : Bytes → Option Match
unfolding strsep parse_atom
parse_match atom = parse_atom (strsep atom)

module _ {Tree : Type 0} (boolstuff : BoolStuff Tree) where
  -- `none` is NULL.
  unfoldable pub new_boolean_expression : Bytes → Option (BooleanExpression Tree)
  unfolding scan parse_match
  new_boolean_expression original_string = do
    scanned ← scan start original_string
    matches ← traverse parse_match scanned.atoms
    tree ← boolstuff.parse scanned.expr
    some (record {
      tree = boolstuff.disjunctive_normal_form tree;
      expression_string = scanned.expr;
      matches = matches;
    })

-- What `print_boolean_expression` adds up for one match.
unfoldable pub value_size : Option Bytes → ℕ
value_size none = 0
value_size (some value) = length value + 1

unfoldable pub print_matches_size : ℕ → List Match → Option ℕ
unfolding value_size
print_matches_size total_size [] = some total_size
print_matches_size total_size (m ∷ ms) = do
  property_string ← print_property_name m.property
  print_matches_size (total_size + length property_string + value_size m.value + 2) ms

unfoldable pub print_value : ℕ → Bytes → Option Bytes → Option Bytes
print_value size string none = some string
print_value size string (some value) = do s ← strcat size string (codes "="); strcat size s value

unfoldable pub print_matches : ℕ → Bytes → List Match → Option Bytes
unfolding print_value
print_matches size string [] = some string
print_matches size string (m ∷ ms) = do
  property_string ← print_property_name m.property
  s ← strcat size string property_string
  t ← print_value size s m.value
  u ← strcat size t (codes ", ")
  print_matches size u ms

-- The text for messages; `none` is a write outside a buffer, `tmp` of 256 bytes or `string`.
unfoldable pub print_boolean_expression : {Tree : Type 0} → BooleanExpression Tree → Option Bytes
unfolding print_matches_size print_matches
print_boolean_expression expr = do
  matches_total ← print_matches_size 0 expr.matches
  tmp ← strcat 256 [] (decimal (length expr.matches) ++ codes ": ")
  total_size ← as_int (matches_total + (length tmp + length expr.expression_string + 2 + 1))
  s ← strcat total_size [] tmp
  t ← strcat total_size s expr.expression_string
  u ← strcat total_size t (codes ", ")
  print_matches total_size u expr.matches
