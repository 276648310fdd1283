-- ===== src/Config/Print.antt =====
-- src/parse_config.c: `halevt_print_config`, the text of a configuration for debugging. `none` is a
-- write outside of a buffer in the text of a command or an expression.
pub mod Lines
use gnu_halevt.Base.{List, [], ◌∷◌, ◌++◌, Option, none, some, Bytes, codes, ◌>>=◌}
use gnu_halevt.Exec.{print_exec}
use gnu_halevt.Expr.{print_boolean_expression}
use gnu_halevt.Config.{Rule, Condition, PropertyAction, Property, Config}

abbrev pub comma : Bytes
comma = codes ", "

-- `fprintf` of glibc prints a NULL value as "(null)".
abbrev pub or_null : Option Bytes → Bytes
or_null none = codes "(null)"
or_null (some s) = s

-- The texts of a list, one after the other.
unfoldable pub print_all {ℓ} : {A : Type ℓ} → (A → Option Bytes) → List A → Option Bytes
print_all print [] = some []
print_all print (x ∷ xs) = do first ← print x; rest ← print_all print xs; some (first ++ rest)

unfoldable pub print_action : PropertyAction → Option Bytes
print_action a = do
  exec_string ← print_exec a.exec
  some (codes "  property_action " ++ (a.value ++ (comma ++ (exec_string ++ codes "\n"))))

module _ {Tree : Type 0} where
  unfoldable pub print_insertion : Rule Tree → Option Bytes
  print_insertion r = do
    exec_string ← print_exec r.exec
    boolean_expression ← print_boolean_expression r.match
    some (codes "insertion " ++ (boolean_expression ++ (comma ++ (exec_string ++ codes "\n"))))

  unfoldable pub print_removal : Rule Tree → Option Bytes
  print_removal r = do
    boolean_expression ← print_boolean_expression r.match
    exec_string ← print_exec r.exec
    some (codes "removal " ++ (boolean_expression ++ (comma ++ (exec_string ++ codes "\n"))))

  unfoldable pub print_condition : Condition Tree → Option Bytes
  print_condition c = do
    boolean_expression ← print_boolean_expression c.match
    exec_string ← print_exec c.exec
    some (
        codes "condition "
        ++ (boolean_expression
            ++ (comma
                ++ (exec_string
                    ++ (comma ++ (c.name ++ (comma ++ (or_null c.value ++ codes "\n"))))))))

  unfoldable pub print_property : Property Tree → Option Bytes
  unfolding print_all print_action
  print_property p = do
    boolean_expression ← print_boolean_expression p.match
    actions ← print_all print_action p.action
    some (
        codes "property " ++ (p.name ++ (comma ++ (boolean_expression ++ (codes "\n" ++ actions)))))

  -- The rules of OnInit are not printed.
  unfoldable pub print_config : Config Tree → Option Bytes
  unfolding print_all print_insertion print_removal print_condition print_property
  print_config c = do
    insertions ← print_all print_insertion c.insertion_root
    removals ← print_all print_removal c.removal_root
    conditions ← print_all print_condition c.condition_root
    properties ← print_all print_property c.property_root
    some (insertions ++ (removals ++ (conditions ++ properties)))
