-- ===== src/Tests/Commands.antt =====
-- Evaluating an expression, and filling in a command.
use gnu_halevt.Base.{
  Bool, true, List, [], ◌∷◌, Option, none, some, Bytes, codes, ◌≡◌, refl, arith, decimal, traverse,
  strcat,
}
use gnu_halevt.Names.{PropertyName}
use gnu_halevt.Exec.{Exec, text, hal_value, ExecElement}
use gnu_halevt.Expr.{Match}
use gnu_halevt.Eval.{true_tree}
use gnu_halevt.Eval.Correct.{IsIndex, valuation, true_tree-meaning}
use gnu_halevt.Command.{element_value, run_command}
use gnu_halevt.Command.Sizes.{concat, run_command-concat}
use gnu_halevt.Command.Growth.{run_command_overflow}
use gnu_halevt.Tests.World.{boolstuff, meaning, boolstuff-IsNormalizer, is_volume, eject}

abbrev every_match : Match → Bool
every_match m = true

zero-IsIndex : IsIndex is_volume.matches (codes "0")
unfolding decimal
zero-IsIndex = record { index = 0; spelled = refl; inside = omega arith }

true_tree-meaning_example :
    true_tree boolstuff (λ m. some (every_match m)) is_volume
    ≡ some (meaning is_volume.tree (valuation every_match is_volume.matches))
true_tree-meaning_example =
    true_tree-meaning every_match is_volume.matches boolstuff meaning boolstuff-IsNormalizer
      is_volume.tree (codes "0") (record { positive = (zero-IsIndex, tt); negative = tt }, tt)

abbrev disk_udi : PropertyName → Option (Option (List Bytes))
disk_udi property = some (some (codes "/disk" ∷ []))

abbrev parts : List Bytes
parts = codes "eject " ∷ codes "/disk" ∷ []

eject_parts : traverse (element_value disk_udi) eject.elements ≡ some parts
unfolding traverse element_value
eject_parts = refl

run_command-concat_example : run_command disk_udi eject ≡ some (concat parts)
run_command-concat_example = run_command-concat disk_udi eject parts eject_parts (omega arith)

eject_disk : run_command disk_udi eject ≡ some (codes "eject /disk")
unfolding run_command strcat
eject_disk = refl

abbrev four : List ExecElement → List ExecElement
four es =
    text (codes "a")
    ∷ hal_value (record { name = codes "udi"; parents = [] })
    ∷ text (codes "b")
    ∷ hal_value (record { name = codes "udi"; parents = [] })
    ∷ es

-- Twelve places, with a byte in front of each.
abbrev long_exec : Exec
long_exec = record {
  string =
      codes
        "a$hal.udi$b$hal.udi$a$hal.udi$b$hal.udi$a$hal.udi$b$hal.udi$a$hal.udi$b$hal.udi$a$hal.udi$b$hal.udi$a$hal.udi$b$hal.udi$";
  elements = four (four (four (four (four (four [])))));
}

run_command_overflow_example : run_command disk_udi long_exec ≡ none
run_command_overflow_example = run_command_overflow disk_udi long_exec (omega arith)
