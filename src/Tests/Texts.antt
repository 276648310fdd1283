-- ===== src/Tests/Texts.antt =====
-- Names, commands, expressions and their messages, on texts as a configuration file has them.
use gnu_halevt.Base.{
  ◌+◌, ◌≤◌, [], ◌∷◌, ◌++◌, none, some, Bytes, codes, ◌≡◌, ◌↔◌, refl, arith, length, decimal,
  starts_with, traverse, strcat, strstr, skip_spaces, is_space,
}
use gnu_halevt.Names.{PropertyName, parse_property_name, print_property_name}
use gnu_halevt.Names.RoundTrip.{dotted}
use gnu_halevt.Names.Exact.{IsWritten, parse_property_name_iff}
use gnu_halevt.Exec.{count_elements, new_exec}
use gnu_halevt.Exec.Bounds.{new_exec-within}
use gnu_halevt.Exec.RoundTrip.{sources, new_exec-sources}
use gnu_halevt.Expr.{new_boolean_expression}
use gnu_halevt.Expr.Scan.{is_delimiter, trim_end, Scanner, start, scan}
use gnu_halevt.Expr.Scan.Safe.{Fits, scan_within}
use gnu_halevt.Expr.Segments.{split, atoms_of, expr_of}
use gnu_halevt.Expr.Tokens.{scan-split}
use gnu_halevt.Expr.Parse.{described, new_boolean_expression-described, parse_match-named}
use gnu_halevt.Expr.{named_match, parse_match}
use gnu_halevt.Base.{is_space, true}
use gnu_halevt.Config.Print.{print_config}
use gnu_halevt.Config.Print.Lines.{
  IsSized, IsCounted, concat_map, rule_line, condition_line, property_lines, print_config_lines,
}
use gnu_halevt.Tests.World.{category, is_volume, eject, boolstuff, config}

abbrev parent : Bytes
parent = codes "info.parent"

abbrev two_levels : Bytes
two_levels = codes "hal.info.parent.hal.info.category"

abbrev category_name : PropertyName
category_name = record { name = category; parents = parent ∷ [] }

parse_two_levels : parse_property_name two_levels ≡ some category_name
unfolding parse_property_name starts_with traverse
parse_two_levels = refl

no_prefix : parse_property_name (codes "info.category") ≡ none
unfolding parse_property_name starts_with traverse
no_prefix = refl

print_two_levels : print_property_name category_name ≡ some (codes "info.parent->info.category")
unfolding print_property_name strcat
print_two_levels = refl

parse_property_name_iff_example :
    (parse_property_name two_levels ≡ some category_name)
    ↔ (IsWritten category_name × (dotted category_name ≡ two_levels))
parse_property_name_iff_example = parse_property_name_iff two_levels category_name

-- A separator that overlaps another one leaves a part without a name.
overlapping : parse_property_name (codes "hal.a.hal.hal.b") ≡ none
unfolding parse_property_name starts_with traverse
overlapping = refl

new_eject : new_exec (codes "eject $hal.udi$") ≡ some eject
unfolding new_exec starts_with traverse strstr parse_property_name
new_eject = refl

new_exec-sources_example :
    (sources eject.elements ≡ codes "eject $hal.udi$") × (eject.string ≡ codes "eject $hal.udi$")
new_exec-sources_example = new_exec-sources (codes "eject $hal.udi$") new_eject

new_exec-within_example : length eject.elements ≤ count_elements 16 (codes "eject $hal.udi$") + 1
new_exec-within_example = new_exec-within (codes "eject $hal.udi$") new_eject

abbrev expression : Bytes
expression = codes " hal.info.category = volume & !(hal.info.parent)"

scan-split_example :
    (t : Scanner) × (scan start expression ≡ some t)
    × (t.atoms ≡ atoms_of (split expression))
    × (t.expr ≡ expr_of 0 (split expression))
scan-split_example = scan-split expression (omega arith)

scan_within_example : (t : Scanner) × (scan start expression ≡ some t) × Fits t
scan_within_example = scan_within expression (omega arith)

atoms_of-expression :
    atoms_of (split expression) ≡ codes "hal.info.category = volume" ∷ codes "hal.info.parent" ∷ []
unfolding split is_delimiter trim_end skip_spaces
atoms_of-expression = refl

new_is_volume :
    new_boolean_expression boolstuff (codes "hal.info.category = volume") ≡ some is_volume
unfolding new_boolean_expression strcat decimal strstr starts_with traverse parse_property_name
    is_space skip_spaces
new_is_volume = refl

new_boolean_expression-described_example :
    new_boolean_expression boolstuff expression
    ≡ described boolstuff (atoms_of (split expression)) (expr_of 0 (split expression))
new_boolean_expression-described_example =
    new_boolean_expression-described boolstuff expression (omega arith)

space_is_space : is_space b' ' ≡ true
unfolding is_space
space_is_space = refl

name_trimmed : trim_end (codes "hal.a") ≡ codes "hal.a"
unfolding trim_end is_space
name_trimmed = refl

value_trimmed : skip_spaces (codes "volume") ≡ codes "volume"
unfolding skip_spaces is_space
value_trimmed = refl

parse_match-named_example :
    (parse_match ((codes "hal.a" ++ codes " ") ++ b'=' ∷ (codes " " ++ codes "volume"))
      ≡ named_match (codes "hal.a") (some (codes "volume")))
    × (parse_match (codes "hal.a" ++ codes " ") ≡ named_match (codes "hal.a" ++ codes " ") none)
parse_match-named_example =
    parse_match-named (codes "hal.a") (codes " ") (codes " ") (codes "volume")
      (refl, (refl, (refl, (refl, (refl, (refl, tt)))))) (space_is_space, tt) (space_is_space, tt)
      name_trimmed value_trimmed

eject_fits : IsSized eject
eject_fits = omega arith

eject_rule_fits : IsCounted is_volume
unfolding decimal
eject_rule_fits = (omega arith, omega arith)

print_config_lines_example :
    print_config config
    ≡ some (
        concat_map (rule_line (codes "insertion ")) config.insertion_root
        ++ (concat_map (rule_line (codes "removal ")) config.removal_root
            ++ (concat_map condition_line config.condition_root
                ++ concat_map property_lines config.property_root)))
print_config_lines_example =
    print_config_lines config ((eject_rule_fits, eject_fits), tt)
      ((eject_rule_fits, eject_fits), tt) ((eject_rule_fits, eject_fits), tt)
      ((eject_rule_fits, (eject_fits, tt)), tt)
