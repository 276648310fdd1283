-- ===== src/Config/Print/Lines.antt =====
-- The text of a configuration, with no write outside of a buffer.
use gnu_halevt.Base.{
  ◌+◌, ◌<◌, ◌^◌, List, [], ◌∷◌, ◌++◌, Option, some, Bytes, codes, ◌≡◌, refl, length, All,
}
use gnu_halevt.Exec.{Exec}
use gnu_halevt.Exec.Print.{bars, print_exec-fits}
use gnu_halevt.Expr.{BooleanExpression}
use gnu_halevt.Expr.Print.{expression_text, print_boolean_expression-fits}
use gnu_halevt.Config.{Rule, Condition, PropertyAction, Property, Config}
use gnu_halevt.Config.Print.{
  comma, or_null, print_all, print_action, print_insertion, print_removal, print_condition,
  print_property, print_config,
}

-- The texts of a list, one after the other.
abbrev pub concat_map {ℓ} : {A : Type ℓ} → (A → Bytes) → List A → Bytes
concat_map shown [] = []
concat_map shown (x ∷ xs) = shown x ++ concat_map shown xs

print_all-concat_map :
    {A : Type 0} (P : A → Type 0) (print : A → Option Bytes) (shown : A → Bytes)
    → ((x : A) → P x → print x ≡ some (shown x))
    → (xs : List A) → All P xs
    → print_all print xs ≡ some (concat_map shown xs)
unfolding print_all
print_all-concat_map P print shown one [] h = refl
print_all-concat_map P print shown one (x ∷ xs) h =
    rw (one x h.0, print_all-concat_map P print shown one xs h.1) refl

abbrev pub action_line : PropertyAction → Bytes
action_line a =
    codes "  property_action " ++ (a.value ++ (comma ++ (bars a.exec.elements ++ codes "\n")))

-- The size of the text of a command is in the range of int.
abbrev pub IsSized : Exec → Type 0
IsSized exec = length (bars exec.elements) + 1 < 2 ^ 31

print_action_line : (a : PropertyAction) → IsSized a.exec → print_action a ≡ some (action_line a)
unfolding print_action
print_action_line a h = rw (print_exec-fits a.exec h) refl

module _ {Tree : Type 0} where
  -- The number of matches and the size of the text are in the range of int.
  abbrev pub IsCounted : BooleanExpression Tree → Type 0
  IsCounted expr = (length expr.matches < 2 ^ 31) × (length (expression_text expr) + 1 < 2 ^ 31)

  abbrev pub IsPrintableRule : Rule Tree → Type 0
  IsPrintableRule r = IsCounted r.match × IsSized r.exec

  abbrev pub IsPrintableCondition : Condition Tree → Type 0
  IsPrintableCondition c = IsCounted c.match × IsSized c.exec

  abbrev pub IsPrintableProperty : Property Tree → Type 0
  IsPrintableProperty p = IsCounted p.match × All (λ a. IsSized a.exec) p.action

  abbrev pub rule_line : Bytes → Rule Tree → Bytes
  rule_line kind r =
      kind ++ (expression_text r.match ++ (comma ++ (bars r.exec.elements ++ codes "\n")))

  abbrev pub condition_line : Condition Tree → Bytes
  condition_line c =
      codes "condition "
      ++ (expression_text c.match
          ++ (comma
              ++ (bars c.exec.elements
                  ++ (comma ++ (c.name ++ (comma ++ (or_null c.value ++ codes "\n")))))))

  abbrev pub property_lines : Property Tree → Bytes
  property_lines p =
      codes "property "
      ++ (p.name
          ++ (comma
              ++ (expression_text p.match ++ (codes "\n" ++ concat_map action_line p.action))))

  print_insertion_line :
      (r : Rule Tree)
      → IsPrintableRule r
      → print_insertion r ≡ some (rule_line (codes "insertion ") r)
  unfolding print_insertion
  print_insertion_line r h =
      rw (print_exec-fits r.exec h.1, print_boolean_expression-fits r.match h.0.0 h.0.1) refl

  print_removal_line :
      (r : Rule Tree) → IsPrintableRule r → print_removal r ≡ some (rule_line (codes "removal ") r)
  unfolding print_removal
  print_removal_line r h =
      rw (print_boolean_expression-fits r.match h.0.0 h.0.1, print_exec-fits r.exec h.1) refl

  print_condition_line :
      (c : Condition Tree) → IsPrintableCondition c → print_condition c ≡ some (condition_line c)
  unfolding print_condition
  print_condition_line c h =
      rw (print_boolean_expression-fits c.match h.0.0 h.0.1, print_exec-fits c.exec h.1) refl

  print_property_lines :
      (p : Property Tree) → IsPrintableProperty p → print_property p ≡ some (property_lines p)
  unfolding print_property
  print_property_lines p h =
      rw
        (
          print_boolean_expression-fits p.match h.0.0 h.0.1,
          print_all-concat_map _ print_action _ print_action_line p.action h.1,
        )
        refl

  -- Where the number of the matches of each expression, and the size of the text of each expression
  -- and of each command are in the range of int, a configuration is printed with every write inside its buffer: a line for each insertion, removal and condition,
  -- and for each property one with a line for each action behind it, in the order of the lists.
  -- The OnInit rules are not printed.
  pub print_config_lines :
      (c : Config Tree)
      → All IsPrintableRule c.insertion_root
      → All IsPrintableRule c.removal_root
      → All IsPrintableCondition c.condition_root
      → All IsPrintableProperty c.property_root
      → print_config c
        ≡ some (
            concat_map (rule_line (codes "insertion ")) c.insertion_root
            ++ (concat_map (rule_line (codes "removal ")) c.removal_root
                ++ (concat_map condition_line c.condition_root
                    ++ concat_map property_lines c.property_root)))
  unfolding print_config
  print_config_lines c i r k p =
      rw
        (
          print_all-concat_map _ print_insertion _ print_insertion_line c.insertion_root i,
          print_all-concat_map _ print_removal _ print_removal_line c.removal_root r,
          print_all-concat_map _ print_condition _ print_condition_line c.condition_root k,
          print_all-concat_map _ print_property _ print_property_lines c.property_root p,
        )
        refl
