-- ===== src/Config/Put.antt =====
-- src/parse_config.c: each kind of element in a Device adds what it stands for, if anything, to the
-- list of its kind.
use gnu_halevt.Base.{[], ◌∷◌, Option, none, some, Bytes, codes, ◌≡◌, refl, ap, ◌>>=◌}
use gnu_halevt.Expr.{BoolStuff}
use gnu_halevt.Config.{
  Rule, Condition, Config, Property, new_rule, add_insertion, add_removal, add_oninit,
  add_condition, new_condition, add_property, new_property,
}
use gnu_halevt.Config.Xml.{
  Attributes, Nodes, get_prop, or_same, action_nodes, newest, insertion_element, removal_element,
  oninit_element, condition_element, property_element,
}
use gnu_halevt.Config.Spec.{cons_some, filter_map, onto, action_of, node_list}
use gnu_halevt.Config.Actions.{with_action, action_nodes-onto}

module _ {Tree : Type 0} (boolstuff : BoolStuff Tree) where
  abbrev pub put_insertion : Config Tree → Option (Rule Tree) → Config Tree
  put_insertion c none = c
  put_insertion c (some x) = record c { insertion_root = x ∷ c.insertion_root }

  pub put_insertion-roots :
      (c : Config Tree) (o : Option (Rule Tree))
      → ((put_insertion c o).insertion_root ≡ onto (cons_some o []) c.insertion_root)
        × ((put_insertion c o).removal_root ≡ c.removal_root)
        × ((put_insertion c o).oninit_root ≡ c.oninit_root)
        × ((put_insertion c o).condition_root ≡ c.condition_root)
        × ((put_insertion c o).property_root ≡ c.property_root)
  put_insertion-roots c none = (refl, refl, refl, refl, refl)
  put_insertion-roots c (some x) = (refl, refl, refl, refl, refl)

  abbrev pub put_removal : Config Tree → Option (Rule Tree) → Config Tree
  put_removal c none = c
  put_removal c (some x) = record c { removal_root = x ∷ c.removal_root }

  pub put_removal-roots :
      (c : Config Tree) (o : Option (Rule Tree))
      → ((put_removal c o).insertion_root ≡ c.insertion_root)
        × ((put_removal c o).removal_root ≡ onto (cons_some o []) c.removal_root)
        × ((put_removal c o).oninit_root ≡ c.oninit_root)
        × ((put_removal c o).condition_root ≡ c.condition_root)
        × ((put_removal c o).property_root ≡ c.property_root)
  put_removal-roots c none = (refl, refl, refl, refl, refl)
  put_removal-roots c (some x) = (refl, refl, refl, refl, refl)

  abbrev pub put_oninit : Config Tree → Option (Rule Tree) → Config Tree
  put_oninit c none = c
  put_oninit c (some x) = record c { oninit_root = x ∷ c.oninit_root }

  pub put_oninit-roots :
      (c : Config Tree) (o : Option (Rule Tree))
      → ((put_oninit c o).insertion_root ≡ c.insertion_root)
        × ((put_oninit c o).removal_root ≡ c.removal_root)
        × ((put_oninit c o).oninit_root ≡ onto (cons_some o []) c.oninit_root)
        × ((put_oninit c o).condition_root ≡ c.condition_root)
        × ((put_oninit c o).property_root ≡ c.property_root)
  put_oninit-roots c none = (refl, refl, refl, refl, refl)
  put_oninit-roots c (some x) = (refl, refl, refl, refl, refl)

  abbrev pub put_condition : Config Tree → Option (Condition Tree) → Config Tree
  put_condition c none = c
  put_condition c (some x) = record c { condition_root = x ∷ c.condition_root }

  pub put_condition-roots :
      (c : Config Tree) (o : Option (Condition Tree))
      → ((put_condition c o).insertion_root ≡ c.insertion_root)
        × ((put_condition c o).removal_root ≡ c.removal_root)
        × ((put_condition c o).oninit_root ≡ c.oninit_root)
        × ((put_condition c o).condition_root ≡ onto (cons_some o []) c.condition_root)
        × ((put_condition c o).property_root ≡ c.property_root)
  put_condition-roots c none = (refl, refl, refl, refl, refl)
  put_condition-roots c (some x) = (refl, refl, refl, refl, refl)

  abbrev pub put_property : Config Tree → Option (Property Tree) → Config Tree
  put_property c none = c
  put_property c (some x) = record c { property_root = x ∷ c.property_root }

  pub put_property-roots :
      (c : Config Tree) (o : Option (Property Tree))
      → ((put_property c o).insertion_root ≡ c.insertion_root)
        × ((put_property c o).removal_root ≡ c.removal_root)
        × ((put_property c o).oninit_root ≡ c.oninit_root)
        × ((put_property c o).condition_root ≡ c.condition_root)
        × ((put_property c o).property_root ≡ onto (cons_some o []) c.property_root)
  put_property-roots c none = (refl, refl, refl, refl, refl)
  put_property-roots c (some x) = (refl, refl, refl, refl, refl)

  pub insertion_element-put :
      (c : Config Tree) (match : Bytes) (attributes : Attributes)
      → or_same c (insertion_element boolstuff match c attributes)
        ≡ put_insertion c
            (get_prop (codes "exec") attributes >>= λ exec. new_rule boolstuff match exec)
  unfolding insertion_element add_insertion or_same
  insertion_element-put c match attributes = go (get_prop (codes "exec") attributes)
    where
      rule :
          (r : Option (Rule Tree))
          → or_same c (r >>= λ x. some (put_insertion c (some x))) ≡ put_insertion c r
      rule none = refl
      rule (some r) = refl

      go :
          (o : Option Bytes)
          → or_same c (o >>= λ exec. add_insertion boolstuff c match exec)
            ≡ put_insertion c (o >>= λ exec. new_rule boolstuff match exec)
      go none = refl
      go (some exec) = rule (new_rule boolstuff match exec)

  pub removal_element-put :
      (c : Config Tree) (match : Bytes) (attributes : Attributes)
      → or_same c (removal_element boolstuff match c attributes)
        ≡ put_removal c
            (get_prop (codes "exec") attributes >>= λ exec. new_rule boolstuff match exec)
  unfolding removal_element add_removal or_same
  removal_element-put c match attributes = go (get_prop (codes "exec") attributes)
    where
      rule :
          (r : Option (Rule Tree))
          → or_same c (r >>= λ x. some (put_removal c (some x))) ≡ put_removal c r
      rule none = refl
      rule (some r) = refl

      go :
          (o : Option Bytes)
          → or_same c (o >>= λ exec. add_removal boolstuff c match exec)
            ≡ put_removal c (o >>= λ exec. new_rule boolstuff match exec)
      go none = refl
      go (some exec) = rule (new_rule boolstuff match exec)

  pub oninit_element-put :
      (c : Config Tree) (match : Bytes) (attributes : Attributes)
      → or_same c (oninit_element boolstuff match c attributes)
        ≡ put_oninit c
            (get_prop (codes "exec") attributes >>= λ exec. new_rule boolstuff match exec)
  unfolding oninit_element add_oninit or_same
  oninit_element-put c match attributes = go (get_prop (codes "exec") attributes)
    where
      rule :
          (r : Option (Rule Tree))
          → or_same c (r >>= λ x. some (put_oninit c (some x))) ≡ put_oninit c r
      rule none = refl
      rule (some r) = refl

      go :
          (o : Option Bytes)
          → or_same c (o >>= λ exec. add_oninit boolstuff c match exec)
            ≡ put_oninit c (o >>= λ exec. new_rule boolstuff match exec)
      go none = refl
      go (some exec) = rule (new_rule boolstuff match exec)

  pub condition_element-put :
      (c : Config Tree) (match : Bytes) (attributes : Attributes)
      → or_same c (condition_element boolstuff match c attributes)
        ≡ put_condition c (
            get_prop (codes "exec") attributes >>= λ exec.
            get_prop (codes "name") attributes >>= λ name.
            new_condition boolstuff match exec name (get_prop (codes "value") attributes))
  unfolding condition_element add_condition or_same
  condition_element-put c match attributes =
      go (get_prop (codes "exec") attributes) (get_prop (codes "name") attributes)
    where
      value : Option Bytes
      value = get_prop (codes "value") attributes

      made :
          (r : Option (Condition Tree))
          → or_same c (r >>= λ x. some (put_condition c (some x))) ≡ put_condition c r
      made none = refl
      made (some r) = refl

      go :
          (o p : Option Bytes)
          → or_same c (o >>= λ exec. p >>= λ name. add_condition boolstuff c match exec name value)
            ≡ put_condition c
                (o >>= λ exec. p >>= λ name. new_condition boolstuff match exec name value)
      go none p = refl
      go (some exec) none = refl
      go (some exec) (some name) = made (new_condition boolstuff match exec name value)

  pub property_element-put :
      (c : Config Tree) (match : Bytes) (attributes : Attributes) (children : Nodes)
      → or_same c (property_element boolstuff match c attributes children)
        ≡ put_property c (
            get_prop (codes "name") attributes >>= λ name.
            new_property boolstuff match name >>= λ p.
            some (with_action p (onto (filter_map action_of (node_list children)) p.action)))
  unfolding property_element add_property or_same newest
  property_element-put c match attributes children = go (get_prop (codes "name") attributes)
    where
      made :
          (r : Option (Property Tree))
          → or_same c (
              (r >>= λ x. some (put_property c (some x))) >>= λ d.
              some (record d {
                property_root = newest (λ p. action_nodes p children) d.property_root;
              }))
            ≡ put_property c (
                r >>= λ p.
                some (with_action p (onto (filter_map action_of (node_list children)) p.action)))
      made none = refl
      made (some r) = ap (λ q. put_property c (some q)) (action_nodes-onto r children)

      go :
          (o : Option Bytes)
          → or_same c (
              o >>= λ name. add_property boolstuff c match name >>= λ d.
              some (record d {
                property_root = newest (λ p. action_nodes p children) d.property_root;
              }))
            ≡ put_property c (
                o >>= λ name. new_property boolstuff match name >>= λ p.
                some (with_action p (onto (filter_map action_of (node_list children)) p.action)))
      go none = refl
      go (some name) = made (new_property boolstuff match name)
