-- ===== src/Config/Spec.antt =====
-- src/parse_config.c: what the configuration holds after a document, described element by element.
use gnu_halevt.Base.{
  List, [], ◌∷◌, ◌++◌, Option, none, some, Bytes, codes, str_eq, ◌≡◌, if◌then◌else◌, ◌>>=◌,
}
use gnu_halevt.Exec.{new_exec}
use gnu_halevt.Expr.{BoolStuff}
use gnu_halevt.Config.{
  Rule, Condition, PropertyAction, Config, Property, new_rule, new_condition, new_property,
}
use gnu_halevt.Config.Xml.{Attributes, Node, Nodes, element, end, node, get_prop}

-- An element in a Device that has a match, with that match.
pub record Entry : Type 0 where
  pub match : Bytes
  pub name : Bytes
  pub attributes : Attributes
  pub children : Nodes

abbrev pub child_entries : Bytes → Nodes → List Entry
child_entries match end = []
child_entries match (node (element name attributes children) ns) =
    record { match = match; name = name; attributes = attributes; children = children }
    ∷ child_entries match ns
child_entries match (node _ ns) = child_entries match ns

abbrev pub matched_entries : Option Bytes → Nodes → List Entry
matched_entries none children = []
matched_entries (some match) children = child_entries match children

abbrev pub device_entries : Node → List Entry
device_entries (element name attributes children) =
    if str_eq name (codes "Device")
    then matched_entries (get_prop (codes "match") attributes) children
    else []
device_entries _ = []

-- The entries of a document, in its order.
abbrev pub entries : Nodes → List Entry
entries end = []
entries (node n ns) = device_entries n ++ entries ns

abbrev pub cons_some {ℓ} : {A : Type ℓ} → Option A → List A → List A
cons_some none as' = as'
cons_some (some a) as' = a ∷ as'

-- The results that are there, in order.
abbrev pub filter_map {ℓ₁ ℓ₂} : {A : Type ℓ₁} {B : Type ℓ₂} → (A → Option B) → List A → List B
filter_map f [] = []
filter_map f (x ∷ xs) = cons_some (f x) (filter_map f xs)

-- The first list in reverse, in front of the second.
abbrev pub onto {ℓ} : {A : Type ℓ} → List A → List A → List A
onto [] acc = acc
onto (x ∷ xs) acc = onto xs (x ∷ acc)

abbrev pub action_of : Node → Option PropertyAction
action_of (element name attributes children) =
    if str_eq name (codes "Action")
    then (do
      exec ← get_prop (codes "exec") attributes
      value ← get_prop (codes "value") attributes
      e ← new_exec exec
      some (record { value = value; exec = e }))
    else none
action_of _ = none

abbrev pub node_list : Nodes → List Node
node_list end = []
node_list (node n ns) = n ∷ node_list ns

module _ {Tree : Type 0} (boolstuff : BoolStuff Tree) where
  -- What an entry stands for, where it is an Insertion, a Removal or an OnInit.
  abbrev pub rule_of : Bytes → Entry → Option (Rule Tree)
  rule_of kind e =
      if str_eq e.name kind
      then (do exec ← get_prop (codes "exec") e.attributes; new_rule boolstuff e.match exec)
      else none

  abbrev pub condition_of : Entry → Option (Condition Tree)
  condition_of e =
      if str_eq e.name (codes "Condition")
      then (do
        exec ← get_prop (codes "exec") e.attributes
        name ← get_prop (codes "name") e.attributes
        new_condition boolstuff e.match exec name (get_prop (codes "value") e.attributes))
      else none

  abbrev pub property_of : Entry → Option (Property Tree)
  property_of e =
      if str_eq e.name (codes "Property")
      then (do
        name ← get_prop (codes "name") e.attributes
        p ← new_property boolstuff e.match name
        some (record p { action = onto (filter_map action_of (node_list e.children)) p.action }))
      else none

  -- The later of two configurations has the entries in front, the last one first.
  abbrev pub IsExtended : Config Tree → List Entry → Config Tree → Type 0
  IsExtended c es c' =
      (c'.insertion_root ≡ onto (filter_map (rule_of (codes "Insertion")) es) c.insertion_root)
      × (c'.removal_root ≡ onto (filter_map (rule_of (codes "Removal")) es) c.removal_root)
      × (c'.oninit_root ≡ onto (filter_map (rule_of (codes "OnInit")) es) c.oninit_root)
      × (c'.condition_root ≡ onto (filter_map condition_of es) c.condition_root)
      × (c'.property_root ≡ onto (filter_map property_of es) c.property_root)
