-- ===== src/Config/Xml.antt =====
-- src/parse_config.c: `halevt_parse_config` over the document that libxml2 has read.
use gnu_halevt.Base.{
  Bool, true, false, List, [], ◌∷◌, Option, none, some, Bytes, codes, str_eq, if◌then◌else◌, ◌>>=◌,
}
use gnu_halevt.Expr.{BoolStuff}
use gnu_halevt.Config.{
  Config, Property, add_insertion, add_removal, add_oninit, add_condition, add_property,
  add_property_value,
}

abbrev pub Attributes : Type 0
Attributes = List (Bytes × Bytes)

-- The nodes that the parse tells apart; `element` is any node that is no text and no comment.
mutual
  pub data Node : Type 0 where
    text_node : Node
    comment_node : Node
    element : Bytes → Attributes → Nodes → Node

  pub data Nodes : Type 0 where
    end : Nodes
    node : Node → Nodes → Nodes

-- `xmlGetProp`
unfoldable pub get_prop : Bytes → Attributes → Option Bytes
get_prop name [] = none
get_prop name ((key, value) ∷ rest) = if str_eq key name then some value else get_prop name rest

-- An addition that fails gives a warning and changes nothing.
unfoldable pub or_same {ℓ} : {A : Type ℓ} → A → Option A → A
or_same a none = a
or_same a (some b) = b

module _ {Tree : Type 0} where
  -- A value of the attribute `exec` and of `value` makes an action; without both there is none.
  unfoldable pub action_element : Property Tree → Attributes → Option (Property Tree)
  action_element property attributes = do
    exec ← get_prop (codes "exec") attributes
    value ← get_prop (codes "value") attributes
    add_property_value property exec value

  unfoldable pub action_node : Property Tree → Node → Property Tree
  unfolding action_element get_prop or_same
  action_node property text_node = property
  action_node property comment_node = property
  action_node property (element name attributes children) =
      if str_eq name (codes "Action")
      then or_same property (action_element property attributes)
      else property

  unfoldable pub action_nodes : Property Tree → Nodes → Property Tree
  unfolding action_node
  action_nodes property end = property
  action_nodes property (node n ns) = action_nodes (action_node property n) ns

  -- The property that was added last is the first of its list.
  unfoldable pub newest :
      (Property Tree → Property Tree) → List (Property Tree) → List (Property Tree)
  newest f [] = []
  newest f (p ∷ ps) = f p ∷ ps

module _ {Tree : Type 0} (boolstuff : BoolStuff Tree) (match : Bytes) where
  unfoldable pub insertion_element : Config Tree → Attributes → Option (Config Tree)
  insertion_element c attributes = do
    exec ← get_prop (codes "exec") attributes
    add_insertion boolstuff c match exec

  unfoldable pub removal_element : Config Tree → Attributes → Option (Config Tree)
  removal_element c attributes = do
    exec ← get_prop (codes "exec") attributes
    add_removal boolstuff c match exec

  unfoldable pub oninit_element : Config Tree → Attributes → Option (Config Tree)
  oninit_element c attributes = do
    exec ← get_prop (codes "exec") attributes
    add_oninit boolstuff c match exec

  unfoldable pub condition_element : Config Tree → Attributes → Option (Config Tree)
  condition_element c attributes = do
    exec ← get_prop (codes "exec") attributes
    name ← get_prop (codes "name") attributes
    add_condition boolstuff c match exec name (get_prop (codes "value") attributes)

  unfoldable pub property_element : Config Tree → Attributes → Nodes → Option (Config Tree)
  unfolding action_nodes newest
  property_element c attributes children = do
    name ← get_prop (codes "name") attributes
    c' ← add_property boolstuff c match name
    some (record c' { property_root = newest (λ p. action_nodes p children) c'.property_root })

  -- The ladder of element names in a Device; `none` is a warning.
  unfoldable pub named_element : Config Tree → Bytes → Attributes → Nodes → Option (Config Tree)
  unfolding insertion_element removal_element oninit_element condition_element property_element
      get_prop
  named_element c name attributes children =
      if str_eq name (codes "Insertion")
      then insertion_element c attributes
      else if str_eq name (codes "Removal")
      then removal_element c attributes
      else if str_eq name (codes "OnInit")
      then oninit_element c attributes
      else if str_eq name (codes "Condition")
      then condition_element c attributes
      else if str_eq name (codes "Property")
      then property_element c attributes children
      else none

  unfoldable pub child_node : Config Tree → Node → Config Tree
  unfolding named_element or_same
  child_node c text_node = c
  child_node c comment_node = c
  child_node c (element name attributes children) =
      or_same c (named_element c name attributes children)

  unfoldable pub child_nodes : Config Tree → Nodes → Config Tree
  unfolding child_node
  child_nodes c end = c
  child_nodes c (node n ns) = child_nodes (child_node c n) ns

module _ {Tree : Type 0} (boolstuff : BoolStuff Tree) where
  unfoldable pub matched_children : Option Bytes → Config Tree → Nodes → Config Tree
  unfolding child_nodes
  matched_children none c children = c
  matched_children (some match) c children = child_nodes boolstuff match c children

  unfoldable pub device_node : Config Tree → Node → Config Tree
  unfolding matched_children get_prop
  device_node c text_node = c
  device_node c comment_node = c
  device_node c (element name attributes children) =
      if str_eq name (codes "Device")
      then matched_children (get_prop (codes "match") attributes) c children
      else c

  unfoldable pub device_nodes : Config Tree → Nodes → Config Tree
  unfolding device_node
  device_nodes c end = c
  device_nodes c (node n ns) = device_nodes (device_node c n) ns

  -- The document is NULL where the file could not be parsed, its root where it is empty. The
  -- result is 0 in these cases, and where the root has another name.
  unfoldable pub parse_config : Option (Option Node) → Config Tree → Config Tree × Bool
  unfolding device_nodes
  parse_config (some (some (element name attributes children))) c =
      if str_eq name (codes "Configuration") then (device_nodes c children, true) else (c, false)
  parse_config _ c = (c, false)
