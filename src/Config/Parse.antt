-- ===== src/Config/Parse.antt =====
-- src/parse_config.c: `halevt_parse_config` for a whole document.
use gnu_halevt.Base.{
  true, false, [], ◌∷◌, Option, none, some, Bytes, codes, str_eq, str_eq_iff, ◌≡◌, ◌≢◌, refl, ap,
  inl, inr, Bool-cases,
}
use gnu_halevt.Expr.{BoolStuff}
use gnu_halevt.Config.{Config}
use gnu_halevt.Config.Xml.{
  Attributes, Node, Nodes, text_node, comment_node, element, end, node, get_prop, child_node,
  child_nodes, matched_children, device_node, device_nodes, parse_config,
}
use gnu_halevt.Config.Spec.{child_entries, matched_entries, device_entries, entries, IsExtended}
use gnu_halevt.Config.Roots.{IsExtended-trans, named_element-IsExtended}

module _ {Tree : Type 0} (boolstuff : BoolStuff Tree) where
  child_nodes-IsExtended :
      (c : Config Tree) (match : Bytes) (ns : Nodes)
      → IsExtended boolstuff c (child_entries match ns) (child_nodes boolstuff match c ns)
  unfolding child_nodes child_node
  child_nodes-IsExtended c match end = (refl, refl, refl, refl, refl)
  child_nodes-IsExtended c match (node text_node ns) = child_nodes-IsExtended c match ns
  child_nodes-IsExtended c match (node comment_node ns) = child_nodes-IsExtended c match ns
  child_nodes-IsExtended c match (node (element name attributes children) ns) =
      let c' = child_node boolstuff match c (element name attributes children) in
      IsExtended-trans boolstuff c c' _
        (record { match = match; name = name; attributes = attributes; children = children } ∷ [])
        (child_entries match ns)
        (named_element-IsExtended boolstuff c match name attributes children)
        (child_nodes-IsExtended c' match ns)

  matched_children-IsExtended :
      (c : Config Tree) (match : Option Bytes) (ns : Nodes)
      → IsExtended boolstuff c (matched_entries match ns) (matched_children boolstuff match c ns)
  unfolding matched_children
  matched_children-IsExtended c none ns = (refl, refl, refl, refl, refl)
  matched_children-IsExtended c (some match) ns = child_nodes-IsExtended c match ns

  device_node-IsExtended :
      (c : Config Tree) (n : Node)
      → IsExtended boolstuff c (device_entries n) (device_node boolstuff c n)
  unfolding device_node
  device_node-IsExtended c text_node = (refl, refl, refl, refl, refl)
  device_node-IsExtended c comment_node = (refl, refl, refl, refl, refl)
  device_node-IsExtended c (element name attributes children) =
      elim (Bool-cases (str_eq name (codes "Device"))) [
        | inl e ↦
            rw e (matched_children-IsExtended c (get_prop (codes "match") attributes) children)
        | inr e ↦ rw e (refl, refl, refl, refl, refl)
      ]

  device_nodes-IsExtended :
      (c : Config Tree) (ns : Nodes)
      → IsExtended boolstuff c (entries ns) (device_nodes boolstuff c ns)
  unfolding device_nodes
  device_nodes-IsExtended c end = (refl, refl, refl, refl, refl)
  device_nodes-IsExtended c (node n ns) =
      IsExtended-trans boolstuff c (device_node boolstuff c n) _ (device_entries n) (entries ns)
        (device_node-IsExtended c n) (device_nodes-IsExtended (device_node boolstuff c n) ns)

  -- Where the root element is a Configuration the parse gives 1, and each of the five lists has
  -- gained what the elements of the document stand for, the last element first; an element that
  -- is not valid, by its name, an attribute, its match or its command, is passed over.
  pub parse_config-IsExtended :
      (c : Config Tree) (attributes : Attributes) (ns : Nodes)
      → let parsed =
          parse_config boolstuff (some (some (element (codes "Configuration") attributes ns))) c in
        IsExtended boolstuff c (entries ns) parsed.0 × (parsed.1 ≡ true)
  unfolding parse_config str_eq
  parse_config-IsExtended c attributes ns = (device_nodes-IsExtended c ns, refl)

  -- Any other document leaves the configuration as it was, and gives 0.
  pub parse_config_refused :
      (c : Config Tree) (document : Option (Option Node))
      → ((attributes : Attributes) (ns : Nodes)
          → document ≢ some (some (element (codes "Configuration") attributes ns)))
      → parse_config boolstuff document c ≡ (c, false)
  unfolding parse_config
  parse_config_refused c none other = refl
  parse_config_refused c (some none) other = refl
  parse_config_refused c (some (some text_node)) other = refl
  parse_config_refused c (some (some comment_node)) other = refl
  parse_config_refused c (some (some (element name attributes ns))) other =
      elim (Bool-cases (str_eq name (codes "Configuration"))) [
        | inl e ↦ absurd (
            other attributes ns
              (ap (λ y. some (some (element y attributes ns))) ((str_eq_iff name _).0 e)))
        | inr e ↦ rw e refl
      ]
