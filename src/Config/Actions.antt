-- ===== src/Config/Actions.antt =====
-- src/parse_config.c: the actions of a property, and lists that are built from their end.
use gnu_halevt.Base.{
  List, [], ◌∷◌, ◌++◌, Option, none, some, Bytes, codes, str_eq, ◌≡◌, refl, sym, ap, ◌∙◌, inl, inr,
  Bool-cases, ◌>>=◌,
}
use gnu_halevt.Exec.{Exec, new_exec}
use gnu_halevt.Config.{PropertyAction, Property, add_property_value}
use gnu_halevt.Config.Xml.{
  Node, Nodes, text_node, comment_node, element, end, node, get_prop, or_same, action_element,
  action_node, action_nodes,
}
use gnu_halevt.Config.Spec.{cons_some, filter_map, onto, action_of, node_list}

onto-cons_some :
    {A : Type 0} (o : Option A) (xs acc : List A)
    → onto (cons_some o xs) acc ≡ onto xs (cons_some o acc)
onto-cons_some none xs acc = refl
onto-cons_some (some a) xs acc = refl

pub onto-filter_map-append :
    {A B : Type 0} (f : A → Option B) (xs ys : List A) (acc : List B)
    → onto (filter_map f (xs ++ ys)) acc ≡ onto (filter_map f ys) (onto (filter_map f xs) acc)
onto-filter_map-append f [] ys acc = refl
onto-filter_map-append f (x ∷ xs) ys acc =
    onto-cons_some (f x) (filter_map f (xs ++ ys)) acc
    ∙ onto-filter_map-append f xs ys (cons_some (f x) acc)
    ∙ ap (onto (filter_map f ys)) (sym (onto-cons_some (f x) (filter_map f xs) acc))

module _ {Tree : Type 0} where
  abbrev pub with_action : Property Tree → List PropertyAction → Property Tree
  with_action p as' = record p { action = as' }

  put_action :
      (p : Property Tree) (exec value : Option Bytes)
      → or_same p (exec >>= λ x. value >>= λ v. add_property_value p x v)
        ≡ with_action p (
            cons_some
              (exec >>= λ x.
                value >>= λ v. new_exec x >>= λ e. some (record { value = v; exec = e }))
              p.action)
  unfolding or_same
  put_action p none value = refl
  put_action p (some x) none = refl
  put_action p (some x) (some v) = unfold add_property_value in go (new_exec x)
    where
      go :
          (o : Option Exec)
          → ◌≡◌ {A = Property Tree}
              (or_same p
                (o >>= λ e. some (with_action p (record { value = v; exec = e } ∷ p.action))))
              (with_action p
                (cons_some (o >>= λ e. some (record { value = v; exec = e })) p.action))
      go none = refl
      go (some e) = refl

  action_node-cons_some :
      (p : Property Tree) (n : Node)
      → action_node p n ≡ with_action p (cons_some (action_of n) p.action)
  unfolding action_node action_element
  action_node-cons_some p text_node = refl
  action_node-cons_some p comment_node = refl
  action_node-cons_some p (element name attributes children) =
      elim (Bool-cases (str_eq name (codes "Action"))) [
        | inl e ↦ rw e (
            put_action p (get_prop (codes "exec") attributes) (get_prop (codes "value") attributes))
        | inr e ↦ rw e refl
      ]

  -- The actions of a property, added one by one.
  pub action_nodes-onto :
      (p : Property Tree) (ns : Nodes)
      → action_nodes p ns ≡ with_action p (onto (filter_map action_of (node_list ns)) p.action)
  unfolding action_nodes
  action_nodes-onto p end = refl
  action_nodes-onto p (node n ns) =
      action_nodes-onto (action_node p n) ns
      ∙ ap
          (λ (q : Property Tree).
            with_action q (onto (filter_map action_of (node_list ns)) q.action))
          (action_node-cons_some p n)
      ∙ ap (with_action p)
          (sym (onto-cons_some (action_of n) (filter_map action_of (node_list ns)) p.action))
