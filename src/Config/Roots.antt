-- ===== src/Config/Roots.antt =====
-- src/parse_config.c: the parse adds the valid elements of a document, and nothing else.
use gnu_halevt.Base.{
  List, [], ◌∷◌, ◌++◌, Option, Bytes, codes, str_eq, str_eq_iff, ◌≡◌, refl, sym, ap, ◌∙◌, inl, inr,
  Bool-cases,
}
use gnu_halevt.Expr.{BoolStuff}
use gnu_halevt.Config.{Config}
use gnu_halevt.Config.Xml.{Attributes, Nodes, or_same, named_element}
use gnu_halevt.Config.Spec.{Entry, filter_map, onto, rule_of, condition_of, property_of, IsExtended}
use gnu_halevt.Config.Actions.{onto-filter_map-append}
use gnu_halevt.Config.Put.{
  put_insertion-roots, put_removal-roots, put_oninit-roots, put_condition-roots, put_property-roots,
  insertion_element-put, removal_element-put, oninit_element-put, condition_element-put,
  property_element-put,
}

module _ {Tree : Type 0} (boolstuff : BoolStuff Tree) where
  pub IsExtended-trans :
      (c c' c'' : Config Tree) (es fs : List Entry)
      → IsExtended boolstuff c es c'
      → IsExtended boolstuff c' fs c''
      → IsExtended boolstuff c (es ++ fs) c''
  IsExtended-trans c c' c'' es fs (i, r, o, q, p) (i', r', o', q', p') = (
    more (rule_of boolstuff (codes "Insertion")) _ _ _ i i',
    more (rule_of boolstuff (codes "Removal")) _ _ _ r r',
    more (rule_of boolstuff (codes "OnInit")) _ _ _ o o',
    more (condition_of boolstuff) _ _ _ q q',
    more (property_of boolstuff) _ _ _ p p',
  )
    where
      more :
          {B : Type 0} (f : Entry → Option B) (b b' b'' : List B)
          → b' ≡ onto (filter_map f es) b
          → b'' ≡ onto (filter_map f fs) b'
          → b'' ≡ onto (filter_map f (es ++ fs)) b
      more f b b' b'' e e' =
          e' ∙ ap (onto (filter_map f fs)) e ∙ sym (onto-filter_map-append f es fs b)

  -- One element adds what it stands for to the list of its kind.
  pub named_element-IsExtended :
      (c : Config Tree) (match name : Bytes) (attributes : Attributes) (children : Nodes)
      → IsExtended boolstuff c
          (record { match = match; name = name; attributes = attributes; children = children } ∷ [])
          (or_same c (named_element boolstuff match c name attributes children))
  unfolding named_element str_eq
  named_element-IsExtended c match name attributes children =
      elim (Bool-cases (str_eq name (codes "Insertion"))) [
        | inl e ↦
            rw ((str_eq_iff name _).0 e, insertion_element-put boolstuff c match attributes)
              (put_insertion-roots boolstuff c _)
        | inr e₁ ↦ elim (Bool-cases (str_eq name (codes "Removal"))) [
          | inl e ↦
              rw ((str_eq_iff name _).0 e, removal_element-put boolstuff c match attributes)
                (put_removal-roots boolstuff c _)
          | inr e₂ ↦ elim (Bool-cases (str_eq name (codes "OnInit"))) [
            | inl e ↦
                rw ((str_eq_iff name _).0 e, oninit_element-put boolstuff c match attributes)
                  (put_oninit-roots boolstuff c _)
            | inr e₃ ↦ elim (Bool-cases (str_eq name (codes "Condition"))) [
              | inl e ↦
                  rw ((str_eq_iff name _).0 e, condition_element-put boolstuff c match attributes)
                    (put_condition-roots boolstuff c _)
              | inr e₄ ↦ elim (Bool-cases (str_eq name (codes "Property"))) [
                | inl e ↦
                    rw
                      (
                        (str_eq_iff name _).0 e,
                        property_element-put boolstuff c match attributes children,
                      )
                      (put_property-roots boolstuff c _)
                | inr e₅ ↦ unfold or_same in rw (e₁, e₂, e₃, e₄, e₅) (refl, refl, refl, refl, refl)
              ]
            ]
          ]
        ]
      ]
