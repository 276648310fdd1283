-- ===== src/Config.antt =====
-- src/parse_config.c and src/parse_config.h: the configuration that the handlers of events read,
-- and the functions that add to it. Each linked list has its newest element in front.
pub mod Xml
pub mod Spec
pub mod Actions
pub mod Put
pub mod Roots
pub mod Parse
pub mod Print
use gnu_halevt.Base.{Bool, List, [], ◌∷◌, Option, none, some, Bytes, ◌>>=◌}
use gnu_halevt.Names.{hal_string}
use gnu_halevt.Exec.{Exec, new_exec}
use gnu_halevt.Expr.{BooleanExpression, BoolStuff, new_boolean_expression}

module _ (Tree : Type 0) where
  -- `halevt_insertion`, `halevt_removal` and `halevt_oninit` have the same fields.
  pub record Rule : Type 0 where
    pub exec : Exec
    pub match : BooleanExpression Tree

  -- `halevt_condition`; a NULL value stands for every value.
  pub record Condition : Type 0 where
    pub name : Bytes
    pub value : Option Bytes
    pub exec : Exec
    pub match : BooleanExpression Tree

-- `halevt_property_action`
pub record PropertyAction : Type 0 where
  pub value : Bytes
  pub exec : Exec

module _ (Tree : Type 0) where
  -- `halevt_property`
  pub record Property : Type 0 where
    pub name : Bytes
    pub match : BooleanExpression Tree
    pub action : List PropertyAction

  -- The five roots.
  pub record Config : Type 0 where
    pub property_root : List Property
    pub insertion_root : List (Rule Tree)
    pub removal_root : List (Rule Tree)
    pub condition_root : List (Condition Tree)
    pub oninit_root : List (Rule Tree)

abbrev pub empty : (Tree : Type 0) → Config Tree
empty Tree = record {
  property_root = [];
  insertion_root = [];
  removal_root = [];
  condition_root = [];
  oninit_root = [];
}

-- `add_property_value`: an action goes in front of those that the property has. `none` is NULL.
unfoldable pub add_property_value :
    {Tree : Type 0} → Property Tree → Bytes → Bytes → Option (Property Tree)
add_property_value property exec value = do
  e ← new_exec exec
  some (record property { action = record { value = value; exec = e } ∷ property.action })

module _ {Tree : Type 0} (boolstuff : BoolStuff Tree) where
  -- What `add_insertion`, `add_removal` and `add_oninit` allocate; `none` is NULL.
  unfoldable pub new_rule : Bytes → Bytes → Option (Rule Tree)
  new_rule match exec = do
    m ← new_boolean_expression boolstuff match
    e ← new_exec exec
    some (record { exec = e; match = m })

  unfoldable pub add_insertion : Config Tree → Bytes → Bytes → Option (Config Tree)
  unfolding new_rule
  add_insertion c match exec = do
    new_insertion ← new_rule match exec
    some (record c { insertion_root = new_insertion ∷ c.insertion_root })

  unfoldable pub add_oninit : Config Tree → Bytes → Bytes → Option (Config Tree)
  unfolding new_rule
  add_oninit c match exec = do
    new_oninit ← new_rule match exec
    some (record c { oninit_root = new_oninit ∷ c.oninit_root })

  unfoldable pub add_removal : Config Tree → Bytes → Bytes → Option (Config Tree)
  unfolding new_rule
  add_removal c match exec = do
    new_removal ← new_rule match exec
    some (record c { removal_root = new_removal ∷ c.removal_root })

  unfoldable pub new_condition : Bytes → Bytes → Bytes → Option Bytes → Option (Condition Tree)
  new_condition match exec name value = do
    m ← new_boolean_expression boolstuff match
    e ← new_exec exec
    some (record { name = name; value = value; exec = e; match = m })

  unfoldable pub add_condition :
      Config Tree → Bytes → Bytes → Bytes → Option Bytes → Option (Config Tree)
  unfolding new_condition
  add_condition c match exec name value = do
    condition ← new_condition match exec name value
    some (record c { condition_root = condition ∷ c.condition_root })

  unfoldable pub new_property : Bytes → Bytes → Option (Property Tree)
  new_property match name = do
    hal_property_name ← hal_string name
    m ← new_boolean_expression boolstuff match
    some (record { name = hal_property_name; match = m; action = [] })

  unfoldable pub add_property : Config Tree → Bytes → Bytes → Option (Config Tree)
  unfolding new_property
  add_property c match name = do
    property ← new_property match name
    some (record c { property_root = property ∷ c.property_root })
