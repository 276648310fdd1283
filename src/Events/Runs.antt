-- ===== src/Events/Runs.antt =====
-- src/hal_interface.c: which commands a callback spawns, and in which order.
use gnu_halevt.Base.{
  Bool, true, false, ◌&&◌, ◌||◌, List, [], ◌∷◌, ◌++◌, Option, none, some, Bytes, ◌≡◌, refl, All,
  str_eq, ◌>>=◌, if◌then◌else◌,
}
use gnu_halevt.Expr.{BoolStuff}
use gnu_halevt.Devices.{Device, Devices}
use gnu_halevt.Hal.{Floats, Hal}
use gnu_halevt.Hal.Matching.{property_matches_udi, star}
use gnu_halevt.Config.{Rule, Condition, PropertyAction, Property}
use gnu_halevt.Events.{
  run_if, and_then, tree_holds, command_for, run_rules, run_conditions, run_actions, run_properties,
}

-- The commands of the entries that are selected, in the order of the list.
abbrev pub selected_commands : {A : Type 0} → (A → Bool) → (A → Bytes) → List A → List Bytes
selected_commands holds command [] = []
selected_commands holds command (x ∷ xs) =
    let rest = selected_commands holds command xs in if holds x then command x ∷ rest else rest

-- The test of an entry is decided, and where it holds the command can be filled in.
pub record Decided (test : Option Bool) (filled : Option Bytes) (holds : Bool) (command : Bytes)
    : Type 0 where
  pub decides : test ≡ some holds
  pub fills : holds ≡ true → filled ≡ some command

run_if-Decided :
    (test : Option Bool) (filled : Option Bytes) (holds : Bool) (command : Bytes)
    (later : Option (List Bytes)) (rest : List Bytes)
    → Decided test filled holds command
    → later ≡ some rest
    → run_if test filled later ≡ some (if holds then command ∷ rest else rest)
unfolding run_if
run_if-Decided test filled true command later rest d e = rw (d.decides, d.fills refl, e) refl
run_if-Decided test filled false command later rest d e = rw (d.decides, e) refl

module _ {Double Tree : Type 0} (boolstuff : BoolStuff Tree) (floats : Floats Double)
    (hal : Hal Double) (root : Devices) (udi : Bytes) where
  -- Insertions, removals and actions on init: where every tree is decided, and the command of each
  -- rule that holds can be filled in, the commands of the rules that hold are spawned, in the order
  -- of the list.
  pub run_rules-selected :
      (by_udi : Option Bytes) (device : Option Device) (holds : Rule Tree → Bool)
      (command : Rule Tree → Bytes) (rs : List (Rule Tree))
      → All
          (λ r.
            Decided
              (tree_holds boolstuff floats hal root udi r.match by_udi device)
              (command_for boolstuff floats hal root udi r.exec device)
              (holds r)
              (command r))
          rs
      → run_rules boolstuff floats hal root udi by_udi device rs
        ≡ some (selected_commands holds command rs)
  unfolding run_rules
  run_rules-selected by_udi device holds command [] a = refl
  run_rules-selected by_udi device holds command (r ∷ rs) a =
      run_if-Decided _ _ (holds r) (command r) _ _ a.0
        (run_rules-selected by_udi device holds command rs a.1)

  -- Conditions: the name of the condition, its detail where the entry has a value, and the tree.
  abbrev pub announces : Bytes → Bytes → Condition Tree → Bool
  announces condition_name condition_detail c =
      str_eq c.name condition_name
      && elim c.value [ none ↦ true | some value ↦ str_eq value condition_detail ]

  -- Where every tree is decided, and the command of each entry that holds can be filled in, a
  -- condition spawns the commands of the entries with its name, its detail or no value, and a tree
  -- that holds, in the order of the list.
  pub run_conditions-selected :
      (condition_name condition_detail : Bytes) (holds : Condition Tree → Bool)
      (command : Condition Tree → Bytes) (cs : List (Condition Tree))
      → All
          (λ c.
            Decided
              (tree_holds boolstuff floats hal root udi c.match (some udi) none)
              (command_for boolstuff floats hal root udi c.exec none)
              (holds c)
              (command c))
          cs
      → run_conditions boolstuff floats hal root udi condition_name condition_detail cs
        ≡ some (
            selected_commands
              (λ c. announces condition_name condition_detail c && holds c)
              command
              cs)
  unfolding run_conditions
  run_conditions-selected name detail holds command [] a = refl
  run_conditions-selected name detail holds command (c ∷ cs) a =
      run_if-Decided _ _ (announces name detail c && holds c) (command c) _ _
        (both (announces name detail c) _ _ (holds c) (command c) a.0)
        (run_conditions-selected name detail holds command cs a.1)
    where
      both :
          (b : Bool) (test : Option Bool) (filled : Option Bytes) (h : Bool) (s : Bytes)
          → Decided test filled h s
          → Decided (and_then b test) filled (b && h) s
      both true test filled h s d =
          unfold and_then in record { decides = d.decides; fills = d.fills }
      both false test filled h s d =
          unfold and_then in record { decides = refl; fills = λ e. absurd cc }

  -- The actions of a property: the value is "*", or the one that the property now has.
  abbrev fires : Bytes → PropertyAction → Bool
  fires key a = str_eq a.value star || property_matches_udi floats hal key (some a.value) udi

  run_actions-selected :
      (key : Bytes) (command : PropertyAction → Bytes) (as' : List PropertyAction)
      → All (λ a. command_for boolstuff floats hal root udi a.exec none ≡ some (command a)) as'
      → run_actions boolstuff floats hal root udi key as'
        ≡ some (selected_commands (fires key) command as')
  unfolding run_actions
  run_actions-selected key command [] h = refl
  run_actions-selected key command (a ∷ as') h =
      run_if-Decided _ _ (fires key a) (command a) _ _ (record { decides = refl; fills = λ e. h.0 })
        (run_actions-selected key command as' h.1)

  -- All the actions that fire, of the properties with that name whose tree holds.
  abbrev pub property_commands :
      Bytes → (Property Tree → Bool) → (PropertyAction → Bytes) → List (Property Tree) → List Bytes
  property_commands key holds command [] = []
  property_commands key holds command (p ∷ ps) =
      let rest = property_commands key holds command ps in
      if str_eq p.name key && holds p
      then selected_commands (fires key) command p.action ++ rest
      else rest

  -- Where every tree is decided, and every command can be filled in, a modified property spawns the
  -- commands of the actions that fire, of the entries with its name whose tree holds, in order.
  pub run_properties-selected :
      (key : Bytes) (holds : Property Tree → Bool) (command : PropertyAction → Bytes)
      (ps : List (Property Tree))
      → All
          (λ p.
            (tree_holds boolstuff floats hal root udi p.match (some udi) none ≡ some (holds p))
            × All
                (λ a. command_for boolstuff floats hal root udi a.exec none ≡ some (command a))
                p.action)
          ps
      → run_properties boolstuff floats hal root udi key ps
        ≡ some (property_commands key holds command ps)
  unfolding run_properties
  run_properties-selected key holds command [] h = refl
  run_properties-selected key holds command (p ∷ ps) h =
      one (str_eq p.name key) _ (holds p) _ _ _ _ h.0.0
        (run_actions-selected key command p.action h.0.1)
        (run_properties-selected key holds command ps h.1)
    where
      one :
          (b : Bool) (test : Option Bool) (t : Bool) (o later : Option (List Bytes))
          (x y : List Bytes)
          → test ≡ some t
          → o ≡ some x
          → later ≡ some y
          → ◌≡◌ {A = Option (List Bytes)}
              (and_then b test >>= λ s.
                elim s [ true ↦ o | false ↦ some [] ] >>= λ c. later >>= λ l. some (c ++ l))
              (some (if b && t then x ++ y else y))
      one true test true o later x y e f g = unfold and_then in rw (e, f, g) refl
      one true test false o later x y e f g = unfold and_then in rw (e, g) refl
      one false test t o later x y e f g = unfold and_then in rw g refl
