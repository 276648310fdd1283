-- ===== src/Events.antt =====
-- src/hal_interface.c: the callbacks that libhal calls, and the start of the daemon. A handler
-- gives the list of devices after the event and the commands that were spawned, in order. A
-- result `none` is a crash, or undefined behaviour, on the way.
pub mod Startup
pub mod Stale
pub mod Runs
pub mod Modified
pub mod Sync
use gnu_halevt.Base.{
  Bool, true, false, ◌&&◌, ◌||◌, List, [], ◌∷◌, ◌++◌, Option, none, some, Bytes, codes, str_eq,
  if◌then◌else◌, ◌>>=◌,
}
use gnu_halevt.Exec.{Exec}
use gnu_halevt.Expr.{BooleanExpression, BoolStuff}
use gnu_halevt.Devices.{
  Device, Devices, find_device, add_device, remove_device, set_property, remove_property,
}
use gnu_halevt.Hal.{Floats, Hal, HalValue, iterator_values, udi_property_value}
use gnu_halevt.Hal.Matching.{matches, property_matches_udi, property_name_value, star}
use gnu_halevt.Eval.{true_tree}
use gnu_halevt.Command.{run_command}
use gnu_halevt.Config.{Rule, Condition, PropertyAction, Property, Config}

-- What runs where a test says so, in front of what runs later.
unfoldable pub run_if : Option Bool → Option Bytes → Option (List Bytes) → Option (List Bytes)
run_if test command later = do
  b ← test
  elim b [ true ↦ command >>= λ s. later >>= λ ss. some (s ∷ ss) | false ↦ later ]

-- `a && b` where `b` may crash.
unfoldable pub and_then : Bool → Option Bool → Option Bool
and_then true b = b
and_then false b = some false

module _ {Double Tree : Type 0} (boolstuff : BoolStuff Tree) (floats : Floats Double)
    (hal : Hal Double) where
  module _ (root : Devices) (udi : Bytes) where
    -- `halevt_true_tree` and `halevt_run_command` for the device of the event.
    unfoldable pub tree_holds : BooleanExpression Tree → Option Bytes → Option Device → Option Bool
    unfolding true_tree matches
    tree_holds match by_udi device =
        true_tree boolstuff (λ m. matches floats hal root m by_udi device) match

    unfoldable pub command_for : Exec → Option Device → Option Bytes
    unfolding run_command property_name_value
    command_for exec device =
        run_command (λ p. property_name_value floats hal root p udi device) exec

    -- The loop over insertions, removals or actions on init.
    unfoldable pub run_rules : Option Bytes → Option Device → List (Rule Tree) → Option (List Bytes)
    unfolding run_if tree_holds command_for
    run_rules by_udi device [] = some []
    run_rules by_udi device (r ∷ rs) =
        run_if (tree_holds r.match by_udi device) (command_for r.exec device)
          (run_rules by_udi device rs)

    unfoldable pub run_conditions : Bytes → Bytes → List (Condition Tree) → Option (List Bytes)
    unfolding run_if tree_holds command_for and_then
    run_conditions condition_name condition_detail [] = some []
    run_conditions condition_name condition_detail (c ∷ cs) =
        run_if
          (and_then
            (str_eq c.name condition_name
              && elim c.value [ none ↦ true | some value ↦ str_eq value condition_detail ])
            (tree_holds c.match (some udi) none))
          (command_for c.exec none) (run_conditions condition_name condition_detail cs)

    unfoldable pub run_actions : Bytes → List PropertyAction → Option (List Bytes)
    unfolding run_if command_for property_matches_udi
    run_actions key [] = some []
    run_actions key (a ∷ as') =
        run_if
          (some (str_eq a.value star || property_matches_udi floats hal key (some a.value) udi))
          (command_for a.exec none) (run_actions key as')

    unfoldable pub run_properties : Bytes → List (Property Tree) → Option (List Bytes)
    unfolding run_actions tree_holds and_then
    run_properties key [] = some []
    run_properties key (p ∷ ps) = do
      selected ← and_then (str_eq p.name key) (tree_holds p.match (some udi) none)
      commands ← elim selected [ true ↦ run_actions key p.action | false ↦ some [] ]
      later ← run_properties key ps
      some (commands ++ later)

  -- What `halevt_device_list_add_device` asks HAL for.
  unfoldable pub property_set : Bytes → Option (List (Bytes × Option (List Bytes)))
  unfolding iterator_values
  property_set udi = do set ← hal.all_properties udi; some (iterator_values floats set)

  module _ (config : Config Tree) where
    unfoldable pub device_added : Devices → Bytes → Option (Devices × List Bytes)
    unfolding run_rules property_set add_device
    device_added root udi = do
      commands ← run_rules root udi (some udi) none config.insertion_root
      some (add_device root udi (property_set udi), commands)

    -- A device of the list is matched with the properties that it had there.
    unfoldable pub removed_found : Option Device → Devices → Bytes → Option (Devices × List Bytes)
    unfolding run_rules remove_device
    removed_found (some removed_device) root udi = do
      commands ← run_rules root udi none (some removed_device) config.removal_root
      some ((remove_device udi root).0, commands)
    removed_found none root udi = do
      commands ← run_rules root udi (some udi) none config.removal_root
      some (root, commands)

    unfoldable pub device_removed : Devices → Bytes → Option (Devices × List Bytes)
    unfolding removed_found find_device
    device_removed root udi = removed_found (find_device udi root) root udi

    unfoldable pub device_property_modified :
        Devices → Bytes → Bytes → Bool → Option (Devices × List Bytes)
    unfolding run_properties remove_property set_property udi_property_value
    device_property_modified root udi key is_removed = do
      commands ← run_properties root udi key config.property_root
      some (
        if is_removed
            then (remove_property udi key root).0
            else (set_property udi key (udi_property_value floats hal key udi) root).0,
        commands,
      )

    unfoldable pub device_condition :
        Devices → Bytes → Bytes → Bytes → Option (Devices × List Bytes)
    unfolding run_conditions
    device_condition root udi condition_name condition_detail = do
      commands ← run_conditions root udi condition_name condition_detail config.condition_root
      some (root, commands)

    -- The loop over all the devices of HAL at the start.
    unfoldable pub init_devices : Devices → List Bytes → Option (Devices × List Bytes)
    unfolding run_rules property_set add_device
    init_devices root [] = some (root, [])
    init_devices root (udi ∷ udis) = do
      commands ← run_rules root udi (some udi) none config.oninit_root
      later ← init_devices (add_device root udi (property_set udi)) udis
      some (later.0, commands ++ later.1)

    unfoldable pub init_all : Option (List Bytes) → Devices → Option (Devices × List Bytes)
    unfolding init_devices
    init_all none root = some (root, [])
    init_all (some all_udi) root = init_devices root all_udi

    unfoldable pub run_oninit : Devices → Option (Devices × List Bytes)
    unfolding init_all
    run_oninit root = init_all hal.all_devices root

    -- The part of `halevt_setup_HAL` behind the connection to HAL.
    unfoldable pub setup_hal_devices : Devices → Option (Devices × List Bytes)
    unfolding init_all
    setup_hal_devices root = init_all hal.all_devices root

    -- The two calls of `main` before its loop, from the empty list.
    unfoldable pub startup : Option (Devices × List Bytes)
    unfolding run_oninit setup_hal_devices
    startup = do
      first ← setup_hal_devices []
      second ← run_oninit first.0
      some (second.0, first.1 ++ second.1)
