-- ===== src/Tests/Daemon.antt =====
-- The start of the daemon, the events after it, and a configuration file.
use gnu_halevt.Base.{
  Bool, true, false, List, [], ◌∷◌, ◌++◌, none, some, Bytes, codes, ◌≡◌, refl, str_eq, starts_with,
  strcat, strstr, traverse, decimal, skip_spaces, is_space, atoi,
}
use gnu_halevt.Devices.{Device, Devices, find_device, get_property}
use gnu_halevt.Config.{empty, add_insertion}
use gnu_halevt.Expr.{new_boolean_expression}
use gnu_halevt.Names.{hal_string, parse_property_name}
use gnu_halevt.Exec.{new_exec}
use gnu_halevt.Config.Xml.{Nodes, element, text_node, end, node, parse_config}
use gnu_halevt.Config.Spec.{entries, IsExtended}
use gnu_halevt.Config.Parse.{parse_config-IsExtended}
use gnu_halevt.Events.{
  device_removed, init_devices, startup, run_rules, run_properties, tree_holds, command_for,
}
use gnu_halevt.Events.Startup.{startup-init_devices}
use gnu_halevt.Events.Stale.{device_removed-startup}
use gnu_halevt.Events.Runs.{
  Decided, selected_commands, property_commands, run_rules-selected, run_properties-selected,
}
use gnu_halevt.Events.Sync.{with_udis}
use gnu_halevt.Tests.World.{
  Tree, boolstuff, floats, one_disk, no_disk, disk, volume, category, disk_device, config, rule,
  property_rule,
}

abbrev eject_disk : Bytes
eject_disk = codes "eject /disk"

init_disk :
    init_devices boolstuff floats one_disk config [] (disk ∷ [])
    ≡ some (disk_device ∷ [], eject_disk ∷ [])
unfolding init_devices strcat str_eq atoi
init_disk = refl

startup-init_devices_example :
    startup boolstuff floats one_disk config
    ≡ some ((disk_device ∷ []) ++ (disk_device ∷ []), (eject_disk ∷ []) ++ (eject_disk ∷ []))
startup-init_devices_example =
    startup-init_devices boolstuff floats one_disk config (disk ∷ []) (disk_device ∷ [])
      (eject_disk ∷ []) refl init_disk

abbrev two_disks : Devices
two_disks = disk_device ∷ disk_device ∷ []

found_disk : find_device disk two_disks ≡ some disk_device
unfolding find_device str_eq
found_disk = refl

disk_gone :
    device_removed boolstuff floats no_disk config two_disks disk
    ≡ some (disk_device ∷ [], eject_disk ∷ [])
unfolding device_removed strcat str_eq atoi get_property
disk_gone = refl

device_removed-startup_example : (e : Device) × (find_device disk (disk_device ∷ []) ≡ some e)
device_removed-startup_example =
    device_removed-startup boolstuff floats one_disk config no_disk disk two_disks
      (disk_device ∷ []) (eject_disk ∷ eject_disk ∷ []) (eject_disk ∷ []) disk_device
      startup-init_devices_example found_disk disk_gone

abbrev disk_set : List (Bytes × List Bytes)
disk_set = (category, volume ∷ []) ∷ []

-- The two walks of the start, and the removal of the disk behind them.
abbrev started : Bytes → Bool
started = with_udis (disk ∷ []) (with_udis (disk ∷ []) (λ u. false))

abbrev of_disk : Bytes → Bytes → Bool
of_disk u k = str_eq disk u

rule_Decided :
    Decided
      (tree_holds boolstuff floats one_disk [] disk rule.match (some disk) none)
      (command_for boolstuff floats one_disk [] disk rule.exec none)
      true
      eject_disk
unfolding tree_holds command_for str_eq strcat atoi
rule_Decided = record { decides = refl; fills = λ e. refl }

run_rules-selected_example :
    run_rules boolstuff floats one_disk [] disk (some disk) none (rule ∷ [])
    ≡ some (selected_commands (λ r. true) (λ r. eject_disk) (rule ∷ []))
run_rules-selected_example =
    run_rules-selected boolstuff floats one_disk [] disk (some disk) none (λ r. true)
      (λ r. eject_disk) (rule ∷ []) (rule_Decided, tt)

run_properties-selected_example :
    run_properties boolstuff floats one_disk [] disk category (property_rule ∷ [])
    ≡ some (
        property_commands boolstuff floats one_disk [] disk category
          (λ p. true)
          (λ a. eject_disk)
          (property_rule ∷ []))
run_properties-selected_example =
    run_properties-selected boolstuff floats one_disk [] disk category (λ p. true) (λ a. eject_disk)
      (property_rule ∷ []) ((rule_Decided.decides, (rule_Decided.fills refl, tt)), tt)

-- <Device match="hal.info.category = volume"><Insertion exec="eject $hal.udi$"/></Device>
abbrev document : Nodes
document = node text_node (
    node
      (element (codes "Device") ((codes "match", codes "hal.info.category = volume") ∷ [])
        (node (element (codes "Insertion") ((codes "exec", codes "eject $hal.udi$") ∷ []) end) end))
      end)

parse_config-IsExtended_example :
    IsExtended boolstuff
      (empty Tree)
      (entries document)
      (parse_config boolstuff
        (some (some (element (codes "Configuration") [] document)))
        (empty Tree)).0
    × ((parse_config boolstuff
          (some (some (element (codes "Configuration") [] document)))
          (empty Tree)).1
        ≡ true)
parse_config-IsExtended_example = parse_config-IsExtended boolstuff (empty Tree) [] document

parse_document :
    (parse_config boolstuff
      (some (some (element (codes "Configuration") [] document)))
      (empty Tree)).0
    ≡ record (empty Tree) { insertion_root = rule ∷ [] }
unfolding parse_config str_eq add_insertion new_boolean_expression is_space decimal strcat traverse
    strstr starts_with hal_string parse_property_name new_exec skip_spaces
parse_document = refl
