-- ===== src/Tests/Lists.antt =====
-- The list of devices, and matches against it and against HAL.
use gnu_halevt.Base.{
  true, false, ◌&&◌, List, [], ◌∷◌, none, some, Bytes, codes, ◌≡◌, refl, arith, str_eq, decimal,
  if◌then◌else◌,
}
use gnu_halevt.Devices.{
  Device, Devices, find_device, find_property, get_property, add_device, remove_device,
  set_property, remove_property,
}
use gnu_halevt.Devices.Find.{values_of}
use gnu_halevt.Devices.Keys.{IsValid}
use gnu_halevt.Devices.View.{
  value, value-set_property, is_there, value-remove_property, find_device-remove_device,
}
use gnu_halevt.Devices.Added.{lookup_last, all_some, value-add_device}
use gnu_halevt.Hal.{udi_property_value}
use gnu_halevt.Hal.Matching.{property_matches_udi, property_matches_device}
use gnu_halevt.Hal.Cached.{plain_string, property_matches_device-property_matches_udi}
use gnu_halevt.Hal.Uint.{property_matches_udi_uint64}
use gnu_halevt.Tests.World.{floats, one_disk, hal_sizes, disk, volume, category, disk_device}

abbrev cdrom : Device
cdrom = record {
  udi = codes "/cdrom";
  properties = record { key = category; values = codes "storage" ∷ [] } ∷ [];
}

abbrev two : Devices
two = cdrom ∷ disk_device ∷ []

two-IsValid : IsValid two
unfolding find_device find_property str_eq
two-IsValid = (refl, (refl, tt), (refl, (refl, tt), tt))

disk_found : find_device disk two ≡ some disk_device
unfolding find_device str_eq
disk_found = refl

abbrev mounted : Bytes
mounted = codes "mounted"

disk_is_set : is_there (find_device disk two) && is_there (some (volume ∷ [])) ≡ true
unfolding find_device str_eq
disk_is_set = refl

value-set_property_example :
    (value (set_property disk mounted (some (volume ∷ [])) two).0 disk category ≡ (
      if (is_there (find_device disk two) && true) && (str_eq disk disk && str_eq mounted category)
      then some (volume ∷ [])
      else value two disk category))
    × ((set_property disk mounted (some (volume ∷ [])) two).1
        ≡ (is_there (find_device disk two) && true))
    × ((set_property disk mounted (some (volume ∷ [])) two).0 ≡ (
        if is_there (find_device disk two) && true
        then (set_property disk mounted (some (volume ∷ [])) two).0
        else two))
value-set_property_example = value-set_property disk mounted disk category (some (volume ∷ [])) two

value-remove_property_example :
    value (remove_property disk category two).0 disk category
    ≡ (if str_eq disk disk && str_eq category category then none else value two disk category)
value-remove_property_example =
    value-remove_property disk category disk category two disk_device two-IsValid disk_found

find_device-remove_device_example :
    (find_device (codes "/cdrom") (remove_device disk two).0
      ≡ (if str_eq disk (codes "/cdrom") then none else find_device (codes "/cdrom") two))
    × ((remove_device disk two).1 ≡ is_there (find_device disk two))
find_device-remove_device_example = find_device-remove_device disk (codes "/cdrom") two two-IsValid

abbrev usb_set : List (Bytes × List Bytes)
usb_set = (category, volume ∷ []) ∷ (mounted, codes "true" ∷ []) ∷ []

value-add_device_example :
    value (add_device two (codes "/usb") (some (all_some usb_set))) (codes "/usb") mounted ≡ (
      if str_eq (codes "/usb") (codes "/usb")
      then lookup_last mounted usb_set none
      else value two (codes "/usb") mounted)
value-add_device_example = value-add_device two (codes "/usb") (codes "/usb") mounted usb_set

keys_differ : str_eq mounted category ≡ false
unfolding str_eq
keys_differ = refl

nothing_there : find_device (codes "/usb") [] ≡ none
unfolding find_device
nothing_there = refl

abbrev usb_added : Devices
usb_added = add_device [] (codes "/usb") (some (all_some usb_set))

disk_mirrors :
    values_of (get_property category disk_device) ≡ udi_property_value floats one_disk category disk
unfolding get_property udi_property_value str_eq
disk_mirrors = refl

property_matches_device-property_matches_udi_example :
    property_matches_device category (some volume) disk_device
    ≡ property_matches_udi floats one_disk category (some volume) disk
property_matches_device-property_matches_udi_example =
    property_matches_device-property_matches_udi floats one_disk category volume disk disk_device
      disk_mirrors (plain_string volume)

abbrev sized : Device
sized = record {
  udi = disk;
  properties = record { key = codes "size"; values = codes "7" ∷ [] } ∷ [];
}

sized_mirrors :
    values_of (get_property (codes "size") sized)
    ≡ udi_property_value floats hal_sizes (codes "size") disk
unfolding get_property udi_property_value str_eq decimal
sized_mirrors = refl

property_matches_udi_uint64_example :
    (property_matches_udi floats hal_sizes (codes "size") (some (decimal 7)) disk ≡ false)
    × (property_matches_device (codes "size") (some (decimal 7)) sized ≡ true)
property_matches_udi_uint64_example =
    property_matches_udi_uint64 floats hal_sizes (codes "size") disk 7 sized refl refl refl refl
      (omega arith) sized_mirrors
