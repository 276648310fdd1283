-- ===== src/Devices.antt =====
-- src/devices_list.c and src/devices_list.h: the list of devices, with their properties, that the
-- daemon keeps beside HAL. The linked lists are lists; an operation returns the new list.
pub mod Find
pub mod Keys
pub mod View
pub mod Added
pub mod Keyed
pub mod Print
use gnu_halevt.Base.{
  ℕ, zero, suc, Bool, true, false, List, [], ◌∷◌, Option, none, some, Bytes, str_eq, length,
  if◌then◌else◌, ◌>>=◌,
}

-- `halevt_device_property`; `values` ends at its first NULL.
pub record DeviceProperty : Type 0 where
  pub key : Bytes
  pub values : List Bytes

-- `halevt_device`
pub record Device : Type 0 where
  pub udi : Bytes
  pub properties : List DeviceProperty

-- `halevt_device_root` and what is linked to it.
abbrev pub Devices : Type 0
Devices = List Device

unfoldable pub find_device : Bytes → Devices → Option Device
find_device udi [] = none
find_device udi (device ∷ rest) =
    if str_eq device.udi udi then some device else find_device udi rest

unfoldable pub find_property : Bytes → List DeviceProperty → Option DeviceProperty
find_property key [] = none
find_property key (property ∷ rest) =
    if str_eq key property.key then some property else find_property key rest

unfoldable pub get_property : Bytes → Device → Option DeviceProperty
unfolding find_property
get_property key device = find_property key device.properties

-- One round for each property of the iterator, whose value is NULL where memory or HAL fails.
unfoldable pub add_properties :
    List DeviceProperty → List (Bytes × Option (List Bytes)) → Option (List DeviceProperty)
add_properties properties [] = some properties
add_properties properties ((key, none) ∷ rest) = none
add_properties properties ((key, some values) ∷ rest) =
    add_properties (record { key = key; values = values } ∷ properties) rest

unfoldable pub link_device : Devices → Bytes → Option (List DeviceProperty) → Devices
link_device root udi none = root
link_device root udi (some properties) = record { udi = udi; properties = properties } ∷ root

-- The property set is NULL where HAL has no such device. It is not asked whether the device is in
-- the list already.
unfoldable pub add_device : Devices → Bytes → Option (List (Bytes × Option (List Bytes))) → Devices
unfolding add_properties link_device
add_device root udi none = root
add_device root udi (some property_set) = link_device root udi (add_properties [] property_set)

-- The first device with that udi is taken out; the result says whether there was one.
unfoldable pub remove_device : Bytes → Devices → Devices × Bool
remove_device udi [] = ([], false)
remove_device udi (device ∷ rest) =
    let later = remove_device udi rest in
    if str_eq device.udi udi then (rest, true) else (device ∷ later.0, later.1)

-- A change of the device that `find_device` returns, where it stands.
unfoldable pub at_device : Bytes → (Device → Device) → Devices → Devices
at_device udi f [] = []
at_device udi f (device ∷ rest) =
    if str_eq device.udi udi then f device ∷ rest else device ∷ at_device udi f rest

unfoldable pub replace_values : Bytes → List Bytes → List DeviceProperty → List DeviceProperty
replace_values key values [] = []
replace_values key values (property ∷ rest) =
    if str_eq key property.key
    then record property { values = values } ∷ rest
    else property ∷ replace_values key values rest

-- The values of a property that is there are replaced; another is linked in front.
unfoldable pub put_found : Option DeviceProperty → Bytes → List Bytes → Device → Device
unfolding replace_values
put_found (some _) key values device = record device {
  properties = replace_values key values device.properties;
}
put_found none key values device = record device {
  properties = record { key = key; values = values } ∷ device.properties;
}

unfoldable pub put_property : Bytes → List Bytes → Device → Device
unfolding get_property put_found
put_property key values device = put_found (get_property key device) key values device

unfoldable pub set_found :
    Option Device → Option (List Bytes) → Bytes → Bytes → Devices → Devices × Bool
unfolding at_device put_property
set_found none values udi key root = (root, false)
set_found (some _) none udi key root = (root, false)
set_found (some _) (some vs) udi key root = (at_device udi (put_property key vs) root, true)

-- `values` is what HAL has for the property, asked only where the device is in the list.
unfoldable pub set_property : Bytes → Bytes → Option (List Bytes) → Devices → Devices × Bool
unfolding find_device set_found
set_property udi key values root = set_found (find_device udi root) values udi key root

-- The first property with that key is taken out.
unfoldable pub drop_property : Bytes → List DeviceProperty → List DeviceProperty × Bool
drop_property key [] = ([], false)
drop_property key (property ∷ rest) =
    let later = drop_property key rest in
    if str_eq property.key key then (rest, true) else (property ∷ later.0, later.1)

unfoldable pub without_property : Bytes → Device → Device
unfolding drop_property
without_property key device = record device { properties = (drop_property key device.properties).0 }

unfoldable pub remove_found : Option Device → Bytes → Bytes → Devices → Devices × Bool
unfolding at_device without_property
remove_found none udi key root = (root, false)
remove_found (some device) udi key root =
    (at_device udi (without_property key) root, (drop_property key device.properties).1)

unfoldable pub remove_property : Bytes → Bytes → Devices → Devices × Bool
unfolding find_device remove_found
remove_property udi key root = remove_found (find_device udi root) udi key root

unfoldable count_devices : Devices → ℕ
count_devices root = length root
