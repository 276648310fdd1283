-- ===== src/Devices/Find.antt =====
-- What is found in the list of devices after each of its operations.
use gnu_halevt.Base.{
  List, [], ◌∷◌, Option, none, some, Bytes, ◌≡◌, refl, arith, str_eq, str_eq_iff, if◌then◌else◌,
}
use gnu_halevt.Devices.{
  DeviceProperty, Device, Devices, find_device, find_property, get_property, at_device,
  replace_values, put_found, put_property,
}

abbrev pub map_device : (Device → Device) → Option Device → Option Device
map_device f none = none
map_device f (some d) = some (f d)

-- A device that was changed in place is found changed, and the others as they were.
pub find_device-at_device :
    (udi u : Bytes) (f : Device → Device) (root : Devices)
    → ((d : Device) → (f d).udi ≡ d.udi)
    → find_device u (at_device udi f root)
      ≡ (if str_eq udi u then map_device f (find_device u root) else find_device u root)
unfolding find_device at_device
find_device-at_device udi u f [] keeps = ground arith
find_device-at_device udi u f (d ∷ rest) keeps = ground (
  arith,
  keeps d,
  str_eq_iff d.udi udi,
  str_eq_iff d.udi u,
  str_eq_iff udi u,
  find_device-at_device udi u f rest keeps,
)

abbrev pub values_of : Option DeviceProperty → Option (List Bytes)
values_of none = none
values_of (some p) = some p.values

find_property-replace_values :
    (key k : Bytes) (vs : List Bytes) (ps : List DeviceProperty) (q : DeviceProperty)
    → find_property key ps ≡ some q
    → values_of (find_property k (replace_values key vs ps))
      ≡ (if str_eq key k then some vs else values_of (find_property k ps))
unfolding find_property replace_values
find_property-replace_values key k vs [] q h = cc
find_property-replace_values key k vs (p ∷ ps) q h = ground (
  arith,
  str_eq_iff key p.key,
  str_eq_iff k p.key,
  str_eq_iff key k,
  find_property-replace_values key k vs ps q,
)

find_property-front :
    (key k : Bytes) (vs : List Bytes) (ps : List DeviceProperty)
    → values_of (find_property k (record { key = key; values = vs } ∷ ps))
      ≡ (if str_eq key k then some vs else values_of (find_property k ps))
unfolding find_property
find_property-front key k vs ps = ground (arith, str_eq_iff k key, str_eq_iff key k)

get_property-put_found :
    (o : Option DeviceProperty) (key k : Bytes) (vs : List Bytes) (d : Device)
    → find_property key d.properties ≡ o
    → values_of (get_property k (put_found o key vs d))
      ≡ (if str_eq key k then some vs else values_of (get_property k d))
unfolding put_found get_property
get_property-put_found none key k vs d h = find_property-front key k vs d.properties
get_property-put_found (some p) key k vs d h =
    find_property-replace_values key k vs d.properties p h

-- A property that is put has the new values, and every other property its old ones.
pub get_property-put_property :
    (key k : Bytes) (vs : List Bytes) (d : Device)
    → values_of (get_property k (put_property key vs d))
      ≡ (if str_eq key k then some vs else values_of (get_property k d))
unfolding put_property
get_property-put_property key k vs d = get_property-put_found _ key k vs d refl
