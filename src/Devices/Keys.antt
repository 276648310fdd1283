-- ===== src/Devices/Keys.antt =====
-- The well-formedness of the list: one entry for each device, and in it one for each property.
use gnu_halevt.Base.{
  Bool, true, false, List, [], ◌∷◌, Option, none, some, Bytes, ◌≡◌, refl, inl, inr, arith, str_eq,
  str_eq_iff, if◌then◌else◌, Bool-cases,
}
use gnu_halevt.Devices.{
  DeviceProperty, Device, Devices, find_device, find_property, remove_device, at_device,
  replace_values, put_found, put_property, set_found, set_property, drop_property, without_property,
  remove_found, remove_property,
}
use gnu_halevt.Devices.Find.{find_device-at_device}

-- No two properties have the same key.
abbrev pub KeysDiffer : List DeviceProperty → Type 0
KeysDiffer [] = Unit
KeysDiffer (p ∷ ps) = (find_property p.key ps ≡ none) × KeysDiffer ps

-- No two devices have the same udi, and their properties differ.
abbrev pub IsValid : Devices → Type 0
IsValid [] = Unit
IsValid (d ∷ ds) = (find_device d.udi ds ≡ none) × KeysDiffer d.properties × IsValid ds

find_property-drop_none :
    (key k : Bytes) (ps : List DeviceProperty)
    → find_property k ps ≡ none
    → find_property k (drop_property key ps).0 ≡ none
unfolding find_property drop_property
find_property-drop_none key k [] h = refl
find_property-drop_none key k (p ∷ ps) h =
    ground (arith, str_eq_iff p.key key, find_property-drop_none key k ps)

pub drop_property-KeysDiffer :
    (key : Bytes) (ps : List DeviceProperty) → KeysDiffer ps → KeysDiffer (drop_property key ps).0
unfolding drop_property
drop_property-KeysDiffer key [] h = tt
drop_property-KeysDiffer key (p ∷ ps) h = elim (Bool-cases (str_eq p.key key)) [
  | inl same ↦ rw same h.1
  | inr other ↦
      rw other (find_property-drop_none key p.key ps h.0, drop_property-KeysDiffer key ps h.1)
]

find_property-replace_none :
    (key k : Bytes) (vs : List Bytes) (ps : List DeviceProperty)
    → find_property k ps ≡ none
    → find_property k (replace_values key vs ps) ≡ none
unfolding find_property replace_values
find_property-replace_none key k vs [] h = refl
find_property-replace_none key k vs (p ∷ ps) h =
    ground (arith, find_property-replace_none key k vs ps)

replace_values-KeysDiffer :
    (key : Bytes) (vs : List Bytes) (ps : List DeviceProperty)
    → KeysDiffer ps
    → KeysDiffer (replace_values key vs ps)
unfolding replace_values
replace_values-KeysDiffer key vs [] h = tt
replace_values-KeysDiffer key vs (p ∷ ps) h = elim (Bool-cases (str_eq key p.key)) [
  | inl same ↦ rw same h
  | inr other ↦
      rw other
        (find_property-replace_none key p.key vs ps h.0, replace_values-KeysDiffer key vs ps h.1)
]

pub put_found-KeysDiffer :
    (o : Option DeviceProperty) (key : Bytes) (vs : List Bytes) (d : Device)
    → find_property key d.properties ≡ o
    → KeysDiffer d.properties
    → KeysDiffer (put_found o key vs d).properties
unfolding put_found
put_found-KeysDiffer none key vs d e h = (e, h)
put_found-KeysDiffer (some p) key vs d e h = replace_values-KeysDiffer key vs d.properties h

-- A change in place that keeps udi and keys keeps the list well formed.
at_device-IsValid :
    (udi : Bytes) (f : Device → Device) (root : Devices)
    → ((d : Device) → (f d).udi ≡ d.udi)
    → ((d : Device) → KeysDiffer d.properties → KeysDiffer (f d).properties)
    → IsValid root
    → IsValid (at_device udi f root)
unfolding at_device
at_device-IsValid udi f [] same keys h = tt
at_device-IsValid udi f (d ∷ ds) same keys h = elim (Bool-cases (str_eq d.udi udi)) [
  | inl here ↦ rw here (rw (same d) h.0, keys d h.1, h.2)
  | inr there ↦ rw there (
    rw (find_device-at_device udi d.udi f ds same, h.0) (unmoved (str_eq udi d.udi)),
    h.1,
    at_device-IsValid udi f ds same keys h.2,
  )
]
  where
    unmoved : (b : Bool) → ◌≡◌ {A = Option Device} (if b then none else none) none
    unmoved true = refl
    unmoved false = refl

pub put_property-keeps_udi :
    (key : Bytes) (vs : List Bytes) (d : Device) → (put_property key vs d).udi ≡ d.udi
unfolding put_property put_found
put_property-keeps_udi key vs d = ground arith

set_found-IsValid :
    (o : Option Device) (values : Option (List Bytes)) (udi key : Bytes) (root : Devices)
    → IsValid root
    → IsValid (set_found o values udi key root).0
unfolding set_found
set_found-IsValid none values udi key root h = h
set_found-IsValid (some d) none udi key root h = h
set_found-IsValid (some d) (some vs) udi key root h =
    at_device-IsValid udi (put_property key vs) root (put_property-keeps_udi key vs)
      (λ d' k. unfold put_property in put_found-KeysDiffer _ key vs d' refl k) h

-- Setting a property, whatever HAL has for it, keeps a well-formed list well formed.
pub set_property-IsValid :
    (udi key : Bytes) (values : Option (List Bytes)) (root : Devices)
    → IsValid root
    → IsValid (set_property udi key values root).0
unfolding set_property
set_property-IsValid udi key values root h = set_found-IsValid _ values udi key root h

remove_found-IsValid :
    (o : Option Device) (udi key : Bytes) (root : Devices)
    → IsValid root
    → IsValid (remove_found o udi key root).0
unfolding remove_found
remove_found-IsValid none udi key root h = h
remove_found-IsValid (some d) udi key root h =
    at_device-IsValid udi (without_property key) root (λ d'. unfold without_property in refl)
      (λ d' k. unfold without_property in drop_property-KeysDiffer key d'.properties k) h

-- Removing a property keeps a well-formed list well formed.
pub remove_property-IsValid :
    (udi key : Bytes) (root : Devices) → IsValid root → IsValid (remove_property udi key root).0
unfolding remove_property
remove_property-IsValid udi key root h = remove_found-IsValid _ udi key root h

find_device-remove_none :
    (udi u : Bytes) (root : Devices)
    → find_device u root ≡ none
    → find_device u (remove_device udi root).0 ≡ none
unfolding find_device remove_device
find_device-remove_none udi u [] h = refl
find_device-remove_none udi u (d ∷ ds) h = ground (arith, find_device-remove_none udi u ds)

-- Removing a device keeps a well-formed list well formed.
pub remove_device-IsValid :
    (udi : Bytes) (root : Devices) → IsValid root → IsValid (remove_device udi root).0
unfolding remove_device
remove_device-IsValid udi [] h = tt
remove_device-IsValid udi (d ∷ ds) h = elim (Bool-cases (str_eq d.udi udi)) [
  | inl same ↦ rw same h.2
  | inr other ↦
      rw other (find_device-remove_none udi d.udi ds h.0, h.1, remove_device-IsValid udi ds h.2)
]
