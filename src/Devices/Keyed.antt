-- ===== src/Devices/Keyed.antt =====
-- src/devices_list.c: what holds of the list where it may have a device twice: no device has a
-- property twice, and an operation on one device leaves what is found of the others.
use gnu_halevt.Base.{
  Bool, true, false, List, [], ◌∷◌, Option, none, some, Bytes, ◌≡◌, refl, ap, ◌∙◌, arith, inl, inr,
  str_eq, str_eq_iff, if◌then◌else◌, Bool-cases,
}
use gnu_halevt.Devices.{
  DeviceProperty, Device, Devices, find_device, link_device, add_device, at_device, put_property,
  without_property, remove_device, set_property, set_found, remove_property, remove_found,
}
use gnu_halevt.Devices.Find.{map_device, find_device-at_device}
use gnu_halevt.Devices.View.{is_there}
use gnu_halevt.Devices.Keys.{
  KeysDiffer, put_found-KeysDiffer, drop_property-KeysDiffer, put_property-keeps_udi,
}
use gnu_halevt.Devices.Added.{all_some, KeysOnce, add_properties-KeysDiffer, nothing_found}

-- No device has two properties with the same key.
abbrev pub IsKeyed : Devices → Type 0
IsKeyed [] = Unit
IsKeyed (d ∷ ds) = KeysDiffer d.properties × IsKeyed ds

same_device : {x d : Device} → ◌≡◌ {A = Option Device} (some x) (some d) → x ≡ d
same_device h = cc

pub IsKeyed-find_device :
    (udi : Bytes) (root : Devices) (d : Device)
    → IsKeyed root
    → find_device udi root ≡ some d
    → KeysDiffer d.properties
unfolding find_device
IsKeyed-find_device udi [] d v h = cc
IsKeyed-find_device udi (x ∷ xs) d v h = elim (Bool-cases (str_eq x.udi udi)) [
  | inl same ↦ let e : x ≡ d = same_device (rw same at h) in rw (← e) v.0
  | inr other ↦ IsKeyed-find_device udi xs d v.1 (rw other at h)
]

at_device-IsKeyed :
    (udi : Bytes) (f : Device → Device) (root : Devices)
    → ((d : Device) → KeysDiffer d.properties → KeysDiffer (f d).properties)
    → IsKeyed root
    → IsKeyed (at_device udi f root)
unfolding at_device
at_device-IsKeyed udi f [] keys h = tt
at_device-IsKeyed udi f (d ∷ ds) keys h = elim (Bool-cases (str_eq d.udi udi)) [
  | inl here ↦ rw here (keys d h.0, h.1)
  | inr there ↦ rw there (h.0, at_device-IsKeyed udi f ds keys h.1)
]

set_found-IsKeyed :
    (o : Option Device) (values : Option (List Bytes)) (udi key : Bytes) (root : Devices)
    → IsKeyed root
    → IsKeyed (set_found o values udi key root).0
unfolding set_found
set_found-IsKeyed none values udi key root h = h
set_found-IsKeyed (some d) none udi key root h = h
set_found-IsKeyed (some d) (some vs) udi key root h =
    at_device-IsKeyed udi (put_property key vs) root
      (λ d' k. unfold put_property in put_found-KeysDiffer _ key vs d' refl k) h

pub set_property-IsKeyed :
    (udi key : Bytes) (values : Option (List Bytes)) (root : Devices)
    → IsKeyed root
    → IsKeyed (set_property udi key values root).0
unfolding set_property
set_property-IsKeyed udi key values root h = set_found-IsKeyed _ values udi key root h

remove_found-IsKeyed :
    (o : Option Device) (udi key : Bytes) (root : Devices)
    → IsKeyed root
    → IsKeyed (remove_found o udi key root).0
unfolding remove_found
remove_found-IsKeyed none udi key root h = h
remove_found-IsKeyed (some d) udi key root h =
    at_device-IsKeyed udi (without_property key) root
      (λ d' k. unfold without_property in drop_property-KeysDiffer key d'.properties k) h

pub remove_property-IsKeyed :
    (udi key : Bytes) (root : Devices) → IsKeyed root → IsKeyed (remove_property udi key root).0
unfolding remove_property
remove_property-IsKeyed udi key root h = remove_found-IsKeyed _ udi key root h

pub remove_device-IsKeyed :
    (udi : Bytes) (root : Devices) → IsKeyed root → IsKeyed (remove_device udi root).0
unfolding remove_device
remove_device-IsKeyed udi [] h = tt
remove_device-IsKeyed udi (d ∷ ds) h = elim (Bool-cases (str_eq d.udi udi)) [
  | inl same ↦ rw same h.1
  | inr other ↦ rw other (h.0, remove_device-IsKeyed udi ds h.1)
]

link_device-IsKeyed :
    (root : Devices) (udi : Bytes) (o : Option (List DeviceProperty)) (qs : List DeviceProperty)
    → o ≡ some qs
    → KeysDiffer qs
    → IsKeyed root
    → IsKeyed (link_device root udi o)
unfolding link_device
link_device-IsKeyed root udi none qs e k v = v
link_device-IsKeyed root udi (some ps) qs e k v = let same : qs ≡ ps = cc in (rw (← same) k, v)

-- A device that is added, whether its udi is in the list or not.
pub add_device-IsKeyed :
    (root : Devices) (udi : Bytes) (set : List (Bytes × List Bytes))
    → KeysOnce set
    → IsKeyed root
    → IsKeyed (add_device root udi (some (all_some set)))
unfolding add_device
add_device-IsKeyed root udi set o v =
    let (qs, e, k) = add_properties-KeysDiffer set [] tt (nothing_found set) o in
    link_device-IsKeyed root udi _ qs e k v

pub remove_device-other :
    (udi u : Bytes) (root : Devices)
    → str_eq udi u ≡ false
    → find_device u (remove_device udi root).0 ≡ find_device u root
unfolding find_device remove_device
remove_device-other udi u [] h = refl
remove_device-other udi u (d ∷ ds) h = ground (
  arith,
  str_eq_iff d.udi udi,
  str_eq_iff d.udi u,
  str_eq_iff udi u,
  remove_device-other udi u ds h,
)

link_device-listed :
    (root : Devices) (udi u : Bytes) (o : Option (List DeviceProperty)) (qs : List DeviceProperty)
    → o ≡ some qs
    → is_there (find_device u (link_device root udi o))
      ≡ (if str_eq udi u then true else is_there (find_device u root))
unfolding link_device find_device
link_device-listed root udi u none qs e = cc
link_device-listed root udi u (some ps) qs e = elim (Bool-cases (str_eq udi u)) [
  | inl here ↦ rw here refl
  | inr there ↦ rw there refl
]

pub add_device-listed :
    (root : Devices) (udi u : Bytes) (set : List (Bytes × List Bytes))
    → KeysOnce set
    → is_there (find_device u (add_device root udi (some (all_some set))))
      ≡ (if str_eq udi u then true else is_there (find_device u root))
unfolding add_device
add_device-listed root udi u set o =
    let (qs, e, k) = add_properties-KeysDiffer set [] tt (nothing_found set) o in
    link_device-listed root udi u _ qs e

map_listed :
    (b : Bool) (f : Device → Device) (o : Option Device)
    → is_there (if b then map_device f o else o) ≡ is_there o
map_listed true f none = refl
map_listed true f (some d) = refl
map_listed false f o = refl

at_device-listed :
    (udi u : Bytes) (f : Device → Device) (root : Devices)
    → ((d : Device) → (f d).udi ≡ d.udi)
    → is_there (find_device u (at_device udi f root)) ≡ is_there (find_device u root)
at_device-listed udi u f root keeps =
    ap is_there (find_device-at_device udi u f root keeps)
    ∙ map_listed (str_eq udi u) f (find_device u root)

set_found-listed :
    (o : Option Device) (values : Option (List Bytes)) (udi key u : Bytes) (root : Devices)
    → is_there (find_device u (set_found o values udi key root).0) ≡ is_there (find_device u root)
unfolding set_found
set_found-listed none values udi key u root = refl
set_found-listed (some d) none udi key u root = refl
set_found-listed (some d) (some vs) udi key u root =
    at_device-listed udi u (put_property key vs) root (put_property-keeps_udi key vs)

pub set_property-listed :
    (udi key u : Bytes) (values : Option (List Bytes)) (root : Devices)
    → is_there (find_device u (set_property udi key values root).0) ≡ is_there (find_device u root)
unfolding set_property
set_property-listed udi key u values root = set_found-listed _ values udi key u root

remove_found-listed :
    (o : Option Device) (udi key u : Bytes) (root : Devices)
    → is_there (find_device u (remove_found o udi key root).0) ≡ is_there (find_device u root)
unfolding remove_found
remove_found-listed none udi key u root = refl
remove_found-listed (some d) udi key u root =
    at_device-listed udi u (without_property key) root (λ d'. unfold without_property in refl)

pub remove_property-listed :
    (udi key u : Bytes) (root : Devices)
    → is_there (find_device u (remove_property udi key root).0) ≡ is_there (find_device u root)
unfolding remove_property
remove_property-listed udi key u root = remove_found-listed _ udi key u root
