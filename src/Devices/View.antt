-- ===== src/Devices/View.antt =====
-- The list of devices as a map: for a udi and a key, the values, whatever the order of the list.
use gnu_halevt.Base.{
  Bool, true, false, ◌&&◌, List, [], ◌∷◌, Option, none, some, Bytes, ◌≡◌, ◌⊎◌, refl, ap, inl, inr,
  arith, str_eq, str_eq_iff, if◌then◌else◌, Bool-cases,
}
use gnu_halevt.Devices.{
  DeviceProperty, Device, Devices, find_device, find_property, get_property, remove_device,
  at_device, put_property, set_found, set_property, drop_property, without_property, remove_found,
  remove_property,
}
use gnu_halevt.Devices.Find.{
  map_device, values_of, find_device-at_device, get_property-put_property,
}
use gnu_halevt.Devices.Keys.{KeysDiffer, IsValid, put_property-keeps_udi}

abbrev pub value_at : Option Device → Bytes → Option (List Bytes)
value_at none key = none
value_at (some d) key = values_of (get_property key d)

-- The values that the list has for a property of a device.
abbrev pub value : Devices → Bytes → Bytes → Option (List Bytes)
value root udi key = value_at (find_device udi root) key

value_at-map_device :
    (f : Device → Device) (o : Option Device) (key k : Bytes) (new : Option (List Bytes))
    → ((d : Device)
        → o ≡ some d
        → values_of (get_property k (f d))
          ≡ (if str_eq key k then new else values_of (get_property k d)))
    → (e : Device) → o ≡ some e
    → value_at (map_device f o) k ≡ (if str_eq key k then new else value_at o k)
value_at-map_device f none key k new h e eq = cc
value_at-map_device f (some d) key k new h e eq = h d refl

-- A change of one device, as the map sees it.
value-at_device :
    (udi key u k : Bytes) (f : Device → Device) (new : Option (List Bytes)) (root : Devices)
    (d : Device)
    → ((x : Device) → (f x).udi ≡ x.udi)
    → ((x : Device)
        → find_device udi root ≡ some x
        → values_of (get_property k (f x))
          ≡ (if str_eq key k then new else values_of (get_property k x)))
    → find_device udi root ≡ some d
    → value (at_device udi f root) u k
      ≡ (if str_eq udi u && str_eq key k then new else value root u k)
value-at_device udi key u k f new root d same local found = elim (Bool-cases (str_eq udi u)) [
  | inr other ↦ rw (find_device-at_device udi u f root same, other) refl
  | inl here ↦
      let e : udi ≡ u = (str_eq_iff udi u).0 here in
      rw (find_device-at_device udi u f root same, here, ← e)
        (value_at-map_device f (find_device udi root) key k new local d found)
]

-- Setting a property of a device that is in the list, with the values `vs` of HAL: it has these
-- values from then on, the result is 1, and every other property of any device is as before.
pub value-set_listed :
    (udi key u k : Bytes) (vs : List Bytes) (root : Devices) (d : Device)
    → find_device udi root ≡ some d
    → (value (set_property udi key (some vs) root).0 u k
        ≡ (if str_eq udi u && str_eq key k then some vs else value root u k))
      × ((set_property udi key (some vs) root).1 ≡ true)
unfolding set_property
value-set_listed udi key u k vs root d found = rw found (
  unfold set_found in
      value-at_device udi key u k (put_property key vs) (some vs) root d
        (put_property-keeps_udi key vs) (λ x _. get_property-put_property key k vs x) found,
  unfold set_found in refl,
)

-- A property of a device that is not in the list, or that HAL does not have, is not set: the
-- list stays as it is, and the result is 0.
set_property_refused :
    (udi key : Bytes) (values : Option (List Bytes)) (root : Devices)
    → (find_device udi root ≡ none) ⊎ (values ≡ none)
    → set_property udi key values root ≡ (root, false)
unfolding set_property
set_property_refused udi key values root h = go (find_device udi root) values h
  where
    go :
        (o : Option Device) (vs : Option (List Bytes))
        → (o ≡ none) ⊎ (vs ≡ none)
        → set_found o vs udi key root ≡ (root, false)
    go none vs h = unfold set_found in refl
    go (some d) none h = unfold set_found in refl
    go (some d) (some vs) (inl e) = cc
    go (some d) (some vs) (inr e) = cc

abbrev pub is_there {ℓ} : {A : Type ℓ} → Option A → Bool
is_there none = false
is_there (some _) = true

-- A property is set, and the result is 1, exactly where the device is in the list and HAL has
-- values for it. It has these values from then on; every other property of any device, and the
-- whole list where nothing is set, is as before.
pub value-set_property :
    (udi key u k : Bytes) (values : Option (List Bytes)) (root : Devices)
    → let is_set = is_there (find_device udi root) && is_there values in
      let changed = set_property udi key values root in
      (value changed.0 u k
        ≡ (if is_set && (str_eq udi u && str_eq key k) then values else value root u k))
      × (changed.1 ≡ is_set)
      × (changed.0 ≡ (if is_set then changed.0 else root))
value-set_property udi key u k values root = go (find_device udi root) values refl
  where
    go :
        (o : Option Device) (vs : Option (List Bytes))
        → find_device udi root ≡ o
        → let is_set = is_there (find_device udi root) && is_there vs in
          let changed = set_property udi key vs root in
          (value changed.0 u k
            ≡ (if is_set && (str_eq udi u && str_eq key k) then vs else value root u k))
          × (changed.1 ≡ is_set)
          × (changed.0 ≡ (if is_set then changed.0 else root))
    go none vs e = rw (set_property_refused udi key vs root (inl e), e) (refl, refl, refl)
    go (some d) none e =
        rw (set_property_refused udi key none root (inr refl), e) (refl, refl, refl)
    go (some d) (some vs) e =
        let set = value-set_listed udi key u k vs root d e in
        let there : is_there (find_device udi root) ≡ true = ap is_there e in
        rw there (set.0, set.1, refl)

find_property_same :
    (a b : Bytes) (ps : List DeviceProperty)
    → str_eq a b ≡ true
    → find_property a ps ≡ find_property b ps
find_property_same a b ps h = ap (λ x. find_property x ps) ((str_eq_iff a b).0 h)

find_property-drop_property :
    (key k : Bytes) (ps : List DeviceProperty)
    → KeysDiffer ps
    → values_of (find_property k (drop_property key ps).0)
      ≡ (if str_eq key k then none else values_of (find_property k ps))
unfolding find_property drop_property
find_property-drop_property key k [] h = ground arith
find_property-drop_property key k (p ∷ ps) h = ground (
  arith,
  h.0,
  str_eq_iff p.key key,
  str_eq_iff k p.key,
  str_eq_iff key k,
  find_property_same k p.key ps,
  find_property-drop_property key k ps h.1,
)

without_property-get :
    (key k : Bytes) (d : Device)
    → KeysDiffer d.properties
    → values_of (get_property k (without_property key d))
      ≡ (if str_eq key k then none else values_of (get_property k d))
unfolding without_property get_property
without_property-get key k d h = find_property-drop_property key k d.properties h

some_device : {x d : Device} → ◌≡◌ {A = Option Device} (some x) (some d) → x ≡ d
some_device h = cc

-- Each device of a well-formed list is well formed.
IsValid-find_device :
    (udi : Bytes) (root : Devices) (d : Device)
    → IsValid root
    → find_device udi root ≡ some d
    → KeysDiffer d.properties
unfolding find_device
IsValid-find_device udi [] d v h = cc
IsValid-find_device udi (x ∷ xs) d v h = elim (Bool-cases (str_eq x.udi udi)) [
  | inl same ↦ let e : x ≡ d = some_device (rw same at h) in rw (← e) v.1
  | inr other ↦ IsValid-find_device udi xs d v.2 (rw other at h)
]

-- A removed property is gone, where the device has no two of it, and all others are as before.
pub value-remove_listed :
    (udi key u k : Bytes) (root : Devices) (d : Device)
    → ((x : Device) → find_device udi root ≡ some x → KeysDiffer x.properties)
    → find_device udi root ≡ some d
    → value (remove_property udi key root).0 u k
      ≡ (if str_eq udi u && str_eq key k then none else value root u k)
unfolding remove_property
value-remove_listed udi key u k root d v found = rw found (
    unfold remove_found in
    value-at_device udi key u k (without_property key) none root d
      (λ x. unfold without_property in refl) (λ x e. without_property-get key k x (v x e)) found)

-- In a well-formed list a removed property is gone, and all others are as before.
pub value-remove_property :
    (udi key u k : Bytes) (root : Devices) (d : Device)
    → IsValid root
    → find_device udi root ≡ some d
    → value (remove_property udi key root).0 u k
      ≡ (if str_eq udi u && str_eq key k then none else value root u k)
value-remove_property udi key u k root d v found =
    value-remove_listed udi key u k root d (λ x e. IsValid-find_device udi root x v e) found

find_device_same :
    (a b : Bytes) (ds : Devices) → str_eq a b ≡ true → find_device a ds ≡ find_device b ds
find_device_same a b ds h = ap (λ x. find_device x ds) ((str_eq_iff a b).0 h)

pub find_device-removed :
    (udi u : Bytes) (root : Devices)
    → IsValid root
    → find_device u (remove_device udi root).0 ≡ (if str_eq udi u then none else find_device u root)
unfolding find_device remove_device
find_device-removed udi u [] v = ground arith
find_device-removed udi u (d ∷ ds) v = ground (
  arith,
  v.0,
  str_eq_iff d.udi udi,
  str_eq_iff d.udi u,
  str_eq_iff udi u,
  find_device_same d.udi u ds,
  find_device-removed udi u ds v.2,
)

remove_device-result :
    (udi : Bytes) (root : Devices) → (remove_device udi root).1 ≡ is_there (find_device udi root)
unfolding find_device remove_device
remove_device-result udi [] = refl
remove_device-result udi (d ∷ ds) = elim (Bool-cases (str_eq d.udi udi)) [
  | inl here ↦ rw here refl
  | inr other ↦ rw other (remove_device-result udi ds)
]

-- In a well-formed list a removed device is gone, and every other device is found as before. The
-- result says whether the device was in the list.
pub find_device-remove_device :
    (udi u : Bytes) (root : Devices)
    → IsValid root
    → (find_device u (remove_device udi root).0
        ≡ (if str_eq udi u then none else find_device u root))
      × ((remove_device udi root).1 ≡ is_there (find_device udi root))
find_device-remove_device udi u root v =
    (find_device-removed udi u root v, remove_device-result udi root)
