-- ===== src/Devices/Added.antt =====
-- What a device that is added to the list has: the properties that the iterator names.
use gnu_halevt.Base.{
  false, List, [], ◌∷◌, Option, none, some, Bytes, ◌≡◌, refl, ap, ◌∙◌, inl, inr, arith, str_eq,
  str_eq_iff, if◌then◌else◌, Bool-cases,
}
use gnu_halevt.Devices.{
  DeviceProperty, Devices, find_device, find_property, get_property, add_properties, link_device,
  add_device,
}
use gnu_halevt.Devices.Find.{values_of}
use gnu_halevt.Devices.Keys.{KeysDiffer, IsValid}
use gnu_halevt.Base.{All}
use gnu_halevt.Devices.View.{value}

-- The properties of a new device, from the iterator.
abbrev pub lookup_last :
    Bytes → List (Bytes × List Bytes) → Option (List Bytes) → Option (List Bytes)
lookup_last k [] found = found
lookup_last k ((key, values) ∷ rest) found =
    lookup_last k rest (if str_eq key k then some values else found)

abbrev pub all_some : List (Bytes × List Bytes) → List (Bytes × Option (List Bytes))
all_some [] = []
all_some ((key, values) ∷ rest) = (key, some values) ∷ all_some rest

add_properties-lookup :
    (k : Bytes) (set : List (Bytes × List Bytes)) (ps : List DeviceProperty)
    → (qs : List DeviceProperty) × (add_properties ps (all_some set) ≡ some qs)
      × (values_of (find_property k qs) ≡ lookup_last k set (values_of (find_property k ps)))
unfolding add_properties
add_properties-lookup k [] ps = (ps, refl, refl)
add_properties-lookup k ((key, values) ∷ rest) ps =
    let (qs, e, f) = add_properties-lookup k rest (record { key = key; values = values } ∷ ps) in
    (qs, e, f ∙ ap (lookup_last k rest) (front key values))
  where
    front :
        (key : Bytes) (values : List Bytes)
        → values_of (find_property k (record { key = key; values = values } ∷ ps))
          ≡ (if str_eq key k then some values else values_of (find_property k ps))
    front key values = unfold find_property in ground (arith, str_eq_iff k key, str_eq_iff key k)

link_device-lookup :
    (root : Devices) (udi u k : Bytes) (o : Option (List DeviceProperty)) (qs : List DeviceProperty)
    → o ≡ some qs
    → value (link_device root udi o) u k
      ≡ (if str_eq udi u then values_of (find_property k qs) else value root u k)
unfolding link_device find_device get_property
link_device-lookup root udi u k none qs e = cc
link_device-lookup root udi u k (some ps) qs e =
    let same : ps ≡ qs = cc in
    elim (Bool-cases (str_eq udi u)) [ inl here ↦ rw (here, same) refl | inr there ↦ rw there refl ]

-- A device that is added hides an older one with its udi: each of its properties has the values
-- that the iterator gave last, the others none. Every other device is as before.
pub value-add_device :
    (root : Devices) (udi u k : Bytes) (set : List (Bytes × List Bytes))
    → value (add_device root udi (some (all_some set))) u k
      ≡ (if str_eq udi u then lookup_last k set none else value root u k)
unfolding add_device
value-add_device root udi u k set =
    let (qs, e, f) = add_properties-lookup k set [] in
    link_device-lookup root udi u k (add_properties [] (all_some set)) qs e
    ∙ ap (λ x. if str_eq udi u then x else value root u k) (f ∙ ap (lookup_last k set) nothing)
  where
    nothing : ◌≡◌ {A = Option (List Bytes)} (values_of (find_property k [])) none
    nothing = unfold find_property in refl

-- An iterator names each key once.
abbrev pub KeysOnce : List (Bytes × List Bytes) → Type 0
KeysOnce [] = Unit
KeysOnce ((key, values) ∷ rest) = All (λ p. str_eq p.0 key ≡ false) rest × KeysOnce rest

found_put :
    (key : Bytes) (values : List Bytes) (ps : List DeviceProperty) (set : List (Bytes × List Bytes))
    → All (λ p. find_property p.0 ps ≡ none) set
    → All (λ p. str_eq p.0 key ≡ false) set
    → All (λ p. find_property p.0 (record { key = key; values = values } ∷ ps) ≡ none) set
unfolding find_property
found_put key values ps [] h k = tt
found_put key values ps (s ∷ ss) h k = (rw (k.0, h.0) refl, found_put key values ps ss h.1 k.1)

pub add_properties-KeysDiffer :
    (set : List (Bytes × List Bytes)) (ps : List DeviceProperty)
    → KeysDiffer ps
    → All (λ p. find_property p.0 ps ≡ none) set
    → KeysOnce set
    → (qs : List DeviceProperty) × (add_properties ps (all_some set) ≡ some qs) × KeysDiffer qs
unfolding add_properties
add_properties-KeysDiffer [] ps h a o = (ps, refl, h)
add_properties-KeysDiffer ((key, values) ∷ rest) ps h a o =
    add_properties-KeysDiffer rest (record { key = key; values = values } ∷ ps) (a.0, h)
      (found_put key values ps rest a.1 o.0) o.1

pub nothing_found : (set : List (Bytes × List Bytes)) → All (λ p. find_property p.0 [] ≡ none) set
nothing_found [] = tt
nothing_found (s ∷ ss) = (unfold find_property in refl, nothing_found ss)

link_device-IsValid :
    (root : Devices) (udi : Bytes) (o : Option (List DeviceProperty)) (qs : List DeviceProperty)
    → o ≡ some qs
    → KeysDiffer qs
    → IsValid root
    → find_device udi root ≡ none
    → IsValid (link_device root udi o)
unfolding link_device
link_device-IsValid root udi none qs e k v new = v
link_device-IsValid root udi (some ps) qs e k v new =
    let same : qs ≡ ps = cc in (new, rw (← same) k, v)

-- A new device, whose iterator names each key once, keeps a well-formed list well formed, where no
-- device of the list has its udi.
pub add_device-IsValid :
    (root : Devices) (udi : Bytes) (set : List (Bytes × List Bytes))
    → KeysOnce set
    → IsValid root
    → find_device udi root ≡ none
    → IsValid (add_device root udi (some (all_some set)))
unfolding add_device
add_device-IsValid root udi set o v new =
    let (qs, e, k) = add_properties-KeysDiffer set [] tt (nothing_found set) o in
    link_device-IsValid root udi _ qs e k v new
