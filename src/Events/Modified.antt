-- ===== src/Events/Modified.antt =====
-- src/hal_interface.c: the list behind the report of a property, beside HAL.
use gnu_halevt.Base.{
  Bool, true, false, ◌&&◌, Option, none, some, Bytes, List, ◌≡◌, refl, sym, ap, ◌∙◌, arith,
  if◌then◌else◌, str_eq, str_eq_iff,
}
use gnu_halevt.Devices.{Device, Devices, find_device, set_property, remove_property, remove_found}
use gnu_halevt.Devices.View.{value, is_there, value-set_property, value-remove_listed}
use gnu_halevt.Devices.Keyed.{
  IsKeyed, IsKeyed-find_device, set_property-IsKeyed, remove_property-IsKeyed, set_property-listed,
  remove_property-listed,
}
use gnu_halevt.Hal.{Floats, Hal, udi_property_value}

remove_property-missing :
    (udi key : Bytes) (root : Devices)
    → find_device udi root ≡ none
    → (remove_property udi key root).0 ≡ root
unfolding remove_property
remove_property-missing udi key root h = rw h (unfold remove_found in refl)

pub both_equal :
    (udi u key k : Bytes) → (str_eq udi u && str_eq key k) ≡ true → (udi ≡ u) × (key ≡ k)
both_equal udi u key k h =
    let e : (str_eq udi u ≡ true) × (str_eq key k ≡ true) = ground arith in
    ((str_eq_iff udi u).0 e.0, (str_eq_iff key k).0 e.1)

module _ {Double : Type 0} (floats : Floats Double) where
  -- The list behind a report of a property.
  abbrev pub modified_root : Hal Double → Devices → Bytes → Bytes → Bool → Devices
  modified_root hal root udi key is_removed =
      if is_removed
      then (remove_property udi key root).0
      else (set_property udi key (udi_property_value floats hal key udi) root).0

  pub modified_root-IsKeyed :
      (hal : Hal Double) (root : Devices) (udi key : Bytes) (is_removed : Bool)
      → IsKeyed root
      → IsKeyed (modified_root hal root udi key is_removed)
  modified_root-IsKeyed hal root udi key true h = remove_property-IsKeyed udi key root h
  modified_root-IsKeyed hal root udi key false h = set_property-IsKeyed udi key _ root h

  pub modified_root-listed :
      (hal : Hal Double) (root : Devices) (udi key u : Bytes) (is_removed : Bool)
      → is_there (find_device u (modified_root hal root udi key is_removed))
        ≡ is_there (find_device u root)
  modified_root-listed hal root udi key u true = remove_property-listed udi key u root
  modified_root-listed hal root udi key u false = set_property-listed udi key u _ root

  -- Another property is as before.
  removed-other :
      (root : Devices) (udi key u k : Bytes)
      → IsKeyed root
      → (str_eq udi u && str_eq key k) ≡ false
      → value (remove_property udi key root).0 u k ≡ value root u k
  removed-other root udi key u k keyed other = go (find_device udi root) refl
    where
      go :
          (o : Option Device)
          → find_device udi root ≡ o
          → value (remove_property udi key root).0 u k ≡ value root u k
      go none e = ap (λ r. value r u k) (remove_property-missing udi key root e)
      go (some d) e =
          value-remove_listed udi key u k root d (λ x f. IsKeyed-find_device udi root x keyed f) e
          ∙ rw other refl

  set-other :
      (root : Devices) (udi key u k : Bytes) (vs : Option (List Bytes))
      → (str_eq udi u && str_eq key k) ≡ false
      → value (set_property udi key vs root).0 u k ≡ value root u k
  set-other root udi key u k vs other =
      (value-set_property udi key u k vs root).0
      ∙ rw other (neither (is_there (find_device udi root) && is_there vs))
    where
      neither : (b : Bool) → (if b && false then vs else value root u k) ≡ value root u k
      neither true = refl
      neither false = refl

  pub modified_root-other :
      (hal : Hal Double) (root : Devices) (udi key u k : Bytes) (is_removed : Bool)
      → IsKeyed root
      → (str_eq udi u && str_eq key k) ≡ false
      → value (modified_root hal root udi key is_removed) u k ≡ value root u k
  modified_root-other hal root udi key u k true keyed other =
      removed-other root udi key u k keyed other
  modified_root-other hal root udi key u k false keyed other = set-other root udi key u k _ other

  none_there : (o : Option (List Bytes)) → is_there o ≡ false → o ≡ none
  none_there none h = refl
  none_there (some x) h = cc

  removed-same :
      (hal : Hal Double) (root : Devices) (udi key : Bytes)
      → IsKeyed root
      → is_there (find_device udi root) ≡ true
      → is_there (udi_property_value floats hal key udi) ≡ false
      → value (remove_property udi key root).0 udi key ≡ udi_property_value floats hal key udi
  removed-same hal root udi key keyed listed gone = go (find_device udi root) refl
    where
      go :
          (o : Option Device)
          → find_device udi root ≡ o
          → value (remove_property udi key root).0 udi key ≡ udi_property_value floats hal key udi
      go none e = let c : false ≡ true = sym (ap is_there e) ∙ listed in absurd cc
      go (some d) e =
          value-remove_listed udi key udi key root d (λ x f. IsKeyed-find_device udi root x keyed f)
            e
          ∙ rw ((str_eq_iff udi udi).1 refl, (str_eq_iff key key).1 refl)
              (sym (none_there (udi_property_value floats hal key udi) gone))

  -- Behind the last report the property is what HAL has.
  pub modified_root-same :
      (hal : Hal Double) (root : Devices) (udi key : Bytes) (is_removed : Bool)
      → IsKeyed root
      → is_there (find_device udi root) ≡ true
      → is_there (udi_property_value floats hal key udi) ≡ (if is_removed then false else true)
      → value (modified_root hal root udi key is_removed) udi key
        ≡ udi_property_value floats hal key udi
  modified_root-same hal root udi key true keyed listed last =
      removed-same hal root udi key keyed listed last
  modified_root-same hal root udi key false keyed listed last =
      (value-set_property udi key udi key (udi_property_value floats hal key udi) root).0
      ∙ rw (listed, last, (str_eq_iff udi udi).1 refl, (str_eq_iff key key).1 refl) refl
