-- ===== src/Hal/Matching.antt =====
-- src/hal_interface.c: whether a device has a property with a value, asked of HAL by udi, or of
-- the list of devices. A result `none` in the second way is a crash: `strcmp` of NULL.
use gnu_halevt.Base.{
  Bool, true, false, ◌&&◌, List, [], ◌∷◌, Option, none, some, Bytes, codes, ◌==◌, str_eq, int_eq,
  atoi_int, to_ull, strtoull, if◌then◌else◌, ◌>>=◌,
}
use gnu_halevt.Names.{PropertyName}
use gnu_halevt.Expr.{Match}
use gnu_halevt.Devices.{DeviceProperty, Device, Devices, find_device, get_property}
use gnu_halevt.Hal.{
  PropertyType, string_type, boolean_type, int32_type, uint64_type, double_type, strlist_type,
  other_type, Floats, Hal, duplicate_str_list, udi_property_value,
}

-- The loops over an array of values.
unfoldable pub any_equal : Bytes → List Bytes → Bool
any_equal value [] = false
any_equal value (s ∷ ss) = if str_eq s value then true else any_equal value ss

abbrev pub string_matches : Bytes → Option Bytes → Bool
string_matches value none = false
string_matches value (some s) = str_eq value s

abbrev pub list_matches : Bytes → Option (List Bytes) → Bool
list_matches value none = false
list_matches value (some ss) = any_equal value ss

abbrev pub same_bool : Bool → Bool → Bool
same_bool true b = b
same_bool false true = false
same_bool false false = true

module _ {Double : Type 0} (hal : Hal Double) where
  -- The udi that the parents lead to; `none` is NULL.
  unfoldable property_resolve_udi : List Bytes → Bytes → Option Bytes
  property_resolve_udi [] udi = some udi
  property_resolve_udi (parent ∷ parents) udi =
      if hal.device_property_exists udi parent
      then (do new_udi ← hal.property_string udi parent; property_resolve_udi parents new_udi)
      else none

module _ {Double : Type 0} (floats : Floats Double) (hal : Hal Double) where
  -- The uint64 case asks for the property as an `int`, and converts it.
  unfoldable pub value_matches_udi : PropertyType → Bytes → Bytes → Bytes → Bool
  unfolding any_equal
  value_matches_udi boolean_type property value udi =
      same_bool (hal.property_bool udi property)
        (if str_eq value (codes "true") then true else false)
  value_matches_udi string_type property value udi =
      string_matches value (hal.property_string udi property)
  value_matches_udi int32_type property value udi =
      int_eq (hal.property_int udi property) (atoi_int value)
  value_matches_udi strlist_type property value udi =
      list_matches value (hal.property_strlist udi property)
  value_matches_udi uint64_type property value udi =
      to_ull (hal.property_int udi property) == strtoull value
  value_matches_udi double_type property value udi =
      floats.equal (hal.property_double udi property) (floats.strtod value)
  value_matches_udi other_type property value udi = false

  unfoldable pub existing_matches_udi : Bytes → Option Bytes → Bytes → Bool
  unfolding value_matches_udi
  existing_matches_udi property none udi = true
  existing_matches_udi property (some value) udi =
      value_matches_udi (hal.property_type udi property) property value udi

  unfoldable pub property_matches_udi : Bytes → Option Bytes → Bytes → Bool
  unfolding existing_matches_udi
  property_matches_udi property value udi =
      if hal.device_property_exists udi property
      then existing_matches_udi property value udi
      else false

  unfoldable matches_resolved : Match → Option Bytes → Bool
  unfolding property_matches_udi
  matches_resolved match none = false
  matches_resolved match (some real_udi) =
      property_matches_udi match.property.name match.value real_udi

  unfoldable match_udi : Match → Bytes → Bool
  unfolding matches_resolved property_resolve_udi
  match_udi match udi = matches_resolved match (property_resolve_udi hal match.property.parents udi)

unfoldable pub values_match : Option Bytes → List Bytes → Bool
unfolding any_equal
values_match none values = true
values_match (some value) values = any_equal value values

unfoldable pub matches_property : Option Bytes → Option DeviceProperty → Bool
unfolding values_match
matches_property value none = false
matches_property value (some property) = values_match value property.values

unfoldable pub property_matches_device : Bytes → Option Bytes → Device → Bool
unfolding matches_property
property_matches_device key value device = matches_property value (get_property key device)

module _ (root : Devices) where
  -- `find_device (new_udi[0])`, which compares NULL where the property has no value.
  unfoldable find_first : List Bytes → Option (Option Device)
  find_first (udi ∷ _) = some (find_device udi root)
  find_first [] = elim root [ [] ↦ some none | device ∷ rest ↦ none ]

  unfoldable parent_device : Option DeviceProperty → Option (Option Device)
  unfolding find_first
  parent_device none = some none
  parent_device (some property) = find_first property.values

  unfoldable property_resolve_device : List Bytes → Device → Option (Option Device)
  unfolding parent_device
  property_resolve_device [] device = some (some device)
  property_resolve_device (parent ∷ parents) device = do
    found ← parent_device (get_property parent device)
    elim found [ none ↦ some none | some new_device ↦ property_resolve_device parents new_device ]

  unfoldable matches_real : Match → Option Device → Bool
  unfolding property_matches_device
  matches_real match none = false
  matches_real match (some real_device) =
      property_matches_device match.property.name match.value real_device

  unfoldable match_device : Match → Device → Option Bool
  unfolding matches_real property_resolve_device
  match_device match device = do
    real_device ← property_resolve_device match.property.parents device
    some (matches_real match real_device)

abbrev pub star : Bytes
star = codes "*"

module _ {Double : Type 0} (floats : Floats Double) (hal : Hal Double) (root : Devices) where
  unfoldable pub matches_either : Match → Option Bytes → Option Device → Option Bool
  unfolding match_udi match_device
  matches_either match (some udi) device = some (match_udi floats hal match udi)
  matches_either match none (some device) = match_device root match device
  matches_either match none none = some false

  -- `halevt_matches`: by udi if there is one, or else by device; "*" matches every device.
  unfoldable pub matches : Match → Option Bytes → Option Device → Option Bool
  unfolding matches_either
  matches match none none = some false
  matches match udi device =
      if str_eq match.property.name star then some true else matches_either match udi device

  unfoldable resolved_values : Bytes → Option Bytes → Option (List Bytes)
  unfolding udi_property_value
  resolved_values name none = none
  resolved_values name (some real_udi) = udi_property_value floats hal name real_udi

  unfoldable copied_values : Option DeviceProperty → Option (List Bytes)
  unfolding duplicate_str_list
  copied_values none = none
  copied_values (some property) = duplicate_str_list (some property.values)

  unfoldable device_values : Bytes → Option Device → Option (List Bytes)
  unfolding copied_values
  device_values name none = none
  device_values name (some real_device) = copied_values (get_property name real_device)

  unfoldable pub named_values : PropertyName → Bytes → Option Device → Option (Option (List Bytes))
  unfolding resolved_values device_values property_resolve_udi property_resolve_device
  named_values property udi none =
      some (resolved_values property.name (property_resolve_udi hal property.parents udi))
  named_values property udi (some device) = do
    real_device ← property_resolve_device root property.parents device
    some (device_values property.name real_device)

  abbrev is_empty : List Bytes → Bool
  is_empty [] = true
  is_empty (_ ∷ _) = false

  -- `halevt_property_name_value`: the outer `none` is a crash, the inner one NULL.
  unfoldable pub property_name_value :
      PropertyName → Bytes → Option Device → Option (Option (List Bytes))
  unfolding named_values
  property_name_value property udi device =
      if str_eq property.name (codes "udi") && is_empty property.parents
      then some (some (udi ∷ []))
      else named_values property udi device
