-- ===== src/Hal.antt =====
-- src/hal_interface.c: what the program asks of libhal and of C's floating point, and the values
-- that it makes of HAL's answers. HAL is outside the program: `Hal` is one state of it, which
-- answers while one event is handled.
pub mod Matching
pub mod Cached
pub mod Uint
use gnu_halevt.Base.{
  ℕ, ◌-◌, Bool, true, false, List, [], ◌∷◌, Option, none, some, Bytes, codes, take, ℤ, print_int,
  decimal, if◌then◌else◌,
}

-- `LibHalPropertyType`; `other_type` is any type that the program does not know.
pub data PropertyType : Type 0 where
  string_type boolean_type int32_type uint64_type double_type strlist_type other_type : PropertyType

-- C's `double`, with the three operations that are used.
pub record Floats (Double : Type 0) : Type 0 where
  pub strtod : Bytes → Double
  pub equal : Double → Double → Bool
  pub print_g : Double → Bytes

-- What a `LibHalPropertySetIterator` stands at; a NULL string or list is `none`.
pub data HalValue (Double : Type 0) : Type 0 where
  string_value : Option Bytes → HalValue Double
  boolean_value : Bool → HalValue Double
  int32_value : ℤ → HalValue Double
  uint64_value : ℕ → HalValue Double
  double_value : Double → HalValue Double
  strlist_value : Option (List Bytes) → HalValue Double
  other_value : HalValue Double

-- The queries of libhal, each for a udi and a key. An error of D-Bus is only printed; the answer
-- that comes with it is the one that is used.
pub record Hal (Double : Type 0) : Type 0 where
  pub device_property_exists : Bytes → Bytes → Bool
  pub property_type : Bytes → Bytes → PropertyType
  pub property_bool : Bytes → Bytes → Bool
  pub property_string : Bytes → Bytes → Option Bytes
  pub property_int : Bytes → Bytes → ℤ
  pub property_uint64 : Bytes → Bytes → ℕ
  pub property_double : Bytes → Bytes → Double
  pub property_strlist : Bytes → Bytes → Option (List Bytes)
  pub all_properties : Bytes → Option (List (Bytes × HalValue Double))
  pub all_devices : Option (List Bytes)

-- `snprintf (tmp, 255, ...)`: at most 254 bytes
unfoldable pub snprintf_tmp : Bytes → Bytes
snprintf_tmp s = take 254 s

abbrev pub bool_string : Bool → Bytes
bool_string true = codes "true"
bool_string false = codes "false"

unfoldable pub copy_strings : List Bytes → List Bytes
copy_strings [] = []
copy_strings (s ∷ ss) = s ∷ copy_strings ss

unfoldable pub duplicate_str_list : Option (List Bytes) → Option (List Bytes)
unfolding copy_strings
duplicate_str_list none = none
duplicate_str_list (some str_list) = some (copy_strings str_list)

-- A NULL string leaves the array of values empty, and so does a type that is not known.
abbrev pub one_string : Option Bytes → List Bytes
one_string none = []
one_string (some s) = s ∷ []

module _ {Double : Type 0} (floats : Floats Double) where
  unfoldable pub get_iterator_value : HalValue Double → Option (List Bytes)
  unfolding duplicate_str_list snprintf_tmp
  get_iterator_value (strlist_value str_list) = duplicate_str_list str_list
  get_iterator_value (string_value hal_value) = some (one_string hal_value)
  get_iterator_value (boolean_value b) = some (bool_string b ∷ [])
  get_iterator_value (int32_value i) = some (snprintf_tmp (print_int i) ∷ [])
  get_iterator_value (uint64_value n) = some (snprintf_tmp (decimal n) ∷ [])
  get_iterator_value (double_value d) = some (snprintf_tmp (floats.print_g d) ∷ [])
  get_iterator_value other_value = some []

  unfoldable pub iterator_values :
      List (Bytes × HalValue Double) → List (Bytes × Option (List Bytes))
  unfolding get_iterator_value
  iterator_values [] = []
  iterator_values ((key, v) ∷ rest) = (key, get_iterator_value v) ∷ iterator_values rest

module _ {Double : Type 0} (floats : Floats Double) (hal : Hal Double) where
  unfoldable pub get_property_value : PropertyType → Bytes → Bytes → Option (List Bytes)
  unfolding duplicate_str_list snprintf_tmp
  get_property_value strlist_type property udi =
      duplicate_str_list (hal.property_strlist udi property)
  get_property_value string_type property udi = some (one_string (hal.property_string udi property))
  get_property_value boolean_type property udi =
      some (bool_string (hal.property_bool udi property) ∷ [])
  get_property_value int32_type property udi =
      some (snprintf_tmp (print_int (hal.property_int udi property)) ∷ [])
  get_property_value uint64_type property udi =
      some (snprintf_tmp (decimal (hal.property_uint64 udi property)) ∷ [])
  get_property_value double_type property udi =
      some (snprintf_tmp (floats.print_g (hal.property_double udi property)) ∷ [])
  get_property_value other_type property udi = some []

  unfoldable pub udi_property_value : Bytes → Bytes → Option (List Bytes)
  unfolding get_property_value
  udi_property_value property udi =
      if hal.device_property_exists udi property
      then get_property_value (hal.property_type udi property) property udi
      else none
