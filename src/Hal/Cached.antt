-- ===== src/Hal/Cached.antt =====
-- src/hal_interface.c: a match gives the same answer for a device of the list as for its udi, where
-- the list has the values that HAL has.
use gnu_halevt.Base.{
  ℕ, zero, suc, ◌+◌, ◌≤◌, Bool, true, false, List, [], ◌∷◌, Option, none, some, Bytes, codes, ◌≡◌,
  refl, sym, ap, ◌∙◌, arith, inl, inr, str_eq, str_eq_iff, ==→eq, ==_self, length, take, ℤ, pos,
  negsuc, int_eq, atoi, IsInt, atoi_int_in, print_int, decimal, Bool-cases, if◌then◌else◌,
}
use gnu_halevt.Base.Numbers.Digits.{length-decimal, atoi-print_int}
use gnu_halevt.Devices.{DeviceProperty, Device, get_property}
use gnu_halevt.Devices.Find.{values_of}
use gnu_halevt.Hal.{
  PropertyType, string_type, boolean_type, int32_type, uint64_type, double_type, strlist_type,
  other_type, Floats, Hal, snprintf_tmp, bool_string, copy_strings, duplicate_str_list, one_string,
  get_property_value, udi_property_value,
}
use gnu_halevt.Hal.Matching.{
  any_equal, value_matches_udi, existing_matches_udi, property_matches_udi, values_match,
  matches_property, property_matches_device, string_matches, list_matches, same_bool,
}

-- The values of a match that both ways compare alike: any text for strings and lists of them, the
-- two words for a boolean, and a number in the range of int, as "%d" prints it, where HAL's is in
-- that range.
pub data IsPlain (answer : ℤ) : PropertyType → Bytes → Type 0 where
  plain_string : (value : Bytes) → IsPlain answer string_type value
  plain_strlist : (value : Bytes) → IsPlain answer strlist_type value
  plain_bool : (b : Bool) → IsPlain answer boolean_type (bool_string b)
  plain_int : (i : ℤ) → IsInt i → IsInt answer → IsPlain answer int32_type (print_int i)

abbrev pub value_in : Bytes → Option (List Bytes) → Bool
value_in value none = false
value_in value (some values) = any_equal value values

pub matches_property-value_in :
    (value : Bytes) (o : Option DeviceProperty)
    → matches_property (some value) o ≡ value_in value (values_of o)
unfolding matches_property values_match
matches_property-value_in value none = refl
matches_property-value_in value (some p) = refl

pub any_equal-one : (value s : Bytes) → any_equal value (s ∷ []) ≡ str_eq s value
unfolding any_equal
any_equal-one value s = ground arith

str_eq_comm : (a b : Bytes) → str_eq a b ≡ str_eq b a
unfolding str_eq
str_eq_comm (a ∷ as') (b ∷ bs) = ground (arith, str_eq_comm as' bs)
str_eq_comm _ _ = ground arith

copy_strings_lem : (ss : List Bytes) → copy_strings ss ≡ ss
unfolding copy_strings
copy_strings_lem [] = refl
copy_strings_lem (s ∷ ss) = ap (λ l. s ∷ l) (copy_strings_lem ss)

pub take_all : {A : Type 0} (n : ℕ) (xs : List A) → length xs ≤ n → take n xs ≡ xs
take_all zero [] h = refl
take_all zero (x ∷ xs) h = absurd (omega arith)
take_all (suc n) [] h = refl
take_all (suc n) (x ∷ xs) h = ap (λ l. x ∷ l) (take_all n xs (omega arith))

snprintf_tmp-print_int : (i : ℤ) → IsInt i → snprintf_tmp (print_int i) ≡ print_int i
unfolding snprintf_tmp print_int
snprintf_tmp-print_int (pos n) h =
    let k : length (decimal n) ≤ 10 = length-decimal 9 n (omega arith) in
    take_all 254 _ (omega arith)
snprintf_tmp-print_int (negsuc n) h =
    let k : length (decimal (n + 1)) ≤ 10 = length-decimal 9 (n + 1) (omega arith) in
    take_all 254 _ (omega arith)

int_eq_sound : (a b : ℤ) → int_eq a b ≡ true → a ≡ b
unfolding int_eq
int_eq_sound (pos a) (pos b) h = ap pos (==→eq a b h)
int_eq_sound (negsuc a) (negsuc b) h = ap negsuc (==→eq a b h)
int_eq_sound (pos a) (negsuc b) h = absurd cc
int_eq_sound (negsuc a) (pos b) h = absurd cc

int_eq_self : (a : ℤ) → int_eq a a ≡ true
unfolding int_eq
int_eq_self (pos a) = ==_self a
int_eq_self (negsuc a) = ==_self a

same_tests : (x y : Bool) → (x ≡ true → y ≡ true) → (y ≡ true → x ≡ true) → x ≡ y
same_tests true y h k = sym (h refl)
same_tests false true h k = k refl
same_tests false false h k = refl

-- Two numbers are equal where their printed forms are.
str_eq-print_int : (a b : ℤ) → str_eq (print_int a) (print_int b) ≡ int_eq a b
str_eq-print_int a b =
    same_tests _ _
      (λ h.
        let e : a ≡ b =
          sym (atoi-print_int a) ∙ ap atoi ((str_eq_iff _ _).0 h) ∙ atoi-print_int b in
        ap (int_eq a) (sym e) ∙ int_eq_self a)
      (λ h. (str_eq_iff _ _).1 (ap print_int (int_eq_sound a b h)))

any_equal-string :
    (value : Bytes) (o : Option Bytes) → any_equal value (one_string o) ≡ string_matches value o
any_equal-string value none = unfold any_equal in refl
any_equal-string value (some s) = any_equal-one value s ∙ str_eq_comm s value

value_in-list :
    (value : Bytes) (o : Option (List Bytes))
    → value_in value (duplicate_str_list o) ≡ list_matches value o
unfolding duplicate_str_list
value_in-list value none = refl
value_in-list value (some ss) = ap (any_equal value) (copy_strings_lem ss)

any_equal-bool :
    (a b : Bool)
    → any_equal (bool_string b) (bool_string a ∷ [])
      ≡ same_bool a (if str_eq (bool_string b) (codes "true") then true else false)
unfolding any_equal str_eq
any_equal-bool true true = refl
any_equal-bool true false = refl
any_equal-bool false true = refl
any_equal-bool false false = refl

module _ {Double : Type 0} (floats : Floats Double) (hal : Hal Double) where
  -- For each type the list's values are compared as HAL's answer is.
  value_in-value_matches_udi :
      (type : PropertyType) (key value udi : Bytes)
      → IsPlain (hal.property_int udi key) type value
      → value_in value (get_property_value floats hal type key udi)
        ≡ value_matches_udi floats hal type key value udi
  unfolding get_property_value value_matches_udi any_equal
  value_in-value_matches_udi string_type key value udi (plain_string _) =
      any_equal-string value (hal.property_string udi key)
  value_in-value_matches_udi strlist_type key value udi (plain_strlist _) =
      value_in-list value (hal.property_strlist udi key)
  value_in-value_matches_udi boolean_type key value udi (plain_bool b) =
      any_equal-bool (hal.property_bool udi key) b
  value_in-value_matches_udi int32_type key value udi (plain_int i in_range h) =
      rw (snprintf_tmp-print_int (hal.property_int udi key) h) (
        any_equal-one value _
        ∙ str_eq-print_int _ i
        ∙ ap (int_eq _) (sym (atoi_int_in (print_int i) i (atoi-print_int i) in_range)))
  value_in-value_matches_udi uint64_type key value udi plain = elim plain [ ]
  value_in-value_matches_udi double_type key value udi plain = elim plain [ ]
  value_in-value_matches_udi other_type key value udi plain = elim plain [ ]

  -- A device of the list that has HAL's values for the property matches a plain value exactly
  -- where the device matches it by its udi.
  pub property_matches_device-property_matches_udi :
      (key value udi : Bytes) (device : Device)
      → values_of (get_property key device) ≡ udi_property_value floats hal key udi
      → IsPlain (hal.property_int udi key) (hal.property_type udi key) value
      → property_matches_device key (some value) device
        ≡ property_matches_udi floats hal key (some value) udi
  unfolding property_matches_device property_matches_udi existing_matches_udi udi_property_value
  property_matches_device-property_matches_udi key value udi device same plain =
      matches_property-value_in value (get_property key device)
      ∙ ap (value_in value) same
      ∙ elim (Bool-cases (hal.device_property_exists udi key)) [
        | inl e ↦ rw e (value_in-value_matches_udi (hal.property_type udi key) key value udi plain)
        | inr e ↦ rw e refl
      ]
