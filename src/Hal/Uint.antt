-- ===== src/Hal/Uint.antt =====
-- src/hal_interface.c: a match of a uint64 property. By udi the program asks HAL for it as an
-- `int`; the values of the list come from the query for uint64.
use gnu_halevt.Base.{
  ℕ, ◌-◌, ◌≤◌, ◌<◌, ◌^◌, true, false, [], ◌∷◌, some, Bytes, ◌≡◌, refl, ap, ◌∙◌, arith, ◌==◌,
  str_eq_self, length, decimal, negsuc, to_ull,
}
use gnu_halevt.Base.Numbers.Digits.{length-decimal, strtoull-decimal}
use gnu_halevt.Devices.{Device, get_property}
use gnu_halevt.Devices.Find.{values_of}
use gnu_halevt.Hal.{uint64_type, Floats, Hal, snprintf_tmp, get_property_value, udi_property_value}
use gnu_halevt.Hal.Cached.{take_all, value_in, matches_property-value_in, any_equal-one}
use gnu_halevt.Hal.Matching.{
  any_equal, value_matches_udi, existing_matches_udi, property_matches_udi, property_matches_device,
}

not_equal : (n : ℕ) → n < 2 ^ 64 - 1 → (to_ull (negsuc 0) == n) ≡ false
unfolding to_ull
not_equal n h = ground arith

snprintf_tmp-decimal : (n : ℕ) → n < 2 ^ 64 → snprintf_tmp (decimal n) ≡ decimal n
unfolding snprintf_tmp
snprintf_tmp-decimal n h =
    let k : length (decimal n) ≤ 20 = length-decimal 19 n (omega arith) in
    take_all 254 _ (omega arith)

module _ {Double : Type 0} (floats : Floats Double) (hal : Hal Double) where
  -- Where HAL answers the query for an `int` with -1, a uint64 property that has the value `n`
  -- does not match the text of `n` by udi, and a device of the list with HAL's value does.
  pub property_matches_udi_uint64 :
      (key udi : Bytes) (n : ℕ) (device : Device)
      → hal.device_property_exists udi key ≡ true
      → hal.property_type udi key ≡ uint64_type
      → hal.property_uint64 udi key ≡ n
      → hal.property_int udi key ≡ negsuc 0
      → n < 2 ^ 64 - 1
      → values_of (get_property key device) ≡ udi_property_value floats hal key udi
      → (property_matches_udi floats hal key (some (decimal n)) udi ≡ false)
        × (property_matches_device key (some (decimal n)) device ≡ true)
  unfolding property_matches_udi existing_matches_udi value_matches_udi property_matches_device
      udi_property_value get_property_value any_equal
  property_matches_udi_uint64 key udi n device exists type is_n as_int h same =
      let k : n < 2 ^ 64 = omega arith in
      let listed : udi_property_value floats hal key udi ≡ some (decimal n ∷ []) =
        rw (exists, type, is_n, snprintf_tmp-decimal n k) refl in
      (
        rw (exists, type, as_int, strtoull-decimal n k, not_equal n h) refl,
        matches_property-value_in (decimal n) (get_property key device)
            ∙ ap (value_in (decimal n)) (same ∙ listed)
            ∙ any_equal-one (decimal n) (decimal n)
            ∙ str_eq_self (decimal n),
      )
