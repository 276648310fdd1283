-- ===== src/Mount/Add.antt =====
-- halevt-mount/halevt-mount.c: `halevt_mount_new_udi` and `halevt_mount_add_udi`, which make a
-- volume of a udi or of a device that HAL knows.
pub mod Found
use gnu_halevt.Base.{
  ℕ, Bool, true, false, ◌||◌, List, [], ◌∷◌, Option, none, some, Bytes, codes, str_eq, str_eq_self,
  str_eq_iff, if◌then◌else◌, ◌>>=◌, >>=-eq-some, ◌≡◌, refl, sym, ap, ◌∙◌, arith, ◌⊎◌, inl, inr,
  Bool-cases,
}
use gnu_halevt.Hal.{Hal}
use gnu_halevt.Mount.{Volume}
use gnu_halevt.Mount.Check.{check_udi}
use gnu_halevt.Mount.Check.Sound.{check_udi-HasMountpoint}
use gnu_halevt.Mount.Find.{Wanted, is_given, is_wanted, find_udi, wanted, find_udi-wanted}

unfoldable pub new_udi : Bytes → Volume
new_udi udi = record { udi = udi; device = none; mountpoint = none; ignore = 0 }

-- A device that HAL accepts is the one if its device is: `some none` goes on to the next, `none` is
-- a NULL device that `strcmp` gets.
unfoldable pub same_device : Bytes → Option Volume → Option (Option Volume)
same_device device none = some none
same_device device (some v) = do
  found ← v.device
  some (if str_eq found device then some v else none)

-- The loop ends with the first.
unfoldable pub or_continue : Option Volume → Option (Option Volume) → Option (Option Volume)
or_continue none rest = rest
or_continue (some v) rest = some (some v)

module _ {Double : Type 0} (hal : Hal Double) (exists : Bytes → Bool) where
  unfoldable pub try_device : Bytes → Bytes → Option (Option Volume)
  unfolding new_udi same_device
  try_device device current_device = do
    checked ← check_udi hal exists (new_udi current_device)
    same_device device checked

  unfoldable pub search_devices : Bytes → List Bytes → Option (Option Volume)
  unfolding try_device or_continue
  search_devices device [] = some none
  search_devices device (current_device ∷ all_devices) = do
    tried ← try_device device current_device
    or_continue tried (search_devices device all_devices)

  -- Without a device nothing is searched for; HAL has to give the devices.
  unfoldable pub search_for : Option (List Bytes) → Option Bytes → Option (Option Volume)
  unfolding search_devices
  search_for all_devices none = some none
  search_for none (some device) = none
  search_for (some all_devices) (some device) = search_devices device all_devices

  unfoldable pub by_udi : Option Bytes → Option Volume
  unfolding new_udi
  by_udi none = none
  by_udi (some udi) = do checked ← check_udi hal exists (new_udi udi); checked

  unfoldable pub found_or_udi : Option Volume → Option Bytes → Option Volume
  unfolding by_udi
  found_or_udi none udi = by_udi udi
  found_or_udi (some v) udi = some v

  -- The new volume; `halevt_mount_add_udi` puts it in front of the list. `none` is the exit.
  unfoldable pub add_udi : Option (List Bytes) → Option Bytes → Option Bytes → Option Volume
  unfolding search_for found_or_udi
  add_udi all_devices udi device = do found ← search_for all_devices device; found_or_udi found udi

abbrev pub asked : Option Bytes → Option Bytes → Wanted
asked udi device = record {
  udi = udi;
  device = device;
  mountpoint = none;
  device_mountpoint_udi = none;
}
