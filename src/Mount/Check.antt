-- ===== src/Mount/Check.antt =====
-- halevt-mount/halevt-mount.c: `halevt_mount_check_udi`, which brings a volume up to date with HAL,
-- and the loop of `halevt_mount_sync_udi`, which takes the volumes out that are gone.
pub mod Sound
pub mod Loop
pub mod Kept
use gnu_halevt.Base.{
  ℕ, Bool, true, false, List, [], ◌∷◌, ◌++◌, Option, none, some, Bytes, codes, str_eq,
  if◌then◌else◌, ◌>>=◌,
}
use gnu_halevt.Hal.{Hal}
use gnu_halevt.Mount.{Volume, parse_file}

-- `exists` is `libhal_device_exists`. The outer `none` is the exit of the program, the inner one
-- the result 0.
module _ {Double : Type 0} (hal : Hal Double) (exists : Bytes → Bool) where
  unfoldable pub checked_mount : Volume → Option (Option Volume)
  checked_mount v =
      if hal.device_property_exists v.udi (codes "volume.is_mounted")
      then if hal.property_bool v.udi (codes "volume.is_mounted")
        then if hal.device_property_exists v.udi (codes "volume.mount_point")
          then (do
            hal_mountpoint ← hal.property_string v.udi (codes "volume.mount_point")
            some (some (record v { mountpoint = some hal_mountpoint })))
          else some none
        else some (some (record v { mountpoint = none }))
      else some none

  unfoldable pub checked_ignore : Volume → Volume
  checked_ignore v =
      if hal.device_property_exists v.udi (codes "volume.ignore")
      then record v { ignore = if hal.property_bool v.udi (codes "volume.ignore") then 1 else 2 }
      else v

  unfoldable pub checked_filesystem : Bytes → Volume → Option (Option Volume)
  unfolding checked_mount checked_ignore
  checked_filesystem hal_fsusage v =
      if str_eq hal_fsusage (codes "filesystem")
      then checked_mount (checked_ignore v)
      else some none

  unfoldable pub checked_usage : Volume → Option (Option Volume)
  unfolding checked_filesystem
  checked_usage v =
      if hal.device_property_exists v.udi (codes "volume.fsusage")
      then (do
        hal_fsusage ← hal.property_string v.udi (codes "volume.fsusage")
        checked_filesystem hal_fsusage v)
      else some none

  unfoldable pub checked_device : Volume → Option (Option Volume)
  unfolding checked_usage
  checked_device v =
      if hal.device_property_exists v.udi (codes "block.device")
      then (do
        hal_device ← hal.property_string v.udi (codes "block.device")
        checked_usage (record v { device = some hal_device }))
      else some none

  unfoldable pub check_udi : Volume → Option (Option Volume)
  unfolding checked_device
  check_udi v =
      if exists v.udi
      then if hal.device_property_exists v.udi (codes "block.is_volume")
        then if hal.property_bool v.udi (codes "block.is_volume")
          then checked_device v
          else some none
        else some none
      else some none

-- `halevt_mount_remove_udi` for the volume behind `front`, which are the volumes from the root of
-- the list to `previous_udi`, the last one first; it is empty where `previous_udi` and the root
-- are the volume itself. The test whether `previous_udi` is the root holds for one volume in front
-- too, and then the root becomes what follows the removed volume.
unfoldable pub remove_udi : List Volume → List Volume
remove_udi [] = []
remove_udi (first ∷ []) = []
remove_udi (previous ∷ before ∷ front) = previous ∷ before ∷ front

abbrev pub in_order : List Volume → List Volume → List Volume
in_order [] acc = acc
in_order (v ∷ front) acc = in_order front (v ∷ acc)

unfoldable pub keep_or_remove : List Volume → Option Volume → List Volume
unfolding remove_udi
keep_or_remove front none = remove_udi front
keep_or_remove front (some v) = v ∷ front

module _ (check : Volume → Option (Option Volume)) where
  -- The loop over the volumes; `none` is the exit of the program.
  unfoldable pub sync_loop : List Volume → List Volume → Option (List Volume)
  unfolding keep_or_remove
  sync_loop front [] = some (in_order front [])
  sync_loop front (v ∷ vs) = do checked ← check v; sync_loop (keep_or_remove front checked) vs

  -- `halevt_mount_sync_udi`: a file that is not there changes nothing. The list is empty before.
  unfoldable pub sync_udi : ℕ → Option Bytes → Option (List Volume)
  unfolding parse_file sync_loop
  sync_udi left none = some []
  sync_udi left (some file) = do read ← parse_file left [] file; sync_loop [] read
