-- ===== src/Mount/Commands.antt =====
-- halevt-mount/halevt-mount.c: what `main` does for each command, and the options of a mount.
pub mod Cleaned
pub mod Unmounted
pub mod Mounted
use gnu_halevt.Base.{
  ℕ, ◌+◌, Bool, true, false, not, ◌&&◌, ◌||◌, List, [], ◌∷◌, ◌++◌, map, Option, none, some, Bytes,
  codes, length, strcat, str_eq, print_int, snprintf, if◌then◌else◌, ◌>>=◌,
}
use gnu_halevt.Hal.{Hal}
use gnu_halevt.Mount.{Volume, parse_file, print_udis}
use gnu_halevt.Mount.Check.{check_udi, keep_or_remove, in_order, sync_udi}
use gnu_halevt.Mount.Find.{Wanted, find_udi}
use gnu_halevt.Mount.Add.{new_udi, add_udi, asked}
use gnu_halevt.Mount.Options.{Options, umask_option, add_option, joined, is_none}
use gnu_halevt.Mount.World.{
  Files, Call, mount_call, umount_call, Outcome, World, ended, or_exit, Written, written, failed,
  write_tmp, rename_tmp, unlink_device_file, unlink_tmp, and_then, rewrite_device_file, system_user,
}

abbrev pub uid_option : Bytes
uid_option = codes "uid="

unfoldable pub is_listed : Bytes → List Bytes → Bool
is_listed option [] = false
is_listed option (valid ∷ rest) = if str_eq valid option then true else is_listed option rest

unfoldable pub is_valid_option : Option (List Bytes) → Bytes → Bool
unfolding is_listed
is_valid_option none option = false
is_valid_option (some valid_options) option = is_listed option valid_options

-- The udi of a volume that is taken out.
unfoldable pub is_found : List Volume → Volume → Bool
is_found [] v = false
is_found (found ∷ rest) v = if str_eq v.udi found.udi then true else is_found rest v

-- The loop that takes volumes out, as in `halevt_mount_sync_udi`.
unfoldable pub clean_loop : List Volume → List Volume → List Volume → List Volume
unfolding is_found
clean_loop found front [] = in_order front []
clean_loop found front (v ∷ vs) =
    clean_loop found (keep_or_remove front (if is_found found v then none else some v)) vs

unfoldable pub umount_calls : List Volume → List Call
umount_calls [] = []
umount_calls (v ∷ vs) = umount_call v.udi ∷ umount_calls vs

-- No mountpoint is the empty one.
abbrev pub or_empty : Option Bytes → Bytes
or_empty none = []
or_empty (some s) = s

module _ {Double : Type 0} (w : World Double) where
  open w use {hal, exists, mounts, unmounts, left, connects, getuid}

  -- `halevt_mount_check_mount_option`
  unfoldable pub check_mount_option : Volume → Bytes → Bool
  unfolding is_valid_option
  check_mount_option v option =
      exists v.udi
      && (hal.device_property_exists v.udi (codes "volume.mount.valid_options")
          && is_valid_option (hal.property_strlist v.udi (codes "volume.mount.valid_options"))
              option)

  unfoldable pub add_mask : Volume → Option Bytes → List Bytes → List Bytes
  unfolding check_mount_option add_option
  add_mask v none options_array = options_array
  add_mask v (some mask_string) options_array =
      if check_mount_option v umask_option
      then add_option options_array mask_string
      else options_array

  -- "uid=" and the number, which is printed into 50 bytes.
  unfoldable pub add_uid : Volume → List Bytes → Option (List Bytes)
  unfolding check_mount_option add_option joined snprintf
  add_uid v options_array =
      if not (system_user w) && check_mount_option v uid_option
      then (do
        uid_string ← joined uid_option (snprintf 49 (print_int getuid))
        some (add_option options_array uid_string))
      else some options_array

  unfoldable pub mount_options : Volume → Options → Option (List Bytes)
  unfolding add_mask add_uid
  mount_options v o = add_uid v (add_mask v o.mask_string o.options_array)

  -- The call of Mount, and the rename behind it.
  unfoldable pub call_mount : Volume → Bytes → List Bytes → Files → Outcome
  unfolding rename_tmp
  call_mount v mountpoint options files =
      let calls = mount_call v.udi mountpoint options ∷ [] in
      if mounts v.udi mountpoint options
      then record { status = 0; files = rename_tmp w files; stdout = []; calls = calls }
      else record { status = 1; files = files; stdout = []; calls = calls }

  unfoldable pub do_mount : Volume → Options → Files → Outcome
  unfolding mount_options call_mount or_exit
  do_mount v o files =
      or_exit (mount_options v o) files
        (λ options. call_mount v (or_empty o.mountpoint) options files)

  unfoldable pub do_add : Files → Outcome
  unfolding rename_tmp
  do_add files = if w.can_rename then ended 0 (rename_tmp w files) else ended 1 files

  -- The first volume that is found, or a new one in front of the others.
  unfoldable pub first_or_new : List Volume → Options → List Volume → Option (Volume × List Volume)
  unfolding add_udi
  first_or_new [] o vs = do v ← add_udi hal exists hal.all_devices o.udi o.device; some (v, v ∷ vs)
  first_or_new (found ∷ rest) o vs = some (found, vs)

  unfoldable pub choose_volume : Options → List Volume → Option (Volume × List Volume)
  unfolding find_udi first_or_new
  choose_volume o vs = do found ← find_udi (asked o.udi o.device) vs; first_or_new found o vs

  unfoldable pub mount_or_add : Bytes → Options → List Volume → Files → Outcome
  unfolding write_tmp and_then do_mount do_add or_exit
  mount_or_add cmd o vs files =
      if is_none o.udi && is_none o.device
      then ended 1 files
      else or_exit (choose_volume o vs) files (λ (chosen : Volume × List Volume).
        and_then (write_tmp w chosen.1 files)
          (λ next. if str_eq cmd (codes "add") then do_add next else do_mount chosen.0 o next))

  unfoldable pub any_unmounted : List Volume → Bool
  any_unmounted [] = false
  any_unmounted (v ∷ vs) = unmounts v.udi || any_unmounted vs

  unfoldable pub umount_found : List Volume → Files → Outcome
  unfolding any_unmounted umount_calls
  umount_found found files = record {
    status = if any_unmounted found then 0 else 1;
    files = files;
    stdout = [];
    calls = umount_calls found;
  }

  unfoldable pub take_out : Bytes → List Volume → List Volume → Files → Outcome
  unfolding umount_found clean_loop rewrite_device_file
  take_out cmd [] vs files = ended 1 files
  take_out cmd (v ∷ found) vs files =
      if str_eq cmd (codes "umount")
      then umount_found (v ∷ found) files
      else rewrite_device_file w (clean_loop (v ∷ found) [] vs) files

  unfoldable pub umount_all : Bytes → List Volume → Files → Outcome
  unfolding umount_calls rewrite_device_file
  umount_all cmd vs files =
      record (if str_eq cmd (codes "clean")
        then rewrite_device_file w vs files
        else ended 0 files) { calls = umount_calls vs }

  -- `arg` is the argument behind the options.
  unfoldable pub umount_or_clean : Bytes → Options → Option Bytes → List Volume → Files → Outcome
  unfolding find_udi take_out or_exit
  umount_or_clean cmd o arg vs files =
      if is_none o.udi
        && (is_none o.device && (is_none o.mountpoint && (is_none arg && not o.do_all)))
      then ended 1 files
      else if o.do_all
      then umount_all cmd vs files
      else or_exit
          (find_udi
            (record {
              udi = o.udi;
              device = o.device;
              mountpoint = o.mountpoint;
              device_mountpoint_udi = arg;
            })
            vs)
          files (λ found. take_out cmd found vs files)
