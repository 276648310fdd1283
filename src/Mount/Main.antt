-- ===== src/Mount/Main.antt =====
-- halevt-mount/halevt-mount.c: the listing of the devices, the choice among the commands, and
-- `main` from its options to its end.
pub mod Current
pub mod Whole
pub mod Stored
use gnu_halevt.Base.{
  ℕ, Bool, true, false, not, ◌&&◌, ◌||◌, List, [], ◌∷◌, ◌++◌, Option, none, some, Bytes, codes,
  str_eq, if◌then◌else◌, ◌>>=◌,
}
use gnu_halevt.Hal.{Hal}
use gnu_halevt.Mount.{Volume, parse_file, print_udis}
use gnu_halevt.Mount.Check.{check_udi, sync_udi}
use gnu_halevt.Mount.Add.{new_udi}
use gnu_halevt.Mount.Options.{
  Options, Read, options, ended, overrun, defaults, read_options, choose_cmd, Places, choose_places,
}
use gnu_halevt.Mount.World
use gnu_halevt.Mount.World.{
  Files, Outcome, World, or_exit, unlink_device_file, unlink_tmp, rewrite_device_file, system_user,
}
use gnu_halevt.Mount.Commands.{mount_or_add, umount_or_clean}

unfoldable link_checked : Option Volume → List Volume → List Volume
link_checked none root = root
link_checked (some v) root = v ∷ root

-- The program ends before it has chosen its files, or with what it left in them, or it writes
-- outside of a buffer.
pub data Result : Type 0 where
  stopped : ℕ → Result
  finished : Places → Outcome → Result
  crashed : Result

module _ {Double : Type 0} (w : World Double) where
  open w use {hal, exists, connects, left, home, is_there, mkdir}

  -- All the devices that are volumes, the last one first; `none` is the exit of the program.
  unfoldable pub check_devices : List Bytes → List Volume → Option (List Volume)
  unfolding new_udi link_checked
  check_devices [] root = some root
  check_devices (current_device ∷ all_devices) root = do
    checked ← check_udi hal exists (new_udi current_device)
    check_devices all_devices (link_checked checked root)

  abbrev listed : ℕ → Bytes → Files → Outcome
  listed status text files = record { status = status; files = files; stdout = text; calls = [] }

  abbrev handled : List Volume → Bytes
  handled vs = codes "Devices handled:\n" ++ print_udis false vs

  unfoldable pub list_devices : List Volume → Files → Option (List Volume) → Outcome
  list_devices vs files none = listed 1 (handled vs) files
  list_devices vs files (some devices) =
      listed 0 (handled vs ++ (codes "\nAll devices:\n" ++ print_udis true devices)) files

  unfoldable pub list_all : List Volume → Files → Outcome
  unfolding check_devices list_devices
  list_all vs files =
      list_devices vs files (do all_devices ← hal.all_devices; check_devices all_devices [])

  -- The commands that need HAL, for the volumes that are left after the synchronisation.
  unfoldable pub run_command : Bytes → Options → Option Bytes → List Volume → Files → Outcome
  unfolding rewrite_device_file list_all mount_or_add umount_or_clean
  run_command cmd o arg vs files =
      if str_eq cmd (codes "sync")
      then rewrite_device_file w vs files
      else if str_eq cmd (codes "list")
      then list_all vs files
      else if str_eq cmd (codes "mount") || str_eq cmd (codes "add")
      then mount_or_add w cmd o vs files
      else if str_eq cmd (codes "umount") || str_eq cmd (codes "clean")
      then umount_or_clean w cmd o arg vs files
      else World.ended 0 files

  -- A list without HAL: what is in the file.
  unfoldable pub list_file : Option (List Volume) → Files → Outcome
  list_file none files = World.ended 0 files
  list_file (some vs) files = listed 0 (print_udis false vs) files

  unfoldable pub list_handled : Option Bytes → Files → Outcome
  unfolding parse_file list_file
  list_handled none files = World.ended 0 files
  list_handled (some text) files = list_file (parse_file left [] text) files

  unfoldable pub synchronised : Bytes → Options → Option Bytes → Files → Outcome
  unfolding run_command or_exit sync_udi
  synchronised cmd o arg files =
      if connects
      then or_exit (sync_udi (check_udi hal exists) left files.device_file) files
          (λ vs. run_command cmd o arg vs files)
      else World.ended 1 files

  -- Under the lock: a temporary file that an earlier run left is taken away.
  unfoldable pub locked : Bytes → Options → Option Bytes → Files → Outcome
  unfolding unlink_device_file list_handled synchronised
  locked cmd o arg files =
      if str_eq cmd (codes "clean") && o.do_all
      then World.ended 0 (unlink_device_file w files)
      else if str_eq cmd (codes "list") && not o.do_all
      then list_handled files.device_file files
      else synchronised cmd o arg files

  -- `stat` and `mkdir` fail where the directory is NULL.
  unfoldable pub directory_ready : Option Bytes → Bool
  directory_ready none = false
  directory_ready (some directory) = is_there directory || mkdir directory

  -- The two files at the places that are chosen are given.
  unfoldable pub main_at : Bytes → Options → Option Bytes → Places → Files → Outcome
  unfolding directory_ready locked unlink_tmp
  main_at cmd o arg places files =
      if directory_ready places.directory
      then locked cmd o arg (unlink_tmp w files)
      else World.ended 1 files

  unfoldable pub main_with :
      Bytes → Options → Option Bytes → (Places → Files) → Option Places → Result
  unfolding main_at
  main_with cmd o arg files none = stopped 1
  main_with cmd o arg files (some places) =
      finished places (main_at cmd o arg places (files places))

  unfoldable pub after_options : Bytes → Option Bytes → (Places → Files) → Read → Result
  unfolding choose_cmd main_with
  after_options argv_0 arg files (options o) =
      main_with (choose_cmd argv_0 o.cmd) o arg files
        (choose_places w.localstatedir (system_user w) home o)
  after_options argv_0 arg files (ended status) = stopped status
  after_options argv_0 arg files overrun = crashed

  -- `main` for the name of the program, the options and the argument behind them.
  unfoldable pub main : Bytes → List (ℕ × Bytes) → Option Bytes → (Places → Files) → Result
  unfolding after_options
  main argv_0 args arg files =
      after_options argv_0 arg files (read_options (system_user w) args defaults)
