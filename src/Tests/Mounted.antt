-- ===== src/Tests/Mounted.antt =====
-- Runs of halevt-mount.
use gnu_halevt.Base.{
  arith, map, ℕ, true, false, List, [], ◌∷◌, none, some, Bytes, codes, ◌≡◌, ◌≢◌, refl, str_eq, pos,
  All,
}
use gnu_halevt.Mount.{Volume, parse_file}
use gnu_halevt.Mount.RoundTrip.{read_back}
use gnu_halevt.Mount.Find.{Wanted, is_given, is_wanted, find_udi, wanted, find_udi-wanted}
use gnu_halevt.Mount.Add.{asked}
use gnu_halevt.Mount.Options.{Options, options, overrun, defaults, read_options, choose_cmd, Places}
use gnu_halevt.Mount.Options.Settled.{IsCommand, read_options-IsCommand}
use gnu_halevt.Mount.World
use gnu_halevt.Mount.World.{Files, Outcome, World, umount_call}
use gnu_halevt.Mount.Commands.{choose_volume, clean_loop, umount_or_clean}
use gnu_halevt.Mount.Commands.Cleaned.{clean_loop-wanted}
use gnu_halevt.Mount.Commands.Unmounted.{umount_status, meant, umount_or_clean-umount}
use gnu_halevt.Mount.Commands.Mounted.{mounted, run_command-mounted}
use gnu_halevt.Mount.Main.{finished, main, run_command}
use gnu_halevt.Mount.Main.Stored.{add_read_back, main_without_directory}
use gnu_halevt.Mount.Lock.{
  no_runs, open_file, lock_file, opens, locks, QuietReach, quiet_start, quiet_next,
}
use gnu_halevt.Mount.Lock.Alone.{QuietReach-working}
use gnu_halevt.Tests.Mounts.{usb, usb-IsStored, cd, all_mounted}

abbrev world : World ℕ
world = record {
  hal = all_mounted;
  exists = λ udi. true;
  connects = true;
  mounts = λ udi mountpoint options. true;
  unmounts = λ udi. true;
  can_unlink = true;
  can_open = true;
  can_write = true;
  can_flush = true;
  partial = [];
  can_rename = true;
  left = 7;
  getuid = pos 1000;
  pw_name = codes "me";
  home = some (codes "/home/me");
  is_there = λ directory. true;
  mkdir = λ directory. true;
  localstatedir = codes "/var";
  default_user = codes "haldaemon";
}

abbrev by_udi : Options
by_udi = record defaults { udi = some (codes "/usb") }

abbrev wants_usb : Wanted
wants_usb = asked (some (codes "/usb")) none

find_udi-wanted_example :
    find_udi wants_usb (usb ∷ cd ∷ usb ∷ usb ∷ [])
    ≡ some (wanted wants_usb (usb ∷ cd ∷ usb ∷ usb ∷ []))
find_udi-wanted_example = find_udi-wanted wants_usb (usb ∷ cd ∷ usb ∷ usb ∷ []) (omega arith)

clean_loop-wanted_example :
    All
      (λ v. is_wanted wants_usb v ≡ false)
      (clean_loop (wanted wants_usb (usb ∷ cd ∷ [])) [] (usb ∷ cd ∷ []))
clean_loop-wanted_example = clean_loop-wanted wants_usb (usb ∷ cd ∷ [])

abbrev stored : Files
stored = record { device_file = some (codes "/usb:sda\n"); tmp_device_file = none }

umount_or_clean-umount_example :
    umount_or_clean world (codes "umount") by_udi none (usb ∷ cd ∷ []) stored ≡ record {
      status = umount_status world by_udi (meant by_udi none (usb ∷ cd ∷ []));
      files = stored;
      stdout = [];
      calls = map (λ v. umount_call v.udi) (meant by_udi none (usb ∷ cd ∷ []));
    }
umount_or_clean-umount_example =
    umount_or_clean-umount world by_udi none (usb ∷ cd ∷ []) stored (omega arith)

abbrev places : Places
places = record {
  directory = some (codes "/home/me/.halevt-mount");
  lockfile = codes "/home/me/.halevt-mount/halevt.lock";
  device_file = codes "/home/me/.halevt-mount/uditab";
  tmp_device_file = codes "/home/me/.halevt-mount/uditab.tmp";
}

usb_chosen : choose_volume world by_udi (usb ∷ []) ≡ some (usb, usb ∷ [])
unfolding choose_volume str_eq is_given
usb_chosen = refl

add_read_back_example :
    let out = run_command world (codes "add") by_udi none (usb ∷ []) stored in
    (out.status ≡ 0)
    × (text : Bytes) × (out.files.device_file ≡ some text)
    × (parse_file 7 [] text ≡ some (read_back 7 (usb ∷ []) []))
    × (rest : List Volume) × (wanted wants_usb (usb ∷ []) ≡ usb ∷ rest)
add_read_back_example =
    add_read_back world (refl, refl, refl, refl) by_udi none (usb ∷ []) stored usb (usb ∷ []) refl
      usb_chosen (usb-IsStored, tt)

run_command-mounted_example :
    run_command world (codes "mount") by_udi none (usb ∷ []) stored
    ≡ mounted world 1000 usb by_udi (usb ∷ []) stored
run_command-mounted_example =
    run_command-mounted world 1000 refl (omega arith) by_udi none (usb ∷ []) stored usb (usb ∷ [])
      refl usb_chosen

abbrev own_files : List (ℕ × Bytes)
own_files = (b'n', codes "lock") ∷ (b'f', codes "tab") ∷ (b's', []) ∷ []

read_options-IsCommand_example :
    (read_options false own_files defaults ≢ overrun)
    × ((o : Options)
        → read_options false own_files defaults ≡ options o
        → IsCommand (choose_cmd (codes "/bin/halevt-mount") o.cmd))
read_options-IsCommand_example = read_options-IsCommand false own_files (codes "/bin/halevt-mount")

abbrev own_options : Options
own_options = record defaults {
  lockfile = some (codes "lock");
  device_file = some (codes "tab");
  cmd = some (codes "sync");
}

own_read : read_options false own_files defaults ≡ options own_options
unfolding read_options
own_read = refl

main_without_directory_example :
    main world (codes "halevt-mount") own_files none (λ places. stored)
    ≡ finished
        (record {
          directory = none;
          lockfile = codes "lock";
          device_file = codes "tab";
          tmp_device_file = codes "tab.tmp";
        })
        (World.ended 1 stored)
unfolding World.system_user
main_without_directory_example =
    main_without_directory world (codes "halevt-mount") own_files none (λ places. stored)
      own_options (codes "lock") (codes "tab") own_read refl refl refl

one_works : QuietReach (lock_file 4 0 (open_file 4 no_runs))
unfolding open_file
one_works =
    quiet_next (quiet_next quiet_start (opens 4 refl) tt)
      (locks 4 0 refl (λ other held h. ground arith)) tt

QuietReach-working_example : ◌≡◌ {A = ℕ} 4 4
unfolding open_file lock_file
QuietReach-working_example = QuietReach-working one_works 4 4 refl refl
