-- ===== src/Mount/Main/Stored.antt =====
-- What a command leaves in the device file, read back by the next run; and the runs that never get
-- to a command.
use gnu_halevt.Base.{
  ℕ, true, false, ◌&&◌, List, [], ◌∷◌, ◌++◌, Option, none, some, Bytes, codes, str_eq, ◌≡◌, refl,
  sym, ap, ◌∙◌, All, >>=-eq-some,
}
use gnu_halevt.Mount.{Volume, print_udis, parse_file}
use gnu_halevt.Mount.RoundTrip.{IsStored, read_back, parse_file-print_udis}
use gnu_halevt.Mount.Find.{wanted, find_udi, find_udi-some}
use gnu_halevt.Mount.Add.{add_udi, asked}
use gnu_halevt.Mount.Add.Found.{wanted-add_udi}
use gnu_halevt.Mount.Options.{Options, options, defaults, read_options, choose_cmd, Places, is_none}
use gnu_halevt.Mount.Options.Settled.{choose_places_without}
use gnu_halevt.Mount.World
use gnu_halevt.Mount.World.{
  Files, Outcome, World, or_exit, Written, written, failed, write_tmp, rename_tmp, and_then,
  rewrite_device_file, system_user,
}
use gnu_halevt.Mount.Commands.{first_or_new, choose_volume, mount_or_add, do_add}
use gnu_halevt.Mount.Main.{
  finished, main_at, main_with, after_options, main, directory_ready, run_command,
}

module _ {Double : Type 0} (w : World Double) where
  -- The temporary file can be written, to its last byte, and renamed.
  abbrev pub CanStore : Type 0
  CanStore =
      (w.can_open ≡ true) × (w.can_write ≡ true) × (w.can_flush ≡ true) × (w.can_rename ≡ true)

  -- The volume that is chosen is the first of those that are asked for, in the new list.
  first_or_new-wanted :
      (o : Options) (vs found : List Volume) (v : Volume) (all : List Volume)
      → wanted (asked o.udi o.device) vs ≡ found
      → first_or_new w found o vs ≡ some (v, all)
      → (rest : List Volume) × (wanted (asked o.udi o.device) all ≡ v ∷ rest)
  unfolding first_or_new
  first_or_new-wanted o vs [] v all is h =
      let (new, e, e') =
        >>=-eq-some (add_udi w.hal w.exists w.hal.all_devices o.udi o.device)
          (λ new. some (new, new ∷ vs)) h in
      let same : new ≡ v = cc in
      let grown : new ∷ vs ≡ all = cc in
      let first = wanted-add_udi w.hal w.exists w.hal.all_devices o.udi o.device new vs e in
      (
        wanted (asked o.udi o.device) vs,
        ap (wanted (asked o.udi o.device)) (sym grown)
            ∙ first
            ∙ ap (λ y. y ∷ wanted (asked o.udi o.device) vs) same,
      )
  first_or_new-wanted o vs (x ∷ rest) v all is h =
      let same : x ≡ v = cc in
      let kept : vs ≡ all = cc in
      (rest, ap (wanted (asked o.udi o.device)) (sym kept) ∙ is ∙ ap (λ y. y ∷ rest) same)

  choose_volume-wanted :
      (o : Options) (vs : List Volume) (v : Volume) (all : List Volume)
      → choose_volume w o vs ≡ some (v, all)
      → (rest : List Volume) × (wanted (asked o.udi o.device) all ≡ v ∷ rest)
  unfolding choose_volume
  choose_volume-wanted o vs v all h =
      let (found, e, h') =
        >>=-eq-some (find_udi (asked o.udi o.device) vs) (λ found. first_or_new w found o vs) h in
      first_or_new-wanted o vs found v all (sym (find_udi-some (asked o.udi o.device) vs found e))
        h'

  module _ (can : CanStore) where
    -- The command "add" for the volume that was chosen.
    add_stores :
        (o : Options) (vs : List Volume) (files : Files) (v : Volume) (all : List Volume)
        → (is_none o.udi && is_none o.device) ≡ false
        → choose_volume w o vs ≡ some (v, all)
        → mount_or_add w (codes "add") o vs files
          ≡ World.ended 0
              (record { device_file = some (print_udis false all); tmp_device_file = none })
    unfolding mount_or_add or_exit and_then write_tmp do_add rename_tmp str_eq
    add_stores o vs files v all asked_for chosen =
        rw (asked_for, chosen) (rw (can.0, can.1, can.2) (rw can.3 refl))

    -- Where "add" finds or makes a volume and can write its file, it ends with status 0, and the
    -- next run reads from the file every volume of the list, in which the first that is asked for
    -- is this volume.
    pub add_read_back :
        (o : Options) (arg : Option Bytes) (vs : List Volume) (files : Files) (v : Volume)
        (all : List Volume)
        → (is_none o.udi && is_none o.device) ≡ false
        → choose_volume w o vs ≡ some (v, all)
        → All IsStored all
        → let out = run_command w (codes "add") o arg vs files in
          (out.status ≡ 0)
          × (text : Bytes) × (out.files.device_file ≡ some text)
          × (parse_file w.left [] text ≡ some (read_back w.left all []))
          × (rest : List Volume) × (wanted (asked o.udi o.device) all ≡ v ∷ rest)
    unfolding run_command str_eq
    add_read_back o arg vs files v all asked_for chosen stored =
        let e = add_stores o vs files v all asked_for chosen in
        let (rest, is) = choose_volume-wanted o vs v all chosen in
        (
          ap (λ (out : Outcome). out.status) e,
          print_udis false all,
          ap (λ (out : Outcome). out.files.device_file) e,
          parse_file-print_udis w.left all [] stored,
          rest,
          is,
        )

  main_with_without :
      (cmd : Bytes) (o : Options) (arg : Option Bytes) (places : Places) (files : Places → Files)
      → places.directory ≡ none
      → main_with w cmd o arg files (some places) ≡ finished places (World.ended 1 (files places))
  unfolding main_with main_at directory_ready
  main_with_without cmd o arg places files h = rw h refl

  -- With both files given by options -n and -f, and no directory by -i, the program never gets to
  -- a command: it ends with status 1, and the files are as they were.
  pub main_without_directory :
      (argv_0 : Bytes) (args : List (ℕ × Bytes)) (arg : Option Bytes) (files : Places → Files)
      (o : Options) (lockfile device_file : Bytes)
      → read_options (system_user w) args defaults ≡ options o
      → o.lockfile ≡ some lockfile
      → o.device_file ≡ some device_file
      → o.directory ≡ none
      → let places : Places = record {
        directory = none;
        lockfile = lockfile;
        device_file = device_file;
        tmp_device_file = device_file ++ codes ".tmp";
      } in
        main w argv_0 args arg files ≡ finished places (World.ended 1 (files places))
  unfolding main after_options
  main_without_directory argv_0 args arg files o lockfile device_file read p q r =
      rw
        (
          read,
          choose_places_without w.localstatedir (system_user w) w.home o lockfile device_file p q r,
        )
        (main_with_without (choose_cmd argv_0 o.cmd) o arg _ files refl)
