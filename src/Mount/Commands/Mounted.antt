-- ===== src/Mount/Commands/Mounted.antt =====
-- What "mount" asks of HAL, and what is in the files then.
use mathlib.Core.List.{append-nil}
use gnu_halevt.Base.{
  ℕ, ◌+◌, ◌<◌, ◌^◌, false, not, ◌&&◌, List, [], ◌∷◌, ◌++◌, Option, none, some, Bytes, codes,
  if◌then◌else◌, ◌≡◌, refl, sym, ap, ◌∙◌, inl, inr, Bool-cases, arith, length, strcat_lem, str_eq,
  snprintf, snprintf-fits, print_int, decimal, pos,
}
use gnu_halevt.Base.Numbers.Digits.{length-decimal}
use gnu_halevt.Mount.{Volume, print_udis}
use gnu_halevt.Mount.Options.{Options, umask_option, add_option, joined, is_none}
use gnu_halevt.Mount.World.{
  Files, Outcome, World, mount_call, ended, or_exit, write_tmp, flushed, and_then, rename_tmp,
  system_user,
}
use gnu_halevt.Mount.Commands.{
  uid_option, or_empty, check_mount_option, add_mask, add_uid, mount_options, call_mount, do_mount,
  choose_volume, mount_or_add,
}
use gnu_halevt.Mount.Main.{run_command}

module _ {Double : Type 0} (w : World Double) where
  abbrev masks : Volume → Option Bytes → List Bytes
  masks v none = []
  masks v (some mask) = if check_mount_option w v umask_option then mask ∷ [] else []

  -- The options of a mount: those of the command line, the umask and the uid where the volume
  -- takes such an option, the uid not for a user of the system.
  abbrev pub asked_options : Volume → Options → ℕ → List Bytes
  asked_options v o uid =
      (o.options_array ++ masks v o.mask_string)
      ++ (if not (system_user w) && check_mount_option w v uid_option
          then (uid_option ++ decimal uid) ∷ []
          else [])

  add_mask-masks :
      (v : Volume) (mask : Option Bytes) (xs : List Bytes)
      → add_mask w v mask xs ≡ xs ++ masks v mask
  unfolding add_mask add_option
  add_mask-masks v none xs = sym (append-nil xs)
  add_mask-masks v (some mask) xs = elim (Bool-cases (check_mount_option w v umask_option)) [
    | inl takes ↦ rw takes refl
    | inr not_taken ↦ rw not_taken (sym (append-nil xs))
  ]

  joined_lem : (a b : Bytes) → joined a b ≡ some (a ++ b)
  unfolding joined
  joined_lem a b =
      rw (strcat_lem (1 + length a + length b) [] a (omega arith)) (strcat_lem _ a b (omega arith))

  printed : (uid : ℕ) → uid < 2 ^ 31 → snprintf 49 (print_int (pos uid)) ≡ decimal uid
  unfolding print_int
  printed uid h =
      let short = length-decimal 9 uid (omega arith) in snprintf-fits 49 (decimal uid) (omega arith)

  -- The file when the program has ended: the text, or a part of it that nobody hears of.
  abbrev pub at_end : Bytes → Bytes
  at_end text = if w.can_flush then text else w.partial

  -- HAL is asked for the mount, and the new file is renamed where it is done.
  abbrev pub mounted : ℕ → Volume → Options → List Volume → Files → Outcome
  mounted uid v o all files =
      let mountpoint = or_empty o.mountpoint in
      let done = w.mounts v.udi mountpoint (asked_options v o uid) in
      let text = some (at_end (print_udis false all)) in
      record {
        status = if done then 0 else 1;
        files =
            if done && w.can_rename
            then record { device_file = text; tmp_device_file = none }
            else record files { tmp_device_file = text };
        stdout = [];
        calls = mount_call v.udi mountpoint (asked_options v o uid) ∷ [];
      }

  module _ (uid : ℕ) (is_uid : w.getuid ≡ pos uid) (in_range : uid < 2 ^ 31) where
    uid_string_lem :
        joined uid_option (snprintf 49 (print_int w.getuid)) ≡ some (uid_option ++ decimal uid)
    uid_string_lem =
        ap (λ n. joined uid_option (snprintf 49 (print_int n))) is_uid
        ∙ ap (joined uid_option) (printed uid in_range)
        ∙ joined_lem uid_option (decimal uid)

    mount_options-asked_options :
        (v : Volume) (o : Options) → mount_options w v o ≡ some (asked_options v o uid)
    unfolding mount_options add_uid add_option
    mount_options-asked_options v o =
        rw (add_mask-masks v o.mask_string o.options_array)
          (elim (Bool-cases (not (system_user w) && check_mount_option w v uid_option)) [
            | inl takes ↦ rw (takes, uid_string_lem) refl
            | inr not_taken ↦ rw not_taken (ap some (sym (append-nil _)))
          ])

    do_mount-mounted :
        (v : Volume) (o : Options) (all : List Volume) (files : Files)
        → do_mount w v o
            (record files { tmp_device_file = some (flushed w (print_udis false all)) })
          ≡ mounted uid v o all files
    unfolding do_mount call_mount or_exit rename_tmp flushed
    do_mount-mounted v o all files =
        rw (mount_options-asked_options v o)
          (elim (Bool-cases (w.mounts v.udi (or_empty o.mountpoint) (asked_options v o uid))) [
            | inl done ↦ rw done (elim (Bool-cases w.can_rename) [
              | inl renamed ↦ rw renamed refl
              | inr not_renamed ↦ rw not_renamed refl
            ])
            | inr refused ↦ rw refused refl
          ])

    -- For a volume that was found or made, "mount" first prints the list with it to the temporary
    -- file. Where the file cannot be opened or a line is refused it ends with status 1 and asks
    -- nothing of HAL. Else it asks HAL once,
    -- to mount this volume at the mountpoint that was given or the empty one, with the options of
    -- the command line, and the umask and the number of the user where the volume takes them. Where
    -- HAL mounts it, the status is 0, and the temporary file takes the place of the device file if
    -- it can be renamed; else the status is 1, and the device file is as it was. The new file holds
    -- the text of the list, or a part of it where the rest cannot be written at the end, which
    -- changes nothing of the status. The number of the user is below 2 ^ 31.
    pub run_command-mounted :
        (o : Options) (arg : Option Bytes) (vs : List Volume) (files : Files) (v : Volume)
        (all : List Volume)
        → (is_none o.udi && is_none o.device) ≡ false
        → choose_volume w o vs ≡ some (v, all)
        → run_command w (codes "mount") o arg vs files ≡ (
            if w.can_open
            then (if w.can_write
                then mounted uid v o all files
                else ended 1 (record files { tmp_device_file = some w.partial }))
            else ended 1 files)
    unfolding run_command mount_or_add or_exit and_then write_tmp str_eq system_user flushed
    run_command-mounted o arg vs files v all asked_for chosen =
        rw (asked_for, chosen)
          (elim (Bool-cases w.can_open) [
            | inr shut ↦ rw shut refl
            | inl opened ↦ rw opened (elim (Bool-cases w.can_write) [
              | inr full ↦ rw full refl
              | inl whole ↦ rw whole (do_mount-mounted v o all files)
            ])
          ])
