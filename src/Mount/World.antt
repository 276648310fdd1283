-- ===== src/Mount/World.antt =====
-- halevt-mount/halevt-mount.c: the files of `main` and the system around it, and
-- `halevt_mount_rewrite_device_file`.
use gnu_halevt.Base.{
  ℕ, Bool, false, List, [], ◌∷◌, Option, none, some, Bytes, str_eq, ℤ, pos, int_eq, ◌||◌,
  if◌then◌else◌,
}
use gnu_halevt.Hal.{Hal}
use gnu_halevt.Mount.{Volume, print_udis}

-- The device file and the temporary one beside it, where they are there.
pub record Files : Type 0 where
  pub device_file : Option Bytes
  pub tmp_device_file : Option Bytes

-- The calls of HAL over D-Bus: a udi, with the mountpoint and the options, or alone.
pub data Call : Type 0 where
  mount_call : Bytes → Bytes → List Bytes → Call
  umount_call : Bytes → Call

pub record Outcome : Type 0 where
  pub status : ℕ
  pub files : Files
  pub stdout : Bytes
  pub calls : List Call

-- The answers of the system while the program holds the lock. A file that is there can be read.
pub record World (Double : Type 0) : Type 0 where
  pub hal : Hal Double
  pub exists : Bytes → Bool
  pub connects : Bool
  pub mounts : Bytes → Bytes → List Bytes → Bool
  pub unmounts : Bytes → Bool
  pub can_unlink : Bool
  pub can_open : Bool
  -- `fprintf` takes every line; else the file is left with a part
  pub can_write : Bool
  -- what `fprintf` has buffered is written when the program ends; else the file is left with a
  -- part, and nobody is told
  pub can_flush : Bool
  pub partial : Bytes
  pub can_rename : Bool
  -- what `malloc` leaves in the field that the parse does not set
  pub left : ℕ
  pub getuid : ℤ
  pub pw_name : Bytes
  pub home : Option Bytes
  pub is_there : Bytes → Bool
  pub mkdir : Bytes → Bool
  pub localstatedir : Bytes
  pub default_user : Bytes

abbrev pub ended : ℕ → Files → Outcome
ended status files = record { status = status; files = files; stdout = []; calls = [] }

-- A step that may end the program, with status 1.
unfoldable pub or_exit {ℓ} : {A : Type ℓ} → Option A → Files → (A → Outcome) → Outcome
or_exit none files rest = ended 1 files
or_exit (some a) files rest = rest a

-- The temporary file is written, or the program ends.
pub data Written : Type 0 where
  written : Files → Written
  failed : Files → Written

module _ {Double : Type 0} (w : World Double) where
  unfoldable pub system_user : Bool
  unfolding str_eq int_eq
  system_user = str_eq w.pw_name w.default_user || int_eq w.getuid (pos 0)

  -- The bytes of a file that was written, when the program has ended. The file is never closed or
  -- flushed before that, so this happens behind a rename.
  unfoldable pub flushed : Bytes → Bytes
  flushed text = if w.can_flush then text else w.partial

  -- `fprintf` puts the lines into a buffer. Nothing reads the file before the end, so it is given
  -- the bytes that it has at the end.
  unfoldable pub write_tmp : List Volume → Files → Written
  unfolding flushed
  write_tmp vs files =
      if w.can_open
      then if w.can_write
        then written (record files { tmp_device_file = some (flushed (print_udis false vs)) })
        else failed (record files { tmp_device_file = some w.partial })
      else failed files

  unfoldable pub rename_tmp : Files → Files
  rename_tmp files =
      if w.can_rename
      then record { device_file = files.tmp_device_file; tmp_device_file = none }
      else files

  unfoldable pub unlink_device_file : Files → Files
  unlink_device_file files = if w.can_unlink then record files { device_file = none } else files

  unfoldable pub unlink_tmp : Files → Files
  unlink_tmp files = if w.can_unlink then record files { tmp_device_file = none } else files

unfoldable pub and_then : Written → (Files → Outcome) → Outcome
and_then (failed files) rest = ended 1 files
and_then (written files) rest = rest files

module _ {Double : Type 0} (w : World Double) where
  -- `halevt_mount_rewrite_device_file`, as the last thing that is done.
  unfoldable pub rewrite_device_file : List Volume → Files → Outcome
  unfolding write_tmp rename_tmp unlink_device_file and_then
  rewrite_device_file [] files = ended 0 (unlink_device_file w files)
  rewrite_device_file (v ∷ vs) files =
      and_then (write_tmp w (v ∷ vs) files) (λ next. ended 0 (rename_tmp w next))
