-- ===== src/Mount/Options.antt =====
-- halevt-mount/halevt-mount.c: the options of `main`, the command by the name of the program, and
-- the files. `getopt` is a parameter: the letters that it gives, with their arguments.
pub mod Settled
use gnu_halevt.Base.{
  ℕ, ◌+◌, Bool, true, false, not, ◌&&◌, ◌||◌, List, [], ◌∷◌, ◌++◌, Option, none, some, Bytes, codes,
  length, tail, strcat, str_eq, ◌==◌, if◌then◌else◌, ◌>>=◌,
}

pub record Options : Type 0 where
  pub directory : Option Bytes
  pub device_file : Option Bytes
  pub udi : Option Bytes
  pub lockfile : Option Bytes
  pub device : Option Bytes
  pub mountpoint : Option Bytes
  pub options_array : List Bytes
  pub mask_string : Option Bytes
  pub do_all : Bool
  pub cmd : Option Bytes

abbrev pub defaults : Options
defaults = record {
  directory = none;
  device_file = none;
  udi = none;
  lockfile = none;
  device = none;
  mountpoint = none;
  options_array = [];
  mask_string = none;
  do_all = false;
  cmd = none;
}

abbrev pub umask_option : Bytes
umask_option = codes "umask="

-- An option is read, or the program ends with a status. `overrun` would be a write outside of a
-- buffer.
pub data Read : Type 0 where
  options : Options → Read
  ended : ℕ → Read
  overrun : Read

-- `halevt_mount_add_option`
unfoldable pub add_option : List Bytes → Bytes → List Bytes
add_option options_array option = options_array ++ option ∷ []

unfoldable pub set_mask : Options → Option Bytes → Read
set_mask o none = overrun
set_mask o (some mask) = options (record o { mask_string = some mask })

-- "umask=" and the argument, in a buffer of their size.
unfoldable pub mask_of : Bytes → Option Bytes
unfolding strcat
mask_of optarg = do
  let size = 1 + length optarg + length umask_option
  start ← strcat size [] umask_option
  strcat size start optarg

abbrev with_cmd : Options → Bytes → Read
with_cmd o cmd = options (record o { cmd = some cmd })

-- The `switch` of the loop over the options.
unfoldable pub handle_option : Bool → ℕ → Bytes → Options → Read
unfolding add_option
handle_option system_user c optarg o =
    if c == b'i'
    then options (record o { directory = some optarg })
    else if c == b'f'
    then options (record o { device_file = some optarg })
    else if c == b'u'
    then options (record o { udi = some optarg })
    else if c == b'n'
    then options (record o { lockfile = some optarg })
    else if c == b'd'
    then options (record o { device = some optarg })
    else if c == b'p'
    then options (record o { mountpoint = some optarg })
    else if c == b'o'
    then options (record o { options_array = add_option o.options_array optarg })
    else if c == b'm'
    then (if system_user then set_mask o (mask_of optarg) else options o)
    else if c == b'a'
    then options (record o { do_all = true })
    else if c == b'l'
    then with_cmd o (codes "list")
    else if c == b's'
    then with_cmd o (codes "sync")
    else if c == b'c'
    then with_cmd o (codes "clean")
    else if c == b'r'
    then with_cmd o (codes "umount")
    else if c == b'w'
    then with_cmd o (codes "add")
    else if c == b'h'
    then ended 0
    else options o

unfoldable pub after_option : (Options → Read) → Read → Read
after_option rest (options o) = rest o
after_option rest other = other

unfoldable pub read_options : Bool → List (ℕ × Bytes) → Options → Read
unfolding handle_option after_option
read_options system_user [] o = options o
read_options system_user ((c, optarg) ∷ args) o =
    after_option (λ next. read_options system_user args next) (handle_option system_user c optarg o)

-- `strrchr`: the text from the last such byte on.
unfoldable pub strrchr : ℕ → Bytes → Option Bytes
strrchr x [] = none
strrchr x (c ∷ cs) =
    let later = strrchr x cs in
    elim later [ some place ↦ some place | none ↦ if c == x then some (c ∷ cs) else none ]

unfoldable pub name_of : Bytes → Option Bytes → Bytes
name_of argv_0 none = argv_0
name_of argv_0 (some place) = tail place

-- Without an option for it the command is told by the name of the program.
unfoldable pub choose_cmd : Bytes → Option Bytes → Bytes
unfolding strrchr name_of
choose_cmd argv_0 none =
    if str_eq (name_of argv_0 (strrchr b'/' argv_0)) (codes "halevt-umount")
    then codes "umount"
    else codes "mount"
choose_cmd argv_0 (some cmd) = cmd

-- Where the program works; `directory` stays NULL where it is not needed for the two files.
pub record Places : Type 0 where
  pub directory : Option Bytes
  pub lockfile : Bytes
  pub device_file : Bytes
  pub tmp_device_file : Bytes

-- A text and what is put behind it, in a buffer of their size.
unfoldable pub joined : Bytes → Bytes → Option Bytes
unfolding strcat
joined a b = do let size = 1 + length a + length b; start ← strcat size [] a; strcat size start b

abbrev pub is_none {ℓ} : {A : Type ℓ} → Option A → Bool
is_none none = true
is_none (some a) = false

-- What the build was configured with: LOCALSTATEDIR.
module _ (localstatedir : Bytes) where
  -- The outer `none` is the exit of the program where HOME is not set.
  unfoldable pub default_directory : Bool → Option Bytes → Option Bytes
  unfolding joined
  default_directory true home = some (localstatedir ++ codes "/lib/halevt")
  default_directory false none = none
  default_directory false (some home) = joined home (codes "/.halevt-mount")

  unfoldable pub choose_directory : Bool → Option Bytes → Options → Option (Option Bytes)
  unfolding default_directory
  choose_directory system_user home o =
      if (is_none o.lockfile || is_none o.device_file) && is_none o.directory
      then (do directory ← default_directory system_user home; some (some directory))
      else some o.directory

  -- The file that is given, or its name in the directory.
  unfoldable pub or_in : Option Bytes → Bytes → Option Bytes → Option Bytes
  unfolding joined
  or_in directory name (some file) = some file
  or_in none name none = none
  or_in (some directory) name none = joined directory name

  unfoldable pub choose_places : Bool → Option Bytes → Options → Option Places
  unfolding choose_directory or_in
  choose_places system_user home o = do
    directory ← choose_directory system_user home o
    lockfile ← or_in directory (codes "/halevt.lock") o.lockfile
    device_file ← or_in directory (codes "/uditab") o.device_file
    tmp_device_file ← joined device_file (codes ".tmp")
    some (record {
      directory = directory;
      lockfile = lockfile;
      device_file = device_file;
      tmp_device_file = tmp_device_file;
    })
