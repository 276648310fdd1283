-- ===== src/Daemon.antt =====
-- src/manager.c: `main` of the daemon, from its options to its end. `getopt` is a parameter: the
-- letters that it gives, with their arguments. The messages are left out.
pub mod Defs
pub mod Keeps
pub mod Identity
pub mod Start
pub mod Serves
use gnu_halevt.Base.{
  ℕ, Bool, true, false, ◌&&◌, List, [], ◌∷◌, ◌++◌, Option, none, some, Bytes, codes, str_eq, ◌==◌,
  if◌then◌else◌,
}
use gnu_halevt.Base.Numbers.{decimal}
use gnu_halevt.Expr.{BoolStuff}
use gnu_halevt.Config.Xml.{parse_config}
use gnu_halevt.ConfFiles.{find_conf_files}
use gnu_halevt.Daemon.Defs.{
  Effect, print_usage, set_gid, set_uid, read_conffile, print_config, walk_devices, daemonize,
  empty_file, write_file, run_loop, unlink_file, shut_down, System, Daemon, Exit, going, exited, M,
  pure, exit, perform, ◌>>=◌, ◌>>◌, status,
}

-- The local variables that the options set; `halevt_report` and `halevt_print_callbacks` are global.
pub record Options : Type 0 where
  pub conffiles : Option (List Bytes)
  pub user : Option Bytes
  pub group : Option Bytes
  pub pid_file : Option Bytes
  pub do_fork : Bool
  pub debug_config : Bool
  pub halevt_report : Bool
  pub halevt_print_callbacks : Bool

abbrev pub defaults : Options
defaults = record {
  conffiles = none;
  user = none;
  group = none;
  pid_file = none;
  do_fork = true;
  debug_config = false;
  halevt_report = false;
  halevt_print_callbacks = false;
}

abbrev pub or_default : Bytes → Option Bytes → Bytes
or_default default none = default
or_default default (some given) = given

abbrev pub dash_is_none : Bytes → Option Bytes
dash_is_none file = if str_eq file (codes "-") then none else some file

module _ {Tree : Type 0} (s : System) where
  open s use {
    is_root, getpwnam, getgrnam, setgid, setuid, stat, readdir, home, ctx_new, bus_get, ctx_init,
    watch_all, daemon, fopen, lockf, fprintf, getpid, main_loop_new,
  }

  unfoldable pub conffile_option : Option Bool → Bytes → Options → M Tree Options
  conffile_option none optarg o = exit 1
  conffile_option (some regular) optarg o = pure (record o { conffiles = some (optarg ∷ []) })

  -- The `switch` of the loop over the options.
  unfoldable pub handle_option : ℕ → Bytes → Options → M Tree Options
  unfolding conffile_option
  handle_option c optarg o =
      if c == b'c'
      then conffile_option (stat optarg) optarg o
      else if c == b'i'
      then pure (record o { halevt_report = true; halevt_print_callbacks = true; do_fork = false })
      else if c == b'u'
      then pure (record o { user = some optarg })
      else if c == b'g'
      then pure (record o { group = some optarg })
      else if c == b'p'
      then pure (record o { pid_file = some optarg })
      else if c == b'f'
      then pure (record o { do_fork = false })
      else if c == b'd'
      then pure (record o { debug_config = true; halevt_print_callbacks = true; do_fork = false })
      else if c == b'h'
      then perform print_usage >> exit 0
      else pure o

  unfoldable pub read_options : List (ℕ × Bytes) → Options → M Tree Options
  unfolding handle_option
  read_options [] o = pure o
  read_options ((c, optarg) ∷ rest) o = handle_option c optarg o >>= read_options rest

  -- The two calls that change the identity, the group first.
  unfoldable pub become : Option ℕ → Option ℕ → M Tree (Unit {0})
  become none gid = exit 1
  become (some uid) none = exit 1
  become (some uid) (some gid) =
      (if setgid gid then perform (set_gid gid) else exit 1)
      >> (if setuid uid then perform (set_uid uid) else exit 1)

  -- As root: the identity is changed, and "-" means no pid file.
  unfoldable pub change_identity : Options → M Tree (Option Bytes)
  unfolding become
  change_identity o =
      if is_root
      then become (getpwnam (or_default s.default_user o.user))
          (getgrnam (or_default s.default_group o.group))
        >> pure (dash_is_none (or_default s.pidfile o.pid_file))
      else pure o.pid_file

  module _ (boolstuff : BoolStuff Tree) where
    -- `halevt_parse_config` for the file; a result 0 ends the program.
    unfoldable pub parse_conffile : Bytes → M Tree (Unit {0})
    parse_conffile file d =
        let (config, ok) = parse_config boolstuff (s.document file) d.config in
        let d' : Daemon Tree = record { trace = read_conffile file ∷ d.trace; config = config } in
        (if ok then going tt else exited 1, d')

    unfoldable pub parse_conffiles : List Bytes → M Tree (Unit {0})
    unfolding parse_conffile
    parse_conffiles [] = pure tt
    parse_conffiles (file ∷ files) = parse_conffile file >> parse_conffiles files

    -- The file of the option, or the files that are found.
    unfoldable pub choose_conffiles : Option (List Bytes) → Option (List Bytes)
    unfolding find_conf_files
    choose_conffiles none = find_conf_files stat readdir s.sysconfdir s.datadir home
    choose_conffiles (some files) = some files

    unfoldable pub load_conffiles : Option (List Bytes) → M Tree (Unit {0})
    unfolding parse_conffiles
    load_conffiles none = exit 1
    load_conffiles (some []) = exit 1
    load_conffiles (some (file ∷ files)) = parse_conffiles (file ∷ files)

    unfoldable pub load_config : Options → M Tree (Unit {0})
    unfolding choose_conffiles load_conffiles
    load_config o =
        if o.halevt_report then pure tt else load_conffiles (choose_conffiles o.conffiles)

  -- `halevt_setup_HAL`: the connection, and then the walk over the devices (Events).
  unfoldable pub setup_hal : M Tree (Unit {0})
  setup_hal =
      if ctx_new && (bus_get && (ctx_init && watch_all)) then perform walk_devices else exit 1

  -- Opening the file for writing empties it, before the lock is asked for.
  unfoldable pub write_pid : Option Bytes → M Tree (Unit {0})
  write_pid none = pure tt
  write_pid (some file) =
      (if fopen file then perform (empty_file file) else exit 1)
      >> (if lockf file && fprintf file
          then perform (write_file file (decimal getpid ++ codes "\n"))
          else exit 1)

  unfoldable pub go_background : Bool → Option Bytes → M Tree (Unit {0})
  unfolding write_pid
  go_background do_fork pid_file =
      if do_fork
      then (if daemon then perform daemonize else exit 1) >> write_pid pid_file
      else pure tt

  -- `halevt_clear_pidfile`
  unfoldable pub clear_pidfile : Option Bytes → M Tree (Unit {0})
  clear_pidfile none = pure tt
  clear_pidfile (some file) = perform (unlink_file file)

  -- From `halevt_run_oninit`, which walks over the devices again, to the end.
  unfoldable pub serve : Bool → Option Bytes → M Tree ℕ
  unfolding clear_pidfile
  serve halevt_fork pid_file =
      perform walk_devices
      >> (if main_loop_new
          then perform run_loop
            >> (if halevt_fork then clear_pidfile pid_file else pure tt)
            >> perform shut_down
            >> pure 0
          else pure 1)

  -- `main` behind the loop over the options.
  unfoldable pub run_with : BoolStuff Tree → Options → M Tree ℕ
  unfolding change_identity load_config setup_hal go_background serve
  run_with boolstuff o = do
    pid_file ← change_identity o
    load_config boolstuff o
    if o.debug_config then perform print_config else pure tt
    setup_hal
    go_background o.do_fork pid_file
    serve o.do_fork pid_file

  unfoldable pub run_main : BoolStuff Tree → List (ℕ × Bytes) → M Tree ℕ
  unfolding read_options run_with
  run_main boolstuff args = read_options args defaults >>= run_with boolstuff
