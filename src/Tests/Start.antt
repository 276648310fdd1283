-- ===== src/Tests/Start.antt =====
-- Messages, configuration files and the start of the daemon.
use gnu_halevt.Base.{
  ℕ, Bool, true, false, List, [], ◌∷◌, ◌++◌, map, Option, none, some, Bytes, codes, ◌≡◌, refl,
  arith, str_eq, decimal, strstr, starts_with,
}
use gnu_halevt.Debug.{stderr, located, debug}
use gnu_halevt.Debug.Lines.{debug_lem}
use gnu_halevt.ConfFiles.{find_conf_files}
use gnu_halevt.ConfFiles.Search.{path, firsts, accepted, listing, searched, find_conf_files-firsts}
use gnu_halevt.Config.{Config}
use gnu_halevt.Config.Xml.{Node, element, end, node, get_prop}
use gnu_halevt.Config.Spec.{Entry, onto, IsExtended}
use gnu_halevt.Daemon.Defs.{System, going}
use gnu_halevt.Daemon.{Options, defaults, run_with, run_main, choose_conffiles}
use gnu_halevt.Daemon.Keeps.{IsSafe}
use gnu_halevt.Daemon.Identity.{run_main-IsSafe}
use gnu_halevt.Daemon.Start.{files_entries}
use gnu_halevt.Daemon.Serves.{Works, life, run_with_serves}
use gnu_halevt.Tests.World.{Tree, boolstuff}
use gnu_halevt.Config.{empty}

got_signal :
    debug false false true (codes "manager.c") 53 (codes "handler") (codes "signal 15")
    ≡ some (stderr (codes "manager.c:53 (handler) signal 15\n"))
unfolding debug decimal
got_signal = refl

debug_lem_example :
    debug false false true (codes "manager.c") 53 (codes "handler") (codes "signal 15")
    ≡ some (
        stderr (located (codes "manager.c") 53 (codes "handler") (codes "signal 15") ++ codes "\n"))
debug_lem_example =
    debug_lem false false true (codes "manager.c") 53 (codes "handler") (codes "signal 15")
      (omega arith) (omega arith) (omega arith)

abbrev etc : Bytes
etc = codes "/etc"

abbrev usr : Bytes
usr = codes "/usr/share"

abbrev names : List Bytes
names = codes "a.xml" ∷ codes "notes.xml.old" ∷ codes "a.xml.xml" ∷ codes ".xml" ∷ []

-- The directories of the system and of the package hold the same names.
abbrev readdir : Bytes → Option (List Bytes)
readdir directory = some names

abbrev stat : Bytes → Option Bool
stat file = some true

found_once :
    find_conf_files stat readdir etc usr none
    ≡ some (codes "/etc/halevt/a.xml" ∷ codes "/etc/halevt/a.xml.xml" ∷ [])
unfolding find_conf_files str_eq strstr starts_with
found_once = refl

find_conf_files-firsts_example :
    find_conf_files stat readdir etc usr none
    ≡ some (map path (firsts (accepted stat (listing readdir (searched etc usr none)))))
find_conf_files-firsts_example = find_conf_files-firsts stat readdir etc usr none

abbrev device : Node
device =
    element (codes "Device") ((codes "match", codes "hal.info.category = volume") ∷ [])
      (node (element (codes "OnInit") ((codes "exec", codes "eject $hal.udi$") ∷ []) end) end)

abbrev system_with : Option (Option Node) → System
system_with document = record {
  is_root = true;
  getpwnam = λ user. some 12;
  getgrnam = λ group. some 34;
  setgid = λ gid. true;
  setuid = λ uid. true;
  stat = stat;
  readdir = readdir;
  home = none;
  document = λ file. document;
  ctx_new = true;
  bus_get = true;
  ctx_init = true;
  watch_all = true;
  daemon = true;
  fopen = λ file. true;
  lockf = λ file. true;
  fprintf = λ file. true;
  getpid = 99;
  main_loop_new = true;
  sysconfdir = etc;
  datadir = usr;
  default_user = codes "haldaemon";
  default_group = codes "haldaemon";
  pidfile = codes "/run/halevt.pid";
}

abbrev system : System
system = system_with (some (some (element (codes "Configuration") [] (node device end))))

abbrev foreground : List (ℕ × Bytes)
foreground = (b'u', codes "eject") ∷ (b'f', []) ∷ []

run_main-IsSafe_example :
    IsSafe
      (some 12)
      (some 34)
      (run_main system boolstuff foreground (record { trace = []; config = empty Tree })).1.trace
run_main-IsSafe_example = run_main-IsSafe system boolstuff refl foreground (empty Tree)

abbrev pid_path : Bytes
pid_path = codes "/run/halevt.pid"

system-Works : Works system (codes "haldaemon") (codes "haldaemon") 34 12 (some pid_path)
system-Works = record {
  root = refl;
  user_known = refl;
  group_known = refl;
  sets_gid = refl;
  sets_uid = refl;
  has_ctx = refl;
  has_bus = refl;
  starts = refl;
  watches = refl;
  detaches = refl;
  loops = refl;
  pid_file_works = (refl, refl, refl);
}

abbrev one_file : Options
one_file = record defaults { conffiles = some (codes "a.xml" ∷ []) }

one_chosen : choose_conffiles system boolstuff one_file.conffiles ≡ some (codes "a.xml" ∷ [])
unfolding choose_conffiles
one_chosen = refl

abbrev device_entry : Entry
device_entry = record {
  match = codes "hal.info.category = volume";
  name = codes "OnInit";
  attributes = (codes "exec", codes "eject $hal.udi$") ∷ [];
  children = end;
}

one_parsed : files_entries system (codes "a.xml" ∷ []) ≡ some (device_entry ∷ [])
unfolding str_eq get_prop
one_parsed = refl

run_with_serves_example :
    (c' : Config Tree) × IsExtended boolstuff (empty Tree) (device_entry ∷ []) c'
    × (run_with system boolstuff one_file (record { trace = []; config = empty Tree }) ≡ (
      going 0,
      record {
        trace = onto (life system one_file 34 12 (codes "a.xml" ∷ []) (some pid_path)) [];
        config = c';
      },
    ))
unfolding str_eq
run_with_serves_example =
    run_with_serves system boolstuff one_file (codes "a.xml") [] (device_entry ∷ []) (empty Tree)
      system-Works refl one_chosen one_parsed

other_chosen :
    choose_conffiles (system_with none) boolstuff one_file.conffiles ≡ some (codes "a.xml" ∷ [])
unfolding choose_conffiles
other_chosen = refl

nothing_parsed : files_entries (system_with none) (codes "a.xml" ∷ []) ≡ none
nothing_parsed = refl
