-- ===== src/Daemon/Serves.antt =====
-- A daemon for which everything works gets to its loop, and ends with status 0.
use gnu_halevt.Base.{
  ℕ, Bool, true, false, List, [], ◌∷◌, ◌++◌, map, Option, none, some, Bytes, codes, ◌≡◌, refl, sym,
  ap, ◌∙◌, if◌then◌else◌,
}
use gnu_halevt.Base.Numbers.{decimal}
use gnu_halevt.Expr.{BoolStuff}
use gnu_halevt.Config.{Config}
use gnu_halevt.Config.Spec.{Entry, onto, IsExtended}
use gnu_halevt.Daemon.Defs.{
  Effect, set_gid, set_uid, read_conffile, print_config, walk_devices, daemonize, empty_file,
  write_file, run_loop, unlink_file, shut_down, System, Daemon, going, pure, perform, and_then,
  ◌>>◌,
}
use gnu_halevt.Daemon.{
  Options, or_default, dash_is_none, become, change_identity, choose_conffiles, load_conffiles,
  load_config, setup_hal, write_pid, go_background, clear_pidfile, serve, run_with,
}
use gnu_halevt.Daemon.Keeps.{behind_identity}
use gnu_halevt.Daemon.Start.{files_entries, parse_conffiles-IsExtended, onto-append}

abbrev pub PidFileWorks : System → Option Bytes → Type 0
PidFileWorks s none = Unit
PidFileWorks s (some file) = (s.fopen file ≡ true) × (s.lockf file ≡ true) × (s.fprintf file ≡ true)

-- The system lets the daemon become what it asks for, has HAL, and takes the pid file.
pub record Works (s : System) (user group : Bytes) (gid uid : ℕ) (pid_file : Option Bytes)
    : Type 0 where
  pub root : s.is_root ≡ true
  pub user_known : s.getpwnam user ≡ some uid
  pub group_known : s.getgrnam group ≡ some gid
  pub sets_gid : s.setgid gid ≡ true
  pub sets_uid : s.setuid uid ≡ true
  pub has_ctx : s.ctx_new ≡ true
  pub has_bus : s.bus_get ≡ true
  pub starts : s.ctx_init ≡ true
  pub watches : s.watch_all ≡ true
  pub detaches : s.daemon ≡ true
  pub loops : s.main_loop_new ≡ true
  pub pid_file_works : PidFileWorks s pid_file

-- What is done in the background.
abbrev pub pid_effects : System → Option Bytes → List Effect
pid_effects s none = []
pid_effects s (some file) = empty_file file ∷ write_file file (decimal s.getpid ++ codes "\n") ∷ []

abbrev pub background_effects : System → Bool → Option Bytes → List Effect
background_effects s true pid_file = daemonize ∷ pid_effects s pid_file
background_effects s false pid_file = []

abbrev pub end_effects : Bool → Option Bytes → List Effect
end_effects true (some file) = unlink_file file ∷ []
end_effects _ _ = []

abbrev pub debug_effects : Bool → List Effect
debug_effects true = print_config ∷ []
debug_effects false = []

-- The life of a daemon behind its configuration, and the whole of it, in order.
abbrev pub service : System → Options → Option Bytes → List Effect
service s o pid_file =
    debug_effects o.debug_config
    ++ walk_devices
      ∷ (background_effects s o.do_fork pid_file
          ++ walk_devices ∷ run_loop ∷ (end_effects o.do_fork pid_file ++ shut_down ∷ []))

abbrev pub life : System → Options → ℕ → ℕ → List Bytes → Option Bytes → List Effect
life s o gid uid files pid_file =
    set_gid gid ∷ set_uid uid ∷ (map read_conffile files ++ service s o pid_file)

module _ {Tree : Type 0} (s : System) where
  abbrev does : List Effect → Daemon Tree → Daemon Tree
  does es d = record d { trace = onto es d.trace }

  module _ {user group : Bytes} {gid uid : ℕ} {pid_file : Option Bytes}
      (w : Works s user group gid uid pid_file) where
    setup_hal_works : (d : Daemon Tree) → setup_hal s d ≡ (going tt, does (walk_devices ∷ []) d)
    unfolding setup_hal
    setup_hal_works d = rw (w.has_ctx, w.has_bus, w.starts, w.watches) refl

    write_pid_works :
        (file : Option Bytes) (d : Daemon Tree)
        → PidFileWorks s file
        → write_pid s file d ≡ (going tt, does (pid_effects s file) d)
    unfolding write_pid
    write_pid_works none d h = refl
    write_pid_works (some file) d (opens, locks, prints) = rw (opens, locks, prints) refl

    go_background_works :
        (do_fork : Bool) (d : Daemon Tree)
        → go_background s do_fork pid_file d
          ≡ (going tt, does (background_effects s do_fork pid_file) d)
    unfolding go_background
    go_background_works true d =
        rw w.detaches (write_pid_works pid_file (does (daemonize ∷ []) d) w.pid_file_works)
    go_background_works false d = refl

    serve_works :
        (halevt_fork : Bool) (file : Option Bytes) (d : Daemon Tree)
        → serve s halevt_fork file d ≡ (
          going 0,
          does (walk_devices ∷ run_loop ∷ (end_effects halevt_fork file ++ shut_down ∷ [])) d,
        )
    unfolding serve clear_pidfile
    serve_works true none d = rw w.loops refl
    serve_works true (some file) d = rw w.loops refl
    serve_works false file d = rw w.loops refl

    background_and_serve :
        (do_fork : Bool) (d : Daemon Tree)
        → (go_background s do_fork pid_file >> serve s do_fork pid_file) d ≡ (
          going 0,
          does
              (background_effects s do_fork pid_file
                ++ walk_devices ∷ run_loop ∷ (end_effects do_fork pid_file ++ shut_down ∷ []))
              d,
        )
    background_and_serve do_fork d =
        let bg = background_effects s do_fork pid_file in
        let rest = walk_devices ∷ run_loop ∷ (end_effects do_fork pid_file ++ shut_down ∷ []) in
        ap (and_then (λ _. serve s do_fork pid_file)) (go_background_works do_fork d)
        ∙ serve_works do_fork pid_file (does bg d)
        ∙ ap (λ t. (going 0, record d { trace = t })) (sym (onto-append bg rest d.trace))

    setup_and_serve :
        (do_fork : Bool) (d : Daemon Tree)
        → (setup_hal s >> (go_background s do_fork pid_file >> serve s do_fork pid_file)) d ≡ (
          going 0,
          does
              (walk_devices
                ∷ (background_effects s do_fork pid_file
                    ++ walk_devices ∷ run_loop ∷ (end_effects do_fork pid_file ++ shut_down ∷ [])))
              d,
        )
    setup_and_serve do_fork d =
        ap (and_then (λ _. go_background s do_fork pid_file >> serve s do_fork pid_file))
          (setup_hal_works d)
        ∙ background_and_serve do_fork (does (walk_devices ∷ []) d)

    debug_works :
        (debug_config : Bool) (d : Daemon Tree)
        → (if debug_config then perform print_config else pure tt) d
          ≡ (going tt, does (debug_effects debug_config) d)
    debug_works true d = refl
    debug_works false d = refl

    service_works :
        (o : Options) (d : Daemon Tree)
        → ((if o.debug_config then perform print_config else pure tt)
              >> (setup_hal s
                  >> (go_background s o.do_fork pid_file >> serve s o.do_fork pid_file)))
            d
          ≡ (going 0, does (service s o pid_file) d)
    service_works o d =
        let debugging = debug_effects o.debug_config in
        ap
          (and_then (λ _.
            setup_hal s >> (go_background s o.do_fork pid_file >> serve s o.do_fork pid_file)))
          (debug_works o.debug_config d)
        ∙ setup_and_serve o.do_fork (does debugging d)
        ∙ ap (λ t. (going 0, record d { trace = t })) (sym (onto-append debugging _ d.trace))

    become_works :
        (d : Daemon Tree)
        → become s (s.getpwnam user) (s.getgrnam group) d
          ≡ (going tt, does (set_gid gid ∷ set_uid uid ∷ []) d)
    unfolding become
    become_works d = rw (w.user_known, w.group_known) (rw (w.sets_gid, w.sets_uid) refl)

  change_identity_succeeds :
      (o : Options) {gid uid : ℕ}
      → let pid_file = dash_is_none (or_default s.pidfile o.pid_file) in
        Works s
          (or_default s.default_user o.user)
          (or_default s.default_group o.group)
          gid
          uid
          pid_file
        → (d : Daemon Tree)
        → change_identity s o d ≡ (going pid_file, does (set_gid gid ∷ set_uid uid ∷ []) d)
  unfolding change_identity
  change_identity_succeeds o w d = rw w.root (
      ap (and_then (λ _. pure (dash_is_none (or_default s.pidfile o.pid_file)))) (become_works w d))

  module _ (boolstuff : BoolStuff Tree) where
    load_config_parses :
        (o : Options) (file : Bytes) (files : List Bytes) (d : Daemon Tree)
        → o.halevt_report ≡ false
        → choose_conffiles s boolstuff o.conffiles ≡ some (file ∷ files)
        → load_config s boolstuff o d ≡ load_conffiles s boolstuff (some (file ∷ files)) d
    unfolding load_config
    load_config_parses o file files d report chosen = rw (report, chosen) refl

    -- Started as root on a system where everything works, with configuration files of which each is
    -- a Configuration, the daemon does in this order: become the group and the user, read each file,
    -- walk over the devices, go to the background and write its pid file if asked, walk over the
    -- devices again, run its loop, and take the pid file away; it ends with status 0, and the
    -- configuration has gained what the elements of all the files stand for.
    pub run_with_serves :
        (o : Options) (file : Bytes) (files : List Bytes) (es : List Entry) (c : Config Tree)
        {gid uid : ℕ}
        → let pid_file = dash_is_none (or_default s.pidfile o.pid_file) in
          Works s
            (or_default s.default_user o.user)
            (or_default s.default_group o.group)
            gid
            uid
            pid_file
          → o.halevt_report ≡ false
          → choose_conffiles s boolstuff o.conffiles ≡ some (file ∷ files)
          → files_entries s (file ∷ files) ≡ some es
          → (c' : Config Tree) × IsExtended boolstuff c es c'
            × (run_with s boolstuff o (record { trace = []; config = c }) ≡ (
              going 0,
              record { trace = onto (life s o gid uid (file ∷ files) pid_file) []; config = c' },
            ))
    unfolding run_with load_conffiles
    run_with_serves o file files es c {gid} {uid} w report chosen parsed =
        let pid_file = dash_is_none (or_default s.pidfile o.pid_file) in
        let d : Daemon Tree = record { trace = []; config = c } in
        let d' = does (set_gid gid ∷ set_uid uid ∷ []) d in
        let (c', extended, e) =
          parse_conffiles-IsExtended s boolstuff (file ∷ files) es d' parsed in
        let d'' : Daemon Tree = record {
          trace = onto (map read_conffile (file ∷ files)) d'.trace;
          config = c';
        } in
        (
          c',
          extended,
          ap (and_then (behind_identity s boolstuff o)) (change_identity_succeeds o w d)
              ∙ ap
                  (and_then (λ _.
                    (if o.debug_config then perform print_config else pure tt)
                    >> (setup_hal s
                        >> (go_background s o.do_fork pid_file >> serve s o.do_fork pid_file))))
                  (load_config_parses o file files d' report chosen ∙ e)
              ∙ service_works w o d''
              ∙ ap (λ t. (going 0, record d'' { trace = t }))
                  (sym (
                    onto-append (map read_conffile (file ∷ files)) (service s o pid_file)
                      d'.trace)),
        )
