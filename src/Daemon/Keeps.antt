-- ===== src/Daemon/Keeps.antt =====
-- What a run as root may have done, and that every call behind the change of identity keeps it so.
use gnu_halevt.Base.{
  ℕ, Bool, true, false, List, [], ◌∷◌, Option, none, some, Bytes, ◌≡◌, refl, if◌then◌else◌,
}
use gnu_halevt.Expr.{BoolStuff}
use gnu_halevt.Daemon.Defs.{
  Effect, print_usage, set_gid, set_uid, read_conffile, print_config, walk_devices, daemonize,
  empty_file, write_file, run_loop, unlink_file, shut_down, System, Daemon, Exit, going, exited, M,
  pure, exit, perform, and_then, ◌>>=◌,
}
use gnu_halevt.Daemon.{
  Options, parse_conffile, parse_conffiles, load_conffiles, load_config, setup_hal, write_pid,
  go_background, clear_pidfile, serve,
}

-- An effect that is neither a change of identity nor the text of the usage.
abbrev pub is_work : Effect → Bool
is_work print_usage = false
is_work (set_gid gid) = false
is_work (set_uid uid) = false
is_work _ = true

-- The trace of a run that changed its identity: the group first, then the user, and all the work
-- after both.
pub data Dropped (gid uid : ℕ) : List Effect → Type 0 where
  dropped : Dropped gid uid (set_uid uid ∷ set_gid gid ∷ [])
  work :
      (e : Effect) {es : List Effect}
      → is_work e ≡ true
      → Dropped gid uid es
      → Dropped gid uid (e ∷ es)

-- The traces that a run as root may leave, for the identity that was asked for.
pub data IsSafe (user group : Option ℕ) : List Effect → Type 0 where
  nothing : IsSafe user group []
  usage : IsSafe user group (print_usage ∷ [])
  half : (gid : ℕ) → group ≡ some gid → IsSafe user group (set_gid gid ∷ [])
  whole :
      (gid uid : ℕ) {es : List Effect}
      → group ≡ some gid
      → user ≡ some uid
      → Dropped gid uid es
      → IsSafe user group es

module _ {Tree : Type 0} (s : System) where
  -- `main` behind the change of identity.
  abbrev pub behind_identity : BoolStuff Tree → Options → Option Bytes → M Tree ℕ
  behind_identity boolstuff o pid_file = load_config s boolstuff o >>= λ _.
      (if o.debug_config then perform print_config else pure tt) >>= λ _.
      setup_hal s >>= λ _. go_background s o.do_fork pid_file >>= λ _. serve s o.do_fork pid_file

module _ {Tree : Type 0} (gid uid : ℕ) where
  -- A call that only works keeps the trace so.
  pub record Keeps {A : Type 0} (m : M Tree A) : Type 0 where
    pub keeps : (d : Daemon Tree) → Dropped gid uid d.trace → Dropped gid uid (m d).1.trace

  pure-Keeps : {A : Type 0} (a : A) → Keeps (pure a)
  pure-Keeps a = record { keeps = λ d h. h }

  exit-Keeps : {A : Type 0} (n : ℕ) → Keeps (exit {A = A} n)
  exit-Keeps n = record { keeps = λ d h. h }

  perform-Keeps : (e : Effect) → is_work e ≡ true → Keeps (perform e)
  perform-Keeps e w = record { keeps = λ d h. work e w h }

  after-Keeps :
      {A B : Type 0} (f : A → M Tree B) (r : Exit A × Daemon Tree)
      → ((a : A) → Keeps (f a))
      → Dropped gid uid r.1.trace
      → Dropped gid uid (and_then f r).1.trace
  after-Keeps f (going a, d) k h = (k a).keeps d h
  after-Keeps f (exited n, d) k h = h

  bind-Keeps :
      {A B : Type 0} {m : M Tree A} {f : A → M Tree B}
      → Keeps m
      → ((a : A) → Keeps (f a))
      → Keeps (m >>= f)
  bind-Keeps {m} {f} p q = record { keeps = λ d h. after-Keeps f (m d) q (p.keeps d h) }

  if-Keeps :
      {A : Type 0} (b : Bool) {m k : M Tree A} → Keeps m → Keeps k → Keeps (if b then m else k)
  if-Keeps true p q = p
  if-Keeps false p q = q

  ruleset keeping = (pure-Keeps, exit-Keeps, perform-Keeps, bind-Keeps, if-Keeps)

  module _ (s : System) where
    parse_conffile-Keeps :
        (boolstuff : BoolStuff Tree) (file : Bytes) → Keeps (parse_conffile s boolstuff file)
    unfolding parse_conffile
    parse_conffile-Keeps boolstuff file = record { keeps = λ d h. work (read_conffile file) refl h }

    parse_conffiles-Keeps :
        (boolstuff : BoolStuff Tree) (files : List Bytes)
        → Keeps (parse_conffiles s boolstuff files)
    unfolding parse_conffiles
    parse_conffiles-Keeps boolstuff [] = pure-Keeps tt
    parse_conffiles-Keeps boolstuff (file ∷ files) =
        bind-Keeps (parse_conffile-Keeps boolstuff file)
          (λ _. parse_conffiles-Keeps boolstuff files)

    load_conffiles-Keeps :
        (boolstuff : BoolStuff Tree) (files : Option (List Bytes))
        → Keeps (load_conffiles s boolstuff files)
    unfolding load_conffiles
    load_conffiles-Keeps boolstuff none = exit-Keeps 1
    load_conffiles-Keeps boolstuff (some []) = exit-Keeps 1
    load_conffiles-Keeps boolstuff (some (file ∷ files)) =
        parse_conffiles-Keeps boolstuff (file ∷ files)

    load_config-Keeps :
        (boolstuff : BoolStuff Tree) (o : Options) → Keeps (load_config s boolstuff o)
    unfolding load_config
    load_config-Keeps boolstuff o = if-Keeps _ (pure-Keeps tt) (load_conffiles-Keeps boolstuff _)

    setup_hal-Keeps : Keeps (setup_hal s)
    unfolding setup_hal
    setup_hal-Keeps = if-Keeps _ (perform-Keeps walk_devices refl) (exit-Keeps 1)

    -- An effect that is asked for, or the end with status 1.
    try-Keeps : (b : Bool) (e : Effect) → is_work e ≡ true → Keeps (if b then perform e else exit 1)
    try-Keeps b e w = if-Keeps _ (perform-Keeps e w) (exit-Keeps 1)

    write_pid-Keeps : (pid_file : Option Bytes) → Keeps (write_pid s pid_file)
    unfolding write_pid
    write_pid-Keeps none = pure-Keeps tt
    write_pid-Keeps (some file) =
        bind-Keeps (try-Keeps (s.fopen file) (empty_file file) refl)
          (λ _. try-Keeps _ (write_file file _) refl)

    go_background-Keeps :
        (do_fork : Bool) (pid_file : Option Bytes) → Keeps (go_background s do_fork pid_file)
    unfolding go_background
    go_background-Keeps true pid_file =
        bind-Keeps (try-Keeps s.daemon daemonize refl) (λ _. write_pid-Keeps pid_file)
    go_background-Keeps false pid_file = pure-Keeps tt

    clear_pidfile-Keeps : (pid_file : Option Bytes) → Keeps (clear_pidfile s pid_file)
    unfolding clear_pidfile
    clear_pidfile-Keeps none = pure-Keeps tt
    clear_pidfile-Keeps (some file) = perform-Keeps (unlink_file file) refl

    serve-Keeps :
        (halevt_fork : Bool) (pid_file : Option Bytes) → Keeps (serve s halevt_fork pid_file)
    unfolding serve
    serve-Keeps halevt_fork pid_file = bind-Keeps (perform-Keeps walk_devices refl) (λ _.
        if-Keeps s.main_loop_new
          (bind-Keeps
            (bind-Keeps
              (bind-Keeps (perform-Keeps run_loop refl)
                (λ _. if-Keeps halevt_fork (clear_pidfile-Keeps pid_file) (pure-Keeps tt)))
              (λ _. perform-Keeps shut_down refl))
            (λ _. pure-Keeps 0))
          (pure-Keeps 1))

    pub behind_identity-Keeps :
        (boolstuff : BoolStuff Tree) (o : Options) (pid_file : Option Bytes)
        → Keeps (behind_identity s boolstuff o pid_file)
    behind_identity-Keeps boolstuff o pid_file = bind-Keeps (load_config-Keeps boolstuff o) (λ _.
        bind-Keeps (if-Keeps o.debug_config (perform-Keeps print_config refl) (pure-Keeps tt)) (λ _.
          bind-Keeps setup_hal-Keeps (λ _.
            bind-Keeps (go_background-Keeps o.do_fork pid_file)
              (λ _. serve-Keeps o.do_fork pid_file))))
