-- ===== src/Daemon/Identity.antt =====
-- As root the daemon gives up its rights before it reads a configuration, talks to HAL or writes a
-- file.
use gnu_halevt.Base.{
  ℕ, Bool, true, false, List, [], ◌∷◌, Option, none, some, Bytes, ◌≡◌, refl, arith, inl, inr, ◌⊎◌,
  ◌==◌, if◌then◌else◌,
}
use gnu_halevt.Expr.{BoolStuff}
use gnu_halevt.Config.{Config}
use gnu_halevt.Daemon.Defs.{
  print_usage, set_gid, set_uid, System, Daemon, Exit, going, exited, M, pure, exit, perform,
  and_then, ◌>>=◌, ◌>>◌,
}
use gnu_halevt.Daemon.{
  Options, defaults, or_default, dash_is_none, handle_option, conffile_option, read_options, become,
  change_identity, run_with, run_main,
}
use gnu_halevt.Daemon.Keeps.{
  IsSafe, nothing, usage, half, whole, dropped, Keeps, behind_identity, behind_identity-Keeps,
}

-- The argument of the last option with this letter.
abbrev pub last_argument : ℕ → List (ℕ × Bytes) → Option Bytes → Option Bytes
last_argument c [] before = before
last_argument c ((d, optarg) ∷ rest) before =
    last_argument c rest (if d == c then some optarg else before)

module _ {Tree : Type 0} (s : System) where
  -- The options change nothing outside of `main`, but that the usage may be printed at the end.
  abbrev IsRead : Option Bytes → Option Bytes → Daemon Tree → Exit Options × Daemon Tree → Type 0
  IsRead user group d (going o, d') = (d' ≡ d) × (o.user ≡ user) × (o.group ≡ group)
  IsRead user group d (exited n, d') = (d'.trace ≡ d.trace) ⊎ (d'.trace ≡ print_usage ∷ d.trace)

  conffile_option-IsRead :
      (status : Option Bool) (optarg : Bytes) (o : Options) (d : Daemon Tree)
      → IsRead o.user o.group d (conffile_option s status optarg o d)
  unfolding conffile_option
  conffile_option-IsRead none optarg o d = inl refl
  conffile_option-IsRead (some regular) optarg o d = (refl, refl, refl)

  handle_option-IsRead :
      (c : ℕ) (optarg : Bytes) (o : Options) (d : Daemon Tree)
      → IsRead
          (if c == b'u' then some optarg else o.user)
          (if c == b'g' then some optarg else o.group)
          d
          (handle_option s c optarg o d)
  unfolding handle_option
  handle_option-IsRead c optarg o d =
      ground (arith, conffile_option-IsRead (s.stat optarg) optarg o d)

  read_options-IsRead :
      (args : List (ℕ × Bytes)) (o : Options) (d : Daemon Tree)
      → IsRead
          (last_argument b'u' args o.user)
          (last_argument b'g' args o.group)
          d
          (read_options s args o d)
  unfolding read_options
  read_options-IsRead [] o d = (refl, refl, refl)
  read_options-IsRead ((c, optarg) ∷ rest) o d =
      go (read_options-IsRead rest) _ _ (handle_option s c optarg o d)
        (handle_option-IsRead c optarg o d)
    where
      go :
          ((o' : Options) (e : Daemon Tree)
            → IsRead
                (last_argument b'u' rest o'.user)
                (last_argument b'g' rest o'.group)
                e
                (read_options s rest o' e))
          → (user group : Option Bytes) (r : Exit Options × Daemon Tree) → IsRead user group d r
          → IsRead
              (last_argument b'u' rest user)
              (last_argument b'g' rest group)
              d
              (and_then (read_options s rest) r)
      go ih user group (going o', e) (same, p, q) = rw (same, ← p, ← q) (ih o' d)
      go ih user group (exited n, e) h = h

  module _ (boolstuff : BoolStuff Tree) where
    -- The rest of `main` behind the change of identity, from the empty trace.
    become-IsSafe :
        (user group : Option ℕ) (f : Unit {0} → M Tree ℕ) (c : Config Tree)
        → ((gid uid : ℕ) → Keeps gid uid (f tt))
        → IsSafe user group
            (and_then f (become s user group (record { trace = []; config = c }))).1.trace
    unfolding become
    become-IsSafe none group f c k = nothing
    become-IsSafe (some uid) none f c k = nothing
    become-IsSafe (some uid) (some gid) f c k = go (s.setgid gid) (s.setuid uid)
      where
        go :
            (g u : Bool)
            → IsSafe
                (some uid)
                (some gid)
                (((if g then perform (set_gid gid) else exit 1)
                    >> (if u then perform (set_uid uid) else exit 1)
                    >>= f)
                  (record { trace = []; config = c })).1.trace
        go false u = nothing
        go true false = half gid refl
        go true true = whole gid uid refl refl ((k gid uid).keeps _ dropped)

    pure_after :
        {A B : Type 0} (f : A → M Tree B) (a : A) (r : Exit (Unit {0}) × Daemon Tree)
        → and_then f (and_then (λ _. pure a) r) ≡ and_then (λ _. f a) r
    pure_after f a (going tt, d) = refl
    pure_after f a (exited n, d) = refl

    run_with-IsSafe :
        s.is_root ≡ true
        → (o : Options) (c : Config Tree)
        → IsSafe
            (s.getpwnam (or_default s.default_user o.user))
            (s.getgrnam (or_default s.default_group o.group))
            (run_with s boolstuff o (record { trace = []; config = c })).1.trace
    unfolding run_with change_identity
    run_with-IsSafe root o c =
        let uid = s.getpwnam (or_default s.default_user o.user) in
        let gid = s.getgrnam (or_default s.default_group o.group) in
        let pid = dash_is_none (or_default s.pidfile o.pid_file) in
        let rest = behind_identity s boolstuff o in
        rw (root, pure_after rest pid (become s uid gid (record { trace = []; config = c })))
          (become-IsSafe uid gid (λ _. rest pid) c
            (λ g u. behind_identity-Keeps g u s boolstuff o pid))

    -- As root the daemon first becomes the group, then the user that the last options -g and -u or
    -- the build name, and only then reads a configuration file, connects to HAL, goes to the
    -- background or writes a file; where it fails to become either, it ends with nothing of that
    -- done.
    pub run_main-IsSafe :
        s.is_root ≡ true
        → (args : List (ℕ × Bytes)) (c : Config Tree)
        → IsSafe
            (s.getpwnam (or_default s.default_user (last_argument b'u' args none)))
            (s.getgrnam (or_default s.default_group (last_argument b'g' args none)))
            (run_main s boolstuff args (record { trace = []; config = c })).1.trace
    unfolding run_main
    run_main-IsSafe root args c =
        go _ _ (read_options s args defaults (record { trace = []; config = c }))
          (read_options-IsRead args defaults (record { trace = []; config = c }))
      where
        go :
            (user group : Option Bytes) (r : Exit Options × Daemon Tree)
            → IsRead user group (record { trace = []; config = c }) r
            → IsSafe
                (s.getpwnam (or_default s.default_user user))
                (s.getgrnam (or_default s.default_group group))
                (and_then (run_with s boolstuff) r).1.trace
        go user group (going o, d) (same, p, q) = rw (same, ← p, ← q) (run_with-IsSafe root o c)
        go user group (exited n, d) (inl e) = rw e nothing
        go user group (exited n, d) (inr e) = rw e usage
