-- ===== src/Daemon/Defs.antt =====
-- The daemon beside the system: what it has done so far and its configuration, what the system
-- answers, and calls that may end the program.
use gnu_halevt.Base.{ℕ, Bool, List, ◌∷◌, Option, Bytes}
use gnu_halevt.Config.{Config}
use gnu_halevt.Config.Xml.{Node}

-- What `main` does outside of its own memory.
pub data Effect : Type 0 where
  print_usage : Effect
  set_gid : ℕ → Effect
  set_uid : ℕ → Effect
  read_conffile : Bytes → Effect
  print_config : Effect
  walk_devices : Effect
  daemonize : Effect
  empty_file : Bytes → Effect
  write_file : Bytes → Bytes → Effect
  run_loop : Effect
  unlink_file : Bytes → Effect
  shut_down : Effect

-- The answers of the system, and what the build was configured with.
pub record System : Type 0 where
  pub is_root : Bool
  pub getpwnam : Bytes → Option ℕ
  pub getgrnam : Bytes → Option ℕ
  pub setgid : ℕ → Bool
  pub setuid : ℕ → Bool
  -- `stat`: whether the file is regular, if it is there
  pub stat : Bytes → Option Bool
  pub readdir : Bytes → Option (List Bytes)
  pub home : Option Bytes
  -- the tree that libxml2 makes of a file
  pub document : Bytes → Option (Option Node)
  -- the connection to HAL: the context, the bus, the start, the watch on the properties
  pub ctx_new : Bool
  pub bus_get : Bool
  pub ctx_init : Bool
  pub watch_all : Bool
  pub daemon : Bool
  pub fopen : Bytes → Bool
  pub lockf : Bytes → Bool
  pub fprintf : Bytes → Bool
  pub getpid : ℕ
  pub main_loop_new : Bool
  pub sysconfdir : Bytes
  pub datadir : Bytes
  pub default_user : Bytes
  pub default_group : Bytes
  pub pidfile : Bytes

-- The effects, the last one first.
pub record Daemon (Tree : Type 0) : Type 0 where
  pub trace : List Effect
  pub config : Config Tree

-- A call returns, or the program ends with a status.
pub data Exit (A : Type 0) : Type 0 where
  going : A → Exit A
  exited : ℕ → Exit A

abbrev pub M : Type 0 → Type 0 → Type 0
M Tree A = Daemon Tree → Exit A × Daemon Tree

module _ {Tree : Type 0} where
  abbrev pub pure : {A : Type 0} → A → M Tree A
  pure a d = (going a, d)

  abbrev pub exit : {A : Type 0} → ℕ → M Tree A
  exit status d = (exited status, d)

  abbrev pub perform : Effect → M Tree (Unit {0})
  perform e d = (going tt, record d { trace = e ∷ d.trace })

  -- What comes after a call runs only where the call returned.
  abbrev pub and_then :
      {A B : Type 0} → (A → M Tree B) → Exit A × Daemon Tree → Exit B × Daemon Tree
  and_then f (going a, d) = f a d
  and_then f (exited n, d) = (exited n, d)

  infixl 5 ◌>>=◌ ◌>>◌
  abbrev pub ◌>>=◌ : {A B : Type 0} → M Tree A → (A → M Tree B) → M Tree B
  ◌>>=◌ m f d = and_then f (m d)

  abbrev pub ◌>>◌ : {A B : Type 0} → M Tree A → M Tree B → M Tree B
  m >> k = m >>= λ _. k

-- The status of a run.
abbrev pub status : Exit ℕ → ℕ
status (going n) = n
status (exited n) = n
