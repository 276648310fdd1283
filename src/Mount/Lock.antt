-- ===== src/Mount/Lock.antt =====
-- halevt-mount/halevt-mount.c: the lock around a run. Any number of runs open the lock file, wait
-- for its lock, work, take the name of the file away and close it, in any order. Where
-- `open` or `lockf` fails, the source prints a message and the run works without the lock.
pub mod Alone
use gnu_halevt.Base.{ℕ, ◌+◌, Bool, true, false, Option, none, some, ◌==◌, if◌then◌else◌, ◌≡◌, ◌≢◌}

-- Where a run stands, with the file that it has open. A file that has lost its name is still the
-- same file for a run that has it open.
pub data Phase : Type 0 where
  away : Phase
  waiting : ℕ → Phase
  working : ℕ → Phase
  leaving : ℕ → Phase
  -- at work without the lock
  unlocked : Phase

pub record Locks : Type 0 where
  -- the file that the name of the lock file stands for
  pub named : Option ℕ
  -- the next file that is made
  pub next_file : ℕ
  pub phase : ℕ → Phase

abbrev pub set_phase : ℕ → Phase → Locks → Locks
set_phase run p s = record s { phase = λ k. if k == run then p else s.phase k }

-- `open` with O_CREAT makes the file if the name stands for none.
unfoldable pub open_named : Option ℕ → ℕ → Locks → Locks
open_named none run s =
    set_phase run (waiting s.next_file)
      (record s { named = some s.next_file; next_file = s.next_file + 1 })
open_named (some file) run s = set_phase run (waiting file) s

unfoldable pub open_file : ℕ → Locks → Locks
unfolding open_named
open_file run s = open_named s.named run s

-- `lockf` gives the lock of the file.
unfoldable pub lock_file : ℕ → ℕ → Locks → Locks
lock_file run file s = set_phase run (working file) s

-- `open` fails, and with it `lockf`; or `lockf` fails alone. The run goes on.
unfoldable pub go_unlocked : ℕ → Locks → Locks
go_unlocked run s = set_phase run unlocked s

-- The end of such a run; there is no lock to give back.
unfoldable pub unlink_unlocked : ℕ → Locks → Locks
unlink_unlocked run s = set_phase run away (record s { named = none })

-- `unlink` takes away the name, whatever file it stands for.
unfoldable pub unlink_file : ℕ → ℕ → Locks → Locks
unlink_file run file s = set_phase run (leaving file) (record s { named = none })

-- `close` gives the lock back.
unfoldable pub close_file : ℕ → Locks → Locks
close_file run s = set_phase run away s

-- The file whose lock a run has.
abbrev pub lock_of : Phase → Option ℕ
lock_of (working file) = some file
lock_of (leaving file) = some file
lock_of _ = none

-- One step of one run. `lockf` waits until no run has the lock of the file.
pub data Step (s : Locks) : Locks → Type 0 where
  opens : (run : ℕ) → s.phase run ≡ away → Step s (open_file run s)
  locks :
      (run file : ℕ)
      → s.phase run ≡ waiting file
      → ((other held : ℕ) → lock_of (s.phase other) ≡ some held → held ≢ file)
      → Step s (lock_file run file s)
  unlinks : (run file : ℕ) → s.phase run ≡ working file → Step s (unlink_file run file s)
  closes : (run file : ℕ) → s.phase run ≡ leaving file → Step s (close_file run s)
  -- `exit` in a command that failed: the file is closed and keeps its name
  exits : (run file : ℕ) → s.phase run ≡ working file → Step s (close_file run s)
  opens_not : (run : ℕ) → s.phase run ≡ away → Step s (go_unlocked run s)
  locks_not : (run file : ℕ) → s.phase run ≡ waiting file → Step s (go_unlocked run s)
  unlinks_unlocked : (run : ℕ) → s.phase run ≡ unlocked → Step s (unlink_unlocked run s)
  exits_unlocked : (run : ℕ) → s.phase run ≡ unlocked → Step s (close_file run s)

-- A run that is between the lock and the end.
abbrev pub is_at_work : Phase → Bool
is_at_work (working file) = true
is_at_work unlocked = true
is_at_work _ = false

-- No run goes on without the lock, and none waits when one takes the name away.
abbrev pub IsQuiet : {s t : Locks} → Step s t → Type 0
IsQuiet {s} (unlinks run file e) = (other held : ℕ) → s.phase other ≢ waiting held
IsQuiet (opens run e) = Unit
IsQuiet (locks run file e free) = Unit
IsQuiet (closes run file e) = Unit
IsQuiet (exits run file e) = Unit
IsQuiet (opens_not run e) = ⊥
IsQuiet (locks_not run file e) = ⊥
IsQuiet (unlinks_unlocked run e) = Unit
IsQuiet (exits_unlocked run e) = Unit

abbrev pub no_runs : Locks
no_runs = record { named = none; next_file = 0; phase = λ run. away }

pub data Reach : Locks → Type 0 where
  start : Reach no_runs
  next : {s t : Locks} → Reach s → Step s t → Reach t

pub data QuietReach : Locks → Type 0 where
  quiet_start : QuietReach no_runs
  quiet_next : {s t : Locks} → QuietReach s → (step : Step s t) → IsQuiet step → QuietReach t
