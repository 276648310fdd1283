-- ===== src/Mount/Lock/Alone.antt =====
-- One run works at a time, as long as none waits when another takes the name of the file away; and
-- what happens otherwise.
use gnu_halevt.Base.{true, ℕ, Option, none, some, ◌≡◌, ◌≢◌, refl, arith}
use gnu_halevt.Mount.Lock.{
  Phase, away, waiting, working, unlocked, is_at_work, go_unlocked, opens_not, locks_not,
  unlinks_unlocked, exits_unlocked, Locks, open_named, open_file, lock_file, unlink_file,
  close_file, lock_of, Step, opens, locks, unlinks, closes, exits, IsQuiet, no_runs, Reach, start,
  next, QuietReach, quiet_start, quiet_next,
}

-- The file that a run waits for or works under.
abbrev file_of : Phase → Option ℕ
file_of (waiting file) = some file
file_of (working file) = some file
file_of _ = none

record IsOrderly (s : Locks) : Type 0 where
  at_name : (run file : ℕ) → file_of (s.phase run) ≡ some file → s.named ≡ some file
  alone : (a b f g : ℕ) → s.phase a ≡ working f → s.phase b ≡ working g → a ≡ b
  all_locked : (run : ℕ) → s.phase run ≢ unlocked

no_runs-IsOrderly : IsOrderly no_runs
no_runs-IsOrderly = record {
  at_name = λ run file h. cc;
  alone = λ a b f g p q. cc;
  all_locked = λ run e. cc;
}

opens-IsOrderly :
    (s : Locks) (run : ℕ) → s.phase run ≡ away → IsOrderly s → IsOrderly (open_file run s)
unfolding open_file
opens-IsOrderly s run e v = go s.named refl
  where
    go : (named : Option ℕ) → s.named ≡ named → IsOrderly (open_named named run s)
    go none is = record {
      at_name = λ k file h. ground (arith, v.at_name k file);
      alone = λ a b f g p q. ground (arith, v.alone a b f g);
      all_locked = λ k h. ground (arith, v.all_locked k);
    }
    go (some file) is = record {
      at_name = λ k other h. ground (arith, v.at_name k other);
      alone = λ a b f g p q. ground (arith, v.alone a b f g);
      all_locked = λ k h. ground (arith, v.all_locked k);
    }

locks-IsOrderly :
    (s : Locks) (run file : ℕ)
    → s.phase run ≡ waiting file
    → ((other held : ℕ) → lock_of (s.phase other) ≡ some held → held ≢ file)
    → IsOrderly s
    → IsOrderly (lock_file run file s)
unfolding lock_file
locks-IsOrderly s run file e free v = record {
  at_name = λ k other h. ground (arith, v.at_name k other, v.at_name run file);
  alone = λ a b f g p q. ground (
    arith,
    v.alone a b f g,
    v.at_name run file,
    v.at_name a f,
    v.at_name b g,
    free a f,
    free b g,
  );
  all_locked = λ k h. ground (arith, v.all_locked k);
}

unlinks-IsOrderly :
    (s : Locks) (run file : ℕ)
    → s.phase run ≡ working file
    → ((other held : ℕ) → s.phase other ≢ waiting held)
    → IsOrderly s
    → IsOrderly (unlink_file run file s)
unfolding unlink_file
unlinks-IsOrderly s run file e quiet v = record {
  at_name = λ k other h. ground (arith, quiet k other, v.alone run k file other);
  alone = λ a b f g p q. ground (arith, v.alone a b f g);
  all_locked = λ k h. ground (arith, v.all_locked k);
}

closes-IsOrderly : (s : Locks) (run : ℕ) → IsOrderly s → IsOrderly (close_file run s)
unfolding close_file
closes-IsOrderly s run v = record {
  at_name = λ k other h. ground (arith, v.at_name k other);
  alone = λ a b f g p q. ground (arith, v.alone a b f g);
  all_locked = λ k h. ground (arith, v.all_locked k);
}

Step-IsOrderly : {s t : Locks} (step : Step s t) → IsQuiet step → IsOrderly s → IsOrderly t
Step-IsOrderly {s} (opens run e) q v = opens-IsOrderly s run e v
Step-IsOrderly {s} (locks run file e free) q v = locks-IsOrderly s run file e free v
Step-IsOrderly {s} (unlinks run file e) q v = unlinks-IsOrderly s run file e q v
Step-IsOrderly {s} (closes run file e) q v = closes-IsOrderly s run v
Step-IsOrderly {s} (exits run file e) q v = closes-IsOrderly s run v
Step-IsOrderly {s} (opens_not run e) q v = absurd q
Step-IsOrderly {s} (locks_not run file e) q v = absurd q
Step-IsOrderly {s} (unlinks_unlocked run e) q v = absurd (v.all_locked run e)
Step-IsOrderly {s} (exits_unlocked run e) q v = closes-IsOrderly s run v

QuietReach-IsOrderly : {s : Locks} → QuietReach s → IsOrderly s
QuietReach-IsOrderly quiet_start = no_runs-IsOrderly
QuietReach-IsOrderly (quiet_next r step q) = Step-IsOrderly step q (QuietReach-IsOrderly r)

IsOrderly-alone :
    (s : Locks) (a b : ℕ) (p q : Phase)
    → IsOrderly s
    → s.phase a ≡ p
    → s.phase b ≡ q
    → is_at_work p ≡ true
    → is_at_work q ≡ true
    → a ≡ b
IsOrderly-alone s a b (working f) (working g) v e e' h k = v.alone a b f g e e'
IsOrderly-alone s a b unlocked q v e e' h k = absurd (v.all_locked a e)
IsOrderly-alone s a b p unlocked v e e' h k = absurd (v.all_locked b e')
IsOrderly-alone s a b p q v e e' h k = absurd cc

-- In every state that runs reach, in any order of their steps, of which none goes on without the
-- lock where `open` or `lockf` fails, and none waits for the lock when another takes the name of
-- the lock file away, at most one of them works.
pub QuietReach-working :
    {s : Locks}
    → QuietReach s
    → (a b : ℕ) → is_at_work (s.phase a) ≡ true
    → is_at_work (s.phase b) ≡ true
    → a ≡ b
QuietReach-working {s} r a b p q =
    IsOrderly-alone s a b (s.phase a) (s.phase b) (QuietReach-IsOrderly r) refl refl p q

-- The states of the run that follows, one after the other.
abbrev first_works : Locks
first_works = lock_file 0 0 (open_file 0 no_runs)

abbrev second_waits : Locks
second_waits = open_file 1 first_works

abbrev second_works : Locks
second_works = lock_file 1 0 (close_file 0 (unlink_file 0 0 second_waits))

abbrev third_works : Locks
third_works = lock_file 2 1 (open_file 2 second_works)

third_works-Reach : Reach third_works
unfolding open_file lock_file unlink_file close_file
third_works-Reach =
    next
      (next
        (next
          (next
            (next
              (next
                (next (next start (opens 0 refl)) (locks 0 0 refl (λ other held h. ground arith)))
                (opens 1 refl))
              (unlinks 0 0 refl))
            (closes 0 0 refl))
          (locks 1 0 refl (λ other held h. ground arith)))
        (opens 2 refl))
      (locks 2 1 refl (λ other held h. ground arith))

-- Where a run waits for the lock when another ends, it gets the lock of a file without a name, and
-- a third run works beside it.
pub two_work : (s : Locks) × Reach s × (s.phase 1 ≡ working 0) × (s.phase 2 ≡ working 1)
unfolding open_file lock_file unlink_file close_file
two_work = (third_works, third_works-Reach, refl, refl)

-- A run that does not get the lock works beside one that has it.
abbrev second_unlocked : Locks
second_unlocked = go_unlocked 1 first_works

pub unlocked_works :
    Reach second_unlocked
    × (second_unlocked.phase 0 ≡ working 0)
    × (second_unlocked.phase 1 ≡ unlocked)
unfolding open_file lock_file go_unlocked
unlocked_works = (
  next (next (next start (opens 0 refl)) (locks 0 0 refl (λ other held h. ground arith)))
      (opens_not 1 refl),
  refl,
  refl,
)
