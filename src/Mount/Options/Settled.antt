-- ===== src/Mount/Options/Settled.antt =====
-- What the options settle: the command is one of six, and the files have names.
use gnu_halevt.Base.{
  ℕ, ◌+◌, Bool, true, false, List, [], ◌∷◌, ◌++◌, Option, none, some, Bytes, codes, length,
  strcat_lem, str_eq, ◌==◌, if◌then◌else◌, ◌≡◌, ◌≢◌, refl, arith,
}
use gnu_halevt.Mount.Options.{
  Options, Read, options, ended, overrun, defaults, umask_option, mask_of, set_mask, handle_option,
  after_option, read_options, strrchr, name_of, choose_cmd, joined, choose_directory, or_in,
  choose_places,
}

-- The commands that `main` knows.
pub data IsCommand : Bytes → Type 0 where
  list : IsCommand (codes "list")
  sync : IsCommand (codes "sync")
  clean : IsCommand (codes "clean")
  umount : IsCommand (codes "umount")
  add : IsCommand (codes "add")
  mount : IsCommand (codes "mount")

abbrev IsSettled : Option Bytes → Type 0
IsSettled none = Unit
IsSettled (some cmd) = IsCommand cmd

-- An option keeps the command one that is known, and no buffer is overrun.
abbrev IsGood : Read → Type 0
IsGood (options o) = IsSettled o.cmd
IsGood (ended n) = Unit
IsGood overrun = ⊥

joined-append : (a b : Bytes) → joined a b ≡ some (a ++ b)
unfolding joined
joined-append a b =
    rw (strcat_lem (1 + length a + length b) [] a (omega arith))
      (strcat_lem (1 + length a + length b) a b (omega arith))

mask_of_lem : (optarg : Bytes) → mask_of optarg ≡ some (umask_option ++ optarg)
unfolding mask_of
mask_of_lem optarg =
    rw (strcat_lem (1 + length optarg + 6) [] umask_option (omega arith))
      (strcat_lem (1 + length optarg + 6) umask_option optarg (omega arith))

if-IsGood : (b : Bool) (r t : Read) → IsGood r → IsGood t → IsGood (if b then r else t)
if-IsGood true r t p q = p
if-IsGood false r t p q = q

set_mask-IsGood :
    (optarg : Bytes) (o : Options) → IsSettled o.cmd → IsGood (set_mask o (mask_of optarg))
unfolding set_mask
set_mask-IsGood optarg o h = rw (mask_of_lem optarg) h

handle_option-IsGood :
    (system_user : Bool) (c : ℕ) (optarg : Bytes) (o : Options)
    → IsSettled o.cmd
    → IsGood (handle_option system_user c optarg o)
unfolding handle_option
handle_option-IsGood system_user c optarg o h = if-IsGood (c == b'i') _ _ h (
    if-IsGood (c == b'f') _ _ h (
      if-IsGood (c == b'u') _ _ h (
        if-IsGood (c == b'n') _ _ h (
          if-IsGood (c == b'd') _ _ h (
            if-IsGood (c == b'p') _ _ h (
              if-IsGood (c == b'o') _ _ h (
                if-IsGood (c == b'm') _ _
                  (if-IsGood system_user (set_mask o (mask_of optarg)) (options o)
                    (set_mask-IsGood optarg o h) h)
                  (if-IsGood (c == b'a') _ _ h (
                    if-IsGood (c == b'l') _ _ list (
                      if-IsGood (c == b's') _ _ sync (
                        if-IsGood (c == b'c') _ _ clean (
                          if-IsGood (c == b'r') _ _ umount (
                            if-IsGood (c == b'w') _ _ add
                              (if-IsGood (c == b'h') (ended 0) (options o) tt h))))))))))))))

after_option-IsGood :
    (rest : Options → Read) (r : Read)
    → ((o : Options) → IsSettled o.cmd → IsGood (rest o))
    → IsGood r
    → IsGood (after_option rest r)
unfolding after_option
after_option-IsGood rest (options o) k h = k o h
after_option-IsGood rest (ended n) k h = tt
after_option-IsGood rest overrun k h = h

read_options-IsGood :
    (system_user : Bool) (args : List (ℕ × Bytes)) (o : Options)
    → IsSettled o.cmd
    → IsGood (read_options system_user args o)
unfolding read_options
read_options-IsGood system_user [] o h = h
read_options-IsGood system_user ((c, optarg) ∷ args) o h =
    after_option-IsGood (λ next. read_options system_user args next)
      (handle_option system_user c optarg o) (read_options-IsGood system_user args)
      (handle_option-IsGood system_user c optarg o h)

choose_cmd-IsCommand :
    (argv_0 : Bytes) (cmd : Option Bytes) → IsSettled cmd → IsCommand (choose_cmd argv_0 cmd)
unfolding choose_cmd
choose_cmd-IsCommand argv_0 none h =
    if-IsCommand (str_eq (name_of argv_0 (strrchr b'/' argv_0)) (codes "halevt-umount"))
  where
    if-IsCommand : (b : Bool) → IsCommand (if b then codes "umount" else codes "mount")
    if-IsCommand true = umount
    if-IsCommand false = mount
choose_cmd-IsCommand argv_0 (some cmd) h = h

-- Whatever the options and the name of the program are, no buffer is overrun, and the command is
-- one of the six that `main` knows.
pub read_options-IsCommand :
    (system_user : Bool) (args : List (ℕ × Bytes)) (argv_0 : Bytes)
    → (read_options system_user args defaults ≢ overrun)
      × ((o : Options)
          → read_options system_user args defaults ≡ options o
          → IsCommand (choose_cmd argv_0 o.cmd))
read_options-IsCommand system_user args argv_0 =
    let good = read_options-IsGood system_user args defaults tt in
    (λ e. rw e at good, λ o e. choose_cmd-IsCommand argv_0 o.cmd (rw e at good))

-- With both files given and no directory, no directory is chosen.
pub choose_places_without :
    (localstatedir : Bytes) (system_user : Bool) (home : Option Bytes) (o : Options)
    (lockfile device_file : Bytes)
    → o.lockfile ≡ some lockfile
    → o.device_file ≡ some device_file
    → o.directory ≡ none
    → choose_places localstatedir system_user home o
      ≡ some (record {
        directory = none;
        lockfile = lockfile;
        device_file = device_file;
        tmp_device_file = device_file ++ codes ".tmp";
      })
unfolding choose_places choose_directory or_in
choose_places_without localstatedir system_user home o lockfile device_file p q r =
    rw (p, q, r, joined-append device_file (codes ".tmp")) refl
