-- ===== src/ConfFiles/Search.antt =====
-- The configuration files that are found, described without the loops: of the regular files that
-- end in ".xml", the first of each name, in the order of the directories.
use mathlib.Core.List.{append_assoc, append-nil}
use gnu_halevt.Base.{
  suc, ◌+◌, Bool, true, false, not, ◌&&◌, List, [], ◌∷◌, ◌++◌, map, Option, none, some, Bytes,
  codes, length, length-append, strcat_lem, str_eq, str_eq_iff, if◌then◌else◌, ◌≡◌, refl, sym, ap,
  ◌∙◌, arith, inl, inr, Bool-cases,
}
use gnu_halevt.ConfFiles.{
  package_name, conffile_extension, Found, nothing_found, is_listed, add_file, file_name,
  regular_file, with_status, home_directory, below, visit_file, visit_files, visit_directory,
  visit_directories, directories, find_conf_files,
}
use gnu_halevt.ConfFiles.Extension.{ends_with, extension_loop-ends_with}

-- A file by its directory and its name.
pub record Place : Type 0 where
  pub directory : Bytes
  pub d_name : Bytes

abbrev pub path : Place → Bytes
path p = p.directory ++ p.d_name

-- A regular file whose name ends in ".xml" and is more than that.
abbrev pub is_regular : Option Bool → Bool
is_regular (some true) = true
is_regular _ = false

module _ (stat : Bytes → Option Bool) where
  abbrev pub is_accepted : Place → Bool
  is_accepted p =
      is_regular (stat (path p))
      && (not (str_eq conffile_extension p.d_name) && ends_with conffile_extension p.d_name)

  abbrev pub accepted : List Place → List Place
  accepted [] = []
  accepted (p ∷ ps) = if is_accepted p then p ∷ accepted ps else accepted ps

abbrev pub opened : Bytes → Option (List Bytes) → List Place
opened directory none = []
opened directory (some names) = map (λ n. record { directory = directory; d_name = n }) names

module _ (readdir : Bytes → Option (List Bytes)) where
  abbrev pub listing : List Bytes → List Place
  listing [] = []
  listing (d ∷ ds) = opened d (readdir d) ++ listing ds

-- The places whose names are not among the names.
abbrev pub without : List Bytes → List Place → List Place
without names [] = []
without names (p ∷ ps) = if is_listed p.d_name names then without names ps else p ∷ without names ps

-- The first place of each name.
abbrev pub firsts : List Place → List Place
firsts [] = []
firsts (p ∷ ps) = p ∷ without (p.d_name ∷ []) (firsts ps)

-- The places that the code adds to what it has.
abbrev add_all : List Place → Found → Found
add_all [] f = f
add_all (p ∷ ps) f = add_all ps (add_file (path p) p.d_name f)

is_listed-append :
    (n m : Bytes) (names : List Bytes)
    → is_listed n (names ++ m ∷ []) ≡ (if is_listed n names then true else str_eq m n)
unfolding is_listed
is_listed-append n m [] = ground arith
is_listed-append n m (b ∷ names) = ground (arith, is_listed-append n m names)

without-append :
    (names : List Bytes) (n : Bytes) (ps : List Place)
    → without (names ++ n ∷ []) ps ≡ without names (without (n ∷ []) ps)
unfolding is_listed
without-append names n [] = refl
without-append names n (p ∷ ps) =
    ground (arith, is_listed-append p.d_name n names, without-append names n ps)

-- A name that is already there takes nothing more out.
without-known :
    (names : List Bytes) (n : Bytes) (ps : List Place)
    → is_listed n names ≡ true
    → without names (without (n ∷ []) ps) ≡ without names ps
unfolding is_listed
without-known names n [] h = refl
without-known names n (p ∷ ps) h = ground (arith, str_eq_iff n p.d_name, without-known names n ps h)

-- Files and names grow together.
abbrev found_of : List Bytes → List Bytes → Found
found_of files names = record { conffiles = files; basefiles = names }

names_of : List Place → List Bytes
names_of = map (λ p. p.d_name)

add_file_old :
    (filename n : Bytes) (files names : List Bytes)
    → is_listed n names ≡ true
    → add_file filename n (found_of files names) ≡ found_of files names
unfolding add_file
add_file_old filename n files names h = rw h refl

add_file_new :
    (filename n : Bytes) (files names : List Bytes)
    → is_listed n names ≡ false
    → add_file filename n (found_of files names)
      ≡ found_of (files ++ filename ∷ []) (names ++ n ∷ [])
unfolding add_file
add_file_new filename n files names h = rw h refl

-- Adding places one by one adds the first of each name, but for the names that are there.
add_all-firsts :
    (ps : List Place) (files names : List Bytes)
    → (add_all ps (found_of files names)).conffiles ≡ files ++ map path (without names (firsts ps))
add_all-firsts [] files names = sym (append-nil files)
add_all-firsts (p ∷ ps) files names = elim (Bool-cases (is_listed p.d_name names)) [
  | inl old ↦
      ap (λ f. (add_all ps f).conffiles) (add_file_old (path p) p.d_name files names old)
      ∙ add_all-firsts ps files names
      ∙ rw old (ap (λ l. files ++ map path l) (sym (without-known names p.d_name (firsts ps) old)))
  | inr new ↦
      ap (λ f. (add_all ps f).conffiles) (add_file_new (path p) p.d_name files names new)
      ∙ add_all-firsts ps (files ++ path p ∷ []) (names ++ p.d_name ∷ [])
      ∙ append_assoc files (path p ∷ []) _
      ∙ rw new (ap (λ l. files ++ path p ∷ map path l) (without-append names p.d_name (firsts ps)))
]

file_name_lem : (d n : Bytes) → file_name d n ≡ some (d ++ n)
unfolding file_name
file_name_lem d n =
    rw (strcat_lem (length d + length n + 1) [] d (omega arith))
      (strcat_lem (length d + length n + 1) d n (omega arith))

-- One file is added where it is accepted, and otherwise passed over.
with_status_lem :
    (status : Option Bool) (filename n : Bytes) (f : Found)
    → with_status status filename n f
      ≡ some (
          if is_regular status
            && (not (str_eq conffile_extension n) && ends_with conffile_extension n)
          then add_file filename n f
          else f)
unfolding with_status
with_status_lem none filename n f = refl
with_status_lem (some false) filename n f = refl
with_status_lem (some true) filename n f =
    unfold regular_file in
    rw (extension_loop-ends_with (suc (length n)) n (omega arith)) (ground arith)

home_directory_lem : (home : Bytes) → home_directory home ≡ some (home ++ codes "/.halevt/")
unfolding home_directory
home_directory_lem home =
    let size = 1 + length (codes "/.") + length home + length package_name + length (codes "/") in
    let a = home ++ codes "/." in
    let b = a ++ package_name in
    rw
      (
        strcat_lem size [] home (omega arith),
        strcat_lem size home (codes "/.") (omega arith),
        strcat_lem size a package_name (omega (arith, length-append home (codes "/."))),
        strcat_lem size b (codes "/")
            (omega (arith, length-append home (codes "/."), length-append a package_name)),
      )
      (ap some (append_assoc a package_name (codes "/") ∙ append_assoc home (codes "/.") _))

-- Where the search looks: below HOME if it is set, then in the two directories of the build.
abbrev pub searched : Bytes → Bytes → Option Bytes → List Bytes
searched sysconfdir datadir none = below sysconfdir ∷ below datadir ∷ []
searched sysconfdir datadir (some home) =
    (home ++ codes "/.halevt/") ∷ below sysconfdir ∷ below datadir ∷ []

directories_lem :
    (sysconfdir datadir : Bytes) (home : Option Bytes)
    → directories sysconfdir datadir home ≡ some (searched sysconfdir datadir home)
unfolding directories
directories_lem sysconfdir datadir none = refl
directories_lem sysconfdir datadir (some home) = rw (home_directory_lem home) refl

without-nothing : (ps : List Place) → without [] ps ≡ ps
unfolding is_listed
without-nothing [] = refl
without-nothing (p ∷ ps) = ap (◌∷◌ p) (without-nothing ps)

module _ (stat : Bytes → Option Bool) (readdir : Bytes → Option (List Bytes)) where
  visit_file_lem :
      (d n : Bytes) (f : Found)
      → let p : Place = record { directory = d; d_name = n } in
        visit_file stat readdir d n f
        ≡ some (if is_accepted stat p then add_file (d ++ n) n f else f)
  unfolding visit_file
  visit_file_lem d n f = rw (file_name_lem d n) (with_status_lem (stat (d ++ n)) (d ++ n) n f)

  add_all-append :
      (ps qs : List Place) (f : Found) → add_all (ps ++ qs) f ≡ add_all qs (add_all ps f)
  add_all-append [] qs f = refl
  add_all-append (p ∷ ps) qs f = add_all-append ps qs (add_file (path p) p.d_name f)

  accepted-append :
      (ps qs : List Place) → accepted stat (ps ++ qs) ≡ accepted stat ps ++ accepted stat qs
  accepted-append [] qs = refl
  accepted-append (p ∷ ps) qs = elim (Bool-cases (is_accepted stat p)) [
    | inl e ↦ rw e (ap (◌∷◌ p) (accepted-append ps qs))
    | inr e ↦ rw e (accepted-append ps qs)
  ]

  visit_files_lem :
      (d : Bytes) (names : List Bytes) (f : Found)
      → visit_files stat readdir d names f
        ≡ some (add_all (accepted stat (opened d (some names))) f)
  unfolding visit_files
  visit_files_lem d [] f = refl
  visit_files_lem d (n ∷ names) f =
      let p : Place = record { directory = d; d_name = n } in
      elim (Bool-cases (is_accepted stat p)) [
        | inl e ↦ rw (visit_file_lem d n f, e) (visit_files_lem d names (add_file (d ++ n) n f))
        | inr e ↦ rw (visit_file_lem d n f, e) (visit_files_lem d names f)
      ]

  visit_directory_lem :
      (d : Bytes) (names : Option (List Bytes)) (f : Found)
      → visit_directory stat readdir d names f ≡ some (add_all (accepted stat (opened d names)) f)
  unfolding visit_directory
  visit_directory_lem d none f = refl
  visit_directory_lem d (some names) f = visit_files_lem d names f

  visit_directories_lem :
      (ds : List Bytes) (f : Found)
      → visit_directories stat readdir ds f ≡ some (add_all (accepted stat (listing readdir ds)) f)
  unfolding visit_directories
  visit_directories_lem [] f = refl
  visit_directories_lem (d ∷ ds) f =
      let here = opened d (readdir d) in
      let there = listing readdir ds in
      rw (visit_directory_lem d (readdir d) f) (
        visit_directories_lem ds (add_all (accepted stat here) f)
        ∙ ap some (
            sym (add_all-append (accepted stat here) (accepted stat there) f)
            ∙ ap (λ ps. add_all ps f) (sym (accepted-append here there))))

  -- The search ends and finds, of the regular files that end in ".xml" in the directories of the
  -- user, of the system and of the package, the first of each name, in this order.
  pub find_conf_files-firsts :
      (sysconfdir datadir : Bytes) (home : Option Bytes)
      → find_conf_files stat readdir sysconfdir datadir home
        ≡ some
            (map path (firsts (accepted stat (listing readdir (searched sysconfdir datadir home)))))
  unfolding find_conf_files
  find_conf_files-firsts sysconfdir datadir home =
      let ds = searched sysconfdir datadir home in
      let ps = accepted stat (listing readdir ds) in
      rw (directories_lem sysconfdir datadir home, visit_directories_lem ds nothing_found)
        (ap some (add_all-firsts ps [] [] ∙ ap (map path) (without-nothing (firsts ps))))
