-- ===== src/ConfFiles.antt =====
-- src/manager.c: `halevt_find_conf_files`, the search for configuration files in the three
-- directories.
pub mod Extension
pub mod Search
use gnu_halevt.Base.{
  ℕ, zero, suc, ◌+◌, Bool, true, false, List, [], ◌∷◌, ◌++◌, Option, none, some, Bytes, codes,
  length, drop, strcat, strstr, str_eq, ◌==◌, if◌then◌else◌, ◌>>=◌,
}

abbrev pub package_name : Bytes
package_name = codes "halevt"

abbrev pub conffile_extension : Bytes
conffile_extension = codes ".xml"

-- One round of the loop that looks for the extension: `some true` leaves it with an extension,
-- `some false` with NULL.
unfoldable pub next_extension : (Bytes → Option Bool) → Bytes → Option (Bytes × Bytes) → Option Bool
next_extension again string_pos none = some false
next_extension again string_pos (some (before, extension)) =
    if length extension == length conffile_extension
    then some true
    else again (drop (length conffile_extension) string_pos)

-- `none` is out of fuel.
unfoldable pub extension_loop : ℕ → Bytes → Option Bool
unfolding next_extension
extension_loop zero string_pos = none
extension_loop (suc fuel) string_pos =
    next_extension (λ s. extension_loop fuel s) string_pos (strstr conffile_extension string_pos)

-- `conffiles` and `basefiles`, which grow together.
pub record Found : Type 0 where
  pub conffiles : List Bytes
  pub basefiles : List Bytes

abbrev pub nothing_found : Found
nothing_found = record { conffiles = []; basefiles = [] }

unfoldable pub is_listed : Bytes → List Bytes → Bool
is_listed d_name [] = false
is_listed d_name (b ∷ bs) = if str_eq b d_name then true else is_listed d_name bs

-- A file that ends in the extension is taken unless its base name is there.
unfoldable pub add_file : Bytes → Bytes → Found → Found
unfolding is_listed
add_file filename d_name found = if is_listed d_name found.basefiles then found else record {
  conffiles = found.conffiles ++ filename ∷ [];
  basefiles = found.basefiles ++ d_name ∷ [];
}

-- The directory and the name, in a buffer of their size.
unfoldable pub file_name : Bytes → Bytes → Option Bytes
unfolding strcat
file_name directory d_name = do
  let size = length directory + length d_name + 1
  start ← strcat size [] directory
  strcat size start d_name

-- A regular file.
unfoldable pub regular_file : Bytes → Bytes → Found → Option Found
unfolding extension_loop add_file
regular_file filename d_name found = if str_eq conffile_extension d_name then some found else (do
  extension ← extension_loop (suc (length d_name)) d_name
  some (if extension then add_file filename d_name found else found))

-- What `stat` says: `none` where it fails, else whether the file is regular.
unfoldable pub with_status : Option Bool → Bytes → Bytes → Found → Option Found
unfolding regular_file
with_status none filename d_name found = some found
with_status (some false) filename d_name found = some found
with_status (some true) filename d_name found = regular_file filename d_name found

-- `$HOME/.halevt/`, in a buffer of its size.
unfoldable pub home_directory : Bytes → Option Bytes
unfolding strcat
home_directory home = do
  let size = 1 + length (codes "/.") + length home + length package_name + length (codes "/")
  a ← strcat size [] home
  b ← strcat size a (codes "/.")
  c ← strcat size b package_name
  strcat size c (codes "/")

unfoldable pub below : Bytes → Bytes
below prefix = prefix ++ (codes "/" ++ (package_name ++ codes "/"))

-- The directories in their order; that of the user only where HOME is set. SYSCONFDIR and DATADIR
-- are what the build was configured with.
unfoldable pub directories : Bytes → Bytes → Option Bytes → Option (List Bytes)
unfolding below home_directory
directories sysconfdir datadir none = some (below sysconfdir ∷ below datadir ∷ [])
directories sysconfdir datadir (some home) = do
  homedir ← home_directory home
  some (homedir ∷ below sysconfdir ∷ below datadir ∷ [])

-- `opendir` and `readdir`: the names in a directory in their order, or none where it cannot be
-- opened. `stat` as above.
module _ (stat : Bytes → Option Bool) (readdir : Bytes → Option (List Bytes)) where
  unfoldable pub visit_file : Bytes → Bytes → Found → Option Found
  unfolding file_name with_status
  visit_file directory d_name found = do
    filename ← file_name directory d_name
    with_status (stat filename) filename d_name found

  unfoldable pub visit_files : Bytes → List Bytes → Found → Option Found
  unfolding visit_file
  visit_files directory [] found = some found
  visit_files directory (d_name ∷ names) found = do
    next ← visit_file directory d_name found
    visit_files directory names next

  unfoldable pub visit_directory : Bytes → Option (List Bytes) → Found → Option Found
  unfolding visit_files
  visit_directory directory none found = some found
  visit_directory directory (some names) found = visit_files directory names found

  unfoldable pub visit_directories : List Bytes → Found → Option Found
  unfolding visit_directory
  visit_directories [] found = some found
  visit_directories (directory ∷ rest) found = do
    next ← visit_directory directory (readdir directory) found
    visit_directories rest next

  unfoldable pub find_conf_files : Bytes → Bytes → Option Bytes → Option (List Bytes)
  unfolding directories visit_directories
  find_conf_files sysconfdir datadir home = do
    dirs ← directories sysconfdir datadir home
    found ← visit_directories dirs nothing_found
    some found.conffiles
