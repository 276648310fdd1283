-- ===== src/Mount.antt =====
-- halevt-mount/halevt-mount.c: the file in which halevt-mount keeps the volumes that it mounted, a
-- line "udi:device:mountpoint" for each. Reading a line goes through `fgets` with 1023 bytes.
pub mod RoundTrip
pub mod Check
pub mod Find
pub mod Add
pub mod Options
pub mod World
pub mod Commands
pub mod Main
pub mod Lock
use gnu_halevt.Base.{
  ℕ, zero, suc, ◌+◌, ◌*◌, Bool, true, false, List, [], ◌∷◌, ◌++◌, Option, none, some, Bytes, codes,
  length, tail, strstr, ◌==◌, if◌then◌else◌,
}

-- `halevt_mount_udi`
pub record Volume : Type 0 where
  pub udi : Bytes
  pub device : Option Bytes
  pub mountpoint : Option Bytes
  pub ignore : ℕ

abbrev pub colon : Bytes
colon = codes ":"

abbrev pub newline : ℕ
newline = 10

-- `fgets`: at most so many bytes, up to the first newline, and what is left in the file.
unfoldable pub fgets : ℕ → Bytes → Bytes × Bytes
fgets zero s = ([], s)
fgets (suc n) [] = ([], [])
fgets (suc n) (c ∷ cs) =
    let later = fgets n cs in if c == newline then (c ∷ [], cs) else (c ∷ later.0, later.1)

-- A newline at the end of the line is cut off.
unfoldable pub strip_newline : Bytes → Bytes
strip_newline [] = []
strip_newline (c ∷ []) = if c == newline then [] else c ∷ []
strip_newline (c ∷ d ∷ ds) = c ∷ strip_newline (d ∷ ds)

-- The device and the mountpoint, in the text behind the first colon.
unfoldable pub places : Option (Bytes × Bytes) → Bytes → Option Bytes × Option Bytes
places none current = (some current, none)
places (some (before, next)) current =
    (some before, if length next == 1 then none else some (tail next))

unfoldable pub fields : Option (Bytes × Bytes) → Bytes → Bytes × (Option Bytes × Option Bytes)
unfolding places
fields none line = (line, (none, none))
fields (some (before, next)) line = (
  before,
  if length next == 1 then (none, none) else places (strstr colon (tail next)) (tail next),
)

-- An empty device or mountpoint is none.
abbrev pub not_empty : Option Bytes → Option Bytes
not_empty none = none
not_empty (some []) = none
not_empty (some (c ∷ cs)) = some (c ∷ cs)

-- A line with an empty udi makes no volume. `left` is what the allocation left in the field
-- `ignore`, which is not set.
unfoldable pub new_volume : ℕ → Bytes × (Option Bytes × Option Bytes) → Option Volume
new_volume left ([], places) = none
new_volume left (c ∷ cs, places) = some (record {
  udi = c ∷ cs;
  device = not_empty places.0;
  mountpoint = not_empty places.1;
  ignore = left;
})

unfoldable pub parse_line : ℕ → Bytes → Option Volume
unfolding fields new_volume
parse_line left line = new_volume left (fields (strstr colon line) line)

unfoldable pub link_volume : Option Volume → List Volume → List Volume
link_volume none root = root
link_volume (some v) root = v ∷ root

-- The loop over the lines; `none` is out of fuel.
unfoldable pub parse_lines : ℕ → ℕ → List Volume → Bytes → Option (List Volume)
unfolding fgets strip_newline parse_line link_volume
parse_lines left zero root s = none
parse_lines left (suc fuel) root [] = some root
parse_lines left (suc fuel) root (c ∷ cs) =
    let read = fgets 1022 (c ∷ cs) in
    parse_lines left fuel (link_volume (parse_line left (strip_newline read.0)) root) read.1

-- `halevt_mount_parse_file` for a file that could be opened. Each round reads a byte at least.
unfoldable pub parse_file : ℕ → List Volume → Bytes → Option (List Volume)
unfolding parse_lines
parse_file left root s = parse_lines left (suc (length s)) root s

-- The text of one volume, without the newline.
unfoldable pub volume_text : Bytes → Option Bytes → Option Bytes → Bytes
volume_text udi none none = udi
volume_text udi (some device) none = udi ++ (colon ++ device)
volume_text udi none (some mountpoint) = udi ++ (colon ++ (colon ++ mountpoint))
volume_text udi (some device) (some mountpoint) =
    udi ++ (colon ++ (device ++ (colon ++ mountpoint)))

-- The text behind a volume; it stays what it was for the volume before where `ignore` is neither.
unfoldable next_ignore_string : Bool → ℕ → Bytes → Bytes
next_ignore_string print_ignore ignore ignore_string =
    if print_ignore
    then if ignore == 1
      then codes " (ignore true)"
      else if ignore == 2
      then codes " (ignore false)"
      else ignore_string
    else ignore_string

unfoldable pub print_from : Bool → Bytes → List Volume → Bytes
unfolding volume_text next_ignore_string
print_from print_ignore ignore_string [] = []
print_from print_ignore ignore_string (v ∷ vs) =
    let s = next_ignore_string print_ignore v.ignore ignore_string in
    volume_text v.udi v.device v.mountpoint ++ (s ++ (newline ∷ print_from print_ignore s vs))

-- `halevt_mount_print_udis` into a file that takes every line.
unfoldable pub print_udis : Bool → List Volume → Bytes
unfolding print_from
print_udis print_ignore vs = print_from print_ignore [] vs
