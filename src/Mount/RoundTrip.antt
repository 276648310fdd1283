-- ===== src/Mount/RoundTrip.antt =====
-- A file of volumes that was written is read back.
use gnu_halevt.Base.{
  ℕ, zero, suc, ◌≤◌, ◌<◌, false, List, [], ◌∷◌, ◌++◌, Option, none, some, Bytes, length,
  length-append, strstr, strstr_free, strstr_first, IsFree, ◌==◌, All, ◌≡◌, refl, ap, ◌∙◌, arith,
}
use gnu_halevt.Mount.{
  Volume, colon, newline, fgets, strip_newline, fields, not_empty, new_volume, parse_line,
  link_volume, parse_lines, parse_file, volume_text, print_from, print_udis,
}

pub data HasText : Option Bytes → Type 0 where
  no_text : HasText none
  has_text : (c : ℕ) (cs : Bytes) → HasText (some (c ∷ cs))

abbrev IsFreeIn : ℕ → Option Bytes → Type 0
IsFreeIn c none = Unit
IsFreeIn c (some s) = IsFree c s

-- A volume whose line can be read back: no colon in udi or device, no newline, nothing empty, and
-- a line that `fgets` reads at once.
pub record IsStored (v : Volume) : Type 0 where
  pub udi_text : 0 < length v.udi
  pub device_text : HasText v.device
  pub mountpoint_text : HasText v.mountpoint
  pub udi_plain : IsFree 58 v.udi
  pub device_plain : IsFreeIn 58 v.device
  pub one_line : IsFree newline (volume_text v.udi v.device v.mountpoint)
  pub short : length (volume_text v.udi v.device v.mountpoint) < 1022

not_empty-HasText : (o : Option Bytes) → HasText o → not_empty o ≡ o
not_empty-HasText none h = refl
not_empty-HasText (some []) h = elim h [ ]
not_empty-HasText (some (c ∷ cs)) h = refl

long_field : (c d : ℕ) (cs : Bytes) → (length (c ∷ d ∷ cs) == 1) ≡ false
long_field c d cs = ground arith

-- The fields of a line, with a mountpoint behind an empty device where there is no device.
fields-volume_text :
    (u : Bytes) (d m : Option Bytes)
    → HasText d
    → HasText m
    → IsFree 58 u
    → IsFreeIn 58 d
    → (e : Option Bytes) × (fields (strstr colon (volume_text u d m)) (volume_text u d m)
        ≡ (u, (e, m)))
      × (not_empty e ≡ d)
unfolding fields volume_text
fields-volume_text u none none p q f g = (none, rw (strstr_free 58 u f) refl, refl)
fields-volume_text u (some (c ∷ cs)) none p q f g = (
  some (c ∷ cs),
  rw (strstr_first 58 u (c ∷ cs) f, long_field 58 c cs, strstr_free 58 (c ∷ cs) g) refl,
  refl,
)
fields-volume_text u none (some (c ∷ cs)) p q f g = (
  some [],
  rw
      (
        strstr_first 58 u (colon ++ c ∷ cs) f,
        long_field 58 58 (c ∷ cs),
        strstr_first 58 [] (c ∷ cs) tt,
        long_field 58 c cs,
      )
      refl,
  refl,
)
fields-volume_text u (some (c ∷ cs)) (some (x ∷ xs)) p q f g = (
  some (c ∷ cs),
  rw
      (
        strstr_first 58 u ((c ∷ cs) ++ (colon ++ x ∷ xs)) f,
        long_field 58 c (cs ++ (colon ++ x ∷ xs)),
        strstr_first 58 (c ∷ cs) (x ∷ xs) g,
        long_field 58 x xs,
      )
      refl,
  refl,
)
fields-volume_text u (some []) m p q f g = elim p [ ]
fields-volume_text u none (some []) p q f g = elim q [ ]
fields-volume_text u (some (c ∷ cs)) (some []) p q f g = elim q [ ]

new_volume_lem :
    (left : ℕ) (u : Bytes) (d m : Option Bytes)
    → 0 < length u
    → new_volume left (u, (d, m))
      ≡ some (record { udi = u; device = not_empty d; mountpoint = not_empty m; ignore = left })
unfolding new_volume
new_volume_lem left [] d m h = absurd (omega arith)
new_volume_lem left (c ∷ cs) d m h = refl

abbrev with_places : ℕ → Volume → Option Bytes → Option Bytes → Volume
with_places left v d m = record { udi = v.udi; device = d; mountpoint = m; ignore = left }

-- The line of a volume gives the volume, but for the field that is not set.
parse_line-volume_text :
    (left : ℕ) (v : Volume)
    → IsStored v
    → parse_line left (volume_text v.udi v.device v.mountpoint) ≡ some (record v { ignore = left })
unfolding parse_line
parse_line-volume_text left v k =
    let (e, is, device) =
      fields-volume_text v.udi v.device v.mountpoint k.device_text k.mountpoint_text k.udi_plain
        k.device_plain in
    ap (new_volume left) is
    ∙ new_volume_lem left v.udi e v.mountpoint k.udi_text
    ∙ ap (λ d. some (with_places left v d (not_empty v.mountpoint))) device
    ∙ ap (λ m. some (with_places left v v.device m))
        (not_empty-HasText v.mountpoint k.mountpoint_text)

fgets-line :
    (n : ℕ) (s rest : Bytes)
    → IsFree newline s
    → length s < n
    → fgets n (s ++ (newline ∷ rest)) ≡ (s ++ newline ∷ [], rest)
unfolding fgets
fgets-line zero s rest f h = absurd (omega arith)
fgets-line (suc n) [] rest f h = refl
fgets-line (suc n) (c ∷ cs) rest f h = rw (f.0, fgets-line n cs rest f.1 (omega arith)) refl

strip_newline-line : (s : Bytes) → strip_newline (s ++ newline ∷ []) ≡ s
unfolding strip_newline
strip_newline-line [] = refl
strip_newline-line (c ∷ []) = refl
strip_newline-line (c ∷ d ∷ ds) = ap (λ l. c ∷ l) (strip_newline-line (d ∷ ds))

-- The volumes in reverse order, in front of a list, with the field that is not set.
abbrev pub read_back : ℕ → List Volume → List Volume → List Volume
read_back left [] root = root
read_back left (v ∷ vs) root = read_back left vs (record v { ignore = left } ∷ root)

-- A round of the loop, given what `fgets` has read.
abbrev after : ℕ → ℕ → List Volume → Bytes × Bytes → Option (List Volume)
after left fuel root read =
    parse_lines left fuel (link_volume (parse_line left (strip_newline read.0)) root) read.1

parse_lines-after :
    (left fuel : ℕ) (root : List Volume) (c : ℕ) (cs : Bytes)
    → parse_lines left (suc fuel) root (c ∷ cs) ≡ after left fuel root (fgets 1022 (c ∷ cs))
unfolding parse_lines
parse_lines-after left fuel root c cs = refl

parse_lines-after_line :
    (left fuel : ℕ) (root : List Volume) (line rest : Bytes)
    → parse_lines left (suc fuel) root (line ++ (newline ∷ rest))
      ≡ after left fuel root (fgets 1022 (line ++ (newline ∷ rest)))
parse_lines-after_line left fuel root [] rest = parse_lines-after left fuel root newline rest
parse_lines-after_line left fuel root (c ∷ cs) rest =
    parse_lines-after left fuel root c (cs ++ (newline ∷ rest))

link_some :
    (o : Option Volume) (v : Volume) (root : List Volume)
    → o ≡ some v
    → link_volume o root ≡ v ∷ root
unfolding link_volume
link_some none v root e = absurd cc
link_some (some w) v root e = cc

one_round :
    (left fuel : ℕ) (root : List Volume) (line rest : Bytes) (v : Volume)
    → IsFree newline line
    → length line < 1022
    → parse_line left line ≡ some v
    → parse_lines left (suc fuel) root (line ++ (newline ∷ rest))
      ≡ parse_lines left fuel (v ∷ root) rest
one_round left fuel root line rest v free short e =
    parse_lines-after_line left fuel root line rest
    ∙ ap (after left fuel root) (fgets-line 1022 line rest free short)
    ∙ ap (λ l. parse_lines left fuel l rest)
        (link_some _ v root (ap (parse_line left) (strip_newline-line line) ∙ e))

parse_lines-print_from :
    (left fuel : ℕ) (vs root : List Volume)
    → All IsStored vs
    → length (print_from false [] vs) < fuel
    → parse_lines left fuel root (print_from false [] vs) ≡ some (read_back left vs root)
unfolding print_from
parse_lines-print_from left zero vs root a h = absurd (omega arith)
parse_lines-print_from left (suc fuel) [] root a h = unfold parse_lines in refl
parse_lines-print_from left (suc fuel) (v ∷ vs) root a h =
    let text = volume_text v.udi v.device v.mountpoint in
    let rest = print_from false [] vs in
    let long = length-append text (newline ∷ rest) in
    one_round left fuel root text rest (record v { ignore = left }) a.0.one_line a.0.short
      (parse_line-volume_text left v a.0)
    ∙ parse_lines-print_from left fuel vs (record v { ignore = left } ∷ root) a.1 (omega arith)

-- A file that `halevt_mount_print_udis` wrote, without the values of `ignore`, for volumes whose
-- lines can be read, is read back: every volume, in the reverse order, in front of the list.
pub parse_file-print_udis :
    (left : ℕ) (vs root : List Volume)
    → All IsStored vs
    → parse_file left root (print_udis false vs) ≡ some (read_back left vs root)
unfolding parse_file print_udis
parse_file-print_udis left vs root a =
    parse_lines-print_from left (suc (length (print_from false [] vs))) vs root a (omega arith)

fgets-shorter : (n : ℕ) (s : Bytes) → length (fgets n s).1 ≤ length s
unfolding fgets
fgets-shorter zero s = omega arith
fgets-shorter (suc n) [] = omega arith
fgets-shorter (suc n) (c ∷ cs) = ground (arith, fgets-shorter n cs)

fgets-reads : (n c : ℕ) (cs : Bytes) → length (fgets (suc n) (c ∷ cs)).1 ≤ length cs
unfolding fgets
fgets-reads n c cs = ground (arith, fgets-shorter n cs)

less : (a b c : ℕ) → a ≤ b → suc b < suc c → a < c
less a b c h k = omega arith

parse_lines-ends :
    (left fuel : ℕ) (root : List Volume) (s : Bytes)
    → length s < fuel
    → (vs : List Volume) × (parse_lines left fuel root s ≡ some vs)
parse_lines-ends left zero root s h = absurd (omega arith)
parse_lines-ends left (suc fuel) root [] h = (root, unfold parse_lines in refl)
parse_lines-ends left (suc fuel) root (c ∷ cs) h =
    let read = fgets 1022 (c ∷ cs) in
    let (vs, e) =
      parse_lines-ends left fuel (link_volume (parse_line left (strip_newline read.0)) root) read.1
        (less _ (length cs) fuel (fgets-reads 1021 c cs) h) in
    (vs, parse_lines-after left fuel root c cs ∙ e)

-- Any file is read to its end.
pub parse_file-ends :
    (left : ℕ) (root : List Volume) (s : Bytes)
    → (vs : List Volume) × (parse_file left root s ≡ some vs)
unfolding parse_file
parse_file-ends left root s = parse_lines-ends left (suc (length s)) root s (omega arith)
