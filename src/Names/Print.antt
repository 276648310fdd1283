-- ===== src/Names/Print.antt =====
-- The message text of a property name fits the buffer that is allocated for it.
use mathlib.Core.List.{append_assoc, append-nil}
use gnu_halevt.Base.{
  ℕ, ◌+◌, ◌<◌, List, [], ◌∷◌, ◌++◌, some, Bytes, codes, ◌≡◌, sym, ap, ◌∙◌, arith, length,
  length-append, strcat_lem, int_fits, ◌^◌,
}
use gnu_halevt.Names.{PropertyName, add_sizes, print_size, print_parents, print_property_name}

-- The parents with "->" behind each.
abbrev pub arrows : List Bytes → Bytes
arrows [] = []
arrows (p ∷ ps) = p ++ (codes "->" ++ arrows ps)

add_sizes-arrows : (ps : List Bytes) (total : ℕ) → add_sizes total ps ≡ total + length (arrows ps)
unfolding add_sizes
add_sizes-arrows [] total = omega arith
add_sizes-arrows (p ∷ ps) total =
    omega (
      arith,
      add_sizes-arrows ps (total + (length p + 2)),
      length-append p (codes "->" ++ arrows ps),
    )

print_parents-arrows :
    (ps : List Bytes) (size : ℕ) (string : Bytes)
    → length string + length (arrows ps) < size
    → print_parents size string ps ≡ some (string ++ arrows ps)
unfolding print_parents
print_parents-arrows [] size string h = ap some (sym (append-nil string))
print_parents-arrows (p ∷ ps) size string h =
    let long = length-append p (codes "->" ++ arrows ps) in
    let q = string ++ p in
    let q_long = length-append string p in
    let r = q ++ codes "->" in
    let r_long = length-append q (codes "->") in
    rw (strcat_lem size string p (omega arith), strcat_lem size q (codes "->") (omega arith))
      (print_parents-arrows ps size r (omega arith)
        ∙ ap some (append_assoc q (codes "->") (arrows ps) ∙ append_assoc string p _))

-- The size that is computed is that of the text with its NUL, where an int holds it, and no write goes beyond it.
pub print_property_name-fits :
    (property : PropertyName)
    → length (arrows property.parents ++ property.name) + 1 < 2 ^ 31
    → (print_property_name property ≡ some (arrows property.parents ++ property.name))
      × (print_size property ≡ length (arrows property.parents ++ property.name) + 1)
unfolding print_property_name
print_property_name-fits property h =
    let size_is : print_size property
        ≡ length property.name + 1 + length (arrows property.parents) =
      unfold print_size in add_sizes-arrows property.parents (length property.name + 1) in
    let long = length-append (arrows property.parents) property.name in
    (
      rw
          (
            int_fits (print_size property) (omega arith),
            print_parents-arrows property.parents (print_size property) [] (omega arith),
          )
          (strcat_lem _ _ _ (omega arith)),
      omega arith,
    )
