-- ===== src/Exec/Print.antt =====
-- The message text of a command fits the buffer that is allocated for it.
use mathlib.Core.List.{append_assoc, append-nil}
use gnu_halevt.Base.{
  ℕ, ◌+◌, ◌<◌, List, [], ◌∷◌, ◌++◌, some, Bytes, codes, ◌≡◌, refl, sym, ap, ◌∙◌, arith, length,
  length-append, strcat_lem, int_fits, ◌^◌,
}
use gnu_halevt.Names.Print.{arrows, print_property_name-fits}
use gnu_halevt.Exec.{
  Exec, ExecElement, text, hal_value, element_string, print_exec_size, print_elements, print_exec,
}

-- What one element prints as.
abbrev pub shown : ExecElement → Bytes
shown (text s) = s
shown (hal_value property) = arrows property.parents ++ property.name

-- The parts, with "| " behind each.
abbrev pub bars : List ExecElement → Bytes
bars [] = []
bars (e ∷ es) = shown e ++ (codes "| " ++ bars es)

element_string-shown :
    (e : ExecElement) → length (shown e) + 1 < 2 ^ 31 → element_string e ≡ some (shown e)
unfolding element_string
element_string-shown (text s) h = refl
element_string-shown (hal_value property) h = (print_property_name-fits property h).0

print_exec_size-bars :
    (es : List ExecElement)
    → length (bars es) + 1 < 2 ^ 31
    → print_exec_size es ≡ some (length (bars es))
unfolding print_exec_size
print_exec_size-bars [] h = refl
print_exec_size-bars (e ∷ es) h =
    let long : length (shown e) + 2 + length (bars es) ≡ length (bars (e ∷ es)) =
      omega (arith, length-append (shown e) (codes "| " ++ bars es)) in
    rw (element_string-shown e (omega arith), print_exec_size-bars es (omega arith)) (ap some long)

print_elements-bars :
    (es : List ExecElement) (size : ℕ) (result : Bytes)
    → length result + length (bars es) < size
    → size < 2 ^ 31
    → print_elements size result es ≡ some (result ++ bars es)
unfolding print_elements
print_elements-bars [] size result h l = ap some (sym (append-nil result))
print_elements-bars (e ∷ es) size result h l =
    let long = length-append (shown e) (codes "| " ++ bars es) in
    let r = result ++ shown e in
    let r_long = length-append result (shown e) in
    let r' = r ++ codes "| " in
    let r'_long = length-append r (codes "| ") in
    rw
      (
        element_string-shown e (omega arith),
        strcat_lem size result (shown e) (omega arith),
        strcat_lem size r (codes "| ") (omega arith),
      )
      (print_elements-bars es size r' (omega arith) l
        ∙ ap some (append_assoc r (codes "| ") (bars es) ∙ append_assoc result (shown e) _))

-- Where an int holds the size of the text, every write of `print_exec` stays within the size that its first loop has summed up.
pub print_exec-fits :
    (exec : Exec)
    → length (bars exec.elements) + 1 < 2 ^ 31
    → print_exec exec ≡ some (bars exec.elements)
unfolding print_exec
print_exec-fits exec h =
    rw (print_exec_size-bars exec.elements h, int_fits (length (bars exec.elements) + 1) h)
      (print_elements-bars exec.elements (length (bars exec.elements) + 1) [] (omega arith) h)
