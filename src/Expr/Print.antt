-- ===== src/Expr/Print.antt =====
-- src/match.c: the message text of an expression fits the buffer that is allocated for it.
use mathlib.Core.List.{append_assoc, append-nil}
use gnu_halevt.Base.{
  ℕ, ◌+◌, ◌≤◌, ◌<◌, ◌^◌, List, [], ◌∷◌, ◌++◌, Option, none, some, Bytes, codes, ◌≡◌, refl, sym, ap,
  ◌∙◌, arith, length, length-append, strcat, strcat_lem, int_fits, decimal, ◌>>=◌,
}
use gnu_halevt.Base.Numbers.Digits.{length-decimal}
use gnu_halevt.Names.Print.{arrows, print_property_name-fits}
use gnu_halevt.Expr.{
  Match, BooleanExpression, value_size, print_matches_size, print_value, print_matches,
  print_boolean_expression,
}

abbrev shown_value : Option Bytes → Bytes
shown_value none = []
shown_value (some value) = codes "=" ++ value

-- The matches, with ", " behind each.
abbrev pub shown_matches : List Match → Bytes
shown_matches [] = []
shown_matches (m ∷ ms) =
    (arrows m.property.parents ++ m.property.name)
    ++ (shown_value m.value ++ (codes ", " ++ shown_matches ms))

length-shown_matches :
    (m : Match) (ms : List Match)
    → length (shown_matches (m ∷ ms))
      ≡ length (arrows m.property.parents ++ m.property.name)
        + value_size m.value
        + 2
        + length (shown_matches ms)
unfolding value_size
length-shown_matches m ms = omega (
  arith,
  length-append (arrows m.property.parents ++ m.property.name)
      (shown_value m.value ++ (codes ", " ++ shown_matches ms)),
  length-append (shown_value m.value) (codes ", " ++ shown_matches ms),
  sized m.value,
)
  where
    sized : (v : Option Bytes) → length (shown_value v) ≡ value_size v
    sized none = refl
    sized (some v) = omega arith

print_matches_size-shown :
    (ms : List Match) (total : ℕ)
    → length (shown_matches ms) + 1 < 2 ^ 31
    → print_matches_size total ms ≡ some (total + length (shown_matches ms))
unfolding print_matches_size
print_matches_size-shown [] total h = ap some (omega arith)
print_matches_size-shown (m ∷ ms) total h =
    let long = length-shown_matches m ms in
    rw (print_property_name-fits m.property (omega arith)).0 (
      print_matches_size-shown ms _ (omega arith)
      ∙ ap some (omega (arith, length-shown_matches m ms)))

print_value-shown :
    (size : ℕ) (string : Bytes) (v : Option Bytes)
    → length string + length (shown_value v) < size
    → print_value size string v ≡ some (string ++ shown_value v)
unfolding print_value
print_value-shown size string none h = ap some (sym (append-nil string))
print_value-shown size string (some v) h =
    let long = length-append string (codes "=") in
    rw
      (
        strcat_lem size string (codes "=") (omega arith),
        strcat_lem size (string ++ codes "=") v (omega arith),
      )
      (ap some (append_assoc string (codes "=") v))

print_matches-shown :
    (ms : List Match) (size : ℕ) (string : Bytes)
    → length string + length (shown_matches ms) < size
    → size < 2 ^ 31
    → print_matches size string ms ≡ some (string ++ shown_matches ms)
unfolding print_matches
print_matches-shown [] size string h l = ap some (sym (append-nil string))
print_matches-shown (m ∷ ms) size string h l =
    let p = arrows m.property.parents ++ m.property.name in
    let v = shown_value m.value in
    let rest = codes ", " ++ shown_matches ms in
    let n₁ = length-append p (v ++ rest) in
    let n₂ = length-append v rest in
    let n₃ = length-append string p in
    let n₄ = length-append (string ++ p) v in
    let n₅ = length-append (string ++ p ++ v) (codes ", ") in
    rw
      (
        (print_property_name-fits m.property (omega arith)).0,
        strcat_lem size string p (omega arith),
        print_value-shown size (string ++ p) m.value (omega arith),
        strcat_lem size (string ++ p ++ v) (codes ", ") (omega arith),
      )
      (print_matches-shown ms size (string ++ p ++ v ++ codes ", ") (omega arith) l
        ∙ ap some (
            append_assoc (string ++ p ++ v) (codes ", ") (shown_matches ms)
            ∙ append_assoc (string ++ p) v rest
            ∙ append_assoc string p (v ++ rest)))

print_rest :
    (size : ℕ) (tmp expression_string : Bytes) (ms : List Match)
    → length tmp + length expression_string + 2 + length (shown_matches ms) < size
    → size < 2 ^ 31
    → (do
      s ← strcat size [] tmp
      t ← strcat size s expression_string
      u ← strcat size t (codes ", ")
      print_matches size u ms)
      ≡ some (tmp ++ expression_string ++ codes ", " ++ shown_matches ms)
print_rest size tmp expression_string ms h l =
    let n₁ = length-append tmp expression_string in
    let n₂ = length-append (tmp ++ expression_string) (codes ", ") in
    rw
      (
        strcat_lem size [] tmp (omega arith),
        strcat_lem size tmp expression_string (omega arith),
        strcat_lem size (tmp ++ expression_string) (codes ", ") (omega arith),
      )
      (print_matches-shown ms size _ (omega arith) l)

-- What an expression is printed as.
abbrev pub expression_text : {Tree : Type 0} → BooleanExpression Tree → Bytes
expression_text expr =
    (decimal (length expr.matches) ++ codes ": ")
    ++ expr.expression_string
    ++ codes ", "
    ++ shown_matches expr.matches

-- For a number of matches and a text in the range of `int`, no write of `print_boolean_expression` goes
-- beyond `tmp` or the text that was allocated, and the text is the number of matches, the
-- expression, and each match with its value.
pub print_boolean_expression-fits :
    {Tree : Type 0} (expr : BooleanExpression Tree)
    → length expr.matches < 2 ^ 31
    → length (expression_text expr) + 1 < 2 ^ 31
    → print_boolean_expression expr ≡ some (expression_text expr)
unfolding print_boolean_expression
print_boolean_expression-fits expr h l =
    let d = decimal (length expr.matches) in
    let digits : length d ≤ 10 = length-decimal 9 _ (omega arith) in
    let n = length-append d (codes ": ") in
    let tmp = d ++ codes ": " in
    let s = expr.expression_string in
    let ms = expr.matches in
    let n₁ = length-append tmp s in
    let n₂ = length-append (tmp ++ s) (codes ", ") in
    let n₃ = length-append (tmp ++ s ++ codes ", ") (shown_matches ms) in
    let size = 0 + length (shown_matches ms) + (length tmp + length s + 2 + 1) in
    rw (print_matches_size-shown ms 0 (omega arith), strcat_lem 256 [] tmp (omega arith))
      (rw (int_fits size (omega arith)) (print_rest size tmp s ms (omega arith) (omega arith)))
