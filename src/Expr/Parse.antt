-- ===== src/Expr/Parse.antt =====
-- What `halevt_new_boolean_expression` makes of a whole text, and of one atom.
use gnu_halevt.Base.{
  ◌<◌, true, List, [], ◌∷◌, ◌++◌, Option, none, some, Bytes, ◌≡◌, refl, ap, ◌∙◌, length, is_space,
  skip_spaces, strstr_free, strstr_first, IsFree, All, traverse, ◌>>=◌,
}
use gnu_halevt.Expr.{
  BooleanExpression, BoolStuff, separated, strsep, named_match, parse_atom, parse_match,
  new_boolean_expression,
}
use gnu_halevt.Expr.Scan.{trim_cons, trim_end}
use gnu_halevt.Expr.Scan.Safe.{most_atoms}
use gnu_halevt.Expr.Segments.{split, atoms_of, expr_of}
use gnu_halevt.Expr.Tokens.{scan-split}

module _ {Tree : Type 0} (boolstuff : BoolStuff Tree) where
  -- The expression of a text whose atoms and whose boolean expression are known.
  abbrev pub described : List Bytes → Bytes → Option (BooleanExpression Tree)
  described atoms expr = do
    matches ← traverse parse_match atoms
    tree ← boolstuff.parse expr
    some (record {
      tree = boolstuff.disjunctive_normal_form tree;
      expression_string = expr;
      matches = matches;
    })

  -- For a text shorter than a hundred million bytes, the atoms are those between the delimiters,
  -- boolstuff parses the text with their indices in their places, and the result is NULL exactly
  -- where an atom is no match or boolstuff refuses.
  pub new_boolean_expression-described :
      (s : Bytes)
      → length s < most_atoms
      → new_boolean_expression boolstuff s ≡ described (atoms_of (split s)) (expr_of 0 (split s))
  unfolding new_boolean_expression
  new_boolean_expression-described s h =
      let (t, e, atoms, expr) = scan-split s h in
      rw e (ap (λ a. described a t.expr) atoms ∙ ap (described (atoms_of (split s))) expr)

trim_end-spaces : (s : Bytes) → All (λ c. is_space c ≡ true) s → trim_end s ≡ []
unfolding trim_end trim_cons
trim_end-spaces [] h = refl
trim_end-spaces (c ∷ cs) h = rw (trim_end-spaces cs h.1, h.0) refl

trim_end-append : (s t : Bytes) → All (λ c. is_space c ≡ true) t → trim_end (s ++ t) ≡ trim_end s
unfolding trim_end
trim_end-append [] t h = trim_end-spaces t h
trim_end-append (c ∷ cs) t h = ap (trim_cons c) (trim_end-append cs t h)

skip_spaces-append :
    (s t : Bytes) → All (λ c. is_space c ≡ true) s → skip_spaces (s ++ t) ≡ skip_spaces t
unfolding skip_spaces
skip_spaces-append [] t h = refl
skip_spaces-append (c ∷ cs) t h = rw h.0 (skip_spaces-append cs t h.1)

strsep_first : (s t : Bytes) → IsFree b'=' s → strsep (s ++ b'=' ∷ t) ≡ (s, some t)
unfolding strsep
strsep_first s t h = ap (separated (s ++ b'=' ∷ t)) (strstr_first b'=' s t h)

strsep_free : (s : Bytes) → IsFree b'=' s → strsep s ≡ (s, none)
unfolding strsep
strsep_free s h = ap (separated s) (strstr_free b'=' s h)

-- An atom with "=" behind a name that has none is the match of that name and what follows, any
-- spaces round the "=" left out; without "=" it is the match of the name that asks for no value.
pub parse_match-named :
    (name before after value : Bytes)
    → IsFree b'=' (name ++ before)
    → All (λ c. is_space c ≡ true) before
    → All (λ c. is_space c ≡ true) after
    → trim_end name ≡ name
    → skip_spaces value ≡ value
    → (parse_match ((name ++ before) ++ b'=' ∷ (after ++ value)) ≡ named_match name (some value))
      × (parse_match (name ++ before) ≡ named_match (name ++ before) none)
unfolding parse_match parse_atom
parse_match-named name before after value free b a n v = (
  ap parse_atom (strsep_first (name ++ before) (after ++ value) free)
      ∙ ap (λ x. named_match x (some (skip_spaces (after ++ value))))
          (trim_end-append name before b ∙ n)
      ∙ ap (λ x. named_match name (some x)) (skip_spaces-append after value a ∙ v),
  ap parse_atom (strsep_free (name ++ before) free),
)
