-- ===== src/Eval.antt =====
-- src/match.c: `halevt_value_true` and `halevt_true_tree`, which evaluate an expression in
-- disjunctive normal form for a device. A result `none` is a crash: a match that is not in the
-- array, or a NULL udi that is compared.
pub mod Correct
use gnu_halevt.Base.{
  ℕ, Bool, true, false, List, [], ◌∷◌, Option, none, some, Bytes, ℤ, pos, negsuc, atoi, get_elem?,
  if◌then◌else◌, ◌>>=◌,
}
use gnu_halevt.Expr.{Match, BooleanExpression, BoolStuff}

-- `expr->matches[i]`
unfoldable pub match_at : List Match → ℤ → Option Match
match_at matches (pos i) = get_elem? matches i
match_at matches (negsuc i) = none

-- `holds` is `halevt_matches` with the udi and the device of the call.
module _ (holds : Match → Option Bool) (matches : List Match) where
  unfoldable pub value_true : Bytes → Option Bool
  unfolding match_at
  value_true value = do match ← match_at matches (atoi value); holds match

  -- The two loops over the variables of a term, each left at the first that decides.
  unfoldable pub all_true : List Bytes → Option Bool
  unfolding value_true
  all_true [] = some true
  all_true (v ∷ vs) = do b ← value_true v; elim b [ true ↦ all_true vs | false ↦ some false ]

  unfoldable pub none_true : List Bytes → Option Bool
  unfolding value_true
  none_true [] = some true
  none_true (v ∷ vs) = do b ← value_true v; elim b [ true ↦ some false | false ↦ none_true vs ]

  module _ {Tree : Type 0} (boolstuff : BoolStuff Tree) where
    unfoldable pub term_true : Tree → Option Bool
    unfolding all_true none_true
    term_true term = do
      b ← all_true (boolstuff.positives term)
      elim b [ true ↦ none_true (boolstuff.negatives term) | false ↦ some false ]

    -- The loop over the terms, left at the first that is true.
    unfoldable pub any_term : List Tree → Option Bool
    unfolding term_true
    any_term [] = some false
    any_term (term ∷ terms) = do
      b ← term_true term
      elim b [ true ↦ some true | false ↦ any_term terms ]

module _ {Tree : Type 0} (boolstuff : BoolStuff Tree) (holds : Match → Option Bool) where
  unfoldable pub true_tree : BooleanExpression Tree → Option Bool
  unfolding any_term
  true_tree expr = any_term holds expr.matches boolstuff (boolstuff.dnf_term_roots expr.tree)
