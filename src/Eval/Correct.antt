-- ===== src/Eval/Correct.antt =====
-- The evaluation gives the meaning of the expression that was parsed, whatever the normal form.
use gnu_halevt.Base.{
  ℕ, zero, suc, ◌<◌, Bool, true, false, not, ◌&&◌, ◌||◌, List, [], ◌∷◌, Option, none, some, Bytes,
  ◌≡◌, refl, sym, ap, ◌∙◌, arith, atoi, decimal, get_elem?, length, All, ◌>>=◌,
}
use gnu_halevt.Base.Numbers.Digits.{atoi-decimal}
use gnu_halevt.Expr.{Match, BoolStuff}
use gnu_halevt.Eval.{match_at, value_true, all_true, none_true, term_true, any_term, true_tree}

abbrev pub every : (Bytes → Bool) → List Bytes → Bool
every v [] = true
every v (x ∷ xs) = v x && every v xs

abbrev pub no_one : (Bytes → Bool) → List Bytes → Bool
no_one v [] = true
no_one v (x ∷ xs) = not (v x) && no_one v xs

abbrev pub some_tree {ℓ} : {A : Type ℓ} → (A → Bool) → List A → Bool
some_tree p [] = false
some_tree p (t ∷ ts) = p t || some_tree p ts

module _ {Tree : Type 0} (boolstuff : BoolStuff Tree) (meaning : Tree → (Bytes → Bool) → Bool) where
  -- What boolstuff documents: the normal form means what the tree means, it is true where one of
  -- its terms is, and a term is the conjunction of its variables, negated or not.
  pub record IsNormalizer : Type 0 where
    pub normal_form :
        (t : Tree) (v : Bytes → Bool)
        → meaning (boolstuff.disjunctive_normal_form t) v ≡ meaning t v
    pub disjunction :
        (t : Tree) (v : Bytes → Bool)
        → meaning (boolstuff.disjunctive_normal_form t) v
          ≡ some_tree
              (λ r. meaning r v)
              (boolstuff.dnf_term_roots (boolstuff.disjunctive_normal_form t))
    pub conjunction :
        (t : Tree) (v : Bytes → Bool)
        → All
            (λ r.
              meaning r v ≡ (every v (boolstuff.positives r) && no_one v (boolstuff.negatives r)))
            (boolstuff.dnf_term_roots (boolstuff.disjunctive_normal_form t))

module _ (h : Match → Bool) (matches : List Match) where
  abbrev match_value : Option Match → Bool
  match_value none = false
  match_value (some m) = h m

  -- A variable stands for the match whose index it spells.
  abbrev pub valuation : Bytes → Bool
  valuation x = match_value (match_at matches (atoi x))

-- The variable is the index of a match.
pub record IsIndex (matches : List Match) (x : Bytes) : Type 0 where
  pub index : ℕ
  pub spelled : x ≡ decimal index
  pub inside : index < length matches

-- A term whose variables all spell indices.
pub record IsTerm {Tree : Type 0} (boolstuff : BoolStuff Tree) (matches : List Match) (term : Tree)
    : Type 0 where
  pub positive : All (IsIndex matches) (boolstuff.positives term)
  pub negative : All (IsIndex matches) (boolstuff.negatives term)

get_elem?_inside :
    {A : Type 0} (xs : List A) (i : ℕ) → i < length xs → (a : A) × (get_elem? xs i ≡ some a)
get_elem?_inside [] i k = absurd (omega arith)
get_elem?_inside (x ∷ xs) zero k = (x, refl)
get_elem?_inside (x ∷ xs) (suc i) k = get_elem?_inside xs i (omega arith)

module _ (h : Match → Bool) (matches : List Match) where
  abbrev holds : Match → Option Bool
  holds m = some (h m)

  value_true-index :
      (x : Bytes) → IsIndex matches x → value_true holds matches x ≡ some (valuation h matches x)
  unfolding value_true match_at
  value_true-index x k =
      let (m, e) = get_elem?_inside matches k.index k.inside in
      let at : match_at matches (atoi x) ≡ some m =
        ap (λ y. match_at matches (atoi y)) k.spelled
        ∙ ap (match_at matches) (atoi-decimal k.index)
        ∙ e in
      ap (λ (o : Option Match). o >>= holds) at ∙ ap (λ o. some (match_value h matches o)) (sym at)

  all_true-every :
      (xs : List Bytes)
      → All (IsIndex matches) xs
      → all_true holds matches xs ≡ some (every (valuation h matches) xs)
  unfolding all_true
  all_true-every [] k = refl
  all_true-every (x ∷ xs) k = ground (arith, value_true-index x k.0, all_true-every xs k.1)

  none_true-no_one :
      (xs : List Bytes)
      → All (IsIndex matches) xs
      → none_true holds matches xs ≡ some (no_one (valuation h matches) xs)
  unfolding none_true
  none_true-no_one [] k = refl
  none_true-no_one (x ∷ xs) k = ground (arith, value_true-index x k.0, none_true-no_one xs k.1)

  term_true-meaning :
      {Tree : Type 0} (boolstuff : BoolStuff Tree) (term : Tree)
      → All (IsIndex matches) (boolstuff.positives term)
      → All (IsIndex matches) (boolstuff.negatives term)
      → term_true holds matches boolstuff term
        ≡ some (
            every (valuation h matches) (boolstuff.positives term)
            && no_one (valuation h matches) (boolstuff.negatives term))
  unfolding term_true
  term_true-meaning boolstuff term p n = ground (
    arith,
    all_true-every (boolstuff.positives term) p,
    none_true-no_one (boolstuff.negatives term) n,
  )

  any_term-some_tree :
      {Tree : Type 0} (boolstuff : BoolStuff Tree) (value : Tree → Bool) (terms : List Tree)
      → All (IsTerm boolstuff matches) terms
      → All
          (λ r. value r ≡ (
            every (valuation h matches) (boolstuff.positives r)
            && no_one (valuation h matches) (boolstuff.negatives r)))
          terms
      → any_term holds matches boolstuff terms ≡ some (some_tree value terms)
  unfolding any_term
  any_term-some_tree boolstuff value [] k c = refl
  any_term-some_tree boolstuff value (t ∷ ts) k c = ground (
    arith,
    term_true-meaning boolstuff t k.0.positive k.0.negative,
    c.0,
    any_term-some_tree boolstuff value ts k.1 c.1,
  )

  -- For a normal form as boolstuff documents it, whose variables all spell indices of matches,
  -- the evaluation is defined, and it is what the parsed tree means where each variable stands
  -- for the match that it spells.
  pub true_tree-meaning :
      {Tree : Type 0} (boolstuff : BoolStuff Tree) (meaning : Tree → (Bytes → Bool) → Bool)
      → IsNormalizer boolstuff meaning
      → (t : Tree) (string : Bytes)
      → All
          (IsTerm boolstuff matches)
          (boolstuff.dnf_term_roots (boolstuff.disjunctive_normal_form t))
      → true_tree boolstuff holds (record {
        tree = boolstuff.disjunctive_normal_form t;
        expression_string = string;
        matches = matches;
      })
        ≡ some (meaning t (valuation h matches))
  unfolding true_tree
  true_tree-meaning boolstuff meaning n t string k =
      let v = valuation h matches in
      any_term-some_tree boolstuff (λ r. meaning r v) _ k (n.conjunction t v)
      ∙ ap some (sym (n.disjunction t v) ∙ n.normal_form t v)
