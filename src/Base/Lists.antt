-- ===== src/Base/Lists.antt =====
-- Lists measured and indexed by native numbers, under the library's names.
use Prim.Native.Nat.{ℕ, zero, suc, ◌+◌}
use mathlib.Core.Path.{◌≡◌, refl, ap}
use mathlib.Core.List.{List, [], ◌∷◌, ◌++◌}
use mathlib.Core.Option.{Option, none, some}
use native.Mathlib.Omega.{arith}

module _ {ℓ} {A : Type ℓ} where
  abbrev pub length : List A → ℕ
  length [] = 0
  length (x ∷ xs) = suc (length xs)

  abbrev pub get_elem? : List A → ℕ → Option A
  get_elem? [] i = none
  get_elem? (x ∷ xs) zero = some x
  get_elem? (x ∷ xs) (suc i) = get_elem? xs i

  abbrev pub take : ℕ → List A → List A
  take zero xs = []
  take (suc n) [] = []
  take (suc n) (x ∷ xs) = x ∷ take n xs

  abbrev pub drop : ℕ → List A → List A
  drop zero xs = xs
  drop (suc n) [] = []
  drop (suc n) (x ∷ xs) = drop n xs

  pub length-append : (xs ys : List A) → length (xs ++ ys) ≡ length xs + length ys
  length-append [] ys = omega arith
  length-append (x ∷ xs) ys = omega (arith, length-append xs ys)

-- A predicate at each element.
abbrev pub All {ℓ κ} : {A : Type ℓ} → (A → Type κ) → List A → Type κ
All P [] = Unit
All P (x ∷ xs) = P x × All P xs

-- A loop over a list whose rounds may fail.
unfoldable pub traverse {ℓ κ} :
    {A : Type ℓ} {B : Type κ} → (A → Option B) → List A → Option (List B)
traverse f [] = some []
traverse f (x ∷ xs) =
    let rest = traverse f xs in
    elim (f x) [ none ↦ none | some y ↦ elim rest [ none ↦ none | some ys ↦ some (y ∷ ys) ] ]

module _ {ℓ κ} {A : Type ℓ} {B : Type κ} (f : A → Option B) where
  pub traverse-cons :
      (x : A) (xs : List A) {ys : List B}
      → traverse f (x ∷ xs) ≡ some ys
      → (y : B) × (zs : List B) × (f x ≡ some y) × (traverse f xs ≡ some zs) × (ys ≡ y ∷ zs)
  unfolding traverse
  traverse-cons x xs h = go (f x) (traverse f xs) refl refl h
    where
      go :
          (a : Option B) (r : Option (List B))
          → f x ≡ a
          → traverse f xs ≡ r
          → {ys : List B}
          → (elim a [ none ↦ none | some y ↦ elim r [ none ↦ none | some zs ↦ some (y ∷ zs) ] ])
            ≡ some ys
          → (y : B) × (zs : List B) × (f x ≡ some y) × (traverse f xs ≡ some zs) × (ys ≡ y ∷ zs)
      go none r p q e = cc
      go (some y) none p q e = cc
      go (some y) (some zs) p q e = (y, zs, p, q, cc)

  pub traverse-some :
      (x : A) (xs : List A) (y : B) (ys : List B)
      → f x ≡ some y
      → traverse f xs ≡ some ys
      → traverse f (x ∷ xs) ≡ some (y ∷ ys)
  unfolding traverse
  traverse-some x xs y ys p q = ground arith

  pub length-traverse :
      (xs : List A) {ys : List B} → traverse f xs ≡ some ys → length ys ≡ length xs
  unfolding traverse
  length-traverse [] h = ground arith
  length-traverse (x ∷ xs) h =
      let (y, zs, p, q, e) = traverse-cons x xs h in rw e (ap suc (length-traverse xs q))

module _ {ℓ} {A : Type ℓ} where
  -- The last place of a list, and what stands before it.
  pub take-last :
      (xs : List A) (n : ℕ) {x : A}
      → get_elem? xs n ≡ some x
      → length xs ≡ n + 1
      → xs ≡ take n xs ++ x ∷ []
  take-last [] n h e = cc
  take-last (y ∷ []) zero h e = cc
  take-last (y ∷ z ∷ xs) zero h e = absurd (omega arith)
  take-last (y ∷ xs) (suc n) h e = ap (◌∷◌ y) (take-last xs n h (omega arith))

  pub get_elem?_last : (xs : List A) (x : A) → get_elem? (xs ++ x ∷ []) (length xs) ≡ some x
  get_elem?_last [] x = refl
  get_elem?_last (y ∷ xs) x = get_elem?_last xs x

  pub take_front : (xs : List A) (x : A) → take (length xs) (xs ++ x ∷ []) ≡ xs
  take_front [] x = refl
  take_front (y ∷ xs) x = ap (◌∷◌ y) (take_front xs x)
