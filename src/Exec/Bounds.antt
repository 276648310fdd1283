-- ===== src/Exec/Bounds.antt =====
-- The two passes of `new_exec`: the fuel is enough, and the second stays within the array that
-- the first has sized.
use gnu_halevt.Base.{
  ℕ, zero, suc, ◌+◌, ◌≤◌, ◌<◌, [], ◌∷◌, ◌++◌, Option, none, some, Bytes, ◌≡◌, ◌≢◌, refl, inl, inr,
  arith, length, tail, starts_with, strstr, strstr_earlier, strstr-IsSuffix, IsSuffix, here,
  IsSuffix-tail, IsSuffix-tail_left, length-IsSuffix, starts_with_cut, strstr_cut, Bool-cases,
}
use gnu_halevt.Names.{PropertyName}
use gnu_halevt.Exec.{
  Exec, new_exec, to_exec, ExecElement, exec_prefix, dollar, count_rest, count_to, count_from,
  count_elements, Fill, out_of_fuel, bad_property, filled, prepend, fill_rest, fill_property,
  fill_to, fill_from, fill_elements,
}

-- What is found is not empty, so the text behind its first byte is shorter.
pub tail_shorter :
    (needle s : Bytes) {before at : Bytes}
    → 0 < length needle
    → strstr needle s ≡ some (before, at)
    → length (tail at) < length s
tail_shorter needle s {before} {at} h e =
    let (rest, f) = starts_with_cut needle at (strstr_cut needle s e).1 in
    go needle at rest h f (length-IsSuffix (strstr-IsSuffix needle s e))
  where
    go :
        (n a rest : Bytes)
        → 0 < length n
        → a ≡ n ++ rest
        → length a ≤ length s
        → length (tail a) < length s
    go [] a rest h f k = absurd (omega arith)
    go (x ∷ n) [] rest h f k = cc
    go (x ∷ n) (c ∷ a) rest h f k = omega arith

prepend-ne : (a b : ExecElement) (r : Fill) → r ≢ out_of_fuel → prepend a b r ≢ out_of_fuel
unfolding prepend
prepend-ne a b out_of_fuel h e = h e
prepend-ne a b bad_property h e = cc
prepend-ne a b (filled es) h e = cc

module _ (again : Bytes → Fill) where
  fill_property-ends :
      (before : Bytes) (o : Option PropertyName) (rest : Bytes)
      → again rest ≢ out_of_fuel
      → fill_property again before o rest ≢ out_of_fuel
  unfolding fill_property fill_rest
  fill_property-ends before none rest h = λ e. cc
  fill_property-ends before (some property) [] h = λ e. cc
  fill_property-ends before (some property) (c ∷ cs) h = prepend-ne _ _ _ h

  fill_to-ends :
      (s before : Bytes) (o : Option (Bytes × Bytes))
      → ((inside p : Bytes) → o ≡ some (inside, p) → again (tail p) ≢ out_of_fuel)
      → fill_to again s before o ≢ out_of_fuel
  unfolding fill_to
  fill_to-ends s before none h = λ e. cc
  fill_to-ends s before (some (inside, p)) h =
      fill_property-ends before _ (tail p) (h inside p refl)

  fill_from-ends :
      (s : Bytes) (o : Option (Bytes × Bytes))
      → ((before at inside p : Bytes)
          → o ≡ some (before, at)
          → strstr dollar (tail at) ≡ some (inside, p)
          → again (tail p) ≢ out_of_fuel)
      → fill_from again s o ≢ out_of_fuel
  unfolding fill_from
  fill_from-ends s none h = λ e. cc
  fill_from-ends s (some (before, at)) h =
      fill_to-ends s before (strstr dollar (tail at)) (λ inside p. h before at inside p refl)

-- As many rounds as bytes, and one more, are enough.
pub fill_elements-terminates :
    (fuel : ℕ) (s : Bytes) → length s < fuel → fill_elements fuel s ≢ out_of_fuel
unfolding fill_elements
fill_elements-terminates zero s h = absurd (omega arith)
fill_elements-terminates (suc fuel) s h =
    fill_from-ends (fill_elements fuel) s (strstr exec_prefix s) λ before at inside p e k.
      let first = tail_shorter exec_prefix s (omega arith) e in
      let second = tail_shorter dollar (tail at) (omega arith) k in
      fill_elements-terminates fuel (tail p) (omega arith)

abbrev Within : ℕ → Fill → Type 0
Within n (filled es) = length es ≤ n
Within n _ = Unit

Within-prepend :
    (a b : ExecElement) (n : ℕ) (r : Fill) → Within n r → Within (2 + n) (prepend a b r)
unfolding prepend
Within-prepend a b n out_of_fuel h = tt
Within-prepend a b n bad_property h = tt
Within-prepend a b n (filled es) h = omega arith

Within-mono : (n m : ℕ) (r : Fill) → n ≤ m → Within n r → Within m r
Within-mono n m out_of_fuel k h = tt
Within-mono n m bad_property k h = tt
Within-mono n m (filled es) k h = omega arith

-- A search from further back finds a place too, and no later one.
abbrev Earlier : Option (Bytes × Bytes) → Option (Bytes × Bytes) → Type 0
Earlier o₁ o₂ =
    (b₂ a₂ : Bytes)
    → o₂ ≡ some (b₂, a₂)
    → (b₁ : Bytes) × (a₁ : Bytes) × (o₁ ≡ some (b₁, a₁)) × IsSuffix a₂ a₁

-- The two passes at the same kind of place: the first has stopped no later than the second.
module _ (fill : Bytes → Fill) (count : Bytes → ℕ) where
  fill_rest-Within :
      (before : Bytes) (property : PropertyName) (r p t : Bytes)
      → IsSuffix r t
      → Within (count p + 1) (fill r)
      → Within (count_rest count p t + 1) (fill_rest fill before property r)
  unfolding fill_rest count_rest
  fill_rest-Within before property [] p [] s h = omega arith
  fill_rest-Within before property [] p (d ∷ ds) s h = omega arith
  fill_rest-Within before property (c ∷ cs) p [] s h = absurd (omega (arith, length-IsSuffix s))
  fill_rest-Within before property (c ∷ cs) p (d ∷ ds) s h =
      Within-mono (2 + (count p + 1)) _ _ (omega arith) (Within-prepend _ _ (count p + 1) _ h)

  fill_property-Within :
      (before : Bytes) (o : Option PropertyName) (r p t : Bytes)
      → IsSuffix r t
      → Within (count p + 1) (fill r)
      → Within (count_rest count p t + 1) (fill_property fill before o r)
  unfolding fill_property
  fill_property-Within before none r p t s h = tt
  fill_property-Within before (some property) r p t s h = fill_rest-Within before property r p t s h

  fill_to-Within :
      (s before : Bytes) (o₁ o₂ : Option (Bytes × Bytes))
      → Earlier o₁ o₂
      → ((i₁ p₁ p₂ : Bytes)
          → o₁ ≡ some (i₁, p₁)
          → IsSuffix (tail p₂) p₁
          → Within (count p₁ + 1) (fill (tail p₂)))
      → Within (count_to count o₁ + 1) (fill_to fill s before o₂)
  unfolding fill_to count_to
  fill_to-Within s before o₁ none e h = omega arith
  fill_to-Within s before o₁ (some (i₂, p₂)) e h =
      let (i₁, p₁, e₁, s₁) = e i₂ p₂ refl in
      rw (e₁, count_to)
        (fill_property-Within before _ (tail p₂) p₁ (tail p₁) (IsSuffix-tail p₂ p₁ s₁)
          (h i₁ p₁ p₂ e₁ (IsSuffix-tail_left p₂ s₁)))

  fill_from-Within :
      (s : Bytes) (o₁ o₂ : Option (Bytes × Bytes))
      → Earlier o₁ o₂
      → ((b₁ a₁ i₁ p₁ p₂ : Bytes)
          → o₁ ≡ some (b₁, a₁)
          → strstr dollar (tail a₁) ≡ some (i₁, p₁)
          → IsSuffix (tail p₂) p₁
          → Within (count p₁ + 1) (fill (tail p₂)))
      → Within (count_from count o₁ + 1) (fill_from fill s o₂)
  unfolding fill_from count_from
  fill_from-Within s o₁ none e h = omega arith
  fill_from-Within s o₁ (some (b₂, a₂)) e h =
      let (b₁, a₁, e₁, s₁) = e b₂ a₂ refl in
      rw (e₁, count_from)
        (fill_to-Within s b₂ (strstr dollar (tail a₁)) (strstr dollar (tail a₂))
          (λ b a f. strstr_earlier dollar b a (IsSuffix-tail a₂ a₁ s₁) f)
          (λ i₁ p₁ p₂ f. h b₁ a₁ i₁ p₁ p₂ e₁ f))

fill-le-count :
    (f g : ℕ) (p q : Bytes)
    → IsSuffix q p
    → length p < f
    → Within (count_elements f p + 1) (fill_elements g q)
unfolding fill_elements count_elements
fill-le-count f zero p q s h = tt
fill-le-count zero (suc g) p q s h = absurd (omega arith)
fill-le-count (suc f) (suc g) p q s h =
    fill_from-Within (fill_elements g) (count_elements f) q (strstr exec_prefix p)
      (strstr exec_prefix q) (λ b a e. strstr_earlier exec_prefix b a s e)
      λ b₁ a₁ i₁ p₁ p₂ e k s'.
        let first = tail_shorter exec_prefix p (omega arith) e in
        let second = length-IsSuffix (strstr-IsSuffix dollar (tail a₁) k) in
        fill-le-count f g p₁ (tail p₂) s' (omega arith)

to_exec_inv :
    (string : Bytes) (r : Fill) {e : Exec}
    → to_exec string r ≡ some e
    → (r ≡ filled e.elements) × (e.string ≡ string)
unfolding to_exec
to_exec_inv string out_of_fuel h = cc
to_exec_inv string bad_property h = cc
to_exec_inv string (filled es) h = ground arith

pub new_exec_inv :
    (exec : Bytes) {e : Exec}
    → new_exec exec ≡ some e
    → (fill_elements (suc (length exec)) exec ≡ filled e.elements) × (e.string ≡ exec)
unfolding new_exec
new_exec_inv exec h = elim (Bool-cases (starts_with exec_prefix exec)) [
  | inl refused ↦ cc (rw refused at h)
  | inr allowed ↦ to_exec_inv exec _ (rw allowed at h)
]

-- The array of `sub_elements_number + 1` places, counted by the first pass, holds every element
-- that the second pass writes.
pub new_exec-within :
    (exec : Bytes) {e : Exec}
    → new_exec exec ≡ some e
    → length e.elements ≤ count_elements (suc (length exec)) exec + 1
new_exec-within exec h =
    let n : ℕ = suc (length exec) in
    let w = fill-le-count n n exec exec here (omega arith) in rw (new_exec_inv exec h).0 at w
