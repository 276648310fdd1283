-- ===== src/Names/Exact.antt =====
-- Which texts `parse_property_name` accepts, and as what.
use mathlib.Core.List.{append_assoc}
use mathlib.Core.Option
use mathlib.Core.Path.{subst}
use gnu_halevt.Base.{
  ℕ, ◌+◌, ◌≤◌, ◌<◌, false, List, [], ◌∷◌, ◌++◌, map, some, Bytes, codes, ◌≡◌, ◌↔◌, refl, sym, ap,
  ◌∙◌, inl, inr, arith, length, length-append, starts_with, starts_with-append, starts_with_cut,
  Bool-cases, take, drop, get_elem?, traverse, traverse-cons, All, ltb, >>=-eq-some,
  length-traverse, take-last,
}
use gnu_halevt.Names.{
  PropertyName, hal_prefix, hal_substring, hal_string, occurrences, push, cut, parse_parents,
  parse_property_name,
}
use gnu_halevt.Names.Cut.{length-cut, IsClean}
use gnu_halevt.Names.RoundTrip.{
  dotted, prefixed, hal_string_lem, IsParent, parse_property_name-dotted, dotted-parse,
  traverse-prefixed,
}

-- A text with its pieces: no separator begins in a piece, and one stands behind each but the last.
abbrev IsCut : Bytes → List Bytes → Type 0
IsCut s [] = ⊥
IsCut s (p ∷ []) = (s ≡ p) × (occurrences hal_substring p ≡ 0)
IsCut s (p ∷ q ∷ ps) =
    (t : Bytes) × (s ≡ p ++ (codes ".hal." ++ t)) × IsClean p × IsCut (codes "hal." ++ t) (q ∷ ps)

not_at_head :
    (c : ℕ) (cs : Bytes)
    → starts_with hal_substring (c ∷ cs) ≡ false
    → occurrences hal_substring cs ≡ 0
    → occurrences hal_substring (c ∷ cs) ≡ 0
unfolding occurrences
not_at_head c cs h k = ground arith

here-IsCut :
    (c : ℕ) (cs t : Bytes) (ps : List Bytes)
    → c ∷ cs ≡ codes ".hal." ++ t
    → IsCut cs ps
    → IsCut (c ∷ cs) ([] ∷ ps)
here-IsCut c cs t [] e h = absurd h
here-IsCut c cs t (p ∷ ps) e h =
    let tail : cs ≡ codes "hal." ++ t = ap (drop 1) e in
    (t, e, unfold occurrences starts_with in refl, subst (λ u. IsCut u (p ∷ ps)) tail h)

push-IsCut :
    (c : ℕ) (cs : Bytes) (ps : List Bytes)
    → starts_with hal_substring (c ∷ cs) ≡ false
    → IsCut cs ps
    → IsCut (c ∷ cs) (push c ps)
unfolding push
push-IsCut c cs [] h k = absurd k
push-IsCut c cs (p ∷ []) h k = (
  ap (◌∷◌ c) k.0,
  not_at_head c p (ap (λ s. starts_with hal_substring (c ∷ s)) (sym k.0) ∙ h) k.1,
)
push-IsCut c cs (p ∷ q ∷ ps) h (t, e, clean, rest) =
    let longer : 5 ≤ length (c ∷ (p ++ codes ".hal")) =
      omega (arith, length-append p (codes ".hal")) in
    let apart : starts_with hal_substring (c ∷ (p ++ codes ".hal")) ≡ false =
      sym (starts_with-append hal_substring (c ∷ (p ++ codes ".hal")) (b'.' ∷ t) longer)
      ∙ ap (λ s. starts_with hal_substring (c ∷ s))
          (append_assoc p (codes ".hal") (b'.' ∷ t) ∙ sym e)
      ∙ h in
    (t, ap (◌∷◌ c) e, not_at_head c (p ++ codes ".hal") apart clean, rest)

cut-IsCut : (s : Bytes) → IsCut s (cut s)
unfolding cut
cut-IsCut [] = (refl, unfold occurrences in refl)
cut-IsCut (c ∷ cs) = elim (Bool-cases (starts_with hal_substring (c ∷ cs))) [
  | inl here ↦
      let (t, e) = starts_with_cut hal_substring (c ∷ cs) here in
      rw here (here-IsCut c cs t (cut cs) e (cut-IsCut cs))
  | inr not_here ↦ rw not_here (push-IsCut c cs (cut cs) not_here (cut-IsCut cs))
]

hal_string-length : (s : Bytes) {y : Bytes} → hal_string s ≡ some y → 0 < length y
unfolding hal_string
hal_string-length s {y} h = elim (Bool-cases (ltb (length s) 5)) [
  | inl short ↦ ground arith
  | inr long ↦ ground (arith, ap length (hal_string_lem s h))
]

traverse-nonempty :
    (xs ys : List Bytes) → traverse hal_string xs ≡ some ys → All (λ y. 0 < length y) ys
traverse-nonempty [] [] h = tt
traverse-nonempty [] (y ∷ ys) h = absurd (unfold traverse in cc h)
traverse-nonempty (x ∷ xs) ys h =
    let (y, zs, p, q, e) = traverse-cons hal_string x xs h in
    subst (All (λ y. 0 < length y)) (sym e) (hal_string-length x p, traverse-nonempty xs zs q)

-- A name that a text can stand for.
abbrev pub IsWritten : PropertyName → Type 0
IsWritten property =
    All IsParent property.parents
    × (0 < length property.name)
    × (occurrences hal_substring (hal_prefix ++ property.name) ≡ 0)

pieces-IsWritten :
    (s : Bytes) (ps : List Bytes) (name : Bytes)
    → IsCut s (map prefixed (ps ++ name ∷ []))
    → All (λ y. 0 < length y) (ps ++ name ∷ [])
    → IsWritten (record { name = name; parents = ps })
pieces-IsWritten s [] name h k = (tt, k.0, h.1)
pieces-IsWritten s (p ∷ []) name (t, e, clean, rest) k = (((k.0, clean), tt), k.1.0, rest.1)
pieces-IsWritten s (p ∷ q ∷ ps) name (t, e, clean, rest) k =
    let later = pieces-IsWritten _ (q ∷ ps) name rest k.1 in
    (((k.0, clean), later.0), later.1, later.2)

parse_parents-IsWritten :
    (s : Bytes) {property : PropertyName}
    → parse_parents (occurrences hal_substring s) s ≡ some property
    → IsWritten property
unfolding parse_parents
parse_parents-IsWritten s {property} h =
    let n = occurrences hal_substring s in
    let (pieces, cutting, h₁) = >>=-eq-some (traverse hal_string (cut s)) _ h in
    let (name, last, h₂) = >>=-eq-some (get_elem? pieces n) _ h₁ in
    let size : length pieces ≡ n + 1 = length-traverse hal_string (cut s) cutting ∙ length-cut s in
    let split : pieces ≡ take n pieces ++ name ∷ [] = take-last pieces n last size in
    subst (λ r. IsWritten (Option.get_or r property)) h₂
      (pieces-IsWritten s (take n pieces) name
        (subst (IsCut s) (traverse-prefixed (cut s) cutting ∙ ap (map prefixed) split)
          (cut-IsCut s))
        (subst (All (λ y. 0 < length y)) split (traverse-nonempty (cut s) pieces cutting)))

parse_property_name-IsWritten :
    (s : Bytes) {property : PropertyName}
    → parse_property_name s ≡ some property
    → IsWritten property
unfolding parse_property_name
parse_property_name-IsWritten s {property} h =
    elim (Bool-cases (ltb 0 (occurrences hal_substring s))) [
      | inl some_parents ↦ parse_parents-IsWritten s (rw some_parents at h)
      | inr no_parents ↦
          let (name, found, h') = >>=-eq-some (hal_string s) _ (rw no_parents at h) in
          let free : occurrences hal_substring s ≡ 0 = ground arith in
          subst (λ r. IsWritten (Option.get_or r property)) h'
            (
              tt,
              hal_string-length s found,
              ap (occurrences hal_substring) (sym (hal_string_lem s found)) ∙ free,
            )
    ]

-- A text is parsed to a name exactly where the name with its parents, written out, is the text, no
-- part of it is empty, and no separator begins in a part.
pub parse_property_name_iff :
    (s : Bytes) (property : PropertyName)
    → (parse_property_name s ≡ some property) ↔ (IsWritten property × (dotted property ≡ s))
parse_property_name_iff s property = (
  λ h. (parse_property_name-IsWritten s h, parse_property_name-dotted s h),
  λ h.
      ap parse_property_name (sym h.1)
      ∙ dotted-parse property.parents property.name h.0.0 h.0.1 h.0.2,
)
