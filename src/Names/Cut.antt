-- ===== src/Names/Cut.antt =====
-- The pieces that `parse_property_name` cuts: how many there are, and what they were cut from.
use mathlib.Core.List.{append_assoc}
use gnu_halevt.Base.{
  ℕ, ◌+◌, ◌≤◌, ◌<◌, true, false, List, [], ◌∷◌, ◌++◌, Bytes, codes, ◌≡◌, refl, sym, ap, ◌∙◌, inl,
  inr, arith, length, length-append, starts_with, starts_with-append, Bool-cases,
}
use gnu_halevt.Names.{hal_substring, occurrences, push, cut}

length-push :
    (c : ℕ) (pieces : List Bytes) → 0 < length pieces → length (push c pieces) ≡ length pieces
unfolding push
length-push c [] h = absurd (omega arith)
length-push c (p ∷ ps) h = refl

-- The cutting loop makes one piece more than the counting loop finds separators, so it stays
-- within the array of `parents_size + 1` places.
pub length-cut : (s : Bytes) → length (cut s) ≡ occurrences hal_substring s + 1
unfolding cut occurrences
length-cut [] = omega arith
length-cut (c ∷ cs) = elim (Bool-cases (starts_with hal_substring (c ∷ cs))) [
  | inl here ↦ rw here (omega (arith, length-cut cs))
  | inr not_here ↦ rw not_here (omega (arith, length-cut cs, length-push c (cut cs)))
]

-- The pieces with the dots put back.
abbrev pub join : List Bytes → Bytes
join [] = []
join (p ∷ []) = p
join (p ∷ q ∷ ps) = p ++ (b'.' ∷ join (q ∷ ps))

join-push : (c : ℕ) (pieces : List Bytes) → join (push c pieces) ≡ c ∷ join pieces
unfolding push
join-push c [] = refl
join-push c (p ∷ []) = refl
join-push c (p ∷ q ∷ ps) = refl

join-nil : (pieces : List Bytes) → 0 < length pieces → join ([] ∷ pieces) ≡ b'.' ∷ join pieces
join-nil [] h = absurd (omega arith)
join-nil (p ∷ ps) h = refl

hal_substring_head : (c : ℕ) (cs : Bytes) → starts_with hal_substring (c ∷ cs) ≡ true → c ≡ b'.'
unfolding starts_with
hal_substring_head c cs h = ground arith

-- Nothing is lost: the pieces make up the text again.
pub join-cut : (s : Bytes) → join (cut s) ≡ s
unfolding cut
join-cut [] = refl
join-cut (c ∷ cs) = elim (Bool-cases (starts_with hal_substring (c ∷ cs))) [
  | inl here ↦ rw here (
      join-nil (cut cs) (omega (arith, length-cut cs))
      ∙ cc (join-cut cs, hal_substring_head c cs here))
  | inr not_here ↦ rw not_here (join-push c (cut cs) ∙ ap (◌∷◌ c) (join-cut cs))
]

-- A piece in which, up to the next separator, no separator begins.
abbrev pub IsClean : Bytes → Type 0
IsClean piece = occurrences hal_substring (piece ++ codes ".hal") ≡ 0

occurrences_head :
    (c : ℕ) (cs : Bytes)
    → occurrences hal_substring (c ∷ cs) ≡ 0
    → (starts_with hal_substring (c ∷ cs) ≡ false) × (occurrences hal_substring cs ≡ 0)
unfolding occurrences
occurrences_head c cs h = ground arith

pub cut_nothing : (s : Bytes) → occurrences hal_substring s ≡ 0 → cut s ≡ s ∷ []
unfolding cut
cut_nothing [] h = refl
cut_nothing (c ∷ cs) h =
    let (apart, rest) = occurrences_head c cs h in
    rw (apart, cut_nothing cs rest) (unfold push in refl)

clean_head :
    (c : ℕ) (p t : Bytes)
    → IsClean (c ∷ p)
    → starts_with hal_substring (c ∷ (p ++ (codes ".hal." ++ t))) ≡ false
clean_head c p t h =
    let apart = (occurrences_head c (p ++ codes ".hal") h).0 in
    let longer : 5 ≤ length (c ∷ (p ++ codes ".hal")) =
      omega (arith, length-append p (codes ".hal")) in
    ap (λ s. starts_with hal_substring (c ∷ s)) (sym (append_assoc p (codes ".hal") (b'.' ∷ t)))
    ∙ starts_with-append hal_substring (c ∷ (p ++ codes ".hal")) (b'.' ∷ t) longer
    ∙ apart

cut_step :
    (c : ℕ) (cs : Bytes)
    → starts_with hal_substring (c ∷ cs) ≡ false
    → cut (c ∷ cs) ≡ push c (cut cs)
unfolding cut
cut_step c cs h = rw h refl

cut_separator : (t : Bytes) → cut (codes ".hal." ++ t) ≡ [] ∷ cut (codes "hal." ++ t)
unfolding cut starts_with
cut_separator t = refl

-- The first piece is what stands before the first separator.
pub cut-append :
    (p t : Bytes) → IsClean p → cut (p ++ (codes ".hal." ++ t)) ≡ p ∷ cut (codes "hal." ++ t)
cut-append [] t h = cut_separator t
cut-append (c ∷ p) t h =
    cut_step c _ (clean_head c p t h)
    ∙ ap (push c) (cut-append p t (occurrences_head c (p ++ codes ".hal") h).1)
    ∙ unfold push in refl
