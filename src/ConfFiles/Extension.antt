-- ===== src/ConfFiles/Extension.antt =====
-- The loop that looks for the extension of a configuration file: it steps by four bytes, and still
-- finds an extension at the end.
use gnu_halevt.Base.{
  ℕ, zero, suc, ◌+◌, ◌-◌, ◌≤◌, ◌<◌, Bool, true, false, ◌||◌, [], ◌∷◌, ◌++◌, Option, none, some,
  Bytes, length, length-append, drop, strstr, strstr_cut, starts_with, starts_with_cut, str_eq,
  str_eq_iff, ◌≡◌, ◌≢◌, refl, sym, ap, ◌∙◌, arith, inl, inr, Bool-cases, Option-cases,
}
use native.Mathlib.Decide.{ℕ_discrete}
use gnu_halevt.ConfFiles.{conffile_extension, next_extension, extension_loop}

-- The text ends in `suffix`.
pub ends_with : Bytes → Bytes → Bool
ends_with suffix [] = str_eq suffix []
ends_with suffix (c ∷ cs) = str_eq suffix (c ∷ cs) || ends_with suffix cs

str_eq-starts_with : (p s : Bytes) → str_eq p s ≡ true → starts_with p s ≡ true
unfolding str_eq starts_with
str_eq-starts_with [] s h = refl
str_eq-starts_with (x ∷ p) [] h = h
str_eq-starts_with (x ∷ p) (c ∷ s) h = ground (arith, str_eq-starts_with p s)

-- Where the extension stands nowhere, the text does not end in it.
ends_with_nowhere :
    (s : Bytes) → strstr conffile_extension s ≡ none → ends_with conffile_extension s ≡ false
unfolding ends_with strstr str_eq
ends_with_nowhere [] h = refl
ends_with_nowhere (c ∷ cs) h =
    ground (arith, str_eq-starts_with conffile_extension (c ∷ cs), ends_with_nowhere cs)

beyond : (at : Bytes) → length at ≢ 4 → 4 ≤ length at → 4 < length at
beyond at h k = omega arith

ends_with_self : (p : Bytes) → ends_with p p ≡ true
unfolding ends_with
ends_with_self [] = (str_eq_iff [] []).1 refl
ends_with_self (x ∷ p) = rw ((str_eq_iff (x ∷ p) (x ∷ p)).1 refl) refl

ends_with-append : (b p : Bytes) → ends_with p (b ++ p) ≡ true
unfolding ends_with
ends_with-append [] p = ends_with_self p
ends_with-append (c ∷ b) p = ground (arith, ends_with-append b p)

no_more : (r : Bytes) → length r ≡ 0 → r ≡ []
no_more [] h = refl
no_more (c ∷ r) h = absurd (omega arith)

-- Where the first extension is the last thing in the text, the text ends in it.
ends_with_here :
    (s : Bytes) {before at : Bytes}
    → strstr conffile_extension s ≡ some (before, at)
    → length at ≡ 4
    → ends_with conffile_extension s ≡ true
ends_with_here s {before} {at} e h =
    let (is, starts) = strstr_cut conffile_extension s e in
    let (r, at_is) = starts_with_cut conffile_extension at starts in
    let size : length at ≡ length r + 4 = ap length at_is ∙ omega arith in
    let whole : at ≡ conffile_extension =
      at_is ∙ ap (λ u. conffile_extension ++ u) (no_more r (omega arith)) in
    rw (is, whole) (ends_with-append before conffile_extension)

-- How many bytes there are from the first extension on.
abbrev rest_length : Option (Bytes × Bytes) → ℕ
rest_length none = 0
rest_length (some (before, at)) = length at

abbrev Overruns : Bytes → Type 0
Overruns s = rest_length (strstr conffile_extension s) ≢ 4

-- Where the text from one of the first places on is the extension, it is the first one.
first_at_1 : (a : ℕ) → rest_length (strstr conffile_extension (a ∷ conffile_extension)) ≡ 4
unfolding strstr starts_with
first_at_1 a = ground arith

first_at_2 : (a b : ℕ) → rest_length (strstr conffile_extension (a ∷ b ∷ conffile_extension)) ≡ 4
unfolding strstr starts_with
first_at_2 a b = ground arith

first_at_3 :
    (a b c : ℕ) → rest_length (strstr conffile_extension (a ∷ b ∷ c ∷ conffile_extension)) ≡ 4
unfolding strstr starts_with
first_at_3 a b c = ground arith

not_at :
    (front : Bytes → Bytes) (t : Bytes)
    → rest_length (strstr conffile_extension (front conffile_extension)) ≡ 4
    → Overruns (front t)
    → str_eq conffile_extension t ≡ false
not_at front t e h = elim (Bool-cases (str_eq conffile_extension t)) [
  | inl same ↦
      let is = (str_eq_iff conffile_extension t).0 same in
      absurd (h (ap (λ u. rest_length (strstr conffile_extension (front u))) (sym is) ∙ e))
  | inr other ↦ other
]

longer : (a b c d x : ℕ) (r : Bytes) → str_eq conffile_extension (a ∷ b ∷ c ∷ d ∷ x ∷ r) ≡ false
unfolding str_eq
longer a b c d x r = ground arith

-- Where the first extension has more behind it, no extension at the end begins within four bytes.
ends_with_step :
    (s : Bytes)
    → 4 < length s
    → Overruns s
    → ends_with conffile_extension (drop 4 s) ≡ ends_with conffile_extension s
unfolding ends_with
ends_with_step [] l h = absurd (omega arith)
ends_with_step (a ∷ []) l h = absurd (omega arith)
ends_with_step (a ∷ b ∷ []) l h = absurd (omega arith)
ends_with_step (a ∷ b ∷ c ∷ []) l h = absurd (omega arith)
ends_with_step (a ∷ b ∷ c ∷ d ∷ []) l h = absurd (omega arith)
ends_with_step (a ∷ b ∷ c ∷ d ∷ x ∷ r) l h =
    rw
      (
        longer a b c d x r,
        not_at (λ u. a ∷ u) (b ∷ c ∷ d ∷ x ∷ r) (first_at_1 a) h,
        not_at (λ u. a ∷ b ∷ u) (c ∷ d ∷ x ∷ r) (first_at_2 a b) h,
        not_at (λ u. a ∷ b ∷ c ∷ u) (d ∷ x ∷ r) (first_at_3 a b c) h,
      )
      refl

length-drop : (n : ℕ) (s : Bytes) → length (drop n s) ≤ length s - n
length-drop zero s = omega arith
length-drop (suc n) [] = omega arith
length-drop (suc n) (c ∷ s) = omega (arith, length-drop n s)

-- What is found is at least the extension.
found_length :
    (s : Bytes) {before at : Bytes}
    → strstr conffile_extension s ≡ some (before, at)
    → (4 ≤ length at) × (length at ≤ length s)
found_length s {before} {at} e =
    let (is, starts) = strstr_cut conffile_extension s e in
    let (r, at_is) = starts_with_cut conffile_extension at starts in
    let size : length at ≡ length r + 4 = ap length at_is ∙ omega arith in
    (omega arith, omega (arith, ap length is, length-append before at))

next_extension_here :
    (again : Bytes → Option Bool) (s before at : Bytes)
    → length at ≡ 4
    → next_extension again s (some (before, at)) ≡ some true
unfolding next_extension
next_extension_here again s before at h = ground arith

next_extension_later :
    (again : Bytes → Option Bool) (s before at : Bytes)
    → length at ≢ 4
    → next_extension again s (some (before, at)) ≡ again (drop 4 s)
unfolding next_extension
next_extension_later again s before at h = ground arith

-- With a round for each byte and one more the loop ends, within the text, and it finds an
-- extension exactly where the text ends in ".xml".
pub extension_loop-ends_with :
    (fuel : ℕ) (s : Bytes)
    → length s < fuel
    → extension_loop fuel s ≡ some (ends_with conffile_extension s)
unfolding extension_loop
extension_loop-ends_with zero s h = absurd (omega arith)
extension_loop-ends_with (suc fuel) s h = elim (Option-cases (strstr conffile_extension s)) [
  | inl e ↦ rw (e, ends_with_nowhere s e) (unfold next_extension in refl)
  | inr ((before, at), e) ↦
      let again : Bytes → Option Bool = λ (t : Bytes). extension_loop fuel t in
      let (least, most) = found_length s e in
      elim (ℕ_discrete (length at) 4) [
        | yes last ↦ rw (e, ends_with_here s e last) (next_extension_here again s before at last)
        | no more ↦
            let over : Overruns s = rw e more in
            rw e (
              next_extension_later again s before at more
              ∙ extension_loop-ends_with fuel (drop 4 s)
                  (omega (arith, length-drop 4 s, beyond at more least))
              ∙ ap some (ends_with_step s (omega (arith, beyond at more least)) over))
      ]
]
