-- ===== src/Mount/Commands/Cleaned.antt =====
-- The volumes that "clean" leaves in the list.
use gnu_halevt.Base.{
  Bool, true, false, List, [], ◌∷◌, str_eq_self, ◌≡◌, refl, sym, arith, inl, inr, Bool-cases, All,
}
use mathlib.Core.Path.{subst}
use gnu_halevt.Mount.{Volume}
use gnu_halevt.Mount.Check.{remove_udi, keep_or_remove}
use gnu_halevt.Mount.Check.Kept.{in_order-All, remove_udi-All}
use gnu_halevt.Mount.Find.{Wanted, is_wanted, wanted}
use gnu_halevt.Mount.Commands.{is_found, clean_loop}

All-map {ℓ κ₁ κ₂} :
    {A : Type ℓ} {P : A → Type κ₁} {Q : A → Type κ₂} (xs : List A)
    → ((x : A) → P x → Q x)
    → All P xs
    → All Q xs
All-map [] k h = tt
All-map (x ∷ xs) k h = (k x h.0, All-map xs k h.1)

-- A volume that is wanted is found by its udi.
abbrev IsCovered : Wanted → List Volume → Volume → Type 0
IsCovered q found v = is_wanted q v ≡ true → is_found found v ≡ true

is_found_self : (v : Volume) (found : List Volume) → is_found (v ∷ found) v ≡ true
unfolding is_found
is_found_self v found = rw (str_eq_self v.udi) refl

is_found-later :
    (u : Volume) (found : List Volume) (v : Volume)
    → is_found found v ≡ true
    → is_found (u ∷ found) v ≡ true
unfolding is_found
is_found-later u found v h = ground arith

wanted-IsCovered : (q : Wanted) (vs : List Volume) → All (IsCovered q (wanted q vs)) vs
wanted-IsCovered q [] = tt
wanted-IsCovered q (v ∷ vs) = elim (Bool-cases (is_wanted q v)) [
  | inl named ↦
      let is : wanted q (v ∷ vs) ≡ v ∷ wanted q vs = rw named refl in
      subst (λ f. All (IsCovered q f) (v ∷ vs)) (sym is)
        (
          λ _. is_found_self v (wanted q vs),
          All-map vs (λ u k e. is_found-later v (wanted q vs) u (k e)) (wanted-IsCovered q vs),
        )
  | inr other ↦
      let is : wanted q (v ∷ vs) ≡ wanted q vs = rw other refl in
      subst (λ f. All (IsCovered q f) (v ∷ vs)) (sym is)
        (λ e. absurd (apart (is_wanted q v) other e), wanted-IsCovered q vs)
]
  where
    apart : (b : Bool) → b ≡ false → b ≡ true → ⊥
    apart b p e = cc

module _ (q : Wanted) (found : List Volume) where
  abbrev pub IsOther : Volume → Type 0
  IsOther v = is_wanted q v ≡ false

  not_found-IsOther : (v : Volume) → IsCovered q found v → is_found found v ≡ false → IsOther v
  not_found-IsOther v k h = elim (Bool-cases (is_wanted q v)) [
    | inl e ↦ absurd cc (k e)
    | inr e ↦ e
  ]

  clean_loop-All :
      (front vs : List Volume)
      → All IsOther front
      → All (IsCovered q found) vs
      → All IsOther (clean_loop found front vs)
  unfolding clean_loop keep_or_remove
  clean_loop-All front [] f c = in_order-All IsOther front [] f tt
  clean_loop-All front (v ∷ vs) f c = elim (Bool-cases (is_found found v)) [
    | inl out ↦ rw out (clean_loop-All (remove_udi front) vs (remove_udi-All IsOther front f) c.1)
    | inr kept ↦ rw kept (clean_loop-All (v ∷ front) vs (not_found-IsOther v c.0 kept, f) c.1)
  ]

  -- Where the first volume is kept and the second is taken out, the loop goes on as if the list
  -- began with the third: the first is lost.
  pub clean_loop_lost :
      (v u : Volume) (vs : List Volume)
      → is_found found v ≡ false
      → is_found found u ≡ true
      → clean_loop found [] (v ∷ u ∷ vs) ≡ clean_loop found [] vs
  unfolding clean_loop keep_or_remove remove_udi
  clean_loop_lost v u vs kept out = rw kept (rw out refl)

-- What holds of each volume of the list holds of those that "clean" leaves.
pub clean_loop_kept :
    (P : Volume → Type 0) (found vs front : List Volume)
    → All P front
    → All P vs
    → All P (clean_loop found front vs)
unfolding clean_loop keep_or_remove
clean_loop_kept P found [] front f a = in_order-All P front [] f tt
clean_loop_kept P found (v ∷ vs) front f a = elim (Bool-cases (is_found found v)) [
  | inl out ↦ rw out (clean_loop_kept P found vs (remove_udi front) (remove_udi-All P front f) a.1)
  | inr kept ↦ rw kept (clean_loop_kept P found vs (v ∷ front) (a.0, f) a.1)
]

-- No volume that "clean" names is left in the list.
pub clean_loop-wanted :
    (q : Wanted) (vs : List Volume)
    → All (λ v. is_wanted q v ≡ false) (clean_loop (wanted q vs) [] vs)
clean_loop-wanted q vs = clean_loop-All q (wanted q vs) [] vs tt (wanted-IsCovered q vs)
