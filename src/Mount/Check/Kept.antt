-- ===== src/Mount/Check/Kept.antt =====
-- What holds of each volume in the list holds of those that are left when others are taken out.
use gnu_halevt.Base.{List, [], ◌∷◌, Option, none, some, ◌≡◌, ap, refl, ◌∙◌, All, >>=-eq-some}
use mathlib.Core.Path.{subst}
use mathlib.Core.Option
use gnu_halevt.Mount.{Volume}
use gnu_halevt.Mount.Check.{remove_udi, keep_or_remove, in_order, sync_loop}

module _ (P : Volume → Type 0) where
  pub in_order-All :
      (front acc : List Volume) → All P front → All P acc → All P (in_order front acc)
  in_order-All [] acc f a = a
  in_order-All (v ∷ front) acc f a = in_order-All front (v ∷ acc) f.1 (f.0, a)

  pub remove_udi-All : (front : List Volume) → All P front → All P (remove_udi front)
  unfolding remove_udi
  remove_udi-All [] f = tt
  remove_udi-All (v ∷ []) f = tt
  remove_udi-All (v ∷ u ∷ front) f = f

  -- What is put in front passes.
  keep_or_remove-All :
      (front : List Volume) (o : Option Volume)
      → All P front
      → ((v : Volume) → o ≡ some v → P v)
      → All P (keep_or_remove front o)
  unfolding keep_or_remove
  keep_or_remove-All front none f k = remove_udi-All front f
  keep_or_remove-All front (some v) f k = (k v refl, f)

  pub sync_loop-All :
      (check : Volume → Option (Option Volume))
      → ((v w : Volume) → check v ≡ some (some w) → P w)
      → (vs front result : List Volume) → All P front
      → sync_loop check front vs ≡ some result
      → All P result
  unfolding sync_loop
  sync_loop-All check passes [] front result f h =
      subst (λ (r : Option (List Volume)). All P (Option.get_or r result)) h
        (in_order-All front [] f tt)
  sync_loop-All check passes (v ∷ vs) front result f h =
      let (checked, e, h') =
        >>=-eq-some (check v) (λ checked. sync_loop check (keep_or_remove front checked) vs) h in
      sync_loop-All check passes vs (keep_or_remove front checked) result
        (keep_or_remove-All front checked f (λ w is. passes v w (e ∙ ap some is))) h'
