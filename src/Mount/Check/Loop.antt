-- ===== src/Mount/Check/Loop.antt =====
-- What the loop that takes volumes out leaves.
use gnu_halevt.Base.{List, [], ◌∷◌, Option, none, some, ◌≡◌, refl, All}
use gnu_halevt.Mount.{Volume}
use gnu_halevt.Mount.Check.{in_order, keep_or_remove, sync_loop}

-- The checks of the volumes, where none of them ends the program.
module _ (check : Volume → Option (Option Volume)) (answer : Volume → Option Volume) where
  abbrev pub accepted : List Volume → List Volume
  accepted [] = []
  accepted (v ∷ vs) = elim (answer v) [ none ↦ accepted vs | some w ↦ w ∷ accepted vs ]

  abbrev Answers : List Volume → Type 0
  Answers vs = All (λ v. check v ≡ some (answer v)) vs

  -- With two volumes in front, the volumes that are accepted are left.
  sync_loop-accepted :
      (vs : List Volume) (previous before : Volume) (front : List Volume)
      → Answers vs
      → sync_loop check (previous ∷ before ∷ front) vs
        ≡ some (in_order (previous ∷ before ∷ front) (accepted vs))
  unfolding sync_loop
  sync_loop-accepted [] previous before front a = refl
  sync_loop-accepted (v ∷ vs) previous before front a = rw a.0 (
      go (answer v) (sync_loop-accepted vs previous before front a.1)
        (λ w. sync_loop-accepted vs w previous (before ∷ front) a.1))
    where
      go :
          (o : Option Volume)
          → sync_loop check (previous ∷ before ∷ front) vs
            ≡ some (in_order (previous ∷ before ∷ front) (accepted vs))
          → ((w : Volume)
              → sync_loop check (w ∷ previous ∷ before ∷ front) vs
                ≡ some (in_order (w ∷ previous ∷ before ∷ front) (accepted vs)))
          → sync_loop check (keep_or_remove (previous ∷ before ∷ front) o) vs
            ≡ some (
                in_order
                  (previous ∷ before ∷ front)
                  (elim o [ none ↦ accepted vs | some w ↦ w ∷ accepted vs ]))
      go none removed kept = removed
      go (some w) removed kept = kept w

  -- Where the first two volumes are accepted, all the accepted ones are left, in order.
  pub sync_loop_good :
      (v w : Volume) (vs : List Volume) (v' w' : Volume)
      → check v ≡ some (some v')
      → check w ≡ some (some w')
      → Answers vs
      → sync_loop check [] (v ∷ w ∷ vs) ≡ some (v' ∷ w' ∷ accepted vs)
  unfolding sync_loop
  sync_loop_good v w vs v' w' e f a = rw (e, f) (sync_loop-accepted vs w' v' [] a)

  -- Where the first volume is accepted and the second is not, the first is lost: the loop goes on
  -- as if the list began with the third.
  pub sync_loop_lost :
      (v w : Volume) (vs : List Volume) (v' : Volume)
      → check v ≡ some (some v')
      → check w ≡ some none
      → sync_loop check [] (v ∷ w ∷ vs) ≡ sync_loop check [] vs
  unfolding sync_loop
  sync_loop_lost v w vs v' e f = rw (e, f) refl
