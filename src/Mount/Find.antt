-- ===== src/Mount/Find.antt =====
-- halevt-mount/halevt-mount.c: `halevt_mount_find_udi`, the volumes that a command names, in an
-- array that grows.
use gnu_halevt.Base.{
  ℕ, ◌+◌, ◌*◌, ◌<◌, Bool, false, ◌||◌, List, [], ◌∷◌, ◌++◌, Option, none, some, Bytes, length,
  length-append, ltb, ltb→lt, ◌≤◌, ◌^◌, as_int, int_fits, >>=-eq-some, str_eq, if◌then◌else◌, ◌≡◌,
  refl, sym, ap, ◌∙◌, arith, inl, inr, Bool-cases, ◌>>=◌, lt→ltb,
}
use mathlib.Core.Option
use gnu_halevt.Mount.{Volume}
use mathlib.Core.List.{append_assoc, append-nil}

-- What is looked for.
pub record Wanted : Type 0 where
  pub udi : Option Bytes
  pub device : Option Bytes
  pub mountpoint : Option Bytes
  pub device_mountpoint_udi : Option Bytes

-- Both texts are there and are the same.
unfoldable pub is_given : Option Bytes → Option Bytes → Bool
is_given none current = false
is_given (some s) none = false
is_given (some s) (some current) = str_eq current s

unfoldable pub is_wanted : Wanted → Volume → Bool
is_wanted w v =
    is_given w.udi (some v.udi)
    || (is_given w.device v.device
        || (is_given w.mountpoint v.mountpoint
            || (is_given w.device_mountpoint_udi (some v.udi)
                || (is_given w.device_mountpoint_udi v.device
                    || is_given w.device_mountpoint_udi v.mountpoint))))

-- The array: its size, and the volumes in it.
pub record Found : Type 0 where
  pub list_size : ℕ
  pub list : List Volume

-- A write behind the volumes; `none` is outside of the array.
unfoldable pub has_place : Found → Bool
has_place f = ltb (length f.list) f.list_size

-- A size out of the range of int is `none`.
unfoldable pub grown : Found → Option Found
grown f =
    if ltb f.list_size (length f.list + 2)
    then (do size ← as_int (2 * f.list_size); some (record f { list_size = size }))
    else some f

unfoldable pub add_found : Volume → Found → Option Found
unfolding has_place grown
add_found v f = do
  g ← grown f
  if has_place g then some (record g { list = f.list ++ v ∷ [] }) else none

unfoldable pub find_loop : Wanted → List Volume → Found → Option Found
unfolding is_wanted add_found
find_loop w [] f = some f
find_loop w (v ∷ vs) f = do
  next ← if is_wanted w v then add_found v f else some f
  find_loop w vs next

-- The NULL at the end has to be in the array too.
unfoldable pub find_udi : Wanted → List Volume → Option (List Volume)
unfolding find_loop has_place
find_udi w vs = do
  f ← find_loop w vs (record { list_size = 2; list = [] })
  if has_place f then some f.list else none

-- The volumes that are wanted, in order.
abbrev pub wanted : Wanted → List Volume → List Volume
wanted w [] = []
wanted w (v ∷ vs) = if is_wanted w v then v ∷ wanted w vs else wanted w vs

abbrev HasRoom : Found → Type 0
HasRoom f = length f.list < f.list_size

add_found-HasRoom :
    (v : Volume) (f : Found)
    → HasRoom f
    → length f.list + 2 ≤ 2 ^ 30
    → (size : ℕ) × (add_found v f ≡ some (record { list_size = size; list = f.list ++ v ∷ [] }))
      × (length f.list + 1 < size)
unfolding add_found grown has_place
add_found-HasRoom v f h l = elim (Bool-cases (ltb f.list_size (length f.list + 2))) [
  | inl small ↦ (
    2 * f.list_size,
    let less = ltb→lt f.list_size (length f.list + 2) small in
        rw small (
          rw
            (
              int_fits (2 * f.list_size) (omega arith),
              lt→ltb (length f.list) (2 * f.list_size) (omega arith),
            )
            refl),
    ground arith,
  )
  | inr large ↦
      (f.list_size, rw large (rw (lt→ltb (length f.list) f.list_size h) refl), ground arith)
]

-- The loop adds the volumes that are wanted, and room is left for the end.
find_loop-wanted :
    (w : Wanted) (vs : List Volume) (f : Found)
    → HasRoom f
    → length f.list + length vs + 1 ≤ 2 ^ 30
    → (g : Found) × (find_loop w vs f ≡ some g) × (g.list ≡ f.list ++ wanted w vs) × HasRoom g
unfolding find_loop
find_loop-wanted w [] f h l = (f, refl, sym (append-nil f.list), h)
find_loop-wanted w (v ∷ vs) f h l = elim (Bool-cases (is_wanted w v)) [
  | inl yes_wanted ↦
      let (size, added, room) = add_found-HasRoom v f h (omega arith) in
      let next : Found = record { list_size = size; list = f.list ++ v ∷ [] } in
      let long = length-append f.list (v ∷ []) in
      let (g, e, is, left) = find_loop-wanted w vs next (omega arith) (omega arith) in
      (
        g,
        rw (yes_wanted, added) e,
        rw yes_wanted (is ∙ append_assoc f.list (v ∷ []) (wanted w vs)),
        left,
      )
  | inr not_wanted ↦
      let (g, e, is, left) = find_loop-wanted w vs f h (omega arith) in
      (g, rw not_wanted e, rw not_wanted is, left)
]

-- The search gives the volumes that are wanted, in their order, for any list of less than 2 ^ 30
-- volumes: the size of the array stays in the range of int, and no write is outside of it.
pub find_udi-wanted :
    (w : Wanted) (vs : List Volume) → length vs < 2 ^ 30 → find_udi w vs ≡ some (wanted w vs)
unfolding find_udi has_place
find_udi-wanted w vs h =
    let (g, e, is, left) =
      find_loop-wanted w vs (record { list_size = 2; list = [] }) (omega arith) (omega arith) in
    rw (e, lt→ltb (length g.list) g.list_size left) (ap some is)

add_found-some : (v : Volume) (f g : Found) → add_found v f ≡ some g → g.list ≡ f.list ++ v ∷ []
unfolding add_found
add_found-some v f g h = let (f', e, h') = >>=-eq-some (grown f) _ h in ground arith

find_loop-some :
    (w : Wanted) (vs : List Volume) (f g : Found)
    → find_loop w vs f ≡ some g
    → g.list ≡ f.list ++ wanted w vs
unfolding find_loop
find_loop-some w [] f g h =
    ap (λ (r : Option Found). (Option.get_or r g).list) (sym h) ∙ sym (append-nil f.list)
find_loop-some w (v ∷ vs) f g h = elim (Bool-cases (is_wanted w v)) [
  | inl yes_wanted ↦
      let (next, e, h') =
        >>=-eq-some (add_found v f) (λ next. find_loop w vs next) (rw yes_wanted at h) in
      rw yes_wanted (
        find_loop-some w vs next g h'
        ∙ ap (λ l. l ++ wanted w vs) (add_found-some v f next e)
        ∙ append_assoc f.list (v ∷ []) (wanted w vs))
  | inr not_wanted ↦ rw not_wanted (find_loop-some w vs f g (rw not_wanted at h))
]

-- A search that comes to its end gives the volumes that are wanted.
pub find_udi-some :
    (w : Wanted) (vs found : List Volume) → find_udi w vs ≡ some found → found ≡ wanted w vs
unfolding find_udi
find_udi-some w vs found h =
    let (g, e, h') =
      >>=-eq-some (find_loop w vs (record { list_size = 2; list = [] }))
        (λ f. if has_place f then some f.list else none) h in
    let is = find_loop-some w vs (record { list_size = 2; list = [] }) g e in
    let same : g.list ≡ found = ground arith in sym same ∙ is
