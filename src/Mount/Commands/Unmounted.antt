-- ===== src/Mount/Commands/Unmounted.antt =====
-- What "umount" asks of HAL.
use gnu_halevt.Base.{
  ℕ, ◌<◌, ◌^◌, length, map, ap, Bool, false, not, ◌&&◌, ◌||◌, List, [], ◌∷◌, Option, Bytes, codes,
  str_eq, if◌then◌else◌, ◌≡◌, refl, inl, inr, Bool-cases,
}
use gnu_halevt.Mount.{Volume}
use gnu_halevt.Mount.Find.{Wanted, wanted, find_udi-wanted}
use gnu_halevt.Mount.Options.{Options, is_none}
use gnu_halevt.Mount.World.{Files, World, ended, or_exit, umount_call}
use gnu_halevt.Mount.Commands.{
  any_unmounted, umount_calls, umount_found, take_out, umount_all, umount_or_clean,
}

-- What the command names.
abbrev pub named : Options → Option Bytes → Wanted
named o arg = record {
  udi = o.udi;
  device = o.device;
  mountpoint = o.mountpoint;
  device_mountpoint_udi = arg;
}

abbrev pub names_nothing : Options → Option Bytes → Bool
names_nothing o arg =
    is_none o.udi && (is_none o.device && (is_none o.mountpoint && (is_none arg && not o.do_all)))

-- The volumes that the command is about.
abbrev pub meant : Options → Option Bytes → List Volume → List Volume
meant o arg vs = if o.do_all then vs else wanted (named o arg) vs

-- Whether one of them passes.
abbrev pub one_of {ℓ} : {A : Type ℓ} → (A → Bool) → List A → Bool
one_of passes [] = false
one_of passes (x ∷ xs) = passes x || one_of passes xs

any_unmounted-one_of :
    {Double : Type 0} (w : World Double) (vs : List Volume)
    → any_unmounted w vs ≡ one_of (λ v. w.unmounts v.udi) vs
unfolding any_unmounted
any_unmounted-one_of w [] = refl
any_unmounted-one_of w (v ∷ vs) = ap (λ b. w.unmounts v.udi || b) (any_unmounted-one_of w vs)

umount_calls-map : (vs : List Volume) → umount_calls vs ≡ map (λ v. umount_call v.udi) vs
unfolding umount_calls
umount_calls-map [] = refl
umount_calls-map (v ∷ vs) = ap (λ l. umount_call v.udi ∷ l) (umount_calls-map vs)

-- The status: whether one of them was unmounted, unless all were asked for.
abbrev pub umount_status : {Double : Type 0} → World Double → Options → List Volume → ℕ
umount_status w o vs = if o.do_all || one_of (λ v. w.unmounts v.udi) vs then 0 else 1

take_out-umount :
    {Double : Type 0} (w : World Double) (found vs : List Volume) (files : Files)
    → take_out w (codes "umount") found vs files ≡ record {
      status = if one_of (λ v. w.unmounts v.udi) found then 0 else 1;
      files = files;
      stdout = [];
      calls = map (λ v. umount_call v.udi) found;
    }
unfolding take_out umount_found str_eq
take_out-umount w [] vs files = refl
take_out-umount w (v ∷ found) vs files =
    rw (any_unmounted-one_of w (v ∷ found), umount_calls-map (v ∷ found)) refl

-- The command "umount" asks HAL to unmount, in their order, the volumes that the options and the
-- argument name, or all; without such a name it asks nothing and ends with status 1. It ends with
-- status 0 if one of those that are named was unmounted or all were asked for, else with 1. The
-- files are as they were. The list has less than 2 ^ 30 volumes.
pub umount_or_clean-umount :
    {Double : Type 0} (w : World Double) (o : Options) (arg : Option Bytes) (vs : List Volume)
    (files : Files)
    → length vs < 2 ^ 30
    → umount_or_clean w (codes "umount") o arg vs files ≡ (
        if names_nothing o arg then ended 1 files else record {
          status = umount_status w o (meant o arg vs);
          files = files;
          stdout = [];
          calls = map (λ v. umount_call v.udi) (meant o arg vs);
        })
unfolding umount_or_clean or_exit str_eq
umount_or_clean-umount w o arg vs files h = elim (Bool-cases (names_nothing o arg)) [
  | inl nothing ↦ rw nothing refl
  | inr something ↦ rw something (elim (Bool-cases o.do_all) [
    | inl all ↦ rw all (unfold umount_all in rw (umount_calls-map vs) refl)
    | inr some_only ↦
        rw (some_only, find_udi-wanted (named o arg) vs h)
          (take_out-umount w (wanted (named o arg) vs) vs files)
  ])
]
