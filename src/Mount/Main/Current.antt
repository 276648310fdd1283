-- ===== src/Mount/Main/Current.antt =====
-- The volumes that the commands write are as HAL has them.
use gnu_halevt.Base.{
  ℕ, Bool, true, List, [], ◌∷◌, Option, none, some, Bytes, codes, str_eq, if◌then◌else◌, ◌≡◌, sym,
  ap, ◌∙◌, arith, All, >>=-eq-some,
}
use mathlib.Core.Path.{subst}
use gnu_halevt.Hal.{Hal}
use gnu_halevt.Mount.{Volume, parse_file}
use gnu_halevt.Mount.Check.{check_udi, sync_loop, sync_udi}
use gnu_halevt.Mount.Check.Sound.{HasMountpoint, check_udi-HasMountpoint}
use gnu_halevt.Mount.Check.Kept.{sync_loop-All}
use gnu_halevt.Mount.Find.{find_udi}
use gnu_halevt.Mount.Add.{
  new_udi, same_device, or_continue, try_device, search_devices, search_for, by_udi, found_or_udi,
  add_udi, asked,
}
use gnu_halevt.Mount.Options.{Options}
use gnu_halevt.Mount.World.{World}
use gnu_halevt.Mount.Commands.{first_or_new, choose_volume}

module _ {Double : Type 0} (hal : Hal Double) (exists : Bytes → Bool) where
  -- A volume that exists, with the device and the mountpoint of HAL.
  abbrev pub IsCurrent : Volume → Type 0
  IsCurrent v =
      (exists v.udi ≡ true)
      × (v.device ≡ hal.property_string v.udi (codes "block.device"))
      × HasMountpoint hal exists v

  check_udi-IsCurrent : (v w : Volume) → check_udi hal exists v ≡ some (some w) → IsCurrent w
  check_udi-IsCurrent v w h =
      let (there, same, device, mountpoint) = check_udi-HasMountpoint hal exists v w h in
      (
        ap exists same ∙ there,
        device ∙ ap (λ udi. hal.property_string udi (codes "block.device")) (sym same),
        mountpoint,
      )

  try_device-IsCurrent :
      (device current : Bytes) (v : Volume)
      → try_device hal exists device current ≡ some (some v)
      → IsCurrent v
  unfolding try_device same_device
  try_device-IsCurrent device current v h =
      let (checked, e, e') =
        >>=-eq-some (check_udi hal exists (new_udi current)) (same_device device) h in
      go checked e e'
    where
      go :
          (checked : Option Volume)
          → check_udi hal exists (new_udi current) ≡ some checked
          → same_device device checked ≡ some (some v)
          → IsCurrent v
      go none e e' = absurd cc
      go (some w) e e' =
          let (found, f, f') =
            >>=-eq-some w.device (λ found. some (if str_eq found device then some w else none))
              e' in
          let same : w ≡ v = ground arith in
          subst IsCurrent same (check_udi-IsCurrent (new_udi current) w e)

  search_devices-IsCurrent :
      (device : Bytes) (all_devices : List Bytes) (v : Volume)
      → search_devices hal exists device all_devices ≡ some (some v)
      → IsCurrent v
  unfolding search_devices or_continue
  search_devices-IsCurrent device [] v h = absurd cc
  search_devices-IsCurrent device (current ∷ all_devices) v h =
      let (tried, e, e') =
        >>=-eq-some (try_device hal exists device current)
          (λ tried. or_continue tried (search_devices hal exists device all_devices)) h in
      go (search_devices-IsCurrent device all_devices v) tried e e'
    where
      go :
          (search_devices hal exists device all_devices ≡ some (some v) → IsCurrent v)
          → (tried : Option Volume) → try_device hal exists device current ≡ some tried
          → or_continue tried (search_devices hal exists device all_devices) ≡ some (some v)
          → IsCurrent v
      go later none e e' = later e'
      go later (some w) e e' = try_device-IsCurrent device current v (e ∙ e')

  search_for-IsCurrent :
      (all_devices : Option (List Bytes)) (device : Option Bytes) (v : Volume)
      → search_for hal exists all_devices device ≡ some (some v)
      → IsCurrent v
  unfolding search_for
  search_for-IsCurrent all_devices none v h = absurd cc
  search_for-IsCurrent none (some d) v h = absurd cc
  search_for-IsCurrent (some all_devices) (some d) v h = search_devices-IsCurrent d all_devices v h

  by_udi-IsCurrent :
      (udi : Option Bytes) (v : Volume) → by_udi hal exists udi ≡ some v → IsCurrent v
  unfolding by_udi
  by_udi-IsCurrent none v h = absurd cc
  by_udi-IsCurrent (some udi) v h =
      let (checked, e, e') =
        >>=-eq-some (check_udi hal exists (new_udi udi)) (λ (c : Option Volume). c) h in
      check_udi-IsCurrent (new_udi udi) v (e ∙ ap some e')

  add_udi-IsCurrent :
      (all_devices : Option (List Bytes)) (udi device : Option Bytes) (v : Volume)
      → add_udi hal exists all_devices udi device ≡ some v
      → IsCurrent v
  unfolding add_udi found_or_udi
  add_udi-IsCurrent all_devices udi device v h =
      let (found, e, e') =
        >>=-eq-some (search_for hal exists all_devices device)
          (λ found. found_or_udi hal exists found udi) h in
      go found e e'
    where
      go :
          (found : Option Volume)
          → search_for hal exists all_devices device ≡ some found
          → found_or_udi hal exists found udi ≡ some v
          → IsCurrent v
      go none e e' = by_udi-IsCurrent udi v e'
      go (some w) e e' = search_for-IsCurrent all_devices device v (e ∙ ap some e')

  -- What the synchronisation leaves.
  pub sync_udi-All :
      (left : ℕ) (file : Option Bytes) (vs : List Volume)
      → sync_udi (check_udi hal exists) left file ≡ some vs
      → All IsCurrent vs
  unfolding sync_udi
  sync_udi-All left none [] h = tt
  sync_udi-All left none (v ∷ vs) h = absurd cc
  sync_udi-All left (some file) vs h =
      let (read, e, e') =
        >>=-eq-some (parse_file left [] file) (λ read. sync_loop (check_udi hal exists) [] read)
          h in
      sync_loop-All IsCurrent (check_udi hal exists) check_udi-IsCurrent read [] vs tt e'

module _ {Double : Type 0} (w : World Double) where
  first_or_new-All :
      (found : List Volume) (o : Options) (vs : List Volume) (chosen : Volume × List Volume)
      → All (IsCurrent w.hal w.exists) vs
      → first_or_new w found o vs ≡ some chosen
      → All (IsCurrent w.hal w.exists) chosen.1
  unfolding first_or_new
  first_or_new-All [] o vs chosen a h =
      let (v, e, e') =
        >>=-eq-some (add_udi w.hal w.exists w.hal.all_devices o.udi o.device)
          (λ v. some (v, v ∷ vs)) h in
      let same : v ∷ vs ≡ chosen.1 = ground arith in
      subst (All (IsCurrent w.hal w.exists)) same
        (add_udi-IsCurrent w.hal w.exists w.hal.all_devices o.udi o.device v e, a)
  first_or_new-All (x ∷ rest) o vs chosen a h =
      let same : vs ≡ chosen.1 = ground arith in subst (All (IsCurrent w.hal w.exists)) same a

  -- The list with the volume that "mount" or "add" is about.
  pub choose_volume-All :
      (o : Options) (vs : List Volume) (chosen : Volume × List Volume)
      → All (IsCurrent w.hal w.exists) vs
      → choose_volume w o vs ≡ some chosen
      → All (IsCurrent w.hal w.exists) chosen.1
  unfolding choose_volume
  choose_volume-All o vs chosen a h =
      let (found, e, e') =
        >>=-eq-some (find_udi (asked o.udi o.device) vs) (λ found. first_or_new w found o vs) h in
      first_or_new-All found o vs chosen a e'
