-- ===== src/Mount/Add/Found.antt =====
-- What `halevt_mount_add_udi` adds is what was asked for.
use gnu_halevt.Base.{
  Bool, true, false, ◌||◌, List, [], ◌∷◌, Option, none, some, Bytes, str_eq, str_eq_self,
  str_eq_iff, if◌then◌else◌, >>=-eq-some, ◌≡◌, refl, sym, ap, ◌∙◌, arith, ◌⊎◌, inl, inr,
}
use gnu_halevt.Hal.{Hal}
use gnu_halevt.Mount.{Volume}
use gnu_halevt.Mount.Check.{check_udi}
use gnu_halevt.Mount.Check.Sound.{check_udi-HasMountpoint}
use gnu_halevt.Mount.Find.{is_given, is_wanted, wanted}
use gnu_halevt.Mount.Add.{
  new_udi, same_device, or_continue, try_device, search_devices, search_for, by_udi, found_or_udi,
  add_udi, asked,
}

-- What the command asked for is met.
abbrev Meets : Option Bytes → Option Bytes → Volume → Type 0
Meets udi device v = (udi ≡ some v.udi) ⊎ ((d : Bytes) × (device ≡ some d) × (v.device ≡ some d))

same_device-device :
    (device : Bytes) (checked : Option Volume) (v : Volume)
    → same_device device checked ≡ some (some v)
    → v.device ≡ some device
unfolding same_device
same_device-device device none v h = absurd cc
same_device-device device (some w) v h =
    let (found, e, e') =
      >>=-eq-some w.device (λ found. some (if str_eq found device then some w else none)) h in
    same found e e'
  where
    same :
        (found : Bytes)
        → w.device ≡ some found
        → some (if str_eq found device then some w else none) ≡ some (some v)
        → v.device ≡ some device
    same found e e' = ground (arith, str_eq_iff found device)

module _ {Double : Type 0} (hal : Hal Double) (exists : Bytes → Bool) where
  try_device-device :
      (device current : Bytes) (v : Volume)
      → try_device hal exists device current ≡ some (some v)
      → v.device ≡ some device
  unfolding try_device
  try_device-device device current v h =
      let (checked, e, e') =
        >>=-eq-some (check_udi hal exists (new_udi current)) (same_device device) h in
      same_device-device device checked v e'

  search_devices-device :
      (device : Bytes) (all_devices : List Bytes) (v : Volume)
      → search_devices hal exists device all_devices ≡ some (some v)
      → v.device ≡ some device
  unfolding search_devices
  search_devices-device device [] v h = absurd cc
  search_devices-device device (current ∷ all_devices) v h =
      let (tried, e, e') =
        >>=-eq-some (try_device hal exists device current)
          (λ tried. or_continue tried (search_devices hal exists device all_devices)) h in
      go (search_devices-device device all_devices v) tried e e'
    where
      go :
          (search_devices hal exists device all_devices ≡ some (some v) → v.device ≡ some device)
          → (tried : Option Volume) → try_device hal exists device current ≡ some tried
          → or_continue tried (search_devices hal exists device all_devices) ≡ some (some v)
          → v.device ≡ some device
      go ih none e e' = ih e'
      go ih (some w) e e' = try_device-device device current v (e ∙ e')

  search_for-device :
      (all_devices : Option (List Bytes)) (device : Option Bytes) (v : Volume)
      → search_for hal exists all_devices device ≡ some (some v)
      → (d : Bytes) × (device ≡ some d) × (v.device ≡ some d)
  unfolding search_for
  search_for-device all_devices none v h = absurd cc
  search_for-device none (some d) v h = absurd cc
  search_for-device (some all_devices) (some d) v h =
      (d, refl, search_devices-device d all_devices v h)

  by_udi-udi : (udi : Option Bytes) (v : Volume) → by_udi hal exists udi ≡ some v → udi ≡ some v.udi
  unfolding by_udi new_udi
  by_udi-udi none v h = absurd cc
  by_udi-udi (some udi) v h =
      let (checked, e, e') =
        >>=-eq-some (check_udi hal exists (new_udi udi)) (λ (c : Option Volume). c) h in
      let (there, same, _, _) =
        check_udi-HasMountpoint hal exists (new_udi udi) v (e ∙ ap some e') in
      ap some (sym same)

  -- What is added is what was asked for: its device is the one that was given, or its udi is.
  add_udi-Meets :
      (all_devices : Option (List Bytes)) (udi device : Option Bytes) (v : Volume)
      → add_udi hal exists all_devices udi device ≡ some v
      → Meets udi device v
  unfolding add_udi found_or_udi
  add_udi-Meets all_devices udi device v h =
      let (found, e, e') =
        >>=-eq-some (search_for hal exists all_devices device)
          (λ found. found_or_udi hal exists found udi) h in
      go found e e'
    where
      go :
          (found : Option Volume)
          → search_for hal exists all_devices device ≡ some found
          → found_or_udi hal exists found udi ≡ some v
          → Meets udi device v
      go none e e' = inl (by_udi-udi udi v e')
      go (some w) e e' = inr (search_for-device all_devices device v (e ∙ ap some e'))

or_first : (a b c : Bool) → b ≡ true → (a || (b || c)) ≡ true
or_first true b c h = refl
or_first false true c h = refl
or_first false false c h = absurd cc

same_text : (s : Bytes) → is_given (some s) (some s) ≡ true
unfolding is_given
same_text s = str_eq_self s

is_wanted-Meets :
    (udi device : Option Bytes) (v : Volume)
    → Meets udi device v
    → is_wanted (asked udi device) v ≡ true
unfolding is_wanted
is_wanted-Meets udi device v (inl e) = rw (e, same_text v.udi) refl
is_wanted-Meets udi device v (inr (d, e, e')) =
    or_first (is_given udi (some v.udi)) (is_given device v.device) _
      (ap (λ o. is_given o v.device) e ∙ ap (is_given (some d)) e' ∙ same_text d)

-- A volume that was added is found first when the same udi and device are asked for again, so it
-- is not added twice.
pub wanted-add_udi :
    {Double : Type 0} (hal : Hal Double) (exists : Bytes → Bool) (all_devices : Option (List Bytes))
    (udi device : Option Bytes) (v : Volume) (vs : List Volume)
    → add_udi hal exists all_devices udi device ≡ some v
    → wanted (asked udi device) (v ∷ vs) ≡ v ∷ wanted (asked udi device) vs
wanted-add_udi hal exists all_devices udi device v vs h =
    rw (is_wanted-Meets udi device v (add_udi-Meets hal exists all_devices udi device v h)) refl
