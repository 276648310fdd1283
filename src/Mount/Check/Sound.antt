-- ===== src/Mount/Check/Sound.antt =====
-- A volume that is accepted has the device and the mountpoint of HAL.
use gnu_halevt.Base.{
  Bool, true, false, Option, none, some, Bytes, codes, if◌then◌else◌, ◌>>=◌, ◌≡◌, refl, sym, ◌∙◌,
  arith, >>=-eq-some,
}
use gnu_halevt.Hal.{Hal}
use gnu_halevt.Mount.{Volume}
use gnu_halevt.Mount.Check.{
  checked_mount, checked_ignore, checked_filesystem, checked_usage, checked_device, check_udi,
}

if_some :
    (b : Bool) (o : Option (Option Volume)) (w : Volume)
    → (if b then o else some none) ≡ some (some w)
    → (b ≡ true) × (o ≡ some (some w))
if_some true o w h = (refl, h)
if_some false o w h = absurd cc

module _ {Double : Type 0} (hal : Hal Double) (exists : Bytes → Bool) where
  -- The mountpoint of a volume is that of HAL where it is mounted, and none where it is not.
  abbrev pub HasMountpoint : Volume → Type 0
  HasMountpoint w = w.mountpoint ≡ (
      if hal.property_bool w.udi (codes "volume.is_mounted")
      then hal.property_string w.udi (codes "volume.mount_point")
      else none)

  -- Against the volume that was checked, when its device was set.
  abbrev IsChecked : Volume → Volume → Type 0
  IsChecked v w = (w.udi ≡ v.udi) × (w.device ≡ v.device) × HasMountpoint w

  checked_mount-IsChecked :
      (v w : Volume) → checked_mount hal exists v ≡ some (some w) → IsChecked v w
  unfolding checked_mount
  checked_mount-IsChecked v w h = ground arith

  checked_ignore-same :
      (v : Volume)
      → ((checked_ignore hal exists v).udi ≡ v.udi)
        × ((checked_ignore hal exists v).device ≡ v.device)
  unfolding checked_ignore
  checked_ignore-same v = ground arith

  checked_filesystem-IsChecked :
      (s : Bytes) (v w : Volume) → checked_filesystem hal exists s v ≡ some (some w) → IsChecked v w
  unfolding checked_filesystem
  checked_filesystem-IsChecked s v w h =
      let (same, e) = if_some _ _ w h in
      let c = checked_mount-IsChecked (checked_ignore hal exists v) w e in
      let i = checked_ignore-same v in (c.0 ∙ i.0, c.1 ∙ i.1, c.2)

  checked_usage-IsChecked :
      (v w : Volume) → checked_usage hal exists v ≡ some (some w) → IsChecked v w
  unfolding checked_usage
  checked_usage-IsChecked v w h =
      let (has, e) =
        if_some (hal.device_property_exists v.udi (codes "volume.fsusage"))
          (hal.property_string v.udi (codes "volume.fsusage") >>= λ s.
            checked_filesystem hal exists s v)
          w h in
      let (s, is, e') =
        >>=-eq-some (hal.property_string v.udi (codes "volume.fsusage"))
          (λ s. checked_filesystem hal exists s v) e in
      checked_filesystem-IsChecked s v w e'

  checked_device_inv :
      (v w : Volume)
      → checked_device hal exists v ≡ some (some w)
      → (w.udi ≡ v.udi)
        × (w.device ≡ hal.property_string v.udi (codes "block.device"))
        × HasMountpoint w
  unfolding checked_device
  checked_device_inv v w h =
      let set = λ (device : Bytes). checked_usage hal exists (record v { device = some device }) in
      let (has, e) =
        if_some (hal.device_property_exists v.udi (codes "block.device"))
          (hal.property_string v.udi (codes "block.device") >>= set) w h in
      let (device, is, e') = >>=-eq-some (hal.property_string v.udi (codes "block.device")) set e in
      let c = checked_usage-IsChecked (record v { device = some device }) w e' in
      (c.0, c.1 ∙ sym is, c.2)

  -- A volume that is accepted exists, keeps its udi, and has the device that HAL has, and its
  -- mountpoint where HAL says that it is mounted, none where it is not.
  pub check_udi-HasMountpoint :
      (v w : Volume)
      → check_udi hal exists v ≡ some (some w)
      → (exists v.udi ≡ true)
        × (w.udi ≡ v.udi)
        × (w.device ≡ hal.property_string v.udi (codes "block.device"))
        × HasMountpoint w
  unfolding check_udi
  check_udi-HasMountpoint v w h =
      let (there, e) = if_some _ _ w h in
      let (has, e₁) = if_some _ _ w e in
      let (is_volume, e₂) = if_some _ _ w e₁ in
      let c = checked_device_inv v w e₂ in (there, c.0, c.1, c.2)
