-- ===== src/Events/Sync.antt =====
-- src/hal_interface.c: the start and the callbacks of libhal as steps of a state, which is HAL and
-- the list of devices, and what holds in every state that they lead to.
use gnu_halevt.Base.{
  Bool, true, false, ◌&&◌, List, [], ◌∷◌, none, some, Bytes, ◌≡◌, if◌then◌else◌, str_eq, All,
}
use gnu_halevt.Expr.{BoolStuff}
use gnu_halevt.Devices.{Devices, find_device}
use gnu_halevt.Devices.View.{value, is_there}
use gnu_halevt.Devices.Added.{lookup_last, all_some, KeysOnce}
use gnu_halevt.Devices.Keyed.{IsKeyed}
use gnu_halevt.Hal.{Floats, Hal, udi_property_value}
use gnu_halevt.Config.{Config}
use gnu_halevt.Events.{
  property_set, device_added, device_removed, device_property_modified, device_condition,
  init_devices,
}

-- A set of udis with one more, or without one.
abbrev pub with_udi : Bytes → Bool → (Bytes → Bool) → Bytes → Bool
with_udi udi b live u = if str_eq udi u then b else live u

abbrev pub with_udis : List Bytes → (Bytes → Bool) → Bytes → Bool
with_udis [] live = live
with_udis (udi ∷ udis) live = with_udis udis (with_udi udi true live)

-- A set of properties without one.
abbrev pub without_pending : Bytes → Bytes → (Bytes → Bytes → Bool) → Bytes → Bytes → Bool
without_pending udi key pending u k = if str_eq udi u && str_eq key k then false else pending u k

module _ {Double Tree : Type 0} (boolstuff : BoolStuff Tree) (floats : Floats Double)
    (config : Config Tree) where
  -- While HAL stays the same, its iterator over the properties of a device names each key once, and
  -- has the values that the queries by key answer with.
  abbrev pub IsIterated : Hal Double → Bytes → Type 0
  IsIterated hal udi =
      (set : List (Bytes × List Bytes)) × (property_set boolstuff floats hal udi
        ≡ some (all_some set))
      × KeysOnce set
      × ((k : Bytes) → lookup_last k set none ≡ udi_property_value floats hal k udi)

  -- The states of HAL and the list. `live` has the devices that were reported, or walked over, and
  -- not reported as removed since; `pending` has the properties that changed and whose last report
  -- is still to come. HAL changes anything at any time. A report is handled when HAL may already
  -- have changed again. The last report of a property says whether HAL has it.
  pub data Reaches : Hal Double → (Bytes → Bool) → (Bytes → Bytes → Bool) → Devices → Type 0 where
    begin : (hal : Hal Double) → Reaches hal (λ u. false) (λ u k. false) []
    changes :
        {hal : Hal Double} {live : Bytes → Bool} {pending : Bytes → Bytes → Bool} {root : Devices}
        → Reaches hal live pending root
        → (hal' : Hal Double) (pending' : Bytes → Bytes → Bool)
        → ((u k : Bytes)
            → pending' u k ≡ false
            → (pending u k ≡ false)
              × (udi_property_value floats hal k u ≡ udi_property_value floats hal' k u))
        → Reaches hal' live pending' root
    walks :
        {hal : Hal Double} {live : Bytes → Bool} {pending : Bytes → Bytes → Bool}
        {root root' : Devices} {commands : List Bytes}
        → Reaches hal live pending root
        → (udis : List Bytes) → All (IsIterated hal) udis
        → init_devices boolstuff floats hal config root udis ≡ some (root', commands)
        → Reaches hal (with_udis udis live) pending root'
    added :
        {hal : Hal Double} {live : Bytes → Bool} {pending : Bytes → Bytes → Bool}
        {root root' : Devices} {commands : List Bytes}
        → Reaches hal live pending root
        → (udi : Bytes) → IsIterated hal udi
        → device_added boolstuff floats hal config root udi ≡ some (root', commands)
        → Reaches hal (with_udi udi true live) pending root'
    removed :
        {hal : Hal Double} {live : Bytes → Bool} {pending : Bytes → Bytes → Bool}
        {root root' : Devices} {commands : List Bytes}
        → Reaches hal live pending root
        → (udi : Bytes)
        → device_removed boolstuff floats hal config root udi ≡ some (root', commands)
        → Reaches hal (with_udi udi false live) pending root'
    -- a report with another one of the same property behind it
    modified :
        {hal : Hal Double} {live : Bytes → Bool} {pending : Bytes → Bytes → Bool}
        {root root' : Devices} {commands : List Bytes}
        → Reaches hal live pending root
        → (udi key : Bytes) (is_removed : Bool) → pending udi key ≡ true
        → device_property_modified boolstuff floats hal config root udi key is_removed
          ≡ some (root', commands)
        → Reaches hal live pending root'
    modified_last :
        {hal : Hal Double} {live : Bytes → Bool} {pending : Bytes → Bytes → Bool}
        {root root' : Devices} {commands : List Bytes}
        → Reaches hal live pending root
        → (udi key : Bytes) (is_removed : Bool)
        → is_there (udi_property_value floats hal key udi) ≡ (if is_removed then false else true)
        → device_property_modified boolstuff floats hal config root udi key is_removed
          ≡ some (root', commands)
        → Reaches hal live (without_pending udi key pending) root'
    condition :
        {hal : Hal Double} {live : Bytes → Bool} {pending : Bytes → Bytes → Bool}
        {root root' : Devices} {commands : List Bytes}
        → Reaches hal live pending root
        → (udi condition_name condition_detail : Bytes)
        → device_condition boolstuff floats hal config root udi condition_name condition_detail
          ≡ some (root', commands)
        → Reaches hal live pending root'

  -- What a state keeps.
  abbrev pub Follows : Hal Double → (Bytes → Bool) → (Bytes → Bytes → Bool) → Devices → Type 0
  Follows hal live pending root =
      IsKeyed root
      × ((u : Bytes) → live u ≡ true → is_there (find_device u root) ≡ true)
      × ((u k : Bytes)
          → live u ≡ true
          → pending u k ≡ false
          → value root u k ≡ udi_property_value floats hal k u)
