-- ===== src/Events/Stale.antt =====
-- src/hal_interface.c and src/devices_list.c: the removal of a device from the list that the start
-- has left.
use gnu_halevt.Base.{
  List, [], ◌∷◌, ◌++◌, Option, none, some, Bytes, ◌≡◌, refl, ap, ◌∙◌, inl, inr, str_eq, Bool-cases,
  Option-cases,
}
use gnu_halevt.Expr.{BoolStuff}
use gnu_halevt.Devices.{Device, Devices, find_device, remove_device}
use gnu_halevt.Hal.{Floats, Hal}
use gnu_halevt.Config.{Config}
use gnu_halevt.Events.{
  removed_found, device_removed, init_devices, init_all, run_oninit, setup_hal_devices, startup,
}
use gnu_halevt.Events.Startup.{with_list-first, startup-init_devices}

remove_device-append :
    (udi : Bytes) (xs ys : Devices) (d : Device)
    → find_device udi xs ≡ some d
    → (remove_device udi (xs ++ ys)).0 ≡ (remove_device udi xs).0 ++ ys
unfolding find_device remove_device
remove_device-append udi [] ys d h = cc
remove_device-append udi (x ∷ xs) ys d h = elim (Bool-cases (str_eq x.udi udi)) [
  | inl here ↦ rw here refl
  | inr there ↦ rw there (ap (λ l. x ∷ l) (remove_device-append udi xs ys d (rw there at h)))
]

find_device-append :
    (udi : Bytes) (xs ys : Devices) (d : Device)
    → find_device udi ys ≡ some d
    → (e : Device) × (find_device udi (xs ++ ys) ≡ some e)
unfolding find_device
find_device-append udi [] ys d h = (d, h)
find_device-append udi (x ∷ xs) ys d h = elim (Bool-cases (str_eq x.udi udi)) [
  | inl here ↦ (x, rw here refl)
  | inr there ↦ let (e, k) = find_device-append udi xs ys d h in (e, rw there k)
]

find_device-none :
    (udi : Bytes) (xs ys : Devices)
    → find_device udi xs ≡ none
    → find_device udi ys ≡ none
    → find_device udi (xs ++ ys) ≡ none
unfolding find_device
find_device-none udi [] ys h k = k
find_device-none udi (x ∷ xs) ys h k = elim (Bool-cases (str_eq x.udi udi)) [
  | inl here ↦ let c : some x ≡ none = rw here at h in cc
  | inr there ↦ rw there (find_device-none udi xs ys (rw there at h) k)
]

find_device_doubled :
    (udi : Bytes) (xs : Devices) (d : Device)
    → find_device udi (xs ++ xs) ≡ some d
    → (e : Device) × (find_device udi xs ≡ some e)
find_device_doubled udi xs d h = elim (Option-cases (find_device udi xs)) [
  | inl e ↦ let k : find_device udi (xs ++ xs) ≡ none = find_device-none udi xs xs e e in cc
  | inr found ↦ found
]

-- A device that is removed from a list that was built twice is still found.
remove_device_doubled :
    (udi : Bytes) (xs : Devices) (d : Device)
    → find_device udi (xs ++ xs) ≡ some d
    → (e : Device) × (find_device udi (remove_device udi (xs ++ xs)).0 ≡ some e)
remove_device_doubled udi xs d h =
    let (x, e) = find_device_doubled udi xs d h in
    rw (remove_device-append udi xs xs x e) (find_device-append udi (remove_device udi xs).0 xs x e)

module _ {Double Tree : Type 0} (boolstuff : BoolStuff Tree) (floats : Floats Double)
    (hal : Hal Double) (config : Config Tree) where
  removed_found-root :
      (later : Hal Double) (o : Option Device) (udi : Bytes) (root root' : Devices) (d : Device)
      (cs : List Bytes)
      → o ≡ some d
      → removed_found boolstuff floats later config o root udi ≡ some (root', cs)
      → root' ≡ (remove_device udi root).0
  unfolding removed_found
  removed_found-root later none udi root root' d cs e h = cc
  removed_found-root later (some x) udi root root' d cs e h =
      with_list-first (remove_device udi root).0 root' _ cs h

  startup-list :
      (root : Devices) (cs : List Bytes) (udi : Bytes) (d : Device)
      → startup boolstuff floats hal config ≡ some (root, cs)
      → find_device udi root ≡ some d
      → (first : Devices) × (root ≡ first ++ first)
  startup-list root cs udi d s found = elim (Option-cases hal.all_devices) [
    | inl e ↦
        let k : startup boolstuff floats hal config ≡ some ([], []) =
          unfold startup setup_hal_devices run_oninit init_all in rw e refl in
        ([], cc)
    | inr (udis, e) ↦ elim (Option-cases (init_devices boolstuff floats hal config [] udis)) [
      | inl f ↦
          let k : startup boolstuff floats hal config ≡ none =
            unfold startup setup_hal_devices init_all in rw (e, f) refl in
          absurd cc
      | inr ((first, c), f) ↦
          let k = startup-init_devices boolstuff floats hal config udis first c e f in (first, cc)
    ]
  ]

  -- After the start the callback for the removal of a device that is in the list leaves a device
  -- with that udi in the list, whatever HAL answers by then.
  pub device_removed-startup :
      (later : Hal Double) (udi : Bytes) (root root' : Devices) (cs commands : List Bytes)
      (d : Device)
      → startup boolstuff floats hal config ≡ some (root, cs)
      → find_device udi root ≡ some d
      → device_removed boolstuff floats later config root udi ≡ some (root', commands)
      → (e : Device) × (find_device udi root' ≡ some e)
  device_removed-startup later udi root root' cs commands d s found h =
      let (first, e) = startup-list root cs udi d s found in
      let k =
        removed_found-root later (find_device udi root) udi root root' d commands found
          (unfold device_removed in h) in
      let (x, f) = remove_device_doubled udi first d (rw e at found) in
      (x, ap (find_device udi) k ∙ ap (λ l. find_device udi (remove_device udi l).0) e ∙ f)
