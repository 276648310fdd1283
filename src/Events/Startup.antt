-- ===== src/Events/Startup.antt =====
-- src/hal_interface.c and src/manager.c: what the start of the daemon leaves. `halevt_setup_HAL`
-- and `halevt_run_oninit` both walk all the devices of HAL, and `main` calls both.
use gnu_halevt.Base.{List, [], ◌∷◌, ◌++◌, Option, none, some, Bytes, ◌≡◌, refl, sym, ap, ◌∙◌, ◌>>=◌}
use mathlib.Core.List.{append_assoc, append-nil}
use gnu_halevt.Expr.{BoolStuff}
use gnu_halevt.Devices.{DeviceProperty, Devices, add_properties, link_device, add_device}
use gnu_halevt.Hal.{Floats, Hal}
use gnu_halevt.Hal.Matching.{matches, matches_either, property_name_value, named_values}
use gnu_halevt.Config.{Rule, Config}
use gnu_halevt.Events.{
  run_if, tree_holds, command_for, run_rules, property_set, init_devices, init_all, run_oninit,
  setup_hal_devices, startup,
}

link_device-append :
    (xs ys : Devices) (udi : Bytes) (o : Option (List DeviceProperty))
    → link_device (xs ++ ys) udi o ≡ link_device xs udi o ++ ys
unfolding link_device
link_device-append xs ys udi none = refl
link_device-append xs ys udi (some ps) = refl

add_device-append :
    (xs ys : Devices) (udi : Bytes) (set : Option (List (Bytes × Option (List Bytes))))
    → add_device (xs ++ ys) udi set ≡ add_device xs udi set ++ ys
unfolding add_device
add_device-append xs ys udi none = refl
add_device-append xs ys udi (some s) = link_device-append xs ys udi (add_properties [] s)

abbrev pub with_list : Devices → Option (List Bytes) → Option (Devices × List Bytes)
with_list f o = o >>= λ cs. some (f, cs)

with_list_both :
    {f g : Devices} {o p : Option (List Bytes)} → f ≡ g → o ≡ p → with_list f o ≡ with_list g p
with_list_both e k = cc

pub with_list-first :
    (f g : Devices) (o : Option (List Bytes)) (cs : List Bytes)
    → with_list f o ≡ some (g, cs)
    → g ≡ f
with_list-first f g none cs h = cc
with_list-first f g (some x) cs h = cc

bind_pair :
    (o p : Option (List Bytes)) (f : Devices) (q : Option (Devices × List Bytes))
    → q ≡ with_list f p
    → ◌≡◌ {A = Option (Devices × List Bytes)}
        (o >>= λ c. q >>= λ later. some (later.0, c ++ later.1))
        (with_list f (o >>= λ c. p >>= λ cs. some (c ++ cs)))
bind_pair none p f q e = refl
bind_pair (some c) none f q e = rw e refl
bind_pair (some c) (some cs) f q e = rw e refl

module _ {Double Tree : Type 0} (boolstuff : BoolStuff Tree) (floats : Floats Double)
    (hal : Hal Double) where
  -- By udi, the list of devices is not looked at.
  run_rules_no_list :
      (root other : Devices) (udi u : Bytes) (rs : List (Rule Tree))
      → run_rules boolstuff floats hal root udi (some u) none rs
        ≡ run_rules boolstuff floats hal other udi (some u) none rs
  unfolding run_rules tree_holds command_for matches matches_either property_name_value named_values
  run_rules_no_list root other udi u [] = refl
  run_rules_no_list root other udi u (r ∷ rs) =
      ap
        (run_if (tree_holds boolstuff floats hal root udi r.match (some u) none)
          (command_for boolstuff floats hal root udi r.exec none))
        (run_rules_no_list root other udi u rs)

  module _ (config : Config Tree) where
    -- The commands of one walk over the devices, and the devices that it puts in front.
    abbrev walk_commands : List Bytes → Option (List Bytes)
    walk_commands [] = some []
    walk_commands (udi ∷ udis) = do
      c ← run_rules boolstuff floats hal [] udi (some udi) none config.oninit_root
      cs ← walk_commands udis
      some (c ++ cs)

    abbrev walk_devices : List Bytes → Devices
    walk_devices [] = []
    walk_devices (udi ∷ udis) =
        walk_devices udis ++ add_device [] udi (property_set boolstuff floats hal udi)

    init_devices-walk :
        (root : Devices) (udis : List Bytes)
        → init_devices boolstuff floats hal config root udis
          ≡ with_list (walk_devices udis ++ root) (walk_commands udis)
    unfolding init_devices
    init_devices-walk root [] = refl
    init_devices-walk root (udi ∷ udis) =
        let set = property_set boolstuff floats hal udi in
        let e : walk_devices udis ++ add_device root udi set ≡ walk_devices (udi ∷ udis) ++ root =
          ap (λ x. walk_devices udis ++ x) (add_device-append [] root udi set)
          ∙ sym (append_assoc (walk_devices udis) (add_device [] udi set) root) in
        bind_pair (run_rules boolstuff floats hal root udi (some udi) none config.oninit_root)
          (walk_commands udis) (walk_devices udis ++ add_device root udi set) _
          (init_devices-walk (add_device root udi set) udis)
        ∙ with_list_both e (
            ap (λ o. o >>= λ c. walk_commands udis >>= λ cs. some (c ++ cs))
              (run_rules_no_list root [] udi udi config.oninit_root))

    -- The start walks over the devices twice, in `halevt_setup_HAL` and in `halevt_run_oninit`:
    -- each command of the first walk is spawned a second time, and each device that it put into
    -- the list stands there twice.
    pub startup-init_devices :
        (udis : List Bytes) (root : Devices) (commands : List Bytes)
        → hal.all_devices ≡ some udis
        → init_devices boolstuff floats hal config [] udis ≡ some (root, commands)
        → startup boolstuff floats hal config ≡ some (root ++ root, commands ++ commands)
    unfolding startup setup_hal_devices run_oninit init_all
    startup-init_devices udis root commands all e =
        let w =
          walked (walk_devices udis) (walk_commands udis) root commands
            (sym (init_devices-walk [] udis) ∙ e) in
        let again : init_devices boolstuff floats hal config root udis
            ≡ some (root ++ root, commands) =
          init_devices-walk root udis ∙ rw (w.0, w.1) refl in
        rw (all, e, again) refl
      where
        walked :
            (f : Devices) (o : Option (List Bytes)) (root : Devices) (commands : List Bytes)
            → with_list (f ++ []) o ≡ some (root, commands)
            → (f ≡ root) × (o ≡ some commands)
        walked f none root commands h = cc
        walked f (some cs) root commands h =
            let k : ◌≡◌ {A = Option (Devices × List Bytes)} (some (f, cs)) (some (root, commands)) =
              rw (append-nil f) at h in
            (cc, cc)
