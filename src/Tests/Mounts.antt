-- ===== src/Tests/Mounts.antt =====
-- The file of halevt-mount, and its volumes beside HAL.
use gnu_halevt.Base.{
  pos, ℕ, true, false, [], ◌∷◌, Option, none, some, codes, ◌≡◌, refl, arith, str_eq,
}
use gnu_halevt.Hal.{Hal, string_type}
use gnu_halevt.Mount.{Volume, parse_file, print_udis, volume_text}
use gnu_halevt.Mount.RoundTrip.{IsStored, has_text, read_back, parse_file-print_udis}
use gnu_halevt.Mount.Check.{check_udi, sync_loop}
use gnu_halevt.Mount.Check.Sound.{HasMountpoint, check_udi-HasMountpoint}
use gnu_halevt.Mount.Check.Loop.{sync_loop_lost}

abbrev pub usb : Volume
usb = record {
  udi = codes "/usb";
  device = some (codes "sda");
  mountpoint = some (codes "/m:1");
  ignore = 0;
}

pub usb-IsStored : IsStored usb
unfolding volume_text
usb-IsStored = record {
  udi_text = omega arith;
  device_text = has_text _ _;
  mountpoint_text = has_text _ _;
  udi_plain = (refl, (refl, (refl, (refl, tt))));
  device_plain = (refl, (refl, (refl, tt)));
  one_line = (
    refl,
    (
      refl,
      (refl, (refl, (refl, (refl, (refl, (refl, (refl, (refl, (refl, (refl, (refl, tt))))))))))),
    ),
  );
  short = omega arith;
}

parse_file-print_udis_example :
    parse_file 7 [] (print_udis false (usb ∷ [])) ≡ some (read_back 7 (usb ∷ []) [])
parse_file-print_udis_example = parse_file-print_udis 7 (usb ∷ []) [] (usb-IsStored, tt)

-- A HAL in which every udi is a mounted file system.
abbrev pub all_mounted : Hal ℕ
all_mounted = record {
  device_property_exists = λ udi key. true;
  property_type = λ udi key. string_type;
  property_bool = λ udi key. true;
  property_string = λ udi key. some (codes "filesystem");
  property_int = λ udi key. pos 0;
  property_uint64 = λ udi key. 0;
  property_double = λ udi key. 0;
  property_strlist = λ udi key. none;
  all_properties = λ udi. none;
  all_devices = none;
}

abbrev checked_usb : Volume
checked_usb = record {
  udi = codes "/usb";
  device = some (codes "filesystem");
  mountpoint = some (codes "filesystem");
  ignore = 1;
}

usb_checked : check_udi all_mounted (λ udi. true) usb ≡ some (some checked_usb)
unfolding check_udi str_eq
usb_checked = refl

check_udi-HasMountpoint_example :
    (true ≡ true)
    × (checked_usb.udi ≡ usb.udi)
    × (checked_usb.device ≡ all_mounted.property_string usb.udi (codes "block.device"))
    × HasMountpoint all_mounted (λ udi. true) checked_usb
check_udi-HasMountpoint_example =
    check_udi-HasMountpoint all_mounted (λ udi. true) usb checked_usb usb_checked

abbrev pub cd : Volume
cd = record { udi = codes "/cd"; device = none; mountpoint = none; ignore = 0 }

abbrev only_usb : Volume → Option Volume
only_usb v = elim (str_eq v.udi usb.udi) [ true ↦ some v | false ↦ none ]

abbrev check_usb : Volume → Option (Option Volume)
check_usb v = some (only_usb v)

usb_kept : check_usb usb ≡ some (some usb)
unfolding str_eq
usb_kept = refl

cd_removed : check_usb cd ≡ some none
unfolding str_eq
cd_removed = refl

sync_loop_lost_example : sync_loop check_usb [] (usb ∷ cd ∷ []) ≡ sync_loop check_usb [] []
sync_loop_lost_example = sync_loop_lost check_usb only_usb usb cd [] usb usb_kept cd_removed
