-- ===== src/Mount/Main/Whole.antt =====
-- The device file is never left half written, whichever step fails.
use gnu_halevt.Base.{true, false, List, Option, none, some, Bytes, ◌≡◌, All}
use gnu_halevt.Mount.{Volume, print_udis}
use gnu_halevt.Mount.Main.Current.{IsCurrent}
use gnu_halevt.Mount.Options.{Options}
use gnu_halevt.Mount.World.{Files, Outcome, World}

-- What may have become of a device file: it is the same, it is gone, or it is the whole text of a
-- list of volumes of which each is as it should be.
pub data IsWhole (P : Volume → Type 0) (before : Option Bytes) : Option Bytes → Type 0 where
  same : IsWhole P before before
  gone : IsWhole P before none
  rewritten : (vs : List Volume) → All P vs → IsWhole P before (some (print_udis false vs))

abbrev Leaves : (Volume → Type 0) → Files → Outcome → Type 0
Leaves P files out = IsWhole P files.device_file out.files.device_file

module _ {Double : Type 0} (w : World Double) (can_flush : w.can_flush ≡ true) (files : Files) where
  abbrev Current : Volume → Type 0
  Current = IsCurrent w.hal w.exists

  -- With the temporary file written for these volumes.
  abbrev with_tmp : List Volume → Files
  with_tmp vs = record files { tmp_device_file = some (print_udis false vs) }
