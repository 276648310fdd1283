-- ===== src/Tests/World.antt =====
-- A boolstuff, a HAL and a configuration for the tests.
use gnu_halevt.Base.{
  ℕ, Bool, true, false, ◌&&◌, ◌||◌, List, [], ◌∷◌, Option, none, some, Bytes, codes, str_eq, length,
  ◌==◌, negsuc, decimal, All, ◌≡◌, refl, sym, ap, ◌∙◌, if◌then◌else◌,
}
use gnu_halevt.Exec.{Exec, text, hal_value}
use gnu_halevt.Expr.{BooleanExpression, BoolStuff}
use gnu_halevt.Eval.Correct.{every, no_one, some_tree, IsNormalizer}
use gnu_halevt.Devices.{Device}
use gnu_halevt.Hal.{Floats, Hal, string_value, string_type, uint64_type}
use gnu_halevt.Config.{Rule, Condition, PropertyAction, Property, Config}

-- A tree is a list of terms, each the positive and the negated variables; a text is a variable.
abbrev pub Tree : Type 0
Tree = List (List Bytes × List Bytes)

abbrev pub roots : Tree → List Tree
roots [] = []
roots (t ∷ ts) = (t ∷ []) ∷ roots ts

abbrev first_positives : Tree → List Bytes
first_positives [] = []
first_positives (t ∷ ts) = t.0

abbrev first_negatives : Tree → List Bytes
first_negatives [] = []
first_negatives (t ∷ ts) = t.1

abbrev pub boolstuff : BoolStuff Tree
boolstuff = record {
  parse = λ s. some ((s ∷ [], []) ∷ []);
  disjunctive_normal_form = λ t. t;
  dnf_term_roots = roots;
  positives = first_positives;
  negatives = first_negatives;
}

abbrev pub meaning : Tree → (Bytes → Bool) → Bool
meaning t v = some_tree (λ x. every v x.0 && no_one v x.1) t

or_false : (b : Bool) → b ≡ (b || false)
or_false true = refl
or_false false = refl

terms_meaning : (t : Tree) (v : Bytes → Bool) → meaning t v ≡ some_tree (λ r. meaning r v) (roots t)
terms_meaning [] v = refl
terms_meaning (x ∷ xs) v =
    ap (λ b. b || meaning xs v) (or_false (every v x.0 && no_one v x.1))
    ∙ ap (λ b. ((every v x.0 && no_one v x.1) || false) || b) (terms_meaning xs v)

roots_are_terms :
    (t : Tree) (v : Bytes → Bool)
    → All
        (λ r. meaning r v ≡ (every v (first_positives r) && no_one v (first_negatives r)))
        (roots t)
roots_are_terms [] v = tt
roots_are_terms (x ∷ xs) v = (sym (or_false _), roots_are_terms xs v)

pub boolstuff-IsNormalizer : IsNormalizer boolstuff meaning
boolstuff-IsNormalizer = record {
  normal_form = λ t v. refl;
  disjunction = terms_meaning;
  conjunction = roots_are_terms;
}

abbrev pub floats : Floats ℕ
floats = record { strtod = length; equal = ◌==◌; print_g = decimal }

-- A HAL in which the devices of a list each have the one property "info.category".
abbrev pub listed : Bytes → List (Bytes × Bytes) → Option Bytes
listed udi [] = none
listed udi (d ∷ ds) = if str_eq d.0 udi then some d.1 else listed udi ds

abbrev is_some {ℓ} : {A : Type ℓ} → Option A → Bool
is_some none = false
is_some (some _) = true

abbrev pub category : Bytes
category = codes "info.category"

abbrev pub udis : List (Bytes × Bytes) → List Bytes
udis [] = []
udis (d ∷ ds) = d.0 ∷ udis ds

abbrev pub hal_with : List (Bytes × Bytes) → Hal ℕ
hal_with devices = record {
  device_property_exists = λ udi key. str_eq category key && is_some (listed udi devices);
  property_type = λ udi key. string_type;
  property_bool = λ udi key. false;
  property_string = λ udi key. listed udi devices;
  property_int = λ udi key. negsuc 0;
  property_uint64 = λ udi key. 0;
  property_double = λ udi key. 0;
  property_strlist = λ udi key. none;
  all_properties = λ udi. elim (listed udi devices) [
    | none ↦ none
    | some s ↦ some ((category, string_value (some s)) ∷ [])
  ];
  all_devices = some (udis devices);
}

-- HAL with a uint64 property "size" of 7 for each device.
abbrev pub hal_sizes : Hal ℕ
hal_sizes = record {
  device_property_exists = λ udi key. true;
  property_type = λ udi key. uint64_type;
  property_bool = λ udi key. false;
  property_string = λ udi key. none;
  property_int = λ udi key. negsuc 0;
  property_uint64 = λ udi key. 7;
  property_double = λ udi key. 0;
  property_strlist = λ udi key. none;
  all_properties = λ udi. none;
  all_devices = none;
}

abbrev pub disk : Bytes
disk = codes "/disk"

abbrev pub volume : Bytes
volume = codes "volume"

abbrev pub one_disk : Hal ℕ
one_disk = hal_with ((disk, volume) ∷ [])

abbrev pub no_disk : Hal ℕ
no_disk = hal_with []

-- "hal.info.category=volume", and the command "eject $hal.udi$".
abbrev pub is_volume : BooleanExpression Tree
is_volume = record {
  tree = (codes "0" ∷ [], []) ∷ [];
  expression_string = codes "0";
  matches =
      record { value = some volume; property = record { name = category; parents = [] } } ∷ [];
}

abbrev pub eject : Exec
eject = record {
  string = codes "eject $hal.udi$";
  elements = text (codes "eject ") ∷ hal_value (record { name = codes "udi"; parents = [] }) ∷ [];
}

abbrev pub rule : Rule Tree
rule = record { exec = eject; match = is_volume }

abbrev pub condition_rule : Condition Tree
condition_rule = record {
  name = codes "EjectPressed";
  value = none;
  exec = eject;
  match = is_volume;
}

abbrev pub action : PropertyAction
action = record { value = codes "volume"; exec = eject }

abbrev pub property_rule : Property Tree
property_rule = record { name = category; match = is_volume; action = action ∷ [] }

abbrev pub config : Config Tree
config = record {
  property_root = property_rule ∷ [];
  insertion_root = rule ∷ [];
  removal_root = rule ∷ [];
  condition_root = condition_rule ∷ [];
  oninit_root = rule ∷ [];
}

abbrev pub disk_device : Device
disk_device = record {
  udi = disk;
  properties = record { key = category; values = volume ∷ [] } ∷ [];
}
