-- ===== src/Exec/RoundTrip.antt =====
-- The elements of a command, put together again, are the text that it was parsed from.
use mathlib.Core.List.{append_assoc, append-nil}
use gnu_halevt.Base.{
  ℕ, zero, suc, List, [], ◌∷◌, ◌++◌, Option, none, some, Bytes, ◌≡◌, refl, ap, ◌∙◌, length, tail,
  strstr, strstr_cut, starts_with_cut,
}
use gnu_halevt.Names.{PropertyName, parse_property_name}
use gnu_halevt.Names.RoundTrip.{dotted, parse_property_name-dotted}
use gnu_halevt.Exec.{
  Exec, new_exec, ExecElement, text, hal_value, exec_prefix, dollar, Fill, out_of_fuel,
  bad_property, filled, prepend, fill_rest, fill_property, fill_to, fill_from, fill_elements,
}
use gnu_halevt.Exec.Bounds.{new_exec_inv}

-- An element as it stands in the configuration file.
abbrev pub source : ExecElement → Bytes
source (text s) = s
source (hal_value property) = dollar ++ (dotted property ++ dollar)

abbrev pub sources : List ExecElement → Bytes
sources [] = []
sources (e ∷ es) = source e ++ sources es

abbrev Shows : Bytes → Fill → Type 0
Shows s (filled es) = sources es ≡ s
Shows s _ = Unit

dollar_cut :
    (s : Bytes) {before at : Bytes}
    → strstr dollar s ≡ some (before, at)
    → s ≡ before ++ (dollar ++ tail at)
dollar_cut s {before} {at} e =
    let (cut, found) = strstr_cut dollar s e in
    let (rest, f) = starts_with_cut dollar at found in cut ∙ rw f refl

prefix_cut :
    (s : Bytes) {before at : Bytes}
    → strstr exec_prefix s ≡ some (before, at)
    → s ≡ before ++ (dollar ++ tail at)
prefix_cut s {before} {at} e =
    let (cut, found) = strstr_cut exec_prefix s e in
    let (rest, f) = starts_with_cut exec_prefix at found in cut ∙ rw f refl

Shows-prepend :
    (before rest : Bytes) (property : PropertyName) (r : Fill)
    → Shows rest r
    → Shows
        (before ++ (dollar ++ (dotted property ++ (dollar ++ rest))))
        (prepend (text before) (hal_value property) r)
unfolding prepend
Shows-prepend before rest property out_of_fuel h = tt
Shows-prepend before rest property bad_property h = tt
Shows-prepend before rest property (filled es) h =
    ap (λ t. before ++ (dollar ++ t))
      (append_assoc (dotted property) dollar (sources es)
        ∙ ap (λ r. dotted property ++ (dollar ++ r)) h)

module _ (again : Bytes → Fill) where
  fill_property-Shows :
      (before rest inside : Bytes) (o : Option PropertyName)
      → parse_property_name inside ≡ o
      → Shows rest (again rest)
      → Shows
          (before ++ (dollar ++ (inside ++ (dollar ++ rest))))
          (fill_property again before o rest)
  unfolding fill_property fill_rest
  fill_property-Shows before rest inside none e h = tt
  fill_property-Shows before [] inside (some property) e h =
      rw (← parse_property_name-dotted inside e) (Shows-prepend before [] property (filled []) refl)
  fill_property-Shows before (c ∷ cs) inside (some property) e h =
      rw (← parse_property_name-dotted inside e) (Shows-prepend before (c ∷ cs) property _ h)

  fill_to-Shows :
      (s before inner : Bytes)
      → s ≡ before ++ (dollar ++ inner)
      → ((t : Bytes) → Shows t (again t))
      → (o : Option (Bytes × Bytes)) → strstr dollar inner ≡ o
      → Shows s (fill_to again s before o)
  unfolding fill_to
  fill_to-Shows s before inner e h none k = append-nil s
  fill_to-Shows s before inner e h (some (inside, p)) k =
      rw (e, dollar_cut inner k) (fill_property-Shows before (tail p) inside _ refl (h (tail p)))

  fill_from-Shows :
      (s : Bytes)
      → ((t : Bytes) → Shows t (again t))
      → (o : Option (Bytes × Bytes)) → strstr exec_prefix s ≡ o
      → Shows s (fill_from again s o)
  unfolding fill_from
  fill_from-Shows s h none k = append-nil s
  fill_from-Shows s h (some (before, at)) k =
      fill_to-Shows s before (tail at) (prefix_cut s k) h _ refl

fill_elements-Shows : (fuel : ℕ) (s : Bytes) → Shows s (fill_elements fuel s)
unfolding fill_elements
fill_elements-Shows zero s = tt
fill_elements-Shows (suc fuel) s =
    fill_from-Shows (fill_elements fuel) s (fill_elements-Shows fuel) _ refl

-- Whatever command is accepted, its elements in order make up its text again, each property name
-- between two "$", and the text itself is kept.
pub new_exec-sources :
    (exec : Bytes) {e : Exec}
    → new_exec exec ≡ some e
    → (sources e.elements ≡ exec) × (e.string ≡ exec)
new_exec-sources exec h =
    let (filling, string) = new_exec_inv exec h in
    (rw filling at (fill_elements-Shows (suc (length exec)) exec), string)
