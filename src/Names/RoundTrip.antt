-- ===== src/Names/RoundTrip.antt =====
-- A property name and the text that it is parsed from, both ways.
use mathlib.Core.Option
use gnu_halevt.Base.{
  ℕ, suc, ◌+◌, ◌<◌, true, List, [], ◌∷◌, ◌++◌, map, Option, some, Bytes, ◌≡◌, refl, sym, ap, ◌∙◌,
  inl, inr, arith, length, length-append, starts_with, starts_with_cut, starts_with_self,
  Bool-cases, take, drop, get_elem?, traverse, All, ltb, >>=-eq-some, traverse-cons, traverse-some,
  length-traverse, take-last, get_elem?_last, take_front,
}
use gnu_halevt.Names.{
  PropertyName, hal_prefix, hal_substring, hal_string, occurrences, cut, parse_parents,
  parse_property_name,
}
use gnu_halevt.Names.Cut.{length-cut, join, join-cut, IsClean, cut-append, cut_nothing}

-- "p₁.hal.p₂.hal. … .hal.name": what follows the first prefix.
abbrev pub chain : List Bytes → Bytes → Bytes
chain [] name = name
chain (p ∷ ps) name = p ++ (hal_substring ++ chain ps name)

-- A name written out, as the configuration file has it.
abbrev pub dotted : PropertyName → Bytes
dotted property = hal_prefix ++ chain property.parents property.name

abbrev pub prefixed : Bytes → Bytes
prefixed x = hal_prefix ++ x

pub hal_string_lem : (s : Bytes) {y : Bytes} → hal_string s ≡ some y → s ≡ hal_prefix ++ y
unfolding hal_string
hal_string_lem s {y} h = elim (Bool-cases (starts_with hal_prefix s)) [
  | inr bad ↦ ground arith
  | inl good ↦
      let (rest, e) = starts_with_cut hal_prefix s good in
      let d : drop 4 s ≡ rest = rw e refl in e ∙ ap prefixed (sym d ∙ kept good)
]
  where
    kept : starts_with hal_prefix s ≡ true → drop 4 s ≡ y
    kept good = ground arith

hal_string_prefix : (x : Bytes) → 0 < length x → hal_string (hal_prefix ++ x) ≡ some x
unfolding hal_string
hal_string_prefix x h = rw starts_with_self (ground arith)

pub traverse-prefixed :
    (xs : List Bytes) {ys : List Bytes} → traverse hal_string xs ≡ some ys → xs ≡ map prefixed ys
traverse-prefixed [] {ys} h = nothing ys h
  where
    nothing : (ys : List Bytes) → traverse hal_string [] ≡ some ys → [] ≡ map prefixed ys
    nothing [] e = refl
    nothing (y ∷ ys) e = unfold traverse in cc e
traverse-prefixed (x ∷ xs) h =
    let (y, zs, p, q, e) = traverse-cons hal_string x xs h in
    rw e (cc (hal_string_lem x p, traverse-prefixed xs q))

prefixed-traverse :
    (xs : List Bytes) → All (λ x. 0 < length x) xs → traverse hal_string (map prefixed xs) ≡ some xs
prefixed-traverse [] h = unfold traverse in refl
prefixed-traverse (x ∷ xs) h =
    traverse-some hal_string (prefixed x) (map prefixed xs) x xs (hal_string_prefix x h.0)
      (prefixed-traverse xs h.1)

join-dotted :
    (ps : List Bytes) (name : Bytes)
    → join (map prefixed (ps ++ name ∷ [])) ≡ hal_prefix ++ chain ps name
join-dotted [] name = refl
join-dotted (p ∷ []) name = refl
join-dotted (p ∷ q ∷ ps) name =
    ap (λ t. hal_prefix ++ (p ++ (b'.' ∷ t))) (join-dotted (q ∷ ps) name)

parse_parents-dotted :
    (s : Bytes) {property : PropertyName}
    → parse_parents (occurrences hal_substring s) s ≡ some property
    → dotted property ≡ s
unfolding parse_parents
parse_parents-dotted s {property} h =
    let n = occurrences hal_substring s in
    let (pieces, cutting, h₁) = >>=-eq-some (traverse hal_string (cut s)) _ h in
    let (name, last, h₂) = >>=-eq-some (get_elem? pieces n) _ h₁ in
    let size : length pieces ≡ n + 1 = length-traverse hal_string (cut s) cutting ∙ length-cut s in
    ap (λ (r : Option PropertyName). dotted (Option.get_or r property)) (sym h₂)
    ∙ sym (join-dotted (take n pieces) name)
    ∙ ap (λ ps. join (map prefixed ps)) (sym (take-last pieces n last size))
    ∙ ap join (sym (traverse-prefixed (cut s) cutting))
    ∙ join-cut s

-- What is parsed is what stands there: the parents and the name, written out, are the text.
pub parse_property_name-dotted :
    (s : Bytes) {property : PropertyName}
    → parse_property_name s ≡ some property
    → dotted property ≡ s
unfolding parse_property_name
parse_property_name-dotted s {property} h =
    elim (Bool-cases (ltb 0 (occurrences hal_substring s))) [
      | inl some_parents ↦ parse_parents-dotted s (rw some_parents at h)
      | inr no_parents ↦
          let (name, found, h') = >>=-eq-some (hal_string s) _ (rw no_parents at h) in
          ap (λ (r : Option PropertyName). dotted (Option.get_or r property)) (sym h')
          ∙ sym (hal_string_lem s found)
    ]

abbrev pub IsParent : Bytes → Type 0
IsParent p = (0 < length p) × IsClean (hal_prefix ++ p)

cut-dotted :
    (ps : List Bytes) (name : Bytes)
    → All IsParent ps
    → occurrences hal_substring (hal_prefix ++ name) ≡ 0
    → cut (hal_prefix ++ chain ps name) ≡ map prefixed (ps ++ name ∷ [])
cut-dotted [] name h k = cut_nothing (hal_prefix ++ name) k
cut-dotted (p ∷ ps) name h k =
    cut-append (hal_prefix ++ p) (chain ps name) h.0.1
    ∙ ap (◌∷◌ (prefixed p)) (cut-dotted ps name h.1 k)

map_nonempty : (ps : List Bytes) → All IsParent ps → All (λ x. 0 < length x) ps
map_nonempty [] h = tt
map_nonempty (p ∷ ps) h = (h.0.0, map_nonempty ps h.1)

All-snoc :
    (ps : List Bytes) (name : Bytes)
    → All (λ x. 0 < length x) ps
    → 0 < length name
    → All (λ x. 0 < length x) (ps ++ name ∷ [])
All-snoc [] name h k = (k, tt)
All-snoc (p ∷ ps) name h k = (h.0, All-snoc ps name h.1 k)

length-snoc : {A : Type 0} (ps : List A) (x : A) → length (ps ++ x ∷ []) ≡ length ps + 1
length-snoc ps x = length-append ps (x ∷ [])

length-map-prefixed : (ps : List Bytes) → length (map prefixed ps) ≡ length ps
length-map-prefixed [] = refl
length-map-prefixed (p ∷ ps) = ap suc (length-map-prefixed ps)

occurrences-dotted :
    (ps : List Bytes) (name : Bytes)
    → All IsParent ps
    → occurrences hal_substring (hal_prefix ++ name) ≡ 0
    → occurrences hal_substring (hal_prefix ++ chain ps name) ≡ length ps
occurrences-dotted ps name h free = omega (
  arith,
  length-cut (hal_prefix ++ chain ps name),
  ap length (cut-dotted ps name h free),
  length-map-prefixed (ps ++ name ∷ []),
  length-snoc ps name,
)

no_parents_lem :
    (s : Bytes) {name : Bytes}
    → occurrences hal_substring s ≡ 0
    → hal_string s ≡ some name
    → parse_property_name s ≡ some (record { name = name; parents = [] })
unfolding parse_property_name
no_parents_lem s e h = ground arith

with_parents_lem :
    (s : Bytes) (n : ℕ)
    → occurrences hal_substring s ≡ suc n
    → parse_property_name s ≡ parse_parents (suc n) s
unfolding parse_property_name
with_parents_lem s n e = ground arith

parse_parents-lem :
    (s name : Bytes) (pieces : List Bytes) (n : ℕ)
    → traverse hal_string (cut s) ≡ some pieces
    → get_elem? pieces n ≡ some name
    → parse_parents n s ≡ some (record { name = name; parents = take n pieces })
unfolding parse_parents
parse_parents-lem s name pieces n h k = rw (h, k) refl

-- A name that is not empty and holds no separator, behind parents that are not empty and hold none
-- themselves, is read back, the parents in order.
pub dotted-parse :
    (ps : List Bytes) (name : Bytes)
    → All IsParent ps
    → 0 < length name
    → occurrences hal_substring (hal_prefix ++ name) ≡ 0
    → parse_property_name (hal_prefix ++ chain ps name)
      ≡ some (record { name = name; parents = ps })
dotted-parse [] name h k free = no_parents_lem _ free (hal_string_prefix name k)
dotted-parse (p ∷ ps) name h k free =
    let s = hal_prefix ++ chain (p ∷ ps) name in
    let pieces = p ∷ ps ++ name ∷ [] in
    let pieces_are : traverse hal_string (cut s) ≡ some pieces =
      ap (traverse hal_string) (cut-dotted (p ∷ ps) name h free)
      ∙ prefixed-traverse pieces (All-snoc (p ∷ ps) name (map_nonempty (p ∷ ps) h) k) in
    with_parents_lem s (length ps) (occurrences-dotted (p ∷ ps) name h free)
    ∙ parse_parents-lem s name pieces (suc (length ps)) pieces_are (get_elem?_last (p ∷ ps) name)
    ∙ ap (λ qs. some (record { name = name; parents = qs })) (take_front (p ∷ ps) name)
