-- ===== src/Expr/Tokens.antt =====
-- What the scan makes of a text is what the description by segments says.
use mathlib.Core.List.{append_assoc, append-nil}
use mathlib.Core.Path.{ap₂}
use gnu_halevt.Base.{
  ℕ, ◌+◌, ◌-◌, ◌<◌, true, false, List, [], ◌∷◌, ◌++◌, Option, none, some, Bytes, ◌≡◌, refl, sym, ap,
  ◌∙◌, inl, inr, arith, length, length-append, is_space, skip_spaces, strcat, decimal, Bool-cases,
  ◌>>=◌, >>=-eq-some,
}
use gnu_halevt.Expr.Scan.{
  Scanner, start, is_delimiter, trim_end, extend, ordinary, sizes_for, store_atom, end_atom,
  grow_expr, flush, delimiter, step, scan,
}
use gnu_halevt.Expr.Scan.Safe.{most_atoms, scan_within}
use gnu_halevt.Expr.Segments.{
  Segments, next, onto, split, name_of, index_of, atoms_of, expr_of, Opened, opened, name_of-Opened,
  atoms_of_space, expr_of_space, onto-nil, onto-append,
}

-- What a step has added to the atoms and to the expression.
abbrev Adds : Scanner → List Bytes → Bytes → Scanner → Type 0
Adds s names text t = (t.atoms ≡ s.atoms ++ names) × (t.expr ≡ s.expr ++ text)

store_atom_inv :
    (s : Scanner) (a : Bytes) {e : Scanner} {index : Bytes}
    → store_atom s a ≡ some (e, index)
    → (e.atoms ≡ s.atoms ++ trim_end a ∷ [])
      × (e.expr ≡ s.expr)
      × (index ≡ decimal (length s.atoms))
unfolding store_atom
store_atom_inv s a h =
    let same : length s.atoms + 1 - 1 ≡ length s.atoms = omega arith in
    let (sizes, e, h') = >>=-eq-some (sizes_for s.atom_sizes (length s.atoms + 1)) _ h in
    ground arith

end_atom_inv :
    (s : Scanner) (o : Option Bytes) {e : Scanner} {index : Bytes}
    → Opened o
    → end_atom s o ≡ some (e, index)
    → (e.atoms ≡ s.atoms ++ name_of (opened o))
      × (e.expr ≡ s.expr)
      × (index ≡ index_of (length s.atoms) (name_of (opened o)))
unfolding end_atom skip_spaces trim_end
end_atom_inv s none p h = ground (arith, append-nil s.atoms)
end_atom_inv s (some a) p h = rw (name_of-Opened a p) (store_atom_inv s a h)

flush_tail :
    (e : Scanner) (index : Bytes) {t : Scanner}
    → (grow_expr e (length index) >>= λ size. strcat size e.expr index >>= λ expr.
        some (record e { atom = none; expr = expr; expr_string_size = size }))
      ≡ some t
    → (t.atom ≡ none) × (t.atoms ≡ e.atoms) × (t.expr ≡ e.expr ++ index)
unfolding strcat
flush_tail e index h =
    let (size, grown, h') = >>=-eq-some (grow_expr e (length index)) _ h in ground arith

flush_inv :
    (s : Scanner) {t : Scanner}
    → Opened s.atom
    → flush s ≡ some t
    → (t.atom ≡ none)
      × Adds s (name_of (opened s.atom)) (index_of (length s.atoms) (name_of (opened s.atom))) t
unfolding flush
flush_inv s p h =
    let (ended, e, h₁) = >>=-eq-some (end_atom s s.atom) _ h in
    let r = flush_tail ended.0 ended.1 h₁ in
    let a = end_atom_inv s s.atom p e in (r.0, (r.1 ∙ a.0, r.2 ∙ ap₂ ◌++◌ a.1 a.2))

delimiter_tail :
    (s : Scanner) (c : ℕ) {t : Scanner}
    → (strcat s.expr_string_size s.expr (c ∷ []) >>= λ expr. some (record s { expr = expr }))
      ≡ some t
    → (t.atom ≡ s.atom) × (t.atoms ≡ s.atoms) × (t.expr ≡ s.expr ++ c ∷ [])
unfolding strcat
delimiter_tail s c h = ground arith

delimiter_inv :
    (s : Scanner) (c : ℕ) {t : Scanner}
    → Opened s.atom
    → delimiter s c ≡ some t
    → (t.atom ≡ none)
      × Adds s
          (name_of (opened s.atom))
          (index_of (length s.atoms) (name_of (opened s.atom)) ++ c ∷ [])
          t
unfolding delimiter
delimiter_inv s c p h =
    let (s', e, h₁) = >>=-eq-some (flush s) _ h in
    let r = delimiter_tail s' c h₁ in
    let f = flush_inv s p e in
    (r.0 ∙ f.0, (r.1 ∙ f.1.0, r.2 ∙ ap (λ x. x ++ c ∷ []) f.1.1 ∙ append_assoc s.expr _ (c ∷ [])))

-- A byte inside a segment moves from the text to the open atom, or is a space before one.
extend-Opened : (o : Option Bytes) (c : ℕ) → Opened o → Opened (extend o c)
unfolding extend
extend-Opened none c p = elim (Bool-cases (is_space c)) [
  | inl space ↦ rw space tt
  | inr other ↦ rw other other
]
extend-Opened (some []) c p = absurd p
extend-Opened (some (d ∷ ds)) c p = p

extend-segments :
    (o : Option Bytes) (c n : ℕ) (r : Segments)
    → (atoms_of (onto (opened (extend o c)) r) ≡ atoms_of (onto (opened o) (onto (c ∷ []) r)))
      × (expr_of n (onto (opened (extend o c)) r) ≡ expr_of n (onto (opened o) (onto (c ∷ []) r)))
unfolding extend
extend-segments none c n r = elim (Bool-cases (is_space c)) [
  | inl space ↦
      rw (space, onto-nil r, onto-nil (onto (c ∷ []) r))
        (sym (atoms_of_space c r space), sym (expr_of_space n c r space))
  | inr other ↦ rw (other, onto-nil (onto (c ∷ []) r)) (refl, refl)
]
extend-segments (some a) c n r = rw (onto-append a (c ∷ []) r) (refl, refl)

-- A segment and the delimiter behind it, then the rest.
delimiter-Adds :
    (s s' t : Scanner) (g : Bytes) (c : ℕ) (r : Segments)
    → s'.atom ≡ none
    → Adds s (name_of g) (index_of (length s.atoms) (name_of g) ++ c ∷ []) s'
    → Adds s'
        (atoms_of (onto (opened s'.atom) r))
        (expr_of (length s'.atoms) (onto (opened s'.atom) r))
        t
    → Adds s (atoms_of (next g c r)) (expr_of (length s.atoms) (next g c r)) t
delimiter-Adds s s' t g c r e (atoms, expr) (later_atoms, later_expr) =
    let fresh : onto (opened s'.atom) r ≡ r = ap (λ o. onto (opened o) r) e ∙ onto-nil r in
    let n = length s.atoms + length (name_of g) in
    let count : length s'.atoms ≡ n = ap length atoms ∙ length-append s.atoms (name_of g) in
    let i = index_of (length s.atoms) (name_of g) in
    (
      later_atoms
          ∙ ap₂ ◌++◌ atoms (ap atoms_of fresh)
          ∙ append_assoc s.atoms (name_of g) (atoms_of r),
      later_expr
          ∙ ap₂ ◌++◌ expr (ap₂ expr_of count fresh)
          ∙ append_assoc s.expr (i ++ c ∷ []) (expr_of n r)
          ∙ ap (λ x. s.expr ++ x) (append_assoc i (c ∷ []) (expr_of n r)),
    )

step-delimiter : (s : Scanner) (c : ℕ) → is_delimiter c ≡ true → step s c ≡ delimiter s c
unfolding step
step-delimiter s c h = rw h refl

step-ordinary : (s : Scanner) (c : ℕ) → is_delimiter c ≡ false → step s c ≡ some (ordinary s c)
unfolding step
step-ordinary s c h = rw h refl

-- The scan from any state on.
scan-Adds :
    (cs : Bytes) (s : Scanner) {t : Scanner}
    → Opened s.atom
    → scan s cs ≡ some t
    → Adds s
        (atoms_of (onto (opened s.atom) (split cs)))
        (expr_of (length s.atoms) (onto (opened s.atom) (split cs)))
        t
unfolding scan split ordinary
scan-Adds [] s p h = rw (append-nil (opened s.atom)) (flush_inv s p h).1
scan-Adds (c ∷ cs) s {t} p h = elim (Bool-cases (is_delimiter c)) [
  | inl at ↦
      let (s', e, h') = >>=-eq-some (step s c) (λ s'. scan s' cs) h in
      let d = delimiter_inv s c p (sym (step-delimiter s c at) ∙ e) in
      let opens : Opened s'.atom = rw d.0 tt in
      rw (at, append-nil (opened s.atom))
        (delimiter-Adds s s' t (opened s.atom) c (split cs) d.0 d.1 (scan-Adds cs s' opens h'))
  | inr inside ↦
      let goes : scan (ordinary s c) cs ≡ some t =
        sym (ap (λ (m : Option Scanner). m >>= λ y. scan y cs) (step-ordinary s c inside)) ∙ h in
      let later = scan-Adds cs (ordinary s c) (extend-Opened s.atom c p) goes in
      let same = extend-segments s.atom c (length s.atoms) (split cs) in
      rw inside (later.0 ∙ ap (λ x. s.atoms ++ x) same.0, later.1 ∙ ap (λ x. s.expr ++ x) same.1)
]

-- The scan of a whole text gives the atoms of its segments, spaces trimmed on both sides, and the
-- expression in which each stands as its index.
pub scan-split :
    (original_string : Bytes)
    → length original_string < most_atoms
    → (t : Scanner) × (scan start original_string ≡ some t)
      × (t.atoms ≡ atoms_of (split original_string))
      × (t.expr ≡ expr_of 0 (split original_string))
scan-split original_string h =
    let (t, e, f) = scan_within original_string h in
    let adds = scan-Adds original_string start tt e in
    let whole = onto-nil (split original_string) in
    (t, e, adds.0 ∙ ap atoms_of whole, adds.1 ∙ ap (expr_of 0) whole)
