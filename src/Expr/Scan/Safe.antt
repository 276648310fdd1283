-- ===== src/Expr/Scan/Safe.antt =====
-- The buffers of the scan are always large enough.
use gnu_halevt.Base.{
  ℕ, ◌+◌, ◌-◌, ◌*◌, ◌≤◌, ◌<◌, [], ◌∷◌, ◌++◌, Option, none, some, Bytes, ◌≡◌, refl, inl, inr, arith,
  length, length-append, strcat_lem, decimal, lt→ltb, ltb→lt, ltb, leb, int_fits, ◌^◌, Bool-cases,
}
use gnu_halevt.Base.Numbers.Digits.{length-decimal, power_of_ten}
use gnu_halevt.Expr.Scan.{
  Scanner, start, is_delimiter, trim_end, ordinary, sizes_for, store_atom, end_atom, grow_expr,
  flush, delimiter, step, scan,
}

-- Between two steps: the expression and its NUL fit, and so does one more atom.
pub record Fits (s : Scanner) : Type 0 where
  pub expr_fits : length s.expr < s.expr_string_size
  pub expr_least : 10 ≤ s.expr_string_size
  pub atoms_fit : length s.atoms < s.atom_sizes
  pub atoms_least : 4 ≤ s.atom_sizes

-- Texts with fewer bytes have sizes in the range of int, and indices of at most nine digits.
abbrev pub most_atoms : ℕ
most_atoms = power_of_ten 8

ordinary-Fits : (s : Scanner) (c : ℕ) → Fits s → Fits (ordinary s c)
unfolding ordinary
ordinary-Fits s c f = ground arith

length-ordinary : (s : Scanner) (c : ℕ) → length (ordinary s c).atoms ≡ length s.atoms
unfolding ordinary
length-ordinary s c = ground arith

-- The end of an atom, kept apart from the scanner: what `store_atom` gives when it succeeds.
record Ended (s : Scanner) (r : Option (Scanner × Bytes)) : Type 0 where
  ended : Scanner
  index : Bytes
  result : r ≡ some (ended, index)
  fits : Fits ended
  short : length index ≤ 9
  counts : length ended.atoms ≤ length s.atoms + 1
  same : length ended.expr ≡ length s.expr

sizes_for_fits :
    (n z : ℕ)
    → n < z
    → 4 ≤ z
    → n < most_atoms
    → (sizes : ℕ) × (sizes_for z (n + 1) ≡ some sizes) × (n + 1 < sizes) × (4 ≤ sizes)
unfolding sizes_for
sizes_for_fits n z h k l = elim (Bool-cases (leb (z - 1) (n + 1))) [
  | inl small ↦
      let least : z - 1 ≤ n + 1 = ground arith in
      (z * 2, rw small (int_fits (z * 2) (omega arith)), omega arith, omega arith)
  | inr large ↦ (z, rw large refl, ground arith, k)
]

store_atom-Ended :
    (s : Scanner) (a : Bytes) → Fits s → length s.atoms < most_atoms → Ended s (store_atom s a)
unfolding store_atom
store_atom-Ended s a f h =
    let n = length s.atoms in
    let (sizes, e, more, least) = sizes_for_fits n s.atom_sizes f.atoms_fit f.atoms_least h in
    let shorter : length (decimal (n + 1 - 1)) ≤ 9 = length-decimal 8 (n + 1 - 1) (omega arith) in
    let longer = length-append s.atoms (trim_end a ∷ []) in
    record {
      ended = record s { atoms = s.atoms ++ trim_end a ∷ []; atom_sizes = sizes };
      index = decimal (n + 1 - 1);
      result =
          rw
            (
              e,
              lt→ltb (n + 1 - 1) sizes (omega arith),
              lt→ltb (length (decimal (n + 1 - 1))) 256 (omega arith),
            )
            refl;
      fits = record {
        expr_fits = f.expr_fits;
        expr_least = f.expr_least;
        atoms_fit = omega arith;
        atoms_least = least;
      };
      short = shorter;
      counts = omega arith;
      same = refl;
    }

end_atom-Ended :
    (s : Scanner) (a : Option Bytes) → Fits s → length s.atoms < most_atoms → Ended s (end_atom s a)
unfolding end_atom
end_atom-Ended s none f h = record {
  ended = s;
  index = [];
  result = refl;
  fits = f;
  short = omega arith;
  counts = omega arith;
  same = refl;
}
end_atom-Ended s (some a) f h = store_atom-Ended s a f h

-- Doubling once makes room for the index, the delimiter and the NUL.
grow_expr-room :
    (s : Scanner) (k : ℕ)
    → Fits s
    → k ≤ 9
    → length s.expr + 20 < 2 ^ 30
    → (size : ℕ) × (grow_expr s k ≡ some size) × (length s.expr + k + 2 ≤ size) × (10 ≤ size)
unfolding grow_expr
grow_expr-room s k f h l =
    let z = s.expr_string_size in
    let least : 10 ≤ z = f.expr_least in
    let fits : length s.expr < z = f.expr_fits in
    elim (Bool-cases (ltb z (length s.expr + k + 2))) [
      | inl small ↦
          let less = ltb→lt z (length s.expr + k + 2) small in
          (z * 2, rw small (int_fits (z * 2) (omega arith)), omega arith, omega arith)
      | inr large ↦ (z, rw large refl, ground arith, least)
    ]

-- What a step gives when it succeeds.
record Goes (s : Scanner) (spare : ℕ) (r : Option Scanner) : Type 0 where
  next : Scanner
  result : r ≡ some next
  fits : Fits next
  room : length next.expr + spare < next.expr_string_size
  counts : length next.atoms ≤ length s.atoms + 1
  grows : length next.expr ≤ length s.expr + (9 + (1 - spare))

flush-Goes :
    (s : Scanner)
    → Fits s
    → length s.atoms < most_atoms
    → length s.expr + 20 < 2 ^ 30
    → Goes s 1 (flush s)
unfolding flush
flush-Goes s f h l =
    let e = end_atom-Ended s s.atom f h in
    let (size, grown, room, least) =
      grow_expr-room e.ended (length e.index) e.fits e.short (omega (arith, e.same)) in
    let long = length-append e.ended.expr e.index in
    record {
      next = record (e.ended) {
        atom = none;
        expr = e.ended.expr ++ e.index;
        expr_string_size = size;
      };
      result = rw (e.result) (rw (grown, strcat_lem size e.ended.expr e.index (omega arith)) refl);
      fits = record {
        expr_fits = omega arith;
        expr_least = least;
        atoms_fit = e.fits.atoms_fit;
        atoms_least = e.fits.atoms_least;
      };
      room = omega arith;
      counts = e.counts;
      grows = omega (arith, e.same, e.short);
    }

delimiter-Goes :
    (s : Scanner) (c : ℕ)
    → Fits s
    → length s.atoms < most_atoms
    → length s.expr + 20 < 2 ^ 30
    → Goes s 0 (delimiter s c)
unfolding delimiter
delimiter-Goes s c f h l =
    let g = flush-Goes s f h l in
    let long = length-append g.next.expr (c ∷ []) in
    let room : length g.next.expr + 1 < g.next.expr_string_size = g.room in
    record {
      next = record (g.next) { expr = g.next.expr ++ c ∷ [] };
      result = rw (g.result, strcat_lem g.next.expr_string_size g.next.expr (c ∷ []) room) refl;
      fits = record {
        expr_fits = omega arith;
        expr_least = g.fits.expr_least;
        atoms_fit = g.fits.atoms_fit;
        atoms_least = g.fits.atoms_least;
      };
      room = omega arith;
      counts = g.counts;
      grows = omega (arith, g.grows);
    }

step-Goes :
    (s : Scanner) (c : ℕ)
    → Fits s
    → length s.atoms < most_atoms
    → length s.expr + 20 < 2 ^ 30
    → Goes s 0 (step s c)
unfolding step
step-Goes s c f h l = elim (Bool-cases (is_delimiter c)) [
  | inl at ↦ rw at (delimiter-Goes s c f h l)
  | inr inside ↦ rw inside (record {
    next = ordinary s c;
    result = refl;
    fits = ordinary-Fits s c f;
    room = omega (arith, (ordinary-Fits s c f).expr_fits);
    counts = omega (arith, length-ordinary s c);
    grows = unfold ordinary in omega arith;
  })
]

scan-Goes :
    (cs : Bytes) (s : Scanner)
    → Fits s
    → length s.atoms + length cs < most_atoms
    → length s.expr + 10 * length cs + 20 < 2 ^ 30
    → (t : Scanner) × (scan s cs ≡ some t) × Fits t
unfolding scan
scan-Goes [] s f h l =
    let g = flush-Goes s f (omega arith) (omega arith) in (g.next, g.result, g.fits)
scan-Goes (c ∷ cs) s f h l =
    let g = step-Goes s c f (omega arith) (omega arith) in
    let (t, e, k) = scan-Goes cs g.next g.fits (omega (arith, g.counts)) (omega (arith, g.grows)) in
    (t, rw g.result e, k)

-- A text shorter than a hundred million bytes is scanned to its end: the sizes of the buffers stay
-- in the range of int, and every write into the expression, the array of atoms and the 256 bytes
-- of the index stays within the buffer.
pub scan_within :
    (original_string : Bytes)
    → length original_string < most_atoms
    → (t : Scanner) × (scan start original_string ≡ some t) × Fits t
scan_within original_string h =
    scan-Goes original_string start (omega arith) (omega arith) (omega arith)
