-- ===== src/Debug/Lines.antt =====
-- The buffers of `debug`: the loop ends, and no message is cut.
use gnu_halevt.Base.{
  ℕ, zero, suc, ◌+◌, ◌-◌, ◌*◌, ◌^◌, ◌≤◌, ◌<◌, Bool, true, false, ◌∷◌, ◌++◌, Option, some, Bytes,
  codes, length, length-append, snprintf-fits, ltb, lt→ltb, ltb→lt, int_fits, if◌then◌else◌, ◌≡◌,
  refl, ap, arith, inl, inr, Bool-cases,
}
use gnu_halevt.Base.Numbers.{decimal}
use gnu_halevt.Base.Numbers.Digits.{length-decimal}
use gnu_halevt.Debug.{
  needed, next_round, print_loop, syslog, stdout, stderr, line_size, located, report_line, debug,
}

not_fits : (n size : ℕ) → size ≤ n → ltb n size ≡ false
not_fits n size h = ground arith

leb_of : (n size : ℕ) → ltb n size ≡ false → size ≤ n
leb_of n size h = ground arith

needed_fits :
    (is_old : Bool) (size : ℕ) (text : Bytes)
    → length text < size
    → needed is_old size text ≡ some (length text)
unfolding needed
needed_fits true size text h = rw (lt→ltb _ _ h) refl
needed_fits false size text h = refl

next_round_fits :
    (again : ℕ → Option (Bytes × ℕ)) (size : ℕ) (text : Bytes)
    → length text < size
    → next_round again size text (some (length text)) ≡ some (text, size)
unfolding next_round
next_round_fits again size text h = rw (lt→ltb _ _ h, snprintf-fits size text h) refl

print_loop_fits :
    (fuel : ℕ) (is_old : Bool) (size : ℕ) (text : Bytes)
    → length text < size
    → print_loop (suc fuel) is_old size text ≡ some (text, size)
unfolding print_loop
print_loop_fits fuel is_old size text h =
    rw (needed_fits is_old size text h)
      (next_round_fits (λ larger. print_loop fuel is_old larger text) size text h)

-- A round in which the buffer is too small: the next one of the older library has twice the size,
-- the next one of the newer library the size that is needed.
print_loop_old :
    (fuel size : ℕ) (text : Bytes)
    → size ≤ length text
    → length text < 2 ^ 30
    → print_loop (suc fuel) true size text ≡ print_loop fuel true (size * 2) text
unfolding print_loop
print_loop_old fuel size text h k =
    rw (not_fits (length text) size h, int_fits (size * 2) (omega arith)) refl

print_loop_new :
    (fuel size : ℕ) (text : Bytes)
    → size ≤ length text
    → length text < 2 ^ 30
    → print_loop (suc fuel) false size text ≡ print_loop fuel false (length text + 1) text
unfolding print_loop
print_loop_new fuel size text h k =
    rw (not_fits (length text) size h, int_fits (length text + 1) (omega arith)) refl

-- What the loop has to give, in either library: the whole text, in a buffer that holds it and is
-- not much larger.
abbrev Holds : Bytes → ℕ → Option (Bytes × ℕ) → Type 0
Holds text bound r = (last : ℕ) × (r ≡ some (text, last)) × (length text < last) × (last ≤ bound)

print_loop-Holds_old :
    (fuel size bound : ℕ) (text : Bytes)
    → 0 < size
    → length text < fuel + size
    → size ≤ bound
    → 2 * length text ≤ bound
    → length text < 2 ^ 30
    → Holds text bound (print_loop (suc fuel) true size text)
print_loop-Holds_old zero size bound text p h b c l =
    (size, print_loop_fits zero true size text (omega arith), omega arith, b)
print_loop-Holds_old (suc fuel) size bound text p h b c l =
    elim (Bool-cases (ltb (length text) size)) [
      | inl e ↦
          let enough = ltb→lt (length text) size e in
          (size, print_loop_fits (suc fuel) true size text enough, enough, b)
      | inr e ↦
          let short = leb_of (length text) size e in
          rw (print_loop_old (suc fuel) size text short) (
            print_loop-Holds_old fuel (size * 2) bound text (omega arith) (omega arith)
              (omega arith) c l)
    ]

print_loop-Holds_new :
    (fuel size bound : ℕ) (text : Bytes)
    → length text < fuel + size
    → size ≤ bound
    → length text + 1 ≤ bound
    → length text < 2 ^ 30
    → Holds text bound (print_loop (suc fuel) false size text)
print_loop-Holds_new zero size bound text h b c l =
    (size, print_loop_fits zero false size text (omega arith), omega arith, b)
print_loop-Holds_new (suc fuel) size bound text h b c l =
    elim (Bool-cases (ltb (length text) size)) [
      | inl e ↦
          let enough = ltb→lt (length text) size e in
          (size, print_loop_fits (suc fuel) false size text enough, enough, b)
      | inr e ↦
          let short = leb_of (length text) size e in
          rw (print_loop_new (suc fuel) size text short) (
            length text + 1,
            print_loop_fits fuel false (length text + 1) text (omega arith),
            omega arith,
            c,
          )
    ]

-- With a round for each byte of the text and one more the loop ends, in either library; its buffer
-- then has the whole text, and is no larger than the one it starts with and twice the text.
pub print_loop_ends :
    (is_old : Bool) (size : ℕ) (text : Bytes)
    → 0 < size
    → length text < 2 ^ 30
    → (last : ℕ) × (print_loop (suc (length text)) is_old size text ≡ some (text, last))
      × (length text < last)
      × (last ≤ size + 2 * length text)
print_loop_ends true size text p l =
    print_loop-Holds_old (length text) size (size + 2 * length text) text p (omega arith)
      (omega arith) (omega arith) l
print_loop_ends false size text p l =
    print_loop-Holds_new (length text) size (size + 2 * length text) text (omega arith)
      (omega arith) (omega arith) l

-- Nothing of the line is cut: what stands between the texts takes less than 26 bytes.
length-located :
    (file : Bytes) (line : ℕ) (func buffer : Bytes)
    → length (located file line func buffer)
      ≡ length file + length (decimal line) + length func + length buffer + 5
unfolding located
length-located file line func buffer = omega (
  arith,
  length-append file (b':' ∷ (decimal line ++ (codes " (" ++ (func ++ (codes ") " ++ buffer))))),
  length-append (decimal line) (codes " (" ++ (func ++ (codes ") " ++ buffer))),
  length-append func (codes ") " ++ buffer),
)

-- An int has ten digits at most.
int_digits : (line : ℕ) → line < 2 ^ 31 → length (decimal line) ≤ 10
int_digits line h = length-decimal 9 line (omega arith)

line_fits :
    (file : Bytes) (line : ℕ) (func buffer : Bytes)
    → length (decimal line) ≤ 10
    → length (located file line func buffer) < line_size file func buffer - 1
unfolding line_size
line_fits file line func buffer h = omega (arith, length-located file line func buffer)

report_line_lem :
    (halevt_report : Bool) (file : Bytes) (line : ℕ) (func buffer : Bytes)
    → line < 2 ^ 31
    → line_size file func buffer < 2 ^ 31
    → report_line halevt_report file line func buffer
      ≡ some (
          if halevt_report
          then stdout (buffer ++ codes "\n")
          else stderr (located file line func buffer ++ codes "\n"))
unfolding report_line
report_line_lem true file line func buffer h l = rw (int_fits (line_size file func buffer) l) (
    ap (λ t. some (stdout (t ++ codes "\n")))
      (snprintf-fits (line_size file func buffer - 1) buffer (unfold line_size in omega arith)))
report_line_lem false file line func buffer h l = rw (int_fits (line_size file func buffer) l) (
    ap (λ t. some (stderr (t ++ codes "\n")))
      (snprintf-fits (line_size file func buffer - 1) (located file line func buffer)
        (line_fits file line func buffer (int_digits line h))))

-- A message below 2^30 bytes, whose line with file and function is below 2^31, comes out whole, in
-- either library: to syslog in the background, to
-- stdout with a newline where events are reported, and else to stderr with file, line and function
-- in front, for a line number below 2^31.
pub debug_lem :
    (halevt_fork halevt_report is_old : Bool) (file : Bytes) (line : ℕ) (func text : Bytes)
    → line < 2 ^ 31
    → length text < 2 ^ 30
    → length text + length file + length func + 26 < 2 ^ 31
    → debug halevt_fork halevt_report is_old file line func text
      ≡ some (
          if halevt_fork
          then syslog text
          else if halevt_report
          then stdout (text ++ codes "\n")
          else stderr (located file line func text ++ codes "\n"))
unfolding debug line_size
debug_lem true halevt_report is_old file line func text h k l = refl
debug_lem false halevt_report is_old file line func text h k l =
    let (last, e, _, _) = print_loop_ends is_old 100 text (omega arith) k in
    rw e (report_line_lem halevt_report file line func text h l)
