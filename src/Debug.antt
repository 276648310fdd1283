-- ===== src/Debug.antt =====
-- src/debug.c: `debug`, which formats a message and sends it to syslog, stdout or stderr. The
-- message that `vsnprintf` makes of the format and its arguments is given; how it reports that the
-- buffer is too small differs between versions of the C library.
pub mod Lines
use gnu_halevt.Base.{
  ℕ, zero, suc, ◌+◌, ◌-◌, ◌*◌, Bool, true, false, [], ◌∷◌, ◌++◌, Option, none, some, Bytes, codes,
  length, as_int, snprintf, ltb, if◌then◌else◌, ◌>>=◌,
}
use gnu_halevt.Base.Numbers.{decimal}

-- The number that `vsnprintf` returns, for a text that an int can measure: -1, here `none`, where the buffer is too small and the
-- library is older than 2.1; else the length of the whole text.
unfoldable pub needed : Bool → ℕ → Bytes → Option ℕ
needed is_old size text =
    if is_old
    then if ltb (length text) size then some (length text) else none
    else some (length text)

-- One round: the text is there, or the buffer grows. Its size is an int, and `none` is an overflow.
unfoldable pub next_round : (ℕ → Option (Bytes × ℕ)) → ℕ → Bytes → Option ℕ → Option (Bytes × ℕ)
unfolding snprintf
next_round again size text none = as_int (size * 2) >>= again
next_round again size text (some n) =
    if ltb n size then some (snprintf size text, size) else as_int (n + 1) >>= again

-- The loop over growing buffers: the text and the size of the last one, or out of fuel.
unfoldable pub print_loop : ℕ → Bool → ℕ → Bytes → Option (Bytes × ℕ)
unfolding needed next_round
print_loop zero is_old size text = none
print_loop (suc fuel) is_old size text =
    next_round (λ larger. print_loop fuel is_old larger text) size text (needed is_old size text)

pub data Output : Type 0 where
  syslog : Bytes → Output
  stdout : Bytes → Output
  stderr : Bytes → Output

-- The buffer of the whole line.
unfoldable pub line_size : Bytes → Bytes → Bytes → ℕ
line_size file func buffer = length buffer + length file + length func + 26

-- "%s:%d (%s) %s"
unfoldable pub located : Bytes → ℕ → Bytes → Bytes → Bytes
located file line func buffer =
    file ++ (b':' ∷ (decimal line ++ (codes " (" ++ (func ++ (codes ") " ++ buffer)))))

unfoldable pub report_line : Bool → Bytes → ℕ → Bytes → Bytes → Option Output
unfolding snprintf line_size located
report_line halevt_report file line func buffer = as_int (line_size file func buffer) >>= λ size.
    some (
      if halevt_report
      then stdout (snprintf (size - 1) buffer ++ codes "\n")
      else stderr (snprintf (size - 1) (located file line func buffer) ++ codes "\n"))

-- Each round but the last makes the buffer larger, and the buffer starts with 100 bytes: a round
-- for each byte of the text and one more are enough.
unfoldable pub debug : Bool → Bool → Bool → Bytes → ℕ → Bytes → Bytes → Option Output
unfolding print_loop report_line
debug halevt_fork halevt_report is_old file line func text =
    if halevt_fork then some (syslog text) else (do
      last ← print_loop (suc (length text)) is_old 100 text
      report_line halevt_report file line func last.0)

-- `DEBUG_REPORT` of src/common.h: nothing, or a message.
unfoldable pub debug_report : Bool → Option Output → Option (Option Output)
debug_report halevt_print_callbacks message =
    if halevt_print_callbacks then (do output ← message; some (some output)) else some none
