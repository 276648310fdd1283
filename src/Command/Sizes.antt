-- ===== src/Command/Sizes.antt =====
-- A command that is not too long is the concatenation of its parts.
use mathlib.Core.List.{append_assoc, append-nil}
use native.Mathlib.Nat.{pow-suc, le_trans}
use gnu_halevt.Base.{
  ℕ, ◌+◌, ◌*◌, ◌^◌, ◌≤◌, ◌<◌, List, [], ◌∷◌, ◌++◌, Option, some, Bytes, ◌≡◌, refl, sym, ap, ◌∙◌,
  arith, length, length-append, strcat_lem, lt→ltb, traverse, traverse-cons,
}
use gnu_halevt.Names.{PropertyName}
use gnu_halevt.Exec.{ExecElement, Exec}
use gnu_halevt.Command.{element_value, int_limit, Buffer, start, enlarge, append, fill, run_command}

-- What holds of the buffer between two rounds. The size is ahead of the count, so the test of the
-- next round always passes.
pub record Fits (b : Buffer) : Type 0 where
  pub ahead : b.current_size < b.string_size
  pub within : length b.command < b.string_size

abbrev larger : Buffer → Bytes → Buffer
larger b s = record {
  string_size = 2 * (length s + b.string_size);
  current_size = b.current_size + length s;
  command = b.command ++ s;
}

larger-Fits : (b : Buffer) (s : Bytes) → Fits b → Fits (larger b s)
larger-Fits b s f = record {
  ahead = omega (arith, f.ahead);
  within = omega (arith, f.within, length-append b.command s);
}

append-larger :
    (b : Buffer) (s : Bytes)
    → Fits b
    → 2 * (length s + b.string_size) < int_limit
    → append b s ≡ some (larger b s)
unfolding append enlarge
append-larger b s f h =
    rw
      (
        lt→ltb b.current_size (length s + b.string_size) (omega (arith, f.ahead)),
        lt→ltb (2 * (length s + b.string_size)) int_limit h,
        strcat_lem (2 * (length s + b.string_size)) b.command s (omega (arith, f.within)),
      )
      refl

abbrev pub concat : List Bytes → Bytes
concat [] = []
concat (s ∷ ss) = s ++ concat ss

-- The sizes that the rounds reach.
abbrev final_size : ℕ → List Bytes → ℕ
final_size size [] = size
final_size size (s ∷ ss) = final_size (2 * (length s + size)) ss

final_size-grows : (size : ℕ) (ss : List Bytes) → size ≤ final_size size ss
final_size-grows size [] = omega arith
final_size-grows size (s ∷ ss) = omega (arith, final_size-grows (2 * (length s + size)) ss)

module _ (name_value : PropertyName → Option (Option (List Bytes))) where
  fill-concat :
      (es : List ExecElement) (strings : List Bytes) (b : Buffer)
      → traverse (element_value name_value) es ≡ some strings
      → Fits b
      → final_size b.string_size strings < int_limit
      → (c : Buffer) × (fill name_value b es ≡ some c) × (c.command ≡ b.command ++ concat strings)
  unfolding fill
  fill-concat [] strings b e f h = (b, refl, sym (nothing strings e))
    where
      nothing :
          (ss : List Bytes)
          → traverse (element_value name_value) [] ≡ some ss
          → b.command ++ concat ss ≡ b.command
      nothing [] k = append-nil b.command
      nothing (s ∷ ss) k = unfold traverse in cc k
  fill-concat (x ∷ es) strings b e f h =
      let (s, ss, e₁, e₂, k) = traverse-cons (element_value name_value) x es e in
      let bound : final_size (2 * (length s + b.string_size)) ss < int_limit = rw k at h in
      let room : 2 * (length s + b.string_size) < int_limit =
        omega (arith, final_size-grows (2 * (length s + b.string_size)) ss) in
      let (c, g, m) = fill-concat es ss (larger b s) e₂ (larger-Fits b s f) bound in
      (
        c,
        rw (e₁, append-larger b s f room) g,
        m ∙ append_assoc b.command s (concat ss) ∙ ap (λ t. b.command ++ concat t) (sym k),
      )

scale : (l z c p : ℕ) → (2 * (l + z) + c) * p ≤ (z + (l + c)) * (p * 2)
scale l z c p = omega arith

final_size-bound :
    (size : ℕ) (ss : List Bytes) → final_size size ss ≤ (size + length (concat ss)) * 2 ^ length ss
final_size-bound size [] = omega arith
final_size-bound size (s ∷ ss) =
    rw (length-append s (concat ss), pow-suc 2 (length ss))
      (le_trans (final_size-bound (2 * (length s + size)) ss)
        (scale (length s) size (length (concat ss)) (2 ^ length ss)))

-- Where every part has a value, and the sizes stay in the range of `int`, the command that is
-- spawned is the parts in order, each place with its first value or "UNKNOWN".
pub run_command-concat :
    (name_value : PropertyName → Option (Option (List Bytes))) (exec : Exec) (strings : List Bytes)
    → traverse (element_value name_value) exec.elements ≡ some strings
    → (255 + length (concat strings)) * 2 ^ length strings < int_limit
    → run_command name_value exec ≡ some (concat strings)
unfolding run_command
run_command-concat name_value exec strings e h =
    let small : final_size 255 strings < int_limit = omega (arith, final_size-bound 255 strings) in
    let (c, g, m) = fill-concat name_value exec.elements strings start e (omega arith) small in
    rw g (ap some m)
