-- ===== src/Command/Growth.antt =====
-- The buffer doubles at every element, so a command with many elements overflows `int`.
use native.Mathlib.Nat.{pow-suc, mul_assoc, mul_comm, le_trans, mul-le-mul_right, pow-le-pow_right}
use gnu_halevt.Base.{
  ℕ, suc, ◌*◌, ◌^◌, ◌≤◌, ◌<◌, List, [], ◌∷◌, Option, none, some, Bytes, ◌≡◌, sym, ap, ◌∙◌, arith,
  inl, inr, length, strcat, Option-cases, ◌>>=◌, >>=-eq-some,
}
use gnu_halevt.Names.{PropertyName}
use gnu_halevt.Exec.{ExecElement, Exec}
use gnu_halevt.Command.{element_value, int_limit, Buffer, start, enlarge, append, fill, run_command}

-- After a round that is defined the size has doubled at least, and is in the range of `int`.
append-doubles :
    (b c : Buffer) (s : Bytes)
    → b.current_size < b.string_size
    → append b s ≡ some c
    → (2 * b.string_size ≤ c.string_size)
      × (c.string_size < int_limit)
      × (c.current_size < c.string_size)
unfolding append enlarge strcat
append-doubles b c s h e = ground arith

scale : (z z' p q : ℕ) → q ≡ 2 * p → 2 * z ≤ z' → z * q ≤ z' * p
scale z z' p q e h =
    let k : 2 * z * p ≤ z' * p = mul-le-mul_right p h in
    let m : z * q ≡ 2 * z * p =
      ap (λ x. z * x) e ∙ sym (mul_assoc z 2 p) ∙ ap (λ x. x * p) (mul_comm z 2) in
    rw m k

grow_pow : (n : ℕ) → 2 ^ suc n ≡ 2 * 2 ^ n
grow_pow n = pow-suc 2 n ∙ omega arith

module _ (name_value : PropertyName → Option (Option (List Bytes))) where
  fill-doubles :
      (es : List ExecElement) (b c : Buffer)
      → b.current_size < b.string_size
      → b.string_size < int_limit
      → fill name_value b es ≡ some c
      → (b.string_size * 2 ^ length es ≤ c.string_size) × (c.string_size < int_limit)
  unfolding fill
  fill-doubles [] b c h k e = ground arith
  fill-doubles (x ∷ es) b c h k e =
      let (s, e₁, r₁) = >>=-eq-some (element_value name_value x) _ e in
      let (b', e₂, r₂) = >>=-eq-some (append b s) _ r₁ in
      let (d, d', d'') = append-doubles b b' s h e₂ in
      let (g, g') = fill-doubles es b' c d'' d' r₂ in
      (
        le_trans (scale b.string_size b'.string_size (2 ^ length es) _ (grow_pow (length es)) d) g,
        g',
      )

  -- With 24 elements the size of the buffer leaves the range of `int`, however short the texts.
  pub run_command_overflow :
      (exec : Exec) → 24 ≤ length exec.elements → run_command name_value exec ≡ none
  unfolding run_command
  run_command_overflow exec h = elim (Option-cases (fill name_value start exec.elements)) [
    | inl e ↦ ap (λ o. o >>= λ b. some b.command) e
    | inr (c, e) ↦
        let (g, g') = fill-doubles exec.elements start c (omega arith) (omega arith) e in
        let k : 2 ^ 24 ≤ 2 ^ length exec.elements = pow-le-pow_right (omega arith) h in
        absurd (omega arith)
  ]
