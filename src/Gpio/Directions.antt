-- ===== src/Gpio/Directions.antt =====
-- The output mask against the history of configuration calls.
use lzamp.Base.{
  ℕ, ◌≡◌, refl, sym, ap, ◌∙◌, subst, Bool, true, false, not, Bool-cases, some, List, [], ◌∷◌,
  if◌then◌else◌, ◌==◌, inl, inr, arith, bit_and, bit_or, shl32, complement32,
}
use lzamp.Base.Int.{ℤ, pos, is_nonzero}
use lzamp.Mmio.{MmioOps}
use lzamp.Gpio.{
  Gpio, line_is_owned, configure_input, configure_output, gpio_set, configure_input_via,
  configure_output_via, gpio_set_via, with_mask, write_masked_bit, gpio_dr_high_offset, gpio3_ok,
  gpio3_invalid, gpio3_not_output,
}
use lzamp.Gpio.Mask.{mask_of, Table, table, owned_lines, input_mask, output_mask_of}

pub data Call : Type 0 where
  input : ℕ → Call
  output : ℕ → ℤ → Call
  set : ℕ → ℤ → Call

-- A call, its result dropped.
module _ {W : Type 0} where
  abbrev after : ℤ × Gpio W × W → Gpio W × W
  after (result, device, w) = (device, w)

  unfoldable pub do_call : Call → Gpio W × W → Gpio W × W
  unfolding configure_input configure_output gpio_set
  do_call (Call.input line) (d, w) = after (configure_input d line w)
  do_call (Call.output line value) (d, w) = after (configure_output d line value w)
  do_call (Call.set line value) (d, w) = (d, (gpio_set d line value w).1)

  -- The calls, the newest first.
  unfoldable pub do_calls : List Call → Gpio W × W → Gpio W × W
  unfolding do_call
  do_calls [] s = s
  do_calls (c ∷ older) s = do_call c (do_calls older s)

-- Whether the newest configuration of the line made it an output.
unfoldable pub drives : ℕ → List Call → Bool
drives line [] = false
drives line (Call.input other ∷ older) = if other == line then false else drives line older
drives line (Call.output other value ∷ older) = if other == line then true else drives line older
drives line (Call.set other value ∷ older) = drives line older

choose :
    {X : Type 0} (owned refused driven : Bool) (a k n : X)
    → (owned ≡ true → refused ≡ not driven)
    → (if not owned then a else if refused then n else k)
      ≡ (if not owned then a else if driven then k else n)
choose false refused driven a k n g = refl
choose true refused true a k n g = rw (g refl) refl
choose true refused false a k n g = rw (g refl) refl

module _ {W : Type 0} (ops : MmioOps W) where
  unfoldable IsTracked : List Call → Gpio W → Type 0
  unfolding drives mask_of
  IsTracked calls d =
      (d.ops ≡ some ops)
      × (d.output_mask ≡ mask_of (drives 25 calls) (drives 28 calls) (drives 29 calls))

  mask_after_input :
      (d : Gpio W) (line : ℕ) (w : W)
      → ((configure_input_via (some ops) d line w).1.ops ≡ d.ops)
        × ((configure_input_via (some ops) d line w).1.output_mask ≡ (
            if not (line_is_owned line)
            then d.output_mask
            else bit_and d.output_mask (complement32 (shl32 1 line))))
  unfolding configure_input_via with_mask
  mask_after_input d line w = elim (Bool-cases (line_is_owned line)) [
    | inl h ↦ rw h (refl, refl)
    | inr h ↦ rw h (refl, refl)
  ]

  mask_after_output :
      (d : Gpio W) (line : ℕ) (value : ℤ) (w : W)
      → ((configure_output_via (some ops) d line value w).1.ops ≡ d.ops)
        × ((configure_output_via (some ops) d line value w).1.output_mask ≡ (
            if not (line_is_owned line)
            then d.output_mask
            else bit_or d.output_mask (shl32 1 line)))
  unfolding configure_output_via with_mask
  mask_after_output d line value w = elim (Bool-cases (line_is_owned line)) [
    | inl h ↦ rw h (refl, refl)
    | inr h ↦ rw h (refl, refl)
  ]

  do_call-IsTracked :
      (c : Call) (older : List Call) (d : Gpio W) (w : W)
      → IsTracked older d
      → IsTracked (c ∷ older) (do_call c (d, w)).0
  unfolding IsTracked do_call drives configure_input configure_output
  do_call-IsTracked (Call.input line) older d w (o, m) =
      subst
        (λ found.
          ((configure_input_via found d line w).1.ops ≡ some ops)
          × ((configure_input_via found d line w).1.output_mask
              ≡ mask_of (drives 25 (Call.input line ∷ older)) (drives 28 (Call.input line ∷ older))
                  (drives 29 (Call.input line ∷ older))))
        (sym o)
        (
          (mask_after_input d line w).0 ∙ o,
          (mask_after_input d line w).1
              ∙ ap
                  (λ k.
                    if not (line_is_owned line) then k else bit_and k (complement32 (shl32 1 line)))
                  m
              ∙ input_mask (drives 25 older) (drives 28 older) (drives 29 older) line,
        )
  do_call-IsTracked (Call.output line value) older d w (o, m) =
      subst
        (λ found.
          ((configure_output_via found d line value w).1.ops ≡ some ops)
          × ((configure_output_via found d line value w).1.output_mask
              ≡ mask_of (drives 25 (Call.output line value ∷ older))
                  (drives 28 (Call.output line value ∷ older))
                  (drives 29 (Call.output line value ∷ older))))
        (sym o)
        (
          (mask_after_output d line value w).0 ∙ o,
          (mask_after_output d line value w).1
              ∙ ap (λ k. if not (line_is_owned line) then k else bit_or k (shl32 1 line)) m
              ∙ output_mask_of (drives 25 older) (drives 28 older) (drives 29 older) line,
        )
  do_call-IsTracked (Call.set line value) older d w t = t

  do_calls-IsTracked :
      (calls : List Call) (d : Gpio W) (w : W)
      → IsTracked [] d
      → IsTracked calls (do_calls calls (d, w)).0
  unfolding do_calls
  do_calls-IsTracked [] d w t = t
  do_calls-IsTracked (c ∷ older) d w t =
      do_call-IsTracked c older (do_calls older (d, w)).0 (do_calls older (d, w)).1
        (do_calls-IsTracked older d w t)

  -- What `gpio_set` has to do, from the history of configurations alone.
  unfoldable pub expected_set : List Call → Gpio W → ℕ → ℤ → W → ℤ × W
  unfolding drives
  expected_set calls d line value w =
      if not (line_is_owned line)
      then (gpio3_invalid, w)
      else if drives line calls
      then (
        gpio3_ok,
        write_masked_bit ops d gpio_dr_high_offset line (if is_nonzero value then pos 1 else pos 0)
            w,
      )
      else (gpio3_not_output, w)

  guard_lem :
      (calls : List Call) (d : Gpio W) (line : ℕ)
      → IsTracked calls d
      → line_is_owned line ≡ true
      → (bit_and d.output_mask (shl32 1 line) == 0) ≡ not (drives line calls)
  unfolding IsTracked mask_of Table
  guard_lem calls d line (o, m) owned =
      let a = drives 25 calls in
      let b = drives 28 calls in
      let c = drives 29 calls in
      let P = λ (l : ℕ). (bit_and d.output_mask (shl32 1 l) == 0) ≡ not (drives l calls) in
      elim (owned_lines line) [
        | inl h ↦ subst P (sym h) (ap (λ k. bit_and k (shl32 1 25) == 0) m ∙ (table a b c).0)
        | inr (inl h) ↦ subst P (sym h) (ap (λ k. bit_and k (shl32 1 28) == 0) m ∙ (table a b c).1)
        | inr (inr (inl h)) ↦
            subst P (sym h) (ap (λ k. bit_and k (shl32 1 29) == 0) m ∙ (table a b c).2)
        | inr (inr (inr (h, x, y, z))) ↦ ground arith
      ]

  set_of_mask :
      (calls : List Call) (d : Gpio W) (line : ℕ) (value : ℤ) (w : W)
      → IsTracked calls d
      → gpio_set d line value w ≡ expected_set calls d line value w
  unfolding gpio_set gpio_set_via expected_set IsTracked mask_of Table
  set_of_mask calls d line value w (o, m) =
      subst (λ found. gpio_set_via found d line value w ≡ expected_set calls d line value w) (sym o)
        (choose (line_is_owned line) (bit_and d.output_mask (shl32 1 line) == 0) (drives line calls)
          (gpio3_invalid, w)
          (
            gpio3_ok,
            write_masked_bit ops d gpio_dr_high_offset line
                (if is_nonzero value then pos 1 else pos 0) w,
          )
          (gpio3_not_output, w) (guard_lem calls d line (o, m)))

  -- After an initialised device took any row of calls, `lzamp_gpio3_set` refuses a line it does not
  -- own as invalid, drives a line whose newest configuration made it an output, and answers
  -- not-output for every other line; a refusal writes nothing.
  pub gpio_set-drives :
      (d : Gpio W) (calls : List Call) (line : ℕ) (value : ℤ) (w : W)
      → d.ops ≡ some ops
      → d.output_mask ≡ 0
      → gpio_set (do_calls calls (d, w)).0 line value (do_calls calls (d, w)).1
        ≡ expected_set calls (do_calls calls (d, w)).0 line value (do_calls calls (d, w)).1
  unfolding IsTracked mask_of drives
  gpio_set-drives d calls line value w o m =
      set_of_mask calls (do_calls calls (d, w)).0 line value (do_calls calls (d, w)).1
        (do_calls-IsTracked calls d w (o, m))
