-- ===== src/Mmio.antt =====
-- zephyr/drivers/rk3588_mmio.h: register access. The three functions are the platform's; they act
-- on a world `W` that holds the devices. Addresses are sums that stay inside 64 bits.
pub mod Bench
use lzamp.Base.{
  ◌≡◌, refl, sym, ap, ◌∙◌, arith, Option, none, some, Bool, true, false, ℕ, List, [], ◌∷◌, bit_and,
  bit_or, ◌+◌, shl32, ◌/◌, ◌%◌, ◌^◌, if◌then◌else◌, ◌==◌,
}

pub record MmioOps (W : Type 0) : Type 0 where
  pub read32 : ℕ → W → ℕ × W
  pub write32 : ℕ → ℕ → W → W
  pub delay_us : ℕ → W → W

-- The value and the address of a write, and a row of writes in program order.
module _ {W : Type 0} (ops : MmioOps W) where
  unfoldable pub write_all : List (ℕ × ℕ) → W → W
  write_all [] w = w
  write_all ((value, address) ∷ rest) w = write_all rest (ops.write32 value address w)

-- `write mask in the upper half, value in the lower half`, as the CRU and the IOC take it.
pub record Update : Type 0 where
  pub offset : ℕ
  pub mask : ℕ
  pub shift : ℕ
  pub value : ℕ

unfoldable pub update_word : Update → ℕ
update_word u =
    let shifted_mask = shl32 u.mask u.shift in
    bit_or (shl32 shifted_mask 16) (shl32 (bit_and u.value u.mask) u.shift)

module _ {W : Type 0} (ops : MmioOps W) where
  unfoldable pub apply_updates : ℕ → List Update → W → W
  unfolding update_word
  apply_updates base [] w = w
  apply_updates base (u ∷ rest) w =
      apply_updates base rest (ops.write32 (update_word u) (base + u.offset) w)

unfoldable pub or_else : ℕ → Option ℕ → ℕ
or_else old none = old
or_else old (some v) = v

unfoldable pub or_first : Option ℕ → Option ℕ → Option ℕ
or_first none other = other
or_first (some v) other = some v

abbrev pub bit_at : ℕ → ℕ → ℕ
bit_at word k = word / 2 ^ k % 2

-- Registers whose writes go through the mask in the upper half: what the hardware's manual states,
-- and the drivers' comments repeat. `bit w address k` is bit `k` of the register.
pub record MaskedRegisters {W : Type 0} (ops : MmioOps W) : Type 0 where
  pub bit : W → ℕ → ℕ → ℕ
  pub bit-write32 :
      (word address other k : ℕ) (w : W)
      → bit (ops.write32 word address w) other k ≡ (
          if address == other
          then (if bit_at word (k + 16) == 1 then bit_at word k else bit w other k)
          else bit w other k)

-- What a row of updates leaves in one bit: `none` where no write of the row reaches it.
unfoldable pub final : List Update → ℕ → ℕ → Option ℕ
unfolding update_word
final [] offset k = none
final (u ∷ rest) offset k =
    let now =
      if u.offset == offset
      then (if bit_at (update_word u) (k + 16) == 1 then some (bit_at (update_word u) k) else none)
      else none in
    or_first (final rest offset k) now

same_register : (base a b : ℕ) → (base + a == base + b) ≡ (a == b)
same_register base a b = ground arith

-- One write, then what the rest leaves.
or_first_lem :
    (later : Option ℕ) (same on : Bool) (bit old : ℕ)
    → or_else old (or_first later (if same then (if on then some bit else none) else none))
      ≡ or_else (if same then (if on then bit else old) else old) later
unfolding or_else or_first
or_first_lem (some v) same on bit old = refl
or_first_lem none true true bit old = refl
or_first_lem none true false bit old = refl
or_first_lem none false on bit old = refl

pub bit-apply_updates :
    {W : Type 0} (ops : MmioOps W) (regs : MaskedRegisters ops) (base offset k : ℕ)
    (us : List Update) (w : W)
    → regs.bit (apply_updates ops base us w) (base + offset) k
      ≡ or_else (regs.bit w (base + offset) k) (final us offset k)
unfolding apply_updates final or_else
bit-apply_updates ops regs base offset k [] w = refl
bit-apply_updates ops regs base offset k (u ∷ rest) w =
    let word = update_word u in
    let old = regs.bit w (base + offset) k in
    let on = bit_at word (k + 16) == 1 in
    let chosen = if on then bit_at word k else old in
    bit-apply_updates ops regs base offset k rest (ops.write32 word (base + u.offset) w)
    ∙ ap (λ now. or_else now (final rest offset k))
        (regs.bit-write32 word (base + u.offset) (base + offset) k w
          ∙ ap (λ same. if same then chosen else old) (same_register base u.offset offset))
    ∙ sym (or_first_lem (final rest offset k) (u.offset == offset) on (bit_at word k) old)
