-- ===== src/Mmio/Bench.antt =====
-- Registers with a write mask in their upper half, as a table of bits.
use lzamp.Base.{ℕ, ◌+◌, refl, if◌then◌else◌, ◌==◌}
use lzamp.Mmio.{MmioOps, MaskedRegisters, bit_at}

abbrev pub Board : Type 0
Board = ℕ → ℕ → ℕ

abbrev pub board_ops : MmioOps Board
board_ops = record {
  read32 = λ address w. (0, w);
  write32 = λ word address w other k.
      if address == other
      then (if bit_at word (k + 16) == 1 then bit_at word k else w other k)
      else w other k;
  delay_us = λ us w. w;
}

abbrev pub board_registers : MaskedRegisters board_ops
board_registers = record {
  bit = λ w address k. w address k;
  bit-write32 = λ word address other k w. refl;
}
