-- ===== src/Gpio/Mask.antt =====
-- The bits of the owned lines in the output mask.
use lzamp.Base.{
  ℕ, ◌+◌, ◌≡◌, refl, Bool, true, false, not, if◌then◌else◌, ◌==◌, ◌⊎◌, inl, inr, arith, bit_and,
  bit_or, shl32, complement32,
}
use lzamp.Gpio.{line_is_owned}

-- The mask of a set of owned lines.
unfoldable pub mask_of : Bool → Bool → Bool → ℕ
mask_of a b c =
    (if a then 0x2000000 else 0) + (if b then 0x10000000 else 0) + (if c then 0x20000000 else 0)

-- Setting and clearing a line's bit.
unfoldable pub Table : Bool → Bool → Bool → Type 0
unfolding mask_of
Table a b c =
    ((bit_and (mask_of a b c) (shl32 1 25) == 0) ≡ not a)
    × ((bit_and (mask_of a b c) (shl32 1 28) == 0) ≡ not b)
    × ((bit_and (mask_of a b c) (shl32 1 29) == 0) ≡ not c)
    × (bit_or (mask_of a b c) (shl32 1 25) ≡ mask_of true b c)
    × (bit_or (mask_of a b c) (shl32 1 28) ≡ mask_of a true c)
    × (bit_or (mask_of a b c) (shl32 1 29) ≡ mask_of a b true)
    × (bit_and (mask_of a b c) (complement32 (shl32 1 25)) ≡ mask_of false b c)
    × (bit_and (mask_of a b c) (complement32 (shl32 1 28)) ≡ mask_of a false c)
    × (bit_and (mask_of a b c) (complement32 (shl32 1 29)) ≡ mask_of a b false)

pub table : (a b c : Bool) → Table a b c
unfolding Table mask_of
table true true true = (refl, refl, refl, refl, refl, refl, refl, refl, refl)
table true true false = (refl, refl, refl, refl, refl, refl, refl, refl, refl)
table true false true = (refl, refl, refl, refl, refl, refl, refl, refl, refl)
table true false false = (refl, refl, refl, refl, refl, refl, refl, refl, refl)
table false true true = (refl, refl, refl, refl, refl, refl, refl, refl, refl)
table false true false = (refl, refl, refl, refl, refl, refl, refl, refl, refl)
table false false true = (refl, refl, refl, refl, refl, refl, refl, refl, refl)
table false false false = (refl, refl, refl, refl, refl, refl, refl, refl, refl)

pub owned_lines :
    (line : ℕ)
    → (line ≡ 25)
      ⊎ (line ≡ 28)
      ⊎ (line ≡ 29)
      ⊎ ((line_is_owned line ≡ false)
          × ((line == 25) ≡ false)
          × ((line == 28) ≡ false)
          × ((line == 29) ≡ false))
owned_lines line = ground arith

-- The mask after a call, for each kind of call.
pub input_mask :
    (a b c : Bool) (line : ℕ)
    → (if not (line_is_owned line)
        then mask_of a b c
        else bit_and (mask_of a b c) (complement32 (shl32 1 line)))
      ≡ mask_of
          (if line == 25 then false else a)
          (if line == 28 then false else b)
          (if line == 29 then false else c)
unfolding Table mask_of
input_mask a b c line = elim (owned_lines line) [
  | inl h ↦ rw h (table a b c).6
  | inr (inl h) ↦ rw h (table a b c).7
  | inr (inr (inl h)) ↦ rw h (table a b c).8
  | inr (inr (inr (h, x, y, z))) ↦ rw (h, x, y, z) refl
]

pub output_mask_of :
    (a b c : Bool) (line : ℕ)
    → (if not (line_is_owned line) then mask_of a b c else bit_or (mask_of a b c) (shl32 1 line))
      ≡ mask_of
          (if line == 25 then true else a)
          (if line == 28 then true else b)
          (if line == 29 then true else c)
unfolding Table mask_of
output_mask_of a b c line = elim (owned_lines line) [
  | inl h ↦ rw h (table a b c).3
  | inr (inl h) ↦ rw h (table a b c).4
  | inr (inr (inl h)) ↦ rw h (table a b c).5
  | inr (inr (inr (h, x, y, z))) ↦ rw (h, x, y, z) refl
]
