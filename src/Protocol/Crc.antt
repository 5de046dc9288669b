-- ===== src/Protocol/Crc.antt =====
-- The frame CRC: its range, and what corruption it detects.
use lzamp.Base.{
  ℕ, zero, suc, ◌/◌, ◌%◌, ◌^◌, ◌<◌, bit_xor, ◌≡◌, ◌⊎◌, inl, inr, sym, ap, ◌∙◌, List, [], ◌∷◌, ◌++◌,
  arith, length, set, get_elem?, some,
}
use lzamp.Base.Bits.{bit_and-one, bit_xor-lt, bit_xor-bit_xor, bit_xor-shr, bit_xor_comm}
use lzamp.Protocol.{crc_bit, crc_bits, crc_bytes}

-- One round by the parity of the register.
crc_bit_even : (c : ℕ) → c % 2 ≡ 0 → crc_bit c ≡ bit_xor (c / 2) 0
unfolding crc_bit
crc_bit_even c h = rw (bit_and-one, h)

crc_bit_odd : (c : ℕ) → c % 2 ≡ 1 → crc_bit c ≡ bit_xor (c / 2) 0xedb88320
unfolding crc_bit
crc_bit_odd c h = rw (bit_and-one, h)

parity : (c : ℕ) → (c % 2 ≡ 0) ⊎ (c % 2 ≡ 1)
parity c = grind arith

crc_bit-lt : (c : ℕ) → c < 2 ^ 32 → crc_bit c < 2 ^ 32
crc_bit-lt c h = elim (parity c) [
  | inl e ↦ rw (crc_bit_even c e) (bit_xor-lt 32 (c / 2) 0 (omega arith) (omega arith))
  | inr o ↦ rw (crc_bit_odd c o) (bit_xor-lt 32 (c / 2) 0xedb88320 (omega arith) (omega arith))
]

half_top : (c : ℕ) → c < 2 ^ 32 → c / 2 / 2 ^ 31 ≡ 0
half_top c h = omega arith

-- The top bit of the register after a round tells the parity before it.
crc_bit_top : (c : ℕ) → c < 2 ^ 32 → crc_bit c / 2 ^ 31 ≡ c % 2
crc_bit_top c h = elim (parity c) [
  | inl e ↦ rw (crc_bit_even c e, bit_xor-shr 31 (c / 2) 0, half_top c h, e)
  | inr o ↦ rw (crc_bit_odd c o, bit_xor-shr 31 (c / 2) 0xedb88320, half_top c h, o)
]

bit_xor_injective :
    (n a b k : ℕ) → a < 2 ^ n → b < 2 ^ n → k < 2 ^ n → bit_xor a k ≡ bit_xor b k → a ≡ b
bit_xor_injective n a b k ha hb hk e =
    sym (bit_xor-bit_xor n a k ha hk) ∙ ap (λ x. bit_xor x k) e ∙ bit_xor-bit_xor n b k hb hk

crc_bit_injective : (c d : ℕ) → c < 2 ^ 32 → d < 2 ^ 32 → crc_bit c ≡ crc_bit d → c ≡ d
crc_bit_injective c d hc hd e =
    let same : c % 2 ≡ d % 2 = sym (crc_bit_top c hc) ∙ ap (λ x. x / 2 ^ 31) e ∙ crc_bit_top d hd in
    elim (parity c) [
      | inl p ↦
          let halves : c / 2 ≡ d / 2 =
            bit_xor_injective 32 (c / 2) (d / 2) 0 (omega arith) (omega arith) (omega arith)
              (sym (crc_bit_even c p) ∙ e ∙ crc_bit_even d (sym same ∙ p)) in
          omega arith
      | inr p ↦
          let halves : c / 2 ≡ d / 2 =
            bit_xor_injective 32 (c / 2) (d / 2) 0xedb88320 (omega arith) (omega arith)
              (omega arith) (sym (crc_bit_odd c p) ∙ e ∙ crc_bit_odd d (sym same ∙ p)) in
          omega arith
    ]

crc_bits-lt : (left c : ℕ) → c < 2 ^ 32 → crc_bits left c < 2 ^ 32
unfolding crc_bits
crc_bits-lt zero c h = h
crc_bits-lt (suc left) c h = crc_bits-lt left (crc_bit c) (crc_bit-lt c h)

crc_bits_injective :
    (left c d : ℕ) → c < 2 ^ 32 → d < 2 ^ 32 → crc_bits left c ≡ crc_bits left d → c ≡ d
unfolding crc_bits
crc_bits_injective zero c d hc hd e = e
crc_bits_injective (suc left) c d hc hd e =
    crc_bit_injective c d hc hd
      (crc_bits_injective left (crc_bit c) (crc_bit d) (crc_bit-lt c hc) (crc_bit-lt d hd) e)

abbrev pub IsBytes : List ℕ → Type 0
IsBytes [] = Unit {0}
IsBytes (x ∷ xs) = (x < 256) × IsBytes xs

pub IsBytes-append : (xs ys : List ℕ) → IsBytes xs → IsBytes ys → IsBytes (xs ++ ys)
IsBytes-append [] ys hx hy = hy
IsBytes-append (x ∷ xs) ys hx hy = (hx.0, IsBytes-append xs ys hx.1 hy)

next_register-lt : (c b : ℕ) → c < 2 ^ 32 → b < 256 → crc_bits 8 (bit_xor c b) < 2 ^ 32
next_register-lt c b hc hb = crc_bits-lt 8 (bit_xor c b) (bit_xor-lt 32 c b hc (omega arith))

pub crc_bytes-lt : (c : ℕ) (bs : List ℕ) → c < 2 ^ 32 → IsBytes bs → crc_bytes c bs < 2 ^ 32
unfolding crc_bytes
crc_bytes-lt c [] hc hb = hc
crc_bytes-lt c (b ∷ bs) hc hb =
    crc_bytes-lt (crc_bits 8 (bit_xor c b)) bs (next_register-lt c b hc hb.0) hb.1

-- The same bytes take different registers to different registers.
crc_bytes_injective :
    (c d : ℕ) (bs : List ℕ)
    → c < 2 ^ 32
    → d < 2 ^ 32
    → IsBytes bs
    → crc_bytes c bs ≡ crc_bytes d bs
    → c ≡ d
unfolding crc_bytes
crc_bytes_injective c d [] hc hd hb e = e
crc_bytes_injective c d (b ∷ bs) hc hd hb e = bit_xor_injective 32 c d b hc hd (omega arith) (
    crc_bits_injective 8 (bit_xor c b) (bit_xor d b) (bit_xor-lt 32 c b hc (omega arith))
      (bit_xor-lt 32 d b hd (omega arith))
      (crc_bytes_injective (crc_bits 8 (bit_xor c b)) (crc_bits 8 (bit_xor d b)) bs
        (next_register-lt c b hc hb.0) (next_register-lt d b hd hb.0) hb.1 e))

bit_xor_injective_right :
    (a b k : ℕ) → a < 256 → b < 256 → k < 2 ^ 32 → bit_xor k a ≡ bit_xor k b → a ≡ b
bit_xor_injective_right a b k ha hb hk e =
    bit_xor_injective 32 a b k (omega arith) (omega arith) hk
      (bit_xor_comm 32 a k (omega arith) hk ∙ e ∙ bit_xor_comm 32 k b hk (omega arith))

-- Equal registers after a change of one byte: the byte was not changed.
pub crc_bytes-set :
    (c : ℕ) (bs : List ℕ) (i v : ℕ)
    → c < 2 ^ 32
    → IsBytes bs
    → v < 256
    → i < length bs
    → crc_bytes c (set bs i v) ≡ crc_bytes c bs
    → get_elem? bs i ≡ some v
unfolding crc_bytes
crc_bytes-set c [] i v hc hb hv hi e = absurd (omega arith)
crc_bytes-set c (b ∷ bs) zero v hc hb hv hi e = ap some (
    bit_xor_injective_right b v c hb.0 hv hc (
      sym (
        crc_bits_injective 8 (bit_xor c v) (bit_xor c b) (bit_xor-lt 32 c v hc (omega arith))
          (bit_xor-lt 32 c b hc (omega arith))
          (crc_bytes_injective (crc_bits 8 (bit_xor c v)) (crc_bits 8 (bit_xor c b)) bs
            (next_register-lt c v hc hv) (next_register-lt c b hc hb.0) hb.1 e))))
crc_bytes-set c (b ∷ bs) (suc i) v hc hb hv hi e =
    crc_bytes-set (crc_bits 8 (bit_xor c b)) bs i v (next_register-lt c b hc hb.0) hb.1 hv
      (omega arith) e
