-- ===== src/Protocol.antt =====
-- mailmsg/mailmsg.h: the frame, its constants, its CRC and the fixed reliability of a priority.
-- Numbers are the unsigned words of the header. A payload is the list of its 28 bytes, and the
-- bytes of a frame are those of a little-endian machine, on which both sides of the link run.
pub mod RingResult
pub mod Crc
pub mod MessageType
pub mod Payload
mod Examples
use lzamp.Base.{
  ℕ, zero, suc, ◌-◌, ◌^◌, bit_and, bit_xor, Bool, not, ◌&&◌, List, [], ◌∷◌, ◌++◌, ltb, ◌==◌, u8,
  u32, shr, complement32, replicate,
}

abbrev pub protocol_magic : ℕ
protocol_magic = 0x4d4d5347

abbrev pub protocol_version : ℕ
protocol_version = 7

abbrev pub priority_count : ℕ
priority_count = 4

abbrev pub ring_slots : ℕ
ring_slots = 8

abbrev pub payload_bytes : ℕ
payload_bytes = 28

abbrev pub reliable_priority_mask : ℕ
reliable_priority_mask = 0x3

pub record Message : Type 0 where
  pub generation : ℕ
  pub type : ℕ
  pub sequence : ℕ
  pub length : ℕ
  pub payload : List ℕ
  pub crc32 : ℕ
  pub commit : ℕ

-- `struct mailmsg_message message = { 0 };`
abbrev pub zero_message : Message
zero_message = record {
  generation = 0;
  type = 0;
  sequence = 0;
  length = 0;
  payload = replicate 28 0;
  crc32 = 0;
  commit = 0;
}

unfoldable pub priority_is_reliable : ℕ → Bool
priority_is_reliable priority =
    ltb priority priority_count && not (bit_and reliable_priority_mask (2 ^ priority) == 0)

unfoldable pub le32_bytes : ℕ → List ℕ
le32_bytes v = u8 v ∷ u8 (shr v 8) ∷ u8 (shr v 16) ∷ u8 (shr v 24) ∷ []

-- The bytes from `generation` to the end of `payload`.
unfoldable pub frame_bytes : Message → List ℕ
unfolding le32_bytes
frame_bytes m =
    le32_bytes m.generation
    ++ (le32_bytes m.type ++ (le32_bytes m.sequence ++ (le32_bytes m.length ++ m.payload)))

-- `crc = (crc >> 1) ^ (0xedb88320U & -(crc & 1U))`
unfoldable pub crc_bit : ℕ → ℕ
crc_bit crc = bit_xor (shr crc 1) (bit_and 0xedb88320 (u32 (2 ^ 32 - bit_and crc 1)))

unfoldable pub crc_bits : ℕ → ℕ → ℕ
unfolding crc_bit
crc_bits zero crc = crc
crc_bits (suc left) crc = crc_bits left (crc_bit crc)

unfoldable pub crc_bytes : ℕ → List ℕ → ℕ
unfolding crc_bits
crc_bytes crc [] = crc
crc_bytes crc (byte ∷ bytes) = crc_bytes (crc_bits 8 (bit_xor crc byte)) bytes

unfoldable pub frame_crc32 : Message → ℕ
frame_crc32 m = complement32 (crc_bytes 0xffffffff (frame_bytes m))
