-- ===== src/Ring/Corruption.antt =====
-- What the CRC keeps from the reader of a frame.
use lzamp.Base.{
  ℕ, zero, suc, ◌^◌, ◌<◌, ◌≡◌, ◌≢◌, sym, ap, ◌∙◌, some, List, [], ◌∷◌, ◌++◌, arith, length, set,
  get_elem?, complement32,
}
use lzamp.Protocol.{Message, frame_crc32, frame_bytes, crc_bytes, le32_bytes}
use lzamp.Protocol.RingResult
use lzamp.Protocol.Crc.{IsBytes, IsBytes-append, crc_bytes-lt, crc_bytes-set}
use lzamp.Ring.{Ring, RingOps, Field, slot_at, classify, pop}

le32_bytes-IsBytes : (v : ℕ) → IsBytes (le32_bytes v)
unfolding le32_bytes
le32_bytes-IsBytes v = omega arith

frame_bytes-IsBytes : (m : Message) → IsBytes m.payload → IsBytes (frame_bytes m)
unfolding frame_bytes
frame_bytes-IsBytes m h =
    let from_length = le32_bytes m.length ++ m.payload in
    let from_sequence = le32_bytes m.sequence ++ from_length in
    let from_type = le32_bytes m.type ++ from_sequence in
    let word = le32_bytes-IsBytes in
    IsBytes-append (le32_bytes m.generation) from_type (word m.generation) (
      IsBytes-append (le32_bytes m.type) from_sequence (word m.type) (
        IsBytes-append (le32_bytes m.sequence) from_length (word m.sequence)
          (IsBytes-append (le32_bytes m.length) m.payload (word m.length) h)))

complement32_injective :
    (c d : ℕ) → c < 2 ^ 32 → d < 2 ^ 32 → complement32 c ≡ complement32 d → c ≡ d
complement32_injective c d hc hd e = omega arith

IsBytes-set : (bs : List ℕ) (i v : ℕ) → IsBytes bs → v < 256 → IsBytes (set bs i v)
IsBytes-set [] i v h hv = tt
IsBytes-set (b ∷ bs) zero v h hv = (hv, h.1)
IsBytes-set (b ∷ bs) (suc i) v h hv = (h.0, IsBytes-set bs i v h.1 hv)

classify-ok-crc : (m : Message) → classify m ≡ RingResult.ok → m.crc32 ≡ frame_crc32 m
unfolding classify
classify-ok-crc m h = ground arith

pop-ok-classify :
    {W : Type 0} (ops : RingOps W) (out : Message) (r : Ring) (w : W)
    → (pop ops out r w).0 ≡ RingResult.ok
    → classify (
        slot_at
          (ops.acquire (Field.frame r.consumer) (ops.acquire Field.producer_index r w) w)
          r.consumer)
      ≡ RingResult.ok
unfolding pop
pop-ok-classify ops out r w h = ground (arith, h)

-- A CRC word that was made for `m` does not pass with a frame that differs from `m` in one byte.
changed_byte_refused :
    (m f : Message) (i v : ℕ)
    → IsBytes m.payload
    → i < length (frame_bytes m)
    → v < 256
    → get_elem? (frame_bytes m) i ≢ some v
    → frame_bytes f ≡ set (frame_bytes m) i v
    → f.crc32 ≡ frame_crc32 m
    → classify f ≢ RingResult.ok
unfolding frame_crc32
changed_byte_refused m f i v hm hi hv changed other kept ok =
    let bs = frame_bytes m in
    let hb = frame_bytes-IsBytes m hm in
    let same : complement32 (crc_bytes 0xffffffff (set bs i v))
        ≡ complement32 (crc_bytes 0xffffffff bs) =
      ap (λ l. complement32 (crc_bytes 0xffffffff l)) (sym other)
      ∙ sym (classify-ok-crc f ok)
      ∙ kept in
    changed (
      crc_bytes-set 0xffffffff bs i v (omega arith) hb hv hi (
        complement32_injective _ _
          (crc_bytes-lt 0xffffffff (set bs i v) (omega arith) (IsBytes-set bs i v hb hv))
          (crc_bytes-lt 0xffffffff bs (omega arith) hb) same))

-- If the slot that a pop reads holds a frame whose CRC word was made for a frame `m`, and exactly
-- one byte of its header or payload differs from that of `m`, then `mailmsg_ring_pop` does not
-- return OK.
pub pop-changed_byte :
    {W : Type 0} (ops : RingOps W) (out : Message) (r : Ring) (w : W) (m f : Message) (i v : ℕ)
    → slot_at
        (ops.acquire (Field.frame r.consumer) (ops.acquire Field.producer_index r w) w)
        r.consumer
      ≡ f
    → IsBytes m.payload
    → i < length (frame_bytes m)
    → v < 256
    → get_elem? (frame_bytes m) i ≢ some v
    → frame_bytes f ≡ set (frame_bytes m) i v
    → f.crc32 ≡ frame_crc32 m
    → (pop ops out r w).0 ≢ RingResult.ok
pop-changed_byte ops out r w m f i v slot hm hi hv changed other kept ok =
    changed_byte_refused m f i v hm hi hv changed other kept
      (ap classify (sym slot) ∙ pop-ok-classify ops out r w ok)
