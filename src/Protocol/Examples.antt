-- ===== src/Protocol/Examples.antt =====
-- Runs and instances for the frame and its CRC.
use lzamp.Base.{◌≡◌, refl, [], ◌∷◌}
use lzamp.Base.{complement32}
use lzamp.Protocol.{crc_bytes}

-- The check value of CRC-32/ISO-HDLC: the CRC of "123456789".
crc_check_value :
    complement32
      (crc_bytes 0xffffffff (b'1' ∷ b'2' ∷ b'3' ∷ b'4' ∷ b'5' ∷ b'6' ∷ b'7' ∷ b'8' ∷ b'9' ∷ []))
    ≡ 0xcbf43926
unfolding crc_bytes
crc_check_value = refl
