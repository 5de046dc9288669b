-- ===== src/Protocol/Payload.antt =====
-- The words inside a payload, as both sides read and write them:
-- scripts/linux-support/drivers/lzamp_amp_mailmsg.c and zephyr/app/src/main.c.
use lzamp.Base.{ℕ, ◌+◌, List, bit_or, shl32, get_or}

-- `payload[offset .. offset + 3]`, little end first.
unfoldable pub payload_u32 : List ℕ → ℕ → ℕ
payload_u32 p offset =
    bit_or
      (bit_or (bit_or (get_or p offset 0) (shl32 (get_or p (offset + 1) 0) 8))
        (shl32 (get_or p (offset + 2) 0) 16))
      (shl32 (get_or p (offset + 3) 0) 24)
