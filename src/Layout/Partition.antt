-- ===== src/Layout/Partition.antt =====
-- The regions share out the carveout.
use lzamp.Base.{ℕ, ◌+◌, ◌≡◌, ◌&&◌, leb, ltb, if◌then◌else◌, arith}
use lzamp.Layout.{owners, regions, amp_base_addr, amp_total_size}

-- An address of the 32 MiB carveout lies in exactly one region, the linkable part of Zephyr, the
-- control page, or one of the data regions; any other address lies in none.
pub owners-regions :
    (address : ℕ)
    → owners regions address
      ≡ (if leb amp_base_addr address && ltb address (amp_base_addr + amp_total_size) then 1 else 0)
owners-regions address = ground arith
