-- ===== src/Layout/Examples.antt =====
-- The last byte of the control page.
use lzamp.Base.{◌+◌, ◌≡◌, ◌&&◌, leb, ltb, if◌then◌else◌}
use lzamp.Layout.{owners, regions, amp_base_addr, amp_total_size}
use lzamp.Layout.Partition.{owners-regions}

owners-regions_example : owners regions 0x503fffff ≡ (
    if leb amp_base_addr 0x503fffff && ltb 0x503fffff (amp_base_addr + amp_total_size)
    then 1
    else 0)
owners-regions_example = owners-regions 0x503fffff
