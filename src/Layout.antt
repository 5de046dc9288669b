-- ===== src/Layout.antt =====
-- mailmsg/mailmsg_memory_layout.h: the regions of the memory that CPU3 and Linux share out. The
-- region of Zephyr is given by its linkable part; the control page is the rest of it.
pub mod Partition
mod Examples
use lzamp.Base.{ℕ, ◌+◌, Bool, ◌&&◌, leb, ltb, List, [], ◌∷◌, if◌then◌else◌}

pub record Region : Type 0 where
  pub base : ℕ
  pub size : ℕ

abbrev pub amp_base_addr : ℕ
amp_base_addr = 0x50000000

abbrev pub amp_total_size : ℕ
amp_total_size = 0x02000000

abbrev pub zephyr_region : Region
zephyr_region = record { base = 0x50000000; size = 0x00400000 }

abbrev pub zephyr_linkable : Region
zephyr_linkable = record { base = 0x50000000; size = 0x003ff000 }

abbrev pub mailmsg_control : Region
mailmsg_control = record { base = 0x503ff000; size = 0x00001000 }

abbrev pub data_p0 : Region
data_p0 = record { base = 0x50400000; size = 0x00100000 }

abbrev pub data_p1 : Region
data_p1 = record { base = 0x50500000; size = 0x00100000 }

abbrev pub data_p2 : Region
data_p2 = record { base = 0x50600000; size = 0x00400000 }

abbrev pub data_p3 : Region
data_p3 = record { base = 0x50a00000; size = 0x01000000 }

abbrev pub data_future : Region
data_future = record { base = 0x51a00000; size = 0x00600000 }

abbrev pub contains : Region → ℕ → Bool
contains r address = leb r.base address && ltb address (r.base + r.size)

abbrev pub regions : List Region
regions =
    zephyr_linkable ∷ mailmsg_control ∷ data_p0 ∷ data_p1 ∷ data_p2 ∷ data_p3 ∷ data_future ∷ []

-- How many regions of a list an address lies in.
abbrev pub owners : List Region → ℕ → ℕ
owners [] address = 0
owners (r ∷ rest) address = (if contains r address then 1 else 0) + owners rest address
