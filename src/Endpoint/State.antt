-- ===== src/Endpoint/State.antt =====
-- The shared memory (mailmsg/mailmsg.h) and the state of an endpoint (mailmsg/mailmsg_endpoint.h).
-- The memory hooks act on the session header or on a field of the ring that a direction and a
-- priority name. A null table or hook is `none`; `shared` tells whether the pointer is set.
use lzamp.Base.{ℕ, Bool, Option, List, get_or, set, replicate}
use lzamp.Base.Int.{ℤ}
use lzamp.Protocol.{zero_message}
use lzamp.Ring.{Ring, RingOps}
use lzamp.Notify.{Backend}

pub record Header : Type 0 where
  pub magic : ℕ
  pub version : ℕ
  pub generation : ℕ

pub record Shared : Type 0 where
  pub header : Header
  pub linux_to_cpu3 : List Ring
  pub cpu3_to_linux : List Ring

pub data Direction : Type 0 where
  linux_to_cpu3 cpu3_to_linux : Direction

pub record MemoryOps (W : Type 0) : Type 0 where
  pub acquire_header : Header → W → Header
  pub rings : Direction → ℕ → RingOps W

abbrev pub zero_ring : Ring
zero_ring = record { producer = 0; consumer = 0; slots = replicate 8 zero_message }

abbrev pub lane : Direction → Shared → List Ring
lane Direction.linux_to_cpu3 s = s.linux_to_cpu3
lane Direction.cpu3_to_linux s = s.cpu3_to_linux

-- `&tx[priority]`, read and written.
abbrev pub ring_of : Direction → ℕ → Shared → Ring
ring_of d priority s = get_or (lane d s) priority zero_ring

abbrev pub set_ring : Direction → ℕ → Ring → Shared → Shared
set_ring Direction.linux_to_cpu3 priority r s = record s {
  linux_to_cpu3 = set s.linux_to_cpu3 priority r;
}
set_ring Direction.cpu3_to_linux priority r s = record s {
  cpu3_to_linux = set s.cpu3_to_linux priority r;
}

pub record PriorityStats : Type 0 where
  pub tx_enqueued : ℕ
  pub tx_full : ℕ
  pub tx_high_water : ℕ
  pub notify_sent : ℕ
  pub notify_coalesced : ℕ
  pub notify_failed : ℕ
  pub rx_ok : ℕ
  pub rx_incomplete : ℕ
  pub rx_bad_crc : ℕ
  pub rx_invalid : ℕ
  pub rx_stale : ℕ

abbrev pub zero_stats : PriorityStats
zero_stats = record {
  tx_enqueued = 0;
  tx_full = 0;
  tx_high_water = 0;
  notify_sent = 0;
  notify_coalesced = 0;
  notify_failed = 0;
  rx_ok = 0;
  rx_incomplete = 0;
  rx_bad_crc = 0;
  rx_invalid = 0;
  rx_stale = 0;
}

pub record SendResult : Type 0 where
  pub queue_result : ℤ
  pub notify_result : ℤ
  pub notify_attempted : ℤ
  pub sequence : ℕ

pub record Endpoint (W : Type 0) : Type 0 where
  pub shared : Bool
  pub tx : Option Direction
  pub rx : Option Direction
  pub memory_ops : Option (MemoryOps W)
  pub notify : Option (Backend W)
  pub next_sequence : ℕ
  pub generation : ℕ
  pub stats : List PriorityStats

-- One CPU: its endpoint, the shared memory as it sees it, and the rest of the world.
pub record Host (W : Type 0) : Type 0 where
  pub endpoint : Endpoint W
  pub memory : Shared
  pub world : W
