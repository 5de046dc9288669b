-- ===== src/Endpoint.antt =====
-- mailmsg/mailmsg_endpoint.c: sessions, sending and receiving over the rings of one endpoint.
-- This file has the session and the binding, `Send` and `Receive` the transfer of frames. The
-- arguments `endpoint`, `shared`, `result` and `message` are never null; a null `payload` is `none`.
pub mod Result
pub mod State
pub mod Send
pub mod Receive
pub mod Enqueue
pub mod Session
pub mod Sequence
pub mod Rejection
pub mod Outgoing
pub mod Incoming
pub mod RoundTrip
pub mod Progress
pub mod Counters
mod Examples
use lzamp.Base.{
  ℕ, ◌+◌, Bool, true, false, not, ◌&&◌, ◌||◌, Option, none, some, List, [], ◌∷◌, zero, suc, ltb,
  leb, ◌==◌, if◌then◌else◌, u32, get_or, set, replicate,
}
use lzamp.Base.Int.{ℤ, pos, negsuc, ◌==ℤ◌, is_nonzero}
use lzamp.Protocol.{
  Message, zero_message, priority_count, payload_bytes, protocol_magic, protocol_version,
}
use lzamp.Protocol.RingResult
use lzamp.Ring
use lzamp.Ring.{Ring}
use lzamp.Notify
use lzamp.Notify.{Backend}
use State.{
  Header, Shared, Direction, MemoryOps, ring_of, set_ring, PriorityStats, zero_stats, SendResult,
  Endpoint, Host,
}

unfoldable pub next_sequence : ℕ → ℕ
next_sequence s = let n = u32 (s + 1) in if n == 0 then u32 (n + 1) else n

unfoldable pub is_other_protocol : Header → Bool
is_other_protocol h = not (h.magic == protocol_magic) || not (h.version == protocol_version)

unfoldable pub check_session : ℕ → Shared → ℤ × Shared
check_session generation s =
    if is_other_protocol s.header
    then (Result.protocol_mismatch, s)
    else if s.header.generation == generation
    then (Result.ok, s)
    else (Result.stale_session, s)

module _ {W : Type 0} where
  unfoldable pub session_with : Option (MemoryOps W) → Endpoint W → Shared → W → ℤ × Shared
  session_with none e s w = (Result.invalid, s)
  session_with (some ops) e s w =
      if not e.shared || e.generation == 0
      then (Result.invalid, s)
      else check_session e.generation (record s { header = ops.acquire_header s.header w })

  unfoldable pub session_valid : Endpoint W → Shared → W → ℤ × Shared
  unfolding session_with check_session is_other_protocol
  session_valid e s w = session_with e.memory_ops e s w

  -- The endpoint that a bind to this session leaves behind.
  unfoldable pub bound_endpoint : ℕ → MemoryOps W → Backend W → ℕ → Endpoint W
  bound_endpoint generation ops backend role = record {
    shared = true;
    tx = some (if role == 0 then Direction.linux_to_cpu3 else Direction.cpu3_to_linux);
    rx = some (if role == 0 then Direction.cpu3_to_linux else Direction.linux_to_cpu3);
    memory_ops = some ops;
    notify = some backend;
    next_sequence = 0;
    generation = generation;
    stats = replicate 4 zero_stats;
  }

  unfoldable pub bind_to :
      MemoryOps W → Backend W → ℕ → Endpoint W → Shared → ℤ × Endpoint W × Shared
  unfolding is_other_protocol bound_endpoint
  bind_to ops backend role e s =
      if is_other_protocol s.header
      then (Result.protocol_mismatch, e, s)
      else if s.header.generation == 0
      then (Result.stale_session, e, s)
      else (Result.ok, bound_endpoint s.header.generation ops backend role, s)

  -- `role` is the number of the enumeration: 0 for Linux, 1 for CPU3.
  unfoldable pub bind :
      Endpoint W
      → Shared
      → Option (MemoryOps W)
      → Option (Backend W)
      → ℕ
      → W
      → ℤ × Endpoint W × Shared
  unfolding bind_to
  bind e s none backend role w = (Result.invalid, e, s)
  bind e s (some ops) none role w = (Result.invalid, e, s)
  bind e s (some ops) (some backend) role w =
      if ltb 1 role
      then (Result.invalid, e, s)
      else bind_to ops backend role e (record s { header = ops.acquire_header s.header w })

  abbrev pub stats_of : ℕ → Endpoint W → PriorityStats
  stats_of priority e = get_or e.stats priority zero_stats

  abbrev pub update_stats : ℕ → (PriorityStats → PriorityStats) → Endpoint W → Endpoint W
  update_stats priority f e = record e {
    stats = set e.stats priority (f (get_or e.stats priority zero_stats));
  }
