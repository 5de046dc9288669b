-- ===== src/Endpoint/Receive.antt =====
-- `mailmsg_endpoint_receive` and `mailmsg_endpoint_has_received`.
use lzamp.Base.{ℕ, ◌+◌, not, ◌&&◌, Option, none, some, leb, ◌==◌, if◌then◌else◌, u32}
use lzamp.Base.Int.{ℤ, ◌==ℤ◌, is_nonzero}
use lzamp.Protocol.{Message, priority_count}
use lzamp.Protocol.RingResult
use lzamp.Ring
use lzamp.Endpoint.{session_valid, update_stats}
use lzamp.Endpoint.Result
use lzamp.Endpoint.State.{Shared, Direction, MemoryOps, ring_of, set_ring, PriorityStats, Host}

-- The result of a pop, after the check of the frame's generation.
unfoldable pub judge : ℤ → ℕ → ℕ → ℤ
judge popped frame_generation generation =
    if not (is_nonzero popped) && not (frame_generation == generation)
    then Result.stale_frame
    else popped

unfoldable pub count_received : ℤ → PriorityStats → PriorityStats
count_received ret s =
    if not (is_nonzero ret)
    then record s { rx_ok = u32 (s.rx_ok + 1) }
    else if ret ==ℤ Result.stale_frame
    then record s { rx_stale = u32 (s.rx_stale + 1) }
    else if ret ==ℤ RingResult.incomplete
    then record s { rx_incomplete = u32 (s.rx_incomplete + 1) }
    else if ret ==ℤ RingResult.bad_crc
    then record s { rx_bad_crc = u32 (s.rx_bad_crc + 1) }
    else if ret ==ℤ RingResult.invalid
    then record s { rx_invalid = u32 (s.rx_invalid + 1) }
    else s

module _ {W : Type 0} where
  unfoldable pub dequeue : Direction → MemoryOps W → ℕ → Message → Host W → ℤ × Message × Host W
  unfolding judge count_received
  dequeue d ops priority out h =
      let (popped, message, ring, w) =
        Ring.pop (ops.rings d priority) out (ring_of d priority h.memory) h.world in
      let ret = judge popped message.generation h.endpoint.generation in
      (
        ret,
        message,
        record {
          endpoint = update_stats priority (count_received ret) h.endpoint;
          memory = set_ring d priority ring h.memory;
          world = w;
        },
      )

  unfoldable pub receive_via :
      Option Direction → Option (MemoryOps W) → ℕ → Message → Host W → ℤ × Message × Host W
  unfolding dequeue
  receive_via none ops priority out h = (Result.invalid, out, h)
  receive_via (some d) none priority out h = (Result.invalid, out, h)
  receive_via (some d) (some ops) priority out h =
      let (session, memory) = session_valid h.endpoint h.memory h.world in
      let open_host = record h { memory = memory } in
      if leb priority_count priority
      then (Result.invalid, out, h)
      else if is_nonzero session
      then (session, out, open_host)
      else dequeue d ops priority out open_host

  -- `out` is what `*message` held before the call.
  unfoldable pub receive : ℕ → Message → Host W → ℤ × Message × Host W
  unfolding receive_via
  receive priority out h = receive_via h.endpoint.rx h.endpoint.memory_ops priority out h

  unfoldable pub has_received_via :
      Option Direction → Option (MemoryOps W) → ℕ → Host W → ℤ × Shared
  has_received_via none ops priority h = (RingResult.invalid, h.memory)
  has_received_via (some d) none priority h = (RingResult.invalid, h.memory)
  has_received_via (some d) (some ops) priority h =
      let (session, memory) = session_valid h.endpoint h.memory h.world in
      let (answer, ring) =
        Ring.has_data (some (ops.rings d priority)) (ring_of d priority memory) h.world in
      if leb priority_count priority
      then (RingResult.invalid, h.memory)
      else if is_nonzero session
      then (RingResult.invalid, memory)
      else (answer, set_ring d priority ring memory)

  unfoldable pub has_received : ℕ → Host W → ℤ × Shared
  unfolding has_received_via
  has_received priority h = has_received_via h.endpoint.rx h.endpoint.memory_ops priority h
