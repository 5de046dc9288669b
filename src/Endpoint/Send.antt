-- ===== src/Endpoint/Send.antt =====
-- `mailmsg_endpoint_send`.
use lzamp.Base.{
  ℕ, zero, suc, ◌+◌, Bool, true, false, not, ◌&&◌, ◌||◌, Option, none, some, List, [], ◌∷◌, ltb,
  leb, ◌==◌, if◌then◌else◌, u32,
}
use lzamp.Base.Int.{ℤ, pos, negsuc, ◌==ℤ◌, is_nonzero}
use lzamp.Protocol.{Message, zero_message, priority_count, payload_bytes}
use lzamp.Protocol.RingResult
use lzamp.Ring
use lzamp.Notify
use lzamp.Endpoint.{next_sequence, session_valid, update_stats}
use lzamp.Endpoint.Result
use lzamp.Endpoint.State.{Direction, MemoryOps, ring_of, set_ring, PriorityStats, SendResult, Host}

-- `for (index = 0; index < length; index++) message.payload[index] = payload[index];`
-- The caller's buffer holds at least `length` bytes.
unfoldable pub copy_bytes : ℕ → List ℕ → List ℕ → List ℕ
copy_bytes zero src dst = dst
copy_bytes (suc n) [] dst = dst
copy_bytes (suc n) (b ∷ src) [] = []
copy_bytes (suc n) (b ∷ src) (c ∷ dst) = b ∷ copy_bytes n src dst

abbrev pub payload_of : Option (List ℕ) → List ℕ
payload_of none = []
payload_of (some bytes) = bytes

abbrev pub is_null : Option (List ℕ) → Bool
is_null none = true
is_null (some bytes) = false

unfoldable pub is_bad_request : ℕ → Option (List ℕ) → ℕ → Bool
is_bad_request priority payload length =
    leb priority_count priority
    || (ltb payload_bytes length || (not (length == 0) && is_null payload))

-- What `*result` holds before the session check.
abbrev pub no_result : SendResult
no_result = record {
  queue_result = RingResult.invalid;
  notify_result = negsuc 0;
  notify_attempted = pos 0;
  sequence = 0;
}

unfoldable pub build_message : ℕ → ℕ → ℕ → Option (List ℕ) → ℕ → Message
unfolding copy_bytes
build_message generation type sequence payload length = record zero_message {
  generation = generation;
  type = type;
  sequence = sequence;
  length = length;
  payload = copy_bytes length (payload_of payload) zero_message.payload;
}

-- `if (depth > 0 && (mailmsg_u32)depth > stats->tx_high_water) ...`
abbrev pub raise_high_water : ℤ → ℕ → ℕ
raise_high_water (pos depth) high = if ltb 0 depth && ltb high depth then depth else high
raise_high_water (negsuc n) high = high

unfoldable pub count_notify : ℤ → PriorityStats → PriorityStats
count_notify result s =
    if result ==ℤ Notify.notify_sent
    then record s { notify_sent = u32 (s.notify_sent + 1) }
    else if result ==ℤ Notify.notify_coalesced
    then record s { notify_coalesced = u32 (s.notify_coalesced + 1) }
    else record s { notify_failed = u32 (s.notify_failed + 1) }

unfoldable pub count_enqueued : ℤ → PriorityStats → PriorityStats
count_enqueued depth s = record s {
  tx_enqueued = u32 (s.tx_enqueued + 1);
  tx_high_water = raise_high_water depth s.tx_high_water;
}

unfoldable pub count_refused : ℤ → PriorityStats → PriorityStats
count_refused queue_result s =
    if queue_result ==ℤ RingResult.full then record s { tx_full = u32 (s.tx_full + 1) } else s

module _ {W : Type 0} where
  -- After a push that succeeded: the depth is measured, then the doorbell is rung.
  unfoldable pub announce : Direction → MemoryOps W → ℕ → ℕ → Host W → ℤ × SendResult × Host W
  unfolding count_notify count_enqueued
  announce d ops priority sequence h =
      let (depth, ring) =
        Ring.count (some (ops.rings d priority)) (ring_of d priority h.memory) h.world in
      let enqueued = update_stats priority (count_enqueued depth) h.endpoint in
      let (rung, w) = Notify.notify h.endpoint.notify priority h.world in
      (
        Result.ok,
        record {
          queue_result = RingResult.ok;
          notify_result = rung;
          notify_attempted = pos 1;
          sequence = sequence;
        },
        record {
          endpoint = update_stats priority (count_notify rung) enqueued;
          memory = set_ring d priority ring h.memory;
          world = w;
        },
      )

  -- The session is valid: a sequence is drawn, and the frame is pushed.
  unfoldable pub push_message :
      Direction → MemoryOps W → ℕ → ℕ → Option (List ℕ) → ℕ → Host W → ℤ × Host W
  unfolding build_message next_sequence
  push_message d ops priority type payload length h =
      let sequence = next_sequence h.endpoint.next_sequence in
      let message = build_message h.endpoint.generation type sequence payload length in
      let (queue_result, ring, w) =
        Ring.push (ops.rings d priority) message (ring_of d priority h.memory) h.world in
      (
        queue_result,
        record {
          endpoint = record h.endpoint { next_sequence = sequence };
          memory = set_ring d priority ring h.memory;
          world = w;
        },
      )

  unfoldable pub refuse : ℕ → ℤ → Host W → ℤ × SendResult × Host W
  unfolding count_refused
  refuse priority queue_result h = (
    queue_result,
    record no_result { queue_result = queue_result },
    record h { endpoint = update_stats priority (count_refused queue_result) h.endpoint },
  )

  unfoldable pub enqueue :
      Direction → MemoryOps W → ℕ → ℕ → Option (List ℕ) → ℕ → Host W → ℤ × SendResult × Host W
  unfolding announce refuse push_message
  enqueue d ops priority type payload length h =
      let (queue_result, h') = push_message d ops priority type payload length h in
      if is_nonzero queue_result
      then refuse priority queue_result h'
      else announce d ops priority h'.endpoint.next_sequence h'

  unfoldable pub send_via :
      Option Direction
      → Option (MemoryOps W)
      → ℕ
      → ℕ
      → Option (List ℕ)
      → ℕ
      → SendResult
      → Host W
      → ℤ × SendResult × Host W
  unfolding enqueue is_bad_request
  send_via none ops priority type payload length result h = (Result.invalid, result, h)
  send_via (some d) none priority type payload length result h = (Result.invalid, result, h)
  send_via (some d) (some ops) priority type payload length result h =
      let (session, memory) = session_valid h.endpoint h.memory h.world in
      let open_host = record h { memory = memory } in
      if is_bad_request priority payload length
      then (Result.invalid, result, h)
      else if is_nonzero session
      then (session, no_result, open_host)
      else enqueue d ops priority type payload length open_host

  -- `result` is what `*result` held before the call.
  unfoldable pub send : ℕ → ℕ → Option (List ℕ) → ℕ → SendResult → Host W → ℤ × SendResult × Host W
  unfolding send_via
  send priority type payload length result h =
      send_via h.endpoint.tx h.endpoint.memory_ops priority type payload length result h
