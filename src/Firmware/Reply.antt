-- ===== src/Firmware/Reply.antt =====
-- zephyr/app/src/main.c: what CPU3 sends back, its doorbell, and the lines that it publishes. The
-- result of a send is set on every path that a bound endpoint takes; before, it is `no_result`.
use lzamp.Base.{
  ℕ, ◌+◌, ◌*◌, ◌^◌, Bool, true, false, not, ◌||◌, some, List, ◌++◌, ◌==◌, if◌then◌else◌, bit_and,
  bit_or, u32, complement32,
}
use lzamp.Base.Int.{ℤ, ◌==ℤ◌, is_nonzero}
use lzamp.Protocol.{Message, le32_bytes, protocol_version}
use lzamp.Protocol.RingResult
use lzamp.Protocol.MessageType
use lzamp.Protocol.Payload.{payload_u32}
use lzamp.Notify
use lzamp.Notify.{Backend}
use lzamp.Endpoint.Send.{send, no_result}
use lzamp.Endpoint.State.{SendResult}
use lzamp.Firmware.State.{Board, WorkerObservation, Firmware}

abbrev pub mbox_b2a_status : ℕ
mbox_b2a_status = 0x2c

abbrev pub mbox_b2a_cmd : ℕ → ℕ
mbox_b2a_cmd ch = 0x30 + ch * 8

abbrev pub mbox_b2a_dat : ℕ → ℕ
mbox_b2a_dat ch = 0x34 + ch * 8

abbrev pub protocol_ack : ℕ
protocol_ack = 0xb2a10000

abbrev pub worker_magic : ℕ
worker_magic = 0x4d455654

abbrev pub tx_full_magic : ℕ
tx_full_magic = 0x4d46554c

-- `commit = ++counter; if (!commit) commit = ++counter;`
unfoldable pub next_commit : ℕ → ℕ
next_commit c = if u32 (c + 1) == 0 then u32 (u32 (c + 1) + 1) else u32 (c + 1)

unfoldable pub worker_line : ℕ → ℕ → ℕ → {W : Type 0} → Firmware W → WorkerObservation
worker_line commit last_pending last_priority f = record {
  magic = worker_magic;
  commit = commit;
  commit_inv = complement32 commit;
  irq_count = f.counts.irq_count;
  wake_count = f.counts.wake_count;
  drain_count = f.counts.drain_count;
  message_count = f.counts.message_count;
  empty_wake_count = f.counts.empty_wake_count;
  last_pending = last_pending;
  pending_now = f.pending_priorities;
  last_priority = last_priority;
}

-- The payloads of a feedback frame and of SESSION_READY.
abbrev pub feedback : ℕ → ℕ → List ℕ
feedback peer_sequence status = le32_bytes peer_sequence ++ le32_bytes status

abbrev pub announcement : ℕ → List ℕ
announcement generation = le32_bytes generation ++ le32_bytes protocol_version

module _ {W : Type 0} where
  unfoldable pub publish_worker_observation : ℕ → ℕ → Firmware W → Firmware W
  unfolding next_commit worker_line
  publish_worker_observation last_pending last_priority f =
      let commit = next_commit f.counts.worker_commit in
      record f {
        counts = record f.counts { worker_commit = commit };
        lines = record f.lines { worker = worker_line commit last_pending last_priority f };
      }

  unfoldable pub publish_tx_full_observation : ℕ → ℕ → ℤ → Firmware W → Firmware W
  unfolding next_commit
  publish_tx_full_observation priority type result f =
      let commit = next_commit f.counts.tx_full_commit in
      record f {
        counts = record f.counts { tx_full_commit = commit };
        lines = record f.lines {
          tx_full = record {
            magic = tx_full_magic;
            commit = commit;
            commit_inv = complement32 commit;
            full_count = f.counts.tx_full_count;
            last_priority = priority;
            last_type = type;
            last_result = result;
          };
        };
      }

  unfoldable pub reset_tx_full_observation : Firmware W → Firmware W
  unfolding publish_tx_full_observation
  reset_tx_full_observation f =
      publish_tx_full_observation 4 MessageType.nop RingResult.ok
        (record f { counts = record f.counts { tx_full_count = 0; tx_full_commit = 0 } })

  unfoldable pub record_tx_full : ℕ → ℕ → SendResult → Firmware W → Firmware W
  unfolding publish_tx_full_observation
  record_tx_full priority type result f =
      if not (result.queue_result ==ℤ RingResult.full)
      then f
      else publish_tx_full_observation priority type result.queue_result (record f {
        counts = record f.counts { tx_full_count = u32 (f.counts.tx_full_count + 1) };
      })

  -- A send, and the note that is taken of a full ring.
  unfoldable pub send_noted : ℕ → ℕ → List ℕ → ℕ → Firmware W → ℤ × SendResult × Firmware W
  unfolding record_tx_full
  send_noted priority type payload length f =
      let (ret, result, h) = send priority type (some payload) length no_result f.host in
      let sent = record f { host = h } in
      (ret, result, if is_nonzero ret then record_tx_full priority type result sent else sent)

  unfoldable pub send_feedback : ℕ → ℕ → ℕ → ℕ → Firmware W → Bool × Firmware W
  unfolding send_noted
  send_feedback priority type peer_sequence status f =
      let (ret, result, f') = send_noted priority type (feedback peer_sequence status) 8 f in
      (not (is_nonzero ret), f')

  unfoldable pub send_stop_feedback : ℕ → ℕ → ℕ → Firmware W → Bool × Firmware W
  unfolding send_noted
  send_stop_feedback type peer_sequence status f =
      let (ret, result, f') = send_noted 0 type (feedback peer_sequence status) 8 f in
      (if is_nonzero ret then false else Notify.notify_accepted result.notify_result, f')

  unfoldable pub send_pong : ℕ → Message → Firmware W → Bool × Firmware W
  unfolding send_noted payload_u32
  send_pong priority request f =
      let type = if request.type == MessageType.ping then MessageType.pong else MessageType.nop in
      let (ret, result, f') =
        send_noted priority type (le32_bytes (u32 (payload_u32 request.payload 0 + 1))) 4 f in
      (not (is_nonzero ret), f')

  unfoldable pub send_gpio_read_result : ℕ → Message → ℕ → ℕ → Firmware W → Bool × Firmware W
  unfolding send_noted
  send_gpio_read_result priority request line value f =
      let payload = le32_bytes request.sequence ++ (le32_bytes line ++ le32_bytes value) in
      let (ret, result, f') = send_noted priority MessageType.gpio_read_result payload 12 f in
      (not (is_nonzero ret), f')

  unfoldable pub send_peripheral_result : ℕ → List ℕ → Firmware W → Bool × Firmware W
  unfolding send_noted
  send_peripheral_result priority payload f =
      let (ret, result, f') = send_noted priority MessageType.peripheral_result payload 28 f in
      (not (is_nonzero ret), f')

module _ {W : Type 0} (b : Board W) where
  unfoldable pub cpu3_notify : Backend W
  cpu3_notify priority w =
      let (pending, w₁) = b.io.read32 (b.mailbox + mbox_b2a_status) w in
      let w₂ = b.io.write32 (bit_or protocol_ack priority) (b.mailbox + mbox_b2a_cmd priority) w₁ in
      let w₃ = b.io.write32 priority (b.mailbox + mbox_b2a_dat priority) w₂ in
      if not (bit_and pending (2 ^ priority) == 0)
      then (Notify.notify_coalesced, w₁)
      else (Notify.notify_sent, w₃)

  -- The frame is committed already: only its doorbell is rung again.
  unfoldable pub retry_session_ready : Firmware W → Firmware W
  unfolding cpu3_notify
  retry_session_ready f =
      let (rung, w) = cpu3_notify 0 f.host.world in
      record f {
        session_ready_published =
            if Notify.notify_accepted rung then true else f.session_ready_published;
        host = record f.host { world = w };
      }

  unfoldable pub send_session_ready : Firmware W → Firmware W
  unfolding send_noted
  send_session_ready f =
      let payload = announcement f.host.endpoint.generation in
      let (ret, result, f') = send_noted 0 MessageType.session_ready payload 8 f in
      if is_nonzero ret then f' else record f' {
        session_ready_committed = true;
        session_ready_published = Notify.notify_accepted result.notify_result;
      }

  unfoldable pub service_session_ready : Firmware W → Firmware W
  unfolding retry_session_ready send_session_ready
  service_session_ready f =
      if not f.mailmsg_endpoint_ready || f.session_ready_published
      then f
      else if f.session_ready_committed
      then retry_session_ready f
      else send_session_ready f
