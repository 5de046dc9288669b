-- ===== src/Firmware/Serve.antt =====
-- zephyr/app/src/main.c: `mailmsg_pingpong_test_service`, what CPU3 does with each frame.
use lzamp.Base.{
  ℕ, zero, suc, ◌+◌, ◌-◌, ◌^◌, Bool, true, not, ◌&&◌, ◌||◌, Option, none, some, List, [], ◌==◌,
  if◌then◌else◌, bit_and, bit_or, u32,
}
use lzamp.Base.Int.{ℤ, pos, negsuc, ◌==ℤ◌, is_nonzero}
use lzamp.Protocol.{Message, zero_message, priority_is_reliable}
use lzamp.Protocol.RingResult
use lzamp.Protocol.MessageType
use lzamp.Protocol.Payload.{payload_u32}
use lzamp.Gpio.{gpio_get, gpio3_ok}
use lzamp.Service.{execute}
use lzamp.Endpoint.Receive.{receive, has_received}
use lzamp.Firmware.State.{Board, Firmware}
use lzamp.Firmware.Reply.{
  send_feedback, send_stop_feedback, send_pong, send_gpio_read_result, send_peripheral_result,
}

-- `MAILMSG_RING_SLOTS - 1`
abbrev pub drain_quota : ℕ
drain_quota = 7

abbrev pub nack_bad_crc : ℕ
nack_bad_crc = 1

abbrev pub nack_invalid_frame : ℕ
nack_invalid_frame = 2

abbrev pub stop_refused_invalid_request : ℕ
stop_refused_invalid_request = 1

abbrev pub stop_refused_busy : ℕ
stop_refused_busy = 2

abbrev pub mbox_a2b_status : ℕ
mbox_a2b_status = 0x04

-- The locals of the service that its caller sees.
pub record Tally : Type 0 where
  pub messages : ℕ
  pub last_priority : ℕ
  pub reschedule : ℕ

abbrev pub is_rejected : ℤ → Bool
is_rejected ret = ret ==ℤ RingResult.bad_crc || ret ==ℤ RingResult.invalid

abbrev pub bytes_of : Option (List ℕ) → List ℕ
bytes_of none = []
bytes_of (some bytes) = bytes

abbrev pub level_or_zero : Option ℕ → ℕ
level_or_zero none = 0
level_or_zero (some level) = level

module _ {W : Type 0} where
  unfoldable pub observe : ℕ → ℕ → ℕ → ℕ → Firmware W → Firmware W
  observe magic status command value f = record f {
    lines = record f.lines {
      mailbox = record { magic = magic; a2b_status = status; command = command; value = value };
    };
  }

  unfoldable pub nack : ℕ → ℕ → ℕ → Firmware W → Firmware W
  nack priority sequence reason f =
      if priority_is_reliable priority
      then (send_feedback priority MessageType.nack sequence reason f).1
      else f

  -- A frame with a bad checksum or a bad header: counted, answered on a reliable priority.
  unfoldable pub reject_frame : ℕ → ℤ → Message → Firmware W → Firmware W
  unfolding nack observe
  reject_frame priority ret request f =
      let bad_crc = ret ==ℤ RingResult.bad_crc in
      let reason = if bad_crc then nack_bad_crc else nack_invalid_frame in
      let answered = nack priority request.sequence reason f in
      let errors = u32 (answered.counts.rx_error_count + 1) in
      observe (if bad_crc then 0x43524345 else 0x494e564c) priority reason errors
        (record answered { counts = record answered.counts { rx_error_count = errors } })

  -- The acknowledgement first; the result only where that was queued.
  unfoldable pub serve_peripheral : ℕ → Message → Firmware W → Firmware W
  unfolding nack
  serve_peripheral priority request f =
      let (ret, answer, s, w) = execute f.peripheral_service request f.host.world in
      let served = record f { peripheral_service = s; host = record f.host { world = w } } in
      if not (priority == 1) || not f.peripherals_ready
      then nack priority request.sequence nack_invalid_frame f
      else if is_nonzero ret
      then nack priority request.sequence nack_invalid_frame served
      else let (acked, f₁) = send_feedback priority MessageType.ack request.sequence 0 served in
        if acked then (send_peripheral_result priority (bytes_of answer) f₁).1 else f₁

  unfoldable pub serve_gpio_read : ℕ → Message → Firmware W → Firmware W
  unfolding nack
  serve_gpio_read priority request f =
      let line = payload_u32 request.payload 0 in
      let (ret, level, w) = gpio_get f.peripheral_service.gpio line f.host.world in
      let read = record f { host = record f.host { world = w } } in
      let refused =
        not (priority == 1)
        || (not f.peripherals_ready
            || (f.peripheral_service.spi_profile || not (request.length == 4))) in
      if refused
      then nack priority request.sequence nack_invalid_frame f
      else if not (ret ==ℤ gpio3_ok)
      then (send_feedback priority MessageType.nack request.sequence nack_invalid_frame read).1
      else let (acked, f₁) = send_feedback priority MessageType.ack request.sequence 0 read in
        if acked
        then (send_gpio_read_result priority request line (level_or_zero level) f₁).1
        else f₁

  unfoldable pub serve_ping : ℕ → Message → Firmware W → Firmware W
  serve_ping priority request f =
      let acked =
        if priority_is_reliable priority
        then (send_feedback priority MessageType.ack request.sequence 0 f).1
        else f in
      (send_pong priority request acked).1

  -- After the quota, what still waits is left for another wake-up.
  unfoldable pub look_again : ℕ → ℕ → ℕ → Firmware W → ℕ × Firmware W
  look_again handled priority reschedule f =
      let (answer, memory) = has_received priority f.host in
      if handled == drain_quota && not f.is_off
      then (
        if answer ==ℤ pos 1 then bit_or reschedule (2 ^ priority) else reschedule,
        record f { host = record f.host { memory = memory } },
      )
      else (reschedule, f)

  unfoldable pub finish_priority : ℕ → Tally → ℕ × Firmware W → Tally × Firmware W
  unfolding look_again
  finish_priority priority t (handled, drained) =
      let (reschedule, f') = look_again handled priority t.reschedule drained in
      (
        record {
          messages = u32 (t.messages + handled);
          last_priority = priority;
          reschedule = reschedule;
        },
        f',
      )

-- The last mark: STOPPING, or STOP_FAILED with the low half of the negated error.
abbrev pub stop_mark : Option ℤ → ℕ
stop_mark none = 0x53544f50
stop_mark (some (pos n)) = bit_or 0x53544641 (bit_and (u32 (2 ^ 32 - u32 n)) 0xffff)
stop_mark (some (negsuc n)) = bit_or 0x53544641 (bit_and (u32 (n + 1)) 0xffff)

module _ {W : Type 0} (b : Board W) where
  -- The interrupts are masked and every pending doorbell is acknowledged; CPU_OFF does not return,
  -- and where it fails CPU3 leaves another mark and waits for ever. Both are `is_off`.
  unfoldable pub cpu_off_after_ready : Firmware W → Firmware W
  cpu_off_after_ready f =
      let (status, w) = b.io.read32 (b.mailbox + mbox_a2b_status) f.host.world in
      let pending = bit_and status 0xf in
      let cleared =
        if pending == 0 then w else b.io.write32 pending (b.mailbox + mbox_a2b_status) w in
      let (again, off) = b.io.read32 (b.mailbox + mbox_a2b_status) cleared in
      record f {
        is_off = true;
        lines = record f.lines { mark = stop_mark (b.arch_cpu_off off) };
        host = record f.host { world = off };
      }

  unfoldable pub serve_stop : Message → Firmware W → Firmware W
  unfolding cpu_off_after_ready
  serve_stop request f =
      let (ready, told) = send_stop_feedback MessageType.stop_ready request.sequence 0 f in
      if not (request.length == 0)
      then (send_stop_feedback MessageType.stop_refused request.sequence
          stop_refused_invalid_request f).1
      else if not b.stop_control
      then (send_stop_feedback MessageType.stop_refused request.sequence stop_refused_busy f).1
      else if ready
      then cpu_off_after_ready told
      else told

  unfoldable pub serve_frame : ℕ → Message → Firmware W → Firmware W
  unfolding serve_stop serve_peripheral serve_gpio_read serve_ping
  serve_frame priority request f =
      if priority == 0 && (request.type == MessageType.stop_request)
      then serve_stop request f
      else if request.type == MessageType.peripheral_request
      then serve_peripheral priority request f
      else if request.type == MessageType.gpio_read_request
      then serve_gpio_read priority request f
      else serve_ping priority request f

  -- The rounds that are left of the quota: how many frames they handle. A round with no frame ends
  -- the loop, and so does a rejected one; CPU_OFF ends everything.
  unfoldable pub serve_ring : ℕ → ℕ → Firmware W → ℕ × Firmware W
  unfolding reject_frame serve_frame
  serve_ring zero priority f = (0, f)
  serve_ring (suc left) priority f =
      let (ret, request, h) = receive priority zero_message f.host in
      let got = record f { host = h } in
      let served = serve_frame priority request got in
      let (more, f') = serve_ring left priority served in
      if is_rejected ret
      then (1, reject_frame priority ret request got)
      else if is_nonzero ret
      then (0, got)
      else if served.is_off
      then (1, served)
      else (suc more, f')

  unfoldable pub serve_priority : ℕ → ℕ → Tally → Firmware W → Tally × Firmware W
  unfolding serve_ring finish_priority
  serve_priority pending priority t f =
      if bit_and pending (2 ^ priority) == 0 || f.is_off
      then (t, f)
      else finish_priority priority t (serve_ring drain_quota priority f)

  unfoldable pub pingpong_test_service : ℕ → Tally → Firmware W → Tally × Firmware W
  unfolding serve_priority
  pingpong_test_service pending t f =
      let (t₀, f₀) = serve_priority pending 0 t f in
      let (t₁, f₁) = serve_priority pending 1 t₀ f₀ in
      let (t₂, f₂) = serve_priority pending 2 t₁ f₁ in
      let (t₃, f₃) = serve_priority pending 3 t₂ f₂ in
      if not f.mailmsg_endpoint_ready || not f.session_ready_published then (t, f) else (t₃, f₃)
