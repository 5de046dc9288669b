-- ===== src/Firmware/Quiet.antt =====
-- What the service of a frame leaves alone.
use lzamp.Base.{
  ℕ, ◌+◌, ◌≡◌, refl, ◌∙◌, Bool, true, false, not, List, ◌++◌, ◌||◌, ◌==◌, if◌then◌else◌, u32, arith,
  if_both,
}
use lzamp.Base.Int.{ℤ, is_nonzero, ◌==ℤ◌}
use lzamp.Protocol.{Message, le32_bytes, priority_is_reliable}
use lzamp.Protocol.RingResult
use lzamp.Protocol.MessageType
use lzamp.Protocol.Payload.{payload_u32}
use lzamp.Gpio.{gpio_get, gpio3_ok}
use lzamp.Service.{execute}
use lzamp.Firmware.State.{Firmware}
use lzamp.Firmware.Reply.{
  publish_tx_full_observation, record_tx_full, send_noted, send_feedback, send_stop_feedback,
  send_pong, send_gpio_read_result, send_peripheral_result,
}
use lzamp.Firmware.Serve.{
  observe, nack, reject_frame, serve_peripheral, serve_gpio_read, serve_ping, nack_bad_crc,
  nack_invalid_frame, bytes_of, level_or_zero,
}

-- The worker's signals, and whether CPU3 runs, are left alone.
pub record IsQuiet {W : Type 0} (f g : Firmware W) : Type 0 where
  pub same_pending : g.pending_priorities ≡ f.pending_priorities
  pub same_sem : g.work_sem ≡ f.work_sem
  pub same_power : g.is_off ≡ f.is_off

module _ {W : Type 0} where
  pub send_noted-IsQuiet :
      (priority type : ℕ) (payload : List ℕ) (length : ℕ) (f : Firmware W)
      → IsQuiet f (send_noted priority type payload length f).2
  unfolding send_noted record_tx_full publish_tx_full_observation
  send_noted-IsQuiet priority type payload length f = ground arith

  pub send_feedback-IsQuiet :
      (priority type sequence status : ℕ) (f : Firmware W)
      → IsQuiet f (send_feedback priority type sequence status f).1
  unfolding send_feedback
  send_feedback-IsQuiet priority type sequence status f =
      ground
        (arith, send_noted-IsQuiet priority type (le32_bytes sequence ++ le32_bytes status) 8 f)

  pub send_stop_feedback-IsQuiet :
      (type sequence status : ℕ) (f : Firmware W)
      → IsQuiet f (send_stop_feedback type sequence status f).1
  unfolding send_stop_feedback
  send_stop_feedback-IsQuiet type sequence status f =
      ground (arith, send_noted-IsQuiet 0 type (le32_bytes sequence ++ le32_bytes status) 8 f)

  send_pong-IsQuiet :
      (priority : ℕ) (request : Message) (f : Firmware W)
      → IsQuiet f (send_pong priority request f).1
  unfolding send_pong
  send_pong-IsQuiet priority request f = ground (
    arith,
    send_noted-IsQuiet priority
        (if request.type == MessageType.ping then MessageType.pong else MessageType.nop)
        (le32_bytes (u32 (payload_u32 request.payload 0 + 1))) 4 f,
  )

  send_gpio_read_result-IsQuiet :
      (priority : ℕ) (request : Message) (line value : ℕ) (f : Firmware W)
      → IsQuiet f (send_gpio_read_result priority request line value f).1
  unfolding send_gpio_read_result
  send_gpio_read_result-IsQuiet priority request line value f = ground (
    arith,
    send_noted-IsQuiet priority MessageType.gpio_read_result
        (le32_bytes request.sequence ++ (le32_bytes line ++ le32_bytes value)) 12 f,
  )

  send_peripheral_result-IsQuiet :
      (priority : ℕ) (payload : List ℕ) (f : Firmware W)
      → IsQuiet f (send_peripheral_result priority payload f).1
  unfolding send_peripheral_result
  send_peripheral_result-IsQuiet priority payload f =
      ground (arith, send_noted-IsQuiet priority MessageType.peripheral_result payload 28 f)

  nack-IsQuiet :
      (priority sequence reason : ℕ) (f : Firmware W) → IsQuiet f (nack priority sequence reason f)
  unfolding nack
  nack-IsQuiet priority sequence reason f =
      ground (arith, send_feedback-IsQuiet priority MessageType.nack sequence reason f)

  pub reject_frame-IsQuiet :
      (priority : ℕ) (ret : ℤ) (request : Message) (f : Firmware W)
      → IsQuiet f (reject_frame priority ret request f)
  unfolding reject_frame observe
  reject_frame-IsQuiet priority ret request f = ground (
    arith,
    nack-IsQuiet priority request.sequence
        (if ret ==ℤ RingResult.bad_crc then nack_bad_crc else nack_invalid_frame) f,
  )

  IsQuiet-trans : {f g h : Firmware W} → IsQuiet f g → IsQuiet g h → IsQuiet f h
  IsQuiet-trans a b = record {
    same_pending = b.same_pending ∙ a.same_pending;
    same_sem = b.same_sem ∙ a.same_sem;
    same_power = b.same_power ∙ a.same_power;
  }

  IsQuiet-refl : (f : Firmware W) → IsQuiet f f
  IsQuiet-refl f = record { same_pending = refl; same_sem = refl; same_power = refl }

  pub serve_ping-IsQuiet :
      (priority : ℕ) (request : Message) (f : Firmware W)
      → IsQuiet f (serve_ping priority request f)
  unfolding serve_ping
  serve_ping-IsQuiet priority request f =
      let told = (send_feedback priority MessageType.ack request.sequence 0 f).1 in
      let reliable = priority_is_reliable priority in
      IsQuiet-trans
        (if_both (IsQuiet f) reliable told f
          (λ h. send_feedback-IsQuiet priority MessageType.ack request.sequence 0 f)
          (λ h. IsQuiet-refl f))
        (send_pong-IsQuiet priority request (if reliable then told else f))

  -- A result follows an acknowledgement that was queued.
  acked-IsQuiet :
      (f g h : Firmware W) (acked : Bool)
      → IsQuiet f g
      → IsQuiet g h
      → IsQuiet f (if acked then h else g)
  acked-IsQuiet f g h true a b = IsQuiet-trans a b
  acked-IsQuiet f g h false a b = a

  pub serve_peripheral-IsQuiet :
      (priority : ℕ) (request : Message) (f : Firmware W)
      → IsQuiet f (serve_peripheral priority request f)
  unfolding serve_peripheral
  serve_peripheral-IsQuiet priority request f =
      let (ret, answer, s, w) = execute f.peripheral_service request f.host.world in
      let served = record f { peripheral_service = s; host = record f.host { world = w } } in
      let (acked, f₁) = send_feedback priority MessageType.ack request.sequence 0 served in
      let told = (send_peripheral_result priority (bytes_of answer) f₁).1 in
      let quiet : IsQuiet f served = record {
        same_pending = refl;
        same_sem = refl;
        same_power = refl;
      } in
      if_both (IsQuiet f) (not (priority == 1) || not f.peripherals_ready)
        (nack priority request.sequence nack_invalid_frame f) _
        (λ h. nack-IsQuiet priority request.sequence nack_invalid_frame f)
        (λ h.
          if_both (IsQuiet f) (is_nonzero ret)
            (nack priority request.sequence nack_invalid_frame served) (if acked then told else f₁)
            (λ k.
              IsQuiet-trans quiet
                (nack-IsQuiet priority request.sequence nack_invalid_frame served))
            (λ k.
              acked-IsQuiet f f₁ told acked
                (IsQuiet-trans quiet
                  (send_feedback-IsQuiet priority MessageType.ack request.sequence 0 served))
                (send_peripheral_result-IsQuiet priority (bytes_of answer) f₁)))

  pub serve_gpio_read-IsQuiet :
      (priority : ℕ) (request : Message) (f : Firmware W)
      → IsQuiet f (serve_gpio_read priority request f)
  unfolding serve_gpio_read
  serve_gpio_read-IsQuiet priority request f =
      let line = payload_u32 request.payload 0 in
      let (ret, level, w) = gpio_get f.peripheral_service.gpio line f.host.world in
      let read = record f { host = record f.host { world = w } } in
      let (acked, f₁) = send_feedback priority MessageType.ack request.sequence 0 read in
      let told = (send_gpio_read_result priority request line (level_or_zero level) f₁).1 in
      let quiet : IsQuiet f read = record {
        same_pending = refl;
        same_sem = refl;
        same_power = refl;
      } in
      let refused =
        not (priority == 1)
        || (not f.peripherals_ready
            || (f.peripheral_service.spi_profile || not (request.length == 4))) in
      let denied =
        (send_feedback priority MessageType.nack request.sequence nack_invalid_frame read).1 in
      if_both (IsQuiet f) refused (nack priority request.sequence nack_invalid_frame f) _
        (λ h. nack-IsQuiet priority request.sequence nack_invalid_frame f)
        (λ h.
          if_both (IsQuiet f) (not (ret ==ℤ gpio3_ok)) denied (if acked then told else f₁)
            (λ k. IsQuiet-trans quiet (
              send_feedback-IsQuiet priority MessageType.nack request.sequence nack_invalid_frame
                read))
            (λ k.
              acked-IsQuiet f f₁ told acked
                (IsQuiet-trans quiet
                  (send_feedback-IsQuiet priority MessageType.ack request.sequence 0 read))
                (send_gpio_read_result-IsQuiet priority request line (level_or_zero level) f₁)))
