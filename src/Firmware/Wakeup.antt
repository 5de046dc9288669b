-- ===== src/Firmware/Wakeup.antt =====
-- zephyr/app/src/main.c: the signals of the worker through a pass, the way off, and rejected frames.
use lzamp.Base.{
  ℕ, zero, suc, ◌+◌, ◌≡◌, ◌≢◌, ◌⊎◌, refl, ap, ◌∙◌, true, false, not, ◌&&◌, ◌||◌, List, [], ◌∷◌,
  ◌++◌, some, ◌==◌, ◌^◌, ◌≤◌, ◌%◌, bit_and, arith, if_both,
}
use lzamp.Base.Int.{is_nonzero}
use lzamp.Protocol.{le32_bytes, Message, zero_message}
use lzamp.Protocol.MessageType
use lzamp.Endpoint.Receive.{receive}
use lzamp.Notify.{notify_accepted}
use lzamp.Endpoint.Send.{send, no_result}
use lzamp.Firmware.State.{Board, Firmware}
use lzamp.Firmware.Reply.{
  send_noted, record_tx_full, publish_tx_full_observation, send_stop_feedback,
  publish_worker_observation,
}
use lzamp.Firmware.Serve.{
  Tally, observe, cpu_off_after_ready, serve_stop, serve_peripheral, serve_gpio_read, serve_ping,
  serve_frame, serve_ring, reject_frame, look_again, serve_priority, finish_priority,
  pingpong_test_service, is_rejected, drain_quota, stop_refused_busy, stop_refused_invalid_request,
}
use lzamp.Firmware.Worker.{
  Phase, wake_up, take_pending, report, worker_step, post, a2b_matrix_isr, Turn, turn, turns,
  fresh_tally,
}
use lzamp.Firmware.Quiet.{
  IsQuiet, send_stop_feedback-IsQuiet, reject_frame-IsQuiet, serve_ping-IsQuiet,
  serve_peripheral-IsQuiet, serve_gpio_read-IsQuiet,
}

-- The worker's signals are left alone; CPU3 may have gone off.
pub record KeepsSignals {W : Type 0} (f g : Firmware W) : Type 0 where
  pub kept_pending : g.pending_priorities ≡ f.pending_priorities
  pub kept_sem : g.work_sem ≡ f.work_sem

-- The semaphore counts to 1, and where the pending set is not empty it is given, or the worker is
-- awake and about to take the set.
pub record IsSignalled {W : Type 0} (s : Phase × Firmware W) : Type 0 where
  pub sem_bound : s.1.work_sem ≤ 1
  pub signalled : s.1.pending_priorities ≢ 0 → (s.1.work_sem ≡ 1) ⊎ (s.0 ≡ Phase.woken)

module _ {W : Type 0} where
  KeepsSignals-trans : {f g h : Firmware W} → KeepsSignals f g → KeepsSignals g h → KeepsSignals f h
  KeepsSignals-trans a b = record {
    kept_pending = b.kept_pending ∙ a.kept_pending;
    kept_sem = b.kept_sem ∙ a.kept_sem;
  }

  quiet_keeps : {f g : Firmware W} → IsQuiet f g → KeepsSignals f g
  quiet_keeps q = record { kept_pending = q.same_pending; kept_sem = q.same_sem }

  module _ (b : Board W) where
    serve_stop-KeepsSignals : (m : Message) (f : Firmware W) → KeepsSignals f (serve_stop b m f)
    unfolding serve_stop cpu_off_after_ready
    serve_stop-KeepsSignals m f = ground (
      arith,
      send_stop_feedback-IsQuiet MessageType.stop_ready m.sequence 0 f,
      send_stop_feedback-IsQuiet MessageType.stop_refused m.sequence stop_refused_busy f,
      send_stop_feedback-IsQuiet MessageType.stop_refused m.sequence stop_refused_invalid_request f,
    )

    serve_frame-KeepsSignals :
        (priority : ℕ) (m : Message) (f : Firmware W) → KeepsSignals f (serve_frame b priority m f)
    unfolding serve_frame
    serve_frame-KeepsSignals priority m f =
        if_both (KeepsSignals f) (priority == 0 && (m.type == MessageType.stop_request))
          (serve_stop b m f) _ (λ h. serve_stop-KeepsSignals m f)
          (λ h.
            if_both (KeepsSignals f) (m.type == MessageType.peripheral_request)
              (serve_peripheral priority m f) _
              (λ k. quiet_keeps (serve_peripheral-IsQuiet priority m f))
              (λ k.
                if_both (KeepsSignals f) (m.type == MessageType.gpio_read_request)
                  (serve_gpio_read priority m f) (serve_ping priority m f)
                  (λ l. quiet_keeps (serve_gpio_read-IsQuiet priority m f))
                  (λ l. quiet_keeps (serve_ping-IsQuiet priority m f))))

    serve_ring-KeepsSignals :
        (left priority : ℕ) (f : Firmware W) → KeepsSignals f (serve_ring b left priority f).1
    unfolding serve_ring
    serve_ring-KeepsSignals zero priority f = record { kept_pending = refl; kept_sem = refl }
    serve_ring-KeepsSignals (suc left) priority f =
        let (ret, m, h) = receive priority zero_message f.host in
        let got = record f { host = h } in
        let served = serve_frame b priority m got in
        let (more, f') = serve_ring b left priority served in
        let Kept : ℕ × Firmware W → Type 0 = λ r. KeepsSignals f r.1 in
        let seen : KeepsSignals f got = record { kept_pending = refl; kept_sem = refl } in
        let kept = KeepsSignals-trans seen (serve_frame-KeepsSignals priority m got) in
        if_both Kept (is_rejected ret) (1, reject_frame priority ret m got) _
          (λ h. KeepsSignals-trans seen (quiet_keeps (reject_frame-IsQuiet priority ret m got)))
          (λ h.
            if_both Kept (is_nonzero ret) (0, got) _ (λ k. seen)
              (λ k.
                if_both Kept served.is_off (1, served) (suc more, f') (λ l. kept)
                  (λ l. KeepsSignals-trans kept (serve_ring-KeepsSignals left priority served))))

    look_again-KeepsSignals :
        (handled priority reschedule : ℕ) (f : Firmware W)
        → KeepsSignals f (look_again handled priority reschedule f).1
    unfolding look_again
    look_again-KeepsSignals handled priority reschedule f = ground arith

    serve_priority-KeepsSignals :
        (pending priority : ℕ) (t : Tally) (f : Firmware W)
        → KeepsSignals f (serve_priority b pending priority t f).1
    unfolding serve_priority finish_priority
    serve_priority-KeepsSignals pending priority t f =
        let (handled, drained) = serve_ring b drain_quota priority f in
        let Kept : Tally × Firmware W → Type 0 = λ r. KeepsSignals f r.1 in
        if_both Kept (bit_and pending (2 ^ priority) == 0 || f.is_off) (t, f) _
          (λ h. record { kept_pending = refl; kept_sem = refl })
          (λ h.
            KeepsSignals-trans (serve_ring-KeepsSignals drain_quota priority f)
              (look_again-KeepsSignals handled priority t.reschedule drained))

    pub pingpong_test_service-KeepsSignals :
        (pending : ℕ) (t : Tally) (f : Firmware W)
        → KeepsSignals f (pingpong_test_service b pending t f).1
    unfolding pingpong_test_service
    pingpong_test_service-KeepsSignals pending t f =
        let (t₀, f₀) = serve_priority b pending 0 t f in
        let (t₁, f₁) = serve_priority b pending 1 t₀ f₀ in
        let (t₂, f₂) = serve_priority b pending 2 t₁ f₁ in
        let Kept : Tally × Firmware W → Type 0 = λ r. KeepsSignals f r.1 in
        if_both Kept (not f.mailmsg_endpoint_ready || not f.session_ready_published) (t, f)
          (serve_priority b pending 3 t₂ f₂) (λ h. record { kept_pending = refl; kept_sem = refl })
          (λ h.
            KeepsSignals-trans
              (KeepsSignals-trans
                (KeepsSignals-trans (serve_priority-KeepsSignals pending 0 t f)
                  (serve_priority-KeepsSignals pending 1 t₀ f₀))
                (serve_priority-KeepsSignals pending 2 t₁ f₁))
              (serve_priority-KeepsSignals pending 3 t₂ f₂))

    worker_step-IsSignalled :
        (phase : Phase) (f : Firmware W)
        → IsSignalled (phase, f)
        → IsSignalled (worker_step b phase f)
    unfolding worker_step wake_up take_pending report publish_worker_observation
    worker_step-IsSignalled Phase.waiting f ok = ground arith
    worker_step-IsSignalled Phase.woken f ok = ground arith
    worker_step-IsSignalled (Phase.serving pending) f ok =
        ground (arith, pingpong_test_service-KeepsSignals pending fresh_tally f)
    worker_step-IsSignalled (Phase.reporting pending t) f ok = ground arith

    a2b_matrix_isr-IsSignalled :
        (index : ℕ) (phase : Phase) (f : Firmware W)
        → IsSignalled (phase, f)
        → IsSignalled (phase, a2b_matrix_isr b index f)
    unfolding a2b_matrix_isr post observe
    a2b_matrix_isr-IsSignalled index phase f ok = ground arith

    pub turn-IsSignalled :
        (t : Turn) (s : Phase × Firmware W) → IsSignalled s → IsSignalled (turn b t s)
    unfolding turn
    turn-IsSignalled (Turn.interrupt index) (phase, f) ok =
        if_both IsSignalled f.is_off (phase, f) (phase, a2b_matrix_isr b index f) (λ h. ok)
          (λ h. a2b_matrix_isr-IsSignalled index phase f ok)
    turn-IsSignalled Turn.work (phase, f) ok =
        if_both IsSignalled f.is_off (phase, f) (worker_step b phase f) (λ h. ok)
          (λ h. worker_step-IsSignalled phase f ok)

    pub turns-IsSignalled :
        (ts : List Turn) (s : Phase × Firmware W) → IsSignalled s → IsSignalled (turns b ts s)
    unfolding turns
    turns-IsSignalled [] s ok = ok
    turns-IsSignalled (t ∷ ts) s ok = turns-IsSignalled ts (turn b t s) (turn-IsSignalled t s ok)

    off_branch :
        (priority : ℕ) (m : Message) (f : Firmware W)
        → f.is_off ≡ false
        → (serve_frame b priority m f).is_off ≡ true
        → let (ready, told) = send_stop_feedback MessageType.stop_ready m.sequence 0 f in
          (priority ≡ 0)
          × (m.type ≡ MessageType.stop_request)
          × (m.length ≡ 0)
          × (b.stop_control ≡ true)
          × (ready ≡ true)
          × ((serve_frame b priority m f).host.memory ≡ told.host.memory)
    unfolding serve_frame serve_stop cpu_off_after_ready
    off_branch priority m f running off = ground (
      arith,
      serve_peripheral-IsQuiet priority m f,
      serve_gpio_read-IsQuiet priority m f,
      serve_ping-IsQuiet priority m f,
      send_stop_feedback-IsQuiet MessageType.stop_ready m.sequence 0 f,
      send_stop_feedback-IsQuiet MessageType.stop_refused m.sequence stop_refused_busy f,
      send_stop_feedback-IsQuiet MessageType.stop_refused m.sequence stop_refused_invalid_request f,
    )

    told_ready :
        (sequence : ℕ) (f : Firmware W)
        → (send_stop_feedback MessageType.stop_ready sequence 0 f).0 ≡ true
        → let (ret, result, h) =
            send 0 MessageType.stop_ready
              (some (le32_bytes sequence ++ le32_bytes 0))
              8
              no_result
              f.host in
          (is_nonzero ret ≡ false)
          × (notify_accepted result.notify_result ≡ true)
          × ((send_stop_feedback MessageType.stop_ready sequence 0 f).1.host.memory ≡ h.memory)
    unfolding send_stop_feedback send_noted record_tx_full publish_tx_full_observation
    told_ready sequence f ready = ground arith

    -- CPU3 goes off while it serves a frame only for a STOP_REQUEST without payload on priority 0, in
    -- a build with stop control, and only where the endpoint's send of a STOP_READY on priority 0,
    -- with the request's sequence and status 0 as its eight bytes, returned OK with its doorbell
    -- accepted; and the shared memory that CPU3 leaves behind is the memory after that send.
    pub off_after_ready :
        (priority : ℕ) (m : Message) (f : Firmware W)
        → f.is_off ≡ false
        → (serve_frame b priority m f).is_off ≡ true
        → let (ret, result, h) =
            send 0 MessageType.stop_ready
              (some (le32_bytes m.sequence ++ le32_bytes 0))
              8
              no_result
              f.host in
          (priority ≡ 0)
          × (m.type ≡ MessageType.stop_request)
          × (m.length ≡ 0)
          × (b.stop_control ≡ true)
          × (is_nonzero ret ≡ false)
          × (notify_accepted result.notify_result ≡ true)
          × ((serve_frame b priority m f).host.memory ≡ h.memory)
    off_after_ready priority m f running off =
        let (p, t, l, c, ready, kept) = off_branch priority m f running off in
        let (done, rung, same) = told_ready m.sequence f ready in
        (p, t, l, c, done, rung, kept ∙ same)

    serve_ring-rejected :
        (left priority : ℕ) (f : Firmware W)
        → is_rejected (receive priority zero_message f.host).0 ≡ true
        → let (ret, m, h) = receive priority zero_message f.host in
          serve_ring b (suc left) priority f
          ≡ (1, reject_frame priority ret m (record f { host = h }))
    unfolding serve_ring
    serve_ring-rejected left priority f rejected =
        let (ret, m, h) = receive priority zero_message f.host in
        let end = reject_frame priority ret m (record f { host = h }) in
        if_both (λ r. r ≡ (1, end)) (is_rejected ret) (1, end) _ (λ e. refl) (λ e. absurd (cc))

    one_frame :
        (pending priority : ℕ) (t : Tally) (f g : Firmware W)
        → (bit_and pending (2 ^ priority) == 0) ≡ false
        → f.is_off ≡ false
        → serve_ring b drain_quota priority f ≡ (1, g)
        → serve_priority b pending priority t f ≡ (
          record {
            messages = (t.messages + 1) % 2 ^ 32;
            last_priority = priority;
            reschedule = t.reschedule;
          },
          g,
        )
    unfolding serve_priority finish_priority look_again
    one_frame pending priority t f g due running once =
        let end = finish_priority priority t (1, g) in
        if_both (λ r. r ≡ end) (bit_and pending (2 ^ priority) == 0 || f.is_off) (t, f) _
          (λ h. absurd (idle h)) (λ h. ap (finish_priority priority t) once)
      where
        idle : (bit_and pending (2 ^ priority) == 0 || f.is_off) ≡ true → ⊥
        idle h = ground arith

    -- Where the first frame that a pass meets on a due priority is one that the endpoint rejects (bad
    -- checksum or bad header), the drain of the priority ends there: the service counts this one
    -- frame and asks for no further pass, whatever else still waits behind it in the ring.
    pub rejected_frame_ends_drain :
        (pending priority : ℕ) (t : Tally) (f : Firmware W)
        → (bit_and pending (2 ^ priority) == 0) ≡ false
        → f.is_off ≡ false
        → is_rejected (receive priority zero_message f.host).0 ≡ true
        → let (ret, m, h) = receive priority zero_message f.host in
          let (t', f') = serve_priority b pending priority t f in
          (t'.reschedule ≡ t.reschedule)
          × (t'.messages ≡ (t.messages + 1) % 2 ^ 32)
          × (f' ≡ reject_frame priority ret m (record f { host = h }))
    rejected_frame_ends_drain pending priority t f due running rejected =
        let (ret, m, h) = receive priority zero_message f.host in
        let end = reject_frame priority ret m (record f { host = h }) in
        let all =
          one_frame pending priority t f end due running
            (serve_ring-rejected 6 priority f rejected) in
        (
          ap (λ (x : Tally × Firmware W). x.0.reschedule) all,
          ap (λ (x : Tally × Firmware W). x.0.messages) all,
          ap (λ (x : Tally × Firmware W). x.1) all,
        )
