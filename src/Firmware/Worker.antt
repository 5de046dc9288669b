-- ===== src/Firmware/Worker.antt =====
-- zephyr/app/src/main.c: the worker that the mailbox interrupts wake. An interrupt may come between
-- the steps of a pass: the wake-up, the take of the pending set, the service and its report.
use lzamp.Base.{
  ℕ, ◌+◌, ◌-◌, ◌*◌, ◌^◌, Bool, not, ◌||◌, List, [], ◌∷◌, ◌==◌, if◌then◌else◌, bit_and, bit_or, u32,
}
use lzamp.Firmware.State.{Board, Firmware}
use lzamp.Firmware.Reply.{publish_worker_observation, mbox_b2a_cmd, mbox_b2a_dat}
use lzamp.Firmware.Serve.{Tally, pingpong_test_service, observe, mbox_a2b_status}

abbrev pub mbox_a2b_cmd : ℕ → ℕ
mbox_a2b_cmd ch = 0x08 + ch * 8

abbrev pub mbox_a2b_dat : ℕ → ℕ
mbox_a2b_dat ch = 0x0c + ch * 8

abbrev pub protocol_cmd : ℕ
protocol_cmd = 0xa2b10000

abbrev pub raw_test_cmd : ℕ
raw_test_cmd = 0xa2b00000

-- Where the worker stands in its loop.
pub data Phase : Type 0 where
  waiting woken : Phase
  serving : ℕ → Phase
  reporting : ℕ → Tally → Phase

abbrev pub fresh_tally : Tally
fresh_tally = record { messages = 0; last_priority = 4; reschedule = 0 }

-- One step of CPU3: an interrupt, or the worker's next step.
pub data Turn : Type 0 where
  interrupt : ℕ → Turn
  work : Turn

abbrev pub is_protocol : ℕ → Bool
is_protocol command = bit_and command 0xfffffff0 == protocol_cmd

module _ {W : Type 0} where
  -- `k_sem_give`: the semaphore counts to 1.
  abbrev pub give : Firmware W → Firmware W
  give f = record f { work_sem = 1 }

  -- `k_sem_take` returns once the semaphore is given.
  unfoldable pub wake_up : Firmware W → Phase × Firmware W
  wake_up f = if f.work_sem == 0 then (Phase.waiting, f) else (
    Phase.woken,
    record f {
      work_sem = f.work_sem - 1;
      counts = record f.counts { wake_count = u32 (f.counts.wake_count + 1) };
    },
  )

  unfoldable pub take_pending : Firmware W → Phase × Firmware W
  take_pending f =
      let pending = f.pending_priorities in
      let taken = record f { pending_priorities = 0 } in
      if pending == 0
      then (
        Phase.waiting,
        publish_worker_observation 0 4 (record taken {
          counts = record f.counts { empty_wake_count = u32 (f.counts.empty_wake_count + 1) };
        }),
      )
      else (
        Phase.serving pending,
        record taken { counts = record f.counts { drain_count = u32 (f.counts.drain_count + 1) } },
      )

  unfoldable pub report : ℕ → Tally → Firmware W → Phase × Firmware W
  report pending t f =
      let counted = record f {
        counts = record f.counts { message_count = u32 (f.counts.message_count + t.messages) };
      } in
      let rescheduled =
        if t.reschedule == 0
        then counted
        else give
            (record counted { pending_priorities = bit_or f.pending_priorities t.reschedule }) in
      (Phase.waiting, publish_worker_observation pending t.last_priority rescheduled)

module _ {W : Type 0} (b : Board W) where
  unfoldable pub worker_step : Phase → Firmware W → Phase × Firmware W
  unfolding wake_up take_pending report
  worker_step Phase.waiting f = wake_up f
  worker_step Phase.woken f = take_pending f
  worker_step (Phase.serving pending) f =
      let (t, f') = pingpong_test_service b pending fresh_tally f in (Phase.reporting pending t, f')
  worker_step (Phase.reporting pending t) f = report pending t f

  -- A raw probe gets its echo; a protocol doorbell is answered from the queue later.
  unfoldable pub echo : ℕ → ℕ → ℕ → W → W
  echo index command value w =
      if not (is_protocol command)
      then b.io.write32 value (b.mailbox + mbox_b2a_dat index)
          (b.io.write32 (bit_or 0xb2a00000 index) (b.mailbox + mbox_b2a_cmd index) w)
      else w

  unfoldable pub post : ℕ → ℕ → Firmware W → Firmware W
  post index command f =
      if is_protocol command || (command == bit_or raw_test_cmd index)
      then give (record f {
        pending_priorities = bit_or f.pending_priorities (2 ^ index);
        counts = record f.counts { irq_count = u32 (f.counts.irq_count + 1) };
      })
      else f

  -- `index` is the channel, 0 to 3.
  unfoldable pub a2b_matrix_isr : ℕ → Firmware W → Firmware W
  unfolding echo post
  a2b_matrix_isr index f =
      let (status, w₁) = b.io.read32 (b.mailbox + mbox_a2b_status) f.host.world in
      let (command, w₂) = b.io.read32 (b.mailbox + mbox_a2b_cmd index) w₁ in
      let (value, w₃) = b.io.read32 (b.mailbox + mbox_a2b_dat index) w₂ in
      let acked =
        b.io.write32 (2 ^ index) (b.mailbox + mbox_a2b_status) (echo index command value w₃) in
      let (status_after, w₄) = b.io.read32 (b.mailbox + mbox_a2b_status) acked in
      post index command (
        observe 0x41434b43 status status_after (2 ^ index)
          (record f { host = record f.host { world = w₄ } }))

  unfoldable pub turn : Turn → Phase × Firmware W → Phase × Firmware W
  unfolding worker_step a2b_matrix_isr
  turn (Turn.interrupt index) (phase, f) =
      if f.is_off then (phase, f) else (phase, a2b_matrix_isr index f)
  turn Turn.work (phase, f) = if f.is_off then (phase, f) else worker_step phase f

  unfoldable pub turns : List Turn → Phase × Firmware W → Phase × Firmware W
  unfolding turn
  turns [] s = s
  turns (t ∷ ts) s = turns ts (turn t s)
