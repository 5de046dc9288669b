-- ===== src/Firmware/Examples.antt =====
-- zephyr/app/src/main.c: CPU3 at work, on hardware that stands still.
use lzamp.Base.{
  ◌++◌, false, some, ℕ, ◌≡◌, ◌+◌, ◌%◌, ◌^◌, refl, true, false, none, List, [], ◌∷◌, replicate,
}
use lzamp.Base.Int.{pos, is_nonzero}
use lzamp.Protocol.{Message, zero_message, le32_bytes, protocol_magic, protocol_version}
use lzamp.Protocol.MessageType
use lzamp.Ring.Fixture.{Still, still_ops}
use lzamp.Ring.{
  Ring, push, offer_frame, store_frame, pop, take_frame, read_slot, classify, is_bad_header,
}
use lzamp.Notify.{notify, notify_accepted}
use lzamp.Endpoint.Send
use lzamp.Endpoint.Send.{
  no_result, send, send_via, is_bad_request, enqueue, push_message, build_message, refuse,
}
use lzamp.Endpoint.{
  bound_endpoint, next_sequence, session_valid, session_with, check_session, is_other_protocol,
}
use lzamp.Endpoint.Receive.{receive, receive_via, dequeue, judge}
use lzamp.Endpoint.State.{Shared, MemoryOps, zero_ring}
use lzamp.Mmio.{MmioOps}
use lzamp.Service.{Service}
use lzamp.Driver.State.{SessionState, Platform, Driver, with_state}
use lzamp.Driver.Probe.{probed}
use lzamp.Firmware.Legacy.{
  Desk, Same, main_round, main_rounds, main_rounds-Same, is_new_request, poll_request, respond,
  answer, send_b2a_ack, beat,
}
use lzamp.Firmware.State.{Board, Firmware}
use lzamp.Firmware.Reply.{
  cpu3_notify, send_stop_feedback, send_noted, record_tx_full, publish_tx_full_observation,
}
use lzamp.Firmware.Serve.{
  observe, serve_frame, serve_stop, cpu_off_after_ready, serve_priority, reject_frame, is_rejected,
}
use lzamp.Firmware.Worker.{
  Phase, Turn, turn, fresh_tally, a2b_matrix_isr, post, worker_step, wake_up, take_pending,
}
use lzamp.Firmware.Doorbells.{serves}
use lzamp.Firmware.Wakeup.{off_after_ready, rejected_frame_ends_drain}
use lzamp.Firmware.Announce.{announce}

abbrev still_io : MmioOps Still
still_io = record {
  read32 = λ address k. (0, k);
  write32 = λ word address k. k;
  delay_us = λ us k. k;
}

abbrev board : Board Still
board = record {
  io = still_io;
  mailbox = 0xfec60000;
  stop_control = true;
  arch_cpu_off = λ w. none;
}

abbrev bus : MemoryOps Still
bus = record { acquire_header = λ h w. h; rings = λ d p. still_ops }

abbrev service : Service Still
service = record {
  gpio = record { gpio_base = 0x100; ioc_base = 0x9000; ops = none; output_mask = 0 };
  uart5 = none;
  uart7 = none;
  i2c7 = record { base = 0x700; ops = none; clock_hz = 24000000; bus_hz = 100000 };
  spi0 = record { base = 0x800; ops = none; baud_div = 24; ctrlr0 = 0x2001 };
  pwm7 = record { base = 0xa00; ops = none; clock_hz = 24000000 };
  saradc = record { base = 0xb00; ops = none };
  reset = record { cru_base = 0xc00; ops = none };
  spi_profile = false;
}

-- A frame whose length is out of range waits on priority 2.
abbrev bad_ring : Ring
bad_ring = record {
  producer = 1;
  consumer = 0;
  slots =
      record zero_message { generation = 9; sequence = 5; length = 40; commit = 5 }
      ∷ replicate 7 zero_message;
}

abbrev memory : Shared
memory = record {
  header = record { magic = protocol_magic; version = protocol_version; generation = 9 };
  linux_to_cpu3 = zero_ring ∷ zero_ring ∷ bad_ring ∷ zero_ring ∷ [];
  cpu3_to_linux = replicate 4 zero_ring;
}

abbrev firmware : Firmware Still
firmware = record {
  peripheral_service = service;
  peripherals_ready = true;
  mailmsg_endpoint_ready = true;
  session_ready_committed = false;
  session_ready_published = false;
  pending_priorities = 0;
  work_sem = 0;
  is_off = false;
  counts = record {
    tx_full_commit = 0;
    tx_full_count = 0;
    worker_commit = 0;
    wake_count = 0;
    drain_count = 0;
    message_count = 0;
    empty_wake_count = 0;
    rx_error_count = 0;
    irq_count = 0;
  };
  lines = record {
    mailbox = record { magic = 0; a2b_status = 0; command = 0; value = 0 };
    mark = 0;
    tx_full = record {
      magic = 0;
      commit = 0;
      commit_inv = 0;
      full_count = 0;
      last_priority = 0;
      last_type = 0;
      last_result = pos 0;
    };
    worker = record {
      magic = 0;
      commit = 0;
      commit_inv = 0;
      irq_count = 0;
      wake_count = 0;
      drain_count = 0;
      message_count = 0;
      empty_wake_count = 0;
      last_pending = 0;
      pending_now = 0;
      last_priority = 0;
    };
  };
  host = record {
    endpoint = bound_endpoint 9 bus (cpu3_notify board) 1;
    memory = memory;
    world = tt;
  };
}

abbrev day : List Turn
day = Turn.interrupt 2 ∷ Turn.work ∷ Turn.interrupt 2 ∷ Turn.work ∷ Turn.work ∷ Turn.work ∷ []

-- Every mailbox register reads as a protocol doorbell.
abbrev ringing_board : Board Still
ringing_board = record board { io = record still_io { read32 = λ address k. (0xa2b10000, k) } }

-- The worker has not served it before its third step, and has after it.
early_and_late :
    (serves ringing_board 2
        (Turn.work ∷ Turn.work ∷ [])
        (turn ringing_board (Turn.interrupt 2) (Phase.waiting, firmware))
      ≡ false)
    × (serves ringing_board 2
          (Turn.work ∷ Turn.work ∷ Turn.work ∷ [])
          (turn ringing_board (Turn.interrupt 2) (Phase.waiting, firmware))
        ≡ true)
unfolding serves turn a2b_matrix_isr post observe worker_step wake_up take_pending
early_and_late = (refl, refl)

abbrev stop : Message
stop = record zero_message {
  generation = 9;
  type = MessageType.stop_request;
  sequence = 3;
  commit = 3;
}

goes_off : (serve_frame board 0 stop firmware).is_off ≡ true
unfolding serve_frame serve_stop cpu_off_after_ready send_stop_feedback send_noted record_tx_full
    publish_tx_full_observation send send_via is_bad_request enqueue push_message build_message
    next_sequence Send.announce refuse session_valid session_with check_session is_other_protocol
    push offer_frame store_frame is_bad_header notify cpu3_notify notify_accepted bound_endpoint
goes_off = refl

off_after_ready_example :
    let (ret, result, h) =
      send 0 MessageType.stop_ready
        (some (le32_bytes stop.sequence ++ le32_bytes 0))
        8
        no_result
        firmware.host in
    (◌≡◌ {A = ℕ} 0 0)
    × (stop.type ≡ MessageType.stop_request)
    × (stop.length ≡ 0)
    × (board.stop_control ≡ true)
    × (is_nonzero ret ≡ false)
    × (notify_accepted result.notify_result ≡ true)
    × ((serve_frame board 0 stop firmware).host.memory ≡ h.memory)
off_after_ready_example = off_after_ready board 0 stop firmware refl goes_off

rejected_at_two : is_rejected (receive 2 zero_message firmware.host).0 ≡ true
unfolding receive receive_via dequeue judge session_valid session_with check_session
    is_other_protocol pop take_frame read_slot classify is_bad_header bound_endpoint
rejected_at_two = refl

rejected_frame_ends_drain_example :
    let (ret, m, h) = receive 2 zero_message firmware.host in
    let (t', f') = serve_priority board 4 2 fresh_tally firmware in
    (t'.reschedule ≡ fresh_tally.reschedule)
    × (t'.messages ≡ (fresh_tally.messages + 1) % 2 ^ 32)
    × (f' ≡ reject_frame 2 ret m (record firmware { host = h }))
rejected_frame_ends_drain_example =
    rejected_frame_ends_drain board 4 2 fresh_tally firmware refl refl rejected_at_two

abbrev linux_driver : Driver Still
linux_driver =
    probed
      (record { mpidr = 0x300; entry = 16; image_size = 4; status_offset = 8; base = 16; size = 9 })
      [] memory tt

abbrev starting_driver : Driver Still
starting_driver = with_state SessionState.starting linux_driver

abbrev stopping_driver : Driver Still
stopping_driver = with_state SessionState.stopping linux_driver

abbrev linux_board : Platform Still
linux_board = record {
  io = still_io;
  mbox_regs = 0xfec60000;
  has_affinity_info = true;
  has_cpu_on = true;
  affinity_info = λ mpidr k. (pos 1, k);
  cpu_on = λ mpidr entry k. (pos 0, k);
  jiffies = λ k. 5000;
  time_after_eq = λ a c. true;
  time_before = λ a c. false;
  msecs_to_jiffies = λ ms. ms;
}

-- A ping with the value 41.
abbrev desk : Desk
desk = record {
  request = record { command = 1; value = 41; status = pos 0; result = 0 };
  request_commit = record { sequence = 7; sequence_inv = 0xfffffffffffffff8 };
  response = record { command = 0; value = 0; status = pos 0; result = 0 };
  response_commit = record { sequence = 0; sequence_inv = 0xffffffffffffffff };
  last_sequence = 0;
  heartbeat = 0;
  spin = 0;
}

answers_once :
    ((main_round board desk firmware).0.response.result ≡ 42)
    × ((main_round board desk firmware).0.response_commit.sequence ≡ 7)
unfolding main_round poll_request is_new_request respond answer send_b2a_ack beat
answers_once = (refl, refl)

main_rounds-Same_example :
    let (e, g) = main_round board desk firmware in
    Same e (main_rounds board 5 e g).0 × (is_new_request e ≡ false)
main_rounds-Same_example = main_rounds-Same board 5 desk firmware
