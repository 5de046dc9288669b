-- ===== src/Driver/Examples.antt =====
-- A driver on a board, and what happens to it.
use lzamp.Base.{ℕ, zero, suc, get_or, ◌≡◌, refl, true, false, some, List, [], ◌∷◌, replicate, arith}
use lzamp.Base.Int.{pos, negsuc}
use lzamp.Mmio.{MmioOps}
use lzamp.Protocol.{protocol_magic, protocol_version}
use lzamp.Ring
use lzamp.Ring.Invariant.{IsValid}
use lzamp.Ring.Fixture.{Still, still_ops, frame_of, idle_ring}
use lzamp.Endpoint.{
  bind, bind_to, is_other_protocol, bound_endpoint, session_valid, session_with, check_session,
}
use lzamp.Endpoint.Receive.{has_received, has_received_via}
use lzamp.Endpoint.Progress.{Receives}
use lzamp.Endpoint.State.{Shared, Direction, MemoryOps, zero_ring}
use lzamp.Driver.State.{SessionState, Platform, Wire, Driver, cancel_timeout, zero_user}
use lzamp.Driver.Doorbell.{linux_notify}
use lzamp.Driver.Control.{control_work, mark_offline_locked}
use lzamp.Driver.Watch.{lifecycle_timeout_work, refresh_affinity_locked}
use lzamp.Driver.Admin.{
  image_write, next_generation, fresh_shared, bind_session, launch, start_cpu, start_store,
}
use lzamp.Driver.Stop.{reverse_pending, stop_preflight_locked}
use lzamp.Driver.Gate.{is_waiting}
use lzamp.Driver.Probe.{Geometry, probed, opened_user}
use lzamp.Driver.Probes.{linux_ring_push, LegacyPage, ping_store}
use lzamp.Driver.Machine.{Event, step, run}
use lzamp.Driver.Invariant.{Inv, Holds, is_some}
use lzamp.Driver.Invariant.Machine.{reachable-Inv}
use lzamp.Driver.Invariant.Edges.{Follows, step-Follows}
use lzamp.Driver.Wait.{WaitOver, wait_ends}
use lzamp.Driver.Drain.{control_work-ends}
use lzamp.Driver.Preflight.{preflight_sees_one_ring}
use lzamp.Driver.Start.{Opened, start_store-Opened}
use lzamp.Driver.Diagnostics.{push_errno, linux_ring_push-push, ping_store_refused}
use lzamp.Driver.Readers.{Desk, FileEvent, desk_run, claims, all_in_range}
use lzamp.Driver.Readers.Counted.{Counted, desk_run-Counted}

abbrev still_io : MmioOps Still
still_io = record {
  read32 = λ address k. (0, k);
  write32 = λ word address k. k;
  delay_us = λ us k. k;
}

-- CPU3 is off, and every deadline is reached.
abbrev bench : Platform Still
bench = record {
  io = still_io;
  mbox_regs = 0xfec60000;
  has_affinity_info = true;
  has_cpu_on = true;
  affinity_info = λ mpidr k. (pos 1, k);
  cpu_on = λ mpidr entry k. (pos 0, k);
  jiffies = λ k. 5000;
  time_after_eq = λ a b. true;
  time_before = λ a b. false;
  msecs_to_jiffies = λ ms. ms;
}

abbrev bus : MemoryOps (Wire Still)
bus = record {
  acquire_header = λ h w. h;
  rings = λ d p. record { acquire = λ f r w. r; publish = λ f r w. w };
}

abbrev geometry : Geometry
geometry = record {
  mpidr = 0x300;
  entry = 0x10000000;
  image_size = 4;
  status_offset = 0x1000;
  base = 0x10000000;
  size = 0x100000;
}

abbrev blank : Shared
blank = record {
  header = record { magic = protocol_magic; version = protocol_version; generation = 1 };
  linux_to_cpu3 = replicate 4 zero_ring;
  cpu3_to_linux = replicate 4 zero_ring;
}

abbrev new_driver : Driver Still
new_driver = probed geometry [] blank tt

-- In a session that waits for CPU3.
abbrev starting_driver : Driver Still
starting_driver = record new_driver {
  life = record new_driver.life {
    mailmsg_state = SessionState.starting;
    session_generation = 1;
    lifecycle_deadline = 4000;
  };
  cpu = record new_driver.cpu { cpu_on_attempted = true; cpu_on_ret = pos 0 };
  works = record {
    control_work = true;
    lifecycle_timeout_work = some 4000;
    affinity_work = some 1000;
  };
  host = record new_driver.host { endpoint = bound_endpoint 1 bus (linux_notify bench) 0 };
}

starting_driver-Inv : Inv starting_driver
unfolding probed
starting_driver-Inv = ground arith

abbrev events : List (Event Still)
events =
    Event.load 0 (1 ∷ 2 ∷ 3 ∷ 4 ∷ [])
    ∷ Event.start true
    ∷ Event.interrupt 0 (some (0xb2a10000, 0))
    ∷ Event.control
    ∷ Event.outside (λ h. h)
    ∷ Event.affinity_read
    ∷ Event.timeout
    ∷ Event.rearm true
    ∷ []

reachable-Inv_example : Holds (run bench bus 8 events new_driver)
reachable-Inv_example = reachable-Inv bench bus 8 events geometry [] blank tt

step-Follows_example :
    Follows SessionState.starting (step bench bus 8 Event.control starting_driver)
unfolding probed
step-Follows_example = step-Follows bench bus 8 Event.control starting_driver starting_driver-Inv

-- A start after a load.
abbrev started_driver : Driver Still
started_driver = (start_store bench bus true (image_write 0 (1 ∷ 2 ∷ 3 ∷ 4 ∷ []) new_driver).1).1

started :
    run bench bus 8 (Event.load 0 (1 ∷ 2 ∷ 3 ∷ 4 ∷ []) ∷ Event.start true ∷ []) new_driver
    ≡ some started_driver
unfolding run step
started = refl

started_waits : is_waiting started_driver.life.mailmsg_state ≡ true
unfolding image_write start_store start_cpu refresh_affinity_locked mark_offline_locked bind_session
    next_generation fresh_shared bind bind_to is_other_protocol launch probed
started_waits = refl

wait_ends_example :
    (is_some started_driver.works.lifecycle_timeout_work ≡ true)
    × WaitOver started_driver (lifecycle_timeout_work bench (cancel_timeout started_driver))
wait_ends_example =
    wait_ends bench bus 8 (Event.load 0 (1 ∷ 2 ∷ 3 ∷ 4 ∷ []) ∷ Event.start true ∷ []) geometry []
      blank tt started_driver started started_waits refl

zero_ring-IsValid : IsValid zero_ring
zero_ring-IsValid = record { eight = refl; producer_in = ground arith; consumer_in = ground arith }

starting_driver-Receives : Receives Direction.cpu3_to_linux bus 0 starting_driver.host
unfolding probed bound_endpoint
starting_driver-Receives = record {
  from = refl;
  through = refl;
  lanes = ground arith;
  valid = zero_ring-IsValid;
}

control_work-ends_example : is_some (control_work bench 8 starting_driver) ≡ true
control_work-ends_example =
    control_work-ends bench Direction.cpu3_to_linux bus (λ f r w. refl) 8 starting_driver
      starting_driver-Receives (ground arith)

no_reverse_frame : (reverse_pending 0 starting_driver).0 ≡ pos 0
unfolding reverse_pending has_received has_received_via session_valid session_with check_session
    is_other_protocol probed bound_endpoint Ring.has_data
no_reverse_frame = refl

preflight_sees_one_ring_example :
    stop_preflight_locked bench bus starting_driver ≡ (pos 0, (reverse_pending 0 starting_driver).1)
unfolding probed bound_endpoint
preflight_sees_one_ring_example =
    preflight_sees_one_ring bench bus starting_driver refl refl refl no_reverse_frame

abbrev loaded_driver : Driver Still
loaded_driver = record new_driver { image = record new_driver.image { image_written = 4 } }

loaded_driver_starts : (start_store bench bus true loaded_driver).0 ≡ pos 0
unfolding start_store start_cpu refresh_affinity_locked mark_offline_locked bind_session
    next_generation fresh_shared bind bind_to is_other_protocol launch probed
loaded_driver_starts = refl

start_store-Opened_example :
    Opened bench bus loaded_driver (start_store bench bus true loaded_driver).1
unfolding probed
start_store-Opened_example =
    start_store-Opened bench bus true loaded_driver (λ h w. refl) (ground arith)
      loaded_driver_starts

abbrev calls : List FileEvent
calls =
    FileEvent.open_file 2 false
    ∷ FileEvent.open_file 2 true
    ∷ FileEvent.claim_file 0
    ∷ FileEvent.claim_file 1
    ∷ FileEvent.close_file 0
    ∷ []

abbrev desk : Desk Still
desk = record { files = []; driver = new_driver }

nobody_reads : (q : ℕ) → (get_or (replicate 4 opened_user) q zero_user).reader_open_count ≡ 0
nobody_reads zero = refl
nobody_reads (suc zero) = refl
nobody_reads (suc (suc zero)) = refl
nobody_reads (suc (suc (suc zero))) = refl
nobody_reads (suc (suc (suc (suc q)))) = refl

desk-Counted : Counted desk
unfolding probed claims all_in_range
desk-Counted = record {
  devices = refl;
  in_range = refl;
  count = λ q h. nobody_reads q;
  one = λ q h. ground arith;
}

desk_run-Counted_example : Counted (desk_run calls desk)
desk_run-Counted_example = desk_run-Counted calls desk desk-Counted

linux_ring_push-push_example :
    let (ret, r', w') = Ring.push still_ops (frame_of 5) idle_ring tt in
    linux_ring_push still_ops (frame_of 5) false idle_ring tt ≡ (push_errno ret, r', w')
linux_ring_push-push_example = linux_ring_push-push still_ops (frame_of 5) idle_ring tt

abbrev page : LegacyPage
page = record {
  command = 0;
  value = 0;
  sequence = 0;
  sequence_inv = 0;
  observation = (0, 0, 0, 0);
  a2b_at_tx = (0, 0, 0);
}

ping_store_refused_example :
    ping_store bench (pos 0) 7 2 page new_driver ≡ (negsuc 66, page, new_driver)
unfolding probed
ping_store_refused_example = ping_store_refused bench (pos 0) 7 2 page new_driver
