-- ===== src/Driver/Invariant/Machine.antt =====
-- Every event keeps the invariant, so it holds in each state that the driver reaches.
use lzamp.Base.{ℕ, Bool, Option, none, some, List, [], ◌∷◌, arith}
use lzamp.Endpoint.State.{Shared, MemoryOps, Host}
use lzamp.Driver.State.{Platform, Wire, Driver}
use lzamp.Driver.User.{
  UserFrame, UserFile, user_open, user_release, drop_claim, user_claim_reader, gated_receive,
  read_pass, gated_send, user_write, user_poll, poll_mask,
}
use lzamp.Driver.Watch.{affinity_state_show}
use lzamp.Driver.Probe.{Geometry, probed}
use lzamp.Driver.Machine.{take_control, Event, step, run, and_then}
use lzamp.Driver.Invariant.{
  Inv, Holds, refresh_affinity_locked-Inv, control_work-Inv, affinity_work-Inv,
  lifecycle_timeout_work-Inv, rx_callback-Inv,
}
use lzamp.Driver.Invariant.Admin.{image_write-Inv, start_store-Inv, rearm_store-Inv, stop_store-Inv}

module _ {K : Type 0} where
  user_open-Inv :
      (allocated : Bool) (priority : ℕ) (nonblocking : Bool) (d : Driver K)
      → Inv d
      → Inv (user_open allocated priority nonblocking d).2
  unfolding user_open
  user_open-Inv allocated priority nonblocking d i = ground arith

  user_release-Inv : (f : UserFile) (d : Driver K) → Inv d → Inv (user_release f d)
  unfolding user_release drop_claim
  user_release-Inv f d i = ground arith

  affinity_state_show-Inv :
      (p : Platform K) (d : Driver K) → Inv d → Inv (affinity_state_show p d).1
  unfolding affinity_state_show
  affinity_state_show-Inv p d i = ground (arith, refresh_affinity_locked-Inv p d i)

  user_claim_reader-Inv : (f : UserFile) (d : Driver K) → Inv d → Inv (user_claim_reader f d).2
  unfolding user_claim_reader
  user_claim_reader-Inv f d i = ground arith

  user_poll-Inv : (f : UserFile) (d : Driver K) → Inv d → Inv (user_poll f d).2
  unfolding user_poll poll_mask
  user_poll-Inv f d i = ground (arith, user_claim_reader-Inv f d i)

  read_pass-Inv :
      (copied : Bool) (f : UserFile) (d : Driver K) → Inv d → Inv (read_pass copied f d).1
  unfolding read_pass gated_receive
  read_pass-Inv copied f d i = ground arith

  user_write-Inv :
      (count : ℕ) (frame : Option UserFrame) (f : UserFile) (d : Driver K)
      → Inv d
      → Inv (user_write count frame f d).1
  unfolding user_write gated_send
  user_write-Inv count none f d i = ground arith
  user_write-Inv count (some frame) f d i = ground arith

  taken-Inv : (d : Driver K) → Inv d → Inv (take_control d)
  taken-Inv d i = ground arith

  outside-Inv :
      (change : Host (Wire K) → Host (Wire K)) (d : Driver K)
      → Inv d
      → Inv (record d { host = change d.host })
  outside-Inv change d i = ground arith

  probed-Inv :
      (g : Geometry) (carveout : List ℕ) (memory : Shared) (k : K)
      → Inv (probed g carveout memory k)
  unfolding probed
  probed-Inv g carveout memory k = ground arith

  module _ (p : Platform K) (ops : MemoryOps (Wire K)) where
    step-Inv : (fuel : ℕ) (e : Event K) (d : Driver K) → Inv d → Holds (step p ops fuel e d)
    unfolding step
    step-Inv fuel (Event.interrupt index message) d i = rx_callback-Inv index message d i
    step-Inv fuel Event.control d i = control_work-Inv p fuel (take_control d) (taken-Inv d i)
    step-Inv fuel Event.timeout d i = lifecycle_timeout_work-Inv p d i
    step-Inv fuel Event.affinity d i = affinity_work-Inv p d i
    step-Inv fuel Event.affinity_read d i = affinity_state_show-Inv p d i
    step-Inv fuel (Event.load off buf) d i = image_write-Inv off buf d i
    step-Inv fuel (Event.start text) d i = start_store-Inv p ops text d i
    step-Inv fuel (Event.rearm text) d i = rearm_store-Inv p text d i
    step-Inv fuel (Event.stop text) d i = stop_store-Inv p ops text d i
    step-Inv fuel (Event.opened allocated priority nonblocking) d i =
        user_open-Inv allocated priority nonblocking d i
    step-Inv fuel (Event.released f) d i = user_release-Inv f d i
    step-Inv fuel (Event.claimed f) d i = user_claim_reader-Inv f d i
    step-Inv fuel (Event.polled f) d i = user_poll-Inv f d i
    step-Inv fuel (Event.read copied f) d i = read_pass-Inv copied f d i
    step-Inv fuel (Event.written count frame f) d i = user_write-Inv count frame f d i
    step-Inv fuel (Event.outside change) d i = outside-Inv change d i

    and_then-Holds :
        (o : Option (Driver K)) (f : Driver K → Option (Driver K))
        → Holds o
        → ((d : Driver K) → Inv d → Holds (f d))
        → Holds (and_then o f)
    and_then-Holds none f h k = tt
    and_then-Holds (some d) f h k = k d h

    run-Inv : (fuel : ℕ) (es : List (Event K)) (d : Driver K) → Inv d → Holds (run p ops fuel es d)
    unfolding run
    run-Inv fuel [] d i = i
    run-Inv fuel (e ∷ es) d i =
        and_then-Holds (step p ops fuel e d) (run p ops fuel es) (step-Inv fuel e d i)
          (run-Inv fuel es)

    -- From the probe until the device goes, between any critical sections (interrupts, the three
    -- works, the reads of the affinity, the writes that load, start, rearm and stop, the calls of
    -- user space, and anything that is done to the endpoint, the shared memory and the mailbox from
    -- outside), in any order, as long as each control work ends within the fuel, and where a work
    -- counts as pending from its scheduling until its body has the lock: while the driver waits for the peer (STARTING, STOPPING) its timeout
    -- work is pending; while it watches the peer (these, ACTIVE and the two timeouts) its affinity
    -- work is pending; it is ACTIVE, STOPPING or past a stop timeout only where the peer's
    -- generation is the session's; and away from UNARMED a CPU_ON was attempted, with a session
    -- generation other than 0.
    pub reachable-Inv :
        (fuel : ℕ) (es : List (Event K)) (g : Geometry) (carveout : List ℕ) (memory : Shared)
        (k : K)
        → Holds (run p ops fuel es (probed g carveout memory k))
    reachable-Inv fuel es g carveout memory k =
        run-Inv fuel es (probed g carveout memory k) (probed-Inv g carveout memory k)
