-- ===== src/Driver/Admin.antt =====
-- scripts/linux-support/drivers/lzamp_amp_mailmsg.c: the root's sysfs entries that load the image,
-- start, stop and rearm CPU3. What the kernel reads from the text of a request (`sysfs_streq`,
-- `sscanf`) is an argument.
use lzamp.Base.{
  ℕ, ◌+◌, ◌-◌, ◌^◌, ◌%◌, Bool, true, false, not, ◌||◌, none, some, List, ◌++◌, ltb, ◌==◌,
  if◌then◌else◌, u32, length, take, drop, replicate,
}
use lzamp.Base.Int.{ℤ, pos, ◌==ℤ◌, is_nonzero}
use lzamp.Protocol.{protocol_magic, protocol_version}
use lzamp.Endpoint.{bind}
use lzamp.Endpoint.State.{Shared, MemoryOps, Endpoint, zero_ring, zero_stats}
use lzamp.Driver.Errno
use lzamp.Driver.Doorbell.{linux_notify, mbox_a2b_status}
use lzamp.Driver.Control.{deadline_in, lifecycle_timeout_ms}
use lzamp.Driver.Watch.{psci_off, refresh_affinity_locked, affinity_monitor_ms}
use lzamp.Driver.State.{
  SessionState, Platform, Wire, Driver, platform_of, with_platform, cancel_timeout, arm_timeout,
  arm_affinity,
}

-- `memcpy(carveout + off, buf, count)`
unfoldable pub splice : ℕ → List ℕ → List ℕ → List ℕ
splice off buf carveout = take off carveout ++ (buf ++ drop (off + length buf) carveout)

-- The next session epoch, never 0.
unfoldable pub next_generation : ℕ → ℕ
next_generation g = if u32 (g + 1) == 0 then u32 (u32 (g + 1) + 1) else u32 (g + 1)

-- The shared memory of a new session: all zero, then the header.
unfoldable pub fresh_shared : ℕ → Shared
fresh_shared generation = record {
  header = record { magic = protocol_magic; version = protocol_version; generation = generation };
  linux_to_cpu3 = replicate 4 zero_ring;
  cpu3_to_linux = replicate 4 zero_ring;
}

module _ {K : Type 0} where
  unfoldable pub image_write : ℕ → List ℕ → Driver K → ℤ × Driver K
  unfolding splice
  image_write off buf d =
      let count = length buf in
      if d.mailmsg_user_removing
      then (Errno.enodev, d)
      else if d.cpu.cpu_on_attempted
      then (Errno.ebusy, d)
      else if not (off == d.image.image_written)
      then (Errno.espipe, d)
      else if ltb ((d.image.image_size + 2 ^ 64 - d.image.image_written) % 2 ^ 64) count
      then (Errno.efbig, d)
      else (
        pos count,
        record d {
          image = record d.image {
            carveout = splice off buf d.image.carveout;
            image_written = (d.image.image_written + count) % 2 ^ 64;
          };
        },
      )

  abbrev pub zero_endpoint : Endpoint (Wire K)
  zero_endpoint = record {
    shared = false;
    tx = none;
    rx = none;
    memory_ops = none;
    notify = none;
    next_sequence = 0;
    generation = 0;
    stats = replicate 4 zero_stats;
  }

module _ {K : Type 0} (p : Platform K) (ops : MemoryOps (Wire K)) where
  -- The new session's memory, and the endpoint bound to it.
  unfoldable pub bind_session : Driver K → ℤ × Driver K
  unfolding next_generation fresh_shared
  bind_session d =
      let generation = next_generation d.life.session_generation in
      let (ret, e, s) =
        bind d.host.endpoint (fresh_shared generation) (some ops) (some (linux_notify p)) 0
          d.host.world in
      (
        ret,
        record d {
          life = record d.life { session_generation = generation };
          host = record d.host { endpoint = e; memory = s };
        },
      )

  -- From the reset of the session's fields to CPU_ON.
  unfoldable pub launch : Driver K → ℤ × Driver K
  launch d =
      let (ret, k) = p.cpu_on d.mpidr d.entry (platform_of d) in
      let tried = record (with_platform k d) {
        life = record d.life {
          peer_generation = 0;
          session_result = Errno.einprogress;
          stop_request_sequence = 0;
          stop_reply_type = 0;
          stop_result = Errno.eagain;
          stop_notify_result = Errno.eagain;
          mailmsg_state = SessionState.starting;
        };
        cpu = record d.cpu { affinity_seen_on = false; cpu_on_attempted = true; cpu_on_ret = ret };
        host = record d.host {
          world = record d.host.world { lifecycle_notify_bypass = false; platform = k };
        };
      } in
      (
        ret,
        if is_nonzero ret
            then record tried {
              life = record tried.life {
                mailmsg_state = SessionState.unarmed;
                session_result = ret;
              };
            }
            else arm_timeout (p.msecs_to_jiffies lifecycle_timeout_ms) (
                arm_affinity (p.msecs_to_jiffies affinity_monitor_ms) (record tried {
                  life = record tried.life {
                    lifecycle_deadline = deadline_in p lifecycle_timeout_ms tried;
                  };
                })),
      )

  -- After the guards: the affinity of CPU3, the new session, and the start.
  unfoldable pub start_cpu : Driver K → ℤ × Driver K
  unfolding refresh_affinity_locked bind_session launch
  start_cpu d =
      let (state, sampled) = refresh_affinity_locked p d in
      let (bound, fresh) = bind_session sampled in
      if not (state ==ℤ psci_off)
      then (Errno.ebusy, sampled)
      else if is_nonzero bound
      then (Errno.eproto, fresh)
      else launch fresh

  unfoldable pub start_store : Bool → Driver K → ℤ × Driver K
  unfolding start_cpu
  start_store is_start d =
      if not is_start
      then (Errno.einval, d)
      else if d.mailmsg_user_removing
      then (Errno.enodev, d)
      else if d.cpu.cpu_on_attempted
      then (Errno.ealready, d)
      else if not (d.image.image_written == d.image.image_size)
      then (Errno.enodata, d)
      else if not p.has_affinity_info || not p.has_cpu_on
      then (Errno.eopnotsupp, d)
      else start_cpu d

module _ {K : Type 0} (p : Platform K) where
  -- A register read on the driver's own platform.
  abbrev pub a2b_status : Driver K → ℕ × Driver K
  a2b_status d =
      let (status, k) = p.io.read32 (p.mbox_regs + mbox_a2b_status) (platform_of d) in
      (status, with_platform k d)

  -- The fields that a rearm resets.
  unfoldable pub reset_session : Driver K → Driver K
  reset_session d = cancel_timeout (record d {
    image = record d.image { image_written = 0 };
    cpu = record d.cpu {
      cpu_on_attempted = false;
      cpu_on_ret = Errno.eagain;
      affinity_seen_on = false;
    };
    life = record d.life {
      mailmsg_state = SessionState.unarmed;
      peer_generation = 0;
      session_result = Errno.eagain;
      stop_request_sequence = 0;
      stop_reply_type = 0;
      stop_result = Errno.eagain;
      stop_notify_result = Errno.eagain;
    };
    next_sequence = 0;
    host = record d.host {
      endpoint = zero_endpoint;
      world = record d.host.world {
        mailmsg_last_notify_result = Errno.eagain;
        notify_inject_remaining = 0;
        lifecycle_notify_bypass = false;
      };
    };
  })

  unfoldable pub rearm_cpu : Driver K → ℤ × Driver K
  unfolding refresh_affinity_locked reset_session
  rearm_cpu d =
      let (state, sampled) = refresh_affinity_locked p d in
      let (status, read) = a2b_status sampled in
      if not (state ==ℤ psci_off)
      then (Errno.ebusy, sampled)
      else if not (status == 0)
      then (Errno.ebusy, read)
      else (pos 0, reset_session read)

  unfoldable pub rearm_store : Bool → Driver K → ℤ × Driver K
  unfolding rearm_cpu
  rearm_store is_rearm d =
      if not is_rearm
      then (Errno.einval, d)
      else if not d.cpu.cpu_on_attempted
      then (Errno.einval, d)
      else if not (d.mailmsg_user_open_count == 0)
      then (Errno.ebusy, d)
      else if not p.has_affinity_info
      then (Errno.eopnotsupp, d)
      else rearm_cpu d
