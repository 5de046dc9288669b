-- ===== src/Driver/Probe.antt =====
-- scripts/linux-support/drivers/lzamp_amp_mailmsg.c: what the probe accepts, and the state that it
-- leaves. The device tree and the mappings are the kernel's; their failures end the probe.
use lzamp.Base.{
  ℕ, ◌+◌, ◌-◌, ◌^◌, ◌%◌, Bool, false, not, ◌||◌, Option, none, some, List, ltb, leb, ◌==◌,
  if◌then◌else◌, replicate,
}
use lzamp.Base.Int.{ℤ, pos}
use lzamp.Endpoint.State.{Shared}
use lzamp.Driver.Errno
use lzamp.Driver.Admin.{zero_endpoint}
use lzamp.Driver.State.{SessionState, MboxChannel, zero_channel, zero_user, UserChannel, Driver}

abbrev pub core3_mpidr : ℕ
core3_mpidr = 0x300

-- `R1_AMP_MAILMSG_OFF + sizeof(struct mailmsg_shared)`: the header of 12 bytes and eight rings of
-- two indices and eight frames of 52 bytes.
abbrev pub state_size : ℕ
state_size = 0x200 + 3404

-- The device tree's numbers, and the reserved memory that it names.
pub record Geometry : Type 0 where
  pub mpidr : ℕ
  pub entry : ℕ
  pub image_size : ℕ
  pub status_offset : ℕ
  pub base : ℕ
  pub size : ℕ

unfoldable pub is_invalid_geometry : Geometry → Bool
is_invalid_geometry g =
    g.image_size == 0
    || (ltb g.status_offset g.image_size
        || (ltb ((g.size + 2 ^ 64 - state_size) % 2 ^ 64) g.status_offset
            || (ltb g.entry g.base || leb ((g.base + g.size) % 2 ^ 64) g.entry)))

abbrev pub armed_channel : MboxChannel
armed_channel = record zero_channel { tx_ret = Errno.eagain; notify_result = Errno.eagain }

abbrev pub opened_user : UserChannel
opened_user = record zero_user { registered = Bool.true }

module _ {K : Type 0} where
  -- The carveout and the shared memory hold what they held.
  unfoldable pub probed : Geometry → List ℕ → Shared → K → Driver K
  probed g carveout memory k = record {
    mpidr = g.mpidr;
    entry = g.entry;
    image = record { carveout = carveout; image_size = g.image_size; image_written = 0 };
    life = record {
      mailmsg_state = SessionState.unarmed;
      session_generation = 0;
      peer_generation = 0;
      session_result = Errno.eagain;
      stop_request_sequence = 0;
      stop_reply_type = 0;
      stop_result = Errno.eagain;
      stop_notify_result = Errno.eagain;
      lifecycle_deadline = 0;
    };
    cpu = record {
      affinity_state = pos 0;
      affinity_queried = false;
      affinity_seen_on = false;
      cpu_on_attempted = false;
      cpu_on_ret = Errno.eagain;
      affinity_monitor_count = 0;
      affinity_monitor_error_count = 0;
    };
    works = record { control_work = false; lifecycle_timeout_work = none; affinity_work = none };
    mailmsg_user = replicate 4 opened_user;
    mailmsg_user_open_count = 0;
    mailmsg_user_removing = false;
    next_sequence = 0;
    host = record {
      endpoint = zero_endpoint;
      memory = memory;
      world = record {
        mbox = replicate 4 armed_channel;
        notify_inject_priority = 0;
        notify_inject_errno = Errno.eio;
        notify_inject_remaining = 0;
        lifecycle_notify_bypass = false;
        mailmsg_last_notify_result = Errno.eagain;
        platform = k;
      };
    };
  }

  unfoldable pub probe : Geometry → List ℕ → Shared → K → ℤ × Option (Driver K)
  unfolding is_invalid_geometry probed
  probe g carveout memory k =
      if not (g.mpidr == core3_mpidr)
      then (Errno.einval, none)
      else if is_invalid_geometry g
      then (Errno.einval, none)
      else (pos 0, some (probed g carveout memory k))
