-- ===== src/Driver/Watch.antt =====
-- scripts/linux-support/drivers/lzamp_amp_mailmsg.c: what watches over a session. The samples of
-- CPU3's affinity, the timeout, and the interrupt of the mailbox.
use lzamp.Base.{
  ℕ, ◌+◌, ◌-◌, ◌^◌, ◌%◌, true, not, ◌&&◌, ◌||◌, Option, none, some, ◌==◌, if◌then◌else◌, u32,
  get_or, set,
}
use lzamp.Base.Int.{ℤ, pos, ◌==ℤ◌, is_nonzero}
use lzamp.Protocol.MessageType
use lzamp.Driver.Errno
use lzamp.Driver.Doorbell.{is_negative}
use lzamp.Driver.State.{
  SessionState, MboxChannel, Platform, zero_user, wake, Driver, platform_of, with_platform,
  arm_timeout, arm_affinity, schedule_control, zero_channel,
}
use lzamp.Driver.Gate.{is_waiting, is_watched, ◌==state◌}
use lzamp.Driver.Control.{now, mark_offline_locked, set_timeout_locked}

abbrev pub affinity_monitor_ms : ℕ
affinity_monitor_ms = 1000

abbrev pub psci_on : ℤ
psci_on = pos 0

abbrev pub psci_off : ℤ
psci_off = pos 1

abbrev pub psci_on_pending : ℤ
psci_on_pending = pos 2

module _ {K : Type 0} (p : Platform K) where
  unfoldable pub refresh_affinity_locked : Driver K → ℤ × Driver K
  unfolding mark_offline_locked
  refresh_affinity_locked d =
      let (state, k) = p.affinity_info d.mpidr (platform_of d) in
      let seen =
        if state ==ℤ psci_on || state ==ℤ psci_on_pending then true else d.cpu.affinity_seen_on in
      let sampled = record (with_platform k d) {
        cpu = record d.cpu {
          affinity_state = state;
          affinity_queried = true;
          affinity_seen_on = seen;
        };
      } in
      (
        state,
        if not (is_nonzero d.cpu.cpu_on_ret) && (seen && (state ==ℤ psci_off))
            then mark_offline_locked sampled
            else sampled,
      )

  -- A read of the sysfs entry: the sampled state, or the error.
  unfoldable pub affinity_state_show : Driver K → ℤ × Driver K
  unfolding refresh_affinity_locked
  affinity_state_show d =
      if not p.has_affinity_info then (Errno.eopnotsupp, d) else refresh_affinity_locked d

  unfoldable pub count_sample : ℤ → Driver K → Driver K
  count_sample state d = record d {
    cpu = record d.cpu {
      affinity_monitor_count = u32 (d.cpu.affinity_monitor_count + 1);
      affinity_monitor_error_count =
          if is_negative state
          then u32 (d.cpu.affinity_monitor_error_count + 1)
          else d.cpu.affinity_monitor_error_count;
    };
  }

  unfoldable pub affinity_work : Driver K → Driver K
  unfolding refresh_affinity_locked count_sample
  affinity_work d =
      if not (is_watched d.life.mailmsg_state) || d.mailmsg_user_removing
      then d
      else let (state, sampled) = refresh_affinity_locked d in
        let counted = count_sample state sampled in
        let drained =
          if is_waiting counted.life.mailmsg_state then schedule_control counted else counted in
        if is_watched drained.life.mailmsg_state && not drained.mailmsg_user_removing
        then arm_affinity (p.msecs_to_jiffies affinity_monitor_ms) drained
        else drained

  -- The sample before a stop timeout is reported.
  unfoldable pub last_look : Driver K → Driver K
  unfolding refresh_affinity_locked
  last_look d =
      if d.life.mailmsg_state ==state SessionState.stopping
        && (d.life.stop_reply_type == MessageType.stop_ready)
      then (refresh_affinity_locked d).1
      else d

  unfoldable pub lifecycle_timeout_work : Driver K → Driver K
  unfolding last_look set_timeout_locked
  lifecycle_timeout_work d =
      if not (is_waiting d.life.mailmsg_state)
      then d
      else if p.time_before (now p d) d.life.lifecycle_deadline
      then arm_timeout ((d.life.lifecycle_deadline + 2 ^ 64 - now p d) % 2 ^ 64) d
      else let looked = last_look d in
        if looked.life.mailmsg_state ==state SessionState.offline
        then looked
        else set_timeout_locked looked

-- The mailbox message is the command and the data, or null.
abbrev pub store_message : Option (ℕ × ℕ) → MboxChannel → MboxChannel
store_message none c = c
store_message (some (cmd, value)) c = record c { rx_last_cmd = cmd; rx_last_data = value }

module _ {K : Type 0} where
  unfoldable pub rx_callback : ℕ → Option (ℕ × ℕ) → Driver K → Driver K
  rx_callback index message d =
      let c = get_or d.host.world.mbox index zero_channel in
      let stored = store_message message c in
      let counted = record stored { rx_count = u32 (c.rx_count + 1) } in
      let d' = record d {
        host = record d.host {
          world = record d.host.world { mbox = set d.host.world.mbox index counted };
        };
        mailmsg_user = set d.mailmsg_user index (wake (get_or d.mailmsg_user index zero_user));
      } in
      if is_waiting d.life.mailmsg_state then schedule_control d' else d'
