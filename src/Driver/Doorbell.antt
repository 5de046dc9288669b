-- ===== src/Driver/Doorbell.antt =====
-- scripts/linux-support/drivers/lzamp_amp_mailmsg.c: the A2B doorbells, the backend of the endpoint.
-- `tx_msg`, the two registers and the counters of a channel change only where the channel is idle.
use lzamp.Base.{
  ℕ, ◌+◌, ◌-◌, ◌*◌, ◌^◌, Bool, not, ◌&&◌, ◌==◌, if◌then◌else◌, bit_and, bit_or, u32, get_or, set,
}
use lzamp.Base.Int.{ℤ, pos, negsuc, ◌==ℤ◌}
use lzamp.Notify
use lzamp.Notify.{Backend}
use lzamp.Driver.Errno.{ebusy}
use lzamp.Driver.State.{MboxChannel, zero_channel, Platform, Wire}

abbrev pub mbox_a2b_status : ℕ
mbox_a2b_status = 0x04

abbrev pub mbox_a2b_cmd : ℕ → ℕ
mbox_a2b_cmd ch = 0x08 + ch * 8

abbrev pub mbox_a2b_dat : ℕ → ℕ
mbox_a2b_dat ch = 0x0c + ch * 8

abbrev pub mailmsg_doorbell : ℕ
mailmsg_doorbell = 0xa2b10000

-- `ret < 0`
abbrev pub is_negative : ℤ → Bool
is_negative (pos n) = Bool.false
is_negative (negsuc n) = Bool.true

module _ {K : Type 0} (p : Platform K) where
  abbrev pub channel_of : ℕ → Wire K → MboxChannel
  channel_of index w = get_or w.mbox index zero_channel

  abbrev pub set_channel : ℕ → MboxChannel → Wire K → Wire K
  set_channel index c w = record w { mbox = set w.mbox index c }

  unfoldable pub ring_doorbell : ℕ → ℕ → ℕ → K → K
  ring_doorbell index command value k =
      let k₁ = p.io.write32 command (p.mbox_regs + mbox_a2b_cmd index) k in
      p.io.write32 value (p.mbox_regs + mbox_a2b_dat index) k₁

  unfoldable pub direct_send_locked : ℕ → ℕ → ℕ → Wire K → ℤ × Wire K
  unfolding ring_doorbell
  direct_send_locked index command value w =
      let (status, k) = p.io.read32 (p.mbox_regs + mbox_a2b_status) w.platform in
      let c = channel_of index w in
      if not (bit_and status (2 ^ index) == 0)
      then (ebusy, set_channel index (record c { tx_ret = ebusy }) (record w { platform = k }))
      else (
        pos 0,
        set_channel index
            (record c {
              tx_cmd = command;
              tx_data = value;
              tx_ret = pos 0;
              tx_count = u32 (c.tx_count + 1);
            })
            (record w { platform = ring_doorbell index command value k }),
      )

  unfoldable pub is_injected : ℕ → Wire K → Bool
  is_injected priority w =
      not w.lifecycle_notify_bypass
      && (not (w.notify_inject_remaining == 0) && (w.notify_inject_priority == priority))

  unfoldable pub inject_failure : ℕ → Wire K → ℤ × Wire K
  inject_failure priority w =
      let result = w.notify_inject_errno in
      let c = channel_of priority w in
      (
        result,
        set_channel priority
            (record c {
              tx_ret = result;
              notify_failed_count = u32 (c.notify_failed_count + 1);
              notify_result = result;
            })
            (record w {
              notify_inject_remaining = w.notify_inject_remaining - 1;
              mailmsg_last_notify_result = result;
            }),
      )

  -- The count that an attempt raises, and the result that it gets.
  unfoldable pub account : ℤ → MboxChannel → ℤ × MboxChannel
  account result c =
      if result ==ℤ ebusy
      then (
        Notify.notify_coalesced,
        record c { notify_coalesced_count = u32 (c.notify_coalesced_count + 1) },
      )
      else if is_negative result
      then (result, record c { notify_failed_count = u32 (c.notify_failed_count + 1) })
      else (Notify.notify_sent, record c { notify_sent_count = u32 (c.notify_sent_count + 1) })

  unfoldable pub attempt : ℕ → Wire K → ℤ × Wire K
  unfolding direct_send_locked account
  attempt priority w =
      let (sent, w') = direct_send_locked priority (bit_or mailmsg_doorbell priority) priority w in
      let (result, c) = account sent (channel_of priority w') in
      (
        result,
        set_channel priority (record c { notify_result = result })
            (record w' { mailmsg_last_notify_result = result }),
      )

  unfoldable pub notify_locked : ℕ → Wire K → ℤ × Wire K
  unfolding is_injected inject_failure attempt
  notify_locked priority w =
      if is_injected priority w then inject_failure priority w else attempt priority w

  -- `mailmsg_linux_notify_ops`
  unfoldable pub linux_notify : Backend (Wire K)
  unfolding notify_locked
  linux_notify priority w = notify_locked priority w
