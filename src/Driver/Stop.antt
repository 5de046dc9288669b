-- ===== src/Driver/Stop.antt =====
-- scripts/linux-support/drivers/lzamp_amp_mailmsg.c: the controlled stop.
use lzamp.Base.{
  ℕ, zero, suc, ◌+◌, Bool, true, false, not, ◌||◌, Option, none, some, ◌==◌, if◌then◌else◌, bit_and,
}
use lzamp.Base.Int.{ℤ, pos, ◌==ℤ◌, is_nonzero}
use lzamp.Protocol.RingResult
use lzamp.Protocol.MessageType
use lzamp.Ring
use lzamp.Notify
use lzamp.Endpoint.Send.{send}
use lzamp.Endpoint.Receive.{has_received}
use lzamp.Endpoint.State.{Direction, MemoryOps, SendResult, ring_of, set_ring}
use lzamp.Driver.Errno
use lzamp.Driver.Doorbell.{is_negative}
use lzamp.Driver.Control.{deadline_in, lifecycle_timeout_ms}
use lzamp.Driver.Gate.{ring_result_to_errno, is_endpoint_error, ◌==state◌}
use lzamp.Driver.User.{zero_result, is_positive}
use lzamp.Driver.Admin.{a2b_status}
use lzamp.Driver.State.{SessionState, Platform, Wire, Driver, arm_timeout}

-- `ret > 0 ? -EBUSY : mailmsg_ring_result_to_errno(ret)`
unfoldable pub busy_or_errno : ℤ → ℤ
unfolding ring_result_to_errno
busy_or_errno ret = if is_positive ret then Errno.ebusy else ring_result_to_errno ret

abbrev pub is_null : {A : Type 0} → Option A → Bool
is_null none = true
is_null (some a) = false

-- The errno of a send that failed.
unfoldable pub send_errno : ℤ → SendResult → ℤ
unfolding ring_result_to_errno
send_errno ret result =
    if is_endpoint_error ret
    then ring_result_to_errno ret
    else ring_result_to_errno result.queue_result

-- `!mailmsg_notify_accepted(ret) && ret < 0` leaves the notify result as the answer.
unfoldable pub stop_answer : ℤ → ℤ
stop_answer rung =
    if Notify.notify_accepted rung then pos 0 else if is_negative rung then rung else pos 0

module _ {K : Type 0} where
  -- `mailmsg_endpoint_has_received(&data->mailmsg_endpoint, priority)`
  unfoldable pub reverse_pending : ℕ → Driver K → ℤ × Driver K
  reverse_pending priority d =
      let (ret, memory) = has_received priority d.host in
      (ret, record d { host = record d.host { memory = memory } })

  -- The state before the request is sent.
  unfoldable pub enter_stopping : Driver K → Driver K
  enter_stopping d = record d {
    life = record d.life {
      mailmsg_state = SessionState.stopping;
      stop_request_sequence = 0;
      stop_reply_type = 0;
      stop_result = Errno.einprogress;
      stop_notify_result = Errno.einprogress;
    };
    host = record d.host { world = record d.host.world { lifecycle_notify_bypass = true } };
  }

  unfoldable pub send_stop : Driver K → ℤ × SendResult × Driver K
  send_stop d =
      let (ret, result, h) = send 0 MessageType.stop_request none 0 zero_result d.host in
      (
        ret,
        result,
        record d { host = record h { world = record h.world { lifecycle_notify_bypass = false } } },
      )

  unfoldable pub abandon_stop : ℤ → Driver K → Driver K
  abandon_stop errno d = record d {
    life = record d.life { mailmsg_state = SessionState.active; stop_result = errno };
  }

module _ {K : Type 0} (p : Platform K) where
  unfoldable pub await_reply : SendResult → Driver K → Driver K
  await_reply result d = arm_timeout (p.msecs_to_jiffies lifecycle_timeout_ms) (record d {
    life = record d.life {
      stop_request_sequence = result.sequence;
      stop_notify_result = result.notify_result;
      lifecycle_deadline = deadline_in p lifecycle_timeout_ms d;
    };
  })

  unfoldable pub request_stop : Driver K → ℤ × Driver K
  unfolding enter_stopping send_stop send_errno abandon_stop stop_answer await_reply
  request_stop d =
      let (ret, result, sent) = send_stop (enter_stopping d) in
      if is_nonzero ret
      then (send_errno ret result, abandon_stop (send_errno ret result) sent)
      else (stop_answer result.notify_result, await_reply result sent)

  module _ (ops : MemoryOps (Wire K)) where
    -- `mailmsg_ring_has_data(&shared->linux_to_cpu3[priority], &mailmsg_linux_memory_ops)`
    unfoldable pub forward_pending : ℕ → Driver K → ℤ × Driver K
    forward_pending priority d =
        let (ret, ring) =
          Ring.has_data (some (ops.rings Direction.linux_to_cpu3 priority))
            (ring_of Direction.linux_to_cpu3 priority d.host.memory) d.host.world in
        (
          ret,
          record d {
            host = record d.host {
              memory = set_ring Direction.linux_to_cpu3 priority ring d.host.memory;
            };
          },
        )

    -- The loop over the priorities: `some` where it returns from inside.
    unfoldable pub preflight_rings : ℕ → ℕ → Driver K → Option ℤ × Driver K
    unfolding reverse_pending forward_pending busy_or_errno
    preflight_rings zero priority d = (none, d)
    preflight_rings (suc left) priority d =
        let (reverse, d₁) = reverse_pending priority d in
        let (forward, d₂) = forward_pending priority d₁ in
        let rest = preflight_rings left (priority + 1) d₂ in
        if not (reverse ==ℤ RingResult.empty)
        then (some (busy_or_errno reverse), d₁)
        else if not (forward ==ℤ RingResult.empty)
        then (some (busy_or_errno forward), d₂)
        else rest

    unfoldable pub preflight_verdict : Option ℤ → Driver K → ℤ × Driver K
    preflight_verdict (some ret) d = (ret, d)
    preflight_verdict none d =
        let (status, d') = a2b_status p d in
        (if bit_and status 0xf == 0 then pos 0 else Errno.ebusy, d')

    unfoldable pub stop_preflight_locked : Driver K → ℤ × Driver K
    unfolding preflight_rings preflight_verdict
    stop_preflight_locked d =
        if not (d.mailmsg_user_open_count == 0)
        then (Errno.ebusy, d)
        else if is_null d.host.endpoint.tx || is_null d.host.endpoint.rx
        then (Errno.eproto, d)
        else let (verdict, d') = preflight_rings 4 0 d in preflight_verdict verdict d'

    unfoldable pub stop_store : Bool → Driver K → ℤ × Driver K
    unfolding stop_preflight_locked request_stop
    stop_store is_stop d =
        let (ret, checked) = stop_preflight_locked d in
        if not is_stop
        then (Errno.einval, d)
        else if d.life.mailmsg_state ==state SessionState.offline
        then (Errno.enolink, d)
        else if not (d.life.mailmsg_state ==state SessionState.active)
        then (Errno.ebusy, d)
        else if is_nonzero ret
        then (ret, checked)
        else request_stop checked
