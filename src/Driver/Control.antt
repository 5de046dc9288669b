-- ===== src/Driver/Control.antt =====
-- scripts/linux-support/drivers/lzamp_amp_mailmsg.c: the lifecycle plane. The data gate, the loss
-- of the peer, the timeout, and the work that drains priority 0 for the peer's answers.
use lzamp.Base.{
  ℕ, zero, suc, ◌+◌, ◌^◌, ◌%◌, Bool, true, false, not, ◌&&◌, ◌||◌, Option, none, some, ltb, ◌==◌,
  if◌then◌else◌,
}
use lzamp.Base.Int.{ℤ, pos, ◌==ℤ◌, is_nonzero}
use lzamp.Protocol.{Message, zero_message, protocol_version}
use lzamp.Protocol.RingResult
use lzamp.Protocol.MessageType
use lzamp.Protocol.Payload.{payload_u32}
use lzamp.Endpoint.Result
use lzamp.Endpoint.Receive.{receive}
use lzamp.Driver.Errno
use lzamp.Driver.State.{
  SessionState, Platform, Driver, with_state, platform_of, cancel_timeout, arm_timeout, wake_users,
}
use lzamp.Driver.Gate.{ring_result_to_errno, is_waiting, is_watched, ◌==state◌, is_endpoint_error}

abbrev pub lifecycle_timeout_ms : ℕ
lifecycle_timeout_ms = 5000

module _ {K : Type 0} where
  unfoldable pub mark_offline_locked : Driver K → Driver K
  mark_offline_locked d =
      if is_watched d.life.mailmsg_state
      then wake_users (cancel_timeout (with_state SessionState.offline d))
      else d

  unfoldable pub expire : SessionState → Driver K → Driver K
  expire SessionState.starting d = record d {
    life = record d.life {
      session_result = Errno.etimedout;
      mailmsg_state = SessionState.start_timeout;
    };
  }
  expire SessionState.stopping d = record d {
    life = record d.life {
      stop_result = Errno.etimedout;
      mailmsg_state = SessionState.stop_timeout;
    };
  }
  expire SessionState.unarmed d = d
  expire SessionState.start_timeout d = d
  expire SessionState.active d = d
  expire SessionState.stop_timeout d = d
  expire SessionState.offline d = d

  unfoldable pub set_timeout_locked : Driver K → Driver K
  unfolding expire
  set_timeout_locked d = wake_users (expire d.life.mailmsg_state d)

  -- The answer of the lifecycle plane to one frame: the driver after it, and whether to drain on.
  unfoldable pub reject_frame : ℤ → Driver K → Driver K × Bool
  unfolding ring_result_to_errno
  reject_frame ret d = if ret ==ℤ Result.stale_frame then (d, true) else (
    if d.life.mailmsg_state ==state SessionState.starting
        then record d { life = record d.life { session_result = ring_result_to_errno ret } }
        else record d { life = record d.life { stop_result = ring_result_to_errno ret } },
    not (is_endpoint_error ret),
  )

  unfoldable pub is_our_session : Message → Driver K → Bool
  is_our_session m d =
      m.type == MessageType.session_ready
      && (not (ltb m.length 8)
          && (payload_u32 m.payload 0 == d.life.session_generation
              && (payload_u32 m.payload 4 == protocol_version)))

  unfoldable pub open_session : Driver K → Driver K
  open_session d = cancel_timeout (record d {
    life = record d.life {
      peer_generation = d.life.session_generation;
      session_result = pos 0;
      mailmsg_state = SessionState.active;
    };
    cpu = record d.cpu { affinity_seen_on = true };
  })

  unfoldable pub is_our_reply : Message → Driver K → Bool
  is_our_reply m d =
      (m.type == MessageType.stop_ready || m.type == MessageType.stop_refused)
      && (not (ltb m.length 8) && (payload_u32 m.payload 0 == d.life.stop_request_sequence))

module _ {K : Type 0} (p : Platform K) where
  abbrev pub now : Driver K → ℕ
  now d = p.jiffies (platform_of d)

  -- `jiffies + msecs_to_jiffies(ms)` of an unsigned long.
  abbrev pub deadline_in : ℕ → Driver K → ℕ
  deadline_in ms d = (now d + p.msecs_to_jiffies ms) % 2 ^ 64

  abbrev pub is_expired : Driver K → Bool
  is_expired d = p.time_after_eq (now d) d.life.lifecycle_deadline

  unfoldable pub note_stop_ready : ℕ → Driver K → Driver K
  note_stop_ready type d = arm_timeout (p.msecs_to_jiffies lifecycle_timeout_ms) (record d {
    life = record d.life {
      stop_reply_type = type;
      stop_result = pos 0;
      lifecycle_deadline = deadline_in lifecycle_timeout_ms d;
    };
  })

  unfoldable pub reopen : ℕ → Driver K → Driver K
  reopen type d = cancel_timeout (record d {
    life = record d.life {
      stop_reply_type = type;
      stop_result = Errno.ecanceled;
      mailmsg_state = SessionState.active;
    };
  })

  unfoldable pub accept_frame : Message → Driver K → Driver K × Bool
  unfolding is_our_session open_session is_our_reply note_stop_ready reopen
  accept_frame m d =
      if d.life.mailmsg_state ==state SessionState.starting
      then (if is_our_session m d then (open_session d, false) else (d, true))
      else if not (is_our_reply m d)
      then (d, true)
      else if m.type == MessageType.stop_ready
      then (note_stop_ready m.type d, false)
      else (reopen m.type d, false)

  unfoldable pub judge_frame : ℤ → Message → Driver K → Driver K × Bool
  unfolding reject_frame set_timeout_locked accept_frame
  judge_frame ret m d =
      if ret ==ℤ RingResult.empty || ret ==ℤ RingResult.incomplete
      then (d, false)
      else if is_nonzero ret
      then reject_frame ret d
      else if is_expired d
      then (cancel_timeout (set_timeout_locked d), false)
      else accept_frame m d

  -- One round of the loop. `response` is not read before it is written.
  unfoldable pub control_round : Driver K → Driver K × Bool
  unfolding judge_frame
  control_round d =
      let (ret, m, h) = receive 0 zero_message d.host in judge_frame ret m (record d { host = h })

  -- `none` is a loop that has not ended within the fuel.
  unfoldable pub control_drain : ℕ → Driver K → Option (Driver K)
  unfolding control_round
  control_drain zero d = none
  control_drain (suc fuel) d =
      let (d', again) = control_round d in
      let rest = control_drain fuel d' in if again then rest else some d'

  unfoldable pub control_work : ℕ → Driver K → Option (Driver K)
  unfolding control_drain set_timeout_locked
  control_work fuel d =
      if not (is_waiting d.life.mailmsg_state)
      then some d
      else if is_expired d
      then some (cancel_timeout (set_timeout_locked d))
      else control_drain fuel d
