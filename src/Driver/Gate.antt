-- ===== src/Driver/Gate.antt =====
-- scripts/linux-support/drivers/lzamp_amp_mailmsg.c: the session state as a gate for the data plane,
-- and the error numbers of the results of the endpoint.
use lzamp.Base.{ℕ, Bool, true, false, ◌||◌, leb, ◌==◌, if◌then◌else◌}
use lzamp.Base.Int.{ℤ, pos, negsuc, ◌==ℤ◌}
use lzamp.Protocol.RingResult
use lzamp.Endpoint.Result
use lzamp.Driver.Errno
use lzamp.Driver.State.{SessionState}

unfoldable pub data_gate_locked : SessionState → ℤ
data_gate_locked SessionState.active = pos 0
data_gate_locked SessionState.starting = Errno.eagain
data_gate_locked SessionState.start_timeout = Errno.etimedout
data_gate_locked SessionState.stopping = Errno.eshutdown
data_gate_locked SessionState.stop_timeout = Errno.etimedout
data_gate_locked SessionState.offline = Errno.enolink
data_gate_locked SessionState.unarmed = Errno.enolink

unfoldable pub ring_result_to_errno : ℤ → ℤ
ring_result_to_errno result =
    if result ==ℤ RingResult.ok
    then pos 0
    else if result ==ℤ RingResult.empty
    then Errno.enodata
    else if result ==ℤ RingResult.full
    then Errno.enospc
    else if result ==ℤ RingResult.incomplete
    then Errno.eagain
    else if result ==ℤ RingResult.bad_crc
    then Errno.ebadmsg
    else if result ==ℤ RingResult.invalid
    then Errno.eproto
    else if result ==ℤ Result.invalid
    then Errno.einval
    else if result ==ℤ Result.protocol_mismatch
    then Errno.eproto
    else if result ==ℤ Result.stale_session || result ==ℤ Result.stale_frame
    then Errno.estale
    else Errno.eio

-- STARTING or STOPPING: the lifecycle plane owns priority 0.
abbrev pub is_waiting : SessionState → Bool
is_waiting SessionState.starting = true
is_waiting SessionState.stopping = true
is_waiting SessionState.unarmed = false
is_waiting SessionState.start_timeout = false
is_waiting SessionState.active = false
is_waiting SessionState.stop_timeout = false
is_waiting SessionState.offline = false

-- The five states of a session that is neither unarmed nor offline.
abbrev pub is_watched : SessionState → Bool
is_watched SessionState.starting = true
is_watched SessionState.start_timeout = true
is_watched SessionState.active = true
is_watched SessionState.stopping = true
is_watched SessionState.stop_timeout = true
is_watched SessionState.unarmed = false
is_watched SessionState.offline = false

abbrev pub state_rank : SessionState → ℕ
state_rank SessionState.unarmed = 0
state_rank SessionState.starting = 1
state_rank SessionState.start_timeout = 2
state_rank SessionState.active = 3
state_rank SessionState.stopping = 4
state_rank SessionState.stop_timeout = 5
state_rank SessionState.offline = 6

infix 50 ◌==state◌
abbrev pub ◌==state◌ : SessionState → SessionState → Bool
s ==state t = state_rank s == state_rank t

-- `ret <= MAILMSG_ENDPOINT_INVALID`
abbrev pub is_endpoint_error : ℤ → Bool
is_endpoint_error (pos n) = false
is_endpoint_error (negsuc n) = leb 99 n
