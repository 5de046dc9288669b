-- ===== src/Driver/User.antt =====
-- scripts/linux-support/drivers/lzamp_amp_mailmsg.c: the character devices of the priorities, and
-- the record of mailmsg/mailmsg_user.h that they carry. What the kernel does for a call (the
-- allocation, the copies to and from the caller, the wait) is an argument of the call.
use lzamp.Base.{
  ℕ, ◌+◌, ◌-◌, ◌^◌, Bool, true, false, not, ◌||◌, Option, none, some, List, [], ◌∷◌, ltb, ◌==◌,
  if◌then◌else◌, bit_or, u32, get_or, set, replicate,
}
use lzamp.Base.Int.{ℤ, pos, negsuc, ◌==ℤ◌, is_nonzero}
use lzamp.Protocol.{Message, zero_message, payload_bytes}
use lzamp.Protocol.RingResult
use lzamp.Endpoint.Send.{send, copy_bytes}
use lzamp.Endpoint.Receive.{receive, has_received}
use lzamp.Endpoint.State.{SendResult}
use lzamp.Driver.Errno
use lzamp.Driver.Gate.{data_gate_locked, ring_result_to_errno, is_endpoint_error}
use lzamp.Driver.State.{SessionState, UserChannel, zero_user, Driver}

-- `struct mailmsg_user_frame`
pub record UserFrame : Type 0 where
  pub priority : ℕ
  pub type : ℕ
  pub sequence : ℕ
  pub length : ℕ
  pub payload : List ℕ

abbrev pub frame_size : ℕ
frame_size = 48

abbrev pub zero_frame : UserFrame
zero_frame = record { priority = 0; type = 0; sequence = 0; length = 0; payload = replicate 32 0 }

-- `struct r1_amp_mailmsg_user_file`, with the priority of its channel and `O_NONBLOCK`.
pub record UserFile : Type 0 where
  pub priority : ℕ
  pub reader_claimed : Bool
  pub is_nonblocking : Bool

-- `struct mailmsg_send_result send_result = { };`
abbrev pub zero_result : SendResult
zero_result = record {
  queue_result = pos 0;
  notify_result = pos 0;
  notify_attempted = pos 0;
  sequence = 0;
}

unfoldable pub frame_of_message : ℕ → Message → UserFrame
unfolding copy_bytes
frame_of_message priority m = record {
  priority = priority;
  type = m.type;
  sequence = m.sequence;
  length = m.length;
  payload = copy_bytes m.length m.payload zero_frame.payload;
}

-- What one pass of a read ends in.
pub data ReadStep : Type 0 where
  returned : ℤ → Option UserFrame → ReadStep
  sleeping : ReadStep

abbrev pub epollin : ℕ
epollin = 0x01

abbrev pub epollerr : ℕ
epollerr = 0x08

abbrev pub epollhup : ℕ
epollhup = 0x10

abbrev pub epollrdnorm : ℕ
epollrdnorm = 0x40

-- `copied` is whether `copy_to_user` succeeds.
unfoldable pub answer_read : Bool → UserFile → ℤ → Message → ReadStep
unfolding frame_of_message ring_result_to_errno
answer_read copied f ret m =
    if not (is_nonzero ret)
    then (if copied
        then ReadStep.returned (pos frame_size) (some (frame_of_message f.priority m))
        else ReadStep.returned Errno.efault none)
    else if ret ==ℤ Errno.eagain
    then ReadStep.returned ret none
    else if ret ==ℤ Errno.enolink || ret ==ℤ Errno.eshutdown
    then ReadStep.returned ret none
    else if not (ret ==ℤ RingResult.empty)
    then ReadStep.returned (ring_result_to_errno ret) none
    else if f.is_nonblocking
    then ReadStep.returned Errno.eagain none
    else ReadStep.sleeping

unfoldable pub answer_write : ℤ → SendResult → ℤ
unfolding ring_result_to_errno
answer_write ret result =
    if ret ==ℤ Errno.eagain || (ret ==ℤ Errno.enolink || ret ==ℤ Errno.eshutdown)
    then ret
    else if is_nonzero ret
    then (if is_endpoint_error ret
        then ring_result_to_errno ret
        else ring_result_to_errno result.queue_result)
    else pos frame_size

-- `> 0`
abbrev pub is_positive : ℤ → Bool
is_positive (pos n) = ltb 0 n
is_positive (negsuc n) = false

module _ {K : Type 0} where
  abbrev pub user_of : ℕ → Driver K → UserChannel
  user_of priority d = get_or d.mailmsg_user priority zero_user

  abbrev pub set_user : ℕ → UserChannel → Driver K → Driver K
  set_user priority c d = record d { mailmsg_user = set d.mailmsg_user priority c }

  unfoldable pub user_open : Bool → ℕ → Bool → Driver K → ℤ × Option UserFile × Driver K
  unfolding data_gate_locked
  user_open allocated priority nonblocking d =
      if not allocated
      then (Errno.enomem, none, d)
      else if d.mailmsg_user_removing
      then (Errno.enodev, none, d)
      else if is_nonzero (data_gate_locked d.life.mailmsg_state)
      then (data_gate_locked d.life.mailmsg_state, none, d)
      else (
        pos 0,
        some (record { priority = priority; reader_claimed = false; is_nonblocking = nonblocking }),
        record d { mailmsg_user_open_count = u32 (d.mailmsg_user_open_count + 1) },
      )

  unfoldable pub drop_claim : UserFile → Driver K → Driver K
  drop_claim f d =
      let c = user_of f.priority d in
      if f.reader_claimed
      then set_user f.priority
          (record c { reader_open_count = u32 (c.reader_open_count + 2 ^ 32 - 1) }) d
      else d

  unfoldable pub user_release : UserFile → Driver K → Driver K
  unfolding drop_claim
  user_release f d = record (drop_claim f d) {
    mailmsg_user_open_count = u32 (d.mailmsg_user_open_count + 2 ^ 32 - 1);
  }

  unfoldable pub user_claim_reader : UserFile → Driver K → ℤ × UserFile × Driver K
  user_claim_reader f d =
      let c = user_of f.priority d in
      if f.reader_claimed
      then (pos 0, f, d)
      else if not (c.reader_open_count == 0)
      then (Errno.ebusy, f, d)
      else (
        pos 0,
        record f { reader_claimed = true },
        set_user f.priority (record c { reader_open_count = u32 (c.reader_open_count + 1) }) d,
      )

  -- Under the lock: the gate, then a frame of the endpoint.
  unfoldable pub gated_receive : ℕ → Driver K → ℤ × Message × Driver K
  unfolding data_gate_locked
  gated_receive priority d =
      if is_nonzero (data_gate_locked d.life.mailmsg_state)
      then (data_gate_locked d.life.mailmsg_state, zero_message, d)
      else let (ret, m, h) = receive priority zero_message d.host in (ret, m, record d { host = h })

  unfoldable pub read_pass : Bool → UserFile → Driver K → ReadStep × Driver K
  unfolding gated_receive answer_read
  read_pass copied f d =
      let (ret, m, d') = gated_receive f.priority d in (answer_read copied f ret m, d')

  -- The passes of a read. Each element is one sleep: what the others did to the driver, and what
  -- the wait returned. The reader still sleeps where the list ends.
  unfoldable pub read_loop :
      Bool → List (Driver K → ℤ × Driver K) → UserFile → ReadStep → Driver K → ReadStep × Driver K
  unfolding read_pass
  read_loop copied sleeps f (ReadStep.returned ret frame) d = (ReadStep.returned ret frame, d)
  read_loop copied [] f ReadStep.sleeping d = (ReadStep.sleeping, d)
  read_loop copied (slept ∷ sleeps) f ReadStep.sleeping d =
      let (interrupted, d₁) = slept d in
      let (step, d₂) = read_pass copied f d₁ in
      if is_nonzero interrupted
      then (ReadStep.returned interrupted none, d₁)
      else read_loop copied sleeps f step d₂

  unfoldable pub user_read :
      ℕ
      → Bool
      → List (Driver K → ℤ × Driver K)
      → UserFile
      → Driver K
      → ReadStep × UserFile × Driver K
  unfolding user_claim_reader read_loop read_pass
  user_read count copied sleeps f d =
      if not (count == frame_size)
      then (ReadStep.returned Errno.einval none, f, d)
      else let (claimed, f', d₁) = user_claim_reader f d in
        if is_nonzero claimed
        then (ReadStep.returned claimed none, f', d₁)
        else let (step, d₂) = read_pass copied f' d₁ in
          let (end, d₃) = read_loop copied sleeps f' step d₂ in (end, f', d₃)

  unfoldable pub gated_send : ℕ → UserFrame → Driver K → ℤ × SendResult × Driver K
  unfolding data_gate_locked
  gated_send priority frame d =
      if is_nonzero (data_gate_locked d.life.mailmsg_state)
      then (data_gate_locked d.life.mailmsg_state, zero_result, d)
      else let (ret, result, h) =
          send priority frame.type (some frame.payload) frame.length zero_result d.host in
        (ret, result, record d { host = h })

  -- `none` is a copy from the caller that fails.
  unfoldable pub user_write : ℕ → Option UserFrame → UserFile → Driver K → ℤ × Driver K
  unfolding gated_send answer_write
  user_write count none f d =
      if not (count == frame_size) then (Errno.einval, d) else (Errno.efault, d)
  user_write count (some frame) f d =
      if not (count == frame_size)
      then (Errno.einval, d)
      else if not (frame.priority == f.priority) || ltb payload_bytes frame.length
      then (Errno.einval, d)
      else let (ret, result, d') = gated_send f.priority frame d in (answer_write ret result, d')

  unfoldable pub poll_mask : ℕ → SessionState → Driver K → ℕ × Driver K
  poll_mask priority SessionState.offline d = (bit_or epollhup epollerr, d)
  poll_mask priority SessionState.stopping d = (bit_or epollhup epollerr, d)
  poll_mask priority SessionState.starting d = (epollerr, d)
  poll_mask priority SessionState.active d =
      let (answer, memory) = has_received priority d.host in
      (
        if is_positive answer then bit_or epollin epollrdnorm else 0,
        record d { host = record d.host { memory = memory } },
      )
  poll_mask priority SessionState.unarmed d = (0, d)
  poll_mask priority SessionState.start_timeout d = (0, d)
  poll_mask priority SessionState.stop_timeout d = (0, d)

  unfoldable pub user_poll : UserFile → Driver K → ℕ × UserFile × Driver K
  unfolding user_claim_reader poll_mask
  user_poll f d =
      let (claimed, f', d') = user_claim_reader f d in
      let (mask, d'') = poll_mask f.priority d'.life.mailmsg_state d' in
      if is_nonzero claimed then (epollerr, f', d') else (mask, f', d'')
