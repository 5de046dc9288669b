-- ===== src/Driver/Probes.antt =====
-- scripts/linux-support/drivers/lzamp_amp_mailmsg.c: the sysfs entries for tests and diagnostics.
-- A text that does not parse is `none`; `count` is its length, the answer of a write that succeeds.
use lzamp.Base.{
  ℕ, ◌+◌, ◌-◌, ◌^◌, ◌%◌, Bool, true, false, not, ◌||◌, Option, none, some, List, [], ◌∷◌, ltb, leb,
  ◌==◌, if◌then◌else◌, bit_or, bit_xor, set,
}
use lzamp.Base.Int.{ℤ, pos, negsuc, is_nonzero}
use lzamp.Protocol.{Message, zero_message, le32_bytes, priority_count}
use lzamp.Protocol.MessageType
use lzamp.Ring.{
  Ring, RingOps, Field, is_bad_header, fill_slot, commit_slot, advance_producer, next_index,
  slot_at,
}
use lzamp.Endpoint.{next_sequence, is_other_protocol}
use lzamp.Endpoint.Send.{send, copy_bytes}
use lzamp.Endpoint.State.{Direction, MemoryOps, ring_of, set_ring}
use lzamp.Driver.Errno
use lzamp.Driver.Doorbell.{
  is_negative, direct_send_locked, notify_locked, mbox_a2b_status, mbox_a2b_cmd, mbox_a2b_dat,
}
use lzamp.Driver.Gate.{data_gate_locked, ◌==state◌}
use lzamp.Driver.User.{zero_result}
use lzamp.Driver.Stop.{send_errno}
use lzamp.Driver.State.{SessionState, Platform, Wire, Driver, platform_of, with_platform}

-- `slot->payload[0] ^= 0xff`, after the checksum.
unfoldable pub corrupt_first : List ℕ → List ℕ
corrupt_first [] = []
corrupt_first (byte ∷ bytes) = bit_xor byte 0xff ∷ bytes

unfoldable pub corrupt_slot : Bool → ℕ → Ring → Ring
unfolding corrupt_first
corrupt_slot corrupt i r =
    let slot = slot_at r i in
    if corrupt
    then record r { slots = set r.slots i (record slot { payload = corrupt_first slot.payload }) }
    else r

module _ {W : Type 0} (ops : RingOps W) where
  unfoldable pub store_test_frame : Bool → ℕ → Message → Ring → W → ℤ × Ring × W
  unfolding corrupt_slot
  store_test_frame corrupt producer m r w =
      let filled = corrupt_slot corrupt producer (fill_slot producer m r) in
      let w₁ = ops.publish (Field.frame producer) filled w in
      let committed = commit_slot producer m.sequence filled in
      let w₂ = ops.publish (Field.commit_word producer) committed w₁ in
      let advanced = advance_producer producer committed in
      let w₃ = ops.publish Field.producer_index advanced w₂ in (pos 0, advanced, w₃)

  unfoldable pub offer_test_frame : Bool → ℕ → Message → Ring → W → ℤ × Ring × W
  unfolding store_test_frame
  offer_test_frame corrupt producer m r w =
      if next_index producer == r.consumer
      then (Errno.enospc, r, w)
      else store_test_frame corrupt producer m r w

  unfoldable pub linux_ring_push : Message → Bool → Ring → W → ℤ × Ring × W
  unfolding offer_test_frame
  linux_ring_push m corrupt r w =
      if is_bad_header m
      then (Errno.einval, r, w)
      else offer_test_frame corrupt r.producer m (ops.acquire Field.consumer_index r w) w

-- `ret ? ret : count`
abbrev pub ret_or : ℕ → ℤ → ℤ
ret_or count ret = if is_nonzero ret then ret else pos count

module _ {K : Type 0} (p : Platform K) (ops : MemoryOps (Wire K)) where
  unfoldable pub push_test_frame : ℕ → ℕ → Bool → Driver K → ℤ × Driver K
  unfolding linux_ring_push
  push_test_frame priority value corrupt d =
      let sequence = next_sequence d.host.endpoint.next_sequence in
      let request = record zero_message {
        type = MessageType.ping;
        generation = d.host.endpoint.generation;
        sequence = sequence;
        length = 4;
        payload = copy_bytes 4 (le32_bytes value) zero_message.payload;
      } in
      let (ret, ring, w) =
        linux_ring_push (ops.rings Direction.linux_to_cpu3 priority) request corrupt
          (ring_of Direction.linux_to_cpu3 priority d.host.memory) d.host.world in
      (
        ret,
        record d {
          host = record {
            endpoint = record d.host.endpoint { next_sequence = sequence };
            memory = set_ring Direction.linux_to_cpu3 priority ring d.host.memory;
            world = w;
          };
        },
      )

  unfoldable pub test_enqueue_locked : ℕ → ℕ → Bool → Driver K → ℤ × Driver K
  unfolding push_test_frame
  test_enqueue_locked priority value corrupt d =
      let header = ops.acquire_header d.host.memory.header d.host.world in
      let seen = record d {
        host = record d.host { memory = record d.host.memory { header = header } };
      } in
      if is_other_protocol header || not (header.generation == d.host.endpoint.generation)
      then (Errno.eproto, seen)
      else push_test_frame priority value corrupt seen

  -- The doorbell alone; its result is in the status.
  unfoldable pub ring_after_test : ℕ → Driver K → Driver K
  ring_after_test priority d =
      let (rung, w) = notify_locked p priority d.host.world in
      record d { host = record d.host { world = w } }

  unfoldable pub send_corrupt_ping : ℕ → ℕ → ℕ → Driver K → ℤ × Driver K
  unfolding test_enqueue_locked ring_after_test
  send_corrupt_ping priority value count d =
      let (ret, pushed) = test_enqueue_locked priority value true d in
      if is_nonzero ret then (ret, pushed) else (pos count, ring_after_test priority pushed)

  unfoldable pub send_plain_ping : ℕ → ℕ → ℕ → Driver K → ℤ × Driver K
  send_plain_ping priority value count d =
      let (ret, result, h) =
        send priority MessageType.ping (some (le32_bytes value)) 4 zero_result d.host in
      let sent = record d { host = h } in
      if is_nonzero ret then (send_errno ret result, sent) else (pos count, sent)

  -- `mailmsg_ping`, and `mailmsg_crc_inject` with `corrupt`.
  unfoldable pub send_ping : Option (ℕ × ℕ) → ℕ → Bool → Driver K → ℤ × Driver K
  unfolding send_corrupt_ping send_plain_ping
  send_ping none count corrupt d = (Errno.einval, d)
  send_ping (some (priority, value)) count corrupt d =
      let gate = data_gate_locked d.life.mailmsg_state in
      if leb priority_count priority
      then (Errno.einval, d)
      else if is_nonzero gate
      then (gate, d)
      else if corrupt
      then send_corrupt_ping priority value count d
      else send_plain_ping priority value count d

  unfoldable pub queue_push_store : Option (ℕ × ℕ) → ℕ → Driver K → ℤ × Driver K
  unfolding test_enqueue_locked
  queue_push_store none count d = (Errno.einval, d)
  queue_push_store (some (priority, value)) count d =
      let gate = data_gate_locked d.life.mailmsg_state in
      let (ret, pushed) = test_enqueue_locked priority value false d in
      if leb priority_count priority
      then (Errno.einval, d)
      else if is_nonzero gate
      then (gate, d)
      else (ret_or count ret, pushed)

  unfoldable pub doorbell_store : Option (ℕ × ℕ) → ℕ → Driver K → ℤ × Driver K
  doorbell_store none count d = (Errno.einval, d)
  doorbell_store (some (index, value)) count d =
      let gate = data_gate_locked d.life.mailmsg_state in
      let (ret, w) = direct_send_locked p index (bit_or 0xa2b00000 index) value d.host.world in
      let rung = record d { host = record d.host { world = w } } in
      if leb 4 index
      then (Errno.einval, d)
      else if is_nonzero gate
      then (gate, d)
      else if is_negative ret
      then (ret, rung)
      else (pos count, rung)

-- What a `mailmsg_notify_inject` asks for.
pub data InjectRequest : Type 0 where
  clear garbled : InjectRequest
  inject : ℕ → ℤ → ℕ → InjectRequest

-- `injected_errno >= 0 || injected_errno < -MAX_ERRNO`
abbrev pub is_no_errno : ℤ → Bool
is_no_errno (pos n) = true
is_no_errno (negsuc n) = leb 4095 n

module _ {K : Type 0} where
  unfoldable pub notify_inject_store : InjectRequest → ℕ → Driver K → ℤ × Driver K
  notify_inject_store InjectRequest.clear count d = (
    pos count,
    record d {
      host = record d.host { world = record d.host.world { notify_inject_remaining = 0 } };
    },
  )
  notify_inject_store InjectRequest.garbled count d = (Errno.einval, d)
  notify_inject_store (InjectRequest.inject priority errno remaining) count d =
      let gate = data_gate_locked d.life.mailmsg_state in
      if leb priority_count priority
        || (is_no_errno errno || (remaining == 0 || ltb 1000 remaining))
      then (Errno.einval, d)
      else if is_nonzero gate
      then (gate, d)
      else (
        pos count,
        record d {
          host = record d.host {
            world = record d.host.world {
              notify_inject_priority = priority;
              notify_inject_errno = errno;
              notify_inject_remaining = remaining;
            };
          };
        },
      )

-- The legacy one-shot command: its payload and commit lines, the observation line of CPU3, and what
-- the mailbox showed right after the doorbell.
pub record LegacyPage : Type 0 where
  pub command : ℕ
  pub value : ℕ
  pub sequence : ℕ
  pub sequence_inv : ℕ
  pub observation : ℕ × ℕ × ℕ × ℕ
  pub a2b_at_tx : ℕ × ℕ × ℕ

abbrev pub step64 : ℕ → ℕ
step64 s = (s + 1) % 2 ^ 64

module _ {K : Type 0} (p : Platform K) where
  unfoldable pub snapshot_a2b : LegacyPage → Driver K → LegacyPage × Driver K
  snapshot_a2b page d =
      let (status, k₁) = p.io.read32 (p.mbox_regs + mbox_a2b_status) (platform_of d) in
      let (cmd, k₂) = p.io.read32 (p.mbox_regs + mbox_a2b_cmd 3) k₁ in
      let (dat, k₃) = p.io.read32 (p.mbox_regs + mbox_a2b_dat 3) k₂ in
      (record page { a2b_at_tx = (status, cmd, dat) }, with_platform k₃ d)

  -- Behind the guards.
  unfoldable pub post_ping : ℕ → ℕ → LegacyPage → Driver K → ℤ × LegacyPage × Driver K
  unfolding snapshot_a2b
  post_ping value count page d =
      let sequence =
        if step64 d.next_sequence == 0
        then step64 (step64 d.next_sequence)
        else step64 d.next_sequence in
      let posted = record page {
        command = 1;
        value = value;
        sequence = sequence;
        sequence_inv = 2 ^ 64 - 1 - sequence;
        observation = (0, 0, 0, 0);
      } in
      let (ret, w) = direct_send_locked p 3 1 value d.host.world in
      let sent = record d { next_sequence = sequence; host = record d.host { world = w } } in
      let (page', d') = snapshot_a2b posted sent in
      if is_negative ret then (ret, posted, sent) else (pos count, page', d')

  -- `parsed` is what `kstrtou32` found, or its error.
  unfoldable pub ping_store : ℤ → ℕ → ℕ → LegacyPage → Driver K → ℤ × LegacyPage × Driver K
  unfolding post_ping
  ping_store parsed value count page d =
      let gate = data_gate_locked d.life.mailmsg_state in
      if is_nonzero parsed
      then (parsed, page, d)
      else if not (d.life.mailmsg_state ==state SessionState.unarmed)
      then (Errno.eopnotsupp, page, d)
      else if is_nonzero gate
      then (gate, page, d)
      else post_ping value count page d
