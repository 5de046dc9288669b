-- ===== src/Driver/Diagnostics.antt =====
-- The test entries against the code that they stand in for.
use lzamp.Base.{ℕ, ◌≡◌, false, if◌then◌else◌, arith}
use lzamp.Base.Int.{ℤ, negsuc, ◌==ℤ◌, is_nonzero}
use lzamp.Protocol.{Message}
use lzamp.Protocol.RingResult
use lzamp.Ring
use lzamp.Ring.{Ring, RingOps, offer_frame, store_frame, is_bad_header}
use lzamp.Driver.Errno
use lzamp.Driver.State.{SessionState, Platform, Driver}
use lzamp.Driver.Gate.{data_gate_locked, ◌==state◌}
use lzamp.Driver.Probes.{
  linux_ring_push, offer_test_frame, store_test_frame, corrupt_slot, LegacyPage, ping_store,
}

-- The error numbers that the test entry uses for the results of a push.
abbrev pub push_errno : ℤ → ℤ
push_errno ret =
    if ret ==ℤ RingResult.invalid
    then Errno.einval
    else if ret ==ℤ RingResult.full
    then Errno.enospc
    else ret

-- The driver's own copy of the push (`mailmsg_linux_ring_push`), where it is not asked to corrupt
-- the payload, does to every ring and world what `mailmsg_ring_push` does, and returns -EINVAL,
-- -ENOSPC or 0 where that returns INVALID, FULL or OK.
pub linux_ring_push-push :
    {W : Type 0} (ops : RingOps W) (m : Message) (r : Ring) (w : W)
    → let (ret, r', w') = Ring.push ops m r w in
      linux_ring_push ops m false r w ≡ (push_errno ret, r', w')
unfolding linux_ring_push offer_test_frame store_test_frame corrupt_slot Ring.push offer_frame
    store_frame
linux_ring_push-push ops m r w = ground arith

-- The legacy `ping` entry never sends. A text that does not parse gives the parser's error; else
-- the entry answers -EOPNOTSUPP away from UNARMED, and -ENOLINK in UNARMED. Nothing is written.
pub ping_store_refused :
    {K : Type 0} (p : Platform K) (parsed : ℤ) (value count : ℕ) (page : LegacyPage) (d : Driver K)
    → ping_store p parsed value count page d ≡ (
      if is_nonzero parsed
          then parsed
          else if d.life.mailmsg_state ==state SessionState.unarmed
          then negsuc 66
          else negsuc 94,
      page,
      d,
    )
unfolding ping_store data_gate_locked
ping_store_refused p parsed value count page d = ground arith
