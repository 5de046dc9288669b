-- ===== src/Ring/Fixture.antt =====
-- A ring that nobody else touches, and frames for it.
use lzamp.Base.{ℕ, refl, replicate, arith}
use lzamp.Protocol.{Message, zero_message}
use lzamp.Ring.{Ring, RingOps}
use lzamp.Ring.Invariant.{IsValid}

abbrev pub Still : Type 0
Still = Unit {0}

abbrev pub still_ops : RingOps Still
still_ops = record { acquire = λ f r w. r; publish = λ f r w. w }

abbrev pub frame_of : ℕ → Message
frame_of k = record {
  generation = 9;
  type = 3;
  sequence = k;
  length = 2;
  payload = replicate 28 7;
  crc32 = 0;
  commit = 0;
}

-- A ring that has been around: its indices are about to wrap.
abbrev pub idle_ring : Ring
idle_ring = record { producer = 7; consumer = 7; slots = replicate 8 zero_message }

pub idle_ring-IsValid : IsValid idle_ring
idle_ring-IsValid = record { eight = refl; producer_in = ground arith; consumer_in = ground arith }
