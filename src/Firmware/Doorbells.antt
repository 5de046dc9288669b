-- ===== src/Firmware/Doorbells.antt =====
-- zephyr/app/src/main.c: a doorbell of Linux, from the mailbox interrupt to the service of its priority.
use lzamp.Base.{
  ℕ, ◌≡◌, ◌⊎◌, Bool, true, false, not, ◌&&◌, ◌||◌, List, [], ◌∷◌, ◌==◌, ◌/◌, ◌%◌, ◌^◌, bit_and,
  bit_or, arith, ◌+◌,
}
use lzamp.Base.Bits.{bit_or-bit, bit_and-pow, pow_positive}
use lzamp.Firmware.State.{Board, Firmware}
use lzamp.Firmware.Serve.{mbox_a2b_status}
use lzamp.Firmware.Worker.{Phase, Turn, turn, mbox_a2b_cmd}

-- Bit `k` of a set of priorities, as the service tests it.
abbrev pub is_due : ℕ → ℕ → Bool
is_due k word = not (bit_and word (2 ^ k) == 0)

due_bit : (k word : ℕ) → is_due k word ≡ true → word / 2 ^ k % 2 ≡ 1
due_bit k word due = let e = bit_and-pow k word in ground (arith, e)

bit_due : (k word : ℕ) → word / 2 ^ k % 2 ≡ 1 → is_due k word ≡ true
bit_due k word set = let e = bit_and-pow k word in ground (arith, e, pow_positive k)

pub due_or_left : (k a b : ℕ) → is_due k a ≡ true → is_due k (bit_or a b) ≡ true
due_or_left k a b due = bit_due k (bit_or a b) (omega (arith, bit_or-bit k a b, due_bit k a due))

pub due_or_right : (k a b : ℕ) → is_due k b ≡ true → is_due k (bit_or a b) ≡ true
due_or_right k a b due = bit_due k (bit_or a b) (omega (arith, bit_or-bit k a b, due_bit k b due))

-- What the worker has taken and not served yet, or wants to look at again.
abbrev pub in_hand : Phase → ℕ
in_hand Phase.waiting = 0
in_hand Phase.woken = 0
in_hand (Phase.serving pending) = pending
in_hand (Phase.reporting pending t) = t.reschedule

-- Priority `k` waits for a pass of the service.
abbrev pub Waits : {W : Type 0} → ℕ → Phase × Firmware W → Type 0
Waits k s = (is_due k s.1.pending_priorities ≡ true) ⊎ (is_due k (in_hand s.0) ≡ true)

-- This turn calls the service with a set that holds priority `k`.
abbrev pub serves_now : {W : Type 0} → ℕ → Turn → Phase × Firmware W → Bool
serves_now k (Turn.interrupt index) (phase, f) = false
serves_now k Turn.work (Phase.waiting, f) = false
serves_now k Turn.work (Phase.woken, f) = false
serves_now k Turn.work (Phase.serving pending, f) = not f.is_off && is_due k pending
serves_now k Turn.work (Phase.reporting pending t, f) = false

module _ {W : Type 0} (b : Board W) (k : ℕ) where
  unfoldable pub serves : List Turn → Phase × Firmware W → Bool
  serves [] s = false
  serves (t ∷ ts) s = serves_now k t s || serves ts (turn b t s)

  -- The command that the interrupt of this channel reads.
  abbrev pub command_read : Firmware W → ℕ
  command_read f =
      let (status, w₁) = b.io.read32 (b.mailbox + mbox_a2b_status) f.host.world in
      (b.io.read32 (b.mailbox + mbox_a2b_cmd k) w₁).0
