-- ===== src/Endpoint/Sequence.antt =====
-- The sequence numbers of an endpoint.
use lzamp.Base.{ℕ, zero, suc, ◌+◌, ◌-◌, ◌%◌, ◌^◌, ◌<◌, ◌≡◌, ◌≢◌, arith}
use lzamp.Endpoint.{next_sequence}

-- A sequence is a word from 1 on: after the last one the count goes on with 1.
pub next_sequence_range : (s : ℕ) → (0 < next_sequence s) × (next_sequence s < 2 ^ 32)
unfolding next_sequence
next_sequence_range s = ground arith

abbrev pub sequence_after : ℕ → ℕ → ℕ
sequence_after zero s = s
sequence_after (suc n) s = next_sequence (sequence_after n s)

next_sequence_step : (s : ℕ) → s < 2 ^ 32 → next_sequence s ≡ s % (2 ^ 32 - 1) + 1
unfolding next_sequence
next_sequence_step s h = ground arith

sequence_after_closed :
    (n s : ℕ) → s < 2 ^ 32 → sequence_after (suc n) s ≡ (s + n) % (2 ^ 32 - 1) + 1
sequence_after_closed zero s h = omega (arith, next_sequence_step s h)
sequence_after_closed (suc n) s h =
    let ih = sequence_after_closed n s h in
    let step = next_sequence_step (sequence_after (suc n) s) (omega arith) in omega arith

-- From any word, the sequences of the frames `n + 1` and `m + 1` drawn after it differ, if `n` and
-- `m` differ by less than the 2 ^ 32 - 1 sequences that there are.
pub sequence_after_distinct :
    (s n m : ℕ)
    → n < m
    → m < n + (2 ^ 32 - 1)
    → s < 2 ^ 32
    → sequence_after (suc n) s ≢ sequence_after (suc m) s
sequence_after_distinct s n m lt near h e =
    omega (arith, sequence_after_closed n s h, sequence_after_closed m s h, e)
