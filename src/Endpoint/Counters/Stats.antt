-- ===== src/Endpoint/Counters/Stats.antt =====
-- The counters of one priority, and what each of their updates keeps.
use lzamp.Base.{ℕ, ◌+◌, ◌%◌, ◌^◌, ◌≤◌, ◌<◌, ◌≡◌, refl, false, some, Option, List, arith}
use lzamp.Base.Int.{ℤ, pos, negsuc}
use lzamp.Endpoint.Send.{count_notify, count_enqueued, count_refused, is_bad_request}
use lzamp.Endpoint.Receive.{count_received}
use lzamp.Endpoint.State.{PriorityStats}
use lzamp.Ring
use lzamp.Ring.{Ring, RingOps}

-- Every frame that was enqueued has rung the doorbell once, as far as words count.
abbrev pub IsBalanced : PriorityStats → Type 0
IsBalanced s =
    (s.notify_sent + s.notify_coalesced + s.notify_failed) % 2 ^ 32 ≡ s.tx_enqueued % 2 ^ 32

pub count_notify-balance :
    (depth rung : ℤ) (s : PriorityStats)
    → IsBalanced s
    → IsBalanced (count_notify rung (count_enqueued depth s))
unfolding count_notify count_enqueued
count_notify-balance depth rung s h = ground arith

pub high_water-le :
    (depth rung : ℤ) (s : PriorityStats)
    → ((n : ℕ) → depth ≡ pos n → n ≤ 7)
    → s.tx_high_water ≤ 7
    → (count_notify rung (count_enqueued depth s)).tx_high_water ≤ 7
unfolding count_notify count_enqueued
high_water-le (pos n) rung s small h = ground (arith, small n refl)
high_water-le (negsuc n) rung s small h = ground arith

-- The counters of one priority: a doorbell rung for every frame enqueued, and never more than
-- seven frames seen in the ring.
pub record IsSane (s : PriorityStats) : Type 0 where
  pub balanced : IsBalanced s
  pub shallow : s.tx_high_water ≤ 7

pub count_sent-IsSane :
    (depth rung : ℤ) (s : PriorityStats)
    → ((n : ℕ) → depth ≡ pos n → n ≤ 7)
    → IsSane s
    → IsSane (count_notify rung (count_enqueued depth s))
count_sent-IsSane depth rung s small h = record {
  balanced = count_notify-balance depth rung s h.balanced;
  shallow = high_water-le depth rung s small h.shallow;
}

pub count_refused-IsSane :
    (queue_result : ℤ) (s : PriorityStats) → IsSane s → IsSane (count_refused queue_result s)
unfolding count_refused
count_refused-IsSane queue_result s h = ground arith

pub count_received-IsSane : (ret : ℤ) (s : PriorityStats) → IsSane s → IsSane (count_received ret s)
unfolding count_received
count_received-IsSane ret s h = ground arith

pub count-small :
    {W : Type 0} (ops : RingOps W) (r : Ring) (w : W) (n : ℕ)
    → (Ring.count (some ops) r w).0 ≡ pos n
    → n ≤ 7
unfolding Ring.count
count-small ops r w n e = ground arith

pub good_priority :
    (priority : ℕ) (payload : Option (List ℕ)) (size : ℕ)
    → is_bad_request priority payload size ≡ false
    → priority < 4
unfolding is_bad_request
good_priority priority payload size h = ground arith
