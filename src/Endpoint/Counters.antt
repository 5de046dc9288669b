-- ===== src/Endpoint/Counters.antt =====
-- The counters of an endpoint, and that sending and receiving keep them in order.
pub mod Stats
pub mod Received
use lzamp.Base.{
  ℕ, ◌+◌, ◌%◌, ◌^◌, ◌≤◌, ◌<◌, ◌≡◌, ◌≢◌, ◌⊎◌, refl, true, false, not, ◌&&◌, some, Option, none, List,
  arith, Bool-cases, inl, inr, ◌==◌, ltb, leb, if◌then◌else◌, u32, length, set, get_or,
  get_or-set_self, get_or-set_ne, set-set, if_both, ◌||◌, length-set, get_or-set, ap, subst, sym,
  ◌∙◌,
}
use lzamp.Base.Int.{ℤ, pos, negsuc, is_nonzero, ◌==ℤ◌}
use lzamp.Protocol.{Message}
use lzamp.Protocol.RingResult
use lzamp.Endpoint.Result
use lzamp.Endpoint.Send.{
  count_notify, count_enqueued, count_refused, raise_high_water, announce, enqueue, push_message,
  refuse, build_message, is_bad_request, is_null, send, send_via, no_result,
}
use lzamp.Endpoint.Receive.{judge, count_received, dequeue, receive, receive_via}
use lzamp.Endpoint.State.{
  PriorityStats, zero_stats, Endpoint, Host, Direction, MemoryOps, SendResult, ring_of, set_ring,
}
use lzamp.Endpoint.{next_sequence, session_valid, stats_of, update_stats}
use lzamp.Endpoint.Enqueue.{enqueue_lem}
use Stats.{
  IsSane, count_sent-IsSane, count_refused-IsSane, count_received-IsSane, count-small,
  good_priority,
}
use lzamp.Ring
use lzamp.Notify
use lzamp.Ring.{Ring, RingOps}

-- All four priorities.
pub record IsCounted {W : Type 0} (e : Endpoint W) : Type 0 where
  pub four : length e.stats ≡ 4
  pub sane : (q : ℕ) → IsSane (stats_of q e)

module _ {W : Type 0} where
  update_stats-IsCounted :
      (p : ℕ) (f : PriorityStats → PriorityStats) (e : Endpoint W)
      → ((s : PriorityStats) → IsSane s → IsSane (f s))
      → IsCounted e
      → IsCounted (update_stats p f e)
  update_stats-IsCounted p f e keep h = record {
    four = length-set e.stats p _ ∙ h.four;
    sane = λ q. get_or-set IsSane e.stats p q _ zero_stats (keep _ (h.sane p)) (h.sane q);
  }

  -- Two updates of one priority are one.
  update_stats-update_stats :
      (p : ℕ) (f g : PriorityStats → PriorityStats) (e : Endpoint W)
      → p < length e.stats
      → update_stats p g (update_stats p f e) ≡ update_stats p (λ s. g (f s)) e
  update_stats-update_stats p f g e lt =
      ap (λ l. record e { stats = l })
        (set-set e.stats p _ _
          ∙ ap (λ s. set e.stats p (g s)) (get_or-set_self e.stats p _ zero_stats lt))

  announce-IsCounted :
      (d : Direction) (ops : MemoryOps W) (priority sequence : ℕ) (h : Host W)
      → priority < 4
      → IsCounted h.endpoint
      → IsCounted (announce d ops priority sequence h).2.endpoint
  unfolding announce
  announce-IsCounted d ops priority sequence h lt c =
      let ring = ring_of d priority h.memory in
      let (depth, ring') = Ring.count (some (ops.rings d priority)) ring h.world in
      let (rung, w) = Notify.notify h.endpoint.notify priority h.world in
      rw
        (update_stats-update_stats priority (count_enqueued depth) (count_notify rung) h.endpoint
          (omega (arith, c.four)))
        (update_stats-IsCounted priority _ h.endpoint
          (λ s. count_sent-IsSane depth rung s (count-small (ops.rings d priority) ring h.world)) c)

  drawn-IsCounted :
      (e : Endpoint W) (sequence : ℕ)
      → IsCounted e
      → IsCounted (record e { next_sequence = sequence })
  drawn-IsCounted e sequence c = record { four = c.four; sane = c.sane }

  push_message-IsCounted :
      (d : Direction) (ops : MemoryOps W) (priority type : ℕ) (payload : Option (List ℕ)) (size : ℕ)
      (h : Host W)
      → IsCounted h.endpoint
      → IsCounted (push_message d ops priority type payload size h).1.endpoint
  unfolding push_message
  push_message-IsCounted d ops priority type payload size h c =
      drawn-IsCounted h.endpoint (next_sequence h.endpoint.next_sequence) c

  refuse-IsCounted :
      (priority : ℕ) (queue_result : ℤ) (h : Host W)
      → IsCounted h.endpoint
      → IsCounted (refuse priority queue_result h).2.endpoint
  unfolding refuse
  refuse-IsCounted priority queue_result h c =
      update_stats-IsCounted priority (count_refused queue_result) h.endpoint
        (count_refused-IsSane queue_result) c

  abbrev SentCounted : ℤ × SendResult × Host W → Type 0
  SentCounted r = IsCounted r.2.endpoint

  enqueue-IsCounted :
      (d : Direction) (ops : MemoryOps W) (priority type : ℕ) (payload : Option (List ℕ)) (size : ℕ)
      (h : Host W)
      → priority < 4
      → IsCounted h.endpoint
      → IsCounted (enqueue d ops priority type payload size h).2.endpoint
  enqueue-IsCounted d ops priority type payload size h lt c =
      let pushed = push_message d ops priority type payload size h in
      let c' = push_message-IsCounted d ops priority type payload size h c in
      rw enqueue_lem (
        if_both SentCounted (is_nonzero pushed.0) (refuse priority pushed.0 pushed.1)
          (announce d ops priority pushed.1.endpoint.next_sequence pushed.1)
          (λ refused. refuse-IsCounted priority pushed.0 pushed.1 c')
          (λ accepted.
            announce-IsCounted d ops priority pushed.1.endpoint.next_sequence pushed.1 lt c'))

  send_via-IsCounted :
      (tx : Option Direction) (ops : Option (MemoryOps W)) (priority type : ℕ)
      (payload : Option (List ℕ)) (size : ℕ) (result : SendResult) (h : Host W)
      → IsCounted h.endpoint
      → IsCounted (send_via tx ops priority type payload size result h).2.endpoint
  unfolding send_via
  send_via-IsCounted none ops priority type payload size result h c = c
  send_via-IsCounted (some d) none priority type payload size result h c = c
  send_via-IsCounted (some d) (some ops) priority type payload size result h c =
      let (session, memory) = session_valid h.endpoint h.memory h.world in
      let opened = record h { memory = memory } in
      let inner = enqueue d ops priority type payload size opened in
      if_both SentCounted (is_bad_request priority payload size) (Result.invalid, result, h)
        (if is_nonzero session then (session, no_result, opened) else inner) (λ bad. c)
        (λ fine.
          if_both SentCounted (is_nonzero session) (session, no_result, opened) inner (λ closed. c)
            (λ valid.
              enqueue-IsCounted d ops priority type payload size opened
                (good_priority priority payload size fine) c))

  abbrev ReceivedCounted : ℤ × Message × Host W → Type 0
  ReceivedCounted r = IsCounted r.2.endpoint

  dequeue-IsCounted :
      (d : Direction) (ops : MemoryOps W) (priority : ℕ) (out : Message) (h : Host W)
      → IsCounted h.endpoint
      → IsCounted (dequeue d ops priority out h).2.endpoint
  unfolding dequeue
  dequeue-IsCounted d ops priority out h c =
      let (popped, message, ring, w) =
        Ring.pop (ops.rings d priority) out (ring_of d priority h.memory) h.world in
      let ret = judge popped message.generation h.endpoint.generation in
      update_stats-IsCounted priority (count_received ret) h.endpoint (count_received-IsSane ret) c

  receive_via-IsCounted :
      (rx : Option Direction) (ops : Option (MemoryOps W)) (priority : ℕ) (out : Message)
      (h : Host W)
      → IsCounted h.endpoint
      → IsCounted (receive_via rx ops priority out h).2.endpoint
  unfolding receive_via
  receive_via-IsCounted none ops priority out h c = c
  receive_via-IsCounted (some d) none priority out h c = c
  receive_via-IsCounted (some d) (some ops) priority out h c =
      let (session, memory) = session_valid h.endpoint h.memory h.world in
      let opened = record h { memory = memory } in
      let inner = dequeue d ops priority out opened in
      if_both ReceivedCounted (leb 4 priority) (Result.invalid, out, h)
        (if is_nonzero session then (session, out, opened) else inner) (λ bad. c)
        (λ fine.
          if_both ReceivedCounted (is_nonzero session) (session, out, opened) inner (λ closed. c)
            (λ valid. dequeue-IsCounted d ops priority out opened c))

  -- `mailmsg_endpoint_send` keeps the counters in order, on every branch: for each priority the
  -- doorbells sent, coalesced and failed sum up to the frames enqueued, modulo 2 ^ 32, and the high
  -- water mark is at most seven.
  pub send-IsCounted :
      (priority type : ℕ) (payload : Option (List ℕ)) (size : ℕ) (result : SendResult) (h : Host W)
      → IsCounted h.endpoint
      → IsCounted (send priority type payload size result h).2.endpoint
  unfolding send
  send-IsCounted priority type payload size result h c =
      send_via-IsCounted h.endpoint.tx h.endpoint.memory_ops priority type payload size result h c

  -- `mailmsg_endpoint_receive` keeps the same order of the counters.
  pub receive-IsCounted :
      (priority : ℕ) (out : Message) (h : Host W)
      → IsCounted h.endpoint
      → IsCounted (receive priority out h).2.endpoint
  unfolding receive
  receive-IsCounted priority out h c =
      receive_via-IsCounted h.endpoint.rx h.endpoint.memory_ops priority out h c
