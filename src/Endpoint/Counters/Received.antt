-- ===== src/Endpoint/Counters/Received.antt =====
-- mailmsg/mailmsg_endpoint.c: which counter a receive raises.
use lzamp.Base.{
  ℕ, ◌+◌, ◌%◌, ◌^◌, ◌<◌, ◌≡◌, ◌≢◌, sym, subst, subst₂, false, some, leb, arith, length,
  if◌then◌else◌, get_or-set_self, get_or-set_ne,
}
use lzamp.Base.Int.{ℤ, pos, ◌==ℤ◌, is_nonzero}
use lzamp.Protocol.{Message}
use lzamp.Protocol.RingResult
use lzamp.Endpoint.{session_valid, stats_of}
use lzamp.Endpoint.Result
use lzamp.Endpoint.Receive.{count_received, dequeue, receive_via, receive}
use lzamp.Endpoint.State.{PriorityStats, zero_stats, Direction, MemoryOps, Endpoint, Host}
use lzamp.Endpoint.Counters.{IsCounted, receive-IsCounted}

-- `n` goes up by one, as a 32-bit word, if the result is the counter's own.
abbrev pub counted : ℤ → ℤ → ℕ → ℕ
counted own ret n = if ret ==ℤ own then (n + 1) % 2 ^ 32 else n

-- The counters of one priority after a receive that returned `ret`.
pub record IsTallied (ret : ℤ) (s s' : PriorityStats) : Type 0 where
  pub ok : s'.rx_ok ≡ counted (pos 0) ret s.rx_ok
  pub stale : s'.rx_stale ≡ counted Result.stale_frame ret s.rx_stale
  pub incomplete : s'.rx_incomplete ≡ counted RingResult.incomplete ret s.rx_incomplete
  pub bad_crc : s'.rx_bad_crc ≡ counted RingResult.bad_crc ret s.rx_bad_crc
  pub invalid : s'.rx_invalid ≡ counted RingResult.invalid ret s.rx_invalid
  pub sent : s'.tx_enqueued ≡ s.tx_enqueued

count_received-IsTallied : (ret : ℤ) (s : PriorityStats) → IsTallied ret s (count_received ret s)
unfolding count_received
count_received-IsTallied ret s = ground arith

-- All four priorities, where the receive was for `priority`.
abbrev pub Tallies : {W : Type 0} → ℕ → ℤ → Endpoint W → Endpoint W → Type 0
Tallies priority ret e e' =
    IsTallied ret (stats_of priority e) (stats_of priority e')
    × ((q : ℕ) → q ≢ priority → stats_of q e' ≡ stats_of q e)

module _ {W : Type 0} (d : Direction) (ops : MemoryOps W) (priority : ℕ) where
  dequeue-Tallies :
      (out : Message) (h : Host W)
      → priority < length h.endpoint.stats
      → let r = dequeue d ops priority out h in Tallies priority r.0 h.endpoint r.2.endpoint
  unfolding dequeue
  dequeue-Tallies out h lt =
      let ret = (dequeue d ops priority out h).0 in
      let s = stats_of priority h.endpoint in
      let new = get_or-set_self h.endpoint.stats priority (count_received ret s) zero_stats lt in
      (
        subst (IsTallied ret s) (sym new) (count_received-IsTallied ret s),
        λ q other. get_or-set_ne h.endpoint.stats priority q _ zero_stats (λ e. other (sym e)),
      )

  receive_via-Tallies :
      (out : Message) (h : Host W)
      → priority < 4
      → priority < length h.endpoint.stats
      → is_nonzero (session_valid h.endpoint h.memory h.world).0 ≡ false
      → let r = receive_via (some d) (some ops) priority out h in
        Tallies priority r.0 h.endpoint r.2.endpoint
  unfolding receive_via
  receive_via-Tallies out h small lt opened =
      let (session, memory) = session_valid h.endpoint h.memory h.world in
      let in_range : leb 4 priority ≡ false = ground arith in
      rw (in_range, opened) (dequeue-Tallies out (record h { memory = memory }) lt)

  received :
      (out : Message) (h : Host W)
      → h.endpoint.rx ≡ some d
      → h.endpoint.memory_ops ≡ some ops
      → priority < 4
      → is_nonzero (session_valid h.endpoint h.memory h.world).0 ≡ false
      → IsCounted h.endpoint
      → let r = receive priority out h in Tallies priority r.0 h.endpoint r.2.endpoint
  unfolding receive
  received out h rx table small opened c =
      subst₂
        (λ x o.
          let r = receive_via x o priority out h in Tallies priority r.0 h.endpoint r.2.endpoint)
        (sym rx) (sym table) (receive_via-Tallies out h small (omega (arith, c.four)) opened)

  -- `mailmsg_endpoint_receive` on a priority below 4, with a bound endpoint and a valid session,
  -- raises by one, modulo 2 ^ 32, exactly the receive counter of this priority that belongs to the
  -- result it returns (OK, stale, incomplete, bad checksum or invalid; for an empty ring none), and
  -- no counter of another priority. The order of the send counters (for each priority the doorbells
  -- sum up to the frames enqueued, and the high water mark is at most seven) stays.
  pub receive-tallies :
      (out : Message) (h : Host W)
      → h.endpoint.rx ≡ some d
      → h.endpoint.memory_ops ≡ some ops
      → priority < 4
      → is_nonzero (session_valid h.endpoint h.memory h.world).0 ≡ false
      → IsCounted h.endpoint
      → let r = receive priority out h in
        Tallies priority r.0 h.endpoint r.2.endpoint × IsCounted r.2.endpoint
  receive-tallies out h rx table small opened c =
      (received out h rx table small opened c, receive-IsCounted priority out h c)
