-- ===== src/Driver/Preflight.antt =====
-- What the preflight of a stop looks at.
use lzamp.Base.{ℕ, suc, ◌≡◌, false, arith}
use mathlib.Core.Option.{Option}
use lzamp.Base.Int.{pos}
use lzamp.Endpoint.State.{MemoryOps}
use lzamp.Driver.State.{Platform, Wire, Driver}
use lzamp.Driver.Gate.{ring_result_to_errno}
use lzamp.Driver.Stop.{
  busy_or_errno, is_null, reverse_pending, preflight_rings, preflight_verdict,
  stop_preflight_locked,
}

module _ {K : Type 0} (p : Platform K) (ops : MemoryOps (Wire K)) where
  preflight_rings-first :
      (left priority : ℕ) (d : Driver K)
      → (reverse_pending priority d).0 ≡ pos 0
      → preflight_rings p ops (suc left) priority d
        ≡ (Option.some (pos 0), (reverse_pending priority d).1)
  unfolding preflight_rings busy_or_errno ring_result_to_errno
  preflight_rings-first left priority d empty = ground arith

  -- Where no user file is open, the endpoint is bound and the reverse ring of priority 0 holds no
  -- frame (`mailmsg_endpoint_has_received` returns 0), the preflight of a stop returns 0 at once: it
  -- looks at no other ring and at no doorbell, so it accepts whatever they hold.
  pub preflight_sees_one_ring :
      (d : Driver K)
      → d.mailmsg_user_open_count ≡ 0
      → is_null d.host.endpoint.tx ≡ false
      → is_null d.host.endpoint.rx ≡ false
      → (reverse_pending 0 d).0 ≡ pos 0
      → stop_preflight_locked p ops d ≡ (pos 0, (reverse_pending 0 d).1)
  unfolding stop_preflight_locked preflight_verdict
  preflight_sees_one_ring d closed tx rx empty = ground (arith, preflight_rings-first 3 0 d empty)
