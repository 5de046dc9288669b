-- ===== src/Endpoint/Incoming.antt =====
-- What a receive does with the oldest frame of its ring.
use lzamp.Base.{
  ℕ, ◌<◌, ◌≡◌, sym, ap, subst, subst₂, ap₂, ◌∙◌, false, Option, some, List, ◌∷◌, arith, ◌==◌, leb,
  if◌then◌else◌, length, get_or,
}
use mathlib.Core.Option
use lzamp.Base.Int.{ℤ, is_nonzero}
use lzamp.Protocol.{Message}
use lzamp.Protocol.RingResult
use lzamp.Ring
use lzamp.Ring.{Ring, classify}
use lzamp.Ring.Queue
use lzamp.Ring.Invariant.{IsValid}
use lzamp.Ring.Contents.{contents}
use lzamp.Ring.Intact.{IsIntact}
use lzamp.Ring.Coherent.{IsCoherent, pop_refines_coherent}
use lzamp.Endpoint.{session_valid}
use lzamp.Endpoint.Result
use lzamp.Endpoint.Receive.{judge, dequeue, receive_via, receive}
use lzamp.Endpoint.State.{Direction, MemoryOps, lane, ring_of, zero_ring, Host}
use lzamp.Endpoint.Outgoing.{queued, ring_of-set_ring, lane-session_valid}

-- An intact frame leaves the queue.
pop-intact :
    (m : Message) (q : List Message) → IsIntact m → Queue.pop (m ∷ q) ≡ (RingResult.ok, some m, q)
unfolding Queue.pop
pop-intact m q h = ground (arith, h.complete, h.accepted)

-- What a receive of an intact frame `m` ahead of the frames `q` does: it hands out exactly `m`, and
-- `q` is left; the result is OK for a frame of this session, and a stale frame for any other.
abbrev pub ReceiveEffect :
    {W : Type 0} → Direction → ℕ → ℕ → Message → List Message → ℤ × Message × Host W → Type 0
ReceiveEffect d priority generation m q r =
    (r.0 ≡ (if m.generation == generation then Result.ok else Result.stale_frame))
    × (r.1 ≡ m)
    × (queued d priority r.2.memory ≡ q)

module _ {W : Type 0} (d : Direction) (ops : MemoryOps W) (priority : ℕ)
    (coherent : IsCoherent (ops.rings d priority)) (m : Message) (q : List Message)
    (intact : IsIntact m) where
  judge-ok :
      (g h : ℕ) → judge RingResult.ok g h ≡ (if g == h then Result.ok else Result.stale_frame)
  unfolding judge
  judge-ok g h = ground arith

  dequeue-effect :
      (out : Message) (h : Host W)
      → priority < length (lane d h.memory)
      → IsValid (ring_of d priority h.memory)
      → queued d priority h.memory ≡ m ∷ q
      → ReceiveEffect d priority h.endpoint.generation m q (dequeue d ops priority out h)
  unfolding dequeue
  dequeue-effect out h lt v waiting =
      let ring = ring_of d priority h.memory in
      let popped = Ring.pop (ops.rings d priority) out ring h.world in
      let (result, got, left) =
        pop_refines_coherent (ops.rings d priority) coherent out ring h.world v in
      let queue : Queue.pop (contents ring) ≡ (RingResult.ok, some m, q) =
        ap Queue.pop waiting ∙ pop-intact m q intact in
      let is_ok : popped.0 ≡ RingResult.ok =
        result ∙ ap (λ (x : ℤ × Option Message × List Message). x.0) queue in
      let is_m : popped.1 ≡ m =
        got ∙ ap (λ (x : ℤ × Option Message × List Message). Option.get_or x.1 out) queue in
      (
        ap₂ (λ p (f : Message). judge p f.generation h.endpoint.generation) is_ok is_m
            ∙ judge-ok m.generation h.endpoint.generation,
        is_m,
        ap contents (ring_of-set_ring d priority popped.2 h.memory lt)
            ∙ left
            ∙ ap (λ (x : ℤ × Option Message × List Message). x.2) queue,
      )

  receive_via-effect :
      (out : Message) (h : Host W)
      → priority < 4
      → priority < length (lane d h.memory)
      → is_nonzero (session_valid h.endpoint h.memory h.world).0 ≡ false
      → IsValid (ring_of d priority h.memory)
      → queued d priority h.memory ≡ m ∷ q
      → ReceiveEffect d priority h.endpoint.generation m q
          (receive_via (some d) (some ops) priority out h)
  unfolding receive_via
  receive_via-effect out h small lt opened v waiting =
      let (session, memory) = session_valid h.endpoint h.memory h.world in
      let same : lane d memory ≡ lane d h.memory = lane-session_valid d h in
      let ring_same : ring_of d priority memory ≡ ring_of d priority h.memory =
        ap (λ l. get_or l priority zero_ring) same in
      let in_range : leb 4 priority ≡ false = ground arith in
      rw (in_range, opened)
        (dequeue-effect out (record h { memory = memory }) (rw same lt)
          (subst IsValid (sym ring_same) v) (ap contents ring_same ∙ waiting))

  -- With a valid session and a valid ring that the peer does not change during the call, and an
  -- intact frame at its head, `mailmsg_endpoint_receive` takes exactly that frame, returns OK if the
  -- frame is of this session and a stale frame if not, and leaves the later frames as they are.
  pub receive-effect :
      (out : Message) (h : Host W)
      → h.endpoint.rx ≡ some d
      → h.endpoint.memory_ops ≡ some ops
      → priority < 4
      → priority < length (lane d h.memory)
      → is_nonzero (session_valid h.endpoint h.memory h.world).0 ≡ false
      → IsValid (ring_of d priority h.memory)
      → queued d priority h.memory ≡ m ∷ q
      → ReceiveEffect d priority h.endpoint.generation m q (receive priority out h)
  unfolding receive
  receive-effect out h rx table small lt opened v waiting =
      subst₂
        (λ x o. ReceiveEffect d priority h.endpoint.generation m q (receive_via x o priority out h))
        (sym rx) (sym table) (receive_via-effect out h small lt opened v waiting)
