-- ===== src/Endpoint/Outgoing.antt =====
-- What a send does to the queue of its ring.
use lzamp.Base.{
  ℕ, ◌<◌, ◌≡◌, refl, sym, ap, subst, subst₂, ◌∙◌, true, false, Option, some, List, [], ◌∷◌, ◌++◌,
  ◌⊎◌, inl, inr, if_both, if◌then◌else◌, length, get_or, get_or-set_self, length-set,
}
use lzamp.Base.Int.{ℤ, is_nonzero}
use lzamp.Protocol.{Message}
use lzamp.Ring
use lzamp.Ring.{Ring, is_bad_header}
use lzamp.Ring.Queue.{committed}
use lzamp.Ring.Invariant.{IsValid}
use lzamp.Ring.Contents.{contents}
use lzamp.Ring.Coherent.{IsCoherent, PushEffect, push_effect, push_refines_coherent, count_coherent}
use lzamp.Endpoint.{next_sequence, session_valid}
use lzamp.Endpoint.Result
use lzamp.Endpoint.Send.{
  announce, build_message, push_message, refuse, enqueue, send_via, send, is_bad_request, no_result,
}
use lzamp.Endpoint.State.{
  Shared, Direction, MemoryOps, lane, ring_of, set_ring, zero_ring, Host, SendResult,
}
use lzamp.Endpoint.Enqueue.{enqueue_lem}
use lzamp.Endpoint.Rejection.{session_valid-rings}

pub ring_of-set_ring :
    (d : Direction) (p : ℕ) (r : Ring) (s : Shared)
    → p < length (lane d s)
    → ring_of d p (set_ring d p r s) ≡ r
ring_of-set_ring Direction.linux_to_cpu3 p r s h = get_or-set_self s.linux_to_cpu3 p r _ h
ring_of-set_ring Direction.cpu3_to_linux p r s h = get_or-set_self s.cpu3_to_linux p r _ h

-- The frames that wait in a ring of the shared memory.
abbrev pub queued : Direction → ℕ → Shared → List Message
queued d priority s = contents (ring_of d priority s)

-- What a send of the message `m` may do to the queue `q` of its ring: on OK it appends the frame
-- and reports its sequence; else it leaves the queue.
abbrev pub SendEffect :
    {W : Type 0} → Direction → ℕ → Message → List Message → ℤ × SendResult × Host W → Type 0
SendEffect d priority m q r =
    ((is_nonzero r.0 ≡ false)
      × (is_bad_header m ≡ false)
      × (queued d priority r.2.memory ≡ q ++ (committed m ∷ []))
      × (r.1.sequence ≡ m.sequence))
    ⊎ ((is_nonzero r.0 ≡ true) × (queued d priority r.2.memory ≡ q))

abbrev pub message_of : {W : Type 0} → Host W → ℕ → Option (List ℕ) → ℕ → Message
message_of h type payload size =
    build_message h.endpoint.generation type (next_sequence h.endpoint.next_sequence) payload size

pub message_of-sequence :
    {W : Type 0} (h : Host W) (type : ℕ) (payload : Option (List ℕ)) (size : ℕ)
    → (message_of h type payload size).sequence ≡ next_sequence h.endpoint.next_sequence
unfolding build_message
message_of-sequence h type payload size = refl

pub lane-session_valid :
    {W : Type 0} (d : Direction) (h : Host W)
    → lane d (session_valid h.endpoint h.memory h.world).1 ≡ lane d h.memory
lane-session_valid Direction.linux_to_cpu3 h = (session_valid-rings h).0
lane-session_valid Direction.cpu3_to_linux h = (session_valid-rings h).1

pub length-set_ring :
    (d : Direction) (p : ℕ) (r : Ring) (s : Shared)
    → length (lane d (set_ring d p r s)) ≡ length (lane d s)
length-set_ring Direction.linux_to_cpu3 p r s = length-set s.linux_to_cpu3 p r
length-set_ring Direction.cpu3_to_linux p r s = length-set s.cpu3_to_linux p r

module _ {W : Type 0} (d : Direction) (ops : MemoryOps W) (priority : ℕ)
    (coherent : IsCoherent (ops.rings d priority)) where
  push_message-effect :
      (type : ℕ) (payload : Option (List ℕ)) (size : ℕ) (h : Host W)
      → priority < length (lane d h.memory)
      → IsValid (ring_of d priority h.memory)
      → let pushed = push_message d ops priority type payload size h in
        PushEffect
          (message_of h type payload size)
          (queued d priority h.memory)
          (pushed.0, queued d priority pushed.1.memory)
  unfolding push_message
  push_message-effect type payload size h lt v =
      let m = message_of h type payload size in
      let ring = ring_of d priority h.memory in
      let (queue_result, ring', w') = Ring.push (ops.rings d priority) m ring h.world in
      let e = push_refines_coherent (ops.rings d priority) coherent m ring h.world v in
      subst (λ r. PushEffect m (contents ring) (queue_result, contents r))
        (sym (ring_of-set_ring d priority ring' h.memory lt))
        (subst (PushEffect m (contents ring)) (sym e) (push_effect m (contents ring)))

  announce-effect :
      (sequence : ℕ) (h : Host W)
      → priority < length (lane d h.memory)
      → let r = announce d ops priority sequence h in
        (is_nonzero r.0 ≡ false)
        × (queued d priority r.2.memory ≡ queued d priority h.memory)
        × (r.1.sequence ≡ sequence)
  unfolding announce
  announce-effect sequence h lt =
      let ring = ring_of d priority h.memory in
      let counted = Ring.count (some (ops.rings d priority)) ring h.world in
      (
        refl,
        ap contents (
            ring_of-set_ring d priority counted.1 h.memory lt
            ∙ count_coherent (ops.rings d priority) coherent ring h.world),
        refl,
      )

  refuse-effect :
      (queue_result : ℤ) (h : Host W)
      → let r = refuse priority queue_result h in
        (r.0 ≡ queue_result) × (queued d priority r.2.memory ≡ queued d priority h.memory)
  unfolding refuse
  refuse-effect queue_result h = (refl, refl)

  push_message-kept :
      (type : ℕ) (payload : Option (List ℕ)) (size : ℕ) (h : Host W)
      → let pushed = push_message d ops priority type payload size h in
        (length (lane d pushed.1.memory) ≡ length (lane d h.memory))
        × (pushed.1.endpoint.next_sequence ≡ next_sequence h.endpoint.next_sequence)
  unfolding push_message
  push_message-kept type payload size h = (length-set_ring d priority _ h.memory, refl)

  enqueue-effect :
      (type : ℕ) (payload : Option (List ℕ)) (size : ℕ) (h : Host W)
      → priority < length (lane d h.memory)
      → IsValid (ring_of d priority h.memory)
      → SendEffect d priority
          (message_of h type payload size)
          (queued d priority h.memory)
          (enqueue d ops priority type payload size h)
  enqueue-effect type payload size h lt v =
      let pushed = push_message d ops priority type payload size h in
      let (same_length, drawn) = push_message-kept type payload size h in
      elim (push_message-effect type payload size h lt v) [
        | inl (accepted, good, grown) ↦
            let (done, kept, numbered) =
              announce-effect pushed.1.endpoint.next_sequence pushed.1 (rw same_length lt) in
            rw (enqueue_lem, accepted)
              (inl (
                done,
                good,
                kept ∙ grown,
                numbered ∙ drawn ∙ sym (message_of-sequence h type payload size),
              ))
        | inr (refused, kept) ↦
            let (code, left) = refuse-effect pushed.0 pushed.1 in
            rw (enqueue_lem, refused) (inr (ap is_nonzero code ∙ refused, left ∙ kept))
      ]

  send_via-effect :
      (type : ℕ) (payload : Option (List ℕ)) (size : ℕ) (result : SendResult) (h : Host W)
      → priority < length (lane d h.memory)
      → IsValid (ring_of d priority h.memory)
      → SendEffect d priority
          (message_of h type payload size)
          (queued d priority h.memory)
          (send_via (some d) (some ops) priority type payload size result h)
  unfolding send_via
  send_via-effect type payload size result h lt v =
      let (session, memory) = session_valid h.endpoint h.memory h.world in
      let opened = record h { memory = memory } in
      let same : lane d memory ≡ lane d h.memory = lane-session_valid d h in
      let ring_same : ring_of d priority memory ≡ ring_of d priority h.memory =
        ap (λ l. get_or l priority zero_ring) same in
      let inner = enqueue d ops priority type payload size opened in
      let m = message_of h type payload size in
      let E = SendEffect {W = W} d priority m (queued d priority h.memory) in
      if_both E (is_bad_request priority payload size) (Result.invalid, result, h)
        (if is_nonzero session then (session, no_result, opened) else inner)
        (λ bad. inr (refl, refl))
        (λ fine.
          if_both E (is_nonzero session) (session, no_result, opened) inner
            (λ closed. inr (closed, ap contents ring_same))
            (λ valid.
              subst (λ q. SendEffect d priority m q inner) (ap contents ring_same)
                (enqueue-effect type payload size opened (rw same lt)
                  (subst IsValid (sym ring_same) v))))

  -- `mailmsg_endpoint_send`, on every branch: either it returns OK, has appended one committed frame
  -- to its ring, with the type, length, generation and payload asked for and the next sequence, and
  -- reports that sequence; or it returns an error and every frame of the ring is as it was. This
  -- holds on a valid ring that the peer does not change during the call.
  pub send-effect :
      (type : ℕ) (payload : Option (List ℕ)) (size : ℕ) (result : SendResult) (h : Host W)
      → h.endpoint.tx ≡ some d
      → h.endpoint.memory_ops ≡ some ops
      → priority < length (lane d h.memory)
      → IsValid (ring_of d priority h.memory)
      → SendEffect d priority
          (message_of h type payload size)
          (queued d priority h.memory)
          (send priority type payload size result h)
  unfolding send
  send-effect type payload size result h tx table lt v =
      subst₂
        (λ t o.
          SendEffect d priority (message_of h type payload size) (queued d priority h.memory)
            (send_via t o priority type payload size result h))
        (sym tx) (sym table) (send_via-effect type payload size result h lt v)
