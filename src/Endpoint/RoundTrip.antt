-- ===== src/Endpoint/RoundTrip.antt =====
-- A frame from one endpoint to the other.
use lzamp.Base.{
  ℕ, zero, suc, ◌<◌, ◌≤◌, ◌≡◌, refl, sym, ap, subst₂, ◌∙◌, false, some, List, [], ◌∷◌, ◌++◌, arith,
  ◌==◌, if◌then◌else◌, length, take, inl, inr,
}
use lzamp.Base.Int.{is_nonzero}
use lzamp.Protocol.{Message, zero_message}
use lzamp.Ring.{sealed}
use lzamp.Ring.Queue.{committed}
use lzamp.Ring.Invariant.{IsValid}
use lzamp.Ring.Contents.{contents}
use lzamp.Ring.Intact.{committed-IsIntact}
use lzamp.Ring.Coherent.{IsCoherent}
use lzamp.Endpoint.{session_valid, next_sequence}
use lzamp.Endpoint.Result
use lzamp.Endpoint.Send.{send, copy_bytes, build_message}
use lzamp.Endpoint.Receive.{receive}
use lzamp.Endpoint.State.{Direction, MemoryOps, lane, ring_of, Host, SendResult}
use lzamp.Endpoint.Outgoing.{queued, message_of, message_of-sequence, send-effect}
use lzamp.Endpoint.Incoming.{receive-effect}

take-copy_bytes :
    (n : ℕ) (src dst : List ℕ)
    → n ≤ length src
    → n ≤ length dst
    → take n (copy_bytes n src dst) ≡ take n src
unfolding copy_bytes
take-copy_bytes zero src dst hs hd = refl
take-copy_bytes (suc n) [] dst hs hd = absurd (omega arith)
take-copy_bytes (suc n) (b ∷ src) [] hs hd = absurd (omega arith)
take-copy_bytes (suc n) (b ∷ src) (c ∷ dst) hs hd =
    ap (λ l. b ∷ l) (take-copy_bytes n src dst (omega arith) (omega arith))

-- The message that a receive hands out is the one that a send was asked to carry.
pub record Carries (type : ℕ) (bytes : List ℕ) (size sequence generation : ℕ) (m : Message)
    : Type 0 where
  pub same_type : m.type ≡ type
  pub same_length : m.length ≡ size
  pub same_payload : take size m.payload ≡ take size bytes
  pub same_sequence : m.sequence ≡ sequence
  pub same_generation : m.generation ≡ generation

module _ {W : Type 0} (h : Host W) (type : ℕ) (bytes : List ℕ) (size : ℕ) where
  committed-Carries :
      size ≤ 28
      → size ≤ length bytes
      → Carries type bytes size
          (next_sequence h.endpoint.next_sequence)
          h.endpoint.generation
          (committed (message_of h type (some bytes) size))
  unfolding committed sealed build_message
  committed-Carries small enough = record {
    same_type = refl;
    same_length = refl;
    same_payload = take-copy_bytes size bytes zero_message.payload enough small;
    same_sequence = refl;
    same_generation = refl;
  }

same_session_ok : (g k : ℕ) → g ≡ k → (if g == k then Result.ok else Result.stale_frame) ≡ Result.ok
same_session_ok g k e = ground arith

module _ {W : Type 0} (d : Direction) (ops peer_ops : MemoryOps W) (priority : ℕ)
    (coherent : IsCoherent (ops.rings d priority))
    (peer_coherent : IsCoherent (peer_ops.rings d priority)) where
  -- `mailmsg_endpoint_send` on one host, then `mailmsg_endpoint_receive` on the other, over one
  -- valid and empty ring and in the same valid session: if the send returns OK, the receive returns
  -- OK, hands out the type, length, payload bytes, generation and reported sequence of the send,
  -- and empties the ring. Within a call the peer does not change the ring.
  pub receive-send :
      (type : ℕ) (bytes : List ℕ) (size : ℕ) (result : SendResult) (out : Message) (h k : Host W)
      → h.endpoint.tx ≡ some d
      → h.endpoint.memory_ops ≡ some ops
      → k.endpoint.rx ≡ some d
      → k.endpoint.memory_ops ≡ some peer_ops
      → priority < length (lane d h.memory)
      → IsValid (ring_of d priority h.memory)
      → queued d priority h.memory ≡ []
      → size ≤ 28
      → size ≤ length bytes
      → let sent = send priority type (some bytes) size result h in
        is_nonzero sent.0 ≡ false
        → priority < 4
        → priority < length (lane d k.memory)
        → ring_of d priority k.memory ≡ ring_of d priority sent.2.memory
        → IsValid (ring_of d priority k.memory)
        → is_nonzero (session_valid k.endpoint k.memory k.world).0 ≡ false
        → k.endpoint.generation ≡ h.endpoint.generation
        → let got = receive priority out k in
          (got.0 ≡ Result.ok)
          × Carries type bytes size sent.1.sequence h.endpoint.generation got.1
          × (queued d priority got.2.memory ≡ [])
  receive-send type bytes size result out h k tx table rx peer_table lt v empty small enough done
        in_range lt' shared v' opened same_session =
      elim (send-effect d ops priority coherent type (some bytes) size result h tx table lt v) [
        | inr (failed, kept) ↦ cc
        | inl (ok, good, grown, numbered) ↦
            let m = committed (message_of h type (some bytes) size) in
            let carried = committed-Carries h type bytes size small enough in
            let waiting : queued d priority k.memory ≡ m ∷ [] =
              ap contents shared ∙ grown ∙ ap (λ q. q ++ (m ∷ [])) empty in
            let (result', message, left) =
              receive-effect d peer_ops priority peer_coherent m [] (committed-IsIntact _ good) out
                k rx peer_table in_range lt' opened v' waiting in
            let reported = numbered ∙ message_of-sequence h type (some bytes) size in
            (
              result'
                  ∙ same_session_ok m.generation k.endpoint.generation
                      (carried.same_generation ∙ sym same_session),
              subst₂ (λ n x. Carries type bytes size n h.endpoint.generation x) (sym reported)
                  (sym message) carried,
              left,
            )
      ]
