-- ===== src/Endpoint/Rejection.antt =====
-- No valid session: nothing is sent, received or counted.
use lzamp.Base.{ℕ, ◌≡◌, refl, true, Option, none, some, List, arith}
use lzamp.Base.Int.{is_nonzero}
use lzamp.Protocol.{Message}
use lzamp.Protocol.RingResult
use lzamp.Endpoint.{session_valid}
use lzamp.Endpoint.Send.{send, send_via}
use lzamp.Endpoint.Receive.{receive, receive_via, has_received, has_received_via}
use lzamp.Endpoint.State.{Direction, MemoryOps, SendResult, Host}

-- The same rings, endpoint and world.
pub record IsUntouched {W : Type 0} (h h' : Host W) : Type 0 where
  pub same_tx_rings : h'.memory.linux_to_cpu3 ≡ h.memory.linux_to_cpu3
  pub same_rx_rings : h'.memory.cpu3_to_linux ≡ h.memory.cpu3_to_linux
  pub same_endpoint : h'.endpoint ≡ h.endpoint
  pub same_world : h'.world ≡ h.world

module _ {W : Type 0} (h : Host W) where
  abbrev IsClosed : Type 0
  IsClosed = is_nonzero (session_valid h.endpoint h.memory h.world).0 ≡ true

  pub session_valid-rings :
      let s' = (session_valid h.endpoint h.memory h.world).1 in
      (s'.linux_to_cpu3 ≡ h.memory.linux_to_cpu3) × (s'.cpu3_to_linux ≡ h.memory.cpu3_to_linux)
  unfolding session_valid
  session_valid-rings = ground arith

  send_via-IsUntouched :
      (tx : Option Direction) (ops : Option (MemoryOps W)) (priority type : ℕ)
      (payload : Option (List ℕ)) (length : ℕ) (result : SendResult)
      → IsClosed
      → let (ret, result', h') = send_via tx ops priority type payload length result h in
        (is_nonzero ret ≡ true) × IsUntouched h h'
  unfolding send_via
  send_via-IsUntouched none ops priority type payload length result closed = ground arith
  send_via-IsUntouched (some d) none priority type payload length result closed = ground arith
  send_via-IsUntouched (some d) (some ops) priority type payload length result closed =
      ground (arith, session_valid-rings)

  receive_via-IsUntouched :
      (rx : Option Direction) (ops : Option (MemoryOps W)) (priority : ℕ) (out : Message)
      → IsClosed
      → let (ret, message, h') = receive_via rx ops priority out h in
        (is_nonzero ret ≡ true) × (message ≡ out) × IsUntouched h h'
  unfolding receive_via
  receive_via-IsUntouched none ops priority out closed = ground arith
  receive_via-IsUntouched (some d) none priority out closed = ground arith
  receive_via-IsUntouched (some d) (some ops) priority out closed =
      ground (arith, session_valid-rings)

  has_received_via-closed :
      (rx : Option Direction) (ops : Option (MemoryOps W)) (priority : ℕ)
      → IsClosed
      → (has_received_via rx ops priority h).0 ≡ RingResult.invalid
  unfolding has_received_via
  has_received_via-closed none ops priority closed = refl
  has_received_via-closed (some d) none priority closed = refl
  has_received_via-closed (some d) (some ops) priority closed = ground arith

  -- While `mailmsg_endpoint_session_valid` is not OK (another protocol, a stale generation, an
  -- endpoint that was never bound), `mailmsg_endpoint_send` and `mailmsg_endpoint_receive` return a
  -- nonzero code and leave every ring, the endpoint with its counters and sequence, the world and
  -- the caller's message as they were, and `mailmsg_endpoint_has_received` reports invalid.
  pub closed_session :
      IsClosed
      → (priority : ℕ)
      → ((type : ℕ) (payload : Option (List ℕ)) (length : ℕ) (result : SendResult)
          → let (ret, result', h') = send priority type payload length result h in
            (is_nonzero ret ≡ true) × IsUntouched h h')
        × ((out : Message)
            → let (ret, message, h') = receive priority out h in
              (is_nonzero ret ≡ true) × (message ≡ out) × IsUntouched h h')
        × ((has_received priority h).0 ≡ RingResult.invalid)
  unfolding send receive has_received
  closed_session closed priority = (
    λ type payload length result.
        send_via-IsUntouched h.endpoint.tx h.endpoint.memory_ops priority type payload length result
          closed,
    λ out. receive_via-IsUntouched h.endpoint.rx h.endpoint.memory_ops priority out closed,
    has_received_via-closed h.endpoint.rx h.endpoint.memory_ops priority closed,
  )
