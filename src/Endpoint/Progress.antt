-- ===== src/Endpoint/Progress.antt =====
-- Draining a ring comes to an end: what each receive leaves to be received.
use lzamp.Base.{
  ℕ, suc, ◌<◌, ◌≡◌, ◌⊎◌, inl, inr, refl, sym, ap, subst, subst₂, get_or, none, ◌∙◌, Bool, true,
  ◌||◌, Option, some, List, [], ◌∷◌, arith, leb, length, if_both,
}
use lzamp.Base.Int.{ℤ, ◌==ℤ◌, is_nonzero}
use lzamp.Protocol.{Message, priority_count}
use lzamp.Protocol.RingResult
use lzamp.Ring
use lzamp.Ring.Queue
use lzamp.Ring.Invariant.{IsValid, pop-IsValid}
use lzamp.Ring.Contents.{contents}
use lzamp.Ring.Coherent.{IsCoherent, pop_refines_coherent}
use lzamp.Ring.{Field}
use lzamp.Endpoint.{session_valid, session_with, check_session, is_other_protocol}
use lzamp.Endpoint.Result
use lzamp.Endpoint.Receive.{judge, dequeue, receive_via, receive}
use lzamp.Endpoint.State.{Direction, MemoryOps, lane, ring_of, Host, Shared, Endpoint, zero_ring}
use lzamp.Endpoint.Outgoing.{queued, ring_of-set_ring, lane-session_valid, length-set_ring}

-- The results that consume nothing.
abbrev pub is_final : ℤ → Bool
is_final ret =
    ret ==ℤ RingResult.empty
    || (ret ==ℤ RingResult.incomplete
        || (ret ==ℤ Result.invalid
            || (ret ==ℤ Result.protocol_mismatch || ret ==ℤ Result.stale_session)))

-- An endpoint that receives from the ring of `d` and `priority`, which is well formed.
pub record Receives {W : Type 0} (d : Direction) (ops : MemoryOps W) (priority : ℕ) (h : Host W)
    : Type 0 where
  pub from : h.endpoint.rx ≡ some d
  pub through : h.endpoint.memory_ops ≡ some ops
  pub lanes : priority < length (lane d h.memory)
  pub valid : IsValid (ring_of d priority h.memory)

pop-progress :
    (q : List Message)
    → let (ret, frame, rest) = Queue.pop q in
      ((ret ≡ RingResult.empty) ⊎ (ret ≡ RingResult.incomplete)) ⊎ (suc (length rest) ≡ length q)
unfolding Queue.pop
pop-progress [] = inl (inl refl)
pop-progress (m ∷ q) = ground arith

judge_final :
    (ret : ℤ) (g h : ℕ)
    → (ret ≡ RingResult.empty) ⊎ (ret ≡ RingResult.incomplete)
    → is_final (judge ret g h) ≡ true
unfolding judge
judge_final ret g h e = ground arith

session_with-final :
    {W : Type 0} (o : Option (MemoryOps W)) (e : Endpoint W) (s : Shared) (w : W)
    → is_nonzero (session_with o e s w).0 ≡ true
    → is_final (session_with o e s w).0 ≡ true
unfolding session_with check_session is_other_protocol
session_with-final none e s w bad = refl
session_with-final (some ops) e s w bad = ground arith

module _ {W : Type 0} (d : Direction) (ops : MemoryOps W) (priority : ℕ)
    (coherent : IsCoherent (ops.rings d priority)) where
  abbrev Progress : Host W → ℤ × Message × Host W → Type 0
  Progress h r =
      ((is_final r.0 ≡ true)
        ⊎ (suc (length (queued d priority r.2.memory)) ≡ length (queued d priority h.memory)))
      × Receives d ops priority r.2

  dequeue-Progress :
      (out : Message) (h : Host W)
      → Receives d ops priority h
      → Progress h (dequeue d ops priority out h)
  unfolding dequeue
  dequeue-Progress out h s =
      let ring = ring_of d priority h.memory in
      let popped = Ring.pop (ops.rings d priority) out ring h.world in
      let (result, got, left) =
        pop_refines_coherent (ops.rings d priority) coherent out ring h.world s.valid in
      let here = ring_of-set_ring d priority popped.2 h.memory s.lanes in
      let seen = ops.rings d priority in
      let once = coherent Field.producer_index ring h.world in
      let twice =
        coherent (Field.frame ring.consumer) (seen.acquire Field.producer_index ring h.world)
          h.world
        ∙ once in
      (
        elim (pop-progress (contents ring)) [
          | inl stuck ↦ inl (
              judge_final popped.0 popped.1.generation h.endpoint.generation (
                subst (λ x. (x ≡ RingResult.empty) ⊎ (x ≡ RingResult.incomplete)) (sym result)
                  stuck))
          | inr less ↦ inr (ap (λ q. suc (length q)) (ap contents here ∙ left) ∙ less)
        ],
        record {
          from = s.from;
          through = s.through;
          lanes =
              subst (λ n. priority < n) (sym (length-set_ring d priority popped.2 h.memory))
                s.lanes;
          valid = subst IsValid (sym here) (
              pop-IsValid seen out ring h.world (subst IsValid (sym once) s.valid)
                (subst IsValid (sym twice) s.valid));
        },
      )

  session_valid-final :
      (h : Host W)
      → is_nonzero (session_valid h.endpoint h.memory h.world).0 ≡ true
      → is_final (session_valid h.endpoint h.memory h.world).0 ≡ true
  unfolding session_valid
  session_valid-final h = session_with-final h.endpoint.memory_ops h.endpoint h.memory h.world

  -- The session check refreshes the header only.
  open-Receives :
      (h : Host W)
      → Receives d ops priority h
      → Receives d ops priority
          (record h { memory = (session_valid h.endpoint h.memory h.world).1 })
  open-Receives h s = record {
    from = s.from;
    through = s.through;
    lanes = subst (λ l. priority < length l) (sym (lane-session_valid d h)) s.lanes;
    valid =
        subst (λ l. IsValid (get_or l priority zero_ring)) (sym (lane-session_valid d h)) s.valid;
  }

  receive_via-Progress :
      (out : Message) (h : Host W)
      → Receives d ops priority h
      → Progress h (receive_via (some d) (some ops) priority out h)
  unfolding receive_via
  receive_via-Progress out h s =
      let (session, memory) = session_valid h.endpoint h.memory h.world in
      let open_host = record h { memory = memory } in
      let (less, kept) = dequeue-Progress out open_host (open-Receives h s) in
      if_both (Progress h) (leb priority_count priority) (Result.invalid, out, h) _
        (λ e. (inl refl, s))
        (λ e.
          if_both (Progress h) (is_nonzero session) (session, out, open_host)
            (dequeue d ops priority out open_host)
            (λ bad. (inl (session_valid-final h bad), open-Receives h s))
            (λ fine. (
              subst
                  (λ l.
                    (is_final (dequeue d ops priority out open_host).0 ≡ true)
                    ⊎ (suc (
                          length
                            (queued d priority (dequeue d ops priority out open_host).2.memory))
                        ≡ length (contents (get_or l priority zero_ring))))
                  (lane-session_valid d h) less,
              kept,
            )))

  -- On a CPU that sees the memory as it is, `mailmsg_endpoint_receive` of an endpoint bound to a
  -- well-formed ring either takes exactly one frame out of the ring, or its result is one of those
  -- that consume nothing (empty, incomplete, or no valid session); and the ring stays well formed.
  pub receive-Progress :
      (out : Message) (h : Host W) → Receives d ops priority h → Progress h (receive priority out h)
  unfolding receive
  receive-Progress out h s =
      subst₂ (λ rx o. Progress h (receive_via rx o priority out h)) (sym s.from) (sym s.through)
        (receive_via-Progress out h s)
