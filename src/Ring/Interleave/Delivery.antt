-- ===== src/Ring/Interleave/Delivery.antt =====
-- The theorems about a link that starts with both sides at rest on an empty ring.
use lzamp.Base.{◌≤◌, ◌≡◌, ◌≢◌, refl, subst, false, [], ◌∷◌, ◌++◌, arith, length}
use lzamp.Protocol.{Message}
use lzamp.Protocol.RingResult
use lzamp.Ring.{
  Ring, RingOps, Field, next_index, slot_at, is_bad_header, push, fill_slot, commit_slot,
  advance_producer,
}
use lzamp.Ring.Queue.{committed}
use lzamp.Ring.Invariant.{IsValid}
use lzamp.Ring.Contents.{contents, length-contents-le}
use lzamp.Ring.Intact.{IsIntact, AllIntact}
use lzamp.Ring.Interleave.{Producer, Consumer, Link, Step, Reach, IsFresh}
use lzamp.Ring.Interleave.Safety.{
  IsSound, ConsumerHolds, contents-release, IsFresh-IsSound, Reach-IsSound,
}

-- However the stores of the two CPUs interleave: the frames sent are, in order, the frames received
-- followed by those that the ring still holds, of which there are at most seven.
pub delivery_in_order :
    {s t : Link}
    → IsValid s.ring
    → IsFresh s
    → Reach s t
    → (t.sent ≡ t.received ++ contents t.ring) × (length (contents t.ring) ≤ 7)
delivery_in_order {t} v f r =
    let h : IsSound t = Reach-IsSound (IsFresh-IsSound v f) r in
    (h.backlog, length-contents-le h.valid)

oldest-IsIntact :
    {t : Link}
    → IsSound t
    → t.ring.consumer ≢ t.ring.producer
    → IsIntact (slot_at t.ring t.ring.consumer)
oldest-IsIntact {t} h ne = (subst AllIntact (contents-release t.ring h.valid ne) h.intact).0

-- However the stores of the two CPUs interleave: a consumer that saw the indices differ finds a
-- complete frame that passes the header checks and the CRC, so its pop is neither incomplete nor
-- refused, and every frame received so far was such a frame.
pub no_torn_frame :
    {s t : Link}
    → IsValid s.ring
    → IsFresh s
    → Reach s t
    → (t.consumer ≡ Consumer.nonempty → IsIntact (slot_at t.ring t.ring.consumer))
      × AllIntact t.received
no_torn_frame {t} v f r =
    let h : IsSound t = Reach-IsSound (IsFresh-IsSound v f) r in
    (
      λ point. oldest-IsIntact h (subst (λ c. ConsumerHolds c t.ring) point h.consuming),
      h.delivered,
    )

module _ {W : Type 0} (ops : RingOps W)
    (coherent : (f : Field) (r : Ring) (w : W) → ops.acquire f r w ≡ r) where
  push-ok :
      (m : Message) (r : Ring) (w : W)
      → (push ops m r w).0 ≡ RingResult.ok
      → (is_bad_header m ≡ false)
        × (next_index r.producer ≢ r.consumer)
        × ((push ops m r w).1
            ≡ advance_producer r.producer
                (commit_slot r.producer m.sequence (fill_slot r.producer m r)))
  unfolding push
  push-ok m r w ok = ground (arith, coherent Field.consumer_index r w)

  -- What a `mailmsg_ring_push` that returns OK leaves is reached by the producer's four steps.
  pub push_runs :
      (m : Message) (s : Link) (w : W)
      → s.producer ≡ Producer.resting
      → (push ops m s.ring w).0 ≡ RingResult.ok
      → Reach s (record s {
        ring = (push ops m s.ring w).1;
        producer = Producer.resting;
        sent = s.sent ++ (committed m ∷ []);
      })
  unfolding fill_slot commit_slot
  push_runs m s w point ok =
      let (good, room, stored) = push-ok m s.ring w ok in
      let s₁ = record s { producer = Producer.admitted m } in
      let r₁ : Reach s s₁ = Reach.next Reach.here (Step.admit s m point good room) in
      let s₂ = record s {
        ring = fill_slot s.ring.producer m s.ring;
        producer = Producer.filled m;
      } in
      let r₂ : Reach s s₂ = Reach.next r₁ (Step.fill s₁ m refl) in
      let s₃ = record s {
        ring = commit_slot s.ring.producer m.sequence (fill_slot s.ring.producer m s.ring);
        producer = Producer.written m;
      } in
      let r₃ : Reach s s₃ = Reach.next r₂ (Step.commit s₂ m refl) in
      rw stored (Reach.next r₃ (Step.advance s₃ m refl))
