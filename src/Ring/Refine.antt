-- ===== src/Ring/Refine.antt =====
-- A valid ring is the queue of the frames from its consumer index to its producer index.
use lzamp.Base.{
  ◌-◌, ◌≡◌, ◌≢◌, ap, ap₂, subst, ◌∙◌, sym, false, [], ◌∷◌, ◌++◌, arith, ◌==◌, length, Bool-cases,
  inl, inr,
}
use mathlib.Core.Option
use lzamp.Protocol.{Message, ring_slots}
use lzamp.Protocol.RingResult
use lzamp.Ring.{
  Ring, RingOps, Field, next_index, distance, push, pop, fill_slot, commit_slot, is_bad_header,
  store_frame, offer_frame, read_slot, take_frame,
}
use lzamp.Ring.Queue
use lzamp.Ring.Queue.{committed}
use lzamp.Ring.Invariant.{IsValid, fill_slot-IsValid, commit_slot-IsValid}
use lzamp.Ring.Contents.{
  contents-empty, contents, distance-advance, length-contents, span_of_ne_zero, contents-fill_slot,
  contents-commit_slot, contents-advance_producer, slot_at-fill_slot, slot_at-commit_slot,
}

module _ {W : Type 0} (ops : RingOps W) where
  contents-store_frame :
      (m : Message) (r : Ring) (w : W)
      → IsValid r
      → next_index r.producer ≢ r.consumer
      → contents (store_frame ops r.producer m r w).1 ≡ contents r ++ (committed m ∷ [])
  unfolding store_frame fill_slot commit_slot
  contents-store_frame m r w v room =
      let v₁ : IsValid (fill_slot r.producer m r) = fill_slot-IsValid r.producer m v in
      contents-advance_producer (commit_slot-IsValid r.producer m.sequence v₁) room
      ∙ ap₂ (λ q x. q ++ (x ∷ []))
          (contents-commit_slot m.sequence v₁ room ∙ contents-fill_slot m v room)
          (slot_at-commit_slot m v₁ (slot_at-fill_slot m v))

  -- The queue is full exactly where the code's test says so.
  full_iff :
      {r : Ring}
      → IsValid r
      → (next_index r.producer == r.consumer) ≡ (length (contents r) == ring_slots - 1)
  full_iff {r} v = rw (length-contents r) (ground arith)

  offer_frame_refines :
      (m : Message) (r : Ring) (w : W)
      → IsValid r
      → is_bad_header m ≡ false
      → let (result, r', w') = offer_frame ops r.producer m r w in
        (result, contents r') ≡ Queue.push m (contents r)
  unfolding offer_frame Queue.push store_frame
  offer_frame_refines m r w v good = elim (Bool-cases (next_index r.producer == r.consumer)) [
    | inl e ↦ rw (good, ← full_iff v, e)
    | inr e ↦
        let room : next_index r.producer ≢ r.consumer = ground arith in
        rw (good, ← full_iff v, e)
          (ap (λ q. (RingResult.ok, q)) (contents-store_frame m r w v room))
  ]

  -- With a frame header that passes, `mailmsg_ring_push` returns the result of `Queue.push` on the
  -- frames seen at the refresh of the consumer index, and leaves the ring holding its queue, if
  -- that refresh shows a valid ring and leaves the producer's own index alone.
  pub push_refines :
      (m : Message) (r : Ring) (w : W)
      → let seen = ops.acquire Field.consumer_index r w in
        IsValid seen
        → seen.producer ≡ r.producer
        → is_bad_header m ≡ false
        → let (result, r', w') = push ops m r w in
          (result, contents r') ≡ Queue.push m (contents seen)
  unfolding push
  push_refines m r w v own good =
      let seen = ops.acquire Field.consumer_index r w in
      rw good (
        subst
          (λ p.
            let (result, r', w') = offer_frame ops p m seen w in
            (result, contents r') ≡ Queue.push m (contents seen))
          own (offer_frame_refines m seen w v good))

  -- What a pop gives, beside what the queue gives: the frame goes through `*message`, which keeps
  -- its old value where the queue gives none.
  read_slot_refines :
      (out : Message) (r : Ring) (w : W)
      → IsValid r
      → r.consumer ≢ r.producer
      → let (result, got, r', w') = read_slot ops r.consumer out r w in
        let (result', frame, rest) = Queue.pop (contents r) in
        (result ≡ result') × (got ≡ Option.get_or frame out) × (contents r' ≡ rest)
  unfolding read_slot Queue.pop
  read_slot_refines out r w v ne = ground (
    arith,
    span_of_ne_zero r.slots r.consumer (distance r.consumer r.producer),
    distance-advance v ne,
  )

  take_frame_refines :
      (out : Message) (r seen : Ring) (w : W)
      → seen ≡ ops.acquire (Field.frame r.consumer) r w
      → IsValid seen
      → seen.producer ≡ r.producer
      → seen.consumer ≡ r.consumer
      → let (result, got, r', w') = take_frame ops r.consumer out r w in
        let (result', frame, rest) = Queue.pop (contents seen) in
        (result ≡ result') × (got ≡ Option.get_or frame out) × (contents r' ≡ rest)
  unfolding take_frame read_slot Queue.pop
  take_frame_refines out r seen w e v own_p own_c = elim (Bool-cases (r.consumer == r.producer)) [
    | inl h ↦ ground (arith, contents-empty r, contents-empty seen)
    | inr h ↦ rw (h, ← e, ← own_c) (read_slot_refines out seen w v (ground arith))
  ]

  -- `mailmsg_ring_pop` returns the result of `Queue.pop` on the frames seen after its refreshes,
  -- hands out the queue's frame (or leaves `*message` alone where the queue gives none), and leaves
  -- the ring holding the queue's rest, if the refreshes show a valid ring, leave the consumer's own
  -- index alone, and the second one does not move the producer index.
  pub pop_refines :
      (out : Message) (r : Ring) (w : W)
      → let r₁ = ops.acquire Field.producer_index r w in
        let seen = ops.acquire (Field.frame r.consumer) r₁ w in
        IsValid seen
        → r₁.consumer ≡ r.consumer
        → seen.producer ≡ r₁.producer
        → seen.consumer ≡ r.consumer
        → let (result, got, r', w') = pop ops out r w in
          let (result', frame, rest) = Queue.pop (contents seen) in
          (result ≡ result') × (got ≡ Option.get_or frame out) × (contents r' ≡ rest)
  unfolding pop
  pop_refines out r w v own own_p own_c =
      let r₁ = ops.acquire Field.producer_index r w in
      let seen = ops.acquire (Field.frame r.consumer) r₁ w in
      subst
        (λ c.
          let (result, got, r', w') = take_frame ops c out r₁ w in
          let (result', frame, rest) = Queue.pop (contents seen) in
          (result ≡ result') × (got ≡ Option.get_or frame out) × (contents r' ≡ rest))
        own
        (take_frame_refines out r₁ seen w (ap (λ c. ops.acquire (Field.frame c) r₁ w) (sym own)) v
          own_p (own_c ∙ sym own))
