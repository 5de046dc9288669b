-- ===== src/Ring/Invariant.antt =====
-- Well-formed rings: both indices name a slot. The producer's and the consumer's side keep it.
use lzamp.Base.{ℕ, ◌<◌, ◌≡◌, arith, length, length-set}
use lzamp.Protocol.{Message, ring_slots}
use lzamp.Ring.{
  Ring, RingOps, Field, push, pop, fill_slot, commit_slot, advance_producer, sealed, slot_at,
  next_index,
}

pub record IsValid (r : Ring) : Type 0 where
  pub eight : length r.slots ≡ ring_slots
  pub producer_in : r.producer < ring_slots
  pub consumer_in : r.consumer < ring_slots

pub next_index-lt : (i : ℕ) → next_index i < ring_slots
next_index-lt i = omega arith

pub fill_slot-IsValid : (i : ℕ) (m : Message) {r : Ring} → IsValid r → IsValid (fill_slot i m r)
unfolding fill_slot
fill_slot-IsValid i m {r} v = omega (arith, length-set r.slots i (sealed m))

pub commit_slot-IsValid : (i s : ℕ) {r : Ring} → IsValid r → IsValid (commit_slot i s r)
unfolding commit_slot
commit_slot-IsValid i s {r} v =
    omega (arith, length-set r.slots i (record (slot_at r i) { commit = s }))

pub advance_producer-IsValid : (i : ℕ) {r : Ring} → IsValid r → IsValid (advance_producer i r)
unfolding advance_producer
advance_producer-IsValid i v = omega arith

module _ {W : Type 0} (ops : RingOps W) where
  -- `mailmsg_ring_push` leaves a valid ring, on every branch, if the refresh of the consumer index
  -- showed one.
  pub push-IsValid :
      (m : Message) (r : Ring) (w : W)
      → IsValid r
      → IsValid (ops.acquire Field.consumer_index r w)
      → IsValid (push ops m r w).1
  unfolding push
  push-IsValid m r w v seen =
      grind (arith, fill_slot-IsValid, commit_slot-IsValid, advance_producer-IsValid)

  -- `mailmsg_ring_pop` leaves a valid ring, on every branch, if each refresh showed one.
  pub pop-IsValid :
      (out : Message) (r : Ring) (w : W)
      → let r' = ops.acquire Field.producer_index r w in
        IsValid r'
        → IsValid (ops.acquire (Field.frame r.consumer) r' w)
        → IsValid (pop ops out r w).2
  unfolding pop
  pop-IsValid out r w v seen = ground arith
