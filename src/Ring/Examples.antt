-- ===== src/Ring/Examples.antt =====
-- Runs of the ring at concrete inputs.
use lzamp.Base.{
  ℕ, ◌⊎◌, true, ◌≡◌, ◌≢◌, ◌≤◌, ◌<◌, refl, false, some, [], ◌∷◌, ◌++◌, arith, length, set, get_elem?,
  replicate,
}
use mathlib.Core.Option
use lzamp.Base.Int.{is_nonzero}
use lzamp.Protocol.{Message, zero_message, frame_bytes, frame_crc32, le32_bytes}
use lzamp.Protocol.Crc.{IsBytes}
use lzamp.Protocol.RingResult
use lzamp.Ring.{
  Ring, push, pop, count, is_bad_header, slot_at, fill_slot, commit_slot, advance_producer,
  offer_frame, store_frame,
}
use lzamp.Ring.Queue
use lzamp.Ring.Queue.{committed}
use lzamp.Ring.Invariant.{IsValid, push-IsValid}
use lzamp.Ring.Contents.{contents}
use lzamp.Ring.Refine.{push_refines, pop_refines}
use lzamp.Ring.Count.{Shows, new_ring, count_follows}
use lzamp.Ring.Intact.{IsIntact, AllIntact}
use lzamp.Ring.Interleave.{Producer, Consumer, Link, Step, Reach, IsFresh}
use lzamp.Ring.Interleave.Delivery.{delivery_in_order, no_torn_frame, push_runs}
use lzamp.Ring.Corruption.{pop-changed_byte}
use lzamp.Ring.Fixture.{still_ops, frame_of, idle_ring, idle_ring-IsValid}

frame_of-good : is_bad_header (frame_of 5) ≡ false
unfolding is_bad_header
frame_of-good = refl

-- The ring after one push.
abbrev one_ring : Ring
one_ring = (push still_ops (frame_of 5) idle_ring tt).1

push-idle : (push still_ops (frame_of 5) idle_ring tt).0 ≡ RingResult.ok
unfolding push is_bad_header
push-idle = refl

one_ring-IsValid : IsValid one_ring
one_ring-IsValid =
    push-IsValid still_ops (frame_of 5) idle_ring tt idle_ring-IsValid idle_ring-IsValid

push_refines_example :
    let (result, r', w') = push still_ops (frame_of 5) idle_ring tt in
    (result, contents r') ≡ Queue.push (frame_of 5) (contents idle_ring)
push_refines_example =
    push_refines still_ops (frame_of 5) idle_ring tt idle_ring-IsValid refl frame_of-good

pop_refines_example :
    let (result, got, r', w') = pop still_ops zero_message one_ring tt in
    let (result', frame, rest) = Queue.pop (contents one_ring) in
    (result ≡ result') × (got ≡ Option.get_or frame zero_message) × (contents r' ≡ rest)
pop_refines_example = pop_refines still_ops zero_message one_ring tt one_ring-IsValid refl refl refl

one_shown : Shows still_ops 1 one_ring tt
unfolding count push is_bad_header advance_producer commit_slot fill_slot
one_shown = refl

count_follows_example :
    Shows still_ops 0 new_ring tt
    × (let (ret, r', w') = push still_ops (frame_of 6) one_ring tt in
        ((is_nonzero ret ≡ false) × (1 < 7) × Shows still_ops 2 r' w')
        ⊎ ((is_nonzero ret ≡ true)
            × ((is_bad_header (frame_of 6) ≡ true) ⊎ (◌≡◌ {A = ℕ} 1 7))
            × Shows still_ops 1 r' w'))
    × (let (ret, got, r', w') = pop still_ops zero_message one_ring tt in
        ((ret ≡ RingResult.empty) × (◌≡◌ {A = ℕ} 1 0) × Shows still_ops 0 r' w')
        ⊎ (((ret ≡ RingResult.incomplete) × (0 < 1) × Shows still_ops 1 r' w')
            ⊎ ((0 < 1) × Shows still_ops 0 r' w')))
count_follows_example =
    count_follows still_ops (λ f r w. refl) 1 (frame_of 6) zero_message one_ring tt one_ring-IsValid
      one_shown

abbrev broken_ring : Ring
broken_ring = record idle_ring { producer = 8 }

abbrev fresh_link : Link
fresh_link = record {
  ring = idle_ring;
  producer = Producer.resting;
  consumer = Consumer.waiting;
  sent = [];
  received = [];
}

fresh_link-IsFresh : IsFresh fresh_link
fresh_link-IsFresh = record {
  resting = refl;
  waiting = refl;
  empty = refl;
  nothing_sent = refl;
  nothing_received = refl;
}

abbrev sent_link : Link
sent_link = record fresh_link { ring = one_ring; sent = committed (frame_of 5) ∷ [] }

abbrev looking_link : Link
looking_link = record sent_link { consumer = Consumer.nonempty }

one_ring-holds : one_ring.consumer ≢ one_ring.producer
unfolding push offer_frame store_frame is_bad_header fill_slot commit_slot advance_producer
one_ring-holds = ground arith

sending : Reach fresh_link sent_link
sending = push_runs still_ops (λ f r w. refl) (frame_of 5) fresh_link tt refl push-idle

looking : Reach fresh_link looking_link
looking = Reach.next sending (Step.look sent_link refl one_ring-holds)

delivery_in_order_example :
    (committed (frame_of 5) ∷ [] ≡ [] ++ contents one_ring) × (length (contents one_ring) ≤ 7)
delivery_in_order_example = delivery_in_order idle_ring-IsValid fresh_link-IsFresh looking

no_torn_frame_example :
    (Consumer.nonempty ≡ Consumer.nonempty → IsIntact (slot_at one_ring one_ring.consumer))
    × AllIntact []
no_torn_frame_example = no_torn_frame idle_ring-IsValid fresh_link-IsFresh looking

-- The frame of before with its first payload byte changed on the way.
abbrev changed_frame : Message
changed_frame = record (frame_of 5) {
  payload = 8 ∷ replicate 27 7;
  crc32 = frame_crc32 (frame_of 5);
  commit = 5;
}

abbrev changed_ring : Ring
changed_ring = record {
  producer = 1;
  consumer = 0;
  slots = changed_frame ∷ replicate 7 zero_message;
}

payload-IsBytes : IsBytes (replicate 28 7)
payload-IsBytes = omega arith

changed_byte : frame_bytes changed_frame ≡ set (frame_bytes (frame_of 5)) 16 8
unfolding frame_bytes le32_bytes
changed_byte = refl

byte_in : 16 < length (frame_bytes (frame_of 5))
unfolding frame_bytes le32_bytes
byte_in = omega arith

byte_differs : get_elem? (frame_bytes (frame_of 5)) 16 ≢ some 8
unfolding frame_bytes le32_bytes
byte_differs = ground arith

pop-changed_byte_example : (pop still_ops zero_message changed_ring tt).0 ≢ RingResult.ok
pop-changed_byte_example =
    pop-changed_byte still_ops zero_message changed_ring tt (frame_of 5) changed_frame 16 8 refl
      payload-IsBytes byte_in (omega arith) byte_differs changed_byte refl
