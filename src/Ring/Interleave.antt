-- ===== src/Ring/Interleave.antt =====
-- The two CPUs on one ring, store by store. The producer runs `mailmsg_ring_push` and the consumer
-- `mailmsg_ring_pop`; each stands at a program point between two stores of its code, and either
-- may step next. A step sees the memory as the steps before it left it: `publish` and `acquire`
-- order the stores in that way. `sent` and `received` are the histories that the steps write down.
pub mod Safety
pub mod Delivery
use lzamp.Base.{ℕ, ◌≡◌, ◌≢◌, false, List, [], ◌∷◌, ◌++◌}
use lzamp.Protocol.{Message}
use lzamp.Ring.{Ring, next_index, slot_at, is_bad_header, fill_slot, commit_slot, advance_producer}
use lzamp.Ring.Queue.{committed}

-- `admitted`: the ring was seen to have room; `filled`: the frame stands in its slot, its commit
-- word 0; `written`: the commit word is stored, the producer index is not.
pub data Producer : Type 0 where
  resting : Producer
  admitted filled written : Message → Producer

-- `nonempty`: the indices were seen to differ; `copied`: `*message = *slot` is done.
pub data Consumer : Type 0 where
  waiting nonempty : Consumer
  copied : Message → Consumer

pub record Link : Type 0 where
  pub ring : Ring
  pub producer : Producer
  pub consumer : Consumer
  pub sent : List Message
  pub received : List Message

pub data Step : Link → Link → Type 0 where
  admit :
      (s : Link) (m : Message)
      → s.producer ≡ Producer.resting
      → is_bad_header m ≡ false
      → next_index s.ring.producer ≢ s.ring.consumer
      → Step s (record s { producer = Producer.admitted m })
  fill :
      (s : Link) (m : Message)
      → s.producer ≡ Producer.admitted m
      → Step s
          (record s { ring = fill_slot s.ring.producer m s.ring; producer = Producer.filled m })
  commit :
      (s : Link) (m : Message)
      → s.producer ≡ Producer.filled m
      → Step s (record s {
        ring = commit_slot s.ring.producer m.sequence s.ring;
        producer = Producer.written m;
      })
  advance :
      (s : Link) (m : Message)
      → s.producer ≡ Producer.written m
      → Step s (record s {
        ring = advance_producer s.ring.producer s.ring;
        producer = Producer.resting;
        sent = s.sent ++ (committed m ∷ []);
      })
  look :
      (s : Link)
      → s.consumer ≡ Consumer.waiting
      → s.ring.consumer ≢ s.ring.producer
      → Step s (record s { consumer = Consumer.nonempty })
  give_up :
      (s : Link)
      → s.consumer ≡ Consumer.nonempty
      → (slot_at s.ring s.ring.consumer).commit ≢ (slot_at s.ring s.ring.consumer).sequence
      → Step s (record s { consumer = Consumer.waiting })
  copy :
      (s : Link)
      → s.consumer ≡ Consumer.nonempty
      → (slot_at s.ring s.ring.consumer).commit ≡ (slot_at s.ring s.ring.consumer).sequence
      → Step s (record s { consumer = Consumer.copied (slot_at s.ring s.ring.consumer) })
  release :
      (s : Link) (m : Message)
      → s.consumer ≡ Consumer.copied m
      → Step s (record s {
        ring = record s.ring { consumer = next_index s.ring.consumer };
        consumer = Consumer.waiting;
        received = s.received ++ (m ∷ []);
      })

pub data Reach (s : Link) : Link → Type 0 where
  here : Reach s s
  next : {t u : Link} → Reach s t → Step t u → Reach s u

-- Both sides at rest on a ring that holds nothing.
pub record IsFresh (s : Link) : Type 0 where
  pub resting : s.producer ≡ Producer.resting
  pub waiting : s.consumer ≡ Consumer.waiting
  pub empty : s.ring.consumer ≡ s.ring.producer
  pub nothing_sent : s.sent ≡ []
  pub nothing_received : s.received ≡ []
