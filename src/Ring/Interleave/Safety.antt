-- ===== src/Ring/Interleave/Safety.antt =====
-- What no interleaving of the two CPUs breaks.
use lzamp.Base.{
  ℕ, ◌≡◌, ◌≢◌, refl, sym, ap, ap₂, subst, ◌∙◌, false, [], ◌∷◌, ◌++◌, append_assoc, arith,
  get_or-set_ne,
}
use lzamp.Protocol.{Message, zero_message}
use lzamp.Ring.{
  Ring, next_index, distance, slot_at, is_bad_header, sealed, fill_slot, commit_slot,
  advance_producer,
}
use lzamp.Ring.Queue.{committed}
use lzamp.Ring.Invariant.{IsValid, fill_slot-IsValid, commit_slot-IsValid, advance_producer-IsValid}
use lzamp.Ring.Contents.{
  span, contents, span_of_ne_zero, distance-advance, contents-fill_slot, contents-commit_slot,
  contents-advance_producer, slot_at-fill_slot, slot_at-commit_slot, contents-empty,
}
use lzamp.Ring.Intact.{AllIntact, AllIntact-append, committed-IsIntact}
use lzamp.Ring.Interleave.{Producer, Consumer, Link, Step, Reach, IsFresh}

abbrev pub HasRoom : Ring → Type 0
HasRoom r = next_index r.producer ≢ r.consumer

abbrev pub ProducerHolds : Producer → Ring → Type 0
ProducerHolds Producer.resting r = Unit {0}
ProducerHolds (Producer.admitted m) r = (is_bad_header m ≡ false) × HasRoom r
ProducerHolds (Producer.filled m) r =
    (is_bad_header m ≡ false) × HasRoom r × (slot_at r r.producer ≡ sealed m)
ProducerHolds (Producer.written m) r =
    (is_bad_header m ≡ false) × HasRoom r × (slot_at r r.producer ≡ committed m)

abbrev pub ConsumerHolds : Consumer → Ring → Type 0
ConsumerHolds Consumer.waiting r = Unit {0}
ConsumerHolds Consumer.nonempty r = r.consumer ≢ r.producer
ConsumerHolds (Consumer.copied m) r = (r.consumer ≢ r.producer) × (slot_at r r.consumer ≡ m)

pub record IsSound (s : Link) : Type 0 where
  pub valid : IsValid s.ring
  pub backlog : s.sent ≡ s.received ++ contents s.ring
  pub intact : AllIntact (contents s.ring)
  pub delivered : AllIntact s.received
  pub producing : ProducerHolds s.producer s.ring
  pub consuming : ConsumerHolds s.consumer s.ring

-- A store of the producer into its slot does not reach the consumer's slot.
ConsumerHolds-fill_slot :
    (c : Consumer) (m : Message) (r : Ring)
    → ConsumerHolds c r
    → ConsumerHolds c (fill_slot r.producer m r)
unfolding fill_slot
ConsumerHolds-fill_slot Consumer.waiting m r h = tt
ConsumerHolds-fill_slot Consumer.nonempty m r h = h
ConsumerHolds-fill_slot (Consumer.copied k) m r h = (
  h.0,
  get_or-set_ne r.slots r.producer r.consumer (sealed m) zero_message (λ e. h.0 (sym e)) ∙ h.1,
)

ConsumerHolds-commit_slot :
    (c : Consumer) (s : ℕ) (r : Ring)
    → ConsumerHolds c r
    → ConsumerHolds c (commit_slot r.producer s r)
unfolding commit_slot
ConsumerHolds-commit_slot Consumer.waiting s r h = tt
ConsumerHolds-commit_slot Consumer.nonempty s r h = h
ConsumerHolds-commit_slot (Consumer.copied k) s r h =
    (h.0, get_or-set_ne r.slots r.producer r.consumer _ zero_message (λ e. h.0 (sym e)) ∙ h.1)

ConsumerHolds-advance_producer :
    (c : Consumer) (r : Ring)
    → HasRoom r
    → ConsumerHolds c r
    → ConsumerHolds c (advance_producer r.producer r)
unfolding advance_producer
ConsumerHolds-advance_producer Consumer.waiting r room h = tt
ConsumerHolds-advance_producer Consumer.nonempty r room h = λ e. room (sym e)
ConsumerHolds-advance_producer (Consumer.copied k) r room h = (λ e. room (sym e), h.1)

-- Releasing a slot leaves the producer's room and its slot.
ProducerHolds-release :
    (p : Producer) (r : Ring)
    → IsValid r
    → r.consumer ≢ r.producer
    → ProducerHolds p r
    → ProducerHolds p (record r { consumer = next_index r.consumer })
ProducerHolds-release Producer.resting r v ne h = tt
ProducerHolds-release (Producer.admitted m) r v ne h = (h.0, omega arith)
ProducerHolds-release (Producer.filled m) r v ne h = (h.0, omega arith, h.2)
ProducerHolds-release (Producer.written m) r v ne h = (h.0, omega arith, h.2)

-- The oldest frame and the rest.
pub contents-release :
    (r : Ring)
    → IsValid r
    → r.consumer ≢ r.producer
    → contents r ≡ slot_at r r.consumer ∷ contents (record r { consumer = next_index r.consumer })
contents-release r v ne =
    let (some_left, e) = distance-advance v ne in
    span_of_ne_zero r.slots r.consumer (distance r.consumer r.producer) some_left
    ∙ ap (λ n. slot_at r r.consumer ∷ span r.slots (next_index r.consumer) n) (sym e)

fill-IsSound :
    (s : Link) (m : Message)
    → s.producer ≡ Producer.admitted m
    → IsSound s
    → IsSound (record s { ring = fill_slot s.ring.producer m s.ring; producer = Producer.filled m })
unfolding fill_slot
fill-IsSound s m point h =
    let (good, room) = subst (λ p. ProducerHolds p s.ring) point h.producing in
    let same = contents-fill_slot m h.valid room in
    record {
      valid = fill_slot-IsValid s.ring.producer m h.valid;
      backlog = h.backlog ∙ ap (λ q. s.received ++ q) (sym same);
      intact = subst AllIntact (sym same) h.intact;
      delivered = h.delivered;
      producing = (good, room, slot_at-fill_slot m h.valid);
      consuming = ConsumerHolds-fill_slot s.consumer m s.ring h.consuming;
    }

commit-IsSound :
    (s : Link) (m : Message)
    → s.producer ≡ Producer.filled m
    → IsSound s
    → IsSound (record s {
      ring = commit_slot s.ring.producer m.sequence s.ring;
      producer = Producer.written m;
    })
unfolding commit_slot
commit-IsSound s m point h =
    let (good, room, slot) = subst (λ p. ProducerHolds p s.ring) point h.producing in
    let same = contents-commit_slot m.sequence h.valid room in
    record {
      valid = commit_slot-IsValid s.ring.producer m.sequence h.valid;
      backlog = h.backlog ∙ ap (λ q. s.received ++ q) (sym same);
      intact = subst AllIntact (sym same) h.intact;
      delivered = h.delivered;
      producing = (good, room, slot_at-commit_slot m h.valid slot);
      consuming = ConsumerHolds-commit_slot s.consumer m.sequence s.ring h.consuming;
    }

advance-IsSound :
    (s : Link) (m : Message)
    → s.producer ≡ Producer.written m
    → IsSound s
    → IsSound (record s {
      ring = advance_producer s.ring.producer s.ring;
      producer = Producer.resting;
      sent = s.sent ++ (committed m ∷ []);
    })
advance-IsSound s m point h =
    let (good, room, slot) = subst (λ p. ProducerHolds p s.ring) point h.producing in
    let q = contents s.ring in
    let grown = contents-advance_producer h.valid room ∙ ap (λ k. q ++ (k ∷ [])) slot in
    record {
      valid = advance_producer-IsValid s.ring.producer h.valid;
      backlog =
          ap (λ l. l ++ (committed m ∷ [])) h.backlog
          ∙ append_assoc s.received q (committed m ∷ [])
          ∙ ap (λ l. s.received ++ l) (sym grown);
      intact =
          subst AllIntact (sym grown)
            (AllIntact-append q (committed m ∷ []) h.intact (committed-IsIntact m good, tt));
      delivered = h.delivered;
      producing = tt;
      consuming = ConsumerHolds-advance_producer s.consumer s.ring room h.consuming;
    }

turn-IsSound :
    (s : Link) (c : Consumer)
    → ConsumerHolds c s.ring
    → IsSound s
    → IsSound (record s { consumer = c })
turn-IsSound s c holds h = record {
  valid = h.valid;
  backlog = h.backlog;
  intact = h.intact;
  delivered = h.delivered;
  producing = h.producing;
  consuming = holds;
}

release-IsSound :
    (s : Link) (m : Message)
    → s.consumer ≡ Consumer.copied m
    → IsSound s
    → IsSound (record s {
      ring = record s.ring { consumer = next_index s.ring.consumer };
      consumer = Consumer.waiting;
      received = s.received ++ (m ∷ []);
    })
release-IsSound s m point h =
    let (ne, slot) = subst (λ c. ConsumerHolds c s.ring) point h.consuming in
    let rest = contents (record s.ring { consumer = next_index s.ring.consumer }) in
    let split = contents-release s.ring h.valid ne ∙ ap (λ k. k ∷ rest) slot in
    record {
      valid = omega (arith, h.valid);
      backlog =
          h.backlog ∙ ap (λ l. s.received ++ l) split ∙ sym (append_assoc s.received (m ∷ []) rest);
      intact = (subst AllIntact split h.intact).1;
      delivered =
          AllIntact-append s.received (m ∷ []) h.delivered ((subst AllIntact split h.intact).0, tt);
      producing = ProducerHolds-release s.producer s.ring h.valid ne h.producing;
      consuming = tt;
    }

pub Step-IsSound : {s t : Link} → Step s t → IsSound s → IsSound t
Step-IsSound (Step.admit s m point good room) h = record {
  valid = h.valid;
  backlog = h.backlog;
  intact = h.intact;
  delivered = h.delivered;
  producing = (good, room);
  consuming = h.consuming;
}
Step-IsSound (Step.fill s m point) h = fill-IsSound s m point h
Step-IsSound (Step.commit s m point) h = commit-IsSound s m point h
Step-IsSound (Step.advance s m point) h = advance-IsSound s m point h
Step-IsSound (Step.look s point ne) h = turn-IsSound s Consumer.nonempty ne h
Step-IsSound (Step.give_up s point torn) h = turn-IsSound s Consumer.waiting tt h
Step-IsSound (Step.copy s point whole) h =
    turn-IsSound s (Consumer.copied (slot_at s.ring s.ring.consumer))
      (subst (λ c. ConsumerHolds c s.ring) point h.consuming, refl) h
Step-IsSound (Step.release s m point) h = release-IsSound s m point h

pub IsFresh-IsSound : {s : Link} → IsValid s.ring → IsFresh s → IsSound s
IsFresh-IsSound {s} v f =
    let none_held = contents-empty s.ring (f.empty) in
    record {
      valid = v;
      backlog = f.nothing_sent ∙ sym (ap₂ ◌++◌ f.nothing_received none_held);
      intact = subst AllIntact (sym none_held) tt;
      delivered = subst AllIntact (sym f.nothing_received) tt;
      producing = subst (λ p. ProducerHolds p s.ring) (sym f.resting) tt;
      consuming = subst (λ c. ConsumerHolds c s.ring) (sym f.waiting) tt;
    }

pub Reach-IsSound : {s t : Link} → IsSound s → Reach s t → IsSound t
Reach-IsSound h Reach.here = h
Reach-IsSound h (Reach.next r step) = Step-IsSound step (Reach-IsSound h r)
