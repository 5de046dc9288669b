-- ===== src/Ring.antt =====
-- mailmsg/mailmsg.c: one producer, one consumer, eight slots.
-- A ring is what one CPU sees of it. `RingOps` holds the two platform hooks, which stand outside
-- this code: `acquire` gives the ring as it is seen after a refresh of one field, `publish` makes a
-- field visible to the peer, in a world `W` of which the protocol knows nothing. A function returns
-- the C result, then what it stored through its pointers. A null `ops` or hook is `none`.
pub mod Invariant
pub mod Queue
pub mod Contents
pub mod Refine
pub mod Count
pub mod Coherent
pub mod Intact
pub mod Interleave
pub mod Corruption
pub mod Fixture
mod Examples
use lzamp.Base.{
  ℕ, ◌+◌, ◌-◌, ◌%◌, Bool, not, ◌||◌, Option, none, some, List, ltb, leb, ◌==◌, if◌then◌else◌, u32,
  get_or, set,
}
use lzamp.Base.Int.{ℤ, pos}
use lzamp.Protocol.{Message, zero_message, payload_bytes, ring_slots, frame_crc32}
use lzamp.Protocol.RingResult

pub record Ring : Type 0 where
  pub producer : ℕ
  pub consumer : ℕ
  pub slots : List Message

-- What a hook is called on: an index word, a slot's frame, or a slot's commit word.
pub data Field : Type 0 where
  producer_index consumer_index : Field
  frame commit_word : ℕ → Field

pub record RingOps (W : Type 0) : Type 0 where
  pub acquire : Field → Ring → W → Ring
  pub publish : Field → Ring → W → W

abbrev pub next_index : ℕ → ℕ
next_index value = u32 (value + 1) % ring_slots

abbrev pub slot_at : Ring → ℕ → Message
slot_at r i = get_or r.slots i zero_message

-- The frame checks that `mailmsg_ring_push` and `mailmsg_ring_pop` share.
unfoldable pub is_bad_header : Message → Bool
is_bad_header m = m.generation == 0 || (m.sequence == 0 || ltb payload_bytes m.length)

-- `*slot = *message; slot->commit = 0; slot->crc32 = mailmsg_frame_crc32(slot);`
unfoldable pub sealed : Message → Message
sealed m = record m { crc32 = frame_crc32 (record m { commit = 0 }); commit = 0 }

unfoldable pub fill_slot : ℕ → Message → Ring → Ring
fill_slot i m r = record r { slots = set r.slots i (sealed m) }

-- `slot->commit = message->sequence;`
unfoldable pub commit_slot : ℕ → ℕ → Ring → Ring
commit_slot i sequence r = record r {
  slots = set r.slots i (record (slot_at r i) { commit = sequence });
}

unfoldable pub advance_producer : ℕ → Ring → Ring
advance_producer producer r = record r { producer = next_index producer }

module _ {W : Type 0} (ops : RingOps W) where
  -- The stores of an accepted frame, each published before the next.
  unfoldable pub store_frame : ℕ → Message → Ring → W → ℤ × Ring × W
  store_frame producer m r w =
      let filled = fill_slot producer m r in
      let w₁ = ops.publish (Field.frame producer) filled w in
      let committed = commit_slot producer m.sequence filled in
      let w₂ = ops.publish (Field.commit_word producer) committed w₁ in
      let advanced = advance_producer producer committed in
      let w₃ = ops.publish Field.producer_index advanced w₂ in (RingResult.ok, advanced, w₃)

  -- `producer` was read before the consumer index was refreshed.
  unfoldable pub offer_frame : ℕ → Message → Ring → W → ℤ × Ring × W
  offer_frame producer m r w =
      if next_index producer == r.consumer
      then (RingResult.full, r, w)
      else store_frame producer m r w

  unfoldable pub push : Message → Ring → W → ℤ × Ring × W
  unfolding offer_frame store_frame
  push m r w =
      if is_bad_header m
      then (RingResult.invalid, r, w)
      else offer_frame r.producer m (ops.acquire Field.consumer_index r w) w

-- The verdict of `mailmsg_ring_pop` on the frame that it copied.
unfoldable pub classify : Message → ℤ
classify m =
    if is_bad_header m
    then RingResult.invalid
    else if m.crc32 == frame_crc32 m
    then RingResult.ok
    else RingResult.bad_crc

module _ {W : Type 0} (ops : RingOps W) where
  -- `out` is what `*message` held before the call.
  unfoldable pub read_slot : ℕ → Message → Ring → W → ℤ × Message × Ring × W
  read_slot consumer out r w =
      let slot = slot_at r consumer in
      let advanced = record r { consumer = next_index consumer } in
      if slot.commit == slot.sequence
      then (classify slot, slot, advanced, ops.publish Field.consumer_index advanced w)
      else (RingResult.incomplete, out, r, w)

  unfoldable pub take_frame : ℕ → Message → Ring → W → ℤ × Message × Ring × W
  take_frame consumer out r w =
      if consumer == r.producer
      then (RingResult.empty, out, r, w)
      else read_slot consumer out (ops.acquire (Field.frame consumer) r w) w

  unfoldable pub pop : Message → Ring → W → ℤ × Message × Ring × W
  unfolding take_frame read_slot
  pop out r w = take_frame r.consumer out (ops.acquire Field.producer_index r w) w

unfoldable pub has_data : {W : Type 0} → Option (RingOps W) → Ring → W → ℤ × Ring
has_data none r w = (RingResult.invalid, r)
has_data (some ops) r w =
    let seen = ops.acquire Field.producer_index r w in
    (if seen.producer == seen.consumer then pos 0 else pos 1, seen)

-- `producer >= consumer ? producer - consumer : MAILMSG_RING_SLOTS - consumer + producer`
abbrev pub distance : ℕ → ℕ → ℕ
distance consumer producer =
    if leb consumer producer then producer - consumer else ring_slots - consumer + producer

unfoldable pub count : {W : Type 0} → Option (RingOps W) → Ring → W → ℤ × Ring
count none r w = (RingResult.invalid, r)
count (some ops) r w =
    let seen = ops.acquire Field.consumer_index (ops.acquire Field.producer_index r w) w in
    let p = seen.producer in
    let c = seen.consumer in
    (if leb ring_slots p || leb ring_slots c then RingResult.invalid else pos (distance c p), seen)
