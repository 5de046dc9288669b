-- ===== src/Ring/Contents.antt =====
-- The frames that a ring holds, oldest first, and what the stores of the producer do to them.
use lzamp.Base.{
  ℕ, zero, suc, ◌+◌, ◌-◌, ◌%◌, ◌<◌, ◌≤◌, ◌≡◌, ◌≢◌, refl, ap, ap₂, ◌∙◌, sym, List, [], ◌∷◌, ◌++◌,
  arith, length, get_or, set, get_or-set_self, get_or-set_ne,
}
use lzamp.Protocol.{Message, zero_message}
use lzamp.Ring.{
  Ring, next_index, distance, fill_slot, commit_slot, advance_producer, sealed, slot_at,
}
use lzamp.Ring.Queue.{committed}
use lzamp.Ring.Invariant.{IsValid}

-- The `n` frames from index `i` on, going round after the last slot.
abbrev pub span : List Message → ℕ → ℕ → List Message
span slots i zero = []
span slots i (suc n) = get_or slots i zero_message ∷ span slots (next_index i) n

abbrev pub contents : Ring → List Message
contents r = span r.slots r.consumer (distance r.consumer r.producer)

pub length-span : (slots : List Message) (i n : ℕ) → length (span slots i n) ≡ n
length-span slots i zero = refl
length-span slots i (suc n) = ap suc (length-span slots (next_index i) n)

-- A store outside a span leaves it alone; one just behind it extends it.
pub span-set :
    (slots : List Message) (m : Message) (n i k : ℕ)
    → length slots ≡ 8
    → i < 8
    → n < 8
    → k ≡ (i + n) % 8
    → span (set slots k m) i n ≡ span slots i n
span-set slots m zero i k e hi hn h = refl
span-set slots m (suc n) i k e hi hn h =
    ap₂ ◌∷◌ (get_or-set_ne slots k i m zero_message (omega arith))
      (span-set slots m n (next_index i) k e (omega arith) (omega arith) (omega arith))

pub span-suc :
    (slots : List Message) (n i : ℕ)
    → i < 8
    → span slots i (suc n) ≡ span slots i n ++ (get_or slots ((i + n) % 8) zero_message ∷ [])
span-suc slots zero i hi = ap (λ k. get_or slots k zero_message ∷ []) (omega arith)
span-suc slots (suc n) i hi =
    ap (λ l. get_or slots i zero_message ∷ l)
      (span-suc slots n (next_index i) (omega arith)
        ∙ ap (λ k. span slots (next_index i) n ++ (get_or slots k zero_message ∷ [])) (omega arith))

-- `span` matches on `suc`, the code compares the indices.
pub span_of_ne_zero :
    (slots : List Message) (i n : ℕ)
    → n ≢ 0
    → span slots i n ≡ get_or slots i zero_message ∷ span slots (next_index i) (n - 1)
span_of_ne_zero slots i zero h = absurd (h refl)
span_of_ne_zero slots i (suc n) h = ap (λ k. span slots i (suc k)) (omega arith)

pub length-contents : (r : Ring) → length (contents r) ≡ distance r.consumer r.producer
length-contents r = length-span r.slots r.consumer (distance r.consumer r.producer)

-- The slot behind the last frame, which the producer may fill while `next_index` is not reached.
pub distance-next :
    {r : Ring}
    → IsValid r
    → next_index r.producer ≢ r.consumer
    → (distance r.consumer (next_index r.producer) ≡ suc (distance r.consumer r.producer))
      × (distance r.consumer r.producer < 7)
      × (r.producer ≡ (r.consumer + distance r.consumer r.producer) % 8)
distance-next v room = ground arith

pub contents-fill_slot :
    (m : Message) {r : Ring}
    → IsValid r
    → next_index r.producer ≢ r.consumer
    → contents (fill_slot r.producer m r) ≡ contents r
unfolding fill_slot
contents-fill_slot m {r} v room =
    span-set r.slots (sealed m) (distance r.consumer r.producer) r.consumer r.producer v.eight
      v.consumer_in (omega (arith, (distance-next v room).1)) (distance-next v room).2

pub contents-commit_slot :
    (s : ℕ) {r : Ring}
    → IsValid r
    → next_index r.producer ≢ r.consumer
    → contents (commit_slot r.producer s r) ≡ contents r
unfolding commit_slot
contents-commit_slot s {r} v room =
    span-set r.slots (record (slot_at r r.producer) { commit = s }) (distance r.consumer r.producer)
      r.consumer r.producer v.eight v.consumer_in (omega (arith, (distance-next v room).1))
      (distance-next v room).2

-- Moving the producer index on takes in the frame of its slot.
pub contents-advance_producer :
    {r : Ring}
    → IsValid r
    → next_index r.producer ≢ r.consumer
    → contents (advance_producer r.producer r) ≡ contents r ++ (slot_at r r.producer ∷ [])
unfolding advance_producer
contents-advance_producer {r} v room =
    let (e, small, at) = distance-next v room in
    ap (λ n. span r.slots r.consumer n) e
    ∙ span-suc r.slots (distance r.consumer r.producer) r.consumer v.consumer_in
    ∙ ap (λ k. contents r ++ (get_or r.slots k zero_message ∷ [])) (sym at)

pub slot_at-fill_slot :
    (m : Message) {r : Ring} → IsValid r → slot_at (fill_slot r.producer m r) r.producer ≡ sealed m
unfolding fill_slot
slot_at-fill_slot m {r} v = get_or-set_self r.slots r.producer (sealed m) zero_message (omega arith)

pub slot_at-commit_slot :
    (m : Message) {r : Ring}
    → IsValid r
    → slot_at r r.producer ≡ sealed m
    → slot_at (commit_slot r.producer m.sequence r) r.producer ≡ committed m
unfolding commit_slot committed
slot_at-commit_slot m {r} v e =
    get_or-set_self r.slots r.producer _ zero_message (omega arith)
    ∙ ap (λ (s : Message). record s { commit = m.sequence }) e

-- Past the oldest frame.
pub distance-advance :
    {r : Ring}
    → IsValid r
    → r.consumer ≢ r.producer
    → (distance r.consumer r.producer ≢ 0)
      × (distance (next_index r.consumer) r.producer ≡ distance r.consumer r.producer - 1)
distance-advance v ne = (ground arith, ground arith)

pub contents-empty : (r : Ring) → r.consumer ≡ r.producer → contents r ≡ []
contents-empty r e = rw none_between
  where
    none_between : distance r.consumer r.producer ≡ 0
    none_between = ground arith

pub length-contents-le : {r : Ring} → IsValid r → length (contents r) ≤ 7
length-contents-le {r} v = rw (length-contents r) (ground arith)
