-- ===== src/Ring/Count.antt =====
-- `mailmsg_ring_count` and `mailmsg_ring_has_data` against the frames that the ring holds.
use lzamp.Base.{◌≤◌, ◌<◌, ◌≡◌, ◌⊎◌, some, [], arith, ◌==◌, length, Bool-cases, inl, inr}
use lzamp.Base.Int.{pos, is_nonzero}
use lzamp.Protocol.{ring_slots}
use lzamp.Protocol.RingResult
use lzamp.Base.{ℕ, ◌+◌, ◌-◌, sym, ◌∙◌, true, false}
use lzamp.Protocol.{Message, zero_message}
use lzamp.Base.{replicate, List, ◌∷◌, refl, subst, length-append}
use lzamp.Base.Int.{ℤ}
use lzamp.Ring.Queue
use lzamp.Ring.Queue.{committed}
use lzamp.Ring.Coherent.{IsCoherent, push_refines_coherent, pop_refines_coherent}
use lzamp.Ring.{Ring, RingOps, Field, count, has_data, push, pop, is_bad_header}
use lzamp.Ring.Invariant.{IsValid, push-IsValid, pop-IsValid}
use lzamp.Ring.Contents.{contents, length-contents, length-contents-le, contents-empty}

module _ {W : Type 0} (ops : RingOps W) (r : Ring) (w : W) where
  abbrev both_seen : Ring
  both_seen = ops.acquire Field.consumer_index (ops.acquire Field.producer_index r w) w

  -- `mailmsg_ring_count` returns the number of frames that the ring holds, at most seven, where the
  -- refreshed indices are in range.
  count-eq-length :
      IsValid both_seen
      → ((count (some ops) r w).0 ≡ pos (length (contents both_seen)))
        × (length (contents both_seen) ≤ 7)
  unfolding count
  count-eq-length v = let e = length-contents both_seen in ground (arith, e)

  -- Where a refreshed index is out of range, `mailmsg_ring_count` says so.
  pub count-invalid :
      (ring_slots ≤ both_seen.producer) ⊎ (ring_slots ≤ both_seen.consumer)
      → (count (some ops) r w).0 ≡ RingResult.invalid
  unfolding count
  count-invalid h = ground arith

  -- `mailmsg_ring_has_data` returns 1 exactly if the ring that it sees holds a frame, and else 0.
  pub has_data_lem :
      let seen = ops.acquire Field.producer_index r w in
      IsValid seen
      → (((has_data (some ops) r w).0 ≡ pos 1) × (0 < length (contents seen)))
        ⊎ (((has_data (some ops) r w).0 ≡ pos 0) × (contents seen ≡ []))
  unfolding has_data
  has_data_lem v =
      let seen = ops.acquire Field.producer_index r w in
      let e = length-contents seen in
      elim (Bool-cases (seen.producer == seen.consumer)) [
        | inl h ↦ inr (rw h, contents-empty seen (ground arith))
        | inr h ↦ inl (rw h, rw e (ground arith))
      ]

-- What the count shows.
abbrev pub Shows : {W : Type 0} → RingOps W → ℕ → Ring → W → Type 0
Shows ops n r w = (count (some ops) r w).0 ≡ pos n

-- The length of the queue before a push and after it, and the same for a pop.
abbrev Pushed : ℕ → Message → ℤ × List Message → Type 0
Pushed n m r =
    ((is_nonzero r.0 ≡ false) × (n < 7) × (length r.1 ≡ n + 1))
    ⊎ ((is_nonzero r.0 ≡ true) × ((is_bad_header m ≡ true) ⊎ (n ≡ 7)) × (length r.1 ≡ n))

push-Pushed : (m : Message) (q : List Message) → length q ≤ 7 → Pushed (length q) m (Queue.push m q)
unfolding Queue.push
push-Pushed m q le = ground (arith, length-append q (committed m ∷ []))

abbrev Popped : ℕ → ℤ × List Message → Type 0
Popped n r =
    ((r.0 ≡ RingResult.empty) × (n ≡ 0) × (length r.1 ≡ 0))
    ⊎ (((r.0 ≡ RingResult.incomplete) × (0 < n) × (length r.1 ≡ n))
        ⊎ ((0 < n) × (length r.1 ≡ n - 1)))

pop-Popped : (q : List Message) → Popped (length q) ((Queue.pop q).0, (Queue.pop q).2)
unfolding Queue.pop
pop-Popped [] = inl (refl, refl, refl)
pop-Popped (m ∷ q) = ground arith

abbrev pub new_ring : Ring
new_ring = record { producer = 0; consumer = 0; slots = replicate 8 zero_message }

new_ring-IsValid : IsValid new_ring
new_ring-IsValid = record { eight = refl; producer_in = ground arith; consumer_in = ground arith }

-- A push and a pop of a CPU that sees the memory as it is, at `n` frames.
module _ {W : Type 0} (ops : RingOps W) (coherent : IsCoherent ops) where
  Shows-length : (r : Ring) (w : W) → IsValid r → Shows ops (length (contents r)) r w
  unfolding count
  Shows-length r w v =
      let e = length-contents r in
      let p = coherent Field.producer_index r w in
      let c = coherent Field.consumer_index (ops.acquire Field.producer_index r w) w ∙ p in
      rw c (ground (arith, e))

  shown : (n : ℕ) (r : Ring) (w : W) → IsValid r → Shows ops n r w → length (contents r) ≡ n
  shown n r w v h = let e = Shows-length r w v in ground (arith, sym e ∙ h)

  push-Shows :
      (n : ℕ) (m : Message) (r : Ring) (w : W)
      → IsValid r
      → Shows ops n r w
      → let (ret, r', w') = push ops m r w in
        ((is_nonzero ret ≡ false) × (n < 7) × Shows ops (n + 1) r' w')
        ⊎ ((is_nonzero ret ≡ true) × ((is_bad_header m ≡ true) ⊎ (n ≡ 7)) × Shows ops n r' w')
  push-Shows n m r w v h =
      let (ret, r', w') = push ops m r w in
      let same : length (contents r) ≡ n = shown n r w v h in
      let v' =
        push-IsValid ops m r w v (subst IsValid (sym (coherent Field.consumer_index r w)) v) in
      let shows = Shows-length r' w' v' in
      let grown =
        subst (Pushed (length (contents r)) m) (sym (push_refines_coherent ops coherent m r w v))
          (push-Pushed m (contents r) (length-contents-le v)) in
      ground (arith, same, shows, grown)

  pop-Shows :
      (n : ℕ) (out : Message) (r : Ring) (w : W)
      → IsValid r
      → Shows ops n r w
      → let (ret, got, r', w') = pop ops out r w in
        ((ret ≡ RingResult.empty) × (n ≡ 0) × Shows ops 0 r' w')
        ⊎ (((ret ≡ RingResult.incomplete) × (0 < n) × Shows ops n r' w')
            ⊎ ((0 < n) × Shows ops (n - 1) r' w'))
  pop-Shows n out r w v h =
      let (ret, got, r', w') = pop ops out r w in
      let same : length (contents r) ≡ n = shown n r w v h in
      let first = coherent Field.producer_index r w in
      let both =
        coherent (Field.frame r.consumer) (ops.acquire Field.producer_index r w) w ∙ first in
      let v' = pop-IsValid ops out r w (subst IsValid (sym first) v) (subst IsValid (sym both) v) in
      let shows = Shows-length r' w' v' in
      let (e₁, e₂, e₃) = pop_refines_coherent ops coherent out r w v in
      let popped = pop-Popped (contents r) in ground (arith, same, shows, e₁, e₃, popped)

  -- `mailmsg_ring_count` counts the frames that went in and have not come out, on a valid ring that
  -- the peer does not change meanwhile. A fresh ring counts 0. Where the count is `n`, a push either
  -- returns OK, which needs `n < 7`, and makes it `n + 1`; or it fails, for a bad header or `n = 7`,
  -- and leaves it. A pop finds the ring empty exactly if `n` is 0, leaves the count on an incomplete
  -- frame, and else makes it `n - 1`.
  pub count_follows :
      (n : ℕ) (m out : Message) (r : Ring) (w : W)
      → IsValid r
      → Shows ops n r w
      → Shows ops 0 new_ring w
        × (let (ret, r', w') = push ops m r w in
            ((is_nonzero ret ≡ false) × (n < 7) × Shows ops (n + 1) r' w')
            ⊎ ((is_nonzero ret ≡ true) × ((is_bad_header m ≡ true) ⊎ (n ≡ 7)) × Shows ops n r' w'))
        × (let (ret, got, r', w') = pop ops out r w in
            ((ret ≡ RingResult.empty) × (n ≡ 0) × Shows ops 0 r' w')
            ⊎ (((ret ≡ RingResult.incomplete) × (0 < n) × Shows ops n r' w')
                ⊎ ((0 < n) × Shows ops (n - 1) r' w')))
  count_follows n m out r w v h =
      (Shows-length new_ring w new_ring-IsValid, push-Shows n m r w v h, pop-Shows n out r w v h)
