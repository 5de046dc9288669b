-- ===== src/Ring/Coherent.antt =====
-- A CPU that sees the memory as it is: a refresh changes nothing. Between its calls the peer may
-- have moved; within one call it has not.
use lzamp.Base.{
  ◌≡◌, refl, sym, ap, subst, ◌∙◌, true, false, some, List, [], ◌∷◌, ◌++◌, ◌⊎◌, inl, inr, Bool-cases,
  ◌==◌, length,
}
use mathlib.Core.Option
use lzamp.Base.Int.{ℤ, is_nonzero}
use lzamp.Protocol.{Message}
use lzamp.Ring.{Ring, RingOps, Field, push, pop, count, is_bad_header}
use lzamp.Ring.Queue
use lzamp.Ring.Queue.{committed}
use lzamp.Ring.Invariant.{IsValid}
use lzamp.Ring.Contents.{contents}
use lzamp.Ring.Refine.{push_refines, pop_refines}

abbrev pub IsCoherent : {W : Type 0} → RingOps W → Type 0
IsCoherent {W} ops = (f : Field) (r : Ring) (w : W) → ops.acquire f r w ≡ r

module _ {W : Type 0} (ops : RingOps W) (coherent : IsCoherent ops) where
  push-bad :
      (m : Message) (r : Ring) (w : W)
      → is_bad_header m ≡ true
      → let (result, r', w') = push ops m r w in (result, contents r') ≡ Queue.push m (contents r)
  unfolding push Queue.push
  push-bad m r w bad = rw bad

  pub push_refines_coherent :
      (m : Message) (r : Ring) (w : W)
      → IsValid r
      → let (result, r', w') = push ops m r w in (result, contents r') ≡ Queue.push m (contents r)
  push_refines_coherent m r w v =
      let same = coherent Field.consumer_index r w in
      elim (Bool-cases (is_bad_header m)) [
        | inl bad ↦ push-bad m r w bad
        | inr good ↦
            push_refines ops m r w (subst IsValid (sym same) v) (ap (λ (x : Ring). x.producer) same)
              good
            ∙ ap (λ x. Queue.push m (contents x)) same
      ]

  pub pop_refines_coherent :
      (out : Message) (r : Ring) (w : W)
      → IsValid r
      → let (result, got, r', w') = pop ops out r w in
        let (result', frame, rest) = Queue.pop (contents r) in
        (result ≡ result') × (got ≡ Option.get_or frame out) × (contents r' ≡ rest)
  pop_refines_coherent out r w v =
      let same = coherent Field.producer_index r w in
      let seen = ops.acquire (Field.frame r.consumer) (ops.acquire Field.producer_index r w) w in
      let all_same : seen ≡ r =
        coherent (Field.frame r.consumer) (ops.acquire Field.producer_index r w) w ∙ same in
      subst
        (λ x.
          let (result, got, r', w') = pop ops out r w in
          let (result', frame, rest) = Queue.pop (contents x) in
          (result ≡ result') × (got ≡ Option.get_or frame out) × (contents r' ≡ rest))
        all_same
        (pop_refines ops out r w (subst IsValid (sym all_same) v)
          (ap (λ (x : Ring). x.consumer) same) (ap (λ (x : Ring). x.producer) (all_same ∙ sym same))
          (ap (λ (x : Ring). x.consumer) all_same))

  pub count_coherent : (r : Ring) (w : W) → (count (some ops) r w).1 ≡ r
  unfolding count
  count_coherent r w =
      coherent Field.consumer_index (ops.acquire Field.producer_index r w) w
      ∙ coherent Field.producer_index r w

-- A push either appends a committed frame and returns OK, or leaves the queue and returns an error.
abbrev pub PushEffect : Message → List Message → ℤ × List Message → Type 0
PushEffect m q r =
    ((is_nonzero r.0 ≡ false) × (is_bad_header m ≡ false) × (r.1 ≡ q ++ (committed m ∷ [])))
    ⊎ ((is_nonzero r.0 ≡ true) × (r.1 ≡ q))

pub push_effect : (m : Message) (q : List Message) → PushEffect m q (Queue.push m q)
unfolding Queue.push
push_effect m q = elim (Bool-cases (is_bad_header m)) [
  | inl bad ↦ rw bad (inr (refl, refl))
  | inr good ↦ elim (Bool-cases (length q == 7)) [
    | inl full ↦ rw (good, full) (inr (refl, refl))
    | inr room ↦ rw (good, room) (inl (refl, refl, refl))
  ]
]
