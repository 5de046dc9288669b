-- ===== src/Driver/Drain.antt =====
-- The control work comes to an end.
use lzamp.Base.{
  ℕ, zero, suc, ◌≡◌, ◌<◌, ◌⊎◌, inl, inr, refl, sym, subst, true, false, some, length, if_both,
  arith,
}
use lzamp.Base.Int.{ℤ}
use lzamp.Protocol.{Message, zero_message}
use lzamp.Ring.Coherent.{IsCoherent}
use lzamp.Ring.Contents.{length-contents}
use lzamp.Endpoint.Receive.{receive}
use lzamp.Endpoint.State.{Direction, MemoryOps, ring_of, Host}
use lzamp.Endpoint.Outgoing.{queued}
use lzamp.Endpoint.Progress.{is_final, Receives, receive-Progress}
use lzamp.Driver.State.{Platform, Wire, Driver}
use lzamp.Driver.Control.{
  set_timeout_locked, expire, reject_frame, accept_frame, open_session, note_stop_ready, reopen,
  judge_frame, control_drain, control_work, control_round,
}
use lzamp.Driver.Invariant.{is_some}

module _ {K : Type 0} (p : Platform K) where
  final_stops :
      (ret : ℤ) (m : Message) (d : Driver K)
      → is_final ret ≡ true
      → (judge_frame p ret m d).1 ≡ false
  unfolding judge_frame reject_frame
  final_stops ret m d final = ground arith

  -- A frame is judged without another look at the memory.
  judge_frame-host :
      (ret : ℤ) (m : Message) (d : Driver K) → (judge_frame p ret m d).0.host ≡ d.host
  unfolding judge_frame reject_frame accept_frame set_timeout_locked expire open_session
      note_stop_ready reopen
  judge_frame-host ret m d = ground arith

  module _ (dir : Direction) (ops : MemoryOps (Wire K))
      (coherent : IsCoherent (ops.rings dir 0)) where
    control_drain-ends :
        (fuel : ℕ) (d : Driver K)
        → Receives dir ops 0 d.host
        → length (queued dir 0 d.host.memory) < fuel
        → is_some (control_drain p fuel d) ≡ true
    unfolding control_drain control_round
    control_drain-ends zero d s enough = absurd (omega arith)
    control_drain-ends (suc fuel) d s enough =
        let (ret, m, h) = receive 0 zero_message d.host in
        let seen = record d { host = h } in
        let next = judge_frame p ret m seen in
        let (less, kept) = receive-Progress dir ops 0 coherent zero_message d.host s in
        let same = judge_frame-host ret m seen in
        if_both (λ o. is_some o ≡ true) next.1 (control_drain p fuel next.0) (some next.0)
          (λ again. control_drain-ends fuel next.0 (subst (Receives dir ops 0) (sym same) kept) (
            subst (λ (x : Host (Wire K)). length (queued dir 0 x.memory) < fuel) (sym same)
              (fewer ret m seen less again)))
          (λ stop. refl)
      where
        fewer :
            (ret : ℤ) (m : Message) (seen : Driver K)
            → (is_final ret ≡ true)
              ⊎ (suc (length (queued dir 0 seen.host.memory)) ≡ length (queued dir 0 d.host.memory))
            → (judge_frame p ret m seen).1 ≡ true
            → length (queued dir 0 seen.host.memory) < fuel
        fewer ret m seen (inl final) again = ground (arith, final_stops ret m seen final)
        fewer ret m seen (inr less) again = omega arith

    -- Eight rounds are enough for the control work, whatever frames wait: on an endpoint that
    -- receives from a well-formed ring, whose memory does not change while the work runs, it ends.
    pub control_work-ends :
        (fuel : ℕ) (d : Driver K)
        → Receives dir ops 0 d.host
        → 7 < fuel
        → is_some (control_work p fuel d) ≡ true
    unfolding control_work
    control_work-ends fuel d s enough = ground (
      arith,
      control_drain-ends fuel d s,
      length-contents (ring_of dir 0 d.host.memory),
      s.valid.producer_in,
      s.valid.consumer_in,
    )
